-- ===== src/Store/Invariant/Endings.antt =====
-- The calls that end an attempt, in histories (internal/store/attempts.go, TimeoutAttempt of internal/store/maintenance.go).
use ermine_tq.Prelude.{
  String, false, ◌≡◌, refl, Option, some, List, by_key, first_where, first-update_where,
  first-append, first-update_key, if◌then◌else◌, Bool-cases, inl, inr, arith,
}
use ermine_tq.Config.{Config}
use ermine_tq.Store.Models.{Attempt}
use ermine_tq.Store.Db.{Db, Env, World, M, Reply, ok, err, Error}
use ermine_tq.Store.Statements.{attempt_key, is_live}
use ermine_tq.Store.Runs.{Ensures, Runs-map}
use ermine_tq.Store.Runs.Writes.{Runs-emit, write_then-Ensures}
use ermine_tq.Store.Attempts.{succeed_attempt, fail_attempt, cancel_attempt, timeout_attempt}
use ermine_tq.Store.Operations.{Op, succeeds, fails, times_out, cancels_attempt, perform, run}
use ermine_tq.Store.Steps.{
  Step, Steps, here, next, create, claim, end, control, replace, requeue, beat, register, schedule,
}
use ermine_tq.Store.Refinement.Performs.{NamesAreGiven, perform-Steps}
use ermine_tq.Store.Refinement.Endings.{
  Ends, ends, succeed_tx-Ends, cancel_tx-Ends, end_failed-Ends,
}
use ermine_tq.Store.Invariant.Histories.{IsConsistent, IdsAreUnused, Steps-IsConsistent, run-Steps}

-- The attempt is in the table, and it does not run.
pub record IsOver (id : String) (d : Db) : Type 0 where
  pub attempt : Attempt
  pub held : first_where (by_key attempt_key id) d.attempts ≡ some attempt
  pub over : is_live attempt ≡ false

pub Step-IsOver :
    {cfg : Config} {id : String} {d d' : Db} → Step cfg d d' → IsOver id d → IsOver id d'
Step-IsOver (create t e fresh q none_yet) h = record {
  attempt = h.attempt;
  held = h.held;
  over = h.over;
}
Step-IsOver (claim t id worker_id now e found queued room fresh) h = record {
  attempt = h.attempt;
  held = first-append _ _ _ _ h.held;
  over = h.over;
}
Step-IsOver {id} {d} (end key a f g e found live is_end moves spends) h = record {
  attempt = if by_key attempt_key key h.attempt then f h.attempt else h.attempt;
  held = first-update_where attempt_key _ id f is_end.same_id d.attempts h.attempt h.held;
  over = elim (Bool-cases (by_key attempt_key key h.attempt)) [
    | inl b ↦ rw b (is_end.over h.attempt)
    | inr b ↦ rw b h.over
  ];
}
Step-IsOver (control id t g e found moves spends) h = record {
  attempt = h.attempt;
  held = h.held;
  over = h.over;
}
Step-IsOver (replace id t g new e found moves fresh q none_yet spends) h = record {
  attempt = h.attempt;
  held = h.held;
  over = h.over;
}
Step-IsOver (requeue now) h = record { attempt = h.attempt; held = h.held; over = h.over }
Step-IsOver {id} {d} (beat key now) h = record {
  attempt = _;
  held = first-update_where attempt_key _ id _ (λ r. refl) d.attempts h.attempt h.held;
  over = ground (arith, h.over);
}
Step-IsOver (register w fresh given unused zero idle some_room) h = record {
  attempt = h.attempt;
  held = h.held;
  over = h.over;
}
Step-IsOver (schedule ss) h = record { attempt = h.attempt; held = h.held; over = h.over }

pub Steps-IsOver :
    {cfg : Config} {id : String} {d d' : Db} → IsOver id d → Steps cfg d d' → IsOver id d'
Steps-IsOver h here = h
Steps-IsOver h (next r s) = Step-IsOver s (Steps-IsOver h r)

pub Ends-IsOver : (id : String) (d d' : Db) → Ends id d d' → IsOver id d'
Ends-IsOver id d _ (ends a f g e found live over moves spends) = record {
  attempt = f a;
  held = first-update_key attempt_key id f over.same_id d.attempts a found;
  over = over.over a;
}

-- The four calls that end an attempt.
pub data Ending : Type 0 where
  succeeding : Option String → Ending
  failing : String → Ending
  timing_out cancelling : Ending

module _ ⦃env : Env⦄ where
  abbrev pub end_with : Ending → String → M (Unit {0})
  end_with (succeeding result) id = succeed_attempt id result
  end_with (failing message) id = fail_attempt id message
  end_with timing_out id = timeout_attempt id
  end_with cancelling id = cancel_attempt id

  -- What every ending of the attempt makes true holds after such a call, if it succeeds.
  pub end_with-Ensures {κ} :
      (x : Ending) (id : String) (w : World) (Q : Db → Type κ)
      → ((d : Db) → Ends id w.db d → Q d)
      → Ensures (end_with x id w) (λ _. Q)
  unfolding succeed_attempt fail_attempt timeout_attempt cancel_attempt
  end_with-Ensures (succeeding result) id w Q q =
      write_then-Ensures _ _ _ w
        (Runs-map (λ a d h. Runs-emit _ _ (q d h)) (succeed_tx-Ends w.db id result))
  end_with-Ensures (failing message) id w Q q =
      write_then-Ensures _ _ _ w
        (Runs-map (λ a d h. Runs-emit _ _ (q d h)) (end_failed-Ends w.db id message _ _))
  end_with-Ensures timing_out id w Q q =
      write_then-Ensures _ _ _ w
        (Runs-map (λ a d h. Runs-emit _ _ (q d h)) (end_failed-Ends w.db id _ _ _))
  end_with-Ensures cancelling id w Q q =
      write_then-Ensures _ _ _ w
        (Runs-map (λ a d h. Runs-emit _ _ (q d h)) (cancel_tx-Ends w.db id))

  -- An attempt that is over is not ended.
  over-Ends : (id : String) (d d' : Db) → IsOver id d → Ends id d d' → ⊥
  over-Ends id d _ h (ends a f g e found live over moves spends) =
      ground (arith, h.held, h.over, found, live)

  -- The call returns an error.
  abbrev pub IsRefused {ℓ} : {A : Type ℓ} → Reply A × World → Type ℓ
  IsRefused r = (e : Error) × (r.0 ≡ err e)

  Ensures-IsRefused {ℓ} : {A : Type ℓ} (r : Reply A × World) → Ensures r (λ _ _. ⊥) → IsRefused r
  Ensures-IsRefused (ok a, w) h = elim h [ ]
  Ensures-IsRefused (err e, w) h = (e, refl)

  Ensures-ok {ℓ κ} :
      {A : Type ℓ} (r : Reply A × World) (a : A) (Q : Db → Type κ)
      → Ensures r (λ _. Q)
      → r.0 ≡ ok a
      → Q r.1.db
  Ensures-ok (ok a, w) b Q h e = h
  Ensures-ok (err e, w) b Q h p = cc

  end_with-Steps :
      (cfg : Config)
      → NamesAreGiven env
      → (x : Ending) (id : String) (w : World) → IsConsistent cfg w.db
      → Steps cfg w.db (end_with x id w).1.db
  unfolding perform
  end_with-Steps cfg named (succeeding result) id w h =
      perform-Steps cfg named (succeeds id result) w h.tasks_unique tt
  end_with-Steps cfg named (failing message) id w h =
      perform-Steps cfg named (fails id message) w h.tasks_unique tt
  end_with-Steps cfg named timing_out id w h =
      perform-Steps cfg named (times_out id) w h.tasks_unique tt
  end_with-Steps cfg named cancelling id w h =
      perform-Steps cfg named (cancels_attempt id) w h.tasks_unique tt

  -- The tables are those that a history of calls can leave. If one of SucceedAttempt, FailAttempt,
  -- TimeoutAttempt and CancelAttempt succeeds on an attempt, then after any further history of
  -- calls each of the four returns an error on this attempt.
  pub ends_once :
      (cfg : Config)
      → NamesAreGiven env
      → (x y : Ending) (id : String) (ops : List Op) (w : World) → IsConsistent cfg w.db
      → (end_with x id w).0 ≡ ok tt
      → IdsAreUnused cfg ops (end_with x id w).1
      → IsRefused (end_with y id (run cfg ops (end_with x id w).1))
  ends_once cfg named x y id ops w h e unused =
      let w' = (end_with x id w).1 in
      let over : IsOver id w'.db =
        Ensures-ok _ tt (IsOver id) (end_with-Ensures x id w (IsOver id) (Ends-IsOver id w.db)) e in
      let later = Steps-IsOver over (
        run-Steps cfg named ops w' unused
          (Steps-IsConsistent h (end_with-Steps cfg named x id w h))) in
      Ensures-IsRefused _
        (end_with-Ensures y id (run cfg ops w') (λ _. ⊥) (λ d. over-Ends id _ d later))
