-- ===== src/Store/Refinement/Claims.antt =====
-- ClaimTask (internal/store/claim.go) against the contract.
use ermine_tq.Prelude.{
  ℕ, suc, String, true, false, ◌≡◌, refl, sym, ap, subst, inl, inr, Option, none, some, List, [],
  ◌∷◌, leb_ℤ, pos, eq_iff, Option-cases, IsUnique, IsFresh, by_key, update_where, count_where,
  first-update_key, All, All-each, arith,
}
use ermine_tq.Config.{Config, queue_limit}
use ermine_tq.Store.Models.{Task, TaskEvent, fmt_db_time}
use ermine_tq.Store.Db.{Db, Env}
use ermine_tq.Store.Statements.{task_key, attempt_key, is_running}
use ermine_tq.Store.Runs.{
  Runs, Runs-bind, Runs-return, Runs-time, Runs-query, Runs-total, Runs-ties, Runs-exec,
  Runs-insert, Runs-new_id, Runs-event, Runs-if,
}
use ermine_tq.Store.Claim.{
  runs_in, is_claimable, set_running, next_task, claim_row, insert_attempt, record_claim,
  after_claim, claim_among, claim_tx, new_attempt, max_attempt_num,
}
use ermine_tq.Store.Steps.{HasRoom, at_limit, claimed}
use ermine_tq.Store.Refinement.Eligible.{
  IsNext, next_task-IsNext, next_task-none, none_of, AreEligible, Runs-queue_full, Runs-eligible,
}

-- The reasons why a claim takes nothing: the limits, or no task that may be claimed.
pub data IsIdle (cfg : Config) (queue : String) (types : List String) (now : ℕ) (ts : List Task)
    : Type 0 where
  system_full :
      leb_ℤ cfg.limits.global (pos (count_where is_running ts)) ≡ true
      → IsIdle cfg queue types now ts
  at_queue_limit :
      at_limit (queue_limit cfg queue) (count_where (runs_in queue) ts) ≡ true
      → IsIdle cfg queue types now ts
  none_claimable :
      (left : List String)
      → AreEligible cfg ts types left
      → All (λ t. is_claimable queue left now t ≡ false) ts
      → IsIdle cfg queue types now ts

-- The text of a reading of the clock.
abbrev pub IsReading : Env → ℕ → Type 0
IsReading env now = (n : ℕ) × (now ≡ fmt_db_time (env.clock n))

-- What a committed claim returns and leaves behind.
pub data ClaimOutcome (env : Env) (cfg : Config) (worker_id queue : String) (types : List String)
    (d : Db) : Option (Task × String) → Db → Type 0 where
  nothing :
      (now : ℕ)
      → IsReading env now
      → IsIdle cfg queue types now d.tasks
      → ClaimOutcome env cfg worker_id queue types d none d
  taken :
      (left : List String) (t : Task) (id : String) (now : ℕ) (e : TaskEvent)
      → IsReading env now
      → AreEligible cfg d.tasks types left
      → IsNext queue left now d.tasks t
      → HasRoom cfg d.tasks t
      → IsFresh attempt_key id d.attempts
      → ClaimOutcome env cfg worker_id queue types d (some (set_running now t, id)) (
          claimed d t
            (new_attempt id t.id (suc (max_attempt_num t.id d.attempts)) worker_id now)
            worker_id
            now
            e)

claim_row-none :
    (tie : String → ℕ) (queue : String) (left : List String) (now : ℕ) (d : Db)
    → next_task tie queue left now d.tasks ≡ none
    → claim_row tie queue left now d ≡ (none, d)
unfolding claim_row
claim_row-none tie queue left now d e = rw (e, claim_row)

claim_row-some :
    (tie : String → ℕ) (queue : String) (left : List String) (now : ℕ) (d : Db) (t : Task)
    → IsNext queue left now d.tasks t
    → next_task tie queue left now d.tasks ≡ some t
    → claim_row tie queue left now d ≡ (
      some (set_running now t),
      record d { tasks = update_where (by_key task_key t.id) (set_running now) d.tasks },
    )
unfolding claim_row set_running
claim_row-some tie queue left now d t n e =
    rw (e, claim_row)
      (ap
        (λ o.
          (o, record d { tasks = update_where (by_key task_key t.id) (set_running now) d.tasks }))
        (first-update_key task_key t.id (set_running now) (λ r. refl) d.tasks t n.held))

-- The queue and the type of the row that is claimed are below their limits.
claimable_room :
    (cfg : Config) (queue : String) (types left : List String) (now : ℕ) (ts : List Task) (t : Task)
    → leb_ℤ cfg.limits.global (pos (count_where is_running ts)) ≡ false
    → at_limit (queue_limit cfg queue) (count_where (runs_in queue) ts) ≡ false
    → AreEligible cfg ts types left
    → is_claimable queue left now t ≡ true
    → HasRoom cfg ts t
unfolding is_claimable
claimable_room cfg queue types left now ts t g q el c = record {
  globally = g;
  in_queue =
      subst (λ s. at_limit (queue_limit cfg s) (count_where (runs_in s) ts) ≡ false)
        (sym ((eq_iff t.queue queue).0 (ground arith))) q;
  in_type = ground (arith, el t.type);
}

module _ ⦃env : Env⦄ (cfg : Config) (worker_id queue : String) (types : List String) (d : Db) where
  record_claim-taken :
      (left : List String) (t : Task) (now : ℕ)
      → IsReading env now
      → AreEligible cfg d.tasks types left
      → IsNext queue left now d.tasks t
      → HasRoom cfg d.tasks t
      → Runs
          (record d { tasks = update_where (by_key task_key t.id) (set_running now) d.tasks })
          (record_claim worker_id now (set_running now t))
          (ClaimOutcome env cfg worker_id queue types d)
  unfolding record_claim insert_attempt set_running
  record_claim-taken left t now read el n room = Runs-bind (
      Runs-new_id λ k. Runs-bind (
        Runs-query _ (
          Runs-bind (
            Runs-insert _ _ λ fresh. Runs-bind (
              Runs-exec _ (
                Runs-bind (
                  Runs-event _ _ _ _ λ e.
                    Runs-return
                      (taken left t (env.new_id k) now _ read el n room (ground arith)))))))))

  claim_among-outcome :
      (left : List String) (now : ℕ)
      → IsReading env now
      → IsUnique task_key d.tasks
      → leb_ℤ cfg.limits.global (pos (count_where is_running d.tasks)) ≡ false
      → at_limit (queue_limit cfg queue) (count_where (runs_in queue) d.tasks) ≡ false
      → AreEligible cfg d.tasks types left
      → Runs d (claim_among worker_id queue now left) (ClaimOutcome env cfg worker_id queue types d)
  unfolding claim_among after_claim
  claim_among-outcome [] now read u g q el =
      Runs-return (nothing now read (none_claimable [] el (All-each _ (none_of queue now) d.tasks)))
  claim_among-outcome (type ∷ rest) now read u g q el = Runs-bind (
      Runs-ties λ tie. elim (Option-cases (next_task tie queue (type ∷ rest) now d.tasks)) [
        | inl e ↦ Runs-total _ (
            rw (claim_row-none _ _ _ _ d e)
              (Runs-return (nothing now read (none_claimable _ el (next_task-none _ _ _ _ _ e)))))
        | inr (t, e) ↦
            let n = next_task-IsNext tie queue (type ∷ rest) now d.tasks t u e in
            Runs-total _ (
              rw (claim_row-some _ _ _ _ d t n e) (
                record_claim-taken (type ∷ rest) t now read el n
                  (claimable_room cfg queue types (type ∷ rest) now d.tasks t g q el n.claimable)))
      ])

  -- A claim takes a best claimable task among the types that have room, or it takes nothing.
  pub claim_tx-outcome :
      IsUnique task_key d.tasks
      → Runs d (claim_tx worker_id queue types cfg) (ClaimOutcome env cfg worker_id queue types d)
  unfolding claim_tx
  claim_tx-outcome u = Runs-bind (
      Runs-time λ t. Runs-bind (
        Runs-query _ (
          Runs-if _ (λ g. Runs-return (nothing _ (t, refl) (system_full g)))
            λ g. Runs-bind (
              Runs-queue_full cfg queue (
                Runs-if _ (λ q. Runs-return (nothing _ (t, refl) (at_queue_limit q)))
                  λ q. Runs-bind (
                    Runs-eligible cfg types
                      λ left el. claim_among-outcome left _ (t, refl) u g q el))))))
