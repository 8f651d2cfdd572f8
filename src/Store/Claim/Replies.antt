-- ===== src/Store/Claim/Replies.antt =====
-- That ClaimTask (internal/store/claim.go) answers.
use ermine_tq.Prelude.{
  ℕ, suc, String, Bool, true, false, ◌≡◌, refl, sym, subst, Option, none, some, List, [], ◌∷◌,
  leb_ℤ, ltb_ℤ, pos, if◌then◌else◌, Bool-cases, Option-cases, inl, inr, IsFresh, IsUnique,
  count_where,
}
use ermine_tq.Config.{Config, queue_limit, task_type_limit}
use ermine_tq.Store.Models.{Task}
use ermine_tq.Store.Db.{
  Db, Env, World, M, Reply, ok, err, and_then, with_ties, return, ◌>>=◌, statement, settle, exec_tx,
  deliver, write, emit, time_now, new_id,
}
use ermine_tq.Store.Statements.{task_key, attempt_key, event_key, is_running, insert_task_event}
use ermine_tq.Store.Claim.{
  claim_task, claim_tx, queue_full, type_full, eligible_types, claim_among, after_claim,
  record_claim, insert_attempt, announce_claim, claim_row, next_task,
}
use ermine_tq.Store.Runs.{Ensures}
use ermine_tq.Store.Refinement.Claims.{ClaimOutcome}
use ermine_tq.Store.Refinement.Calls.{claim_task-outcome}
use ermine_tq.Store.Control.Replies.{fair}

-- A reply that is no error, and what holds of it.
abbrev Gives {ℓ} : {A : Type ℓ} → Reply A × World → (A → World → Type 0) → Type 0
Gives (ok a, w) Q = Q a w
Gives (err e, w) Q = ⊥

Gives-bind {ℓ κ} :
    {A : Type ℓ} {B : Type κ} (r : Reply A × World) (f : A → M B) (Q : B → World → Type 0)
    → Gives r (λ a w. Gives (f a w) Q)
    → Gives (and_then r f) Q
unfolding and_then
Gives-bind (ok a, w) f Q h = h
Gives-bind (err e, w) f Q h = elim h [ ]

Gives-map {ℓ} :
    {A : Type ℓ} (r : Reply A × World) (P Q : A → World → Type 0)
    → ((a : A) (w : World) → P a w → Q a w)
    → Gives r P
    → Gives r Q
Gives-map (ok a, w) P Q f h = f a w h
Gives-map (err e, w) P Q f h = elim h [ ]

-- The next ids are fresh.
record Ready (names : ℕ → String) (w : World) : Type 0 where
  attempt_id : IsFresh attempt_key (names w.ids) w.db.attempts
  event_id : IsFresh event_key (names (suc w.ids)) w.db.events

module _ (names : ℕ → String) (clock : ℕ → ℕ) (tie : ℕ → String → ℕ) where
  instance abbrev calm : Env
  calm = record (fair names clock false) { tie = tie }

  -- A fresh attempt and a fresh event go in.
  record_claim-Gives :
      (worker_id : String) (now : ℕ) (t : Task) (w : World)
      → IsFresh attempt_key (names w.ids) w.db.attempts
      → IsFresh event_key (names (suc w.ids)) w.db.events
      → Gives (record_claim worker_id now t w) (λ r w'. Unit)
  unfolding record_claim insert_attempt insert_task_event and_then statement new_id
  record_claim-Gives worker_id now t w a e = rw (a, e) tt

  type_full-Gives :
      (cfg : Config) (type : String) (w : World)
      → Ready names w
      → Gives (type_full cfg type w) (λ b. Ready names)
  unfolding type_full and_then statement
  type_full-Gives cfg type w h = elim (Bool-cases (ltb_ℤ (pos 0) (task_type_limit cfg type))) [
    | inl b ↦ rw b (record { attempt_id = h.attempt_id; event_id = h.event_id })
    | inr b ↦ rw b h
  ]

  queue_full-Gives :
      (cfg : Config) (queue : String) (w : World)
      → Ready names w
      → Gives (queue_full cfg queue w) (λ b. Ready names)
  unfolding queue_full and_then statement
  queue_full-Gives cfg queue w h = elim (Bool-cases (ltb_ℤ (pos 0) (queue_limit cfg queue))) [
    | inl b ↦ rw b (record { attempt_id = h.attempt_id; event_id = h.event_id })
    | inr b ↦ rw b h
  ]

  eligible-Gives :
      (cfg : Config) (types : List String) (w : World)
      → Ready names w
      → Gives (eligible_types cfg types w) (λ left. Ready names)
  unfolding eligible_types
  eligible-Gives cfg [] w h = h
  eligible-Gives cfg (type ∷ types) w h = Gives-bind (type_full cfg type w) _ _ (
      Gives-map (type_full cfg type w) _ _
        (λ full w' k. Gives-bind (eligible_types cfg types w') _ _ (eligible-Gives cfg types w' k))
        (type_full-Gives cfg type w h))

  after_claim-Gives :
      (worker_id : String) (now : ℕ) (row : Option Task) (w : World)
      → Ready names w
      → Gives (after_claim worker_id now row w) (λ r w'. Unit)
  unfolding after_claim
  after_claim-Gives worker_id now none w h = tt
  after_claim-Gives worker_id now (some t) w h =
      record_claim-Gives worker_id now t w h.attempt_id h.event_id

  claim_row-same :
      (rank : String → ℕ) (queue : String) (left : List String) (now : ℕ) (d : Db)
      → ((claim_row rank queue left now d).1.attempts ≡ d.attempts)
        × ((claim_row rank queue left now d).1.events ≡ d.events)
  unfolding claim_row
  claim_row-same rank queue left now d =
      elim (Option-cases (next_task rank queue left now d.tasks)) [
        | inl e ↦ rw (e, claim_row) (refl, refl)
        | inr (t, e) ↦ rw (e, claim_row) (refl, refl)
      ]

  claim_among-Gives :
      (worker_id queue : String) (now : ℕ) (left : List String) (w : World)
      → Ready names w
      → Gives (claim_among worker_id queue now left w) (λ r w'. Unit)
  unfolding claim_among and_then statement with_ties
  claim_among-Gives worker_id queue now [] w h = tt
  claim_among-Gives worker_id queue now (type ∷ types) w h =
      let (same_attempts, same_events) =
        claim_row-same (tie w.statements) queue (type ∷ types) now w.db in
      after_claim-Gives worker_id now (claim_row (tie w.statements) queue (type ∷ types) now w.db).0
        _
        (record {
          attempt_id = subst (IsFresh attempt_key (names w.ids)) (sym same_attempts) h.attempt_id;
          event_id = subst (IsFresh event_key (names (suc w.ids))) (sym same_events) h.event_id;
        })

  among-Gives :
      (worker_id queue : String) (now : ℕ) (types : List String) (cfg : Config) (full : Bool)
      (w : World)
      → Ready names w
      → Gives
          ((if full then return none else (do
            eligible ← eligible_types cfg types
            claim_among worker_id queue now eligible))
            w)
          (λ r w'. Unit)
  among-Gives worker_id queue now types cfg true w h = tt
  among-Gives worker_id queue now types cfg false w h =
      Gives-bind (eligible_types cfg types w) _ _ (
        Gives-map (eligible_types cfg types w) _ _
          (λ left w' k. claim_among-Gives worker_id queue now left w' k)
          (eligible-Gives cfg types w h))

  -- After the reading of the clock and the count of the running tasks.
  abbrev counted : World → World
  counted w = record w { readings = suc w.readings; statements = suc w.statements }

  claim_tx-Gives :
      (worker_id queue : String) (types : List String) (cfg : Config) (w : World)
      → Ready names w
      → Gives (claim_tx worker_id queue types cfg w) (λ r w'. Unit)
  unfolding claim_tx time_now statement and_then
  claim_tx-Gives worker_id queue types cfg w h =
      elim (Bool-cases (leb_ℤ cfg.limits.global (pos (count_where is_running w.db.tasks)))) [
        | inl g ↦ rw g tt
        | inr g ↦ rw g (
            Gives-bind (queue_full cfg queue (counted w)) _ _ (
              Gives-map (queue_full cfg queue (counted w)) _ _
                (λ full w' k. among-Gives worker_id queue _ types cfg full w' k)
                (queue_full-Gives cfg queue (counted w)
                  (record { attempt_id = h.attempt_id; event_id = h.event_id }))))
      ]

  settle-Gives {ℓ} :
      {A : Type ℓ} (before : Db) (r : Reply A × World)
      → Gives r (λ a w. Unit)
      → Gives (settle before r) (λ a w. Unit)
  unfolding settle
  settle-Gives before (ok a, w) h = tt
  settle-Gives before (err e, w) h = elim h [ ]

  announce_claim-Gives :
      (r : Option (Task × String)) (w : World) → Gives (announce_claim r w) (λ x w'. Unit)
  unfolding announce_claim emit and_then time_now
  announce_claim-Gives none w = tt
  announce_claim-Gives (some (t, id)) w = tt

  -- The write is taken, and the transaction begun.
  abbrev begun : World → World
  begun w = record w { statements = suc w.statements; writes = suc w.writes }

  claim_task-Gives :
      (worker_id queue : String) (types : List String) (cfg : Config) (w : World)
      → Ready names w
      → Gives (claim_task worker_id queue types cfg w) (λ r w'. Unit)
  unfolding claim_task write deliver exec_tx
  claim_task-Gives worker_id queue [] cfg w h = tt
  claim_task-Gives worker_id queue (type ∷ types) cfg w h =
      Gives-bind (settle w.db (claim_tx worker_id queue (type ∷ types) cfg (begun w))) _ _ (
        Gives-map (settle w.db (claim_tx worker_id queue (type ∷ types) cfg (begun w))) _ _
          (λ r w' k. announce_claim-Gives r w')
          (settle-Gives w.db _ (
            claim_tx-Gives worker_id queue (type ∷ types) cfg (begun w)
              (record { attempt_id = h.attempt_id; event_id = h.event_id }))))

  both :
      (P : Option (Task × String) → Db → Type 0) (r : Reply (Option (Task × String)) × World)
      → Gives r (λ x w. Unit)
      → Ensures r P
      → (x : Option (Task × String)) × ((r.0 ≡ ok x) × P x r.1.db)
  both P (ok x, w) h k = (x, (refl, k))
  both P (err e, w) h k = elim h [ ]

  -- The driver does not fail, the write is answered, REFERENCES is not enforced, the ids of the
  -- tasks are distinct, and the next two ids are fresh among the attempts and the events. Then
  -- ClaimTask returns without an error: no task and the tables as they were, and then the system or
  -- the queue is at its limit, or no task of the queue is queued, due and of one of the given types
  -- that is below its limit; or such a task, the first in the order of priority and then age, with a
  -- fresh id of an attempt and with room under all three limits, and the tables differ by what a
  -- claim writes.
  pub claim_task-answers :
      (worker_id queue : String) (types : List String) (cfg : Config) (w : World)
      → IsUnique task_key w.db.tasks
      → IsFresh attempt_key (names w.ids) w.db.attempts
      → IsFresh event_key (names (suc w.ids)) w.db.events
      → let r = claim_task worker_id queue types cfg w in
        (x : Option (Task × String)) × ((r.0 ≡ ok x)
          × ClaimOutcome calm cfg worker_id queue types w.db x r.1.db)
  claim_task-answers worker_id queue types cfg w u a e =
      both _ (claim_task worker_id queue types cfg w)
        (claim_task-Gives worker_id queue types cfg w (record { attempt_id = a; event_id = e }))
        (claim_task-outcome cfg worker_id queue types w u)
