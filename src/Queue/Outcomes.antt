-- ===== src/Queue/Outcomes.antt =====
-- What RunOnce (internal/queue/worker.go) has done when it returns.
use ermine_tq.Prelude.{
  String, Bool, true, false, ◌≡◌, refl, Option, none, some, List, [], ◌∷◌, IsFresh, IsUnique,
}
use ermine_tq.Store.Models.{Task}
use ermine_tq.Store.Db.{Db, Env, World, Reply, Error, ok, err}
use ermine_tq.Store.Statements.{task_key, attempt_key}
use ermine_tq.Store.Runs.{Ensures}
use ermine_tq.Store.Refinement.Claims.{ClaimOutcome, nothing, taken}
use ermine_tq.Store.Refinement.Calls.{claim_task-outcome}
use ermine_tq.Store.Invariant.Endings.{IsOver, Ends-IsOver, end_with-Ensures, succeeding, failing}
use ermine_tq.Queue.Registry.{Dispatched, result, failure, task_types}
use ermine_tq.Queue.RunOnce.{
  RunConfig, reported, report_outcome, execute, after_claim_of, run_types, run_once,
}

-- An attempt that was not in the table is there and over.
abbrev pub HasEnded : Db → Db → Type 0
HasEnded d d' = (id : String) × (IsFresh attempt_key id d.attempts × IsOver id d')

-- RunOnce's result, against the tables before and after: `true` stands for an ended attempt, and
-- `false` for untouched tables.
abbrev IsReported : Db → Bool → Db → Type 0
IsReported d true d' = HasEnded d d'
IsReported d false d' = d' ≡ d

module _ ⦃env : Env⦄ where
  reported-Ensures :
      (before : Db) (r : Reply (Unit {0}) × World)
      → Ensures r (λ _ d. HasEnded before d)
      → Ensures (reported (ok true) r) (IsReported before)
  unfolding reported
  reported-Ensures before (ok _, w) h = h
  reported-Ensures before (err e, w) h = tt

  cancelled-Ensures :
      (before : Db) (e : Error) (r : Reply (Unit {0}) × World)
      → Ensures (reported (err e) r) (IsReported before)
  unfolding reported
  cancelled-Ensures before e (ok _, w) = tt
  cancelled-Ensures before e (err x, w) = tt

  report_outcome-Ensures :
      (before : Db) (c : Bool) (d : Dispatched) (id : String) (w : World)
      → IsFresh attempt_key id before.attempts
      → Ensures (report_outcome c d id w) (IsReported before)
  unfolding report_outcome
  report_outcome-Ensures before true d id w fresh = cancelled-Ensures before _ _
  report_outcome-Ensures before false (failure message) id w fresh = reported-Ensures before _ (
      end_with-Ensures (failing message) id w (HasEnded before)
        (λ d h. (id, (fresh, Ends-IsOver id w.db d h))))
  report_outcome-Ensures before false (result r) id w fresh = reported-Ensures before _ (
      end_with-Ensures (succeeding r) id w (HasEnded before)
        (λ d h. (id, (fresh, Ends-IsOver id w.db d h))))

  claimed-Ensures :
      (cfg : RunConfig) (types : List String) (before : Db)
      (r : Reply (Option (Task × String)) × World)
      → Ensures r (ClaimOutcome env cfg.config cfg.worker_id cfg.queue types before)
      → Ensures (after_claim_of cfg r) (IsReported before)
  unfolding after_claim_of execute
  claimed-Ensures cfg types before (err e, w) h = tt
  claimed-Ensures cfg types before (ok none, w) h = untouched w.db h
    where
      untouched :
          (d : Db)
          → ClaimOutcome env cfg.config cfg.worker_id cfg.queue types before none d
          → d ≡ before
      untouched _ (nothing now read idle) = refl
  claimed-Ensures cfg types before (ok (some (t, id)), w) h =
      report_outcome-Ensures before _ _ id _ (fresh_id t id w.db h)
    where
      fresh_id :
          (c : Task) (key : String) (d : Db)
          → ClaimOutcome env cfg.config cfg.worker_id cfg.queue types before (some (c, key)) d
          → IsFresh attempt_key key before.attempts
      fresh_id _ _ _ (taken left claimed attempt_id now e read el n room fresh) = fresh

  run_types-Ensures :
      (cfg : RunConfig) (types : List String) (w : World)
      → IsUnique task_key w.db.tasks
      → Ensures (run_types cfg types w) (IsReported w.db)
  unfolding run_types
  run_types-Ensures cfg [] w u = refl
  run_types-Ensures cfg (type ∷ types) w u =
      claimed-Ensures cfg (type ∷ types) w.db _
        (claim_task-outcome cfg.config cfg.worker_id cfg.queue (type ∷ types) w u)

  -- The ids of the tasks are distinct. If RunOnce returns true, an attempt that was not there before
  -- is in the table and has ended; if it returns false without an error, the tables are as before. This holds
  -- whatever the handlers do, however often the heartbeat beats, whenever the context ends, and
  -- whatever faults the store meets.
  run_once-IsReported :
      (cfg : RunConfig) (w : World)
      → IsUnique task_key w.db.tasks
      → Ensures (run_once cfg w) (IsReported w.db)
  unfolding run_once
  run_once-IsReported cfg w u = run_types-Ensures cfg (task_types cfg.registry) w u
