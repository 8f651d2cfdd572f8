-- ===== src/Queue/Results.antt =====
-- What RunOnce (internal/queue/worker.go) writes of a handler's outcome into the attempt's row.
pub mod Rows
use ermine_tq.Prelude.{
  ℕ, zero, suc, String, Bool, true, false, ◌≡◌, refl, sym, ap, ◌∙◌, subst, Option, none, some, List,
  [], ◌∷◌, arith, IsFresh, IsUnique, by_key, first_where, first-append_fresh, first-update_key,
  first-update_where, update_where,
}
use ermine_tq.Store.Models.{Task, Attempt, AttemptStatus, TaskStatus}
use ermine_tq.Store.Db.{Db, Env, World, Reply, Error, ok, err}
use ermine_tq.Store.Statements.{task_key, attempt_key}
use ermine_tq.Store.Attempts.{
  set_succeeded, set_failed, succeed_tx, end_failed, succeed_attempt, fail_attempt, heartbeat_tx,
  update_heartbeat,
}
use ermine_tq.Store.Claim.{set_running}
use ermine_tq.Store.Runs.{
  Ensures, Ensures-map, Runs-bind, Runs-return, Runs-time, Runs-query, Runs-or_fail, Runs-exec,
  Runs-load, Runs-release, Runs-event,
}
use ermine_tq.Store.Runs.Writes.{Runs-emit, write_then-Ensures, write-keeps}
use ermine_tq.Store.Refinement.Claims.{ClaimOutcome, nothing, taken}
use ermine_tq.Store.Refinement.Calls.{claim_task-outcome}
use ermine_tq.Store.Refinement.Endings.{spend_retry-moves}
use ermine_tq.Queue.Registry.{Dispatched, result, failure, dispatch, task_types}
use ermine_tq.Queue.RunOnce.{
  RunConfig, keep_alive, reported, report_outcome, execute, after_claim_of, run_types, run_once,
}
use ermine_tq.Queue.Results.Rows.{
  HasRow, HasOutcome, keep_alive-HasRow, succeed-HasOutcome, fail-HasOutcome,
}

-- A task that was queued has been run by its handler, as a new attempt at it tells.
pub record IsRun (cfg : RunConfig) (before after : Db) : Type 0 where
  pub task : Task
  pub attempt_id : String
  pub held : first_where (by_key task_key task.id) before.tasks ≡ some task
  pub queued : task.status ≡ TaskStatus.queued
  pub fresh : IsFresh attempt_key attempt_id before.attempts
  pub outcome :
      HasOutcome attempt_id task.id
        (dispatch cfg.panic_text cfg.missing_text cfg.registry task)
        after

module _ ⦃env : Env⦄ where
  -- What RunOnce's result stands for: a task that was run, or untouched tables.
  abbrev pub Done : RunConfig → Db → Bool → Db → Type 0
  Done cfg before true d = IsRun cfg before d
  Done cfg before false d = d ≡ before

  reported-Done :
      (cfg : RunConfig) (before : Db) (r : Reply (Unit {0}) × World)
      → Ensures r (λ _ d. IsRun cfg before d)
      → Ensures (reported (ok true) r) (Done cfg before)
  unfolding reported
  reported-Done cfg before (ok _, w) h = h
  reported-Done cfg before (err e, w) h = tt

  cancelled-Done :
      (cfg : RunConfig) (before : Db) (e : Error) (r : Reply (Unit {0}) × World)
      → Ensures (reported (err e) r) (Done cfg before)
  unfolding reported
  cancelled-Done cfg before e (ok _, w) = tt
  cancelled-Done cfg before e (err x, w) = tt

  -- The handler has ended; `make` puts its outcome in the row together with what the claim left.
  report_outcome-Done :
      (cfg : RunConfig) (before : Db) (c : Bool) (o : Dispatched) (id task_id : String) (w : World)
      → HasRow id task_id w.db
      → ((d : Db) → HasOutcome id task_id o d → IsRun cfg before d)
      → Ensures (report_outcome c o id w) (Done cfg before)
  unfolding report_outcome
  report_outcome-Done cfg before true o id task_id w h make = cancelled-Done cfg before _ _
  report_outcome-Done cfg before false (failure message) id task_id w h make =
      reported-Done cfg before _ (
        Ensures-map (fail_attempt id message w) _ _ (λ _. make)
          (fail-HasOutcome id task_id message w h))
  report_outcome-Done cfg before false (result r) id task_id w h make =
      reported-Done cfg before _
        (Ensures-map (succeed_attempt id r w) _ _ (λ _. make) (succeed-HasOutcome id task_id r w h))

  execute-Done :
      (cfg : RunConfig) (types : List String) (before : Db) (t : Task) (id : String) (w : World)
      (d : Db)
      → w.db ≡ d
      → ClaimOutcome env cfg.config cfg.worker_id cfg.queue types before (some (t, id)) d
      → Ensures (execute cfg t id w) (Done cfg before)
  unfolding execute dispatch set_running
  execute-Done cfg types before _ _ w _ e (taken left t id now event read el n room fresh) =
      report_outcome-Done cfg before _ _ id t.id (keep_alive id (cfg.beats w) w)
        (keep_alive-HasRow id t.id (cfg.beats w) w (
          subst (HasRow id t.id) (sym e) record {
            attempt = _;
            held = first-append_fresh attempt_key _ before.attempts fresh;
            at_task = refl;
          }))
        λ d h. record {
          task = t;
          attempt_id = id;
          held = n.held;
          queued = n.queued;
          fresh = fresh;
          outcome = h;
        }

  claimed-Done :
      (cfg : RunConfig) (types : List String) (before : Db)
      (r : Reply (Option (Task × String)) × World)
      → Ensures r (ClaimOutcome env cfg.config cfg.worker_id cfg.queue types before)
      → Ensures (after_claim_of cfg r) (Done cfg before)
  unfolding after_claim_of
  claimed-Done cfg types before (err e, w) h = tt
  claimed-Done cfg types before (ok none, w) h = untouched w.db h
    where
      untouched :
          (d : Db)
          → ClaimOutcome env cfg.config cfg.worker_id cfg.queue types before none d
          → d ≡ before
      untouched _ (nothing now read idle) = refl
  claimed-Done cfg types before (ok (some (t, id)), w) h =
      execute-Done cfg types before t id w w.db refl h

  run_types-Done :
      (cfg : RunConfig) (types : List String) (w : World)
      → IsUnique task_key w.db.tasks
      → Ensures (run_types cfg types w) (Done cfg w.db)
  unfolding run_types
  run_types-Done cfg [] w u = refl
  run_types-Done cfg (type ∷ types) w u =
      claimed-Done cfg (type ∷ types) w.db _
        (claim_task-outcome cfg.config cfg.worker_id cfg.queue (type ∷ types) w u)

  -- The ids of the tasks are distinct. If RunOnce returns true, then a task that was queued has
  -- been run: a new attempt at it is in the table, which has succeeded with the result of the
  -- handler of its type, or has failed with the text of the handler's error, of its panic, or of a
  -- missing handler. If RunOnce returns false without an error, the tables are as before. This holds
  -- however often the heartbeat beats, whenever the context ends, and whatever faults the store meets.
  pub run_once-Done :
      (cfg : RunConfig) (w : World)
      → IsUnique task_key w.db.tasks
      → Ensures (run_once cfg w) (Done cfg w.db)
  unfolding run_once
  run_once-Done cfg w u = run_types-Done cfg (task_types cfg.registry) w u
