-- ===== src/Examples.antt =====
-- Concrete environments and histories, tests of the definitions, and the theorems at inputs.
mod Calls
mod Requests
mod Settings
mod Channels
mod Scripts
mod Servers
mod Rows
mod Stores
mod Polls
mod Samples
use mathlib.Core.Bool.{false}
use ermine_tq.Store.Statements.{order_rows}
use ermine_tq.Store.Db.{with_ties}
use ermine_tq.Prelude.{
  ℕ, zero, suc, String, ◌≡◌, refl, List, [], ◌∷◌, none, pos, negsuc, arith, All, count_where, map,
  first_where, order_by, select_where, update_where, by_key, IsFresh, ◌-◌, ◌*◌, ◌^◌, ◌<◌,
}
use ermine_tq.Config.{Config, queue_limit, task_type_limit}
use ermine_tq.Store.Models.{TaskStatus, status_eq, attempt_status_eq, fmt_db_time}
use ermine_tq.Store.Statements.{
  stored, task_key, event_key, insert_task, insert_task_event, load_running_attempt, release_worker,
}
use ermine_tq.Store.Claim.{
  claim_task, queue_full, eligible_types, claim_row, next_task, is_claimable, one_of, set_running,
}
use ermine_tq.Store.Db.{
  Db, Env, World, answered, write, and_then, emit, ok, time_now, new_id, statement,
}
use ermine_tq.Store.Operations.{Op, creates, claims, fails, registers, requeues, perform, run}
use ermine_tq.Store.Refinement.Performs.{NamesAreGiven, perform-Steps}
use ermine_tq.Store.Refinement.Claims.{ClaimOutcome, IsReading}
use ermine_tq.Store.Refinement.Calls.{claim_task-outcome}
use ermine_tq.Store.Steps.{Steps}
use ermine_tq.Store.Runs.{Ensures}
use ermine_tq.Store.Atomicity.{IsAtomic, opened, write-IsAtomic}
use ermine_tq.Store.Attempts.{
  timeout_attempt, end_failed, spend_retry, set_failed, heartbeat_tx, succeed_attempt,
  set_succeeded, set_status, retry_backoff, retry_base_delay, retry_max_delay, clamp_shift,
}
use ermine_tq.Store.Attempts.Backoff.{retry_backoff-min}
use ermine_tq.Store.Control.Replies.{act, halt, verdict, outcome, status_under, act-verdict}
use ermine_tq.Store.Invariant.Endings.{
  IsOver, IsRefused, end_with, succeeding, cancelling, ends_once,
}
use ermine_tq.Scheduler.Ticks.{tick, polls, scan, sweep, carry_on, with_reply}
use ermine_tq.Scheduler.Sweeps.{tick-IsConsistent, scan-IsOver}
use ermine_tq.Store.Maintenance.{find_stale_attempts, is_stale}
use ermine_tq.Queue.Registry.{returned}
use ermine_tq.Queue.RunOnce.{RunConfig, run_once}
use ermine_tq.Queue.Results.{Done, run_once-Done}
use ermine_tq.Store.Maintenance.{requeue_retrying}
use ermine_tq.Store.Maintenance.Requeue.{IsRequeued, requeue_retrying-IsRequeued}
use ermine_tq.Store.Tasks.RoundTrip.{create_and_get, create_and_get-stored}
use mathlib.Core.Option.{map as option_map}
use Prim.Native.Nat.{min}
use ermine_tq.Store.Workers.{CreateWorkerInput, create_worker}
use ermine_tq.Store.Tasks.{CreateTaskInput, create_task, new_task}
use ermine_tq.Store.Invariant.Workers.{IsCounted}
use ermine_tq.Store.Invariant.Limits.{IsWithinLimits}
use ermine_tq.Store.Invariant.Recovery.{IsAttended, IsDated}
use ermine_tq.Store.Invariant.Numbers.{IsNumbered}
use ermine_tq.Store.Invariant.Histories.{
  empty, IdsAreUnused, IsConsistent, empty-IsConsistent, Steps-IsConsistent, run-Steps,
  run-IsWithinLimits, run-IsCounted, run-IsAttended, run-IsNumbered,
}

abbrev name : ℕ → String
name zero = "w"
name (suc zero) = "t"
name (suc (suc zero)) = "e1"
name (suc (suc (suc zero))) = "a"
name (suc (suc (suc (suc zero)))) = "e2"
name (suc (suc (suc (suc (suc n))))) = "z"

-- Nothing fails, every write is answered, and the clock stands.
instance abbrev calm : Env
calm = record {
  new_id = name;
  clock = λ n. 5_000_000_000;
  fault = λ n. false;
  delivery = λ n. answered;
  tie = λ n id. 0;
  foreign_keys = false;
}

calm-NamesAreGiven : NamesAreGiven calm
calm-NamesAreGiven zero = refl
calm-NamesAreGiven (suc zero) = refl
calm-NamesAreGiven (suc (suc zero)) = refl
calm-NamesAreGiven (suc (suc (suc zero))) = refl
calm-NamesAreGiven (suc (suc (suc (suc zero)))) = refl
calm-NamesAreGiven (suc (suc (suc (suc (suc n))))) = refl

abbrev start : World
start = record {
  db = empty;
  attached = false;
  sunk = [];
  ids = 0;
  readings = 0;
  statements = 0;
  writes = 0;
}

abbrev one_at_a_time : Config
one_at_a_time = record {
  db = record { path = "" };
  limits = record { global = pos 1 };
  queues = ("default", record { limit = pos 1 }) ∷ [];
  task_types = [];
}

abbrev a_worker : CreateWorkerInput
a_worker = record {
  type = "go";
  task_types = "mail" ∷ [];
  queue = "";
  concurrency = negsuc 0;
  socket_path = none;
}

abbrev a_task : CreateTaskInput
a_task = record {
  type = "mail";
  queue = "";
  payload = none;
  priority = pos 0;
  max_retries = pos 0;
  timeout_secs = none;
  run_at = 0;
  parent_id = none;
  schedule_id = none;
}

abbrev history : List Op
history = registers a_worker ∷ creates a_task ∷ claims "w" "default" ("mail" ∷ []) ∷ []

history_unused : IdsAreUnused one_at_a_time history start
unfolding count_where
history_unused = (refl, (tt, (tt, tt)))

abbrev final : Db
final = (run one_at_a_time history start).db

run-IsWithinLimits_example : IsWithinLimits one_at_a_time final.tasks
run-IsWithinLimits_example =
    run-IsWithinLimits one_at_a_time calm-NamesAreGiven history start refl (omega arith)
      history_unused

run-IsCounted_example : All (IsCounted final.attempts) final.workers
run-IsCounted_example =
    run-IsCounted one_at_a_time calm-NamesAreGiven history start refl (omega arith) history_unused

run-IsAttended_example : All (IsAttended final.attempts) final.tasks
run-IsAttended_example =
    run-IsAttended one_at_a_time calm-NamesAreGiven history start refl (omega arith) history_unused

run-IsNumbered_example : IsNumbered final.attempts × All IsDated final.attempts
run-IsNumbered_example =
    run-IsNumbered one_at_a_time calm-NamesAreGiven history start refl (omega arith) history_unused

-- The store before the claim, and after it.
abbrev waiting : World
waiting = run one_at_a_time (registers a_worker ∷ creates a_task ∷ []) start

abbrev working : World
working = run one_at_a_time history start

empty_db-IsConsistent : IsConsistent one_at_a_time empty
empty_db-IsConsistent = empty-IsConsistent one_at_a_time (omega arith)

waiting-IsConsistent : IsConsistent one_at_a_time waiting.db
unfolding count_where
waiting-IsConsistent = Steps-IsConsistent empty_db-IsConsistent (
    run-Steps one_at_a_time calm-NamesAreGiven (registers a_worker ∷ creates a_task ∷ []) start
      (refl, (tt, tt)) empty_db-IsConsistent)

working-IsConsistent : IsConsistent one_at_a_time working.db
working-IsConsistent =
    Steps-IsConsistent empty_db-IsConsistent (
      run-Steps one_at_a_time calm-NamesAreGiven history start history_unused empty_db-IsConsistent)

-- A worker whose handler gives back the payload.
abbrev echo : RunConfig
echo = record {
  registry = record { type = "mail"; fn = returned } ∷ [];
  worker_id = "w";
  queue = "default";
  config = one_at_a_time;
  beats = λ w. 1;
  ended = λ w. false;
  panic_text = λ s. s;
  missing_text = λ s. s;
}

-- The history claims the task: it runs, and the worker is busy.
history_claims : map (λ t. t.status) final.tasks ≡ TaskStatus.running ∷ []
unfolding run claim_task create_task create_worker write and_then emit time_now new_id statement
    insert_task insert_task_event count_where first_where new_task status_eq queue_full queue_limit
    eligible_types task_type_limit claim_row next_task order_by order_rows with_ties select_where
    is_claimable one_of fmt_db_time update_where set_running
history_claims = refl
