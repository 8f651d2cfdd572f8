-- ===== src/Store/Control.antt =====
-- internal/store/control.go: the control actions on a task.
pub mod Replies
use ermine_tq.Prelude.{
  String, Bool, false, ◌&&◌, ◌||◌, not, none, some, List, [], ◌∷◌, pos, if◌then◌else◌, ℕ,
}
use ermine_tq.Store.Models.{Task, TaskStatus, TaskEventType, status_eq, fmt_db_time}
use ermine_tq.Store.Db.{
  Env, M, ◌>>=◌, ◌>>◌, return, fail, time_now, new_id, write, emit, invalid_transition,
}
use ermine_tq.Store.Statements.{
  task_status_tx, read_task_tx, update_task, insert_task, insert_task_event,
}
use ermine_tq.Store.Attempts.{set_status}

unfoldable pub task_status_one_of : TaskStatus → List TaskStatus → Bool
task_status_one_of status [] = false
task_status_one_of status (a ∷ allowed) = status_eq status a || task_status_one_of status allowed

unfoldable pub set_queued : ℕ → Task → Task
set_queued now t = record t { status = TaskStatus.queued; run_at = now; updated_at = now }

unfoldable pub set_retried : ℕ → Task → Task
set_retried now t = record t {
  status = TaskStatus.queued;
  retry_count = pos 0;
  run_at = now;
  updated_at = now;
}

-- The `switch` of RestartTask.
unfoldable pub can_restart : TaskStatus → Bool
can_restart s =
    status_eq s TaskStatus.queued
    || (status_eq s TaskStatus.succeeded
        || (status_eq s TaskStatus.dead
            || (status_eq s TaskStatus.cancelled || status_eq s TaskStatus.halted)))

-- The task that takes the place of `orig`, whose id is `parent`.
abbrev pub replacement : String → ℕ → String → Task → Task
replacement id now parent orig = record {
  id = id;
  type = orig.type;
  queue = orig.queue;
  payload = orig.payload;
  status = TaskStatus.queued;
  priority = orig.priority;
  retry_count = pos 0;
  max_retries = orig.max_retries;
  timeout_secs = orig.timeout_secs;
  run_at = now;
  parent_id = some parent;
  schedule_id = orig.schedule_id;
  created_at = now;
  updated_at = now;
}

module _ ⦃env : Env⦄ where
  unfoldable pub transition_tx :
      String → List TaskStatus → TaskStatus → TaskEventType → M (Unit {0})
  unfolding set_status
  transition_tx id from to event = do
    now' ← time_now
    let now = fmt_db_time now'
    status ← task_status_tx id
    if task_status_one_of status from
        then (do update_task id (set_status to now); insert_task_event id event none now)
        else fail invalid_transition

  unfoldable pub control_transition :
      String → List TaskStatus → TaskStatus → TaskEventType → M (Unit {0})
  unfolding transition_tx
  control_transition id from to event = write (transition_tx id from to event)

  unfoldable pub halt_task : String → M (Unit {0})
  unfolding control_transition
  halt_task id = do
    control_transition id (TaskStatus.running ∷ []) TaskStatus.halted TaskEventType.halted
    emit id TaskEventType.halted

  unfoldable pub resume_tx : String → M (Unit {0})
  unfolding set_queued
  resume_tx id = do
    now' ← time_now
    let now = fmt_db_time now'
    status ← task_status_tx id
    if status_eq status TaskStatus.halted
        then (do
          update_task id (set_queued now)
          insert_task_event id TaskEventType.queued none now)
        else fail invalid_transition

  unfoldable pub resume_task : String → M (Unit {0})
  unfolding resume_tx
  resume_task id = do write (resume_tx id); emit id TaskEventType.queued

  unfoldable pub cancel_task : String → M (Unit {0})
  unfolding control_transition
  cancel_task id = do
    control_transition id (TaskStatus.queued ∷ TaskStatus.halted ∷ []) TaskStatus.cancelled
        TaskEventType.cancelled
    emit id TaskEventType.cancelled

  unfoldable pub retry_tx : String → M (Unit {0})
  unfolding set_retried
  retry_tx id = do
    now' ← time_now
    let now = fmt_db_time now'
    status ← task_status_tx id
    if not (status_eq status TaskStatus.dead) && not (status_eq status TaskStatus.cancelled)
        then fail invalid_transition
        else (do
          update_task id (set_retried now)
          insert_task_event id TaskEventType.queued none now)

  unfoldable pub retry_task : String → M (Unit {0})
  unfolding retry_tx
  retry_task id = do write (retry_tx id); emit id TaskEventType.queued

  unfoldable pub restart_tx : String → M Task
  unfolding set_status
  restart_tx id = do
    now ← time_now
    orig ← read_task_tx id
    if can_restart orig.status
        then (do
          update_task id (set_status TaskStatus.superseded (fmt_db_time now))
          new ← new_id
          let nt = replacement new now id orig
          insert_task nt
          insert_task_event nt.id TaskEventType.queued none (fmt_db_time now)
          return nt)
        else fail invalid_transition

  unfoldable pub restart_task : String → M Task
  unfolding restart_tx
  restart_task id = do
    new_task ← write (restart_tx id)
    emit id TaskEventType.superseded
    emit new_task.id TaskEventType.queued
    return new_task
