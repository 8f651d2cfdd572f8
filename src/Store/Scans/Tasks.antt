-- ===== src/Store/Scans/Tasks.antt =====
-- internal/store/tasks.go: the columns of a task, an attempt and an event, and the functions that
-- scan them.
use ermine_tq.Prelude.{ℕ, String, Option, none, some, ℤ, str_eq, if◌then◌else◌}
use ermine_tq.Store.Models.{
  Task, Attempt, TaskEvent, Detail, TaskStatus, AttemptStatus, TaskEventType, status_text,
}
use ermine_tq.Store.Scans.{
  Formats, Scanned, found, ◌>>=◌, or_unnamed, or_unreadable, parse_db_time, parse_null_db_time,
  Shown, shown_time, shown_null,
}

-- The texts of the constants.
abbrev pub attempt_status_text : AttemptStatus → String
attempt_status_text AttemptStatus.running = "running"
attempt_status_text AttemptStatus.succeeded = "succeeded"
attempt_status_text AttemptStatus.failed = "failed"
attempt_status_text AttemptStatus.cancelled = "cancelled"

abbrev pub event_text : TaskEventType → String
event_text TaskEventType.queued = "queued"
event_text TaskEventType.started = "started"
event_text TaskEventType.succeeded = "succeeded"
event_text TaskEventType.retrying = "retrying"
event_text TaskEventType.dead = "dead"
event_text TaskEventType.halted = "halted"
event_text TaskEventType.cancelled = "cancelled"
event_text TaskEventType.heartbeat_timeout = "heartbeat_timeout"
event_text TaskEventType.superseded = "superseded"

-- TaskStatus(status), AttemptStatus(status) and TaskEventType(event), as the constant of that text.
unfoldable pub task_status : String → Option TaskStatus
task_status s =
    if str_eq s "queued"
    then some TaskStatus.queued
    else if str_eq s "running"
    then some TaskStatus.running
    else if str_eq s "retrying"
    then some TaskStatus.retrying
    else if str_eq s "succeeded"
    then some TaskStatus.succeeded
    else if str_eq s "dead"
    then some TaskStatus.dead
    else if str_eq s "halted"
    then some TaskStatus.halted
    else if str_eq s "cancelled"
    then some TaskStatus.cancelled
    else if str_eq s "superseded"
    then some TaskStatus.superseded
    else none

unfoldable pub attempt_status : String → Option AttemptStatus
attempt_status s =
    if str_eq s "running"
    then some AttemptStatus.running
    else if str_eq s "succeeded"
    then some AttemptStatus.succeeded
    else if str_eq s "failed"
    then some AttemptStatus.failed
    else if str_eq s "cancelled"
    then some AttemptStatus.cancelled
    else none

unfoldable pub event_type : String → Option TaskEventType
event_type s =
    if str_eq s "queued"
    then some TaskEventType.queued
    else if str_eq s "started"
    then some TaskEventType.started
    else if str_eq s "succeeded"
    then some TaskEventType.succeeded
    else if str_eq s "retrying"
    then some TaskEventType.retrying
    else if str_eq s "dead"
    then some TaskEventType.dead
    else if str_eq s "halted"
    then some TaskEventType.halted
    else if str_eq s "cancelled"
    then some TaskEventType.cancelled
    else if str_eq s "heartbeat_timeout"
    then some TaskEventType.heartbeat_timeout
    else if str_eq s "superseded"
    then some TaskEventType.superseded
    else none

-- The columns of a SELECT of tasks, as the variables of scanTask receive them.
pub record TaskColumns : Type 0 where
  pub id : String
  pub type : String
  pub queue : String
  pub payload : Option String
  pub status : String
  pub priority : ℤ
  pub retry_count : ℤ
  pub max_retries : ℤ
  pub timeout_secs : Option ℤ
  pub run_at : String
  pub parent_id : Option String
  pub schedule_id : Option String
  pub created_at : String
  pub updated_at : String

pub record AttemptColumns : Type 0 where
  pub id : String
  pub task_id : String
  pub attempt_num : ℕ
  pub worker_id : Option String
  pub status : String
  pub result : Option String
  pub error : Option String
  pub started_at : Option String
  pub finished_at : Option String
  pub heartbeat_at : Option String

pub record EventColumns : Type 0 where
  pub id : String
  pub task_id : String
  pub event : String
  pub detail : Option String
  pub created_at : String

-- A TaskEvent with its detail as the text of the JSON.
pub record ScannedEvent : Type 0 where
  pub id : String
  pub task_id : String
  pub event : TaskEventType
  pub detail : Option String
  pub created_at : ℕ

abbrev pub detail_text : Formats → Option Detail → Option String
detail_text f none = none
detail_text f (some x) = some (f.marshal_detail x)

module _ (f : Formats) where
  unfoldable pub scan_task : Scanned TaskColumns → Scanned Task
  scan_task scan = do
    row ← scan
    status ← or_unnamed (task_status row.status)
    run_at ← or_unreadable "run_at" (parse_db_time f row.run_at)
    created_at ← or_unreadable "created_at" (parse_db_time f row.created_at)
    updated_at ← or_unreadable "updated_at" (parse_db_time f row.updated_at)
    found record {
      id = row.id;
      type = row.type;
      queue = row.queue;
      payload = row.payload;
      status = status;
      priority = row.priority;
      retry_count = row.retry_count;
      max_retries = row.max_retries;
      timeout_secs = row.timeout_secs;
      run_at = run_at;
      parent_id = row.parent_id;
      schedule_id = row.schedule_id;
      created_at = created_at;
      updated_at = updated_at;
    }

  unfoldable pub scan_attempt : Scanned AttemptColumns → Scanned Attempt
  scan_attempt scan = do
    row ← scan
    status ← or_unnamed (attempt_status row.status)
    started_at ← or_unreadable "started_at" (parse_null_db_time f row.started_at)
    finished_at ← or_unreadable "finished_at" (parse_null_db_time f row.finished_at)
    heartbeat_at ← or_unreadable "heartbeat_at" (parse_null_db_time f row.heartbeat_at)
    found record {
      id = row.id;
      task_id = row.task_id;
      attempt_num = row.attempt_num;
      worker_id = row.worker_id;
      status = status;
      result = row.result;
      error = row.error;
      started_at = started_at;
      finished_at = finished_at;
      heartbeat_at = heartbeat_at;
    }

  unfoldable pub scan_task_event : Scanned EventColumns → Scanned ScannedEvent
  scan_task_event scan = do
    row ← scan
    event ← or_unnamed (event_type row.event)
    created_at ← or_unreadable "created_at" (parse_db_time f row.created_at)
    found record {
      id = row.id;
      task_id = row.task_id;
      event = event;
      detail = row.detail;
      created_at = created_at;
    }

-- What the driver hands out for a row of the table.
module _ (f : Formats) (show : Shown) where
  unfoldable pub task_columns : Task → TaskColumns
  task_columns t = record {
    id = t.id;
    type = t.type;
    queue = t.queue;
    payload = t.payload;
    status = status_text t.status;
    priority = t.priority;
    retry_count = t.retry_count;
    max_retries = t.max_retries;
    timeout_secs = t.timeout_secs;
    run_at = shown_time f show t.run_at;
    parent_id = t.parent_id;
    schedule_id = t.schedule_id;
    created_at = shown_time f show t.created_at;
    updated_at = shown_time f show t.updated_at;
  }

  unfoldable pub attempt_columns : Attempt → AttemptColumns
  attempt_columns a = record {
    id = a.id;
    task_id = a.task_id;
    attempt_num = a.attempt_num;
    worker_id = a.worker_id;
    status = attempt_status_text a.status;
    result = a.result;
    error = a.error;
    started_at = shown_null f show a.started_at;
    finished_at = shown_null f show a.finished_at;
    heartbeat_at = shown_null f show a.heartbeat_at;
  }

  unfoldable pub event_columns : TaskEvent → EventColumns
  event_columns e = record {
    id = e.id;
    task_id = e.task_id;
    event = event_text e.event;
    detail = detail_text f e.detail;
    created_at = shown_time f show e.created_at;
  }
