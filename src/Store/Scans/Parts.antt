-- ===== src/Store/Scans/Parts.antt =====
-- internal/store/workers.go and schedules.go: the columns of a worker and of a schedule, and the
-- functions that scan them.
use ermine_tq.Prelude.{String, Bool, Option, none, some, ℤ, str_eq, if◌then◌else◌}
use ermine_tq.Store.Models.{Worker, WorkerStatus, Schedule}
use ermine_tq.Store.Scans.{
  Formats, Scanned, found, ◌>>=◌, or_unnamed, or_unreadable, parse_db_time, parse_null, Shown,
  shown_time, shown_null,
}

abbrev pub worker_status_text : WorkerStatus → String
worker_status_text WorkerStatus.idle = "idle"
worker_status_text WorkerStatus.busy = "busy"

-- WorkerStatus(status)
unfoldable pub worker_status : String → Option WorkerStatus
worker_status s =
    if str_eq s "idle"
    then some WorkerStatus.idle
    else if str_eq s "busy"
    then some WorkerStatus.busy
    else none

pub record WorkerColumns : Type 0 where
  pub id : String
  pub type : String
  pub task_types : String
  pub queue : String
  pub concurrency : ℤ
  pub current_task_count : ℤ
  pub status : String
  pub started_at : String
  pub heartbeat_at : Option String
  pub socket_path : Option String

pub record ScheduleColumns : Type 0 where
  pub id : String
  pub task_type : String
  pub queue : String
  pub payload : Option String
  pub cron_expr : Option String
  pub interval_secs : Option ℤ
  pub enabled : Bool
  pub last_run_at : Option String
  pub next_run_at : Option String
  pub created_at : String

module _ (f : Formats) where
  unfoldable pub scan_worker : Scanned WorkerColumns → Scanned Worker
  scan_worker scan = do
    row ← scan
    status ← or_unnamed (worker_status row.status)
    task_types ← or_unreadable "task_types" (f.unmarshal row.task_types)
    started_at ← or_unreadable "started_at" (parse_db_time f row.started_at)
    heartbeat_at ← or_unreadable "heartbeat_at" (parse_null (parse_db_time f) row.heartbeat_at)
    found record {
      id = row.id;
      type = row.type;
      task_types = task_types;
      queue = row.queue;
      concurrency = row.concurrency;
      current_task_count = row.current_task_count;
      status = status;
      started_at = started_at;
      heartbeat_at = heartbeat_at;
      socket_path = row.socket_path;
    }

  unfoldable pub scan_schedule : Scanned ScheduleColumns → Scanned Schedule
  scan_schedule scan = do
    row ← scan
    last_run_at ← or_unreadable "last_run_at" (parse_null (parse_db_time f) row.last_run_at)
    next_run_at ← or_unreadable "next_run_at" (parse_null (parse_db_time f) row.next_run_at)
    created_at ← or_unreadable "created_at" (parse_db_time f row.created_at)
    found record {
      id = row.id;
      task_type = row.task_type;
      queue = row.queue;
      payload = row.payload;
      cron_expr = row.cron_expr;
      interval_secs = row.interval_secs;
      enabled = row.enabled;
      last_run_at = last_run_at;
      next_run_at = next_run_at;
      created_at = created_at;
    }

-- What the driver hands out for a row of the table.
module _ (f : Formats) (show : Shown) where
  unfoldable pub worker_columns : Worker → WorkerColumns
  worker_columns w = record {
    id = w.id;
    type = w.type;
    task_types = f.marshal w.task_types;
    queue = w.queue;
    concurrency = w.concurrency;
    current_task_count = w.current_task_count;
    status = worker_status_text w.status;
    started_at = shown_time f show w.started_at;
    heartbeat_at = shown_null f show w.heartbeat_at;
    socket_path = w.socket_path;
  }

  unfoldable pub schedule_columns : Schedule → ScheduleColumns
  schedule_columns s = record {
    id = s.id;
    task_type = s.task_type;
    queue = s.queue;
    payload = s.payload;
    cron_expr = s.cron_expr;
    interval_secs = s.interval_secs;
    enabled = s.enabled;
    last_run_at = shown_null f show s.last_run_at;
    next_run_at = shown_null f show s.next_run_at;
    created_at = shown_time f show s.created_at;
  }
