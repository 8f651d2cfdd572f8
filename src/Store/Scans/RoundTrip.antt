-- ===== src/Store/Scans/RoundTrip.antt =====
-- The scans of the columns of a row, against the row (internal/store: tasks.go, workers.go,
-- schedules.go, id.go).
use ermine_tq.Prelude.{All, arith, ◌<◌, ℕ, ◌≡◌, refl, Option, none, some, List, [], ◌∷◌, map}
use ermine_tq.Store.Models.{
  Task, Attempt, TaskEvent, Worker, Schedule, TaskStatus, AttemptStatus, TaskEventType,
  WorkerStatus, status_text, fmt_db_time,
}
use ermine_tq.Store.Db.{Db}
use ermine_tq.Store.Statements.{stored}
use ermine_tq.Store.Schedules.{null_time}
use ermine_tq.Store.Scans.{
  Formats, IsLawful, end_of_years, Scanned, found, parse_db_time, parse_null_db_time, parse_null,
  scan_rows, Shown, as_text, as_time, shown_time, shown_null,
}
use ermine_tq.Store.Scans.Tasks.{
  ScannedEvent, scan_task, scan_attempt, scan_task_event, task_columns, attempt_columns,
  event_columns, task_status, attempt_status, event_type, attempt_status_text, event_text,
  detail_text,
}
use ermine_tq.Store.Scans.Parts.{
  scan_worker, scan_schedule, worker_columns, schedule_columns, worker_status, worker_status_text,
}

task_status-text : (s : TaskStatus) → task_status (status_text s) ≡ some s
unfolding task_status
task_status-text TaskStatus.queued = refl
task_status-text TaskStatus.running = refl
task_status-text TaskStatus.retrying = refl
task_status-text TaskStatus.succeeded = refl
task_status-text TaskStatus.dead = refl
task_status-text TaskStatus.halted = refl
task_status-text TaskStatus.cancelled = refl
task_status-text TaskStatus.superseded = refl

attempt_status-text : (s : AttemptStatus) → attempt_status (attempt_status_text s) ≡ some s
unfolding attempt_status
attempt_status-text AttemptStatus.running = refl
attempt_status-text AttemptStatus.succeeded = refl
attempt_status-text AttemptStatus.failed = refl
attempt_status-text AttemptStatus.cancelled = refl

event_type-text : (e : TaskEventType) → event_type (event_text e) ≡ some e
unfolding event_type
event_type-text TaskEventType.queued = refl
event_type-text TaskEventType.started = refl
event_type-text TaskEventType.succeeded = refl
event_type-text TaskEventType.retrying = refl
event_type-text TaskEventType.dead = refl
event_type-text TaskEventType.halted = refl
event_type-text TaskEventType.cancelled = refl
event_type-text TaskEventType.heartbeat_timeout = refl
event_type-text TaskEventType.superseded = refl

worker_status-text : (s : WorkerStatus) → worker_status (worker_status_text s) ≡ some s
unfolding worker_status
worker_status-text WorkerStatus.idle = refl
worker_status-text WorkerStatus.busy = refl

-- The rows as their times' texts denote them.
abbrev pub stored_attempt : Attempt → Attempt
stored_attempt a = record a {
  started_at = null_time a.started_at;
  finished_at = null_time a.finished_at;
  heartbeat_at = null_time a.heartbeat_at;
}

abbrev pub stored_worker : Worker → Worker
stored_worker w = record w {
  started_at = fmt_db_time w.started_at;
  heartbeat_at = null_time w.heartbeat_at;
}

abbrev pub stored_schedule : Schedule → Schedule
stored_schedule s = record s {
  last_run_at = null_time s.last_run_at;
  next_run_at = null_time s.next_run_at;
  created_at = fmt_db_time s.created_at;
}

abbrev pub scanned_event : Formats → TaskEvent → ScannedEvent
scanned_event f e = record {
  id = e.id;
  task_id = e.task_id;
  event = e.event;
  detail = detail_text f e.detail;
  created_at = fmt_db_time e.created_at;
}

-- The times of a row are before the year 10000.
abbrev pub IsEarly : Option ℕ → Type 0
IsEarly none = Unit
IsEarly (some t) = t < end_of_years

abbrev pub IsEarlyTask : Task → Type 0
IsEarlyTask t =
    (t.run_at < end_of_years) × (t.created_at < end_of_years) × (t.updated_at < end_of_years)

abbrev pub IsEarlyAttempt : Attempt → Type 0
IsEarlyAttempt a = IsEarly a.started_at × IsEarly a.finished_at × IsEarly a.heartbeat_at

abbrev pub IsEarlyEvent : TaskEvent → Type 0
IsEarlyEvent e = e.created_at < end_of_years

abbrev pub IsEarlyWorker : Worker → Type 0
IsEarlyWorker w = (w.started_at < end_of_years) × IsEarly w.heartbeat_at

abbrev pub IsEarlySchedule : Schedule → Type 0
IsEarlySchedule s = IsEarly s.last_run_at × IsEarly s.next_run_at × (s.created_at < end_of_years)

pub record AreEarly (d : Db) : Type 0 where
  pub tasks : All IsEarlyTask d.tasks
  pub attempts : All IsEarlyAttempt d.attempts
  pub events : All IsEarlyEvent d.events
  pub workers : All IsEarlyWorker d.workers
  pub schedules : All IsEarlySchedule d.schedules

-- The second of an instant is before the year 10000 too.
second_early : (t : ℕ) → t < end_of_years → fmt_db_time t < end_of_years
unfolding fmt_db_time
second_early t h = omega arith

-- A listing reads each row as it is read alone.
scan_rows-map {ℓ κ ι} :
    {R : Type ℓ} {C : Type κ} {A : Type ι} (scan : Scanned C → Scanned A) (columns : R → C)
    (as_read : R → A) (P : R → Type 0)
    → ((r : R) → P r → scan (found (columns r)) ≡ found (as_read r))
    → (rs : List R) → All P rs
    → scan_rows scan (map (λ r. found (columns r)) rs) ≡ found (map as_read rs)
unfolding scan_rows
scan_rows-map scan columns as_read P h [] k = refl
scan_rows-map scan columns as_read P h (r ∷ rs) k =
    rw (h r k.0, scan_rows-map scan columns as_read P h rs k.1) refl

module _ (f : Formats) (lawful : IsLawful f) where
  parse-shown :
      (show : Shown) (t : ℕ)
      → t < end_of_years
      → parse_db_time f (shown_time f show t) ≡ some (fmt_db_time t)
  unfolding parse_db_time shown_time
  parse-shown as_text t h = rw (lawful.read-layout t h) refl
  parse-shown as_time t h =
      rw
        (
          lawful.layout_not_nano (fmt_db_time t) (second_early t h),
          lawful.read-nano (fmt_db_time t) (second_early t h),
        )
        refl

  parse_null-shown :
      (show : Shown) (o : Option ℕ)
      → IsEarly o
      → parse_null (parse_db_time f) (shown_null f show o) ≡ some (null_time o)
  parse_null-shown show none h = refl
  parse_null-shown show (some t) h = rw (parse_null, parse-shown show t h) refl

  parse_null_db-shown :
      (show : Shown) (o : Option ℕ)
      → IsEarly o
      → parse_null_db_time f (shown_null f show o) ≡ some (null_time o)
  unfolding parse_null_db_time
  parse_null_db-shown show o h = parse_null-shown show o h

  scan_task-shown :
      (show : Shown) (t : Task)
      → IsEarlyTask t
      → scan_task f (found (task_columns f show t)) ≡ found (stored t)
  unfolding scan_task task_columns
  scan_task-shown show t h =
      rw
        (
          task_status-text t.status,
          parse-shown show t.run_at h.0,
          parse-shown show t.created_at h.1,
          parse-shown show t.updated_at h.2,
        )
        refl

  scan_attempt-shown :
      (show : Shown) (a : Attempt)
      → IsEarlyAttempt a
      → scan_attempt f (found (attempt_columns f show a)) ≡ found (stored_attempt a)
  unfolding scan_attempt attempt_columns
  scan_attempt-shown show a h =
      rw
        (
          attempt_status-text a.status,
          parse_null_db-shown show a.started_at h.0,
          parse_null_db-shown show a.finished_at h.1,
          parse_null_db-shown show a.heartbeat_at h.2,
        )
        refl

  scan_task_event-shown :
      (show : Shown) (e : TaskEvent)
      → IsEarlyEvent e
      → scan_task_event f (found (event_columns f show e)) ≡ found (scanned_event f e)
  unfolding scan_task_event event_columns
  scan_task_event-shown show e h =
      rw (event_type-text e.event, parse-shown show e.created_at h) refl

  scan_worker-shown :
      (show : Shown) (w : Worker)
      → IsEarlyWorker w
      → scan_worker f (found (worker_columns f show w)) ≡ found (stored_worker w)
  unfolding scan_worker worker_columns
  scan_worker-shown show w h =
      rw
        (
          worker_status-text w.status,
          lawful.unmarshal-marshal w.task_types,
          parse-shown show w.started_at h.0,
          parse_null-shown show w.heartbeat_at h.1,
        )
        refl

  scan_schedule-shown :
      (show : Shown) (s : Schedule)
      → IsEarlySchedule s
      → scan_schedule f (found (schedule_columns f show s)) ≡ found (stored_schedule s)
  unfolding scan_schedule schedule_columns
  scan_schedule-shown show s h =
      rw
        (
          parse_null-shown show s.last_run_at h.0,
          parse_null-shown show s.next_run_at h.1,
          parse-shown show s.created_at h.2,
        )
        refl

  -- A layout reads what it wrote of an instant before the year 10000, the layout of the database
  -- does not read RFC 3339, and a marshalled list of texts is unmarshalled as it was. Then a listing
  -- of the tasks, attempts, events, workers or schedules of a database whose times are before the
  -- year 10000 scans without an error and returns every row with its times as their texts denote
  -- them, whether the driver hands out the times as texts or as times.
  pub scan_rows-stored :
      (show : Shown) (d : Db)
      → AreEarly d
      → (scan_rows (scan_task f) (map (λ t. found (task_columns f show t)) d.tasks)
          ≡ found (map stored d.tasks))
        × (scan_rows (scan_attempt f) (map (λ a. found (attempt_columns f show a)) d.attempts)
            ≡ found (map stored_attempt d.attempts))
        × (scan_rows (scan_task_event f) (map (λ e. found (event_columns f show e)) d.events)
            ≡ found (map (scanned_event f) d.events))
        × (scan_rows (scan_worker f) (map (λ w. found (worker_columns f show w)) d.workers)
            ≡ found (map stored_worker d.workers))
        × (scan_rows (scan_schedule f) (map (λ s. found (schedule_columns f show s)) d.schedules)
            ≡ found (map stored_schedule d.schedules))
  scan_rows-stored show d h = (
    scan_rows-map _ _ _ _ (scan_task-shown show) d.tasks h.tasks,
    scan_rows-map _ _ _ _ (scan_attempt-shown show) d.attempts h.attempts,
    scan_rows-map _ _ _ _ (scan_task_event-shown show) d.events h.events,
    scan_rows-map _ _ _ _ (scan_worker-shown show) d.workers h.workers,
    scan_rows-map _ _ _ _ (scan_schedule-shown show) d.schedules h.schedules,
  )
