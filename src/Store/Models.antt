-- ===== src/Store/Models.antt =====
-- internal/store/models.go, and the event type of internal/store/store.go.
-- Times are nanoseconds since Go's zero time, in UTC; JSON values are texts, absent for a nil slice.
use ermine_tq.Prelude.{ℕ, String, Bool, true, false, Option, List, ℤ, ◌-◌, ◌%◌}

pub data TaskStatus : Type 0 where
  queued running retrying succeeded dead halted cancelled superseded : TaskStatus

-- The texts that the constants stand for.
abbrev pub status_text : TaskStatus → String
status_text queued = "queued"
status_text running = "running"
status_text retrying = "retrying"
status_text succeeded = "succeeded"
status_text dead = "dead"
status_text halted = "halted"
status_text cancelled = "cancelled"
status_text superseded = "superseded"

pub record Task : Type 0 where
  pub id : String
  pub type : String
  pub queue : String
  pub payload : Option String
  pub status : TaskStatus
  pub priority : ℤ
  pub retry_count : ℤ
  pub max_retries : ℤ
  pub timeout_secs : Option ℤ
  pub run_at : ℕ
  pub parent_id : Option String
  pub schedule_id : Option String
  pub created_at : ℕ
  pub updated_at : ℕ

pub data AttemptStatus : Type 0 where
  running succeeded failed cancelled : AttemptStatus

pub record Attempt : Type 0 where
  pub id : String
  pub task_id : String
  pub attempt_num : ℕ
  pub worker_id : Option String
  pub status : AttemptStatus
  pub result : Option String
  pub error : Option String
  pub started_at : Option ℕ
  pub finished_at : Option ℕ
  pub heartbeat_at : Option ℕ

pub data TaskEventType : Type 0 where
  queued started succeeded retrying dead halted cancelled : TaskEventType
  heartbeat_timeout superseded : TaskEventType

-- The JSON objects that the store writes as an event's detail, before they are encoded.
pub data Detail : Type 0 where
  attempt : String → Detail
  failure : String → String → Detail
  retry : String → String → ℤ → Detail

pub record TaskEvent : Type 0 where
  pub id : String
  pub task_id : String
  pub event : TaskEventType
  pub detail : Option Detail
  pub created_at : ℕ

pub data WorkerStatus : Type 0 where
  idle busy : WorkerStatus

pub record Worker : Type 0 where
  pub id : String
  pub type : String
  pub task_types : List String
  pub queue : String
  pub concurrency : ℤ
  pub current_task_count : ℤ
  pub status : WorkerStatus
  pub started_at : ℕ
  pub heartbeat_at : Option ℕ
  pub socket_path : Option String

pub record Schedule : Type 0 where
  pub id : String
  pub task_type : String
  pub queue : String
  pub payload : Option String
  pub cron_expr : Option String
  pub interval_secs : Option ℤ
  pub enabled : Bool
  pub last_run_at : Option ℕ
  pub next_run_at : Option ℕ
  pub created_at : ℕ

pub record SseEvent : Type 0 where
  pub task_id : String
  pub event : TaskEventType
  pub detail : Option Detail
  pub timestamp : ℕ

-- `==` on the status strings.
unfoldable pub status_eq : TaskStatus → TaskStatus → Bool
status_eq queued queued = true
status_eq running running = true
status_eq retrying retrying = true
status_eq succeeded succeeded = true
status_eq dead dead = true
status_eq halted halted = true
status_eq cancelled cancelled = true
status_eq superseded superseded = true
status_eq _ _ = false

unfoldable pub attempt_status_eq : AttemptStatus → AttemptStatus → Bool
attempt_status_eq running running = true
attempt_status_eq succeeded succeeded = true
attempt_status_eq failed failed = true
attempt_status_eq cancelled cancelled = true
attempt_status_eq _ _ = false

-- time.Second
abbrev pub second : ℕ
second = 1_000_000_000

-- The instant that the text of `fmtDBTime` denotes: its layout drops the fraction of a second.
-- Such texts are ordered as the instants are, and `parseDBTime` reads the instant back.
unfoldable pub fmt_db_time : ℕ → ℕ
fmt_db_time t = t - t % second
