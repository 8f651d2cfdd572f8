-- ===== src/Api/Requests.antt =====
-- The routes of internal/api/handler.go, with the decoded bodies, and the responses.
-- A body is absent where `readJSON` fails; its JSON has the fields of the request types.
use ermine_tq.Prelude.{ℕ, String, Option, List, ℤ}
use ermine_tq.Store.Models.{Task, Attempt, TaskEvent, Worker, Schedule}
use ermine_tq.Store.Db.{Error}
use ermine_tq.Store.Schedules.{CreateScheduleInput, UpdateScheduleInput}

pub record CreateTaskRequest : Type 0 where
  pub type : String
  pub queue : String
  pub payload : Option String
  pub priority : ℤ
  pub max_retries : ℤ
  pub timeout_secs : Option ℤ
  pub run_at : Option ℕ

-- The parameters of GET /api/tasks, "" for one that is missing.
pub record TaskQuery : Type 0 where
  pub status : String
  pub type : String
  pub queue : String
  pub limit : String
  pub offset : String

pub record ControlRequest : Type 0 where
  pub action : String

pub record RegisterWorkerRequest : Type 0 where
  pub type : String
  pub task_types : List String
  pub queue : String
  pub concurrency : ℤ

pub record ClaimRequest : Type 0 where
  pub worker_id : String
  pub task_types : List String
  pub queue : String

pub record SucceedRequest : Type 0 where
  pub result : Option String

pub record FailRequest : Type 0 where
  pub error : String

-- The request types of the schedules have the fields of the store's inputs.
abbrev pub CreateScheduleRequest : Type 0
CreateScheduleRequest = CreateScheduleInput

abbrev pub UpdateScheduleRequest : Type 0
UpdateScheduleRequest = UpdateScheduleInput

-- The routes but for the stream of events; a text is the `{id}` of the path.
pub data Request : Type 0 where
  tasks_get : TaskQuery → Request
  tasks_post : Option CreateTaskRequest → Request
  task_get : String → Request
  task_control : String → Option ControlRequest → Request
  workers_get : Request
  workers_register : Option RegisterWorkerRequest → Request
  worker_claim : Option ClaimRequest → Request
  attempt_succeed : String → Option SucceedRequest → Request
  attempt_fail : String → Option FailRequest → Request
  schedules_get : Request
  schedules_post : Option CreateScheduleRequest → Request
  schedule_patch : String → Option UpdateScheduleRequest → Request
  schedule_trigger : String → Request

-- What is encoded into the body of a response.
pub data Body : Type 0 where
  empty : Body
  undecodable : Body
  problem : String → Body
  failure : Error → Body
  status_ok : Body
  task : Task → Body
  details : Task → List Attempt → List TaskEvent → Body
  tasks : List Task → Body
  claimed : Task → String → Body
  worker : Worker → Body
  workers : List Worker → Body
  schedule : Schedule → Body
  schedules : List Schedule → Body

pub record Response : Type 0 where
  pub status : ℕ
  pub body : Body
