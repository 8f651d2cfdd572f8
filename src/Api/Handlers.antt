-- ===== src/Api/Handlers.antt =====
-- internal/api: helpers.go, tasks.go, workers.go, pull_worker.go, schedules.go and handler.go.
use Prim.Native.String
use ermine_tq.Prelude.{
  ℕ, String, Bool, true, false, ◌&&◌, Option, none, some, List, [], ◌∷◌, ℤ, pos, str_eq,
  if◌then◌else◌,
}
use ermine_tq.Text.Numbers.{codes, atoi}
use ermine_tq.Config.{Config}
use ermine_tq.Store.Models.{Task, Schedule}
use ermine_tq.Store.Db.{
  Env, World, Reply, ok, err, Error, not_found, invalid_transition, attempt_not_running,
}
use ermine_tq.Store.Statements.{is_none}
use ermine_tq.Store.Tasks.{CreateTaskInput, ListTasksFilter, create_task, get_task, list_tasks}
use ermine_tq.Store.Claim.{claim_task}
use ermine_tq.Store.Control.{halt_task, resume_task, cancel_task, retry_task, restart_task}
use ermine_tq.Store.Attempts.{succeed_attempt, fail_attempt}
use ermine_tq.Store.Workers.{CreateWorkerInput, create_worker, list_workers}
use ermine_tq.Store.Schedules.{create_schedule, get_schedule, list_schedules, update_schedule}
use ermine_tq.Scheduler.Ticks.{scheduled_task}
use ermine_tq.Api.Requests.{
  CreateTaskRequest, TaskQuery, ControlRequest, RegisterWorkerRequest, ClaimRequest, SucceedRequest,
  FailRequest, CreateScheduleRequest, UpdateScheduleRequest, Request, tasks_get, tasks_post,
  task_get, task_control, workers_get, workers_register, worker_claim, attempt_succeed,
  attempt_fail, schedules_get, schedules_post, schedule_patch, schedule_trigger, Body, empty,
  undecodable, problem, failure, status_ok, details, claimed, Response,
}

abbrev pub Answer : Type 0
Answer = World → Response × World

abbrev pub write_json : ℕ → Body → Answer
write_json status body w = (record { status = status; body = body }, w)

-- The statuses that writeError and writeAttemptError choose.
abbrev pub error_status : Error → ℕ
error_status not_found = 404
error_status invalid_transition = 409
error_status _ = 500

abbrev pub attempt_error_status : Error → ℕ
attempt_error_status not_found = 404
attempt_error_status attempt_not_running = 409
attempt_error_status _ = 500

abbrev pub write_error : Error → Answer
write_error e = write_json (error_status e) (failure e)

abbrev pub write_attempt_error : Error → Answer
write_attempt_error e = write_json (attempt_error_status e) (failure e)

-- A call of the store, and what its error or its result is answered with.
unfoldable pub reply {ℓ} :
    {A : Type ℓ} → (Error → Answer) → (A → Answer) → Reply A × World → Response × World
reply fail done (ok a, w) = done a w
reply fail done (err e, w) = fail e w

abbrev pub bad_request : Body → Answer
bad_request = write_json 400

-- The checks of a body's fields.
unfoldable pub refuse_if : Bool → String → Answer → Answer
refuse_if true message go = bad_request (problem message)
refuse_if false message go = go

-- Texts of a query: "" stands for a missing one, and what Atoi refuses is ignored.
abbrev pub given : String → Option String
given s = if str_eq s "" then none else some s

abbrev or_zero : Option ℤ → ℤ
or_zero none = pos 0
or_zero (some n) = n

abbrev pub number : String → ℤ
number s = if str_eq s "" then pos 0 else or_zero (atoi (codes s))

abbrev pub task_filter : TaskQuery → ListTasksFilter
task_filter q = record {
  status = given q.status;
  type = given q.type;
  queue = given q.queue;
  limit = number q.limit;
  offset = number q.offset;
}

abbrev pub or_now : Option ℕ → ℕ
or_now none = 0
or_now (some t) = t

abbrev pub task_input : CreateTaskRequest → CreateTaskInput
task_input req = record {
  type = req.type;
  queue = req.queue;
  payload = req.payload;
  priority = req.priority;
  max_retries = req.max_retries;
  timeout_secs = req.timeout_secs;
  run_at = or_now req.run_at;
  parent_id = none;
  schedule_id = none;
}

abbrev pub worker_input : RegisterWorkerRequest → CreateWorkerInput
worker_input req = record {
  type = req.type;
  task_types = req.task_types;
  queue = req.queue;
  concurrency = req.concurrency;
  socket_path = none;
}

-- What the texts of the actions stand for.
pub data Action : Type 0 where
  halt resume cancel retry restart : Action
  unknown : String → Action

unfoldable pub action_of : String → Action
action_of s =
    if str_eq s "halt"
    then halt
    else if str_eq s "resume"
    then resume
    else if str_eq s "cancel"
    then cancel
    else if str_eq s "retry"
    then retry
    else if str_eq s "restart"
    then restart
    else unknown s

abbrev pub or_null : Option String → Option String
or_null none = some "null"
or_null (some r) = some r

abbrev pub or_default : String → String
or_default queue = if str_eq queue "" then "default" else queue

abbrev pub no_types : List String → Bool
no_types [] = true
no_types (t ∷ ts) = false

module _ ⦃env : Env⦄ where
  unfoldable pub post_task : Option CreateTaskRequest → Answer
  post_task none = bad_request undecodable
  post_task (some req) =
      refuse_if (str_eq req.type "") "type is required" (λ w.
        reply write_error (λ t. write_json 201 (Body.task t)) (create_task (task_input req) w))

  unfoldable pub get_task_by_id : String → Answer
  get_task_by_id id w =
      reply write_error (λ (t, attempts, events). write_json 200 (details t attempts events))
        (get_task id w)

  unfoldable pub get_tasks : TaskQuery → Answer
  get_tasks q w =
      reply write_error (λ ts. write_json 200 (Body.tasks ts)) (list_tasks (task_filter q) w)

  abbrev pub control_done : Unit {0} → Answer
  control_done _ = write_json 200 status_ok

  -- The cases of ControlTask's `switch`.
  unfoldable pub control : String → Action → Answer
  control id halt w = reply write_error control_done (halt_task id w)
  control id resume w = reply write_error control_done (resume_task id w)
  control id cancel w = reply write_error control_done (cancel_task id w)
  control id retry w = reply write_error control_done (retry_task id w)
  control id restart w = reply write_error (λ t. write_json 200 (Body.task t)) (restart_task id w)
  control id (unknown action) w = bad_request (problem (String.◌++◌ "unknown action: " action)) w

  unfoldable pub post_control : String → Option ControlRequest → Answer
  post_control id none = bad_request undecodable
  post_control id (some req) = control id (action_of req.action)

  unfoldable pub get_workers : Answer
  get_workers w = reply write_error (λ ws. write_json 200 (Body.workers ws)) (list_workers w)

  unfoldable pub register_worker : Option RegisterWorkerRequest → Answer
  register_worker none = bad_request undecodable
  register_worker (some req) = refuse_if (str_eq req.type "") "type is required" (λ w.
      reply write_error (λ x. write_json 201 (Body.worker x)) (create_worker (worker_input req) w))

  abbrev pub claim_done : Option (Task × String) → Answer
  claim_done none = write_json 204 empty
  claim_done (some (t, id)) = write_json 200 (claimed t id)

  unfoldable pub post_claim : Config → Option ClaimRequest → Answer
  post_claim cfg none = bad_request undecodable
  post_claim cfg (some req) = refuse_if (str_eq req.worker_id "") "worker_id is required" (
      refuse_if (no_types req.task_types) "task_types must not be empty" (λ w.
        reply write_error claim_done
          (claim_task req.worker_id (or_default req.queue) req.task_types cfg w)))

  unfoldable pub post_succeed : String → Option SucceedRequest → Answer
  post_succeed id none = bad_request undecodable
  post_succeed id (some req) =
      λ w. reply write_attempt_error control_done (succeed_attempt id (or_null req.result) w)

  unfoldable pub post_fail : String → Option FailRequest → Answer
  post_fail id none = bad_request undecodable
  post_fail id (some req) =
      refuse_if (str_eq req.error "") "error message is required"
        (λ w. reply write_attempt_error control_done (fail_attempt id req.error w))

  unfoldable pub get_schedules : Answer
  get_schedules w = reply write_error (λ ss. write_json 200 (Body.schedules ss)) (list_schedules w)

  unfoldable pub post_schedule : Option CreateScheduleRequest → Answer
  post_schedule none = bad_request undecodable
  post_schedule (some req) = refuse_if (str_eq req.task_type "") "task_type is required" (
      refuse_if (is_none req.cron_expr && is_none req.interval_secs)
        "one of cron_expr or interval_secs is required"
        (λ w. reply write_error (λ s. write_json 201 (Body.schedule s)) (create_schedule req w)))

  unfoldable pub patch_schedule : String → Option UpdateScheduleRequest → Answer
  patch_schedule id none = bad_request undecodable
  patch_schedule id (some req) =
      λ w. reply write_error (λ s. write_json 200 (Body.schedule s)) (update_schedule id req w)

  -- What TriggerSchedule does with the schedule that it has read.
  unfoldable pub trigger_found : Schedule → Answer
  trigger_found sc w =
      reply write_error (λ t. write_json 201 (Body.task t)) (create_task (scheduled_task sc) w)

  unfoldable pub trigger_schedule : String → Answer
  trigger_schedule id w = reply write_error trigger_found (get_schedule id w)

  -- The routes that `Register` mounts.
  unfoldable pub serve : Config → Request → Answer
  serve cfg (tasks_get q) = get_tasks q
  serve cfg (tasks_post body) = post_task body
  serve cfg (task_get id) = get_task_by_id id
  serve cfg (task_control id body) = post_control id body
  serve cfg workers_get = get_workers
  serve cfg (workers_register body) = register_worker body
  serve cfg (worker_claim body) = post_claim cfg body
  serve cfg (attempt_succeed id body) = post_succeed id body
  serve cfg (attempt_fail id body) = post_fail id body
  serve cfg schedules_get = get_schedules
  serve cfg (schedules_post body) = post_schedule body
  serve cfg (schedule_patch id body) = patch_schedule id body
  serve cfg (schedule_trigger id) = trigger_schedule id
