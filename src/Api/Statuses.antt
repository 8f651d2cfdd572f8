-- ===== src/Api/Statuses.antt =====
-- The status codes of the API: requests that internal/api refuses as malformed.
use ermine_tq.Prelude.{
  ℕ, String, Bool, true, false, ◌≡◌, refl, ◌∙◌, not, ◌&&◌, Option, none, some, [], ◌∷◌, str_eq,
  ◌==◌, arith,
}
use ermine_tq.Config.{Config}
use ermine_tq.Store.Models.{Task, Schedule}
use ermine_tq.Store.Db.{Env, World, Reply, ok, err, Error, not_found}
use ermine_tq.Store.Statements.{is_none}
use ermine_tq.Store.Claim.{one_of}
use ermine_tq.Api.Requests.{
  Request, tasks_get, tasks_post, task_get, task_control, workers_get, workers_register,
  worker_claim, attempt_succeed, attempt_fail, schedules_get, schedules_post, schedule_patch,
  schedule_trigger, Response, Body,
}
use ermine_tq.Api.Handlers.{
  Answer, refuse_if, Action, halt, resume, cancel, retry, restart, unknown, action_of, reply,
  write_json, write_error, write_attempt_error, error_status, attempt_error_status, control,
  post_claim, claim_done, trigger_found, no_types, post_task, get_task_by_id, get_tasks,
  post_control, get_workers, register_worker, post_succeed, post_fail, get_schedules, post_schedule,
  patch_schedule, trigger_schedule, serve,
}

-- Whether a request is well formed: its body can be decoded, the fields without a default are
-- there, and its action is one of the five.
abbrev pub is_valid : Request → Bool
is_valid (tasks_post none) = false
is_valid (tasks_post (some req)) = not (str_eq req.type "")
is_valid (task_control id none) = false
is_valid (task_control id (some req)) =
    one_of ("halt" ∷ "resume" ∷ "cancel" ∷ "retry" ∷ "restart" ∷ []) req.action
is_valid (workers_register none) = false
is_valid (workers_register (some req)) = not (str_eq req.type "")
is_valid (worker_claim none) = false
is_valid (worker_claim (some req)) = not (str_eq req.worker_id "") && not (no_types req.task_types)
is_valid (attempt_succeed id none) = false
is_valid (attempt_fail id none) = false
is_valid (attempt_fail id (some req)) = not (str_eq req.error "")
is_valid (schedules_post none) = false
is_valid (schedules_post (some req)) =
    not (str_eq req.task_type "") && not (is_none req.cron_expr && is_none req.interval_secs)
is_valid (schedule_patch id none) = false
is_valid _ = true

-- The actions that are none of the five.
abbrev is_unknown : Action → Bool
is_unknown (unknown s) = true
is_unknown a = false

action_of-known :
    (s : String)
    → is_unknown (action_of s)
      ≡ not (one_of ("halt" ∷ "resume" ∷ "cancel" ∷ "retry" ∷ "restart" ∷ []) s)
unfolding action_of one_of
action_of-known s = ground arith

module _ ⦃env : Env⦄ where
  reply-accepted {ℓ} :
      {A : Type ℓ} (fail : Error → Answer) (done : A → Answer) (r : Reply A × World)
      → ((e : Error) (w : World) → ((fail e w).0.status == 400) ≡ false)
      → ((a : A) (w : World) → ((done a w).0.status == 400) ≡ false)
      → ((reply fail done r).0.status == 400) ≡ false
  unfolding reply
  reply-accepted fail done (ok a, w) f g = g a w
  reply-accepted fail done (err e, w) f g = f e w

  error_status-accepted : (e : Error) → (error_status e == 400) ≡ false
  error_status-accepted not_found = refl
  error_status-accepted e = ground arith

  attempt_error_status-accepted : (e : Error) → (attempt_error_status e == 400) ≡ false
  attempt_error_status-accepted e = ground arith

  -- Whether a response has status 400.
  abbrev is_refusal : Response × World → Bool
  is_refusal r = r.0.status == 400

  says-accepted {ℓ} :
      {A : Type ℓ} (body : A → Body) (status : ℕ) (r : Reply A × World)
      → (status == 400) ≡ false
      → is_refusal (reply write_error (λ a. write_json status (body a)) r) ≡ false
  says-accepted body status r h = reply-accepted _ _ r (λ e w. error_status-accepted e) (λ a w. h)

  reports-accepted {ℓ} :
      {A : Type ℓ} (body : A → Body) (status : ℕ) (r : Reply A × World)
      → (status == 400) ≡ false
      → is_refusal (reply write_attempt_error (λ a. write_json status (body a)) r) ≡ false
  reports-accepted body status r h =
      reply-accepted _ _ r (λ e w. attempt_error_status-accepted e) (λ a w. h)

  refuse-judged :
      (b : Bool) (message : String) (go : Answer) (c : Bool) (w : World)
      → is_refusal (go w) ≡ not c
      → is_refusal (refuse_if b message go w) ≡ not (not b && c)
  unfolding refuse_if
  refuse-judged true message go c w h = refl
  refuse-judged false message go c w h = h

  and_true : (b : Bool) → (not (b && true)) ≡ not b
  and_true true = refl
  and_true false = refl

  control-judged :
      (id : String) (a : Action) (w : World) → is_refusal (control id a w) ≡ is_unknown a
  unfolding control
  control-judged id halt w = says-accepted _ 200 _ refl
  control-judged id resume w = says-accepted _ 200 _ refl
  control-judged id cancel w = says-accepted _ 200 _ refl
  control-judged id retry w = says-accepted _ 200 _ refl
  control-judged id restart w = says-accepted _ 200 _ refl
  control-judged id (unknown s) w = refl

  claim_done-accepted :
      (r : Option (Task × String)) (w : World) → is_refusal (claim_done r w) ≡ false
  claim_done-accepted none w = refl
  claim_done-accepted (some (t, id)) w = refl

  trigger_found-accepted : (sc : Schedule) (w : World) → is_refusal (trigger_found sc w) ≡ false
  unfolding trigger_found
  trigger_found-accepted sc w = says-accepted _ 201 _ refl

  -- A request is answered with status 400 exactly if it is not valid: its body cannot be decoded,
  -- or it lacks a task type, a worker id, the types to claim, an error message, both a cron
  -- expression and an interval, or names an action other than the five.
  pub serve-bad_request :
      (cfg : Config) (req : Request) (w : World)
      → ((serve cfg req w).0.status == 400) ≡ not (is_valid req)
  unfolding serve post_task get_task_by_id get_tasks post_control get_workers register_worker
      post_claim post_succeed post_fail get_schedules post_schedule patch_schedule trigger_schedule
  serve-bad_request cfg (tasks_get q) w = says-accepted _ 200 _ refl
  serve-bad_request cfg (tasks_post none) w = refl
  serve-bad_request cfg (tasks_post (some req)) w =
      refuse-judged _ _ _ true w (says-accepted _ 201 _ refl) ∙ and_true _
  serve-bad_request cfg (task_get id) w = says-accepted _ 200 _ refl
  serve-bad_request cfg (task_control id none) w = refl
  serve-bad_request cfg (task_control id (some req)) w =
      control-judged id (action_of req.action) w ∙ action_of-known req.action
  serve-bad_request cfg workers_get w = says-accepted _ 200 _ refl
  serve-bad_request cfg (workers_register none) w = refl
  serve-bad_request cfg (workers_register (some req)) w =
      refuse-judged _ _ _ true w (says-accepted _ 201 _ refl) ∙ and_true _
  serve-bad_request cfg (worker_claim none) w = refl
  serve-bad_request cfg (worker_claim (some req)) w = refuse-judged _ _ _ _ w (
      refuse-judged _ _ _ true w
        (reply-accepted _ _ _ (λ e w. error_status-accepted e) claim_done-accepted)
      ∙ and_true _)
  serve-bad_request cfg (attempt_succeed id none) w = refl
  serve-bad_request cfg (attempt_succeed id (some req)) w = reports-accepted _ 200 _ refl
  serve-bad_request cfg (attempt_fail id none) w = refl
  serve-bad_request cfg (attempt_fail id (some req)) w =
      refuse-judged _ _ _ true w (reports-accepted _ 200 _ refl) ∙ and_true _
  serve-bad_request cfg schedules_get w = says-accepted _ 200 _ refl
  serve-bad_request cfg (schedules_post none) w = refl
  serve-bad_request cfg (schedules_post (some req)) w =
      refuse-judged _ _ _ _ w (refuse-judged _ _ _ true w (says-accepted _ 201 _ refl) ∙ and_true _)
  serve-bad_request cfg (schedule_patch id none) w = refl
  serve-bad_request cfg (schedule_patch id (some req)) w = says-accepted _ 200 _ refl
  serve-bad_request cfg (schedule_trigger id) w =
      reply-accepted _ _ _ (λ e w. error_status-accepted e) trigger_found-accepted
