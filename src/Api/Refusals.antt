-- ===== src/Api/Refusals.antt =====
-- What the API's answers with the statuses 400 to 499 leave in the store.
use ermine_tq.Prelude.{
  ℕ, String, Bool, true, false, ◌≡◌, refl, ◌∙◌, ◌&&◌, Option, none, some, leb, ltb, arith,
}
use ermine_tq.Config.{Config}
use ermine_tq.Store.Models.{Task, Schedule}
use ermine_tq.Store.Db.{Db, Env, World, M, Reply, ok, err, Error}
use ermine_tq.Store.Runs.Writes.{IsQuiet}
use ermine_tq.Store.Refusals.{
  is_blamed, is_refused, IsClean, create_task-IsClean, halt_task-IsClean, resume_task-IsClean,
  cancel_task-IsClean, retry_task-IsClean, restart_task-IsClean, create_worker-IsClean,
  create_schedule-IsClean, succeed_attempt-IsClean, fail_attempt-IsClean, claim_task-IsClean,
}
use ermine_tq.Store.Refusals.Patches.{update_schedule-IsClean}
use ermine_tq.Scheduler.Ticks.{scheduled_task}
use ermine_tq.Store.Reads.{
  get_task-IsQuiet, list_tasks-IsQuiet, get_schedule-IsQuiet, list_schedules-IsQuiet,
  list_workers-IsQuiet,
}
use ermine_tq.Api.Requests.{
  Request, tasks_get, tasks_post, task_get, task_control, workers_get, workers_register,
  worker_claim, attempt_succeed, attempt_fail, schedules_get, schedules_post, schedule_patch,
  schedule_trigger, Response, Body,
}
use ermine_tq.Api.Handlers.{
  Answer, refuse_if, Action, halt, resume, cancel, retry, restart, unknown, action_of, reply,
  write_json, write_error, write_attempt_error, error_status, attempt_error_status, control,
  post_claim, claim_done, trigger_found, post_task, get_task_by_id, get_tasks, post_control,
  get_workers, register_worker, post_succeed, post_fail, get_schedules, post_schedule,
  patch_schedule, trigger_schedule, serve,
}

-- The statuses from 400 to 499.
abbrev pub is_client_error : ℕ → Bool
is_client_error status = leb 400 status && ltb status 500

-- An answer of one of these leaves the tables alone.
record Spares (before : Db) (r : Response × World) : Type 0 where
  spared : is_client_error r.0.status ≡ true → r.1.db ≡ before

module _ ⦃env : Env⦄ where
  error_status-blamed : (e : Error) → is_client_error (error_status e) ≡ true → is_blamed e ≡ true
  error_status-blamed e h = ground arith

  attempt_error_status-blamed :
      (e : Error) → is_client_error (attempt_error_status e) ≡ true → is_blamed e ≡ true
  attempt_error_status-blamed e h = ground arith

  reply-Spares {ℓ} :
      {A : Type ℓ} (before : Db) (fail : Error → Answer) (done : A → Answer) (r : Reply A × World)
      → ((e : Error) (w : World) → (is_blamed e ≡ true → w.db ≡ before) → Spares before (fail e w))
      → ((a : A) (w : World) → Spares before (done a w))
      → (is_refused r.0 ≡ true → r.1.db ≡ before)
      → Spares before (reply fail done r)
  unfolding reply
  reply-Spares before fail done (ok a, w) f g h = g a w
  reply-Spares before fail done (err e, w) f g h = f e w h

  write_error-Spares :
      (before : Db) (e : Error) (w : World)
      → (is_blamed e ≡ true → w.db ≡ before)
      → Spares before (write_error e w)
  write_error-Spares before e w h = record { spared = λ k. h (error_status-blamed e k) }

  -- A result that is answered with a status below 400.
  done-Spares :
      (before : Db) (status : ℕ) (body : Body) (w : World)
      → is_client_error status ≡ false
      → Spares before (write_json status body w)
  done-Spares before status body w h = record { spared = λ k. cc }

  says-Spares {ℓ} :
      {A : Type ℓ} {m : M A} (body : A → Body) (status : ℕ) (w : World)
      → is_client_error status ≡ false
      → IsClean m
      → Spares w.db (reply write_error (λ a. write_json status (body a)) (m w))
  says-Spares body status w h c =
      reply-Spares w.db _ _ _ (write_error-Spares w.db)
        (λ a w'. done-Spares w.db status (body a) w' h) (c.clean w)

  reports-Spares {ℓ} :
      {A : Type ℓ} {m : M A} (body : A → Body) (status : ℕ) (w : World)
      → is_client_error status ≡ false
      → IsClean m
      → Spares w.db (reply write_attempt_error (λ a. write_json status (body a)) (m w))
  reports-Spares body status w h c =
      reply-Spares w.db _ _ _
        (λ e w' k. record { spared = λ q. k (attempt_error_status-blamed e q) })
        (λ a w'. done-Spares w.db status (body a) w' h) (c.clean w)

  IsClean-quiet {ℓ} : {A : Type ℓ} {m : M A} → IsQuiet m → IsClean m
  IsClean-quiet q = record { clean = λ w h. q.same_db w }

  refuse-Spares :
      (b : Bool) (message : String) (go : Answer) (w : World)
      → Spares w.db (go w)
      → Spares w.db (refuse_if b message go w)
  unfolding refuse_if
  refuse-Spares true message go w h = record { spared = λ k. refl }
  refuse-Spares false message go w h = h

  same : (x : Response) (w : World) → Spares w.db (x, w)
  same x w = record { spared = λ k. refl }

  control-Spares : (id : String) (a : Action) (w : World) → Spares w.db (control id a w)
  unfolding control
  control-Spares id halt w = says-Spares _ 200 w refl (halt_task-IsClean id)
  control-Spares id resume w = says-Spares _ 200 w refl (resume_task-IsClean id)
  control-Spares id cancel w = says-Spares _ 200 w refl (cancel_task-IsClean id)
  control-Spares id retry w = says-Spares _ 200 w refl (retry_task-IsClean id)
  control-Spares id restart w = says-Spares _ 200 w refl (restart_task-IsClean id)
  control-Spares id (unknown s) w = same _ w

  claim_done-Spares :
      (before : Db) (r : Option (Task × String)) (w : World) → Spares before (claim_done r w)
  claim_done-Spares before none w = done-Spares before 204 _ w refl
  claim_done-Spares before (some (t, id)) w = done-Spares before 200 _ w refl

  -- Of a schedule that was read, from tables that the reading left alone.
  trigger_found-Spares :
      (before : Db) (sc : Schedule) (w : World) → w.db ≡ before → Spares before (trigger_found sc w)
  unfolding trigger_found
  trigger_found-Spares before sc w h =
      let s = (says-Spares Body.task 201 w refl (create_task-IsClean (scheduled_task sc))).spared in
      record { spared = λ k. s k ∙ h }

  trigger-Spares :
      (before : Db) (r : Reply Schedule × World)
      → r.1.db ≡ before
      → Spares before (reply write_error trigger_found r)
  unfolding reply
  trigger-Spares before (ok sc, w) h = trigger_found-Spares before sc w h
  trigger-Spares before (err e, w) h = record { spared = λ k. h }

  serve-Spares : (cfg : Config) (req : Request) (w : World) → Spares w.db (serve cfg req w)
  unfolding serve post_task get_task_by_id get_tasks post_control get_workers register_worker
      post_claim post_succeed post_fail get_schedules post_schedule patch_schedule trigger_schedule
  serve-Spares cfg (tasks_get q) w = says-Spares _ 200 w refl (IsClean-quiet (list_tasks-IsQuiet _))
  serve-Spares cfg (tasks_post none) w = same _ w
  serve-Spares cfg (tasks_post (some req)) w =
      refuse-Spares _ _ _ w (says-Spares Body.task 201 w refl (create_task-IsClean _))
  serve-Spares cfg (task_get id) w =
      reply-Spares w.db _ _ _ (write_error-Spares w.db) (λ a w'. done-Spares w.db 200 _ w' refl)
        (λ h. (get_task-IsQuiet id).same_db w)
  serve-Spares cfg (task_control id none) w = same _ w
  serve-Spares cfg (task_control id (some req)) w = control-Spares id (action_of req.action) w
  serve-Spares cfg workers_get w = says-Spares _ 200 w refl (IsClean-quiet list_workers-IsQuiet)
  serve-Spares cfg (workers_register none) w = same _ w
  serve-Spares cfg (workers_register (some req)) w =
      refuse-Spares _ _ _ w (says-Spares Body.worker 201 w refl (create_worker-IsClean _))
  serve-Spares cfg (worker_claim none) w = same _ w
  serve-Spares cfg (worker_claim (some req)) w = refuse-Spares _ _ _ w (
      refuse-Spares _ _ _ w (
        reply-Spares w.db _ _ _ (write_error-Spares w.db) (claim_done-Spares w.db)
          ((claim_task-IsClean _ _ _ cfg).clean w)))
  serve-Spares cfg (attempt_succeed id none) w = same _ w
  serve-Spares cfg (attempt_succeed id (some req)) w =
      reports-Spares _ 200 w refl (succeed_attempt-IsClean id _)
  serve-Spares cfg (attempt_fail id none) w = same _ w
  serve-Spares cfg (attempt_fail id (some req)) w =
      refuse-Spares _ _ _ w (reports-Spares _ 200 w refl (fail_attempt-IsClean id _))
  serve-Spares cfg schedules_get w = says-Spares _ 200 w refl (IsClean-quiet list_schedules-IsQuiet)
  serve-Spares cfg (schedules_post none) w = same _ w
  serve-Spares cfg (schedules_post (some req)) w =
      refuse-Spares _ _ _ w
        (refuse-Spares _ _ _ w (says-Spares Body.schedule 201 w refl (create_schedule-IsClean req)))
  serve-Spares cfg (schedule_patch id none) w = same _ w
  serve-Spares cfg (schedule_patch id (some req)) w =
      says-Spares Body.schedule 200 w refl (update_schedule-IsClean id req)
  serve-Spares cfg (schedule_trigger id) w =
      trigger-Spares w.db _ ((get_schedule-IsQuiet id).same_db w)

  -- A request whose answer has a status from 400 to 499 leaves the tables as they were, whatever
  -- faults the store meets.
  pub serve-untouched :
      (cfg : Config) (req : Request) (w : World)
      → is_client_error (serve cfg req w).0.status ≡ true
      → (serve cfg req w).1.db ≡ w.db
  serve-untouched cfg req w h = (serve-Spares cfg req w).spared h
