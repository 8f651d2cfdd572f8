-- ===== src/Api/Effects.antt =====
-- What a request does to the tables.
use ermine_tq.Prelude.{
  ℕ, String, Bool, true, false, ◌≡◌, sym, subst, Option, none, some, count_where,
}
use ermine_tq.Config.{Config}
use ermine_tq.Store.Models.{Task, Schedule}
use ermine_tq.Store.Db.{Db, Env, World, M, Reply, ok, err, Error}
use ermine_tq.Store.Statements.{runs_on}
use ermine_tq.Store.Operations.{
  Op, creates, claims, succeeds, fails, halts, resumes, cancels, retries, restarts, registers,
  adds_schedule, patches_schedule, perform,
}
use ermine_tq.Store.Runs.Writes.{IsQuiet}
use ermine_tq.Store.Reads.{
  get_task-IsQuiet, list_tasks-IsQuiet, get_schedule-IsQuiet, list_schedules-IsQuiet,
  list_workers-IsQuiet,
}
use ermine_tq.Store.Refinement.Performs.{NamesAreGiven, IdIsUnused, perform-Steps}
use ermine_tq.Store.Invariant.Histories.{IsConsistent, Steps-IsConsistent}
use ermine_tq.Scheduler.Ticks.{scheduled_task}
use ermine_tq.Api.Requests.{
  ClaimRequest, Request, tasks_get, tasks_post, task_get, task_control, workers_get,
  workers_register, worker_claim, attempt_succeed, attempt_fail, schedules_get, schedules_post,
  schedule_patch, schedule_trigger, Body, failure,
}
use ermine_tq.Api.Handlers.{
  Answer, refuse_if, Action, halt, resume, cancel, retry, restart, unknown, action_of, reply,
  write_error, control, post_claim, claim_done, write_json, post_task, get_task_by_id, get_tasks,
  post_control, get_workers, register_worker, post_succeed, post_fail, get_schedules, post_schedule,
  patch_schedule, trigger_schedule, worker_input, trigger_found, or_default, or_null, task_input,
  serve,
}

-- A request that registers a worker gets an id that no running attempt names.
module _ ⦃env : Env⦄ where
  abbrev pub RequestIsFree : Request → World → Type 0
  RequestIsFree (workers_register body) w =
      count_where (runs_on (env.new_id w.ids)) w.db.attempts ≡ 0
  RequestIsFree _ w = Unit

-- A property of the tables that every call of a writing operation keeps.
module _ {κ} ⦃env : Env⦄ (cfg : Config) (P : Db → Type κ)
    (kept : (op : Op) (w : World) → IdIsUnused op w → P w.db → P (perform cfg op w).db) where
  -- An answer that keeps the property, as all that do nothing else do.
  abbrev Keeps : Answer → Type κ
  Keeps f = (w : World) → P w.db → P (f w).1.db

  reply-keeps {ℓ} :
      {A : Type ℓ} (fail : Error → Answer) (done : A → Answer) (r : Reply A × World)
      → ((e : Error) → Keeps (fail e))
      → ((a : A) → Keeps (done a))
      → P r.1.db
      → P (reply fail done r).1.db
  unfolding reply
  reply-keeps fail done (ok a, w) f g h = g a w h
  reply-keeps fail done (err e, w) f g h = f e w h

  -- The two answers of most handlers write nothing.
  says-keeps {ℓ} :
      {A : Type ℓ} (fail : Error → ℕ) (status : ℕ) (body : A → Body) (r : Reply A × World)
      → P r.1.db
      → P (reply (λ e. write_json (fail e) (failure e)) (λ a. write_json status (body a)) r).1.db
  says-keeps fail status body r h = reply-keeps _ _ r (λ e w k. k) (λ a w k. k) h

  quiet-keeps {ℓ} : {A : Type ℓ} (m : M A) (w : World) → IsQuiet m → P w.db → P (m w).1.db
  quiet-keeps m w q h = subst P (sym (q.same_db w)) h

  refuse-keeps :
      (b : Bool) (message : String) (go : Answer) (w : World)
      → P (go w).1.db
      → P w.db
      → P (refuse_if b message go w).1.db
  unfolding refuse_if
  refuse-keeps true message go w h k = k
  refuse-keeps false message go w h k = h

  control-Keeps : (id : String) (action : Action) → Keeps (control id action)
  unfolding control perform
  control-Keeps id halt w h = says-keeps _ _ _ _ (kept (halts id) w tt h)
  control-Keeps id resume w h = says-keeps _ _ _ _ (kept (resumes id) w tt h)
  control-Keeps id cancel w h = says-keeps _ _ _ _ (kept (cancels id) w tt h)
  control-Keeps id retry w h = says-keeps _ _ _ _ (kept (retries id) w tt h)
  control-Keeps id restart w h = says-keeps _ _ _ _ (kept (restarts id) w tt h)
  control-Keeps id (unknown s) w h = h

  claim_done-Keeps : (r : Option (Task × String)) → Keeps (claim_done r)
  claim_done-Keeps none w h = h
  claim_done-Keeps (some (t, id)) w h = h

  claim-Keeps : (body : Option ClaimRequest) → Keeps (post_claim cfg body)
  unfolding post_claim perform
  claim-Keeps none w h = h
  claim-Keeps (some req) w h =
      refuse-keeps _ _ _ w
        (refuse-keeps _ _ _ w
          (reply-keeps write_error claim_done _ (λ e w k. k) claim_done-Keeps
            (kept (claims req.worker_id (or_default req.queue) req.task_types) w tt h))
          h)
        h

  trigger_found-Keeps : (sc : Schedule) → Keeps (trigger_found sc)
  unfolding trigger_found perform
  trigger_found-Keeps sc w h = says-keeps _ _ _ _ (kept (creates (scheduled_task sc)) w tt h)

  serve-keeps :
      (req : Request) (w : World) → RequestIsFree req w → P w.db → P (serve cfg req w).1.db
  unfolding serve post_task get_task_by_id get_tasks post_control get_workers register_worker
      post_succeed post_fail get_schedules post_schedule patch_schedule trigger_schedule perform
  serve-keeps (tasks_get q) w _ h = says-keeps _ _ _ _ (quiet-keeps _ w (list_tasks-IsQuiet _) h)
  serve-keeps (tasks_post none) w _ h = h
  serve-keeps (tasks_post (some req)) w _ h =
      refuse-keeps _ _ _ w (says-keeps _ _ _ _ (kept (creates (task_input req)) w tt h)) h
  serve-keeps (task_get id) w _ h = says-keeps _ _ _ _ (quiet-keeps _ w (get_task-IsQuiet id) h)
  serve-keeps (task_control id none) w _ h = h
  serve-keeps (task_control id (some req)) w _ h = control-Keeps id (action_of req.action) w h
  serve-keeps workers_get w _ h = says-keeps _ _ _ _ (quiet-keeps _ w list_workers-IsQuiet h)
  serve-keeps (workers_register none) w _ h = h
  serve-keeps (workers_register (some req)) w free h =
      refuse-keeps _ _ _ w (says-keeps _ _ _ _ (kept (registers (worker_input req)) w free h)) h
  serve-keeps (worker_claim body) w _ h = claim-Keeps body w h
  serve-keeps (attempt_succeed id none) w _ h = h
  serve-keeps (attempt_succeed id (some req)) w _ h =
      says-keeps _ _ _ _ (kept (succeeds id (or_null req.result)) w tt h)
  serve-keeps (attempt_fail id none) w _ h = h
  serve-keeps (attempt_fail id (some req)) w _ h =
      refuse-keeps _ _ _ w (says-keeps _ _ _ _ (kept (fails id req.error) w tt h)) h
  serve-keeps schedules_get w _ h = says-keeps _ _ _ _ (quiet-keeps _ w list_schedules-IsQuiet h)
  serve-keeps (schedules_post none) w _ h = h
  serve-keeps (schedules_post (some req)) w _ h =
      refuse-keeps _ _ _ w
        (refuse-keeps _ _ _ w (says-keeps _ _ _ _ (kept (adds_schedule req) w tt h)) h) h
  serve-keeps (schedule_patch id none) w _ h = h
  serve-keeps (schedule_patch id (some req)) w _ h =
      says-keeps _ _ _ _ (kept (patches_schedule id req) w tt h)
  serve-keeps (schedule_trigger id) w _ h =
      reply-keeps write_error trigger_found _ (λ e w k. k) trigger_found-Keeps
        (quiet-keeps _ w (get_schedule-IsQuiet id) h)

-- uuid.NewString never returns the empty text, nor, for a worker that is registered, a name that a
-- running attempt gives as its worker's. Then every request to the API, whatever its body and
-- whatever faults, ended contexts and refusals the store meets, keeps the tables consistent.
pub serve-IsConsistent :
    ⦃env : Env⦄ (cfg : Config)
    → NamesAreGiven env
    → (req : Request) (w : World) → RequestIsFree req w
    → IsConsistent cfg w.db
    → IsConsistent cfg (serve cfg req w).1.db
serve-IsConsistent cfg named req w free h =
    serve-keeps cfg (IsConsistent cfg)
      (λ op w u h. Steps-IsConsistent h (perform-Steps cfg named op w h.tasks_unique u)) req w free
      h
