-- ===== src/Store/Operations.antt =====
-- The operations of the Store that write, as data, so that histories of calls can be spoken of.
use ermine_tq.Prelude.{ℕ, String, Option, List, [], ◌∷◌}
use ermine_tq.Config.{Config}
use ermine_tq.Store.Db.{Env, World, Reply}
use ermine_tq.Store.Attempts.{
  succeed_attempt, fail_attempt, timeout_attempt, cancel_attempt, update_heartbeat,
}
use ermine_tq.Store.Claim.{claim_task}
use ermine_tq.Store.Control.{halt_task, resume_task, cancel_task, retry_task, restart_task}
use ermine_tq.Store.Maintenance.{requeue_retrying, record_schedule_run}
use ermine_tq.Store.Workers.{CreateWorkerInput, create_worker}
use ermine_tq.Store.Schedules.{
  CreateScheduleInput, UpdateScheduleInput, create_schedule, update_schedule,
}
use ermine_tq.Store.Tasks.{CreateTaskInput, create_task}

pub data Op : Type 0 where
  creates : CreateTaskInput → Op
  claims : String → String → List String → Op
  succeeds : String → Option String → Op
  fails : String → String → Op
  times_out : String → Op
  cancels_attempt : String → Op
  beats : String → Op
  halts resumes cancels retries restarts : String → Op
  requeues : Op
  registers : CreateWorkerInput → Op
  adds_schedule : CreateScheduleInput → Op
  patches_schedule : String → UpdateScheduleInput → Op
  records_run : String → ℕ → Op

-- The world that a call leaves.
abbrev after {ℓ} : {A : Type ℓ} → Reply A × World → World
after r = r.1

module _ ⦃env : Env⦄ (cfg : Config) where
  unfoldable pub perform : Op → World → World
  perform (creates input) w = after (create_task input w)
  perform (claims worker_id queue types) w = after (claim_task worker_id queue types cfg w)
  perform (succeeds id result) w = after (succeed_attempt id result w)
  perform (fails id message) w = after (fail_attempt id message w)
  perform (times_out id) w = after (timeout_attempt id w)
  perform (cancels_attempt id) w = after (cancel_attempt id w)
  perform (beats id) w = after (update_heartbeat id w)
  perform (halts id) w = after (halt_task id w)
  perform (resumes id) w = after (resume_task id w)
  perform (cancels id) w = after (cancel_task id w)
  perform (retries id) w = after (retry_task id w)
  perform (restarts id) w = after (restart_task id w)
  perform requeues w = after (requeue_retrying w)
  perform (registers input) w = after (create_worker input w)
  perform (adds_schedule input) w = after (create_schedule input w)
  perform (patches_schedule id input) w = after (update_schedule id input w)
  perform (records_run id next) w = after (record_schedule_run id next w)

  unfoldable pub run : List Op → World → World
  unfolding perform
  run [] w = w
  run (op ∷ ops) w = run ops (perform op w)
