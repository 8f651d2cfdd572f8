-- ===== src/Store/Refinement/Upkeep.antt =====
-- The creation of tasks, workers and schedules, and the scheduler's upkeep, against the contract.
use ermine_tq.Prelude.{
  String, false, ◌≡◌, refl, ℕ, ℤ, pos, leb_ℤ, str_eq, arith, ◌==◌, if◌then◌else◌, count_where,
  by_key,
}
use ermine_tq.Config.{Config}
use ermine_tq.Store.Models.{Schedule}
use ermine_tq.Store.Db.{Db, Env}
use ermine_tq.Store.Statements.{schedule_key, runs_on}
use ermine_tq.Store.Runs.{
  Runs, Runs-bind, Runs-return, Runs-time, Runs-total, Runs-exec, Runs-insert, Runs-event, Runs-if,
  Runs-fail, Runs-insert_task,
}
use ermine_tq.Store.Tasks.{CreateTaskInput, new_task, create_task_tx}
use ermine_tq.Store.Workers.{CreateWorkerInput, new_worker, insert_worker}
use ermine_tq.Store.Schedules.{UpdateScheduleInput, insert_schedule, patch_tx}
use ermine_tq.Store.Maintenance.{requeue_tx, record_run_tx}
use ermine_tq.Store.Attempts.{heartbeat_tx}
use ermine_tq.Store.Steps.{Step, create, requeue, beat, register, schedule}

module _ ⦃env : Env⦄ (cfg : Config) (d : Db) where
  pub create_task_tx-Step :
      (id : String) (now : ℕ) (input : CreateTaskInput)
      → Runs d (create_task_tx (new_task id now input) now) (λ _. Step cfg d)
  unfolding create_task_tx new_task
  create_task_tx-Step id now input =
      Runs-bind (Runs-insert_task _ λ fresh. Runs-event _ _ _ _ λ e. create _ _ fresh refl refl)

  pub requeue_tx-Step : Runs d requeue_tx (λ _. Step cfg d)
  unfolding requeue_tx
  requeue_tx-Step = Runs-bind (Runs-time λ now. Runs-total _ (requeue _))

  pub heartbeat_tx-Step : (id : String) → Runs d (heartbeat_tx id) (λ _. Step cfg d)
  unfolding heartbeat_tx
  heartbeat_tx-Step id = Runs-bind (Runs-time λ now. Runs-exec _ (beat id _))

  pub insert_worker-Step :
      (id : String) (now : ℕ) (input : CreateWorkerInput)
      → str_eq id "" ≡ false
      → count_where (runs_on id) d.attempts ≡ 0
      → Runs d (insert_worker (new_worker id now input)) (λ _. Step cfg d)
  unfolding insert_worker new_worker
  insert_worker-Step id now input named unused =
      Runs-insert _ _ λ fresh.
        register _ (ground arith) named unused refl refl (concurrency-pos input.concurrency)
    where
      concurrency-pos : (n : ℤ) → leb_ℤ (if leb_ℤ n (pos 0) then pos 1 else n) (pos 0) ≡ false
      concurrency-pos n = ground arith

  pub insert_schedule-Step : (s : Schedule) → Runs d (insert_schedule s) (λ _. Step cfg d)
  unfolding insert_schedule
  insert_schedule-Step s = Runs-insert _ _ λ _. schedule _

  pub patch_tx-Step :
      (id : String) (input : UpdateScheduleInput) → Runs d (patch_tx id input) (λ _. Step cfg d)
  unfolding patch_tx
  patch_tx-Step id input = Runs-total _ (schedule _)

  pub record_run_tx-Step :
      (id : String) (next : ℕ) → Runs d (record_run_tx id next) (λ _. Step cfg d)
  unfolding record_run_tx
  record_run_tx-Step id next = Runs-bind (
      Runs-time λ now. Runs-bind (
        Runs-total _ (
          Runs-if (count_where (by_key schedule_key id) d.schedules == 0) (λ _. Runs-fail _)
            (λ _. Runs-return (schedule _)))))
