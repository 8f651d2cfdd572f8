-- ===== src/Store/Refinement/Controls.antt =====
-- The control actions (internal/store/control.go) against the contract.
use ermine_tq.Prelude.{String, false, ◌≡◌, refl, ℕ, List, not, ◌&&◌}
use ermine_tq.Config.{Config}
use ermine_tq.Store.Models.{TaskStatus, TaskEventType, status_eq}
use ermine_tq.Store.Db.{Db, Env}
use ermine_tq.Store.Runs.{
  Runs, Runs-bind, Runs-return, Runs-time, Runs-exec, Runs-new_id, Runs-event, Runs-if, Runs-fail,
  Runs-task_status, Runs-read_task, Runs-insert_task,
}
use ermine_tq.Store.Control.{
  set_queued, set_retried, can_restart, task_status_one_of, transition_tx, resume_tx, retry_tx,
  restart_tx,
}
use ermine_tq.Store.Steps.{Step, control, replace, IsMove, keeps, resets}
use ermine_tq.Store.Refinement.Endings.{set_status-IsMove, set_status-Spends}

set_queued-IsMove : (now : ℕ) → IsMove (set_queued now)
unfolding set_queued status_eq
set_queued-IsMove now = record {
  same_id = λ t. refl;
  same_queue = λ t. refl;
  same_type = λ t. refl;
  same_max = λ t. refl;
  rests = λ t. refl;
}

set_retried-IsMove : (now : ℕ) → IsMove (set_retried now)
unfolding set_retried status_eq
set_retried-IsMove now = record {
  same_id = λ t. refl;
  same_queue = λ t. refl;
  same_type = λ t. refl;
  same_max = λ t. refl;
  rests = λ t. refl;
}

module _ ⦃env : Env⦄ (cfg : Config) (d : Db) (id : String) where
  pub transition_tx-Step :
      (from : List TaskStatus) (to : TaskStatus) (event : TaskEventType)
      → status_eq to TaskStatus.running ≡ false
      → Runs d (transition_tx id from to event) (λ _. Step cfg d)
  unfolding transition_tx
  transition_tx-Step from to event rests = Runs-bind (
      Runs-time λ now. Runs-bind (
        Runs-task_status id λ t held.
          Runs-if (task_status_one_of t.status from)
            (λ _. Runs-bind (
              Runs-exec _ (
                Runs-event _ _ _ _ λ e.
                  control id t _ _ held (set_status-IsMove to _ rests)
                    (set_status-Spends _ _ _ _))))
            (λ _. Runs-fail _)))

  pub resume_tx-Step : Runs d (resume_tx id) (λ _. Step cfg d)
  unfolding resume_tx set_queued
  resume_tx-Step = Runs-bind (
      Runs-time λ now. Runs-bind (
        Runs-task_status id λ t held.
          Runs-if (status_eq t.status TaskStatus.halted)
            (λ _. Runs-bind (
              Runs-exec _ (
                Runs-event _ _ _ _
                  λ e. control id t _ _ held (set_queued-IsMove _) (keeps (λ u. refl)))))
            (λ _. Runs-fail _)))

  pub retry_tx-Step : Runs d (retry_tx id) (λ _. Step cfg d)
  unfolding retry_tx set_retried
  retry_tx-Step = Runs-bind (
      Runs-time λ now. Runs-bind (
        Runs-task_status id λ t held.
          Runs-if
            (not (status_eq t.status TaskStatus.dead)
              && not (status_eq t.status TaskStatus.cancelled))
            (λ _. Runs-fail _)
            (λ _. Runs-bind (
              Runs-exec _ (
                Runs-event _ _ _ _
                  λ e. control id t _ _ held (set_retried-IsMove _) (resets (λ u. refl)))))))

  pub restart_tx-Step : Runs d (restart_tx id) (λ _. Step cfg d)
  unfolding restart_tx status_eq
  restart_tx-Step = Runs-bind (
      Runs-time λ now. Runs-bind (
        Runs-read_task id λ t held.
          Runs-if (can_restart t.status)
            (λ _. Runs-bind (
              Runs-exec _ (
                Runs-bind (
                  Runs-new_id λ n. Runs-bind (
                    Runs-insert_task _ λ fresh. Runs-bind (
                      Runs-event _ _ _ _ λ e. Runs-return (
                        replace id t _ _ _ held (set_status-IsMove _ _ refl) fresh refl refl
                          (set_status-Spends _ _ _ _))))))))
            (λ _. Runs-fail _)))
