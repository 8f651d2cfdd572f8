-- ===== src/Store/Refinement/Endings.antt =====
-- The ends of an execution (internal/store/attempts.go, TimeoutAttempt) against the contract.
use ermine_tq.Prelude.{
  String, true, false, ◌≡◌, some, first_where, refl, Option, List, by_key, update_where, ℕ,
  Bool-cases, inl, inr, ltb_ℤ,
}
use ermine_tq.Config.{Config}
use ermine_tq.Store.Models.{
  Task, Attempt, TaskEvent, TaskStatus, TaskEventType, Detail, status_eq, attempt_status_eq,
}
use ermine_tq.Store.Db.{Db, Env}
use ermine_tq.Store.Statements.{task_key, attempt_key, is_live}
use ermine_tq.Store.Runs.{
  Runs, Runs-bind, Runs-return, Runs-time, Runs-query, Runs-or_fail, Runs-exec, Runs-load,
  Runs-release, Runs-event,
}
use ermine_tq.Store.Attempts.{
  set_succeeded, set_failed, set_cancelled, set_status, set_retrying, succeed_tx, cancel_tx,
  spend_retry, end_failed,
}
use ermine_tq.Store.Steps.{Step, end, ended, IsEnd, IsMove, Spends, keeps, counts}

set_succeeded-IsEnd : (r : Option String) (now : ℕ) → IsEnd (set_succeeded r now)
unfolding set_succeeded attempt_status_eq
set_succeeded-IsEnd r now = record {
  same_id = λ a. refl;
  same_task = λ a. refl;
  same_worker = λ a. refl;
  same_num = λ a. refl;
  over = λ a. refl;
  dated = λ a. (now, refl);
}

set_failed-IsEnd : (s : String) (now : ℕ) → IsEnd (set_failed s now)
unfolding set_failed attempt_status_eq
set_failed-IsEnd s now = record {
  same_id = λ a. refl;
  same_task = λ a. refl;
  same_worker = λ a. refl;
  same_num = λ a. refl;
  over = λ a. refl;
  dated = λ a. (now, refl);
}

set_cancelled-IsEnd : (now : ℕ) → IsEnd (set_cancelled now)
unfolding set_cancelled attempt_status_eq
set_cancelled-IsEnd now = record {
  same_id = λ a. refl;
  same_task = λ a. refl;
  same_worker = λ a. refl;
  same_num = λ a. refl;
  over = λ a. refl;
  dated = λ a. (now, refl);
}

pub set_status-IsMove :
    (s : TaskStatus) (now : ℕ) → status_eq s TaskStatus.running ≡ false → IsMove (set_status s now)
unfolding set_status
set_status-IsMove s now h = record {
  same_id = λ t. refl;
  same_queue = λ t. refl;
  same_type = λ t. refl;
  same_max = λ t. refl;
  rests = λ t. h;
}

pub set_status-Spends :
    (ts : List Task) (id : String) (s : TaskStatus) (now : ℕ) → Spends ts id (set_status s now)
unfolding set_status
set_status-Spends ts id s now = keeps (λ t. refl)

set_retrying-IsMove : (run_at now : ℕ) → IsMove (set_retrying run_at now)
unfolding set_retrying status_eq
set_retrying-IsMove run_at now = record {
  same_id = λ t. refl;
  same_queue = λ t. refl;
  same_type = λ t. refl;
  same_max = λ t. refl;
  rests = λ t. refl;
}

-- An ending of this attempt, which was running.
pub data Ends (id : String) (d : Db) : Db → Type 0 where
  ends :
      (a : Attempt) (f : Attempt → Attempt) (g : Task → Task) (e : TaskEvent)
      → first_where (by_key attempt_key id) d.attempts ≡ some a
      → is_live a ≡ true
      → IsEnd f
      → IsMove g
      → Spends d.tasks a.task_id g
      → Ends id d (ended d id a f g e)

pub Ends-Step : (cfg : Config) (id : String) (d d' : Db) → Ends id d d' → Step cfg d d'
Ends-Step cfg id d _ (ends a f g e found live over moves spends) =
    end id a f g e found live over moves spends

module _ ⦃env : Env⦄ (d : Db) where
  pub succeed_tx-Ends :
      (id : String) (result : Option String) → Runs d (succeed_tx id result) (λ _. Ends id d)
  unfolding succeed_tx status_eq
  succeed_tx-Ends id result = Runs-bind (
      Runs-time λ t. Runs-bind (
        Runs-load id λ a found live. Runs-bind (
          Runs-exec _ (
            Runs-bind (
              Runs-exec _ (
                Runs-bind (
                  Runs-release _ (
                    Runs-bind (
                      Runs-event _ _ _ _ λ e. Runs-return (
                        ends a _ _ _ found live (set_succeeded-IsEnd _ _)
                          (set_status-IsMove _ _ refl) (set_status-Spends _ _ _ _)))))))))))

  pub cancel_tx-Ends : (id : String) → Runs d (cancel_tx id) (λ _. Ends id d)
  unfolding cancel_tx status_eq
  cancel_tx-Ends id = Runs-bind (
      Runs-time λ t. Runs-bind (
        Runs-load id λ a found live. Runs-bind (
          Runs-exec _ (
            Runs-bind (
              Runs-exec _ (
                Runs-bind (
                  Runs-release _ (
                    Runs-bind (
                      Runs-event _ _ _ _ λ e. Runs-return (
                        ends a _ _ _ found live (set_cancelled-IsEnd _) (set_status-IsMove _ _ refl)
                          (set_status-Spends _ _ _ _)))))))))))

module _ ⦃env : Env⦄ where
  -- On either branch the task is moved, and nothing else is written.
  pub spend_retry-moves {κ} :
      {d : Db} (id message task_id : String) (now : ℕ) (t : Task) (again over : TaskEventType)
      {Q : TaskEventType × Detail → Db → Type κ}
      → first_where (by_key task_key task_id) d.tasks ≡ some t
      → ((event : TaskEventType) (detail : Detail) (g : Task → Task)
          → IsMove g
          → Spends d.tasks task_id g
          → Q
              (event, detail)
              (record d { tasks = update_where (by_key task_key task_id) g d.tasks }))
      → Runs d (spend_retry id message task_id now t.retry_count t.max_retries again over) Q
  unfolding spend_retry status_eq set_retrying
  spend_retry-moves id message task_id now t again over held h =
      elim (Bool-cases (ltb_ℤ t.retry_count t.max_retries)) [
        | inl e ↦ rw e (
            Runs-bind (
              Runs-exec _
                (Runs-return (h _ _ _ (set_retrying-IsMove _ _) (counts t held e (λ u. refl))))))
        | inr e ↦ rw e (
            Runs-bind (
              Runs-exec _
                (Runs-return (h _ _ _ (set_status-IsMove _ _ refl) (set_status-Spends _ _ _ _)))))
      ]

  pub end_failed-Ends :
      (d : Db) (id message : String) (again over : TaskEventType)
      → Runs d (end_failed id message again over) (λ _. Ends id d)
  unfolding end_failed
  end_failed-Ends d id message again over = Runs-bind (
      Runs-time λ now. Runs-bind (
        Runs-load id λ a found live. Runs-bind (
          Runs-query _ (
            Runs-bind (
              Runs-or_fail _ _ λ t held. Runs-bind (
                Runs-exec _ (
                  Runs-bind (
                    spend_retry-moves id message a.task_id _ t again over held
                      λ event detail g moves spends. Runs-bind (
                        Runs-release _ (
                          Runs-bind (
                            Runs-event _ _ _ _ λ e. Runs-return (
                              ends a _ g _ found live (set_failed-IsEnd _ _) moves
                                spends))))))))))))
