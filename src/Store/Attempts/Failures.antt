-- ===== src/Store/Attempts/Failures.antt =====
-- What FailAttempt and TimeoutAttempt (internal/store/attempts.go) make of a task.
use ermine_tq.Prelude.{
  ℕ, ◌+◌, String, true, false, ◌≡◌, refl, some, ◌⊎◌, inl, inr, pos, ◌+ℤ◌, ltb_ℤ, by_key,
  first_where, first-update_key, update_where, Bool-cases,
}
use ermine_tq.Store.Models.{Task, Attempt, TaskStatus, TaskEventType, Detail, fmt_db_time}
use ermine_tq.Store.Db.{Db, Env, World}
use ermine_tq.Store.Statements.{task_key, attempt_key, is_live}
use ermine_tq.Store.Attempts.{
  set_status, set_retrying, spend_retry, end_failed, fail_attempt, timeout_attempt, retry_backoff,
}
use ermine_tq.Store.Runs.{
  Ensures, Runs, Runs-map, Runs-bind, Runs-return, Runs-time, Runs-query, Runs-or_fail, Runs-exec,
  Runs-load, Runs-release, Runs-event,
}
use ermine_tq.Store.Runs.Writes.{Runs-emit, write_then-Ensures}

-- The task has a retry left: it waits for it, and the retry is counted. Or it has none, and is dead.
-- Nothing else of the row changes but the time of the update.
abbrev pub Spent : ℕ → Task → Task → Type 0
Spent now t t' =
    ((ltb_ℤ t.retry_count t.max_retries ≡ true)
      × (t' ≡ record t {
        status = TaskStatus.retrying;
        retry_count = t.retry_count +ℤ pos 1;
        run_at = fmt_db_time (now + retry_backoff t.retry_count);
        updated_at = fmt_db_time now;
      }))
    ⊎ ((ltb_ℤ t.retry_count t.max_retries ≡ false)
        × (t' ≡ record t { status = TaskStatus.dead; updated_at = fmt_db_time now }))

-- The attempt was running, and this became of the task's row.
pub record HasSpent (id : String) (before after : Db) : Type 0 where
  pub attempt : Attempt
  pub task : Task
  pub next : Task
  pub now : ℕ
  pub held : first_where (by_key attempt_key id) before.attempts ≡ some attempt
  pub live : is_live attempt ≡ true
  pub found : first_where (by_key task_key attempt.task_id) before.tasks ≡ some task
  pub left : first_where (by_key task_key attempt.task_id) after.tasks ≡ some next
  pub spent : Spent now task next

module _ ⦃env : Env⦄ where
  spend_retry-Spent {κ} :
      {d : Db} (id message task_id : String) (now : ℕ) (t : Task) (again over : TaskEventType)
      {Q : TaskEventType × Detail → Db → Type κ}
      → ((event : TaskEventType) (detail : Detail) (g : Task → Task)
          → ((u : Task) → (g u).id ≡ u.id)
          → Spent now t (g t)
          → Q
              (event, detail)
              (record d { tasks = update_where (by_key task_key task_id) g d.tasks }))
      → Runs d (spend_retry id message task_id now t.retry_count t.max_retries again over) Q
  unfolding spend_retry set_retrying set_status
  spend_retry-Spent id message task_id now t again over h =
      elim (Bool-cases (ltb_ℤ t.retry_count t.max_retries)) [
        | inl e ↦ rw e (Runs-bind (Runs-exec _ (Runs-return (h _ _ _ (λ u. refl) (inl (e, refl))))))
        | inr e ↦ rw e (Runs-bind (Runs-exec _ (Runs-return (h _ _ _ (λ u. refl) (inr (e, refl))))))
      ]

  end_failed-HasSpent :
      (d : Db) (id message : String) (again over : TaskEventType)
      → Runs d (end_failed id message again over) (λ _. HasSpent id d)
  unfolding end_failed
  end_failed-HasSpent d id message again over = Runs-bind (
      Runs-time λ n. Runs-bind (
        Runs-load id λ a held live. Runs-bind (
          Runs-query _ (
            Runs-bind (
              Runs-or_fail _ _ λ t found. Runs-bind (
                Runs-exec _ (
                  Runs-bind (
                    spend_retry-Spent id message a.task_id _ t again over
                      λ event detail g same_id spent. Runs-bind (
                        Runs-release _ (
                          Runs-bind (
                            Runs-event _ _ _ _ λ e. Runs-return (record {
                              attempt = a;
                              task = t;
                              next = g t;
                              now = _;
                              held = held;
                              live = live;
                              found = found;
                              left = first-update_key task_key a.task_id g same_id d.tasks t found;
                              spent = spent;
                            }))))))))))))

  -- If FailAttempt or TimeoutAttempt succeeds, the attempt was running, and its task has been moved
  -- by the budget: if retry_count was below max_retries, the task is retrying, its retry_count is
  -- one more, and it is due after the delay for the retries so far; else it is dead and its
  -- retry_count is as before. Nothing else of the row changes but updated_at.
  pub fail_and_timeout-HasSpent :
      (id message : String) (w : World)
      → Ensures (fail_attempt id message w) (λ _. HasSpent id w.db)
        × Ensures (timeout_attempt id w) (λ _. HasSpent id w.db)
  unfolding fail_attempt timeout_attempt
  fail_and_timeout-HasSpent id message w = (
    write_then-Ensures _ _ _ w
        (Runs-map (λ p d h. Runs-emit _ _ h) (end_failed-HasSpent w.db id message _ _)),
    write_then-Ensures _ _ _ w
        (Runs-map (λ p d h. Runs-emit _ _ h) (end_failed-HasSpent w.db id _ _ _)),
  )
