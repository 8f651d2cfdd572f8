-- ===== src/Store/Attempts.antt =====
-- internal/store/attempts.go, and TimeoutAttempt of internal/store/maintenance.go: how an execution
-- ends, and its heartbeats.
pub mod Backoff
pub mod Failures
use ermine_tq.Prelude.{
  ℕ, ◌+◌, ◌*◌, ◌^◌, String, Option, some, ℤ, pos, ◌+ℤ◌, ltb, ltb_ℤ, if◌then◌else◌, by_key,
  update_where, ◌&&◌, first_where, pos_part,
}
use ermine_tq.Store.Models.{
  Task, Attempt, TaskStatus, AttemptStatus, TaskEventType, Detail, second, fmt_db_time,
}
use ermine_tq.Store.Db.{
  Env, M, ◌>>=◌, ◌>>◌, return, query, exec, or_fail, time_now, write, emit, driver_error,
}
use ermine_tq.Store.Statements.{
  task_key, attempt_key, is_live, load_running_attempt, update_task, update_attempt, release_worker,
  insert_task_event,
}

abbrev pub retry_base_delay : ℕ
retry_base_delay = 30 * second

abbrev pub retry_max_delay : ℕ
retry_max_delay = 3600 * second

abbrev pub max_shift : ℕ
max_shift = 7

-- The clamps of `retryBackoff`: a negative count becomes 0, one past `maxShift` becomes `maxShift`.
abbrev pub clamp_shift : ℤ → ℕ
clamp_shift n = let k = pos_part n in if ltb max_shift k then max_shift else k

unfoldable pub retry_backoff : ℤ → ℕ
retry_backoff retry_count =
    let d = retry_base_delay * 2 ^ clamp_shift retry_count in
    if ltb retry_max_delay d then retry_max_delay else d

-- The SET clauses.
unfoldable pub set_succeeded : Option String → ℕ → Attempt → Attempt
set_succeeded result now a = record a {
  status = AttemptStatus.succeeded;
  result = result;
  finished_at = some now;
}

unfoldable pub set_failed : String → ℕ → Attempt → Attempt
set_failed error now a = record a {
  status = AttemptStatus.failed;
  error = some error;
  finished_at = some now;
}

unfoldable pub set_cancelled : ℕ → Attempt → Attempt
set_cancelled now a = record a { status = AttemptStatus.cancelled; finished_at = some now }

unfoldable pub set_status : TaskStatus → ℕ → Task → Task
set_status status now t = record t { status = status; updated_at = now }

unfoldable pub set_retrying : ℕ → ℕ → Task → Task
set_retrying run_at now t = record t {
  status = TaskStatus.retrying;
  retry_count = t.retry_count +ℤ pos 1;
  run_at = run_at;
  updated_at = now;
}

module _ ⦃env : Env⦄ where
  unfoldable pub succeed_tx : String → Option String → M String
  unfolding set_succeeded set_status
  succeed_tx attempt_id result = do
    now' ← time_now
    let now = fmt_db_time now'
    (task_id, worker_id) ← load_running_attempt attempt_id
    update_attempt attempt_id (set_succeeded result now)
    update_task task_id (set_status TaskStatus.succeeded now)
    release_worker worker_id
    insert_task_event task_id TaskEventType.succeeded (some (Detail.attempt attempt_id)) now
    return task_id

  unfoldable pub succeed_attempt : String → Option String → M (Unit {0})
  unfolding succeed_tx
  succeed_attempt attempt_id result = do
    task_id ← write (succeed_tx attempt_id result)
    emit task_id TaskEventType.succeeded

  -- The branch on the retry budget. It is given the event types of its two outcomes, and returns
  -- the one that it chose with the event's detail.
  unfoldable pub spend_retry :
      String
      → String
      → String
      → ℕ
      → ℤ
      → ℤ
      → TaskEventType
      → TaskEventType
      → M (TaskEventType × Detail)
  spend_retry attempt_id message task_id now retry_count max_retries again over =
      if ltb_ℤ retry_count max_retries
      then (do
        update_task task_id
            (set_retrying (fmt_db_time (now + retry_backoff retry_count)) (fmt_db_time now))
        return (again, Detail.retry attempt_id message (retry_count +ℤ pos 1)))
      else (do
        update_task task_id (set_status TaskStatus.dead (fmt_db_time now))
        return (over, Detail.failure attempt_id message))

  -- FailAttempt and TimeoutAttempt run the same statements; the event types differ.
  unfoldable pub end_failed :
      String → String → TaskEventType → TaskEventType → M (String × TaskEventType)
  unfolding spend_retry
  end_failed attempt_id message again over = do
    now ← time_now
    (task_id, worker_id) ← load_running_attempt attempt_id
    row ← query (λ d. first_where (by_key task_key task_id) d.tasks)
    t ← or_fail row driver_error  -- a missing row is sql.ErrNoRows here, and not ErrNotFound
    update_attempt attempt_id (set_failed message (fmt_db_time now))
    (event, detail) ←
        spend_retry attempt_id message task_id now t.retry_count t.max_retries again over
    release_worker worker_id
    insert_task_event task_id event (some detail) (fmt_db_time now)
    return (task_id, event)

  unfoldable pub fail_attempt : String → String → M (Unit {0})
  unfolding end_failed
  fail_attempt attempt_id message = do
    (task_id, event) ←
        write (end_failed attempt_id message TaskEventType.retrying TaskEventType.dead)
    emit task_id event

  unfoldable pub timeout_attempt : String → M (Unit {0})
  unfolding end_failed
  timeout_attempt attempt_id = do
    (task_id, event) ← write (
        end_failed attempt_id "heartbeat timeout" TaskEventType.heartbeat_timeout
          TaskEventType.heartbeat_timeout)
    emit task_id event

  unfoldable pub cancel_tx : String → M String
  unfolding set_cancelled set_status
  cancel_tx attempt_id = do
    now' ← time_now
    let now = fmt_db_time now'
    (task_id, worker_id) ← load_running_attempt attempt_id
    update_attempt attempt_id (set_cancelled now)
    update_task task_id (set_status TaskStatus.cancelled now)
    release_worker worker_id
    insert_task_event task_id TaskEventType.cancelled (some (Detail.attempt attempt_id)) now
    return task_id

  unfoldable pub cancel_attempt : String → M (Unit {0})
  unfolding cancel_tx
  cancel_attempt attempt_id = do
    task_id ← write (cancel_tx attempt_id)
    emit task_id TaskEventType.cancelled

  unfoldable pub heartbeat_tx : String → M (Unit {0})
  heartbeat_tx attempt_id = do
    now ← time_now
    exec (λ d. record d {
      attempts =
          update_where (λ a. by_key attempt_key attempt_id a && is_live a)
            (λ a. record a { heartbeat_at = some (fmt_db_time now) }) d.attempts;
    })

  unfoldable pub update_heartbeat : String → M (Unit {0})
  unfolding heartbeat_tx
  update_heartbeat attempt_id = write (heartbeat_tx attempt_id)
