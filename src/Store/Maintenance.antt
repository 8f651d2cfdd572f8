-- ===== src/Store/Maintenance.antt =====
-- internal/store/maintenance.go: what the scheduler calls, but for TimeoutAttempt (Attempts.antt).
pub mod Requeue
use ermine_tq.Prelude.{
  ℕ, String, Bool, false, ◌&&◌, Option, none, some, List, leb, if◌then◌else◌, by_key, select_where,
  count_where, update_where, ◌==◌,
}
use ermine_tq.Store.Models.{Task, Attempt, Schedule, TaskStatus, status_eq, fmt_db_time}
use ermine_tq.Store.Db.{Env, M, ◌>>=◌, return, fail, query, statement, time_now, write, not_found}
use ermine_tq.Store.Statements.{schedule_key, is_live}

-- status = 'retrying' AND run_at <= ?
unfoldable pub is_due : ℕ → Task → Bool
is_due now t = status_eq t.status TaskStatus.retrying && leb t.run_at now

unfoldable pub set_requeued : ℕ → Task → Task
set_requeued now t = record t { status = TaskStatus.queued; updated_at = now }

-- COALESCE(heartbeat_at, started_at) <= ?; the comparison with NULL is not true.
abbrev pub last_sign : Attempt → Option ℕ
last_sign a = elim a.heartbeat_at [ none ↦ a.started_at | some t ↦ some t ]

abbrev pub at_or_before : ℕ → Option ℕ → Bool
at_or_before cutoff none = false
at_or_before cutoff (some t) = leb t cutoff

unfoldable pub is_stale : ℕ → Attempt → Bool
is_stale cutoff a = is_live a && at_or_before cutoff (last_sign a)

-- enabled = 1 AND next_run_at <= ?
unfoldable pub is_schedule_due : ℕ → Schedule → Bool
is_schedule_due now s = s.enabled && at_or_before now s.next_run_at

unfoldable pub set_run : ℕ → ℕ → Schedule → Schedule
set_run now next s = record s { last_run_at = some now; next_run_at = some next }

module _ ⦃env : Env⦄ where
  -- The number of rows that the UPDATE wrote.
  unfoldable pub requeue_tx : M ℕ
  requeue_tx = do
    now' ← time_now
    let now = fmt_db_time now'
    statement (λ d. some (
      count_where (is_due now) d.tasks,
      record d { tasks = update_where (is_due now) (set_requeued now) d.tasks },
    ))

  unfoldable pub requeue_retrying : M ℕ
  unfolding requeue_tx
  requeue_retrying = write requeue_tx

  unfoldable pub find_stale_attempts : ℕ → M (List Attempt)
  find_stale_attempts cutoff = query (λ d. select_where (is_stale (fmt_db_time cutoff)) d.attempts)

  unfoldable pub due_schedules : M (List Schedule)
  due_schedules = do
    now ← time_now
    query (λ d. select_where (is_schedule_due (fmt_db_time now)) d.schedules)

  unfoldable pub record_run_tx : String → ℕ → M (Unit {0})
  record_run_tx id next_run_at = do
    now ← time_now
    n ← statement (λ d. some (
      count_where (by_key schedule_key id) d.schedules,
      record d {
        schedules =
            update_where (by_key schedule_key id)
              (set_run (fmt_db_time now) (fmt_db_time next_run_at)) d.schedules;
      },
    ))
    if n == 0 then fail not_found else return tt

  unfoldable pub record_schedule_run : String → ℕ → M (Unit {0})
  unfolding record_run_tx
  record_schedule_run id next_run_at = write (record_run_tx id next_run_at)
