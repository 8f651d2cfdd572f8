-- ===== src/Store/Statements.antt =====
-- The SQL statements that several operations of internal/store share, and their row tests.
use ermine_tq.Prelude.{
  ℕ, String, Bool, true, false, ◌&&◌, ◌||◌, not, ltb, Option, none, some, List, [], ◌∷◌, ◌++◌,
  str_eq, pos, ◌+ℤ◌, ◌-ℤ◌, leb_ℤ, ltb_ℤ, if◌then◌else◌, by_key, first_where, update_where, order_by,
}
use ermine_tq.Store.Models.{
  Task, Attempt, TaskEvent, Worker, Schedule, Detail, TaskStatus, AttemptStatus, TaskEventType,
  idle, busy, status_eq, attempt_status_eq, fmt_db_time,
}
use ermine_tq.Store.Db.{
  Env, M, ◌>>=◌, return, or_fail, fail, query, exec, insert, new_id, not_found, attempt_not_running,
}

-- The primary keys.
abbrev pub task_key : Task → String
task_key t = t.id

abbrev pub attempt_key : Attempt → String
attempt_key a = a.id

abbrev pub event_key : TaskEvent → String
event_key e = e.id

abbrev pub worker_key : Worker → String
worker_key w = w.id

abbrev pub schedule_key : Schedule → String
schedule_key s = s.id

abbrev pub is_none {ℓ} : {A : Type ℓ} → Option A → Bool
is_none none = true
is_none (some a) = false

-- ORDER BY `before`; rows that it leaves in no order come as they are ranked.
unfoldable pub order_rows {ℓ} :
    {R : Type ℓ} → (R → String) → (String → ℕ) → (R → R → Bool) → List R → List R
order_rows key tie before rs =
    order_by before (order_by (λ a b. ltb (tie (key a)) (tie (key b))) rs)

-- ORDER BY priority DESC, created_at ASC
abbrev pub task_before : Task → Task → Bool
task_before a b =
    ltb_ℤ b.priority a.priority || (leb_ℤ b.priority a.priority && ltb a.created_at b.created_at)

-- SQL's `column = ?` on a column that may be NULL.
abbrev pub is_key : String → Option String → Bool
is_key k none = false
is_key k (some j) = str_eq j k

-- The text of a sql.NullString, "" for NULL.
abbrev pub or_empty : Option String → String
or_empty none = ""
or_empty (some s) = s

-- status = 'running'
abbrev pub is_running : Task → Bool
is_running t = status_eq t.status TaskStatus.running

abbrev pub is_live : Attempt → Bool
is_live a = attempt_status_eq a.status AttemptStatus.running

-- worker_id = ? AND status = 'running'
abbrev pub runs_on : String → Attempt → Bool
runs_on worker_id a = is_live a && is_key worker_id a.worker_id

-- REFERENCES: a value that is not NULL has its row, where SQLite checks that at all.
abbrev pub refers {ℓ} : {R : Type ℓ} → Bool → (R → String) → Option String → List R → Bool
refers checked key none rs = true
refers checked key (some k) rs = not (checked && is_none (first_where (by_key key k) rs))

-- The row of a task: it holds the times as their texts denote them.
abbrev pub stored : Task → Task
stored t = record t {
  run_at = fmt_db_time t.run_at;
  created_at = fmt_db_time t.created_at;
  updated_at = fmt_db_time t.updated_at;
}

abbrev pub new_event : String → String → TaskEventType → Option Detail → ℕ → TaskEvent
new_event id task_id event detail now = record {
  id = id;
  task_id = task_id;
  event = event;
  detail = detail;
  created_at = now;
}

module _ ⦃env : Env⦄ where
  -- INSERT INTO tasks
  unfoldable pub insert_task : Task → M (Unit {0})
  insert_task t =
      insert
        (λ d.
          is_none (first_where (by_key task_key t.id) d.tasks)
          && (refers env.foreign_keys task_key t.parent_id d.tasks
              && refers env.foreign_keys schedule_key t.schedule_id d.schedules))
        (λ d. record d { tasks = d.tasks ++ stored t ∷ [] })

  -- insertTaskEvent: `now` is a text of `fmtDBTime`.
  unfoldable pub insert_task_event : String → TaskEventType → Option Detail → ℕ → M (Unit {0})
  unfolding new_id
  insert_task_event task_id event detail now = do
    id ← new_id
    insert
        (λ d.
          is_none (first_where (by_key event_key id) d.events)
          && refers env.foreign_keys task_key (some task_id) d.tasks)
        (λ d. record d { events = d.events ++ new_event id task_id event detail now ∷ [] })

  -- taskStatusTx
  unfoldable pub task_status_tx : String → M TaskStatus
  task_status_tx id = do
    row ← query (λ d. first_where (by_key task_key id) d.tasks)
    task ← or_fail row not_found
    return task.status

  -- readTaskTx
  unfoldable pub read_task_tx : String → M Task
  read_task_tx id = do
    row ← query (λ d. first_where (by_key task_key id) d.tasks)
    or_fail row not_found

  -- loadRunningAttempt: the task's id and the worker's, "" for NULL.
  unfoldable pub load_running_attempt : String → M (String × String)
  load_running_attempt attempt_id = do
    row ← query (λ d. first_where (by_key attempt_key attempt_id) d.attempts)
    a ← or_fail row not_found
    if is_live a then return (a.task_id, or_empty a.worker_id) else fail attempt_not_running

  -- UPDATE tasks … WHERE id = ?
  abbrev pub update_task : String → (Task → Task) → M (Unit {0})
  update_task id f = exec (λ d. record d { tasks = update_where (by_key task_key id) f d.tasks })

  -- UPDATE attempts … WHERE id = ?
  abbrev pub update_attempt : String → (Attempt → Attempt) → M (Unit {0})
  update_attempt id f =
      exec (λ d. record d { attempts = update_where (by_key attempt_key id) f d.attempts })

-- The SET clauses on a worker's row.
unfoldable pub one_more : Worker → Worker
one_more w = record w {
  current_task_count = w.current_task_count +ℤ pos 1;
  status = if leb_ℤ w.concurrency (w.current_task_count +ℤ pos 1) then busy else idle;
}

unfoldable pub one_less : Worker → Worker
one_less w = record w {
  current_task_count = w.current_task_count -ℤ pos 1;
  status = if ltb_ℤ (w.current_task_count -ℤ pos 1) w.concurrency then idle else busy;
}

-- UPDATE workers … WHERE id = ?, with the test for a worker that the callers make before it.
unfoldable pub released : String → List Worker → List Worker
released worker_id ws =
    if str_eq worker_id "" then ws else update_where (by_key worker_key worker_id) one_less ws

module _ ⦃env : Env⦄ where
  -- decrementWorker, and the test for a worker before its calls.
  unfoldable pub decrement_worker : String → M (Unit {0})
  decrement_worker worker_id =
      exec
        (λ d. record d { workers = update_where (by_key worker_key worker_id) one_less d.workers })

  unfoldable pub release_worker : String → M (Unit {0})
  unfolding decrement_worker
  release_worker worker_id = if str_eq worker_id "" then return tt else decrement_worker worker_id
