-- ===== src/Store/Tasks.antt =====
-- internal/store/tasks.go: the creation of tasks, and the queries.
pub mod RoundTrip
use ermine_tq.Prelude.{
  ℕ, zero, suc, String, Bool, true, ◌&&◌, Option, none, some, List, [], ◌∷◌, ℤ, pos, str_eq, ltb,
  leb_ℤ, ◌==◌, if◌then◌else◌, by_key, first_where, select_where, order_by, pos_part,
}
use ermine_tq.Store.Models.{
  Task, Attempt, TaskEvent, TaskStatus, TaskEventType, status_text, fmt_db_time,
}
use ermine_tq.Store.Db.{
  Env, M, ◌>>=◌, ◌>>◌, return, query, with_ties, or_fail, time_now, new_id, write, emit, not_found,
}
use ermine_tq.Store.Statements.{
  task_key, attempt_key, event_key, order_rows, task_before, insert_task, insert_task_event,
}

pub record CreateTaskInput : Type 0 where
  pub type : String
  pub queue : String
  pub payload : Option String
  pub priority : ℤ
  pub max_retries : ℤ
  pub timeout_secs : Option ℤ
  pub run_at : ℕ
  pub parent_id : Option String
  pub schedule_id : Option String

abbrev is_zero : ℤ → Bool
is_zero n = leb_ℤ n (pos 0) && leb_ℤ (pos 0) n

-- The task with its defaults. A zero `RunAt` stands for now.
unfoldable pub new_task : String → ℕ → CreateTaskInput → Task
new_task id now input = record {
  id = id;
  type = input.type;
  queue = if str_eq input.queue "" then "default" else input.queue;
  payload = input.payload;
  status = TaskStatus.queued;
  priority = input.priority;
  retry_count = pos 0;
  max_retries = if is_zero input.max_retries then pos 3 else input.max_retries;
  timeout_secs = input.timeout_secs;
  run_at = if input.run_at == 0 then now else input.run_at;
  parent_id = input.parent_id;
  schedule_id = input.schedule_id;
  created_at = now;
  updated_at = now;
}

pub record ListTasksFilter : Type 0 where
  pub status : Option String
  pub type : Option String
  pub queue : Option String
  pub limit : ℤ
  pub offset : ℤ

abbrev matches_text : Option String → String → Bool
matches_text none s = true
matches_text (some k) s = str_eq s k

unfoldable pub matches : ListTasksFilter → Task → Bool
matches f t =
    matches_text f.status (status_text t.status)
    && (matches_text f.type t.type && matches_text f.queue t.queue)

-- LIMIT and OFFSET; a negative offset is read as 0.
unfoldable pub take {ℓ} : {A : Type ℓ} → ℕ → List A → List A
take zero xs = []
take (suc n) [] = []
take (suc n) (x ∷ xs) = x ∷ take n xs

unfoldable pub drop {ℓ} : {A : Type ℓ} → ℕ → List A → List A
drop zero xs = xs
drop (suc n) [] = []
drop (suc n) (x ∷ xs) = drop n xs

unfoldable pub page_size : ListTasksFilter → ℕ
page_size f = if leb_ℤ f.limit (pos 0) then 50 else pos_part f.limit

abbrev pub num_before : Attempt → Attempt → Bool
num_before a b = ltb a.attempt_num b.attempt_num

abbrev pub event_before : TaskEvent → TaskEvent → Bool
event_before a b = ltb a.created_at b.created_at

module _ ⦃env : Env⦄ where
  unfoldable pub create_task_tx : Task → ℕ → M (Unit {0})
  create_task_tx t now = do
    insert_task t
    insert_task_event t.id TaskEventType.queued none (fmt_db_time now)

  unfoldable pub create_task : CreateTaskInput → M Task
  unfolding create_task_tx
  create_task input = do
    now ← time_now
    id ← new_id
    let t = new_task id now input
    write (create_task_tx t now)
    emit t.id TaskEventType.queued
    return t

  unfoldable pub list_attempts_by_task : String → M (List Attempt)
  list_attempts_by_task task_id = with_ties λ tie. query (λ d.
      order_rows attempt_key tie num_before
        (select_where (λ a. str_eq a.task_id task_id) d.attempts))

  unfoldable pub list_events_by_task : String → M (List TaskEvent)
  list_events_by_task task_id = with_ties λ tie. query (λ d.
      order_rows event_key tie event_before (select_where (λ e. str_eq e.task_id task_id) d.events))

  unfoldable pub get_task : String → M (Task × List Attempt × List TaskEvent)
  unfolding list_attempts_by_task list_events_by_task
  get_task id = do
    row ← query (λ d. first_where (by_key task_key id) d.tasks)
    t ← or_fail row not_found
    attempts ← list_attempts_by_task id
    events ← list_events_by_task id
    return (t, attempts, events)

  unfoldable pub list_tasks : ListTasksFilter → M (List Task)
  list_tasks f = with_ties λ tie. query (λ d. take (page_size f) (
      drop (pos_part f.offset)
        (order_rows task_key tie task_before (select_where (matches f) d.tasks))))
