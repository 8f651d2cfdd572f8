-- ===== src/Store/Steps.antt =====
-- What one committed write of internal/store may do to the tables, as a relation: the contract
-- of the store, which leaves the statements and their order out.
use ermine_tq.Prelude.{
  ℕ, suc, String, Bool, true, false, ◌≡◌, some, List, [], ◌∷◌, ◌++◌, ℤ, pos, ltb_ℤ, leb_ℤ, ◌+ℤ◌,
  str_eq, by_key, IsFresh, first_where, count_where, update_where, ◌&&◌,
}
use ermine_tq.Config.{Config, queue_limit, task_type_limit}
use ermine_tq.Store.Models.{Task, TaskStatus, Attempt, TaskEvent, Worker, Schedule, idle}
use ermine_tq.Store.Db.{Db}
use ermine_tq.Store.Statements.{
  task_key, attempt_key, worker_key, is_running, is_live, or_empty, runs_on, one_more, released,
  stored,
}
use ermine_tq.Store.Claim.{runs_in, runs_as, set_running, max_attempt_num, new_attempt}
use ermine_tq.Store.Maintenance.{is_due, set_requeued}

-- The write of an attempt's row that ends it.
pub record IsEnd (f : Attempt → Attempt) : Type 0 where
  pub same_id : (a : Attempt) → (f a).id ≡ a.id
  pub same_task : (a : Attempt) → (f a).task_id ≡ a.task_id
  pub same_worker : (a : Attempt) → (f a).worker_id ≡ a.worker_id
  pub same_num : (a : Attempt) → (f a).attempt_num ≡ a.attempt_num
  pub over : (a : Attempt) → is_live (f a) ≡ false
  pub dated : (a : Attempt) → (t : ℕ) × ((f a).finished_at ≡ some t)

-- A write of a task's row that leaves the task outside `running` and where it was filed.
pub record IsMove (g : Task → Task) : Type 0 where
  pub same_id : (t : Task) → (g t).id ≡ t.id
  pub same_queue : (t : Task) → (g t).queue ≡ t.queue
  pub same_type : (t : Task) → (g t).type ≡ t.type
  pub same_max : (t : Task) → (g t).max_retries ≡ t.max_retries
  pub rests : (t : Task) → is_running (g t) ≡ false

-- What a write of the task with an id does to its count of retries: nothing, it starts at zero again, or
-- it counts one more where the task had one left.
pub data Spends (ts : List Task) (id : String) (g : Task → Task) : Type 0 where
  keeps : ((t : Task) → (g t).retry_count ≡ t.retry_count) → Spends ts id g
  resets : ((t : Task) → (g t).retry_count ≡ pos 0) → Spends ts id g
  counts :
      (t : Task)
      → first_where (by_key task_key id) ts ≡ some t
      → ltb_ℤ t.retry_count t.max_retries ≡ true
      → ((u : Task) → (g u).retry_count ≡ u.retry_count +ℤ pos 1)
      → Spends ts id g

-- A limit is reached; 0 or less stands for no limit.
abbrev pub at_limit : ℤ → ℕ → Bool
at_limit limit n = ltb_ℤ (pos 0) limit && leb_ℤ limit (pos n)

-- The room that a claim needs: the running tasks are below each limit that concerns the task.
pub record HasRoom (cfg : Config) (ts : List Task) (t : Task) : Type 0 where
  pub globally : leb_ℤ cfg.limits.global (pos (count_where is_running ts)) ≡ false
  pub in_queue : at_limit (queue_limit cfg t.queue) (count_where (runs_in t.queue) ts) ≡ false
  pub in_type : at_limit (task_type_limit cfg t.type) (count_where (runs_as t.type) ts) ≡ false

-- The databases after each kind of write.
abbrev pub added : Db → Task → TaskEvent → Db
added d t e = record d { tasks = d.tasks ++ stored t ∷ []; events = d.events ++ e ∷ [] }

abbrev pub claimed : Db → Task → Attempt → String → ℕ → TaskEvent → Db
claimed d t a worker_id now e = record d {
  tasks = update_where (by_key task_key t.id) (set_running now) d.tasks;
  attempts = d.attempts ++ a ∷ [];
  workers = update_where (by_key worker_key worker_id) one_more d.workers;
  events = d.events ++ e ∷ [];
}

abbrev pub ended : Db → String → Attempt → (Attempt → Attempt) → (Task → Task) → TaskEvent → Db
ended d id a f g e = record d {
  attempts = update_where (by_key attempt_key id) f d.attempts;
  tasks = update_where (by_key task_key a.task_id) g d.tasks;
  workers = released (or_empty a.worker_id) d.workers;
  events = d.events ++ e ∷ [];
}

abbrev pub moved : Db → String → (Task → Task) → TaskEvent → Db
moved d id g e = record d {
  tasks = update_where (by_key task_key id) g d.tasks;
  events = d.events ++ e ∷ [];
}

abbrev pub replaced : Db → String → (Task → Task) → Task → TaskEvent → Db
replaced d id g t e = record d {
  tasks = update_where (by_key task_key id) g d.tasks ++ stored t ∷ [];
  events = d.events ++ e ∷ [];
}

abbrev pub requeued : Db → ℕ → Db
requeued d now = record d { tasks = update_where (is_due now) (set_requeued now) d.tasks }

abbrev pub beaten : Db → String → ℕ → Db
beaten d id now = record d {
  attempts =
      update_where (λ a. by_key attempt_key id a && is_live a)
        (λ a. record a { heartbeat_at = some now }) d.attempts;
}

pub data Step (cfg : Config) (d : Db) : Db → Type 0 where
  create :
      (t : Task) (e : TaskEvent)
      → IsFresh task_key t.id d.tasks
      → t.status ≡ TaskStatus.queued
      → t.retry_count ≡ pos 0
      → Step cfg d (added d t e)
  claim :
      (t : Task) (id worker_id : String) (now : ℕ) (e : TaskEvent)
      → first_where (by_key task_key t.id) d.tasks ≡ some t
      → t.status ≡ TaskStatus.queued
      → HasRoom cfg d.tasks t
      → IsFresh attempt_key id d.attempts
      → Step cfg d (
          claimed d t
            (new_attempt id t.id (suc (max_attempt_num t.id d.attempts)) worker_id now)
            worker_id
            now
            e)
  end :
      (id : String) (a : Attempt) (f : Attempt → Attempt) (g : Task → Task) (e : TaskEvent)
      → first_where (by_key attempt_key id) d.attempts ≡ some a
      → is_live a ≡ true
      → IsEnd f
      → IsMove g
      → Spends d.tasks a.task_id g
      → Step cfg d (ended d id a f g e)
  control :
      (id : String) (t : Task) (g : Task → Task) (e : TaskEvent)
      → first_where (by_key task_key id) d.tasks ≡ some t
      → IsMove g
      → Spends d.tasks id g
      → Step cfg d (moved d id g e)
  replace :
      (id : String) (t : Task) (g : Task → Task) (new : Task) (e : TaskEvent)
      → first_where (by_key task_key id) d.tasks ≡ some t
      → IsMove g
      → IsFresh task_key new.id (update_where (by_key task_key id) g d.tasks)
      → new.status ≡ TaskStatus.queued
      → new.retry_count ≡ pos 0
      → Spends d.tasks id g
      → Step cfg d (replaced d id g new e)
  requeue : (now : ℕ) → Step cfg d (requeued d now)
  beat : (id : String) (now : ℕ) → Step cfg d (beaten d id now)
  register :
      (w : Worker)
      → IsFresh worker_key w.id d.workers
      → str_eq w.id "" ≡ false
      → count_where (runs_on w.id) d.attempts ≡ 0
      → w.current_task_count ≡ pos 0
      → w.status ≡ idle
      → leb_ℤ w.concurrency (pos 0) ≡ false
      → Step cfg d (record d { workers = d.workers ++ w ∷ [] })
  schedule : (ss : List Schedule) → Step cfg d (record d { schedules = ss })

-- The sequences of such writes.
pub data Steps (cfg : Config) (d : Db) : Db → Type 0 where
  here : Steps cfg d d
  next : {d' d'' : Db} → Steps cfg d d' → Step cfg d' d'' → Steps cfg d d''

pub single : {cfg : Config} {d d' : Db} → Step cfg d d' → Steps cfg d d'
single s = next here s

pub chain : {cfg : Config} {d d' d'' : Db} → Steps cfg d d' → Steps cfg d' d'' → Steps cfg d d''
chain r here = r
chain r (next s t) = next (chain r s) t
