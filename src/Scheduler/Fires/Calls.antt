-- ===== src/Scheduler/Fires/Calls.antt =====
-- The calls of fireDue where they meet no fault (internal/scheduler/task_scheduler.go).
use ermine_tq.Prelude.{
  ℕ, suc, ◌+◌, String, Bool, true, false, ◌≡◌, refl, List, [], ◌∷◌, ◌++◌, All, All-map, All-select,
  IsFresh, by_key, update_where, count_where, count-update_same, select_where, ◌==◌, Bool-cases,
  inl, inr, eq_iff, arith,
}
use ermine_tq.Store.Models.{Schedule, Task, TaskEvent}
use ermine_tq.Store.Db.{
  Env, World, Reply, ok, err, and_then, settle, exec_tx, deliver, write, emit, time_now, new_id,
  statement,
}
use ermine_tq.Store.Statements.{task_key, event_key, schedule_key, insert_task, insert_task_event}
use ermine_tq.Store.Tasks.{new_task, create_task_tx, create_task}
use ermine_tq.Store.Maintenance.{set_run, record_run_tx, record_schedule_run}
use ermine_tq.Store.Control.Replies.{fair}
use ermine_tq.Scheduler.Ticks.{scheduled_task}

-- The row of a schedule is there.
abbrev pub IsKnown : List Schedule → Schedule → Type 0
IsKnown ss sc = (count_where (by_key schedule_key sc.id) ss == 0) ≡ false

all-IsKnown : (ss : List Schedule) → All (IsKnown ss) ss
unfolding count_where
all-IsKnown [] = tt
all-IsKnown (s ∷ ss) = (
  ground (arith, eq_iff s.id s.id),
  All-map (IsKnown ss) (IsKnown (s ∷ ss)) (λ r k. ground (arith, k)) ss (all-IsKnown ss),
)

pub select-IsKnown :
    (p : Schedule → Bool) (ss : List Schedule) → All (IsKnown ss) (select_where p ss)
select-IsKnown p ss =
    All-map (λ r. IsKnown ss r × (p r ≡ true)) (IsKnown ss) (λ r h. h.0) _
      (All-select (IsKnown ss) p ss (all-IsKnown ss))

-- The ids to come are fresh, and the schedules of a list are in the table.
pub record Ready (names : ℕ → String) (due : List Schedule) (w : World) : Type 0 where
  pub tasks : (k : ℕ) → IsFresh task_key (names (w.ids + k)) w.db.tasks
  pub events : (k : ℕ) → IsFresh event_key (names (w.ids + k)) w.db.events
  pub known : All (IsKnown w.db.schedules) due

-- A reply without an error after the creation of a task.
pub record HasAdded (names : ℕ → String) (before after : World) : Type 0 where
  pub task : Task
  pub event : TaskEvent
  pub task_id : task.id ≡ names before.ids
  pub event_id : event.id ≡ names (suc before.ids)
  pub ids : after.ids ≡ suc (suc before.ids)
  pub tasks : after.db.tasks ≡ before.db.tasks ++ task ∷ []
  pub events : after.db.events ≡ before.db.events ++ event ∷ []
  pub schedules : after.db.schedules ≡ before.db.schedules

abbrev pub Gives {ℓ} : {A : Type ℓ} → Reply A × World → (World → Type 0) → Type 0
Gives (ok a, w) Q = Q w
Gives (err e, w) Q = ⊥

pub Gives-map {ℓ} :
    {A : Type ℓ} (r : Reply A × World) (P Q : World → Type 0)
    → ((w : World) → P w → Q w)
    → Gives r P
    → Gives r Q
Gives-map (ok a, w) P Q f h = f w h
Gives-map (err e, w) P Q f h = elim h [ ]

-- A run of a schedule is recorded; whatever is known of the schedules stays so.
pub record HasNoted (id : String) (before after : World) : Type 0 where
  pub ids : after.ids ≡ before.ids
  pub tasks : after.db.tasks ≡ before.db.tasks
  pub events : after.db.events ≡ before.db.events
  pub run : ℕ
  pub next : ℕ
  pub schedules :
      after.db.schedules
      ≡ update_where (by_key schedule_key id) (set_run run next) before.db.schedules

-- Which schedules are there does not change when a run is recorded.
pub noted-IsKnown :
    (id : String) (run next : ℕ) (ss : List Schedule) (sc : Schedule)
    → IsKnown ss sc
    → IsKnown (update_where (by_key schedule_key id) (set_run run next) ss) sc
unfolding set_run
noted-IsKnown id run next ss sc k =
    rw
      (count-update_same (by_key schedule_key sc.id) (by_key schedule_key id) (set_run run next)
        (λ r e. refl) ss)
      k

module _ (names : ℕ → String) (clock : ℕ → ℕ) where
  instance abbrev calm : Env
  calm = fair names clock false

  pub create_task-Gives :
      (sc : Schedule) (w : World)
      → IsFresh task_key (names w.ids) w.db.tasks
      → IsFresh event_key (names (suc w.ids)) w.db.events
      → Gives (create_task (scheduled_task sc) w) (HasAdded names w)
  unfolding create_task create_task_tx insert_task insert_task_event write deliver exec_tx settle
      and_then time_now new_id statement new_task emit
  create_task-Gives sc w a e = elim (Bool-cases w.attached) [
    | inl b ↦
        rw (a, e, b)
          (record {
            task = _;
            event = _;
            task_id = refl;
            event_id = refl;
            ids = refl;
            tasks = refl;
            events = refl;
            schedules = refl;
          })
    | inr b ↦
        rw (a, e, b)
          (record {
            task = _;
            event = _;
            task_id = refl;
            event_id = refl;
            ids = refl;
            tasks = refl;
            events = refl;
            schedules = refl;
          })
  ]

  pub record_run-Gives :
      (sc : Schedule) (next : ℕ) (w : World)
      → IsKnown w.db.schedules sc
      → Gives (record_schedule_run sc.id next w) (HasNoted sc.id w)
  unfolding record_schedule_run record_run_tx write deliver exec_tx settle and_then time_now
      statement
  record_run-Gives sc next w k =
      rw k (record { ids = refl; tasks = refl; events = refl; run = _; next = _; schedules = refl })
