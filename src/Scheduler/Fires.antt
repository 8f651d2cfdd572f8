-- ===== src/Scheduler/Fires.antt =====
-- What a poll of taskScheduler creates (internal/scheduler/task_scheduler.go, over internal/store).
pub mod Calls
pub mod Replies
use mathlib.Core.List.{append-eq-nil_iff}
use ermine_tq.Prelude.{
  ℕ, suc, String, Bool, false, ◌≡◌, refl, ap, ◌∙◌, some, List, [], ◌∷◌, ◌++◌, IsFresh, by_key,
  update_where, count_where, select_where, ◌==◌, Bool-cases, Option-cases, inl, inr,
}
use ermine_tq.Store.Models.{Schedule, fmt_db_time}
use ermine_tq.Store.Db.{Db, Env, World, Reply, ok, err, and_then, time_now, new_id, statement}
use ermine_tq.Store.Statements.{task_key, schedule_key, stored}
use ermine_tq.Store.Runs.{
  Ensures, Ensures-map, Runs-bind, Runs-return, Runs-time, Runs-total, Runs-if, Runs-fail,
  Runs-insert_task, Runs-event,
}
use ermine_tq.Store.Runs.Writes.{write_then-Ensures, write-Ensures, Runs-emit}
use ermine_tq.Store.Tasks.{CreateTaskInput, new_task, create_task_tx, create_task}
use ermine_tq.Store.Maintenance.{
  set_run, is_schedule_due, due_schedules, record_run_tx, record_schedule_run,
}
use ermine_tq.Store.Refinement.Claims.{IsReading}
use ermine_tq.Scheduler.NextRun.{CronParser, compute_next_run}
use ermine_tq.Scheduler.Ticks.{
  report, close, with_reply, advance, fire_due, fire_all, poll, scheduled_task, Report,
}

-- The tables after a task is created and after a run of a schedule is recorded.
abbrev HasCreated : Env → CreateTaskInput → Db → Db → Type 0
HasCreated env input d d' =
    (id : String) × (now : ℕ) × (IsFresh task_key id d.tasks
      × ((n : ℕ) × (now ≡ env.clock n))
      × (d'.tasks ≡ d.tasks ++ stored (new_task id now input) ∷ [])
      × (d'.schedules ≡ d.schedules))

abbrev HasRecorded : Env → String → ℕ → Db → Db → Type 0
HasRecorded env id next d d' =
    (run : ℕ) × (IsReading env run
      × (d'.tasks ≡ d.tasks)
      × (d'.schedules
          ≡ update_where (by_key schedule_key id) (set_run run (fmt_db_time next)) d.schedules))

module _ ⦃env : Env⦄ where
  create_task-added :
      (input : CreateTaskInput) (w : World)
      → Ensures (create_task input w) (λ t. HasCreated env input w.db)
  unfolding create_task create_task_tx and_then time_now new_id new_task
  create_task-added input w = write_then-Ensures _ _ _ _ (
      Runs-bind (
        Runs-insert_task _ λ fresh. Runs-event _ _ _ _ λ e. Runs-bind (
          Runs-emit _ _
            (Runs-return (_, env.clock w.readings, (fresh, (w.readings, refl), refl, refl))))))

  record_run-recorded :
      (id : String) (next : ℕ) (w : World)
      → Ensures (record_schedule_run id next w) (λ _. HasRecorded env id next w.db)
  unfolding record_schedule_run record_run_tx
  record_run-recorded id next w = write-Ensures _ _ w (
      Runs-bind (
        Runs-time λ k. Runs-bind (
          Runs-total _ (
            Runs-if (count_where (by_key schedule_key id) w.db.schedules == 0) (λ _. Runs-fail _)
              (λ _. Runs-return (_, ((k, refl), refl, refl)))))))

-- One due schedule has fired: a queued task is there that names it, and its next run is set.
pub record Fired (env : Env) (parse : CronParser) (now : ℕ) (sc : Schedule) (d d' : Db)
    : Type 0 where
  pub id : String
  pub created : ℕ
  pub run : ℕ
  pub next : ℕ
  pub fresh : IsFresh task_key id d.tasks
  pub next_run : compute_next_run parse sc now ≡ some next
  pub created_at : (n : ℕ) × (created ≡ env.clock n)
  pub read : IsReading env run
  pub tasks : d'.tasks ≡ d.tasks ++ stored (new_task id created (scheduled_task sc)) ∷ []
  pub schedules :
      d'.schedules
      ≡ update_where (by_key schedule_key sc.id) (set_run run (fmt_db_time next)) d.schedules

-- Each of some schedules has fired once, in their order.
pub data Fires (env : Env) (parse : CronParser) (now : ℕ) : List Schedule → Db → Db → Type 0 where
  none_left : {d : Db} → Fires env parse now [] d d
  fires :
      {sc : Schedule} {rest : List Schedule} {d d' d'' : Db}
      → Fired env parse now sc d d'
      → Fires env parse now rest d' d''
      → Fires env parse now (sc ∷ rest) d d''

module _ ⦃env : Env⦄ (ended : World → Bool) (open_ctx : (w : World) → ended w ≡ false)
    (parse : CronParser) where
  -- A failed call is reported.
  with_reply-silent {ℓ κ ι} :
      {A : Type ℓ} (f : A → World → Report) (r : Reply A × World) (Q : A → Db → Type κ)
      (P : Db → Type ι)
      → Ensures r Q
      → ((a : A) (w : World) → Q a w.db → (f a w).0 ≡ [] → P (f a w).1.db)
      → (with_reply ended f r).0 ≡ []
      → P (with_reply ended f r).1.db
  unfolding with_reply report
  with_reply-silent f (ok a, w) Q P h k e = k a w h e
  with_reply-silent f (err x, w) Q P h k e = let q = rw (open_ctx w) at e in cc

  close-silent {ℓ κ} :
      {A : Type ℓ} (r : Reply A × World) (P : Db → Type κ)
      → Ensures r (λ a d. P d)
      → (close ended r).0 ≡ []
      → P (close ended r).1.db
  unfolding close report
  close-silent (ok a, w) P h e = h
  close-silent (err x, w) P h e = let q = rw (open_ctx w) at e in cc

  -- The second half of fireDue, on the tables that the first half left.
  advance-Fired :
      (sc : Schedule) (now : ℕ) (before : Db) (w : World)
      → HasCreated env (scheduled_task sc) before w.db
      → (advance ended parse sc now w).0 ≡ []
      → Fired env parse now sc before (advance ended parse sc now w).1.db
  unfolding advance
  advance-Fired sc now before w (id, created, (fresh, at, ts, ss)) e =
      elim (Option-cases (compute_next_run parse sc now)) [
        | inl n ↦ let q = rw (n, advance) at e in cc
        | inr (next, n) ↦
            rw (n, advance)
              (close-silent (record_schedule_run sc.id next w) (Fired env parse now sc before)
                (Ensures-map (record_schedule_run sc.id next w) _ _
                  (λ _ d (run, (read, ts', ss')). record {
                    id = id;
                    created = created;
                    run = run;
                    next = next;
                    fresh = fresh;
                    next_run = n;
                    created_at = at;
                    read = read;
                    tasks = ts' ∙ ts;
                    schedules = ss' ∙ ap (update_where _ _) ss;
                  })
                  (record_run-recorded sc.id next w))
                (rw (n, advance) at e))
      ]

  fire_due-Fired :
      (sc : Schedule) (now : ℕ) (w : World)
      → (fire_due ended parse sc now w).0 ≡ []
      → Fired env parse now sc w.db (fire_due ended parse sc now w).1.db
  unfolding fire_due
  fire_due-Fired sc now w e =
      with_reply-silent _ (create_task (scheduled_task sc) w) _ (Fired env parse now sc w.db)
        (create_task-added (scheduled_task sc) w) (λ t w' h e'. advance-Fired sc now w.db w' h e') e

  fire_all-Fires :
      (now : ℕ) (due : List Schedule) (w : World)
      → (fire_all ended parse now due w).0 ≡ []
      → Fires env parse now due w.db (fire_all ended parse now due w).1.db
  unfolding fire_all
  fire_all-Fires now [] w e = none_left
  fire_all-Fires now (sc ∷ rest) w e =
      let k = append-eq-nil_iff.0 (rw (open_ctx w) at e) in
      rw (open_ctx w) (fires (fire_due-Fired sc now w k.0) (fire_all-Fires now rest _ k.1))

  -- The context of the task scheduler does not end. If a poll reports nothing, then each schedule that was
  -- enabled with a next run at or before the present has fired once, in the order of the table: a new queued task
  -- of its type, queue and payload names it, its next run is what computeNextRun gives for its row and the present,
  -- and its last run is a reading of the clock; and the poll changed no other row of the tasks and schedules.
  pub poll-Fires :
      (w : World)
      → (poll ended parse w).0 ≡ []
      → Fires env parse
          (env.clock (suc w.readings))
          (select_where (is_schedule_due (fmt_db_time (env.clock w.readings))) w.db.schedules)
          w.db
          (poll ended parse w).1.db
  unfolding poll due_schedules and_then time_now statement
  poll-Fires w e = elim (Bool-cases (env.fault w.statements)) [
    | inl b ↦ let q = rw (b, poll, with_reply, report, open_ctx) at e in cc
    | inr b ↦ rw (b, with_reply) (fire_all-Fires _ _ _ (rw (b, with_reply) at e))
  ]
