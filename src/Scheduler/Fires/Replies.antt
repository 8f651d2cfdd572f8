-- ===== src/Scheduler/Fires/Replies.antt =====
-- A poll of taskScheduler that meets no fault (internal/scheduler/task_scheduler.go).
use mathlib.Core.List.{append-eq-nil_iff}
use ermine_tq.Prelude.{
  ℕ, suc, ◌+◌, ◌<◌, String, Bool, false, ◌≡◌, refl, sym, ap, ◌∙◌, subst, some, List, [], ◌∷◌, ◌++◌,
  All, All-map, IsFresh, IsFresh-append, select_where, Bool-cases, inl, inr, eq_iff, str_eq, arith,
}
use ermine_tq.Store.Models.{Schedule, Task, fmt_db_time}
use ermine_tq.Store.Db.{Env, World, Reply, ok, err, and_then, time_now, statement}
use ermine_tq.Store.Statements.{task_key, event_key}
use ermine_tq.Store.Tasks.{create_task}
use ermine_tq.Store.Maintenance.{is_schedule_due, due_schedules, record_schedule_run}
use ermine_tq.Store.Control.Replies.{fair}
use ermine_tq.Scheduler.NextRun.{CronParser, compute_next_run}
use ermine_tq.Scheduler.Ticks.{
  close, with_reply, advance, fire_due, fire_all, poll, scheduled_task, Report,
}
use ermine_tq.Scheduler.Fires.{Fires, poll-Fires}
use ermine_tq.Scheduler.Fires.Calls.{
  IsKnown, select-IsKnown, Ready, HasAdded, HasNoted, Gives, Gives-map, create_task-Gives,
  record_run-Gives, noted-IsKnown,
}

module _ (names : ℕ → String) (clock : ℕ → ℕ)
    (distinct : (i j : ℕ) → names i ≡ names j → i ≡ j) where
  instance abbrev calm : Env
  calm = fair names clock false

  differs : (i j : ℕ) → i < j → str_eq (names i) (names j) ≡ false
  differs i j h = elim (Bool-cases (str_eq (names i) (names j))) [
    | inl e ↦ absurd (omega (arith, h, distinct i j ((eq_iff (names i) (names j)).0 e)))
    | inr e ↦ e
  ]

  -- A later id is fresh too once a row with an earlier one is added.
  added-IsFresh {ℓ} :
      {R : Type ℓ} (key : R → String) (rs : List R) (r : R) (i j : ℕ)
      → key r ≡ names i
      → i < j
      → IsFresh key (names j) rs
      → IsFresh key (names j) (rs ++ r ∷ [])
  added-IsFresh key rs r i j e h fresh =
      IsFresh-append key (names j) rs r fresh (ap (λ x. str_eq x (names j)) e ∙ differs i j h)

  -- The ids after those that a task and its event took.
  noted-Ready :
      (sc : Schedule) (rest : List Schedule) (w w' w'' : World)
      → Ready names (sc ∷ rest) w
      → HasAdded names w w'
      → HasNoted sc.id w' w''
      → Ready names rest w''
  noted-Ready sc rest w w' w'' ready added noted = record {
    tasks = λ k. subst (IsFresh task_key (names (w''.ids + k))) (sym (noted.tasks ∙ added.tasks)) (
        added-IsFresh task_key w.db.tasks added.task w.ids (w''.ids + k) added.task_id
          (omega (arith, noted.ids, added.ids))
          (subst (λ n. IsFresh task_key (names n) w.db.tasks) (later k) (ready.tasks (k + 2))));
    events = λ k.
        subst (IsFresh event_key (names (w''.ids + k))) (sym (noted.events ∙ added.events)) (
          added-IsFresh event_key w.db.events added.event (suc w.ids) (w''.ids + k) added.event_id
            (omega (arith, noted.ids, added.ids))
            (subst (λ n. IsFresh event_key (names n) w.db.events) (later k)
              (ready.events (k + 2))));
    known =
        subst (λ ss. All (IsKnown ss) rest) (sym noted.schedules)
          (All-map _ _ (noted-IsKnown sc.id noted.run noted.next w'.db.schedules) rest
            (subst (λ ss. All (IsKnown ss) rest) (sym added.schedules) ready.known.1));
  }
    where
      later : (k : ℕ) → w.ids + (k + 2) ≡ w''.ids + k
      later k = omega (arith, noted.ids, added.ids)

  module _ (ended : World → Bool) (open_ctx : (w : World) → ended w ≡ false)
      (parse : CronParser) where
    -- The next run of a schedule can be computed.
    abbrev HasNext : ℕ → Schedule → Type 0
    HasNext now sc = (next : ℕ) × (compute_next_run parse sc now ≡ some next)

    close-Ready :
        (r : Reply (Unit {0}) × World) (P : World → Type 0)
        → Gives r P
        → ((close ended r).0 ≡ []) × P (close ended r).1
    unfolding close
    close-Ready (ok a, w) P h = (refl, h)
    close-Ready (err e, w) P h = elim h [ ]

    advance-Ready :
        (sc : Schedule) (now : ℕ) (w : World) (P : World → Type 0)
        → HasNext now sc
        → IsKnown w.db.schedules sc
        → ((w' : World) → HasNoted sc.id w w' → P w')
        → ((advance ended parse sc now w).0 ≡ []) × P (advance ended parse sc now w).1
    unfolding advance
    advance-Ready sc now w P (next, e) k make =
        rw (e, advance)
          (close-Ready (record_schedule_run sc.id next w) P (
            Gives-map (record_schedule_run sc.id next w) _ P make
              (record_run-Gives names clock sc next w k)))

    with_reply-Ready :
        (f : Task → World → Report) (r : Reply Task × World) (P Q : World → Type 0)
        → Gives r P
        → ((t : Task) (w : World) → P w → ((f t w).0 ≡ []) × Q (f t w).1)
        → ((with_reply ended f r).0 ≡ []) × Q (with_reply ended f r).1
    unfolding with_reply
    with_reply-Ready f (ok t, w) P Q h k = k t w h
    with_reply-Ready f (err e, w) P Q h k = elim h [ ]

    fire_due-Ready :
        (sc : Schedule) (rest : List Schedule) (now : ℕ) (w : World)
        → HasNext now sc
        → Ready names (sc ∷ rest) w
        → ((fire_due ended parse sc now w).0 ≡ [])
          × Ready names rest (fire_due ended parse sc now w).1
    unfolding fire_due
    fire_due-Ready sc rest now w n ready =
        with_reply-Ready _ (create_task (scheduled_task sc) w) (HasAdded names w) (Ready names rest)
          (create_task-Gives names clock sc w
            (subst (λ i. IsFresh task_key (names i) w.db.tasks) (omega arith) (ready.tasks 0))
            (subst (λ i. IsFresh event_key (names i) w.db.events) (omega arith) (ready.events 1)))
          λ t w' added.
            advance-Ready sc now w' (Ready names rest) n
              (subst (λ ss. IsKnown ss sc) (sym added.schedules) ready.known.0)
              λ w'' noted. noted-Ready sc rest w w' w'' ready added noted

    fire_all-silent :
        (now : ℕ) (due : List Schedule) (w : World)
        → All (HasNext now) due
        → Ready names due w
        → (fire_all ended parse now due w).0 ≡ []
    unfolding fire_all
    fire_all-silent now [] w n ready = refl
    fire_all-silent now (sc ∷ rest) w n ready =
        let (silent, more) = fire_due-Ready sc rest now w n.0 ready in
        rw (open_ctx w) (append-eq-nil_iff.1 (silent, fire_all-silent now rest _ n.1 more))

    poll-silent :
        (w : World)
        → ((k : ℕ) → IsFresh task_key (names (w.ids + k)) w.db.tasks)
        → ((k : ℕ) → IsFresh event_key (names (w.ids + k)) w.db.events)
        → All
            (HasNext (clock (suc w.readings)))
            (select_where (is_schedule_due (fmt_db_time (clock w.readings))) w.db.schedules)
        → (poll ended parse w).0 ≡ []
    unfolding poll due_schedules and_then time_now statement with_reply
    poll-silent w tasks events n =
        fire_all-silent (clock (suc w.readings)) _ _ n
          (record { tasks = tasks; events = events; known = select-IsKnown _ w.db.schedules })

    -- The driver does not fail, each write is answered, REFERENCES is not enforced, the generated ids are
    -- distinct and those to come are fresh among the tasks and the events, the context of the
    -- task scheduler does not end, and each due schedule has a next run. Then a poll reports
    -- nothing, and it has fired each schedule that was enabled with a next run at or before
    -- the present once: a new queued task of its type, queue and payload names it, and its
    -- next run is what computeNextRun gives for its row and the present.
    pub poll-answers :
        (w : World)
        → ((k : ℕ) → IsFresh task_key (names (w.ids + k)) w.db.tasks)
        → ((k : ℕ) → IsFresh event_key (names (w.ids + k)) w.db.events)
        → All
            (HasNext (clock (suc w.readings)))
            (select_where (is_schedule_due (fmt_db_time (clock w.readings))) w.db.schedules)
        → ((poll ended parse w).0 ≡ [])
          × Fires calm parse
              (clock (suc w.readings))
              (select_where (is_schedule_due (fmt_db_time (clock w.readings))) w.db.schedules)
              w.db
              (poll ended parse w).1.db
    poll-answers w tasks events n =
        let silent = poll-silent w tasks events n in
        (silent, poll-Fires ended open_ctx parse w silent)
