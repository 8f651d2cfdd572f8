-- ===== src/Scheduler/Keeps.antt =====
-- A property that every call of the store keeps, along the loops of internal/scheduler.
use ermine_tq.Prelude.{
  Bool, ℕ, ◌-◌, not, ◌||◌, refl, sym, subst, Option-cases, List, [], ◌∷◌, Bool-cases, inl, inr,
}
use ermine_tq.Config.{Config}
use ermine_tq.Store.Models.{Schedule, Attempt}
use ermine_tq.Store.Db.{Db, Env, World, Reply, ok, err, time_now}
use ermine_tq.Store.Statements.{is_none}
use ermine_tq.Store.Schedules.{list_schedules}
use ermine_tq.Store.Reads.{list_schedules-IsQuiet}
use ermine_tq.Store.Maintenance.{find_stale_attempts, due_schedules}
use ermine_tq.Store.Runs.Writes.{IsQuiet, IsQuiet-bind, IsQuiet-query}
use ermine_tq.Store.Operations.{
  Op, creates, times_out, requeues, patches_schedule, records_run, perform,
}
use ermine_tq.Store.Refinement.Performs.{IdIsUnused}
use ermine_tq.Scheduler.NextRun.{CronParser, compute_next_run}
use ermine_tq.Scheduler.Ticks.{
  Report, Problem, report, close, carry_on, with_reply, sweep, scan, requeue, advance, fire_due,
  fire_all, poll, init_each, init_schedules, next_run_only, scheduled_task, Tick, starts, polls,
  requeues_due, scans, tick,
}

module _ ⦃env : Env⦄ where
  due_schedules-IsQuiet : IsQuiet due_schedules
  unfolding due_schedules time_now
  due_schedules-IsQuiet = IsQuiet-bind (record { same_db = λ w. refl }) (λ t. IsQuiet-query _)

  find_stale-IsQuiet : (cutoff : ℕ) → IsQuiet (find_stale_attempts cutoff)
  unfolding find_stale_attempts
  find_stale-IsQuiet cutoff = IsQuiet-query _

-- A property of the tables that every call of a writing operation keeps.
module _ {κ} ⦃env : Env⦄ (cfg : Config) (ended : World → Bool) (P : Db → Type κ)
    (kept : (op : Op) (w : World) → IdIsUnused op w → P w.db → P (perform cfg op w).db) where
  report-keeps : (p : Problem) (w : World) → P w.db → P (report ended p w).1.db
  unfolding report
  report-keeps p w h = elim (Bool-cases (ended w)) [ inl e ↦ rw e h | inr e ↦ rw e h ]

  close-keeps {ℓ} : {A : Type ℓ} (r : Reply A × World) → P r.1.db → P (close ended r).1.db
  unfolding close
  close-keeps (ok a, w) h = h
  close-keeps (err e, w) h = report-keeps _ w h

  with_reply-keeps {ℓ} :
      {A : Type ℓ} (f : A → World → Report)
      → ((a : A) (w : World) → P w.db → P (f a w).1.db)
      → (r : Reply A × World) → P r.1.db
      → P (with_reply ended f r).1.db
  unfolding with_reply
  with_reply-keeps f k (ok a, w) h = k a w h
  with_reply-keeps f k (err e, w) h = report-keeps _ w h

  carry_on-keeps {ℓ} :
      {A : Type ℓ} (go : World → Report)
      → ((w : World) → P w.db → P (go w).1.db)
      → (r : Reply A × World) → P r.1.db
      → P (carry_on ended go r).1.db
  unfolding carry_on
  carry_on-keeps go k (ok a, w) h = k w h
  carry_on-keeps go k (err e, w) h = elim (Bool-cases (ended w)) [
    | inl b ↦ rw b h
    | inr b ↦ rw b (k w h)
  ]

  pub sweep-keeps : (found : List Attempt) (w : World) → P w.db → P (sweep ended found w).1.db
  unfolding sweep perform
  sweep-keeps [] w h = h
  sweep-keeps (a ∷ rest) w h = elim (Bool-cases (ended w)) [
    | inl b ↦ rw b h
    | inr b ↦ rw b (carry_on-keeps _ (sweep-keeps rest) _ (kept (times_out a.id) w tt h))
  ]

  module _ (parse : CronParser) where
    advance-keeps :
        (sc : Schedule) (now : ℕ) (w : World) → P w.db → P (advance ended parse sc now w).1.db
    unfolding advance perform
    advance-keeps sc now w h = elim (Option-cases (compute_next_run parse sc now)) [
      | inl e ↦ rw (e, advance) h
      | inr (next, e) ↦ rw (e, advance) (close-keeps _ (kept (records_run sc.id next) w tt h))
    ]

    fire_due-keeps :
        (sc : Schedule) (now : ℕ) (w : World) → P w.db → P (fire_due ended parse sc now w).1.db
    unfolding fire_due perform
    fire_due-keeps sc now w h =
        with_reply-keeps _ (λ t. advance-keeps sc now) _ (kept (creates (scheduled_task sc)) w tt h)

    fire_all-keeps :
        (now : ℕ) (due : List Schedule) (w : World)
        → P w.db
        → P (fire_all ended parse now due w).1.db
    unfolding fire_all
    fire_all-keeps now [] w h = h
    fire_all-keeps now (sc ∷ rest) w h = elim (Bool-cases (ended w)) [
      | inl b ↦ rw b h
      | inr b ↦ rw b (fire_all-keeps now rest _ (fire_due-keeps sc now w h))
    ]

    init_each-keeps :
        (now : ℕ) (all : List Schedule) (w : World)
        → P w.db
        → P (init_each ended parse now all w).1.db
    unfolding init_each perform
    init_each-keeps now [] w h = h
    init_each-keeps now (sc ∷ rest) w h =
        elim (Bool-cases (not sc.enabled || not (is_none sc.next_run_at))) [
          | inl b ↦ rw b (init_each-keeps now rest w h)
          | inr b ↦ elim (Option-cases (compute_next_run parse sc now)) [
            | inl e ↦ rw (b, e, init_each) (init_each-keeps now rest w h)
            | inr (next, e) ↦
                rw (b, e, init_each)
                  (carry_on-keeps _ (init_each-keeps now rest) _
                    (kept (patches_schedule sc.id (next_run_only next)) w tt h))
          ]
        ]

    pub tick-keeps : (t : Tick) (w : World) → P w.db → P (tick ended parse t w).1.db
    unfolding tick init_schedules poll scan requeue perform time_now
    tick-keeps starts w h =
        with_reply-keeps
          (λ all w'. init_each ended parse (env.clock w'.readings) all (time_now w').1)
          (λ all w' k. init_each-keeps (env.clock w'.readings) all (time_now w').1 k)
          (list_schedules w) (subst P (sym (list_schedules-IsQuiet.same_db w)) h)
    tick-keeps polls w h =
        with_reply-keeps
          (λ due w'. fire_all ended parse (env.clock w'.readings) due (time_now w').1)
          (λ due w' k. fire_all-keeps (env.clock w'.readings) due (time_now w').1 k)
          (due_schedules w) (subst P (sym (due_schedules-IsQuiet.same_db w)) h)
    tick-keeps requeues_due w h = close-keeps _ (kept requeues w tt h)
    tick-keeps (scans cutoff) w h =
        with_reply-keeps (sweep ended) sweep-keeps
          (find_stale_attempts (env.clock w.readings - cutoff) (time_now w).1)
          (subst P (sym ((find_stale-IsQuiet _).same_db (time_now w).1)) h)
