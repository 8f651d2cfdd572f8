-- ===== src/Scheduler/Loops.antt =====
-- internal/scheduler: the goroutines of task_scheduler.go, heartbeat.go and retry.go, and New of
-- scheduler.go, which makes them.
use ermine_tq.Prelude.{Bool, List, [], ◌∷◌, ◌++◌, pos_part, if◌then◌else◌, Bool-cases, inl, inr}
use ermine_tq.Config.{Config}
use ermine_tq.Store.Db.{Env, World}
use ermine_tq.Store.Refinement.Performs.{NamesAreGiven}
use ermine_tq.Store.Invariant.Histories.{IsConsistent}
use ermine_tq.Scheduler.NextRun.{CronParser}
use ermine_tq.Scheduler.Settings.{SchedulerConfig, apply_defaults}
use ermine_tq.Scheduler.Ticks.{Report, Tick, starts, polls, scans, requeues_due, tick}
use ermine_tq.Scheduler.Sweeps.{tick-IsConsistent}

-- What the select of a loop meets: its ticker fired, or its context is done.
pub data Wake : Type 0 where
  fired stopped : Wake

-- The loop over its selects; at the end of the list it waits for the next.
unfoldable pub run_loop : (World → Report) → List Wake → World → Report
run_loop body [] w = ([], w)
run_loop body (stopped ∷ wakes) w = ([], w)
run_loop body (fired ∷ wakes) w =
    let (ps, w') = body w in let (qs, w'') = run_loop body wakes w' in (ps ++ qs, w'')

-- The three goroutines of a Scheduler.
pub data Goroutine : Type 0 where
  retry scanner task : Goroutine

module _ (ended : World → Bool) ⦃env : Env⦄ (parse : CronParser) where
  -- taskScheduler.run, behind initSchedules.
  unfoldable pub after_init : List Wake → Report → Report
  unfolding run_loop
  after_init wakes (ps, w) =
      let (qs, w') = run_loop (tick ended parse polls) wakes w in
      if ended w then (ps, w) else (ps ++ qs, w')

  -- The `run` of each loop, as New and Start make it of the settings.
  unfoldable pub run_goroutine : SchedulerConfig → Goroutine → List Wake → World → Report
  unfolding after_init run_loop apply_defaults
  run_goroutine c retry wakes w = run_loop (tick ended parse requeues_due) wakes w
  run_goroutine c scanner wakes w =
      run_loop (tick ended parse (scans (pos_part (apply_defaults c).heartbeat_cutoff))) wakes w
  run_goroutine c task wakes w = after_init wakes (tick ended parse starts w)

module _ ⦃env : Env⦄ (cfg : Config) (ended : World → Bool) (named : NamesAreGiven env)
    (parse : CronParser) where
  run_loop-IsConsistent :
      (t : Tick) (wakes : List Wake) (w : World)
      → IsConsistent cfg w.db
      → IsConsistent cfg (run_loop (tick ended parse t) wakes w).1.db
  unfolding run_loop
  run_loop-IsConsistent t [] w h = h
  run_loop-IsConsistent t (stopped ∷ wakes) w h = h
  run_loop-IsConsistent t (fired ∷ wakes) w h =
      run_loop-IsConsistent t wakes _ (tick-IsConsistent cfg ended named parse t w h)

  after_init-IsConsistent :
      (wakes : List Wake) (r : Report)
      → IsConsistent cfg r.1.db
      → IsConsistent cfg (after_init ended parse wakes r).1.db
  unfolding after_init
  after_init-IsConsistent wakes (ps, w) h = elim (Bool-cases (ended w)) [
    | inl b ↦ rw b h
    | inr b ↦ rw b (run_loop-IsConsistent polls wakes w h)
  ]

  -- A goroutine of the scheduler keeps the tables consistent, however often its ticker fires before
  -- its context is done.
  pub run_goroutine-IsConsistent :
      (c : SchedulerConfig) (l : Goroutine) (wakes : List Wake) (w : World)
      → IsConsistent cfg w.db
      → IsConsistent cfg (run_goroutine ended parse c l wakes w).1.db
  unfolding run_goroutine
  run_goroutine-IsConsistent c retry wakes w h = run_loop-IsConsistent requeues_due wakes w h
  run_goroutine-IsConsistent c scanner wakes w h = run_loop-IsConsistent (scans _) wakes w h
  run_goroutine-IsConsistent c task wakes w h =
      after_init-IsConsistent wakes (tick ended parse starts w)
        (tick-IsConsistent cfg ended named parse starts w h)
