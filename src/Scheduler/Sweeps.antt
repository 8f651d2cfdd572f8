-- ===== src/Scheduler/Sweeps.antt =====
-- What the ticks of internal/scheduler leave behind.
use ermine_tq.Prelude.{
  Bool, String, ℕ, ◌-◌, false, ◌≡◌, refl, sym, ap, ◌∙◌, subst, List, [], ◌∷◌, All, select_where,
  Bool-cases, inl, inr,
}
use ermine_tq.Config.{Config}
use ermine_tq.Store.Models.{Attempt, fmt_db_time}
use ermine_tq.Store.Db.{Env, World, Reply, ok, err, statement, time_now}
use ermine_tq.Store.Attempts.{timeout_attempt}
use ermine_tq.Store.Maintenance.{is_stale, find_stale_attempts}
use ermine_tq.Store.Runs.{Ensures}
use ermine_tq.Store.Operations.{Op, times_out, perform}
use ermine_tq.Store.Refinement.Performs.{NamesAreGiven, IdIsUnused, perform-Steps}
use ermine_tq.Store.Invariant.Histories.{IsConsistent, Steps-IsConsistent}
use ermine_tq.Store.Invariant.Endings.{
  IsOver, Steps-IsOver, Ends-IsOver, end_with-Ensures, timing_out,
}
use ermine_tq.Scheduler.NextRun.{CronParser}
use ermine_tq.Scheduler.Keeps.{sweep-keeps, tick-keeps}
use ermine_tq.Scheduler.Ticks.{report, carry_on, with_reply, sweep, scan, Tick, tick}

module _ ⦃env : Env⦄ (cfg : Config) (ended : World → Bool) (named : NamesAreGiven env) where
  perform-IsConsistent :
      (op : Op) (w : World)
      → IdIsUnused op w
      → IsConsistent cfg w.db
      → IsConsistent cfg (perform cfg op w).db
  perform-IsConsistent op w u h =
      Steps-IsConsistent h (perform-Steps cfg named op w h.tasks_unique u)

  -- uuid.NewString never returns the empty text. Then the start and every tick of the loops of the
  -- scheduler (initSchedules, poll, scan and the requeuing), for any cron parser, whenever
  -- their context ends and whatever the store replies, keep the tables consistent: distinct ids of
  -- tasks and attempts, the counts of the workers, the limits of the configuration, an attempt for each running
  -- task, the numbers and finishing times of the attempts, and the retry counts of the tasks.
  pub tick-IsConsistent :
      (parse : CronParser) (t : Tick) (w : World)
      → IsConsistent cfg w.db
      → IsConsistent cfg (tick ended parse t w).1.db
  tick-IsConsistent = tick-keeps cfg ended (IsConsistent cfg) perform-IsConsistent

  perform-IsOver :
      (id : String) (op : Op) (w : World)
      → IdIsUnused op w
      → IsConsistent cfg w.db × IsOver id w.db
      → IsConsistent cfg (perform cfg op w).db × IsOver id (perform cfg op w).db
  perform-IsOver id op w u h = (
    perform-IsConsistent op w u h.0,
    Steps-IsOver h.1 (perform-Steps cfg named op w h.0.tasks_unique u),
  )

  module _ (lasting : (w : World) → ended w ≡ false) where
    carry_on-IsOver :
        (id : String) (rest : List Attempt)
        → ((w : World)
            → IsConsistent cfg w.db
            → (sweep ended rest w).0 ≡ []
            → All (λ a. IsOver a.id (sweep ended rest w).1.db) rest)
        → (r : Reply (Unit {0}) × World) → Ensures r (λ _ d. IsOver id d)
        → IsConsistent cfg r.1.db
        → (carry_on ended (sweep ended rest) r).0 ≡ []
        → IsOver id (carry_on ended (sweep ended rest) r).1.db
          × All (λ a. IsOver a.id (carry_on ended (sweep ended rest) r).1.db) rest
    unfolding carry_on
    carry_on-IsOver id rest ih (ok _, w) over h e =
        ((sweep-keeps cfg ended _ (perform-IsOver id) rest w (h, over)).1, ih w h e)
    carry_on-IsOver id rest ih (err x, w) over h e = let q = rw (lasting w) at e in cc

    sweep-cons :
        (a : Attempt) (rest : List Attempt) (w : World)
        → sweep ended (a ∷ rest) w ≡ carry_on ended (sweep ended rest) (timeout_attempt a.id w)
    unfolding sweep
    sweep-cons a rest w = rw (lasting w, sweep) refl

    sweep-IsOver :
        (found : List Attempt) (w : World)
        → IsConsistent cfg w.db
        → (sweep ended found w).0 ≡ []
        → All (λ a. IsOver a.id (sweep ended found w).1.db) found
    unfolding perform
    sweep-IsOver [] w h e = tt
    sweep-IsOver (a ∷ rest) w h e =
        subst (λ s. IsOver a.id s.1.db × All (λ b. IsOver b.id s.1.db) rest)
          (sym (sweep-cons a rest w))
          (carry_on-IsOver a.id rest (sweep-IsOver rest) (timeout_attempt a.id w)
            (end_with-Ensures timing_out a.id w (IsOver a.id) (Ends-IsOver a.id w.db))
            (perform-IsConsistent (times_out a.id) w tt h)
            (sym (ap (λ s. s.0) (sweep-cons a rest w)) ∙ e))

    -- uuid.NewString never returns the empty text, the tables are consistent, and the context of
    -- the scanner does not end. If a scan reports nothing, then every attempt that ran when the scan began,
    -- and whose last heartbeat, or start if it has none, was at or before the cutoff, is over.
    pub scan-IsOver :
        (cutoff : ℕ) (w : World)
        → IsConsistent cfg w.db
        → (scan ended cutoff w).0 ≡ []
        → All
            (λ a. IsOver a.id (scan ended cutoff w).1.db)
            (select_where (is_stale (fmt_db_time (env.clock w.readings - cutoff))) w.db.attempts)
    unfolding scan find_stale_attempts statement with_reply report time_now
    scan-IsOver cutoff w h e = elim (Bool-cases (env.fault w.statements)) [
      | inl b ↦ let q = rw (b, lasting _) at e in cc
      | inr b ↦ rw b (sweep-IsOver _ _ h (rw b at e))
    ]
