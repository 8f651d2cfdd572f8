-- ===== src/Scheduler/Ticks.antt =====
-- internal/scheduler: what the three loops do at a tick (task_scheduler.go, heartbeat.go, retry.go).
use ermine_tq.Prelude.{
  ℕ, ◌-◌, String, Bool, not, ◌||◌, none, some, List, [], ◌∷◌, ◌++◌, pos, if◌then◌else◌,
}
use ermine_tq.Store.Models.{Schedule, Attempt}
use ermine_tq.Store.Db.{Env, World, Reply, ok, err, Error, time_now}
use ermine_tq.Store.Statements.{is_none}
use ermine_tq.Store.Tasks.{CreateTaskInput, create_task}
use ermine_tq.Store.Schedules.{UpdateScheduleInput, list_schedules, update_schedule}
use ermine_tq.Store.Attempts.{timeout_attempt}
use ermine_tq.Store.Maintenance.{
  requeue_retrying, find_stale_attempts, due_schedules, record_schedule_run,
}
use ermine_tq.Scheduler.NextRun.{CronParser, compute_next_run}

-- What goes to `onError`: an error of the store, or one of computeNextRun.
pub data Problem : Type 0 where
  store_failed : Error → Problem
  no_next_run : String → Problem

abbrev pub Report : Type 0
Report = List Problem × World

pub data Tick : Type 0 where
  starts polls requeues_due : Tick
  scans : ℕ → Tick

abbrev pub next_run_only : ℕ → UpdateScheduleInput
next_run_only next = record {
  enabled = none;
  cron_expr = none;
  interval_secs = none;
  next_run_at = some next;
}

abbrev pub scheduled_task : Schedule → CreateTaskInput
scheduled_task sc = record {
  type = sc.task_type;
  queue = sc.queue;
  payload = sc.payload;
  priority = pos 0;
  max_retries = pos 0;
  timeout_secs = none;
  run_at = 0;
  parent_id = none;
  schedule_id = some sc.id;
}

-- `ended w`: ctx.Err() is not nil when it is asked in the world w.
module _ (ended : World → Bool) where
  -- An error is reported unless the context has ended.
  unfoldable pub report : Problem → World → Report
  report p w = if ended w then ([], w) else (p ∷ [], w)

  -- The reply of a last call.
  unfoldable pub close {ℓ} : {A : Type ℓ} → Reply A × World → Report
  unfolding report
  close (ok a, w) = ([], w)
  close (err e, w) = report (store_failed e) w

  -- The reply of a call in a loop: `go` is the rest of the loop, which an ended context skips.
  unfoldable pub carry_on {ℓ} : {A : Type ℓ} → (World → Report) → Reply A × World → Report
  carry_on go (ok a, w) = go w
  carry_on go (err e, w) =
      let (ps, w') = go w in if ended w then ([], w) else (store_failed e ∷ ps, w')

  module _ ⦃env : Env⦄ where
    -- scan
    unfoldable pub sweep : List Attempt → World → Report
    unfolding carry_on
    sweep [] w = ([], w)
    sweep (a ∷ rest) w =
        let go = sweep rest in if ended w then ([], w) else carry_on go (timeout_attempt a.id w)

    unfoldable pub with_reply {ℓ} : {A : Type ℓ} → (A → World → Report) → Reply A × World → Report
    unfolding report
    with_reply f (ok a, w) = f a w
    with_reply f (err e, w) = report (store_failed e) w

    unfoldable pub scan : ℕ → World → Report
    unfolding sweep with_reply time_now
    scan cutoff w =
        let w' = (time_now w).1 in
        with_reply sweep (find_stale_attempts (env.clock w.readings - cutoff) w')

    -- The body of the loop of retryScheduler.
    unfoldable pub requeue : World → Report
    unfolding close
    requeue w = close (requeue_retrying w)

    module _ (parse : CronParser) where
      -- fireDue, once the task is created.
      unfoldable pub advance : Schedule → ℕ → World → Report
      unfolding close
      advance sc now w = elim (compute_next_run parse sc now) [
        | none ↦ (no_next_run sc.id ∷ [], w)
        | some next ↦ close (record_schedule_run sc.id next w)
      ]

      unfoldable pub fire_due : Schedule → ℕ → World → Report
      unfolding advance with_reply
      fire_due sc now w = with_reply (λ t. advance sc now) (create_task (scheduled_task sc) w)

      unfoldable pub fire_all : ℕ → List Schedule → World → Report
      unfolding fire_due
      fire_all now [] w = ([], w)
      fire_all now (sc ∷ rest) w =
          let go = fire_all now rest in
          let (ps, w') = fire_due sc now w in
          let (qs, w'') = go w' in if ended w then ([], w) else (ps ++ qs, w'')

      unfoldable pub poll : World → Report
      unfolding fire_all with_reply time_now
      poll w =
          with_reply (λ due w'. fire_all (env.clock w'.readings) due (time_now w').1)
            (due_schedules w)

      -- The loop of initSchedules.
      unfoldable pub init_each : ℕ → List Schedule → World → Report
      unfolding carry_on
      init_each now [] w = ([], w)
      init_each now (sc ∷ rest) w =
          let go = init_each now rest in
          if not sc.enabled || not (is_none sc.next_run_at)
          then go w
          else elim (compute_next_run parse sc now) [
            | none ↦ let (ps, w') = go w in (no_next_run sc.id ∷ ps, w')
            | some next ↦ carry_on go (update_schedule sc.id (next_run_only next) w)
          ]

      unfoldable pub init_schedules : World → Report
      unfolding init_each with_reply time_now
      init_schedules w =
          with_reply (λ all w'. init_each (env.clock w'.readings) all (time_now w').1)
            (list_schedules w)

      -- The work of each loop: once at the start, and at each of its ticks.
      unfoldable pub tick : Tick → World → Report
      unfolding poll scan requeue init_schedules
      tick starts w = init_schedules w
      tick polls w = poll w
      tick (scans cutoff) w = scan cutoff w
      tick requeues_due w = requeue w
