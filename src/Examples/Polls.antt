-- ===== src/Examples/Polls.antt =====
-- A poll of the task scheduler that finds one schedule due.
use mathlib.Core.Bool.{true, false}
use ermine_tq.Prelude.{
  ◌+◌, ◌-◌, ◌*◌, ◌^◌, ℕ, ◌≡◌, refl, sym, ap, ◌∙◌, [], ◌∷◌, none, some, pos, map, first_where,
  select_where, update_where, count_where,
}
use ermine_tq.Store.Models.{Schedule, second, fmt_db_time}
use ermine_tq.Store.Db.{World, write, and_then, emit, time_now, new_id, statement}
use ermine_tq.Store.Statements.{insert_task, insert_task_event}
use ermine_tq.Store.Tasks.{create_task, new_task}
use ermine_tq.Store.Maintenance.{is_schedule_due, due_schedules, record_schedule_run, set_run}
use ermine_tq.Scheduler.NextRun.{CronParser, compute_next_run}
use ermine_tq.Scheduler.Ticks.{poll, with_reply, fire_all, fire_due, advance, close}
use ermine_tq.Scheduler.Fires.{Fires, poll-Fires}
use ermine_tq.Store.Control.Replies.{fair}
use ermine_tq.Scheduler.Fires.Replies.{poll-answers}
use ermine_tq.Examples.{calm, start}
use ermine_tq.Examples.Rows.{unary, length_of, length_of-unary}

-- The clock of `calm` stands at five seconds; one schedule is due, and one is not yet.
abbrev hourly : Schedule
hourly = record {
  id = "s1";
  task_type = "mail";
  queue = "default";
  payload = some "{}";
  cron_expr = none;
  interval_secs = some (pos 3600);
  enabled = true;
  last_run_at = none;
  next_run_at = some 4_000_000_000;
  created_at = 0;
}

abbrev scheduled : World
scheduled = record start {
  db = record start.db {
    schedules = hourly ∷ record hourly { id = "s2"; next_run_at = some 6_000_000_000 } ∷ [];
  };
}

abbrev no_cron : CronParser
no_cron expr = none

poll_silent : (poll (λ w. false) no_cron scheduled).0 ≡ []
unfolding poll with_reply due_schedules time_now and_then statement select_where is_schedule_due
    fmt_db_time fire_all fire_due create_task new_id new_task write insert_task insert_task_event
    first_where emit advance compute_next_run close record_schedule_run count_where
poll_silent = refl

poll-Fires_example :
    Fires calm no_cron 5_000_000_000
      (select_where (is_schedule_due (fmt_db_time 5_000_000_000)) scheduled.db.schedules)
      scheduled.db
      (poll (λ w. false) no_cron scheduled).1.db
poll-Fires_example = poll-Fires (λ w. false) (λ w. refl) no_cron scheduled poll_silent

-- One task was created, and the schedule runs again in an hour.
polled :
    (map (λ t. t.schedule_id) (poll (λ w. false) no_cron scheduled).1.db.tasks ≡ some "s1" ∷ [])
    × (map (λ s. s.next_run_at) (poll (λ w. false) no_cron scheduled).1.db.schedules
        ≡ some 3_605_000_000_000 ∷ some 6_000_000_000 ∷ [])
unfolding poll with_reply due_schedules time_now and_then statement select_where is_schedule_due
    fmt_db_time fire_all fire_due create_task new_id new_task write insert_task insert_task_event
    first_where emit advance compute_next_run close record_schedule_run count_where update_where
    set_run
polled = (refl, refl)

-- Distinct ids, and a clock that stands still.
unary_distinct : (i j : ℕ) → unary i ≡ unary j → i ≡ j
unary_distinct i j e = sym (length_of-unary i) ∙ ap length_of e ∙ length_of-unary j

abbrev standing : ℕ → ℕ
standing n = 5_000_000_000

poll-answers_example :
    ((poll (λ w. false) ⦃env = fair unary standing false⦄ no_cron scheduled).0 ≡ [])
    × Fires
        (fair unary standing false)
        no_cron
        5_000_000_000
        (select_where (is_schedule_due (fmt_db_time 5_000_000_000)) scheduled.db.schedules)
        scheduled.db
        (poll (λ w. false) ⦃env = fair unary standing false⦄ no_cron scheduled).1.db
unfolding select_where is_schedule_due fmt_db_time compute_next_run first_where
poll-answers_example =
    poll-answers unary standing unary_distinct (λ w. false) (λ w. refl) no_cron scheduled
      (λ k. refl) (λ k. refl) ((_, refl), tt)

-- The nanoseconds of the interval pass 2 ^ 63, and the next run is centuries ago.
abbrev endless : Schedule
endless = record hourly { interval_secs = some (pos 9_223_372_037) }

wraps_around :
    compute_next_run no_cron endless 63_000_000_000_000_000_000
    ≡ some (63_000_000_000_000_000_000 + 9_223_372_037 * second - 2 ^ 64)
unfolding compute_next_run
wraps_around = refl
