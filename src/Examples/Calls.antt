-- ===== src/Examples/Calls.antt =====
-- Control actions, endings of an attempt and ticks of the scheduler, on the stores of the examples.
use mathlib.Core.Bool.{false}
use ermine_tq.Store.Statements.{order_rows}
use ermine_tq.Store.Db.{with_ties}
use ermine_tq.Prelude.{
  ◌≡◌, refl, [], ◌∷◌, none, All, count_where, map, first_where, order_by, select_where,
  update_where, by_key, IsFresh, ◌-◌,
}
use ermine_tq.Config.{queue_limit, task_type_limit}
use ermine_tq.Store.Models.{status_eq, attempt_status_eq, fmt_db_time}
use ermine_tq.Store.Statements.{
  task_key, event_key, insert_task, insert_task_event, load_running_attempt, release_worker,
}
use ermine_tq.Store.Claim.{
  claim_task, queue_full, eligible_types, claim_row, next_task, is_claimable, one_of, set_running,
}
use ermine_tq.Store.Db.{write, and_then, emit, ok, time_now, new_id, statement}
use ermine_tq.Store.Operations.{requeues, run}
use ermine_tq.Store.Attempts.{
  timeout_attempt, end_failed, spend_retry, set_failed, succeed_attempt, set_succeeded, set_status,
}
use ermine_tq.Store.Control.Replies.{act, halt, verdict, outcome, status_under, act-verdict}
use ermine_tq.Store.Invariant.Endings.{
  IsOver, IsRefused, end_with, succeeding, cancelling, ends_once,
}
use ermine_tq.Scheduler.Ticks.{scan, sweep, carry_on, with_reply}
use ermine_tq.Scheduler.Sweeps.{scan-IsOver}
use ermine_tq.Store.Maintenance.{find_stale_attempts, is_stale}
use mathlib.Core.Option.{map as option_map}
use ermine_tq.Store.Workers.{create_worker}
use ermine_tq.Store.Tasks.{create_task, new_task}
use ermine_tq.Examples.{
  name, calm, calm-NamesAreGiven, one_at_a_time, working, working-IsConsistent,
}

working-IsFresh : IsFresh event_key (name working.ids) working.db.events
unfolding run claim_task create_task create_worker write and_then emit time_now new_id statement
    insert_task insert_task_event count_where first_where new_task status_eq queue_full queue_limit
    eligible_types task_type_limit claim_row next_task order_by order_rows with_ties select_where
    is_claimable one_of fmt_db_time update_where set_running
working-IsFresh = refl

first_ending : (end_with (succeeding none) "a" working).0 ≡ ok tt
unfolding run claim_task create_task create_worker write and_then emit time_now new_id statement
    insert_task insert_task_event count_where first_where new_task status_eq queue_full queue_limit
    eligible_types task_type_limit claim_row next_task order_by order_rows with_ties select_where
    is_claimable one_of fmt_db_time update_where set_running succeed_attempt load_running_attempt
    attempt_status_eq release_worker set_succeeded set_status
first_ending = refl

act-verdict_example :
    ((act halt "t" working).0 ≡ verdict halt (first_where (by_key task_key "t") working.db.tasks))
    × (status_under "t" (act halt "t" working).1.db
        ≡ option_map (outcome halt) (status_under "t" working.db))
act-verdict_example = act-verdict name (λ n. 5_000_000_000) false halt "t" working working-IsFresh

ends_once_example : IsRefused (
    end_with cancelling "a"
      (run one_at_a_time (requeues ∷ []) (end_with (succeeding none) "a" working).1))
ends_once_example =
    ends_once one_at_a_time calm-NamesAreGiven (succeeding none) cancelling "a" (requeues ∷ [])
      working working-IsConsistent first_ending (tt, tt)

scan_silent : (scan (λ w. false) 0 working).0 ≡ []
unfolding run claim_task create_task create_worker write and_then emit time_now new_id statement
    insert_task insert_task_event count_where first_where new_task status_eq queue_full queue_limit
    eligible_types task_type_limit claim_row next_task order_by order_rows with_ties select_where
    is_claimable one_of fmt_db_time update_where set_running scan sweep carry_on with_reply
    find_stale_attempts is_stale timeout_attempt end_failed spend_retry load_running_attempt
    attempt_status_eq release_worker set_status set_failed
scan_silent = refl

scan-IsOver_example :
    All
      (λ a. IsOver a.id (scan (λ w. false) 0 working).1.db)
      (select_where (is_stale (fmt_db_time (5_000_000_000 - 0))) working.db.attempts)
scan-IsOver_example =
    scan-IsOver one_at_a_time (λ w. false) calm-NamesAreGiven (λ w. refl) 0 working
      working-IsConsistent scan_silent

-- That scan finds the attempt that runs.
stale_attempt :
    map (λ a. a.id) (select_where (is_stale (fmt_db_time 5_000_000_000)) working.db.attempts)
    ≡ "a" ∷ []
unfolding run claim_task create_task create_worker write and_then emit time_now new_id statement
    insert_task insert_task_event count_where first_where new_task status_eq queue_full queue_limit
    eligible_types task_type_limit claim_row next_task order_by order_rows with_ties select_where
    is_claimable one_of fmt_db_time update_where set_running is_stale attempt_status_eq
stale_attempt = refl
