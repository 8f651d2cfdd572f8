-- ===== src/Examples/Servers.antt =====
-- A server with the settings of a file, and what happens at it.
use ermine_tq.Prelude.{true, false, ◌≡◌, refl, none, some, List, [], ◌∷◌, pos}
use ermine_tq.Store.Invariant.Limits.{IsWithinLimits}
use ermine_tq.Scheduler.Ticks.{polls}
use ermine_tq.Api.Requests.{tasks_post}
use ermine_tq.System.{Happening, requested, ticked, polled, happen_all, happen_all-IsWithinLimits}
use ermine_tq.Config.Flags.{
  parsed, exits, parse_server_flags, parse_migrate_flags, parse_flags, shape, cut_value, is_defined,
  set_flag, undefined,
}
use ermine_tq.Server.{Surroundings, run_command}
use ermine_tq.Server.Order.{IsTidy, run_command-IsTidy}
use ermine_tq.Examples.{calm, calm-NamesAreGiven, start, echo}
use ermine_tq.Examples.Requests.{claim_mail}
use ermine_tq.Examples.Settings.{a_machine, in_file, loads}

abbrev happenings : List Happening
happenings =
    requested (
      tasks_post (
        some (record {
          type = "mail";
          queue = "";
          payload = none;
          priority = pos 0;
          max_retries = pos 0;
          timeout_secs = none;
          run_at = none;
        })))
    ∷ requested claim_mail
    ∷ ticked polls
    ∷ polled echo 1
    ∷ []

happen_all-IsWithinLimits_example :
    IsWithinLimits in_file
      (happen_all in_file (λ w. false) (λ expr. none) happenings start).db.tasks
happen_all-IsWithinLimits_example =
    happen_all-IsWithinLimits a_machine "" "" in_file "tasks.db" loads (λ w. false) (λ expr. none)
      calm-NamesAreGiven happenings start refl (tt, (tt, (tt, (tt, tt))))

-- The port is taken.
abbrev surroundings : Surroundings
surroundings = record {
  machine = a_machine;
  store_opens = λ path. true;
  pool_is_made = true;
  http_starts = λ addr. false;
  store_closes = true;
}

run_command-IsTidy_example :
    IsTidy (run_command surroundings ("server" ∷ "-db=tasks.db" ∷ "--addr" ∷ ":9090" ∷ []))
run_command-IsTidy_example =
    run_command-IsTidy surroundings ("server" ∷ "-db=tasks.db" ∷ "--addr" ∷ ":9090" ∷ [])

parses_both :
    parse_server_flags ("-db=tasks.db" ∷ "--addr" ∷ ":9090" ∷ "rest" ∷ [])
    ≡ parsed (record { config = ""; db = "tasks.db"; addr = ":9090" })
unfolding parse_server_flags parse_flags shape cut_value is_defined set_flag
parses_both = refl

-- migrate has no flag -addr, and a flag needs a value.
refuses_flags :
    (parse_migrate_flags ("-addr" ∷ ":9090" ∷ []) ≡ exits 2)
    × (parse_server_flags ("-db" ∷ []) ≡ exits 2)
    × (parse_server_flags ("-h" ∷ []) ≡ exits 0)
unfolding parse_server_flags parse_migrate_flags parse_flags shape cut_value is_defined undefined
refuses_flags = (refl, refl, refl)
