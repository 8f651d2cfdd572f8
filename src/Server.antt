-- ===== src/Server.antt =====
-- cmd/server/main.go: the subcommands, and what they start, await and close, in which order.
pub mod Order
pub mod Example
use ermine_tq.Prelude.{
  ℕ, zero, suc, String, Bool, true, false, not, ◌&&◌, ◌≡◌, refl, Option, none, some, List, [], ◌∷◌,
  ◌++◌, str_eq, Bool-cases, inl, inr, if◌then◌else◌,
}
use ermine_tq.Config.{Config}
use ermine_tq.Config.Flags.{parsed, exits, parse_server_flags, parse_migrate_flags}
use ermine_tq.Config.Loading.{Machine, ConfigError, Loaded, loaded, failed, load_config}

-- What goes well outside: store.Open, queue.NewPool, Server.Start and Store.Close.
pub record Surroundings : Type 0 where
  pub machine : Machine
  pub store_opens : String → Bool
  pub pool_is_made : Bool
  pub http_starts : String → Bool
  pub store_closes : Bool

-- The calls that have an effect. A `wait` is of the part that the call of the same name starts.
pub data Call : Type 0 where
  usage print_version : Call
  open_store : String → Call
  set_sink make_pool serve_http await_signal stop_context shut_http close_store : Call
  start_broker start_pool start_scheduler wait_broker wait_pool wait_scheduler : Call

pub data Problem : Type 0 where
  no_subcommand store_error pool_error http_error close_error shutdown_error : Problem
  unknown_subcommand : String → Problem
  config_error : ConfigError → Problem
  exited : ℕ → Problem

pub record Doing : Type 0 where
  pub calls : List Call
  pub problem : Option Problem

abbrev pub does : List Call → Option Problem → Doing
does calls problem = record { calls = calls; problem = problem }

-- The wait for a signal and the shutdown; an error of the HTTP server's shutdown is only logged.
abbrev shutdown : List Call
shutdown = await_signal ∷ shut_http ∷ wait_scheduler ∷ wait_pool ∷ wait_broker ∷ []

-- The deferred calls, the last one first.
abbrev deferred : List Call
deferred = stop_context ∷ close_store ∷ []

-- From the server on, if it starts or not.
unfoldable pub with_http : Bool → List Call × Option Problem
with_http true = (serve_http ∷ (shutdown ++ deferred), none)
with_http false = (serve_http ∷ deferred, some http_error)

-- From the open store on.
unfoldable pub with_pool : Bool → Bool → List Call × Option Problem
unfolding with_http
with_pool true http =
    let (calls, problem) = with_http http in
    (set_sink ∷ start_broker ∷ make_pool ∷ start_pool ∷ start_scheduler ∷ calls, problem)
with_pool false http = (set_sink ∷ start_broker ∷ make_pool ∷ deferred, some pool_error)

unfoldable pub with_store : Bool → Bool → Bool → String → Doing
unfolding with_pool
with_store true pool http db_path =
    let (calls, problem) = with_pool pool http in does (open_store db_path ∷ calls) problem
with_store false pool http db_path = does [] (some store_error)

module _ (s : Surroundings) where
  unfoldable pub serve_on : String → String → Doing
  unfolding with_store
  serve_on db_path addr =
      with_store (s.store_opens db_path) s.pool_is_made (s.http_starts addr) db_path

  -- A parse that fails ends the process.
  unfoldable pub cmd_server : List String → Doing
  cmd_server args = elim (parse_server_flags args) [
    | exits status ↦ does [] (some (exited status))
    | parsed f ↦ elim (load_config s.machine f.config f.db) [
      | failed e ↦ does [] (some (config_error e))
      | loaded (cfg, db_path) ↦ serve_on db_path f.addr
    ]
  ]

  unfoldable pub migrate_on : String → Doing
  migrate_on db_path =
      if s.store_opens db_path
      then does (open_store db_path ∷ close_store ∷ [])
          (if s.store_closes then none else some close_error)
      else does [] (some store_error)

  unfoldable pub cmd_migrate : List String → Doing
  cmd_migrate args = elim (parse_migrate_flags args) [
    | exits status ↦ does [] (some (exited status))
    | parsed f ↦ elim (load_config s.machine f.config f.db) [
      | failed e ↦ does [] (some (config_error e))
      | loaded (cfg, db_path) ↦ migrate_on db_path
    ]
  ]

  -- The arguments after the program's name.
  unfoldable pub run_command : List String → Doing
  run_command [] = does (usage ∷ []) (some no_subcommand)
  run_command (sub ∷ args) =
      if str_eq sub "server"
      then cmd_server args
      else if str_eq sub "migrate"
      then cmd_migrate args
      else if str_eq sub "version"
      then does (print_version ∷ []) none
      else if str_eq sub "help"
      then does (usage ∷ []) none
      else if str_eq sub "-h"
      then does (usage ∷ []) none
      else if str_eq sub "--help"
      then does (usage ∷ []) none
      else does (usage ∷ []) (some (unknown_subcommand sub))
