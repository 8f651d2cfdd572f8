-- ===== src/Server/Example.antt =====
-- examples/go/server/main.go: the same parts as cmd/server/main.go with fixed settings.
use ermine_tq.Prelude.{
  String, Bool, true, false, not, ◌&&◌, ◌||◌, ◌≡◌, refl, Option, none, some, List, [], ◌∷◌, pos,
  if◌then◌else◌,
}
use ermine_tq.Config.{Config}
use ermine_tq.Server.{
  Call, Problem, Doing, does, open_store, set_sink, make_pool, serve_http, await_signal,
  stop_context, shut_http, close_store, start_broker, start_pool, start_scheduler, wait_broker,
  wait_pool, wait_scheduler, store_error, pool_error, http_error, shutdown_error,
}
use ermine_tq.Server.Order.{is_tidy, at_rest, succeeded}

-- The database's path and the configuration of the example.
abbrev example_path : String
example_path = "examples/output/example.db"

abbrev example_config : Config
example_config = record {
  db = record { path = "" };
  limits = record { global = pos 8 };
  queues = [];
  task_types = [];
}

-- The deferred calls of the broker's part, and of all parts, the last one first.
abbrev deferred_broker : List Call
deferred_broker = wait_broker ∷ stop_context ∷ close_store ∷ []

abbrev deferred_all : List Call
deferred_all = wait_scheduler ∷ wait_pool ∷ deferred_broker

-- From the server on: whether it starts, and whether its shutdown succeeds.
example_http : Bool → Bool → List Call × Option Problem
example_http false shuts = (serve_http ∷ deferred_all, some http_error)
example_http true shuts = (
  serve_http ∷ await_signal ∷ shut_http ∷ deferred_all,
  if shuts then none else some shutdown_error,
)

example_pool : Bool → Bool → Bool → List Call × Option Problem
unfolding example_http
example_pool false http shuts =
    (set_sink ∷ start_broker ∷ make_pool ∷ deferred_broker, some pool_error)
example_pool true http shuts =
    let (calls, problem) = example_http http shuts in
    (set_sink ∷ start_broker ∷ make_pool ∷ start_pool ∷ start_scheduler ∷ calls, problem)

-- Whether the store opens, the pool is made, the server starts, and its shutdown succeeds.
run_example : Bool → Bool → Bool → Bool → Doing
unfolding example_pool
run_example false pool http shuts = does [] (some store_error)
run_example true pool http shuts =
    let (calls, problem) = example_pool pool http shuts in
    does (open_store example_path ∷ calls) problem

-- The example keeps the order of the server, which waits for a part only once their context has
-- ended, exactly if its store does not open, or its pool is made and its server starts.
is_tidy-run_example :
    (store pool http shuts : Bool)
    → is_tidy
        (succeeded (run_example store pool http shuts).problem)
        at_rest
        (run_example store pool http shuts).calls
      ≡ (not store || pool && http)
unfolding run_example
is_tidy-run_example false pool http shuts = refl
is_tidy-run_example true false http shuts = refl
is_tidy-run_example true true false shuts = refl
is_tidy-run_example true true true true = refl
is_tidy-run_example true true true false = refl
