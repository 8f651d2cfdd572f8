-- ===== src/Queue/RunOnce.antt =====
-- internal/queue/worker.go: RunOnce claims a task, executes it and reports how it ended.
use ermine_tq.Prelude.{ℕ, zero, suc, String, Bool, true, false, Option, none, some, List, [], ◌∷◌}
use ermine_tq.Config.{Config}
use ermine_tq.Store.Models.{Task}
use ermine_tq.Store.Db.{Env, World, Reply, ok, err, context_done}
use ermine_tq.Store.Claim.{claim_task}
use ermine_tq.Store.Attempts.{succeed_attempt, fail_attempt, cancel_attempt, update_heartbeat}
use ermine_tq.Queue.Registry.{Registry, Dispatched, result, failure, dispatch, task_types}

-- RunConfig, with what an execution meets: how often the ticker of the heartbeats fires, and whether
-- the parent's context has ended when the execution is over.
pub record RunConfig : Type 0 where
  pub registry : Registry
  pub worker_id : String
  pub queue : String
  pub config : Config
  pub beats : World → ℕ
  pub ended : World → Bool
  pub panic_text : String → String
  pub missing_text : String → String

module _ ⦃env : Env⦄ where
  -- The heartbeat goroutine; the errors are ignored.
  unfoldable pub keep_alive : String → ℕ → World → World
  keep_alive id zero w = w
  keep_alive id (suc n) w = keep_alive id n (update_heartbeat id w).1

  -- The reply of RunOnce after its report of the outcome.
  unfoldable pub reported : Reply Bool → Reply (Unit {0}) × World → Reply Bool × World
  reported reply (ok _, w) = (reply, w)
  reported reply (err e, w) = (err e, w)

  unfoldable pub report_outcome : Bool → Dispatched → String → World → Reply Bool × World
  unfolding reported
  report_outcome true d id w = reported (err context_done) (cancel_attempt id w)
  report_outcome false (failure message) id w = reported (ok true) (fail_attempt id message w)
  report_outcome false (result r) id w = reported (ok true) (succeed_attempt id r w)

  unfoldable pub execute : RunConfig → Task → String → World → Reply Bool × World
  unfolding keep_alive report_outcome
  execute cfg t id w =
      let w' = keep_alive id (cfg.beats w) w in
      report_outcome (cfg.ended w') (dispatch cfg.panic_text cfg.missing_text cfg.registry t) id w'

  unfoldable pub after_claim_of :
      RunConfig → Reply (Option (Task × String)) × World → Reply Bool × World
  unfolding execute
  after_claim_of cfg (err e, w) = (err e, w)
  after_claim_of cfg (ok none, w) = (ok false, w)
  after_claim_of cfg (ok (some (t, id)), w) = execute cfg t id w

  -- No handler, nothing to claim.
  unfoldable pub run_types : RunConfig → List String → World → Reply Bool × World
  unfolding after_claim_of
  run_types cfg [] w = (ok false, w)
  run_types cfg (type ∷ types) w =
      after_claim_of cfg (claim_task cfg.worker_id cfg.queue (type ∷ types) cfg.config w)

  unfoldable pub run_once : RunConfig → World → Reply Bool × World
  unfolding run_types
  run_once cfg w = run_types cfg (task_types cfg.registry) w
