-- ===== src/Queue/Pool.antt =====
-- internal/queue/pool.go: a pool's worker record, and the loop of each of its goroutines.
use ermine_tq.Prelude.{
  ℕ, zero, suc, ◌*◌, String, Bool, true, false, none, List, [], ◌∷◌, ℤ, pos, leb_ℤ, if◌then◌else◌,
}
use ermine_tq.Config.{Config}
use ermine_tq.Store.Db.{Env, World, M, Reply, ok, err, Error, ◌>>=◌, return}
use ermine_tq.Store.Workers.{CreateWorkerInput, create_worker}
use ermine_tq.Queue.Registry.{Registry, task_types}
use ermine_tq.Queue.RunOnce.{RunConfig, run_once}

-- A duration is in nanoseconds.
pub record PoolConfig : Type 0 where
  pub registry : Registry
  pub config : Config
  pub queue : String
  pub concurrency : ℤ
  pub poll_interval : ℤ

abbrev pub default_poll_interval : ℤ
default_poll_interval = pos (500 * 1_000_000)

pub record Pool : Type 0 where
  pub worker_id : String
  pub cfg : PoolConfig

-- The normalised copy of the settings.
unfoldable pub normalise : PoolConfig → PoolConfig
normalise cfg = record cfg {
  concurrency = if leb_ℤ cfg.concurrency (pos 0) then pos 1 else cfg.concurrency;
  poll_interval =
      if leb_ℤ cfg.poll_interval (pos 0) then default_poll_interval else cfg.poll_interval;
}

unfoldable pub pool_worker : PoolConfig → CreateWorkerInput
pool_worker cfg = record {
  type = "go";
  task_types = task_types cfg.registry;
  queue = cfg.queue;
  concurrency = cfg.concurrency;
  socket_path = none;
}

-- What a goroutine has done: whether it has returned, and what it gave to OnError.
pub record Polled : Type 0 where
  pub stopped : Bool
  pub problems : List Error
  pub world : World

module _ ⦃env : Env⦄ where
  unfoldable pub new_pool : PoolConfig → M Pool
  unfolding normalise pool_worker
  new_pool settings = do
    let cfg = normalise settings
    w ← create_worker (pool_worker cfg)
    return (record { worker_id = w.id; cfg = cfg })

  abbrev pub stop : World → Polled
  stop w = record { stopped = true; problems = []; world = w }

  abbrev pub telling : Error → Polled → Polled
  telling e p = record p { problems = e ∷ p.problems }

  -- What a round does after RunOnce: a task was worked off, or the queue was empty, or RunOnce
  -- failed. `ended` asks whether the context has ended, in the sleep as well.
  unfoldable pub next_round : (World → Bool) → (World → Polled) → Reply Bool × World → Polled
  next_round ended again (ok true, w) = again w
  next_round ended again (ok false, w) = if ended w then stop w else again w
  next_round ended again (err e, w) = if ended w then stop w else telling e (again w)

  -- So many rounds of the loop; a goroutine whose context does not end makes any number of them.
  unfoldable pub poll_rounds : RunConfig → ℕ → World → Polled
  unfolding next_round
  poll_rounds cfg zero w = record { stopped = false; problems = []; world = w }
  poll_rounds cfg (suc n) w =
      if cfg.ended w then stop w else next_round cfg.ended (poll_rounds cfg n) (run_once cfg w)
