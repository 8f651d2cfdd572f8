-- ===== src/System.antt =====
-- cmd/server/main.go: the parts that cmdServer starts on one store, with the settings of loadConfig.
-- Requests, ticks and rounds come in any order, each as a whole.
use ermine_tq.Prelude.{
  ℕ, String, Bool, ◌≡◌, sym, subst, List, [], ◌∷◌, pos, ◌≤ℤ◌, count_where, arith,
}
use ermine_tq.Config.{Config}
use ermine_tq.Config.Loading.{Machine, loaded, load_config}
use ermine_tq.Config.Limits.{IsValid}
use ermine_tq.Config.Precedence.{load_config-path}
use ermine_tq.Store.Db.{Db, Env, World, Reply, ok, err, and_then}
use ermine_tq.Store.Statements.{runs_on}
use ermine_tq.Store.Workers.{create_worker}
use ermine_tq.Store.Operations.{registers, perform}
use ermine_tq.Store.Refinement.Performs.{NamesAreGiven, perform-Steps}
use ermine_tq.Store.Invariant.Limits.{IsWithinLimits}
use ermine_tq.Store.Invariant.Histories.{
  empty, IsConsistent, empty-IsConsistent, Steps-IsConsistent,
}
use ermine_tq.Scheduler.NextRun.{CronParser}
use ermine_tq.Scheduler.Ticks.{Tick, tick}
use ermine_tq.Scheduler.Sweeps.{tick-IsConsistent}
use ermine_tq.Queue.RunOnce.{RunConfig}
use ermine_tq.Queue.Pool.{PoolConfig, normalise, pool_worker, new_pool, poll_rounds}
use ermine_tq.Queue.Keeps.{poll_rounds-IsConsistent}
use ermine_tq.Api.Requests.{Request}
use ermine_tq.Api.Handlers.{serve}
use ermine_tq.Api.Effects.{RequestIsFree, serve-IsConsistent}

-- What happens at a server: a request, a tick of the scheduler, a new pool, rounds of a pool's
-- goroutine. The pools share the settings of the server.
pub data Happening : Type 0 where
  requested : Request → Happening
  ticked : Tick → Happening
  pooled : PoolConfig → Happening
  polled : RunConfig → ℕ → Happening

module _ ⦃env : Env⦄ (cfg : Config) (ended : World → Bool) (parse : CronParser) where
  unfoldable pub happen : Happening → World → World
  happen (requested req) w = (serve cfg req w).1
  happen (ticked t) w = (tick ended parse t w).1
  happen (pooled settings) w = (new_pool settings w).1
  happen (polled rc n) w = (poll_rounds (record rc { config = cfg }) n w).world

  unfoldable pub happen_all : List Happening → World → World
  happen_all [] w = w
  happen_all (h ∷ hs) w = happen_all hs (happen h w)

  -- A new worker's id is not named by a running attempt.
  abbrev pub IsFree : Happening → World → Type 0
  IsFree (requested req) w = RequestIsFree req w
  IsFree (pooled settings) w = count_where (runs_on (env.new_id w.ids)) w.db.attempts ≡ 0
  IsFree (ticked t) w = Unit
  IsFree (polled rc n) w = Unit

  abbrev pub AllAreFree : List Happening → World → Type 0
  AllAreFree [] w = Unit
  AllAreFree (h ∷ hs) w = IsFree h w × AllAreFree hs (happen h w)

  and_then-same {ℓ κ} :
      {A : Type ℓ} {B : Type κ} (r : Reply A × World) (f : A → B) (P : Db → Type 0)
      → P r.1.db
      → P (and_then r (λ a w. (ok (f a), w))).1.db
  unfolding and_then
  and_then-same (ok a, w) f P h = h
  and_then-same (err e, w) f P h = h

  module _ (named : NamesAreGiven env) where
    happen-IsConsistent :
        (h : Happening) (w : World)
        → IsFree h w
        → IsConsistent cfg w.db
        → IsConsistent cfg (happen h w).db
    unfolding happen new_pool perform
    happen-IsConsistent (requested req) w free c = serve-IsConsistent cfg named req w free c
    happen-IsConsistent (ticked t) w free c = tick-IsConsistent cfg ended named parse t w c
    happen-IsConsistent (pooled settings) w free c =
        and_then-same (create_worker (pool_worker (normalise settings)) w) _ (IsConsistent cfg) (
          Steps-IsConsistent c (
            perform-Steps cfg named (registers (pool_worker (normalise settings))) w c.tasks_unique
              free))
    happen-IsConsistent (polled rc n) w free c =
        poll_rounds-IsConsistent (record rc { config = cfg }) named n w c

    pub happen_all-IsConsistent :
        (hs : List Happening) (w : World)
        → AllAreFree hs w
        → IsConsistent cfg w.db
        → IsConsistent cfg (happen_all hs w).db
    unfolding happen_all
    happen_all-IsConsistent [] w free c = c
    happen_all-IsConsistent (h ∷ hs) w free c =
        happen_all-IsConsistent hs (happen h w) free.1 (happen-IsConsistent h w free.0 c)

-- A server has settings that loadConfig returned, and its store starts from empty tables;
-- uuid.NewString never returns the empty text, nor, for a new worker, a name that a running attempt
-- gives as its worker's. Then, after any sequence of requests to the API, ticks of the scheduler,
-- new pools and rounds of the pools' goroutines, whatever faults the store meets, the running tasks
-- are at most `limits.global`, those of each queue with a positive limit are at most that limit,
-- and so are those of each task type.
pub happen_all-IsWithinLimits :
    ⦃env : Env⦄ (m : Machine) (config_flag db_flag : String) (cfg : Config) (db_path : String)
    → load_config m config_flag db_flag ≡ loaded (cfg, db_path)
    → (ended : World → Bool) (parse : CronParser) → NamesAreGiven env
    → (hs : List Happening) (w : World) → w.db ≡ empty
    → AllAreFree cfg ended parse hs w
    → IsWithinLimits cfg (happen_all cfg ended parse hs w).db.tasks
happen_all-IsWithinLimits m config_flag db_flag cfg db_path l ended parse named hs w fresh free =
    let v = (load_config-path m config_flag db_flag cfg db_path l).0 in
    let e = empty-IsConsistent cfg (positive v) in
    (happen_all-IsConsistent cfg ended parse named hs w free
      (subst (IsConsistent cfg) (sym fresh) e)).within_limits
  where
    positive : IsValid cfg → pos 0 ≤ℤ cfg.limits.global
    positive v = let h = v.global in omega arith
