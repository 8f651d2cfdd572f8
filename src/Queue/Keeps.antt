-- ===== src/Queue/Keeps.antt =====
-- A property that every call of the store keeps, along internal/queue.
use ermine_tq.Prelude.{
  ℕ, zero, suc, String, Bool, true, false, if◌then◌else◌, Option, none, some, List, [], ◌∷◌,
}
use ermine_tq.Store.Models.{Task}
use ermine_tq.Store.Db.{Db, Env, World, Reply, ok, err}
use ermine_tq.Store.Operations.{Op, claims, succeeds, fails, cancels_attempt, beats, perform}
use ermine_tq.Store.Refinement.Performs.{NamesAreGiven, IdIsUnused, perform-Steps}
use ermine_tq.Store.Invariant.Histories.{IsConsistent, Steps-IsConsistent}
use ermine_tq.Queue.Registry.{Dispatched, result, failure, task_types}
use ermine_tq.Queue.RunOnce.{
  RunConfig, keep_alive, reported, report_outcome, execute, after_claim_of, run_types, run_once,
}
use ermine_tq.Queue.Pool.{Polled, next_round, poll_rounds}

-- A property of the tables that every call of a writing operation keeps.
module _ {κ} ⦃env : Env⦄ (cfg : RunConfig) (P : Db → Type κ)
    (kept : (op : Op) (w : World) → IdIsUnused op w → P w.db → P (perform cfg.config op w).db) where
  keep_alive-keeps : (id : String) (n : ℕ) (w : World) → P w.db → P (keep_alive id n w).db
  unfolding keep_alive perform
  keep_alive-keeps id zero w h = h
  keep_alive-keeps id (suc n) w h = keep_alive-keeps id n _ (kept (beats id) w tt h)

  reported-keeps :
      (reply : Reply Bool) (r : Reply (Unit {0}) × World) → P r.1.db → P (reported reply r).1.db
  unfolding reported
  reported-keeps reply (ok a, w) h = h
  reported-keeps reply (err e, w) h = h

  report_outcome-keeps :
      (c : Bool) (d : Dispatched) (id : String) (w : World)
      → P w.db
      → P (report_outcome c d id w).1.db
  unfolding report_outcome perform
  report_outcome-keeps true d id w h = reported-keeps _ _ (kept (cancels_attempt id) w tt h)
  report_outcome-keeps false (failure m) id w h = reported-keeps _ _ (kept (fails id m) w tt h)
  report_outcome-keeps false (result r) id w h = reported-keeps _ _ (kept (succeeds id r) w tt h)

  after_claim-keeps :
      (r : Reply (Option (Task × String)) × World) → P r.1.db → P (after_claim_of cfg r).1.db
  unfolding after_claim_of execute
  after_claim-keeps (err e, w) h = h
  after_claim-keeps (ok none, w) h = h
  after_claim-keeps (ok (some (t, id)), w) h =
      report_outcome-keeps _ _ id (keep_alive id (cfg.beats w) w)
        (keep_alive-keeps id (cfg.beats w) w h)

  run_types-keeps : (types : List String) (w : World) → P w.db → P (run_types cfg types w).1.db
  unfolding run_types perform
  run_types-keeps [] w h = h
  run_types-keeps (t ∷ ts) w h =
      after_claim-keeps _ (kept (claims cfg.worker_id cfg.queue (t ∷ ts)) w tt h)

  run_once-keeps : (w : World) → P w.db → P (run_once cfg w).1.db
  unfolding run_once
  run_once-keeps w h = run_types-keeps (task_types cfg.registry) w h

  if-keeps :
      (b : Bool) (x y : Polled) → P x.world.db → P y.world.db → P (if b then x else y).world.db
  if-keeps true x y h k = h
  if-keeps false x y h k = k

  next_round-keeps :
      (again : World → Polled) (r : Reply Bool × World)
      → ((w : World) → P w.db → P (again w).world.db)
      → P r.1.db
      → P (next_round cfg.ended again r).world.db
  unfolding next_round
  next_round-keeps again (ok true, w) f h = f w h
  next_round-keeps again (ok false, w) f h = if-keeps (cfg.ended w) _ _ h (f w h)
  next_round-keeps again (err e, w) f h = if-keeps (cfg.ended w) _ _ h (f w h)

  poll_rounds-keeps : (n : ℕ) (w : World) → P w.db → P (poll_rounds cfg n w).world.db
  unfolding poll_rounds
  poll_rounds-keeps zero w h = h
  poll_rounds-keeps (suc n) w h = if-keeps (cfg.ended w) _ _ h (
      next_round-keeps (poll_rounds cfg n) (run_once cfg w) (poll_rounds-keeps n)
        (run_once-keeps w h))

-- uuid.NewString never returns the empty text. Then any number of rounds of a pool's goroutine keep
-- the tables consistent, whatever the handlers do and whatever faults the store meets.
pub poll_rounds-IsConsistent :
    ⦃env : Env⦄ (cfg : RunConfig)
    → NamesAreGiven env
    → (n : ℕ) (w : World) → IsConsistent cfg.config w.db
    → IsConsistent cfg.config (poll_rounds cfg n w).world.db
poll_rounds-IsConsistent cfg named n w h =
    poll_rounds-keeps cfg (IsConsistent cfg.config)
      (λ op w u h. Steps-IsConsistent h (perform-Steps cfg.config named op w h.tasks_unique u)) n w
      h
