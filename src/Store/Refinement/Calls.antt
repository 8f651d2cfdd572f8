-- ===== src/Store/Refinement/Calls.antt =====
-- What the caller of a ClaimTask (internal/store/claim.go) gets.
use ermine_tq.Prelude.{String, refl, Option, none, some, List, [], ◌∷◌, IsUnique, All-each}
use ermine_tq.Config.{Config}
use ermine_tq.Store.Models.{Task}
use ermine_tq.Store.Db.{Db, Env, World}
use ermine_tq.Store.Statements.{task_key}
use ermine_tq.Store.Runs.{Ensures, Runs, Runs-map, Runs-bind, Runs-return}
use ermine_tq.Store.Runs.Writes.{Runs-emit, write_then-Ensures}
use ermine_tq.Store.Claim.{one_of, claim_task, announce_claim}
use ermine_tq.Store.Refinement.Claims.{ClaimOutcome, nothing, none_claimable, claim_tx-outcome}
use ermine_tq.Store.Refinement.Eligible.{none_of}

module _ ⦃env : Env⦄ (cfg : Config) (worker_id queue : String) where
  -- The ids of the tasks are distinct. If ClaimTask returns without an error, it returns no task and the tables
  -- are as before, and then the system or the queue is at its limit, or no task of the queue is
  -- queued, due and of one of the given types that is below its limit; or it returns one of those tasks,
  -- one that no other of them precedes in the order of priority and then age, with a fresh id of an
  -- attempt, there was room for the task under all three limits, and the tables differ by what a claim
  -- writes: the task runs, the attempt has the next number, the worker has one task more, and an event tells of it.
  pub claim_task-outcome :
      (types : List String) (w : World)
      → IsUnique task_key w.db.tasks
      → Ensures
          (claim_task worker_id queue types cfg w)
          (ClaimOutcome env cfg worker_id queue types w.db)
  unfolding claim_task announce_claim one_of
  claim_task-outcome [] w u =
      nothing _ (0, refl) (none_claimable [] (λ x. refl) (All-each _ (none_of queue _) w.db.tasks))
  claim_task-outcome (type ∷ types) w u =
      write_then-Ensures _ _ _ w
        (Runs-map announce (claim_tx-outcome cfg worker_id queue (type ∷ types) w.db u))
    where
      announce :
          (r : Option (Task × String)) (d : Db)
          → ClaimOutcome env cfg worker_id queue (type ∷ types) w.db r d
          → Runs d (announce_claim r) (ClaimOutcome env cfg worker_id queue (type ∷ types) w.db)
      announce none d h = Runs-return h
      announce (some (t, id)) d h = Runs-bind (Runs-emit _ _ (Runs-return h))
