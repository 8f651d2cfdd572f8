-- ===== src/Examples/Stores.antt =====
-- Operations of the store and a round of a worker, at a store with a task to claim.
use ermine_tq.Prelude.{ℕ, String, ◌≡◌, [], ◌∷◌, pos, ◌*◌, ◌^◌, ◌<◌}
use ermine_tq.Store.Statements.{stored}
use ermine_tq.Store.Claim.{claim_task}
use ermine_tq.Store.Db.{write}
use ermine_tq.Store.Operations.{claims, perform}
use ermine_tq.Store.Refinement.Performs.{perform-Steps}
use ermine_tq.Store.Refinement.Claims.{ClaimOutcome, IsReading}
use ermine_tq.Store.Refinement.Calls.{claim_task-outcome}
use ermine_tq.Store.Steps.{Steps}
use ermine_tq.Store.Runs.{Ensures}
use ermine_tq.Store.Atomicity.{IsAtomic, opened, write-IsAtomic}
use ermine_tq.Store.Attempts.{
  heartbeat_tx, retry_backoff, retry_base_delay, retry_max_delay, clamp_shift,
}
use ermine_tq.Store.Attempts.{fail_attempt, timeout_attempt}
use ermine_tq.Store.Attempts.Failures.{HasSpent, fail_and_timeout-HasSpent}
use ermine_tq.Store.Attempts.Backoff.{retry_backoff-min}
use ermine_tq.Queue.RunOnce.{run_once}
use ermine_tq.Queue.Results.{Done, run_once-Done}
use ermine_tq.Store.Maintenance.{requeue_retrying}
use ermine_tq.Store.Maintenance.Requeue.{IsRequeued, requeue_retrying-IsRequeued}
use ermine_tq.Store.Tasks.RoundTrip.{create_and_get, create_and_get-stored}
use Prim.Native.Nat.{min}
use ermine_tq.Store.Tasks.{new_task}
use ermine_tq.Examples.{
  calm, calm-NamesAreGiven, one_at_a_time, a_task, waiting, working, waiting-IsConsistent, echo,
}

claim_task-outcome_example :
    Ensures
      (claim_task "w" "default" ("mail" ∷ []) one_at_a_time waiting)
      (ClaimOutcome calm one_at_a_time "w" "default" ("mail" ∷ []) waiting.db)
claim_task-outcome_example =
    claim_task-outcome one_at_a_time "w" "default" ("mail" ∷ []) waiting
      waiting-IsConsistent.tasks_unique

perform-Steps_example :
    Steps one_at_a_time waiting.db
      (perform one_at_a_time (claims "w" "default" ("mail" ∷ [])) waiting).db
perform-Steps_example =
    perform-Steps one_at_a_time calm-NamesAreGiven (claims "w" "default" ("mail" ∷ [])) waiting
      waiting-IsConsistent.tasks_unique tt

write-IsAtomic_example :
    IsAtomic working.db (heartbeat_tx "a" (opened working)) (write (heartbeat_tx "a") working)
write-IsAtomic_example = write-IsAtomic (heartbeat_tx "a") working

retry_backoff-min_example :
    (retry_backoff (pos 9) ≡ min (retry_base_delay * 2 ^ 9) retry_max_delay)
    × (retry_base_delay * 2 ^ clamp_shift (pos 9) < 2 ^ 63)
retry_backoff-min_example = retry_backoff-min (pos 9)

run_once-Done_example : Ensures (run_once echo waiting) (Done echo waiting.db)
run_once-Done_example = run_once-Done echo waiting waiting-IsConsistent.tasks_unique

requeue_retrying-IsRequeued_example :
    Ensures
      (requeue_retrying working)
      (λ n d. (now : ℕ) × (IsReading calm now × IsRequeued now n working.db.tasks d.tasks))
requeue_retrying-IsRequeued_example = requeue_retrying-IsRequeued working

create_and_get-stored_example :
    Ensures
      (create_and_get a_task waiting)
      (λ p d. (p.1 ≡ stored p.0) × ((id : String) × (now : ℕ) × (p.0 ≡ new_task id now a_task)))
create_and_get-stored_example = create_and_get-stored a_task waiting

fail_and_timeout-HasSpent_example :
    Ensures (fail_attempt "a" "no such address" working) (λ _. HasSpent "a" working.db)
    × Ensures (timeout_attempt "a" working) (λ _. HasSpent "a" working.db)
fail_and_timeout-HasSpent_example = fail_and_timeout-HasSpent "a" "no such address" working
