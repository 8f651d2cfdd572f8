-- ===== src/Store/Maintenance/Requeue.antt =====
-- The due retries (RequeueRetrying in internal/store/maintenance.go).
use ermine_tq.Prelude.{
  ℕ, ◌+◌, Bool, ◌≡◌, refl, List, [], ◌∷◌, arith, count_where, update_where, ◌&&◌, leb,
}
use ermine_tq.Store.Models.{Task, TaskStatus, status_eq}
use ermine_tq.Store.Db.{Env, World}
use ermine_tq.Store.Runs.{Ensures, Runs-bind, Runs-time, Runs-total}
use ermine_tq.Store.Runs.Writes.{write-Ensures}
use ermine_tq.Store.Refinement.Claims.{IsReading}
use ermine_tq.Store.Maintenance.{is_due, set_requeued, requeue_tx, requeue_retrying}

abbrev pub is_queued : Task → Bool
is_queued t = status_eq t.status TaskStatus.queued

abbrev pub is_retrying : Task → Bool
is_retrying t = status_eq t.status TaskStatus.retrying

-- The rows of before against those of after, for a number of moved tasks.
pub record IsRequeued (now n : ℕ) (ts us : List Task) : Type 0 where
  pub counted : n ≡ count_where (λ t. is_retrying t && leb t.run_at now) ts
  pub none_left : count_where (λ t. is_retrying t && leb t.run_at now) us ≡ 0
  pub more_queued : count_where is_queued us ≡ count_where is_queued ts + n
  pub fewer_retrying : count_where is_retrying us + n ≡ count_where is_retrying ts

update-IsRequeued :
    (now : ℕ) (ts : List Task)
    → IsRequeued now
        (count_where (is_due now) ts)
        ts
        (update_where (is_due now) (set_requeued now) ts)
unfolding count_where update_where is_due set_requeued status_eq
update-IsRequeued now [] = record {
  counted = refl;
  none_left = refl;
  more_queued = refl;
  fewer_retrying = refl;
}
update-IsRequeued now (t ∷ ts) =
    let h = update-IsRequeued now ts in
    record {
      counted = ground (arith, h.counted);
      none_left = ground (arith, h.none_left);
      more_queued = ground (arith, h.more_queued);
      fewer_retrying = ground (arith, h.fewer_retrying);
    }

module _ ⦃env : Env⦄ where
  -- If RequeueRetrying returns a number, then at a reading of the clock as many tasks were retrying with a
  -- due run_at, no task is so any more, and the queued tasks are more by that number and
  -- the retrying ones fewer.
  pub requeue_retrying-IsRequeued :
      (w : World)
      → Ensures
          (requeue_retrying w)
          (λ n d. (now : ℕ) × (IsReading env now × IsRequeued now n w.db.tasks d.tasks))
  unfolding requeue_retrying requeue_tx
  requeue_retrying-IsRequeued w =
      write-Ensures _ _ w
        (Runs-bind (Runs-time λ k. Runs-total _ (_, ((k, refl), update-IsRequeued _ w.db.tasks))))
