-- ===== src/Queue/Results/Rows.antt =====
-- The row that RunOnce (internal/queue/worker.go) writes of how a handler ended.
use ermine_tq.Prelude.{
  ℕ, zero, suc, String, ◌≡◌, refl, ap, ◌∙◌, Option, some, arith, by_key, first_where,
  first-update_key, first-update_where, update_where,
}
use ermine_tq.Store.Models.{Attempt, AttemptStatus}
use ermine_tq.Store.Db.{Db, Env, World}
use ermine_tq.Store.Statements.{attempt_key}
use ermine_tq.Store.Attempts.{
  set_succeeded, set_failed, succeed_tx, end_failed, succeed_attempt, fail_attempt, heartbeat_tx,
  update_heartbeat,
}
use ermine_tq.Store.Runs.{
  Ensures, Runs-bind, Runs-return, Runs-time, Runs-query, Runs-or_fail, Runs-exec, Runs-load,
  Runs-release, Runs-event,
}
use ermine_tq.Store.Runs.Writes.{Runs-emit, write_then-Ensures, write-keeps}
use ermine_tq.Store.Refinement.Endings.{spend_retry-moves}
use ermine_tq.Queue.Registry.{Dispatched, result, failure}
use ermine_tq.Queue.RunOnce.{keep_alive}

-- The row of an attempt at a task.
pub record HasRow (id task_id : String) (d : Db) : Type 0 where
  pub attempt : Attempt
  pub held : first_where (by_key attempt_key id) d.attempts ≡ some attempt
  pub at_task : attempt.task_id ≡ task_id

-- The row tells how the handler ended.
abbrev pub Tells : Dispatched → Attempt → Type 0
Tells (result r) a = (a.status ≡ AttemptStatus.succeeded) × (a.result ≡ r)
Tells (failure message) a = (a.status ≡ AttemptStatus.failed) × (a.error ≡ some message)

pub record HasOutcome (id task_id : String) (outcome : Dispatched) (d : Db) : Type 0 where
  pub attempt : Attempt
  pub held : first_where (by_key attempt_key id) d.attempts ≡ some attempt
  pub at_task : attempt.task_id ≡ task_id
  pub told : Tells outcome attempt

module _ ⦃env : Env⦄ where
  beat-HasRow :
      (id task_id : String) (w : World)
      → HasRow id task_id w.db
      → HasRow id task_id (update_heartbeat id w).1.db
  unfolding update_heartbeat heartbeat_tx
  beat-HasRow id task_id w h =
      write-keeps _ (HasRow id task_id) w
        (Runs-bind (
          Runs-time λ now. Runs-exec _ record {
            attempt = _;
            held = first-update_where attempt_key _ id _ (λ r. refl) w.db.attempts h.attempt h.held;
            at_task = ground (arith, h.at_task);
          }))
        h

  pub keep_alive-HasRow :
      (id task_id : String) (n : ℕ) (w : World)
      → HasRow id task_id w.db
      → HasRow id task_id (keep_alive id n w).db
  unfolding keep_alive
  keep_alive-HasRow id task_id zero w h = h
  keep_alive-HasRow id task_id (suc n) w h =
      keep_alive-HasRow id task_id n _ (beat-HasRow id task_id w h)

  -- The write of the row that ends the attempt.
  update-HasOutcome :
      {id task_id : String} {d d' : Db} (o : Dispatched) (f : Attempt → Attempt)
      → ((a : Attempt) → (f a).id ≡ a.id)
      → ((a : Attempt) → (f a).task_id ≡ a.task_id)
      → ((a : Attempt) → Tells o (f a))
      → HasRow id task_id d
      → d'.attempts ≡ update_where (by_key attempt_key id) f d.attempts
      → HasOutcome id task_id o d'
  update-HasOutcome {id} {d} o f same_id same_task told h e = record {
    attempt = f h.attempt;
    held =
        ap (first_where (by_key attempt_key id)) e
        ∙ first-update_key attempt_key id f same_id d.attempts h.attempt h.held;
    at_task = same_task h.attempt ∙ h.at_task;
    told = told h.attempt;
  }

  pub succeed-HasOutcome :
      (id task_id : String) (r : Option String) (w : World)
      → HasRow id task_id w.db
      → Ensures (succeed_attempt id r w) (λ _. HasOutcome id task_id (result r))
  unfolding succeed_attempt succeed_tx set_succeeded
  succeed-HasOutcome id task_id r w h = write_then-Ensures _ _ _ w (
      Runs-bind (
        Runs-time λ k. Runs-bind (
          Runs-load id λ a found live. Runs-bind (
            Runs-exec _ (
              Runs-bind (
                Runs-exec _ (
                  Runs-bind (
                    Runs-release _ (
                      Runs-bind (
                        Runs-event _ _ _ _ λ e. Runs-return (
                          Runs-emit _ _ (
                            update-HasOutcome (result r) (set_succeeded r _) (λ _. refl) (λ _. refl)
                              (λ _. (refl, refl)) h refl))))))))))))

  pub fail-HasOutcome :
      (id task_id message : String) (w : World)
      → HasRow id task_id w.db
      → Ensures (fail_attempt id message w) (λ _. HasOutcome id task_id (failure message))
  unfolding fail_attempt end_failed set_failed
  fail-HasOutcome id task_id message w h = write_then-Ensures _ _ _ w (
      Runs-bind (
        Runs-time λ now. Runs-bind (
          Runs-load id λ a found live. Runs-bind (
            Runs-query _ (
              Runs-bind (
                Runs-or_fail _ _ λ t held. Runs-bind (
                  Runs-exec _ (
                    Runs-bind (
                      spend_retry-moves id message a.task_id _ t _ _ held
                        λ event detail g moves spends. Runs-bind (
                          Runs-release _ (
                            Runs-bind (
                              Runs-event _ _ _ _ λ e. Runs-return (
                                Runs-emit _ _ (
                                  update-HasOutcome (failure message) (set_failed message _)
                                    (λ _. refl) (λ _. refl) (λ _. (refl, refl)) h refl))))))))))))))
