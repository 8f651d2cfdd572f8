-- ===== src/Store/Tasks/RoundTrip.antt =====
-- CreateTask, and GetTask of its result (internal/store/tasks.go).
use ermine_tq.Prelude.{ℕ, String, ◌≡◌, refl, some, by_key, first_where, first-append_fresh}
use ermine_tq.Store.Models.{Task}
use ermine_tq.Store.Db.{Db, Env, World, M, and_then, ◌>>=◌, return, time_now, new_id}
use ermine_tq.Store.Statements.{task_key, stored}
use ermine_tq.Store.Runs.{
  Ensures, Runs, and_then-Ensures, Ensures-map, Runs-map, Runs-bind, Runs-return, Runs-query,
  Runs-ties, Runs-or_fail, Runs-insert_task, Runs-event,
}
use ermine_tq.Store.Runs.Writes.{write_then-Ensures, Runs-emit}
use ermine_tq.Store.Tasks.{CreateTaskInput, new_task, create_task_tx, create_task, get_task}

module _ ⦃env : Env⦄ where
  get_task-Runs :
      {d : Db} (id : String) (t : Task)
      → first_where (by_key task_key id) d.tasks ≡ some t
      → Runs d (get_task id) (λ found d'. found.0 ≡ t)
  unfolding get_task
  get_task-Runs id t held = Runs-bind (
      Runs-query _ (
        Runs-bind (
          Runs-or_fail _ _ λ u e. Runs-bind (
            Runs-ties
              λ tie. Runs-query _ (Runs-bind (Runs-ties λ tie'. Runs-query _ (Runs-return cc)))))))

  create_task-Ensures :
      (input : CreateTaskInput) (w : World)
      → Ensures (create_task input w) (λ t d.
        (first_where (by_key task_key t.id) d.tasks ≡ some (stored t))
        × ((id : String) × (now : ℕ) × (t ≡ new_task id now input)))
  unfolding create_task create_task_tx and_then time_now new_id
  create_task-Ensures input w = write_then-Ensures _ _ _ _ (
      Runs-bind (
        Runs-insert_task _ λ fresh. Runs-event _ _ _ _ λ e. Runs-bind (
          Runs-emit _ _
            (Runs-return (first-append_fresh task_key (stored _) _ fresh, (_, _, refl))))))

  abbrev pub create_and_get : CreateTaskInput → M (Task × Task)
  create_and_get input = create_task input >>= λ t. get_task t.id >>= λ found. return (t, found.0)

  -- If a CreateTask and a GetTask of the id of its result both succeed, the first returns the task that
  -- the input describes, queued and with the defaults filled in, and the second returns the same
  -- task with its times as their texts denote them.
  pub create_and_get-stored :
      (input : CreateTaskInput) (w : World)
      → Ensures
          (create_and_get input w)
          (λ p d. (p.1 ≡ stored p.0) × ((id : String) × (now : ℕ) × (p.0 ≡ new_task id now input)))
  create_and_get-stored input w = and_then-Ensures (create_task input w) _ _ (
      Ensures-map (create_task input w) _ _
        (λ t d h.
          Runs-bind (
            Runs-map (λ found d' same. Runs-return (same, h.1))
              (get_task-Runs t.id (stored t) h.0)))
        (create_task-Ensures input w))
