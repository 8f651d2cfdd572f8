-- ===== src/Store/Invariant/Keys.antt =====
-- The primary keys of tasks and attempts.
use ermine_tq.Prelude.{IsUnique, IsUnique-update, IsUnique-append, refl}
use ermine_tq.Config.{Config}
use ermine_tq.Store.Db.{Db}
use ermine_tq.Store.Statements.{task_key, attempt_key}
use ermine_tq.Store.Claim.{set_running}
use ermine_tq.Store.Maintenance.{set_requeued}
use ermine_tq.Store.Steps.{
  Step, create, claim, end, control, replace, requeue, beat, register, schedule,
}

module _ {cfg : Config} {d : Db} where
  pub Step-tasks-IsUnique :
      {d' : Db} → Step cfg d d' → IsUnique task_key d.tasks → IsUnique task_key d'.tasks
  unfolding set_running set_requeued
  Step-tasks-IsUnique (create t e fresh q none_yet) u = IsUnique-append task_key _ _ u fresh
  Step-tasks-IsUnique (claim t id worker_id now e held q room fresh) u =
      IsUnique-update task_key _ _ (λ r. refl) _ u
  Step-tasks-IsUnique (end id a f g e held live over moves spends) u =
      IsUnique-update task_key _ g moves.same_id _ u
  Step-tasks-IsUnique (control id t g e held moves spends) u =
      IsUnique-update task_key _ g moves.same_id _ u
  Step-tasks-IsUnique (replace id t g new e held moves fresh q none_yet spends) u =
      IsUnique-append task_key _ _ (IsUnique-update task_key _ g moves.same_id _ u) fresh
  Step-tasks-IsUnique (requeue now) u = IsUnique-update task_key _ _ (λ r. refl) _ u
  Step-tasks-IsUnique (beat id now) u = u
  Step-tasks-IsUnique (register w fresh named unused zero rests room) u = u
  Step-tasks-IsUnique (schedule ss) u = u

  pub Step-attempts-IsUnique :
      {d' : Db} → Step cfg d d' → IsUnique attempt_key d.attempts → IsUnique attempt_key d'.attempts
  Step-attempts-IsUnique (create t e fresh q none_yet) u = u
  Step-attempts-IsUnique (claim t id worker_id now e held q room fresh) u =
      IsUnique-append attempt_key _ _ u fresh
  Step-attempts-IsUnique (end id a f g e held live over moves spends) u =
      IsUnique-update attempt_key _ f over.same_id _ u
  Step-attempts-IsUnique (control id t g e held moves spends) u = u
  Step-attempts-IsUnique (replace id t g new e held moves fresh q none_yet spends) u = u
  Step-attempts-IsUnique (requeue now) u = u
  Step-attempts-IsUnique (beat id now) u = IsUnique-update attempt_key _ _ (λ r. refl) _ u
  Step-attempts-IsUnique (register w fresh named unused zero rests room) u = u
  Step-attempts-IsUnique (schedule ss) u = u
