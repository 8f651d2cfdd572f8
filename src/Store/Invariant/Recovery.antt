-- ===== src/Store/Invariant/Recovery.antt =====
-- Running tasks and their attempts, and the finishing times of attempts.
use ermine_tq.Prelude.{
  ◌<◌, ◌≡◌, refl, ap, sym, String, Bool, true, false, ◌&&◌, some, List, [], ◌∷◌, ◌++◌, All,
  All-append, All-update, All-map, IsUnique, by_key, first_where, update_where, count_where,
  count-append_one, count-update_key, count-update_same, str_eq, eq_iff, to_ℕ, arith,
}
use ermine_tq.Config.{Config}
use ermine_tq.Store.Models.{Task, TaskStatus, Attempt, status_eq, attempt_status_eq}
use ermine_tq.Store.Db.{Db}
use ermine_tq.Store.Statements.{task_key, attempt_key, is_running, is_live, is_none, stored}
use ermine_tq.Store.Claim.{set_running}
use ermine_tq.Store.Maintenance.{set_requeued}
use ermine_tq.Store.Steps.{
  Step, IsEnd, IsMove, create, claim, end, control, replace, requeue, beat, register, schedule,
}

-- task_id = ? AND status = 'running'
abbrev pub runs_task : String → Attempt → Bool
runs_task id a = is_live a && str_eq a.task_id id

-- If the task is running, an attempt at it is.
abbrev pub IsAttended : List Attempt → Task → Type 0
IsAttended rows t = is_running t ≡ true → 0 < count_where (runs_task t.id) rows

-- A task that does not run asks for nothing.
resting : (rows : List Attempt) (t : Task) → is_running t ≡ false → IsAttended rows t
resting rows t e h = cc

queued_rests : (t : Task) → t.status ≡ TaskStatus.queued → is_running t ≡ false
unfolding status_eq
queued_rests t e = ap (λ s. status_eq s TaskStatus.running) e

-- The attempts at other tasks are as many after the end of one.
ended-IsAttended :
    (rows : List Attempt) (id : String) (a : Attempt) (f : Attempt → Attempt) (t : Task)
    → IsUnique attempt_key rows
    → first_where (by_key attempt_key id) rows ≡ some a
    → IsEnd f
    → by_key task_key a.task_id t ≡ false
    → IsAttended rows t
    → IsAttended (update_where (by_key attempt_key id) f rows) t
ended-IsAttended rows id a f t u held over other h running = omega (
  arith,
  h running,
  count-update_key attempt_key (runs_task t.id) id f rows a u held,
  ap to_ℕ before,
)
  where
    before : runs_task t.id a ≡ false
    before = ground (arith, eq_iff a.task_id t.id, eq_iff t.id a.task_id)

claimed-IsAttended :
    (rows : List Attempt) (a : Attempt) (t : Task)
    → IsAttended rows t
    → IsAttended (rows ++ a ∷ []) t
claimed-IsAttended rows a t h running =
    omega (arith, h running, count-append_one (runs_task t.id) rows a)

claimed-IsAttended_self :
    (rows : List Attempt) (a : Attempt) (t : Task)
    → is_live a ≡ true
    → a.task_id ≡ t.id
    → IsAttended (rows ++ a ∷ []) t
claimed-IsAttended_self rows a t live same running =
    omega (arith, count-append_one (runs_task t.id) rows a, ap to_ℕ counted)
  where
    counted : runs_task t.id a ≡ true
    counted = ground (arith, eq_iff a.task_id t.id)

moved-IsAttended :
    (rows : List Attempt) (id : String) (g : Task → Task) (ts : List Task)
    → IsMove g
    → All (IsAttended rows) ts
    → All (IsAttended rows) (update_where (by_key task_key id) g ts)
moved-IsAttended rows id g ts moves =
    All-update _ _ _ g (λ t k p. resting rows (g t) (moves.rests t)) (λ t k p. k) ts

-- Every step keeps each running task attended.
pub Step-IsAttended :
    {cfg : Config} {d d' : Db}
    → Step cfg d d'
    → IsUnique attempt_key d.attempts
    → All (IsAttended d.attempts) d.tasks
    → All (IsAttended d'.attempts) d'.tasks
unfolding attempt_status_eq set_running set_requeued status_eq
Step-IsAttended {d} (create t e fresh q none_yet) u h =
    All-append _ _ _ h (resting d.attempts (stored t) (queued_rests (stored t) q), tt)
Step-IsAttended {d} (claim t id worker_id now e held q room fresh) u h =
    All-update _ _ _ _
      (λ r k p.
        claimed-IsAttended_self d.attempts _ (set_running now r) refl
          (sym ((eq_iff r.id t.id).0 p)))
      (λ r k p. claimed-IsAttended d.attempts _ r k) _ h
Step-IsAttended {d} (end id a f g e held live over moves spends) u h =
    All-update _ _ _ g (λ t k p. resting _ (g t) (moves.rests t))
      (λ t k p. ended-IsAttended d.attempts id a f t u held over p k) _ h
Step-IsAttended {d} (control id t g e held moves spends) u h =
    moved-IsAttended d.attempts id g _ moves h
Step-IsAttended {d} (replace id t g new e held moves fresh q none_yet spends) u h =
    All-append _ _ _ (moved-IsAttended d.attempts id g _ moves h)
      (resting d.attempts (stored new) (queued_rests (stored new) q), tt)
Step-IsAttended {d} (requeue now) u h =
    All-update _ _ _ _ (λ t k p. resting d.attempts (set_requeued now t) refl) (λ t k p. k) _ h
Step-IsAttended {d} (beat id now) u h =
    All-map _ _
      (λ t k running. omega (
        arith,
        k running,
        count-update_same (runs_task t.id) (λ a. by_key attempt_key id a && is_live a)
            (λ a. record a { heartbeat_at = some now }) (λ a p. refl) d.attempts,
      ))
      _ h
Step-IsAttended (register w fresh named unused zero rests room) u h = h
Step-IsAttended (schedule ss) u h = h

-- An attempt has a finishing time exactly if it does not run.
abbrev pub IsDated : Attempt → Type 0
IsDated a = is_none a.finished_at ≡ is_live a

pub Step-IsDated :
    {cfg : Config} {d d' : Db} → Step cfg d d' → All IsDated d.attempts → All IsDated d'.attempts
unfolding attempt_status_eq
Step-IsDated (create t e fresh q none_yet) h = h
Step-IsDated (claim t id worker_id now e held q room fresh) h = All-append _ _ _ h (refl, tt)
Step-IsDated (end id a f g e held live over moves spends) h =
    All-update _ _ _ f (λ r k p. ground (arith, over.over r, over.dated r)) (λ r k p. k) _ h
Step-IsDated (control id t g e held moves spends) h = h
Step-IsDated (replace id t g new e held moves fresh q none_yet spends) h = h
Step-IsDated (requeue now) h = h
Step-IsDated (beat id now) h = All-update _ _ _ _ (λ r k p. k) (λ r k p. k) _ h
Step-IsDated (register w fresh named unused zero rests room) h = h
Step-IsDated (schedule ss) h = h
