-- ===== src/Store/Invariant/Numbers.antt =====
-- The numbers of the attempts at a task.
use ermine_tq.Prelude.{
  ◌≤◌, ◌<◌, ◌≡◌, refl, sym, subst, String, Bool, true, List, [], ◌∷◌, ◌++◌, All, All-append,
  All-update, All-map, update_where, str_eq, eq_iff, arith, Bool-cases, inl, inr,
}
use ermine_tq.Config.{Config}
use ermine_tq.Store.Models.{Attempt}
use ermine_tq.Store.Db.{Db}
use ermine_tq.Store.Claim.{max_attempt_num}
use ermine_tq.Store.Steps.{
  Step, create, claim, end, control, replace, requeue, beat, register, schedule,
}

-- The later attempt, if it is at the same task, has the greater number.
abbrev Precedes : Attempt → Attempt → Type 0
Precedes a b = str_eq b.task_id a.task_id ≡ true → a.attempt_num < b.attempt_num

abbrev pub IsNumbered : List Attempt → Type 0
IsNumbered [] = Unit
IsNumbered (a ∷ rest) = (0 < a.attempt_num) × All (Precedes a) rest × IsNumbered rest

max_attempt_num-ge :
    (id : String) (rows : List Attempt)
    → All (λ a. str_eq a.task_id id ≡ true → a.attempt_num ≤ max_attempt_num id rows) rows
unfolding max_attempt_num
max_attempt_num-ge id [] = tt
max_attempt_num-ge id (a ∷ rest) = (
  λ e. ground arith,
  All-map _ _ (λ b h e. ground (arith, h e)) rest (max_attempt_num-ge id rest),
)

IsNumbered-append :
    (rows : List Attempt) (b : Attempt)
    → 0 < b.attempt_num
    → All (λ a. str_eq a.task_id b.task_id ≡ true → a.attempt_num < b.attempt_num) rows
    → IsNumbered rows
    → IsNumbered (rows ++ b ∷ [])
IsNumbered-append [] b z k h = (z, tt, tt)
IsNumbered-append (a ∷ rest) b z k h = (
  h.0,
  All-append _ _ _ h.1
      ((λ e. ground (arith, k.0, eq_iff b.task_id a.task_id, eq_iff a.task_id b.task_id)), tt),
  IsNumbered-append rest b z k.1 h.2,
)

Precedes-same :
    (a b a' b' : Attempt)
    → a'.task_id ≡ a.task_id
    → b'.task_id ≡ b.task_id
    → a'.attempt_num ≡ a.attempt_num
    → b'.attempt_num ≡ b.attempt_num
    → Precedes a b
    → Precedes a' b'
Precedes-same a b a' b' p q m n k e = rw (m, n) (k (rw (p, q) at e))

-- A write that leaves the tasks and the numbers of attempts alone.
module _ (w : Attempt → Bool) (f : Attempt → Attempt)
    (same_task : (a : Attempt) → (f a).task_id ≡ a.task_id)
    (same_num : (a : Attempt) → (f a).attempt_num ≡ a.attempt_num) where
  IsNumbered-update : (rows : List Attempt) → IsNumbered rows → IsNumbered (update_where w f rows)
  unfolding update_where
  IsNumbered-update [] h = tt
  IsNumbered-update (a ∷ rest) h = elim (Bool-cases (w a)) [
    | inl e ↦ rw e (
      subst (λ n. 0 < n) (sym (same_num a)) h.0,
      All-update (Precedes a) (Precedes (f a)) w f
          (λ b k p.
            Precedes-same a b (f a) (f b) (same_task a) (same_task b) (same_num a) (same_num b) k)
          (λ b k p. Precedes-same a b (f a) b (same_task a) refl (same_num a) refl k) rest h.1,
      IsNumbered-update rest h.2,
    )
    | inr e ↦ rw e (
      h.0,
      All-update (Precedes a) (Precedes a) w f
          (λ b k p. Precedes-same a b a (f b) refl (same_task b) refl (same_num b) k) (λ b k p. k)
          rest h.1,
      IsNumbered-update rest h.2,
    )
  ]

-- A new attempt is numbered past the earlier ones at its task, and no write changes a number.
pub Step-IsNumbered :
    {cfg : Config} {d d' : Db} → Step cfg d d' → IsNumbered d.attempts → IsNumbered d'.attempts
Step-IsNumbered (create t e fresh q none_yet) h = h
Step-IsNumbered {d} (claim t id worker_id now e held q room fresh) h =
    IsNumbered-append d.attempts _ (omega arith)
      (All-map _ _ (λ a k p. omega (arith, k p)) _ (max_attempt_num-ge t.id d.attempts)) h
Step-IsNumbered (end id a f g e held live over moves spends) h =
    IsNumbered-update _ f over.same_task over.same_num _ h
Step-IsNumbered (control id t g e held moves spends) h = h
Step-IsNumbered (replace id t g new e held moves fresh q none_yet spends) h = h
Step-IsNumbered (requeue now) h = h
Step-IsNumbered (beat id now) h = IsNumbered-update _ _ (λ a. refl) (λ a. refl) _ h
Step-IsNumbered (register w fresh named unused zero rests room) h = h
Step-IsNumbered (schedule ss) h = h
