-- ===== src/Store/Invariant/Budgets.antt =====
-- The retries of the tasks along the contract (retry_count and max_retries of internal/store/models.go).
use ermine_tq.Prelude.{
  String, true, ◌≡◌, refl, some, pos, ◌+ℤ◌, leb_ℤ, ltb_ℤ, ◌||◌, arith, List, by_key, first_where,
  update_where, IsUnique, All, All-append, All-update, All-both, All-found, eq_iff,
}
use ermine_tq.Config.{Config}
use ermine_tq.Store.Models.{Task}
use ermine_tq.Store.Db.{Db}
use ermine_tq.Store.Statements.{task_key}
use ermine_tq.Store.Claim.{set_running}
use ermine_tq.Store.Maintenance.{set_requeued}
use ermine_tq.Store.Steps.{
  Step, IsMove, Spends, keeps, resets, counts, create, claim, end, control, replace, requeue, beat,
  register, schedule,
}

-- The count of retries is not negative, and above zero it is at most `max_retries`.
abbrev pub IsInBudget : Task → Type 0
IsInBudget t =
    (leb_ℤ (pos 0) t.retry_count ≡ true)
    × ((leb_ℤ t.retry_count (pos 0) || leb_ℤ t.retry_count t.max_retries) ≡ true)

moved-IsInBudget :
    (ts : List Task) (id : String) (g : Task → Task)
    → IsMove g
    → Spends ts id g
    → IsUnique task_key ts
    → All IsInBudget ts
    → All IsInBudget (update_where (by_key task_key id) g ts)
unfolding ◌+ℤ◌
moved-IsInBudget ts id g moves (keeps same) u h =
    All-update _ _ _ g (λ t k p. rw (same t, moves.same_max t) k) (λ t k p. k) ts h
moved-IsInBudget ts id g moves (resets zero) u h =
    All-update _ _ _ g (λ t k p. rw (zero t) (refl, refl)) (λ t k p. k) ts h
moved-IsInBudget ts id g moves (counts t held left more) u h =
    All-update _ _ _ g (λ r k p. one_more r (found r k.1 p) k.0) (λ r k p. k.0) ts
      (All-both IsInBudget _ ts h (All-found task_key ts u))
  where
    found :
        (r : Task)
        → first_where (by_key task_key r.id) ts ≡ some r
        → by_key task_key id r ≡ true
        → ltb_ℤ r.retry_count r.max_retries ≡ true
    found r self p = ground (arith, held, self, left, eq_iff r.id id)

    one_more :
        (r : Task) → ltb_ℤ r.retry_count r.max_retries ≡ true → IsInBudget r → IsInBudget (g r)
    one_more r below k = rw (more r, moves.same_max r) (ground arith)

-- Every step keeps the tasks within their budgets.
pub Step-IsInBudget :
    {cfg : Config} {d d' : Db}
    → Step cfg d d'
    → IsUnique task_key d.tasks
    → All IsInBudget d.tasks
    → All IsInBudget d'.tasks
unfolding set_running set_requeued
Step-IsInBudget (create t e fresh q none_yet) u h =
    All-append _ _ _ h (rw none_yet (refl, refl), tt)
Step-IsInBudget (claim t id worker_id now e held q room fresh) u h =
    All-update _ _ _ _ (λ r k p. k) (λ r k p. k) _ h
Step-IsInBudget (end id a f g e held live over moves spends) u h =
    moved-IsInBudget _ a.task_id g moves spends u h
Step-IsInBudget (control id t g e held moves spends) u h = moved-IsInBudget _ id g moves spends u h
Step-IsInBudget (replace id t g new e held moves fresh q none_yet spends) u h =
    All-append _ _ _ (moved-IsInBudget _ id g moves spends u h) (rw none_yet (refl, refl), tt)
Step-IsInBudget (requeue now) u h = All-update _ _ _ _ (λ r k p. k) (λ r k p. k) _ h
Step-IsInBudget (beat id now) u h = h
Step-IsInBudget (register w fresh named unused zero rests room) u h = h
Step-IsInBudget (schedule ss) u h = h
