-- ===== src/Store/Invariant/Limits.antt =====
-- The running tasks and the execution limits of the configuration.
use ermine_tq.Prelude.{
  ℕ, ◌+◌, ◌≤◌, ◌≡◌, refl, ap, [], ◌∷◌, ◌++◌, update_where, by_key, subst, String, Bool, true, false,
  ◌&&◌, ◌⊎◌, inl, inr, List, IsUnique, count_where, count-append_one, count-update-le,
  count-update_key, eq_iff, ℤ, pos, ◌≤ℤ◌, ltb_ℤ, leb_ℤ, to_ℕ, arith,
}
use ermine_tq.Config.{Config, queue_limit, task_type_limit}
use ermine_tq.Store.Models.{Task, TaskStatus, status_eq}
use ermine_tq.Store.Db.{Db}
use ermine_tq.Store.Statements.{task_key, is_running, stored}
use ermine_tq.Store.Claim.{runs_in, runs_as, set_running}
use ermine_tq.Store.Maintenance.{set_requeued}
use ermine_tq.Store.Steps.{
  Step, HasRoom, at_limit, create, claim, end, control, replace, requeue, beat, register, schedule,
}

pub record IsWithinLimits (cfg : Config) (ts : List Task) : Type 0 where
  pub globally : pos (count_where is_running ts) ≤ℤ cfg.limits.global
  pub in_queue :
      (q : String)
      → ltb_ℤ (pos 0) (queue_limit cfg q) ≡ true
      → pos (count_where (runs_in q) ts) ≤ℤ queue_limit cfg q
  pub in_type :
      (s : String)
      → ltb_ℤ (pos 0) (task_type_limit cfg s) ≡ true
      → pos (count_where (runs_as s) ts) ≤ℤ task_type_limit cfg s

-- A count of running tasks grows by a claim alone, and then by the task that is claimed.
abbrev Grows : (Task → Bool) → Config → List Task → List Task → Type 0
Grows p cfg ts us =
    (count_where p us ≤ count_where p ts)
    ⊎ ((t : Task) × (now : ℕ) × HasRoom cfg ts t
        × (count_where p us ≡ count_where p ts + to_ℕ (p (set_running now t))))

module _ (p : Task → Bool) (idle_out : (t : Task) → is_running t ≡ false → p t ≡ false) where
  queued_out : (t : Task) → t.status ≡ TaskStatus.queued → p t ≡ false
  unfolding status_eq
  queued_out t e = idle_out t (ap (λ s. status_eq s TaskStatus.running) e)

  added-le :
      (ts : List Task) (t : Task)
      → t.status ≡ TaskStatus.queued
      → count_where p (ts ++ stored t ∷ []) ≤ count_where p ts
  added-le ts t e =
      omega (arith, count-append_one p ts (stored t), ap to_ℕ (queued_out (stored t) e))

  Step-Grows :
      {cfg : Config} {d d' : Db}
      → Step cfg d d'
      → IsUnique task_key d.tasks
      → Grows p cfg d.tasks d'.tasks
  unfolding set_requeued status_eq
  Step-Grows (create t e fresh q none_yet) u = inl (added-le _ t q)
  Step-Grows {d} (claim t id worker_id now e held q room fresh) u = inr (
    t,
    now,
    room,
    omega (
      arith,
      count-update_key task_key p t.id (set_running now) d.tasks t u held,
      ap to_ℕ (queued_out t q),
    ),
  )
  Step-Grows (end id a f g e held live over moves spends) u =
      inl (count-update-le p _ g (λ r _. idle_out (g r) (moves.rests r)) _)
  Step-Grows (control id t g e held moves spends) u =
      inl (count-update-le p _ g (λ r _. idle_out (g r) (moves.rests r)) _)
  Step-Grows {d} (replace id t g new e held moves fresh q none_yet spends) u = inl (
      omega (
        arith,
        added-le (update_where (by_key task_key id) g d.tasks) new q,
        count-update-le p (by_key task_key id) g (λ r _. idle_out (g r) (moves.rests r)) d.tasks,
      ))
  Step-Grows (requeue now) u = inl (count-update-le p _ _ (λ r _. idle_out _ refl) _)
  Step-Grows (beat id now) u = inl (omega arith)
  Step-Grows (register w fresh named unused zero rests room) u = inl (omega arith)
  Step-Grows (schedule ss) u = inl (omega arith)

room_below :
    (limit : ℤ) (n : ℕ)
    → ltb_ℤ (pos 0) limit ≡ true
    → at_limit limit n ≡ false
    → leb_ℤ limit (pos n) ≡ false
room_below limit n h k = ground arith

second_part : (a b : Bool) → (a && b) ≡ true → b ≡ true
second_part true b h = h
second_part false b h = cc

-- A count that stays, falls, or grows by one below its limit.
within_grown :
    (limit : ℤ) (n n' : ℕ) (b : Bool)
    → pos n ≤ℤ limit
    → n' ≡ n + to_ℕ b
    → (b ≡ true → leb_ℤ limit (pos n) ≡ false)
    → pos n' ≤ℤ limit
within_grown limit n n' true h e k = ground (arith, k refl)
within_grown limit n n' false h e k = omega arith

runs_in_out : (q : String) (t : Task) → is_running t ≡ false → runs_in q t ≡ false
runs_in_out q t e = ground arith

runs_as_out : (s : String) (t : Task) → is_running t ≡ false → runs_as s t ≡ false
runs_as_out s t e = ground arith

-- No step takes the running tasks past a limit.
module _ {cfg : Config} {d d' : Db} (s : Step cfg d d') (u : IsUnique task_key d.tasks)
    (h : IsWithinLimits cfg d.tasks) where
  within_globally : pos (count_where is_running d'.tasks) ≤ℤ cfg.limits.global
  within_globally = elim (Step-Grows is_running (λ t e. e) s u) [
    | inl le ↦ omega (arith, h.globally)
    | inr (t, now, room, e) ↦ within_grown _ _ _ _ h.globally e (λ _. room.globally)
  ]

  within_queue :
      (q : String)
      → ltb_ℤ (pos 0) (queue_limit cfg q) ≡ true
      → pos (count_where (runs_in q) d'.tasks) ≤ℤ queue_limit cfg q
  unfolding set_running
  within_queue q lim = elim (Step-Grows (runs_in q) (runs_in_out q) s u) [
    | inl le ↦ omega (arith, h.in_queue q lim)
    | inr (t, now, room, e) ↦ within_grown _ _ _ _ (h.in_queue q lim) e (λ b. room_below _ _ lim (
        subst (λ x. at_limit (queue_limit cfg x) (count_where (runs_in x) d.tasks) ≡ false)
          ((eq_iff t.queue q).0 (second_part _ _ b)) room.in_queue))
  ]

  within_type :
      (x : String)
      → ltb_ℤ (pos 0) (task_type_limit cfg x) ≡ true
      → pos (count_where (runs_as x) d'.tasks) ≤ℤ task_type_limit cfg x
  unfolding set_running
  within_type x lim = elim (Step-Grows (runs_as x) (runs_as_out x) s u) [
    | inl le ↦ omega (arith, h.in_type x lim)
    | inr (t, now, room, e) ↦ within_grown _ _ _ _ (h.in_type x lim) e (λ b. room_below _ _ lim (
        subst (λ y. at_limit (task_type_limit cfg y) (count_where (runs_as y) d.tasks) ≡ false)
          ((eq_iff t.type x).0 (second_part _ _ b)) room.in_type))
  ]

  pub Step-IsWithinLimits : IsWithinLimits cfg d'.tasks
  Step-IsWithinLimits = record {
    globally = within_globally;
    in_queue = within_queue;
    in_type = within_type;
  }
