-- ===== src/Store/Runs/Writes.antt =====
-- What holds after a write (write of internal/store/store.go) whose body is reasoned about.
use ermine_tq.Prelude.{
  ℕ, String, Bool, true, false, ◌≡◌, refl, sym, subst, ◌∙◌, Option, none, some, Bool-cases, inl,
  inr, arith, if◌then◌else◌,
}
use ermine_tq.Store.Models.{TaskEventType}
use ermine_tq.Store.Db.{
  Db, Env, World, Reply, ok, err, Error, M, and_then, ◌>>=◌, return, fail, or_fail, time_now,
  with_ties, statement, query, settle, exec_tx, Delivery, answered, abandoned, cancelled, refused,
  deliver, write, emit,
}
use ermine_tq.Store.Runs.{Ensures, Runs, and_then-Ensures}

module _ ⦃env : Env⦄ where
  settle-Ensures {ℓ κ} :
      {A : Type ℓ} (before : Db) (r : Reply A × World) (Q : A → Db → Type κ)
      → Ensures r Q
      → Ensures (settle before r) Q
  unfolding settle
  settle-Ensures before (ok a, w) Q h = elim (Bool-cases (env.fault w.statements)) [
    | inl b ↦ rw b tt
    | inr b ↦ rw b h
  ]
  settle-Ensures before (err e, w) Q h = tt

  settle-keeps {ℓ κ} :
      {A : Type ℓ} (P : Db → Type κ) (before : Db) (r : Reply A × World)
      → Ensures r (λ a d. P d)
      → P before
      → P (settle before r).1.db
  unfolding settle
  settle-keeps P before (ok a, w) h p = elim (Bool-cases (env.fault w.statements)) [
    | inl b ↦ rw b p
    | inr b ↦ rw b h
  ]
  settle-keeps P before (err e, w) h p = p

  module _ {ℓ κ} {A : Type ℓ} (body : M A) where
    exec_tx-Ensures :
        (Q : A → Db → Type κ) (w : World) → Runs w.db body Q → Ensures (exec_tx body w) Q
    unfolding exec_tx
    exec_tx-Ensures Q w h = elim (Bool-cases (env.fault w.statements)) [
      | inl b ↦ rw b tt
      | inr b ↦ rw b (settle-Ensures _ _ Q (h.at _ refl))
    ]

    exec_tx-keeps :
        (P : Db → Type κ) (w : World)
        → Runs w.db body (λ a d. P d)
        → P w.db
        → P (exec_tx body w).1.db
    unfolding exec_tx
    exec_tx-keeps P w h p = elim (Bool-cases (env.fault w.statements)) [
      | inl b ↦ rw b p
      | inr b ↦ rw b (settle-keeps P _ _ (h.at _ refl) p)
    ]

    deliver-Ensures :
        (c : Delivery) (Q : A → Db → Type κ) (w : World)
        → Runs w.db body Q
        → Ensures (deliver c body w) Q
    unfolding deliver
    deliver-Ensures answered Q w h = exec_tx-Ensures Q w h
    deliver-Ensures abandoned Q w h = tt
    deliver-Ensures cancelled Q w h = tt
    deliver-Ensures refused Q w h = tt

    deliver-keeps :
        (c : Delivery) (P : Db → Type κ) (w : World)
        → Runs w.db body (λ a d. P d)
        → P w.db
        → P (deliver c body w).1.db
    unfolding deliver
    deliver-keeps answered P w h p = exec_tx-keeps P w h p
    deliver-keeps abandoned P w h p = exec_tx-keeps P w h p
    deliver-keeps cancelled P w h p = p
    deliver-keeps refused P w h p = p

    -- A write that succeeds has committed what its body ensures.
    pub write-Ensures :
        (Q : A → Db → Type κ) (w : World) → Runs w.db body Q → Ensures (write body w) Q
    unfolding write
    write-Ensures Q w h = deliver-Ensures (env.delivery w.writes) Q _ h

    -- Whatever becomes of a write, a property of the database that its body keeps is kept.
    pub write-keeps :
        (P : Db → Type κ) (w : World) → Runs w.db body (λ a d. P d) → P w.db → P (write body w).1.db
    unfolding write
    write-keeps P w h p = deliver-keeps (env.delivery w.writes) P _ h p

-- What leaves the database alone.
pub record IsQuiet {ℓ} {A : Type ℓ} (m : M A) : Type 0 where
  pub same_db : (w : World) → (m w).1.db ≡ w.db

and_then-quiet {ℓ κ} :
    {A : Type ℓ} {B : Type κ} (r : Reply A × World) (f : A → M B)
    → ((a : A) → IsQuiet (f a))
    → (and_then r f).1.db ≡ r.1.db
unfolding and_then
and_then-quiet (ok a, w) f q = (q a).same_db w
and_then-quiet (err e, w) f q = refl

pub IsQuiet-return {ℓ} : {A : Type ℓ} (a : A) → IsQuiet (return a)
IsQuiet-return a = record { same_db = λ w. refl }

pub IsQuiet-fail {ℓ} : {A : Type ℓ} (e : Error) → IsQuiet (fail {A = A} e)
IsQuiet-fail e = record { same_db = λ w. refl }

pub IsQuiet-or_fail {ℓ} : {A : Type ℓ} (o : Option A) (e : Error) → IsQuiet (or_fail o e)
IsQuiet-or_fail none e = record { same_db = λ w. refl }
IsQuiet-or_fail (some a) e = record { same_db = λ w. refl }

pub IsQuiet-if {ℓ} :
    {A : Type ℓ} (b : Bool) {m n : M A} → IsQuiet m → IsQuiet n → IsQuiet (if b then m else n)
IsQuiet-if true h k = h
IsQuiet-if false h k = k

pub IsQuiet-bind {ℓ κ} :
    {A : Type ℓ} {B : Type κ} {m : M A} {f : A → M B}
    → IsQuiet m
    → ((a : A) → IsQuiet (f a))
    → IsQuiet (m >>= f)
IsQuiet-bind {m} {f} h q = record { same_db = λ w. and_then-quiet (m w) f q ∙ h.same_db w }

module _ ⦃env : Env⦄ where
  pub Runs-emit {κ} :
      {d : Db} (id : String) (event : TaskEventType) {Q : Unit {0} → Db → Type κ}
      → Q tt d
      → Runs d (emit id event) Q
  unfolding emit and_then time_now
  Runs-emit {d} id event {Q} q = record {
    at = λ w e. elim (Bool-cases w.attached) [
      | inl b ↦ rw b (subst (Q tt) (sym e) q)
      | inr b ↦ rw b (subst (Q tt) (sym e) q)
    ];
  }

  pub IsQuiet-emit : (id : String) (event : TaskEventType) → IsQuiet (emit id event)
  unfolding emit and_then
  IsQuiet-emit id event = record { same_db = λ w. ground arith }

  pub IsQuiet-query {ℓ} : {A : Type ℓ} (f : Db → A) → IsQuiet (query f)
  unfolding statement
  IsQuiet-query f = record {
    same_db = λ w. elim (Bool-cases (env.fault w.statements)) [
      | inl b ↦ rw (b, statement)
      | inr b ↦ rw (b, statement)
    ];
  }

  pub IsQuiet-ties {ℓ} :
      {A : Type ℓ} {f : (String → ℕ) → M A}
      → ((tie : String → ℕ) → IsQuiet (f tie))
      → IsQuiet (with_ties f)
  unfolding with_ties
  IsQuiet-ties h = record { same_db = λ w. (h (env.tie w.statements)).same_db w }

  -- What a write and what follows it ensure.
  pub write_then-Ensures {ℓ κ ι} :
      {A : Type ℓ} {B : Type κ} (Q : B → Db → Type ι) (body : M A) (f : A → M B) (w : World)
      → Runs w.db body (λ a d. Runs d (f a) Q)
      → Ensures ((write body >>= f) w) Q
  write_then-Ensures Q body f w h = and_then-Ensures (write body w) f Q (write-Ensures body _ w h)

  -- A property that the body keeps, through a write and what follows it.
  pub write_then-keeps {ℓ κ ι} :
      {A : Type ℓ} {B : Type κ} (P : Db → Type ι) (body : M A) (f : A → M B) (w : World)
      → Runs w.db body (λ a d. P d)
      → P w.db
      → ((a : A) → IsQuiet (f a))
      → P ((write body >>= f) w).1.db
  write_then-keeps P body f w h p q =
      subst P (sym (and_then-quiet (write body w) f q)) (write-keeps body P w h p)
