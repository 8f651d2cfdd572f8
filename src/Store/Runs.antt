-- ===== src/Store/Runs.antt =====
-- Reasoning about transaction bodies: what holds of the database when a body succeeds. A body that
-- fails promises nothing here, for `exec_tx` then restores the database.
pub mod Writes
use ermine_tq.Prelude.{
  ℕ, String, Bool, true, false, ◌≡◌, refl, sym, subst, ◌∙◌, Option, none, some, [], ◌∷◌, ◌++◌,
  Bool-cases, Option-cases, inl, inr, arith, str_eq, if◌then◌else◌, by_key, IsFresh, first_where,
}
use ermine_tq.Store.Models.{Task, Attempt, TaskEventType, Detail, TaskStatus}
use ermine_tq.Store.Db.{
  Db, Env, World, Reply, ok, err, Error, M, and_then, ◌>>=◌, return, fail, or_fail, time_now,
  new_id, with_ties, statement, query, exec, insert, settle, exec_tx, Delivery, answered, abandoned,
  cancelled, refused, deliver, write, emit,
}
use ermine_tq.Store.Statements.{
  task_key, attempt_key, is_live, or_empty, load_running_attempt, task_status_tx, read_task_tx,
  release_worker, released, stored, new_event, insert_task, insert_task_event,
}

abbrev pub Ensures {ℓ κ} : {A : Type ℓ} → Reply A × World → (A → Db → Type κ) → Type κ
Ensures (ok a, w) Q = Q a w.db
Ensures (err e, w) Q = Unit

-- Whenever `m` runs on the database `d` and succeeds, its result and the new database satisfy `Q`.
pub record Runs {ℓ κ} {A : Type ℓ} (d : Db) (m : M A) (Q : A → Db → Type κ) : Type κ where
  pub at : (w : World) → w.db ≡ d → Ensures (m w) Q

pub and_then-Ensures {ℓ κ ι} :
    {A : Type ℓ} {B : Type κ} (r : Reply A × World) (f : A → M B) (Q : B → Db → Type ι)
    → Ensures r (λ a d. Runs d (f a) Q)
    → Ensures (and_then r f) Q
unfolding and_then
and_then-Ensures (ok a, w) f Q h = h.at w refl
and_then-Ensures (err e, w) f Q h = tt

-- A bind, from what its first part ensures.
pub Runs-bind {ℓ κ ι} :
    {A : Type ℓ} {B : Type κ} {d : Db} {m : M A} {f : A → M B} {Q : B → Db → Type ι}
    → Runs d m (λ a d'. Runs d' (f a) Q)
    → Runs d (m >>= f) Q
Runs-bind {m} {f} {Q} h = record { at = λ w e. and_then-Ensures (m w) f Q (h.at w e) }

pub Ensures-map {ℓ κ ι} :
    {A : Type ℓ} (r : Reply A × World) (P : A → Db → Type κ) (Q : A → Db → Type ι)
    → ((a : A) (d : Db) → P a d → Q a d)
    → Ensures r P
    → Ensures r Q
Ensures-map (ok a, w) P Q f h = f a w.db h
Ensures-map (err e, w) P Q f h = tt

pub Runs-map {ℓ κ ι} :
    {A : Type ℓ} {d : Db} {m : M A} {P : A → Db → Type κ} {Q : A → Db → Type ι}
    → ((a : A) (d' : Db) → P a d' → Q a d')
    → Runs d m P
    → Runs d m Q
Runs-map {m} {P} {Q} f h = record { at = λ w e. Ensures-map (m w) P Q f (h.at w e) }

pub Runs-return {ℓ κ} :
    {A : Type ℓ} {d : Db} {a : A} {Q : A → Db → Type κ} → Q a d → Runs d (return a) Q
Runs-return {a} {Q} q = record { at = λ w e. subst (Q a) (sym e) q }

pub Runs-fail {ℓ κ} : {A : Type ℓ} {d : Db} (e : Error) {Q : A → Db → Type κ} → Runs d (fail e) Q
Runs-fail e = record { at = λ w p. tt }

pub Runs-or_fail {ℓ κ} :
    {A : Type ℓ} {d : Db} (o : Option A) (e : Error) {Q : A → Db → Type κ}
    → ((a : A) → o ≡ some a → Q a d)
    → Runs d (or_fail o e) Q
Runs-or_fail none e h = record { at = λ w p. tt }
Runs-or_fail (some a) e {Q} h = record { at = λ w p. subst (Q a) (sym p) (h a refl) }

pub Runs-if {ℓ κ} :
    {A : Type ℓ} {d : Db} (b : Bool) {m n : M A} {Q : A → Db → Type κ}
    → (b ≡ true → Runs d m Q)
    → (b ≡ false → Runs d n Q)
    → Runs d (if b then m else n) Q
Runs-if true h k = h refl
Runs-if false h k = k refl

module _ ⦃env : Env⦄ where
  pub Runs-time {κ} :
      {d : Db} {Q : ℕ → Db → Type κ} → ((n : ℕ) → Q (env.clock n) d) → Runs d time_now Q
  unfolding time_now
  Runs-time {Q} h = record { at = λ w e. subst (Q (env.clock w.readings)) (sym e) (h w.readings) }

  pub Runs-new_id {κ} :
      {d : Db} {Q : String → Db → Type κ} → ((n : ℕ) → Q (env.new_id n) d) → Runs d new_id Q
  unfolding new_id
  Runs-new_id {Q} h = record { at = λ w e. subst (Q (env.new_id w.ids)) (sym e) (h w.ids) }

  pub Runs-statement {ℓ κ} :
      {A : Type ℓ} {d : Db} (f : Db → Option (A × Db)) {Q : A → Db → Type κ}
      → ((a : A) (d' : Db) → f d ≡ some (a, d') → Q a d')
      → Runs d (statement f) Q
  unfolding statement
  Runs-statement {d} f {Q} h = record {
    at = λ w e. elim (Bool-cases (env.fault w.statements)) [
      | inl b ↦ rw (b, statement) tt
      | inr b ↦ elim (Option-cases (f d)) [
        | inl n ↦ rw (e, b, n, statement) tt
        | inr ((a, d'), s) ↦ rw (e, b, s, statement) (h a d' s)
      ]
    ];
  }

  pub Runs-query {ℓ κ} :
      {A : Type ℓ} {d : Db} (f : Db → A) {Q : A → Db → Type κ} → Q (f d) d → Runs d (query f) Q
  unfolding statement
  Runs-query {d} f {Q} q = record {
    at = λ w e. elim (Bool-cases (env.fault w.statements)) [
      | inl b ↦ rw (b, statement) tt
      | inr b ↦ rw (e, b, statement) q
    ];
  }

  -- A statement that violates no constraint.
  pub Runs-total {ℓ κ} :
      {A : Type ℓ} {d : Db} (f : Db → A × Db) {Q : A → Db → Type κ}
      → Q (f d).0 (f d).1
      → Runs d (statement (λ x. some (f x))) Q
  unfolding statement
  Runs-total {d} f {Q} q = record {
    at = λ w e. elim (Bool-cases (env.fault w.statements)) [
      | inl b ↦ rw (b, statement) tt
      | inr b ↦ rw (e, b, statement) q
    ];
  }

  pub Runs-ties {ℓ κ} :
      {A : Type ℓ} {d : Db} {f : (String → ℕ) → M A} {Q : A → Db → Type κ}
      → ((tie : String → ℕ) → Runs d (f tie) Q)
      → Runs d (with_ties f) Q
  unfolding with_ties
  Runs-ties h = record { at = λ w e. (h (env.tie w.statements)).at w e }

  pub Runs-exec {κ} :
      {d : Db} (f : Db → Db) {Q : Unit {0} → Db → Type κ} → Q tt (f d) → Runs d (exec f) Q
  unfolding statement
  Runs-exec {d} f {Q} q = record {
    at = λ w e. elim (Bool-cases (env.fault w.statements)) [
      | inl b ↦ rw (b, statement) tt
      | inr b ↦ rw (e, b, statement) q
    ];
  }

  pub Runs-insert {κ} :
      {d : Db} (allowed : Db → Bool) (f : Db → Db) {Q : Unit {0} → Db → Type κ}
      → (allowed d ≡ true → Q tt (f d))
      → Runs d (insert allowed f) Q
  unfolding statement
  Runs-insert {d} allowed f {Q} h = record {
    at = λ w e. elim (Bool-cases (env.fault w.statements)) [
      | inl b ↦ rw (b, statement) tt
      | inr b ↦ elim (Bool-cases (allowed d)) [
        | inl c ↦ rw (e, b, c, statement) (h c)
        | inr c ↦ rw (e, b, c, statement) tt
      ]
    ];
  }

  -- The helpers of the transactions.
  pub Runs-task_status {κ} :
      {d : Db} (id : String) {Q : TaskStatus → Db → Type κ}
      → ((t : Task) → first_where (by_key task_key id) d.tasks ≡ some t → Q t.status d)
      → Runs d (task_status_tx id) Q
  unfolding task_status_tx
  Runs-task_status id h =
      Runs-bind (Runs-query _ (Runs-bind (Runs-or_fail _ _ λ t e. Runs-return (h t e))))

  pub Runs-read_task {κ} :
      {d : Db} (id : String) {Q : Task → Db → Type κ}
      → ((t : Task) → first_where (by_key task_key id) d.tasks ≡ some t → Q t d)
      → Runs d (read_task_tx id) Q
  unfolding read_task_tx
  Runs-read_task id h = Runs-bind (Runs-query _ (Runs-or_fail _ _ h))

  pub Runs-load {κ} :
      {d : Db} (id : String) {Q : String × String → Db → Type κ}
      → ((a : Attempt)
          → first_where (by_key attempt_key id) d.attempts ≡ some a
          → is_live a ≡ true
          → Q (a.task_id, or_empty a.worker_id) d)
      → Runs d (load_running_attempt id) Q
  unfolding load_running_attempt
  Runs-load id h = Runs-bind (
      Runs-query _ (
        Runs-bind
          (Runs-or_fail _ _ λ a e. Runs-if _ (λ l. Runs-return (h a e l)) (λ _. Runs-fail _))))

  -- The workers after one task less for this one, or for none if the id is empty.
  pub Runs-release {κ} :
      {d : Db} (worker_id : String) {Q : Unit {0} → Db → Type κ}
      → Q tt (record d { workers = released worker_id d.workers })
      → Runs d (release_worker worker_id) Q
  unfolding release_worker released
  Runs-release worker_id q = elim (Bool-cases (str_eq worker_id "")) [
    | inl b ↦ rw b (Runs-return (rw b at q))
    | inr b ↦ rw b (Runs-exec _ (rw b at q))
  ]

  -- The row of the event is the given one, whatever its id; its id is fresh.
  pub Runs-event {κ} :
      {d : Db} (task_id : String) (event : TaskEventType) (detail : Option Detail) (now : ℕ)
      {Q : Unit {0} → Db → Type κ}
      → ((id : String)
          → Q tt (record d { events = d.events ++ new_event id task_id event detail now ∷ [] }))
      → Runs d (insert_task_event task_id event detail now) Q
  unfolding insert_task_event
  Runs-event task_id event detail now h =
      Runs-bind (Runs-new_id λ n. Runs-insert _ _ λ _. h (env.new_id n))

  pub Runs-insert_task {κ} :
      {d : Db} (t : Task) {Q : Unit {0} → Db → Type κ}
      → (IsFresh task_key t.id d.tasks → Q tt (record d { tasks = d.tasks ++ stored t ∷ [] }))
      → Runs d (insert_task t) Q
  unfolding insert_task
  Runs-insert_task {d} t h = Runs-insert _ _ λ e. h (ground arith)
