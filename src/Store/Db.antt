-- ===== src/Store/Db.antt =====
-- The tables of internal/store/migrations, and the environment in which the store runs: the SQLite
-- driver, the clock, the generator of ids, and how a write meets its context and a closing store.
use ermine_tq.Prelude.{ℕ, suc, String, Bool, Option, none, some, List, [], ◌∷◌, ◌++◌, if◌then◌else◌}
use ermine_tq.Store.Models.{Task, Attempt, TaskEvent, Worker, Schedule, SseEvent, TaskEventType}

-- Rows stand in the order of their insertion.
pub record Db : Type 0 where
  pub tasks : List Task
  pub attempts : List Attempt
  pub events : List TaskEvent
  pub workers : List Worker
  pub schedules : List Schedule

pub data Error : Type 0 where
  not_found attempt_not_running invalid_transition store_closing : Error
  context_done driver_error constraint_error : Error

pub data Reply {ℓ} (A : Type ℓ) : Type ℓ where
  ok : A → Reply A
  err : Error → Reply A

-- What the two selects of `write`, and the drain in `writeLoop`, make of one write:
-- `answered`: executed, and the caller receives the result;
-- `abandoned`: executed, but the caller's context ends before it receives the result;
-- `cancelled`: never executed, the context ended;
-- `refused`: never executed, the store is closing.
pub data Delivery : Type 0 where
  answered abandoned cancelled refused : Delivery

-- The answers of what is not the store's own code, in the order of the calls.
pub record Env : Type 0 where
  pub new_id : ℕ → String  -- uuid.NewString
  pub clock : ℕ → ℕ  -- time.Now().UTC()
  pub fault : ℕ → Bool  -- whether the driver fails at a statement, a BEGIN or a COMMIT
  pub delivery : ℕ → Delivery
  pub foreign_keys : Bool  -- whether SQLite enforces REFERENCES
  -- How a statement ranks rows that its ORDER BY leaves in no order, by their keys.
  pub tie : ℕ → String → ℕ

-- The database, the events that went to the sink, and how many answers were used up.
pub record World : Type 0 where
  pub db : Db
  pub attached : Bool
  pub sunk : List SseEvent
  pub ids : ℕ
  pub readings : ℕ
  pub statements : ℕ
  pub writes : ℕ

abbrev pub M {ℓ} : Type ℓ → Type ℓ
M A = World → Reply A × World

unfoldable pub and_then {ℓ κ} :
    {A : Type ℓ} {B : Type κ} → Reply A × World → (A → World → Reply B × World) → Reply B × World
and_then (ok a, w) f = f a w
and_then (err e, w) f = (err e, w)

infixl 5 ◌>>=◌ ◌>>◌
abbrev pub ◌>>=◌ {ℓ κ} : {A : Type ℓ} {B : Type κ} → M A → (A → M B) → M B
◌>>=◌ m f w = and_then (m w) f

abbrev pub ◌>>◌ {ℓ κ} : {A : Type ℓ} {B : Type κ} → M A → M B → M B
◌>>◌ m k w = and_then (m w) (λ _. k)

abbrev pub return {ℓ} : {A : Type ℓ} → A → M A
return a w = (ok a, w)

abbrev pub fail {ℓ} : {A : Type ℓ} → Error → M A
fail e w = (err e, w)

abbrev pub or_fail {ℓ} : {A : Type ℓ} → Option A → Error → M A
or_fail none e w = (err e, w)
or_fail (some a) e w = (ok a, w)

module _ ⦃env : Env⦄ where
  unfoldable pub time_now : M ℕ
  time_now w = (ok (env.clock w.readings), record w { readings = suc w.readings })

  unfoldable pub new_id : M String
  new_id w = (ok (env.new_id w.ids), record w { ids = suc w.ids })

  -- The next statement, with its ranks of the rows.
  unfoldable pub with_ties {ℓ} : {A : Type ℓ} → ((String → ℕ) → M A) → M A
  with_ties f w = f (env.tie w.statements) w

  -- One call of the driver. `none` stands for a constraint that the statement would violate.
  resolve {ℓ} : {A : Type ℓ} → Option (A × Db) → M A
  resolve none w = (err constraint_error, w)
  resolve (some (a, d)) w = (ok a, record w { db = d })

  unfoldable pub statement {ℓ} : {A : Type ℓ} → (Db → Option (A × Db)) → M A
  unfolding resolve
  statement f w =
      let w' = record w { statements = suc w.statements } in
      if env.fault w.statements then (err driver_error, w') else resolve (f w.db) w'

  abbrev pub query {ℓ} : {A : Type ℓ} → (Db → A) → M A
  query f = statement (λ d. some (f d, d))

  abbrev pub exec : (Db → Db) → M (Unit {0})
  exec f = statement (λ d. some (tt, f d))

  -- An INSERT, with the test that its PRIMARY KEY and REFERENCES clauses make.
  abbrev pub insert : (Db → Bool) → (Db → Db) → M (Unit {0})
  insert allowed f = statement (λ d. if allowed d then some (tt, f d) else none)

  -- The body has run on the open transaction; `before` is what a rollback restores.
  unfoldable pub settle {ℓ} : {A : Type ℓ} → Db → Reply A × World → Reply A × World
  settle before (ok a, w) =
      let w' = record w { statements = suc w.statements } in
      if env.fault w.statements then (err driver_error, record w' { db = before }) else (ok a, w')
  settle before (err e, w) = (err e, record w { db = before })

  unfoldable pub exec_tx {ℓ} : {A : Type ℓ} → M A → M A
  unfolding settle
  exec_tx fn w =
      let w' = record w { statements = suc w.statements } in
      if env.fault w.statements then (err driver_error, w') else settle w.db (fn w')

  unfoldable pub deliver {ℓ} : {A : Type ℓ} → Delivery → M A → M A
  unfolding exec_tx
  deliver answered fn w = exec_tx fn w
  deliver abandoned fn w = (err context_done, (exec_tx fn w).1)
  deliver cancelled fn w = (err context_done, w)
  deliver refused fn w = (err store_closing, w)

  unfoldable pub write {ℓ} : {A : Type ℓ} → M A → M A
  unfolding deliver
  write fn w = deliver (env.delivery w.writes) fn (record w { writes = suc w.writes })

  unfoldable pub emit : String → TaskEventType → M (Unit {0})
  unfolding time_now
  emit task_id event = do
    now ← time_now
    λ w. (
      ok tt,
      if w.attached
          then record w {
            sunk =
                w.sunk
                ++ record { task_id = task_id; event = event; detail = none; timestamp = now } ∷ [];
          }
          else w,
    )
