-- ===== src/Store/Refinement/Eligible.antt =====
-- Which tasks a ClaimTask (internal/store/claim.go) may take, and which comes first.
use ermine_tq.Prelude.{
  ℕ, String, Bool, true, false, ◌≡◌, ◌≤◌, refl, ap, inl, inr, none, some, List, [], ◌∷◌, ltb_ℤ, pos,
  str_eq, eq_iff, Bool-cases, All-found, All-select, All-order_by, All-order_by_back, IsUnique,
  IsFirst, by_key, first_where, select_where, count_where, head-order_by, head-order_by-none,
  head-All, All, All-select_back, not, if◌then◌else◌, arith, ◌&&◌,
}
use ermine_tq.Config.{Config, queue_limit, task_type_limit}
use ermine_tq.Store.Models.{Task, TaskStatus, status_eq}
use ermine_tq.Store.Db.{Db, Env}
use ermine_tq.Store.Statements.{task_key, task_before, order_rows}
use ermine_tq.Store.Runs.{Runs, Runs-bind, Runs-return, Runs-query}
use ermine_tq.Store.Claim.{
  runs_in, runs_as, one_of, is_claimable, next_task, queue_full, type_full, eligible_types,
}
use ermine_tq.Store.Steps.{at_limit}

-- The order of the claim is a strict weak order.
task_before_asymmetric : (a b : Task) → task_before a b ≡ true → task_before b a ≡ false
task_before_asymmetric a b h = ground arith

task_before_weak :
    (a b c : Task) → task_before a b ≡ false → task_before b c ≡ false → task_before a c ≡ false
task_before_weak a b c h k = ground arith

pub is_claimable-queued :
    (queue : String) (types : List String) (now : ℕ) (t : Task)
    → is_claimable queue types now t ≡ true
    → t.status ≡ TaskStatus.queued
unfolding is_claimable status_eq
is_claimable-queued queue types now t h = ground arith

-- The chosen row is a row of the table that may be claimed, and no such row comes before it.
pub record IsNext (queue : String) (types : List String) (now : ℕ) (ts : List Task) (t : Task)
    : Type 0 where
  pub held : first_where (by_key task_key t.id) ts ≡ some t
  pub claimable : is_claimable queue types now t ≡ true
  pub queued : t.status ≡ TaskStatus.queued
  pub filed : t.queue ≡ queue
  pub asked_for : one_of types t.type ≡ true
  pub due : t.run_at ≤ now
  pub best : IsFirst task_before t (select_where (is_claimable queue types now) ts)

pub next_task-IsNext :
    (tie : String → ℕ) (queue : String) (types : List String) (now : ℕ) (ts : List Task) (t : Task)
    → IsUnique task_key ts
    → next_task tie queue types now ts ≡ some t
    → IsNext queue types now ts t
unfolding next_task is_claimable order_rows
next_task-IsNext tie queue types now ts t u e =
    let p =
      head-All _ _ t
        (All-order_by task_before _ _ (
          All-order_by _ _ _
            (All-select _ (is_claimable queue types now) ts (All-found task_key ts u))))
        e in
    record {
      held = p.0;
      claimable = p.1;
      queued = is_claimable-queued queue types now t p.1;
      filed = (eq_iff t.queue queue).0 (ground (arith, p.1));
      asked_for = ground (arith, p.1);
      due = ground (arith, p.1);
      best =
          All-order_by_back _ _ _
            (head-order_by task_before task_before_asymmetric task_before_weak _ t e);
    }

pub next_task-none :
    (tie : String → ℕ) (queue : String) (types : List String) (now : ℕ) (ts : List Task)
    → next_task tie queue types now ts ≡ none
    → All (λ t. is_claimable queue types now t ≡ false) ts
unfolding next_task order_rows
next_task-none tie queue types now ts e =
    All-select_back _ (is_claimable queue types now) (λ t h. h) ts
      (All-order_by_back _ _ _ (head-order_by-none task_before _ _ e))

pub none_of : (queue : String) (now : ℕ) (t : Task) → is_claimable queue [] now t ≡ false
unfolding is_claimable one_of
none_of queue now t = ground arith

-- The types that are left are those asked for that are below their limits.
abbrev pub type_at_limit : Config → List Task → String → Bool
type_at_limit cfg ts type = at_limit (task_type_limit cfg type) (count_where (runs_as type) ts)

abbrev pub AreEligible : Config → List Task → List String → List String → Type 0
AreEligible cfg ts types left =
    (x : String) → one_of left x ≡ (one_of types x && not (type_at_limit cfg ts x))

pub AreEligible-cons :
    (cfg : Config) (ts : List Task) (type : String) (types left : List String)
    → AreEligible cfg ts types left
    → AreEligible cfg ts (type ∷ types) (if type_at_limit cfg ts type then left else type ∷ left)
unfolding one_of
AreEligible-cons cfg ts type types left h x = elim (Bool-cases (str_eq x type)) [
  | inl e ↦ ground (arith, h x, ap (type_at_limit cfg ts) ((eq_iff x type).0 e))
  | inr e ↦ ground (arith, h x)
]

module _ ⦃env : Env⦄ (cfg : Config) where
  pub Runs-queue_full {κ} :
      {d : Db} (queue : String) {Q : Bool → Db → Type κ}
      → Q (at_limit (queue_limit cfg queue) (count_where (runs_in queue) d.tasks)) d
      → Runs d (queue_full cfg queue) Q
  unfolding queue_full
  Runs-queue_full queue {Q} q = elim (Bool-cases (ltb_ℤ (pos 0) (queue_limit cfg queue))) [
    | inl e ↦ rw e (Runs-bind (Runs-query _ (Runs-return (rw e at q))))
    | inr e ↦ rw e (Runs-return (rw e at q))
  ]

  pub Runs-type_full {κ} :
      {d : Db} (type : String) {Q : Bool → Db → Type κ}
      → Q (type_at_limit cfg d.tasks type) d
      → Runs d (type_full cfg type) Q
  unfolding type_full
  Runs-type_full type {Q} q = elim (Bool-cases (ltb_ℤ (pos 0) (task_type_limit cfg type))) [
    | inl e ↦ rw e (Runs-bind (Runs-query _ (Runs-return (rw e at q))))
    | inr e ↦ rw e (Runs-return (rw e at q))
  ]

  pub Runs-eligible {κ} :
      {d : Db} (types : List String) {Q : List String → Db → Type κ}
      → ((left : List String) → AreEligible cfg d.tasks types left → Q left d)
      → Runs d (eligible_types cfg types) Q
  unfolding eligible_types one_of
  Runs-eligible [] h = Runs-return (h [] (λ x. refl))
  Runs-eligible {d} (type ∷ types) h = Runs-bind (
      Runs-type_full type (
        Runs-bind (
          Runs-eligible types
            λ left k. Runs-return (h _ (AreEligible-cons cfg d.tasks type types left k)))))
