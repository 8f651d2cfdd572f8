-- ===== src/Queue/Registry.antt =====
-- internal/queue/registry.go: the handlers of the task types. The map is an association list without
-- double keys; its lock has no counterpart.
use Prim.Native.String.{compare}
use text.Mathlib.Text.{is_lt}
use ermine_tq.Prelude.{
  String, Bool, Option, none, some, List, [], ◌∷◌, map, str_eq, first_where, order_by,
  if◌then◌else◌, by_key,
}
use ermine_tq.Store.Models.{Task}

-- How a WorkerFunc ends: with a result, with the text of an error, or with a panic.
pub data Outcome : Type 0 where
  returned : Option String → Outcome
  errored panicked : String → Outcome

abbrev pub WorkerFunc : Type 0
WorkerFunc = Option String → Outcome

pub record Handler : Type 0 where
  pub type : String
  pub fn : WorkerFunc

abbrev pub Registry : Type 0
Registry = List Handler

abbrev pub handler_key : Handler → String
handler_key h = h.type

-- A handler that is there already is replaced. The panic on a nil function has no counterpart.
unfoldable pub register : String → WorkerFunc → Registry → Registry
register type fn [] = record { type = type; fn = fn } ∷ []
register type fn (h ∷ hs) =
    let rest = register type fn hs in
    if str_eq h.type type then record { type = type; fn = fn } ∷ hs else h ∷ rest

unfoldable pub lookup : String → Registry → Option WorkerFunc
lookup type hs = elim (first_where (by_key handler_key type) hs) [
  | none ↦ none
  | some h ↦ some h.fn
]

-- The result of a task, or the text of its error.
pub data Dispatched : Type 0 where
  result : Option String → Dispatched
  failure : String → Dispatched

-- The texts of the errors of `Dispatch`: a panic's value, and a type without a handler.
module _ (panic_text missing_text : String → String) where
  abbrev pub recovered : Outcome → Dispatched
  recovered (returned r) = result r
  recovered (errored message) = failure message
  recovered (panicked value) = failure (panic_text value)

  unfoldable pub dispatch : Registry → Task → Dispatched
  unfolding lookup
  dispatch hs t = elim (lookup t.type hs) [
    | none ↦ failure (missing_text t.type)
    | some fn ↦ recovered (fn t.payload)
  ]

-- The order of sort.Strings.
abbrev pub str_before : String → String → Bool
str_before a b = is_lt (compare a b)

unfoldable pub task_types : Registry → List String
task_types hs = order_by str_before (map handler_key hs)
