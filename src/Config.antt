-- ===== src/Config.antt =====
-- internal/config/config.go: the settings that the store and the server read.
pub mod Loading
pub mod Limits
pub mod Precedence
pub mod Flags
use ermine_tq.Prelude.{String, ℤ, pos, Option, none, some, List, [], ◌∷◌, str_eq, if◌then◌else◌}

pub record DbConfig : Type 0 where
  pub path : String

pub record LimitsConfig : Type 0 where
  pub global : ℤ

pub record QueueConfig : Type 0 where
  pub limit : ℤ

pub record TaskTypeConfig : Type 0 where
  pub queue : String
  pub limit : ℤ

-- The two maps are association lists; the first entry of a key is its value.
pub record Config : Type 0 where
  pub db : DbConfig
  pub limits : LimitsConfig
  pub queues : List (String × QueueConfig)
  pub task_types : List (String × TaskTypeConfig)

-- Reading a Go map.
pub lookup {ℓ} : {V : Type ℓ} → String → List (String × V) → Option V
lookup k [] = none
lookup k ((j, v) ∷ m) = if str_eq j k then some v else lookup k m

unfoldable pub queue_limit : Config → String → ℤ
unfolding lookup
queue_limit c queue = elim (lookup queue c.queues) [ none ↦ pos 0 | some q ↦ q.limit ]

unfoldable pub task_type_limit : Config → String → ℤ
unfolding lookup
task_type_limit c task_type = elim (lookup task_type c.task_types) [
  | none ↦ pos 0
  | some t ↦ t.limit
]
