-- ===== src/Config/Flags.antt =====
-- cmd/server/main.go: parseServerFlags and parseMigrateFlags, with what they use of the package flag.
use Prim.Native.Char.{code}
use Prim.Native.String.{String}
use ermine_tq.Prelude.{
  ℕ, Bool, true, false, ◌||◌, Option, none, some, List, [], ◌∷◌, str_eq, ◌==◌, if◌then◌else◌,
}

-- The values of the flags.
pub record Flags : Type 0 where
  pub config : String
  pub db : String
  pub addr : String

-- What an argument is: a flag with its value, if it has one behind `=`.
pub data Shape : Type 0 where
  positional terminator malformed : Shape
  named : String → Option String → Shape

-- The name of a flag, and what stands behind the first `=`.
unfoldable pub cut_value : String → String × Option String
cut_value String.[] = (String.[], none)
cut_value (String.◌∷◌ c s) =
    let (name, value) = cut_value s in
    if code c == b'=' then (String.[], some s) else (String.◌∷◌ c name, value)

abbrev pub of_name : String → Shape
of_name String.[] = malformed
of_name (String.◌∷◌ c s) =
    if code c == b'-' || code c == b'='
    then malformed
    else let (name, value) = cut_value (String.◌∷◌ c s) in named name value

-- What stands behind two dashes.
abbrev pub of_long : String → Shape
of_long String.[] = terminator
of_long (String.◌∷◌ c s) = of_name (String.◌∷◌ c s)

unfoldable pub shape : String → Shape
shape String.[] = positional
shape (String.◌∷◌ c String.[]) = positional
shape (String.◌∷◌ c (String.◌∷◌ d s)) =
    if code c == b'-'
    then if code d == b'-' then of_long s else of_name (String.◌∷◌ d s)
    else positional

unfoldable pub is_defined : List String → String → Bool
is_defined [] name = false
is_defined (n ∷ names) name = str_eq n name || is_defined names name

unfoldable pub set_flag : String → String → Flags → Flags
set_flag name value f =
    if str_eq name "config"
    then record f { config = value }
    else if str_eq name "db"
    then record f { db = value }
    else if str_eq name "addr"
    then record f { addr = value }
    else f

-- The process exits with a status: 0 after a request for help, 2 after an error.
pub data Parsed : Type 0 where
  parsed : Flags → Parsed
  exits : ℕ → Parsed

unfoldable pub undefined : String → Parsed
undefined name = if str_eq name "help" || str_eq name "h" then exits 0 else exits 2

-- FlagSet.Parse with flag.ExitOnError. A flag without a value behind `=` takes the next argument.
unfoldable pub parse_flags : List String → List String → Flags → Parsed
unfolding shape is_defined set_flag undefined
parse_flags names [] f = parsed f
parse_flags names (a ∷ []) f = elim (shape a) [
  | positional ↦ parsed f
  | terminator ↦ parsed f
  | malformed ↦ exits 2
  | named n value ↦ elim (is_defined names n) [
    | false ↦ undefined n
    | true ↦ elim value [ none ↦ exits 2 | some v ↦ parsed (set_flag n v f) ]
  ]
]
parse_flags names (a ∷ b ∷ rest) f = elim (shape a) [
  | positional ↦ parsed f
  | terminator ↦ parsed f
  | malformed ↦ exits 2
  | named n value ↦ elim (is_defined names n) [
    | false ↦ undefined n
    | true ↦ elim value [
      | none ↦ parse_flags names rest (set_flag n b f)
      | some v ↦ parse_flags names (b ∷ rest) (set_flag n v f)
    ]
  ]
]

abbrev pub unset : Flags
unset = record { config = ""; db = ""; addr = ":8080" }

unfoldable pub parse_server_flags : List String → Parsed
unfolding parse_flags
parse_server_flags args = parse_flags ("config" ∷ "db" ∷ "addr" ∷ []) args unset

unfoldable pub parse_migrate_flags : List String → Parsed
unfolding parse_flags
parse_migrate_flags args = parse_flags ("config" ∷ "db" ∷ []) args unset
