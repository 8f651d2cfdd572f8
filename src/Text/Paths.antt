-- ===== src/Text/Paths.antt =====
-- The functions of the packages path/filepath and strings that look into a path, on code points.
pub mod Parts
pub mod Parents
use ermine_tq.Prelude.{
  ℕ, Bool, true, false, ◌&&◌, ◌||◌, Option, none, some, List, [], ◌∷◌, ◌++◌, leb, ◌==◌,
  if◌then◌else◌,
}
use ermine_tq.Text.Lines.{split, same}

abbrev pub slash : ℕ
slash = b'/'

abbrev pub dot : ℕ
dot = b'.'

abbrev pub begins : ℕ → List ℕ → Bool
begins b [] = false
begins b (c ∷ cs) = c == b

-- strings.Contains of two characters
unfoldable pub contains_pair : ℕ → ℕ → List ℕ → Bool
contains_pair a b [] = false
contains_pair a b (c ∷ cs) = c == a && begins b cs || contains_pair a b cs

-- filepath.IsAbs
unfoldable pub is_abs : List ℕ → Bool
is_abs path = begins slash path

abbrev pub is_up : List ℕ → Bool
is_up part = same part (dot ∷ dot ∷ [])

abbrev pub is_here : List ℕ → Bool
is_here part = same part [] || same part (dot ∷ [])

unfoldable pub drop_last {ℓ} : {A : Type ℓ} → List A → List A
drop_last [] = []
drop_last (x ∷ []) = []
drop_last (x ∷ y ∷ xs) = x ∷ drop_last (y ∷ xs)

unfoldable pub ends_up : List (List ℕ) → Bool
ends_up [] = true
ends_up (p ∷ []) = is_up p
ends_up (p ∷ q ∷ ps) = ends_up (q ∷ ps)

-- One element of a path that filepath.Clean meets: an empty one and "." go, and ".." takes the
-- element before it away. A ".." without one stays in a relative path and goes in a rooted one.
unfoldable pub clean_part : Bool → List (List ℕ) → List ℕ → List (List ℕ)
unfolding drop_last ends_up
clean_part rooted done part =
    if is_here part
    then done
    else if is_up part
    then if ends_up done then if rooted then done else done ++ part ∷ [] else drop_last done
    else done ++ part ∷ []

unfoldable pub clean_parts : Bool → List (List ℕ) → List (List ℕ) → List (List ℕ)
unfolding clean_part
clean_parts rooted done [] = done
clean_parts rooted done (part ∷ parts) = clean_parts rooted (clean_part rooted done part) parts

-- strings.Join with slashes
unfoldable pub join_parts : List (List ℕ) → List ℕ
join_parts [] = []
join_parts (p ∷ []) = p
join_parts (p ∷ q ∷ ps) = p ++ slash ∷ join_parts (q ∷ ps)

abbrev pub or_here : List ℕ → List ℕ
or_here [] = dot ∷ []
or_here (c ∷ cs) = c ∷ cs

-- filepath.Clean
unfoldable pub clean : List ℕ → List ℕ
unfolding clean_parts join_parts is_abs split
clean path =
    let parts = join_parts (clean_parts (is_abs path) [] (split slash path)) in
    if is_abs path then slash ∷ parts else or_here parts

-- filepath.Join of two elements, of which the first is not empty.
unfoldable pub join : List ℕ → List ℕ → List ℕ
unfolding clean
join dir [] = clean dir
join dir (c ∷ cs) = clean (dir ++ slash ∷ c ∷ cs)

-- The path up to its last slash, with it.
unfoldable pub up_to_last : List ℕ → List ℕ
up_to_last [] = []
up_to_last (c ∷ cs) =
    let rest = up_to_last cs in
    elim rest [ [] ↦ if c == slash then c ∷ [] else [] | d ∷ ds ↦ c ∷ d ∷ ds ]

-- filepath.Dir
unfoldable pub dir_of : List ℕ → List ℕ
unfolding up_to_last clean
dir_of path = clean (up_to_last path)
