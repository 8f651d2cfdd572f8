-- ===== src/Text/Lines.antt =====
-- Functions of the package strings, on code points.
use ermine_tq.Prelude.{
  ℕ, Bool, true, false, ◌&&◌, ◌||◌, Option, none, some, List, [], ◌∷◌, leb, ◌==◌, if◌then◌else◌,
}

-- unicode.IsSpace
unfoldable pub is_space : ℕ → Bool
is_space c =
    (leb 9 c && leb c 13)
    || (c == 32
        || (c == 0x85
            || (c == 0xA0
                || (c == 0x1680
                    || ((leb 0x2000 c && leb c 0x200A)
                        || (c == 0x2028
                            || (c == 0x2029 || (c == 0x202F || (c == 0x205F || c == 0x3000)))))))))

unfoldable pub trim_left : List ℕ → List ℕ
trim_left [] = []
trim_left (c ∷ cs) = let rest = trim_left cs in if is_space c then rest else c ∷ cs

-- A space that nothing but spaces follows goes.
unfoldable pub drop_space : ℕ → List ℕ → List ℕ
drop_space c [] = if is_space c then [] else c ∷ []
drop_space c (d ∷ rest) = c ∷ d ∷ rest

unfoldable pub trim_right : List ℕ → List ℕ
unfolding drop_space
trim_right [] = []
trim_right (c ∷ cs) = drop_space c (trim_right cs)

-- strings.TrimSpace
unfoldable pub trim_space : List ℕ → List ℕ
unfolding trim_left trim_right
trim_space cs = trim_right (trim_left cs)

abbrev pub cons_first : ℕ → List (List ℕ) → List (List ℕ)
cons_first c [] = (c ∷ []) ∷ []
cons_first c (part ∷ parts) = (c ∷ part) ∷ parts

-- strings.Split at one character
unfoldable pub split : ℕ → List ℕ → List (List ℕ)
split sep [] = [] ∷ []
split sep (c ∷ cs) = let parts = split sep cs in if c == sep then [] ∷ parts else cons_first c parts

-- What stands before the first occurrence of two characters in a row, or all of the text.
unfoldable pub before_pair : ℕ → ℕ → List ℕ → List ℕ
before_pair a b [] = []
before_pair a b (c ∷ []) = c ∷ []
before_pair a b (c ∷ d ∷ cs) =
    let rest = before_pair a b (d ∷ cs) in if c == a && d == b then [] else c ∷ rest

-- strings.HasSuffix of one character
unfoldable pub ends_in : ℕ → List ℕ → Bool
ends_in sep [] = false
ends_in sep (c ∷ []) = c == sep
ends_in sep (c ∷ d ∷ cs) = ends_in sep (d ∷ cs)

abbrev pub cons_left : ℕ → Option (List ℕ × List ℕ) → Option (List ℕ × List ℕ)
cons_left c none = none
cons_left c (some (a, b)) = some (c ∷ a, b)

-- Before and after the first occurrence of a character; `none` if there is none.
unfoldable pub cut : ℕ → List ℕ → Option (List ℕ × List ℕ)
cut sep [] = none
cut sep (c ∷ cs) = let rest = cons_left c (cut sep cs) in if c == sep then some ([], cs) else rest

-- What stands behind the last occurrence of a character, or all of the text.
unfoldable pub after_last : ℕ → List ℕ → List ℕ
unfolding cut
after_last sep [] = []
after_last sep (c ∷ cs) = elim (cut sep (c ∷ cs)) [
  | none ↦ c ∷ cs
  | some (a, b) ↦ after_last sep cs
]

-- strings.TrimSuffix
unfoldable pub same : List ℕ → List ℕ → Bool
same [] [] = true
same [] (d ∷ ds) = false
same (c ∷ cs) [] = false
same (c ∷ cs) (d ∷ ds) = c == d && same cs ds

unfoldable pub trim_suffix : List ℕ → List ℕ → List ℕ
unfolding same
trim_suffix suffix [] = []
trim_suffix suffix (c ∷ cs) =
    let rest = trim_suffix suffix cs in if same (c ∷ cs) suffix then [] else c ∷ rest
