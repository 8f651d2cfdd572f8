-- ===== src/Text/Paths/Parents.antt =====
-- The directory of a path of plain names.
use ermine_tq.Prelude.{ℕ, ◌≡◌, refl, List, [], ◌∷◌, ◌++◌, ◌==◌, if◌then◌else◌, All}
use ermine_tq.Text.Lines.{split, same}
use ermine_tq.Text.Paths.{slash, join_parts, up_to_last}
use ermine_tq.Text.Paths.Parts.{IsPlain, IsElement, HasNoSlash}

-- What follows a slash does not matter to what stands before it.
pub up_to_last-append :
    (xs ys : List ℕ) → up_to_last (xs ++ slash ∷ ys) ≡ xs ++ slash ∷ up_to_last ys
unfolding up_to_last
up_to_last-append [] ys = up_to_last-slash (up_to_last ys)
  where
    up_to_last-slash :
        (rest : List ℕ)
        → (elim rest [ [] ↦ if slash == slash then slash ∷ [] else [] | d ∷ ds ↦ slash ∷ d ∷ ds ])
          ≡ slash ∷ rest
    up_to_last-slash [] = refl
    up_to_last-slash (d ∷ ds) = refl
up_to_last-append (x ∷ []) ys = rw (up_to_last-append [] ys) refl
up_to_last-append (x ∷ y ∷ xs) ys = rw (up_to_last-append (y ∷ xs) ys) refl

up_to_last-HasNoSlash : (xs : List ℕ) → HasNoSlash xs → up_to_last xs ≡ []
unfolding up_to_last
up_to_last-HasNoSlash [] h = refl
up_to_last-HasNoSlash (x ∷ xs) h = rw (up_to_last-HasNoSlash xs h.1, h.0) refl

split-append :
    (xs ys : List ℕ) → HasNoSlash xs → split slash (xs ++ slash ∷ ys) ≡ xs ∷ split slash ys
unfolding split
split-append [] ys h = refl
split-append (x ∷ xs) ys h = rw (h.0, split-append xs ys h.1) refl

-- The names before the last one are plain.
pub split-up_to_last-IsPlain :
    (ps : List (List ℕ)) → All IsElement ps → All IsPlain (split slash (up_to_last (join_parts ps)))
unfolding join_parts split up_to_last same
split-up_to_last-IsPlain [] h = (refl, tt)
split-up_to_last-IsPlain (p ∷ []) h = rw (up_to_last-HasNoSlash p h.0.2) (refl, tt)
split-up_to_last-IsPlain (p ∷ q ∷ ps) h =
    rw
      (
        up_to_last-append p (join_parts (q ∷ ps)),
        split-append p (up_to_last (join_parts (q ∷ ps))) h.0.2,
      )
      (h.0.1, split-up_to_last-IsPlain (q ∷ ps) h.1)
