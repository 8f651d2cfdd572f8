-- ===== src/Text/Paths/Parts.antt =====
-- What a path without ".." comes to when it is joined to a directory.
use mathlib.Core.List.{append_assoc, append-nil}
use ermine_tq.Prelude.{
  ℕ, ◌≡◌, refl, sym, ◌∙◌, Bool, true, false, List, [], ◌∷◌, ◌++◌, ◌==◌, arith, if◌then◌else◌, All,
  All-map, Bool-cases, inl, inr,
}
use ermine_tq.Text.Lines.{split, cons_first, same}
use ermine_tq.Text.Paths.{
  slash, dot, begins, contains_pair, is_up, is_here, clean_part, clean_parts,
}

abbrev pub IsPlain : List ℕ → Type 0
IsPlain part = is_up part ≡ false

-- The parts of a text, as far as the first of them goes.
abbrev first_part : List (List ℕ) → List ℕ
first_part [] = []
first_part (p ∷ ps) = p

-- The first part begins as the text does.
begins-split :
    (cs : List ℕ) → begins dot (first_part (split slash cs)) ≡ true → begins dot cs ≡ true
unfolding split
begins-split [] h = h
begins-split (c ∷ cs) h = elim (Bool-cases (c == slash)) [
  | inl e ↦ let k : false ≡ true = rw e at h in cc
  | inr e ↦ begins_of (split slash cs) (rw e at h)
]
  where
    begins_of :
        (ps : List (List ℕ)) → begins dot (first_part (cons_first c ps)) ≡ true → (c == dot) ≡ true
    begins_of [] k = k
    begins_of (p ∷ ps) k = k

-- No pair within a part but one of the whole.
abbrev HasNoPair : List ℕ → Type 0
HasNoPair part = contains_pair dot dot part ≡ false

cons_first-HasNoPair :
    (c : ℕ) (cs : List ℕ) (ps : List (List ℕ))
    → (begins dot (first_part ps) ≡ true → begins dot cs ≡ true)
    → contains_pair dot dot (c ∷ cs) ≡ false
    → All HasNoPair ps
    → All HasNoPair (cons_first c ps)
unfolding contains_pair
cons_first-HasNoPair c cs [] b h k = (ground arith, tt)
cons_first-HasNoPair c cs (p ∷ ps) b h k = (ground (arith, k.0, b), k.1)

split-HasNoPair : (cs : List ℕ) → contains_pair dot dot cs ≡ false → All HasNoPair (split slash cs)
unfolding split contains_pair
split-HasNoPair [] h = (refl, tt)
split-HasNoPair (c ∷ cs) h =
    let ih = split-HasNoPair cs (ground arith) in
    elim (Bool-cases (c == slash)) [
      | inl e ↦ rw e (refl, ih)
      | inr e ↦ rw e (cons_first-HasNoPair c cs _ (begins-split cs) h ih)
    ]

HasNoPair-IsPlain : (p : List ℕ) → HasNoPair p → IsPlain p
unfolding contains_pair same
HasNoPair-IsPlain [] h = refl
HasNoPair-IsPlain (a ∷ []) h = ground arith
HasNoPair-IsPlain (a ∷ b ∷ p) h = ground arith

-- A name of a directory or file: not empty, not "." or "..", and without a slash.
abbrev pub HasNoSlash : List ℕ → Type 0
HasNoSlash = All (λ c. (c == slash) ≡ false)

abbrev pub IsElement : List ℕ → Type 0
IsElement part = (is_here part ≡ false) × (is_up part ≡ false) × HasNoSlash part

cons_first-HasNoSlash :
    (c : ℕ) (ps : List (List ℕ))
    → (c == slash) ≡ false
    → All HasNoSlash ps
    → All HasNoSlash (cons_first c ps)
cons_first-HasNoSlash c [] h k = ((h, tt), tt)
cons_first-HasNoSlash c (p ∷ ps) h k = ((h, k.0), k.1)

pub split-HasNoSlash : (cs : List ℕ) → All HasNoSlash (split slash cs)
unfolding split
split-HasNoSlash [] = (tt, tt)
split-HasNoSlash (c ∷ cs) = elim (Bool-cases (c == slash)) [
  | inl e ↦ rw e (tt, split-HasNoSlash cs)
  | inr e ↦ rw e (cons_first-HasNoSlash c (split slash cs) e (split-HasNoSlash cs))
]

-- The parts that filepath.Clean keeps of those that are not "..".
unfoldable pub kept : List (List ℕ) → List (List ℕ)
kept [] = []
kept (p ∷ ps) = let rest = kept ps in if is_here p then rest else p ∷ rest

pub clean_parts-append :
    (rooted : Bool) (ps done : List (List ℕ))
    → All IsPlain ps
    → clean_parts rooted done ps ≡ done ++ kept ps
unfolding clean_parts clean_part kept
clean_parts-append rooted [] done h = sym (append-nil done)
clean_parts-append rooted (p ∷ ps) done h = elim (Bool-cases (is_here p)) [
  | inl e ↦ rw e (clean_parts-append rooted ps done h.1)
  | inr e ↦
      rw (e, h.0)
        (clean_parts-append rooted ps (done ++ p ∷ []) h.1 ∙ append_assoc done (p ∷ []) (kept ps))
]

pub kept-IsElement :
    (ps : List (List ℕ)) → All IsPlain ps → All HasNoSlash ps → All IsElement (kept ps)
unfolding kept
kept-IsElement [] h k = tt
kept-IsElement (p ∷ ps) h k = elim (Bool-cases (is_here p)) [
  | inl e ↦ rw e (kept-IsElement ps h.1 k.1)
  | inr e ↦ rw e ((e, h.0, k.0), kept-IsElement ps h.1 k.1)
]

split-IsPlain :
    (name : List ℕ) → contains_pair dot dot name ≡ false → All IsPlain (split slash name)
split-IsPlain name h =
    All-map HasNoPair IsPlain HasNoPair-IsPlain (split slash name) (split-HasNoPair name h)

pub kept-split-IsElement :
    (name : List ℕ) → contains_pair dot dot name ≡ false → All IsElement (kept (split slash name))
kept-split-IsElement name h =
    kept-IsElement (split slash name) (split-IsPlain name h) (split-HasNoSlash name)

-- A relative name without ".." is cleaned below the parts before it.
pub clean_parts-split :
    (rooted : Bool) (done : List (List ℕ)) (name : List ℕ)
    → contains_pair dot dot name ≡ false
    → clean_parts rooted done (split slash name) ≡ done ++ kept (split slash name)
clean_parts-split rooted done name h =
    clean_parts-append rooted (split slash name) done (split-IsPlain name h)

-- A pair of dots does not begin before the first dot.
pub contains_pair-append :
    (xs ys : List ℕ)
    → All (λ c. (c == dot) ≡ false) xs
    → contains_pair dot dot (xs ++ ys) ≡ contains_pair dot dot ys
unfolding contains_pair
contains_pair-append [] ys h = refl
contains_pair-append (x ∷ xs) ys h = rw (h.0, contains_pair-append xs ys h.1) refl
