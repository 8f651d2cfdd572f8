-- ===== src/Prelude/Rows.antt =====
-- Lists of rows: what the clauses of a SELECT, a COUNT and an UPDATE do to one table.
use Prim.Native.Nat.{ℕ, suc, ◌+◌, ◌≤◌}
use mathlib.Core.Path.{◌≡◌, refl, subst}
use mathlib.Core.Bool.{Bool, true, false}
use mathlib.Core.Logic.{inl, inr}
use mathlib.Core.Option.{Option, none, some}
use mathlib.Core.List.{List, [], ◌∷◌, ◌++◌}
use native.Mathlib.Omega.{arith}
use ermine_tq.Prelude.Tests.{if◌then◌else◌, Bool-cases}

module _ {ℓ} {R : Type ℓ} where
  abbrev pub length : List R → ℕ
  length [] = 0
  length (x ∷ xs) = suc (length xs)

  -- SELECT … WHERE p
  unfoldable pub select_where : (R → Bool) → List R → List R
  select_where p [] = []
  select_where p (r ∷ rs) = let rest = select_where p rs in if p r then r ∷ rest else rest

  -- The first row of SELECT … WHERE p, as `QueryRow` reads it.
  unfoldable pub first_where : (R → Bool) → List R → Option R
  first_where p [] = none
  first_where p (r ∷ rs) = if p r then some r else first_where p rs

  -- SELECT COUNT(*) … WHERE p
  unfoldable pub count_where : (R → Bool) → List R → ℕ
  count_where p [] = 0
  count_where p (r ∷ rs) = let n = count_where p rs in if p r then suc n else n

  -- UPDATE … SET f WHERE p
  unfoldable pub update_where : (R → Bool) → (R → R) → List R → List R
  update_where p f [] = []
  update_where p f (r ∷ rs) = (if p r then f r else r) ∷ update_where p f rs

  -- Every row has the property.
  abbrev pub All {κ} : (R → Type κ) → List R → Type κ
  All P [] = Unit
  All P (r ∷ rs) = P r × All P rs

abbrev pub to_ℕ : Bool → ℕ
to_ℕ true = 1
to_ℕ false = 0

module _ {ℓ} {R : Type ℓ} where
  pub count-append :
      (p : R → Bool) (xs ys : List R)
      → count_where p (xs ++ ys) ≡ count_where p xs + count_where p ys
  unfolding count_where
  count-append p [] ys = omega arith
  count-append p (x ∷ xs) ys = ground (arith, count-append p xs ys)

  pub count-append_one :
      (p : R → Bool) (xs : List R) (x : R)
      → count_where p (xs ++ x ∷ []) ≡ count_where p xs + to_ℕ (p x)
  unfolding count_where
  count-append_one p xs x = ground (arith, count-append p xs (x ∷ []))

  -- An update that leaves the counted property of each row it writes alone.
  pub count-update_same :
      (p w : R → Bool) (f : R → R)
      → ((r : R) → w r ≡ true → p (f r) ≡ p r)
      → (rs : List R) → count_where p (update_where w f rs) ≡ count_where p rs
  unfolding count_where update_where
  count-update_same p w f h [] = refl
  count-update_same p w f h (r ∷ rs) = ground (arith, h r, count-update_same p w f h rs)

  -- An update that makes the counted property true of no row it writes.
  pub count-update-le :
      (p w : R → Bool) (f : R → R)
      → ((r : R) → w r ≡ true → p (f r) ≡ false)
      → (rs : List R) → count_where p (update_where w f rs) ≤ count_where p rs
  unfolding count_where update_where
  count-update-le p w f h [] = omega arith
  count-update-le p w f h (r ∷ rs) = ground (arith, h r, count-update-le p w f h rs)

  pub All-each {κ} : (P : R → Type κ) → ((r : R) → P r) → (rs : List R) → All P rs
  All-each P h [] = tt
  All-each P h (r ∷ rs) = (h r, All-each P h rs)

  pub All-append {κ} : (P : R → Type κ) (xs ys : List R) → All P xs → All P ys → All P (xs ++ ys)
  All-append P [] ys h k = k
  All-append P (x ∷ xs) ys h k = (h.0, All-append P xs ys h.1 k)

  -- The rows that an update leaves alone may have to be seen in a new light too.
  pub All-update {κ ι} :
      (P : R → Type κ) (Q : R → Type ι) (w : R → Bool) (f : R → R)
      → ((r : R) → P r → w r ≡ true → Q (f r))
      → ((r : R) → P r → w r ≡ false → Q r)
      → (rs : List R) → All P rs
      → All Q (update_where w f rs)
  unfolding update_where
  All-update P Q w f hit miss [] h = tt
  All-update P Q w f hit miss (r ∷ rs) h = elim (Bool-cases (w r)) [
    | inl e ↦ rw e (hit r h.0 e, All-update P Q w f hit miss rs h.1)
    | inr e ↦ rw e (miss r h.0 e, All-update P Q w f hit miss rs h.1)
  ]

  pub All-map {κ ι} :
      (P : R → Type κ) (Q : R → Type ι)
      → ((r : R) → P r → Q r)
      → (rs : List R) → All P rs
      → All Q rs
  All-map P Q k [] h = tt
  All-map P Q k (r ∷ rs) h = (k r h.0, All-map P Q k rs h.1)

  pub All-both {κ ι} :
      (P : R → Type κ) (Q : R → Type ι) (rs : List R)
      → All P rs
      → All Q rs
      → All (λ r. P r × Q r) rs
  All-both P Q [] h k = tt
  All-both P Q (r ∷ rs) h k = ((h.0, k.0), All-both P Q rs h.1 k.1)

  pub first-append :
      (p : R → Bool) (xs ys : List R) (r : R)
      → first_where p xs ≡ some r
      → first_where p (xs ++ ys) ≡ some r
  unfolding first_where
  first-append p [] ys r h = cc
  first-append p (x ∷ xs) ys r h = ground (arith, first-append p xs ys r)

  -- Rows that are not selected are not as the condition wants.
  pub All-select_back {κ} :
      (P : R → Type κ) (p : R → Bool)
      → ((r : R) → p r ≡ false → P r)
      → (rs : List R) → All P (select_where p rs)
      → All P rs
  unfolding select_where
  All-select_back P p f [] h = tt
  All-select_back P p f (r ∷ rs) h = elim (Bool-cases (p r)) [
    | inl e ↦
        let k : P r × All P (select_where p rs) = rw e at h in (k.0, All-select_back P p f rs k.1)
    | inr e ↦ (f r e, All-select_back P p f rs (rw e at h))
  ]

  pub All-select {κ} :
      (P : R → Type κ) (p : R → Bool) (rs : List R)
      → All P rs
      → All (λ r. P r × (p r ≡ true)) (select_where p rs)
  unfolding select_where
  All-select P p [] h = tt
  All-select P p (r ∷ rs) h = elim (Bool-cases (p r)) [
    | inl e ↦ rw e ((h.0, e), All-select P p rs h.1)
    | inr e ↦ rw e (All-select P p rs h.1)
  ]

  -- The first row that a test accepts passes it, and has what every row has.
  pub All-first {κ} :
      (P : R → Type κ) (p : R → Bool) (rs : List R) (r : R)
      → All P rs
      → first_where p rs ≡ some r
      → P r × (p r ≡ true)
  unfolding first_where
  All-first P p [] r h e = cc
  All-first P p (x ∷ xs) r h e = elim (Bool-cases (p x)) [
    | inl hit ↦ subst (λ y. P y × (p y ≡ true)) (ground arith) (h.0, hit)
    | inr miss ↦ All-first P p xs r h.1 (ground arith)
  ]

  pub first_accepted : (p : R → Bool) (rs : List R) (r : R) → first_where p rs ≡ some r → p r ≡ true
  unfolding first_where
  first_accepted p [] r e = cc
  first_accepted p (x ∷ xs) r e = ground (arith, first_accepted p xs r)

-- Tables with a primary key.
