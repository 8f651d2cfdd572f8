-- ===== src/Prelude/Order.antt =====
-- ORDER BY: a stable insertion sort, so rows that the order does not separate keep their places.
use mathlib.Core.Path.{◌≡◌, subst}
use mathlib.Core.Bool.{Bool, true, false}
use mathlib.Core.Logic.{inl, inr}
use mathlib.Core.List.{List, [], ◌∷◌, head?}
use mathlib.Core.Option.{none, some}
use native.Mathlib.Omega.{arith}
use ermine_tq.Prelude.Tests.{if◌then◌else◌, Bool-cases}
use ermine_tq.Prelude.Rows.{All, All-map}

-- `before a b`: the row a comes strictly before b.
module _ {ℓ} {R : Type ℓ} (before : R → R → Bool) where
  unfoldable pub place : R → List R → List R
  place r [] = r ∷ []
  place r (x ∷ xs) = let rest = x ∷ place r xs in if before x r then rest else r ∷ x ∷ xs

  unfoldable pub order_by : List R → List R
  unfolding place
  order_by [] = []
  order_by (r ∷ rs) = place r (order_by rs)

  All-place {κ} : (P : R → Type κ) (r : R) (xs : List R) → P r → All P xs → All P (place r xs)
  unfolding place
  All-place P r [] h k = (h, tt)
  All-place P r (x ∷ xs) h k = elim (Bool-cases (before x r)) [
    | inl e ↦ rw e (k.0, All-place P r xs h k.1)
    | inr e ↦ rw e (h, k)
  ]

  pub All-order_by {κ} : (P : R → Type κ) (rs : List R) → All P rs → All P (order_by rs)
  unfolding order_by
  All-order_by P [] h = tt
  All-order_by P (r ∷ rs) h = All-place P r (order_by rs) h.0 (All-order_by P rs h.1)

  -- No row of the list comes strictly before this one.
  abbrev pub IsFirst : R → List R → Type 0
  IsFirst r = All (λ x. before x r ≡ false)

  All-place_back {κ} : (P : R → Type κ) (r : R) (xs : List R) → All P (place r xs) → P r × All P xs
  unfolding place
  All-place_back P r [] h = (h.0, tt)
  All-place_back P r (x ∷ xs) h = elim (Bool-cases (before x r)) [
    | inl e ↦
        let k : P x × All P (place r xs) = rw e at h in
        let (p, q) = All-place_back P r xs k.1 in (p, (k.0, q))
    | inr e ↦ let k : P r × All P (x ∷ xs) = rw e at h in (k.0, k.1)
  ]

  pub All-order_by_back {κ} : (P : R → Type κ) (rs : List R) → All P (order_by rs) → All P rs
  unfolding order_by
  All-order_by_back P [] h = tt
  All-order_by_back P (r ∷ rs) h =
      let (p, q) = All-place_back P r (order_by rs) h in (p, All-order_by_back P rs q)

  abbrev IsLed : List R → Type 0
  IsLed [] = Unit
  IsLed (x ∷ xs) = IsFirst x xs

-- An order of no rows is an order of none.
pub head-order_by-none {ℓ κ} :
    {R : Type ℓ} (before : R → R → Bool) (P : R → Type κ) (rs : List R)
    → head? (order_by before rs) ≡ none
    → All P rs
head-order_by-none {R} before P rs e =
    All-order_by_back before P rs (empty_All (order_by before rs) e)
  where
    empty_All : (xs : List R) → head? xs ≡ none → All P xs
    empty_All [] e = tt
    empty_All (x ∷ xs) e = cc

pub head-All {ℓ κ} :
    {R : Type ℓ} (P : R → Type κ) (rs : List R) (r : R) → All P rs → head? rs ≡ some r → P r
head-All P [] r h e = cc
head-All P (x ∷ xs) r h e = subst P (ground arith) h.0

-- What a strict weak order gives.
module _ {ℓ} {R : Type ℓ} (before : R → R → Bool)
    (asymmetric : (a b : R) → before a b ≡ true → before b a ≡ false)
    (weak : (a b c : R) → before a b ≡ false → before b c ≡ false → before a c ≡ false) where
  place-IsLed : (r : R) (xs : List R) → IsLed before xs → IsLed before (place before r xs)
  unfolding place
  place-IsLed r [] h = tt
  place-IsLed r (x ∷ xs) h = elim (Bool-cases (before x r)) [
    | inl e ↦ rw e (All-place before (λ y. before y x ≡ false) r xs (asymmetric x r e) h)
    | inr e ↦ rw e (e, All-map _ (λ y. before y r ≡ false) (λ y k. weak y x r k e) xs h)
  ]

  order_by-IsLed : (rs : List R) → IsLed before (order_by before rs)
  unfolding order_by
  order_by-IsLed [] = tt
  order_by-IsLed (r ∷ rs) = place-IsLed r (order_by before rs) (order_by-IsLed rs)

  irreflexive : (a : R) → before a a ≡ false
  irreflexive a = elim (Bool-cases (before a a)) [ inl e ↦ asymmetric a a e | inr e ↦ e ]

  head-IsFirst : (rs : List R) (r : R) → IsLed before rs → head? rs ≡ some r → IsFirst before r rs
  head-IsFirst [] r h e = tt
  head-IsFirst (x ∷ xs) r h e =
      subst (λ y. IsFirst before y (x ∷ xs)) (ground arith) (irreflexive x, h)

  -- No row comes strictly before the first one of the ordered table.
  pub head-order_by :
      (rs : List R) (r : R) → head? (order_by before rs) ≡ some r → IsFirst before r rs
  head-order_by rs r e = All-order_by_back before _ rs (head-IsFirst _ r (order_by-IsLed rs) e)
