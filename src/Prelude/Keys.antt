-- ===== src/Prelude/Keys.antt =====
-- Tables whose rows have a text as their primary key.
use Prim.Native.Nat.{◌+◌}
use mathlib.Core.Path.{◌≡◌, refl, ap}
use mathlib.Core.Bool.{Bool, true, false}
use mathlib.Core.Logic.{◌≢◌, inl, inr}
use mathlib.Core.Option.{none, some}
use mathlib.Core.List.{List, [], ◌∷◌, ◌++◌}
use native.Mathlib.Omega.{arith}
use Prim.Native.String.{String}
use text.Mathlib.Text.{◌==◌ as str_eq}
use text.Mathlib.TextEquality.{eq_iff}
use ermine_tq.Prelude.Tests.{if◌then◌else◌, Bool-cases}
use ermine_tq.Prelude.Rows.{All, All-both, All-map, count_where, first_where, to_ℕ, update_where}

module _ {ℓ} {R : Type ℓ} (key : R → String) where
  -- WHERE id = k
  abbrev pub by_key : String → R → Bool
  by_key k r = str_eq (key r) k

  abbrev pub IsFresh : String → List R → Type ℓ
  IsFresh k rs = first_where (by_key k) rs ≡ none

  -- No two rows have one key.
  abbrev pub IsUnique : List R → Type ℓ
  IsUnique [] = Unit
  IsUnique (r ∷ rs) = IsFresh (key r) rs × IsUnique rs

  pub by_key-eq : (k : String) (r : R) → by_key k r ≡ true → key r ≡ k
  by_key-eq k r h = (eq_iff (key r) k).0 h

  pub IsFresh-update :
      (w : R → Bool) (f : R → R)
      → ((r : R) → key (f r) ≡ key r)
      → (k : String) (rs : List R) → IsFresh k rs
      → IsFresh k (update_where w f rs)
  unfolding first_where update_where
  IsFresh-update w f same k [] h = refl
  IsFresh-update w f same k (r ∷ rs) h = ground (arith, same r, IsFresh-update w f same k rs)

  pub IsUnique-update :
      (w : R → Bool) (f : R → R)
      → ((r : R) → key (f r) ≡ key r)
      → (rs : List R) → IsUnique rs
      → IsUnique (update_where w f rs)
  unfolding update_where
  IsUnique-update w f same [] h = tt
  IsUnique-update w f same (r ∷ rs) h = elim (Bool-cases (w r)) [
    | inl e ↦
        rw (e, same r) (IsFresh-update w f same (key r) rs h.0, IsUnique-update w f same rs h.1)
    | inr e ↦ rw e (IsFresh-update w f same (key r) rs h.0, IsUnique-update w f same rs h.1)
  ]

  pub IsFresh-append :
      (k : String) (rs : List R) (r : R)
      → IsFresh k rs
      → by_key k r ≡ false
      → IsFresh k (rs ++ r ∷ [])
  unfolding first_where
  IsFresh-append k [] r h e = rw e refl
  IsFresh-append k (x ∷ xs) r h e = ground (arith, IsFresh-append k xs r)

  pub IsUnique-append :
      (rs : List R) (r : R) → IsUnique rs → IsFresh (key r) rs → IsUnique (rs ++ r ∷ [])
  unfolding first_where
  IsUnique-append [] r u h = (refl, tt)
  IsUnique-append (x ∷ xs) r u h = (
    IsFresh-append (key x) xs r u.0
        (ground (arith, eq_iff (key x) (key r), eq_iff (key r) (key x))),
    IsUnique-append xs r u.1 (ground arith),
  )

  -- A key that no row has.
  pub update-missing :
      (k : String) (f : R → R) (rs : List R) → IsFresh k rs → update_where (by_key k) f rs ≡ rs
  unfolding first_where update_where
  update-missing k f [] h = refl
  update-missing k f (r ∷ rs) h = ground (arith, update-missing k f rs)

  -- An update by primary key writes one row, and a count changes by what that row counts.
  pub count-update_key :
      (p : R → Bool) (k : String) (f : R → R) (rs : List R) (r : R)
      → IsUnique rs
      → first_where (by_key k) rs ≡ some r
      → count_where p (update_where (by_key k) f rs) + to_ℕ (p r)
        ≡ count_where p rs + to_ℕ (p (f r))
  unfolding count_where first_where update_where
  count-update_key p k f [] r u h = cc
  count-update_key p k f (x ∷ xs) r u h = elim (Bool-cases (by_key k x)) [
    | inl hit ↦ ground (
      arith,
      eq_iff (key x) k,
      update-missing k f xs,
      ap (λ j. first_where (by_key j) xs) (by_key-eq k x hit),
    )
    | inr miss ↦ ground (arith, count-update_key p k f xs r u.1)
  ]

  -- The row that such an update writes is found under its key again.
  pub first-update_key :
      (k : String) (f : R → R)
      → ((r : R) → key (f r) ≡ key r)
      → (rs : List R) (r : R) → first_where (by_key k) rs ≡ some r
      → first_where (by_key k) (update_where (by_key k) f rs) ≡ some (f r)
  unfolding first_where update_where
  first-update_key k f same [] r h = cc
  first-update_key k f same (x ∷ xs) r h = ground (arith, same x, first-update_key k f same xs r)

  -- A fresh key finds the row that is added under it.
  pub first-append_fresh :
      (r : R) (rs : List R)
      → IsFresh (key r) rs
      → first_where (by_key (key r)) (rs ++ r ∷ []) ≡ some r
  unfolding first_where
  first-append_fresh r [] h = ground (arith, eq_iff (key r) (key r))
  first-append_fresh r (x ∷ xs) h = ground (arith, first-append_fresh r xs)

  -- What a key finds after an update of the rows that a condition selects.
  pub first-update_where :
      (w : R → Bool) (k : String) (f : R → R)
      → ((r : R) → key (f r) ≡ key r)
      → (rs : List R) (r : R) → first_where (by_key k) rs ≡ some r
      → first_where (by_key k) (update_where w f rs) ≡ some (if w r then f r else r)
  unfolding first_where update_where
  first-update_where w k f same [] r h = cc
  first-update_where w k f same (x ∷ xs) r h = elim (Bool-cases (by_key k x)) [
    | inl hit ↦ ground (arith, same x)
    | inr miss ↦ ground (arith, same x, first-update_where w k f same xs r)
  ]

  -- A row under another key is left alone.
  pub first-update_other :
      (k j : String) (f : R → R)
      → ((r : R) → key (f r) ≡ key r)
      → k ≢ j
      → (rs : List R)
      → first_where (by_key j) (update_where (by_key k) f rs) ≡ first_where (by_key j) rs
  unfolding first_where update_where
  first-update_other k j f same ne [] = refl
  first-update_other k j f same ne (x ∷ xs) =
      ground
        (arith, same x, eq_iff (key x) k, eq_iff (key x) j, first-update_other k j f same ne xs)

  -- Under a fresh key there is no row.
  All-fresh : (k : String) (rs : List R) → IsFresh k rs → All (λ r. by_key k r ≡ false) rs
  unfolding first_where
  All-fresh k [] h = tt
  All-fresh k (r ∷ rs) h = (ground arith, All-fresh k rs (ground arith))

  -- Each row of a table is the one that its key finds.
  pub All-found :
      (rs : List R) → IsUnique rs → All (λ r. first_where (by_key (key r)) rs ≡ some r) rs
  unfolding first_where
  All-found [] u = tt
  All-found (x ∷ xs) u = (
    ground (arith, eq_iff (key x) (key x)),
    All-map (λ r. (first_where (by_key (key r)) xs ≡ some r) × (by_key (key x) r ≡ false)) _
        (λ r h. ground (arith, h.0, h.1, eq_iff (key x) (key r), eq_iff (key r) (key x))) xs
        (All-both _ _ xs (All-found xs u.1) (All-fresh (key x) xs u.0)),
  )
