-- ===== src/Text/Decimals.antt =====
-- The verb %d of the package fmt, on natural numbers.
use ermine_tq.Prelude.{
  ℕ, zero, suc, ◌+◌, ◌/◌, ◌%◌, ◌≡◌, false, List, [], ◌∷◌, ◌++◌, ltb, ◌==◌, arith, if◌then◌else◌,
  All, All-append, Bool-cases, inl, inr,
}

-- At most so many digits.
unfoldable pub decimal_of : ℕ → ℕ → List ℕ
decimal_of zero n = []
decimal_of (suc k) n =
    let front = decimal_of k (n / 10) in
    if ltb n 10 then (b'0' + n % 10) ∷ [] else front ++ (b'0' + n % 10) ∷ []

-- A number below 2 ^ 64 has at most 20 digits.
unfoldable pub decimal : ℕ → List ℕ
unfolding decimal_of
decimal n = decimal_of 20 n

-- No character of the text of a number is below 48, where the digits begin.
abbrev pub IsDigits : List ℕ → Type 0
IsDigits = All (λ c. (c == b'.') ≡ false)

decimal_of-IsDigits : (k n : ℕ) → IsDigits (decimal_of k n)
unfolding decimal_of
decimal_of-IsDigits zero n = tt
decimal_of-IsDigits (suc k) n = elim (Bool-cases (ltb n 10)) [
  | inl e ↦ rw e (ground arith, tt)
  | inr e ↦
      rw e
        (All-append _ (decimal_of k (n / 10)) _ (decimal_of-IsDigits k (n / 10)) (ground arith, tt))
]

pub decimal-IsDigits : (n : ℕ) → IsDigits (decimal n)
unfolding decimal
decimal-IsDigits n = decimal_of-IsDigits 20 n
