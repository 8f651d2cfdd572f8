-- ===== src/Store/Attempts/Backoff.antt =====
-- The delay before a retry (retryBackoff in internal/store/attempts.go).
use Prim.Native.Nat.{min}
use native.Mathlib.Nat.{pow-suc}
use ermine_tq.Prelude.{
  ℕ, zero, suc, ◌+◌, ◌-◌, ◌*◌, ◌^◌, ◌≤◌, ◌<◌, ◌≡◌, ℤ, pos_part, arith, ltb, Bool-cases, inl, inr,
}
use ermine_tq.Store.Attempts.{retry_base_delay, retry_max_delay, clamp_shift, retry_backoff}

pow-grows : (k m : ℕ) → 2 ^ k ≤ 2 ^ (k + m)
pow-grows k zero = grind arith
pow-grows k (suc m) = grind (arith, pow-grows k m, pow-suc 2 (k + m))

pow_monotone : (k n : ℕ) → k ≤ n → 2 ^ k ≤ 2 ^ n
pow_monotone k n h = let e : n ≡ k + (n - k) = omega arith in rw e (pow-grows k (n - k))

-- The delay before a retry is 30 seconds doubled once for each retry counted so far, and one hour
-- where that is more; a negative count is no retry. The product that the code computes, before it
-- takes the smaller, is below 2 ^ 63, so it does not overflow.
pub retry_backoff-min :
    (n : ℤ)
    → (retry_backoff n ≡ min (retry_base_delay * 2 ^ pos_part n) retry_max_delay)
      × (retry_base_delay * 2 ^ clamp_shift n < 2 ^ 63)
unfolding retry_backoff
retry_backoff-min n = elim (Bool-cases (ltb 7 (pos_part n))) [
  | inl over ↦
      let big : 2 ^ 7 ≤ 2 ^ pos_part n = pow_monotone 7 (pos_part n) (ground arith) in
      rw over (omega (arith, big), omega arith)
  | inr within ↦
      let small : 2 ^ pos_part n ≤ 2 ^ 7 = pow_monotone (pos_part n) 7 (ground arith) in
      rw within (ground (arith, small), omega (arith, small))
]
