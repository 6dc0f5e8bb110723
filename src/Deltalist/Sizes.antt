-- ===== src/Deltalist/Sizes.antt =====
-- The sizes of a segment: 0, then the powers of two from 4 to 32768, then UINT16_MAX.
use discodb.Common.{ℕ, suc, ◌*◌, ◌^◌, ◌≤◌, ◌<◌, ◌≡◌, ◌≢◌, ap, arith, dec_lt}
use discodb.Deltalist.{grown_size, uint16_max}
use native.Mathlib.Nat.{pow-suc, pow-le-pow_right, one-le-pow}

pub data IsSize (n : ℕ) : Type 0 where
  empty : n ≡ 0 → IsSize n
  power : (k : ℕ) → k ≤ 13 → n ≡ 4 * 2 ^ k → IsSize n
  largest : n ≡ uint16_max → IsSize n

pub IsSize-le : {n : ℕ} → IsSize n → n ≤ uint16_max
IsSize-le (empty e) = omega arith
IsSize-le (power k h e) = omega (arith, e, pow-le-pow_right {n = 2} (omega arith) h)
IsSize-le (largest e) = omega arith

-- Growing keeps to these sizes, without wrapping, and gives room for one more entry at least.
pub grown_size-IsSize :
    {n : ℕ}
    → IsSize n
    → n ≢ uint16_max
    → IsSize (grown_size n) × (n < grown_size n) × (1 < grown_size n)
unfolding grown_size
grown_size-IsSize {n} (empty e) ne =
    let four : grown_size n ≡ 4 = unfold grown_size in ground arith in
    (power 0 (omega arith) four, omega (arith, four), omega (arith, four))
grown_size-IsSize {n} (power k h e) ne = elim (dec_lt k 13) [
  | yes lt ↦
      let le = pow-le-pow_right {n = 2} (omega arith) lt in
      let bound : n * 2 ≤ 32768 = omega (arith, e, le, pow-suc 2 k) in
      let pos : 0 < 2 ^ k = one-le-pow k 2 (omega arith) in
      let doubled : grown_size n ≡ n * 2 = unfold grown_size in ground arith in
      (
        power (suc k) lt (omega (arith, doubled, e, pow-suc 2 k)),
        omega (arith, doubled, e),
        omega (arith, doubled, e),
      )
  | no ge ↦
      let thirteen : k ≡ 13 = omega arith in
      let top : 2 ^ k ≡ 2 ^ 13 = ap (λ (t : ℕ). 2 ^ t) thirteen in
      let last : grown_size n ≡ uint16_max = unfold grown_size in ground arith in
      (largest last, omega (arith, last, e, top), omega (arith, last))
]
grown_size-IsSize (largest e) ne = absurd (ne e)
