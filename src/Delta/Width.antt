-- ===== src/Delta/Width.antt =====
-- `bits_needed`: the width of the fields is enough for every difference, and no more than that.
use discodb.Common.{
  ℕ, zero, suc, ◌+◌, ◌*◌, ◌/◌, ◌^◌, ◌≤◌, ◌<◌, ◌≡◌, refl, ap, ◌⊎◌, inl, inr, arith, ◌==◌, Bool-cases,
  dec_lt,
}
use discodb.Delta.{count_bits, bits_needed}
use native.Mathlib.Nat.{pow-suc}

-- `k` rounds were made: `x` has `k` binary digits.
record HasDigits (x k : ℕ) : Type 0 where
  fits : x < 2 ^ k
  tight : 0 < x → (0 < k) × (2 ^ k ≤ 2 * x)
  none_of_zero : x ≡ 0 → k ≡ 0

pow-next : (k : ℕ) → 2 ^ (k + 1) ≡ 2 * 2 ^ k
pow-next k = let e : k + 1 ≡ suc k = omega arith in rw e (omega (arith, pow-suc 2 k))

HasDigits-suc : (x k : ℕ) → 0 < x → HasDigits (x / 2) k → HasDigits x (k + 1)
HasDigits-suc x k pos h = record {
  fits = omega (arith, h.fits, pow-next k);
  tight = λ p. (
    omega arith,
    elim (dec_lt 0 (x / 2)) [
      | yes q ↦ omega (arith, h.tight q, pow-next k)
      | no q ↦ omega (arith, pow-next k, ap (λ (t : ℕ). 2 ^ t) (h.none_of_zero (omega arith)))
    ],
  );
  none_of_zero = λ e. absurd (omega arith);
}

count_bits-HasDigits :
    (fuel x bits : ℕ)
    → x < 2 ^ fuel
    → (k : ℕ) × (count_bits fuel x bits ≡ bits + k) × (k ≤ fuel) × HasDigits x k
unfolding count_bits
count_bits-HasDigits zero x bits h = (
  0,
  omega arith,
  omega arith,
  record { fits = h; tight = λ p. absurd (omega arith); none_of_zero = λ e. refl },
)
count_bits-HasDigits (suc fuel) x bits h = elim (Bool-cases (x == 0)) [
  | inl e ↦ (
    0,
    rw e (omega arith),
    omega arith,
    record { fits = ground arith; tight = λ p. absurd (ground arith); none_of_zero = λ q. refl },
  )
  | inr e ↦
      let (k, count, small, digits) =
        count_bits-HasDigits fuel (x / 2) (bits + 1) (omega (arith, pow-suc 2 fuel)) in
      (k + 1, rw e (omega (arith, count)), omega arith, HasDigits-suc x k (ground arith) digits)
]

-- For a uint32_t the width is from 1 to 32, the number fits it, and it fits no smaller one.
pub bits_needed_lem :
    (max : ℕ)
    → max < 2 ^ 32
    → (1 ≤ bits_needed max)
      × (bits_needed max ≤ 32)
      × (max < 2 ^ bits_needed max)
      × ((bits_needed max ≡ 1) ⊎ (2 ^ bits_needed max ≤ 2 * max))
unfolding bits_needed
bits_needed_lem max h = elim (Bool-cases (max == 0)) [
  | inl e ↦
      let zero_max : max ≡ 0 = ground arith in
      let (k, count, small, digits) = count_bits-HasDigits 32 max 1 h in
      let w : count_bits 32 max 1 ≡ 1 = omega (arith, count, digits.none_of_zero zero_max) in
      rw (e, w) (omega arith, omega arith, omega arith, inl refl)
  | inr e ↦
      let (k, count, small, digits) = count_bits-HasDigits 32 max 0 h in
      let w : count_bits 32 max 0 ≡ k = omega (arith, count) in
      rw (e, w)
        (
          omega (arith, digits.tight (ground arith)),
          small,
          digits.fits,
          inr (digits.tight (ground arith)).1,
        )
]
