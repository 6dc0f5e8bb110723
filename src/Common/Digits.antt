-- ===== src/Common/Digits.antt =====
-- The binary digits of `|` and `&`.
use Prim.Native.Nat.{
  ℕ, zero, suc, ◌+◌, ◌*◌, ◌/◌, ◌%◌, ◌^◌, ◌≤◌, ◌<◌, min, max, bit_and, bit_or, bit_and-bitwise,
}
use mathlib.Core.Path.{◌≡◌, refl, sym, ap, ◌∙◌}
use mathlib.Core.Logic.{◌≢◌, inl, inr}
use mathlib.Core.Bool.{false}
use native.Mathlib.Nat.{pow-suc, pow-succ', mul_assoc, zero-div}
use native.Mathlib.Omega.{arith}
use discodb.Common.Tests.{◌==◌, Bool-cases, if◌then◌else◌}
use discodb.Common.Pow.{div_div}
use discodb.Common.Bitwise.{bit_or_digit, lowest_digit}

-- `a & b` by the digits of both, the lowest one first.
min_digits : (a b : ℕ) → bit_and a b ≡ bit_and (a / 2) (b / 2) * 2 + min (a % 2) (b % 2)
min_digits zero b = omega (arith, bit_and-bitwise 0 b, bit_and-bitwise 0 (b / 2))
min_digits (suc a) b = omega (
  arith,
  lowest_digit (λ d. 0) min a b,
  bit_and-bitwise (suc a) b,
  bit_and-bitwise (suc a / 2) (b / 2),
)

and_below : (n a b : ℕ) → a ≤ n → (bit_and a b ≤ a) × (bit_and a b ≤ b)
and_below n zero b h = let none = bit_and-bitwise 0 b in (omega (arith, none), omega (arith, none))
and_below zero (suc a) b h = absurd (omega arith)
and_below (suc n) (suc a) b h =
    let half = and_below n (suc a / 2) (b / 2) (omega arith) in
    let low = min_digits (suc a) b in (omega (arith, low, half.0), omega (arith, low, half.1))

pub bit_and-le : (a b : ℕ) → bit_and a b ≤ a
bit_and-le a b = (and_below a a b (omega arith)).0

-- The digit of weight 2 ^ k.
abbrev pub digit : ℕ → ℕ → ℕ
digit x k = x / 2 ^ k % 2

digit-suc : (x k : ℕ) → digit x (suc k) ≡ digit (x / 2) k
digit-suc x k =
    ap (λ (t : ℕ). x / t % 2) (pow-succ' 2 k) ∙ ap (λ (t : ℕ). t % 2) (sym (div_div x 2 (2 ^ k)))

pub digit-bit_or : (k a b : ℕ) → digit (bit_or a b) k ≡ max (digit a k) (digit b k)
digit-bit_or zero a b = omega (arith, bit_or_digit a b)
digit-bit_or (suc k) a b =
    let half : bit_or a b / 2 ≡ bit_or (a / 2) (b / 2) = omega (arith, bit_or_digit a b) in
    omega (
      arith,
      digit-suc (bit_or a b) k,
      ap (λ (t : ℕ). digit t k) half,
      digit-bit_or k (a / 2) (b / 2),
      digit-suc a k,
      digit-suc b k,
    )

pub digit-bit_and : (k a b : ℕ) → digit (bit_and a b) k ≡ min (digit a k) (digit b k)
digit-bit_and zero a b = omega (arith, min_digits a b)
digit-bit_and (suc k) a b =
    let half : bit_and a b / 2 ≡ bit_and (a / 2) (b / 2) = omega (arith, min_digits a b) in
    omega (
      arith,
      digit-suc (bit_and a b) k,
      ap (λ (t : ℕ). digit t k) half,
      digit-bit_and k (a / 2) (b / 2),
      digit-suc a k,
      digit-suc b k,
    )

pub bit_and-pow : (k x : ℕ) → bit_and x (2 ^ k) ≡ digit x k * 2 ^ k
bit_and-pow zero x = omega (arith, min_digits x 1, (and_below (x / 2) (x / 2) 0 (omega arith)).1)
bit_and-pow (suc k) x =
    let half : 2 ^ suc k / 2 ≡ 2 ^ k = omega (arith, pow-suc 2 k) in
    omega (
      arith,
      min_digits x (2 ^ suc k),
      ap (λ (t : ℕ). bit_and (x / 2) t) half,
      bit_and-pow k (x / 2),
      ap (λ (t : ℕ). t * 2 ^ k) (digit-suc x k),
      ap (λ (t : ℕ). digit x (suc k) * t) (pow-suc 2 k),
      mul_assoc (digit x (suc k)) (2 ^ k) 2,
      pow-suc 2 k,
    )

pub digit-pow : (k m : ℕ) → digit (2 ^ m) k ≡ (if k == m then 1 else 0)
digit-pow zero zero = refl
digit-pow zero (suc m) =
    let e : (0 == suc m) ≡ false = ground arith in rw e (omega (arith, pow-suc 2 m))
digit-pow (suc k) zero =
    let e : (suc k == 0) ≡ false = ground arith in
    rw e (digit-suc 1 k ∙ ap (λ (t : ℕ). t % 2) (zero-div (2 ^ k)))
digit-pow (suc k) (suc m) =
    let e : (suc k == suc m) ≡ (k == m) = ground arith in
    let half : 2 ^ suc m / 2 ≡ 2 ^ m = omega (arith, pow-suc 2 m) in
    rw e (digit-suc (2 ^ suc m) k ∙ ap (λ (t : ℕ). digit t k) half ∙ digit-pow k m)

-- A number that is not 0 has a digit 1, below any bound on its length.
pub digit-some : (n x : ℕ) → x < 2 ^ n → x ≢ 0 → (k : ℕ) × (k < n) × (digit x k ≡ 1)
digit-some zero x lt ne = absurd (ne (omega arith))
digit-some (suc n) x lt ne = elim (Bool-cases (x % 2 == 1)) [
  | inl e ↦ (0, omega arith, ground arith)
  | inr e ↦
      let (k, small, one) =
        digit-some n (x / 2) (omega (arith, pow-suc 2 n)) (λ z. ne (ground arith)) in
      (suc k, omega arith, digit-suc x k ∙ one)
]
