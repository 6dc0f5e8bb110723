-- ===== src/Common/Bitwise.antt =====
-- `|` as a sum where the two sides share no bit, at every width.
use Prim.Native.Nat.{
  ℕ, zero, suc, ◌+◌, ◌*◌, ◌/◌, ◌%◌, ◌^◌, ◌≤◌, ◌<◌, max, bit_or, digits, bit_or-bitwise,
}
use mathlib.Core.Path.{◌≡◌, refl, ap, ◌∙◌}
use native.Mathlib.Nat.{pow-suc}
use native.Mathlib.Omega.{arith}
use native.Mathlib.Decide.{dec_le}

-- The rounds past the digits of `a` change nothing, and one round gives the lowest digit.
module _ (z : ℕ → ℕ) (f : ℕ → ℕ → ℕ) where
  one_round_more : (n a b : ℕ) → a ≤ n → digits z f (suc n) a b ≡ digits z f n a b
  one_round_more zero zero b h = refl
  one_round_more zero (suc a) b h = absurd (omega arith)
  one_round_more (suc n) zero b h = refl
  one_round_more (suc n) (suc a) b h =
      ap (λ (t : ℕ). t * 2 + f (suc a % 2) (b % 2))
        (one_round_more n (suc a / 2) (b / 2) (omega arith))

  rounds_enough : (n a b : ℕ) → a ≤ n → digits z f n a b ≡ digits z f a a b
  rounds_enough zero a b h = let none : a ≡ 0 = omega arith in rw none refl
  rounds_enough (suc n) a b h = elim (dec_le a n) [
    | yes le ↦ one_round_more n a b le ∙ rounds_enough n a b le
    | no gt ↦ let all : a ≡ suc n = omega arith in rw all refl
  ]

  pub lowest_digit :
      (a b : ℕ)
      → digits z f (suc a) (suc a) b
        ≡ digits z f (suc a / 2) (suc a / 2) (b / 2) * 2 + f (suc a % 2) (b % 2)
  lowest_digit a b =
      ap (λ (t : ℕ). t * 2 + f (suc a % 2) (b % 2))
        (rounds_enough a (suc a / 2) (b / 2) (omega arith))

pub zero-bit_or : (b : ℕ) → bit_or 0 b ≡ b
zero-bit_or b = bit_or-bitwise 0 b

-- The lowest digit of `a | b`, and the others.
pub bit_or_digit : (a b : ℕ) → bit_or a b ≡ bit_or (a / 2) (b / 2) * 2 + max (a % 2) (b % 2)
bit_or_digit zero b = omega (arith, zero-bit_or b, zero-bit_or (b / 2))
bit_or_digit (suc a) b = omega (
  arith,
  bit_or-bitwise (suc a) b,
  bit_or-bitwise (suc a / 2) (b / 2),
  lowest_digit (λ d. d) max a b,
)

bit_or-zero_below : (n a : ℕ) → a ≤ n → bit_or a 0 ≡ a
bit_or-zero_below n zero h = refl
bit_or-zero_below zero (suc a) h = absurd (omega arith)
bit_or-zero_below (suc n) (suc a) h =
    omega (arith, bit_or_digit (suc a) 0, bit_or-zero_below n (suc a / 2) (omega arith))

pub bit_or-zero : (a : ℕ) → bit_or a 0 ≡ a
bit_or-zero a = bit_or-zero_below a a (omega arith)

double : (q k : ℕ) → q * 2 ^ suc k ≡ 2 * (q * 2 ^ k)
double q k = omega (arith, ap (λ (t : ℕ). q * t) (pow-suc 2 k))

-- A field `v` of `k` bits goes below a number that is clear there.
pub bit_or_below : (k c v : ℕ) → v < 2 ^ k → bit_or (c * 2 ^ k) v ≡ c * 2 ^ k + v
bit_or_below zero c v h = ground (arith, bit_or-zero c)
bit_or_below (suc k) c v h = omega (
  arith,
  bit_or_digit (c * 2 ^ suc k) v,
  double c k,
  pow-suc 2 k,
  ap (λ (t : ℕ). bit_or t (v / 2)) halve,
  bit_or_below k c (v / 2) (omega (arith, pow-suc 2 k)),
)
  where
    halve : c * 2 ^ suc k / 2 ≡ c * 2 ^ k
    halve = omega (arith, double c k)

-- The low `r` bits of one side stay where the other side is clear.
pub bit_or_shift :
    (r x y a : ℕ) → a < 2 ^ r → bit_or (x * 2 ^ r + a) (y * 2 ^ r) ≡ bit_or x y * 2 ^ r + a
bit_or_shift zero x y a h =
    let left : x * 1 + a ≡ x = omega arith in
    let right : y * 1 ≡ y = omega arith in rw (left, right) (omega arith)
bit_or_shift (suc r) x y a h = omega (
  arith,
  bit_or_digit (x * 2 ^ suc r + a) (y * 2 ^ suc r),
  double x r,
  double y r,
  double (bit_or x y) r,
  left,
  bit_or_shift r x y (a / 2) (omega (arith, pow-suc 2 r)),
)
  where
    left :
        bit_or ((x * 2 ^ suc r + a) / 2) (y * 2 ^ suc r / 2)
        ≡ bit_or (x * 2 ^ r + a / 2) (y * 2 ^ r)
    left =
        ap (λ (t : ℕ). bit_or t (y * 2 ^ suc r / 2)) (omega (arith, double x r))
        ∙ ap (λ (t : ℕ). bit_or (x * 2 ^ r + a / 2) t) (omega (arith, double y r))

-- A field of `k` bits at offset `r`, written where there are zeros.
pub bit_or_field :
    (r k c v a : ℕ)
    → a < 2 ^ r
    → v < 2 ^ k
    → bit_or (c * 2 ^ k * 2 ^ r + a) (v * 2 ^ r) ≡ c * 2 ^ k * 2 ^ r + a + v * 2 ^ r
bit_or_field r k c v a ha hv =
    bit_or_shift r (c * 2 ^ k) v a ha
    ∙ ap (λ (t : ℕ). t * 2 ^ r + a) (bit_or_below k c v hv)
    ∙ omega arith
