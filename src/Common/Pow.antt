-- ===== src/Common/Pow.antt =====
-- Powers of two, and quotients and remainders by them.
use Prim.Native.Nat.{ℕ, zero, suc, ◌+◌, ◌-◌, ◌*◌, ◌/◌, ◌%◌, ◌^◌, ◌≤◌, ◌<◌}
use mathlib.Core.Path.{◌≡◌, refl, ap, sym, ◌∙◌}
use native.Mathlib.Nat.{
  pow-zero, pow-suc, one-le-pow, mul_assoc, div-add-mod, mod-lt, add-mul-div_left, div-eq_of_lt,
  add-mul-mod_self_left, mod-eq_of_lt, div-div-eq-div-mul, div-lt_iff_lt-mul, mul_comm,
}
use native.Mathlib.Omega.{arith}

pub pow-add : (b m n : ℕ) → b ^ (m + n) ≡ b ^ m * b ^ n
pow-add b m zero = let e : m + zero ≡ m = omega arith in rw (e, pow-zero) (omega arith)
pow-add b m (suc n) =
    ap (λ (k : ℕ). b ^ k) (omega arith)
    ∙ pow-suc b (m + n)
    ∙ ap (λ (t : ℕ). t * b) (pow-add b m n)
    ∙ mul_assoc (b ^ m) (b ^ n) b
    ∙ ap (λ (t : ℕ). b ^ m * t) (sym (pow-suc b n))

pub pow-pos : (k : ℕ) → 0 < 2 ^ k
pow-pos k = one-le-pow k 2 (omega arith)

pub pow-split : (m n : ℕ) → n ≤ m → 2 ^ m ≡ 2 ^ n * 2 ^ (m - n)
pow-split m n h = ap (λ (k : ℕ). 2 ^ k) (omega arith) ∙ pow-add 2 n (m - n)

pub pow-256 : (q : ℕ) → 256 ^ q ≡ 2 ^ (8 * q)
pow-256 zero = refl
pow-256 (suc q) =
    pow-suc 256 q
    ∙ ap (λ (t : ℕ). t * 256) (pow-256 q)
    ∙ sym (pow-add 2 (8 * q) 8)
    ∙ ap (λ (k : ℕ). 2 ^ k) (omega arith)

pub pow-bytes : (offs : ℕ) → 2 ^ offs ≡ 256 ^ (offs / 8) * 2 ^ (offs % 8)
pow-bytes offs =
    ap (λ (k : ℕ). 2 ^ k) (omega arith)
    ∙ pow-add 2 (8 * (offs / 8)) (offs % 8)
    ∙ ap (λ (t : ℕ). t * 2 ^ (offs % 8)) (sym (pow-256 (offs / 8)))

-- The two digits of `lo + b * hi` in base `b`.
pub div-low : (b lo hi : ℕ) → lo < b → (lo + b * hi) / b ≡ hi
div-low b lo hi h = add-mul-div_left lo hi (omega arith) ∙ omega (arith, div-eq_of_lt h)

pub mod-low : (b lo hi : ℕ) → lo < b → (lo + b * hi) % b ≡ lo
mod-low b lo hi h = add-mul-mod_self_left lo b hi ∙ mod-eq_of_lt h

regroup : (y b c : ℕ) → y ≡ y % (b * c) + b * (c * (y / (b * c)))
regroup y b c = omega (arith, div-add-mod y (b * c), mul_assoc b c (y / (b * c)))

pub mod-mul-mod : (y b c : ℕ) → y % (b * c) % b ≡ y % b
mod-mul-mod y b c =
    sym (add-mul-mod_self_left (y % (b * c)) b (c * (y / (b * c))))
    ∙ ap (λ (t : ℕ). t % b) (sym (regroup y b c))

pub mod-mul-div : (y b c : ℕ) → 0 < b → 0 < c → y % (b * c) / b ≡ y / b % c
mod-mul-div y b c hb hc =
    sym (mod-low c (y % (b * c) / b) (y / (b * c)) small) ∙ ap (λ (t : ℕ). t % c) (sym split)
  where
    pos : 0 < b * c
    pos = grind arith

    small : y % (b * c) / b < c
    small = (div-lt_iff_lt-mul hb).1 (rw (mul_comm c b) (mod-lt y pos))

    split : y / b ≡ y % (b * c) / b + c * (y / (b * c))
    split =
        ap (λ (t : ℕ). t / b) (regroup y b c)
        ∙ add-mul-div_left (y % (b * c)) (c * (y / (b * c))) hb

pub div_div : (m n k : ℕ) → m / n / k ≡ m / (n * k)
div_div m n k = div-div-eq-div-mul m n k

-- A field inside the low part of a number is a field of the number.
pub field_of_mod : (y k r n : ℕ) → r + n ≤ k → y % 2 ^ k / 2 ^ r % 2 ^ n ≡ y / 2 ^ r % 2 ^ n
field_of_mod y k r n h =
    ap (λ (t : ℕ). y % t / 2 ^ r % 2 ^ n) (pow-split k r (omega arith))
    ∙ ap (λ (t : ℕ). t % 2 ^ n) (mod-mul-div y (2 ^ r) (2 ^ (k - r)) (pow-pos r) (pow-pos (k - r)))
    ∙ ap (λ (t : ℕ). y / 2 ^ r % t % 2 ^ n) (pow-split (k - r) n (omega arith))
    ∙ mod-mul-mod (y / 2 ^ r) (2 ^ n) (2 ^ (k - r - n))

pub mod-digit : (b c lo v : ℕ) → lo < b → 0 < c → (lo + b * v) % (b * c) ≡ lo + b * (v % c)
mod-digit b c lo v h pos =
    ap (λ (t : ℕ). t % (b * c)) split ∙ mod-low (b * c) (lo + b * (v % c)) (v / c) small
  where
    split : lo + b * v ≡ lo + b * (v % c) + b * c * (v / c)
    split = omega (arith, ap (λ (t : ℕ). b * t) (div-add-mod v c), mul_assoc b c (v / c))

    small : lo + b * (v % c) < b * c
    small = grind (arith, mod-lt v pos)
