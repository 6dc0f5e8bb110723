-- ===== src/Cnf/Window/Bits.antt =====
-- The bit arrays of a window as sets of offsets.
use discodb.Common.{
  ℕ, zero, suc, ◌+◌, ◌*◌, ◌/◌, ◌%◌, ◌^◌, ◌≤◌, ◌<◌, ◌≡◌, ◌≢◌, sym, ap, ◌∙◌, arith, Bool, true, false,
  ◌&&◌, ◌||◌, bit_and, bit_or, ◌==◌, if◌then◌else◌, update, max, digit, digit-bit_or, digit-bit_and,
  bit_and-pow, bit_and-le, digit-pow, digit-some, pow-pos, Bool-cases, inl, inr, field_of_mod, ltb,
}
use native.Mathlib.Nat.{zero-div, zero-mul}
use discodb.Cnf.Window.{
  cleared, set_bit, test_bit, isect, isect_loop, isect_word, isempty, isempty_loop, zero_word,
}

-- The array holds bytes.
abbrev pub IsByteArray : (ℕ → ℕ) → Type 0
IsByteArray b = (j : ℕ) → b j < 256

pub test_bit-digit : (b : ℕ → ℕ) (o : ℕ) → test_bit b o ≡ (digit (b (o / 8)) (o % 8) == 1)
unfolding test_bit
test_bit-digit b o =
    let e = bit_and-pow (o % 8) (b (o / 8)) in
    let pos = pow-pos (o % 8) in
    let two : digit (b (o / 8)) (o % 8) < 2 = omega arith in
    elim (Bool-cases (digit (b (o / 8)) (o % 8) == 1)) [
      | inl one ↦
          let d : digit (b (o / 8)) (o % 8) ≡ 1 = ground arith in
          let nonzero : (bit_and (b (o / 8)) (2 ^ (o % 8)) == 0) ≡ false =
            let v : bit_and (b (o / 8)) (2 ^ (o % 8)) ≡ 2 ^ (o % 8) =
              e ∙ ap (λ (t : ℕ). t * 2 ^ (o % 8)) d ∙ omega arith in
            rw v (ground arith) in
          rw (one, nonzero)
      | inr none_set ↦
          let d : digit (b (o / 8)) (o % 8) ≡ 0 = ground arith in
          let z : bit_and (b (o / 8)) (2 ^ (o % 8)) ≡ 0 =
            e ∙ ap (λ (t : ℕ). t * 2 ^ (o % 8)) d ∙ zero-mul (2 ^ (o % 8)) in
          rw (none_set, z)
    ]

-- After `set_bit`, the offsets whose bit is set are those of before and the one given.
pub test_bit-set_bit : (b : ℕ → ℕ) (o p : ℕ) → test_bit (set_bit b o) p ≡ (p == o || test_bit b p)
test_bit-set_bit b o p =
    test_bit-digit (set_bit b o) p
    ∙ unfold set_bit in go ∙ ap (λ t. p == o || t) (sym (test_bit-digit b p))
  where
    written : ℕ
    written = bit_or (b (o / 8)) (2 ^ (o % 8))

    low :
        (k : ℕ)
        → k < 8
        → digit (written % 256) k ≡ max (digit (b (o / 8)) k) (if k == o % 8 then 1 else 0)
    low k lt =
        field_of_mod written 8 k 1 (omega arith)
        ∙ digit-bit_or k (b (o / 8)) (2 ^ (o % 8))
        ∙ ap (λ (t : ℕ). max (digit (b (o / 8)) k) t) (digit-pow k (o % 8))

    go :
        (digit (update b (o / 8) (written % 256) (p / 8)) (p % 8) == 1)
        ≡ (p == o || digit (b (p / 8)) (p % 8) == 1)
    go =
        let l = low (p % 8) (omega arith) in
        elim (Bool-cases (o / 8 == p / 8)) [
          | inl e ↦
              let same : digit (b (o / 8)) (p % 8) ≡ digit (b (p / 8)) (p % 8) =
                ap (λ (t : ℕ). digit (b t) (p % 8)) (ground arith) in
              let two : digit (b (p / 8)) (p % 8) < 2 = omega arith in
              rw e (
                both (digit (written % 256) (p % 8)) (digit (b (p / 8)) (p % 8)) two (rw (← same) l)
                  (ground arith))
          | inr e ↦ let ne : (p == o) ≡ false = ground arith in rw (e, ne)
        ]
      where
        both :
            (x y : ℕ)
            → y < 2
            → x ≡ max y (if p % 8 == o % 8 then 1 else 0)
            → o / 8 ≡ p / 8
            → (x == 1) ≡ (p == o || y == 1)
        both x y lt e same = ground arith

pub set_bit-IsByteArray : (b : ℕ → ℕ) (o : ℕ) → IsByteArray b → IsByteArray (set_bit b o)
unfolding set_bit
set_bit-IsByteArray b o h j = ground (arith, h j)

isect_loop-at :
    (n : ℕ) (dst src : ℕ → ℕ) (j : ℕ)
    → isect_loop n dst src j ≡ (if ltb (j / 8) n then bit_and (dst j) (src j) else dst j)
unfolding isect_loop
isect_loop-at zero dst src j = let e : ltb (j / 8) 0 ≡ false = ground arith in rw e
isect_loop-at (suc n) dst src j =
    let rest = isect_loop-at n (isect_word n dst src) src j in
    elim (Bool-cases (ltb (j / 8) n)) [
      | inl lt ↦
          let here : (j / 8 == n) ≡ false = ground arith in
          let more : ltb (j / 8) (suc n) ≡ true = ground arith in rest ∙ rw (lt, here, more)
      | inr ge ↦ elim (Bool-cases (j / 8 == n)) [
        | inl here ↦
            let more : ltb (j / 8) (suc n) ≡ true = ground arith in rest ∙ rw (ge, here, more)
        | inr there ↦
            let more : ltb (j / 8) (suc n) ≡ false = ground arith in rest ∙ rw (ge, there, more)
      ]
    ]

-- Below 64 bits for each whole word, `isect` leaves the bits that both arrays have set.
pub test_bit-isect :
    (dst src : ℕ → ℕ) (len o : ℕ)
    → o < len / 8 * 64
    → test_bit (isect dst src len) o ≡ (test_bit dst o && test_bit src o)
unfolding isect
test_bit-isect dst src len o h =
    let inside : ltb (o / 8 / 8) (len / 8) ≡ true = ground arith in
    let at = isect_loop-at (len / 8) dst src (o / 8) in
    let both = digit-bit_and (o % 8) (dst (o / 8)) (src (o / 8)) in
    let byte : isect dst src len (o / 8) ≡ bit_and (dst (o / 8)) (src (o / 8)) =
      unfold isect in at ∙ rw inside in
    let x : digit (dst (o / 8)) (o % 8) < 2 = omega arith in
    let y : digit (src (o / 8)) (o % 8) < 2 = omega arith in
    rw
      (test_bit-digit (isect dst src len) o, test_bit-digit dst o, test_bit-digit src o, byte, both)
      (ground arith)

zero_word-at : (b : ℕ → ℕ) (i n k : ℕ) → zero_word b i n ≡ true → k < n → b (8 * i + k) ≡ 0
zero_word-at b i zero k e lt = absurd (omega arith)
zero_word-at b i (suc n) k e lt = elim (Bool-cases (k == n)) [
  | inl same ↦
      ap (λ (t : ℕ). b (8 * i + t)) (ground arith) ∙ last (zero_word b i n) (b (8 * i + n)) e
  | inr other ↦ zero_word-at b i n k (front (zero_word b i n) (b (8 * i + n) == 0) e) (ground arith)
]
  where
    last : (p : Bool) (x : ℕ) → (p && x == 0) ≡ true → x ≡ 0
    last p x h = ground arith

    front : (p q : Bool) → (p && q) ≡ true → p ≡ true
    front p q h = ground arith

zero_word-some :
    (b : ℕ → ℕ) (i n : ℕ) → zero_word b i n ≡ false → (k : ℕ) × (k < n) × (b (8 * i + k) ≢ 0)
zero_word-some b i zero e = ground arith
zero_word-some b i (suc n) e = elim (Bool-cases (zero_word b i n)) [
  | inl front ↦ (n, omega arith, λ z. ground arith)
  | inr front ↦ let (k, lt, ne) = zero_word-some b i n front in (k, omega arith, ne)
]

isempty_loop-at : (n : ℕ) (b : ℕ → ℕ) (j : ℕ) → isempty_loop n b ≡ true → j < 8 * n → b j ≡ 0
unfolding isempty_loop
isempty_loop-at zero b j e lt = absurd (omega arith)
isempty_loop-at (suc n) b j e lt = elim (Bool-cases (j / 8 == n)) [
  | inl here ↦
      ap b (ground arith)
      ∙ zero_word-at b n 8 (j % 8) (front (zero_word b n 8) (isempty_loop n b) e) (omega arith)
  | inr there ↦ isempty_loop-at n b j (back (zero_word b n 8) (isempty_loop n b) e) (ground arith)
]
  where
    front : (p q : Bool) → (p && q) ≡ true → p ≡ true
    front p q h = ground arith

    back : (p q : Bool) → (p && q) ≡ true → q ≡ true
    back p q h = ground arith

isempty_loop-some :
    (n : ℕ) (b : ℕ → ℕ) → isempty_loop n b ≡ false → (j : ℕ) × (j < 8 * n) × (b j ≢ 0)
unfolding isempty_loop
isempty_loop-some zero b e = ground arith
isempty_loop-some (suc n) b e = elim (Bool-cases (zero_word b n 8)) [
  | inl zeros ↦ let (j, lt, ne) = isempty_loop-some n b (ground arith) in (j, omega arith, ne)
  | inr some_set ↦ let (k, lt, ne) = zero_word-some b n 8 some_set in (8 * n + k, omega arith, ne)
]

pub isempty-true :
    (b : ℕ → ℕ) (len o : ℕ) → o < len / 8 * 64 → isempty b len ≡ true → test_bit b o ≡ false
unfolding isempty
isempty-true b len o h e =
    let z : b (o / 8) ≡ 0 = isempty_loop-at (len / 8) b (o / 8) e (omega arith) in
    rw (test_bit-digit b o, z, zero-div (2 ^ (o % 8)))

-- If the array holds bytes and `isempty` denies that it is empty, one of its bits is set.
pub isempty-false :
    (b : ℕ → ℕ) (len : ℕ)
    → IsByteArray b
    → isempty b len ≡ false
    → (o : ℕ) × (o < len / 8 * 64) × (test_bit b o ≡ true)
unfolding isempty
isempty-false b len h e =
    let (j, lt, ne) = isempty_loop-some (len / 8) b e in
    let (k, small, one) = digit-some 8 (b j) (h j) ne in
    let byte : (8 * j + k) / 8 ≡ j = omega arith in
    let place : (8 * j + k) % 8 ≡ k = omega arith in
    (8 * j + k, omega arith, rw (test_bit-digit b (8 * j + k), byte, place, one))

pub test_bit-cleared : (o : ℕ) → test_bit cleared o ≡ false
unfolding test_bit
test_bit-cleared o = rw (bit_and-pow (o % 8) 0, zero-div (2 ^ (o % 8)), zero-mul (2 ^ (o % 8)))

pub isect-IsByteArray :
    (dst src : ℕ → ℕ) (len : ℕ) → IsByteArray dst → IsByteArray (isect dst src len)
unfolding isect
isect-IsByteArray dst src len h j =
    let le = bit_and-le (dst j) (src j) in
    rw (isect_loop-at (len / 8) dst src j) (below (ltb (j / 8) (len / 8)) le)
  where
    below :
        (p : Bool)
        → bit_and (dst j) (src j) ≤ dst j
        → (if p then bit_and (dst j) (src j) else dst j) < 256
    below p le = ground (arith, h j)
