-- ===== src/Bits/Value.antt =====
-- Accesses of a buffer as arithmetic on the number that it holds.
use discodb.Common.{
  ℕ, zero, suc, ◌+◌, ◌*◌, ◌/◌, ◌%◌, ◌^◌, ◌≤◌, ◌<◌, ◌≡◌, refl, ap, sym, ◌∙◌, arith, List, [], ◌∷◌,
  ◌++◌, take, drop, replicate, length, length-append, div_div, div-low, All-append, All-take,
  All-drop, mod-digit, length-take, length-drop, take-append-drop,
}
use discodb.Bits.Bytes.{value, IsBytes, load_bytes, store_bytes, load, store, to_bytes}
use native.Mathlib.Nat.{
  pow-suc, pow-succ', mul_assoc, zero-mod, zero-div, one-le-pow, mod-eq_of_lt, div-add-mod,
}

pow-byte_pos : (k : ℕ) → 0 < 256 ^ k
pow-byte_pos k = one-le-pow k 256 (omega arith)

pub value-append : (xs ys : List ℕ) → value (xs ++ ys) ≡ value xs + 256 ^ length xs * value ys
value-append [] ys = omega arith
value-append (x ∷ xs) ys = omega (
  arith,
  value-append xs ys,
  ap (λ (t : ℕ). t * value ys) (pow-suc 256 (length xs)),
  mul_assoc (256 ^ length xs) 256 (value ys),
)

pub value-lt : (xs : List ℕ) → IsBytes xs → value xs < 256 ^ length xs
value-lt [] h = omega arith
value-lt (x ∷ xs) h = omega (arith, value-lt xs h.1, pow-suc 256 (length xs))

pub value-replicate_zero : (n : ℕ) → value (replicate n 0) ≡ 0
value-replicate_zero zero = refl
value-replicate_zero (suc n) = omega (arith, value-replicate_zero n)

pub replicate_zero-IsBytes : (n : ℕ) → IsBytes (replicate n 0)
replicate_zero-IsBytes zero = tt
replicate_zero-IsBytes (suc n) = (omega arith, replicate_zero-IsBytes n)

pub load_bytes-value : (n : ℕ) (xs : List ℕ) → IsBytes xs → load_bytes n xs ≡ value xs % 256 ^ n
unfolding load_bytes
load_bytes-value zero xs h = omega arith
load_bytes-value (suc n) [] h = sym (zero-mod (256 ^ suc n))
load_bytes-value (suc n) (x ∷ xs) h =
    rw (load_bytes-value n xs h.1, pow-succ' 256 n)
      (sym (mod-digit 256 (256 ^ n) x (value xs) h.0 (pow-byte_pos n)))

pub value-split :
    (n : ℕ) (xs : List ℕ)
    → n ≤ length xs
    → value xs ≡ value (take n xs) + 256 ^ n * value (drop n xs)
value-split zero xs h = omega arith
value-split (suc n) [] h = absurd (omega arith)
value-split (suc n) (x ∷ xs) h = omega (
  arith,
  value-split n xs (omega arith),
  ap (λ (t : ℕ). t * value (drop n xs)) (pow-suc 256 n),
  mul_assoc (256 ^ n) 256 (value (drop n xs)),
)

pub value-store_bytes :
    (n w : ℕ) (xs : List ℕ)
    → n ≤ length xs
    → value (store_bytes n w xs) ≡ w % 256 ^ n + 256 ^ n * value (drop n xs)
unfolding store_bytes
value-store_bytes zero w xs h = omega arith
value-store_bytes (suc n) w [] h = absurd (omega arith)
value-store_bytes (suc n) w (x ∷ xs) h = omega (
  arith,
  value-store_bytes n (w / 256) xs (omega arith),
  ap (λ (t : ℕ). t * value (drop n xs)) (pow-suc 256 n),
  mul_assoc (256 ^ n) 256 (value (drop n xs)),
  digit,
)
  where
    split : w ≡ w % 256 + 256 * (w / 256)
    split = omega arith

    digit : w % 256 ^ suc n ≡ w % 256 + 256 * (w / 256 % 256 ^ n)
    digit =
        ap (λ (t : ℕ). t % 256 ^ suc n) split
        ∙ ap (λ (t : ℕ). (w % 256 + 256 * (w / 256)) % t) (pow-succ' 256 n)
        ∙ mod-digit 256 (256 ^ n) (w % 256) (w / 256) (omega arith) (pow-byte_pos n)

pub length-store_bytes : (n w : ℕ) (xs : List ℕ) → length (store_bytes n w xs) ≡ length xs
unfolding store_bytes
length-store_bytes zero w xs = refl
length-store_bytes (suc n) w [] = refl
length-store_bytes (suc n) w (x ∷ xs) = ap suc (length-store_bytes n (w / 256) xs)

pub store_bytes-IsBytes : (n w : ℕ) (xs : List ℕ) → IsBytes xs → IsBytes (store_bytes n w xs)
unfolding store_bytes
store_bytes-IsBytes zero w xs h = h
store_bytes-IsBytes (suc n) w [] h = h
store_bytes-IsBytes (suc n) w (x ∷ xs) h = (omega arith, store_bytes-IsBytes n (w / 256) xs h.1)

pub store-IsBytes : (n i w : ℕ) (xs : List ℕ) → IsBytes xs → IsBytes (store n i w xs)
store-IsBytes n i w xs h =
    All-append (λ b. b < 256) (take i xs) (store_bytes n w (drop i xs))
      (All-take (λ b. b < 256) i xs h)
      (store_bytes-IsBytes n w (drop i xs) (All-drop (λ b. b < 256) i xs h))

pub length-store : (n i w : ℕ) (xs : List ℕ) → length (store n i w xs) ≡ length xs
length-store n i w xs = omega (
  arith,
  length-append (take i xs) (store_bytes n w (drop i xs)),
  length-store_bytes n w (drop i xs),
  length-append (take i xs) (drop i xs),
  ap length (take-append-drop i xs),
)

pub value-drop : (i : ℕ) (xs : List ℕ) → IsBytes xs → value (drop i xs) ≡ value xs / 256 ^ i
value-drop zero xs h = omega arith
value-drop (suc i) [] h = sym (zero-div (256 ^ suc i))
value-drop (suc i) (x ∷ xs) h =
    value-drop i xs h.1
    ∙ ap (λ (t : ℕ). t / 256 ^ i) (sym (div-low 256 x (value xs) h.0))
    ∙ div_div (x + 256 * value xs) 256 (256 ^ i)
    ∙ ap (λ (t : ℕ). (x + 256 * value xs) / t) (sym (pow-succ' 256 i))

pub load-value : (n i : ℕ) (xs : List ℕ) → IsBytes xs → load n i xs ≡ value xs / 256 ^ i % 256 ^ n
load-value n i xs h =
    load_bytes-value n (drop i xs) (All-drop (λ b. b < 256) i xs h)
    ∙ ap (λ (t : ℕ). t % 256 ^ n) (value-drop i xs h)

-- What a store changes: the number that the buffer holds moves by the change of the word.
pub value-store :
    (n i w : ℕ) (xs : List ℕ)
    → IsBytes xs
    → i + n ≤ length xs
    → w < 256 ^ n
    → value (store n i w xs) + 256 ^ i * load n i xs ≡ value xs + 256 ^ i * w
value-store n i w xs h fits small =
    let tail = drop i xs in
    omega (
      arith,
      value-append (take i xs) (store_bytes n w tail),
      ap (λ (t : ℕ). 256 ^ t * value (store_bytes n w tail)) front,
      ap (λ (t : ℕ). 256 ^ i * t) (value-store_bytes n w tail inside),
      ap (λ (t : ℕ). 256 ^ i * t) (mod-eq_of_lt small),
      value-split i xs (omega arith),
      ap (λ (t : ℕ). 256 ^ i * t) (whole tail inside (All-drop (λ b. b < 256) i xs h)),
    )
  where
    front : length (take i xs) ≡ i
    front = omega (arith, length-take i xs)

    inside : n ≤ length (drop i xs)
    inside = omega (arith, length-drop i xs)

    whole :
        (ys : List ℕ)
        → n ≤ length ys
        → IsBytes ys
        → value ys ≡ load_bytes n ys + 256 ^ n * value (drop n ys)
    whole ys k b = omega (
      arith,
      ap (λ (t : ℕ). 256 ^ n * t) (value-drop n ys b),
      load_bytes-value n ys b,
      div-add-mod (value ys) (256 ^ n),
    )

pub length-to_bytes : (n w : ℕ) → length (to_bytes n w) ≡ n
unfolding to_bytes
length-to_bytes zero w = refl
length-to_bytes (suc n) w = ap suc (length-to_bytes n (w / 256))

-- An integer is read back from its bytes, whatever follows them.
pub load_bytes-to_bytes :
    (n w : ℕ) (rest : List ℕ) → load_bytes n (to_bytes n w ++ rest) ≡ w % 256 ^ n
unfolding load_bytes to_bytes
load_bytes-to_bytes zero w rest = omega arith
load_bytes-to_bytes (suc n) w rest =
    let digits : w % 256 + 256 * (w / 256) ≡ w = omega arith in
    let top : 256 ^ suc n ≡ 256 * 256 ^ n = omega (arith, pow-suc 256 n) in
    ap (λ (t : ℕ). w % 256 + 256 * t) (load_bytes-to_bytes n (w / 256) rest)
    ∙ sym
        (mod-digit 256 (256 ^ n) (w % 256) (w / 256) (omega arith) (one-le-pow n 256 (omega arith)))
    ∙ ap (λ (t : ℕ). t % (256 * 256 ^ n)) digits
    ∙ ap (λ (t : ℕ). w % t) (sym top)
