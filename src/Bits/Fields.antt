-- ===== src/Bits/Fields.antt =====
-- src/ddb_bits.h: `read_bits` and `write_bits` as arithmetic on the number that a buffer holds.
use discodb.Common.{
  ℕ, ◌+◌, ◌-◌, ◌*◌, ◌/◌, ◌%◌, ◌^◌, ◌≤◌, ◌<◌, ◌≡◌, ap, sym, ◌∙◌, arith, bit_or, List, length,
  pow-pos, pow-bytes, pow-split, div_div, field_of_mod, bit_or_field, mod-low, div-low, ◌⊎◌, inl,
  inr,
}
use discodb.Bits.Bytes.{value, IsBytes, load}
use discodb.Bits.Value.{load-value, value-store, length-store, store-IsBytes}
use discodb.Bits.{u64, read_bits, write_bits}
use native.Mathlib.Nat.{
  mul_assoc, mul_comm, mod-lt, mod-eq_of_lt, div-add-mod, div-lt_iff_lt-mul, pow-le-pow_right,
  add-mul-div_right, add-mul-div_left, add-mul-mod_self_left,
}

div_bytes : (v offs : ℕ) → v / 256 ^ (offs / 8) / 2 ^ (offs % 8) ≡ v / 2 ^ offs
div_bytes v offs =
    div_div v (256 ^ (offs / 8)) (2 ^ (offs % 8)) ∙ ap (λ (t : ℕ). v / t) (sym (pow-bytes offs))

pub read_bits-value :
    (buf : List ℕ) (offs bits : ℕ)
    → IsBytes buf
    → bits ≤ 32
    → read_bits buf offs bits ≡ value buf / 2 ^ offs % 2 ^ bits
unfolding read_bits
read_bits-value buf offs bits h small =
    mod-eq_of_lt below
    ∙ ap (λ (t : ℕ). t / 2 ^ (offs % 8) % 2 ^ bits) (load-value 8 (offs / 8) buf h)
    ∙ field_of_mod (value buf / 256 ^ (offs / 8)) 64 (offs % 8) bits (omega arith)
    ∙ ap (λ (t : ℕ). t % 2 ^ bits) (div_bytes (value buf) offs)
  where
    below : load 8 (offs / 8) buf / 2 ^ (offs % 8) % 2 ^ bits < 2 ^ 32
    below = omega (
      arith,
      mod-lt (load 8 (offs / 8) buf / 2 ^ (offs % 8)) (pow-pos bits),
      pow-le-pow_right {n = 2} (omega arith) small,
    )

-- The word that `write_bits` stores.
module _ (w r k v : ℕ) (fits : r + k ≤ 64) (hv : v < 2 ^ k) (clear : w / 2 ^ r % 2 ^ k ≡ 0) where
  abbrev above : ℕ
  above = w / 2 ^ r / 2 ^ k

  word-split : w ≡ above * 2 ^ k * 2 ^ r + w % 2 ^ r
  word-split =
      let high : w / 2 ^ r ≡ above * 2 ^ k = omega (arith, div-add-mod (w / 2 ^ r) (2 ^ k)) in
      omega (arith, div-add-mod w (2 ^ r), ap (λ (t : ℕ). t * 2 ^ r) high)

  whole : 2 ^ (64 - r - k) * 2 ^ k * 2 ^ r ≡ 2 ^ 64
  whole = omega (
    arith,
    pow-split 64 r (omega arith),
    ap (λ (t : ℕ). 2 ^ r * t) (pow-split (64 - r) k (omega arith)),
    mul_assoc (2 ^ r) (2 ^ k) (2 ^ (64 - r - k)),
  )

  word-lt : w < 2 ^ 64 → w + v * 2 ^ r < 2 ^ 64
  word-lt hw =
      let room = 2 ^ (64 - r - k) in
      let x-lt : w / 2 ^ r < room * 2 ^ k =
        (div-lt_iff_lt-mul (pow-pos r)).1 (omega (arith, whole)) in
      let above-lt : above < room = (div-lt_iff_lt-mul (pow-pos k)).1 x-lt in
      let sum-le : above * 2 ^ k + v + 1 ≤ room * 2 ^ k = grind arith in
      let scaled : (above * 2 ^ k + v + 1) * 2 ^ r ≤ room * 2 ^ k * 2 ^ r = grind arith in
      omega (arith, scaled, whole, word-split, mod-lt w (pow-pos r))

  word-or : w < 2 ^ 64 → bit_or w (u64 (v * 2 ^ r)) ≡ w + v * 2 ^ r
  word-or hw =
      ap (λ (t : ℕ). bit_or w t) (mod-eq_of_lt (omega (arith, word-lt hw)))
      ∙ ap (λ (t : ℕ). bit_or t (v * 2 ^ r)) word-split
      ∙ bit_or_field r k above v (w % 2 ^ r) (mod-lt w (pow-pos r)) hv
      ∙ ap (λ (t : ℕ). t + v * 2 ^ r) (sym word-split)

-- Where the buffer has zeros, `write_bits` adds the field.
pub write_bits-value :
    (buf : List ℕ) (offs k val : ℕ)
    → IsBytes buf
    → offs / 8 + 8 ≤ length buf
    → k ≤ 57
    → val < 2 ^ k
    → value buf / 2 ^ offs % 2 ^ k ≡ 0
    → value (write_bits buf offs val) ≡ value buf + val * 2 ^ offs
unfolding write_bits
write_bits-value buf offs k val h fits small hv clear = omega (
  arith,
  value-store 8 (offs / 8) stored buf h fits below,
  ap (λ (t : ℕ). 256 ^ (offs / 8) * t) sum,
  ap (λ (t : ℕ). val * t) (pow-bytes offs),
  mul_assoc val (256 ^ (offs / 8)) (2 ^ (offs % 8)),
  mul_comm val (256 ^ (offs / 8)),
  mul_assoc (256 ^ (offs / 8)) val (2 ^ (offs % 8)),
)
  where
    stored : ℕ
    stored = bit_or (load 8 (offs / 8) buf) (u64 (val * 2 ^ (offs % 8)))

    word : load 8 (offs / 8) buf ≡ value buf / 256 ^ (offs / 8) % 2 ^ 64
    word = load-value 8 (offs / 8) buf h

    small_word : load 8 (offs / 8) buf < 2 ^ 64
    small_word = omega (arith, word)

    zeros : load 8 (offs / 8) buf / 2 ^ (offs % 8) % 2 ^ k ≡ 0
    zeros =
        ap (λ (t : ℕ). t / 2 ^ (offs % 8) % 2 ^ k) word
        ∙ field_of_mod (value buf / 256 ^ (offs / 8)) 64 (offs % 8) k (omega arith)
        ∙ ap (λ (t : ℕ). t % 2 ^ k) (div_bytes (value buf) offs)
        ∙ clear

    sum : stored ≡ load 8 (offs / 8) buf + val * 2 ^ (offs % 8)
    sum = word-or (load 8 (offs / 8) buf) (offs % 8) k val (omega arith) hv zeros small_word

    below : stored < 256 ^ 8
    below = omega (
      arith,
      sum,
      word-lt (load 8 (offs / 8) buf) (offs % 8) k val (omega arith) hv zeros small_word,
    )

pub length-write_bits :
    (buf : List ℕ) (offs val : ℕ) → length (write_bits buf offs val) ≡ length buf
unfolding write_bits
length-write_bits buf offs val = length-store 8 (offs / 8) _ buf

pub write_bits-IsBytes :
    (buf : List ℕ) (offs val : ℕ) → IsBytes buf → IsBytes (write_bits buf offs val)
unfolding write_bits
write_bits-IsBytes buf offs val h = store-IsBytes 8 (offs / 8) _ buf h

-- In a buffer of bytes, a value of at most 32 bits that is written inside the buffer where these
-- bits are clear is read back.
pub read_bits-write_bits_self :
    (buf : List ℕ) (offs k val : ℕ)
    → IsBytes buf
    → offs / 8 + 8 ≤ length buf
    → k ≤ 32
    → val < 2 ^ k
    → value buf / 2 ^ offs % 2 ^ k ≡ 0
    → read_bits (write_bits buf offs val) offs k ≡ val
read_bits-write_bits_self buf offs k val h fits small hv clear =
    read_bits-value (write_bits buf offs val) offs k (write_bits-IsBytes buf offs val h) small
    ∙ ap (λ (t : ℕ). t / 2 ^ offs % 2 ^ k)
        (write_bits-value buf offs k val h fits (omega arith) hv clear)
    ∙ ap (λ (t : ℕ). t % 2 ^ k) (add-mul-div_right (value buf) val (pow-pos offs))
    ∙ ap (λ (t : ℕ). t % 2 ^ k) (omega (arith, div-add-mod (value buf / 2 ^ offs) (2 ^ k)))
    ∙ mod-low (2 ^ k) val (value buf / 2 ^ offs / 2 ^ k) hv

-- In a buffer of bytes, after a value of at most 57 bits is written inside the buffer where these
-- bits are clear, every field of at most 32 bits that it does not overlap reads as before.
pub read_bits-write_bits_other :
    (buf : List ℕ) (offs k val o n : ℕ)
    → IsBytes buf
    → offs / 8 + 8 ≤ length buf
    → k ≤ 57
    → val < 2 ^ k
    → value buf / 2 ^ offs % 2 ^ k ≡ 0
    → n ≤ 32
    → (o + n ≤ offs) ⊎ (offs + k ≤ o)
    → read_bits (write_bits buf offs val) o n ≡ read_bits buf o n
read_bits-write_bits_other buf offs k val o n h fits small hv clear hn apart =
    read_bits-value (write_bits buf offs val) o n (write_bits-IsBytes buf offs val h) hn
    ∙ ap (λ (t : ℕ). t / 2 ^ o % 2 ^ n) (write_bits-value buf offs k val h fits small hv clear)
    ∙ elim apart [ inl before ↦ field_below before | inr after ↦ field_above after ]
    ∙ sym (read_bits-value buf o n h hn)
  where
    v : ℕ
    v = value buf

    field_below : o + n ≤ offs → (v + val * 2 ^ offs) / 2 ^ o % 2 ^ n ≡ v / 2 ^ o % 2 ^ n
    field_below le =
        let d = offs - o - n in
        let pow : 2 ^ offs ≡ 2 ^ o * (2 ^ n * 2 ^ d) =
          pow-split offs o (omega arith)
          ∙ ap (λ (t : ℕ). 2 ^ o * t) (pow-split (offs - o) n (omega arith)) in
        ap (λ (t : ℕ). (v + val * t) / 2 ^ o % 2 ^ n) pow
        ∙ ap (λ (t : ℕ). (v + t) / 2 ^ o % 2 ^ n) (grind arith)
        ∙ ap (λ (t : ℕ). t % 2 ^ n) (add-mul-div_left v (2 ^ n * (2 ^ d * val)) (pow-pos o))
        ∙ add-mul-mod_self_left (v / 2 ^ o) (2 ^ n) (2 ^ d * val)

    field_above : offs + k ≤ o → (v + val * 2 ^ offs) / 2 ^ o % 2 ^ n ≡ v / 2 ^ o % 2 ^ n
    field_above le =
        let low = v / 2 ^ offs / 2 ^ k in
        let pow : 2 ^ o ≡ 2 ^ offs * 2 ^ k * 2 ^ (o - offs - k) =
          pow-split o offs (omega arith)
          ∙ ap (λ (t : ℕ). 2 ^ offs * t) (pow-split (o - offs) k (omega arith))
          ∙ sym (mul_assoc (2 ^ offs) (2 ^ k) (2 ^ (o - offs - k))) in
        let same : (v + val * 2 ^ offs) / (2 ^ offs * 2 ^ k) ≡ v / (2 ^ offs * 2 ^ k) =
          sym (div_div (v + val * 2 ^ offs) (2 ^ offs) (2 ^ k))
          ∙ ap (λ (t : ℕ). t / 2 ^ k) (add-mul-div_right v val (pow-pos offs))
          ∙ ap (λ (t : ℕ). t / 2 ^ k) (omega (arith, div-add-mod (v / 2 ^ offs) (2 ^ k)))
          ∙ div-low (2 ^ k) val low hv
          ∙ div_div v (2 ^ offs) (2 ^ k) in
        ap (λ (t : ℕ). (v + val * 2 ^ offs) / t % 2 ^ n) pow
        ∙ ap (λ (t : ℕ). t % 2 ^ n)
            (sym (div_div (v + val * 2 ^ offs) (2 ^ offs * 2 ^ k) (2 ^ (o - offs - k))))
        ∙ ap (λ (t : ℕ). t / 2 ^ (o - offs - k) % 2 ^ n) same
        ∙ ap (λ (t : ℕ). t % 2 ^ n) (div_div v (2 ^ offs * 2 ^ k) (2 ^ (o - offs - k)))
        ∙ ap (λ (t : ℕ). v / t % 2 ^ n) (sym pow)
