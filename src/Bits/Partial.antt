-- ===== src/Bits/Partial.antt =====
-- A buffer that is filled with fields one after the other.
use discodb.Common.{
  ℕ, ◌+◌, ◌-◌, ◌*◌, ◌/◌, ◌%◌, ◌^◌, ◌≤◌, ◌<◌, ◌≡◌, sym, ap, ◌∙◌, arith, List, ◌++◌, take, drop,
  length, length-take, All-take, pow-add, pow-split, pow-256, pow-pos, div-low, mod-low, ap₂, ◌==◌,
  if◌then◌else◌,
}
use discodb.Bits.Bytes.{IsBytes, value}
use discodb.Bits.{write_bits}
use discodb.Bits.Fields.{write_bits-value, length-write_bits, write_bits-IsBytes}
use discodb.Bits.Value.{value-append, value-split, value-lt}
use native.Mathlib.Nat.{mul-mod_right, mul_assoc}

-- `len` bytes for `bits` bits.
abbrev pub byte_length : ℕ → ℕ
byte_length bits = bits / 8 + (if bits % 8 == 0 then 0 else 1)

pub byte_length-bounds :
    (bits : ℕ) → (bits ≤ 8 * byte_length bits) × (8 * byte_length bits < bits + 8)
byte_length-bounds bits = ground arith

pub value-take :
    (n low high : ℕ) (xs : List ℕ)
    → IsBytes xs
    → n ≤ length xs
    → value xs ≡ low + 256 ^ n * high
    → low < 256 ^ n
    → value (take n xs) ≡ low
value-take n low high xs h fits e small =
    sym (mod-low (256 ^ n) (value (take n xs)) (value (drop n xs)) below)
    ∙ ap (λ (t : ℕ). t % 256 ^ n) (sym (value-split n xs fits) ∙ e)
    ∙ mod-low (256 ^ n) low high small
  where
    taken : length (take n xs) ≡ n
    taken = omega (arith, length-take n xs)

    below : value (take n xs) < 256 ^ n
    below = omega (
      arith,
      value-lt (take n xs) (All-take (λ b. b < 256) n xs h),
      ap (λ (t : ℕ). 256 ^ t) taken,
    )

-- The number of a buffer whose fields so far make up `s` and whose bytes from `len + 8` on hold `junk`.
module _ (len junk : ℕ) where
  pub record IsPartial (s offs : ℕ) (buf : List ℕ) : Type 0 where
    pub bytes : IsBytes buf
    pub room : len + 8 ≤ length buf
    pub fields : value buf ≡ s + 2 ^ (8 * (len + 8)) * junk
    pub below : s < 2 ^ offs

  -- Appending one field.
  pub IsPartial-write_bits :
      (bits s offs d : ℕ) (buf : List ℕ)
      → IsPartial s offs buf
      → d < 2 ^ bits
      → bits ≤ 57
      → 0 < bits
      → offs + bits ≤ 8 * len
      → IsPartial (s + 2 ^ offs * d) (offs + bits) (write_bits buf offs d)
  IsPartial-write_bits bits s offs d buf p hd small pos fits = record {
    bytes = write_bits-IsBytes buf offs d p.bytes;
    room = omega (arith, length-write_bits buf offs d, p.room);
    fields = omega (
      arith,
      write_bits-value buf offs bits d p.bytes (omega (arith, p.room)) small hd clear,
      p.fields,
    );
    below = omega (
      arith,
      pow-add 2 offs bits,
      p.below,
      (let h : 2 ^ offs * (d + 1) ≤ 2 ^ offs * 2 ^ bits = grind arith in h),
    );
  }
    where
      rest : ℕ
      rest = 8 * (len + 8) - offs - bits

      high : value buf ≡ s + 2 ^ offs * (2 ^ bits * (2 ^ rest * junk))
      high =
          p.fields
          ∙ ap (λ (t : ℕ). s + t * junk) (pow-split (8 * (len + 8)) offs (omega arith))
          ∙ ap (λ (t : ℕ). s + 2 ^ offs * t * junk)
              (pow-split (8 * (len + 8) - offs) bits (omega arith))
          ∙ omega arith

      clear : value buf / 2 ^ offs % 2 ^ bits ≡ 0
      clear =
          ap (λ (t : ℕ). t / 2 ^ offs % 2 ^ bits) high
          ∙ ap (λ (t : ℕ). t % 2 ^ bits)
              (div-low (2 ^ offs) s (2 ^ bits * (2 ^ rest * junk)) p.below)
          ∙ mul-mod_right (2 ^ bits) (2 ^ rest * junk)

  -- The bytes of the fields, followed by others.
  pub value-sealed :
      (s offs : ℕ) (buf rest : List ℕ)
      → IsPartial s offs buf
      → offs ≤ 8 * len
      → value (take (byte_length offs) buf ++ rest)
        ≡ s + 2 ^ offs * (2 ^ (8 * byte_length offs - offs) * value rest)
  value-sealed s offs buf rest p fits =
      value-append (take size buf) rest
      ∙ ap₂ ◌+◌ front (
          ap (λ (t : ℕ). 256 ^ t * value rest) taken
          ∙ ap (λ (t : ℕ). t * value rest) size_pow
          ∙ mul_assoc (2 ^ offs) (2 ^ (8 * size - offs)) (value rest))
    where
      size : ℕ
      size = byte_length offs

      bounds : (offs ≤ 8 * size) × (size ≤ len)
      bounds = let b = byte_length-bounds offs in (b.0, omega (arith, b.1))

      size_pow : 256 ^ size ≡ 2 ^ offs * 2 ^ (8 * size - offs)
      size_pow = pow-256 size ∙ pow-split (8 * size) offs bounds.0

      taken : length (take size buf) ≡ size
      taken = omega (arith, length-take size buf, p.room, bounds)

      front : value (take size buf) ≡ s
      front =
          value-take size s (2 ^ (8 * (len + 8) - 8 * size) * junk) buf p.bytes
            (omega (arith, p.room, bounds))
            (p.fields
              ∙ ap (λ (t : ℕ). s + t * junk)
                  (pow-split (8 * (len + 8)) (8 * size) (omega (arith, bounds)))
              ∙ ap (λ (t : ℕ). s + t * 2 ^ (8 * (len + 8) - 8 * size) * junk) (sym (pow-256 size))
              ∙ omega (arith, mul_assoc (256 ^ size) (2 ^ (8 * (len + 8) - 8 * size)) junk))
            (omega (
              arith,
              p.below,
              size_pow,
              (let h : 2 ^ offs ≤ 2 ^ offs * 2 ^ (8 * size - offs) =
                    grind (arith, pow-pos (8 * size - offs)) in
                  h),
            ))
