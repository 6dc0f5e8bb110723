-- ===== src/Delta/Allocate.antt =====
-- `allocate_bits`: the buffer holds the bits asked for and eight bytes more, all of them zero.
use discodb.Common.{
  ℕ, zero, suc, ◌+◌, ◌*◌, ◌^◌, ◌≤◌, ◌<◌, ◌≡◌, ap, ◌∙◌, arith, List, ltb, Bool-cases, inl, inr, none,
  some, Option-cases, length, length-append, length-replicate, length-drop, replicate, drop,
  All-append, All-drop, ◌⊎◌, pow-256,
}
use discodb.Bits.{IsBytes, value}
use discodb.Bits.Partial.{byte_length}
use discodb.Bits.Value.{value-append, value-replicate_zero, replicate_zero-IsBytes}
use discodb.Libc.{Malloc}
use discodb.Delta.{Buffer, grow_size, clear_front, allocate_bits, buf_increment}

pub record IsBuffer (b : Buffer) : Type 0 where
  pub bytes : IsBytes b.bytes
  pub size : length b.bytes ≡ b.size

pub grow_size-enough :
    (fuel needed size : ℕ) → needed ≤ size + fuel → needed ≤ grow_size fuel needed size
unfolding grow_size
grow_size-enough zero needed size h = omega arith
grow_size-enough (suc fuel) needed size h =
    ground (arith, grow_size-enough fuel needed (size + buf_increment))

-- A cleared buffer: `len + 8` zeros, then `junk`.
pub record IsCleared (len junk : ℕ) (b : Buffer) : Type 0 where
  pub buffer : IsBuffer b
  pub room : len + 8 ≤ length b.bytes
  pub zeros : value b.bytes ≡ 2 ^ (8 * (len + 8)) * junk

pub clear_front-IsCleared :
    (len : ℕ) (bytes : List ℕ) (size : ℕ)
    → IsBytes bytes
    → length bytes ≡ size
    → len + 8 ≤ size
    → (junk : ℕ) × IsCleared len junk (record { bytes = clear_front (len + 8) bytes; size = size })
clear_front-IsCleared len bytes size h e fits = (
  value (drop (len + 8) bytes),
  record {
    buffer = record {
      bytes =
          All-append (λ b. b < 256) (replicate (len + 8) 0) (drop (len + 8) bytes)
            (replicate_zero-IsBytes (len + 8)) (All-drop (λ b. b < 256) (len + 8) bytes h);
      size = whole;
    };
    room = omega (arith, whole);
    zeros =
        value-append (replicate (len + 8) 0) (drop (len + 8) bytes)
        ∙ ap
            (λ (t : ℕ).
              t + 256 ^ length (replicate (len + 8) (zero)) * value (drop (len + 8) bytes))
            (value-replicate_zero (len + 8))
        ∙ ap (λ (t : ℕ). 0 + 256 ^ t * value (drop (len + 8) bytes)) (length-replicate (len + 8) 0)
        ∙ ap (λ (t : ℕ). 0 + t * value (drop (len + 8) bytes)) (pow-256 (len + 8))
        ∙ omega arith;
  },
)
  where
    whole : length (clear_front (len + 8) bytes) ≡ size
    whole = omega (
      arith,
      length-append (replicate (len + 8) 0) (drop (len + 8) bytes),
      length-replicate (len + 8) (zero),
      length-drop (len + 8) bytes,
    )

module _ (libc : Malloc) where
  -- On success the length is that of the bits, and the buffer is cleared; it fails only if `malloc` does.
  pub allocate_bits_lem :
      (b : Buffer) (bits : ℕ)
      → IsBuffer b
      → ((n : ℕ) × (allocate_bits libc b bits ≡ none) × (libc.malloc n ≡ none))
        ⊎ ((b' : Buffer) × (junk : ℕ) × (allocate_bits libc b bits ≡ some (byte_length bits, b'))
            × IsCleared (byte_length bits) junk b')
  unfolding allocate_bits
  allocate_bits_lem b bits h = elim (Bool-cases (ltb b.size (byte_length bits + 8))) [
    | inl small ↦
        elim (Option-cases
          (libc.malloc (grow_size (byte_length bits + 8) (byte_length bits + 8) b.size))) [
            | inl failed ↦ inl (_, rw (small, failed), failed)
            | inr (block, got) ↦
                let (junk, cleared) =
                  clear_front-IsCleared (byte_length bits) block
                    (grow_size (byte_length bits + 8) (byte_length bits + 8) b.size)
                    (libc.bytes-malloc _ block got) (libc.length-malloc _ block got)
                    (grow_size-enough (byte_length bits + 8) (byte_length bits + 8) b.size
                      (omega arith)) in
                inr (_, junk, rw (small, got), cleared)
          ]
    | inr large ↦
        let (junk, cleared) =
          clear_front-IsCleared (byte_length bits) b.bytes b.size h.bytes h.size (ground arith) in
        inr (_, junk, rw large, cleared)
  ]
