-- ===== src/Delta/Decode.antt =====
-- The cursor of ddb_delta.c reads packed differences back as the values themselves.
use discodb.Common.{
  ℕ, suc, ◌+◌, ◌*◌, ◌/◌, ◌%◌, ◌^◌, ◌≤◌, ◌<◌, ◌≡◌, refl, sym, ap, ap₂, ◌∙◌, arith, List, [], ◌∷◌,
  length, ◌==◌, pow-add, div-low, mod-low, div_div, Bool-cases, inl, inr,
}
use discodb.Bits.{IsBytes, value, read_bits, u64}
use discodb.Bits.Fields.{read_bits-value}
use discodb.Delta.{DeltaCursor, cursor_next, read_ids}
use discodb.Delta.Spec.{sums, packed}
use native.Mathlib.Nat.{mul_assoc, mod-eq_of_lt}

-- Each difference fits its field, and the running sum stays below 2 ^ 64.
abbrev pub Fits : ℕ → ℕ → List ℕ → Type 0
Fits bits cur [] = Unit {0}
Fits bits cur (d ∷ ds) = (d < 2 ^ bits) × (cur + d < 2 ^ 64) × Fits bits (cur + d) ds

-- The cursor stands before the fields `ds`; `beyond` is whatever follows them.
pub record Holds (beyond : ℕ) (ds : List ℕ) (c : DeltaCursor) : Type 0 where
  pub bytes : IsBytes c.deltas
  pub narrow : c.bits ≤ 32
  pub left : length ds ≤ c.num_left
  pub fields : value c.deltas / 2 ^ c.offset ≡ packed c.bits ds + 2 ^ (c.bits * length ds) * beyond

next_field :
    (beyond d : ℕ) (ds : List ℕ) (c : DeltaCursor)
    → Holds beyond (d ∷ ds) c
    → value c.deltas / 2 ^ c.offset
      ≡ d + 2 ^ c.bits * (packed c.bits ds + 2 ^ (c.bits * length ds) * beyond)
next_field beyond d ds c h =
    let more : c.bits * suc (length ds) ≡ c.bits + c.bits * length ds = omega arith in
    omega (
      arith,
      h.fields,
      ap (λ (t : ℕ). 2 ^ t * beyond) more,
      ap (λ (t : ℕ). t * beyond) (pow-add 2 c.bits (c.bits * length ds)),
      mul_assoc (2 ^ c.bits) (2 ^ (c.bits * length ds)) beyond,
    )

-- One step of the cursor adds the next difference and moves past its field.
pub cursor_next-Holds :
    (beyond d : ℕ) (ds : List ℕ) (c : DeltaCursor)
    → Holds beyond (d ∷ ds) c
    → d < 2 ^ c.bits
    → c.cur_id + d < 2 ^ 64
    → ((cursor_next c).cur_id ≡ c.cur_id + d) × Holds beyond ds (cursor_next c)
unfolding cursor_next
cursor_next-Holds beyond d ds c h hd room = elim (Bool-cases (c.num_left == 0)) [
  | inl e ↦ absurd (ground arith)
  | inr e ↦ rw e (
    ap (λ (t : ℕ). u64 (c.cur_id + t)) field ∙ mod-eq_of_lt room,
    record {
      bytes = h.bytes;
      narrow = h.narrow;
      left = omega arith;
      fields =
          ap (λ (t : ℕ). value c.deltas / t) (pow-add 2 c.offset c.bits)
          ∙ sym (div_div (value c.deltas) (2 ^ c.offset) (2 ^ c.bits))
          ∙ ap (λ (t : ℕ). t / 2 ^ c.bits) (next_field beyond d ds c h)
          ∙ div-low (2 ^ c.bits) d _ hd;
    },
  )
]
  where
    field : read_bits c.deltas c.offset c.bits ≡ d
    field =
        read_bits-value c.deltas c.offset c.bits h.bytes h.narrow
        ∙ ap (λ (t : ℕ). t % 2 ^ c.bits) (next_field beyond d ds c h)
        ∙ mod-low (2 ^ c.bits) d _ hd

pub bits-cursor_next : (c : DeltaCursor) → (cursor_next c).bits ≡ c.bits
unfolding cursor_next
bits-cursor_next c = ground arith

pub read_ids-sums :
    (beyond : ℕ) (ds : List ℕ) (c : DeltaCursor)
    → Holds beyond ds c
    → Fits c.bits c.cur_id ds
    → read_ids (length ds) c ≡ sums c.cur_id ds
unfolding read_ids
read_ids-sums beyond [] c h f = refl
read_ids-sums beyond (d ∷ ds) c h f =
    let (e, next) = cursor_next-Holds beyond d ds c h f.0 f.1 in
    ap₂ ◌∷◌ e (
      read_ids-sums beyond ds (cursor_next c) next (rw (bits-cursor_next, e) f.2)
      ∙ ap (λ (t : ℕ). sums t ds) e)
