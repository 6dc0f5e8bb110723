-- ===== src/Huffman/Pack.antt =====
-- `ddb_compress` packs the tokens of the value.
use discodb.Common.{
  ℕ, zero, suc, ◌+◌, ◌-◌, ◌*◌, ◌/◌, ◌%◌, ◌^◌, ◌≤◌, ◌<◌, ◌≡◌, refl, ap, ◌∙◌, arith, Option, some,
  List, [], ◌∷◌, ltb, drop, length, All-drop, length-drop, Option-cases, Bool-cases, inl, inr,
  tests, pow-add, bit_or, bit_or_digit, zero-bit_or,
}
use discodb.Bits.{load, IsBytes, u32}
use discodb.Bits.Partial.{IsPartial, IsPartial-write_bits}
use discodb.Bits.Fields.{length-write_bits}
use discodb.Huffman.Codec.{
  huff_code, huff_bits, Packing, write_literal, write_code, write_literals, write_groups,
}
use discodb.Huffman.Tokens.{
  Token, literal, group, width, field, total, packed, literals, next_tokens,
}
use native.Mathlib.Nat.{mul_assoc}

up_bit : (c : ℕ) → c < 2 ^ 16 → u32 (bit_or 1 (c * 2)) ≡ 1 + 2 * c
up_bit c small =
    let half : c * 2 / 2 ≡ c = omega arith in
    let e : bit_or 1 (c * 2) ≡ 1 + 2 * c =
      omega (arith, bit_or_digit 1 (c * 2), zero-bit_or (c * 2 / 2)) in
    rw e (omega arith)

module _ (len junk : ℕ) where
  -- From `w` the tokens `ts` have been packed, and the state is `r`.
  pub record Packed (s : ℕ) (w r : Packing) (ts : List Token) : Type 0 where
    pub buffer : IsPartial len junk (s + 2 ^ w.offs * packed ts) r.offs r.buf
    pub end : r.offs ≡ w.offs + total ts
    pub same_length : length r.buf ≡ length w.buf

  pub Packed-none : (s : ℕ) (w : Packing) → IsPartial len junk s w.offs w.buf → Packed s w w []
  Packed-none s w p = record {
    buffer = let e : s + 2 ^ w.offs * 0 ≡ s = omega arith in rw e p;
    end = omega arith;
    same_length = refl;
  }

  -- One token more in front.
  Packed-more :
      (s : ℕ) (w w' r : Packing) (t : Token) (ts : List Token)
      → w'.offs ≡ w.offs + width t
      → length w'.buf ≡ length w.buf
      → Packed (s + 2 ^ w.offs * field t) w' r ts
      → Packed s w r (t ∷ ts)
  Packed-more s w w' r t ts moved same p = record {
    buffer =
        let e : s + 2 ^ w.offs * field t + 2 ^ w'.offs * packed ts
            ≡ s + 2 ^ w.offs * (field t + 2 ^ width t * packed ts) =
          omega (
            arith,
            ap (λ (o : ℕ). 2 ^ o * packed ts) moved,
            ap (λ (o : ℕ). o * packed ts) (pow-add 2 w.offs (width t)),
            mul_assoc (2 ^ w.offs) (2 ^ width t) (packed ts),
          ) in
        rw (← e) p.buffer;
    end = omega (arith, p.end);
    same_length = p.same_length ∙ same;
  }

  write_literal-IsPartial :
      (s b : ℕ) (w : Packing)
      → IsPartial len junk s w.offs w.buf
      → b < 256
      → w.offs + 9 ≤ 8 * len
      → IsPartial len junk (s + 2 ^ w.offs * (2 * b)) (w.offs + 9) (write_literal b w).buf
  unfolding write_literal
  write_literal-IsPartial s b w p small fits =
      let up = pow-add 2 w.offs 1 in
      let byte : b % 2 ^ 8 ≡ b = omega arith in
      let start : IsPartial len junk s (w.offs + 1) w.buf = record {
        bytes = p.bytes;
        room = p.room;
        fields = p.fields;
        below = omega (arith, p.below, up);
      } in
      let q =
        IsPartial-write_bits len junk 8 s (w.offs + 1) b w.buf start small (omega arith)
          (omega arith) (omega arith) in
      rw byte (record {
        bytes = q.bytes;
        room = q.room;
        fields = omega (arith, q.fields, ap (λ (t : ℕ). t * b) up);
        below =
            let same : w.offs + 1 + 8 ≡ w.offs + 9 = omega arith in
            omega (arith, q.below, ap (λ (t : ℕ). t * b) up, ap (λ (t : ℕ). 2 ^ t) same);
      })

  write_code-IsPartial :
      (s v : ℕ) (w : Packing)
      → IsPartial len junk s w.offs w.buf
      → huff_bits v ≤ 16
      → huff_code v < 2 ^ huff_bits v
      → w.offs + (huff_bits v + 1) ≤ 8 * len
      → IsPartial len junk
          (s + 2 ^ w.offs * (1 + 2 * huff_code v))
          (w.offs + (huff_bits v + 1))
          (write_code v w).buf
  unfolding write_code
  write_code-IsPartial s v w p short small fits =
      let twice = pow-add 2 (huff_bits v) 1 in
      rw (up_bit (huff_code v) (omega arith)) (
        IsPartial-write_bits len junk (huff_bits v + 1) s w.offs (1 + 2 * huff_code v) w.buf p
          (omega (arith, twice)) (omega arith) (omega arith) fits)

  literals-Packed :
      (s : ℕ) (bs : List ℕ) (w : Packing)
      → IsPartial len junk s w.offs w.buf
      → IsBytes bs
      → w.offs + 9 * length bs ≤ 8 * len
      → Packed s w (write_literals bs w) (literals bs)
  unfolding write_literals write_literal
  literals-Packed s [] w p h fits = Packed-none s w p
  literals-Packed s (b ∷ bs) w p h fits =
      Packed-more s w (write_literal b w) (write_literals bs (write_literal b w)) (literal b)
        (literals bs) refl (length-write_bits w.buf (w.offs + 1) (b % 2 ^ 8))
        (literals-Packed (s + 2 ^ w.offs * (2 * b)) bs (write_literal b w)
          (write_literal-IsPartial s b w p h.0 (omega arith)) h.1 (omega arith))

  module _ (lookup : ℕ → Option ℕ) (short : (key v : ℕ) → lookup key ≡ some v → huff_bits v ≤ 16)
      (small : (key v : ℕ) → lookup key ≡ some v → huff_code v < 2 ^ huff_bits v) where
    pub write_groups-Packed :
        (fuel s : ℕ) (rest : List ℕ) (w : Packing)
        → IsPartial len junk s w.offs w.buf
        → IsBytes rest
        → length rest < fuel
        → w.offs + 9 * length rest ≤ 8 * len
        → Packed s w (write_groups lookup fuel rest w) (next_tokens lookup fuel rest)
    unfolding write_groups
    write_groups-Packed zero s rest w p h enough fits = absurd (omega arith)
    write_groups-Packed (suc fuel) s [] w p h enough fits = literals-Packed s [] w p h fits
    write_groups-Packed (suc fuel) s (b ∷ bs) w p h enough fits =
        elim (Bool-cases (ltb 4 (length (b ∷ bs)))) [
          | inr few ↦ rw few (literals-Packed s (b ∷ bs) w p h fits)
          | inl many ↦ elim (Option-cases (lookup (load 4 0 (b ∷ bs)))) [
            | inl missing ↦
                rw (many, missing)
                  (Packed-more s w (write_literal b w)
                    (write_groups lookup fuel bs (write_literal b w)) (literal b)
                    (next_tokens lookup fuel bs) (unfold write_literal in refl)
                    (unfold write_literal in length-write_bits w.buf (w.offs + 1) (b % 2 ^ 8))
                    (write_groups-Packed fuel (s + 2 ^ w.offs * (2 * b)) bs (write_literal b w)
                      (unfold write_literal in write_literal-IsPartial s b w p h.0 (omega arith))
                      h.1 (omega arith) (unfold write_literal in omega arith)))
            | inr (v, got) ↦
                let rest = drop 4 (b ∷ bs) in
                let le : 4 ≤ length (b ∷ bs) = omega (tests, many) in
                let left : length rest ≡ length (b ∷ bs) - 4 = length-drop 4 (b ∷ bs) in
                let narrow = short (load 4 0 (b ∷ bs)) v got in
                rw (many, got)
                  (Packed-more s w (write_code v w) (write_groups lookup fuel rest (write_code v w))
                    (group (load 4 0 (b ∷ bs)) v) (next_tokens lookup fuel rest)
                    (unfold write_code in refl)
                    (unfold write_code in
                      length-write_bits w.buf w.offs (u32 (bit_or 1 (huff_code v * 2))))
                    (write_groups-Packed fuel (s + 2 ^ w.offs * (1 + 2 * huff_code v)) rest
                      (write_code v w)
                      (unfold write_code in
                        write_code-IsPartial s v w p narrow (small (load 4 0 (b ∷ bs)) v got)
                          (omega arith))
                      (All-drop (λ b. b < 256) 4 (b ∷ bs) h) (omega arith)
                      (unfold write_code in omega arith)))
          ]
        ]
