-- ===== src/Huffman/Unpack.antt =====
-- `ddb_decompress` spells the tokens that a buffer packs.
use discodb.Common.{
  ℕ, zero, suc, ◌+◌, ◌-◌, ◌*◌, ◌/◌, ◌%◌, ◌^◌, ◌<◌, ◌≡◌, refl, sym, ap, ◌∙◌, arith, Option, none,
  some, List, [], ◌∷◌, ◌++◌, Bool, ltb, ◌==◌, length, length-append, All, Bool-cases, ◌⊎◌, inl, inr,
  true, false, tests, pow-add, pow-split, div-low, div_div, mod-mul-mod, mod-low,
}
use discodb.Bits.{IsBytes, value, u32, read_bits}
use discodb.Bits.Fields.{read_bits-value}
use discodb.Bits.Value.{length-to_bytes}
use discodb.Huffman.Codec.{
  huff_code, huff_bits, Codeword, Unpacking, make_room, unpack_one, unpack, buf_inc,
}
use discodb.Huffman.Tokens.{
  Token, literal, group, width, field, text, total, packed, texts, Agrees, IsToken,
}
use mathlib.Core.List.{append_assoc, append-nil}
use native.Mathlib.Nat.{mul_assoc}

-- The bits from `offs` on are those of the tokens, then others.
abbrev pub Before : List ℕ → ℕ → List Token → ℕ → Type 0
Before src offs ts beyond = value src / 2 ^ offs ≡ packed ts + 2 ^ total ts * beyond

module _ (available : ℕ → Bool) (lookup : ℕ → Option ℕ) (book : ℕ → Codeword)
    (agrees : Agrees lookup book) where
  field-lt : (t : Token) → IsToken lookup t → field t < 2 ^ width t
  field-lt (literal b) h = omega arith
  field-lt (group key v) h = omega (arith, pow-add 2 (huff_bits v) 1, agrees.fits key v h)

  front :
      (src : List ℕ) (offs : ℕ) (t : Token) (ts : List Token) (beyond : ℕ)
      → Before src offs (t ∷ ts) beyond
      → value src / 2 ^ offs ≡ field t + 2 ^ width t * (packed ts + 2 ^ total ts * beyond)
  front src offs t ts beyond h = omega (
    arith,
    h,
    ap (λ (o : ℕ). o * beyond) (pow-add 2 (width t) (total ts)),
    mul_assoc (2 ^ width t) (2 ^ total ts) beyond,
  )

  Before-next :
      (src : List ℕ) (offs : ℕ) (t : Token) (ts : List Token) (beyond : ℕ)
      → IsToken lookup t
      → Before src offs (t ∷ ts) beyond
      → Before src (offs + width t) ts beyond
  Before-next src offs t ts beyond is h =
      ap (λ (o : ℕ). value src / o) (pow-add 2 offs (width t))
      ∙ sym (div_div (value src) (2 ^ offs) (2 ^ width t))
      ∙ ap (λ (o : ℕ). o / 2 ^ width t) (front src offs t ts beyond h)
      ∙ div-low (2 ^ width t) (field t) (packed ts + 2 ^ total ts * beyond) (field-lt t is)

  -- What one round does.
  record Spells (t : Token) (u u' : Unpacking) : Type 0 where
    spelled : u'.out ≡ u.out ++ text t
    moved : u'.offs ≡ u.offs + width t
    count : u'.k ≡ u.k + length (text t)

  unpack_one-Spells :
      (src : List ℕ) (t : Token) (ts : List Token) (beyond : ℕ) (u : Unpacking)
      → IsBytes src
      → IsToken lookup t
      → Before src u.offs (t ∷ ts) beyond
      → u.k + 4 < 2 ^ 32
      → Spells t u (unpack_one available book (read_bits src u.offs 17) u)
  unfolding unpack_one
  unpack_one-Spells src (literal b) ts beyond u h is before fits =
      let p = packed ts + 2 ^ total ts * beyond in
      let x : value src / 2 ^ u.offs ≡ 2 * b + 2 ^ 9 * p =
        front src u.offs (literal b) ts beyond before in
      let val = read_bits-value src u.offs 17 h (omega arith) in
      let even : (read_bits src u.offs 17 % 2 == 1) ≡ false =
        let e : read_bits src u.offs 17 % 2 ≡ 0 = omega (arith, val, x) in rw e refl in
      let byte : read_bits src u.offs 17 / 2 % 2 ^ 8 ≡ b = omega (arith, val, x) in
      rw (even, byte) (record { spelled = refl; moved = refl; count = omega arith })
  unpack_one-Spells src (group key v) ts beyond u h is before fits =
      let p = packed ts + 2 ^ total ts * beyond in
      let x = front src u.offs (group key v) ts beyond before in
      let val = read_bits-value src u.offs 17 h (omega arith) in
      let twice = pow-add 2 (huff_bits v) 1 in
      let x' : value src / 2 ^ u.offs ≡ 1 + 2 * (huff_code v + 2 ^ huff_bits v * p) =
        omega (arith, x, ap (λ (o : ℕ). o * p) twice, mul_assoc (2 ^ huff_bits v) 2 p) in
      let odd : (read_bits src u.offs 17 % 2 == 1) ≡ true =
        let e : read_bits src u.offs 17 % 2 ≡ 1 = omega (arith, val, x') in rw e refl in
      let index : read_bits src u.offs 17 / 2 ≡ (huff_code v + 2 ^ huff_bits v * p) % 2 ^ 16 =
        omega (arith, val, x') in
      let matches : read_bits src u.offs 17 / 2 % 2 ^ huff_bits v ≡ huff_code v =
        ap (λ (o : ℕ). o % 2 ^ huff_bits v) index
        ∙ ap (λ (o : ℕ). (huff_code v + 2 ^ huff_bits v * p) % o % 2 ^ huff_bits v)
            (pow-split 16 (huff_bits v) (agrees.short key v is))
        ∙ mod-mul-mod (huff_code v + 2 ^ huff_bits v * p) (2 ^ huff_bits v) (2 ^ (16 - huff_bits v))
        ∙ mod-low (2 ^ huff_bits v) (huff_code v) p (agrees.fits key v is) in
      let found =
        agrees.found key v (read_bits src u.offs 17 / 2) is (omega (arith, index)) matches in
      rw (odd, found)
        (record { spelled = refl; moved = refl; count = omega (arith, length-to_bytes 4 key) })

  make_room-same :
      (u : Unpacking)
      → ((n : ℕ) × (available n ≡ false) × (make_room available book u ≡ none))
        ⊎ ((n : ℕ) × (make_room available book u ≡ some (record u { buf_len = n })))
  unfolding make_room
  make_room-same u = elim (Bool-cases (ltb u.buf_len (u32 (u.k + 4)))) [
    | inr room ↦ inr (u.buf_len, rw room refl)
    | inl small ↦ elim (Bool-cases (available (u.buf_len + buf_inc))) [
      | inr refused ↦ inl (u.buf_len + buf_inc, refused, rw (small, refused) refl)
      | inl met ↦ inr (u.buf_len + buf_inc, rw (small, met) refl)
    ]
  ]

  width-pos : (t : Token) → 0 < width t
  width-pos (literal b) = omega arith
  width-pos (group key v) = omega arith

  -- The loop spells all the tokens, unless a request for memory fails.
  pub unpack-texts :
      (fuel num_bits : ℕ) (src : List ℕ) (ts : List Token) (beyond : ℕ) (u : Unpacking)
      → IsBytes src
      → All (IsToken lookup) ts
      → Before src u.offs ts beyond
      → num_bits ≡ u.offs + total ts
      → total ts < fuel
      → u.k + length (texts ts) + 4 < 2 ^ 32
      → ((n : ℕ) × (available n ≡ false) × (unpack available book fuel src num_bits u ≡ none))
        ⊎ ((r : Unpacking) × (unpack available book fuel src num_bits u ≡ some r)
            × (r.out ≡ u.out ++ texts ts)
            × (r.k ≡ u.k + length (texts ts)))
  unfolding unpack
  unpack-texts zero num_bits src ts beyond u h is before end enough fits = absurd (omega arith)
  unpack-texts (suc fuel) num_bits src [] beyond u h is before end enough fits =
      let stop : ltb u.offs num_bits ≡ false = omega (tests, end) in
      inr (u, rw stop refl, sym (append-nil u.out), omega arith)
  unpack-texts (suc fuel) num_bits src (t ∷ ts) beyond u h is before end enough fits =
      let wide = width-pos t in
      let go : ltb u.offs num_bits ≡ true = omega (tests, end, wide) in
      elim (make_room-same u) [
        | inl (n, refused, failed) ↦ inl (n, refused, rw (go, failed) refl)
        | inr (n, got) ↦
            let u' : Unpacking = record u { buf_len = n } in
            let longer = length-append (text t) (texts ts) in
            let s = unpack_one-Spells src t ts beyond u' h is.0 before (omega arith) in
            let u2 = unpack_one available book (read_bits src u.offs 17) u' in
            let next : Before src u2.offs ts beyond =
              rw s.moved (Before-next src u.offs t ts beyond is.0 before) in
            elim (unpack-texts fuel num_bits src ts beyond u2 h is.1 next
              (omega (arith, end, s.moved)) (omega (arith, enough, wide))
              (omega (arith, s.count, longer, fits))) [
                | inl (m, refused, failed) ↦ inl (m, refused, rw (go, got, failed) refl)
                | inr (r, done, spelled, count) ↦ inr (
                  r,
                  rw (go, got, done) refl,
                  spelled
                      ∙ ap (λ l. l ++ texts ts) s.spelled
                      ∙ append_assoc u.out (text t) (texts ts),
                  omega (arith, count, s.count, longer),
                )
              ]
      ]
