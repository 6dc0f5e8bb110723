-- ===== src/Huffman/RoundTrip.antt =====
-- `ddb_decompress` gives back what `ddb_compress` was given.
use discodb.Common.{
  ℕ, suc, ◌+◌, ◌-◌, ◌*◌, ◌/◌, ◌%◌, ◌^◌, ◌≤◌, ◌<◌, ◌≡◌, refl, ap, ◌∙◌, arith, Option, none, some,
  List, [], ◌++◌, Bool, ltb, leb, if◌then◌else◌, ◌==◌, length, take, Bool-cases, Option-cases, ◌⊎◌,
  inl, inr, false, All, pow-add, pow-split, All-append, All-take,
}
use discodb.Bits.{u64, IsBytes, value, read_bits}
use discodb.Bits.Fields.{read_bits-value, write_bits-value, length-write_bits, write_bits-IsBytes}
use discodb.Bits.Partial.{IsPartial, value-sealed, byte_length}
use discodb.Libc.{Malloc}
use discodb.Delta.{Buffer}
use discodb.Delta.Allocate.{IsBuffer, IsCleared, clear_front-IsCleared}
use discodb.Huffman.Codec.{
  Codeword, Packing, Unpacking, Compressed, worst_case, prepare, sealed, seal, compress,
  write_groups, decompress,
}
use discodb.Huffman.Tokens.{
  Token, total, packed, texts, next_tokens, Agrees, next_tokens-Tokenizes, IsToken,
}
use discodb.Huffman.Pack.{write_groups-Packed}
use discodb.Huffman.Unpack.{Before, unpack-texts}
use mathlib.Core.Path.{subst}
use native.Mathlib.Nat.{mul_assoc}

-- The bits that the last byte leaves unused.
abbrev residue : ℕ → ℕ
residue offs = if offs % 8 == 0 then 0 else 8 - offs % 8

-- The packed tokens with the residue in the first three bits.
record IsSealed (len junk : ℕ) (ts : List Token) (offs : ℕ) (c : Compressed) : Type 0 where
  buffer : IsPartial len junk (residue offs + 2 ^ 3 * packed ts) offs c.buf.bytes
  size : c.size ≡ byte_length offs
  width : offs ≡ 3 + total ts
  fits : offs ≤ 8 * len

sealed-IsSealed :
    (len junk buf_len : ℕ) (ts : List Token) (w : Packing)
    → IsPartial len junk (2 ^ 3 * packed ts) w.offs w.buf
    → w.offs ≡ 3 + total ts
    → w.offs ≤ 8 * len
    → IsSealed len junk ts w.offs (sealed buf_len w)
      × (length (sealed buf_len w).buf.bytes ≡ length w.buf)
sealed-IsSealed len junk buf_len ts w p end fits =
    let offset = pow-split w.offs 3 (omega arith) in
    elim (Bool-cases (w.offs % 8 == 0)) [
      | inl whole ↦
          let whole_byte : residue w.offs ≡ 0 = rw whole refl in
          rw whole (
            record {
              buffer = record {
                bytes = p.bytes;
                room = p.room;
                fields = omega (arith, p.fields, whole_byte);
                below = omega (arith, p.below, whole_byte);
              };
              size = rw whole refl;
              width = end;
              fits = fits;
            },
            refl,
          )
      | inr part ↦
          let r = 8 - w.offs % 8 in
          let left : residue w.offs ≡ r = rw part refl in
          let some_bits : 0 < w.offs % 8 = ground arith in
          let narrow : r < 2 ^ 3 = omega arith in
          let split = pow-split (8 * (len + 8)) 3 (omega arith) in
          let clear : value w.buf / 2 ^ 0 % 2 ^ 3 ≡ 0 = omega (
            arith,
            p.fields,
            ap (λ (t : ℕ). t * junk) split,
            mul_assoc (2 ^ 3) (2 ^ (8 * (len + 8) - 3)) junk,
          ) in
          let v =
            write_bits-value w.buf 0 3 r p.bytes (omega (arith, p.room)) (omega arith) narrow
              clear in
          rw part (
            record {
              buffer = record {
                bytes = write_bits-IsBytes w.buf 0 r p.bytes;
                room = omega (arith, length-write_bits w.buf 0 r, p.room);
                fields = omega (arith, v, p.fields, left);
                below = omega (arith, p.below, offset, left);
              };
              size = rw part refl;
              width = end;
              fits = fits;
            },
            length-write_bits w.buf 0 r,
          )
    ]

-- Reading the sealed bytes.
module _ (len junk : ℕ) (ts : List Token) (offs : ℕ) (c : Compressed) (rest : List ℕ)
    (s : IsSealed len junk ts offs c) (tail : IsBytes rest) where
  abbrev source : List ℕ
  source = take c.size c.buf.bytes ++ rest

  source-IsBytes : IsBytes source
  source-IsBytes =
      All-append (λ b. b < 256) (take c.size c.buf.bytes) rest
        (All-take (λ b. b < 256) c.size c.buf.bytes s.buffer.bytes) tail

  beyond : ℕ
  beyond = 2 ^ (8 * byte_length offs - offs) * value rest

  source-value : value source ≡ residue offs + 2 ^ 3 * (packed ts + 2 ^ total ts * beyond)
  unfolding beyond
  source-value =
      ap (λ (n : ℕ). value (take n c.buf.bytes ++ rest)) s.size
      ∙ value-sealed len junk (residue offs + 2 ^ 3 * packed ts) offs c.buf.bytes rest s.buffer
          s.fits
      ∙ ap (λ (o : ℕ). residue offs + 2 ^ 3 * packed ts + 2 ^ o * beyond) s.width
      ∙ omega (
        arith,
        ap (λ (t : ℕ). t * beyond) (pow-add 2 3 (total ts)),
        mul_assoc (2 ^ 3) (2 ^ total ts) beyond,
      )

  residue-lt : residue offs < 8
  residue-lt = ground arith

  source-residue : read_bits source 0 3 ≡ residue offs
  source-residue =
      read_bits-value source 0 3 source-IsBytes (omega arith)
      ∙ omega (arith, source-value, residue-lt)

  source-Before : Before source 3 ts beyond
  source-Before = omega (arith, source-value, residue-lt)

  source-bits : total ts < 2 ^ 40 → u64 (c.size * 8 + 2 ^ 64 - read_bits source 0 3) ≡ 3 + total ts
  source-bits = let b = rounded offs in omega (arith, source-residue, s.size, s.width, b)
    where
      rounded : (n : ℕ) → byte_length n * 8 ≡ n + residue n
      rounded n = ground arith

  decompress-texts :
      (available : ℕ → Bool) (lookup : ℕ → Option ℕ) (book : ℕ → Codeword) (buf_len : ℕ)
      → Agrees lookup book
      → All (IsToken lookup) ts
      → length (texts ts) + 4 < 2 ^ 32
      → total ts < 2 ^ 40
      → ((n : ℕ) × (available n ≡ false) × (decompress available book source c.size buf_len ≡ none))
        ⊎ ((r : Unpacking) × (decompress available book source c.size buf_len ≡ some r)
            × (r.out ≡ texts ts)
            × (r.k ≡ length (texts ts)))
  unfolding decompress
  decompress-texts available lookup book buf_len agrees is few narrow =
      let num_bits = u64 (c.size * 8 + 2 ^ 64 - read_bits source 0 3) in
      let bits = source-bits narrow in
      elim (unpack-texts available lookup book agrees (suc num_bits) num_bits source ts beyond
        (record { out = []; k = 0; buf_len = buf_len; offs = 3 }) source-IsBytes is source-Before
        bits (omega (arith, bits)) (omega (arith, few))) [
          | inl refused ↦ inl refused
          | inr (u, done, spelled, count) ↦ inr (u, done, spelled, omega (arith, count))
        ]

abbrev Prepared : Malloc → ℕ → ℕ → Buffer → Type 0
Prepared libc len worst buf =
    ((n : ℕ) × (libc.malloc n ≡ none) × (prepare libc worst buf ≡ none))
    ⊎ ((b : Buffer) × (junk : ℕ) × (prepare libc worst buf ≡ some b) × IsCleared len junk b)

prepare-Prepared :
    (libc : Malloc) (len : ℕ) (buf : Buffer) → IsBuffer buf → Prepared libc len (len + 8) buf
unfolding prepare
prepare-Prepared libc len buf h = elim (Bool-cases (ltb buf.size (len + 8))) [
  | inr large ↦
      let (junk, cleared) =
        clear_front-IsCleared len buf.bytes buf.size h.bytes h.size (ground arith) in
      inr (_, junk, rw large refl, cleared)
  | inl small ↦ elim (Option-cases (libc.malloc (len + 8))) [
    | inl failed ↦ inl (len + 8, failed, rw (small, failed) refl)
    | inr (block, got) ↦
        let (junk, cleared) =
          clear_front-IsCleared len block (len + 8) (libc.bytes-malloc _ block got)
            (libc.length-malloc _ block got) (omega arith) in
        inr (_, junk, rw (small, got) refl, cleared)
  ]
]

-- What `ddb_decompress` returns for the text `src`, unless a request for memory fails.
abbrev pub Unpacks : (ℕ → Bool) → List ℕ → Option Unpacking → Type 0
Unpacks available src result =
    ((n : ℕ) × (available n ≡ false) × (result ≡ none))
    ⊎ ((r : Unpacking) × (result ≡ some r) × (r.out ≡ src) × (r.k ≡ length src))

-- A value of fewer than 2 ^ 31 bytes is compressed, unless `realloc` fails; and the compressed
-- bytes, whatever bytes follow them, are decompressed to the value again, unless a request for
-- memory fails, by any code book that agrees with the map of the code words.
pub compress-Unpacks :
    (libc : Malloc) (available : ℕ → Bool) (lookup : ℕ → Option ℕ) (book : ℕ → Codeword)
    (src : List ℕ) (buf : Buffer) (buf_len : ℕ) (rest : List ℕ)
    → Agrees lookup book
    → IsBytes src
    → length src < 2 ^ 31
    → IsBuffer buf
    → IsBytes rest
    → ((n : ℕ) × (libc.malloc n ≡ none) × (compress lookup libc src buf ≡ none))
      ⊎ ((c : Compressed) × (compress lookup libc src buf ≡ some c)
          × IsBuffer c.buf
          × Unpacks available src
              (decompress available book (take c.size c.buf.bytes ++ rest) c.size buf_len))
unfolding compress
compress-Unpacks libc available lookup book src buf buf_len rest agrees bytes few h tail =
    let n = length src in
    let len = 1 + (1 + n) * 9 / 8 in
    let worst : len + 8 ≡ worst_case n = omega arith in
    elim (subst (λ k. Prepared libc len k buf) worst (prepare-Prepared libc len buf h)) [
      | inl (m, failed, none_left) ↦ inl (m, failed, rw (none_left, compress) refl)
      | inr (b, junk, got, cleared) ↦
          let w : Packing = record { buf = b.bytes; offs = 3 } in
          let ts = next_tokens lookup (suc n) src in
          let t = next_tokens-Tokenizes lookup agrees.short (suc n) src bytes (omega arith) in
          let start : IsPartial len junk 0 3 b.bytes = record {
            bytes = cleared.buffer.bytes;
            room = cleared.room;
            fields = omega (arith, cleared.zeros);
            below = omega arith;
          } in
          let p =
            write_groups-Packed len junk lookup agrees.short agrees.fits (suc n) 0 src w start bytes
              (omega arith) (omega arith) in
          let r = write_groups lookup (suc n) src w in
          let front : 0 + 2 ^ 3 * packed ts ≡ 2 ^ 3 * packed ts = omega arith in
          let (sealed_ok, same) =
            sealed-IsSealed len junk b.size ts r
              (subst (λ k. IsPartial len junk k r.offs r.buf) front p.buffer) p.end
              (omega (arith, p.end, t.short)) in
          let test : leb (2 ^ 32 - 1) (r.offs / 8) ≡ false =
            let small : r.offs / 8 < 2 ^ 32 - 1 = omega (arith, p.end, t.short) in
            ground (arith, small) in
          let result =
            decompress-texts len junk ts r.offs (sealed b.size r) rest sealed_ok tail available
              lookup book buf_len agrees t.tokens (omega (arith, ap length t.spelled))
              (omega (arith, t.short)) in
          inr (
            sealed b.size r,
            rw (got, compress) (unfold seal in rw test refl),
            record {
              bytes = sealed_ok.buffer.bytes;
              size = same ∙ p.same_length ∙ cleared.buffer.size;
            },
            elim result [
              | inl none_left ↦ inl none_left
              | inr (u, done, spelled, count) ↦
                  inr (u, done, spelled ∙ t.spelled, count ∙ ap length t.spelled)
            ],
          )
    ]
