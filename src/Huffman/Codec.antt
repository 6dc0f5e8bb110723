-- ===== src/Huffman/Codec.antt =====
-- `ddb_compress` and `ddb_decompress`.
use discodb.Common.{
  ℕ, zero, suc, ◌+◌, ◌-◌, ◌*◌, ◌/◌, ◌%◌, ◌^◌, Bool, Option, none, some, List, [], ◌∷◌, ◌++◌, ltb,
  leb, ◌==◌, if◌then◌else◌, drop, get_or, length, bit_or,
}
use discodb.Bits.{u32, u64, read_bits, write_bits, load, to_bytes}
use discodb.Libc.{Malloc}
use discodb.Delta.{Buffer, clear_front}

-- DDB_HUFF_CODE and DDB_HUFF_BITS
abbrev pub huff_code : ℕ → ℕ
huff_code x = x % 2 ^ 16

abbrev pub huff_bits : ℕ → ℕ
huff_bits x = x / 2 ^ 16 % 2 ^ 32

-- struct ddb_codebook
pub record Codeword : Type 0 where
  pub symbol : ℕ
  pub bits : ℕ

-- `*buf` and `offs` while a value is compressed.
pub record Packing : Type 0 where
  pub buf : List ℕ
  pub offs : ℕ

unfoldable pub write_literal : ℕ → Packing → Packing
write_literal byte w = record {
  buf = write_bits w.buf (w.offs + 1) (byte % 2 ^ 8);
  offs = w.offs + 9;
}

-- The code word is prefixed by an up bit.
unfoldable pub write_code : ℕ → Packing → Packing
write_code v w = record {
  buf = write_bits w.buf w.offs (u32 (bit_or 1 (huff_code v * 2)));
  offs = w.offs + (huff_bits v + 1);
}

-- `for (;i < src_len; i++)`
unfoldable pub write_literals : List ℕ → Packing → Packing
write_literals [] w = w
write_literals (b ∷ bs) w = write_literals bs (write_literal b w)

-- `1 + 8 + ((1 + src_len) * 1.125)`
abbrev pub worst_case : ℕ → ℕ
worst_case src_len = 9 + (1 + src_len) % 2 ^ 32 * 9 / 8

-- `realloc` is taken for `malloc`, since the buffer is cleared at once.
unfoldable pub prepare : Malloc → ℕ → Buffer → Option Buffer
prepare libc worst buf =
    if ltb buf.size worst
    then elim (libc.malloc worst) [
      | none ↦ none
      | some block ↦ some (record { bytes = clear_front worst block; size = worst })
    ]
    else some (record buf { bytes = clear_front worst buf.bytes })

-- `*size` and `*buf`.
pub record Compressed : Type 0 where
  pub size : ℕ
  pub buf : Buffer

abbrev pub sealed : ℕ → Packing → Compressed
sealed buf_len w = record {
  size = w.offs / 8 + (if w.offs % 8 == 0 then 0 else 1);
  buf = record {
    bytes = if w.offs % 8 == 0 then w.buf else write_bits w.buf 0 (8 - w.offs % 8);
    size = buf_len;
  };
}

-- The end of `ddb_compress`. `none` is the return value -1.
unfoldable pub seal : ℕ → Packing → Option Compressed
seal buf_len w = if leb (2 ^ 32 - 1) (w.offs / 8) then none else some (sealed buf_len w)

module _ (lookup : ℕ → Option ℕ) where
  -- `for (;i < src_len - 4; i++)` on what is left of the value, and the loop after it.
  unfoldable pub write_groups : ℕ → List ℕ → Packing → Packing
  write_groups zero rest w = w
  write_groups (suc fuel) rest w =
      let more : Packing = elim (lookup (load 4 0 rest)) [
        | none ↦ write_groups fuel (drop 1 rest) (write_literal (get_or rest 0 0) w)
        | some v ↦ write_groups fuel (drop 4 rest) (write_code v w)
      ] in
      if ltb 4 (length rest) then more else write_literals rest w

  unfoldable pub compress : Malloc → List ℕ → Buffer → Option Compressed
  compress libc src buf = elim (prepare libc (worst_case (length src)) buf) [
    | none ↦ none
    | some b ↦
        seal b.size (write_groups (suc (length src)) src (record { buf = b.bytes; offs = 3 }))
  ]

-- The variables of `ddb_decompress`, with the bytes written so far.
pub record Unpacking : Type 0 where
  pub out : List ℕ
  pub k : ℕ
  pub buf_len : ℕ
  pub offs : ℕ

abbrev pub buf_inc : ℕ
buf_inc = 1048576

module _ (available : ℕ → Bool) (book : ℕ → Codeword) where
  -- `available n` says whether `realloc` meets a request for `n` bytes.
  unfoldable pub make_room : Unpacking → Option Unpacking
  make_room u =
      if ltb u.buf_len (u32 (u.k + 4))
      then if available (u.buf_len + buf_inc)
        then some (record u { buf_len = u.buf_len + buf_inc })
        else none
      else some u

  unfoldable pub unpack_one : ℕ → Unpacking → Unpacking
  unpack_one val u =
      if val % 2 == 1
      then record u {
        out = u.out ++ to_bytes 4 (book (val / 2)).symbol;
        offs = u.offs + ((book (val / 2)).bits + 1);
        k = u32 (u.k + 4);
      }
      else record u {
        out = u.out ++ ((val / 2 % 2 ^ 8) ∷ []);
        offs = u.offs + 9;
        k = u32 (u.k + 1);
      }

  -- `while (offs < num_bits)`; each round goes on by a bit at least.
  unfoldable pub unpack : ℕ → List ℕ → ℕ → Unpacking → Option Unpacking
  unpack zero src num_bits u = some u
  unpack (suc fuel) src num_bits u =
      let more : Option Unpacking = elim (make_room u) [
        | none ↦ none
        | some u' ↦ unpack fuel src num_bits (unpack_one (read_bits src u.offs 17) u')
      ] in
      if ltb u.offs num_bits then more else some u

  -- The bytes written, with `*size` and `*buf_len`.
  unfoldable pub decompress : List ℕ → ℕ → ℕ → Option Unpacking
  decompress src src_len buf_len =
      let num_bits = u64 (src_len * 8 + 2 ^ 64 - read_bits src 0 3) in
      unpack (suc num_bits) src num_bits (record { out = []; k = 0; buf_len = buf_len; offs = 3 })
