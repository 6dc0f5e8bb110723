-- ===== src/Delta.antt =====
-- src/ddb_delta.c, src/ddb_delta.h: sorted value ids as a bit-packed list of differences, and the
-- cursor that reads them back.
-- A pointer into a buffer is the list of the bytes from there on.
pub mod Width
pub mod Spec
pub mod Encode
pub mod Decode
pub mod Allocate
pub mod Sorted
pub mod Finish
pub mod RoundTrip
mod Tests
use discodb.Common.{
  ℕ, zero, suc, ◌+◌, ◌-◌, ◌*◌, ◌/◌, ◌%◌, ◌^◌, Bool, true, false, not, ◌&&◌, Option, none, some,
  List, [], ◌∷◌, ◌++◌, ltb, ◌==◌, if◌then◌else◌, drop, length, replicate,
}
use discodb.Bits.{u32, u64, read_bits, write_bits, load, store}
use discodb.Libc.{Malloc, Qsort, Comparison, less, equal, greater}

abbrev pub buf_increment : ℕ
buf_increment = 1048576

-- uint32_t subtraction
abbrev pub sub32 : ℕ → ℕ → ℕ
sub32 a b = (a + 2 ^ 32 - b) % 2 ^ 32

-- `while (x){ x >>= 1; ++bits; }`
unfoldable pub count_bits : ℕ → ℕ → ℕ → ℕ
count_bits zero x bits = bits
count_bits (suc fuel) x bits =
    let rest = count_bits fuel (x / 2) (bits + 1) in if x == 0 then bits else rest

-- 32 rounds are enough for a uint32_t.
pub bits_needed : ℕ → ℕ
bits_needed max = count_bits 32 max (if max == 0 then 1 else 0)

-- `*buf` and `*buf_size`
pub record Buffer : Type 0 where
  pub bytes : List ℕ
  pub size : ℕ

-- `while (len + 8 > *buf_size) *buf_size += BUF_INCREMENT`; a round adds more than one byte, so
-- `len + 8` rounds are enough.
pub grow_size : ℕ → ℕ → ℕ → ℕ
grow_size zero needed size = size
grow_size (suc fuel) needed size =
    let rest = grow_size fuel needed (size + buf_increment) in
    if ltb size needed then rest else size

-- `memset(*buf, 0, n)`
abbrev pub clear_front : ℕ → List ℕ → List ℕ
clear_front n bytes = replicate n 0 ++ drop n bytes

module _ (libc : Malloc) where
  -- The length returned, with the buffer. `none` is the failed `malloc`, where it returns 0.
  pub allocate_bits : Buffer → ℕ → Option (ℕ × Buffer)
  allocate_bits buf size_in_bits =
      let len = size_in_bits / 8 + (if size_in_bits % 8 == 0 then 0 else 1) in
      let size = grow_size (len + 8) (len + 8) buf.size in
      if ltb buf.size (len + 8)
      then elim (libc.malloc size) [
        | none ↦ none
        | some block ↦ some (len, record { bytes = clear_front (len + 8) block; size = size })
      ]
      else some (len, record buf { bytes = clear_front (len + 8) buf.bytes })

pub id_cmp : ℕ → ℕ → Comparison
id_cmp x y = if ltb y x then greater else if ltb x y then less else equal

-- The loop over `i = 1 ..`, with `values[i - 1]` at hand.
pub max_delta : ℕ → ℕ → List ℕ → ℕ
max_delta prev max_diff [] = max_diff
max_delta prev max_diff (v ∷ vs) =
    let d = sub32 v prev in max_delta v (if ltb max_diff d then d else max_diff) vs

-- The variables of the loop that writes the differences.
pub record Writing : Type 0 where
  pub buf : List ℕ
  pub offs : ℕ
  pub prev : ℕ
  pub j : ℕ
  pub duplicates : Bool

module _ (bits : ℕ) (unique_values : Bool) where
  pub write_delta : ℕ → ℕ → Writing → Writing
  write_delta d v w = record {
    buf = write_bits w.buf w.offs d;
    offs = w.offs + bits;
    prev = v;
    j = w.j + 1;
    duplicates = w.duplicates;
  }

  -- One round, at `values[i] == v`.
  pub encode_step : ℕ → ℕ → Writing → Writing
  unfolding write_delta
  encode_step i v w =
      let d = sub32 v w.prev in
      if d == 0 && not (i == 0)
      then if unique_values then w else write_delta d v (record w { duplicates = true })
      else write_delta d v w

  pub encode_loop : ℕ → List ℕ → Writing → Writing
  encode_loop i [] w = w
  encode_loop i (v ∷ vs) w = encode_loop (i + 1) vs (encode_step i v w)

-- What `ddb_delta_encode` returns through its arguments when it returns 0.
pub record Encoded : Type 0 where
  pub buf : Buffer
  pub size : ℕ
  pub num_written : ℕ
  pub duplicates : Bool

-- The end of the function: the number of values over the first four bytes, and the size in bytes.
abbrev pub finish : ℕ → Writing → Encoded
finish buf_size w = record {
  buf = record { bytes = store 4 0 w.j w.buf; size = buf_size };
  size = w.offs / 8 + (if w.offs % 8 == 0 then 0 else 1);
  num_written = w.j;
  duplicates = w.duplicates;
}

abbrev pub first_write : List ℕ → ℕ → Writing
first_write bytes offs = record { buf = bytes; offs = offs; prev = 0; j = 0; duplicates = false }

module _ (libc : Malloc) (sort : Qsort ℕ) where
  -- After the sort, which leaves `v ∷ vs` in `values`. `none` is the return value -1.
  pub encode_sorted : List ℕ → Buffer → Bool → Option Encoded
  encode_sorted [] buf unique_values = elim (allocate_bits libc buf 32) [
    | none ↦ none
    | some (len, b) ↦ if len == 0 then none else some (finish b.size (first_write b.bytes 32))
  ]
  encode_sorted (v ∷ vs) buf unique_values =
      let bits = bits_needed (max_delta v v vs) in
      elim (allocate_bits libc buf (u32 (32 + 5 + bits * length (v ∷ vs)))) [
        | none ↦ none
        | some (len, b) ↦
            if len == 0
            then none
            else some (
                finish b.size (
                  encode_loop bits unique_values 0 (v ∷ vs)
                    (first_write (write_bits b.bytes 32 (bits - 1)) 37)))
      ]

  pub encode : List ℕ → Buffer → Bool → Option Encoded
  encode values buf unique_values = encode_sorted (sort.qsort id_cmp values) buf unique_values

-- struct ddb_delta_cursor
pub record DeltaCursor : Type 0 where
  pub deltas : List ℕ
  pub bits : ℕ
  pub num_left : ℕ
  pub offset : ℕ
  pub cur_id : ℕ

-- `ddb_delta_cursor`: an empty list leaves the other fields as they were.
unfoldable pub delta_cursor : DeltaCursor → List ℕ → DeltaCursor
delta_cursor c src =
    let n = load 4 0 src in
    let deltas = drop 4 src in
    if n == 0 then record c { num_left = n; cur_id = 0 } else record {
      deltas = deltas;
      bits = read_bits deltas 0 5 + 1;
      num_left = n;
      offset = 5;
      cur_id = 0;
    }

-- `ddb_delta_cursor_next`
unfoldable pub cursor_next : DeltaCursor → DeltaCursor
cursor_next c = if c.num_left == 0 then c else record c {
  cur_id = u64 (c.cur_id + read_bits c.deltas c.offset c.bits);
  offset = c.offset + c.bits;
  num_left = c.num_left - 1;
}

-- The ids that `n` steps of a cursor stop at.
unfoldable pub read_ids : ℕ → DeltaCursor → List ℕ
read_ids zero c = []
read_ids (suc n) c = let c' = cursor_next c in c'.cur_id ∷ read_ids n c'
