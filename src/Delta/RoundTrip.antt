-- ===== src/Delta/RoundTrip.antt =====
-- `ddb_delta_encode` and the cursor: what is written is read back, whatever bytes follow it.
use discodb.Common.{
  ℕ, ◌+◌, ◌-◌, ◌*◌, ◌^◌, ◌≤◌, ◌<◌, ◌≡◌, refl, sym, ap, ◌∙◌, arith, List, [], ◌∷◌, ◌++◌, All, length,
  Bool, Option, none, some, take, ◌&&◌, not, ◌⊎◌, inl, inr, All-take, All-append, length-take,
}
use discodb.Bits.{IsBytes, value, load, store, write_bits, u32}
use discodb.Bits.Value.{value-store, store-IsBytes, load-value, value-append, length-store}
use discodb.Bits.Fields.{length-write_bits}
use discodb.Libc.{Malloc, Qsort}
use discodb.Delta.{
  Buffer, Encoded, Writing, DeltaCursor, finish, first_write, encode_loop, encode_sorted, encode,
  delta_cursor, read_ids, bits_needed, max_delta, id_cmp,
}
use discodb.Delta.Allocate.{IsBuffer, IsCleared, allocate_bits_lem}
use discodb.Bits.Partial.{byte_length, byte_length-bounds, value-take}
use discodb.Delta.Spec.{
  kept, repeats, diffs, Climbs, length-diffs, length-kept_after, kept_after-Climbs,
}
use discodb.Bits.Partial.{IsPartial, IsPartial-write_bits}
use discodb.Delta.Encode.{Appended}
use discodb.Delta.Width.{bits_needed_lem}
use discodb.Delta.Sorted.{Ascends, qsort-Ascends, max_delta-Climbs, max_delta-lt}
use discodb.Delta.Finish.{encode_loop_first, read_back, source, source-IsBytes}

-- `r` encodes the ascending list `sorted`, if a cursor over its bytes followed by `rest` reads it back.
pub record Encodes (unique : Bool) (sorted rest : List ℕ) (c : DeltaCursor) (r : Encoded)
    : Type 0 where
  pub reads :
      read_ids r.num_written (delta_cursor c (take r.size r.buf.bytes ++ rest)) ≡ kept unique sorted
  pub left : (delta_cursor c (take r.size r.buf.bytes ++ rest)).num_left ≡ r.num_written
  pub counted : r.num_written ≡ length (kept unique sorted)
  pub repeated : r.duplicates ≡ not unique && repeats sorted
  pub buffer : IsBuffer r.buf

-- The outcome of a call that may fail only by a failed `malloc`.
abbrev pub Outcome : Malloc → Option Encoded → (Encoded → Type 0) → Type 0
Outcome libc result P =
    ((n : ℕ) × (result ≡ none) × (libc.malloc n ≡ none)) ⊎ ((r : Encoded) × (result ≡ some r) × P r)

mul-le : (a b c : ℕ) → b ≤ c → a * b ≤ a * c
mul-le a b c h = grind arith

-- The empty list: four zero bytes.
nil_bytes :
    (junk : ℕ) (b : Buffer) (c : DeltaCursor) (rest : List ℕ)
    → IsBytes rest
    → IsCleared 4 junk b
    → (delta_cursor c (take 4 (store 4 0 0 b.bytes) ++ rest)).num_left ≡ 0
unfolding delta_cursor
nil_bytes junk b c rest tail h = rw count
  where
    bytes : List ℕ
    bytes = store 4 0 0 b.bytes

    h-bytes : IsBytes bytes
    h-bytes = store-IsBytes 4 0 0 b.bytes h.buffer.bytes

    full : 4 ≤ length bytes
    full = omega (arith, length-store 4 0 0 b.bytes, h.room)

    zeros : value bytes ≡ 0 + 256 ^ 4 * (2 ^ 64 * junk)
    zeros = omega (
      arith,
      value-store 4 0 0 b.bytes h.buffer.bytes (omega (arith, h.room)) (omega arith),
      load-value 4 0 b.bytes h.buffer.bytes,
      h.zeros,
    )

    front : value (take 4 bytes) ≡ 0
    front = value-take 4 0 (2 ^ 64 * junk) bytes h-bytes full zeros (omega arith)

    all-bytes : IsBytes (take 4 bytes ++ rest)
    all-bytes =
        All-append (λ b. b < 256) (take 4 bytes) rest (All-take (λ b. b < 256) 4 bytes h-bytes) tail

    taken : length (take 4 bytes) ≡ 4
    taken = omega (arith, length-take 4 bytes, full)

    count : load 4 0 (take 4 bytes ++ rest) ≡ 0
    count = omega (
      arith,
      load-value 4 0 (take 4 bytes ++ rest) all-bytes,
      value-append (take 4 bytes) rest,
      front,
      ap (λ (t : ℕ). 256 ^ t * value rest) taken,
    )

module _ (libc : Malloc) (sort : Qsort ℕ) (c : DeltaCursor) (rest : List ℕ)
    (tail : IsBytes rest) where
  encode_nil :
      (unique : Bool) (buf : Buffer)
      → IsBuffer buf
      → Outcome libc (encode_sorted libc sort [] buf unique) (Encodes unique [] rest c)
  unfolding encode_sorted kept repeats read_ids
  encode_nil unique buf h = elim (allocate_bits_lem libc buf 32 h) [
    | inl (n, failed, no_memory) ↦ inl (n, rw (failed, encode_sorted), no_memory)
    | inr (b, junk, got, cleared) ↦ inr (
      finish b.size (first_write b.bytes 32),
      rw (got, encode_sorted),
      record {
        reads = refl;
        left = nil_bytes junk b c rest tail cleared;
        counted = refl;
        repeated = ground arith;
        buffer = record {
          bytes = store-IsBytes 4 0 0 b.bytes cleared.buffer.bytes;
          size = length-store 4 0 0 b.bytes ∙ cleared.buffer.size;
        };
      },
    )
  ]

  -- After the allocation: the width, the fields, the count.
  module _ (unique : Bool) (v : ℕ) (vs : List ℕ) (len junk bits : ℕ) (b : Buffer)
      (small : bits ≤ 32) (pos : 0 < bits) (climbs : Climbs bits 0 (v ∷ vs))
      (few : length (v ∷ vs) < 2 ^ 32) (room : 37 + bits * length (v ∷ vs) ≤ 8 * len)
      (cleared : IsCleared len junk b) where
    abbrev start : Writing
    start = first_write (write_bits b.bytes 32 (bits - 1)) 37

    abbrev final : Writing
    final = encode_loop bits unique 0 (v ∷ vs) start

    header : IsPartial len junk (2 ^ 32 * (bits - 1)) 37 start.buf
    header = record {
      bytes = p.bytes;
      room = p.room;
      fields = omega (arith, p.fields);
      below = omega (arith, p.below);
    }
      where
        zero : IsPartial len junk 0 32 b.bytes
        zero = record {
          bytes = cleared.buffer.bytes;
          room = cleared.room;
          fields = omega (arith, cleared.zeros);
          below = omega arith;
        }

        p : IsPartial len junk (0 + 2 ^ 32 * (bits - 1)) (32 + 5) start.buf
        p =
            IsPartial-write_bits len junk 5 0 32 (bits - 1) b.bytes zero (omega arith) (omega arith)
              (omega arith) (omega arith)

    written :
        Appended len junk bits
          (2 ^ 32 * (bits - 1))
          start
          final
          (diffs 0 (kept unique (v ∷ vs)))
          (not unique && repeats (v ∷ vs))
    written =
        encode_loop_first len junk bits unique small pos v vs (2 ^ 32 * (bits - 1)) start refl
          climbs header room

    finish-Encodes : Encodes unique (v ∷ vs) rest c (finish b.size final)
    finish-Encodes = record {
      reads = ap (λ (t : ℕ). read_ids t (delta_cursor c src)) count ∙ back.0;
      left = back.1 ∙ sym count;
      counted = count;
      repeated = written.flag;
      buffer = record {
        bytes = store-IsBytes 4 0 final.j final.buf written.buffer.bytes;
        size =
            length-store 4 0 final.j final.buf
            ∙ written.same_length
            ∙ length-write_bits b.bytes 32 (bits - 1)
            ∙ cleared.buffer.size;
      };
    }
      where
        ks : List ℕ
        ks = kept unique (v ∷ vs)

        shorter : (0 < length ks) × (length ks ≤ length (v ∷ vs))
        shorter = unfold kept in omega (arith, length-kept_after unique v vs)

        ks-Climbs : Climbs bits 0 ks
        ks-Climbs =
            unfold kept in
            (climbs.0, climbs.1, climbs.2, kept_after-Climbs unique bits v vs climbs.3)

        count : final.j ≡ length ks
        count = omega (arith, written.count, length-diffs 0 ks)

        end : final.offs ≡ 37 + bits * length ks
        end = omega (arith, written.end, ap (λ (t : ℕ). bits * t) (length-diffs 0 ks))

        fits : final.offs ≤ 8 * len
        fits =
            let le = mul-le bits (length ks) (length (v ∷ vs)) shorter.1 in omega (arith, end, le)

        src : List ℕ
        src = take (finish b.size final).size (finish b.size final).buf.bytes ++ rest

        back :
            (read_ids (length ks) (delta_cursor c src) ≡ ks)
            × ((delta_cursor c src).num_left ≡ length ks)
        back =
            read_back bits ks small pos shorter.0 (omega (arith, shorter)) ks-Climbs c src _
              (source-IsBytes len junk bits ks final rest written.buffer end count
                (omega (arith, shorter)) fits tail)
              (source len junk bits ks final rest written.buffer end count (omega (arith, shorter))
                fits tail)

  encode_cons :
      (unique : Bool) (v : ℕ) (vs : List ℕ) (buf : Buffer)
      → Ascends 0 (v ∷ vs)
      → 37 + 32 * length (v ∷ vs) < 2 ^ 32
      → IsBuffer buf
      → Outcome libc (encode_sorted libc sort (v ∷ vs) buf unique) (Encodes unique (v ∷ vs) rest c)
  unfolding encode_sorted
  encode_cons unique v vs buf asc few h = elim (allocate_bits_lem libc buf total h) [
    | inl (n, failed, no_memory) ↦ inl (n, rw (failed, encode_sorted), no_memory)
    | inr (b, junk, got, cleared) ↦ inr (
      finish b.size
          (encode_loop bits unique 0 (v ∷ vs) (first_write (write_bits b.bytes 32 (bits - 1)) 37)),
      rw (got, encode_sorted) (ground (arith, byte_length-bounds total, exact)),
      finish-Encodes unique v vs (byte_length total) junk bits b width.1 width.0 climbs
          (omega arith) (omega (arith, byte_length-bounds total, exact)) cleared,
    )
  ]
    where
      bits : ℕ
      bits = bits_needed (max_delta v v vs)

      total : ℕ
      total = u32 (32 + 5 + bits * length (v ∷ vs))

      width :
          (1 ≤ bits)
          × (bits ≤ 32)
          × (max_delta v v vs < 2 ^ bits)
          × ((bits ≡ 1) ⊎ (2 ^ bits ≤ 2 * max_delta v v vs))
      width = bits_needed_lem (max_delta v v vs) (max_delta-lt v v vs asc.1)

      exact : total ≡ 37 + bits * length (v ∷ vs)
      exact =
          let le : bits * length (v ∷ vs) ≤ 32 * length (v ∷ vs) = grind (arith, width) in
          omega (arith, le)

      climbs : Climbs bits 0 (v ∷ vs)
      climbs =
          let m = max_delta-Climbs bits v v vs asc.2 asc.1 width.2 in
          (omega arith, omega (arith, m.0), asc.1, m.1)

  -- On uint32_t ids, so few that 37 + 32 bits for each are below 2 ^ 32, and a buffer of the size it
  -- states, `ddb_delta_encode` fails only if `malloc` does. Otherwise a cursor over the bytes that it returns,
  -- whatever bytes follow them, stops at the sorted ids one after the other: at each id once under
  -- `unique_values`, and else as often as it was given. The count is theirs, and the duplicates flag
  -- is set exactly if an id that was given twice was written twice.
  pub encode-Encodes :
      (values : List ℕ) (buf : Buffer) (unique : Bool)
      → All (λ v. v < 2 ^ 32) values
      → 37 + 32 * length (sort.qsort id_cmp values) < 2 ^ 32
      → IsBuffer buf
      → Outcome libc
          (encode libc sort values buf unique)
          (Encodes unique (sort.qsort id_cmp values) rest c)
  unfolding encode
  encode-Encodes values buf unique small few h =
      go (sort.qsort id_cmp values) (qsort-Ascends sort values small) few
    where
      go :
          (xs : List ℕ)
          → Ascends 0 xs
          → 37 + 32 * length xs < 2 ^ 32
          → Outcome libc (encode_sorted libc sort xs buf unique) (Encodes unique xs rest c)
      go [] a n = encode_nil unique buf h
      go (v ∷ vs) a n = encode_cons unique v vs buf a n h
