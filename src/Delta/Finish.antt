-- ===== src/Delta/Finish.antt =====
-- The first round and the end of `ddb_delta_encode`, and the cursor over what it leaves.
use discodb.Common.{
  ℕ, ◌+◌, ◌-◌, ◌*◌, ◌/◌, ◌%◌, ◌^◌, ◌≤◌, ◌<◌, ◌≡◌, refl, sym, ap, ◌∙◌, arith, List, [], ◌∷◌, ◌++◌,
  length, Bool, take, pow-add, pow-split, div-low, ◌&&◌, not, All-take, All-append, drop, All-drop,
}
use discodb.Bits.{IsBytes, value, load, store, write_bits, read_bits}
use discodb.Bits.Value.{value-store, store-IsBytes, load-value, value-drop, length-store}
use discodb.Bits.Fields.{length-write_bits, read_bits-value}
use discodb.Delta.{
  Encoded, Writing, DeltaCursor, finish, encode_loop, encode_step, delta_cursor, read_ids,
  write_delta,
}
use discodb.Delta.Spec.{kept, repeats, diffs, packed, Climbs, length-diffs, sums-diffs}
use discodb.Bits.Partial.{value-sealed, byte_length, IsPartial, IsPartial-write_bits}
use discodb.Delta.Encode.{Appended, appended, appended-packed, encode_loop-Appended, Rounds}
use discodb.Delta.Decode.{Holds, Fits, read_ids-sums}
use native.Mathlib.Nat.{mul_assoc}

-- The loop from its first round on.
module _ (len junk bits : ℕ) (unique : Bool) (small : bits ≤ 32) (pos : 0 < bits) where
  pub encode_loop_first :
      (v : ℕ) (vs : List ℕ) (s : ℕ) (w : Writing)
      → w.prev ≡ 0
      → Climbs bits 0 (v ∷ vs)
      → IsPartial len junk s w.offs w.buf
      → w.offs + bits * length (v ∷ vs) ≤ 8 * len
      → Appended len junk bits s w
          (encode_loop bits unique 0 (v ∷ vs) w)
          (diffs 0 (kept unique (v ∷ vs)))
          (not unique && repeats (v ∷ vs))
  unfolding encode_loop kept repeats
  encode_loop_first v vs s w zero_prev h p fits = rw first (
      unfold write_delta in
      let a = rest in
      record {
        buffer = a.buffer;
        same_length = a.same_length ∙ length-write_bits w.buf w.offs (v - 0);
        end = omega (arith, a.end);
        count = omega (arith, a.count);
        flag = a.flag;
      })
    where
      first : encode_step bits unique 0 v w ≡ write_delta bits unique (v - 0) v w
      first = unfold encode_step in ground arith

      buffer :
          IsPartial len junk
            (s + 2 ^ w.offs * (v - 0))
            (w.offs + bits)
            (write_bits w.buf w.offs (v - 0))
      buffer =
          IsPartial-write_bits len junk bits s w.offs (v - 0) w.buf p (omega arith) (omega arith)
            pos (omega arith)

      rest :
          Rounds len junk bits unique small pos 1 vs
            (s + 2 ^ w.offs * (v - 0))
            (write_delta bits unique (v - 0) v w)
      rest =
          unfold write_delta in
          encode_loop-Appended len junk bits unique small pos 1 vs (s + 2 ^ w.offs * (v - 0))
            (write_delta bits unique (v - 0) v w) (omega arith) h.3 buffer (omega arith)

-- The number that a finished buffer holds: the count, the width less one, and the fields.
abbrev pub number : ℕ → List ℕ → ℕ
number bits ks = length ks + 2 ^ 32 * (bits - 1 + 2 ^ 5 * packed bits (diffs 0 ks))

-- Reading the header and then the fields.
module _ (bits : ℕ) (ks : List ℕ) (small : bits ≤ 32) (pos : 0 < bits) (some_ks : 0 < length ks)
    (few : length ks < 2 ^ 32) (climbs : Climbs bits 0 ks) where
  diffs-Fits : (prev : ℕ) (vs : List ℕ) → Climbs bits prev vs → Fits bits prev (diffs prev vs)
  diffs-Fits prev [] h = tt
  diffs-Fits prev (v ∷ vs) h =
      let e : prev + (v - prev) ≡ v = omega arith in
      (omega arith, omega arith, rw e (diffs-Fits v vs h.3))

  pub read_back :
      (c : DeltaCursor) (src : List ℕ) (beyond : ℕ)
      → IsBytes src
      → value src ≡ number bits ks + 2 ^ (37 + bits * length ks) * beyond
      → (read_ids (length ks) (delta_cursor c src) ≡ ks)
        × ((delta_cursor c src).num_left ≡ length ks)
  unfolding delta_cursor
  read_back c src beyond h e = rw fresh_cursor (
    ap (λ (t : ℕ). read_ids t fresh) (sym (length-diffs 0 ks))
        ∙ read_ids-sums beyond (diffs 0 ks) fresh holds (diffs-Fits 0 ks climbs)
        ∙ sums-diffs bits 0 ks climbs,
    refl,
  )
    where
      fields : ℕ
      fields = packed bits (diffs 0 ks) + 2 ^ (bits * length ks) * beyond

      whole : value src ≡ length ks + 2 ^ 32 * (bits - 1 + 2 ^ 5 * fields)
      whole =
          e
          ∙ ap (λ (t : ℕ). number bits ks + t * beyond) (pow-add 2 37 (bits * length ks))
          ∙ omega arith

      count : load 4 0 src ≡ length ks
      count = load-value 4 0 src h ∙ ap (λ (t : ℕ). t / 1 % 2 ^ 32) whole ∙ omega arith

      rest : value (drop 4 src) ≡ bits - 1 + 2 ^ 5 * fields
      rest =
          value-drop 4 src h ∙ ap (λ (t : ℕ). t / 2 ^ 32) whole ∙ div-low (2 ^ 32) (length ks) _ few

      width : read_bits (drop 4 src) 0 5 ≡ bits - 1
      width =
          read_bits-value (drop 4 src) 0 5 (All-drop (λ b. b < 256) 4 src h) (omega arith)
          ∙ ap (λ (t : ℕ). t / 1 % 2 ^ 5) rest
          ∙ omega arith

      fresh : DeltaCursor
      fresh = record {
        deltas = drop 4 src;
        bits = bits;
        num_left = length ks;
        offset = 5;
        cur_id = 0;
      }

      fresh_cursor : delta_cursor c src ≡ fresh
      fresh_cursor = ground (arith, count, width)

      holds : Holds beyond (diffs 0 ks) fresh
      holds = record {
        bytes = All-drop (λ b. b < 256) 4 src h;
        narrow = small;
        left = omega (arith, length-diffs 0 ks);
        fields =
            ap (λ (t : ℕ). t / 2 ^ 5) rest
            ∙ div-low (2 ^ 5) (bits - 1) fields (omega arith)
            ∙ ap (λ (t : ℕ). packed bits (diffs 0 ks) + 2 ^ (bits * t) * beyond)
                (sym (length-diffs 0 ks));
      }

-- The end of the encoder, from the state `w` that its loop leaves.
module _ (len junk bits : ℕ) (ks : List ℕ) (w : Writing) (rest : List ℕ)
    (p : IsPartial len junk
      (appended len junk bits (2 ^ 32 * (bits - 1)) 37 (diffs 0 ks))
      w.offs
      w.buf)
    (end : w.offs ≡ 37 + bits * length ks) (count : w.j ≡ length ks) (few : length ks < 2 ^ 32)
    (fits : w.offs ≤ 8 * len) (tail : IsBytes rest) where
  abbrev pub out : Encoded
  out = finish 0 w

  abbrev packed_fields : ℕ
  packed_fields = bits - 1 + 2 ^ 5 * packed bits (diffs 0 ks)

  fields_value :
      appended len junk bits (2 ^ 32 * (bits - 1)) 37 (diffs 0 ks) ≡ 2 ^ 32 * packed_fields
  fields_value = appended-packed len junk bits (2 ^ 32 * (bits - 1)) 37 (diffs 0 ks) ∙ omega arith

  below : number bits ks < 2 ^ w.offs
  below = omega (arith, p.below, fields_value, pow-split w.offs 32 (omega arith))

  stored : value (store 4 0 w.j w.buf) ≡ number bits ks + 2 ^ (8 * (len + 8)) * junk
  stored = omega (
    arith,
    value-store 4 0 w.j w.buf p.bytes (omega (arith, p.room)) (omega arith),
    load-value 4 0 w.buf p.bytes,
    p.fields,
    fields_value,
    ap (λ (t : ℕ). t * junk) (pow-split (8 * (len + 8)) 32 (omega arith)),
    mul_assoc (2 ^ 32) (2 ^ (8 * (len + 8) - 32)) junk,
  )

  whole : IsPartial len junk (number bits ks) w.offs out.buf.bytes
  whole = record {
    bytes = store-IsBytes 4 0 w.j w.buf p.bytes;
    room = omega (arith, length-store 4 0 w.j w.buf, p.room);
    fields = stored;
    below = below;
  }

  pub source-IsBytes : IsBytes (take out.size out.buf.bytes ++ rest)
  source-IsBytes =
      All-append (λ b. b < 256) (take out.size out.buf.bytes) rest
        (All-take (λ b. b < 256) out.size out.buf.bytes (store-IsBytes 4 0 w.j w.buf p.bytes)) tail

  pub source :
      value (take out.size out.buf.bytes ++ rest)
      ≡ number bits ks
        + 2 ^ (37 + bits * length ks) * (2 ^ (8 * byte_length w.offs - w.offs) * value rest)
  source =
      value-sealed len junk (number bits ks) w.offs out.buf.bytes rest whole fits
      ∙ ap
          (λ (t : ℕ). number bits ks + 2 ^ t * (2 ^ (8 * byte_length w.offs - w.offs) * value rest))
          end
