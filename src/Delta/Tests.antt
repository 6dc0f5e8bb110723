-- ===== src/Delta/Tests.antt =====
-- Runs of the encoder and the cursor, and the theorems at concrete inputs.
use discodb.Common.{
  ℕ, ◌≡◌, ◌<◌, ◌≤◌, refl, arith, List, [], ◌∷◌, ◌++◌, true, false, replicate, some, ◌*◌, ◌^◌, ◌⊎◌,
}
use discodb.Bits.{load_bytes, store_bytes, read_bits, write_bits}
use discodb.Libc.Instances.{dirty_malloc, insertion_qsort, insertion_sort}
use discodb.Delta.{
  Buffer, DeltaCursor, allocate_bits, bits_needed, count_bits, grow_size, id_cmp, max_delta,
  encode_step, encode_loop, encode_sorted, encode, delta_cursor, cursor_next, read_ids,
}
use discodb.Delta.RoundTrip.{Outcome, Encodes, encode-Encodes}
use discodb.Delta.Width.{bits_needed_lem}

abbrev scratch : Buffer
scratch = record { bytes = replicate 40 7; size = 40 }

abbrev no_cursor : DeltaCursor
no_cursor = record { deltas = []; bits = 0; num_left = 0; offset = 0; cur_id = 0 }

abbrev ids : List ℕ
ids = 9 ∷ 3 ∷ 5 ∷ 3 ∷ []

program : Unit {0}
unfolding load_bytes store_bytes read_bits write_bits insertion_sort allocate_bits bits_needed
    count_bits grow_size id_cmp max_delta encode_step encode_loop encode_sorted encode delta_cursor
    cursor_next read_ids
program = tt

-- 3, 5 and 9 under `unique_values`: three values, three bits each.
encode_runs :
    encode dirty_malloc insertion_qsort ids scratch true
    ≡ some (record {
      buf = record {
        bytes = 3 ∷ 0 ∷ 0 ∷ 0 ∷ 0x62 ∷ 0x22 ∷ (replicate 9 0 ++ replicate 25 7);
        size = 40;
      };
      size = 6;
      num_written = 3;
      duplicates = false;
    })
unfolding program
encode_runs = refl

reads_runs :
    read_ids 3 (delta_cursor no_cursor (3 ∷ 0 ∷ 0 ∷ 0 ∷ 0x62 ∷ 0x22 ∷ 0xff ∷ [])) ≡ 3 ∷ 5 ∷ 9 ∷ []
unfolding program
reads_runs = refl

encode-Encodes_example :
    Outcome dirty_malloc
      (encode dirty_malloc insertion_qsort ids scratch true)
      (Encodes true (insertion_sort id_cmp ids) (0xff ∷ 0x80 ∷ []) no_cursor)
unfolding insertion_sort id_cmp
encode-Encodes_example =
    encode-Encodes dirty_malloc insertion_qsort no_cursor (0xff ∷ 0x80 ∷ []) (omega arith) ids
      scratch true (omega arith) (omega arith) (record { bytes = omega arith; size = refl })

bits_needed_example :
    (1 ≤ bits_needed 9)
    × (bits_needed 9 ≤ 32)
    × (9 < 2 ^ bits_needed 9)
    × ((bits_needed 9 ≡ 1) ⊎ (2 ^ bits_needed 9 ≤ 2 * 9))
bits_needed_example = bits_needed_lem 9 (omega arith)
