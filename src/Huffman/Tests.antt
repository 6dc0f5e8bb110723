-- ===== src/Huffman/Tests.antt =====
-- Runs of the code, and the theorems at concrete inputs.
use discodb.Common.{
  ℕ, ◌+◌, ◌≡◌, refl, arith, Bool, true, none, some, List, [], ◌∷◌, ◌++◌, ◌==◌, if◌then◌else◌,
  replicate, take, ◌⊎◌,
}
use discodb.Bits.{load_bytes, store_bytes, to_bytes, read_bits, write_bits}
use discodb.Libc.Instances.{dirty_malloc, dirty}
use discodb.Delta.{Buffer}
use discodb.Delta.Allocate.{IsBuffer}
use discodb.Queue.{queue_new, queue_push, queue_pop, queue_peek, queue_length}
use discodb.Huffman.Codec.{
  Codeword, Compressed, prepare, write_literal, write_code, write_literals, write_groups, seal,
  compress, make_room, unpack_one, unpack, decompress,
}
use discodb.Huffman.Code.{
  Tree, null, symbol, node, Symbols, allocate_codewords, pop_min_weight, merge_round, merge,
  huffman_code, make_codebook, insert_words, save_code, save_items, save_codemap, find,
}
use discodb.Huffman.Codemap.{words_of, allocated-Agrees}
use discodb.Huffman.RoundTrip.{Unpacks, compress-Unpacks}
use discodb.Huffman.Words.{Codes, huffman_code-Codes}

abbrev always : ℕ → Bool
always n = true

program : Unit {0}
unfolding load_bytes store_bytes to_bytes read_bits write_bits dirty queue_new queue_push queue_pop
    queue_peek queue_length prepare write_literal write_code write_literals write_groups seal
    compress make_room unpack_one unpack decompress allocate_codewords pop_min_weight merge_round
    merge huffman_code make_codebook insert_words save_code save_items save_codemap
program = tt

-- Three symbols: the heaviest gets one bit, the others two.
abbrev weights : Symbols
weights = (2, 1) ∷ (1, 2) ∷ (0, 5) ∷ []

huffman_code_runs :
    huffman_code always (λ i. null) 48 weights 3
    ≡ some (
        record { index = 0; code = 1; num_bits = 1 }
        ∷ record { index = 1; code = 2; num_bits = 2 }
        ∷ record { index = 2; code = 0; num_bits = 2 }
        ∷ [])
unfolding program
huffman_code_runs = refl

abbrev blank : ℕ → Codeword
blank i = record { symbol = 0; bits = 0 }

huffman_code-Codes_example :
    Codes
      (λ r. true)
      (λ i. i + 100)
      blank
      always
      weights
      3
      (huffman_code always (λ i. null) 48 weights 3)
huffman_code-Codes_example =
    huffman_code-Codes (λ r. true) (λ i. i + 100) blank always (λ i. null) 48 3 weights
      (λ i j lt lt' e. omega (arith, e)) refl (omega arith)

-- The groups "abcd" and "bcda", with one bit for each.
abbrev pair : Tree
pair = node (symbol 0 2) (symbol 1 1) 3

abbrev letters : ℕ → ℕ
letters i = if i == 0 then 0x64636261 else 0x61646362

abbrev items : List (ℕ × ℕ)
items = words_of letters (allocate_codewords 16 pair 0 0) 2

make_codebook_runs :
    make_codebook (λ r. true) letters (allocate_codewords 16 pair 0 0) 2 ≡ some items
unfolding program
make_codebook_runs = refl

book : ℕ → Codeword
book = save_items items blank

abbrev scratch : Buffer
scratch = record { bytes = []; size = 0 }

-- "abcdabcd!": a group, another one, and a literal.
abbrev source : List ℕ
source = 0x61 ∷ 0x62 ∷ 0x63 ∷ 0x64 ∷ 0x62 ∷ 0x63 ∷ 0x64 ∷ 0x61 ∷ 0x21 ∷ []

compress_runs :
    compress (find items) dirty_malloc source scratch
    ≡ some (record { size = 2; buf = record { bytes = 0x68 ∷ 0x21 ∷ replicate 18 0; size = 20 } })
unfolding program
compress_runs = refl

compress-Unpacks_example :
    ((n : ℕ) × (dirty_malloc.malloc n ≡ none)
      × (compress (find items) dirty_malloc source scratch ≡ none))
    ⊎ ((c : Compressed) × (compress (find items) dirty_malloc source scratch ≡ some c)
        × IsBuffer c.buf
        × Unpacks always source
            (decompress always book (take c.size c.buf.bytes ++ (0 ∷ 0 ∷ 0 ∷ 0 ∷ [])) c.size 0))
unfolding book
compress-Unpacks_example =
    compress-Unpacks dirty_malloc always (find items) book source scratch 0 (0 ∷ 0 ∷ 0 ∷ 0 ∷ [])
      (allocated-Agrees pair 2 letters blank) (omega arith) (omega arith)
      (record { bytes = tt; size = refl }) (omega arith)
