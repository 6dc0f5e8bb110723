-- ===== src/Bits/Tests.antt =====
-- Runs of the bit fields, and the theorems at concrete inputs.
use discodb.Common.{ℕ, ◌≡◌, ◌+◌, ◌*◌, ◌^◌, inl, refl, arith, List, ◌∷◌, replicate}
use discodb.Bits.{value, IsBytes, load_bytes, store_bytes, read_bits, write_bits}
use discodb.Bits.Fields.{read_bits-write_bits_self, read_bits-write_bits_other, write_bits-value}

-- The three low bits of the first byte are taken; all else is clear.
abbrev buffer : List ℕ
buffer = 5 ∷ replicate 11 0

buffer-IsBytes : IsBytes buffer
buffer-IsBytes = omega arith

program : Unit {0}
unfolding load_bytes store_bytes read_bits write_bits
program = tt

write_runs : write_bits buffer 3 1000 ≡ 69 ∷ 31 ∷ replicate 10 0
unfolding program
write_runs = refl

read_bits-write_bits_self_example : read_bits (write_bits buffer 3 1000) 3 10 ≡ 1000
unfolding program
read_bits-write_bits_self_example =
    read_bits-write_bits_self buffer 3 10 1000 buffer-IsBytes (omega arith) (omega arith)
      (omega arith) refl

read_bits-write_bits_other_example : read_bits (write_bits buffer 3 1000) 0 3 ≡ read_bits buffer 0 3
read_bits-write_bits_other_example =
    read_bits-write_bits_other buffer 3 10 1000 0 3 buffer-IsBytes (omega arith) (omega arith)
      (omega arith) refl (omega arith) (inl (omega arith))

write_bits-value_example : value (write_bits buffer 3 1000) ≡ value buffer + 1000 * 2 ^ 3
write_bits-value_example =
    write_bits-value buffer 3 10 1000 buffer-IsBytes (omega arith) (omega arith) (omega arith) refl
