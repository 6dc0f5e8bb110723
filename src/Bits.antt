-- ===== src/Bits.antt =====
-- src/ddb_bits.h: bit fields in a little-endian buffer of bytes.
-- A buffer is the list of its bytes. `load` and `store` are the 64-bit accesses through a cast
-- pointer: past the end a load sees zeros and a store is dropped, and the callers' theorems say
-- that no access of theirs runs past the end.
mod Bytes
pub mod Value
pub mod Fields
pub mod Partial
mod Tests
pub use Bytes.{value, IsBytes, load, store}
unfoldable pub use Bytes.{load_bytes, store_bytes, to_bytes}
use discodb.Common.{ℕ, ◌*◌, ◌/◌, ◌%◌, ◌^◌, bit_or, List}

abbrev pub u32 : ℕ → ℕ
u32 n = n % 2 ^ 32

abbrev pub u64 : ℕ → ℕ
u64 n = n % 2 ^ 64

-- `bits` is below 64 at every call, so that the shift of the mask is defined.
unfoldable pub read_bits : List ℕ → ℕ → ℕ → ℕ
read_bits src offs bits = u32 (load 8 (offs / 8) src / 2 ^ (offs % 8) % 2 ^ bits)

unfoldable pub write_bits : List ℕ → ℕ → ℕ → List ℕ
write_bits dst offs val =
    store 8 (offs / 8) (bit_or (load 8 (offs / 8) dst) (u64 (val * 2 ^ (offs % 8)))) dst
