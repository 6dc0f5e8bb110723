-- ===== src/Cnf/Window.antt =====
-- The bit arrays of src/ddb_cnf.c: one bit for each id of a window.
-- An array of bytes is a function of the index. `&` acts on each byte of a 64-bit word apart, so
-- that the accesses to words are written byte by byte.
pub mod Bits
use discodb.Common.{
  ℕ, zero, suc, ◌+◌, ◌*◌, ◌/◌, ◌%◌, ◌^◌, ◌<◌, Bool, true, false, not, ◌&&◌, bit_and, bit_or, ◌==◌,
  if◌then◌else◌, update,
}

abbrev pub window_size : ℕ
window_size = 1024

abbrev pub window_size_bytes : ℕ
window_size_bytes = 128

-- `memset(b, 0, WINDOW_SIZE_BYTES)`
abbrev pub cleared : ℕ → ℕ
cleared i = 0

unfoldable pub set_bit : (ℕ → ℕ) → ℕ → ℕ → ℕ
set_bit b offset = update b (offset / 8) (bit_or (b (offset / 8)) (2 ^ (offset % 8)) % 256)

unfoldable pub test_bit : (ℕ → ℕ) → ℕ → Bool
test_bit b offset = not (bit_and (b (offset / 8)) (2 ^ (offset % 8)) == 0)

-- `dst[i] &= src[i]` on the 64-bit word `i`
abbrev pub isect_word : ℕ → (ℕ → ℕ) → (ℕ → ℕ) → ℕ → ℕ
isect_word i dst src j = if j / 8 == i then bit_and (dst j) (src j) else dst j

unfoldable pub isect_loop : ℕ → (ℕ → ℕ) → (ℕ → ℕ) → ℕ → ℕ
isect_loop zero dst src = dst
isect_loop (suc i) dst src = isect_loop i (isect_word i dst src) src

unfoldable pub isect : (ℕ → ℕ) → (ℕ → ℕ) → ℕ → ℕ → ℕ
isect dst src len = isect_loop (len / 8) dst src

-- The 64-bit word `i` is 0.
abbrev pub zero_word : (ℕ → ℕ) → ℕ → ℕ → Bool
zero_word b i zero = true
zero_word b i (suc n) = zero_word b i n && b (8 * i + n) == 0

unfoldable pub isempty_loop : ℕ → (ℕ → ℕ) → Bool
isempty_loop zero b = true
isempty_loop (suc i) b = zero_word b i 8 && isempty_loop i b

unfoldable pub isempty : (ℕ → ℕ) → ℕ → Bool
isempty b len = isempty_loop (len / 8) b
