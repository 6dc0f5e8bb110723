-- ===== src/Bits/Bytes.antt =====
-- Buffers of bytes and multi-byte accesses.
use discodb.Common.{ℕ, zero, suc, ◌+◌, ◌*◌, ◌/◌, ◌%◌, ◌<◌, List, [], ◌∷◌, ◌++◌, All, take, drop}

-- The number whose digits in base 256, lowest first, are the bytes.
abbrev pub value : List ℕ → ℕ
value [] = 0
value (b ∷ bs) = b + 256 * value bs

abbrev pub IsBytes : List ℕ → Type 0
IsBytes = All (λ b. b < 256)

-- The first `n` bytes, as a number.
unfoldable pub load_bytes : ℕ → List ℕ → ℕ
load_bytes zero bs = 0
load_bytes (suc n) [] = 0
load_bytes (suc n) (b ∷ bs) = b + 256 * load_bytes n bs

-- The number `w` over the first `n` bytes.
unfoldable pub store_bytes : ℕ → ℕ → List ℕ → List ℕ
store_bytes zero w bs = bs
store_bytes (suc n) w [] = []
store_bytes (suc n) w (b ∷ bs) = (w % 256) ∷ store_bytes n (w / 256) bs

-- The `n` bytes at index `i`.
abbrev pub load : ℕ → ℕ → List ℕ → ℕ
load n i bs = load_bytes n (drop i bs)

abbrev pub store : ℕ → ℕ → ℕ → List ℕ → List ℕ
store n i w bs = take i bs ++ store_bytes n w (drop i bs)

-- The bytes of an integer of `n` bytes, as `memcpy` of its address takes them.
unfoldable pub to_bytes : ℕ → ℕ → List ℕ
to_bytes zero w = []
to_bytes (suc n) w = (w % 256) ∷ to_bytes n (w / 256)
