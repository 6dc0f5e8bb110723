-- ===== src/Map/Keys.antt =====
-- The keys of a map: integers, or strings in the key buffer. The code tells the two apart by whether
-- `str_key` is NULL. `super_fast_hash` stands for SuperFastHash of src/ddb_hash.h.
use discodb.Common.{
  ℕ, ◌%◌, ◌^◌, ◌≡◌, ◌↔◌, ◌⊎◌, Bool, true, false, ◌&&◌, Option, none, some, List, [], ◌∷◌, ◌==◌,
  length,
}
use discodb.Bits.{to_bytes}
use discodb.Membuffer.{Membuffer, Pointer, copy_ns, netstring}
use discodb.Membuffer.Contents.{IsMembuffer}

pub record KeyOps : Type 1 where
  pub Key : Type 0
  -- `item->key`
  pub Ptr : Type 0
  pub hash : Key → ℕ
  -- Whether the key of an item is the one that is looked up.
  pub same : Membuffer → Ptr → Key → Bool
  -- The key that a new item gets; `none` is NULL.
  pub save : (ℕ → Bool) → Membuffer → Key → Option (Ptr × Membuffer)
  -- The key that a cursor returns.
  pub read : Membuffer → Ptr → Key

-- What the keys of a map do.
pub record KeyLaws (ops : KeyOps) : Type 1 where
  -- The key is one that C can pass, and a pointer stands for a key.
  pub IsKey : ops.Key → Type 0
  pub Stands : Membuffer → ops.Ptr → ops.Key → Type 0
  pub same_iff :
      (mb : Membuffer) (p : ops.Ptr) (j k : ops.Key)
      → IsKey j
      → Stands mb p j
      → (ops.same mb p k ≡ true) ↔ (j ≡ k)
  pub read_lem :
      (mb : Membuffer) (p : ops.Ptr) (k : ops.Key) → IsKey k → Stands mb p k → ops.read mb p ≡ k
  pub save_lem :
      (available : ℕ → Bool) (mb : Membuffer) (k : ops.Key)
      → IsMembuffer mb
      → IsKey k
      → ((n : ℕ) × (available n ≡ false) × (ops.save available mb k ≡ none))
        ⊎ ((p : ops.Ptr) × (mb' : Membuffer) × (ops.save available mb k ≡ some (p, mb'))
            × IsMembuffer mb'
            × Stands mb' p k
            × ((q : ops.Ptr) (j : ops.Key) → Stands mb q j → Stands mb' q j))

-- `memcmp(x, y, n) == 0` on as many bytes as `x` has.
unfoldable pub bytes_eq : List ℕ → List ℕ → Bool
bytes_eq [] ys = true
bytes_eq (x ∷ xs) [] = false
bytes_eq (x ∷ xs) (y ∷ ys) = x == y && bytes_eq xs ys

unfoldable pub str_same : Membuffer → Pointer → List ℕ → Bool
str_same mb p key = let e = netstring mb p in length e == length key && bytes_eq e key

module _ (super_fast_hash : List ℕ → ℕ) where
  abbrev pub int_keys : KeyOps
  int_keys = record {
    Key = ℕ;
    Ptr = ℕ;
    hash = λ key. super_fast_hash (to_bytes 4 key);
    same = λ mb p key. p == key;
    save = λ available mb key. some (key, mb);
    read = λ mb p. p % 2 ^ 32;
  }

  abbrev pub str_keys : KeyOps
  str_keys = record {
    Key = List ℕ;
    Ptr = Pointer;
    hash = super_fast_hash;
    same = str_same;
    save = copy_ns;
    read = netstring;
  }
