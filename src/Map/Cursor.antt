-- ===== src/Map/Cursor.antt =====
-- The cursor of a map returns its keys in the order of insertion.
use discodb.Common.{
  ℕ, zero, suc, ◌+◌, ◌<◌, ◌≤◌, ◌≡◌, refl, sym, ap, ◌∙◌, arith, Bool, false, none, some, List, [],
  ◌∷◌, ◌++◌, ◌==◌, map, Bool-cases, inl, inr, ◌⊎◌,
}
use discodb.KeyList.Contents.{prefix}
use discodb.Map.Keys.{KeyOps}
use discodb.Map.{Map, MapCursor, map_cursor_new, map_next, sizeof_cursor}
use discodb.Map.Grow.{keys_of}
use mathlib.Core.List.{append_assoc, append-nil, map-append}

module _ {ops : KeyOps} {V : Type 0} where
  -- The keys that `n` calls return, up to the one that returns 0.
  unfoldable pub walk : ℕ → Map ops V → MapCursor ops.Ptr → List ops.Key
  walk zero m c = []
  walk (suc n) m c = elim (map_next m c) [ none ↦ [] | some (k, c') ↦ k ∷ walk n m c' ]

  abbrev read_from : Map ops V → (ℕ → ops.Ptr) → ℕ → ℕ → List ops.Key
  read_from m keys i zero = []
  read_from m keys i (suc n) = ops.read m.key_buffer (keys i) ∷ read_from m keys (i + 1) n

  next-end : (m : Map ops V) (c : MapCursor ops.Ptr) → c.length ≡ c.i → map_next m c ≡ none
  unfolding map_next
  next-end m c e = ground arith

  next-more :
      (m : Map ops V) (c : MapCursor ops.Ptr)
      → c.i < c.length
      → map_next m c ≡ some (ops.read m.key_buffer (c.keys c.i), record c { i = c.i + 1 })
  unfolding map_next
  next-more m c h = let more : (c.i == c.length) ≡ false = ground arith in rw more refl

  walk-read_from :
      (n : ℕ) (m : Map ops V) (c : MapCursor ops.Ptr) (left : ℕ)
      → c.length ≡ c.i + left
      → left ≤ n
      → walk (suc n) m c ≡ read_from m c.keys c.i left
  unfolding walk
  walk-read_from n m c zero e le = rw (next-end m c (omega arith), walk) refl
  walk-read_from zero m c (suc left) e le = absurd (omega arith)
  walk-read_from (suc n) m c (suc left) e le =
      rw (next-more m c (omega arith), walk)
        (ap (λ (l : List ops.Key). ops.read m.key_buffer (c.keys c.i) ∷ l)
          (walk-read_from n m (record c { i = c.i + 1 }) left (omega arith) (omega arith)))

  read_from-prefix :
      (m : Map ops V) (keys : ℕ → ops.Ptr) (i n : ℕ)
      → map (ops.read m.key_buffer) (prefix keys i) ++ read_from m keys i n
        ≡ map (ops.read m.key_buffer) (prefix keys (i + n))
  read_from-prefix m keys i zero =
      append-nil (map (ops.read m.key_buffer) (prefix keys i))
      ∙ (let same : i ≡ i + 0 = omega arith in
          ap (λ (k : ℕ). map (ops.read m.key_buffer) (prefix keys k)) same)
  read_from-prefix m keys i (suc n) =
      sym (
        append_assoc (map (ops.read m.key_buffer) (prefix keys i))
          (ops.read m.key_buffer (keys i) ∷ []) (read_from m keys (i + 1) n))
      ∙ ap (λ (l : List ops.Key). l ++ read_from m keys (i + 1) n)
          (sym (map-append (ops.read m.key_buffer) (prefix keys i) (keys i ∷ [])))
      ∙ ap (λ (k : ℕ). map (ops.read m.key_buffer) (prefix keys k) ++ read_from m keys (i + 1) n)
          (suc_of i)
      ∙ read_from-prefix m keys (i + 1) n
      ∙ same_count (i + 1 + n) (i + suc n) (omega arith)
    where
      same_count :
          (a b : ℕ)
          → a ≡ b
          → map (ops.read m.key_buffer) (prefix keys a)
            ≡ map (ops.read m.key_buffer) (prefix keys b)
      same_count a b e = ap (λ (k : ℕ). map (ops.read m.key_buffer) (prefix keys k)) e

      suc_of : (i : ℕ) → suc i ≡ i + 1
      suc_of i = omega arith

  -- Unless memory is refused for it, a new cursor returns the keys of the map in the order of their
  -- insertion, and then 0.
  pub map_cursor_new-walk :
      (available : ℕ → Bool) (m : Map ops V)
      → ((n : ℕ) × (available n ≡ false) × (map_cursor_new available m ≡ none))
        ⊎ ((c : MapCursor ops.Ptr) × (map_cursor_new available m ≡ some c)
            × (walk (suc c.length) m c ≡ keys_of m))
  unfolding map_cursor_new
  map_cursor_new-walk available m = elim (Bool-cases (available sizeof_cursor)) [
    | inr refused ↦ inl (sizeof_cursor, refused, rw refused refl)
    | inl met ↦
        let c : MapCursor ops.Ptr = record { keys = m.keys.list; length = m.keys.i; i = 0 } in
        inr (
          c,
          rw met refl,
          walk-read_from m.keys.i m c m.keys.i (omega arith) (omega arith)
              ∙ read_from-prefix m m.keys.list 0 m.keys.i
              ∙ (let same : 0 + m.keys.i ≡ m.keys.i = omega arith in
                  ap (λ (k : ℕ). map (ops.read m.key_buffer) (prefix m.keys.list k)) same),
        )
  ]
