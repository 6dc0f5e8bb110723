-- ===== src/Map/Add.antt =====
-- `ddb_map_insert_int` and `ddb_map_insert_str`: the map as a function of the key, and as the list of
-- its keys.
use discodb.Common.{
  ℕ, ◌+◌, ◌*◌, ◌%◌, ◌^◌, ◌<◌, ◌≤◌, ◌≡◌, ◌≢◌, refl, sym, ap, ap₂, ◌∙◌, arith, Bool, true, false, not,
  ◌&&◌, none, some, List, [], ◌∷◌, ◌++◌, map, ltb, if◌then◌else◌, length, All, All-append, inr, ◌⊎◌,
}
use discodb.KeyList.{KeyList, list_append}
use discodb.KeyList.Contents.{contents, Extends}
use discodb.Membuffer.{Membuffer}
use discodb.Membuffer.Contents.{IsMembuffer}
use discodb.Map.Keys.{KeyOps, KeyLaws}
use discodb.Map.{
  Item, Leaf, Map, Place, Inserted, at, full, failed, undefined, idx1, idx2, leaf_at, set_leaf,
  sizeof_item, leaf_size_increment, new_item,
}
use discodb.Map.Search.{place_of, value_of}
use discodb.Map.Grow.{
  Listed, IsMap, keys_of, added, value_of-added_other, value_of-added_self, place_of-added,
  place_of-added_later, added-IsItems,
}
use mathlib.Core.Path.{subst}
use mathlib.Core.List.{map-append}
use discodb.Map.Insert.{Same, Listed-imp}

module _ {ops : KeyOps} (laws : KeyLaws ops) {V : Type 0} where
  module _ (available : ℕ → Bool) (null : V) (m : Map ops V) (k : ops.Key) where
    abbrev leaf : Leaf ops V
    leaf = leaf_at m (idx1 (ops.hash k)) (idx2 (ops.hash k))

    abbrev pub grown : Bool
    grown = ltb leaf.size (length leaf.items + 1)

    abbrev pub size : ℕ
    size = if grown then (leaf.size + leaf_size_increment) % 2 ^ 32 else leaf.size

    pub item-full : ltb m.num_items m.max_num_items ≡ false → new_item available null m k ≡ full m
    unfolding new_item
    item-full e = ground arith

    pub item-no_leaf :
        ltb m.num_items m.max_num_items ≡ true
        → (grown && not (available (size * sizeof_item))) ≡ true
        → new_item available null m k ≡ failed
    unfolding new_item
    item-no_leaf e f = rw (e, f) refl

    module _ (e : ltb m.num_items m.max_num_items ≡ true)
        (f : (grown && not (available (size * sizeof_item))) ≡ false) where
      pub item-no_key :
          ops.save available m.key_buffer k ≡ none → new_item available null m k ≡ undefined
      unfolding new_item
      item-no_key g = rw (e, f, g) refl

      pub item-no_list :
          (ptr : ops.Ptr) (mb : Membuffer)
          → ops.save available m.key_buffer k ≡ some (ptr, mb)
          → list_append available m.keys ptr ≡ none
          → new_item available null m k ≡ failed
      unfolding new_item
      item-no_list ptr mb g h = rw (e, f, g, h) refl

      pub item-runs :
          (ptr : ops.Ptr) (mb : Membuffer) (keys : KeyList ops.Ptr)
          → ops.save available m.key_buffer k ≡ some (ptr, mb)
          → list_append available m.keys ptr ≡ some keys
          → new_item available null m k
            ≡ at
                (record {
                  first = idx1 (ops.hash k);
                  second = idx2 (ops.hash k);
                  i = length leaf.items;
                })
                (set_leaf
                  (record m { num_items = m.num_items + 1; key_buffer = mb; keys = keys })
                  (idx1 (ops.hash k))
                  (idx2 (ops.hash k))
                  (record {
                    items = leaf.items ++ (record { key = ptr; value = null } ∷ []);
                    size = size;
                  }))
      unfolding new_item
      item-runs ptr mb keys g h = rw (e, f, g, h) refl

  -- What an insertion of `k` makes of `m`: its place is returned, other keys have the values that
  -- they had; and either the key was there and nothing else changes, or it is the last key now and
  -- its value is 0.
  pub record Inserts (null : V) (m : Map ops V) (k : ops.Key) (p : Place) (m' : Map ops V)
      : Type 0 where
    pub valid : IsMap laws m'
    pub place : place_of m' k ≡ some p
    pub others : (j : ops.Key) → j ≢ k → value_of m' j ≡ value_of m j
    pub own :
        ((q : Place) × (place_of m k ≡ some q)
          × (value_of m' k ≡ value_of m k)
          × (keys_of m' ≡ keys_of m)
          × (m'.num_items ≡ m.num_items))
        ⊎ ((place_of m k ≡ none)
            × (value_of m' k ≡ some null)
            × (keys_of m' ≡ keys_of m ++ (k ∷ []))
            × (m'.num_items ≡ m.num_items + 1))

  abbrev pub InsertOutcome : (ℕ → Bool) → V → Map ops V → ops.Key → Inserted (Map ops V) → Type 0
  InsertOutcome available null m k result =
      ((n : ℕ) × (available n ≡ false) × ((result ≡ failed) ⊎ (result ≡ undefined)))
      ⊎ ((m' : Map ops V) × (result ≡ full m')
          × Same m m'
          × (m.num_items ≡ m.max_num_items)
          × (place_of m k ≡ none))
      ⊎ ((p : Place) × (m' : Map ops V) × (result ≡ at p m') × Inserts null m k p m')

  -- The keys read as before from a buffer that has grown.
  read-later :
      (m : Map ops V) (mb : Membuffer) (ps : List ops.Ptr)
      → ((q : ops.Ptr) (j : ops.Key) → laws.Stands m.key_buffer q j → laws.Stands mb q j)
      → All (Listed laws m) ps
      → map (ops.read mb) ps ≡ map (ops.read m.key_buffer) ps
  read-later m mb [] kept h = refl
  read-later m mb (p ∷ ps) kept h =
      let (k, key, stands, q, e) = h.0 in
      ap₂ (λ (x : ops.Key) (xs : List ops.Key). x ∷ xs)
        (laws.read_lem mb p k key (kept p k stands)
          ∙ sym (laws.read_lem m.key_buffer p k key stands))
        (read-later m mb ps kept h.1)

  list-Keyed :
      (m m' : Map ops V) (ps : List ops.Ptr)
      → ((j : ops.Key) (q : Place)
          → place_of m j ≡ some q
          → (q' : Place) × (place_of m' j ≡ some q'))
      → ((q : ops.Ptr) (j : ops.Key) → laws.Stands m.key_buffer q j → laws.Stands m'.key_buffer q j)
      → All (Listed laws m) ps
      → All (Listed laws m') ps
  list-Keyed m m' ps later kept h =
      Listed-imp laws m m'
        (λ p l. let (q, e) = later l.0 l.3 l.4 in (l.0, l.1, kept p l.0 l.2, q, e)) ps h

  module _ (null : V) (m : Map ops V) (k : ops.Key) (ptr : ops.Ptr) (mb : Membuffer) (size : ℕ)
      (keys : KeyList ops.Ptr) (is : IsMap laws m) (key : laws.IsKey k)
      (missing : place_of m k ≡ none) (room : m.num_items < m.max_num_items)
      (valid : IsMembuffer mb) (stands : laws.Stands mb ptr k)
      (kept : (q : ops.Ptr) (j : ops.Key) → laws.Stands m.key_buffer q j → laws.Stands mb q j)
      (extends : Extends m.keys ptr keys)
      (ahead : (keys.i ≡ m.keys.i + 1) × (keys.size ≤ keys.i + 128)) where
    abbrev new : Item ops V
    new = record { key = ptr; value = null }

    abbrev m' : Map ops V
    m' = added laws m k mb new size (m.num_items + 1) keys is.items key stands kept

    abbrev leaf_items : List (Item ops V)
    leaf_items = (leaf_at m (idx1 (ops.hash k)) (idx2 (ops.hash k))).items

    m'-IsMap : IsMap laws m'
    m'-IsMap = record {
      buffer = valid;
      items = added-IsItems laws m k mb new size (m.num_items + 1) keys is.items key stands kept;
      listed = subst (All (Listed laws m')) (sym extends.holds) (
          All-append (Listed laws m') (contents m.keys) (ptr ∷ [])
            (list-Keyed m m' (contents m.keys)
              (place_of-added_later laws m k mb new size (m.num_items + 1) keys is.items key stands
                kept)
              kept is.listed)
            (
              (
                k,
                key,
                stands,
                _,
                place_of-added laws m k mb new size (m.num_items + 1) keys is.items key stands kept,
              ),
              tt,
            ));
      list = extends.valid;
      ahead = ahead.1;
      count = omega (arith, ahead.0, is.count);
      limit = omega arith;
    }

    pub new-Inserts :
        Inserts null m k
          (record { first = idx1 (ops.hash k); second = idx2 (ops.hash k); i = length leaf_items })
          m'
    new-Inserts = record {
      valid = m'-IsMap;
      place = place_of-added laws m k mb new size (m.num_items + 1) keys is.items key stands kept;
      others =
          value_of-added_other laws m k mb new size (m.num_items + 1) keys is.items key stands kept;
      own = inr (
        missing,
        value_of-added_self laws m k mb new size (m.num_items + 1) keys is.items key stands kept,
        ap (map (ops.read mb)) extends.holds
            ∙ map-append (ops.read mb) (contents m.keys) (ptr ∷ [])
            ∙ ap₂ (λ (xs ys : List ops.Key). xs ++ ys)
                (read-later m mb (contents m.keys) kept is.listed)
                (ap (λ (x : ops.Key). x ∷ []) (laws.read_lem mb ptr k key stands)),
        refl,
      );
    }
