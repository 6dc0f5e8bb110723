-- ===== src/Map/Lookup.antt =====
-- `ddb_map_lookup_int` and `_str` against the items of the map: an item with the key is found if there is
-- one.
use discodb.Common.{
  ℕ, suc, ◌≡◌, refl, ap, ◌∙◌, Bool, false, Option, none, some, List, [], ◌∷◌, get_elem?, All,
  Bool-cases, inl, inr, ◌⊎◌, Option-cases,
}
use discodb.Membuffer.{Membuffer}
use discodb.Map.Keys.{KeyOps, KeyLaws}
use discodb.Map.{Item, Map, Place, idx1, idx2, leaf_at, search_items, map_lookup}
use discodb.Map.Search.{All-get_elem?, search_items-found}
use discodb.Map.Grow.{IsMap}
use discodb.Map.Insert.{Same, map_lookup-place_of}
use mathlib.Core.Option
use mathlib.Core.Path.{subst}

module _ {ops : KeyOps} {V : Type 0} where
  search_items-missing :
      (mb : Membuffer) (items : List (Item ops V)) (k : ops.Key)
      → search_items mb items k ≡ none
      → All (λ (x : Item ops V). ops.same mb x.key k ≡ false) items
  unfolding search_items
  search_items-missing mb [] k e = tt
  search_items-missing mb (x ∷ xs) k e = elim (Option-cases (search_items mb xs k)) [
    | inr (j, found) ↦ let bad : some (suc j) ≡ none = rw found at e in absurd (cc)
    | inl missing ↦ elim (Bool-cases (ops.same mb x.key k)) [
      | inl same ↦ let bad : some 0 ≡ none = rw (missing, same) at e in absurd (cc)
      | inr other ↦ (other, search_items-missing mb xs k missing)
    ]
  ]

module _ {ops : KeyOps} (laws : KeyLaws ops) {V : Type 0} where
  -- The place is that of an item whose key is `k`, in the leaf of the hash of `k`.
  pub record IsPlace (m : Map ops V) (k : ops.Key) (p : Place) : Type 0 where
    pub first : p.first ≡ idx1 (ops.hash k)
    pub second : p.second ≡ idx2 (ops.hash k)
    pub item : Item ops V
    pub there : get_elem? (leaf_at m p.first p.second).items p.i ≡ some item
    pub stands : laws.Stands m.key_buffer item.key k

  -- No item in the leaf of the hash of `k` has the key `k`.
  abbrev pub Absent : Map ops V → ops.Key → Type 0
  Absent m k =
      All (λ (x : Item ops V). laws.Stands m.key_buffer x.key k → ⊥)
        (leaf_at m (idx1 (ops.hash k)) (idx2 (ops.hash k))).items

  -- NULL for want of memory; the place of the key; or NULL for a key that is missing.
  abbrev pub FindOutcome :
      (ℕ → Bool) → Map ops V → Map ops V → ops.Key → Option Place × Map ops V → Type 0
  FindOutcome available m m' k result =
      ((n : ℕ) × (available n ≡ false) × (result ≡ (none, m')))
      ⊎ (((p : Place) × (result ≡ (some p, m')) × IsPlace m k p)
          ⊎ ((result ≡ (none, m')) × Absent m k))

  absent :
      (mb : Membuffer) (items : List (Item ops V)) (k : ops.Key)
      → laws.IsKey k
      → All (λ (x : Item ops V). ops.same mb x.key k ≡ false) items
      → All (λ (x : Item ops V). laws.Stands mb x.key k → ⊥) items
  absent mb [] k is h = tt
  absent mb (x ∷ xs) k is h = (
    (λ stands. let yes = (laws.same_iff mb x.key k k is stands).1 refl in absurd (cc)),
    absent mb xs k is h.1,
  )

  module _ (m : Map ops V) (k : ops.Key) (valid : IsMap laws m) (is : laws.IsKey k) where
    item-IsPlace :
        (i : ℕ)
        → search_items m.key_buffer (leaf_at m (idx1 (ops.hash k)) (idx2 (ops.hash k))).items k
          ≡ some i
        → IsPlace m k (record { first = idx1 (ops.hash k); second = idx2 (ops.hash k); i = i })
    item-IsPlace i found =
        let items = (leaf_at m (idx1 (ops.hash k)) (idx2 (ops.hash k))).items in
        let (x, there, same) = search_items-found m.key_buffer items k i found in
        let (j, key, stands) =
          All-get_elem? laws m.key_buffer items i x
            (valid.items (idx1 (ops.hash k)) (idx2 (ops.hash k))) there in
        let one : j ≡ k = (laws.same_iff m.key_buffer x.key j k key stands).0 same in
        record {
          first = refl;
          second = refl;
          item = x;
          there = there;
          stands = subst (laws.Stands m.key_buffer x.key) one stands;
        }

    -- On a well-formed map a lookup leaves the map as it is, but for leaves that are there now. It
    -- returns NULL for want of memory; or the place of an item with the key; or NULL, and then no item
    -- in the leaf of the key's hash has the key.
    pub map_lookup-Finds :
        (available : ℕ → Bool)
        → (m' : Map ops V) × Same m m'
          × IsMap laws m'
          × FindOutcome available m m' k (map_lookup available m k)
    map_lookup-Finds available =
        let (m', same, valid', outcome) = map_lookup-place_of laws available m k valid in
        let items = (leaf_at m (idx1 (ops.hash k)) (idx2 (ops.hash k))).items in
        (
          m',
          same,
          valid',
          elim outcome [
            | inl refused ↦ inl refused
            | inr runs ↦ elim (Option-cases (search_items m.key_buffer items k)) [
              | inl missing ↦ inr (
                  inr (
                    runs ∙ ap (λ (o : Option ℕ). (Option.map (at_index) o, m')) missing,
                    absent m.key_buffer items k is
                        (search_items-missing m.key_buffer items k missing),
                  ))
              | inr (i, found) ↦ inr (
                  inl (
                    at_index i,
                    runs ∙ ap (λ (o : Option ℕ). (Option.map (at_index) o, m')) found,
                    item-IsPlace i found,
                  ))
            ]
          ],
        )
      where
        at_index : ℕ → Place
        at_index i = record { first = idx1 (ops.hash k); second = idx2 (ops.hash k); i = i }
