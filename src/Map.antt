-- ===== src/Map.antt =====
-- src/ddb_map.c: a map from keys to values in a trie over a hash of 24 bits, which also lists its
-- keys in the order of insertion.
-- The arrays of leaves are functions, and a leaf the list of its items. A pointer to the value of an
-- item is the place of the item. `available n` says whether a request for `n` bytes is met, and
-- `null` is the value 0.
pub mod Keys
pub mod Search
pub mod Grow
pub mod Insert
pub mod Add
pub mod Refines
pub mod Laws
pub mod Cursor
pub mod New
pub mod Lookup
mod Tests
use discodb.Common.{
  ℕ, zero, suc, ◌+◌, ◌-◌, ◌*◌, ◌/◌, ◌%◌, ◌^◌, Bool, true, false, not, ◌&&◌, Option, none, some,
  List, [], ◌∷◌, ◌++◌, ltb, leb, ◌==◌, if◌then◌else◌, length, get_elem?, get_or, set, update,
}
use discodb.KeyList.{KeyList, list_new, list_append}
use discodb.Membuffer.{Membuffer, membuffer_new}
use discodb.Map.Keys.{KeyOps}
use mathlib.Core.Option

abbrev pub idx1 : ℕ → ℕ
idx1 x = x % 2 ^ 16

abbrev pub idx2 : ℕ → ℕ
idx2 x = x / 2 ^ 16 % 2 ^ 8

abbrev pub leaf_size_increment : ℕ
leaf_size_increment = 2

-- sizeof(struct leaf), sizeof(struct ddb_map_item), sizeof(struct ddb_map) and
-- sizeof(struct ddb_map_cursor)
abbrev pub sizeof_leaf : ℕ
sizeof_leaf = 16

abbrev pub sizeof_item : ℕ
sizeof_item = 16

abbrev pub sizeof_map : ℕ
sizeof_map = 40

abbrev pub sizeof_cursor : ℕ
sizeof_cursor = 32

module _ (ops : KeyOps) (V : Type 0) where
  -- struct ddb_map_item
  pub record Item : Type 0 where
    pub key : ops.Ptr
    pub value : V

  -- struct leaf
  pub record Leaf : Type 0 where
    pub items : List Item
    pub size : ℕ

  -- struct ddb_map
  pub record Map : Type 0 where
    pub leaves : ℕ → Option (ℕ → Leaf)
    pub num_items : ℕ
    pub max_num_items : ℕ
    pub key_buffer : Membuffer
    pub keys : KeyList ops.Ptr

  abbrev pub empty_leaf : Leaf
  empty_leaf = record { items = []; size = 0 }

-- The address of the value of an item.
pub record Place : Type 0 where
  pub first : ℕ
  pub second : ℕ
  pub i : ℕ

-- What an insertion returns: the place of the value; NULL, since the map is full; NULL for want of
-- memory, which leaves the map with a leaf or a list that is gone; or nothing that C defines: a NULL
-- leaf is followed, or NULL is stored as a key.
pub data Inserted (M : Type 0) : Type 0 where
  at : Place → M → Inserted M
  full : M → Inserted M
  failed : Inserted M
  undefined : Inserted M

-- struct ddb_map_cursor, apart from the map
pub record MapCursor (P : Type 0) : Type 0 where
  pub keys : ℕ → P
  pub length : ℕ
  pub i : ℕ

module _ {ops : KeyOps} {V : Type 0} where
  abbrev pub leaf_at : Map ops V → ℕ → ℕ → Leaf ops V
  leaf_at map a b = elim (map.leaves a) [ none ↦ empty_leaf ops V | some leaves ↦ leaves b ]

  -- `map->leaves[a][b] = leaf`
  abbrev pub set_leaf : Map ops V → ℕ → ℕ → Leaf ops V → Map ops V
  set_leaf map a b leaf = record map {
    leaves = update map.leaves a (some (update (leaf_at map a) b leaf));
  }

  -- `*ptr` and `*ptr = v`
  abbrev pub value_at : Map ops V → Place → Option V
  value_at map p =
      Option.map (λ (item : Item ops V). item.value)
        (get_elem? (leaf_at map p.first p.second).items p.i)

  abbrev set_item : List (Item ops V) → ℕ → V → List (Item ops V)
  set_item [] i v = []
  set_item (x ∷ xs) zero v = record x { value = v } ∷ xs
  set_item (x ∷ xs) (suc i) v = x ∷ set_item xs i v

  abbrev pub set_value : Map ops V → Place → V → Map ops V
  set_value map p v =
      let leaf = leaf_at map p.first p.second in
      set_leaf map p.first p.second (record leaf { items = set_item leaf.items p.i v })

  -- `while (i--)`: the last item comes first.
  unfoldable pub search_items : Membuffer → List (Item ops V) → ops.Key → Option ℕ
  search_items mb [] key = none
  search_items mb (x ∷ xs) key = elim (search_items mb xs key) [
    | some i ↦ some (suc i)
    | none ↦ if ops.same mb x.key key then some 0 else none
  ]

  module _ (available : ℕ → Bool) where
    -- `if (!map->leaves[idx])`: `none` if `calloc` fails.
    unfoldable pub open_leaves : Map ops V → ℕ → Option (Map ops V)
    open_leaves map a = elim (map.leaves a) [
      | some leaves ↦ some map
      | none ↦
          if available (256 * sizeof_leaf)
          then some (record map { leaves = update map.leaves a (some (λ b. empty_leaf ops V)) })
          else none
    ]

    -- The place of the value and the map, in which the leaves are there now.
    unfoldable pub lookup_leaf : Map ops V → ops.Key → Option (Option Place × Map ops V)
    lookup_leaf map key =
        let a = idx1 (ops.hash key) in
        let b = idx2 (ops.hash key) in
        elim (open_leaves map a) [
          | none ↦ none
          | some map' ↦ some (
            Option.map (λ (i : ℕ). record { first = a; second = b; i = i })
                (search_items map'.key_buffer (leaf_at map' a b).items key),
            map',
          )
        ]

    -- NULL for a key that is missing, and if `calloc` fails.
    unfoldable pub map_lookup : Map ops V → ops.Key → Option Place × Map ops V
    map_lookup map key = elim (lookup_leaf map key) [ none ↦ (none, map) | some r ↦ r ]

    unfoldable pub new_item : V → Map ops V → ops.Key → Inserted (Map ops V)
    new_item null map key =
        let a = idx1 (ops.hash key) in
        let b = idx2 (ops.hash key) in
        let leaf = leaf_at map a b in
        let grown = ltb leaf.size (length leaf.items + 1) in
        let size = if grown then (leaf.size + leaf_size_increment) % 2 ^ 32 else leaf.size in
        if not (ltb map.num_items map.max_num_items)
        then full map
        else if grown && not (available (size * sizeof_item))
        then failed
        else elim (ops.save available map.key_buffer key) [
          | none ↦ undefined
          | some (ptr, mb) ↦ elim (list_append available map.keys ptr) [
            | none ↦ failed
            | some keys ↦
                at (record { first = a; second = b; i = length leaf.items })
                  (set_leaf
                    (record map { num_items = map.num_items + 1; key_buffer = mb; keys = keys }) a b
                    (record {
                      items = leaf.items ++ (record { key = ptr; value = null } ∷ []);
                      size = size;
                    }))
          ]
        ]

    unfoldable pub map_insert : V → Map ops V → ops.Key → Inserted (Map ops V)
    map_insert null map key = elim (lookup_leaf map key) [
      | none ↦ undefined
      | some (found, map') ↦ elim found [ some p ↦ at p map' | none ↦ new_item null map' key ]
    ]

    -- `none` is NULL; when `calloc` fails for the leaves, `ddb_map_free` follows a NULL.
    unfoldable pub map_new : (ℕ → ops.Ptr) → ℕ → Option (Map ops V)
    map_new junk max_num_items =
        if available sizeof_map && available (65536 * 8)
        then elim (membuffer_new available) [
          | none ↦ none
          | some mb ↦ elim (list_new available junk) [
            | none ↦ none
            | some keys ↦ some (record {
              leaves = λ a. none;
              num_items = 0;
              max_num_items = max_num_items;
              key_buffer = mb;
              keys = keys;
            })
          ]
        ]
        else none

  unfoldable pub map_cursor_new : (ℕ → Bool) → Map ops V → Option (MapCursor ops.Ptr)
  map_cursor_new available map =
      if available sizeof_cursor
      then some (record { keys = map.keys.list; length = map.keys.i; i = 0 })
      else none

  -- `ddb_map_next_int` and `ddb_map_next_str`
  unfoldable pub map_next : Map ops V → MapCursor ops.Ptr → Option (ops.Key × MapCursor ops.Ptr)
  map_next map c =
      if c.i == c.length
      then none
      else some (ops.read map.key_buffer (c.keys c.i), record c { i = c.i + 1 })

  -- `ddb_map_next_item_int` and `ddb_map_next_item_str`: the key, the place of its value, and the
  -- map and the cursor after the call.
  unfoldable pub map_next_item :
      (ℕ → Bool)
      → Map ops V
      → MapCursor ops.Ptr
      → Option (ops.Key × Option Place × Map ops V × MapCursor ops.Ptr)
  map_next_item available map c = elim (map_next map c) [
    | none ↦ none
    | some (key, c') ↦ let (p, map') = map_lookup available map key in some (key, p, map', c')
  ]
