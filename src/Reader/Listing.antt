-- ===== src/Reader/Listing.antt =====
-- The cursors of src/ddb.c over all keys and over all values.
use discodb.Common.{
  ℕ, zero, suc, ◌+◌, ◌^◌, ◌≤◌, ◌<◌, ◌≡◌, refl, ap, ◌∙◌, arith, Bool, true, false, some, List, [],
  ◌∷◌, map, ltb, ◌==◌,
}
use discodb.Bits.{u32}
use discodb.Reader.{
  Ddb, Entry, Cursor, keys, unique_values, item, stop, item_key, is_compressed, valuestr_next,
  key_cursor_next, unique_values_cursor_next, ddb_next, open_keys, open_unique_values, new_cursor,
}
use discodb.Reader.Walk.{
  string_at, string_at-value_string, Walks, value_string, entry_for, valuestr_next-item,
}
use native.Mathlib.Nat.{mod-eq_of_lt}

-- i, i + 1, .., i + n - 1
abbrev pub range : ℕ → ℕ → List ℕ
range i zero = []
range i (suc n) = i ∷ range (i + 1) n

module _ (available : ℕ → Bool) (db : Ddb) where
  keys-item :
      (c : Cursor) (i : ℕ)
      → c.cursor ≡ keys i
      → i < db.num_keys
      → i + 1 < 2 ^ 32
      → ddb_next available db c
        ≡ item (item_key db i) (record c { entry = item_key db i; cursor = keys (i + 1) })
  unfolding ddb_next key_cursor_next
  keys-item c i kind lt small =
      let more : (i == db.num_keys) ≡ false = ground arith in
      let up : u32 (i + 1) ≡ i + 1 = mod-eq_of_lt small in
      rw (kind, ddb_next, more, up, key_cursor_next) refl

  ddb_next-keys :
      (c : Cursor) (i : ℕ)
      → c.cursor ≡ keys i
      → ddb_next available db c ≡ key_cursor_next available db c i
  unfolding ddb_next
  ddb_next-keys c i kind = rw kind refl

  keys-stop :
      (c : Cursor) (i : ℕ) → c.cursor ≡ keys i → i ≡ db.num_keys → ddb_next available db c ≡ stop c
  unfolding key_cursor_next
  keys-stop c i kind e =
      let at_end : (i == db.num_keys) ≡ true = ground arith in
      let end_ : key_cursor_next available db c i ≡ stop c = rw (at_end, key_cursor_next) refl in
      ddb_next-keys c i kind ∙ end_

  keys-Walks :
      (n i : ℕ) (c : Cursor)
      → c.cursor ≡ keys i
      → i + n ≡ db.num_keys
      → db.num_keys < 2 ^ 32
      → c.errno ≡ 0
      → Walks available db (map (item_key db) (range i n)) c
  keys-Walks zero i c kind e small ok = (c, keys-stop c i kind (omega arith), ok)
  keys-Walks (suc n) i c kind e small ok =
      let c' = record c { entry = item_key db i; cursor = keys (i + 1) } in
      (
        c',
        keys-item c i kind (omega arith) (omega arith),
        ok,
        keys-Walks n (i + 1) c' refl (omega arith) small ok,
      )

  -- For fewer than 2 ^ 32 keys, and with memory for it, the cursor of `ddb_keys` goes through the keys
  -- of all items in their order, and `ddb_resultset_size` is their number.
  pub open_keys-Walks :
      db.num_keys < 2 ^ 32
      → (c : Cursor) × (open_keys true db ≡ (some c, db))
        × Walks available db (map (item_key db) (range 0 db.num_keys)) c
        × (c.num_items ≡ db.num_keys)
  unfolding open_keys
  open_keys-Walks small = (
    new_cursor (keys 0) db.num_keys,
    refl,
    keys-Walks db.num_keys 0 _ refl (omega arith) small refl,
    refl,
  )

  ddb_next-unique_values :
      (c : Cursor) (i : ℕ)
      → c.cursor ≡ unique_values i
      → ddb_next available db c ≡ unique_values_cursor_next available db c i
  unfolding ddb_next
  ddb_next-unique_values c i kind = rw kind refl

  entry_string :
      (c : Cursor) (i : ℕ)
      → c.no_valuestr ≡ false
      → entry_for available db c i ≡ string_at available db i
  entry_string c i strings = rw strings refl

  values-item :
      (c : Cursor) (i : ℕ)
      → c.cursor ≡ unique_values i
      → 0 < i
      → i ≤ db.num_uniq_values
      → i + 1 < 2 ^ 32
      → c.errno ≡ 0
      → c.no_valuestr ≡ false
      → is_compressed db ≡ false
      → ddb_next available db c
        ≡ item
            (value_string available db i)
            (record c { entry = value_string available db i; cursor = unique_values (i + 1) })
  unfolding unique_values_cursor_next
  values-item c i kind pos le small ok strings plain =
      let c' = record c { cursor = unique_values (i + 1) } in
      let more : ltb db.num_uniq_values i ≡ false = ground arith in
      let up : u32 (i + 1) ≡ i + 1 = mod-eq_of_lt small in
      let string : entry_for available db c' i ≡ value_string available db i =
        entry_string c' i strings ∙ string_at-value_string available db i pos (omega arith) in
      let step : unique_values_cursor_next available db c i ≡ valuestr_next available db c' i =
        rw (more, up, unique_values_cursor_next) refl in
      ddb_next-unique_values c i kind
      ∙ step
      ∙ valuestr_next-item available db c' i ok plain
      ∙ ap (λ (e : Entry). item e (record c' { entry = e })) string

  values-stop :
      (c : Cursor) (i : ℕ)
      → c.cursor ≡ unique_values i
      → db.num_uniq_values < i
      → ddb_next available db c ≡ stop c
  unfolding unique_values_cursor_next
  values-stop c i kind past =
      let at_end : ltb db.num_uniq_values i ≡ true = ground arith in
      let end_ : unique_values_cursor_next available db c i ≡ stop c =
        rw (at_end, unique_values_cursor_next) refl in
      ddb_next-unique_values c i kind ∙ end_

  values-Walks :
      (n i : ℕ) (c : Cursor)
      → c.cursor ≡ unique_values i
      → 0 < i
      → i + n ≡ db.num_uniq_values + 1
      → db.num_uniq_values + 1 < 2 ^ 32
      → c.errno ≡ 0
      → c.no_valuestr ≡ false
      → is_compressed db ≡ false
      → Walks available db (map (value_string available db) (range i n)) c
  values-Walks zero i c kind pos e small ok strings plain =
      (c, values-stop c i kind (omega arith), ok)
  values-Walks (suc n) i c kind pos e small ok strings plain =
      let entry = value_string available db i in
      let c' = record c { entry = entry; cursor = unique_values (i + 1) } in
      (
        c',
        values-item c i kind pos (omega arith) (omega arith) ok strings plain,
        ok,
        values-Walks n (i + 1) c' refl (omega arith) (omega arith) small ok strings plain,
      )

  -- With memory for it, the cursor of `ddb_unique_values`, for a database without compression that has
  -- fewer than 2 ^ 32 - 1 values, goes through the strings of the ids 1, 2, .. up to their number.
  pub open_unique_values-Walks :
      db.num_uniq_values + 1 < 2 ^ 32
      → is_compressed db ≡ false
      → (c : Cursor) × (open_unique_values true db ≡ (some c, db))
        × Walks available db (map (value_string available db) (range 1 db.num_uniq_values)) c
        × (c.num_items ≡ db.num_uniq_values)
  unfolding open_unique_values
  open_unique_values-Walks small plain = (
    new_cursor (unique_values 1) db.num_uniq_values,
    refl,
    values-Walks db.num_uniq_values 1 _ refl (omega arith) (omega arith) small refl refl plain,
    refl,
  )
