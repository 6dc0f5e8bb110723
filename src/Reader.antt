-- ===== src/Reader.antt =====
-- src/ddb.c: reading a database, which is one buffer with the layout of struct ddb_header.
-- A pointer into the buffer is an offset; `db->hash` and what follows it are handed to the perfect
-- hash, which is a parameter. Past the end of the buffer a load sees zeros. `memory` says whether
-- the request for a cursor is met.
pub mod Loads
pub mod Dump
pub mod Getitem
pub mod Walk
pub mod Listing
mod Tests
use discodb.Common.{
  ℕ, zero, suc, ◌+◌, ◌-◌, ◌*◌, ◌/◌, ◌%◌, ◌^◌, Bool, true, false, not, ◌&&◌, Option, none, some,
  List, [], ◌∷◌, ◌++◌, ltb, leb, ◌==◌, if◌then◌else◌, take, drop, length,
}
use discodb.Bits.{u32, u64, load}
use discodb.Delta.{sub32, DeltaCursor, delta_cursor, cursor_next}
use discodb.Huffman.Codec.{Codeword, decompress}
use discodb.Map.Keys.{bytes_eq}

abbrev pub err_out_of_memory : ℕ
err_out_of_memory = 1

-- struct ddb
pub record Ddb : Type 0 where
  pub size : ℕ
  pub errno : ℕ
  pub num_keys : ℕ
  pub num_uniq_values : ℕ
  pub flags : ℕ
  pub num_values : ℕ
  pub key2values : ℕ
  pub id2value : ℕ
  pub hash : ℕ
  pub codebook : ℕ
  pub buf : List ℕ

-- HASFLAG for F_HASH, F_MULTISET and F_COMPRESSED
abbrev pub is_hashed : Ddb → Bool
is_hashed db = db.flags % 2 == 1

abbrev pub is_multiset : Ddb → Bool
is_multiset db = db.flags / 2 % 2 == 1

abbrev pub is_compressed : Ddb → Bool
is_compressed db = db.flags / 4 % 2 == 1

-- struct ddb_entry, apart from its address
abbrev pub Entry : Type 0
Entry = List ℕ

-- The function that `next` points to, with its part of the union. A query's is in Cnf.
pub data Kind : Type 0 where
  keys : ℕ → Kind
  unique_values : ℕ → Kind
  values : ℕ → DeltaCursor → Kind
  value : DeltaCursor → Kind
  empty : Kind

-- struct ddb_cursor, apart from the database and the decode buffer's contents
pub record Cursor : Type 0 where
  pub decode_buf_len : ℕ
  pub entry : Entry
  pub cursor : Kind
  pub num_items : ℕ
  pub errno : ℕ
  pub no_valuestr : Bool

-- What `ddb_next` returns, with the cursor: an entry; NULL; or NULL for want of memory, when the
-- decode buffer is gone and C defines no later use of the cursor.
pub data Next : Type 0 where
  item : Entry → Cursor → Next
  stop : Cursor → Next
  broken : Next

-- `acalloc`
abbrev pub new_delta : DeltaCursor
new_delta = record { deltas = []; bits = 0; num_left = 0; offset = 0; cur_id = 0 }

abbrev pub new_cursor : Kind → ℕ → Cursor
new_cursor kind n = record {
  decode_buf_len = 0;
  entry = [];
  cursor = kind;
  num_items = n;
  errno = 0;
  no_valuestr = false;
}

module _ (db : Ddb) where
  -- `db->key2values[id]` and `db->id2value[id]`
  abbrev pub key2values_at : ℕ → ℕ
  key2values_at id = load 8 (db.key2values + 8 * id) db.buf

  abbrev pub id2value_at : ℕ → ℕ
  id2value_at id = load 8 (db.id2value + 8 * id) db.buf

  abbrev pub codebook_at : ℕ → Codeword
  codebook_at v = record {
    symbol = load 4 (db.codebook + 8 * v) db.buf;
    bits = load 4 (db.codebook + 8 * v + 4) db.buf;
  }

  -- The bytes of an item, from its key on.
  abbrev pub item_bytes : ℕ → List ℕ
  item_bytes id = drop (key2values_at id) db.buf

  -- `get_item`: the entry, and the cursor over the values; the index past the key is a uint32_t.
  unfoldable pub item_key : ℕ → Entry
  item_key id = let p = item_bytes id in take (load 4 0 p) (drop 4 p)

  unfoldable pub item_delta : ℕ → DeltaCursor → DeltaCursor
  item_delta id delta = let p = item_bytes id in delta_cursor delta (drop (u32 (4 + load 4 0 p)) p)

module _ (available : ℕ → Bool) (db : Ddb) where
  -- `ddb_get_valuestr`: `none` is a decompression that fails. What it returns is `errno`.
  unfoldable pub get_valuestr : Cursor → ℕ → Option Cursor
  get_valuestr c id =
      let start = id2value_at db (sub32 id 1) in
      let len = u64 (id2value_at db id + 2 ^ 64 - start) in
      let data_ = drop start db.buf in
      if c.no_valuestr
      then some c
      else if is_compressed db
      then elim (decompress available (codebook_at db) data_ (u32 len) c.decode_buf_len) [
        | none ↦ none
        | some u ↦ some (record c { entry = u.out; decode_buf_len = u.buf_len })
      ]
      else some (record c { entry = take (u32 len) data_ })

  -- `if (ddb_get_valuestr(c, id)) return NULL; return &c->entry;`
  unfoldable pub valuestr_next : Cursor → ℕ → Next
  valuestr_next c id = elim (get_valuestr c id) [
    | none ↦ broken
    | some c' ↦ if c'.errno == 0 then item c'.entry c' else stop c'
  ]

  unfoldable pub key_cursor_next : Cursor → ℕ → Next
  key_cursor_next c i =
      if i == db.num_keys
      then stop c
      else item (item_key db i) (record c { entry = item_key db i; cursor = keys (u32 (i + 1)) })

  unfoldable pub unique_values_cursor_next : Cursor → ℕ → Next
  unique_values_cursor_next c i =
      if ltb db.num_uniq_values i
      then stop c
      else valuestr_next (record c { cursor = unique_values (u32 (i + 1)) }) i

  -- `while (!c->cursor.values.cur.num_left)`, with a round for each key left.
  unfoldable pub skip_empty : ℕ → ℕ → DeltaCursor → ℕ × DeltaCursor
  skip_empty zero i cur = (i, cur)
  skip_empty (suc fuel) i cur =
      let rest = skip_empty fuel (u32 (i + 1)) (item_delta db i cur) in
      if cur.num_left == 0 && not (i == db.num_keys) then rest else (i, cur)

  unfoldable pub values_cursor_next : Cursor → ℕ → DeltaCursor → Next
  values_cursor_next c i cur =
      let (i', cur') = skip_empty (db.num_keys - i) i cur in
      if cur'.num_left == 0
      then stop (record c { cursor = values i' cur' })
      else valuestr_next (record c { cursor = values i' (cursor_next cur') })
          (u32 (cursor_next cur').cur_id)

  unfoldable pub value_cursor_next : Cursor → DeltaCursor → Next
  value_cursor_next c delta =
      if ltb 0 delta.num_left
      then valuestr_next (record c { cursor = value (cursor_next delta) })
          (u32 (cursor_next delta).cur_id)
      else stop c

  unfoldable pub ddb_next : Cursor → Next
  ddb_next c = elim c.cursor [
    | keys i ↦ key_cursor_next c i
    | unique_values i ↦ unique_values_cursor_next c i
    | values i cur ↦ values_cursor_next c i cur
    | value delta ↦ value_cursor_next c delta
    | empty ↦ stop c
  ]

  -- `while (ddb_next(c, err) && !*err)`: the count and `*err`; `none` if the fuel runs out.
  unfoldable pub count_loop : ℕ → ℕ → Cursor → Option (ℕ × ℕ)
  count_loop zero n c = none
  count_loop (suc fuel) n c = elim (ddb_next c) [
    | item e c' ↦ if c'.errno == 0 then count_loop fuel (u64 (n + 1)) c' else some (n, c'.errno)
    | stop c' ↦ some (n, c'.errno)
    | broken ↦ some (n, err_out_of_memory)
  ]

  unfoldable pub cursor_count : ℕ → Cursor → Option (ℕ × ℕ)
  cursor_count fuel c = count_loop fuel 0 (record c { no_valuestr = true })

-- The openers return a cursor, or NULL with `errno` in the database.
abbrev pub out_of_memory : Ddb → Option Cursor × Ddb
out_of_memory db = (none, record db { errno = err_out_of_memory })

abbrev pub key_matches : Entry → Entry → Bool
key_matches entry key = length entry == length key && bytes_eq entry key

-- `goto found`, and what stands before it.
abbrev pub found_values : Cursor → DeltaCursor → Cursor
found_values c delta = record c { cursor = value delta; num_items = u32 delta.num_left }

abbrev pub not_found : Cursor → Cursor
not_found c = record c { cursor = empty; num_items = 0 }

module _ (db : Ddb) where
  -- `while (i--)`
  unfoldable pub scan_items : ℕ → Cursor → DeltaCursor → Entry → Cursor
  scan_items zero c delta key = not_found c
  scan_items (suc i) c delta key =
      let c' = record c { entry = item_key db i } in
      let rest = scan_items i c' (item_delta db i delta) key in
      if key_matches (item_key db i) key then found_values c' (item_delta db i delta) else rest

  -- `id` is what the perfect hash says.
  unfoldable pub lookup : ℕ → Entry → Cursor
  lookup id key =
      let c = new_cursor empty 0 in
      let c' = record c { entry = item_key db id } in
      if ltb id db.num_keys
      then if key_matches (item_key db id) key
        then found_values c' (item_delta db id new_delta)
        else not_found c'
      else not_found c

module _ (memory : Bool) (db : Ddb) where
  unfoldable pub open_keys : Option Cursor × Ddb
  open_keys = if memory then (some (new_cursor (keys 0) db.num_keys), db) else out_of_memory db

  unfoldable pub open_unique_values : Option Cursor × Ddb
  open_unique_values =
      if memory
      then (some (new_cursor (unique_values 1) db.num_uniq_values), db)
      else out_of_memory db

  unfoldable pub open_values : Option Cursor × Ddb
  open_values =
      if memory
      then (some (new_cursor (values 0 new_delta) (u32 db.num_values)), db)
      else out_of_memory db

  -- `search` is `cmph_search_packed`.
  unfoldable pub getitem : (List ℕ → Entry → ℕ) → Entry → Option Cursor × Ddb
  getitem search key =
      let c =
        if is_hashed db
        then lookup db (search (drop db.hash db.buf) key) key
        else scan_items db db.num_keys (new_cursor empty 0) new_delta key in
      if memory then (some c, db) else out_of_memory db

-- `ddb_notfound`
abbrev pub is_notfound : Cursor → Bool
is_notfound c = elim c.cursor [ empty ↦ true | _ ↦ false ]
