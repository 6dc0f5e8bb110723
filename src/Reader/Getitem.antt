-- ===== src/Reader/Getitem.antt =====
-- `ddb_getitem` of src/ddb.c finds the ids of a key, by the perfect hash or by a linear scan.
use discodb.Common.{
  ℕ, zero, suc, ◌^◌, ◌≤◌, ◌<◌, ◌≡◌, ◌≢◌, refl, sym, ap, ◌∙◌, arith, Bool, true, false, ==_iff,
  Option, some, List, ltb, ltb→lt, ltb-false, ◌==◌, drop, take, ◌+◌, ◌-◌, length, Bool-cases, ◌⊎◌,
  ◌↔◌, inl, inr,
}
use discodb.Bits.{u32, load}
use discodb.Delta.{DeltaCursor, delta_cursor, read_ids}
use discodb.Map.Laws.{text_eq_iff}
use discodb.Reader.{
  Ddb, Entry, Cursor, item_bytes, value, empty, item_key, item_delta, is_hashed, is_notfound,
  out_of_memory, key_matches, found_values, new_cursor, new_delta, scan_items, lookup, getitem,
}
use native.Mathlib.Nat.{mod-eq_of_lt}

-- The bytes of the item `i` are the length of the key, below 2 ^ 32 - 4, the key, and the ids, packed
-- so that a cursor over the bytes past the key reads them back.
pub record IsItem (db : Ddb) (i : ℕ) (key : Entry) (ids : List ℕ) : Type 0 where
  pub length_bytes : load 4 0 (item_bytes db i) ≡ length key
  pub short : length key < 2 ^ 32 - 4
  pub key_bytes : take (length key) (drop 4 (item_bytes db i)) ≡ key
  pub left :
      (c : DeltaCursor)
      → (delta_cursor c (drop (4 + length key) (item_bytes db i))).num_left ≡ length ids
  pub reads :
      (c : DeltaCursor)
      → read_ids (length ids) (delta_cursor c (drop (4 + length key) (item_bytes db i))) ≡ ids
  pub few : length ids < 2 ^ 32

module _ {db : Ddb} {i : ℕ} {key : Entry} {ids : List ℕ} (it : IsItem db i key ids) where
  item_key_lem : item_key db i ≡ key
  unfolding item_key
  item_key_lem = ap (λ (n : ℕ). take n (drop 4 (item_bytes db i))) it.length_bytes ∙ it.key_bytes

  pub item_delta_lem :
      (c : DeltaCursor)
      → item_delta db i c ≡ delta_cursor c (drop (4 + length key) (item_bytes db i))
  unfolding item_delta
  item_delta_lem c =
      let past : u32 (4 + load 4 0 (item_bytes db i)) ≡ 4 + length key =
        omega (arith, it.length_bytes, it.short) in
      ap (λ (n : ℕ). delta_cursor c (drop n (item_bytes db i))) past

  pub num_left-item_delta : (c : DeltaCursor) → (item_delta db i c).num_left ≡ length ids
  num_left-item_delta c = ap (λ (d : DeltaCursor). d.num_left) (item_delta_lem c) ∙ it.left c

  pub read_ids-item_delta : (c : DeltaCursor) → read_ids (length ids) (item_delta db i c) ≡ ids
  read_ids-item_delta c = ap (read_ids (length ids)) (item_delta_lem c) ∙ it.reads c

-- The database holds the keys `key_of i` once each, with their ids.
pub record Stores (db : Ddb) (key_of : ℕ → Entry) (ids_of : ℕ → List ℕ) : Type 0 where
  pub items : (i : ℕ) → i < db.num_keys → IsItem db i (key_of i) (ids_of i)
  pub distinct : (i j : ℕ) → i < db.num_keys → j < db.num_keys → key_of i ≡ key_of j → i ≡ j

-- The cursor stands before `ids`.
pub record Holds (ids : List ℕ) (c : Cursor) : Type 0 where
  pub delta : DeltaCursor
  pub kind : c.cursor ≡ value delta
  pub left : delta.num_left ≡ length ids
  pub reads : read_ids (length ids) delta ≡ ids
  pub counted : c.num_items ≡ length ids

module _ (db : Ddb) (key_of : ℕ → Entry) (ids_of : ℕ → List ℕ) (key : Entry) where
  -- The cursor is over the ids of the key; or the key is not there, and the cursor is over nothing.
  abbrev pub Answers : Cursor → Type 0
  Answers c =
      ((i : ℕ) × (i < db.num_keys) × (key_of i ≡ key) × Holds (ids_of i) c)
      ⊎ (((i : ℕ) → i < db.num_keys → key_of i ≢ key) × (is_notfound c ≡ true) × (c.num_items ≡ 0))

  abbrev pub GetitemOutcome : Bool → Option Cursor × Ddb → Type 0
  GetitemOutcome memory r =
      ((memory ≡ false) × (r ≡ out_of_memory db)) ⊎ ((c : Cursor) × (r ≡ (some c, db)) × Answers c)

  module _ (stored : Stores db key_of ids_of) where
    found_values-Holds :
        (i : ℕ) (c : Cursor) (delta : DeltaCursor)
        → i < db.num_keys
        → Holds (ids_of i) (found_values c (item_delta db i delta))
    found_values-Holds i c delta h =
        let it = stored.items i h in
        record {
          delta = item_delta db i delta;
          kind = refl;
          left = num_left-item_delta it delta;
          reads = read_ids-item_delta it delta;
          counted = ap u32 (num_left-item_delta it delta) ∙ mod-eq_of_lt it.few;
        }

    matches_iff :
        (i : ℕ) → i < db.num_keys → (key_matches (item_key db i) key ≡ true) ↔ (key_of i ≡ key)
    matches_iff i h =
        let it = stored.items i h in
        let same = text_eq_iff (item_key db i) key in
        (λ e. sym (item_key_lem it) ∙ same.0 e, λ e. same.1 (item_key_lem it ∙ e))

    scan_items-Answers :
        (n : ℕ) (c : Cursor) (delta : DeltaCursor)
        → n ≤ db.num_keys
        → ((i : ℕ) → n ≤ i → i < db.num_keys → key_of i ≢ key)
        → Answers (scan_items db n c delta key)
    unfolding scan_items
    scan_items-Answers zero c delta h above = inr ((λ i lt. above i (omega arith) lt), refl, refl)
    scan_items-Answers (suc n) c delta h above =
        elim (Bool-cases (key_matches (item_key db n) key)) [
          | inl same ↦ rw same (
              inl (
                n,
                omega arith,
                (matches_iff n (omega arith)).0 same,
                found_values-Holds n (record c { entry = item_key db n }) delta (omega arith),
              ))
          | inr other ↦ rw other (
              scan_items-Answers n _ _ (omega arith) (λ i le lt e. elim (Bool-cases (i == n)) [
                | inl at_n ↦
                    let here : key_of n ≡ key = ap key_of (sym ((==_iff i n).0 at_n)) ∙ e in
                    let same = (matches_iff n (omega arith)).1 here in absurd (cc)
                | inr past ↦ above i (ground arith) lt e
              ]))
        ]

    lookup-Answers :
        (id : ℕ)
        → ((i : ℕ) → i < db.num_keys → key_of i ≡ key → id ≡ i)
        → Answers (lookup db id key)
    unfolding lookup
    lookup-Answers id perfect = elim (Bool-cases (ltb id db.num_keys)) [
      | inr out ↦
          rw out (inr (λ i lt e. omega (arith, perfect i lt e, ltb-false _ _ out), refl, refl))
      | inl lt ↦ elim (Bool-cases (key_matches (item_key db id) key)) [
        | inl same ↦
            rw (lt, same)
              (inl (
                id,
                ltb→lt _ _ lt,
                (matches_iff id (ltb→lt _ _ lt)).0 same,
                found_values-Holds id (record (new_cursor empty 0) { entry = item_key db id })
                    new_delta (ltb→lt _ _ lt),
              ))
        | inr other ↦
            rw (lt, other)
              (inr (
                λ i le e.
                    let here : key_of id ≡ key = ap key_of (perfect i le e) ∙ e in
                    let same = (matches_iff id (ltb→lt _ _ lt)).1 here in absurd (cc),
                refl,
                refl,
              ))
      ]
    ]

    module _ (search : List ℕ → Entry → ℕ) where
      -- The index that the perfect hash gives, as the documentation of cmph has it: that of a key that
      -- is there, and any number for another.
      abbrev pub IsPerfect : Type 0
      IsPerfect = (i : ℕ) → i < db.num_keys → search (drop db.hash db.buf) (key_of i) ≡ i

      -- A database that stores distinct keys, of fewer than 2 ^ 32 - 4 bytes, each with fewer than 2 ^ 32 ids, and that has no hash, or
      -- one that is perfect on these keys, gives for a key a cursor before the ids of that key, and one
      -- over nothing if the key is not there; NULL is returned for want of memory only.
      pub getitem-Answers :
          (memory : Bool)
          → (is_hashed db ≡ true → IsPerfect)
          → GetitemOutcome memory (getitem memory db search key)
      unfolding getitem
      getitem-Answers false perfect = inl (refl, refl)
      getitem-Answers true perfect = elim (Bool-cases (is_hashed db)) [
        | inl hashed ↦ inr (
          lookup db (search (drop db.hash db.buf) key) key,
          rw hashed refl,
          lookup-Answers _
              (λ i lt e. ap (search (drop db.hash db.buf)) (sym e) ∙ perfect hashed i lt),
        )
        | inr plain ↦ inr (
          scan_items db db.num_keys (new_cursor empty 0) new_delta key,
          rw plain refl,
          scan_items-Answers db.num_keys _ _ (omega arith) (λ i le lt. absurd (omega arith)),
        )
      ]
