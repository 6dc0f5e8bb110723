-- ===== src/Reader/Walk.antt =====
-- What a cursor of src/ddb.c goes through, and what `ddb_cursor_count` makes of it.
use discodb.Common.{
  ℕ, zero, suc, ◌+◌, ◌-◌, ◌^◌, ◌<◌, ◌≡◌, refl, ap, ap₂, ◌∙◌, arith, Bool, true, false, some, List,
  [], ◌∷◌, map, ltb, ◌==◌, if◌then◌else◌, take, drop, All, fun_ext, length, Bool-cases, inl, inr,
  lt→ltb,
}
use discodb.Bits.{u32, u64}
use discodb.Delta.{sub32, DeltaCursor, cursor_next, read_ids}
use discodb.Reader.{
  Ddb, Entry, Cursor, value, item, stop, is_compressed, id2value_at, get_valuestr, valuestr_next,
  value_cursor_next, ddb_next, count_loop, cursor_count,
}
use discodb.Reader.Getitem.{Holds}
use mathlib.Core.Path.{subst}
use native.Mathlib.Nat.{mod-eq_of_lt}

length-map : (f : ℕ → Entry) (ids : List ℕ) → length (map f ids) ≡ length ids
length-map f [] = refl
length-map f (id ∷ ids) = ap suc (length-map f ids)

-- The string of an id lies between the offsets of the id before and of the id itself.
pub record HasString (db : Ddb) (id : ℕ) (s : Entry) : Type 0 where
  pub ends : id2value_at db (id - 1) + length s ≡ id2value_at db id
  pub inside : id2value_at db id < 2 ^ 64
  pub short : length s < 2 ^ 32
  pub bytes : take (length s) (drop (id2value_at db (id - 1)) db.buf) ≡ s

module _ (available : ℕ → Bool) (db : Ddb) where
  -- The calls of `ddb_next` on `c` return the entries and then NULL, without an error.
  abbrev pub Walks : List Entry → Cursor → Type 0
  Walks [] c = (c' : Cursor) × (ddb_next available db c ≡ stop c') × (c'.errno ≡ 0)
  Walks (e ∷ es) c =
      (c' : Cursor) × (ddb_next available db c ≡ item e c') × (c'.errno ≡ 0) × Walks es c'

  -- The string with the id, which a database without compression has as it is.
  abbrev pub value_string : ℕ → Entry
  value_string id =
      take (u32 (u64 (id2value_at db id + 2 ^ 64 - id2value_at db (id - 1))))
        (drop (id2value_at db (id - 1)) db.buf)

  -- The same, as the code computes the index of the offset: at id 0 it wraps around.
  abbrev pub string_at : ℕ → Entry
  string_at id =
      take (u32 (u64 (id2value_at db id + 2 ^ 64 - id2value_at db (sub32 id 1))))
        (drop (id2value_at db (sub32 id 1)) db.buf)

  pub string_at-value_string : (id : ℕ) → 0 < id → id < 2 ^ 32 → string_at id ≡ value_string id
  string_at-value_string id pos small =
      let before : sub32 id 1 ≡ id - 1 = omega arith in
      ap
        (λ (k : ℕ).
          take (u32 (u64 (id2value_at db id + 2 ^ 64 - id2value_at db k)))
            (drop (id2value_at db k) db.buf))
        before

  value_string-HasString : (id : ℕ) (s : Entry) → HasString db id s → value_string id ≡ s
  value_string-HasString id s h =
      let start = id2value_at db (id - 1) in
      let n : u32 (u64 (id2value_at db id + 2 ^ 64 - start)) ≡ length s =
        omega (arith, h.ends, h.inside, h.short) in
      ap (λ (k : ℕ). take k (drop start db.buf)) n ∙ h.bytes

  -- The ids are those of strings, which `string_of` gives.
  abbrev pub Named : (ℕ → Entry) → ℕ → Type 0
  Named string_of id = (0 < id) × (id < 2 ^ 32) × HasString db id (string_of id)

  map-Named :
      (string_of : ℕ → Entry) (ids : List ℕ)
      → All (Named string_of) ids
      → map string_at ids ≡ map string_of ids
  map-Named string_of [] h = refl
  map-Named string_of (id ∷ ids) h =
      ap₂ ◌∷◌
        (string_at-value_string id h.0.0 h.0.1 ∙ value_string-HasString id (string_of id) h.0.2)
        (map-Named string_of ids h.1)

  Named-small :
      (string_of : ℕ → Entry) (ids : List ℕ)
      → All (Named string_of) ids
      → All (λ (id : ℕ). id < 2 ^ 32) ids
  Named-small string_of [] h = tt
  Named-small string_of (id ∷ ids) h = (h.0.1, Named-small string_of ids h.1)

  count_loop-Walks :
      (es : List Entry) (fuel n : ℕ) (c : Cursor)
      → Walks es c
      → length es < fuel
      → n + length es < 2 ^ 64
      → count_loop available db fuel n c ≡ some (n + length es, 0)
  unfolding count_loop
  count_loop-Walks es zero n c w h room = absurd (omega arith)
  count_loop-Walks [] (suc fuel) n c w h room =
      let (c', e, ok) = w in
      let at_end : n ≡ n + 0 = omega arith in
      rw (e, ok, count_loop) (ap (λ (t : ℕ). some (t, 0)) at_end)
  count_loop-Walks (e ∷ es) (suc fuel) n c w h room =
      let (c', step, ok, w') = w in
      let more : u64 (n + 1) ≡ n + 1 = mod-eq_of_lt (omega arith) in
      let sum : n + 1 + length es ≡ n + suc (length es) = omega arith in
      let go_on : (c'.errno == 0) ≡ true = ground arith in
      rw (step, go_on, more, count_loop)
        (count_loop-Walks es fuel (n + 1) c' w' (omega arith) (omega arith)
          ∙ ap (λ (t : ℕ). some (t, 0)) sum)

  ddb_next-value :
      (c : Cursor) (delta : DeltaCursor)
      → c.cursor ≡ value delta
      → ddb_next available db c ≡ value_cursor_next available db c delta
  unfolding ddb_next
  ddb_next-value c delta kind = rw kind refl

  value-stop :
      (c : Cursor) (delta : DeltaCursor)
      → delta.num_left ≡ 0
      → value_cursor_next available db c delta ≡ stop c
  unfolding value_cursor_next
  value-stop c delta left = rw left refl

  -- The cursor after a step, whose entry is `e`.
  abbrev stepped : Cursor → DeltaCursor → Entry → Cursor
  stepped c delta e = record c { cursor = value (cursor_next delta); entry = e }

  -- The entry of a step: it stays while only the number of entries is asked for.
  abbrev pub entry_for : Cursor → ℕ → Entry
  entry_for c id = if c.no_valuestr then c.entry else string_at id

  pub valuestr_next-item :
      (c : Cursor) (id : ℕ)
      → c.errno ≡ 0
      → is_compressed db ≡ false
      → valuestr_next available db c id
        ≡ item (entry_for c id) (record c { entry = entry_for c id })
  unfolding valuestr_next get_valuestr
  valuestr_next-item c id ok plain = elim (Bool-cases c.no_valuestr) [
    | inl e ↦ rw (e, ok, valuestr_next, get_valuestr) refl
    | inr e ↦ rw (e, plain, ok, valuestr_next, get_valuestr) refl
  ]

  value-item :
      (c : Cursor) (delta : DeltaCursor) (id : ℕ)
      → 0 < delta.num_left
      → (cursor_next delta).cur_id ≡ id
      → id < 2 ^ 32
      → c.errno ≡ 0
      → is_compressed db ≡ false
      → value_cursor_next available db c delta
        ≡ item (entry_for c id) (stepped c delta (entry_for c id))
  unfolding value_cursor_next
  value-item c delta id left at_id small ok plain =
      let more : ltb 0 delta.num_left ≡ true = lt→ltb 0 _ left in
      let narrow : u32 (cursor_next delta).cur_id ≡ id = ap u32 at_id ∙ mod-eq_of_lt small in
      let c' = record c { cursor = value (cursor_next delta) } in
      rw (more, narrow, value_cursor_next) (valuestr_next-item c' id ok plain)

  left-cursor_next :
      (delta : DeltaCursor) (n : ℕ) → delta.num_left ≡ suc n → (cursor_next delta).num_left ≡ n
  unfolding cursor_next
  left-cursor_next delta n h = ground arith

  map_entries :
      (c : Cursor) (delta : DeltaCursor) (id : ℕ) (ids : List ℕ)
      → map (entry_for (stepped c delta (entry_for c id))) ids ≡ map (entry_for c) ids
  map_entries c delta id ids = ap (λ (f : ℕ → Entry). map f ids) (fun_ext same)
    where
      same : (i : ℕ) → entry_for (stepped c delta (entry_for c id)) i ≡ entry_for c i
      same i = elim (Bool-cases c.no_valuestr) [ inl e ↦ rw e refl | inr e ↦ rw e refl ]

  value-Walks :
      (ids : List ℕ) (delta : DeltaCursor) (c : Cursor)
      → c.cursor ≡ value delta
      → delta.num_left ≡ length ids
      → read_ids (length ids) delta ≡ ids
      → All (λ (id : ℕ). id < 2 ^ 32) ids
      → c.errno ≡ 0
      → is_compressed db ≡ false
      → Walks (map (entry_for c) ids) c
  unfolding read_ids
  value-Walks [] delta c kind left reads small ok plain =
      (c, ddb_next-value c delta kind ∙ value-stop c delta left, ok)
  value-Walks (id ∷ ids) delta c kind left reads small ok plain =
      let both : (cursor_next delta).cur_id ∷ read_ids (length ids) (cursor_next delta) ≡ id ∷ ids =
        reads in
      let first : (cursor_next delta).cur_id ≡ id = cc in
      let others : read_ids (length ids) (cursor_next delta) ≡ ids = cc in
      let c' = stepped c delta (entry_for c id) in
      (
        c',
        ddb_next-value c delta kind ∙ value-item c delta id (omega arith) first small.0 ok plain,
        ok,
        subst (λ (l : List Entry). Walks l c') (map_entries c delta id ids)
            (value-Walks ids (cursor_next delta) c' refl (left-cursor_next delta (length ids) left)
              others small.1 ok plain),
      )

  -- On a cursor that stands before uint32_t ids above 0, without an error so far, of a database without
  -- compression that has strings for them, the calls of `ddb_next` return the strings of the ids in
  -- their order, and then NULL without an error.
  pub Holds-Walks :
      (string_of : ℕ → Entry) (ids : List ℕ) (c : Cursor)
      → Holds ids c
      → All (Named string_of) ids
      → c.errno ≡ 0
      → c.no_valuestr ≡ false
      → is_compressed db ≡ false
      → Walks (map string_of ids) c
  Holds-Walks string_of ids c h named ok strings plain =
      let same : (i : ℕ) → entry_for c i ≡ string_at i = λ i. rw strings refl in
      let entries : map (entry_for c) ids ≡ map string_of ids =
        ap (λ (f : ℕ → Entry). map f ids) (fun_ext same) ∙ map-Named string_of ids named in
      subst (λ (es : List Entry). Walks es c) entries
        (value-Walks ids h.delta c h.kind h.left h.reads (Named-small string_of ids named) ok plain)

  -- On a cursor that stands before fewer than 2 ^ 32 uint32_t ids, without an error so far, of a
  -- database without compression, `ddb_cursor_count` ends after a call of `ddb_next` for each id and one
  -- more, without an error, with the number that `ddb_resultset_size` returns.
  pub cursor_count-num_items :
      (ids : List ℕ) (c : Cursor) (fuel : ℕ)
      → Holds ids c
      → All (λ (id : ℕ). id < 2 ^ 32) ids
      → c.errno ≡ 0
      → is_compressed db ≡ false
      → length ids < fuel
      → length ids < 2 ^ 32
      → cursor_count available db fuel c ≡ some (c.num_items, 0)
  unfolding cursor_count
  cursor_count-num_items ids c fuel h small ok plain enough few =
      let c' = record c { no_valuestr = true } in
      let es = map (entry_for c') ids in
      let n : length es ≡ length ids = length-map (entry_for c') ids in
      let total : 0 + length es ≡ c.num_items = omega (arith, n, h.counted) in
      count_loop-Walks es fuel 0 c'
        (value-Walks ids h.delta c' h.kind h.left h.reads small ok plain) (omega (arith, n))
        (omega (arith, n))
      ∙ ap (λ (t : ℕ). some (t, 0)) total
