-- ===== src/Map/Refines.antt =====
-- What `ddb_map_insert_int` and `ddb_map_insert_str` do, on every branch.
use discodb.Common.{
  ℕ, ◌+◌, ◌-◌, ◌^◌, ◌*◌, ◌<◌, ◌≡◌, refl, sym, ap, ◌∙◌, arith, Bool, true, false, not, ◌&&◌, none,
  some, ltb, Bool-cases, inl, inr, Option-cases, tests, ◌++◌, ◌∷◌, [], List,
}
use discodb.KeyList.Contents.{list_append-Extends, list_append-ahead}
use discodb.Map.Keys.{KeyOps, KeyLaws}
use discodb.Map.{
  Map, Place, at, undefined, idx1, open_leaves, lookup_leaf, new_item, map_insert, sizeof_item,
}
use discodb.Map.Search.{place_of}
use discodb.Map.Grow.{IsMap}
use discodb.Map.Insert.{
  Same, Same-trans, Same-IsMap, Same-place_of, Same-value_of, Same-keys_of, open_leaves-Same,
}
use discodb.Map.Add.{
  Inserts, InsertOutcome, grown, size, item-full, item-no_leaf, item-no_key, item-no_list,
  item-runs, new-Inserts,
}

module _ {ops : KeyOps} (laws : KeyLaws ops) {V : Type 0} (available : ℕ → Bool) (null : V) where
  refused : (a b : Bool) → (a && not b) ≡ true → b ≡ false
  refused true false e = refl
  refused true true e = absurd (cc)
  refused false b e = absurd (cc)

  new_item-Outcome :
      (m : Map ops V) (k : ops.Key)
      → IsMap laws m
      → laws.IsKey k
      → place_of m k ≡ none
      → m.num_items < 2 ^ 29 - 256
      → InsertOutcome laws available null m k (new_item available null m k)
  new_item-Outcome m k is key missing small = elim (Bool-cases (ltb m.num_items m.max_num_items)) [
    | inr no_room ↦ inr (
        inl (
          m,
          item-full laws available null m k no_room,
          record { leaves = λ a b. refl; rest = refl },
          omega (tests, no_room, is.limit),
          missing,
        ))
    | inl room ↦
        elim (Bool-cases (
          grown laws available null m k
          && not (available (size laws available null m k * sizeof_item)))) [
            | inl no_leaf ↦ inl (
              size laws available null m k * sizeof_item,
              refused _ _ no_leaf,
              inl (item-no_leaf laws available null m k room no_leaf),
            )
            | inr leaf ↦ elim (laws.save_lem available m.key_buffer k is.buffer key) [
              | inl (n, gone, e) ↦
                  inl (n, gone, inr (item-no_key laws available null m k room leaf e))
              | inr (ptr, mb, e, valid, stands, kept) ↦
                  let list_room : m.keys.size < 2 ^ 29 - 128 = omega (arith, is.ahead, is.count) in
                  elim (list_append-Extends available m.keys ptr is.list list_room) [
                    | inl (n, gone, f) ↦
                        inl
                          (n, gone, inl (item-no_list laws available null m k room leaf ptr mb e f))
                    | inr (keys, f, extends) ↦ inr (
                        inr (
                          _,
                          _,
                          item-runs laws available null m k room leaf ptr mb keys e f,
                          new-Inserts laws null m k ptr mb (size laws available null m k) keys is
                              key missing (omega (tests, room)) valid stands kept extends
                              (list_append-ahead available m.keys keys ptr f (omega arith)
                                is.ahead),
                        ))
                  ]
            ]
          ]
  ]

  insert-undefined :
      (m : Map ops V) (k : ops.Key)
      → open_leaves available m (idx1 (ops.hash k)) ≡ none
      → map_insert available null m k ≡ undefined
  unfolding map_insert lookup_leaf
  insert-undefined m k e = ground arith

  insert-found :
      (m m' : Map ops V) (k : ops.Key) (p : Place)
      → open_leaves available m (idx1 (ops.hash k)) ≡ some m'
      → place_of m' k ≡ some p
      → map_insert available null m k ≡ at p m'
  unfolding map_insert lookup_leaf
  insert-found m m' k p e f = ground arith

  insert-missing :
      (m m' : Map ops V) (k : ops.Key)
      → open_leaves available m (idx1 (ops.hash k)) ≡ some m'
      → place_of m' k ≡ none
      → map_insert available null m k ≡ new_item available null m' k
  unfolding map_insert lookup_leaf
  insert-missing m m' k e f = ground arith

  Inserts-Same :
      (m m' m'' : Map ops V) (k : ops.Key) (p : Place)
      → Same m m'
      → Inserts laws null m' k p m''
      → Inserts laws null m k p m''
  Inserts-Same m m' m'' k p s h = record {
    valid = h.valid;
    place = h.place;
    others = λ j ne. h.others j ne ∙ Same-value_of m m' s j;
    own = elim h.own [
      | inl (q, e, v, ks, n) ↦ inl (
        q,
        sym (Same-place_of m m' s k) ∙ e,
        v ∙ Same-value_of m m' s k,
        ks ∙ Same-keys_of m m' s,
        n ∙ num,
      )
      | inr (e, v, ks, n) ↦ inr (
        sym (Same-place_of m m' s k) ∙ e,
        v,
        ks ∙ ap (λ (l : List ops.Key). l ++ (k ∷ [])) (Same-keys_of m m' s),
        n ∙ ap (λ (x : ℕ). x + 1) num,
      )
    ];
  }
    where
      num : m'.num_items ≡ m.num_items
      num = ap (λ (x : Map ops V). x.num_items) s.rest

  -- On a well-formed map of fewer than 2 ^ 29 - 256 items an insertion returns NULL, or follows or
  -- stores one, only when memory is refused, or when the key is missing and the map is full; a full
  -- map stays as it is. Otherwise the place of the key is returned, the map stays well-formed, and
  -- the values of all other keys stay. If the key was there, nothing else changes; else it gets the
  -- value 0 and is the last of the keys.
  pub map_insert-Inserts :
      (m : Map ops V) (k : ops.Key)
      → IsMap laws m
      → laws.IsKey k
      → m.num_items < 2 ^ 29 - 256
      → InsertOutcome laws available null m k (map_insert available null m k)
  map_insert-Inserts m k is key small = elim (open_leaves-Same available m (idx1 (ops.hash k))) [
    | inl (n, gone, e) ↦ inl (n, gone, inr (insert-undefined m k e))
    | inr (m', e, s) ↦
        let is' = Same-IsMap laws m m' s is in
        let num : m'.num_items ≡ m.num_items = ap (λ (x : Map ops V). x.num_items) s.rest in
        let max : m'.max_num_items ≡ m.max_num_items =
          ap (λ (x : Map ops V). x.max_num_items) s.rest in
        elim (Option-cases (place_of m' k)) [
          | inr (p, f) ↦ inr (
              inr (
                p,
                m',
                insert-found m m' k p e f,
                record {
                  valid = is';
                  place = f;
                  others = λ j ne. Same-value_of m m' s j;
                  own = inl (
                    p,
                    sym (Same-place_of m m' s k) ∙ f,
                    Same-value_of m m' s k,
                    Same-keys_of m m' s,
                    num,
                  );
                },
              ))
          | inl f ↦
              let missing = insert-missing m m' k e f in
              elim (new_item-Outcome m' k is' key f (omega arith)) [
                | inl (n, gone, inl r) ↦ inl (n, gone, inl (missing ∙ r))
                | inl (n, gone, inr r) ↦ inl (n, gone, inr (missing ∙ r))
                | inr (inl (m'', r, s', number, none_there)) ↦ inr (
                    inl (
                      m'',
                      missing ∙ r,
                      Same-trans m m' m'' s s',
                      sym num ∙ number ∙ max,
                      sym (Same-place_of m m' s k) ∙ f,
                    ))
                | inr (inr (p, m'', r, h)) ↦
                    inr (inr (p, m'', missing ∙ r, Inserts-Same m m' m'' k p s h))
              ]
        ]
  ]
