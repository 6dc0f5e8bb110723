-- ===== src/Map/Grow.antt =====
-- The invariant of a map, and the item that `new_item` adds.
use discodb.Common.{
  ℕ, zero, suc, ◌+◌, ◌≤◌, ◌≡◌, ◌≢◌, refl, sym, ap, ap₂, ◌∙◌, false, none, some, List, [], ◌∷◌, ◌++◌,
  map, ◌==◌, if◌then◌else◌, length, get_elem?, All, All-append, Bool-cases, inl, inr, ◌⊎◌,
  Option-cases, ==_iff, ==_refl,
}
use discodb.KeyList.{KeyList}
use discodb.KeyList.Contents.{IsKeyList, contents}
use discodb.Membuffer.{Membuffer}
use discodb.Membuffer.Contents.{IsMembuffer}
use discodb.Map.Keys.{KeyOps, KeyLaws}
use discodb.Map.{Item, Leaf, Map, Place, idx1, idx2, leaf_at, set_leaf, search_items}
use discodb.Map.Search.{
  place_of, value_of, value_in, value_for, leaf_at-set_leaf, Keyed, Kept, IsItems,
  search_items-later, search_items-append, search_items-found,
}
use mathlib.Core.Option
use mathlib.Core.Path.{subst}

module _ {ops : KeyOps} {V : Type 0} where
  -- The keys in the order of insertion.
  abbrev pub keys_of : Map ops V → List ops.Key
  keys_of m = map (ops.read m.key_buffer) (contents m.keys)

module _ {ops : KeyOps} (laws : KeyLaws ops) {V : Type 0} where
  -- A pointer among the keys stands for a key, which the trie has.
  abbrev pub Listed : Map ops V → ops.Ptr → Type 0
  Listed m p =
      (k : ops.Key) × laws.IsKey k
      × laws.Stands m.key_buffer p k
      × (q : Place) × (place_of m k ≡ some q)

  pub record IsMap (m : Map ops V) : Type 0 where
    pub buffer : IsMembuffer m.key_buffer
    pub items : (a b : ℕ) → IsItems laws m.key_buffer (leaf_at m a b).items
    pub listed : All (Listed m) (contents m.keys)
    pub list : IsKeyList m.keys
    pub ahead : m.keys.size ≤ m.keys.i + 128
    pub count : m.keys.i ≡ m.num_items
    pub limit : m.num_items ≤ m.max_num_items

  -- The item `x` of the key `k` is added in its leaf, and the buffer `mb` grows to have the key.
  module _ (m : Map ops V) (k : ops.Key) (mb : Membuffer) (x : Item ops V) (size num : ℕ)
      (keys : KeyList ops.Ptr) (is : (a b : ℕ) → IsItems laws m.key_buffer (leaf_at m a b).items)
      (key : laws.IsKey k) (stands : laws.Stands mb x.key k)
      (kept : Kept laws m.key_buffer mb) where
    abbrev leaf : Leaf ops V
    leaf = leaf_at m (idx1 (ops.hash k)) (idx2 (ops.hash k))

    abbrev pub added : Map ops V
    added =
        set_leaf (record m { num_items = num; key_buffer = mb; keys = keys }) (idx1 (ops.hash k))
          (idx2 (ops.hash k)) (record { items = leaf.items ++ (x ∷ []); size = size })

    -- The items of a leaf after the addition.
    added-cases :
        (a b : ℕ)
        → ((a ≡ idx1 (ops.hash k))
            × (b ≡ idx2 (ops.hash k))
            × ((leaf_at added a b).items ≡ leaf.items ++ (x ∷ [])))
          ⊎ ((leaf_at added a b).items ≡ (leaf_at m a b).items)
    added-cases a b =
        let e =
          leaf_at-set_leaf (record m { num_items = num; key_buffer = mb; keys = keys })
            (idx1 (ops.hash k)) (idx2 (ops.hash k)) a b
            (record { items = leaf.items ++ (x ∷ []); size = size }) in
        elim (Bool-cases (idx1 (ops.hash k) == a)) [
          | inr ea ↦
              let same : leaf_at added a b ≡ leaf_at m a b = e ∙ rw ea refl in
              inr (ap (λ (l : Leaf ops V). l.items) same)
          | inl ea ↦ elim (Bool-cases (idx2 (ops.hash k) == b)) [
            | inr eb ↦
                let same : leaf_at added a b ≡ leaf_at m a b =
                  e ∙ rw (ea, eb) (ap (λ (t : ℕ). leaf_at m t b) ((==_iff _ _).0 ea)) in
                inr (ap (λ (l : Leaf ops V). l.items) same)
            | inl eb ↦
                let more : leaf_at added a b
                    ≡ record { items = leaf.items ++ (x ∷ []); size = size } =
                  e ∙ rw (ea, eb) refl in
                inl (
                  sym ((==_iff _ _).0 ea),
                  sym ((==_iff _ _).0 eb),
                  ap (λ (l : Leaf ops V). l.items) more,
                )
          ]
        ]

    other-key : (j : ops.Key) → j ≢ k → ops.same mb x.key j ≡ false
    other-key j ne = elim (Bool-cases (ops.same mb x.key j)) [
      | inl same ↦ absurd (ne (sym ((laws.same_iff mb x.key k j key stands).0 same)))
      | inr other ↦ other
    ]

    get_elem?-in_front :
        (items : List (Item ops V)) (i : ℕ) (y z : Item ops V)
        → get_elem? items i ≡ some y
        → get_elem? (items ++ (z ∷ [])) i ≡ some y
    get_elem?-in_front [] i y z e = absurd (cc)
    get_elem?-in_front (w ∷ ws) zero y z e = e
    get_elem?-in_front (w ∷ ws) (suc i) y z e = get_elem?-in_front ws i y z e

    get_elem?-last :
        (items : List (Item ops V)) (z : Item ops V)
        → get_elem? (items ++ (z ∷ [])) (length items) ≡ some z
    get_elem?-last [] z = refl
    get_elem?-last (w ∷ ws) z = get_elem?-last ws z

    -- The value of another key in a leaf with the new item.
    value_for-append :
        (items : List (Item ops V)) (j : ops.Key)
        → IsItems laws m.key_buffer items
        → j ≢ k
        → value_for mb (items ++ (x ∷ [])) j ≡ value_for m.key_buffer items j
    value_for-append items j ok ne =
        let s : search_items mb (items ++ (x ∷ [])) j ≡ search_items m.key_buffer items j =
          search_items-append laws mb items x j
          ∙ rw (other-key j ne) (search_items-later laws m.key_buffer mb items j kept ok) in
        ap (value_in (items ++ (x ∷ []))) s
        ∙ elim (Option-cases (search_items m.key_buffer items j)) [
          | inl missing ↦ rw missing refl
          | inr (i, found) ↦
              let (y, at, same) = search_items-found m.key_buffer items j i found in
              rw found (
                ap (Option.map (λ (x : Item ops V). x.value))
                  (get_elem?-in_front items i y x at ∙ sym at))
        ]

    pub value_of-added_other : (j : ops.Key) → j ≢ k → value_of added j ≡ value_of m j
    value_of-added_other j ne =
        let a = idx1 (ops.hash j) in
        let b = idx2 (ops.hash j) in
        elim (added-cases a b) [
          | inl (ea, eb, items) ↦
              ap (λ (t : List (Item ops V)). value_for mb t j) items
              ∙ value_for-append leaf.items j (is _ _) ne
              ∙ ap₂ (λ (x y : ℕ). value_for m.key_buffer (leaf_at m x y).items j) (sym ea) (sym eb)
          | inr items ↦
              ap (λ (t : List (Item ops V)). value_for mb t j) items
              ∙ ap (value_in (leaf_at m a b).items)
                  (search_items-later laws m.key_buffer mb (leaf_at m a b).items j kept (is a b))
        ]

    here : (leaf_at added (idx1 (ops.hash k)) (idx2 (ops.hash k))).items ≡ leaf.items ++ (x ∷ [])
    here =
        let same : leaf_at added (idx1 (ops.hash k)) (idx2 (ops.hash k))
            ≡ record { items = leaf.items ++ (x ∷ []); size = size } =
          leaf_at-set_leaf (record m { num_items = num; key_buffer = mb; keys = keys })
            (idx1 (ops.hash k)) (idx2 (ops.hash k)) (idx1 (ops.hash k)) (idx2 (ops.hash k))
            (record { items = leaf.items ++ (x ∷ []); size = size })
          ∙ rw (==_refl (idx1 (ops.hash k)), ==_refl (idx2 (ops.hash k))) refl in
        ap (λ (l : Leaf ops V). l.items) same

    search_new : search_items mb (leaf.items ++ (x ∷ [])) k ≡ some (length leaf.items)
    search_new =
        search_items-append laws mb leaf.items x k
        ∙ rw ((laws.same_iff mb x.key k k key stands).1 refl) refl

    pub value_of-added_self : value_of added k ≡ some x.value
    value_of-added_self =
        ap (λ (t : List (Item ops V)). value_for mb t k) here
        ∙ ap (value_in (leaf.items ++ (x ∷ []))) search_new
        ∙ ap (Option.map (λ (x : Item ops V). x.value)) (get_elem?-last leaf.items x)

    abbrev pub place : ℕ → Place
    place i = record { first = idx1 (ops.hash k); second = idx2 (ops.hash k); i = i }

    pub place_of-added : place_of added k ≡ some (place (length leaf.items))
    place_of-added =
        ap (Option.map place)
          (ap (λ (t : List (Item ops V)). search_items mb t k) here ∙ search_new)

    -- A key that the trie has it still has.
    pub place_of-added_later :
        (j : ops.Key) (q : Place)
        → place_of m j ≡ some q
        → (q' : Place) × (place_of added j ≡ some q')
    place_of-added_later j q e =
        let a = idx1 (ops.hash j) in
        let b = idx2 (ops.hash j) in
        let at : ℕ → Place = λ i. record { first = a; second = b; i = i } in
        let (i, found) = searched j q e in
        elim (added-cases a b) [
          | inr items ↦ (
            at i,
            ap (Option.map at) (
                ap (λ (t : List (Item ops V)). search_items mb t j) items
                ∙ search_items-later laws m.key_buffer mb (leaf_at m a b).items j kept (is a b)
                ∙ found),
          )
          | inl (ea, eb, items) ↦
              let more : search_items mb (leaf_at added a b).items j ≡ (
                  if ops.same mb x.key j
                  then some (length leaf.items)
                  else search_items mb leaf.items j) =
                ap (λ (t : List (Item ops V)). search_items mb t j) items
                ∙ search_items-append laws mb leaf.items x j in
              elim (Bool-cases (ops.same mb x.key j)) [
                | inl same ↦
                    let got : search_items mb (leaf_at added a b).items j
                        ≡ some (length leaf.items) =
                      more ∙ rw same refl in
                    (at (length leaf.items), ap (Option.map at) got)
                | inr other ↦
                    let old : search_items mb (leaf_at added a b).items j
                        ≡ search_items mb leaf.items j =
                      more ∙ rw other refl in
                    (
                      at i,
                      ap (Option.map at) (
                          old
                          ∙ search_items-later laws m.key_buffer mb leaf.items j kept (is _ _)
                          ∙ ap₂ (λ (x y : ℕ). search_items m.key_buffer (leaf_at m x y).items j)
                              (sym ea) (sym eb)
                          ∙ found),
                    )
              ]
        ]
      where
        searched :
            (j : ops.Key) (q : Place)
            → place_of m j ≡ some q
            → (i : ℕ) × (search_items m.key_buffer
                  (leaf_at m (idx1 (ops.hash j)) (idx2 (ops.hash j))).items
                  j
                ≡ some i)
        searched j q e =
            elim (Option-cases (
              search_items m.key_buffer (leaf_at m (idx1 (ops.hash j)) (idx2 (ops.hash j))).items
                j)) [
                  | inl missing ↦ let bad : none ≡ some q = rw missing at e in absurd (cc)
                  | inr found ↦ found
                ]

    keyed-later :
        (items : List (Item ops V)) → IsItems laws m.key_buffer items → IsItems laws mb items
    keyed-later [] h = tt
    keyed-later (y ∷ ys) h = ((h.0.0, h.0.1, kept y.key h.0.0 h.0.2), keyed-later ys h.1)

    pub added-IsItems : (a b : ℕ) → IsItems laws mb (leaf_at added a b).items
    added-IsItems a b = elim (added-cases a b) [
      | inl (ea, eb, items) ↦ subst (IsItems laws mb) (sym items) (
          All-append (λ y. Keyed laws mb y.key) leaf.items (x ∷ [])
            (keyed-later leaf.items (is _ _)) ((k, key, stands), tt))
      | inr items ↦ subst (IsItems laws mb) (sym items) (keyed-later _ (is a b))
    ]
