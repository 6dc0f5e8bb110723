-- ===== src/Map/Search.antt =====
-- Where the value of a key is, and what an insertion and a write change of that.
use discodb.Common.{
  ℕ, zero, suc, ◌≡◌, ◌≢◌, refl, sym, ap, ◌∙◌, arith, Bool, true, false, Option, none, some, List,
  [], ◌∷◌, ◌++◌, ◌==◌, if◌then◌else◌, length, get_elem?, All, Bool-cases, inl, inr, Option-cases,
  ==_iff, ==_refl, ap₂,
}
use discodb.Membuffer.{Membuffer}
use discodb.Map.Keys.{KeyOps, KeyLaws}
use discodb.Map.{
  Item, Leaf, Map, Place, idx1, idx2, leaf_at, set_leaf, set_item, set_value, search_items,
}
use mathlib.Core.Option
use mathlib.Core.Path.{subst, subst₂}

-- What the tests on a key say after the buffer has changed.
Bool-same : (a b : Bool) → (a ≡ true → b ≡ true) → (b ≡ true → a ≡ true) → a ≡ b
Bool-same true true f g = refl
Bool-same false false f g = refl
Bool-same true false f g = sym (f refl)
Bool-same false true f g = g refl

module _ {ops : KeyOps} {V : Type 0} where
  -- The place of a key in the leaf of its hash.
  abbrev pub place_of : Map ops V → ops.Key → Option Place
  place_of m k =
      Option.map
        (λ (i : ℕ). record { first = idx1 (ops.hash k); second = idx2 (ops.hash k); i = i })
        (search_items m.key_buffer (leaf_at m (idx1 (ops.hash k)) (idx2 (ops.hash k))).items k)

  abbrev pub value_in : List (Item ops V) → Option ℕ → Option V
  value_in items none = none
  value_in items (some i) = Option.map (λ (x : Item ops V). x.value) (get_elem? items i)

  abbrev pub value_for : Membuffer → List (Item ops V) → ops.Key → Option V
  value_for mb items k = value_in items (search_items mb items k)

  -- The value of a key.
  abbrev pub value_of : Map ops V → ops.Key → Option V
  value_of m k = value_for m.key_buffer (leaf_at m (idx1 (ops.hash k)) (idx2 (ops.hash k))).items k

  pub leaf_at-set_leaf :
      (m : Map ops V) (a b a' b' : ℕ) (leaf : Leaf ops V)
      → leaf_at (set_leaf m a b leaf) a' b'
        ≡ (if a == a' then (if b == b' then leaf else leaf_at m a b') else leaf_at m a' b')
  leaf_at-set_leaf m a b a' b' leaf = ground arith

  search_items-set :
      (mb : Membuffer) (items : List (Item ops V)) (i : ℕ) (v : V) (k : ops.Key)
      → search_items mb (set_item items i v) k ≡ search_items mb items k
  unfolding search_items
  search_items-set mb [] i v k = refl
  search_items-set mb (x ∷ xs) zero v k = refl
  search_items-set mb (x ∷ xs) (suc i) v k = rw (search_items-set mb xs i v k) refl

  pub search_items-found :
      (mb : Membuffer) (items : List (Item ops V)) (k : ops.Key) (i : ℕ)
      → search_items mb items k ≡ some i
      → (x : Item ops V) × (get_elem? items i ≡ some x) × (ops.same mb x.key k ≡ true)
  unfolding search_items
  search_items-found mb [] k i e = absurd (cc)
  search_items-found mb (x ∷ xs) k i e = elim (Option-cases (search_items mb xs k)) [
    | inl missing ↦ elim (Bool-cases (ops.same mb x.key k)) [
      | inl same ↦
          let got : some 0 ≡ some i = rw (missing, same) at e in
          let here : 0 ≡ i = cc in (x, rw (← here) refl, same)
      | inr other ↦ let got : none ≡ some i = rw (missing, other) at e in absurd (cc)
    ]
    | inr (j, found) ↦
        let got : some (suc j) ≡ some i = rw found at e in
        let here : suc j ≡ i = cc in
        let (y, at, same) = search_items-found mb xs k j found in (y, rw (← here) at, same)
  ]

  get_elem?-set_item :
      (items : List (Item ops V)) (i : ℕ) (v : V) (x : Item ops V)
      → get_elem? items i ≡ some x
      → get_elem? (set_item items i v) i ≡ some (record x { value = v })
  get_elem?-set_item [] i v x e = absurd (cc)
  get_elem?-set_item (y ∷ ys) zero v x e = cc
  get_elem?-set_item (y ∷ ys) (suc i) v x e = get_elem?-set_item ys i v x e

  get_elem?-set_other :
      (items : List (Item ops V)) (i j : ℕ) (v : V)
      → i ≢ j
      → get_elem? (set_item items i v) j ≡ get_elem? items j
  get_elem?-set_other [] i j v ne = refl
  get_elem?-set_other (y ∷ ys) zero zero v ne = absurd (ne refl)
  get_elem?-set_other (y ∷ ys) zero (suc j) v ne = refl
  get_elem?-set_other (y ∷ ys) (suc i) zero v ne = refl
  get_elem?-set_other (y ∷ ys) (suc i) (suc j) v ne = get_elem?-set_other ys i j v (omega arith)

  value_for-set_item :
      (mb : Membuffer) (items : List (Item ops V)) (i : ℕ) (v : V) (k : ops.Key)
      → search_items mb items k ≡ some i
      → value_for mb (set_item items i v) k ≡ some v
  value_for-set_item mb items i v k found =
      let (x, at, same) = search_items-found mb items k i found in
      ap (value_in (set_item items i v)) (search_items-set mb items i v k ∙ found)
      ∙ ap (Option.map (λ (x : Item ops V). x.value)) (get_elem?-set_item items i v x at)

module _ {ops : KeyOps} (laws : KeyLaws ops) where
  -- An item with a key.
  abbrev pub Keyed : Membuffer → ops.Ptr → Type 0
  Keyed mb p = (k : ops.Key) × laws.IsKey k × laws.Stands mb p k

  abbrev pub Kept : Membuffer → Membuffer → Type 0
  Kept mb mb' = (q : ops.Ptr) (j : ops.Key) → laws.Stands mb q j → laws.Stands mb' q j

  pub same-later :
      (mb mb' : Membuffer) (p : ops.Ptr) (j k : ops.Key)
      → laws.IsKey j
      → laws.Stands mb p j
      → laws.Stands mb' p j
      → ops.same mb' p k ≡ ops.same mb p k
  same-later mb mb' p j k is old new =
      let before = laws.same_iff mb p j k is old in
      let after = laws.same_iff mb' p j k is new in
      Bool-same (ops.same mb' p k) (ops.same mb p k) (λ e. before.1 (after.0 e))
        (λ e. after.1 (before.0 e))

  module _ {V : Type 0} where
    abbrev pub IsItems : Membuffer → List (Item ops V) → Type 0
    IsItems mb items = All (λ x. Keyed mb x.key) items

    pub search_items-later :
        (mb mb' : Membuffer) (items : List (Item ops V)) (k : ops.Key)
        → Kept mb mb'
        → IsItems mb items
        → search_items mb' items k ≡ search_items mb items k
    unfolding search_items
    search_items-later mb mb' [] k kept is = refl
    search_items-later mb mb' (x ∷ xs) k kept is =
        let (j, key, stands) = is.0 in
        let one = same-later mb mb' x.key j k key stands (kept x.key j stands) in
        ground (arith, search_items-later mb mb' xs k kept is.1, one)

    pub search_items-append :
        (mb : Membuffer) (items : List (Item ops V)) (x : Item ops V) (k : ops.Key)
        → search_items mb (items ++ (x ∷ [])) k
          ≡ (if ops.same mb x.key k then some (length items) else search_items mb items k)
    unfolding search_items
    search_items-append mb [] x k = refl
    search_items-append mb (y ∷ ys) x k = ground (arith, search_items-append mb ys x k)

    pub All-get_elem? :
        (mb : Membuffer) (items : List (Item ops V)) (i : ℕ) (x : Item ops V)
        → IsItems mb items
        → get_elem? items i ≡ some x
        → Keyed mb x.key
    All-get_elem? mb [] i x is e = absurd (cc)
    All-get_elem? mb (y ∷ ys) zero x is e =
        let same : y ≡ x = cc in subst (λ (z : Item ops V). Keyed mb z.key) same is.0
    All-get_elem? mb (y ∷ ys) (suc i) x is e = All-get_elem? mb ys i x is.1 e

    -- Two keys with one item are one.
    one_key :
        (mb : Membuffer) (items : List (Item ops V)) (i : ℕ) (k j : ops.Key)
        → IsItems mb items
        → search_items mb items k ≡ some i
        → search_items mb items j ≡ some i
        → j ≡ k
    one_key mb items i k j is ek ej =
        let (x, at, same) = search_items-found mb items k i ek in
        let (y, at', same') = search_items-found mb items j i ej in
        let (n, key, stands) = All-get_elem? mb items i x is at in
        let e : y ≡ x = cc in
        let same_j : ops.same mb x.key j ≡ true =
          subst (λ (z : Item ops V). ops.same mb z.key j ≡ true) e same' in
        sym ((laws.same_iff mb x.key n j key stands).0 same_j)
        ∙ (laws.same_iff mb x.key n k key stands).0 same

    value_for-set_other :
        (mb : Membuffer) (items : List (Item ops V)) (i : ℕ) (v : V) (k j : ops.Key)
        → IsItems mb items
        → search_items mb items k ≡ some i
        → j ≢ k
        → value_for mb (set_item items i v) j ≡ value_for mb items j
    value_for-set_other mb items i v k j is found ne =
        ap (value_in (set_item items i v)) (search_items-set mb items i v j)
        ∙ elim (Option-cases (search_items mb items j)) [
          | inl missing ↦ rw missing refl
          | inr (n, got) ↦
              let apart : i ≢ n =
                λ same. ne (one_key mb items i k j is found (got ∙ ap some (sym same))) in
              rw got (
                ap (Option.map (λ (x : Item ops V). x.value))
                  (get_elem?-set_other items i n v apart))
        ]

    place_of-search :
        (m : Map ops V) (k : ops.Key) (p : Place)
        → place_of m k ≡ some p
        → (search_items m.key_buffer (leaf_at m (idx1 (ops.hash k)) (idx2 (ops.hash k))).items k
            ≡ some p.i)
          × (p.first ≡ idx1 (ops.hash k))
          × (p.second ≡ idx2 (ops.hash k))
    place_of-search m k p e = ground arith

    module _ (m : Map ops V) (k : ops.Key) (p : Place) (v : V) (e : place_of m k ≡ some p) where
      abbrev items : List (Item ops V)
      items = (leaf_at m p.first p.second).items

      search_here : search_items m.key_buffer items k ≡ some p.i
      search_here = let (s, a, b) = place_of-search m k p e in rw (a, b) s

      -- The items of a leaf after the write.
      written :
          (a b : ℕ)
          → (leaf_at (set_value m p v) a b).items ≡ (
              if p.first == a
              then (if p.second == b then set_item items p.i v else (leaf_at m a b).items)
              else (leaf_at m a b).items)
      written a b = ground (
        arith,
        leaf_at-set_leaf m p.first p.second a b
            (record (leaf_at m p.first p.second) { items = set_item items p.i v }),
      )

      value_of-set_value_self : value_of (set_value m p v) k ≡ some v
      value_of-set_value_self =
          let (s, a, b) = place_of-search m k p e in
          let here : (leaf_at (set_value m p v) p.first p.second).items ≡ set_item items p.i v =
            written p.first p.second ∙ rw (==_refl p.first, ==_refl p.second) refl in
          subst₂
            (λ (x y : ℕ). value_for m.key_buffer (leaf_at (set_value m p v) x y).items k ≡ some v) a
            b
            (ap (λ (t : List (Item ops V)). value_for m.key_buffer t k) here
              ∙ value_for-set_item m.key_buffer items p.i v k search_here)

      value_of-set_value_other :
          (j : ops.Key)
          → IsItems m.key_buffer items
          → j ≢ k
          → value_of (set_value m p v) j ≡ value_of m j
      value_of-set_value_other j is ne =
          let a = idx1 (ops.hash j) in
          let b = idx2 (ops.hash j) in
          let there : (leaf_at (set_value m p v) a b).items ≡ (leaf_at m a b).items
              → value_of (set_value m p v) j ≡ value_of m j =
            λ (same : (leaf_at (set_value m p v) a b).items ≡ (leaf_at m a b).items).
              ap (λ (t : List (Item ops V)). value_for m.key_buffer t j) same in
          elim (Bool-cases (p.first == a)) [
            | inr ea ↦ there (written a b ∙ rw ea refl)
            | inl ea ↦ elim (Bool-cases (p.second == b)) [
              | inr eb ↦ there (written a b ∙ rw (ea, eb) refl)
              | inl eb ↦
                  ap (λ (t : List (Item ops V)). value_for m.key_buffer t j)
                    (written a b ∙ rw (ea, eb) refl)
                  ∙ value_for-set_other m.key_buffer items p.i v k j is search_here ne
                  ∙ ap₂ (λ (x y : ℕ). value_for m.key_buffer (leaf_at m x y).items j)
                      ((==_iff _ _).0 ea) ((==_iff _ _).0 eb)
            ]
          ]

      -- A value that is written to the place of a key is the value of that key, and no other key's
      -- value changes.
      pub value_of-set_value :
          IsItems m.key_buffer items
          → (value_of (set_value m p v) k ≡ some v)
            × ((j : ops.Key) → j ≢ k → value_of (set_value m p v) j ≡ value_of m j)
      value_of-set_value is = (value_of-set_value_self, λ j ne. value_of-set_value_other j is ne)
