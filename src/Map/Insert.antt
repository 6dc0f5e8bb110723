-- ===== src/Map/Insert.antt =====
-- `ddb_map_lookup_int` and `_str`, `ddb_map_insert_int` and `_str`: the map as a function of the
-- key, and as the list of its keys.
use discodb.Common.{
  ℕ, ◌+◌, ◌*◌, ◌≤◌, ◌≡◌, refl, sym, ap, ap₂, ◌∙◌, arith, Bool, false, Option, none, some, List, [],
  ◌∷◌, map, update, All, Bool-cases, inl, inr, ◌⊎◌, Option-cases,
}
use discodb.KeyList.{KeyList}
use discodb.KeyList.Contents.{IsKeyList, contents}
use discodb.Membuffer.{Membuffer}
use discodb.Membuffer.Contents.{IsMembuffer}
use discodb.Map.Keys.{KeyOps, KeyLaws}
use discodb.Map.{
  Leaf, Map, Place, idx1, idx2, leaf_at, search_items, empty_leaf, sizeof_leaf, open_leaves,
  lookup_leaf, map_lookup,
}
use discodb.Map.Search.{place_of, value_of, value_for, IsItems}
use discodb.Map.Grow.{Listed, IsMap, keys_of}
use mathlib.Core.Option
use mathlib.Core.Path.{subst}

module _ {ops : KeyOps} {V : Type 0} where
  -- A map with the same leaves, some of which may be there only now.
  pub record Same (m m' : Map ops V) : Type 0 where
    pub leaves : (a b : ℕ) → leaf_at m' a b ≡ leaf_at m a b
    pub rest : m' ≡ record m { leaves = m'.leaves }

  pub Same-trans : (a b c : Map ops V) → Same a b → Same b c → Same a c
  Same-trans a b c f g = record {
    leaves = λ x y. g.leaves x y ∙ f.leaves x y;
    rest = g.rest ∙ ap (λ (m : Map ops V). record m { leaves = c.leaves }) f.rest;
  }

  opened-leaf :
      (m : Map ops V) (c a b : ℕ)
      → m.leaves c ≡ none
      → leaf_at (record m { leaves = update m.leaves c (some (λ b. empty_leaf ops V)) }) a b
        ≡ leaf_at m a b
  opened-leaf m c a b e = ground arith

  pub open_leaves-Same :
      (available : ℕ → Bool) (m : Map ops V) (a : ℕ)
      → ((n : ℕ) × (available n ≡ false) × (open_leaves available m a ≡ none))
        ⊎ ((m' : Map ops V) × (open_leaves available m a ≡ some m') × Same m m')
  unfolding open_leaves
  open_leaves-Same available m a = elim (Option-cases (m.leaves a)) [
    | inr (leaves, e) ↦ inr (m, ground arith, record { leaves = λ a b. refl; rest = refl })
    | inl e ↦ elim (Bool-cases (available (256 * sizeof_leaf))) [
      | inr refused ↦ inl (256 * sizeof_leaf, refused, ground arith)
      | inl met ↦ inr (
        record m { leaves = update m.leaves a (some (λ b. empty_leaf ops V)) },
        ground arith,
        record { leaves = λ c b. opened-leaf m a c b e; rest = refl },
      )
    ]
  ]

  module _ (m m' : Map ops V) (s : Same m m') where
    pub Same-buffer : m'.key_buffer ≡ m.key_buffer
    Same-buffer = ap (λ (x : Map ops V). x.key_buffer) s.rest

    pub Same-place_of : (k : ops.Key) → place_of m' k ≡ place_of m k
    Same-place_of k =
        ap₂
          (λ (mb : Membuffer) (l : Leaf ops V).
            Option.map
              (λ (i : ℕ). record { first = idx1 (ops.hash k); second = idx2 (ops.hash k); i = i })
              (search_items mb l.items k))
          Same-buffer (s.leaves _ _)

    pub Same-value_of : (k : ops.Key) → value_of m' k ≡ value_of m k
    Same-value_of k =
        ap₂ (λ (mb : Membuffer) (l : Leaf ops V). value_for mb l.items k) Same-buffer (s.leaves _ _)

    pub Same-keys_of : keys_of m' ≡ keys_of m
    Same-keys_of =
        ap₂ (λ (mb : Membuffer) (l : KeyList ops.Ptr). map (ops.read mb) (contents l)) Same-buffer
          (ap (λ (x : Map ops V). x.keys) s.rest)

module _ {ops : KeyOps} (laws : KeyLaws ops) {V : Type 0} where
  pub Listed-imp :
      (m m' : Map ops V) (f : (p : ops.Ptr) → Listed laws m p → Listed laws m' p)
      (ps : List ops.Ptr)
      → All (Listed laws m) ps
      → All (Listed laws m') ps
  Listed-imp m m' f [] h = tt
  Listed-imp m m' f (p ∷ ps) h = (f p h.0, Listed-imp m m' f ps h.1)

  pub Same-IsMap : (m m' : Map ops V) → Same m m' → IsMap laws m → IsMap laws m'
  Same-IsMap m m' s is = record {
    buffer = subst IsMembuffer (sym (Same-buffer m m' s)) is.buffer;
    items = λ a b.
        subst (λ (l : Leaf ops V). IsItems laws m'.key_buffer l.items) (sym (s.leaves a b))
          (subst (λ (mb : Membuffer). IsItems laws mb (leaf_at m a b).items)
            (sym (Same-buffer m m' s)) (is.items a b));
    listed =
        subst (λ (l : KeyList ops.Ptr). All (Listed laws m') (contents l))
          (sym (ap (λ (x : Map ops V). x.keys) s.rest))
          (Listed-imp m m'
            (λ p h. (
              h.0,
              h.1,
              subst (λ (mb : Membuffer). laws.Stands mb p h.0) (sym (Same-buffer m m' s)) h.2,
              h.3,
              Same-place_of m m' s h.0 ∙ h.4,
            ))
            (contents m.keys) is.listed);
    list = subst IsKeyList (sym keys) is.list;
    ahead = subst (λ (l : KeyList ops.Ptr). l.size ≤ l.i + 128) (sym keys) is.ahead;
    count =
        ap (λ (x : Map ops V). x.keys.i) s.rest
        ∙ is.count
        ∙ sym (ap (λ (x : Map ops V). x.num_items) s.rest);
    limit = omega (
      arith,
      is.limit,
      ap (λ (x : Map ops V). x.num_items) s.rest,
      ap (λ (x : Map ops V). x.max_num_items) s.rest,
    );
  }
    where
      keys : m'.keys ≡ m.keys
      keys = ap (λ (x : Map ops V). x.keys) s.rest

  lookup-refused :
      (available : ℕ → Bool) (m : Map ops V) (k : ops.Key)
      → open_leaves available m (idx1 (ops.hash k)) ≡ none
      → map_lookup available m k ≡ (none, m)
  unfolding map_lookup lookup_leaf
  lookup-refused available m k e = ground arith

  lookup-runs :
      (available : ℕ → Bool) (m m' : Map ops V) (k : ops.Key)
      → open_leaves available m (idx1 (ops.hash k)) ≡ some m'
      → map_lookup available m k ≡ (place_of m' k, m')
  unfolding map_lookup lookup_leaf
  lookup-runs available m m' k e = ground arith

  abbrev pub LookupOutcome :
      (ℕ → Bool) → Map ops V → Map ops V → ops.Key → Option Place × Map ops V → Type 0
  LookupOutcome available m m' k result =
      ((n : ℕ) × (available n ≡ false) × (result ≡ (none, m'))) ⊎ (result ≡ (place_of m k, m'))

  pub map_lookup-place_of :
      (available : ℕ → Bool) (m : Map ops V) (k : ops.Key)
      → IsMap laws m
      → (m' : Map ops V) × Same m m'
        × IsMap laws m'
        × LookupOutcome available m m' k (map_lookup available m k)
  map_lookup-place_of available m k is = elim (open_leaves-Same available m (idx1 (ops.hash k))) [
    | inl (n, refused, gone) ↦ (
      m,
      record { leaves = λ a b. refl; rest = refl },
      is,
      inl (n, refused, lookup-refused available m k gone),
    )
    | inr (m', e, s) ↦ (
      m',
      s,
      Same-IsMap m m' s is,
      inr (
          lookup-runs available m m' k e
          ∙ ap (λ (p : Option Place). (p, m')) (Same-place_of m m' s k)),
    )
  ]
