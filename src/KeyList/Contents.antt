-- ===== src/KeyList/Contents.antt =====
-- The list as its elements in order.
use discodb.Common.{
  ℕ, zero, suc, ◌+◌, ◌-◌, ◌*◌, ◌^◌, ◌≤◌, ◌<◌, ◌≡◌, refl, ap, ◌∙◌, arith, Bool, true, false, none,
  some, ◌==◌, update, List, [], ◌∷◌, ◌++◌, Bool-cases, ◌⊎◌, inl, inr,
}
use discodb.KeyList.{KeyList, list_append, list_bytes, list_grown, sizeof_list, uint32_max}

module _ {A : Type 0} where
  -- The first `n` elements.
  abbrev pub prefix : (ℕ → A) → ℕ → List A
  prefix f zero = []
  prefix f (suc n) = prefix f n ++ (f n ∷ [])

  abbrev pub contents : KeyList A → List A
  contents l = prefix l.list l.i

  -- The elements lie inside the block that was asked for.
  pub record IsKeyList (l : KeyList A) : Type 0 where
    pub room : l.i ≤ l.size
    pub fits : sizeof_list + l.size * 8 ≤ list_bytes l.size

  prefix-update : (f : ℕ → A) (k n : ℕ) (e : A) → n ≤ k → prefix (update f k e) n ≡ prefix f n
  prefix-update f k zero e h = refl
  prefix-update f k (suc n) e h =
      let other : (k == n) ≡ false = ground arith in
      rw other (ap (λ l. l ++ (f n ∷ [])) (prefix-update f k n e (omega arith)))

  -- `l'` is `l` with `e` behind it.
  pub record Extends (l : KeyList A) (e : A) (l' : KeyList A) : Type 0 where
    pub holds : contents l' ≡ contents l ++ (e ∷ [])
    pub valid : IsKeyList l'
    pub inside : l.i < l'.size

  abbrev appended : KeyList A → A → ℕ → KeyList A
  appended l e size = record { size = size; i = l.i + 1; list = update l.list l.i e }

  appended-Extends :
      (l : KeyList A) (e : A) (size : ℕ)
      → l.i < size
      → size < 2 ^ 29
      → Extends l e (appended l e size)
  appended-Extends l e size lt small = record {
    holds =
        let last : l.i + 1 ≡ suc l.i = omega arith in
        let here : (l.i == l.i) ≡ true = ground arith in
        ap (prefix (update l.list l.i e)) last
        ∙ ap (λ f. f ++ (update l.list l.i e l.i ∷ []))
            (prefix-update l.list l.i l.i e (omega arith))
        ∙ rw here refl;
    valid = record { room = omega arith; fits = omega arith };
    inside = lt;
  }

  -- On a list whose elements lie in its block, while its size is below 2 ^ 29 - 128, `ddb_list_append`
  -- puts the element last and keeps all elements in the block, or fails because memory is refused.
  pub list_append-Extends :
      (available : ℕ → Bool) (l : KeyList A) (e : A)
      → IsKeyList l
      → l.size < 2 ^ 29 - 128
      → ((n : ℕ) × (available n ≡ false) × (list_append available l e ≡ none))
        ⊎ ((l' : KeyList A) × (list_append available l e ≡ some l') × Extends l e l')
  unfolding list_append
  list_append-Extends available l e v small =
      let not_last : (l.i == uint32_max) ≡ false = ground (arith, v.room) in
      let grown : list_grown l.size ≡ l.size + 128 = ground arith in
      elim (Bool-cases (l.i == l.size)) [
        | inr room ↦ inr (
          appended l e l.size,
          rw (room, not_last) refl,
          appended-Extends l e l.size (ground (arith, v.room)) (omega arith),
        )
        | inl full ↦ elim (Bool-cases (available (list_bytes (list_grown l.size)))) [
          | inr refused ↦ inl (list_bytes (list_grown l.size), refused, rw (full, refused) refl)
          | inl met ↦ inr (
            appended l e (list_grown l.size),
            rw (full, met, not_last) refl,
            appended-Extends l e (list_grown l.size) (ground (arith, grown)) (omega (arith, grown)),
          )
        ]
      ]

  -- The block is never more than a step ahead of the elements.
  pub list_append-ahead :
      (available : ℕ → Bool) (l l' : KeyList A) (e : A)
      → list_append available l e ≡ some l'
      → l.size < 2 ^ 29
      → l.size ≤ l.i + 128
      → (l'.i ≡ l.i + 1) × (l'.size ≤ l'.i + 128)
  unfolding list_append
  list_append-ahead available l l' e h small ahead = ground arith
