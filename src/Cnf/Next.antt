-- ===== src/Cnf/Next.antt =====
-- `ddb_cnf_cursor_next`: each call returns the least id that is in all the clauses and not yet
-- returned.
use discodb.Common.{
  ℕ, ◌+◌, ◌-◌, ◌%◌, ◌^◌, ◌≤◌, ◌<◌, ◌≡◌, refl, arith, Bool, true, false, ◌&&◌, ◌||◌, ltb, leb,
  Bool-cases, ◌⊎◌, inl, inr, List, [], ◌∷◌, All, Option, none, some,
}
use discodb.Cnf.Window.{window_size, test_bit}
use discodb.Cnf.{TermOps, Clause, CnfCursor, scan, next_isect_entry}
use discodb.Cnf.Term.{TermLaws}
use discodb.Cnf.Union.{any_holds, in_all, IsClause, Low, is_nil}
use discodb.Cnf.Isect.{Scanned, scan-Scanned}

module _ {ops : TermOps} {limit : ℕ} (laws : TermLaws ops limit)
    (fits : limit + window_size < 2 ^ 32) where
  -- The ids of the current window that are not yet returned.
  abbrev pub in_window : CnfCursor ops → ℕ → Bool
  in_window cnf x =
      leb (cnf.base_id + cnf.isect_offset) x
      && ltb x (cnf.base_id + window_size)
      && test_bit cnf.isect (x - cnf.base_id)

  -- The answers that are still to come.
  abbrev pub pending : CnfCursor ops → ℕ → Bool
  pending cnf x = in_window cnf x || in_all laws cnf.clauses x

  abbrev pub Drained : CnfCursor ops → Type 0
  Drained cnf = (o : ℕ) → cnf.isect_offset ≤ o → o < window_size → test_bit cnf.isect o ≡ false

  pub record IsCursor (cnf : CnfCursor ops) : Type 0 where
    pub valid : All (IsClause laws) cnf.clauses
    pub nonempty : is_nil cnf.clauses ≡ false
    pub ahead :
        Drained cnf
        ⊎ ((cnf.base_id ≤ limit) × All (Low laws (cnf.base_id + window_size)) cnf.clauses)

  pub in_all-ge :
      (m x : ℕ) (cs : List (Clause ops))
      → All (Low laws m) cs
      → is_nil cs ≡ false
      → in_all laws cs x ≡ true
      → m ≤ x
  in_all-ge m x [] low e h = ground arith
  in_all-ge m x (c ∷ cs) low e h = low.0 x (first (any_holds laws c.terms x) (in_all laws cs x) h)
    where
      first : (p q : Bool) → (p && q) ≡ true → p ≡ true
      first p q z = ground arith

  pub in_window-false : (cnf : CnfCursor ops) (x : ℕ) → Drained cnf → in_window cnf x ≡ false
  in_window-false cnf x d =
      elim (Bool-cases
        (leb (cnf.base_id + cnf.isect_offset) x && ltb x (cnf.base_id + window_size))) [
          | inr out ↦ ground (arith, out)
          | inl inside ↦
              let z = d (x - cnf.base_id) (ground arith) (ground arith) in ground (arith, z)
        ]

  module _ {Entry : Type 0} (failing : ℕ → Bool) (entry : ℕ → Entry) where
    -- No id was to come, and none is.
    pub record Exhausted (P : ℕ → Bool) (e : Option Entry) (cnf' : CnfCursor ops) : Type 0 where
      pub nothing : e ≡ none
      pub before : (x : ℕ) → P x ≡ false
      pub after : (x : ℕ) → pending cnf' x ≡ false
      pub valid : IsCursor cnf'

    -- The least id that was to come is returned, and the others are still to come.
    pub record Returned (P : ℕ → Bool) (e : Option Entry) (cnf' : CnfCursor ops) (x : ℕ)
        : Type 0 where
      pub result : e ≡ some (entry x)
      pub member : P x ≡ true
      pub after : (y : ℕ) → pending cnf' y ≡ (P y && ltb x y)
      pub least : (y : ℕ) → P y ≡ true → x ≤ y
      pub valid : IsCursor cnf'

    abbrev pub Answer : (ℕ → Bool) → Option Entry → CnfCursor ops → Type 0
    Answer P e cnf' = Exhausted P e cnf' ⊎ ((x : ℕ) × Returned P e cnf' x)

    module _ (cnf : CnfCursor ops) (v : IsCursor cnf) (r : ℕ)
        (s : Scanned cnf.isect cnf.isect_offset r) where
      abbrev stopped_at : CnfCursor ops
      stopped_at = record cnf { isect_offset = r + 1 }

      found-Returned :
          r < window_size
          → cnf.base_id ≤ limit
          → All (Low laws (cnf.base_id + window_size)) cnf.clauses
          → Returned (pending cnf) (some (entry (cnf.base_id + r))) stopped_at (cnf.base_id + r)
      found-Returned lt le low = record {
        result = refl;
        member = member;
        after = after;
        least = least;
        valid = record { valid = v.valid; nonempty = v.nonempty; ahead = inr (le, low) };
      }
        where
          bit : test_bit cnf.isect (cnf.base_id + r - cnf.base_id) ≡ true
          bit = let e : cnf.base_id + r - cnf.base_id ≡ r = omega arith in rw e (s.stop lt)

          member : pending cnf (cnf.base_id + r) ≡ true
          member = ground (arith, bit, s.up)

          above : (y : ℕ) → in_all laws cnf.clauses y ≡ true → cnf.base_id + window_size ≤ y
          above y h = in_all-ge (cnf.base_id + window_size) y cnf.clauses low v.nonempty h

          passed :
              (y : ℕ)
              → cnf.base_id + cnf.isect_offset ≤ y
              → y < cnf.base_id + r
              → test_bit cnf.isect (y - cnf.base_id) ≡ false
          passed y ge small = s.first (y - cnf.base_id) (omega arith) (omega arith)

          after : (y : ℕ) → pending stopped_at y ≡ (pending cnf y && ltb (cnf.base_id + r) y)
          after y = elim (Bool-cases (in_all laws cnf.clauses y)) [
            | inl h ↦ let ge = above y h in ground (arith, h)
            | inr h ↦
                elim (Bool-cases
                  (leb (cnf.base_id + cnf.isect_offset) y && ltb y (cnf.base_id + r))) [
                    | inl between ↦
                        let z = passed y (ground arith) (ground arith) in ground (arith, h, z)
                    | inr outside ↦ ground (arith, h, outside, s.up)
                  ]
          ]

          least : (y : ℕ) → pending cnf y ≡ true → cnf.base_id + r ≤ y
          least y p = elim (Bool-cases (in_all laws cnf.clauses y)) [
            | inl h ↦ let ge = above y h in omega arith
            | inr h ↦
                elim (Bool-cases
                  (leb (cnf.base_id + cnf.isect_offset) y && ltb y (cnf.base_id + r))) [
                    | inl between ↦
                        let z = passed y (ground arith) (ground arith) in ground (arith, h, z, p)
                    | inr outside ↦ ground (arith, h, outside, p)
                  ]
          ]

    -- The scan of the window: an answer, or the window has none left.
    abbrev pub Scan : CnfCursor ops → Option Entry → CnfCursor ops → Type 0
    Scan cnf e cnf' =
        ((e ≡ none)
          × ((x : ℕ) → in_window cnf x ≡ false)
          × Drained cnf'
          × (cnf'.clauses ≡ cnf.clauses))
        ⊎ ((x : ℕ) × Returned (pending cnf) e cnf' x)

    pub next_isect_entry-Scan :
        (cnf : CnfCursor ops)
        → IsCursor cnf
        → ((x : ℕ) → failing x ≡ false)
        → Scan cnf
            (next_isect_entry ops failing entry cnf).0
            (next_isect_entry ops failing entry cnf).1
    unfolding next_isect_entry
    next_isect_entry-Scan cnf v never =
        let r = scan ops window_size cnf.isect cnf.isect_offset in
        let s = scan-Scanned ops window_size cnf.isect cnf.isect_offset (omega arith) in
        elim (Bool-cases (ltb r window_size)) [
          | inr e ↦
              let out : window_size ≤ r = ground arith in
              rw e (
                inl (
                  refl,
                  (λ x. in_window-false cnf x (λ o le lt. s.first o le (omega arith))),
                  (λ o le lt. absurd (omega arith)),
                  refl,
                ))
          | inl e ↦
              let lt : r < window_size = ground arith in
              elim v.ahead [
                | inl d ↦ absurd (clash (test_bit cnf.isect r) (s.stop lt) (d r s.up lt))
                | inr (le, low) ↦
                    let id : (cnf.base_id + r) % 2 ^ 32 ≡ cnf.base_id + r = omega arith in
                    rw (e, never ((cnf.base_id + r) % 2 ^ 32), id)
                      (inr (cnf.base_id + r, found-Returned cnf v r s lt le low))
              ]
        ]
      where
        clash : (p : Bool) → p ≡ true → p ≡ false → ⊥
        clash p a b = ground arith
