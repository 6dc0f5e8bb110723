-- ===== src/Cnf/Bound.antt =====
-- `find_max_clause`: a bound below which no id is in all the clauses.
use discodb.Common.{
  ℕ, ◌≤◌, ◌≡◌, refl, sym, ◌∙◌, arith, Bool, true, false, ◌&&◌, ◌||◌, ltb, if◌then◌else◌, Bool-cases,
  ◌⊎◌, inl, inr, List, [], ◌∷◌, All,
}
use discodb.Cnf.{TermOps, Clause, clause_min, find_max_clause, all_empty, max_num_values}
use discodb.Cnf.Term.{TermLaws, holds-ge, holds-cur_id}
use discodb.Cnf.Union.{any_holds, in_all, IsClause, Low, Live, is_nil}

module _ {ops : TermOps} {limit : ℕ} (laws : TermLaws ops limit) where
  none_held : (ts : List ops.Term) (x : ℕ) → all_empty ops ts ≡ true → any_holds laws ts x ≡ false
  unfolding all_empty
  none_held [] x e = refl
  none_held (t ∷ ts) x e =
      let parts = split (ops.empty t) (all_empty ops ts) e in
      rw (laws.ended t x parts.0) (none_held ts x parts.1)
    where
      split : (p q : Bool) → (p && q) ≡ true → (p ≡ true) × (q ≡ true)
      split p q h = ground arith

  some_held :
      (ts : List ops.Term)
      → All laws.IsTerm ts
      → all_empty ops ts ≡ false
      → (x : ℕ) × (any_holds laws ts x ≡ true) × (x ≤ limit)
  unfolding all_empty
  some_held [] v e = ground arith
  some_held (t ∷ ts) v e = elim (Bool-cases (ops.empty t)) [
    | inr full ↦
        let h = holds-cur_id laws t v.0 full in
        (ops.cur_id t, rw h refl, laws.bounded t (ops.cur_id t) v.0 h)
    | inl gone ↦
        let (x, held, le) = some_held ts v.1 (ground arith) in
        (x, rw held (either (laws.holds t x)), le)
  ]
    where
      either : (p : Bool) → (p || true) ≡ true
      either p = ground arith

  -- What the loop over the terms leaves, from `allempty` and `cmin`.
  record Minimum (ts : List ops.Term) (allempty : Bool) (cmin : ℕ) (allempty' : Bool) (cmin' : ℕ)
      : Type 0 where
    flag : allempty' ≡ (allempty && all_empty ops ts)
    down : cmin' ≤ cmin
    least : (x : ℕ) → any_holds laws ts x ≡ true → cmin' ≤ x
    from :
        (lo : ℕ)
        → ((x : ℕ) → any_holds laws ts x ≡ true → lo ≤ x)
        → allempty' ≡ false
        → ((allempty ≡ true) × (limit ≤ cmin)) ⊎ (lo ≤ cmin)
        → lo ≤ cmin'

  clause_min-Minimum :
      (ts : List ops.Term) (allempty : Bool) (cmin : ℕ)
      → All laws.IsTerm ts
      → Minimum ts allempty cmin
          (clause_min ops ts allempty cmin).0
          (clause_min ops ts allempty cmin).1
  unfolding clause_min all_empty
  clause_min-Minimum [] allempty cmin v = record {
    flag = ground arith;
    down = omega arith;
    least = λ x h. ground arith;
    from = λ lo low e h. ground arith;
  }
  clause_min-Minimum (t ∷ ts) allempty cmin v = elim (Bool-cases (ops.empty t)) [
    | inl e ↦
        let m = clause_min-Minimum ts allempty cmin v.1 in
        rw e (record {
          flag = ground (arith, m.flag, e);
          down = m.down;
          least = λ x h. m.least x (ground (arith, laws.ended t x e));
          from = λ lo low f h. m.from lo (λ x held. low x (rw held (either (laws.holds t x)))) f h;
        })
    | inr e ↦
        let c = if ltb (ops.cur_id t) cmin then ops.cur_id t else cmin in
        let m = clause_min-Minimum ts false c v.1 in
        let held = holds-cur_id laws t v.0 e in
        let le = laws.bounded t (ops.cur_id t) v.0 held in
        rw e (record {
          flag = ground (arith, m.flag, e);
          down = ground (arith, m.down);
          least = λ x h. elim (Bool-cases (any_holds laws ts x)) [
            | inl later ↦ m.least x later
            | inr none_later ↦
                let now : laws.holds t x ≡ true = ground (arith, h) in
                let ge = holds-ge laws t x v.0 now in ground (arith, m.down, ge)
          ];
          from = λ lo low f h.
              m.from lo (λ x later. low x (rw later (either (laws.holds t x)))) f
                (inr (lower lo (ops.cur_id t) cmin (low (ops.cur_id t) (rw held refl)) le h));
        })
  ]
    where
      either : (p : Bool) → (p || true) ≡ true
      either p = ground arith

      lower :
          (lo cur cmin : ℕ)
          → lo ≤ cur
          → cur ≤ limit
          → ((allempty ≡ true) × (limit ≤ cmin)) ⊎ (lo ≤ cmin)
          → lo ≤ (if ltb cur cmin then cur else cmin)
      lower lo cur cmin ge le h = ground arith

  -- What `find_max_clause` returns.
  pub record Bound (cs : List (Clause ops)) (ok : Bool) (base : ℕ) : Type 0 where
    pub missed : (x : ℕ) → ok ≡ false → in_all laws cs x ≡ false
    pub live : ok ≡ true → All (Live laws) cs
    pub below : (x : ℕ) → ok ≡ true → in_all laws cs x ≡ true → base ≤ x
    pub within : ok ≡ true → base ≤ limit
    pub from : (lo : ℕ) → ok ≡ true → All (Low laws lo) cs → is_nil cs ≡ false → lo ≤ base

  -- On well-formed clauses, 0 from `find_max_clause` means that no id is in all of them. Else each
  -- clause has a term that has not ended, no id in all of them is below `base_id`, `base_id` is an id
  -- within the limit, and it is at least any bound below all the ids.
  pub find_max_clause-Bound :
      (cs : List (Clause ops))
      → All (IsClause laws) cs
      → limit ≤ max_num_values
      → Bound cs (find_max_clause ops cs).0 (find_max_clause ops cs).1
  unfolding find_max_clause
  find_max_clause-Bound [] v fits = record {
    missed = λ x e. ground arith;
    live = λ e. tt;
    below = λ x e h. omega arith;
    within = λ e. omega arith;
    from = λ lo e low h. ground arith;
  }
  find_max_clause-Bound (c ∷ cs) v fits =
      let b = find_max_clause-Bound cs v.1 fits in
      let m = clause_min-Minimum c.terms true max_num_values v.0.0 in
      elim (Bool-cases (find_max_clause ops cs).0) [
        | inr e ↦ rw e (record {
          missed = λ x f. let z = b.missed x e in ground (arith, z);
          live = λ f. ground arith;
          below = λ x f h. ground arith;
          within = λ f. ground arith;
          from = λ lo f low h. ground arith;
        })
        | inl e ↦ elim (Bool-cases (clause_min ops c.terms true max_num_values).0) [
          | inl gone ↦
              rw (e, gone)
                (record {
                  missed = λ x f. let z = none_held c.terms x (sym m.flag ∙ gone) in rw z refl;
                  live = λ f. ground arith;
                  below = λ x f h. ground arith;
                  within = λ f. ground arith;
                  from = λ lo f low h. ground arith;
                })
          | inr full ↦
              let some_live : all_empty ops c.terms ≡ false = sym m.flag ∙ full in
              rw (e, full)
                (record {
                  missed = λ x f. ground arith;
                  live = λ f. (some_live, b.live e);
                  below = λ x f h.
                      let parts = both (any_holds laws c.terms x) (in_all laws cs x) h in
                      larger (b.below x e parts.1) (m.least x parts.0);
                  within = λ f.
                      let (x, held, le) = some_held c.terms v.0.0 some_live in
                      larger (b.within e) (omega (arith, m.least x held));
                  from = λ lo f low h.
                      let up = m.from lo low.0 full (inl (refl, fits)) in ground (arith, up);
                })
        ]
      ]
    where
      both : (p q : Bool) → (p && q) ≡ true → (p ≡ true) × (q ≡ true)
      both p q h = ground arith

      larger : {a b m : ℕ} → a ≤ m → b ≤ m → (if ltb a b then b else a) ≤ m
      larger ha hb = ground arith
