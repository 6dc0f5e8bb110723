-- ===== src/Cnf/Answers.antt =====
-- The windows of `ddb_cnf_cursor_next`, one after the other.
use discodb.Common.{
  ℕ, zero, suc, ◌+◌, ◌-◌, ◌*◌, ◌^◌, ◌≤◌, ◌<◌, ◌≡◌, refl, sym, ap, ◌∙◌, arith, Bool, true, false,
  ◌&&◌, ◌||◌, ltb, leb, if◌then◌else◌, Bool-cases, inl, inr, List, [], ◌∷◌, All, fun_ext,
}
use discodb.Cnf.Window.{window_size, window_size_bytes, test_bit, isempty}
use discodb.Cnf.Window.Bits.{IsByteArray, isempty-true, isempty-false}
use discodb.Cnf.{
  TermOps, Clause, CnfCursor, find_max_clause, clause_unions, intersect_clauses, next_isect_entry,
  windows, cnf_cursor_next,
}
use discodb.Cnf.Term.{TermLaws}
use discodb.Cnf.Union.{
  any_holds, in_all, in_unions, IsClause, Low, is_nil, Unions, clause_unions-Unions,
}
use discodb.Cnf.Bound.{find_max_clause-Bound}
use discodb.Cnf.Isect.{intersect_clauses-Intersected, cursor}
use discodb.Cnf.Next.{
  pending, in_window, Drained, IsCursor, in_window-false, in_all-ge, Returned, Answer,
  next_isect_entry-Scan,
}
use mathlib.Core.Path.{subst}

module _ {ops : TermOps} {limit : ℕ} (laws : TermLaws ops limit)
    (fits : limit + window_size < 2 ^ 32) where
  any_holds-le :
      (ts : List ops.Term) (x : ℕ) → All laws.IsTerm ts → any_holds laws ts x ≡ true → x ≤ limit
  any_holds-le [] x v h = ground arith
  any_holds-le (t ∷ ts) x v h = elim (Bool-cases (laws.holds t x)) [
    | inl now ↦ laws.bounded t x v.0 now
    | inr e ↦ any_holds-le ts x v.1 (ground (arith, h, e))
  ]

  in_all-le :
      (x : ℕ) (cs : List (Clause ops))
      → All (IsClause laws) cs
      → is_nil cs ≡ false
      → in_all laws cs x ≡ true
      → x ≤ limit
  in_all-le x [] v e h = ground arith
  in_all-le x (c ∷ cs) v e h =
      any_holds-le c.terms x v.0.0 (first (any_holds laws c.terms x) (in_all laws cs x) h)
    where
      first : (p q : Bool) → (p && q) ≡ true → p ≡ true
      first p q z = ground arith

  module _ {Entry : Type 0} (failing : ℕ → Bool) (entry : ℕ → Entry)
      (never : (x : ℕ) → failing x ≡ false) where
    -- One window, with the clauses `cs` before and `cs'` after it.
    module _ (cs cs' : List (Clause ops)) (w : ℕ → ℕ) (base : ℕ) (u : Unions laws base cs cs')
        (some_clause : is_nil cs ≡ false) (below : (x : ℕ) → in_all laws cs x ≡ true → base ≤ x)
        (bits : (o : ℕ) → o < window_size → test_bit w o ≡ in_unions laws cs' o) where
      abbrev window : CnfCursor ops
      window = cursor laws cs' w 0 base

      window-bit :
          (x : ℕ) → base ≤ x → x < base + window_size → test_bit w (x - base) ≡ in_all laws cs x
      window-bit x ge lt =
          let o : base + (x - base) ≡ x = omega arith in
          bits (x - base) (omega arith) ∙ u.bits (x - base) (omega arith) ∙ ap (in_all laws cs) o

      window-pending : (x : ℕ) → pending laws fits window x ≡ in_all laws cs x
      window-pending x = elim (Bool-cases (leb base x && ltb x (base + window_size))) [
        | inl inside ↦
            let bit = window-bit x (ground arith) (ground arith) in
            ground (arith, bit, u.left x, some_clause, inside)
        | inr outside ↦ elim (Bool-cases (in_all laws cs x)) [
          | inl h ↦ let ge = below x h in ground (arith, u.left x, some_clause, outside, h)
          | inr h ↦ ground (arith, u.left x, outside, h)
        ]
      ]

      window-Answer :
          (fuel : ℕ) (nothing : Bool)
          → base ≤ limit
          → IsByteArray w
          → nothing ≡ isempty w window_size_bytes
          → (Drained laws fits window
              → Answer laws fits failing entry
                  (in_all laws cs')
                  (windows ops failing entry fuel window).0
                  (windows ops failing entry fuel window).1)
          → Answer laws fits failing entry
              (in_all laws cs)
              (if nothing
                then windows ops failing entry fuel window
                else next_isect_entry ops failing entry window).0
              (if nothing
                then windows ops failing entry fuel window
                else next_isect_entry ops failing entry window).1
      window-Answer fuel true le bytes e next =
          let drained : Drained laws fits window =
            λ o ge lt. isempty-true w window_size_bytes o (omega arith) (sym e) in
          let same : in_all laws cs' ≡ in_all laws cs =
            fun_ext
              (λ x. none_now x (in_window-false laws fits window x drained) (window-pending x)) in
          subst
            (λ P.
              Answer laws fits failing entry P (windows ops failing entry fuel window).0
                (windows ops failing entry fuel window).1)
            same (next drained)
        where
          none_now : (x : ℕ) {p q : Bool} {r : Bool} → r ≡ false → (r || p) ≡ q → p ≡ q
          none_now x e h = ground arith
      window-Answer fuel false le bytes e next =
          let is_cursor : IsCursor laws fits window = record {
            valid = u.valid;
            nonempty = u.shape ∙ some_clause;
            ahead = inr (le, u.low);
          } in
          elim (next_isect_entry-Scan laws fits failing entry window is_cursor never) [
            | inl (none_left, out, drained, same) ↦
                let (o, lt, bit) = isempty-false w window_size_bytes bytes (sym e) in
                let at : base + o - base ≡ o = omega arith in
                let bit' : test_bit w (base + o - base) ≡ true = rw at bit in
                let clear = out (base + o) in ground (arith, bit', clear)
            | inr (x, returned) ↦ inr (
              x,
              subst
                  (λ P.
                    Returned laws fits failing entry P (next_isect_entry ops failing entry window).0
                      (next_isect_entry ops failing entry window).1 x)
                  (fun_ext window-pending) returned,
            )
          ]

    windows-Answer :
        (fuel lo : ℕ) (cnf : CnfCursor ops)
        → All (IsClause laws) cnf.clauses
        → is_nil cnf.clauses ≡ false
        → Drained laws fits cnf
        → All (Low laws lo) cnf.clauses
        → limit < lo + fuel * window_size
        → Answer laws fits failing entry
            (in_all laws cnf.clauses)
            (windows ops failing entry fuel cnf).0
            (windows ops failing entry fuel cnf).1
    unfolding windows
    windows-Answer zero lo cnf v e d low enough = inl (record {
      nothing = refl;
      before = ended;
      after = λ x. let z = in_window-false laws fits cnf x d in let y = ended x in rw (z, y) refl;
      valid = record { valid = v; nonempty = e; ahead = inl d };
    })
      where
        ended : (x : ℕ) → in_all laws cnf.clauses x ≡ false
        ended x = elim (Bool-cases (in_all laws cnf.clauses x)) [
          | inr h ↦ h
          | inl h ↦
              let le = in_all-le x cnf.clauses v e h in
              let ge = in_all-ge laws fits lo x cnf.clauses low e h in absurd (omega arith)
        ]
    windows-Answer (suc fuel) lo cnf v e d low enough =
        let b = find_max_clause-Bound laws cnf.clauses v (omega arith) in
        elim (Bool-cases (find_max_clause ops cnf.clauses).0) [
          | inr gone ↦ rw gone (
              inl (record {
                nothing = refl;
                before = λ x. b.missed x gone;
                after = λ x.
                    rw
                      (
                        in_window-false laws fits
                            (record cnf { base_id = (find_max_clause ops cnf.clauses).1 }) x d,
                        b.missed x gone,
                      )
                      refl;
                valid = record { valid = v; nonempty = e; ahead = inl d };
              }))
          | inl found ↦
              let base = (find_max_clause ops cnf.clauses).1 in
              let le = b.within found in
              let (live, u) =
                clause_unions-Unions laws base (omega arith) cnf.clauses v (b.live found) in
              let cs' = (clause_unions ops base cnf.clauses).1 in
              let (w, i) =
                intersect_clauses-Intersected laws cs' cnf.isect cnf.isect_offset base u.valid
                  (u.shape ∙ e) in
              let up = b.from lo found low e in
              let next =
                window-Answer cnf.clauses cs' w base u e (λ x h. b.below x found h) i.bits fuel
                  (intersect_clauses ops (cursor laws cs' cnf.isect cnf.isect_offset base)).0 le
                  i.bytes i.flag
                  (λ drained.
                    windows-Answer fuel (base + window_size) (cursor laws cs' w 0 base) u.valid
                      (u.shape ∙ e) drained u.low (omega arith)) in
              rw (found, live)
                (subst
                  (λ k.
                    Answer laws fits failing entry (in_all laws cnf.clauses)
                      (if (intersect_clauses ops
                          (cursor laws cs' cnf.isect cnf.isect_offset base)).0
                        then windows ops failing entry fuel k
                        else next_isect_entry ops failing entry k).0
                      (if (intersect_clauses ops
                          (cursor laws cs' cnf.isect cnf.isect_offset base)).0
                        then windows ops failing entry fuel k
                        else next_isect_entry ops failing entry k).1)
                  (sym i.state) next)
        ]

    -- On a well-formed cursor whose terms visit ids up to `limit`, with `limit + 1024 < 2 ^ 32`, no
    -- failure to fetch a string, and rounds for all windows up to `limit`, a call of
    -- `ddb_cnf_cursor_next` returns the least id that is still to come, and what is still to come
    -- is then what is above it; or it returns NULL, and none is nor was to come. The ids to come are
    -- those left in the window and those that some term of each clause is still to visit. The cursor
    -- stays well-formed.
    pub cnf_cursor_next-Answer :
        (fuel : ℕ) (cnf : CnfCursor ops)
        → IsCursor laws fits cnf
        → limit < fuel * window_size
        → Answer laws fits failing entry
            (pending laws fits cnf)
            (cnf_cursor_next ops failing entry fuel cnf).0
            (cnf_cursor_next ops failing entry fuel cnf).1
    unfolding cnf_cursor_next
    cnf_cursor_next-Answer fuel cnf v enough =
        elim (next_isect_entry-Scan laws fits failing entry cnf v never) [
          | inr (x, r) ↦
              rw (r.result, cnf_cursor_next)
                (inr (
                  x,
                  record {
                    result = refl;
                    member = r.member;
                    after = r.after;
                    least = r.least;
                    valid = r.valid;
                  },
                ))
          | inl (none_left, out, drained, same) ↦
              let cnf' = (next_isect_entry ops failing entry cnf).1 in
              let answer =
                windows-Answer fuel 0 cnf' (subst (All (IsClause laws)) (sym same) v.valid)
                  (ap is_nil same ∙ v.nonempty) drained (low_zero cnf'.clauses) (omega arith) in
              let to_come : in_all laws cnf'.clauses ≡ pending laws fits cnf =
                ap (in_all laws) same ∙ fun_ext (λ x. sym (none_now x (out x))) in
              rw (none_left, cnf_cursor_next)
                (subst
                  (λ P.
                    Answer laws fits failing entry P (windows ops failing entry fuel cnf').0
                      (windows ops failing entry fuel cnf').1)
                  to_come answer)
        ]
      where
        low_zero : (cs : List (Clause ops)) → All (Low laws 0) cs
        low_zero [] = tt
        low_zero (c ∷ cs) = (λ x h. omega arith, low_zero cs)

        none_now :
            (x : ℕ)
            → in_window laws fits cnf x ≡ false
            → pending laws fits cnf x ≡ in_all laws cnf.clauses x
        none_now x h = rw h refl
