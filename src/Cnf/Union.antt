-- ===== src/Cnf/Union.antt =====
-- `clause_unions`: the window of each clause.
use discodb.Common.{
  ℕ, ◌+◌, ◌^◌, ◌≤◌, ◌<◌, ◌≡◌, refl, arith, Bool, true, false, ◌&&◌, ◌||◌, leb, List, [], ◌∷◌, All,
}
use discodb.Cnf.Window.{window_size, test_bit, cleared}
use discodb.Cnf.Window.Bits.{IsByteArray, test_bit-cleared}
use discodb.Cnf.{TermOps, Clause, add_term, add_terms, all_empty, clause_union, clause_unions}
use discodb.Cnf.Term.{TermLaws, add_term-Filled}

abbrev pub is_nil {ℓ} : {A : Type ℓ} → List A → Bool
is_nil [] = true
is_nil (x ∷ xs) = false

module _ {ops : TermOps} {limit : ℕ} (laws : TermLaws ops limit) where
  -- Some term of the clause is still to visit `x`.
  abbrev pub any_holds : List ops.Term → ℕ → Bool
  any_holds [] x = false
  any_holds (t ∷ ts) x = laws.holds t x || any_holds ts x

  -- Each clause is.
  abbrev pub in_all : List (Clause ops) → ℕ → Bool
  in_all [] x = true
  in_all (c ∷ cs) x = any_holds c.terms x && in_all cs x

  abbrev pub in_unions : List (Clause ops) → ℕ → Bool
  in_unions [] o = true
  in_unions (c ∷ cs) o = test_bit c.unionn o && in_unions cs o

  abbrev pub IsClause : Clause ops → Type 0
  IsClause c = All laws.IsTerm c.terms × IsByteArray c.unionn

  -- All ids of the clause are at `lo` or above.
  abbrev pub Low : ℕ → Clause ops → Type 0
  Low lo c = (x : ℕ) → any_holds c.terms x ≡ true → lo ≤ x

  abbrev pub Live : Clause ops → Type 0
  Live c = all_empty ops c.terms ≡ false

  record Added (base : ℕ) (u : ℕ → ℕ) (ts : List ops.Term) (u' : ℕ → ℕ) (ts' : List ops.Term)
      : Type 0 where
    bytes : IsByteArray u'
    valid : All laws.IsTerm ts'
    left : (x : ℕ) → any_holds ts' x ≡ (any_holds ts x && leb (base + window_size) x)
    bits : (o : ℕ) → o < window_size → test_bit u' o ≡ (test_bit u o || any_holds ts (base + o))

  -- The clauses after their windows from `base` on are taken.
  pub record Unions (base : ℕ) (cs cs' : List (Clause ops)) : Type 0 where
    pub valid : All IsClause cs'
    pub low : All (Low (base + window_size)) cs'
    pub left : (x : ℕ) → in_all cs' x ≡ (in_all cs x && (leb (base + window_size) x || is_nil cs))
    pub bits : (o : ℕ) → o < window_size → in_unions cs' o ≡ in_all cs (base + o)
    pub shape : is_nil cs' ≡ is_nil cs

  module _ (base : ℕ) (fits : base + window_size < 2 ^ 32) where
    add_terms-Added :
        (u : ℕ → ℕ) (ts : List ops.Term)
        → IsByteArray u
        → All laws.IsTerm ts
        → Added base u ts (add_terms ops base u ts).0 (add_terms ops base u ts).1
    unfolding add_terms
    add_terms-Added u [] b v = record {
      bytes = b;
      valid = tt;
      left = λ x. refl;
      bits = λ o lt. or_false (test_bit u o);
    }
      where
        or_false : (p : Bool) → p ≡ (p || false)
        or_false p = ground arith
    add_terms-Added u (t ∷ ts) b v =
        let f = add_term-Filled laws base fits u t b v.0 in
        let rest = add_terms-Added (add_term ops base u t).0 ts f.bytes v.1 in
        record {
          bytes = rest.bytes;
          valid = (f.valid, rest.valid);
          left = λ x. ground (arith, f.left x, rest.left x);
          bits = λ o lt. ground (arith, f.bits o lt, rest.bits o lt);
        }

    pub clause_unions-Unions :
        (cs : List (Clause ops))
        → All IsClause cs
        → All Live cs
        → ((clause_unions ops base cs).0 ≡ true) × Unions base cs (clause_unions ops base cs).1
    unfolding clause_unions clause_union
    clause_unions-Unions [] v live = (
      refl,
      record { valid = tt; low = tt; left = λ x. ground arith; bits = λ o lt. refl; shape = refl },
    )
    clause_unions-Unions (c ∷ cs) v live =
        let (ok, rest) = clause_unions-Unions cs v.1 live.1 in
        let a = add_terms-Added cleared c.terms (λ j. omega arith) v.0.0 in
        rw (ok, live.0)
          (
            refl,
            record {
              valid = ((a.valid, a.bytes), rest.valid);
              low = (λ x h. above x _ _ (a.left x) h, rest.low);
              left = λ x. ground (arith, a.left x, rest.left x);
              bits = λ o lt. ground (arith, a.bits o lt, rest.bits o lt, test_bit-cleared o);
              shape = refl;
            },
          )
      where
        above :
            (x : ℕ) (p q : Bool)
            → q ≡ (p && leb (base + window_size) x)
            → q ≡ true
            → base + window_size ≤ x
        above x p q e h = ground arith
