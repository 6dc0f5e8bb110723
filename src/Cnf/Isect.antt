-- ===== src/Cnf/Isect.antt =====
-- `intersect_clauses` and the scan of the window that it leaves.
use discodb.Common.{
  ℕ, zero, suc, ◌+◌, ◌≤◌, ◌<◌, ◌≡◌, refl, ap, ◌∙◌, arith, Bool, true, false, not, ◌&&◌, ltb, ◌==◌,
  Bool-cases, inl, inr, List, [], ◌∷◌, All,
}
use discodb.Cnf.Window.{window_size, window_size_bytes, test_bit, isempty, isect}
use discodb.Cnf.Window.Bits.{IsByteArray, test_bit-isect, isect-IsByteArray}
use discodb.Cnf.{TermOps, Clause, CnfCursor, isect_all, intersect_clauses, scan}
use discodb.Cnf.Term.{TermLaws}
use discodb.Cnf.Union.{in_unions, IsClause, is_nil}

module _ {ops : TermOps} {limit : ℕ} (laws : TermLaws ops limit) where
  isect_all-bits :
      (dst : ℕ → ℕ) (cs : List (Clause ops)) (o : ℕ)
      → o < window_size
      → test_bit (isect_all ops dst cs) o ≡ (test_bit dst o && in_unions laws cs o)
  unfolding isect_all
  isect_all-bits dst [] o lt = ground arith
  isect_all-bits dst (c ∷ cs) o lt =
      isect_all-bits (isect dst c.unionn window_size_bytes) cs o lt
      ∙ ap (λ z. z && in_unions laws cs o)
          (test_bit-isect dst c.unionn window_size_bytes o (omega arith))
      ∙ assoc (test_bit dst o) (test_bit c.unionn o) (in_unions laws cs o)
    where
      assoc : (p q r : Bool) → ((p && q) && r) ≡ (p && (q && r))
      assoc p q r = ground arith

  isect_all-IsByteArray :
      (dst : ℕ → ℕ) (cs : List (Clause ops)) → IsByteArray dst → IsByteArray (isect_all ops dst cs)
  unfolding isect_all
  isect_all-IsByteArray dst [] h = h
  isect_all-IsByteArray dst (c ∷ cs) h =
      isect_all-IsByteArray (isect dst c.unionn window_size_bytes) cs
        (isect-IsByteArray dst c.unionn window_size_bytes h)

  -- The window `w` is the intersection of those of the clauses, and the flag says that it is empty.
  pub record Intersected (cnf : CnfCursor ops) (nothing : Bool) (cnf' : CnfCursor ops) (w : ℕ → ℕ)
      : Type 0 where
    pub bytes : IsByteArray w
    pub bits : (o : ℕ) → o < window_size → test_bit w o ≡ in_unions laws cnf.clauses o
    pub flag : nothing ≡ isempty w window_size_bytes
    pub state : cnf' ≡ record cnf { isect_offset = 0; isect = w }

  abbrev pub cursor : List (Clause ops) → (ℕ → ℕ) → ℕ → ℕ → CnfCursor ops
  cursor cs w offset base = record {
    clauses = cs;
    isect = w;
    isect_offset = offset;
    base_id = base;
  }

  pub intersect_clauses-Intersected :
      (cs : List (Clause ops)) (old : ℕ → ℕ) (offset base : ℕ)
      → All (IsClause laws) cs
      → is_nil cs ≡ false
      → (w : ℕ → ℕ) × Intersected
          (cursor cs old offset base)
          (intersect_clauses ops (cursor cs old offset base)).0
          (intersect_clauses ops (cursor cs old offset base)).1
          w
  unfolding intersect_clauses
  intersect_clauses-Intersected [] old offset base v e = ground arith
  intersect_clauses-Intersected (c ∷ cs) old offset base v e = (
    isect_all ops c.unionn cs,
    record {
      bytes = isect_all-IsByteArray c.unionn cs v.0.1;
      bits = isect_all-bits c.unionn cs;
      flag = refl;
      state = refl;
    },
  )

-- Where the scan of a window stops: at its end or at the first bit from `offset` on.
pub record Scanned (w : ℕ → ℕ) (offset r : ℕ) : Type 0 where
  pub up : offset ≤ r
  pub stop : r < window_size → test_bit w r ≡ true
  pub first : (o : ℕ) → offset ≤ o → o < r → test_bit w o ≡ false

pub scan-Scanned :
    (ops : TermOps) (fuel : ℕ) (w : ℕ → ℕ) (offset : ℕ)
    → window_size ≤ offset + fuel
    → Scanned w offset (scan ops fuel w offset)
unfolding scan
scan-Scanned ops zero w offset h = record {
  up = omega arith;
  stop = λ lt. absurd (omega arith);
  first = λ o le lt. absurd (omega arith);
}
scan-Scanned ops (suc fuel) w offset h =
    elim (Bool-cases (ltb offset window_size && not (test_bit w offset))) [
      | inr e ↦ rw e (record {
        up = omega arith;
        stop = λ lt. ground arith;
        first = λ o le lt. absurd (omega arith);
      })
      | inl e ↦
          let s = scan-Scanned ops fuel w (offset + 1) (omega arith) in
          rw e (record {
            up = omega (arith, s.up);
            stop = s.stop;
            first = λ o le lt. elim (Bool-cases (o == offset)) [
              | inl same ↦ ap (test_bit w) (ground arith) ∙ clear (test_bit w offset) e
              | inr other ↦ s.first o (ground arith) lt
            ];
          })
    ]
  where
    clear : (p : Bool) → (ltb offset window_size && not p) ≡ true → p ≡ false
    clear p z = ground arith
