-- ===== src/Cnf/Term.antt =====
-- What the query relies on in a term, and the loops that advance it.
use discodb.Common.{
  ℕ, zero, suc, ◌+◌, ◌-◌, ◌%◌, ◌^◌, ◌≤◌, ◌<◌, ◌≡◌, ap, ◌∙◌, arith, Bool, true, false, not, ◌&&◌,
  ◌||◌, ltb, leb, ◌==◌, Bool-cases, ◌⊎◌, inl, inr,
}
use discodb.Cnf.Window.{window_size, set_bit, test_bit}
use discodb.Cnf.Window.Bits.{IsByteArray, test_bit-set_bit, set_bit-IsByteArray}
use discodb.Cnf.{TermOps, skip, fill, add_term}

-- The contract of a term: the ids that it is still to visit, the current one first, ascend.
pub record TermLaws (ops : TermOps) (limit : ℕ) : Type 1 where
  pub IsTerm : ops.Term → Type 0
  pub holds : ops.Term → ℕ → Bool
  pub next-IsTerm : (t : ops.Term) → IsTerm t → IsTerm (ops.next t)
  pub ended : (t : ops.Term) (x : ℕ) → ops.empty t ≡ true → holds t x ≡ false
  pub holds-next :
      (t : ops.Term) (x : ℕ)
      → IsTerm t
      → ops.empty t ≡ false
      → holds t x ≡ (x == ops.cur_id t || holds (ops.next t) x)
  pub ahead :
      (t : ops.Term) (x : ℕ)
      → IsTerm t
      → ops.empty t ≡ false
      → holds (ops.next t) x ≡ true
      → ops.cur_id t < x
  pub bounded : (t : ops.Term) (x : ℕ) → IsTerm t → holds t x ≡ true → x ≤ limit

module _ {ops : TermOps} {limit : ℕ} (laws : TermLaws ops limit) where
  -- The current id is the least one.
  pub holds-ge :
      (t : ops.Term) (x : ℕ)
      → laws.IsTerm t
      → laws.holds t x ≡ true
      → (ops.empty t ≡ false) × (ops.cur_id t ≤ x)
  holds-ge t x v h = elim (Bool-cases (ops.empty t)) [
    | inl e ↦ let none_held = laws.ended t x e in ground arith
    | inr e ↦ elim (Bool-cases (laws.holds (ops.next t) x)) [
      | inl later ↦ (e, omega (arith, laws.ahead t x v e later))
      | inr other ↦ let step = laws.holds-next t x v e in (e, ground arith)
    ]
  ]

  pub holds-cur_id :
      (t : ops.Term) → laws.IsTerm t → ops.empty t ≡ false → laws.holds t (ops.cur_id t) ≡ true
  holds-cur_id t v e = let step = laws.holds-next t (ops.cur_id t) v e in ground arith

  next-ahead :
      (t : ops.Term)
      → laws.IsTerm t
      → ops.empty t ≡ false
      → (ops.empty (ops.next t) ≡ true) ⊎ (ops.cur_id t < ops.cur_id (ops.next t))
  next-ahead t v e = elim (Bool-cases (ops.empty (ops.next t))) [
    | inl e' ↦ inl e'
    | inr e' ↦ inr (laws.ahead t _ v e (holds-cur_id (ops.next t) (laws.next-IsTerm t v) e'))
  ]

  -- What is left of a term from `base` on.
  pub record Advanced (base : ℕ) (t t' : ops.Term) : Type 0 where
    pub valid : laws.IsTerm t'
    pub reached : (ops.empty t' ≡ true) ⊎ (base ≤ ops.cur_id t')
    pub left : (x : ℕ) → laws.holds t' x ≡ (laws.holds t x && leb base x)

  pub stays-Advanced :
      (base : ℕ) (t : ops.Term)
      → laws.IsTerm t
      → (ops.empty t ≡ true) ⊎ (base ≤ ops.cur_id t)
      → Advanced base t t
  stays-Advanced base t v h = record {
    valid = v;
    reached = h;
    left = λ x. left x (Bool-cases (laws.holds t x));
  }
    where
      left :
          (x : ℕ)
          → (laws.holds t x ≡ true) ⊎ (laws.holds t x ≡ false)
          → laws.holds t x ≡ (laws.holds t x && leb base x)
      left x (inr e) = rw e
      left x (inl e) = let ge = holds-ge t x v e in ground (arith, h)

  stopped : (b : Bool) (c m : ℕ) → (ltb c m && not b) ≡ false → (b ≡ true) ⊎ (m ≤ c)
  stopped b c m z = ground arith

  running : (b : Bool) (c m : ℕ) → (ltb c m && not b) ≡ true → b ≡ false
  running b c m z = ground arith

  below : (b : Bool) (c m : ℕ) → (ltb c m && not b) ≡ true → c < m
  below b c m z = ground arith

  closer :
      (m fuel : ℕ) (t : ops.Term)
      → ops.empty t ≡ false
      → (ops.empty t ≡ true) ⊎ (m ≤ ops.cur_id t + suc fuel)
      → ops.cur_id t < ops.cur_id (ops.next t)
      → m ≤ ops.cur_id (ops.next t) + fuel
  closer m fuel t e z up = ground arith

  -- An id below `m` that is passed is not missed above it.
  later :
      (m x : ℕ) (t : ops.Term)
      → ops.cur_id t < m
      → laws.holds t x ≡ (x == ops.cur_id t || laws.holds (ops.next t) x)
      → (laws.holds (ops.next t) x && leb m x) ≡ (laws.holds t x && leb m x)
  later m x t lt step = ground arith

  pub skip-Advanced :
      (fuel base : ℕ) (t : ops.Term)
      → laws.IsTerm t
      → (ops.empty t ≡ true) ⊎ (base ≤ ops.cur_id t + fuel)
      → Advanced base t (skip ops fuel base t)
  unfolding skip
  skip-Advanced zero base t v h =
      stays-Advanced base t v (elim h [ inl e ↦ inl e | inr le ↦ inr (omega arith) ])
  skip-Advanced (suc fuel) base t v h =
      elim (Bool-cases (ltb (ops.cur_id t) base && not (ops.empty t))) [
        | inr stop ↦
            rw stop (stays-Advanced base t v (stopped (ops.empty t) (ops.cur_id t) base stop))
        | inl more ↦
            let e : ops.empty t ≡ false = running (ops.empty t) (ops.cur_id t) base more in
            let lt : ops.cur_id t < base = below (ops.empty t) (ops.cur_id t) base more in
            let rest =
              skip-Advanced fuel base (ops.next t) (laws.next-IsTerm t v) (elim (next-ahead t v e) [
                | inl e' ↦ inl e'
                | inr up ↦ inr (closer base fuel t e h up)
              ]) in
            rw more (record {
              valid = rest.valid;
              reached = rest.reached;
              left = λ x. rest.left x ∙ later base x t lt (laws.holds-next t x v e);
            })
      ]

  -- The window from `base` of a term, added to `u`.
  pub record Filled (base : ℕ) (u : ℕ → ℕ) (t : ops.Term) (u' : ℕ → ℕ) (t' : ops.Term)
      : Type 0 where
    pub bytes : IsByteArray u'
    pub valid : laws.IsTerm t'
    pub left : (x : ℕ) → laws.holds t' x ≡ (laws.holds t x && leb (base + window_size) x)
    pub bits : (o : ℕ) → o < window_size → test_bit u' o ≡ (test_bit u o || laws.holds t (base + o))

  module _ (base : ℕ) (fits : base + window_size < 2 ^ 32) where
    done-Filled :
        (u : ℕ → ℕ) (t : ops.Term)
        → IsByteArray u
        → laws.IsTerm t
        → (ops.empty t ≡ true) ⊎ (base + window_size ≤ ops.cur_id t)
        → Filled base u t u t
    done-Filled u t b v h = record {
      bytes = b;
      valid = v;
      left = stays.left;
      bits = λ o lt. bits o lt (stays.left (base + o));
    }
      where
        stays : Advanced (base + window_size) t t
        stays = stays-Advanced (base + window_size) t v h

        bits :
            (o : ℕ)
            → o < window_size
            → laws.holds t (base + o)
              ≡ (laws.holds t (base + o) && leb (base + window_size) (base + o))
            → test_bit u o ≡ (test_bit u o || laws.holds t (base + o))
        bits o lt e = ground (arith, e)

    pub fill-Filled :
        (fuel : ℕ) (u : ℕ → ℕ) (t : ops.Term)
        → IsByteArray u
        → laws.IsTerm t
        → (ops.empty t ≡ true) ⊎ (base ≤ ops.cur_id t)
        → (ops.empty t ≡ true) ⊎ (base + window_size ≤ ops.cur_id t + fuel)
        → Filled base u t
            (fill ops fuel base (base + window_size) u t).0
            (fill ops fuel base (base + window_size) u t).1
    unfolding fill
    fill-Filled zero u t b v h enough =
        done-Filled u t b v (elim enough [ inl e ↦ inl e | inr le ↦ inr (omega arith) ])
    fill-Filled (suc fuel) u t b v h enough =
        elim (Bool-cases (ltb (ops.cur_id t) (base + window_size) && not (ops.empty t))) [
          | inr stop ↦
              rw stop (
                done-Filled u t b v
                  (stopped (ops.empty t) (ops.cur_id t) (base + window_size) stop))
          | inl more ↦
              let e = running (ops.empty t) (ops.cur_id t) (base + window_size) more in
              let lt = below (ops.empty t) (ops.cur_id t) (base + window_size) more in
              let ge : base ≤ ops.cur_id t = elim h [ inl e' ↦ ground arith | inr le ↦ le ] in
              let d = (ops.cur_id t + 2 ^ 32 - base) % 2 ^ 32 in
              let offset : d ≡ ops.cur_id t - base = omega arith in
              let ahead = next-ahead t v e in
              let rest =
                fill-Filled fuel (set_bit u d) (ops.next t) (set_bit-IsByteArray u d b)
                  (laws.next-IsTerm t v)
                  (elim ahead [ inl e' ↦ inl e' | inr up ↦ inr (omega arith) ])
                  (elim ahead [
                    | inl e' ↦ inl e'
                    | inr up ↦ inr (closer (base + window_size) fuel t e enough up)
                  ]) in
              rw more (record {
                bytes = rest.bytes;
                valid = rest.valid;
                left =
                    λ x. rest.left x ∙ later (base + window_size) x t lt (laws.holds-next t x v e);
                bits = λ o small.
                    rest.bits o small
                    ∙ ap (λ z. z || laws.holds (ops.next t) (base + o)) (test_bit-set_bit u d o)
                    ∙ set_or d o t (test_bit u o) offset ge (laws.holds-next t (base + o) v e);
              })
        ]
      where
        set_or :
            (d o : ℕ) (t : ops.Term) (was : Bool)
            → d ≡ ops.cur_id t - base
            → base ≤ ops.cur_id t
            → laws.holds t (base + o)
              ≡ (base + o == ops.cur_id t || laws.holds (ops.next t) (base + o))
            → ((o == d || was) || laws.holds (ops.next t) (base + o))
              ≡ (was || laws.holds t (base + o))
        set_or d o t was e ge step = ground arith

    -- For a well-formed term and a window that ends below 2 ^ 32, `clause_unions` sets the bits of
    -- the ids that the term is to visit in the window, keeps the other bits, and leaves the term
    -- well-formed with the ids after the window to visit.
    pub add_term-Filled :
        (u : ℕ → ℕ) (t : ops.Term)
        → IsByteArray u
        → laws.IsTerm t
        → Filled base u t (add_term ops base u t).0 (add_term ops base u t).1
    unfolding add_term
    add_term-Filled u t b v = elim (Bool-cases (ops.empty t)) [
      | inl e ↦ rw e (done-Filled u t b v (inl e))
      | inr e ↦
          let s = skip-Advanced base base t v (inr (omega arith)) in
          let maxid : (base + window_size) % 2 ^ 32 ≡ base + window_size = omega arith in
          let f =
            fill-Filled window_size u (skip ops base base t) b s.valid s.reached
              (elim s.reached [ inl e' ↦ inl e' | inr le ↦ inr (omega arith) ]) in
          rw (e, maxid)
            (record {
              bytes = f.bytes;
              valid = f.valid;
              left = λ x.
                  f.left x
                  ∙ left (laws.holds t x) (laws.holds (skip ops base base t) x) x (s.left x);
              bits = λ o lt.
                  f.bits o lt
                  ∙ ap (λ z. test_bit u o || z)
                      (inside (laws.holds t (base + o))
                        (laws.holds (skip ops base base t) (base + o)) o (s.left (base + o)));
            })
    ]
      where
        left :
            (p q : Bool) (x : ℕ)
            → q ≡ (p && leb base x)
            → (q && leb (base + window_size) x) ≡ (p && leb (base + window_size) x)
        left p q x e = ground arith

        inside : (p q : Bool) (o : ℕ) → q ≡ (p && leb base (base + o)) → q ≡ p
        inside p q o e = ground arith
