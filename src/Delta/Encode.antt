-- ===== src/Delta/Encode.antt =====
-- The loop of `ddb_delta_encode` that writes the differences, as arithmetic on the buffer.
use discodb.Common.{
  ℕ, ◌+◌, ◌-◌, ◌*◌, ◌^◌, ◌≤◌, ◌<◌, ◌≡◌, refl, sym, ap, ◌∙◌, arith, Bool, true, false, ◌&&◌, ◌||◌,
  not, List, [], ◌∷◌, length, Bool-cases, inl, inr, pow-add, dec_lt,
}
use discodb.Bits.Partial.{IsPartial, IsPartial-write_bits}
use discodb.Bits.Fields.{length-write_bits}
use discodb.Delta.{Writing, write_delta, encode_step, encode_loop}
use discodb.Delta.Spec.{
  kept_after, repeats_after, diffs, packed, Climbs, kept_after-new, kept_after-repeat,
  kept_after-same, repeats_after-new, repeats_after-repeat,
}
use mathlib.Core.Path.{subst, subst₂}
use native.Mathlib.Nat.{mul_assoc}

module _ (len junk bits : ℕ) where
  -- The number after the fields `ds` are appended.
  abbrev pub appended : ℕ → ℕ → List ℕ → ℕ
  appended s offs [] = s
  appended s offs (d ∷ ds) = appended (s + 2 ^ offs * d) (offs + bits) ds

  pub appended-packed :
      (s offs : ℕ) (ds : List ℕ) → appended s offs ds ≡ s + 2 ^ offs * packed bits ds
  appended-packed s offs [] = omega arith
  appended-packed s offs (d ∷ ds) = omega (
    arith,
    appended-packed (s + 2 ^ offs * d) (offs + bits) ds,
    ap (λ (t : ℕ). t * packed bits ds) (pow-add 2 offs bits),
    mul_assoc (2 ^ offs) (2 ^ bits) (packed bits ds),
  )

  -- From `w` the loop has appended the fields `ds` and is in the state `r`.
  pub record Appended (s : ℕ) (w r : Writing) (ds : List ℕ) (repeated : Bool) : Type 0 where
    pub buffer : IsPartial len junk (appended s w.offs ds) r.offs r.buf
    pub same_length : length r.buf ≡ length w.buf
    pub end : r.offs ≡ w.offs + bits * length ds
    pub count : r.j ≡ w.j + length ds
    pub flag : r.duplicates ≡ w.duplicates || repeated

or_true : (b : Bool) → b || true ≡ true
or_true b = ground arith

module _ (len junk bits : ℕ) (unique : Bool) (small : bits ≤ 32) (pos : 0 < bits) where
  pub write_delta-Appended :
      (s v d : ℕ) (w : Writing)
      → IsPartial len junk s w.offs w.buf
      → d < 2 ^ bits
      → w.offs + bits ≤ 8 * len
      → IsPartial len junk (s + 2 ^ w.offs * d) (w.offs + bits) (write_delta bits unique d v w).buf
  unfolding write_delta
  write_delta-Appended s v d w p hd fits =
      IsPartial-write_bits len junk bits s w.offs d w.buf p hd (omega arith) pos fits

  -- What one round does after the first value.
  encode_step-skip :
      (i v : ℕ) (w : Writing)
      → 0 < i
      → v < 2 ^ 32
      → v ≡ w.prev
      → unique ≡ true
      → encode_step bits unique i v w ≡ w
  unfolding encode_step
  encode_step-skip i v w hi hv e u = ground arith

  encode_step-repeat :
      (i v : ℕ) (w : Writing)
      → 0 < i
      → v < 2 ^ 32
      → v ≡ w.prev
      → unique ≡ false
      → encode_step bits unique i v w
        ≡ write_delta bits unique (v - w.prev) v (record w { duplicates = true })
  unfolding encode_step
  encode_step-repeat i v w hi hv e u = ground arith

  encode_step-new :
      (i v : ℕ) (w : Writing)
      → 0 < i
      → v < 2 ^ 32
      → w.prev < v
      → encode_step bits unique i v w ≡ write_delta bits unique (v - w.prev) v w
  unfolding encode_step
  encode_step-new i v w hi hv e = ground arith

  abbrev pub Rounds : ℕ → List ℕ → ℕ → Writing → Type 0
  Rounds i vs s w =
      Appended len junk bits s w (encode_loop bits unique i vs w)
        (diffs w.prev (kept_after unique w.prev vs)) (not unique && repeats_after w.prev vs)

  -- The rest of the loop after a difference was written at `w`, which differs from the loop's
  -- state at most in its flag.
  after_write :
      (i v s : ℕ) (vs : List ℕ) (w : Writing) (flag : Bool) (ks : List ℕ) (repeated : Bool)
      → w.prev ≤ v
      → Appended len junk bits
          (s + 2 ^ w.offs * (v - w.prev))
          (write_delta bits unique (v - w.prev) v (record w { duplicates = flag }))
          (encode_loop bits unique i vs
            (write_delta bits unique (v - w.prev) v (record w { duplicates = flag })))
          (diffs v ks)
          repeated
      → Appended len junk bits s
          (record w { duplicates = flag })
          (encode_loop bits unique i vs
            (write_delta bits unique (v - w.prev) v (record w { duplicates = flag })))
          (diffs w.prev (v ∷ ks))
          repeated
  unfolding write_delta
  after_write i v s vs w flag ks repeated le a = record {
    buffer = a.buffer;
    same_length = a.same_length ∙ length-write_bits w.buf w.offs (v - w.prev);
    end = omega (arith, a.end);
    count = omega (arith, a.count);
    flag = a.flag;
  }

  with_flag :
      (s : ℕ) (w r : Writing) (ds : List ℕ) (b b' : Bool)
      → Appended len junk bits s (record w { duplicates = true }) r ds b
      → w.duplicates || b' ≡ true
      → Appended len junk bits s w r ds b'
  with_flag s w r ds b b' a e = record {
    buffer = a.buffer;
    same_length = a.same_length;
    end = a.end;
    count = a.count;
    flag = a.flag ∙ sym e;
  }

  flag_nil : (b : Bool) (prev : ℕ) → b ≡ b || not unique && repeats_after prev []
  unfolding repeats_after
  flag_nil b prev = ground arith

  -- What a write gives the rest of the loop.
  Ready : ℕ → List ℕ → ℕ → Writing → Type 0
  Ready v vs s w =
      (w.prev ≡ v)
      × Climbs bits w.prev vs
      × IsPartial len junk s w.offs w.buf
      × (w.offs + bits * length vs ≤ 8 * len)

  write_delta-Ready :
      (v s : ℕ) (vs : List ℕ) (w : Writing)
      → Climbs bits w.prev (v ∷ vs)
      → IsPartial len junk s w.offs w.buf
      → w.offs + bits * length (v ∷ vs) ≤ 8 * len
      → Ready v vs (s + 2 ^ w.offs * (v - w.prev)) (write_delta bits unique (v - w.prev) v w)
  unfolding write_delta Ready
  write_delta-Ready v s vs w h p fits = (
    refl,
    h.3,
    IsPartial-write_bits len junk bits s w.offs (v - w.prev) w.buf p (omega arith) (omega arith) pos
        (omega arith),
    omega arith,
  )

  loop-new :
      (i v s : ℕ) (vs : List ℕ) (w : Writing)
      → 0 < i
      → v < 2 ^ 32
      → w.prev < v
      → Rounds (i + 1) vs (s + 2 ^ w.offs * (v - w.prev)) (write_delta bits unique (v - w.prev) v w)
      → Rounds i (v ∷ vs) s w
  unfolding encode_loop write_delta
  loop-new i v s vs w hi hv lt a =
      rw
        (
          encode_step-new i v w hi hv lt,
          kept_after-new unique w.prev v vs lt,
          repeats_after-new w.prev v vs lt,
        )
        (after_write (i + 1) v s vs w w.duplicates (kept_after unique v vs)
          (not unique && repeats_after v vs) (omega arith) a)

  loop-skip :
      (i v s : ℕ) (vs : List ℕ) (w : Writing)
      → 0 < i
      → v < 2 ^ 32
      → v ≡ w.prev
      → unique ≡ true
      → Rounds (i + 1) vs s w
      → Rounds i (v ∷ vs) s w
  unfolding encode_loop
  loop-skip i v s vs w hi hv e u a = rw (encode_step-skip i v w hi hv e u) (
      subst₂
        (λ (ks : List ℕ) (rep : Bool).
          Appended len junk bits s w (encode_loop bits unique (i + 1) vs w) (diffs w.prev ks) rep)
        (sym same_kept) same_flag a)
    where
      same_kept : kept_after unique w.prev (v ∷ vs) ≡ kept_after unique w.prev vs
      same_kept = rw (u, kept_after-repeat w.prev v vs e, e)

      same_flag :
          not unique && repeats_after w.prev vs ≡ not unique && repeats_after w.prev (v ∷ vs)
      same_flag = rw u

  loop-repeat :
      (i v s : ℕ) (vs : List ℕ) (w : Writing)
      → 0 < i
      → v < 2 ^ 32
      → v ≡ w.prev
      → unique ≡ false
      → Rounds
          (i + 1)
          vs
          (s + 2 ^ w.offs * (v - w.prev))
          (write_delta bits unique (v - w.prev) v (record w { duplicates = true }))
      → Rounds i (v ∷ vs) s w
  unfolding encode_loop write_delta
  loop-repeat i v s vs w hi hv e u a = rw (encode_step-repeat i v w hi hv e u) (
      subst
        (λ (ks : List ℕ).
          Appended len junk bits s w
            (encode_loop bits unique (i + 1) vs
              (write_delta bits unique (v - w.prev) v (record w { duplicates = true })))
            (diffs w.prev ks) (not unique && repeats_after w.prev (v ∷ vs)))
        same_kept
        (with_flag s w _ _ (not unique && repeats_after v vs) _
          (after_write (i + 1) v s vs w true (kept_after unique v vs)
            (not unique && repeats_after v vs) (omega arith) a)
          (rw (u, repeats_after-repeat w.prev v vs e) (or_true w.duplicates))))
    where
      same_kept : v ∷ kept_after unique v vs ≡ kept_after unique w.prev (v ∷ vs)
      same_kept = rw (u, kept_after-same w.prev v vs)

  -- The loop after the first round writes the differences of the values that are kept.
  pub encode_loop-Appended :
      (i : ℕ) (vs : List ℕ) (s : ℕ) (w : Writing)
      → 0 < i
      → Climbs bits w.prev vs
      → IsPartial len junk s w.offs w.buf
      → w.offs + bits * length vs ≤ 8 * len
      → Rounds i vs s w
  unfolding encode_loop kept_after Ready
  encode_loop-Appended i [] s w hi h p fits = record {
    buffer = p;
    same_length = refl;
    end = omega arith;
    count = omega arith;
    flag = flag_nil w.duplicates w.prev;
  }
  encode_loop-Appended i (v ∷ vs) s w hi h p fits = elim (dec_lt w.prev v) [
    | yes lt ↦
        let r = write_delta-Ready v s vs w h p fits in
        loop-new i v s vs w hi h.2 lt
          (encode_loop-Appended (i + 1) vs _ _ (omega arith) r.1 r.2 r.3)
    | no ge ↦ elim (Bool-cases unique) [
      | inl u ↦ loop-skip i v s vs w hi h.2 (omega arith) u (
          encode_loop-Appended (i + 1) vs s w (omega arith)
            (subst (λ k. Climbs bits k vs) (omega arith) h.3) p (omega arith))
      | inr u ↦
          let r = write_delta-Ready v s vs (record w { duplicates = true }) h p fits in
          loop-repeat i v s vs w hi h.2 (omega arith) u
            (encode_loop-Appended (i + 1) vs _ _ (omega arith) r.1 r.2 r.3)
    ]
  ]
