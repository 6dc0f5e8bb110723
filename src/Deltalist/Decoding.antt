-- ===== src/Deltalist/Decoding.antt =====
-- What a segment holds, and what `put` does to it.
use discodb.Common.{
  ℕ, zero, suc, ◌+◌, ◌-◌, ◌%◌, ◌^◌, ◌≤◌, ◌<◌, ◌≡◌, refl, ap, ◌∙◌, arith, [], ◌∷◌, update, max, ltb,
  ◌==◌, true, false, tests,
}
use discodb.Deltalist.{Segment, put, decode, decode_loop, uint16_max, accepts}
use discodb.Deltalist.Sizes.{IsSize, IsSize-le}

abbrev pub sum_below : (ℕ → ℕ) → ℕ → ℕ
sum_below f zero = 0
sum_below f (suc n) = sum_below f n + f n

-- The representation invariant of a segment: it is not empty, its differences have room, none is
-- 0, and together they do not exceed the largest id.
pub record IsSegment (s : Segment) : Type 0 where
  pub size : IsSize s.size
  pub nonempty : 0 < s.i
  pub room : s.i ≤ max 1 s.size
  pub small : s.maxval < 2 ^ 32
  pub total : sum_below s.deltas (s.i - 1) ≤ s.maxval
  pub rising : (j : ℕ) → j < s.i - 1 → 0 < s.deltas j

decode_loop-update :
    (f : ℕ → ℕ) (k n v x : ℕ) → n ≤ k → decode_loop (update f k x) n v ≡ decode_loop f n v
unfolding decode_loop
decode_loop-update f k zero v x h = refl
decode_loop-update f k (suc n) v x h =
    let same : update f k x n ≡ f n = ground arith in
    ap (λ t. v ∷ t)
      (ap (λ (d : ℕ). decode_loop (update f k x) n ((v + 2 ^ 32 - d) % 2 ^ 32)) same
        ∙ decode_loop-update f k n ((v + 2 ^ 32 - f n) % 2 ^ 32) x (omega arith))

sum_below-update : (f : ℕ → ℕ) (k n x : ℕ) → n ≤ k → sum_below (update f k x) n ≡ sum_below f n
sum_below-update f k zero x h = refl
sum_below-update f k (suc n) x h = ground (arith, sum_below-update f k n x)

-- The segment after an accepted id, without the wrapping of the machine's arithmetic.
abbrev with_delta : ℕ → Segment → Segment
with_delta e s = record s {
  deltas = update s.deltas (s.i - 1) (e - s.maxval);
  i = s.i + 1;
  maxval = e;
}

module _ (e : ℕ) (s : Segment) where
  put-with_delta :
      0 < s.i → s.i < uint16_max → accepts e s ≡ true → e < 2 ^ 32 → put e s ≡ with_delta e s
  unfolding put
  put-with_delta pos room a small = rw (nonzero, delta, count)
    where
      nonzero : (s.i == 0) ≡ false
      nonzero = ground arith

      delta : (e + 2 ^ 32 - s.maxval) % 2 ^ 16 ≡ e - s.maxval
      delta = ground arith

      count : (s.i + 1) % 2 ^ 16 ≡ s.i + 1
      count = omega arith

  -- An accepted id is added to what the segment holds, which stays a segment.
  pub decode-put :
      IsSegment s
      → accepts e s ≡ true
      → e < 2 ^ 32
      → s.i < uint16_max
      → decode (put e s) ≡ e ∷ decode s
  unfolding decode
  decode-put h a small room =
      rw (put-with_delta h.nonempty room a small, after, index, before)
        (unfold decode_loop in ap (λ t. e ∷ t) rest)
    where
      after : ltb 0 (s.i + 1) ≡ true
      after = omega tests

      before : ltb 0 s.i ≡ true
      before = omega (tests, h.nonempty)

      index : s.i + 1 - 1 ≡ suc (s.i - 1)
      index = omega (arith, h.nonempty)

      old : (e + 2 ^ 32 - update s.deltas (s.i - 1) (e - s.maxval) (s.i - 1)) % 2 ^ 32 ≡ s.maxval
      old = ground (arith, h.small)

      rest :
          decode_loop
            (update s.deltas (s.i - 1) (e - s.maxval))
            (s.i - 1)
            ((e + 2 ^ 32 - update s.deltas (s.i - 1) (e - s.maxval) (s.i - 1)) % 2 ^ 32)
          ≡ decode_loop s.deltas (s.i - 1) s.maxval
      rest =
          ap (λ (t : ℕ). decode_loop (update s.deltas (s.i - 1) (e - s.maxval)) (s.i - 1) t) old
          ∙ decode_loop-update s.deltas (s.i - 1) (s.i - 1) s.maxval (e - s.maxval) (omega arith)

pub put-IsSegment :
    (e : ℕ) (s : Segment)
    → IsSegment s
    → accepts e s ≡ true
    → e < 2 ^ 32
    → s.i < s.size
    → IsSegment (put e s)
put-IsSegment e s h a small room =
    rw (put-with_delta e s h.nonempty (omega (arith, IsSize-le h.size)) a small) (record {
      size = h.size;
      nonempty = omega arith;
      room = omega arith;
      small = small;
      total =
          let last : update s.deltas (s.i - 1) (e - s.maxval) (s.i - 1) ≡ e - s.maxval =
            ground arith in
          let index : s.i + 1 - 1 ≡ suc (s.i - 1) = omega (arith, h.nonempty) in
          let more : s.maxval < e = ground arith in
          rw index (
            omega (
              arith,
              last,
              more,
              h.total,
              sum_below-update s.deltas (s.i - 1) (s.i - 1) (e - s.maxval) (omega arith),
            ));
      rising = λ j p. ground (arith, h.rising j);
    })

abbrev restart : ℕ → Segment → Segment
restart e s = record s { i = 1; maxval = e }

put-restart : (e : ℕ) (s : Segment) → s.i ≡ 0 → put e s ≡ restart e s
unfolding put
put-restart e s h = let first : (s.i == 0) ≡ true = ground arith in rw first

pub decode-put_fresh : (e : ℕ) (s : Segment) → s.i ≡ 0 → decode (put e s) ≡ e ∷ []
unfolding decode decode_loop
decode-put_fresh e s h = rw (put-restart e s h)

pub put_fresh-IsSegment :
    (e : ℕ) (s : Segment) → IsSize s.size → s.i ≡ 0 → e < 2 ^ 32 → IsSegment (put e s)
put_fresh-IsSegment e s h z small = rw (put-restart e s z) (record {
  size = h;
  nonempty = omega arith;
  room = omega arith;
  small = small;
  total = omega arith;
  rising = λ j p. absurd (omega arith);
})
