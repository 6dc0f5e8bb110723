-- ===== src/Deltalist/Append.antt =====
-- `ddb_deltalist_append`: the invariant, and the multiset of ids that the list holds.
use discodb.Common.{
  ℕ, ◌+◌, ◌*◌, ◌^◌, ◌≤◌, ◌<◌, ◌≡◌, ◌≢◌, refl, sym, ap, ◌∙◌, arith, List, [], ◌∷◌, ◌++◌, All, max,
  ltb, leb, ◌==◌, Bool, true, false, Bool-cases, ◌⊎◌, inl, inr, Option, none, some, ◌||◌,
}
use discodb.Deltalist.{
  Segment, Deltalist, fresh, put, put_head, decode, decode_all, uint16_max, accepts, is_full,
  is_empty, find_match, new_segment, grow_segment, grown_size, matching_segment, make_room, append,
  sizeof_segment,
}
use discodb.Deltalist.Sizes.{IsSize, empty, IsSize-le, grown_size-IsSize}
use discodb.Deltalist.Decoding.{
  IsSegment, decode-put, put-IsSegment, decode-put_fresh, put_fresh-IsSegment,
}
use discodb.Deltalist.Search.{Searched, find_match-Searched}
use mathlib.Core.List.{Perm}
use mathlib.Core.List.Perm
use mathlib.Core.Option
use mathlib.Core.Path.{subst}

pub record IsValid (d : Deltalist) : Type 0 where
  pub segments : All IsSegment d.segments
  pub lower : All (λ s. d.min_maxval ≤ s.maxval) d.segments
  pub bounded : d.min_maxval < 2 ^ 32

abbrev pub contents : Deltalist → List ℕ
contents d = decode_all d.segments

-- The head is ready for `e`: with `e` put into it, it is a segment that holds `e` besides.
record IsReady (e : ℕ) (s : Segment) : Type 0 where
  segment : IsSegment (put e s)
  holds : decode (put e s) ≡ e ∷ decode s

maxval-put : (e : ℕ) (s : Segment) → (put e s).maxval ≡ e
unfolding put
maxval-put e s = ground arith

fresh-IsReady : (e size : ℕ) → IsSize size → e < 2 ^ 32 → IsReady e (record fresh { size = size })
fresh-IsReady e size h small = record {
  segment = put_fresh-IsSegment e (record fresh { size = size }) h refl small;
  holds = decode-put_fresh e (record fresh { size = size }) refl ∙ unfold decode in refl;
}

All-lower :
    (a b : ℕ) (segments : List Segment)
    → b ≤ a
    → All (λ s. a ≤ s.maxval) segments
    → All (λ s. b ≤ s.maxval) segments
All-lower a b [] h p = tt
All-lower a b (s ∷ rest) h p = (omega (arith, p.0), All-lower a b rest h p.1)

module _ (e : ℕ) (s : Segment) (rest : List Segment) (m : ℕ) where
  abbrev list : Deltalist
  list = record { segments = s ∷ rest; min_maxval = m }

  min-put_head : ((put_head e list).min_maxval ≤ e) × ((put_head e list).min_maxval ≤ m)
  unfolding put_head
  min-put_head = ground (arith, maxval-put e s)

  put_head-IsValid :
      IsReady e s
      → All IsSegment rest
      → All (λ s. m ≤ s.maxval) rest
      → m < 2 ^ 32
      → IsValid (put_head e list)
  put_head-IsValid ready parts lower bounded = record {
    segments = unfold put_head in (ready.segment, parts);
    lower = unfold put_head in below;
    bounded = omega (arith, min-put_head);
  }
    where
      below : All (λ t. (put_head e list).min_maxval ≤ t.maxval) (put e s ∷ rest)
      below = (
        omega (arith, min-put_head, maxval-put e s),
        All-lower m (put_head e list).min_maxval rest min-put_head.1 lower,
      )

  contents-put_head : IsReady e s → contents (put_head e list) ≡ e ∷ contents list
  unfolding put_head decode_all
  contents-put_head ready = ap (λ t. t ++ decode_all rest) ready.holds

module _ (available : ℕ → Bool) where
  -- A call that fails only when a request for memory does.
  abbrev pub Outcome : Option Deltalist → (Deltalist → Type 0) → Type 0
  Outcome result P =
      ((n : ℕ) × (available n ≡ false) × (result ≡ none))
      ⊎ ((d : Deltalist) × (result ≡ some d) × P d)

  -- `make_room` leaves the head as it is but for its size, which is then above its count.
  abbrev Roomy : Segment → List Segment → ℕ → Deltalist → Type 0
  Roomy s rest m d =
      (size : ℕ) × (d ≡ record { segments = record s { size = size } ∷ rest; min_maxval = m })
      × (s.i < size)
      × IsSize size

  make_room-Roomy :
      (s : Segment) (rest : List Segment) (m : ℕ)
      → IsSize s.size
      → s.i ≤ max 1 s.size
      → is_full s ≡ false
      → Outcome
          (make_room available (record { segments = s ∷ rest; min_maxval = m }))
          (Roomy s rest m)
  unfolding make_room grow_segment
  make_room-Roomy s rest m size room open_end = elim (Bool-cases (leb s.size s.i)) [
    | inr e ↦ inr (_, rw e, (s.size, refl, ground arith, size))
    | inl e ↦
        let ne : s.size ≢ uint16_max = ground arith in
        let grown = grown_size-IsSize size ne in
        let test : (s.size == uint16_max) ≡ false = ground arith in
        elim (Bool-cases (available (sizeof_segment + grown_size s.size * 2))) [
          | inr failed ↦ inl (_, failed, rw (e, test, failed))
          | inl met ↦
              inr (_, rw (e, test, met), (grown_size s.size, refl, omega (arith, grown), grown.0))
        ]
  ]

  -- What `append` is to achieve from `d`.
  abbrev pub Appends : ℕ → Deltalist → Deltalist → Type 0
  Appends e d d' = IsValid d' × Perm (contents d') (e ∷ contents d)

  put_head-Appends :
      (e : ℕ) (d : Deltalist) (s : Segment) (rest : List Segment) (m : ℕ)
      → IsReady e s
      → All IsSegment rest
      → All (λ t. m ≤ t.maxval) rest
      → m < 2 ^ 32
      → Perm (contents (list e s rest m)) (contents d)
      → Appends e d (put_head e (list e s rest m))
  put_head-Appends e d s rest m ready parts lower bounded same = (
    put_head-IsValid e s rest m ready parts lower bounded,
    subst (λ t. Perm t (e ∷ contents d)) (sym (contents-put_head e s rest m ready))
        (Perm.cons e same),
  )

  -- From the matched head on: room is made for the id, and it is put there.
  room_and_put :
      (e : ℕ) (d : Deltalist) (s : Segment) (rest : List Segment) (m : ℕ)
      → IsSize s.size
      → s.i ≤ max 1 s.size
      → is_full s ≡ false
      → ((size : ℕ) → s.i < size → IsSize size → IsReady e (record s { size = size }))
      → All IsSegment rest
      → All (λ t. m ≤ t.maxval) rest
      → m < 2 ^ 32
      → Perm (contents (list e s rest m)) (contents d)
      → Outcome (Option.map (put_head e) (make_room available (list e s rest m))) (Appends e d)
  unfolding decode_all decode
  room_and_put e d s rest m size room open_end ready parts lower bounded same =
      elim (make_room-Roomy s rest m size room open_end) [
        | inl (n, failed, none_left) ↦ inl (n, failed, rw none_left)
        | inr (d', got, (larger, e', gt, sized)) ↦ inr (
          put_head e (list e (record s { size = larger }) rest m),
          rw (got, e'),
          put_head-Appends e d (record s { size = larger }) rest m (ready larger gt sized) parts
              lower bounded same,
        )
      ]

  -- `append` takes the new segment at once, or the head after the search.
  append-new :
      (e : ℕ) (d : Deltalist)
      → IsValid d
      → e < 2 ^ 32
      → Outcome (Option.map (put_head e) (new_segment available d)) (Appends e d)
  unfolding new_segment
  append-new e d v small = elim (Bool-cases (available sizeof_segment)) [
    | inr failed ↦ inl (_, failed, rw failed)
    | inl met ↦ inr (
      put_head e (list e fresh d.segments d.min_maxval),
      rw met,
      put_head-Appends e d fresh d.segments d.min_maxval (fresh-IsReady e 0 (empty refl) small)
          v.segments v.lower v.bounded (unfold decode_all decode in Perm.refl _),
    )
  ]

  matched-IsReady :
      (e : ℕ) (s : Segment)
      → IsSegment s
      → accepts e s ≡ true
      → e < 2 ^ 32
      → (size : ℕ) → s.i < size
      → IsSize size
      → IsReady e (record s { size = size })
  matched-IsReady e s h a small size gt sized =
      let s' : Segment = record s { size = size } in
      let h' : IsSegment s' = record {
        size = sized;
        nonempty = h.nonempty;
        room = omega arith;
        small = h.small;
        total = h.total;
        rising = h.rising;
      } in
      record {
        segment = put-IsSegment e s' h' a small gt;
        holds = decode-put e s' h' a small (omega (arith, IsSize-le sized)) ∙ unfold decode in refl;
      }

  matching-none :
      (e : ℕ) (d : Deltalist)
      → find_match e d.segments ≡ none
      → matching_segment available d e ≡ new_segment available d
  unfolding matching_segment
  matching-none e d found = rw (found, matching_segment)

  matching-some :
      (e : ℕ) (d : Deltalist) (m : Segment) (others : List Segment)
      → find_match e d.segments ≡ some (m, others)
      → matching_segment available d e ≡ some (list e m others d.min_maxval)
  unfolding matching_segment
  matching-some e d m others found = rw (found, matching_segment)

  new_segment-met :
      (e : ℕ) (d : Deltalist)
      → available sizeof_segment ≡ true
      → new_segment available d ≡ some (list e fresh d.segments d.min_maxval)
  unfolding new_segment
  new_segment-met e d met = rw met

  new_segment-failed :
      (d : Deltalist) → available sizeof_segment ≡ false → new_segment available d ≡ none
  unfolding new_segment
  new_segment-failed d failed = rw failed

  append_after_search :
      (e : ℕ) (d : Deltalist) (o : Option (Segment × List Segment))
      → find_match e d.segments ≡ o
      → Searched e d.segments o
      → IsValid d
      → e < 2 ^ 32
      → Outcome
          (Option.map
            (put_head e)
            (Option.bind (matching_segment available d e) (make_room available)))
          (Appends e d)
  unfolding Option.bind
  append_after_search e d none found h v small = elim (Bool-cases (available sizeof_segment)) [
    | inr failed ↦ inl (_, failed, rw (matching-none e d found, new_segment-failed d failed))
    | inl met ↦
        subst (λ o. Outcome o (Appends e d)) (rw (matching-none e d found, new_segment-met e d met))
          (room_and_put e d fresh d.segments d.min_maxval (empty refl) (omega arith) refl
            (λ size gt sized. fresh-IsReady e size sized small) v.segments v.lower v.bounded
            (unfold decode_all decode in Perm.refl _))
  ]
  append_after_search e d (some (m, others)) found h v small =
      let parts = h.parts IsSegment v.segments in
      let lower = h.parts (λ t. d.min_maxval ≤ t.maxval) v.lower in
      subst (λ o. Outcome o (Appends e d)) (rw (matching-some e d m others found))
        (room_and_put e d m others d.min_maxval parts.0.size parts.0.room h.not_full
          (λ size gt sized. matched-IsReady e m parts.0 h.takes small size gt sized) parts.1 lower.1
          v.bounded (unfold decode_all in h.same))

  -- Appending a uint32_t id to a valid list fails only when a request for memory does. Otherwise the list
  -- stays valid, and holds the id besides what it held, as a multiset.
  pub append-Appends :
      (e : ℕ) (d : Deltalist)
      → IsValid d
      → e < 2 ^ 32
      → Outcome (append available d e) (Appends e d)
  unfolding append
  append-Appends e d v small = elim (Bool-cases (ltb e d.min_maxval || is_empty d.segments)) [
    | inl new ↦ rw new (append-new e d v small)
    | inr old ↦ rw old (
        append_after_search e d (find_match e d.segments) refl (find_match-Searched e d.segments) v
          small)
  ]
