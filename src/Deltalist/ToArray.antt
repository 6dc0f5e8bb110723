-- ===== src/Deltalist/ToArray.antt =====
-- `ddb_deltalist_to_array`: the ids of every segment, in an array that is large enough.
use discodb.Common.{
  ℕ, zero, suc, ◌+◌, ◌-◌, ◌*◌, ◌%◌, ◌^◌, ◌≤◌, ◌<◌, ◌≡◌, refl, ap, arith, tests, List, [], ◌∷◌, ◌++◌,
  All, length, length-append, ltb, Bool, true, false, not, ◌&&◌, Bool-cases, ◌⊎◌, inl, inr, Option,
  none, some,
}
use discodb.Deltalist.{
  Segment, Deltalist, Values, MemUsage, decode, decode_all, decode_loop, uint16_max, find_match,
  accepts, num_values, grow_values, values_inc, to_array, append, add_usage, mem_usage, is_full,
}
use discodb.Deltalist.Decoding.{IsSegment, sum_below}
use discodb.Deltalist.Search.{Searched, find_match-Searched}
use discodb.Deltalist.Append.{IsValid, contents, Outcome, append-Appends}
use mathlib.Core.List.{Perm, perm_middle}
use mathlib.Core.List.Perm
use mathlib.Core.Option
use mathlib.Core.Path.{subst}

-- The ids come strictly descending from `v`.
abbrev pub Descends : ℕ → List ℕ → Type 0
Descends v [] = Unit {0}
Descends v (x ∷ xs) = (x < v) × Descends x xs

length-decode_loop : (f : ℕ → ℕ) (k v : ℕ) → length (decode_loop f k v) ≡ suc k
unfolding decode_loop
length-decode_loop f zero v = refl
length-decode_loop f (suc k) v = ap suc (length-decode_loop f k _)

decode_loop-Descends :
    (f : ℕ → ℕ) (k v u : ℕ)
    → v < u
    → v < 2 ^ 32
    → sum_below f k ≤ v
    → ((j : ℕ) → j < k → 0 < f j)
    → Descends u (decode_loop f k v)
unfolding decode_loop
decode_loop-Descends f zero v u lt small total rising = (lt, tt)
decode_loop-Descends f (suc k) v u lt small total rising = (
  lt,
  decode_loop-Descends f k ((v + 2 ^ 32 - f k) % 2 ^ 32) v (omega (arith, rising k (omega arith)))
      (omega arith) (omega (arith, rising k (omega arith))) (λ j p. rising j (omega arith)),
)

-- A segment decodes to its count of ids, strictly descending, each a uint32_t.
pub decode-Descends :
    (s : Segment) → IsSegment s → (length (decode s) ≡ s.i) × Descends (2 ^ 32) (decode s)
unfolding decode
decode-Descends s h =
    let test : ltb 0 s.i ≡ true = omega (tests, h.nonempty) in
    rw test (
      omega (arith, length-decode_loop s.deltas (s.i - 1) s.maxval, h.nonempty),
      decode_loop-Descends s.deltas (s.i - 1) s.maxval (2 ^ 32) h.small h.small h.total h.rising,
    )

length-decode_all :
    (segments : List Segment)
    → All IsSegment segments
    → length (decode_all segments) ≡ num_values segments
unfolding decode_all num_values
length-decode_all [] h = refl
length-decode_all (s ∷ rest) h = omega (
  arith,
  length-append (decode s) (decode_all rest),
  decode-Descends s h.0,
  length-decode_all rest h.1,
)

grow_values-enough :
    (fuel needed size : ℕ) → needed ≤ size + fuel → needed ≤ grow_values fuel needed size
unfolding grow_values
grow_values-enough zero needed size h = omega arith
grow_values-enough (suc fuel) needed size h =
    ground (arith, grow_values-enough fuel needed (size + values_inc))

-- What a call of `to_array` on `d` returns: its ids, as many as it says, in room for them all.
pub record Returns (d : Deltalist) (r : Values) : Type 0 where
  pub ids : r.values ≡ contents d
  pub counted : length r.values ≡ r.num_values
  pub room : r.num_values ≤ r.values_size

module _ (available : ℕ → Bool) where
  -- On a valid list `ddb_deltalist_to_array` fails only when the request for a larger array does.
  -- Otherwise it returns the ids of the list, counted right, with room for them all.
  pub to_array-Returns :
      (d : Deltalist) (values_size : ℕ)
      → IsValid d
      → ((n : ℕ) × (available n ≡ false) × (to_array available d values_size ≡ none))
        ⊎ ((r : Values) × (to_array available d values_size ≡ some r) × Returns d r)
  unfolding to_array
  to_array-Returns d size v =
      let n = num_values d.segments in
      elim (Bool-cases (ltb size n && not (available (grow_values n n size * 4)))) [
        | inl failed ↦ inl (_, no_memory (ltb size n) _ failed, rw failed)
        | inr fine ↦ inr (
          _,
          rw fine,
          record {
            ids = refl;
            counted = length-decode_all d.segments v.segments;
            room = grow_values-enough n n size (omega arith);
          },
        )
      ]
    where
      no_memory : (a b : Bool) → a && not b ≡ true → b ≡ false
      no_memory a b e = ground arith

  -- The calls that `ddb_cons_add` makes on the list of a key.
  unfoldable pub append_all : List ℕ → Deltalist → Option Deltalist
  append_all [] d = some d
  append_all (e ∷ es) d = Option.bind (append available d e) (append_all es)

  -- Appending uint32_t ids in turn to a valid list fails only when a request for memory does. Otherwise the
  -- list stays valid, and holds the ids besides what it held, as a multiset.
  pub append_all-Outcome :
      (es : List ℕ) (d : Deltalist)
      → IsValid d
      → All (λ e. e < 2 ^ 32) es
      → Outcome available
          (append_all es d)
          (λ d'. IsValid d' × Perm (contents d') (es ++ contents d))
  unfolding append_all Option.bind
  append_all-Outcome [] d v small = inr (d, refl, (v, Perm.refl _))
  append_all-Outcome (e ∷ es) d v small = elim (append-Appends available e d v small.0) [
    | inl (n, failed, none_left) ↦ inl (n, failed, rw none_left)
    | inr (d1, got, (v1, same1)) ↦ elim (append_all-Outcome es d1 v1 small.1) [
      | inl (n, failed, none_left) ↦ inl (n, failed, rw (got, none_left))
      | inr (d2, got2, (v2, same2)) ↦ inr (
        d2,
        rw (got, got2),
        (
          v2,
          Perm.trans same2 (Perm.trans (Perm.append_left es same1) (perm_middle es (contents d))),
        ),
      )
    ]
  ]

pub full_unmatched :
    (e : ℕ) (d : Deltalist) (m : Segment) (others : List Segment)
    → IsValid d
    → find_match e d.segments ≡ some (m, others)
    → m.size ≡ uint16_max
    → m.i < m.size
full_unmatched e d m others v found largest =
    let h = subst (Searched e d.segments) found (find_match-Searched e d.segments) in
    let room = (h.parts IsSegment v.segments).0.room in ground (arith, h.not_full, room)

none_below :
    (e m : ℕ) (segments : List Segment)
    → e < m
    → All (λ s. m ≤ s.maxval) segments
    → find_match e segments ≡ none
unfolding find_match
none_below e m [] lt h = refl
none_below e m (s ∷ rest) lt h =
    let refused : accepts e s ≡ false = ground (arith, h.0) in
    elim (Bool-cases (is_full s)) [
      | inl full ↦ rw full
      | inr room ↦ rw (room, refused, none_below e m rest lt h.1)
    ]

-- Below `min_maxval` no segment takes the id, so that the shortcut past the search loses nothing.
pub none_below_min :
    (e : ℕ) (d : Deltalist) → IsValid d → e < d.min_maxval → find_match e d.segments ≡ none
none_below_min e d v lt = none_below e d.min_maxval d.segments lt v.lower

add_usage-le :
    (segments : List Segment) (u : MemUsage)
    → All IsSegment segments
    → u.used ≤ u.alloc
    → (add_usage segments u).used ≤ (add_usage segments u).alloc
unfolding add_usage
add_usage-le [] u h le = le
add_usage-le (s ∷ rest) u h le = let room = h.0.room in add_usage-le rest _ h.1 (ground arith)

-- The memory in use never exceeds what is allocated.
pub mem_usage-le : (d : Deltalist) → IsValid d → (mem_usage d).used ≤ (mem_usage d).alloc
unfolding mem_usage
mem_usage-le d v = add_usage-le d.segments _ v.segments (omega arith)
