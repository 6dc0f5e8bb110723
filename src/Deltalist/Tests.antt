-- ===== src/Deltalist/Tests.antt =====
-- Runs of the list of segments, and the theorems at concrete inputs.
use discodb.Common.{
  ℕ, ◌≡◌, ◌≤◌, ◌∷◌, refl, arith, [], Bool, true, false, some, none, ◌⊎◌, ◌==◌, if◌then◌else◌, ◌++◌,
}
use discodb.Deltalist.{
  Segment, Deltalist, Values, put, put_head, find_match, grown_size, new_segment, segment_full,
  grow_segment, matching_segment, make_room, append, decode, decode_loop, decode_all, num_values,
  grow_values, to_array, add_usage, mem_usage, uint32_max, uint16_max,
}
use discodb.Deltalist.Sizes.{IsSize}
use discodb.Deltalist.Decoding.{IsSegment}
use discodb.Deltalist.Append.{IsValid, contents, Outcome, Appends, append-Appends}
use discodb.Deltalist.ToArray.{
  Returns, to_array-Returns, append_all, append_all-Outcome, none_below_min, mem_usage-le,
}
use mathlib.Core.List.{Perm}
use mathlib.Core.Option

abbrev always : ℕ → Bool
always n = true

abbrev blank : Deltalist
blank = record { segments = []; min_maxval = uint32_max }

-- The ids 5 and 7, in one segment.
abbrev pair : Segment
pair = record { maxval = 7; i = 2; size = 4; deltas = λ j. if j == 0 then 2 else 0 }

abbrev two : Deltalist
two = record { segments = pair ∷ []; min_maxval = 5 }

pair-IsSegment : IsSegment pair
pair-IsSegment = record {
  size = IsSize.power 0 (omega arith) refl;
  nonempty = omega arith;
  room = omega arith;
  small = omega arith;
  total = omega arith;
  rising = λ j p. ground arith;
}

two-IsValid : IsValid two
two-IsValid = record {
  segments = (pair-IsSegment, tt);
  lower = (omega arith, tt);
  bounded = omega arith;
}

program : Unit {0}
unfolding put put_head find_match grown_size new_segment segment_full grow_segment matching_segment
    make_room append decode decode_loop decode_all num_values grow_values to_array add_usage
    mem_usage append_all Option.bind
program = tt

-- Two ids close together share a segment; one out of order opens another.
append_runs :
    Option.map contents (append_all always (5 ∷ 7 ∷ 3 ∷ 9 ∷ 70000 ∷ []) blank)
    ≡ some (70000 ∷ 9 ∷ 3 ∷ 7 ∷ 5 ∷ [])
unfolding program
append_runs = refl

append-Appends_example : Outcome always (append always two 9) (Appends always 9 two)
append-Appends_example = append-Appends always 9 two two-IsValid (omega arith)

append_all-Outcome_example :
    Outcome always
      (append_all always (9 ∷ 3 ∷ []) two)
      (λ d'. IsValid d' × Perm (contents d') ((9 ∷ 3 ∷ []) ++ contents two))
append_all-Outcome_example =
    append_all-Outcome always (9 ∷ 3 ∷ []) two two-IsValid (omega arith, (omega arith, tt))

to_array-Returns_example :
    ((n : ℕ) × (always n ≡ false) × (to_array always two 1 ≡ none))
    ⊎ ((r : Values) × (to_array always two 1 ≡ some r) × Returns two r)
to_array-Returns_example = to_array-Returns always two 1 two-IsValid

none_below_min_example : find_match 4 two.segments ≡ none
none_below_min_example = none_below_min 4 two two-IsValid (omega arith)

mem_usage-le_example : (mem_usage two).used ≤ (mem_usage two).alloc
mem_usage-le_example = mem_usage-le two two-IsValid

-- The same ids in a segment of the largest size.
abbrev large : Segment
large = record { maxval = 7; i = 2; size = uint16_max; deltas = λ j. if j == 0 then 2 else 0 }

abbrev one : Deltalist
one = record { segments = large ∷ []; min_maxval = 7 }
