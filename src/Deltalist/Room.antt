-- ===== src/Deltalist/Room.antt =====
-- The search of `ddb_deltalist_append` and `grow_segment` after it: the segment that is matched never
-- has to be given up for a new one.
use discodb.Common.{ℕ, ◌≡◌, Bool, false, List, ◌∷◌, leb, if◌then◌else◌, ◌⊎◌, Option, none, some}
use discodb.Deltalist.{Segment, Deltalist, grown_size}
use mathlib.Core.Option

-- The matched segment is at the head, larger if it had no room, and the others follow as they were.
abbrev pub MatchOutcome :
    (ℕ → Bool) → Deltalist → Segment → List Segment → Option Deltalist → Type 0
MatchOutcome available d m others result =
    ((n : ℕ) × (available n ≡ false) × (result ≡ none))
    ⊎ (result
        ≡ some (record {
          segments =
              record m { size = if leb m.size m.i then grown_size m.size else m.size } ∷ others;
          min_maxval = d.min_maxval;
        }))
