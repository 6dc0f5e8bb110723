-- ===== src/KeyList/Tests.antt =====
-- A run of the list, and the theorem at a concrete input.
use discodb.Common.{ℕ, ◌+◌, ◌≡◌, ◌⊎◌, refl, arith, Bool, true, false, none, some, [], ◌∷◌}
use discodb.KeyList.{KeyList, list_append}
use discodb.KeyList.Contents.{Extends, contents, list_append-Extends}
use mathlib.Core.Option

abbrev always : ℕ → Bool
always n = true

-- Four elements fill the first block.
abbrev four : KeyList ℕ
four = record { size = 4; i = 4; list = λ j. 10 + j }

append_runs : Option.map contents (list_append always four 99) ≡ some (10 ∷ 11 ∷ 12 ∷ 13 ∷ 99 ∷ [])
unfolding list_append
append_runs = refl

list_append-Extends_example :
    ((n : ℕ) × (always n ≡ false) × (list_append always four 99 ≡ none))
    ⊎ ((l' : KeyList ℕ) × (list_append always four 99 ≡ some l') × Extends four 99 l')
list_append-Extends_example =
    list_append-Extends always four 99 (record { room = omega arith; fits = omega arith })
      (omega arith)
