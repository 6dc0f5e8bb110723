-- ===== src/Membuffer/Tests.antt =====
-- Runs of the buffer, and the theorems at concrete inputs.
use discodb.Common.{ℕ, ◌≡◌, refl, arith, Bool, true, false, List, replicate, some, [], ◌∷◌}
use discodb.Bits.{load_bytes, to_bytes}
use discodb.Membuffer.{
  Membuffer, Pointer, new_page, copy_entry, membuffer_new, emptiest, set_emptiest, copy_to,
  membuffer_copy, copy_ns, netstring, mem_usage, page_usage,
}
use discodb.Membuffer.Contents.{IsMembuffer}
use discodb.Membuffer.Copy.{CopyOutcome, copy_ns-Copied}
use discodb.Membuffer.Emptiest.{Chosen, membuffer_copy-Chosen}
use mathlib.Core.Option

abbrev always : ℕ → Bool
always n = true

program : Unit {0}
unfolding load_bytes to_bytes new_page copy_entry membuffer_new emptiest set_emptiest copy_to
    membuffer_copy copy_ns netstring mem_usage page_usage
program = tt

-- Two pages, and ten bytes free on the second one.
abbrev two : Membuffer
two = record {
  pages = record { used = 9 ∷ []; free = 2 } ∷ record { used = []; free = 10 } ∷ [];
  current = 0;
}

two-IsMembuffer : IsMembuffer two
two-IsMembuffer = record { current = omega arith; blocks = omega arith }

-- There is no room on the current page: a third one is added, which is the emptiest then.
copy_runs :
    Option.map
      (λ (r : Pointer × Membuffer). r.1.current ∷ netstring r.1 r.0)
      (copy_ns always two (5 ∷ 6 ∷ []))
    ≡ some (2 ∷ 5 ∷ 6 ∷ [])
unfolding program
copy_runs = refl

copy_ns-Copied_example : CopyOutcome always two (5 ∷ 6 ∷ []) (copy_ns always two (5 ∷ 6 ∷ []))
copy_ns-Copied_example = copy_ns-Copied always two (5 ∷ 6 ∷ []) two-IsMembuffer (omega arith)

-- The buffer after the copy of twelve bytes: the third page has the most room.
abbrev three : Membuffer
three = record {
  pages =
      record { used = 9 ∷ []; free = 2 }
      ∷ record { used = []; free = 10 }
      ∷ record { used = 5 ∷ 5 ∷ 5 ∷ 5 ∷ 5 ∷ 5 ∷ 5 ∷ 5 ∷ 5 ∷ 5 ∷ 5 ∷ 5 ∷ []; free = 10485748 }
      ∷ [];
  current = 2;
}

abbrev twelve : List ℕ
twelve = replicate 12 5

twelve_runs : membuffer_copy always two twelve false ≡ some (record { page = 2; start = 0 }, three)
unfolding program
twelve_runs = refl

membuffer_copy-Chosen_example : Chosen two three
membuffer_copy-Chosen_example =
    membuffer_copy-Chosen always two twelve false (record { page = 2; start = 0 }) three twelve_runs

-- A page of twenty million bytes counts as one of the usual size.
usage_runs :
    mem_usage (record { pages = record { used = []; free = 20000000 } ∷ []; current = 0 })
    ≡ record { alloc = 10485776; used = 16 }
unfolding program
usage_runs = refl
