-- ===== src/CommandQueue/Tests.antt =====
-- Runs of the queue of commands.
use discodb.Common.{ℕ, ◌≡◌, refl, arith, Option, none, some, List, [], ◌∷◌, inl, inr, ◌⊎◌}
use mathlib.Core.List.{Perm}
use mathlib.Core.List.Perm
use discodb.CommandQueue.{CommandQueue, Condition, waits, received, pushed, push, pop}
use discodb.CommandQueue.Chain.{IsQueue}
use discodb.CommandQueue.Contents.{PopOutcome, Woken, push-IsQueue, pop-Outcome, pop-after_push}

-- The thread that has slept least is woken.
abbrev latest : Condition
latest = record { signal = signal; signal_lem = signal_lem }
  where
    signal : List ℕ → Option (ℕ × List ℕ)
    signal [] = none
    signal (u ∷ others) = some (u, others)

    signal_lem :
        (threads : List ℕ)
        → ((threads ≡ []) × (signal threads ≡ none))
          ⊎ ((u : ℕ) × (others : List ℕ) × (signal threads ≡ some (u, others))
              × Perm (u ∷ others) threads)
    signal_lem [] = inl (refl, refl)
    signal_lem (u ∷ others) = inr (u, others, refl, Perm.refl _)

abbrev fresh : CommandQueue ℕ
fresh = record {
  heap = λ a. record { next = none; data_ = 0 };
  head = none;
  tail = none;
  length = 0;
  message = none;
  sleeping = [];
}

fresh-IsQueue : IsQueue fresh []
fresh-IsQueue = record {
  linked = refl;
  tail = refl;
  counted = refl;
  separate = tt;
  few = omega arith;
}

-- A queue with the item 5 at the address 16.
abbrev one : CommandQueue ℕ
one = record fresh {
  heap = λ a. record { next = none; data_ = 5 };
  head = some 16;
  tail = some 16;
  length = 1;
}

one-IsQueue : IsQueue one ((16, 5) ∷ [])
one-IsQueue = record {
  linked = (refl, refl, refl);
  tail = refl;
  counted = refl;
  separate = (tt, tt);
  few = omega arith;
}

push-IsQueue_example :
    (woken : Option ℕ) × (q' : CommandQueue ℕ) × (push latest (some 32) one 6 ≡ pushed woken q')
    × IsQueue q' ((16, 5) ∷ (32, 6) ∷ [])
    × Woken [] woken q'.sleeping
push-IsQueue_example =
    push-IsQueue latest one ((16, 5) ∷ []) 32 6 one-IsQueue ((λ e. omega (arith, e)), tt)
      (omega arith)

pop-Outcome_example : PopOutcome 3 one ((16, 5) ∷ []) (pop 3 one)
pop-Outcome_example = pop-Outcome 3 one ((16, 5) ∷ []) one-IsQueue

pop-after_push_example :
    (q1 : CommandQueue ℕ) × (q2 : CommandQueue ℕ) × (q3 : CommandQueue ℕ) × (u : ℕ) × (pop 3 fresh
      ≡ waits q1)
    × (push latest (some 16) q1 5 ≡ pushed (some u) q2)
    × Perm (u ∷ q2.sleeping) (3 ∷ [])
    × (pop u q2 ≡ received 5 q3)
    × IsQueue q3 []
    × (q3.sleeping ≡ q2.sleeping)
pop-after_push_example = pop-after_push latest 3 fresh 16 5 fresh-IsQueue
