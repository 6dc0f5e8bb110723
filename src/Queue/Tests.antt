-- ===== src/Queue/Tests.antt =====
-- Runs of the queue, and the theorems at concrete inputs.
use discodb.Common.{ℕ, ◌≡◌, refl, arith, true, some, [], ◌∷◌, ◌++◌, ◌==◌, if◌then◌else◌}
use mathlib.Core.Option
use discodb.Queue.{Queue, queue_new, queue_push, queue_pop, queue_peek}
use discodb.Queue.Contents.{IsQueue, contents, front, rest, queue_push-contents, queue_pop-contents}

-- The elements 7 and 8, in the slots 2 and 0 of three.
abbrev two : Queue ℕ
two = record { q = λ i. if i == 2 then 7 else 8; max = 3; head = 4; tail = 2; count = 2 }

two-IsQueue : IsQueue two
two-IsQueue = record {
  nonempty = omega arith;
  room = omega arith;
  width = omega arith;
  balance = refl;
  small = omega arith;
}

queue_push-contents_example :
    (s' : Queue ℕ) × (queue_push two 9 ≡ some s')
    × IsQueue s'
    × (contents s' ≡ contents two ++ (9 ∷ []))
queue_push-contents_example = queue_push-contents two 9 two-IsQueue (omega arith) (omega arith)

queue_pop-contents_example :
    ((queue_pop two).0 ≡ front (contents two))
    × (queue_peek two ≡ front (contents two))
    × (contents (queue_pop two).1 ≡ rest (contents two))
    × IsQueue (queue_pop two).1
queue_pop-contents_example = queue_pop-contents two two-IsQueue

new_runs : Option.map (contents {A = ℕ}) (queue_new (λ n. true) (λ i. 5) 3) ≡ some []
unfolding queue_new
new_runs = refl
