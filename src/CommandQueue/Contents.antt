-- ===== src/CommandQueue/Contents.antt =====
-- The queue of erlang/c_src/queue.c is a FIFO of the items in its chain.
use discodb.Common.{
  ℕ, ◌+◌, ◌-◌, ◌%◌, ◌^◌, ◌<◌, true, inl, inr, ◌⊎◌, ◌≡◌, refl, sym, ap, ◌∙◌, arith, false, Option,
  none, some, List, [], ◌∷◌, ◌++◌, ◌==◌, length, ==_refl,
}
use mathlib.Core.List.{Perm}
use mathlib.Core.Path.{subst}
use discodb.CommandQueue.{
  CommandQueue, Received, waits, received, set_next, push, take_entry, pop, Condition, is_size,
  pushed, add_entry, wake,
}
use discodb.CommandQueue.Chain.{Fresh, same, Linked-update, add_entry-IsQueue, IsQueue}

-- No thread slept, or one of those that slept was woken.
abbrev pub Woken : List ℕ → Option ℕ → List ℕ → Type 0
Woken before woken after =
    ((before ≡ []) × (woken ≡ none) × (after ≡ []))
    ⊎ ((u : ℕ) × (woken ≡ some u) × Perm (u ∷ after) before)

module _ {A : Type 0} where
  module _ (cond : Condition) where
    record Wakes (q : CommandQueue A) (r : Option ℕ × CommandQueue A) : Type 0 where
      threads : Woken q.sleeping r.0 r.1.sleeping
      same : r.1 ≡ record q { sleeping = r.1.sleeping }

    wake-Wakes : (q : CommandQueue A) → Wakes q (wake cond q)
    unfolding wake
    wake-Wakes q = elim (cond.signal_lem q.sleeping) [
      | inl (empty, e) ↦ rw (e, wake) (record { threads = inl (empty, refl, empty); same = refl })
      | inr (u, others, e, perm) ↦
          rw (e, wake) (record { threads = inr (u, refl, perm); same = refl })
    ]

    sleeping-add_entry :
        (q : CommandQueue A) (a : ℕ) (x : A) → (add_entry a q x).sleeping ≡ q.sleeping
    unfolding add_entry
    sleeping-add_entry q a x = refl

    awake-IsQueue :
        (q : CommandQueue A) (threads : List ℕ) (cells : List (ℕ × A))
        → IsQueue q cells
        → IsQueue (record q { sleeping = threads }) cells
    awake-IsQueue q threads cells is = record {
      linked = is.linked;
      tail = is.tail;
      counted = is.counted;
      separate = is.separate;
      few = is.few;
    }

    push-pushed :
        (q : CommandQueue A) (a : ℕ) (x : A)
        → q.length < 2 ^ 31 - 1
        → push cond (some a) q x
          ≡ pushed (wake cond (add_entry a q x)).0 (wake cond (add_entry a q x)).1
    unfolding push
    push-pushed q a x small =
        let size : is_size q.length ≡ true = ground (arith, small) in
        let room : (q.length == 2 ^ 31 - 1) ≡ false = ground (arith, small) in rw (size, room) refl

    -- With memory for it, an item that is pushed to a well-formed queue of fewer than 2 ^ 31 - 1 items,
    -- at an address that none of them has, goes behind the others, and the queue stays well-formed; no
    -- assertion fails, and if threads sleep, one of them is woken.
    pub push-IsQueue :
        (q : CommandQueue A) (cells : List (ℕ × A)) (a : ℕ) (x : A)
        → IsQueue q cells
        → Fresh a cells
        → length cells + 1 < 2 ^ 31
        → (woken : Option ℕ) × (q' : CommandQueue A) × (push cond (some a) q x ≡ pushed woken q')
          × IsQueue q' (cells ++ ((a, x) ∷ []))
          × Woken q.sleeping woken q'.sleeping
    push-IsQueue q cells a x is f few =
        let r = wake cond (add_entry a q x) in
        let w = wake-Wakes (add_entry a q x) in
        (
          r.0,
          r.1,
          push-pushed q a x (omega (arith, is.counted)),
          subst (λ (k : CommandQueue A). IsQueue k (cells ++ ((a, x) ∷ []))) (sym w.same)
              (awake-IsQueue (add_entry a q x) r.1.sleeping (cells ++ ((a, x) ∷ []))
                (add_entry-IsQueue q cells a x is f few)),
          subst (λ (ts : List ℕ). Woken ts r.0 r.1.sleeping) (sleeping-add_entry q a x) w.threads,
        )

  -- The queue without its head, the item at `a`.
  abbrev without : CommandQueue A → ℕ → Option ℕ → Option ℕ → CommandQueue A
  without q a next tail = record q {
    heap = set_next q.heap a none;
    head = next;
    tail = tail;
    length = (q.length + 2 ^ 32 - 1) % 2 ^ 32;
  }

  pop-take_entry :
      (thread : ℕ) (q : CommandQueue A) (a : ℕ) (next : Option ℕ)
      → q.head ≡ some a
      → (q.heap a).next ≡ next
      → q.length < 2 ^ 31
      → pop thread q ≡ take_entry q a next
  unfolding pop
  pop-take_entry thread q a next head e small =
      let size : is_size q.length ≡ true = ground (arith, small) in
      let first : pop thread q ≡ take_entry q a (q.heap a).next = ground arith in
      first ∙ ap (take_entry q a) e

  take_entry-last :
      (q : CommandQueue A) (a : ℕ)
      → q.tail ≡ some a
      → take_entry q a none ≡ received (q.heap a).data_ (without q a none none)
  unfolding take_entry
  take_entry-last q a tail = rw (tail, ==_refl a, take_entry) refl

  take_entry-more :
      (q : CommandQueue A) (a b : ℕ)
      → take_entry q a (some b) ≡ received (q.heap a).data_ (without q a (some b) q.tail)
  unfolding take_entry
  take_entry-more q a b = refl

  abbrev pub PopOutcome : ℕ → CommandQueue A → List (ℕ × A) → Received A → Type 0
  PopOutcome thread q [] r = r ≡ waits (record q { sleeping = thread ∷ q.sleeping })
  PopOutcome thread q ((a, x) ∷ rest) r =
      (q' : CommandQueue A) × (r ≡ received x q') × IsQueue q' rest × (q'.sleeping ≡ q.sleeping)

  -- On a well-formed queue without items the thread that calls `queue_pop` waits, and nothing else
  -- changes; on any other the call returns the first item and leaves the others in a well-formed queue,
  -- and no assertion fails.
  pub pop-Outcome :
      (thread : ℕ) (q : CommandQueue A) (cells : List (ℕ × A))
      → IsQueue q cells
      → PopOutcome thread q cells (pop thread q)
  unfolding pop
  pop-Outcome thread q [] is =
      let first : pop thread q ≡ waits (record q { sleeping = thread ∷ q.sleeping }) =
        ground arith in
      first
  pop-Outcome thread q ((a, x) ∷ []) is = (
    without q a none none,
    pop-take_entry thread q a none is.linked.0 is.linked.2 (omega (arith, is.counted, is.few))
        ∙ take_entry-last q a is.tail
        ∙ ap (λ (v : A). received v (without q a none none)) is.linked.1,
    record {
      linked = refl;
      tail = refl;
      counted = omega (arith, is.counted);
      separate = tt;
      few = omega arith;
    },
    refl,
  )
  pop-Outcome thread q ((a, x) ∷ (b, y) ∷ rest) is = (
    without q a (some b) q.tail,
    pop-take_entry thread q a (some b) is.linked.0 is.linked.2.0 (omega (arith, is.counted, is.few))
        ∙ take_entry-more q a b
        ∙ ap (λ (v : A). received v (without q a (some b) q.tail)) is.linked.1,
    record {
      linked =
          Linked-update q.heap a _ (some b) ((b, y) ∷ rest) is.separate.0
            (refl, is.linked.2.1, is.linked.2.2);
      tail = is.tail;
      counted = omega (arith, is.counted, is.few);
      separate = is.separate.1;
      few = omega (arith, is.few);
    },
    refl,
  )

  -- A thread that calls `queue_pop` on a well-formed queue without items sleeps. The next push wakes a
  -- thread, that one or one that slept before; and if it is one that waits in `queue_pop`, its step then
  -- returns the item, and the queue is well-formed and without items again.
  pub pop-after_push :
      (cond : Condition) (thread : ℕ) (q : CommandQueue A) (a : ℕ) (x : A)
      → IsQueue q []
      → (q1 : CommandQueue A) × (q2 : CommandQueue A) × (q3 : CommandQueue A) × (u : ℕ) × (pop
            thread q
          ≡ waits q1)
        × (push cond (some a) q1 x ≡ pushed (some u) q2)
        × Perm (u ∷ q2.sleeping) (thread ∷ q.sleeping)
        × (pop u q2 ≡ received x q3)
        × IsQueue q3 []
        × (q3.sleeping ≡ q2.sleeping)
  pop-after_push cond thread q a x is =
      let q1 = record q { sleeping = thread ∷ q.sleeping } in
      let (woken, q2, done, is2, threads) =
        push-IsQueue cond q1 [] a x (awake-IsQueue cond q (thread ∷ q.sleeping) [] is) tt
          (omega arith) in
      elim threads [
        | inl (none_asleep, none_woken, rest) ↦
            let bad : thread ∷ q.sleeping ≡ [] = none_asleep in absurd (cc)
        | inr (u, same, perm) ↦
            let (q3, popped, is3, on) = pop-Outcome u q2 ((a, x) ∷ []) is2 in
            (
              q1,
              q2,
              q3,
              u,
              pop-Outcome thread q [] is,
              done ∙ ap (λ (w : Option ℕ). pushed w q2) same,
              perm,
              popped,
              is3,
              on,
            )
      ]
