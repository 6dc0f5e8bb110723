-- ===== src/Queue/Contents.antt =====
-- The queue as the list of its elements, first in first.
use discodb.Common.{
  ℕ, zero, suc, ◌+◌, ◌-◌, ◌%◌, ◌^◌, ◌*◌, ◌⊎◌, Bool, ◌≤◌, ◌<◌, ◌≡◌, ◌≢◌, refl, sym, ap, ◌∙◌, arith,
  true, false, Option, none, some, ◌==◌, update, List, [], ◌∷◌, ◌++◌, length, Bool-cases, inl, inr,
}
use discodb.Queue.{
  Queue, queue_new, queue_push, queue_pop, queue_peek, queue_length, sizeof_queue, sizeof_pointer,
}
use native.Mathlib.Nat.{div-add-mod}
use mathlib.Core.Path.{subst}

-- Two counters less than `m` apart are at different slots.
slots_differ : (m a b : ℕ) → a < b → b < a + m → a % m ≢ b % m
slots_differ m a b lt near same = let x = div-add-mod a m in let y = div-add-mod b m in grind arith

module _ {A : Type 0} where
  -- The `n` elements from the counter `t` on.
  abbrev pub items : (ℕ → A) → ℕ → ℕ → ℕ → List A
  items q m t zero = []
  items q m t (suc n) = q (t % m) ∷ items q m (t + 1) n

  abbrev pub contents : Queue A → List A
  contents s = items s.q s.max s.tail s.count

  pub record IsQueue (s : Queue A) : Type 0 where
    pub nonempty : 0 < s.max
    pub room : s.count ≤ s.max
    pub width : s.max < 2 ^ 32
    pub balance : s.head ≡ s.tail + s.count
    pub small : s.head < 2 ^ 32

  items-push :
      (q : ℕ → A) (m t n : ℕ) (e : A)
      → n < m
      → items (update q ((t + n) % m) e) m t (suc n) ≡ items q m t n ++ (e ∷ [])
  items-push q m t zero e lt =
      let here : ((t + 0) % m == t % m) ≡ true = ground arith in rw here refl
  items-push q m t (suc n) e lt =
      let ne = slots_differ m t (t + suc n) (omega arith) (omega arith) in
      let other : ((t + suc n) % m == t % m) ≡ false = ground (arith, ne) in
      let same : t + 1 + n ≡ t + suc n = omega arith in
      rw other (
        ap (λ l. q (t % m) ∷ l)
          (subst
            (λ (k : ℕ).
              items (update q (k % m) e) m (t + 1) (suc n) ≡ items q m (t + 1) n ++ (e ∷ []))
            same (items-push q m (t + 1) n e (omega arith))))

  pub length-items : (q : ℕ → A) (m t n : ℕ) → length (items q m t n) ≡ n
  length-items q m t zero = refl
  length-items q m t (suc n) = ap suc (length-items q m (t + 1) n)

  -- On a well-formed queue that is not full and has had fewer than 2 ^ 32 - 1 pushes,
  -- `ddb_queue_push` puts the element after the others, and the queue stays well-formed.
  pub queue_push-contents :
      (s : Queue A) (e : A)
      → IsQueue s
      → s.count < s.max
      → s.head + 1 < 2 ^ 32
      → (s' : Queue A) × (queue_push s e ≡ some s')
        × IsQueue s'
        × (contents s' ≡ contents s ++ (e ∷ []))
  unfolding queue_push
  queue_push-contents s e v lt more =
      let full : (s.max == s.count) ≡ false = ground arith in
      let up : (s.head + 1) % 2 ^ 32 ≡ s.head + 1 = omega arith in
      let one_more : (s.count + 1) % 2 ^ 32 ≡ suc s.count = omega arith in
      (
        record s {
          q = update s.q (s.head % s.max) e;
          head = (s.head + 1) % 2 ^ 32;
          count = (s.count + 1) % 2 ^ 32;
        },
        rw full refl,
        record {
          nonempty = v.nonempty;
          room = omega arith;
          width = v.width;
          balance = omega arith;
          small = omega arith;
        },
        ap (λ (n : ℕ). items (update s.q (s.head % s.max) e) s.max s.tail n) one_more
            ∙ ap (λ (h : ℕ). items (update s.q (h % s.max) e) s.max s.tail (suc s.count)) v.balance
            ∙ items-push s.q s.max s.tail s.count e lt,
      )

  abbrev pub front : List A → Option A
  front [] = none
  front (x ∷ xs) = some x

  abbrev pub rest : List A → List A
  rest [] = []
  rest (x ∷ xs) = xs

  -- On a well-formed queue `ddb_queue_pop` returns the first element, NULL if there is none, as
  -- `ddb_queue_peek` does, and leaves the others in a well-formed queue.
  pub queue_pop-contents :
      (s : Queue A)
      → IsQueue s
      → ((queue_pop s).0 ≡ front (contents s))
        × (queue_peek s ≡ front (contents s))
        × (contents (queue_pop s).1 ≡ rest (contents s))
        × IsQueue (queue_pop s).1
  unfolding queue_pop queue_peek
  queue_pop-contents s v = elim (Bool-cases (s.count == 0)) [
    | inl e ↦
        let zero_count : s.count ≡ 0 = ground arith in
        let none_left : items s.q s.max s.tail s.count ≡ [] =
          ap (items s.q s.max s.tail) zero_count in
        rw e (
          ap front (sym none_left),
          ap front (sym none_left),
          none_left ∙ ap rest (sym none_left),
          v,
        )
    | inr e ↦
        let split : s.count ≡ suc (s.count - 1) = ground arith in
        let up : (s.tail + 1) % 2 ^ 32 ≡ s.tail + 1 = ground arith in
        let first : items s.q s.max s.tail s.count
            ≡ s.q (s.tail % s.max) ∷ items s.q s.max (s.tail + 1) (s.count - 1) =
          ap (items s.q s.max s.tail) split in
        rw e (
          ap front (sym first),
          ap front (sym first),
          ap (λ (t : ℕ). items s.q s.max t (s.count - 1)) up ∙ ap rest (sym first),
          record {
            nonempty = v.nonempty;
            room = omega arith;
            width = v.width;
            balance = omega arith;
            small = v.small;
          },
        )
  ]

  pub queue_pop-counters :
      (s : Queue A) → ((queue_pop s).1.head ≡ s.head) × ((queue_pop s).1.max ≡ s.max)
  unfolding queue_pop
  queue_pop-counters s = ground arith

  pub queue_push-counters :
      (s s' : Queue A) (e : A)
      → queue_push s e ≡ some s'
      → (s'.head ≡ (s.head + 1) % 2 ^ 32) × (s'.max ≡ s.max)
  unfolding queue_push
  queue_push-counters s s' e h = ground arith

  pub queue_peek-count : (s : Queue A) (e : A) → queue_peek s ≡ some e → 0 < s.count
  unfolding queue_peek
  queue_peek-count s e h = ground arith

  -- A queue that has not had a push.
  pub record IsNew (n : ℕ) (s : Queue A) : Type 0 where
    pub valid : IsQueue s
    pub unused : s.head ≡ 0
    pub size : s.max ≡ n
    pub none_left : s.count ≡ 0

  pub queue_new-IsNew :
      (available : ℕ → Bool) (junk : ℕ → A) (n : ℕ)
      → 0 < n
      → n < 2 ^ 32
      → ((m : ℕ) × (available m ≡ false) × (queue_new available junk n ≡ none))
        ⊎ ((s : Queue A) × (queue_new available junk n ≡ some s) × IsNew n s)
  unfolding queue_new
  queue_new-IsNew available junk n pos small =
      let some_slots : (n == 0) ≡ false = ground arith in
      elim (Bool-cases (available sizeof_queue)) [
        | inr refused ↦ inl (sizeof_queue, refused, rw (some_slots, refused) refl)
        | inl met ↦ elim (Bool-cases (available (n * sizeof_pointer))) [
          | inr refused ↦ inl (n * sizeof_pointer, refused, rw (some_slots, met, refused) refl)
          | inl slots ↦ inr (
            record { q = junk; max = n; head = 0; tail = 0; count = 0 },
            rw (some_slots, met, slots) refl,
            record {
              valid = record {
                nonempty = pos;
                room = omega arith;
                width = small;
                balance = refl;
                small = omega arith;
              };
              unused = refl;
              size = refl;
              none_left = refl;
            },
          )
        ]
      ]

  pub queue_length_lem : (s : Queue A) → queue_length s ≡ s.count
  unfolding queue_length
  queue_length_lem s = refl
