-- ===== src/Huffman/Merge.antt =====
-- `huffman_code` ends with one tree that holds every symbol once.
use discodb.Common.{
  ℕ, zero, suc, ◌+◌, ◌%◌, ◌-◌, ◌^◌, ◌≤◌, ◌<◌, ◌≡◌, refl, ap, ◌∙◌, arith, Option, none, some, List,
  [], ◌∷◌, ◌++◌, ltb, ◌==◌, if◌then◌else◌, length, length-append, Bool-cases, inl, inr, ◌⊎◌,
  Option-cases, tests,
}
use discodb.Queue.{Queue, queue_pop, queue_peek, queue_push, queue_length}
use discodb.Queue.Contents.{
  contents, IsQueue, front, rest, length-items, queue_pop-contents, queue_push-contents,
  queue_pop-counters, queue_push-counters, queue_peek-count, queue_length_lem,
}
use discodb.Huffman.Code.{
  Tree, null, symbol, node, weight, Symbols, merge, merge_round, pop_min_weight,
}

-- How often the symbol `i` stands in a tree, in a list of trees, and among the symbols.
abbrev pub held : ℕ → Tree → ℕ
held i null = 0
held i (symbol j w) = if j == i then 1 else 0
held i (node l r w) = held i l + held i r

abbrev pub held_all : ℕ → List Tree → ℕ
held_all i [] = 0
held_all i (t ∷ ts) = held i t + held_all i ts

abbrev pub given : ℕ → Symbols → ℕ
given i [] = 0
given i ((j, w) ∷ ss) = (if j == i then 1 else 0) + given i ss

held_all-append :
    (i : ℕ) (ts us : List Tree) → held_all i (ts ++ us) ≡ held_all i ts + held_all i us
held_all-append i [] us = omega arith
held_all-append i (t ∷ ts) us = omega (arith, held_all-append i ts us)

-- A NULL is the empty tree.
abbrev pub popped : Option Tree → Tree
popped t = elim t [ none ↦ null | some t ↦ t ]

pub held-front :
    (i : ℕ) (ts : List Tree) → held i (popped (front ts)) + held_all i (rest ts) ≡ held_all i ts
held-front i [] = refl
held-front i (t ∷ ts) = refl

pub length-rest : (ts : List Tree) → length (rest ts) ≡ length ts - 1
length-rest [] = omega arith
length-rest (t ∷ ts) = omega arith

pub contents-count : (q : Queue Tree) → length (contents q) ≡ q.count
contents-count q = length-items q.q q.max q.tail q.count

-- What a pop leaves: `t` is taken from the symbols and the queue.
record Takes (symbols : Symbols) (q : Queue Tree) (t : Tree) (symbols' : Symbols) (q' : Queue Tree)
    : Type 0 where
  valid : IsQueue q'
  pushes : q'.head ≡ q.head
  size : q'.max ≡ q.max
  fewer : length symbols' + q'.count ≡ length symbols + q.count - 1
  shrunk : length symbols' ≤ length symbols
  kept :
      (i : ℕ)
      → held i t + held_all i (contents q') + given i symbols'
        ≡ held_all i (contents q) + given i symbols

from_queue :
    (symbols : Symbols) (q : Queue Tree)
    → IsQueue q
    → (length symbols ≡ 0) ⊎ (0 < q.count)
    → Takes symbols q (popped (queue_pop q).0) symbols (queue_pop q).1
from_queue symbols q v some_left =
    let p = queue_pop-contents q v in
    let h = queue_pop-counters q in
    record {
      valid = p.3;
      pushes = h.0;
      size = h.1;
      fewer = omega (
        arith,
        contents-count q,
        contents-count (queue_pop q).1,
        ap length p.2,
        length-rest (contents q),
      );
      shrunk = omega arith;
      kept = λ i.
          omega (
            arith,
            held-front i (contents q),
            ap (λ t. held i (popped t)) p.0,
            ap (held_all i) p.2,
          );
    }

from_symbols :
    (j w : ℕ) (ss : Symbols) (q : Queue Tree) → IsQueue q → Takes ((j, w) ∷ ss) q (symbol j w) ss q
from_symbols j w ss q v = record {
  valid = v;
  pushes = refl;
  size = refl;
  fewer = omega arith;
  shrunk = omega arith;
  kept = λ i. omega arith;
}

abbrev PopTakes : Symbols → Queue Tree → Type 0
PopTakes symbols q =
    (t : Tree) × (symbols' : Symbols) × (q' : Queue Tree) × (pop_min_weight symbols q
      ≡ (t, symbols', q'))
    × Takes symbols q t symbols' q'

pop_min_weight-Takes : (symbols : Symbols) (q : Queue Tree) → IsQueue q → PopTakes symbols q
unfolding pop_min_weight
pop_min_weight-Takes [] q v =
    (popped (queue_pop q).0, [], (queue_pop q).1, refl, from_queue [] q v (inl refl))
pop_min_weight-Takes ((j, w) ∷ ss) q v = elim (Option-cases (queue_peek q)) [
  | inl e ↦ (symbol j w, ss, q, rw (e, pop_min_weight) refl, from_symbols j w ss q v)
  | inr (t, e) ↦ elim (Bool-cases (ltb (weight t) w)) [
    | inl light ↦ (
      popped (queue_pop q).0,
      (j, w) ∷ ss,
      (queue_pop q).1,
      rw (e, light, pop_min_weight) refl,
      from_queue ((j, w) ∷ ss) q v (inr (queue_peek-count q t e)),
    )
    | inr heavy ↦ (symbol j w, ss, q, rw (e, heavy, pop_min_weight) refl, from_symbols j w ss q v)
  ]
]

-- A queue of one tree, which holds what the queue and the symbols of before held.
pub record Merged (symbols : Symbols) (q : Queue Tree) (q' : Queue Tree) : Type 0 where
  pub valid : IsQueue q'
  pub single : q'.count ≡ 1
  pub kept : (i : ℕ) → held_all i (contents q') ≡ held_all i (contents q) + given i symbols

abbrev joined : Tree → Tree → Tree
joined left right = node left right ((weight left + weight right) % 2 ^ 64)

-- One round: two trees are taken, and their node is pushed.
record Round (symbols : Symbols) (q : Queue Tree) (symbols' : Symbols) (q' : Queue Tree)
    : Type 0 where
  valid : IsQueue q'
  pushes : q'.head ≡ q.head + 1
  size : q'.max ≡ q.max
  fewer : length symbols' + q'.count ≡ length symbols + q.count - 1 - 1 + 1
  shrunk : length symbols' ≤ length symbols
  some_left : 0 < q'.count
  kept :
      (i : ℕ)
      → held_all i (contents q') + given i symbols' ≡ held_all i (contents q) + given i symbols

join-Round :
    (s s' s'' : Symbols) (q q' q'' : Queue Tree) (l r : Tree)
    → Takes s q l s' q'
    → Takes s' q' r s'' q''
    → q.head + 1 < 2 ^ 32
    → q''.count < q''.max
    → (p : Queue Tree) × (queue_push q'' (joined l r) ≡ some p) × Round s q s'' p
join-Round s s' s'' q q' q'' l r a b small room =
    let (p, pushed, v, more) =
      queue_push-contents q'' (joined l r) b.valid room (omega (arith, a.pushes, b.pushes)) in
    let c = queue_push-counters q'' p (joined l r) pushed in
    let count : p.count ≡ q''.count + 1 = omega (
      arith,
      contents-count p,
      contents-count q'',
      ap length more,
      length-append (contents q'') (joined l r ∷ []),
    ) in
    (
      p,
      pushed,
      record {
        valid = v;
        pushes = omega (arith, c.0, a.pushes, b.pushes);
        size = c.1 ∙ b.size ∙ a.size;
        fewer = omega (arith, a.fewer, b.fewer, count);
        shrunk = omega (arith, a.shrunk, b.shrunk);
        some_left = omega (arith, count);
        kept = λ i. omega (
          arith,
          a.kept i,
          b.kept i,
          ap (held_all i) more,
          held_all-append i (contents q'') (joined l r ∷ []),
        );
      },
    )

-- Rounds enough to join what is left, and slots enough for their nodes.
pub record Enough (fuel : ℕ) (symbols : Symbols) (q : Queue Tree) : Type 0 where
  pub valid : IsQueue q
  pub slots : q.head + fuel ≤ q.max
  pub rounds : length symbols + q.count ≤ fuel + 1
  pub first : (0 < q.count) ⊎ (length symbols ≤ fuel)
  pub some_left : 0 < length symbols + q.count

merge_round-runs :
    (s s' s'' : Symbols) (q q' q'' p : Queue Tree) (l r : Tree)
    → pop_min_weight s q ≡ (l, s', q')
    → pop_min_weight s' q' ≡ (r, s'', q'')
    → queue_push q'' (joined l r) ≡ some p
    → merge_round s q ≡ some (s'', p)
unfolding merge_round
merge_round-runs s s' s'' q q' q'' p l r first second pushed = ground arith

merge_round-Round :
    (fuel : ℕ) (symbols : Symbols) (q : Queue Tree)
    → Enough (suc fuel) symbols q
    → (s' : Symbols) × (p : Queue Tree) × (merge_round symbols q ≡ some (s', p))
      × Round symbols q s' p
merge_round-Round fuel symbols q h =
    let v = h.valid in
    let (l, s', q', first, a) = pop_min_weight-Takes symbols q h.valid in
    let (r, s'', q'', second, b) = pop_min_weight-Takes s' q' a.valid in
    let (p, pushed, round) =
      join-Round symbols s' s'' q q' q'' l r a b (omega (arith, h.slots, v.width))
        (omega (arith, b.valid.balance, b.pushes, a.pushes, b.size, a.size, h.slots)) in
    (s'', p, merge_round-runs symbols s' s'' q q' q'' p l r first second pushed, round)

Round-Enough :
    (fuel : ℕ) (symbols s' : Symbols) (q p : Queue Tree)
    → Enough (suc fuel) symbols q
    → Round symbols q s' p
    → Enough fuel s' p
Round-Enough fuel symbols s' q p h r = record {
  valid = r.valid;
  slots = omega (arith, h.slots, r.pushes, r.size);
  rounds = omega (arith, h.rounds, r.fewer, h.some_left);
  first = inl r.some_left;
  some_left = omega (arith, r.some_left);
}

abbrev pub MergeEnds : ℕ → Symbols → Queue Tree → Type 0
MergeEnds fuel symbols q =
    (q' : Queue Tree) × (merge fuel symbols q ≡ some q') × Merged symbols q q'

Merged-later :
    (symbols s' : Symbols) (q p q' : Queue Tree)
    → Round symbols q s' p
    → Merged s' p q'
    → Merged symbols q q'
Merged-later symbols s' q p q' r m = record {
  valid = m.valid;
  single = m.single;
  kept = λ i. m.kept i ∙ r.kept i;
}

pub merge-Merged :
    (fuel : ℕ) (symbols : Symbols) (q : Queue Tree)
    → Enough fuel symbols q
    → MergeEnds fuel symbols q
unfolding merge
merge-Merged zero [] q h = (
  q,
  refl,
  record {
    valid = h.valid;
    single = omega (arith, h.rounds, h.some_left);
    kept = λ i. omega arith;
  },
)
merge-Merged zero (s ∷ ss) q h =
    absurd (elim h.first [ inl c ↦ omega (arith, h.rounds) | inr c ↦ omega arith ])
merge-Merged (suc fuel) [] q h = elim (Bool-cases (ltb 1 (queue_length q))) [
  | inr one ↦ (
    q,
    rw one refl,
    record {
      valid = h.valid;
      single = omega (tests, one, queue_length_lem q, h.some_left);
      kept = λ i. omega arith;
    },
  )
  | inl many ↦
      let (s', p, done, round) = merge_round-Round fuel [] q h in
      let (end, ends, m) = merge-Merged fuel s' p (Round-Enough fuel [] s' q p h round) in
      (end, rw (many, done, merge) ends, Merged-later [] s' q p end round m)
]
merge-Merged (suc fuel) (s ∷ ss) q h =
    let (s', p, done, round) = merge_round-Round fuel (s ∷ ss) q h in
    let (end, ends, m) = merge-Merged fuel s' p (Round-Enough fuel (s ∷ ss) s' q p h round) in
    (end, rw (done, merge) ends, Merged-later (s ∷ ss) s' q p end round m)
