-- ===== src/Deltalist/Search.antt =====
-- The search for a segment that takes an id.
use discodb.Common.{
  ℕ, ◌≡◌, List, [], ◌∷◌, ◌++◌, All, true, false, Bool-cases, inl, inr, Option, none, some,
}
use discodb.Deltalist.{Segment, decode, decode_all, accepts, is_full, find_match}
use mathlib.Core.List.{Perm}
use mathlib.Core.List.Perm
use mathlib.Core.List.{perm_append_comm, append_assoc}
use mathlib.Core.Option
use mathlib.Core.Path.{subst₂}

-- A segment was found and unlinked: it takes `e`, is not full, and with the others holds the same.
pub record Found (e : ℕ) (segments : List Segment) (m : Segment) (others : List Segment)
    : Type 1 where
  pub takes : accepts e m ≡ true
  pub not_full : is_full m ≡ false
  pub parts : (P : Segment → Type 0) → All P segments → P m × All P others
  pub same : Perm (decode m ++ decode_all others) (decode_all segments)

abbrev pub Searched : ℕ → List Segment → Option (Segment × List Segment) → Type 1
Searched e segments none = Unit {1}
Searched e segments (some (m, others)) = Found e segments m others

perm_swap : (a b c : List ℕ) → Perm (a ++ (b ++ c)) (b ++ (a ++ c))
perm_swap a b c =
    subst₂ (λ x y. Perm x y) (append_assoc a b c) (append_assoc b a c)
      (Perm.append_right c (perm_append_comm a b))

search_later :
    (e : ℕ) (s : Segment) (rest : List Segment) (o : Option (Segment × List Segment))
    → Searched e rest o
    → Searched e (s ∷ rest) (Option.map (λ (m, others). (m, s ∷ others)) o)
unfolding decode_all
search_later e s rest none h = tt
search_later e s rest (some (m, others)) h = record {
  takes = h.takes;
  not_full = h.not_full;
  parts = λ P p. ((h.parts P p.1).0, (p.0, (h.parts P p.1).1));
  same =
      Perm.trans (perm_swap (decode m) (decode s) (decode_all others))
        (Perm.append_left (decode s) h.same);
}

pub find_match-Searched :
    (e : ℕ) (segments : List Segment) → Searched e segments (find_match e segments)
unfolding find_match
find_match-Searched e [] = tt
find_match-Searched e (s ∷ rest) = elim (Bool-cases (is_full s)) [
  | inl full ↦ rw full tt
  | inr room ↦ elim (Bool-cases (accepts e s)) [
    | inl a ↦
        rw (room, a)
          (record {
            takes = a;
            not_full = room;
            parts = λ P p. p;
            same = unfold decode_all in Perm.refl _;
          })
    | inr r ↦ rw (room, r) (search_later e s rest (find_match e rest) (find_match-Searched e rest))
  ]
]
