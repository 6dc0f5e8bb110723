-- ===== src/Cnf/Terms/Laws.antt =====
-- The terms of a query keep the contract that `ddb_cnf_cursor_next` relies on.
use discodb.Common.{
  ℕ, zero, suc, ◌+◌, ◌^◌, ◌≤◌, ◌<◌, ◌≡◌, refl, sym, ap, ◌∙◌, arith, Bool, true, false, not, ◌&&◌,
  ◌||◌, ltb, ◌==◌, Bool-cases, ◌⊎◌, inl, inr, List, [], ◌∷◌, length, drop, get_or, length-drop,
}
use discodb.Bits.{u32}
use discodb.Delta.{DeltaCursor, cursor_next, read_ids}
use discodb.Cnf.Term.{TermLaws}
use mathlib.Core.Path.{subst}
use discodb.Cnf.Terms.{
  Source, value, view, Term, ended, val_next, view_next, next, query_terms, later_ids,
}

abbrev pub mem : ℕ → List ℕ → Bool
mem x [] = false
mem x (y ∷ ys) = x == y || mem x ys

-- Strictly ascending from above `p`, up to `limit`.
abbrev pub Above : ℕ → ℕ → List ℕ → Type 0
Above limit p [] = Unit {0}
Above limit p (y ∷ ys) = (p < y) × (y ≤ limit) × Above limit y ys

Above-mem :
    (limit p x : ℕ) (ys : List ℕ) → Above limit p ys → mem x ys ≡ true → (p < x) × (x ≤ limit)
Above-mem limit p x [] h m = ground arith
Above-mem limit p x (y ∷ ys) h m = elim (Bool-cases (mem x ys)) [
  | inl e ↦ let r = Above-mem limit y x ys h.2 e in (omega arith, r.1)
  | inr e ↦ let same : x ≡ y = ground (arith, m, e) in (omega arith, omega arith)
]

-- The state after `next`, from the list of the later ids.
Stepped : Term → List ℕ → Type 0
Stepped t [] = next t ≡ ended t
Stepped t (y ∷ ys) =
    y < 2 ^ 32 → (s : Source) × (next t ≡ record t { source = s; cur_id = y }) × (later_ids s ≡ ys)

num_left-cursor_next : (c : DeltaCursor) (n : ℕ) → c.num_left ≡ suc n → (cursor_next c).num_left ≡ n
unfolding cursor_next
num_left-cursor_next c n e =
    let z : (c.num_left == 0) ≡ false = ground (arith, e) in rw z (omega (arith, e))

val_next-Stepped :
    (n : ℕ) (c : DeltaCursor) (cur : ℕ)
    → c.num_left ≡ n
    → Stepped (record { source = value c; cur_id = cur; empty = false }) (read_ids n c)
unfolding Stepped next val_next read_ids later_ids
val_next-Stepped zero c cur e =
    let none_left : ltb 0 c.num_left ≡ false = ground (arith, e) in rw none_left refl
val_next-Stepped (suc n) c cur e = λ small.
    let some_left : ltb 0 c.num_left ≡ true = ground (arith, e) in
    let same : u32 (cursor_next c).cur_id ≡ (cursor_next c).cur_id = omega (arith, small) in
    (
      value (cursor_next c),
      rw (some_left, same) refl,
      ap (λ (k : ℕ). read_ids k (cursor_next c)) (num_left-cursor_next c n e),
    )

drop-cons :
    (i : ℕ) (xs : List ℕ) (y : ℕ) (ys : List ℕ)
    → drop i xs ≡ y ∷ ys
    → (get_or xs i 0 ≡ y) × (drop (suc i) xs ≡ ys)
drop-cons zero [] y ys e = absurd (omega (arith, ap length e))
drop-cons zero (x ∷ xs) y ys e = (ap (λ l. get_or l 0 0) e, ap (drop 1) e)
drop-cons (suc i) [] y ys e = absurd (omega (arith, ap length e))
drop-cons (suc i) (x ∷ xs) y ys e = drop-cons i xs y ys e

view_next-Stepped :
    (index : ℕ) (values : List ℕ) (cur : ℕ) (b : Bool)
    → Stepped (record { source = view values index; cur_id = cur; empty = b }) (drop index values)
unfolding Stepped next view_next later_ids
view_next-Stepped index values cur b = go (drop index values) refl
  where
    go :
        (rest : List ℕ)
        → drop index values ≡ rest
        → Stepped (record { source = view values index; cur_id = cur; empty = b }) rest
    go [] e =
        let over : ltb index (length values) ≡ false =
          ground (arith, length-drop index values, ap length e) in
        rw over refl
    go (y ∷ ys) e =
        let inside : ltb index (length values) ≡ true =
          ground (arith, length-drop index values, ap length e) in
        let (head, tail) = drop-cons index values y ys e in
        let up : index + 1 ≡ suc index = omega arith in
        λ small.
          (view values (index + 1), rw (inside, head) refl, ap (λ (i : ℕ). drop i values) up ∙ tail)

next-Stepped : (t : Term) → t.empty ≡ false → Stepped t (later_ids t.source)
next-Stepped t e = go t.source t.cur_id t.empty e
  where
    go :
        (s : Source) (cur : ℕ) (b : Bool)
        → b ≡ false
        → Stepped (record { source = s; cur_id = cur; empty = b }) (later_ids s)
    go (value c) cur false e = unfold later_ids in val_next-Stepped c.num_left c cur refl
    go (value c) cur true e = ground arith
    go (view values index) cur b e = unfold later_ids in view_next-Stepped index values cur b

next-empty : (t : Term) → t.empty ≡ true → (next t).empty ≡ true
next-empty t e = go t.source t.cur_id t.empty e
  where
    go :
        (s : Source) (cur : ℕ) (b : Bool)
        → b ≡ true
        → (next (record { source = s; cur_id = cur; empty = b })).empty ≡ true
    go (value c) cur b e = unfold next val_next in rw e refl
    go (view values index) cur b e = elim (Bool-cases (ltb index (length values))) [
      | inl lt ↦ unfold next view_next in rw lt e
      | inr ge ↦ unfold next view_next in rw ge refl
    ]

module _ (limit : ℕ) (fits : limit < 2 ^ 32) where
  -- The step from a term with ids up to `limit`: none is left, or the next one is current.
  abbrev Stepping : Term → Type 0
  Stepping t =
      ((later_ids t.source ≡ []) × ((next t).empty ≡ true))
      ⊎ ((y : ℕ) × (ys : List ℕ) × (later_ids t.source ≡ y ∷ ys)
          × ((next t).empty ≡ false)
          × ((next t).cur_id ≡ y)
          × (later_ids (next t).source ≡ ys))

  next-Stepping :
      (t : Term) → t.empty ≡ false → Above limit t.cur_id (later_ids t.source) → Stepping t
  unfolding Stepped
  next-Stepping t e h = go (later_ids t.source) refl h (next-Stepped t e)
    where
      go : (l : List ℕ) → later_ids t.source ≡ l → Above limit t.cur_id l → Stepped t l → Stepping t
      go [] same h s = inl (same, ap (λ k. k.empty) s)
      go (y ∷ ys) same h s =
          let (src, stepped, left) = s (omega (arith, h.1)) in
          inr (
            y,
            ys,
            same,
            ap (λ k. k.empty) stepped ∙ e,
            ap (λ k. k.cur_id) stepped,
            ap (λ k. later_ids k.source) stepped ∙ left,
          )

  abbrev pub IsQueryTerm : Term → Type 0
  IsQueryTerm t = t.empty ≡ false → (t.cur_id ≤ limit) × Above limit t.cur_id (later_ids t.source)

  abbrev pub visits : Term → ℕ → Bool
  visits t x = not t.empty && mem x (t.cur_id ∷ later_ids t.source)

  later_ids-Above :
      (t : Term) (l : List ℕ)
      → IsQueryTerm t
      → t.empty ≡ false
      → later_ids t.source ≡ l
      → Above limit t.cur_id l
  later_ids-Above t l v e same = subst (Above limit t.cur_id) same (v e).1

  pub next-IsQueryTerm : (t : Term) → IsQueryTerm t → IsQueryTerm (next t)
  next-IsQueryTerm t v live = elim (Bool-cases t.empty) [
    | inl gone ↦ absurd (clash (next-empty t gone) live)
    | inr e ↦ elim (next-Stepping t e (v e).1) [
      | inl (last, gone) ↦ absurd (clash gone live)
      | inr (y, ys, same, still, current, left) ↦
          let a = later_ids-Above t (y ∷ ys) v e same in rw (current, left) (a.1, a.2)
    ]
  ]
    where
      clash : {b : Bool} → b ≡ true → b ≡ false → ⊥
      clash p q = ground (arith, p, q)

  pub visits-next :
      (t : Term) (x : ℕ)
      → IsQueryTerm t
      → t.empty ≡ false
      → visits t x ≡ (x == t.cur_id || visits (next t) x)
  visits-next t x v e = elim (next-Stepping t e (v e).1) [
    | inl (last, gone) ↦ rw (gone, last, e) refl
    | inr (y, ys, same, still, current, left) ↦ rw (still, current, left, same, e) refl
  ]

  pub visits-ahead :
      (t : Term) (x : ℕ) → IsQueryTerm t → t.empty ≡ false → visits (next t) x ≡ true → t.cur_id < x
  visits-ahead t x v e h = elim (next-Stepping t e (v e).1) [
    | inl (last, gone) ↦ let z : visits (next t) x ≡ false = rw gone refl in ground (arith, h, z)
    | inr (y, ys, same, still, current, left) ↦
        let m : visits (next t) x ≡ mem x (y ∷ ys) = rw (still, current, left) refl in
        (Above-mem limit t.cur_id x (y ∷ ys) (later_ids-Above t (y ∷ ys) v e same) (sym m ∙ h)).0
  ]

  pub visits-le : (t : Term) (x : ℕ) → IsQueryTerm t → visits t x ≡ true → x ≤ limit
  visits-le t x v h = elim (Bool-cases t.empty) [
    | inl gone ↦ let z : visits t x ≡ false = rw gone refl in ground (arith, h, z)
    | inr e ↦ elim (Bool-cases (mem x (later_ids t.source))) [
      | inl m ↦ (Above-mem limit t.cur_id x (later_ids t.source) (v e).1 m).1
      | inr m ↦ let le = (v e).0 in ground (arith, h, e, m)
    ]
  ]

  -- The ids of a key and those of a view keep the contract of a term, if they ascend strictly.
  abbrev pub query_term_laws : TermLaws query_terms limit
  query_term_laws = record {
    IsTerm = IsQueryTerm;
    holds = visits;
    next-IsTerm = next-IsQueryTerm;
    ended = λ t x e. rw e refl;
    holds-next = visits-next;
    ahead = visits-ahead;
    bounded = visits-le;
  }
