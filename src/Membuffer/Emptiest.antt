-- ===== src/Membuffer/Emptiest.antt =====
-- `set_emptiest`: the page in use is one with the most room.
use discodb.Common.{
  refl, ℕ, suc, ◌+◌, ◌<◌, ◌≤◌, ◌≡◌, ap, arith, List, [], ◌∷◌, ltb, if◌then◌else◌, length, get_or,
  Bool-cases, inl, inr, ◌⊎◌, Bool, Option, none, some, Option-cases, length-append, length-set, ◌∙◌,
  sym, ◌++◌, true, false, tests, ℕ_discrete, dec_lt,
}
use discodb.Membuffer.{
  Page, Membuffer, no_page, emptiest, set_emptiest, Pointer, new_page, page_size, sizeof_page,
  copy_to, membuffer_copy,
}
use mathlib.Core.Path.{subst}

-- The best page so far: the one with `max` free bytes, or any if none has some.
abbrev Best : (ℕ → ℕ) → ℕ → ℕ → ℕ → Type 0
Best free i max current = ((j : ℕ) → j < i → free j ≤ max) × ((0 < max → free current ≡ max))

abbrev free_of : List Page → ℕ → ℕ
free_of ps k = (get_or ps k no_page).free

Best-next :
    (free : ℕ → ℕ) (p : Page) (i max current : ℕ)
    → free i ≡ p.free
    → Best free i max current
    → Best free
        (i + 1)
        (if ltb max p.free then p.free else max)
        (if ltb max p.free then i else current)
Best-next free p i max current here b = elim (Bool-cases (ltb max p.free)) [
  | inl more ↦ rw more (
    (λ j lt. elim (ℕ_discrete j i) [
      | yes e ↦ omega (arith, ap free e, here)
      | no ne ↦ omega (tests, more, b.0 j (omega arith))
    ]),
    (λ h. here),
  )
  | inr less ↦ rw less (
    (λ j lt. elim (ℕ_discrete j i) [
      | yes e ↦ omega (tests, less, ap free e, here)
      | no ne ↦ b.0 j (omega arith)
    ]),
    b.1,
  )
]

emptiest-most :
    (free : ℕ → ℕ) (ps : List Page) (i max current : ℕ)
    → ((k : ℕ) → k < length ps → free (i + k) ≡ free_of ps k)
    → Best free i max current
    → (j : ℕ) → j < i + length ps
    → free j ≤ free (emptiest ps i max current)
unfolding emptiest
emptiest-most free [] i max current same b j lt =
    let most = b.0 j (omega arith) in
    elim (dec_lt 0 max) [ yes h ↦ omega (arith, b.1 h) | no h ↦ omega arith ]
emptiest-most free (p ∷ ps) i max current same b j lt =
    emptiest-most free ps (i + 1) (if ltb max p.free then p.free else max)
      (if ltb max p.free then i else current)
      (λ k h. subst (λ (n : ℕ). free n ≡ free_of ps k) (omega arith) (same (suc k) (omega arith)))
      (Best-next free p i max current
        (subst (λ (n : ℕ). free n ≡ p.free) (omega arith) (same 0 (omega arith))) b)
      j (omega arith)

set_emptiest-most :
    (mb : Membuffer) (j : ℕ)
    → j < length mb.pages
    → (get_or mb.pages j no_page).free ≤ (get_or mb.pages (set_emptiest mb).current no_page).free
unfolding set_emptiest
set_emptiest-most mb j lt =
    emptiest-most (free_of mb.pages) mb.pages 0 0 mb.current
      (λ k h. ap (free_of mb.pages) (omega arith))
      ((λ j h. absurd (omega arith)), (λ h. absurd (omega arith))) j (omega arith)

-- The page in use stays, and no page is added; or one is, and the page in use is one with the most free
-- bytes.
abbrev pub Chosen : Membuffer → Membuffer → Type 0
Chosen mb mb' =
    ((length mb'.pages ≡ length mb.pages) × (mb'.current ≡ mb.current))
    ⊎ ((length mb'.pages ≡ suc (length mb.pages))
        × ((j : ℕ)
            → j < length mb'.pages
            → (get_or mb'.pages j no_page).free ≤ (get_or mb'.pages mb'.current no_page).free))

length-new_page :
    (available : ℕ → Bool) (pages pages' : List Page) (size : ℕ)
    → new_page available pages size ≡ some pages'
    → length pages' ≡ suc (length pages)
unfolding new_page
length-new_page available pages pages' size e =
    elim (Bool-cases (available ((if ltb page_size size then size else page_size) + sizeof_page))) [
      | inr refused ↦ let bad : none ≡ some pages' = rw refused at e in absurd (cc)
      | inl met ↦
          let page : List Page =
            record { used = []; free = if ltb page_size size then size else page_size } ∷ [] in
          let got : some (pages ++ page) ≡ some pages' = rw met at e in
          let same : pages ++ page ≡ pages' = cc in
          omega (arith, ap length same, length-append pages page)
    ]

module _ (available : ℕ → Bool) (mb : Membuffer) (src : List ℕ) (prefix_length : Bool) where
  length-copy_to :
      (k : ℕ) (pages : List Page)
      → length (copy_to k src prefix_length (record mb { pages = pages })).1.pages ≡ length pages
  unfolding copy_to
  length-copy_to k pages = length-set pages k _

  abbrev len : ℕ
  len = length src + (if prefix_length then 8 else 0)

  -- The buffer with the pages `pages` after the copy to the last one.
  abbrev copied : List Page → Membuffer
  copied pages = (copy_to (length mb.pages) src prefix_length (record mb { pages = pages })).1

  stays :
      ltb (get_or mb.pages mb.current no_page).free len ≡ false
      → membuffer_copy available mb src prefix_length
        ≡ some (copy_to mb.current src prefix_length mb)
  unfolding membuffer_copy
  stays e = rw e refl

  adds :
      (pages : List Page)
      → ltb (get_or mb.pages mb.current no_page).free len ≡ true
      → new_page available mb.pages len ≡ some pages
      → membuffer_copy available mb src prefix_length
        ≡ some (
          (copy_to (length mb.pages) src prefix_length (record mb { pages = pages })).0,
          set_emptiest (copied pages),
        )
  unfolding membuffer_copy
  adds pages e made = rw (e, made, membuffer_copy) refl

  fails :
      ltb (get_or mb.pages mb.current no_page).free len ≡ true
      → new_page available mb.pages len ≡ none
      → membuffer_copy available mb src prefix_length ≡ none
  unfolding membuffer_copy
  fails e refused = rw (e, refused, membuffer_copy) refl

  pages-set_emptiest : (m : Membuffer) → (set_emptiest m).pages ≡ m.pages
  unfolding set_emptiest
  pages-set_emptiest m = refl

  stays-Chosen : Chosen mb (copy_to mb.current src prefix_length mb).1
  unfolding copy_to
  stays-Chosen = inl (length-set mb.pages mb.current _, refl)

  adds-Chosen :
      (pages : List Page)
      → new_page available mb.pages len ≡ some pages
      → Chosen mb (set_emptiest (copied pages))
  adds-Chosen pages made =
      let m = copied pages in
      let same = pages-set_emptiest m in
      inr (
        ap length same
            ∙ length-copy_to (length mb.pages) pages
            ∙ length-new_page available mb.pages pages len made,
        λ j lt.
            subst
              (λ (ps : List Page).
                (get_or ps j no_page).free ≤ (get_or ps (set_emptiest m).current no_page).free)
              (sym same) (set_emptiest-most m j (omega (arith, ap length same))),
      )

  -- After `ddb_membuffer_copy` has succeeded, no page was added and the page in use is that of before;
  -- or one page was added, and no page has more free bytes than the one in use.
  pub membuffer_copy-Chosen :
      (dst : Pointer) (mb' : Membuffer)
      → membuffer_copy available mb src prefix_length ≡ some (dst, mb')
      → Chosen mb mb'
  membuffer_copy-Chosen dst mb' e =
      elim (Bool-cases (ltb (get_or mb.pages mb.current no_page).free len)) [
        | inr room ↦
            let got : some (copy_to mb.current src prefix_length mb) ≡ some (dst, mb') =
              sym (stays room) ∙ e in
            let same : copy_to mb.current src prefix_length mb ≡ (dst, mb') = cc in
            subst (Chosen mb) (ap (λ (r : Pointer × Membuffer). r.1) same) stays-Chosen
        | inl small ↦ elim (Option-cases (new_page available mb.pages len)) [
          | inl refused ↦
              let bad : ◌≡◌ {A = Option (Pointer × Membuffer)} none (some (dst, mb')) =
                sym (fails small refused) ∙ e in
              absurd (cc)
          | inr (pages, made) ↦
              let r : Pointer × Membuffer = (
                (copy_to (length mb.pages) src prefix_length (record mb { pages = pages })).0,
                set_emptiest (copied pages),
              ) in
              let got : some r ≡ some (dst, mb') = sym (adds pages small made) ∙ e in
              let same : r ≡ (dst, mb') = cc in
              subst (Chosen mb) (ap (λ (r : Pointer × Membuffer). r.1) same)
                (adds-Chosen pages made)
        ]
      ]
