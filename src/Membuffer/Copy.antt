-- ===== src/Membuffer/Copy.antt =====
-- `ddb_membuffer_copy_ns`: the copy is whole, in bounds, and disturbs no other.
use discodb.Common.{
  ℕ, ◌+◌, ◌-◌, ◌^◌, ◌<◌, ◌≤◌, ◌≡◌, refl, sym, ap, ◌∙◌, arith, Bool, true, false, Option, none, some,
  List, [], ◌∷◌, ◌++◌, map, ltb, if◌then◌else◌, length, get_or, All, Bool-cases, inl, inr, ◌⊎◌,
  length-append, length-set, All-get_or, map-set_same, All-append, get_or-append_at,
  get_or-set_same, tests,
}
use discodb.Bits.{to_bytes}
use discodb.Bits.Value.{length-to_bytes}
use discodb.Membuffer.{
  Page, Membuffer, Pointer, no_page, page_size, sizeof_page, new_page, copy_entry, set_emptiest,
  emptiest, entry_bytes, copy_to, membuffer_copy, copy_ns,
}
use discodb.Membuffer.Contents.{
  Holds, HoldsIn, block, IsMembuffer, Grows, Grows-HoldsIn, append-Grows, set-Grows,
}
use mathlib.Core.List.{append_assoc, append-nil, map-append}
use mathlib.Core.Path.{subst}

-- `pages'` is `pages` with the string copied to the page `k`, where `p` points.
record Copies (pages pages' : List Page) (k : ℕ) (src : List ℕ) (p : Pointer) : Type 0 where
  grown : Grows pages pages'
  held : HoldsIn pages' p src
  blocks : map block pages' ≡ map block pages

copy_entry-used : (src : List ℕ) (p : Page) → (copy_entry src p).used ≡ p.used ++ src
unfolding copy_entry
copy_entry-used src p = refl

copy_entry-free :
    (src : List ℕ) (p : Page)
    → length src ≤ p.free
    → block p < 2 ^ 64
    → (copy_entry src p).free ≡ p.free - length src
unfolding copy_entry
copy_entry-free src p fits small = omega arith

-- The length and the string on a page with room for them.
abbrev with_entry : List ℕ → Page → Page
with_entry src p = copy_entry src (copy_entry (to_bytes 8 (length src)) p)

with_entry-used :
    (src : List ℕ) (p : Page) → (with_entry src p).used ≡ p.used ++ entry_bytes src true
with_entry-used src p =
    copy_entry-used src (copy_entry (to_bytes 8 (length src)) p)
    ∙ ap (λ (t : List ℕ). t ++ src) (copy_entry-used (to_bytes 8 (length src)) p)
    ∙ append_assoc p.used (to_bytes 8 (length src)) src

block-with_entry :
    (src : List ℕ) (p : Page)
    → length src + 8 ≤ p.free
    → block p < 2 ^ 64
    → block (with_entry src p) ≡ block p
block-with_entry src p fits small =
    let q = copy_entry (to_bytes 8 (length src)) p in
    let eight = length-to_bytes 8 (length src) in
    let free = copy_entry-free (to_bytes 8 (length src)) p (omega (arith, eight)) small in
    let longer =
      ap length (copy_entry-used (to_bytes 8 (length src)) p)
      ∙ length-append p.used (to_bytes 8 (length src)) in
    let free' =
      copy_entry-free src q (omega (arith, free, eight)) (omega (arith, free, eight, longer)) in
    let longer' = ap length (copy_entry-used src q) ∙ length-append q.used src in
    omega (arith, free, free', longer, longer', eight)

copy_to-Copies :
    (k : ℕ) (src : List ℕ) (mb : Membuffer)
    → k < length mb.pages
    → length src + 8 ≤ (get_or mb.pages k no_page).free
    → All (λ p. block p < 2 ^ 64) mb.pages
    → Copies mb.pages (copy_to k src true mb).1.pages k src (copy_to k src true mb).0
unfolding copy_to
copy_to-Copies k src mb lt fits small =
    let p = get_or mb.pages k no_page in
    let used = with_entry-used src p in
    record {
      grown = set-Grows mb.pages k (with_entry src p) (entry_bytes src true) lt used;
      held = record {
        page = omega (arith, length-set mb.pages k (with_entry src p));
        before = p.used;
        after = [];
        start = refl;
        bytes =
            ap (λ (q : Page). q.used) (get_or-set_same mb.pages k (with_entry src p) no_page lt)
            ∙ used
            ∙ ap (λ (t : List ℕ). p.used ++ t) (sym (append-nil (entry_bytes src true)));
      };
      blocks = map-set_same block mb.pages k (with_entry src p) no_page (
          block-with_entry src p fits
            (All-get_or (λ p. block p < 2 ^ 64) mb.pages k no_page small lt));
    }

current-copy_to :
    (k : ℕ) (src : List ℕ) (mb : Membuffer) → (copy_to k src true mb).1.current ≡ mb.current
unfolding copy_to
current-copy_to k src mb = refl

small-blocks :
    (pages : List Page)
    → All (λ (n : ℕ). n < 2 ^ 64) (map block pages)
    → All (λ p. block p < 2 ^ 64) pages
small-blocks [] h = tt
small-blocks (p ∷ ps) h = (h.0, small-blocks ps h.1)

blocks-small :
    (pages : List Page)
    → All (λ p. block p < 2 ^ 64) pages
    → All (λ (n : ℕ). n < 2 ^ 64) (map block pages)
blocks-small [] h = tt
blocks-small (p ∷ ps) h = (h.0, blocks-small ps h.1)

emptiest-lt :
    (ps : List Page) (i max current n : ℕ)
    → i + length ps ≤ n
    → current < n
    → emptiest ps i max current < n
unfolding emptiest
emptiest-lt [] i max current n h lt = lt
emptiest-lt (p ∷ ps) i max current n h lt =
    emptiest-lt ps (i + 1) (if ltb max p.free then p.free else max)
      (if ltb max p.free then i else current) n (omega arith) (ground arith)

-- `mb'` is `mb` with the string `src` behind the pointer `p`: what other pointers hold stays, and
-- the blocks of the pages keep their sizes, so that nothing is written past their ends.
pub record Copied (mb : Membuffer) (src : List ℕ) (p : Pointer) (mb' : Membuffer) : Type 0 where
  pub valid : IsMembuffer mb'
  pub held : Holds mb' p src
  pub keeps : (q : Pointer) (s : List ℕ) → Holds mb q s → Holds mb' q s
  pub blocks : (more : List ℕ) × (map block mb'.pages ≡ map block mb.pages ++ more)

abbrev pub CopyOutcome : (ℕ → Bool) → Membuffer → List ℕ → Option (Pointer × Membuffer) → Type 0
CopyOutcome available mb src result =
    ((n : ℕ) × (available n ≡ false) × (result ≡ none))
    ⊎ ((p : Pointer) × (mb' : Membuffer) × (result ≡ some (p, mb')) × Copied mb src p mb')

-- The page that is added when no bytes are left.
abbrev fresh : ℕ → Page
fresh size = record { used = []; free = if ltb page_size size then size else page_size }

new_page-cases :
    (available : ℕ → Bool) (pages : List Page) (size : ℕ)
    → ((n : ℕ) × (available n ≡ false) × (new_page available pages size ≡ none))
      ⊎ (new_page available pages size ≡ some (pages ++ (fresh size ∷ [])))
unfolding new_page
new_page-cases available pages size =
    let n = (if ltb page_size size then size else page_size) + sizeof_page in
    elim (Bool-cases (available n)) [
      | inl met ↦ inr (rw met refl)
      | inr refused ↦ inl (n, refused, rw refused refl)
    ]

fresh-room : (size : ℕ) → size ≤ (fresh size).free
fresh-room size = ground arith

fresh-block : (size : ℕ) → size < 2 ^ 63 → block (fresh size) < 2 ^ 64
fresh-block size h = ground arith

module _ (available : ℕ → Bool) (mb : Membuffer) (src : List ℕ) where
  abbrev len : ℕ
  len = length src + 8

  copy_here :
      ltb (get_or mb.pages mb.current no_page).free len ≡ false
      → copy_ns available mb src ≡ some (copy_to mb.current src true mb)
  unfolding copy_ns membuffer_copy
  copy_here e = rw e refl

  copy_refused :
      ltb (get_or mb.pages mb.current no_page).free len ≡ true
      → new_page available mb.pages len ≡ none
      → copy_ns available mb src ≡ none
  unfolding copy_ns membuffer_copy
  copy_refused e f = rw (e, f) refl

  abbrev extended : List Page
  extended = mb.pages ++ (fresh len ∷ [])

  abbrev on_fresh : Pointer × Membuffer
  on_fresh = copy_to (length mb.pages) src true (record mb { pages = extended })

  copy_fresh :
      ltb (get_or mb.pages mb.current no_page).free len ≡ true
      → new_page available mb.pages len ≡ some extended
      → copy_ns available mb src ≡ some (on_fresh.0, set_emptiest on_fresh.1)
  unfolding copy_ns membuffer_copy
  copy_fresh e f = rw (e, f) refl

  module _ (v : IsMembuffer mb) (short : length src < 2 ^ 32) where
    here-Copied :
        len ≤ (get_or mb.pages mb.current no_page).free
        → Copied mb src (copy_to mb.current src true mb).0 (copy_to mb.current src true mb).1
    here-Copied fits =
        let c = copy_to-Copies mb.current src mb v.current fits v.blocks in
        record {
          valid = record {
            current = omega (arith, c.grown.longer, current-copy_to mb.current src mb, v.current);
            blocks = small-blocks _ (
                subst (All (λ (n : ℕ). n < 2 ^ 64)) (sym c.blocks)
                  (blocks-small mb.pages v.blocks));
          };
          held = c.held;
          keeps = λ q s h. Grows-HoldsIn _ _ q s c.grown h;
          blocks = ([], c.blocks ∙ sym (append-nil (map block mb.pages)));
        }

    fresh-Copied : Copied mb src on_fresh.0 (set_emptiest on_fresh.1)
    unfolding set_emptiest
    fresh-Copied =
        let mb' : Membuffer = record mb { pages = extended } in
        let added = length-append mb.pages (fresh len ∷ []) in
        let last = get_or-append_at mb.pages (fresh len) no_page in
        let small =
          All-append (λ p. block p < 2 ^ 64) mb.pages (fresh len ∷ []) v.blocks
            (fresh-block len (omega arith), tt) in
        let c =
          copy_to-Copies (length mb.pages) src mb' (omega (arith, added)) (rw last (fresh-room len))
            small in
        let pages = on_fresh.1.pages in
        record {
          valid = record {
            current = emptiest-lt pages 0 0 on_fresh.1.current (length pages) (omega arith) (
                omega (
                  arith,
                  added,
                  c.grown.longer,
                  current-copy_to (length mb.pages) src mb',
                  v.current,
                ));
            blocks =
                small-blocks _ (
                  subst (All (λ (n : ℕ). n < 2 ^ 64)) (sym c.blocks) (blocks-small extended small));
          };
          held = c.held;
          keeps = λ q s h.
              Grows-HoldsIn _ _ q s c.grown
                (Grows-HoldsIn _ _ q s (append-Grows mb.pages (fresh len)) h);
          blocks = (block (fresh len) ∷ [], c.blocks ∙ map-append block mb.pages (fresh len ∷ []));
        }

-- On a well-formed buffer the copy of a string of fewer than 2 ^ 32 bytes fails only when memory is
-- refused. Otherwise the pointer returned holds the string, every other pointer holds what it held,
-- the blocks of the pages keep their sizes, and the buffer stays well-formed.
pub copy_ns-Copied :
    (available : ℕ → Bool) (mb : Membuffer) (src : List ℕ)
    → IsMembuffer mb
    → length src < 2 ^ 32
    → CopyOutcome available mb src (copy_ns available mb src)
copy_ns-Copied available mb src v short =
    elim (Bool-cases (ltb (get_or mb.pages mb.current no_page).free (length src + 8))) [
      | inr room ↦ inr (
        (copy_to mb.current src true mb).0,
        (copy_to mb.current src true mb).1,
        copy_here available mb src room,
        here-Copied available mb src v short (omega (tests, room)),
      )
      | inl full ↦ elim (new_page-cases available mb.pages (length src + 8)) [
        | inl (n, refused, failed) ↦ inl (n, refused, copy_refused available mb src full failed)
        | inr added ↦ inr (
          (on_fresh available mb src).0,
          set_emptiest (on_fresh available mb src).1,
          copy_fresh available mb src full added,
          fresh-Copied available mb src v short,
        )
      ]
    ]
