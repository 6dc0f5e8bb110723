-- ===== src/Membuffer/Contents.antt =====
-- What is copied to the pages stays there.
use discodb.Common.{
  ℕ, ◌+◌, ◌^◌, ◌<◌, ◌≤◌, ◌≡◌, sym, ap, ◌∙◌, arith, true, List, [], ◌∷◌, ◌++◌, length, get_or, set,
  take, drop, All, length-append, length-set, drop-append, take-append, get_or-append,
  get_or-set_same, get_or-set_other, ap₂, ℕ_discrete,
}
use discodb.Bits.{load, to_bytes}
use discodb.Bits.Value.{load_bytes-to_bytes, length-to_bytes}
use discodb.Membuffer.{Page, Membuffer, Pointer, no_page, offset, entry_bytes, netstring}
use mathlib.Core.List.{append_assoc, append-nil}
use mathlib.Core.Path.{subst}

-- `p` points to the string `s`, behind its length.
pub record HoldsIn (pages : List Page) (p : Pointer) (s : List ℕ) : Type 0 where
  pub page : p.page < length pages
  pub before : List ℕ
  pub after : List ℕ
  pub start : length before ≡ p.start
  pub bytes : (get_or pages p.page no_page).used ≡ before ++ (entry_bytes s true ++ after)

abbrev pub Holds : Membuffer → Pointer → List ℕ → Type 0
Holds mb p s = HoldsIn mb.pages p s

-- The block of a page: what is written and what is free.
abbrev pub block : Page → ℕ
block p = offset p + p.free

pub record IsMembuffer (mb : Membuffer) : Type 0 where
  pub current : mb.current < length mb.pages
  pub blocks : All (λ p. block p < 2 ^ 64) mb.pages

-- What a pointer holds is what it points to.
pub Holds-netstring :
    (mb : Membuffer) (p : Pointer) (s : List ℕ)
    → length s < 2 ^ 32
    → Holds mb p s
    → netstring mb p ≡ s
unfolding netstring
Holds-netstring mb p s short h =
    let bytes = to_bytes 8 (length s) in
    let behind : drop p.start (get_or mb.pages p.page no_page).used ≡ bytes ++ (s ++ h.after) =
      ap (λ (t : List ℕ). drop p.start t) h.bytes
      ∙ ap (λ (k : ℕ). drop k (h.before ++ (entry_bytes s true ++ h.after))) (sym h.start)
      ∙ drop-append h.before (entry_bytes s true ++ h.after)
      ∙ append_assoc bytes s h.after in
    let size : load 8 0 (bytes ++ (s ++ h.after)) ≡ length s =
      load_bytes-to_bytes 8 (length s) (s ++ h.after) ∙ omega arith in
    let rest : drop 8 (bytes ++ (s ++ h.after)) ≡ s ++ h.after =
      ap (λ (k : ℕ). drop k (bytes ++ (s ++ h.after))) (sym (length-to_bytes 8 (length s)))
      ∙ drop-append bytes (s ++ h.after) in
    rw behind (ap₂ (λ (k : ℕ) (t : List ℕ). take k t) size rest ∙ take-append s h.after)

-- One page more, or more bytes on a page, take nothing away.
pub record Grows (pages pages' : List Page) : Type 0 where
  pub longer : length pages ≤ length pages'
  pub written :
      (k : ℕ)
      → k < length pages
      → (more : List ℕ) × ((get_or pages' k no_page).used ≡ (get_or pages k no_page).used ++ more)

pub Grows-HoldsIn :
    (pages pages' : List Page) (p : Pointer) (s : List ℕ)
    → Grows pages pages'
    → HoldsIn pages p s
    → HoldsIn pages' p s
Grows-HoldsIn pages pages' p s g h =
    let (more, e) = g.written p.page h.page in
    record {
      page = omega (arith, g.longer, h.page);
      before = h.before;
      after = h.after ++ more;
      start = h.start;
      bytes =
          e
          ∙ ap (λ (t : List ℕ). t ++ more) h.bytes
          ∙ append_assoc h.before (entry_bytes s true ++ h.after) more
          ∙ ap (λ (t : List ℕ). h.before ++ t) (append_assoc (entry_bytes s true) h.after more);
    }

pub Grows-trans : (a b c : List Page) → Grows a b → Grows b c → Grows a c
Grows-trans a b c f g = record {
  longer = omega (arith, f.longer, g.longer);
  written = λ k lt.
      let (x, ex) = f.written k lt in
      let (y, ey) = g.written k (omega (arith, f.longer)) in
      (x ++ y, ey ∙ ap (λ (t : List ℕ). t ++ y) ex ∙ append_assoc (get_or a k no_page).used x y);
}

pub append-Grows : (pages : List Page) (p : Page) → Grows pages (pages ++ (p ∷ []))
append-Grows pages p = record {
  longer = omega (arith, length-append pages (p ∷ []));
  written = λ k lt. (
    [],
    ap (λ (q : Page). q.used) (get_or-append pages (p ∷ []) k no_page lt)
        ∙ sym (append-nil (get_or pages k no_page).used),
  );
}

pub set-Grows :
    (pages : List Page) (k : ℕ) (p : Page) (more : List ℕ)
    → k < length pages
    → p.used ≡ (get_or pages k no_page).used ++ more
    → Grows pages (set pages k p)
set-Grows pages k p more lt e = record {
  longer = omega (arith, length-set pages k p);
  written = λ j h. elim (ℕ_discrete k j) [
    | yes same ↦ (
      more,
      subst
          (λ (i : ℕ).
            (get_or (set pages k p) i no_page).used ≡ (get_or pages i no_page).used ++ more)
          same (ap (λ (q : Page). q.used) (get_or-set_same pages k p no_page lt) ∙ e),
    )
    | no other ↦ (
      [],
      ap (λ (q : Page). q.used) (get_or-set_other pages k j p no_page other)
          ∙ sym (append-nil (get_or pages j no_page).used),
    )
  ];
}
