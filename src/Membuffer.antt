-- ===== src/Membuffer.antt =====
-- src/ddb_membuffer.c: pages that keys are copied to, and that never move.
-- A page is the bytes written so far, whose number is its offset, and the bytes still free; the
-- linked list of pages is a list. A pointer into a page is the page's number and an offset.
-- `available n` says whether a request for `n` bytes is met.
pub mod Contents
pub mod Copy
pub mod Emptiest
mod Tests
use discodb.Common.{
  ℕ, zero, suc, ◌+◌, ◌-◌, ◌*◌, ◌%◌, ◌^◌, Bool, true, false, Option, none, some, List, [], ◌∷◌, ◌++◌,
  ltb, if◌then◌else◌, length, get_or, set, take, drop,
}
use discodb.Bits.{load, to_bytes}

-- DDB_MB_PAGE_SIZE, sizeof(struct page) and sizeof(struct ddb_membuffer)
abbrev pub page_size : ℕ
page_size = 10485760

abbrev pub sizeof_page : ℕ
sizeof_page = 24

abbrev pub sizeof_membuffer : ℕ
sizeof_membuffer = 16

-- struct page
pub record Page : Type 0 where
  pub used : List ℕ
  pub free : ℕ

abbrev pub offset : Page → ℕ
offset p = length p.used

-- struct ddb_membuffer
pub record Membuffer : Type 0 where
  pub pages : List Page
  pub current : ℕ

-- A pointer that `ddb_membuffer_copy_ns` returns.
pub record Pointer : Type 0 where
  pub page : ℕ
  pub start : ℕ

-- A page that is not there; every number of a page is in range.
abbrev pub no_page : Page
no_page = record { used = []; free = 0 }

unfoldable pub new_page : (ℕ → Bool) → List Page → ℕ → Option (List Page)
new_page available pages size =
    let size' = if ltb page_size size then size else page_size in
    if available (size' + sizeof_page)
    then some (pages ++ (record { used = []; free = size' } ∷ []))
    else none

-- `memcpy` to the offset; the bytes left are a uint64_t.
unfoldable pub copy_entry : List ℕ → Page → Page
copy_entry src p = record { used = p.used ++ src; free = (p.free + 2 ^ 64 - length src) % 2 ^ 64 }

unfoldable pub membuffer_new : (ℕ → Bool) → Option Membuffer
membuffer_new available =
    if available sizeof_membuffer
    then elim (new_page available [] page_size) [
      | none ↦ none
      | some pages ↦ some (record { pages = pages; current = 0 })
    ]
    else none

-- The loop over the pages: the number of the page that `mb->current` is set to.
unfoldable pub emptiest : List Page → ℕ → ℕ → ℕ → ℕ
emptiest [] i max current = current
emptiest (p ∷ ps) i max current =
    emptiest ps (i + 1) (if ltb max p.free then p.free else max)
      (if ltb max p.free then i else current)

unfoldable pub set_emptiest : Membuffer → Membuffer
set_emptiest mb = record mb { current = emptiest mb.pages 0 0 mb.current }

-- The bytes that are copied: after the length as a uint64_t, or alone.
abbrev pub entry_bytes : List ℕ → Bool → List ℕ
entry_bytes src true = to_bytes 8 (length src) ++ src
entry_bytes src false = src

-- The two calls of `copy_entry`, or the one, on the page of a number: the pointer returned, and the
-- buffer.
unfoldable pub copy_to : ℕ → List ℕ → Bool → Membuffer → Pointer × Membuffer
copy_to k src prefix_length mb =
    let p = get_or mb.pages k no_page in
    let p' =
      if prefix_length
      then copy_entry src (copy_entry (to_bytes 8 (length src)) p)
      else copy_entry src p in
    (record { page = k; start = offset p }, record mb { pages = set mb.pages k p' })

unfoldable pub membuffer_copy :
    (ℕ → Bool) → Membuffer → List ℕ → Bool → Option (Pointer × Membuffer)
membuffer_copy available mb src prefix_length =
    let len = length src + (if prefix_length then 8 else 0) in
    if ltb (get_or mb.pages mb.current no_page).free len
    then elim (new_page available mb.pages len) [
      | none ↦ none
      | some pages ↦
          let (dst, mb') =
            copy_to (length mb.pages) src prefix_length (record mb { pages = pages }) in
          some (dst, set_emptiest mb')
    ]
    else some (copy_to mb.current src prefix_length mb)

unfoldable pub copy : (ℕ → Bool) → Membuffer → List ℕ → Option (Pointer × Membuffer)
copy available mb src = membuffer_copy available mb src false

unfoldable pub copy_ns : (ℕ → Bool) → Membuffer → List ℕ → Option (Pointer × Membuffer)
copy_ns available mb src = membuffer_copy available mb src true

-- struct ddb_netstring: the length and the data behind a pointer.
unfoldable pub netstring : Membuffer → Pointer → List ℕ
netstring mb p =
    let bytes = drop p.start (get_or mb.pages p.page no_page).used in
    take (load 8 0 bytes) (drop 8 bytes)

pub record Usage : Type 0 where
  pub alloc : ℕ
  pub used : ℕ

-- The loop over the pages adds the size of a page and the offset.
unfoldable pub page_usage : List Page → Usage → Usage
page_usage [] u = u
page_usage (p ∷ ps) u =
    page_usage ps (record { alloc = u.alloc + page_size; used = u.used + offset p })

unfoldable pub mem_usage : Membuffer → Usage
mem_usage mb = page_usage mb.pages (record { alloc = sizeof_membuffer; used = sizeof_membuffer })
