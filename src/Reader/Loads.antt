-- ===== src/Reader/Loads.antt =====
-- `ddb_loads` and `ddb_dumps` of src/ddb.c: the checks of a buffer, and its copy.
use discodb.Common.{
  ℕ, ◌^◌, ◌+◌, ◌*◌, ◌≤◌, ◌≡◌, refl, arith, Bool, true, not, Option, none, some, List, [], ◌∷◌,
  length-take, ltb, ◌==◌, if◌then◌else◌, take, drop, length, ap, sym, ◌∙◌, zero, suc, ◌-◌,
  Bool-cases, inl, inr,
}
use discodb.Bits.{u32, u64, load, load_bytes}
use discodb.Reader.{
  Ddb, err_out_of_memory, id2value_at, key2values_at, is_compressed, is_hashed, is_multiset,
}

abbrev pub magic : ℕ
magic = 349130015009726043

-- sizeof(struct ddb_header)
abbrev pub sizeof_header : ℕ
sizeof_header = 72

abbrev pub err_buffer_too_small : ℕ
err_buffer_too_small = 3

abbrev pub err_buffer_not_discodb : ℕ
err_buffer_not_discodb = 4

abbrev pub err_invalid_buffer_size : ℕ
err_invalid_buffer_size = 5

-- What `ddb_loads` returns: 0 or -1, with the database.
pub data Loaded : Type 0 where
  loaded : Ddb → Loaded
  refused : Ddb → Loaded

-- The database after the checks.
unfoldable pub opened : Ddb → List ℕ → Ddb
opened db data_ = record {
  size = load 8 8 data_;
  errno = 0;
  num_keys = load 4 16 data_;
  num_uniq_values = load 4 20 data_;
  flags = u32 (load 8 32 data_);
  num_values = load 8 24 data_;
  key2values = load 8 40 data_;
  id2value = load 8 48 data_;
  hash = load 8 56 data_;
  codebook = load 8 64 data_;
  buf = data_;
}

unfoldable pub loads : Ddb → List ℕ → ℕ → Loaded
loads db data_ n =
    if ltb n sizeof_header
    then refused (record db { errno = err_buffer_too_small })
    else if not (load 8 0 data_ == magic)
    then refused (record db { errno = err_buffer_not_discodb })
    else if ltb n (load 8 8 data_)
    then refused (record db { errno = err_invalid_buffer_size })
    else loaded (opened db data_)

-- `ddb_features`, in the order of enum ddb_features.
unfoldable pub features : Ddb → List ℕ
features db =
    db.num_keys
    ∷ db.num_uniq_values
    ∷ db.num_values
    ∷ db.size
    ∷ u64 (id2value_at db db.num_uniq_values + 2 ^ 64 - id2value_at db 0)
    ∷ u64 (key2values_at db db.num_keys + 2 ^ 64 - key2values_at db 0)
    ∷ (if is_compressed db then 4 else 0)
    ∷ (if is_hashed db then 1 else 0)
    ∷ (if is_multiset db then 2 else 0)
    ∷ []

-- `ddb_dumps`: a copy of the buffer and its length.
unfoldable pub dumps : Bool → Ddb → Option (List ℕ × ℕ) × Ddb
dumps memory db =
    if memory
    then (some (take db.size db.buf, db.size), db)
    else (none, record db { errno = err_out_of_memory })

-- Two buffers that no load inside the first `s` bytes tells apart.
abbrev Agree : ℕ → List ℕ → List ℕ → Type 0
Agree s xs ys = (n i : ℕ) → i + n ≤ s → load n i xs ≡ load n i ys

load_bytes-take : (n s : ℕ) (xs : List ℕ) → n ≤ s → load_bytes n (take s xs) ≡ load_bytes n xs
unfolding load_bytes
load_bytes-take zero s xs h = refl
load_bytes-take (suc n) zero xs h = absurd (omega arith)
load_bytes-take (suc n) (suc s) [] h = refl
load_bytes-take (suc n) (suc s) (x ∷ xs) h =
    ap (λ (t : ℕ). x + 256 * t) (load_bytes-take n s xs (omega arith))

take_nil : (n : ℕ) → [] ≡ take {A = ℕ} n []
take_nil zero = refl
take_nil (suc n) = refl

drop-take : (i s : ℕ) (xs : List ℕ) → i ≤ s → drop i (take s xs) ≡ take (s - i) (drop i xs)
drop-take zero s xs h = let e : s ≡ s - 0 = omega arith in ap (λ (t : ℕ). take t xs) e
drop-take (suc i) zero xs h = absurd (omega arith)
drop-take (suc i) (suc s) [] h = take_nil (suc s - suc i)
drop-take (suc i) (suc s) (x ∷ xs) h =
    let e : s - i ≡ suc s - suc i = omega arith in
    drop-take i s xs (omega arith) ∙ ap (λ (t : ℕ). take t (drop i xs)) e

take-Agree : (s : ℕ) (xs : List ℕ) → Agree s (take s xs) xs
take-Agree s xs n i h =
    ap (load_bytes n) (drop-take i s xs (omega arith))
    ∙ load_bytes-take n (s - i) (drop i xs) (omega arith)

opened-take :
    (db db' : Ddb) (s : ℕ) (data_ : List ℕ)
    → sizeof_header ≤ s
    → opened db (take s data_) ≡ record (opened db' data_) { buf = take s data_ }
unfolding opened
opened-take db db' s data_ h =
    let same = take-Agree s data_ in
    rw
      (
        same 8 8 (omega arith),
        same 4 16 (omega arith),
        same 4 20 (omega arith),
        same 8 32 (omega arith),
        same 8 24 (omega arith),
        same 8 40 (omega arith),
        same 8 48 (omega arith),
        same 8 56 (omega arith),
        same 8 64 (omega arith),
      )
      refl

loads-open :
    (db : Ddb) (data_ : List ℕ) (n : ℕ)
    → sizeof_header ≤ n
    → load 8 0 data_ ≡ magic
    → load 8 8 data_ ≤ n
    → loads db data_ n ≡ loaded (opened db data_)
unfolding loads
loads-open db data_ n room magical inside = ground arith

-- What `loads` has checked of the buffer it opens.
record Checked (db : Ddb) (data_ : List ℕ) (n : ℕ) (d : Ddb) : Type 0 where
  magical : load 8 0 data_ ≡ magic
  inside : load 8 8 data_ ≤ n
  whole : d ≡ opened db data_

loads-Checked :
    (db : Ddb) (data_ : List ℕ) (n : ℕ) (d : Ddb)
    → loads db data_ n ≡ loaded d
    → Checked db data_ n d
unfolding loads
loads-Checked db data_ n d h = elim (Bool-cases (ltb n sizeof_header)) [
  | inl e ↦ absurd (ground arith)
  | inr e ↦ elim (Bool-cases (load 8 0 data_ == magic)) [
    | inr f ↦ absurd (ground arith)
    | inl f ↦ elim (Bool-cases (ltb n (load 8 8 data_))) [
      | inl g ↦ absurd (ground arith)
      | inr g ↦
          let open_ = loads-open db data_ n (ground arith) (ground arith) (ground arith) in
          let whole : loaded (opened db data_) ≡ loaded d = sym open_ ∙ h in
          record { magical = ground arith; inside = ground arith; whole = cc }
    ]
  ]
]

-- With memory for it, `dumps` returns of a loaded database the bytes of the loaded buffer up to the size
-- in its header. If that is no less than the header's, these bytes are themselves a database with the
-- same fields.
pub loads-dumps :
    (db db' d : Ddb) (data_ : List ℕ) (n : ℕ)
    → loads db data_ n ≡ loaded d
    → sizeof_header ≤ d.size
    → (dumps true d ≡ (some (take d.size data_, d.size), d))
      × (loads db' (take d.size data_) d.size ≡ loaded (record d { buf = take d.size data_ }))
      × (length data_ ≡ n → length (take d.size data_) ≡ d.size)
unfolding dumps opened
loads-dumps db db' d data_ n h room =
    let c = loads-Checked db data_ n d h in
    let same = take-Agree d.size data_ in
    let copied : take d.size d.buf ≡ take d.size data_ =
      ap (λ (x : Ddb). take d.size x.buf) c.whole in
    let size : load 8 8 (take d.size data_) ≡ d.size =
      same 8 8 (omega arith) ∙ ap (λ (x : Ddb). x.size) (sym c.whole) in
    let fits : d.size ≤ n = omega (arith, c.inside, ap (λ (x : Ddb). x.size) c.whole) in
    (
      ap (λ (t : List ℕ). (some (t, d.size), d)) copied,
      loads-open db' (take d.size data_) d.size room (same 8 0 (omega arith) ∙ c.magical)
            (omega (arith, size))
          ∙ ap loaded (opened-take db' db d.size data_ room)
          ∙ ap (λ (x : Ddb). loaded (record x { buf = take d.size data_ })) (sym c.whole),
      λ (long : length data_ ≡ n). omega (arith, length-take d.size data_),
    )
