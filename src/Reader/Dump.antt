-- ===== src/Reader/Dump.antt =====
-- `ddb_dump` of src/ddb.c: writing the buffer to a file in parts.
use discodb.Common.{
  ℕ, zero, suc, ◌+◌, ◌-◌, ◌≤◌, ◌<◌, ◌≡◌, refl, sym, ap, ◌∙◌, arith, Option, none, some, List, [],
  ◌∷◌, ◌++◌, ltb, if◌then◌else◌, take, drop, Bool-cases, Option-cases, ◌⊎◌, inl, inr,
}
use discodb.Reader.{Ddb}

abbrev pub err_writefailed : ℕ
err_writefailed = 8

-- What `ddb_dump` has written, and whether it has returned 0 or -1, or goes on.
pub data Dumped : Type 0 where
  complete : List ℕ → Dumped
  write_failed : List ℕ → Ddb → Dumped
  unfinished : List ℕ → Dumped

-- `write k c` is the result of the call `k` of `write` for `c` bytes; `none` is -1.
module _ (write : ℕ → ℕ → Option ℕ) (db : Ddb) where
  -- `size_t c`
  abbrev pub portion : ℕ → ℕ
  portion offs = if ltb 8192 (db.size - offs) then 8192 else db.size - offs

  unfoldable pub dump_loop : ℕ → ℕ → ℕ → List ℕ → Dumped
  dump_loop zero k offs out = unfinished out
  dump_loop (suc fuel) k offs out =
      let more : Dumped = elim (write k (portion offs)) [
        | none ↦ write_failed out (record db { errno = err_writefailed })
        | some n ↦ dump_loop fuel (suc k) (offs + n) (out ++ take n (drop offs db.buf))
      ] in
      if ltb offs db.size then more else complete out

  -- A round for each byte, and one to see the end.
  unfoldable pub dump : Dumped
  dump = dump_loop (suc db.size) 0 0 []

-- POSIX: a call of `write` for `c` bytes that succeeds has written at most `c` of them. A regular file
-- and a pipe in blocking mode take one at least.
abbrev pub IsWrite : (ℕ → ℕ → Option ℕ) → Type 0
IsWrite write = (k c n : ℕ) → write k c ≡ some n → (n ≤ c) × (0 < c → 0 < n)

-- All of the buffer has been written; or a call has failed, `errno` says so, and the bytes before
-- `offs` have been written.
abbrev pub DumpOutcome : (ℕ → ℕ → Option ℕ) → Ddb → Dumped → Type 0
DumpOutcome write db r =
    (r ≡ complete (take db.size db.buf))
    ⊎ ((k c offs : ℕ) × (write k c ≡ none)
        × (offs < db.size)
        × (r ≡ write_failed (take offs db.buf) (record db { errno = err_writefailed })))

take_more : (m n : ℕ) (xs : List ℕ) → take m xs ++ take n (drop m xs) ≡ take (m + n) xs
take_more zero n xs = let e : n ≡ 0 + n = omega arith in ap (λ (t : ℕ). take t xs) e
take_more (suc m) n [] = nil n ∙ sym (nil (suc m + n))
  where
    nil : (n : ℕ) → take {A = ℕ} n [] ≡ []
    nil zero = refl
    nil (suc n) = refl
take_more (suc m) n (x ∷ xs) =
    let e : suc (m + n) ≡ suc m + n = omega arith in
    ap (λ t. x ∷ t) (take_more m n xs) ∙ ap (λ (t : ℕ). take t (x ∷ xs)) e

module _ (write : ℕ → ℕ → Option ℕ) (db : Ddb) (posix : IsWrite write) where
  dump_loop-Outcome :
      (fuel k offs : ℕ)
      → db.size < offs + fuel
      → offs ≤ db.size
      → DumpOutcome write db (dump_loop write db fuel k offs (take offs db.buf))
  unfolding dump_loop
  dump_loop-Outcome zero k offs enough inside = absurd (omega arith)
  dump_loop-Outcome (suc fuel) k offs enough inside = elim (Bool-cases (ltb offs db.size)) [
    | inr e ↦
        let all : offs ≡ db.size = ground arith in
        rw e (inl (ap (λ (t : ℕ). complete (take t db.buf)) all))
    | inl e ↦ elim (Option-cases (write k (portion write db offs))) [
      | inl failed ↦
          rw (e, failed) (inr (k, portion write db offs, offs, failed, ground arith, refl))
      | inr (n, wrote) ↦
          let (le, pos) = posix k (portion write db offs) n wrote in
          let some_left : 0 < portion write db offs = ground arith in
          let at_most : portion write db offs ≤ db.size - offs = ground arith in
          rw (e, wrote, take_more offs n db.buf)
            (dump_loop-Outcome fuel (suc k) (offs + n) (omega (arith, pos some_left))
              (omega (arith, at_most, le)))
    ]
  ]

  -- If each call of `write` that succeeds writes no more bytes than it is given, and at least one of
  -- them, then `ddb_dump` ends: it has written the bytes of the database in their order, all of them,
  -- or, if a call fails, those before it, and the errno says so.
  pub dump-Outcome : DumpOutcome write db (dump write db)
  unfolding dump
  dump-Outcome = dump_loop-Outcome (suc db.size) 0 0 (omega arith) (omega arith)
