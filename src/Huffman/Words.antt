-- ===== src/Huffman/Words.antt =====
-- `huffman_code` as a whole: it gives the words of one tree over all symbols, and these make a code
-- map and a code book that agree.
use discodb.Common.{
  ℕ, zero, suc, ◌*◌, ◌%◌, ◌^◌, ◌≤◌, ◌≡◌, refl, ap, arith, Bool, true, false, Option, none, some,
  List, [], ◌∷◌, length, Bool-cases, inl, inr, ◌⊎◌,
}
use discodb.Queue.{Queue, queue_new, queue_pop}
use discodb.Queue.Contents.{contents, rest, queue_new-IsNew, queue_pop-contents}
use discodb.Huffman.Codec.{Codeword}
use discodb.Huffman.Tokens.{Agrees}
use discodb.Huffman.Code.{
  Tree, null, Code, Symbols, huffman_code, merge, allocate_codewords, make_codebook, save_codemap,
  save_items, find, Request, new_cursor,
}
use discodb.Huffman.Merge.{
  held, held_all, given, popped, held-front, length-rest, contents-count, Enough, Merged,
  merge-Merged,
}
use discodb.Huffman.Codemap.{words_of, make_codebook_lem, allocated-Agrees}
use discodb.Huffman.Leaves.{IsTable, CodesAll, words_of-CodesAll}

none_held : (i : ℕ) (ts : List Tree) → length ts ≡ 0 → held_all i ts ≡ 0
none_held i [] h = refl
none_held i (t ∷ ts) h = absurd (omega arith)

-- The tree that the last pop takes holds what all the symbols are.
root-held :
    (symbols : Symbols) (q q' : Queue Tree)
    → q.count ≡ 0
    → Merged symbols q q'
    → (i : ℕ) → held i (popped (queue_pop q').0) ≡ given i symbols
root-held symbols q q' start m i =
    let p = queue_pop-contents q' m.valid in
    omega (
      arith,
      m.kept i,
      ap (λ t. held i (popped t)) p.0,
      held-front i (contents q'),
      none_held i (rest (contents q'))
          (omega (arith, length-rest (contents q'), contents-count q', m.single)),
      none_held i (contents q) (omega (arith, contents-count q, start)),
    )

-- What `ddb_save_codemap` makes of the code map: a book that agrees with it, or -1 for want of memory.
abbrev pub Saves : (Request → Bool) → List (ℕ × ℕ) → Option (ℕ → Codeword) → Type 0
Saves memory items result =
    ((memory new_cursor ≡ false) × (result ≡ none))
    ⊎ ((book : ℕ → Codeword) × (result ≡ some book) × Agrees (find items) book)

-- What `make_codebook` makes of the words: the map of the words of all symbols in reach, from which the
-- code book is filled; or NULL for want of memory.
abbrev pub Mapped :
    (Request → Bool) → (ℕ → ℕ) → (ℕ → Codeword) → Tree → ℕ → Option (List (ℕ × ℕ)) → Type 0
Mapped memory symbol_of blank t num result =
    ((r : Request) × (memory r ≡ false) × (result ≡ none))
    ⊎ ((items : List (ℕ × ℕ)) × (result ≡ some items)
        × CodesAll symbol_of t items num
        × Saves memory items (save_codemap memory items blank))

-- `t` is the code's tree: it holds every symbol as often as it was given, and the code map made of its
-- words has the word of each symbol in reach.
pub record IsCodeTree (memory : Request → Bool) (symbol_of : ℕ → ℕ) (blank : ℕ → Codeword)
    (symbols : Symbols) (num : ℕ) (t : Tree) : Type 0 where
  pub complete : (i : ℕ) → held i t ≡ given i symbols
  pub mapped :
      Mapped memory symbol_of blank t num
        (make_codebook memory symbol_of (allocate_codewords 16 t 0 0) num)

saves :
    (memory : Request → Bool) (items : List (ℕ × ℕ)) (blank : ℕ → Codeword)
    → Agrees (find items) (save_items items blank)
    → Saves memory items (save_codemap memory items blank)
unfolding save_codemap
saves memory items blank h = elim (Bool-cases (memory new_cursor)) [
  | inr refused ↦ rw refused (inl (refl, refl))
  | inl met ↦ rw met (inr (save_items items blank, refl, h))
]

mapped :
    (memory : Request → Bool) (symbol_of : ℕ → ℕ) (blank : ℕ → Codeword) (t : Tree) (num : ℕ)
    → IsTable symbol_of num
    → Mapped memory symbol_of blank t num
        (make_codebook memory symbol_of (allocate_codewords 16 t 0 0) num)
mapped memory symbol_of blank t num table =
    elim (make_codebook_lem memory symbol_of (allocate_codewords 16 t 0 0) num) [
      | inl failed ↦ inl failed
      | inr made ↦ inr (
        words_of symbol_of (allocate_codewords 16 t 0 0) num,
        made,
        words_of-CodesAll symbol_of t num table,
        saves memory _ blank (allocated-Agrees t num symbol_of blank),
      )
    ]

abbrev pub Codes :
    (Request → Bool)
    → (ℕ → ℕ)
    → (ℕ → Codeword)
    → (ℕ → Bool)
    → Symbols
    → ℕ
    → Option (List Code)
    → Type 0
Codes memory symbol_of blank available symbols num result =
    ((n : ℕ) × (available n ≡ false) × (result ≡ none))
    ⊎ ((t : Tree) × (result ≡ some (allocate_codewords 16 t 0 0))
        × IsCodeTree memory symbol_of blank symbols num t)

module _ (available : ℕ → Bool) (junk : ℕ → Tree) (sizeof_hnode n : ℕ) (symbols : Symbols) where
  no_queue :
      queue_new available junk (suc n * 2 % 2 ^ 32) ≡ none
      → huffman_code available junk sizeof_hnode symbols (suc n) ≡ none
  unfolding huffman_code
  no_queue e = ground arith

  no_nodes :
      (q : Queue Tree)
      → queue_new available junk (suc n * 2 % 2 ^ 32) ≡ some q
      → available (suc n * sizeof_hnode) ≡ false
      → huffman_code available junk sizeof_hnode symbols (suc n) ≡ none
  unfolding huffman_code
  no_nodes q e refused = ground arith

  runs :
      (q q' : Queue Tree)
      → queue_new available junk (suc n * 2 % 2 ^ 32) ≡ some q
      → available (suc n * sizeof_hnode) ≡ true
      → merge (suc n) symbols q ≡ some q'
      → huffman_code available junk sizeof_hnode symbols (suc n)
        ≡ some (allocate_codewords 16 (popped (queue_pop q').0) 0 0)
  unfolding huffman_code
  runs q q' e met merged = ground arith

module _ (memory : Request → Bool) (symbol_of : ℕ → ℕ) (blank : ℕ → Codeword) where
  -- Of at most 2 ^ 16 different symbols, `huffman_code` fails only when a request for memory does.
  -- Otherwise it gives out the words of one tree that holds each symbol as often as it was given. Then
  -- `make_codebook` fails only for want of memory too, and otherwise its code map has, for each symbol
  -- that stands from 1 to 16 steps below the root, the word of a path to it; and `ddb_save_codemap`
  -- fails for want of memory, or each word of the map is found in its book under all its continuations.
  pub huffman_code-Codes :
      (available : ℕ → Bool) (junk : ℕ → Tree) (sizeof_hnode num : ℕ) (symbols : Symbols)
      → IsTable symbol_of num
      → length symbols ≡ num
      → num ≤ 2 ^ 16
      → Codes memory symbol_of blank available symbols num
          (huffman_code available junk sizeof_hnode symbols num)
  unfolding huffman_code allocate_codewords
  huffman_code-Codes available junk sizeof_hnode zero [] table len small = inr (
    null,
    refl,
    record { complete = λ i. refl; mapped = mapped memory symbol_of blank null 0 table },
  )
  huffman_code-Codes available junk sizeof_hnode zero (s ∷ ss) table len small =
      absurd (omega arith)
  huffman_code-Codes available junk sizeof_hnode (suc n) symbols table len small =
      let slots : suc n * 2 % 2 ^ 32 ≡ suc n * 2 = omega arith in
      elim (queue_new-IsNew available junk (suc n * 2 % 2 ^ 32) (omega arith) (omega arith)) [
        | inl (m, refused, failed) ↦
            inl (m, refused, no_queue available junk sizeof_hnode n symbols failed)
        | inr (q, made, new) ↦ elim (Bool-cases (available (suc n * sizeof_hnode))) [
          | inr refused ↦ inl (
            suc n * sizeof_hnode,
            refused,
            no_nodes available junk sizeof_hnode n symbols q made refused,
          )
          | inl met ↦
              let enough : Enough (suc n) symbols q = record {
                valid = new.valid;
                slots = omega (arith, new.unused, new.size, slots);
                rounds = omega (arith, new.none_left);
                first = inr (omega arith);
                some_left = omega arith;
              } in
              let (q', merged, m) = merge-Merged (suc n) symbols q enough in
              inr (
                popped (queue_pop q').0,
                runs available junk sizeof_hnode n symbols q q' made met merged,
                record {
                  complete = root-held symbols q q' new.none_left m;
                  mapped = mapped memory symbol_of blank (popped (queue_pop q').0) (suc n) table;
                },
              )
        ]
      ]
