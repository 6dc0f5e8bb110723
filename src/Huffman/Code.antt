-- ===== src/Huffman/Code.antt =====
-- The choice of the code: `huffman_code` with `allocate_codewords`, `make_codebook` and
-- `ddb_save_codemap`.
-- A node of the tree is a value: a pointer into `symbols` is the symbol's index, a pointer into
-- `newnodes` the node itself, and NULL the empty tree. `symbols` is given by its weights, the last
-- one least.
use discodb.Common.{
  ℕ, zero, suc, ◌+◌, ◌-◌, ◌*◌, ◌%◌, ◌^◌, Bool, true, false, not, ◌&&◌, ◌||◌, Option, none, some,
  List, [], ◌∷◌, ◌++◌, ltb, ◌==◌, if◌then◌else◌, update, bit_or,
}
use mathlib.Core.Option
use discodb.Queue.{Queue, queue_new, queue_push, queue_pop, queue_peek, queue_length}
use discodb.Huffman.Codec.{Codeword, huff_code, huff_bits}

-- struct hnode as `huffman_code` builds it
pub data Tree : Type 0 where
  null : Tree
  symbol : (index weight : ℕ) → Tree
  node : (left right : Tree) (weight : ℕ) → Tree

-- `n ? n->weight: 0`
abbrev pub weight : Tree → ℕ
weight null = 0
weight (symbol i w) = w
weight (node l r w) = w

abbrev pub is_null : Tree → Bool
is_null null = true
is_null (symbol i w) = false
is_null (node l r w) = false

-- The code of a symbol: `node->code` and `node->num_bits`.
pub record Code : Type 0 where
  pub index : ℕ
  pub code : ℕ
  pub num_bits : ℕ

-- The symbols in reach that get a code. An inner node at depth 16 gets one for itself, and the
-- symbols below it none. `fuel` bounds the depth, which ends at 16. What is assigned last comes
-- first.
unfoldable pub allocate_codewords : ℕ → Tree → ℕ → ℕ → List Code
allocate_codewords fuel null code depth = []
allocate_codewords fuel (symbol i w) code depth =
    record { index = i; code = code; num_bits = depth } ∷ []
allocate_codewords zero (node l r w) code depth = []
allocate_codewords (suc fuel) (node l r w) code depth =
    let both =
      allocate_codewords fuel r (bit_or code (2 ^ depth)) (depth + 1)
      ++ allocate_codewords fuel l code (depth + 1) in
    if ltb depth 16 && (not (is_null l) || not (is_null r)) then both else []

-- `symbols[0 .. num_symbols]`, the last one first.
abbrev pub Symbols : Type 0
Symbols = List (ℕ × ℕ)

-- The tree taken, the symbols left, and the queue.
unfoldable pub pop_min_weight : Symbols → Queue Tree → Tree × Symbols × Queue Tree
pop_min_weight [] nodes =
    let (n, nodes') = queue_pop nodes in (elim n [ none ↦ null | some t ↦ t ], [], nodes')
pop_min_weight ((i, w) ∷ rest) nodes = elim (queue_peek nodes) [
  | none ↦ (symbol i w, rest, nodes)
  | some n ↦
      if ltb (weight n) w
      then (let (m, nodes') = queue_pop nodes in
          (elim m [ none ↦ null | some t ↦ t ], (i, w) ∷ rest, nodes'))
      else (symbol i w, rest, nodes)
]

-- One round takes two nodes and adds one. `none` is the call of `abort` in `ddb_queue_push`.
unfoldable pub merge_round : Symbols → Queue Tree → Option (Symbols × Queue Tree)
merge_round symbols nodes =
    let (left, symbols', nodes') = pop_min_weight symbols nodes in
    let (right, symbols'', nodes'') = pop_min_weight symbols' nodes' in
    elim (queue_push nodes'' (node left right ((weight left + weight right) % 2 ^ 64))) [
      | none ↦ none
      | some q ↦ some (symbols'', q)
    ]

-- `while (num || ddb_queue_length(nodes) > 1)`
unfoldable pub merge : ℕ → Symbols → Queue Tree → Option (Queue Tree)
merge zero symbols nodes = some nodes
merge (suc fuel) symbols nodes =
    let more : Option (Queue Tree) = elim (merge_round symbols nodes) [
      | none ↦ none
      | some (symbols', nodes') ↦ merge fuel symbols' nodes'
    ] in
    elim symbols [ [] ↦ if ltb 1 (queue_length nodes) then more else some nodes | s ∷ rest ↦ more ]

-- The words given to the symbols 0 .. num - 1 with the weights `weights`, the last one first.
-- `newnodes` has room for `num` nodes, which bounds the rounds. `none` is the return value -1 or
-- the call of `abort`.
unfoldable pub huffman_code : (ℕ → Bool) → (ℕ → Tree) → ℕ → Symbols → ℕ → Option (List Code)
huffman_code available junk sizeof_hnode symbols zero = some []
huffman_code available junk sizeof_hnode symbols (suc n) =
    elim (queue_new available junk (suc n * 2 % 2 ^ 32)) [
      | none ↦ none
      | some nodes ↦
          let rest : Option (List Code) = elim (merge (suc n) symbols nodes) [
            | none ↦ none
            | some nodes' ↦
                let (t, nodes'') = queue_pop nodes' in
                some (allocate_codewords 16 (elim t [ none ↦ null | some t ↦ t ]) 0 0)
          ] in
          if available (suc n * sizeof_hnode) then rest else none
    ]

-- `nodes[i].code` and `nodes[i].num_bits`, which `calloc` has cleared.
abbrev pub assigned : ℕ → List Code → Code
assigned i [] = record { index = i; code = 0; num_bits = 0 }
assigned i (c ∷ cs) = if c.index == i then c else assigned i cs

-- The requests for memory of the map: `ddb_map_new`, `ddb_map_insert_int` for a symbol, and
-- `ddb_map_cursor_new`.
pub data Request : Type 0 where
  new_map : Request
  insertion : ℕ → Request
  new_cursor : Request

module _ (memory : Request → Bool) (symbol_of : ℕ → ℕ) (codes : List Code) where
  -- `while (i--)`: the items of the code map in the order of insertion. The symbols are different, and
  -- the map has room for all of them, so that an insertion returns NULL only for want of memory.
  unfoldable pub insert_words : ℕ → Option (List (ℕ × ℕ))
  insert_words zero = some []
  insert_words (suc i) =
      let c = assigned i codes in
      let item : ℕ × ℕ = (symbol_of i, bit_or c.code (c.num_bits * 2 ^ 16)) in
      let rest = insert_words i in
      if c.num_bits == 0
      then rest
      else if memory (insertion (symbol_of i))
      then Option.map (λ (items : List (ℕ × ℕ)). item ∷ items) rest
      else none

  unfoldable pub make_codebook : ℕ → Option (List (ℕ × ℕ))
  make_codebook num_symbols = if memory new_map then insert_words num_symbols else none

-- `while (j--)` for one code word
unfoldable pub save_code : ℕ → ℕ → ℕ → ℕ → (ℕ → Codeword) → ℕ → Codeword
save_code s code n zero book = book
save_code s code n (suc j) book =
    save_code s code n j (update book (bit_or code (j * 2 ^ n)) (record { symbol = s; bits = n }))

-- `while (ddb_map_next_item_int(c, &symbol, &ptr))`
unfoldable pub save_items : List (ℕ × ℕ) → (ℕ → Codeword) → ℕ → Codeword
save_items [] book = book
save_items ((s, v) ∷ items) book =
    save_items items (save_code s (huff_code v) (huff_bits v) (2 ^ (16 - huff_bits v)) book)

-- `ddb_save_codemap`: `none` is the return value -1.
unfoldable pub save_codemap :
    (Request → Bool) → List (ℕ × ℕ) → (ℕ → Codeword) → Option (ℕ → Codeword)
save_codemap memory items book = if memory new_cursor then some (save_items items book) else none

-- What the code map has for a group: the value of its item.
abbrev pub find : List (ℕ × ℕ) → ℕ → Option ℕ
find [] key = none
find ((s, v) ∷ items) key = if s == key then some v else find items key
