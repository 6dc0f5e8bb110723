-- ===== src/Huffman/Leaves.antt =====
-- No symbol is lost: each one in reach gets the word of its path in the tree, and the code map has it.
use discodb.Common.{
  ℕ, zero, suc, ◌+◌, ◌*◌, ◌^◌, ◌≤◌, ◌<◌, ◌≡◌, ◌≢◌, refl, sym, ap, ◌∙◌, arith, Bool, true, false,
  not, ◌&&◌, ◌||◌, some, List, [], ◌∷◌, ◌++◌, ltb, ◌==◌, if◌then◌else◌, bit_or, length, All,
  All-append, Bool-cases, inl, inr, pow-add, ==_iff, ==_refl, ne→==_false,
}
use mathlib.Core.Path.{subst}
use discodb.Huffman.Codec.{huff_code, huff_bits}
use discodb.Huffman.Code.{
  Tree, null, symbol, node, is_null, Code, allocate_codewords, assigned, find,
}
use discodb.Huffman.Prefix.{right_code}
use discodb.Huffman.Book.{IsWord}
use discodb.Huffman.Codemap.{words_of, allocated-IsWords, All-assigned, packed_code, packed_bits}

-- The subtree at the end of a path, which goes to the right at `true`.
abbrev pub subtree : List Bool → Tree → Tree
subtree [] t = t
subtree (b ∷ p) null = null
subtree (b ∷ p) (symbol i w) = null
subtree (b ∷ p) (node l r w) = if b then subtree p r else subtree p l

-- The path as a number, whose lowest bit is the first step.
abbrev pub path_code : List Bool → ℕ
path_code [] = 0
path_code (b ∷ p) = (if b then 1 else 0) + 2 * path_code p

-- The word is that of a path to the symbol, in a subtree with the word `code` of `depth` bits.
abbrev Leads : Tree → ℕ → ℕ → Code → Type 0
Leads t code depth c =
    (p : List Bool) × (w : ℕ) × (subtree p t ≡ symbol c.index w)
    × (c.code ≡ code + 2 ^ depth * path_code p)
    × (c.num_bits ≡ depth + length p)

All-map : {P Q : Code → Type 0} (f : (c : Code) → P c → Q c) (cs : List Code) → All P cs → All Q cs
All-map f [] h = tt
All-map f (c ∷ cs) h = (f c h.0, All-map f cs h.1)

double : (d : ℕ) → 2 ^ (d + 1) ≡ 2 ^ d * 2
double d = pow-add 2 d 1

right_word : (d y : ℕ) → 2 ^ d * (1 + 2 * y) ≡ 2 ^ d + 2 ^ (d + 1) * y
right_word d y = rw (double d) (spread (2 ^ d) y)
  where
    spread : (a y : ℕ) → a * (1 + 2 * y) ≡ a + a * 2 * y
    spread a y = grind arith

left_word : (d y : ℕ) → 2 ^ d * (0 + 2 * y) ≡ 2 ^ (d + 1) * y
left_word d y = rw (double d) (spread (2 ^ d) y)
  where
    spread : (a y : ℕ) → a * (0 + 2 * y) ≡ a * 2 * y
    spread a y = grind arith

right_Leads :
    (l r : Tree) (w code depth : ℕ) (c : Code)
    → Leads r (code + 2 ^ depth) (depth + 1) c
    → Leads (node l r w) code depth c
right_Leads l r w code depth c (p, v, at, word, bits) =
    (true ∷ p, v, at, omega (arith, word, right_word depth (path_code p)), omega (arith, bits))

left_Leads :
    (l r : Tree) (w code depth : ℕ) (c : Code)
    → Leads l code (depth + 1) c
    → Leads (node l r w) code depth c
left_Leads l r w code depth c (p, v, at, word, bits) =
    (false ∷ p, v, at, omega (arith, word, left_word depth (path_code p)), omega (arith, bits))

allocate_codewords-Leads :
    (fuel : ℕ) (t : Tree) (code depth : ℕ)
    → code < 2 ^ depth
    → All (Leads t code depth) (allocate_codewords fuel t code depth)
unfolding allocate_codewords
allocate_codewords-Leads fuel null code depth h = tt
allocate_codewords-Leads fuel (symbol i w) code depth h =
    (([], w, refl, omega arith, omega arith), tt)
allocate_codewords-Leads zero (node l r w) code depth h = tt
allocate_codewords-Leads (suc fuel) (node l r w) code depth h =
    elim (Bool-cases (ltb depth 16 && (not (is_null l) || not (is_null r)))) [
      | inr e ↦ rw e tt
      | inl e ↦
          rw (e, right_code code depth h)
            (All-append _ _ _
              (All-map (right_Leads l r w code depth) _ (
                allocate_codewords-Leads fuel r (code + 2 ^ depth) (depth + 1)
                  (omega (arith, pow-add 2 depth 1))))
              (All-map (left_Leads l r w code depth) _ (
                allocate_codewords-Leads fuel l code (depth + 1)
                  (omega (arith, pow-add 2 depth 1)))))
    ]

-- How many words a symbol has.
abbrev count : ℕ → List Code → ℕ
count i [] = 0
count i (c ∷ cs) = (if c.index == i then 1 else 0) + count i cs

count-append : (i : ℕ) (cs ds : List Code) → count i (cs ++ ds) ≡ count i cs + count i ds
count-append i [] ds = omega arith
count-append i (c ∷ cs) ds = omega (arith, count-append i cs ds)

subtree_null : (p : List Bool) (i w : ℕ) → subtree p null ≢ symbol i w
subtree_null [] i w e = absurd (cc)
subtree_null (b ∷ p) i w e = absurd (cc)

subtree_live : (p : List Bool) (t : Tree) (i w : ℕ) → subtree p t ≡ symbol i w → is_null t ≡ false
subtree_live p null i w at = absurd (subtree_null p i w at)
subtree_live p (symbol j v) i w at = refl
subtree_live p (node l r v) i w at = refl

allocate_codewords-count :
    (fuel : ℕ) (t : Tree) (code depth : ℕ) (p : List Bool) (i w : ℕ)
    → subtree p t ≡ symbol i w
    → length p ≤ fuel
    → depth + fuel ≤ 16
    → 0 < count i (allocate_codewords fuel t code depth)
unfolding allocate_codewords
allocate_codewords-count fuel null code depth p i w at short le = absurd (subtree_null p i w at)
allocate_codewords-count fuel (symbol j v) code depth [] i w at short le =
    let same : j ≡ i = cc in let hit : (j == i) ≡ true = ground arith in rw hit (omega arith)
allocate_codewords-count fuel (symbol j v) code depth (b ∷ p) i w at short le = absurd (cc)
allocate_codewords-count zero (node l r v) code depth [] i w at short le = absurd (cc)
allocate_codewords-count zero (node l r v) code depth (b ∷ p) i w at short le = absurd (omega arith)
allocate_codewords-count (suc fuel) (node l r v) code depth [] i w at short le = absurd (cc)
allocate_codewords-count (suc fuel) (node l r v) code depth (true ∷ p) i w at short le =
    let live : is_null r ≡ false = subtree_live p r i w at in
    let open_ : (ltb depth 16 && (not (is_null l) || not (is_null r))) ≡ true = ground arith in
    let right = allocate_codewords fuel r (bit_or code (2 ^ depth)) (depth + 1) in
    let some_right =
      allocate_codewords-count fuel r (bit_or code (2 ^ depth)) (depth + 1) p i w at (omega arith)
        (omega arith) in
    rw open_
      (omega (arith, count-append i right (allocate_codewords fuel l code (depth + 1)), some_right))
allocate_codewords-count (suc fuel) (node l r v) code depth (false ∷ p) i w at short le =
    let live : is_null l ≡ false = subtree_live p l i w at in
    let open_ : (ltb depth 16 && (not (is_null l) || not (is_null r))) ≡ true = ground arith in
    let right = allocate_codewords fuel r (bit_or code (2 ^ depth)) (depth + 1) in
    let some_left =
      allocate_codewords-count fuel l code (depth + 1) p i w at (omega arith) (omega arith) in
    rw open_
      (omega (arith, count-append i right (allocate_codewords fuel l code (depth + 1)), some_left))

assigned-index : (i : ℕ) (cs : List Code) → 0 < count i cs → (assigned i cs).index ≡ i
assigned-index i [] h = absurd (omega arith)
assigned-index i (c ∷ cs) h = elim (Bool-cases (c.index == i)) [
  | inl e ↦ rw e ((==_iff _ _).0 e)
  | inr e ↦ rw e (assigned-index i cs (ground arith))
]

-- Like `All-assigned`, for a symbol that has a word, be it empty.
assigned-All :
    (P : Code → Type 0) (i : ℕ) (cs : List Code) → All P cs → 0 < count i cs → P (assigned i cs)
assigned-All P i [] h some_word = absurd (omega arith)
assigned-All P i (c ∷ cs) h some_word = elim (Bool-cases (c.index == i)) [
  | inl e ↦ rw e h.0
  | inr e ↦ rw e (assigned-All P i cs h.1 (ground arith))
]

-- No path goes on from a leaf.
leaf_root :
    (q p : List Bool) (t : Tree) (i u w : ℕ)
    → subtree q t ≡ symbol i u
    → subtree p t ≡ symbol i w
    → 0 < length p
    → length q ≢ 0
leaf_root [] [] t i u w at_q at_p pos empty = omega arith
leaf_root [] (b ∷ p) t i u w at_q at_p pos empty =
    let clash : null ≡ symbol i w =
      subst (λ (k : Tree). subtree (b ∷ p) k ≡ symbol i w) at_q at_p in
    absurd (cc)
leaf_root (b ∷ q) p t i u w at_q at_p pos empty = omega arith

module _ (symbol_of : ℕ → ℕ) where
  -- Different indices below `num` stand for different symbols.
  abbrev pub IsTable : ℕ → Type 0
  IsTable num = (i j : ℕ) → i < num → j < num → symbol_of i ≡ symbol_of j → i ≡ j

  find-words_of :
      (codes : List Code) (i n : ℕ)
      → i < n
      → IsTable n
      → (assigned i codes).num_bits ≢ 0
      → find (words_of symbol_of codes n) (symbol_of i)
        ≡ some (bit_or (assigned i codes).code ((assigned i codes).num_bits * 2 ^ 16))
  find-words_of codes i zero lt table more = absurd (omega arith)
  find-words_of codes i (suc n) lt table more = elim (Bool-cases (n == i)) [
    | inl here ↦
        let same : n ≡ i = (==_iff n i).0 here in
        let word : ((assigned n codes).num_bits == 0) ≡ false =
          subst (λ (k : ℕ). ((assigned k codes).num_bits == 0) ≡ false) (sym same)
            (ne→==_false _ _ more) in
        rw word (
          subst
            (λ (k : ℕ).
              find
                ((
                  symbol_of k,
                  bit_or (assigned k codes).code ((assigned k codes).num_bits * 2 ^ 16),
                )
                  ∷ words_of symbol_of codes n)
                (symbol_of i)
              ≡ some (bit_or (assigned i codes).code ((assigned i codes).num_bits * 2 ^ 16)))
            (sym same) (rw (==_refl (symbol_of i)) refl))
    | inr past ↦
        let below : i < n = ground arith in
        let found =
          find-words_of codes i n below (λ a b la lb. table a b (omega arith) (omega arith)) more in
        elim (Bool-cases ((assigned n codes).num_bits == 0)) [
          | inl e ↦ rw e found
          | inr e ↦
              let apart : (symbol_of n == symbol_of i) ≡ false =
                ne→==_false _ _ (λ s. let k = table n i (omega arith) lt s in ground arith) in
              rw (e, apart) found
        ]
  ]

  -- The map has for the symbol the word of a path to it.
  abbrev pub Coded : Tree → List (ℕ × ℕ) → ℕ → Type 0
  Coded t items i =
      (p : List Bool) × (w : ℕ) × (v : ℕ) × (subtree p t ≡ symbol i w)
      × (find items (symbol_of i) ≡ some v)
      × (huff_code v ≡ path_code p)
      × (huff_bits v ≡ length p)

  -- A symbol that stands from 1 to 16 steps below the root has a word.
  abbrev pub CodesAll : Tree → List (ℕ × ℕ) → ℕ → Type 0
  CodesAll t items num =
      (i : ℕ) (p : List Bool) (w : ℕ)
      → i < num
      → subtree p t ≡ symbol i w
      → 0 < length p
      → length p ≤ 16
      → Coded t items i

  pub words_of-CodesAll :
      (t : Tree) (num : ℕ)
      → IsTable num
      → CodesAll t (words_of symbol_of (allocate_codewords 16 t 0 0) num) num
  words_of-CodesAll t num table i p w lt at pos short =
      let codes = allocate_codewords 16 t 0 0 in
      let some_word = allocate_codewords-count 16 t 0 0 p i w at short (omega arith) in
      let index = assigned-index i codes some_word in
      let (q, u, at_q, word, bits) =
        assigned-All (Leads t 0 0) i codes (allocate_codewords-Leads 16 t 0 0 (omega arith))
          some_word in
      let at_i : subtree q t ≡ symbol i u = at_q ∙ ap (λ (k : ℕ). symbol k u) index in
      let more : (assigned i codes).num_bits ≢ 0 =
        λ z. leaf_root q p t i u w at_i at pos (omega (arith, bits, z)) in
      let is = All-assigned IsWord i codes (allocated-IsWords t).0 more in
      (
        q,
        u,
        bit_or (assigned i codes).code ((assigned i codes).num_bits * 2 ^ 16),
        at_i,
        find-words_of codes i num lt table more,
        packed_code (assigned i codes) is ∙ omega (arith, word),
        packed_bits (assigned i codes) is ∙ omega (arith, bits),
      )
