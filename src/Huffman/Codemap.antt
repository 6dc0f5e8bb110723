-- ===== src/Huffman/Codemap.antt =====
-- The words of `huffman_code` make a code map without conflicts.
use discodb.Common.{
  ℕ, zero, suc, ◌*◌, ◌%◌, ◌-◌, ◌^◌, ◌≤◌, ◌<◌, ◌≡◌, ◌≢◌, refl, sym, arith, false, List, [], ◌∷◌, map,
  ◌==◌, bit_or, All, Bool-cases, inl, inr, if◌then◌else◌, ◌⊎◌, none, some, Bool, pow-split, pow-pos,
}
use discodb.Huffman.Codec.{Codeword, huff_code, huff_bits}
use discodb.Huffman.Code.{
  Tree, Code, allocate_codewords, assigned, Request, new_map, insertion, insert_words,
  make_codebook, save_items, find,
}
use discodb.Huffman.Tokens.{Agrees}
use discodb.Huffman.Prefix.{Apart, PrefixFree, IsBelow, bit_or-high, allocate_codewords-IsCode}
use discodb.Huffman.Book.{word, IsWord, IsCodemap, save_items-Agrees}
use mathlib.Core.Path.{subst₂}

-- The words of a tree.
abbrev pub IsWords : List Code → Type 0
IsWords codes = All IsWord codes × PrefixFree codes

below-IsWord : (codes : List Code) → All (IsBelow 0 0) codes → All IsWord codes
below-IsWord [] h = tt
below-IsWord (c ∷ cs) h = (record { short = h.0.short; fits = h.0.fits }, below-IsWord cs h.1)

pub allocated-IsWords : (t : Tree) → IsWords (allocate_codewords 16 t 0 0)
allocated-IsWords t =
    let c = allocate_codewords-IsCode 16 t 0 0 (omega arith) (omega arith) in
    (below-IsWord _ c.0, c.1)

pub All-assigned :
    (P : Code → Type 0) (i : ℕ) (codes : List Code)
    → All P codes
    → (assigned i codes).num_bits ≢ 0
    → P (assigned i codes)
All-assigned P i [] h given = absurd (given refl)
All-assigned P i (c ∷ cs) h given = elim (Bool-cases (c.index == i)) [
  | inl e ↦ rw e h.0
  | inr e ↦ rw e (All-assigned P i cs h.1 (rw e at given))
]

Apart-sym : (a b : Code) → Apart a b → Apart b a
Apart-sym a b h x eb ea = h x ea eb

assigned-Apart :
    (i j : ℕ) (codes : List Code)
    → PrefixFree codes
    → i ≢ j
    → (assigned i codes).num_bits ≢ 0
    → (assigned j codes).num_bits ≢ 0
    → Apart (assigned i codes) (assigned j codes)
assigned-Apart i j [] free ne gi gj = absurd (gi refl)
assigned-Apart i j (c ∷ cs) free ne gi gj = elim (Bool-cases (c.index == i)) [
  | inl ei ↦ elim (Bool-cases (c.index == j)) [
    | inl ej ↦ absurd (ground (arith, ne))
    | inr ej ↦ rw (ei, ej) (All-assigned (Apart c) j cs free.0 (rw ej at gj))
  ]
  | inr ei ↦ elim (Bool-cases (c.index == j)) [
    | inl ej ↦
        rw (ei, ej) (Apart-sym c (assigned i cs) (All-assigned (Apart c) i cs free.0 (rw ei at gi)))
    | inr ej ↦ rw (ei, ej) (assigned-Apart i j cs free.1 ne (rw ei at gi) (rw ej at gj))
  ]
]

code_small : (c : Code) → IsWord c → c.code < 2 ^ 16
code_small c w =
    let split = pow-split 16 c.num_bits w.short in
    let rest = pow-pos (16 - c.num_bits) in let fits = w.fits in grind arith

-- The value in the code map holds the word.
pub packed_code : (c : Code) → IsWord c → huff_code (bit_or c.code (c.num_bits * 2 ^ 16)) ≡ c.code
packed_code c w =
    let small : c.code < 2 ^ 16 = code_small c w in
    rw (bit_or-high 16 c.code c.num_bits small) (omega arith)

pub packed_bits :
    (c : Code) → IsWord c → huff_bits (bit_or c.code (c.num_bits * 2 ^ 16)) ≡ c.num_bits
packed_bits c w =
    let small : c.code < 2 ^ 16 = code_small c w in
    rw (bit_or-high 16 c.code c.num_bits small) (omega (arith, w.short))

-- The items of the words of the symbols below a number, the last one first.
abbrev pub words_of : (ℕ → ℕ) → List Code → ℕ → List (ℕ × ℕ)
words_of symbol_of codes zero = []
words_of symbol_of codes (suc i) =
    let c = assigned i codes in
    let rest = words_of symbol_of codes i in
    if c.num_bits == 0 then rest else (symbol_of i, bit_or c.code (c.num_bits * 2 ^ 16)) ∷ rest

pub given : (n : ℕ) → (n == 0) ≡ false → n ≢ 0
given n e = ground arith

module _ (symbol_of : ℕ → ℕ) (codes : List Code) (h : IsWords codes) where
  -- What the words of the symbols below `n` have in common holds of the items.
  words_of-All :
      (P : ℕ → ℕ → Type 0) (n : ℕ)
      → ((j : ℕ)
          → j < n
          → (assigned j codes).num_bits ≢ 0
          → P (assigned j codes).code (assigned j codes).num_bits)
      → All (λ c. P c.code c.num_bits) (map word (words_of symbol_of codes n))
  words_of-All P zero each = tt
  words_of-All P (suc n) each =
      let rest = words_of-All P n (λ j lt. each j (omega arith)) in
      elim (Bool-cases ((assigned n codes).num_bits == 0)) [
        | inl e ↦ rw e rest
        | inr e ↦
            let c = assigned n codes in
            let some_bits = given c.num_bits e in
            let w = All-assigned IsWord n codes h.0 some_bits in
            rw e (
              subst₂ P (sym (packed_code c w)) (sym (packed_bits c w))
                  (each n (omega arith) some_bits),
              rest,
            )
      ]

  words_of-PrefixFree : (n : ℕ) → PrefixFree (map word (words_of symbol_of codes n))
  words_of-PrefixFree zero = tt
  words_of-PrefixFree (suc n) =
      let rest = words_of-PrefixFree n in
      elim (Bool-cases ((assigned n codes).num_bits == 0)) [
        | inl e ↦ rw e rest
        | inr e ↦
            let c = assigned n codes in
            let some_bits = given c.num_bits e in
            let w = All-assigned IsWord n codes h.0 some_bits in
            let Free : ℕ → ℕ → Type 0 = λ code bits.
              All (λ d. (x : ℕ) → x % 2 ^ bits ≡ code → x % 2 ^ d.num_bits ≡ d.code → ⊥)
                (map word (words_of symbol_of codes n)) in
            rw e (
              subst₂ Free (sym (packed_code c w)) (sym (packed_bits c w)) (
                  words_of-All
                    (λ code bits. (x : ℕ) → x % 2 ^ c.num_bits ≡ c.code → x % 2 ^ bits ≡ code → ⊥) n
                    (λ j lt more. assigned-Apart n j codes h.1 (omega arith) some_bits more)),
              rest,
            )
      ]

  words_of-IsCodemap : (n : ℕ) → IsCodemap (words_of symbol_of codes n)
  words_of-IsCodemap n = (
    All-IsWord (words_of symbol_of codes n) (
        words_of-All (λ code bits. (bits ≤ 16) × (code < 2 ^ bits)) n
          (λ j lt more. let w = All-assigned IsWord j codes h.0 more in (w.short, w.fits))),
    words_of-PrefixFree n,
  )
    where
      All-IsWord :
          (items : List (ℕ × ℕ))
          → All (λ c. (c.num_bits ≤ 16) × (c.code < 2 ^ c.num_bits)) (map word items)
          → All IsWord (map word items)
      All-IsWord [] a = tt
      All-IsWord (i ∷ items) a = (record { short = a.0.0; fits = a.0.1 }, All-IsWord items a.1)

-- The loop puts the items of all words into the map, or memory for one of them is refused.
insert_words_lem :
    (memory : Request → Bool) (symbol_of : ℕ → ℕ) (codes : List Code) (n : ℕ)
    → ((r : Request) × (memory r ≡ false) × (insert_words memory symbol_of codes n ≡ none))
      ⊎ (insert_words memory symbol_of codes n ≡ some (words_of symbol_of codes n))
unfolding insert_words
insert_words_lem memory symbol_of codes zero = inr refl
insert_words_lem memory symbol_of codes (suc i) =
    let rest = insert_words_lem memory symbol_of codes i in
    elim (Bool-cases ((assigned i codes).num_bits == 0)) [
      | inl e ↦ rw e rest
      | inr e ↦ elim (Bool-cases (memory (insertion (symbol_of i)))) [
        | inr refused ↦ rw (e, refused) (inl (insertion (symbol_of i), refused, refl))
        | inl met ↦ elim rest [
          | inl (r, refused, failed) ↦ rw (e, met, failed) (inl (r, refused, refl))
          | inr done ↦ rw (e, met, done) (inr refl)
        ]
      ]
    ]

pub make_codebook_lem :
    (memory : Request → Bool) (symbol_of : ℕ → ℕ) (codes : List Code) (n : ℕ)
    → ((r : Request) × (memory r ≡ false) × (make_codebook memory symbol_of codes n ≡ none))
      ⊎ (make_codebook memory symbol_of codes n ≡ some (words_of symbol_of codes n))
unfolding make_codebook
make_codebook_lem memory symbol_of codes n = elim (Bool-cases (memory new_map)) [
  | inr refused ↦ rw refused (inl (new_map, refused, refl))
  | inl met ↦ rw met (insert_words_lem memory symbol_of codes n)
]

-- The items of a code map made from the words of a tree agree with the book filled from them.
pub allocated-Agrees :
    (t : Tree) (num : ℕ) (symbol_of : ℕ → ℕ) (book : ℕ → Codeword)
    → Agrees
        (find (words_of symbol_of (allocate_codewords 16 t 0 0) num))
        (save_items (words_of symbol_of (allocate_codewords 16 t 0 0) num) book)
allocated-Agrees t num symbol_of book =
    save_items-Agrees _ book (words_of-IsCodemap symbol_of _ (allocated-IsWords t) num)
