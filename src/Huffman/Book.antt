-- ===== src/Huffman/Book.antt =====
-- The code book of `ddb_save_codemap` finds the words of the code map that `make_codebook` makes
-- from the words of `huffman_code`.
use discodb.Common.{
  ℕ, zero, suc, ◌*◌, ◌/◌, ◌%◌, ◌-◌, ◌^◌, ◌≤◌, ◌<◌, ◌≡◌, ◌≢◌, refl, sym, ap, ◌∙◌, arith, some, List,
  [], ◌∷◌, map, ◌==◌, bit_or, All, ap₂, Bool-cases, inl, inr, ==_iff, ne→==_false, pow-split,
  pow-pos, mod-low,
}
use discodb.Huffman.Codec.{Codeword, huff_code, huff_bits}
use discodb.Huffman.Code.{Code, save_code, save_items, find}
use discodb.Huffman.Tokens.{Agrees}
use discodb.Huffman.Prefix.{Starts, Apart, PrefixFree, bit_or-high}
use native.Mathlib.Nat.{div-add-mod, div-lt_iff_lt-mul}
use mathlib.Core.Path.{subst}

-- The word that an item of the code map stands for.
abbrev pub word : ℕ × ℕ → Code
word (s, v) = record { index = s; code = huff_code v; num_bits = huff_bits v }

pub record IsWord (c : Code) : Type 0 where
  pub short : c.num_bits ≤ 16
  pub fits : c.code < 2 ^ c.num_bits

abbrev pub IsCodemap : List (ℕ × ℕ) → Type 0
IsCodemap items = All IsWord (map word items) × PrefixFree (map word items)

module _ (s code n : ℕ) where
  abbrev entry : Codeword
  entry = record { symbol = s; bits = n }

  -- What already stands in the book as this word stays so.
  save_code-keep :
      (j : ℕ) (book : ℕ → Codeword) (x : ℕ) → book x ≡ entry → save_code s code n j book x ≡ entry
  unfolding save_code
  save_code-keep zero book x h = h
  save_code-keep (suc j) book x h =
      save_code-keep j _ x
        (elim (Bool-cases (bit_or code (j * 2 ^ n) == x)) [ inl e ↦ rw e refl | inr e ↦ rw e h ])

  module _ (fits : code < 2 ^ n) where
    save_code-hit :
        (j : ℕ) (book : ℕ → Codeword) (x : ℕ)
        → x % 2 ^ n ≡ code
        → x / 2 ^ n < j
        → save_code s code n j book x ≡ entry
    unfolding save_code
    save_code-hit zero book x low lt = absurd (omega arith)
    save_code-hit (suc j) book x low lt = elim (Bool-cases (x / 2 ^ n == j)) [
      | inl e ↦
          let high : x / 2 ^ n ≡ j = (==_iff _ _).0 e in
          let here : bit_or code (j * 2 ^ n) ≡ x =
            bit_or-high n code j fits
            ∙ omega (arith, low, ap (λ (t : ℕ). 2 ^ n * t) high, div-add-mod x (2 ^ n)) in
          save_code-keep j _ x (let t = (==_iff _ _).1 here in rw t refl)
      | inr e ↦ save_code-hit j _ x low (ground arith)
    ]

    save_code-miss :
        (j : ℕ) (book : ℕ → Codeword) (x : ℕ)
        → x % 2 ^ n ≢ code
        → save_code s code n j book x ≡ book x
    unfolding save_code
    save_code-miss zero book x ne = refl
    save_code-miss (suc j) book x ne =
        let off : bit_or code (j * 2 ^ n) ≢ x = λ e. ne (
          ap (λ (t : ℕ). t % 2 ^ n) (sym e ∙ bit_or-high n code j fits ∙ omega arith)
          ∙ mod-low (2 ^ n) code j fits) in
        save_code-miss j _ x ne ∙ (let t = ne→==_false _ _ off in rw t refl)

save_items-miss :
    (items : List (ℕ × ℕ)) (book : ℕ → Codeword) (x : ℕ)
    → All IsWord (map word items)
    → All (λ c. Starts x c → ⊥) (map word items)
    → save_items items book x ≡ book x
unfolding save_items
save_items-miss [] book x h ne = refl
save_items-miss ((s, v) ∷ items) book x h ne =
    save_items-miss items _ x h.1 ne.1
    ∙ save_code-miss s (huff_code v) (huff_bits v) h.0.fits (2 ^ (16 - huff_bits v)) book x ne.0

others :
    (x : ℕ) (c : Code) (cs : List Code)
    → Starts x c
    → All (Apart c) cs
    → All (λ d. Starts x d → ⊥) cs
others x c [] h apart = tt
others x c (d ∷ ds) h apart = (λ e. apart.0 x h e, others x c ds h apart.1)

index_fits : (x n : ℕ) → x < 2 ^ 16 → n ≤ 16 → x / 2 ^ n < 2 ^ (16 - n)
index_fits x n small short =
    (div-lt_iff_lt-mul (pow-pos n)).1 (let e = pow-split 16 n short in omega (arith, e))

-- What holds of the words of all items holds of the one that is found.
find-word :
    (P : ℕ → Type 0) (items : List (ℕ × ℕ)) (key v : ℕ)
    → find items key ≡ some v
    → All (λ (item : ℕ × ℕ). P item.1) items
    → P v
find-word P [] key v found h = absurd (cc)
find-word P ((s, w) ∷ items) key v found h = elim (Bool-cases (s == key)) [
  | inr e ↦ find-word P items key v (rw e at found) h.1
  | inl e ↦ let got : some w ≡ some v = rw e at found in let same : w ≡ v = cc in subst P same h.0
]

words :
    {P : ℕ → Type 0} (f : (s v : ℕ) → IsWord (word (s, v)) → P v) (items : List (ℕ × ℕ))
    → All IsWord (map word items)
    → All (λ (item : ℕ × ℕ). P item.1) items
words f [] h = tt
words f ((s, v) ∷ items) h = (f s v h.0, words f items h.1)

save_items-hit :
    (items : List (ℕ × ℕ)) (book : ℕ → Codeword) (key v x : ℕ)
    → IsCodemap items
    → find items key ≡ some v
    → x < 2 ^ 16
    → x % 2 ^ huff_bits v ≡ huff_code v
    → save_items items book x ≡ record { symbol = key; bits = huff_bits v }
unfolding save_items
save_items-hit [] book key v x h found small low = absurd (cc)
save_items-hit ((s, w) ∷ items) book key v x h found small low = elim (Bool-cases (s == key)) [
  | inr e ↦ save_items-hit items _ key v x (h.0.1, h.1.1) (rw e at found) small low
  | inl e ↦
      let got : some w ≡ some v = rw e at found in
      let same : w ≡ v = cc in
      let starts : x % 2 ^ huff_bits w ≡ huff_code w =
        subst (λ (t : ℕ). x % 2 ^ huff_bits t ≡ huff_code t) (sym same) low in
      save_items-miss items _ x h.0.1 (others x (word (s, w)) (map word items) starts h.1.0)
      ∙ save_code-hit s (huff_code w) (huff_bits w) h.0.0.fits (2 ^ (16 - huff_bits w)) book x
          starts (index_fits x (huff_bits w) small h.0.0.short)
      ∙ ap₂ (λ (a b : ℕ). record { symbol = a; bits = huff_bits b }) ((==_iff _ _).0 e) same
]

-- The book of a code map has each word under all its continuations.
pub save_items-Agrees :
    (items : List (ℕ × ℕ)) (book : ℕ → Codeword)
    → IsCodemap items
    → Agrees (find items) (save_items items book)
save_items-Agrees items book h = record {
  short = λ key v found.
      find-word (λ v. huff_bits v ≤ 16) items key v found (words (λ s v w. w.short) items h.0);
  fits = λ key v found.
      find-word (λ v. huff_code v < 2 ^ huff_bits v) items key v found
        (words (λ s v w. w.fits) items h.0);
  found = λ key v x found small low. save_items-hit items book key v x h found small low;
}
