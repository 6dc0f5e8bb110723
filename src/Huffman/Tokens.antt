-- ===== src/Huffman/Tokens.antt =====
-- The compressed form as a list of tokens, the text that it stands for, and the number that it packs into.
use discodb.Common.{
  ℕ, zero, suc, ◌+◌, ◌*◌, ◌/◌, ◌%◌, ◌^◌, ◌≤◌, ◌<◌, ◌≡◌, refl, ap, ◌∙◌, arith, Option, none, some,
  List, [], ◌∷◌, ◌++◌, ltb, if◌then◌else◌, drop, take, get_or, length, All, All-drop, length-drop,
  take-append-drop, Option-cases, Bool-cases, inl, inr, tests,
}
use discodb.Bits.{load, to_bytes, load_bytes, IsBytes}
use discodb.Huffman.Codec.{huff_code, huff_bits, Codeword}

pub data Token : Type 0 where
  literal : ℕ → Token
  group : ℕ → ℕ → Token

-- A code book that decodes what the map encodes: each code word is found under all its
-- continuations.
pub record Agrees (lookup : ℕ → Option ℕ) (book : ℕ → Codeword) : Type 0 where
  pub short : (key v : ℕ) → lookup key ≡ some v → huff_bits v ≤ 16
  pub fits : (key v : ℕ) → lookup key ≡ some v → huff_code v < 2 ^ huff_bits v
  pub found :
      (key v x : ℕ)
      → lookup key ≡ some v
      → x < 2 ^ 16
      → x % 2 ^ huff_bits v ≡ huff_code v
      → book x ≡ record { symbol = key; bits = huff_bits v }

-- The width of a token in bits, and its bits as a number.
abbrev pub width : Token → ℕ
width (literal b) = 9
width (group key v) = huff_bits v + 1

abbrev pub field : Token → ℕ
field (literal b) = 2 * b
field (group key v) = 1 + 2 * huff_code v

abbrev pub text : Token → List ℕ
text (literal b) = b ∷ []
text (group key v) = to_bytes 4 key

abbrev pub total : List Token → ℕ
total [] = 0
total (t ∷ ts) = width t + total ts

abbrev pub packed : List Token → ℕ
packed [] = 0
packed (t ∷ ts) = field t + 2 ^ width t * packed ts

abbrev pub texts : List Token → List ℕ
texts [] = []
texts (t ∷ ts) = text t ++ texts ts

abbrev pub literals : List ℕ → List Token
literals [] = []
literals (b ∷ bs) = literal b ∷ literals bs

-- The tokens of a value: greedily, while more than four bytes are left.
abbrev pub next_tokens : (ℕ → Option ℕ) → ℕ → List ℕ → List Token
next_tokens lookup zero rest = []
next_tokens lookup (suc fuel) rest =
    if ltb 4 (length rest)
    then (elim (lookup (load 4 0 rest)) [
      | none ↦ literal (get_or rest 0 0) ∷ next_tokens lookup fuel (drop 1 rest)
      | some v ↦ group (load 4 0 rest) v ∷ next_tokens lookup fuel (drop 4 rest)
    ])
    else literals rest

abbrev pub IsToken : (ℕ → Option ℕ) → Token → Type 0
IsToken lookup (literal b) = b < 256
IsToken lookup (group key v) = lookup key ≡ some v

to_bytes-load_bytes :
    (n : ℕ) (xs : List ℕ) → IsBytes xs → n ≤ length xs → to_bytes n (load_bytes n xs) ≡ take n xs
unfolding to_bytes load_bytes
to_bytes-load_bytes zero xs h le = refl
to_bytes-load_bytes (suc n) [] h le = absurd (omega arith)
to_bytes-load_bytes (suc n) (x ∷ xs) h le =
    let low : (x + 256 * load_bytes n xs) % 256 ≡ x = omega (arith, h.0) in
    let high : (x + 256 * load_bytes n xs) / 256 ≡ load_bytes n xs = omega (arith, h.0) in
    rw (low, high) (ap (λ t. x ∷ t) (to_bytes-load_bytes n xs h.1 (omega arith)))

-- What the tokens of a value are: its text in order, in 9 bits for each byte at most.
pub record Tokenizes (lookup : ℕ → Option ℕ) (rest : List ℕ) (ts : List Token) : Type 0 where
  pub spelled : texts ts ≡ rest
  pub short : total ts ≤ 9 * length rest
  pub tokens : All (IsToken lookup) ts

literals-Tokenizes :
    (lookup : ℕ → Option ℕ) (bs : List ℕ) → IsBytes bs → Tokenizes lookup bs (literals bs)
literals-Tokenizes lookup [] h = record { spelled = refl; short = omega arith; tokens = tt }
literals-Tokenizes lookup (b ∷ bs) h =
    let rest = literals-Tokenizes lookup bs h.1 in
    record {
      spelled = ap (λ t. b ∷ t) rest.spelled;
      short = omega (arith, rest.short);
      tokens = (h.0, rest.tokens);
    }

module _ (lookup : ℕ → Option ℕ)
    (short_codes : (key v : ℕ) → lookup key ≡ some v → huff_bits v ≤ 16) where
  pub next_tokens-Tokenizes :
      (fuel : ℕ) (rest : List ℕ)
      → IsBytes rest
      → length rest < fuel
      → Tokenizes lookup rest (next_tokens lookup fuel rest)
  next_tokens-Tokenizes zero rest h enough = absurd (omega arith)
  next_tokens-Tokenizes (suc fuel) [] h enough = literals-Tokenizes lookup [] h
  next_tokens-Tokenizes (suc fuel) (b ∷ bs) h enough = elim (Bool-cases (ltb 4 (length (b ∷ bs)))) [
    | inr few ↦ rw few (literals-Tokenizes lookup (b ∷ bs) h)
    | inl many ↦ elim (Option-cases (lookup (load 4 0 (b ∷ bs)))) [
      | inl missing ↦
          let r = next_tokens-Tokenizes fuel bs h.1 (omega arith) in
          rw (many, missing)
            (record {
              spelled = ap (λ t. b ∷ t) r.spelled;
              short = omega (arith, r.short);
              tokens = (h.0, r.tokens);
            })
      | inr (v, got) ↦
          let le : 4 ≤ length (b ∷ bs) = omega (tests, many) in
          let r =
            next_tokens-Tokenizes fuel (drop 4 (b ∷ bs)) (All-drop (λ b. b < 256) 4 (b ∷ bs) h)
              (omega (arith, length-drop 4 (b ∷ bs))) in
          rw (many, got)
            (record {
              spelled =
                  ap (λ t. t ++ texts (next_tokens lookup fuel (drop 4 (b ∷ bs))))
                    (to_bytes-load_bytes 4 (b ∷ bs) h le)
                  ∙ ap (λ t. take 4 (b ∷ bs) ++ t) r.spelled
                  ∙ take-append-drop 4 (b ∷ bs);
              short =
                  omega
                    (arith, r.short, length-drop 4 (b ∷ bs), short_codes (load 4 0 (b ∷ bs)) v got);
              tokens = (got, r.tokens);
            })
    ]
  ]
