-- ===== src/Huffman/Prefix.antt =====
-- No code word continues another one, so the code book of 2 ^ 16 entries decodes them.
use discodb.Common.{
  ℕ, zero, suc, ◌+◌, ◌*◌, ◌%◌, ◌^◌, ◌≤◌, ◌<◌, ◌≡◌, sym, ap, ◌∙◌, arith, not, ◌&&◌, ◌||◌, List, [],
  ◌∷◌, ◌++◌, ltb, bit_or, All, All-append, Bool-cases, inl, inr, pow-add, pow-pos, mod-low,
  mod-mul-mod, bit_or_shift, zero-bit_or,
}
use discodb.Huffman.Code.{Tree, null, symbol, node, is_null, Code, allocate_codewords}
use native.Mathlib.Nat.{mod-eq_of_lt}

-- `x` starts with the code word `c`.
abbrev pub Starts : ℕ → Code → Type 0
Starts x c = x % 2 ^ c.num_bits ≡ c.code

-- A word of at most 16 bits in the subtree of the word `code` of `depth` bits.
pub record IsBelow (code depth : ℕ) (c : Code) : Type 0 where
  pub short : c.num_bits ≤ 16
  pub fits : c.code < 2 ^ c.num_bits
  pub under : (x : ℕ) → Starts x c → x % 2 ^ depth ≡ code

pub bit_or-high : (r a y : ℕ) → a < 2 ^ r → bit_or a (y * 2 ^ r) ≡ y * 2 ^ r + a
bit_or-high r a y h =
    let e : 0 * 2 ^ r + a ≡ a = omega arith in
    ap (λ (t : ℕ). bit_or t (y * 2 ^ r)) (sym e)
    ∙ bit_or_shift r 0 y a h
    ∙ ap (λ (t : ℕ). t * 2 ^ r + a) (zero-bit_or y)

pub right_code : (code depth : ℕ) → code < 2 ^ depth → bit_or code (2 ^ depth) ≡ code + 2 ^ depth
right_code code depth h =
    ap (λ (t : ℕ). bit_or code t) (omega arith) ∙ bit_or-high depth code 1 h ∙ omega arith

-- The lowest `d` bits of the lowest `d + 1`.
low_bits : (x d : ℕ) → x % 2 ^ (d + 1) % 2 ^ d ≡ x % 2 ^ d
low_bits x d = ap (λ (t : ℕ). x % t % 2 ^ d) (pow-add 2 d 1) ∙ mod-mul-mod x (2 ^ d) (2 ^ 1)

left_IsBelow : (code d : ℕ) (c : Code) → code < 2 ^ d → IsBelow code (d + 1) c → IsBelow code d c
left_IsBelow code d c h b = record {
  short = b.short;
  fits = b.fits;
  under = λ x e. sym (low_bits x d) ∙ ap (λ (t : ℕ). t % 2 ^ d) (b.under x e) ∙ mod-eq_of_lt h;
}

right_IsBelow :
    (code d : ℕ) (c : Code) → code < 2 ^ d → IsBelow (code + 2 ^ d) (d + 1) c → IsBelow code d c
right_IsBelow code d c h b = record {
  short = b.short;
  fits = b.fits;
  under = λ x e.
      sym (low_bits x d)
      ∙ ap (λ (t : ℕ). t % 2 ^ d) (b.under x e ∙ omega arith)
      ∙ mod-low (2 ^ d) code 1 h;
}

-- No number starts with both words.
abbrev pub Apart : Code → Code → Type 0
Apart a b = (x : ℕ) → Starts x a → Starts x b → ⊥

abbrev pub PrefixFree : List Code → Type 0
PrefixFree [] = Unit
PrefixFree (c ∷ cs) = All (Apart c) cs × PrefixFree cs

module _ {P Q : Code → Type 0} where
  All-imp : (f : (c : Code) → P c → Q c) (xs : List Code) → All P xs → All Q xs
  All-imp f [] h = tt
  All-imp f (x ∷ xs) h = (f x h.0, All-imp f xs h.1)

  PrefixFree-append :
      (apart : (a b : Code) → P a → Q b → Apart a b) (xs ys : List Code)
      → All P xs
      → All Q ys
      → PrefixFree xs
      → PrefixFree ys
      → PrefixFree (xs ++ ys)
  PrefixFree-append apart [] ys hx hy fx fy = fy
  PrefixFree-append apart (x ∷ xs) ys hx hy fx fy =
      (All-append (Apart x) xs ys fx.0 (from ys hy), PrefixFree-append apart xs ys hx.1 hy fx.1 fy)
    where
      from : (zs : List Code) → All Q zs → All (Apart x) zs
      from [] h = tt
      from (z ∷ zs) h = (apart x z hx.0 h.0, from zs h.1)

sides_Apart :
    (code d : ℕ) (a b : Code)
    → IsBelow (code + 2 ^ d) (d + 1) a
    → IsBelow code (d + 1) b
    → Apart a b
sides_Apart code d a b ha hb x ea eb =
    let p = pow-pos d in
    let ra = ha.under x ea in let rb = hb.under x eb in omega (arith, ra, rb, p)

-- The words given to a subtree.
abbrev pub IsCode : ℕ → ℕ → List Code → Type 0
IsCode code depth words = All (IsBelow code depth) words × PrefixFree words

pub allocate_codewords-IsCode :
    (fuel : ℕ) (t : Tree) (code depth : ℕ)
    → code < 2 ^ depth
    → depth + fuel ≤ 16
    → IsCode code depth (allocate_codewords fuel t code depth)
unfolding allocate_codewords
allocate_codewords-IsCode fuel null code depth h le = (tt, tt)
allocate_codewords-IsCode fuel (symbol i w) code depth h le =
    ((record { short = omega arith; fits = h; under = λ x e. e }, tt), (tt, tt))
allocate_codewords-IsCode zero (node l r w) code depth h le = (tt, tt)
allocate_codewords-IsCode (suc fuel) (node l r w) code depth h le =
    elim (Bool-cases (ltb depth 16 && (not (is_null l) || not (is_null r)))) [
      | inr e ↦ rw e (tt, tt)
      | inl e ↦
          let right =
            allocate_codewords-IsCode fuel r (code + 2 ^ depth) (depth + 1)
              (omega (arith, pow-add 2 depth 1)) (omega arith) in
          let left =
            allocate_codewords-IsCode fuel l code (depth + 1) (omega (arith, pow-add 2 depth 1))
              (omega arith) in
          rw (e, right_code code depth h)
            (
              All-append (IsBelow code depth) _ _
                  (All-imp (λ c b. right_IsBelow code depth c h b) _ right.0)
                  (All-imp (λ c b. left_IsBelow code depth c h b) _ left.0),
              PrefixFree-append (sides_Apart code depth) _ _ right.0 left.0 right.1 left.1,
            )
    ]
