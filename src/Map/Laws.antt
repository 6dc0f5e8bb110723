-- ===== src/Map/Laws.antt =====
-- Integers and strings are keys: they keep the laws that the map relies on.
use discodb.Common.{
  ℕ, ◌%◌, ◌^◌, ◌<◌, ◌≡◌, ◌↔◌, refl, sym, ap₂, arith, Bool, true, false, ◌&&◌, List, [], ◌∷◌, ◌==◌,
  length, ==_iff, ==_refl, inl, inr, Bool-cases,
}
use discodb.Membuffer.{Membuffer, Pointer}
use discodb.Membuffer.Contents.{Holds, Holds-netstring}
use discodb.Membuffer.Copy.{copy_ns-Copied}
use discodb.Map.Keys.{KeyLaws, bytes_eq, str_same, int_keys, str_keys}
use mathlib.Core.Path.{subst}

bytes_eq_refl : (xs : List ℕ) → bytes_eq xs xs ≡ true
unfolding bytes_eq
bytes_eq_refl [] = refl
bytes_eq_refl (x ∷ xs) = rw (==_refl x) (bytes_eq_refl xs)

bytes_eq_sound : (xs ys : List ℕ) → length xs ≡ length ys → bytes_eq xs ys ≡ true → xs ≡ ys
unfolding bytes_eq
bytes_eq_sound [] [] n e = refl
bytes_eq_sound [] (y ∷ ys) n e = absurd (omega arith)
bytes_eq_sound (x ∷ xs) [] n e = absurd (omega arith)
bytes_eq_sound (x ∷ xs) (y ∷ ys) n e = elim (Bool-cases (x == y)) [
  | inl same ↦
      ap₂ (λ (a : ℕ) (l : List ℕ). a ∷ l) ((==_iff x y).0 same)
        (bytes_eq_sound xs ys (omega arith) (rw same at e))
  | inr other ↦ let bad : false ≡ true = rw other at e in absurd (cc)
]

abbrev text_eq : List ℕ → List ℕ → Bool
text_eq xs ys = length xs == length ys && bytes_eq xs ys

pub text_eq_iff : (xs ys : List ℕ) → (text_eq xs ys ≡ true) ↔ (xs ≡ ys)
text_eq_iff xs ys = (
  λ e. elim (Bool-cases (length xs == length ys)) [
    | inl same ↦ bytes_eq_sound xs ys ((==_iff _ _).0 same) (rw same at e)
    | inr other ↦ let bad : false ≡ true = rw other at e in absurd (cc)
  ],
  λ e. subst (λ (l : List ℕ). text_eq xs l ≡ true) e (rw (==_refl (length xs)) (bytes_eq_refl xs)),
)

pub str_same_iff :
    (mb : Membuffer) (p : Pointer) (j k : List ℕ)
    → length j < 2 ^ 32
    → Holds mb p j
    → (str_same mb p k ≡ true) ↔ (j ≡ k)
unfolding str_same
str_same_iff mb p j k short h =
    subst (λ (l : List ℕ). (text_eq l k ≡ true) ↔ (j ≡ k)) (sym (Holds-netstring mb p j short h))
      (text_eq_iff j k)

module _ (super_fast_hash : List ℕ → ℕ) where
  abbrev pub int_laws : KeyLaws (int_keys super_fast_hash)
  int_laws = record {
    IsKey = λ k. k < 2 ^ 32;
    Stands = λ mb p k. p ≡ k;
    same_iff = λ mb p j k is e. subst (λ (t : ℕ). ((p == k) ≡ true) ↔ (t ≡ k)) e (==_iff p k);
    read_lem = λ mb p k is e. read_int p k is e;
    save_lem = λ available mb k v is. inr (k, mb, refl, v, refl, λ q j e. e);
  }
    where
      read_int : (p k : ℕ) → k < 2 ^ 32 → p ≡ k → p % 2 ^ 32 ≡ k
      read_int p k is e = omega arith

  abbrev pub str_laws : KeyLaws (str_keys super_fast_hash)
  str_laws = record {
    IsKey = λ k. length k < 2 ^ 32;
    Stands = Holds;
    same_iff = str_same_iff;
    read_lem = Holds-netstring;
    save_lem = λ available mb k v is. elim (copy_ns-Copied available mb k v is) [
      | inl refused ↦ inl refused
      | inr (p, mb', e, c) ↦ inr (p, mb', e, c.valid, c.held, c.keeps)
    ];
  }
