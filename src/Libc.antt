-- ===== src/Libc.antt =====
-- What the code takes from the C library: `malloc` and `qsort`, as parameters with the laws that
-- the C standard gives them.
pub mod Instances
use discodb.Common.{ℕ, ◌<◌, ◌≡◌, ◌≢◌, Option, some, List, [], ◌∷◌, length, All}
use mathlib.Core.List.{Perm}

-- A block from `malloc` has the length asked for and arbitrary contents; a request may fail.
pub record Malloc : Type 0 where
  pub malloc : ℕ → Option (List ℕ)
  pub length-malloc : (n : ℕ) (block : List ℕ) → malloc n ≡ some block → length block ≡ n
  pub bytes-malloc :
      (n : ℕ) (block : List ℕ) → malloc n ≡ some block → All (λ (b : ℕ). b < 256) block

-- The sign that a comparison function returns.
pub data Comparison : Type 0 where
  less equal greater : Comparison

module _ {A : Type 0} where
  -- What the standard asks of a comparison function: it orders its arguments.
  pub record IsConsistent (cmp : A → A → Comparison) : Type 0 where
    pub asymm : (x y : A) → cmp x y ≡ greater → cmp y x ≢ greater
    pub trans : (x y z : A) → cmp x y ≢ greater → cmp y z ≢ greater → cmp x z ≢ greater

  abbrev pub Follows : (A → A → Comparison) → A → List A → Type 0
  Follows cmp x [] = Unit {0}
  Follows cmp x (y ∷ ys) = (cmp x y ≢ greater) × Follows cmp y ys

  -- Neighbours are in order.
  abbrev pub IsOrdered : (A → A → Comparison) → List A → Type 0
  IsOrdered cmp [] = Unit {0}
  IsOrdered cmp (x ∷ xs) = Follows cmp x xs

pub record Qsort (A : Type 0) : Type 0 where
  pub qsort : (A → A → Comparison) → List A → List A
  pub qsort-IsOrdered :
      (cmp : A → A → Comparison) (xs : List A) → IsConsistent cmp → IsOrdered cmp (qsort cmp xs)
  pub qsort-perm :
      (cmp : A → A → Comparison) (xs : List A) → IsConsistent cmp → Perm (qsort cmp xs) xs
