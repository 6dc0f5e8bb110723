-- ===== src/Libc/Instances.antt =====
-- The laws can be met: an allocator that hands out dirty blocks, and insertion sort.
use discodb.Common.{
  ℕ, zero, suc, ◌≡◌, ◌≢◌, refl, ◌<◌, Option, some, List, [], ◌∷◌, length, All, arith, replicate,
  length-replicate, ap, ◌∙◌, sym,
}
use discodb.Libc.{Malloc, Comparison, less, equal, greater, IsConsistent, Follows, IsOrdered, Qsort}
use mathlib.Core.List.{Perm}
use mathlib.Core.Option.{some-injective}
use mathlib.Core.List.Perm
use mathlib.Core.Path.{subst}

unfoldable pub dirty : ℕ → Option (List ℕ)
dirty n = some (replicate n 0xa5)

dirty-IsBytes : (n : ℕ) → All (λ (b : ℕ). b < 256) (replicate n 0xa5)
dirty-IsBytes zero = tt
dirty-IsBytes (suc n) = (omega arith, dirty-IsBytes n)

pub length-dirty : (n : ℕ) (block : List ℕ) → dirty n ≡ some block → length block ≡ n
unfolding dirty
length-dirty n block e = ap length (sym (some-injective _ _ e)) ∙ length-replicate n 0xa5

pub bytes-dirty : (n : ℕ) (block : List ℕ) → dirty n ≡ some block → All (λ (b : ℕ). b < 256) block
unfolding dirty
bytes-dirty n block e = subst (All (λ (b : ℕ). b < 256)) (some-injective _ _ e) (dirty-IsBytes n)

abbrev pub dirty_malloc : Malloc
dirty_malloc = record { malloc = dirty; length-malloc = length-dirty; bytes-malloc = bytes-dirty }

module _ {A : Type 0} where
  -- `x` before `y ∷ ys`, or further down in it.
  abbrev place : Comparison → A → A → List A → List A → List A
  place greater x y ys further = y ∷ further
  place less x y ys further = x ∷ y ∷ ys
  place equal x y ys further = x ∷ y ∷ ys

  module _ (cmp : A → A → Comparison) where
    insert_by : A → List A → List A
    insert_by x [] = x ∷ []
    insert_by x (y ∷ ys) = place (cmp x y) x y ys (insert_by x ys)

    unfoldable pub insertion_sort : List A → List A
    unfolding insert_by
    insertion_sort [] = []
    insertion_sort (x ∷ xs) = insert_by x (insertion_sort xs)

    place-perm :
        (c : Comparison) (x y : A) (ys further : List A)
        → Perm further (x ∷ ys)
        → Perm (place c x y ys further) (x ∷ y ∷ ys)
    place-perm greater x y ys further p = Perm.trans (Perm.cons y p) (Perm.swap x y ys)
    place-perm less x y ys further p = Perm.refl (x ∷ y ∷ ys)
    place-perm equal x y ys further p = Perm.refl (x ∷ y ∷ ys)

    insert_by-perm : (x : A) (ys : List A) → Perm (insert_by x ys) (x ∷ ys)
    unfolding insert_by
    insert_by-perm x [] = Perm.refl (x ∷ [])
    insert_by-perm x (y ∷ ys) = place-perm (cmp x y) x y ys (insert_by x ys) (insert_by-perm x ys)

    pub insertion_sort-perm : (xs : List A) → Perm (insertion_sort xs) xs
    unfolding insertion_sort
    insertion_sort-perm [] = Perm.refl []
    insertion_sort-perm (x ∷ xs) =
        Perm.trans (insert_by-perm x (insertion_sort xs)) (Perm.cons x (insertion_sort-perm xs))

    module _ (order : IsConsistent cmp) where
      place-Follows :
          (c : Comparison) (x y z : A) (ys further : List A)
          → cmp x y ≡ c
          → cmp z x ≢ greater
          → Follows cmp z (y ∷ ys)
          → (cmp y x ≢ greater → Follows cmp y further)
          → Follows cmp z (place c x y ys further)
      place-Follows greater x y z ys further e h f next = (f.0, next (order.asymm x y e))
      place-Follows less x y z ys further e h f next = (h, ((λ g. cc), f.1))
      place-Follows equal x y z ys further e h f next = (h, ((λ g. cc), f.1))

      insert_by-Follows :
          (x z : A) (ys : List A)
          → cmp z x ≢ greater
          → Follows cmp z ys
          → Follows cmp z (insert_by x ys)
      unfolding insert_by
      insert_by-Follows x z [] h f = (h, tt)
      insert_by-Follows x z (y ∷ ys) h f =
          place-Follows (cmp x y) x y z ys (insert_by x ys) refl h f
            (λ k. insert_by-Follows x y ys k f.1)

      place-IsOrdered :
          (c : Comparison) (x y : A) (ys further : List A)
          → cmp x y ≡ c
          → IsOrdered cmp (y ∷ ys)
          → (cmp y x ≢ greater → Follows cmp y further)
          → IsOrdered cmp (place c x y ys further)
      place-IsOrdered greater x y ys further e f next = next (order.asymm x y e)
      place-IsOrdered less x y ys further e f next = ((λ g. cc), f)
      place-IsOrdered equal x y ys further e f next = ((λ g. cc), f)

      insert_by-IsOrdered :
          (x : A) (ys : List A) → IsOrdered cmp ys → IsOrdered cmp (insert_by x ys)
      unfolding insert_by
      insert_by-IsOrdered x [] o = tt
      insert_by-IsOrdered x (y ∷ ys) o =
          place-IsOrdered (cmp x y) x y ys (insert_by x ys) refl o
            (λ k. insert_by-Follows x y ys k o)

    pub insertion_sort-IsOrdered :
        (xs : List A) → IsConsistent cmp → IsOrdered cmp (insertion_sort xs)
    unfolding insertion_sort
    insertion_sort-IsOrdered [] order = tt
    insertion_sort-IsOrdered (x ∷ xs) order =
        insert_by-IsOrdered order x (insertion_sort xs) (insertion_sort-IsOrdered xs order)

  abbrev pub insertion_qsort : Qsort A
  insertion_qsort = record {
    qsort = insertion_sort;
    qsort-IsOrdered = insertion_sort-IsOrdered;
    qsort-perm = λ cmp xs order. insertion_sort-perm cmp xs;
  }
