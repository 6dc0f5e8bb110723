-- ===== src/Delta/Sorted.antt =====
-- The order that `qsort` leaves, and the width of the differences.
use discodb.Common.{ℕ, ◌^◌, ◌≤◌, ◌<◌, refl, arith, List, [], ◌∷◌, All, ltb, if◌then◌else◌}
use discodb.Libc.{Qsort, IsConsistent, Follows, IsOrdered}
use discodb.Delta.{id_cmp, max_delta, sub32}
use discodb.Delta.Spec.{Climbs}
use mathlib.Core.Logic.Or
use mathlib.Core.List.Perm
use mathlib.Core.List.{Mem, mem-cons, not-mem-nil}
use native.Mathlib.Bridge.{le_prop}

pub id_cmp-IsConsistent : IsConsistent id_cmp
unfolding id_cmp
id_cmp-IsConsistent = record {
  asymm = λ x y e f. ground arith;
  trans = λ x y z p q r. ground arith;
}

pub lt_of_mem : {a n : ℕ} (xs : List ℕ) → All (λ x. x < n) xs → Mem a xs → a < n
lt_of_mem [] h m = absurd (not-mem-nil m)
lt_of_mem (x ∷ xs) h m = Or.elim le_prop (mem-cons.0 m) (λ e. rw e h.0) (lt_of_mem xs h.1)

-- `vs` ascends from `prev`, below 2 ^ 32.
abbrev pub Ascends : ℕ → List ℕ → Type 0
Ascends prev [] = Unit {0}
Ascends prev (v ∷ vs) = (prev ≤ v) × (v < 2 ^ 32) × Ascends v vs

Follows-Ascends :
    (x : ℕ) (xs : List ℕ) → Follows id_cmp x xs → ((v : ℕ) → Mem v xs → v < 2 ^ 32) → Ascends x xs
unfolding id_cmp
Follows-Ascends x [] f h = tt
Follows-Ascends x (y ∷ ys) f h = (
  ground arith,
  h y (mem-cons.1 (Or.inl refl)),
  Follows-Ascends y ys f.1 (λ v m. h v (mem-cons.1 (Or.inr m))),
)

-- The sorted ids ascend.
pub qsort-Ascends :
    (sort : Qsort ℕ) (values : List ℕ)
    → All (λ v. v < 2 ^ 32) values
    → Ascends 0 (sort.qsort id_cmp values)
qsort-Ascends sort values h =
    go (sort.qsort id_cmp values) (sort.qsort-IsOrdered id_cmp values id_cmp-IsConsistent) (λ v m.
      lt_of_mem values h ((Perm.mem_iff (sort.qsort-perm id_cmp values id_cmp-IsConsistent)).0 m))
  where
    go : (xs : List ℕ) → IsOrdered id_cmp xs → ((v : ℕ) → Mem v xs → v < 2 ^ 32) → Ascends 0 xs
    go [] o h = tt
    go (x ∷ xs) o h = (
      omega arith,
      h x (mem-cons.1 (Or.inl refl)),
      Follows-Ascends x xs o (λ v m. h v (mem-cons.1 (Or.inr m))),
    )

-- The largest difference bounds every difference, and is a uint32_t.
pub max_delta-Climbs :
    (bits prev m : ℕ) (vs : List ℕ)
    → Ascends prev vs
    → m < 2 ^ 32
    → max_delta prev m vs < 2 ^ bits
    → (m < 2 ^ bits) × Climbs bits prev vs
unfolding max_delta
max_delta-Climbs bits prev m [] a hm h = (h, tt)
max_delta-Climbs bits prev m (v ∷ vs) a hm h =
    let (small, climbs) =
      max_delta-Climbs bits v (if ltb m (sub32 v prev) then sub32 v prev else m) vs a.2
        (ground arith) h in
    (ground arith, (a.0, ground arith, a.1, climbs))

pub max_delta-lt : (prev m : ℕ) (vs : List ℕ) → m < 2 ^ 32 → max_delta prev m vs < 2 ^ 32
unfolding max_delta
max_delta-lt prev m [] hm = hm
max_delta-lt prev m (v ∷ vs) hm = max_delta-lt v _ vs (ground arith)
