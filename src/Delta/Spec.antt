-- ===== src/Delta/Spec.antt =====
-- What the encoder is to write, in terms of the sorted values: which of them, and their differences.
use discodb.Common.{
  ℕ, suc, ◌+◌, ◌-◌, ◌*◌, ◌^◌, ◌≤◌, ◌<◌, ◌≡◌, refl, ap, arith, Bool, true, false, ◌&&◌, ◌||◌, List,
  [], ◌∷◌, ◌==◌, if◌then◌else◌, length, Bool-cases, inl, inr,
}
use mathlib.Core.Path.{subst}

-- The values after `prev` that are written: under `unique_values` all but the repeated ones.
unfoldable pub kept_after : Bool → ℕ → List ℕ → List ℕ
kept_after unique prev [] = []
kept_after unique prev (v ∷ vs) =
    let rest = kept_after unique v vs in if unique && v == prev then rest else v ∷ rest

unfoldable pub kept : Bool → List ℕ → List ℕ
kept unique [] = []
kept unique (v ∷ vs) = v ∷ kept_after unique v vs

-- Two neighbours are equal.
unfoldable pub repeats_after : ℕ → List ℕ → Bool
repeats_after prev [] = false
repeats_after prev (v ∷ vs) = v == prev || repeats_after v vs

unfoldable pub repeats : List ℕ → Bool
repeats [] = false
repeats (v ∷ vs) = repeats_after v vs

abbrev pub diffs : ℕ → List ℕ → List ℕ
diffs prev [] = []
diffs prev (v ∷ vs) = (v - prev) ∷ diffs v vs

abbrev pub sums : ℕ → List ℕ → List ℕ
sums cur [] = []
sums cur (d ∷ ds) = (cur + d) ∷ sums (cur + d) ds

-- The fields of `bits` bits, lowest first, as one number.
abbrev pub packed : ℕ → List ℕ → ℕ
packed bits [] = 0
packed bits (d ∷ ds) = d + 2 ^ bits * packed bits ds

-- `vs` ascends from `prev` in steps that fit `bits` bits, below 2 ^ 32.
abbrev pub Climbs : ℕ → ℕ → List ℕ → Type 0
Climbs bits prev [] = Unit {0}
Climbs bits prev (v ∷ vs) = (prev ≤ v) × (v < prev + 2 ^ bits) × (v < 2 ^ 32) × Climbs bits v vs

pub kept_after-Climbs :
    (unique : Bool) (bits prev : ℕ) (vs : List ℕ)
    → Climbs bits prev vs
    → Climbs bits prev (kept_after unique prev vs)
unfolding kept_after
kept_after-Climbs unique bits prev [] h = tt
kept_after-Climbs unique bits prev (v ∷ vs) h = elim (Bool-cases (unique && v == prev)) [
  | inl e ↦
      let same : v ≡ prev = ground arith in
      rw e (
        subst (λ p. Climbs bits p (kept_after unique v vs)) same
          (kept_after-Climbs unique bits v vs h.3))
  | inr e ↦ rw e (h.0, h.1, h.2, kept_after-Climbs unique bits v vs h.3)
]

pub sums-diffs :
    (bits prev : ℕ) (vs : List ℕ) → Climbs bits prev vs → sums prev (diffs prev vs) ≡ vs
sums-diffs bits prev [] h = refl
sums-diffs bits prev (v ∷ vs) h =
    let e : prev + (v - prev) ≡ v = omega arith in rw e (ap (λ t. v ∷ t) (sums-diffs bits v vs h.3))

pub kept_after-new :
    (unique : Bool) (prev v : ℕ) (vs : List ℕ)
    → prev < v
    → kept_after unique prev (v ∷ vs) ≡ v ∷ kept_after unique v vs
unfolding kept_after
kept_after-new unique prev v vs h = ground arith

pub kept_after-repeat :
    (prev v : ℕ) (vs : List ℕ) → v ≡ prev → kept_after true prev (v ∷ vs) ≡ kept_after true v vs
unfolding kept_after
kept_after-repeat prev v vs h = ground arith

pub kept_after-all : (prev : ℕ) (vs : List ℕ) → kept_after false prev vs ≡ vs
unfolding kept_after
kept_after-all prev [] = refl
kept_after-all prev (v ∷ vs) = ap (λ t. v ∷ t) (kept_after-all v vs)

pub repeats_after-new :
    (prev v : ℕ) (vs : List ℕ) → prev < v → repeats_after prev (v ∷ vs) ≡ repeats_after v vs
unfolding repeats_after
repeats_after-new prev v vs h = ground arith

pub length-kept_after :
    (unique : Bool) (prev : ℕ) (vs : List ℕ) → length (kept_after unique prev vs) ≤ length vs
unfolding kept_after
length-kept_after unique prev [] = omega arith
length-kept_after unique prev (v ∷ vs) = ground (arith, length-kept_after unique v vs)

pub length-diffs : (prev : ℕ) (vs : List ℕ) → length (diffs prev vs) ≡ length vs
length-diffs prev [] = refl
length-diffs prev (v ∷ vs) = ap suc (length-diffs v vs)

pub kept_after-same :
    (prev v : ℕ) (vs : List ℕ) → kept_after false prev (v ∷ vs) ≡ v ∷ kept_after false v vs
unfolding kept_after
kept_after-same prev v vs = refl

pub repeats_after-repeat :
    (prev v : ℕ) (vs : List ℕ) → v ≡ prev → repeats_after prev (v ∷ vs) ≡ true
unfolding repeats_after
repeats_after-repeat prev v vs h = ground arith
