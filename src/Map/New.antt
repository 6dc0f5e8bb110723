-- ===== src/Map/New.antt =====
-- `ddb_map_new`: an empty map.
use discodb.Common.{
  ℕ, ◌+◌, ◌*◌, ◌≡◌, refl, arith, Bool, false, Option, none, some, [], ◌∷◌, Bool-cases, inl, inr,
  ◌⊎◌,
}
use discodb.KeyList.{list_new, sizeof_list}
use discodb.Membuffer.{membuffer_new, new_page, page_size, sizeof_page, sizeof_membuffer}
use discodb.Map.Keys.{KeyOps, KeyLaws}
use discodb.Map.{Map, map_new, search_items, sizeof_map}
use discodb.Map.Search.{place_of}
use discodb.Map.Grow.{IsMap, keys_of}

-- A map without keys, with room for `n`.
pub record IsEmpty {ops : KeyOps} (laws : KeyLaws ops) {V : Type 0} (n : ℕ) (m : Map ops V)
    : Type 0 where
  pub valid : IsMap laws m
  pub keys : keys_of m ≡ []
  pub missing : (k : ops.Key) → place_of m k ≡ none
  pub room : m.max_num_items ≡ n

abbrev page : ℕ
page = page_size + sizeof_page

abbrev list : ℕ
list = sizeof_list + 4 * 8

module _ {ops : KeyOps} {V : Type 0} where
  -- The map that is returned when every request is met.
  abbrev pub fresh : (ℕ → ops.Ptr) → ℕ → Map ops V
  fresh junk n = record {
    leaves = λ a. none;
    num_items = 0;
    max_num_items = n;
    key_buffer = record { pages = record { used = []; free = page_size } ∷ []; current = 0 };
    keys = record { size = 4; i = 0; list = junk };
  }

module _ {ops : KeyOps} (laws : KeyLaws ops) {V : Type 0} where
  pub fresh-IsEmpty : (junk : ℕ → ops.Ptr) (n : ℕ) → IsEmpty laws {V = V} n (fresh junk n)
  unfolding search_items
  fresh-IsEmpty junk n = record {
    valid = record {
      buffer = record { current = omega arith; blocks = omega arith };
      items = λ a b. tt;
      listed = tt;
      list = record { room = omega arith; fits = omega arith };
      ahead = omega arith;
      count = refl;
      limit = omega arith;
    };
    keys = refl;
    missing = λ k. refl;
    room = refl;
  }

  abbrev pub NewOutcome : (ℕ → Bool) → ℕ → Option (Map ops V) → Type 0
  NewOutcome available n result =
      ((b : ℕ) × (available b ≡ false) × (result ≡ none))
      ⊎ ((m : Map ops V) × (result ≡ some m) × IsEmpty laws n m)

  -- A new map has no keys and its limit, unless memory is refused.
  pub map_new-IsEmpty :
      (available : ℕ → Bool) (junk : ℕ → ops.Ptr) (n : ℕ)
      → NewOutcome available n (map_new available junk n)
  unfolding map_new membuffer_new new_page list_new
  map_new-IsEmpty available junk n = elim (Bool-cases (available sizeof_map)) [
    | inr e ↦ inl (sizeof_map, e, ground arith)
    | inl map ↦ elim (Bool-cases (available (65536 * 8))) [
      | inr e ↦ inl (65536 * 8, e, ground arith)
      | inl leaves ↦ elim (Bool-cases (available sizeof_membuffer)) [
        | inr e ↦ inl (sizeof_membuffer, e, ground arith)
        | inl buffer ↦ elim (Bool-cases (available page)) [
          | inr e ↦ inl (page, e, ground arith)
          | inl first ↦ elim (Bool-cases (available list)) [
            | inr e ↦ inl (list, e, ground arith)
            | inl keys ↦ inr (fresh junk n, ground arith, fresh-IsEmpty junk n)
          ]
        ]
      ]
    ]
  ]
