-- ===== src/Map/Tests.antt =====
-- Runs of the map, and the theorems at concrete inputs.
use discodb.Common.{
  ℕ, suc, ◌+◌, ◌≡◌, ◌≢◌, ◌⊎◌, refl, arith, Bool, true, false, Option, none, some, List, [], ◌∷◌,
  length,
}
use discodb.Bits.{load_bytes, to_bytes}
use discodb.KeyList.{list_append}
use discodb.Membuffer.{
  new_page, copy_entry, emptiest, set_emptiest, copy_to, membuffer_copy, copy_ns, netstring,
}
use discodb.Map.Keys.{KeyOps, bytes_eq, str_same, str_keys, int_keys}
use discodb.Map.{
  Map, MapCursor, at, search_items, open_leaves, lookup_leaf, map_lookup, new_item, map_insert,
  map_cursor_new, map_next, set_value, map_new,
}
use discodb.Map.Search.{value_of, value_of-set_value}
use discodb.Map.Grow.{IsMap, keys_of}
use discodb.Map.Add.{InsertOutcome}
use discodb.Map.Insert.{Same}
use discodb.Map.Lookup.{FindOutcome, map_lookup-Finds}
use discodb.Map.Refines.{map_insert-Inserts}
use discodb.Map.Laws.{str_laws, int_laws}
use discodb.Map.Cursor.{walk, map_cursor_new-walk}
use discodb.Map.New.{NewOutcome, fresh, fresh-IsEmpty, map_new-IsEmpty}

abbrev always : ℕ → Bool
always n = true

-- A hash with collisions.
abbrev lengths : List ℕ → ℕ
lengths xs = length xs

abbrev words : KeyOps
words = str_keys lengths

abbrev empty : Map words ℕ
empty = fresh (λ i. record { page = 0; start = 0 }) 2

program : Unit {0}
unfolding load_bytes to_bytes list_append new_page copy_entry emptiest set_emptiest copy_to
    membuffer_copy copy_ns netstring bytes_eq str_same search_items open_leaves lookup_leaf
    map_lookup new_item map_insert map_cursor_new map_next walk
program = tt

-- The value of a key after keys have been inserted in turn, and the keys.
abbrev insert_all : List (List ℕ) → Map words ℕ → Option (Map words ℕ)
insert_all [] m = some m
insert_all (k ∷ ks) m = elim (map_insert always 0 m k) [
  | at p m' ↦ insert_all ks (set_value m' p (length ks + 1))
  | _ ↦ none
]

abbrev summary : Option (Map words ℕ) → Option (List (List ℕ) × Option ℕ × Option ℕ)
summary none = none
summary (some m) = some (keys_of m, value_of m (7 ∷ []), value_of m (9 ∷ []))

-- [7] and [8] have the same hash; [9] is missing, and does not fit.
insert_runs :
    summary (insert_all ((7 ∷ []) ∷ (8 ∷ []) ∷ (7 ∷ []) ∷ []) empty)
    ≡ some ((7 ∷ []) ∷ (8 ∷ []) ∷ [], some 1, none)
unfolding program
insert_runs = refl

full_runs : insert_all ((7 ∷ []) ∷ (8 ∷ []) ∷ (9 ∷ []) ∷ []) empty ≡ none
unfolding program
full_runs = refl

map_insert-Inserts_example :
    InsertOutcome (str_laws lengths) always 0 empty (7 ∷ []) (map_insert always 0 empty (7 ∷ []))
map_insert-Inserts_example =
    map_insert-Inserts (str_laws lengths) always 0 empty (7 ∷ [])
      (fresh-IsEmpty (str_laws lengths) (λ i. record { page = 0; start = 0 }) 2).valid (omega arith)
      (omega arith)

map_new-IsEmpty_example :
    NewOutcome
      (str_laws lengths)
      {V = ℕ}
      always
      2
      (map_new always (λ i. record { page = 0; start = 0 }) 2)
map_new-IsEmpty_example =
    map_new-IsEmpty (str_laws lengths) always (λ i. record { page = 0; start = 0 }) 2

-- A map of integers with the keys 5 and 6 in one leaf, and the values 50 and 60.
abbrev digits : KeyOps
digits = int_keys (λ xs. 0)

abbrev two : Map digits ℕ
two = record {
  leaves = λ a. some (λ b. record {
    items = record { key = 5; value = 50 } ∷ record { key = 6; value = 60 } ∷ [];
    size = 2;
  });
  num_items = 2;
  max_num_items = 9;
  key_buffer = record { pages = record { used = []; free = 8 } ∷ []; current = 0 };
  keys = record { size = 4; i = 2; list = λ j. 5 + j };
}

two-IsMap : IsMap (int_laws (λ xs. 0)) two
unfolding search_items
two-IsMap = record {
  buffer = record { current = omega arith; blocks = omega arith };
  items = λ a b. ((5, omega arith, refl), ((6, omega arith, refl), tt));
  listed = (
    (5, omega arith, refl, record { first = 0; second = 0; i = 0 }, refl),
    ((6, omega arith, refl, record { first = 0; second = 0; i = 1 }, refl), tt),
  );
  list = record { room = omega arith; fits = omega arith };
  ahead = omega arith;
  count = refl;
  limit = omega arith;
}

map_lookup-Finds_example :
    (m' : Map digits ℕ) × Same two m'
    × IsMap (int_laws (λ xs. 0)) m'
    × FindOutcome (int_laws (λ xs. 0)) always two m' 6 (map_lookup always two 6)
map_lookup-Finds_example =
    map_lookup-Finds (int_laws (λ xs. 0)) two 6 two-IsMap (omega arith) always

lookup_runs : map_lookup always two 6 ≡ (some (record { first = 0; second = 0; i = 1 }), two)
unfolding program
lookup_runs = refl

value_of-set_value_example :
    (value_of (set_value two (record { first = 0; second = 0; i = 0 }) 51) 5 ≡ some 51)
    × ((j : ℕ)
        → j ≢ 5
        → value_of (set_value two (record { first = 0; second = 0; i = 0 }) 51) j ≡ value_of two j)
unfolding search_items
value_of-set_value_example =
    value_of-set_value (int_laws (λ xs. 0)) two 5 (record { first = 0; second = 0; i = 0 }) 51 refl
      ((5, omega arith, refl), ((6, omega arith, refl), tt))

map_cursor_new-walk_example :
    ((n : ℕ) × (always n ≡ false) × (map_cursor_new always two ≡ none))
    ⊎ ((c : MapCursor ℕ) × (map_cursor_new always two ≡ some c)
        × (walk (suc c.length) two c ≡ keys_of two))
map_cursor_new-walk_example = map_cursor_new-walk always two
