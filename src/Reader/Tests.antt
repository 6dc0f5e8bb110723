-- ===== src/Reader/Tests.antt =====
-- Runs of the reader on a database with two keys and two values.
use discodb.Common.{
  take, ◌==◌, if◌then◌else◌, ℕ, zero, suc, ◌-◌, ◌<◌, ◌≡◌, refl, sym, ap, arith, true, Option, some,
  List, [], ◌∷◌, map, length, min, get_or, ◌≢◌,
}
use discodb.Bits.{u32, load_bytes, read_bits}
use discodb.Delta.{delta_cursor, cursor_next, read_ids}
use discodb.Reader.{
  Ddb, Entry, Cursor, item_key, item_delta, getitem, found_values, new_cursor, new_delta,
  cursor_count, open_keys, open_unique_values, empty,
}
use discodb.Reader.Loads.{loaded, loads, opened, dumps, loads-dumps}
use discodb.Reader.Dump.{dump, IsWrite, DumpOutcome, dump-Outcome}
use discodb.Reader.Getitem.{
  num_left-item_delta, read_ids-item_delta, IsItem, Stores, Holds, GetitemOutcome, getitem-Answers,
}
use discodb.Reader.Walk.{HasString, Walks, value_string, Holds-Walks, cursor_count-num_items}
use discodb.Reader.Listing.{range, open_keys-Walks, open_unique_values-Walks}

-- The keys `a`, with the values `x` and `yz`, and `b`, with `yz`.
abbrev file : List ℕ
file =
    91 ∷ 222 ∷ 20 ∷ 29 ∷ 230 ∷ 91 ∷ 216 ∷ 4 ∷ 144 ∷ 0 ∷ 0 ∷ 0 ∷ 0 ∷ 0 ∷ 0 ∷ 0 ∷ 2 ∷ 0 ∷ 0 ∷ 0 ∷ 2
    ∷ 0 ∷ 0 ∷ 0 ∷ 3 ∷ 0 ∷ 0 ∷ 0 ∷ 0 ∷ 0 ∷ 0 ∷ 0 ∷ 1 ∷ 0 ∷ 0 ∷ 0 ∷ 0 ∷ 0 ∷ 0 ∷ 0 ∷ 72 ∷ 0 ∷ 0 ∷ 0 ∷ 0
    ∷ 0 ∷ 0 ∷ 0 ∷ 96 ∷ 0 ∷ 0 ∷ 0 ∷ 0 ∷ 0 ∷ 0 ∷ 0 ∷ 143 ∷ 0 ∷ 0 ∷ 0 ∷ 0 ∷ 0 ∷ 0 ∷ 0 ∷ 143 ∷ 0 ∷ 0 ∷ 0
    ∷ 0 ∷ 0 ∷ 0 ∷ 0 ∷ 123 ∷ 0 ∷ 0 ∷ 0 ∷ 0 ∷ 0 ∷ 0 ∷ 0 ∷ 133 ∷ 0 ∷ 0 ∷ 0 ∷ 0 ∷ 0 ∷ 0 ∷ 0 ∷ 143 ∷ 0
    ∷ 0 ∷ 0 ∷ 0 ∷ 0 ∷ 0 ∷ 0 ∷ 120 ∷ 0 ∷ 0 ∷ 0 ∷ 0 ∷ 0 ∷ 0 ∷ 0 ∷ 121 ∷ 0 ∷ 0 ∷ 0 ∷ 0 ∷ 0 ∷ 0 ∷ 0
    ∷ 123 ∷ 0 ∷ 0 ∷ 0 ∷ 0 ∷ 0 ∷ 0 ∷ 0 ∷ 120 ∷ 121 ∷ 122 ∷ 1 ∷ 0 ∷ 0 ∷ 0 ∷ 97 ∷ 2 ∷ 0 ∷ 0 ∷ 0 ∷ 96
    ∷ 1 ∷ 0 ∷ 0 ∷ 0 ∷ 98 ∷ 1 ∷ 0 ∷ 0 ∷ 0 ∷ 65 ∷ 0 ∷ []

abbrev small : Ddb
small = record {
  size = 144;
  errno = 0;
  num_keys = 2;
  num_uniq_values = 2;
  flags = 1;
  num_values = 3;
  key2values = 72;
  id2value = 96;
  hash = 143;
  codebook = 143;
  buf = file;
}

abbrev closed : Ddb
closed = record small { size = 0; errno = 0; num_keys = 0; buf = [] }

loads_runs : loads closed file 200 ≡ loaded small
unfolding loads opened load_bytes
loads_runs = refl

loads-dumps_example :
    (dumps true small ≡ (some (take 144 file, 144), small))
    × (loads closed (take 144 file) 144 ≡ loaded (record small { buf = take 144 file }))
    × (length file ≡ 200 → length (take 144 file) ≡ 144)
loads-dumps_example = loads-dumps closed closed small file 200 loads_runs (omega arith)

-- A pipe that takes 50 bytes at a time.
abbrev pipe : ℕ → ℕ → Option ℕ
pipe k c = some (min c 50)

pipe-IsWrite : IsWrite pipe
pipe-IsWrite k c n e =
    let same : min c 50 ≡ n = cc in (omega (arith, same), λ pos. omega (arith, same))

dump-Outcome_example : DumpOutcome pipe small (dump pipe small)
dump-Outcome_example = dump-Outcome pipe small pipe-IsWrite

abbrev key_of : ℕ → Entry
key_of zero = 97 ∷ []
key_of (suc n) = 98 ∷ []

abbrev ids_of : ℕ → List ℕ
ids_of zero = 1 ∷ 2 ∷ []
ids_of (suc n) = 2 ∷ []

abbrev search : List ℕ → Entry → ℕ
search hash [] = 7
search hash (x ∷ xs) = x - 97

item_a : IsItem small 0 (97 ∷ []) (1 ∷ 2 ∷ [])
unfolding load_bytes delta_cursor read_ids cursor_next read_bits
item_a = record {
  length_bytes = refl;
  short = omega arith;
  key_bytes = refl;
  left = λ c. refl;
  reads = λ c. refl;
  few = omega arith;
}

item_b : IsItem small 1 (98 ∷ []) (2 ∷ [])
unfolding load_bytes delta_cursor read_ids cursor_next read_bits
item_b = record {
  length_bytes = refl;
  short = omega arith;
  key_bytes = refl;
  left = λ c. refl;
  reads = λ c. refl;
  few = omega arith;
}

other : key_of 0 ≢ key_of 1
other e =
    let same : get_or (key_of 0) 0 0 ≡ get_or (key_of 1) 0 0 = ap (λ (k : Entry). get_or k 0 0) e in
    omega (arith, same)

small-Stores : Stores small key_of ids_of
small-Stores = record { items = items; distinct = distinct }
  where
    items : (i : ℕ) → i < 2 → IsItem small i (key_of i) (ids_of i)
    items zero h = item_a
    items (suc zero) h = item_b
    items (suc (suc n)) h = absurd (omega arith)

    distinct : (i j : ℕ) → i < 2 → j < 2 → key_of i ≡ key_of j → i ≡ j
    distinct zero zero h g e = refl
    distinct zero (suc j) h g e = absurd (other e)
    distinct (suc i) zero h g e = absurd (other (sym e))
    distinct (suc i) (suc j) h g e = omega arith

search_perfect : (i : ℕ) → i < 2 → search (0 ∷ []) (key_of i) ≡ i
search_perfect zero h = refl
search_perfect (suc n) h = omega arith

getitem-Answers_example :
    GetitemOutcome small key_of ids_of (98 ∷ []) true (getitem true small search (98 ∷ []))
getitem-Answers_example =
    getitem-Answers small key_of ids_of (98 ∷ []) small-Stores search true (λ h. search_perfect)

abbrev over_a : Cursor
over_a = found_values (new_cursor empty 0) (item_delta small 0 new_delta)

over_a-Holds : Holds (1 ∷ 2 ∷ []) over_a
over_a-Holds = record {
  delta = item_delta small 0 new_delta;
  kind = refl;
  left = num_left-item_delta item_a new_delta;
  reads = read_ids-item_delta item_a new_delta;
  counted = ap u32 (num_left-item_delta item_a new_delta);
}

abbrev string_of : ℕ → Entry
string_of id = if id == 1 then 120 ∷ [] else 121 ∷ 122 ∷ []

string_x : HasString small 1 (120 ∷ [])
unfolding load_bytes
string_x = record { ends = refl; inside = omega arith; short = omega arith; bytes = refl }

string_yz : HasString small 2 (121 ∷ 122 ∷ [])
unfolding load_bytes
string_yz = record { ends = refl; inside = omega arith; short = omega arith; bytes = refl }

Holds-Walks_example : Walks (λ n. true) small ((120 ∷ []) ∷ (121 ∷ 122 ∷ []) ∷ []) over_a
Holds-Walks_example =
    Holds-Walks (λ n. true) small string_of (1 ∷ 2 ∷ []) over_a over_a-Holds
      ((omega arith, omega arith, string_x), ((omega arith, omega arith, string_yz), tt)) refl refl
      refl

cursor_count-num_items_example :
    cursor_count (λ n. true) small 3 over_a ≡ some (over_a.num_items, 0)
cursor_count-num_items_example =
    cursor_count-num_items (λ n. true) small (1 ∷ 2 ∷ []) over_a 3 over_a-Holds
      (omega arith, (omega arith, tt)) refl refl (omega arith) (omega arith)

open_keys-Walks_example :
    (c : Cursor) × (open_keys true small ≡ (some c, small))
    × Walks (λ n. true) small (map (item_key small) (range 0 2)) c
    × (c.num_items ≡ 2)
open_keys-Walks_example = open_keys-Walks (λ n. true) small (omega arith)

open_unique_values-Walks_example :
    (c : Cursor) × (open_unique_values true small ≡ (some c, small))
    × Walks (λ n. true) small (map (value_string (λ n. true) small) (range 1 2)) c
    × (c.num_items ≡ 2)
open_unique_values-Walks_example = open_unique_values-Walks (λ n. true) small (omega arith) refl
