-- ===== src/Deltalist.antt =====
-- src/ddb_deltalist.c: the ids of a key while the database is built, in segments of ascending ids
-- that are kept as 16-bit differences.
-- The linked list of segments is a list, head first. The array of a segment is a function, and the
-- theorems say that no write runs past `size`. `available n` says whether a request for `n` bytes
-- is met.
pub mod Decoding
pub mod Sizes
pub mod Search
pub mod Append
pub mod ToArray
pub mod Room
mod Tests
use discodb.Common.{
  ℕ, zero, suc, ◌+◌, ◌-◌, ◌*◌, ◌%◌, ◌^◌, Bool, true, false, ◌&&◌, ◌||◌, not, Option, none, some,
  List, [], ◌∷◌, ◌++◌, ltb, leb, ◌==◌, if◌then◌else◌, update, length,
}
use mathlib.Core.Option

abbrev pub uint16_max : ℕ
uint16_max = 65535

abbrev pub uint32_max : ℕ
uint32_max = 4294967295

abbrev pub values_inc : ℕ
values_inc = 1000000

-- sizeof(struct dsegment) and sizeof(struct ddb_deltalist)
abbrev pub sizeof_segment : ℕ
sizeof_segment = 16

abbrev pub sizeof_deltalist : ℕ
sizeof_deltalist = 16

-- struct dsegment, without `next`
pub record Segment : Type 0 where
  pub maxval : ℕ
  pub i : ℕ
  pub size : ℕ
  pub deltas : ℕ → ℕ

pub record Deltalist : Type 0 where
  pub segments : List Segment
  pub min_maxval : ℕ

abbrev pub fresh : Segment
fresh = record { maxval = 0; i = 0; size = 0; deltas = λ _. 0 }

-- `s->size == UINT16_MAX && s->i == UINT16_MAX`
abbrev pub is_full : Segment → Bool
is_full s = s.size == uint16_max && s.i == uint16_max

-- `e > s->maxval && e - s->maxval <= UINT16_MAX`
abbrev pub accepts : ℕ → Segment → Bool
accepts e s = ltb s.maxval e && leb (e - s.maxval) uint16_max

-- The first segment that takes `e`, unlinked from the others; the search stops at a full segment.
pub find_match : ℕ → List Segment → Option (Segment × List Segment)
find_match e [] = none
find_match e (s ∷ rest) =
    let later = Option.map (λ (m, others). (m, s ∷ others)) (find_match e rest) in
    if is_full s then none else if accepts e s then some (s, rest) else later

-- The sizes that `grow_segment` goes through below UINT16_MAX.
pub grown_size : ℕ → ℕ
grown_size size = if size == 0 then 4 else if size == 32768 then uint16_max else size * 2 % 2 ^ 16

-- The write at the end of `ddb_deltalist_append`.
pub put : ℕ → Segment → Segment
put e s = if s.i == 0 then record s { i = 1; maxval = e } else record s {
  deltas = update s.deltas (s.i - 1) ((e + 2 ^ 32 - s.maxval) % 2 ^ 16);
  i = (s.i + 1) % 2 ^ 16;
  maxval = e;
}

pub put_head : ℕ → Deltalist → Deltalist
put_head e d = elim d.segments [
  | [] ↦ d
  | s ∷ rest ↦ record {
    segments = put e s ∷ rest;
    min_maxval = if ltb (put e s).maxval d.min_maxval then (put e s).maxval else d.min_maxval;
  }
]

abbrev pub is_empty : List Segment → Bool
is_empty [] = true
is_empty (s ∷ rest) = false

module _ (available : ℕ → Bool) where
  pub new : Option Deltalist
  new =
      if available sizeof_deltalist
      then some (record { segments = []; min_maxval = uint32_max })
      else none

  pub new_segment : Deltalist → Option Deltalist
  new_segment d =
      if available sizeof_segment then some (record d { segments = fresh ∷ d.segments }) else none

  -- The head goes to the tail, unless it is alone.
  pub segment_full : Deltalist → Option Deltalist
  segment_full d = elim d.segments [
    | [] ↦ new_segment d
    | s ∷ [] ↦ new_segment d
    | s ∷ t ∷ rest ↦ new_segment (record d { segments = (t ∷ rest) ++ (s ∷ []) })
  ]

  -- On the head, which `ddb_deltalist_append` has just matched.
  pub grow_segment : Deltalist → Option Deltalist
  grow_segment d = elim d.segments [
    | [] ↦ none
    | s ∷ rest ↦
        if s.size == uint16_max
        then segment_full d
        else if available (sizeof_segment + grown_size s.size * 2)
        then some (record d { segments = record s { size = grown_size s.size } ∷ rest })
        else none
  ]

  pub matching_segment : Deltalist → ℕ → Option Deltalist
  matching_segment d e = elim (find_match e d.segments) [
    | none ↦ new_segment d
    | some (m, others) ↦ some (record d { segments = m ∷ others })
  ]

  -- `if (match->i >= match->size) grow_segment(d)`
  pub make_room : Deltalist → Option Deltalist
  make_room d = elim d.segments [
    | [] ↦ none
    | s ∷ rest ↦ if leb s.size s.i then grow_segment d else some d
  ]

  -- `ddb_deltalist_append`; `none` is the return value -1.
  pub append : Deltalist → ℕ → Option Deltalist
  append d e =
      if ltb e d.min_maxval || is_empty d.segments
      then Option.map (put_head e) (new_segment d)
      else Option.map (put_head e) (Option.bind (matching_segment d e) make_room)

-- `while (i--){ *buf++ = v; v -= s->deltas[i]; } *buf++ = v;`
pub decode_loop : (ℕ → ℕ) → ℕ → ℕ → List ℕ
decode_loop deltas zero v = v ∷ []
decode_loop deltas (suc i) v = v ∷ decode_loop deltas i ((v + 2 ^ 32 - deltas i) % 2 ^ 32)

pub decode : Segment → List ℕ
decode s = if ltb 0 s.i then decode_loop s.deltas (s.i - 1) s.maxval else []

pub num_values : List Segment → ℕ
num_values [] = 0
num_values (s ∷ rest) = s.i + num_values rest

pub decode_all : List Segment → List ℕ
decode_all [] = []
decode_all (s ∷ rest) = decode s ++ decode_all rest

-- `while (*values_size < *num_values) *values_size += VALUES_INC`, with one round for each value.
pub grow_values : ℕ → ℕ → ℕ → ℕ
grow_values zero needed size = size
grow_values (suc fuel) needed size =
    let rest = grow_values fuel needed (size + values_inc) in if ltb size needed then rest else size

-- What `ddb_deltalist_to_array` returns through its arguments.
pub record Values : Type 0 where
  pub num_values : ℕ
  pub values : List ℕ
  pub values_size : ℕ

pub to_array : (ℕ → Bool) → Deltalist → ℕ → Option Values
to_array available d values_size =
    let n = num_values d.segments in
    let size = grow_values n n values_size in
    if ltb values_size n && not (available (size * 4))
    then none
    else some (record { num_values = n; values = decode_all d.segments; values_size = size })

-- struct-by-struct sums of `ddb_deltalist_mem_usage`
pub record MemUsage : Type 0 where
  pub segments : ℕ
  pub alloc : ℕ
  pub used : ℕ

pub add_usage : List Segment → MemUsage → MemUsage
add_usage [] u = u
add_usage (s ∷ rest) u = add_usage rest (record {
  segments = u.segments + 1;
  alloc = u.alloc + (sizeof_segment + s.size * 2);
  used = u.used + (sizeof_segment + (if s.i == 0 then 0 else (s.i - 1) * 2));
})

pub mem_usage : Deltalist → MemUsage
mem_usage d =
    add_usage d.segments
      (record { segments = 0; alloc = sizeof_deltalist; used = sizeof_deltalist })
