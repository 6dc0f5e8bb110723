-- ===== src/KeyList.antt =====
-- src/ddb_list.c: a growing list of machine words, which are numbers or pointers.
-- The array is a function of the index. `available n` says whether a request for `n` bytes is met.
pub mod Contents
mod Tests
use discodb.Common.{
  ℕ, ◌+◌, ◌-◌, ◌*◌, ◌%◌, ◌^◌, Bool, Option, none, some, ltb, ◌==◌, if◌then◌else◌, update, ◌&&◌, not,
}

abbrev pub list_increment : ℕ
list_increment = 128

abbrev pub uint32_max : ℕ
uint32_max = 4294967295

-- sizeof(struct ddb_list)
abbrev pub sizeof_list : ℕ
sizeof_list = 8

-- struct ddb_list
pub record KeyList (A : Type 0) : Type 0 where
  pub size : ℕ
  pub i : ℕ
  pub list : ℕ → A

-- The bytes asked for: the product is a uint32_t.
abbrev pub list_bytes : ℕ → ℕ
list_bytes size = sizeof_list + size * 8 % 2 ^ 32

-- The size after growth.
abbrev pub list_grown : ℕ → ℕ
list_grown size =
    if ltb size (uint32_max - list_increment) then size + list_increment else uint32_max

module _ {A : Type 0} (available : ℕ → Bool) where
  unfoldable pub list_new : (ℕ → A) → Option (KeyList A)
  list_new junk =
      if available (sizeof_list + 4 * 8)
      then some (record { size = 4; i = 0; list = junk })
      else none

  unfoldable pub list_append : KeyList A → A → Option (KeyList A)
  list_append l e =
      let size = if l.i == l.size then list_grown l.size else l.size in
      if l.i == l.size && not (available (list_bytes size))
      then none
      else if l.i == uint32_max
      then none
      else some (record { size = size; i = l.i + 1; list = update l.list l.i e })

pub record ListUsage : Type 0 where
  pub alloc : ℕ
  pub used : ℕ

-- The products are uint32_t, the sums uint64_t.
pub list_mem_usage : {A : Type 0} → KeyList A → ListUsage
list_mem_usage l = record {
  alloc = l.size * 8 % 2 ^ 32 + sizeof_list;
  used = l.i * 8 % 2 ^ 32 + sizeof_list;
}
