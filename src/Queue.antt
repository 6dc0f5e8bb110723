-- ===== src/Queue.antt =====
-- src/ddb_queue.c: a bounded queue in a ring of slots.
-- The array of slots is a function of the index. `available n` says whether a request for `n` bytes
-- is met.
pub mod Contents
mod Tests
use discodb.Common.{
  ℕ, ◌+◌, ◌-◌, ◌*◌, ◌%◌, ◌^◌, Bool, Option, none, some, ◌==◌, if◌then◌else◌, update, ◌&&◌,
}

-- sizeof(struct ddb_queue) and sizeof(void*)
abbrev pub sizeof_queue : ℕ
sizeof_queue = 24

abbrev pub sizeof_pointer : ℕ
sizeof_pointer = 8

-- struct ddb_queue
pub record Queue (A : Type 0) : Type 0 where
  pub q : ℕ → A
  pub max : ℕ
  pub head : ℕ
  pub tail : ℕ
  pub count : ℕ

module _ {A : Type 0} where
  -- The slots hold `junk` at first.
  unfoldable pub queue_new : (ℕ → Bool) → (ℕ → A) → ℕ → Option (Queue A)
  queue_new available junk max_length =
      if max_length == 0
      then none
      else if available sizeof_queue && available (max_length * sizeof_pointer)
      then some (record { q = junk; max = max_length; head = 0; tail = 0; count = 0 })
      else none

  -- `none` is the call of `abort`.
  unfoldable pub queue_push : Queue A → A → Option (Queue A)
  queue_push s e =
      if s.max == s.count
      then none
      else some (record s {
        q = update s.q (s.head % s.max) e;
        head = (s.head + 1) % 2 ^ 32;
        count = (s.count + 1) % 2 ^ 32;
      })

  unfoldable pub queue_pop : Queue A → Option A × Queue A
  queue_pop s = if s.count == 0 then (none, s) else (
    some (s.q (s.tail % s.max)),
    record s { count = s.count - 1; tail = (s.tail + 1) % 2 ^ 32 },
  )

  unfoldable pub queue_length : Queue A → ℕ
  queue_length s = s.count

  unfoldable pub queue_peek : Queue A → Option A
  queue_peek s = if s.count == 0 then none else some (s.q (s.tail % s.max))
