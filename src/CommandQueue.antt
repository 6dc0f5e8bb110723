-- ===== src/CommandQueue.antt =====
-- erlang/c_src/queue.c: the queue of commands between the threads of the Erlang driver.
-- An operation runs under the lock up to its end or to `enif_cond_wait`, so that it is one step. A thread
-- that waits is among the sleeping ones; when it has been woken, the loop around the wait makes it do the
-- step again. The items stand in a heap, a function of the address; `enif_alloc` is an argument, the
-- address or none for NULL. An `int` is its 32 bits as a number.
pub mod Chain
pub mod Contents
mod Tests
use discodb.Common.{
  ℕ, ◌+◌, ◌-◌, ◌%◌, ◌^◌, ◌≡◌, ◌⊎◌, Bool, true, false, not, Option, none, some, List, [], ◌∷◌, ltb,
  ◌==◌, if◌then◌else◌, update,
}
use mathlib.Core.List.{Perm}

module _ (A : Type 0) where
  -- struct qitem
  pub record QItem : Type 0 where
    pub next : Option ℕ
    pub data_ : A

  -- struct queue, apart from the lock. Of the condition, the threads that wait for it are kept.
  pub record CommandQueue : Type 0 where
    pub heap : ℕ → QItem
    pub head : Option ℕ
    pub tail : Option ℕ
    pub length : ℕ
    pub message : Option A
    pub sleeping : List ℕ

-- `enif_cond_signal`: the thread that is woken, if some sleep, and those that sleep on.
pub record Condition : Type 0 where
  pub signal : List ℕ → Option (ℕ × List ℕ)
  pub signal_lem :
      (threads : List ℕ)
      → ((threads ≡ []) × (signal threads ≡ none))
        ⊎ ((u : ℕ) × (others : List ℕ) × (signal threads ≡ some (u, others))
            × Perm (u ∷ others) threads)

-- `length >= 0` for an `int`
abbrev pub is_size : ℕ → Bool
is_size n = ltb n (2 ^ 31)

-- What `queue_push` does: it returns 0; its assertion fails; the length overflows, which C leaves
-- undefined; or it returns 1, and wakes a thread.
pub data Pushed (A : Type 0) : Type 0 where
  no_memory : Pushed A
  push_aborted : Pushed A
  overflow : Pushed A
  pushed : Option ℕ → CommandQueue A → Pushed A

-- What `queue_pop` and `queue_receive` do: the thread waits on the condition; an assertion fails; or an
-- item is returned.
pub data Received (A : Type 0) : Type 0 where
  waits : CommandQueue A → Received A
  aborted : Received A
  received : A → CommandQueue A → Received A

module _ {A : Type 0} where
  unfoldable pub create : (ℕ → QItem A) → CommandQueue A
  create heap = record {
    heap = heap;
    head = none;
    tail = none;
    length = 0;
    message = none;
    sleeping = [];
  }

  unfoldable pub queue_empty : CommandQueue A → Bool
  queue_empty q = elim q.head [ none ↦ true | some a ↦ false ]

  -- `entry->next = next`
  abbrev pub set_next : (ℕ → QItem A) → ℕ → Option ℕ → ℕ → QItem A
  set_next heap a next = update heap a (record (heap a) { next = next })

  -- `queue->tail->next = entry`
  unfoldable pub link_tail : CommandQueue A → ℕ → ℕ → QItem A
  link_tail q a = elim q.tail [ none ↦ q.heap | some t ↦ set_next q.heap t (some a) ]

  -- The entry at `a` is linked in.
  unfoldable pub add_entry : ℕ → CommandQueue A → A → CommandQueue A
  add_entry a q x =
      let q' = record q { heap = update q.heap a (record { next = none; data_ = x }) } in
      record q' {
        heap = link_tail q' a;
        tail = some a;
        head = elim q.head [ none ↦ some a | some h ↦ some h ];
        length = (q.length + 1) % 2 ^ 32;
      }

  -- `enif_cond_signal(queue->cond)`
  unfoldable pub wake : Condition → CommandQueue A → Option ℕ × CommandQueue A
  wake cond q = elim (cond.signal q.sleeping) [
    | none ↦ (none, q)
    | some (u, others) ↦ (some u, record q { sleeping = others })
  ]

  unfoldable pub push : Condition → Option ℕ → CommandQueue A → A → Pushed A
  push cond none q x = no_memory
  push cond (some a) q x =
      let (woken, q') = wake cond (add_entry a q x) in
      if not (is_size q.length)
      then push_aborted
      else if q.length == 2 ^ 31 - 1
      then overflow
      else pushed woken q'

  -- The head `a`, which `next` follows, is taken off; the assertion is on the tail of a queue that is
  -- empty then.
  unfoldable pub take_entry : CommandQueue A → ℕ → Option ℕ → Received A
  take_entry q a next =
      let q' = record q {
        heap = set_next q.heap a none;
        head = next;
        length = (q.length + 2 ^ 32 - 1) % 2 ^ 32;
      } in
      elim next [
        | some b ↦ received (q.heap a).data_ q'
        | none ↦ elim q.tail [
          | none ↦ aborted
          | some t ↦
              if t == a then received (q.heap a).data_ (record q' { tail = none }) else aborted
        ]
      ]

  unfoldable pub pop : ℕ → CommandQueue A → Received A
  pop thread q = elim q.head [
    | none ↦ waits (record q { sleeping = thread ∷ q.sleeping })
    | some a ↦ if is_size q.length then take_entry q a (q.heap a).next else aborted
  ]

  -- `none` is a failed assertion: there is a message already.
  unfoldable pub send : Condition → CommandQueue A → A → Option (Option ℕ × CommandQueue A)
  send cond q x = elim q.message [
    | none ↦ some (wake cond (record q { message = some x }))
    | some m ↦ none
  ]

  unfoldable pub receive : ℕ → CommandQueue A → Received A
  receive thread q = elim q.message [
    | none ↦ waits (record q { sleeping = thread ∷ q.sleeping })
    | some m ↦ received m (record q { message = none })
  ]
