-- ===== src/CommandQueue/Chain.antt =====
-- The chain of items of erlang/c_src/queue.c in its heap, and what linking in an entry makes of it.
use discodb.Common.{
  ℕ, ◌+◌, ◌^◌, ◌<◌, ◌≡◌, ◌≢◌, refl, sym, ap, ◌∙◌, arith, false, Option, none, some, List, [], ◌∷◌,
  ◌++◌, ◌==◌, update, length, length-append, All, All-append, ne→==_false, ==_refl,
}
use mathlib.Core.Path.{subst}
use discodb.CommandQueue.{QItem, CommandQueue, set_next, link_tail, add_entry}

module _ {A : Type 0} where
  -- The items from `p` on, with their addresses.
  abbrev pub Linked : (ℕ → QItem A) → Option ℕ → List (ℕ × A) → Type 0
  Linked heap p [] = p ≡ none
  Linked heap p ((a, x) ∷ rest) =
      (p ≡ some a) × ((heap a).data_ ≡ x) × Linked heap (heap a).next rest

  abbrev pub last : Option ℕ → List (ℕ × A) → Option ℕ
  last p [] = p
  last p ((a, x) ∷ rest) = last (some a) rest

  -- `a` is not the address of an item.
  abbrev pub Fresh : ℕ → List (ℕ × A) → Type 0
  Fresh a = All (λ (cell : ℕ × A). cell.0 ≢ a)

  abbrev pub Separate : List (ℕ × A) → Type 0
  Separate [] = Unit {0}
  Separate ((a, x) ∷ rest) = Fresh a rest × Separate rest

  pub record IsQueue (q : CommandQueue A) (cells : List (ℕ × A)) : Type 0 where
    pub linked : Linked q.heap q.head cells
    pub tail : q.tail ≡ last none cells
    pub counted : q.length ≡ length cells
    pub separate : Separate cells
    pub few : length cells < 2 ^ 31

  pub other : (heap : ℕ → QItem A) (a b : ℕ) (v : QItem A) → b ≢ a → update heap a v b ≡ heap b
  other heap a b v ne = let e : (a == b) ≡ false = ne→==_false a b (λ s. ne (sym s)) in rw e refl

  pub same : (heap : ℕ → QItem A) (a : ℕ) (v : QItem A) → update heap a v a ≡ v
  same heap a v = rw (==_refl a) refl

  pub Linked-update :
      (heap : ℕ → QItem A) (a : ℕ) (v : QItem A) (p : Option ℕ) (cells : List (ℕ × A))
      → Fresh a cells
      → Linked heap p cells
      → Linked (update heap a v) p cells
  Linked-update heap a v p [] f l = l
  Linked-update heap a v p ((b, x) ∷ rest) f l =
      let e = other heap a b v f.0 in
      rw e (l.0, l.1, Linked-update heap a v (heap b).next rest f.1 l.2)

  last-some : (b : ℕ) (cells : List (ℕ × A)) → (t : ℕ) × (last (some b) cells ≡ some t)
  last-some b [] = (b, refl)
  last-some b ((c, z) ∷ cells) = last-some c cells

  last-Fresh :
      (a b : ℕ) (y : A) (cells : List (ℕ × A)) (t : ℕ)
      → Fresh a ((b, y) ∷ cells)
      → last (some b) cells ≡ some t
      → t ≢ a
  last-Fresh a b y [] t f e = let same_b : b ≡ t = cc in λ at_a. f.0 (same_b ∙ at_a)
  last-Fresh a b y ((c, z) ∷ cells) t f e = last-Fresh a c z cells t f.1 e

  Linked-set_next :
      (heap : ℕ → QItem A) (a : ℕ) (x : A) (p : Option ℕ) (b : ℕ) (y : A) (cells : List (ℕ × A))
      → Linked heap p ((b, y) ∷ cells)
      → Fresh a ((b, y) ∷ cells)
      → Separate ((b, y) ∷ cells)
      → heap a ≡ record { next = none; data_ = x }
      → (t : ℕ) → last (some b) cells ≡ some t
      → Linked (set_next heap t (some a)) p (((b, y) ∷ cells) ++ ((a, x) ∷ []))
  Linked-set_next heap a x p b y [] l f s new t at_t =
      let here : b ≡ t = cc in
      let at_b : set_next heap t (some a) b ≡ record (heap b) { next = some a } =
        subst (λ (u : ℕ). set_next heap u (some a) b ≡ record (heap b) { next = some a }) here
          (same heap b _) in
      let apart : a ≢ t = λ e. f.0 (here ∙ sym e) in
      let at_a : set_next heap t (some a) a ≡ record { next = none; data_ = x } =
        other heap t a _ apart ∙ new in
      (
        l.0,
        ap (λ (i : QItem A). i.data_) at_b ∙ l.1,
        (
          ap (λ (i : QItem A). i.next) at_b,
          ap (λ (i : QItem A). i.data_) at_a,
          ap (λ (i : QItem A). i.next) at_a,
        ),
      )
  Linked-set_next heap a x p b y ((c, z) ∷ cells) l f s new t at_t =
      let apart : b ≢ t = λ e. last-Fresh b c z cells t s.0 at_t (sym e) in
      let at_b : set_next heap t (some a) b ≡ heap b = other heap t b _ apart in
      (
        l.0,
        ap (λ (i : QItem A). i.data_) at_b ∙ l.1,
        subst
            (λ (i : QItem A).
              Linked (set_next heap t (some a)) i.next (((c, z) ∷ cells) ++ ((a, x) ∷ [])))
            (sym at_b) (Linked-set_next heap a x (heap b).next c z cells l.2 f.1 s.1 new t at_t),
      )

  last-append :
      (p : Option ℕ) (a : ℕ) (x : A) (cells : List (ℕ × A))
      → some a ≡ last p (cells ++ ((a, x) ∷ []))
  last-append p a x [] = refl
  last-append p a x ((b, y) ∷ cells) = last-append (some b) a x cells

  Separate-append :
      (a : ℕ) (x : A) (cells : List (ℕ × A))
      → Fresh a cells
      → Separate cells
      → Separate (cells ++ ((a, x) ∷ []))
  Separate-append a x [] f s = (tt, tt)
  Separate-append a x ((b, y) ∷ cells) f s = (
    All-append _ cells ((a, x) ∷ []) s.0 ((λ e. f.0 (sym e)), tt),
    Separate-append a x cells f.1 s.1,
  )

  heap-add_entry :
      (q : CommandQueue A) (a : ℕ) (x : A) (t : ℕ)
      → q.tail ≡ some t
      → (add_entry a q x).heap
        ≡ set_next (update q.heap a (record { next = none; data_ = x })) t (some a)
  unfolding add_entry link_tail
  heap-add_entry q a x t e = rw e refl

  head-add_entry :
      (q : CommandQueue A) (a : ℕ) (x : A) (b : ℕ)
      → q.head ≡ some b
      → (add_entry a q x).head ≡ some b
  unfolding add_entry
  head-add_entry q a x b e = rw e refl

  Linked-add_entry :
      (q : CommandQueue A) (cells : List (ℕ × A)) (a : ℕ) (x : A)
      → IsQueue q cells
      → Fresh a cells
      → Linked (add_entry a q x).heap (add_entry a q x).head (cells ++ ((a, x) ∷ []))
  unfolding add_entry link_tail
  Linked-add_entry q [] a x is f =
      let v : QItem A = record { next = none; data_ = x } in
      let at_a = same q.heap a v in
      rw (is.linked, is.tail)
        (refl, ap (λ (i : QItem A). i.data_) at_a, ap (λ (i : QItem A). i.next) at_a)
  Linked-add_entry q ((b, y) ∷ cells) a x is f =
      let v : QItem A = record { next = none; data_ = x } in
      let some_t = last-some b cells in
      let t : ℕ = some_t.0 in
      subst
        (λ (h : ℕ → QItem A). Linked h (add_entry a q x).head (((b, y) ∷ cells) ++ ((a, x) ∷ [])))
        (sym (heap-add_entry q a x t (is.tail ∙ some_t.1)))
        (subst
          (λ (p : Option ℕ).
            Linked (set_next (update q.heap a v) t (some a)) p (((b, y) ∷ cells) ++ ((a, x) ∷ [])))
          (sym (head-add_entry q a x b is.linked.0))
          (Linked-set_next (update q.heap a v) a x (some b) b y cells
            (Linked-update q.heap a v (some b) ((b, y) ∷ cells) f (refl, is.linked.1, is.linked.2))
            f is.separate (same q.heap a v) t some_t.1))

  pub add_entry-IsQueue :
      (q : CommandQueue A) (cells : List (ℕ × A)) (a : ℕ) (x : A)
      → IsQueue q cells
      → Fresh a cells
      → length cells + 1 < 2 ^ 31
      → IsQueue (add_entry a q x) (cells ++ ((a, x) ∷ []))
  unfolding add_entry
  add_entry-IsQueue q cells a x is f few =
      let longer = length-append cells ((a, x) ∷ []) in
      record {
        linked = Linked-add_entry q cells a x is f;
        tail = last-append none a x cells;
        counted = omega (arith, is.counted, longer);
        separate = Separate-append a x cells f is.separate;
        few = omega (arith, longer);
      }
