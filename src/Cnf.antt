-- ===== src/Cnf.antt =====
-- src/ddb_cnf.c: queries in conjunctive normal form, answered a window of ids at a time.
-- A clause has its terms and the window of its union; the pointers of a term are an interface. A
-- flag and a changed state are returned as a pair. Fetching the string of an id is a parameter:
-- `failing id` says whether `ddb_get_valuestr` reports an error, and `entry id` is what it leaves.
pub mod Window
pub mod Term
pub mod Union
pub mod Bound
pub mod Isect
pub mod Next
pub mod Answers
pub mod Terms
mod Tests
use discodb.Common.{
  ℕ, zero, suc, ◌+◌, ◌-◌, ◌*◌, ◌%◌, ◌^◌, Bool, true, false, not, ◌&&◌, Option, none, some, List, [],
  ◌∷◌, ltb, if◌then◌else◌,
}
use discodb.Cnf.Window.{window_size, window_size_bytes, cleared, set_bit, test_bit, isect, isempty}

abbrev pub max_num_values : ℕ
max_num_values = 4294967295

-- struct ddb_cnf_term: `next` is called through a pointer, and the cursor behind it is its own.
pub record TermOps : Type 1 where
  pub Term : Type 0
  pub cur_id : Term → ℕ
  pub empty : Term → Bool
  pub next : Term → Term

module _ (ops : TermOps) where
  pub record Clause : Type 0 where
    pub unionn : ℕ → ℕ
    pub terms : List ops.Term

  pub record CnfCursor : Type 0 where
    pub clauses : List Clause
    pub isect : ℕ → ℕ
    pub isect_offset : ℕ
    pub base_id : ℕ

  -- The loop over the terms: `allempty` and `cmin`.
  pub clause_min : List ops.Term → Bool → ℕ → Bool × ℕ
  clause_min [] allempty cmin = (allempty, cmin)
  clause_min (t ∷ ts) allempty cmin =
      if ops.empty t
      then clause_min ts allempty cmin
      else clause_min ts false (if ltb (ops.cur_id t) cmin then ops.cur_id t else cmin)

  -- The loop over the clauses, from the last one: the value returned, and `base_id`.
  pub find_max_clause : List Clause → Bool × ℕ
  find_max_clause [] = (true, 0)
  find_max_clause (c ∷ cs) =
      let (ok, base) = find_max_clause cs in
      let (allempty, cmin) = clause_min c.terms true max_num_values in
      if not ok
      then (false, base)
      else if allempty
      then (false, base)
      else (true, if ltb base cmin then cmin else base)

  -- `while (t->cur_id < cnf->base_id && !t->empty) t->next(t);`
  pub skip : ℕ → ℕ → ops.Term → ops.Term
  skip zero base t = t
  skip (suc fuel) base t =
      let rest = skip fuel base (ops.next t) in
      if ltb (ops.cur_id t) base && not (ops.empty t) then rest else t

  -- `while (t->cur_id < maxid && !t->empty){ set_bit(...); t->next(t); }`
  pub fill : ℕ → ℕ → ℕ → (ℕ → ℕ) → ops.Term → (ℕ → ℕ) × ops.Term
  fill zero base maxid u t = (u, t)
  fill (suc fuel) base maxid u t =
      let rest =
        fill fuel base maxid (set_bit u ((ops.cur_id t + 2 ^ 32 - base) % 2 ^ 32)) (ops.next t) in
      if ltb (ops.cur_id t) maxid && not (ops.empty t) then rest else (u, t)

  -- One term of a clause. The ids ascend, so that there are fewer rounds than ids below `base`,
  -- and than ids in a window.
  pub add_term : ℕ → (ℕ → ℕ) → ops.Term → (ℕ → ℕ) × ops.Term
  add_term base u t =
      if ops.empty t
      then (u, t)
      else fill window_size base ((base + window_size) % 2 ^ 32) u (skip base base t)

  pub add_terms : ℕ → (ℕ → ℕ) → List ops.Term → (ℕ → ℕ) × List ops.Term
  add_terms base u [] = (u, [])
  add_terms base u (t ∷ ts) =
      let (u', t') = add_term base u t in let (u'', ts') = add_terms base u' ts in (u'', t' ∷ ts')

  pub all_empty : List ops.Term → Bool
  all_empty [] = true
  all_empty (t ∷ ts) = ops.empty t && all_empty ts

  pub clause_union : ℕ → Clause → Clause
  clause_union base c =
      let (u, ts) = add_terms base cleared c.terms in record { unionn = u; terms = ts }

  -- From the last clause on, until one has only empty terms.
  pub clause_unions : ℕ → List Clause → Bool × List Clause
  clause_unions base [] = (true, [])
  clause_unions base (c ∷ cs) =
      let (ok, cs') = clause_unions base cs in
      if not ok then (false, c ∷ cs') else (not (all_empty c.terms), clause_union base c ∷ cs')

  pub isect_all : (ℕ → ℕ) → List Clause → ℕ → ℕ
  isect_all dst [] = dst
  isect_all dst (c ∷ cs) = isect_all (isect dst c.unionn window_size_bytes) cs

  pub intersect_clauses : CnfCursor → Bool × CnfCursor
  intersect_clauses cnf = elim cnf.clauses [
    | [] ↦ (true, cnf)
    | c ∷ cs ↦
        let w = isect_all c.unionn cs in
        (isempty w window_size_bytes, record cnf { isect_offset = 0; isect = w })
  ]

  -- The loop over `isect_offset`, which ends at WINDOW_SIZE or at a bit.
  pub scan : ℕ → (ℕ → ℕ) → ℕ → ℕ
  scan zero w offset = offset
  scan (suc fuel) w offset =
      let rest = scan fuel w (offset + 1) in
      if ltb offset window_size && not (test_bit w offset) then rest else offset

  module _ {Entry : Type 0} (failing : ℕ → Bool) (entry : ℕ → Entry) where
    pub next_isect_entry : CnfCursor → Option Entry × CnfCursor
    next_isect_entry cnf =
        let offset = scan window_size cnf.isect cnf.isect_offset in
        let id = (cnf.base_id + offset) % 2 ^ 32 in
        if ltb offset window_size && not (failing id)
        then (some (entry id), record cnf { isect_offset = offset + 1 })
        else (none, record cnf { isect_offset = offset })

    -- `while (1)`, at most `fuel` windows.
    pub windows : ℕ → CnfCursor → Option Entry × CnfCursor
    windows zero cnf = (none, cnf)
    windows (suc fuel) cnf =
        let (found, base) = find_max_clause cnf.clauses in
        let (live, cs) = clause_unions base cnf.clauses in
        let (nothing, cnf') = intersect_clauses (record cnf { clauses = cs; base_id = base }) in
        let rest = windows fuel cnf' in
        if not found
        then (none, record cnf { base_id = base })
        else if not live
        then (none, record cnf { clauses = cs; base_id = base })
        else if nothing
        then rest
        else next_isect_entry cnf'

    pub cnf_cursor_next : ℕ → CnfCursor → Option Entry × CnfCursor
    cnf_cursor_next fuel cnf =
        let (e, cnf') = next_isect_entry cnf in
        elim e [ none ↦ windows fuel cnf' | some r ↦ (some r, cnf') ]
