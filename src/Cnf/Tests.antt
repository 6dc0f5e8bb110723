-- ===== src/Cnf/Tests.antt =====
-- A query over two clauses, and the theorem on it.
use discodb.Common.{ℕ, ◌<◌, ◌≡◌, inl, refl, arith, Bool, true, false, ◌&&◌, ◌||◌, [], ◌∷◌, some}
use discodb.Cnf.Window.{
  cleared, set_bit, test_bit, isect, isect_loop, isempty, isempty_loop, window_size,
}
use discodb.Cnf.{
  Clause, CnfCursor, clause_min, find_max_clause, skip, fill, add_term, add_terms, all_empty,
  clause_union, clause_unions, isect_all, intersect_clauses, scan, next_isect_entry, windows,
  cnf_cursor_next,
}
use discodb.Cnf.Next.{IsCursor, pending, Answer}
use discodb.Cnf.Answers.{cnf_cursor_next-Answer}
use discodb.Cnf.Terms.{Term, view, query_terms, next, view_next, later_ids}
use discodb.Cnf.Terms.Laws.{query_term_laws, IsQueryTerm}
use discodb.Cnf.Term.{Filled, add_term-Filled}
use discodb.Cnf.Bound.{Bound, find_max_clause-Bound}
use discodb.Cnf.Window.Bits.{IsByteArray, test_bit-set_bit, test_bit-isect, isempty-false}

-- Terms over 3, 5, 2000 and over 5, 7, 2000, each at its first id.
abbrev first_term : Term
first_term = record { source = view (3 ∷ 5 ∷ 2000 ∷ []) 1; cur_id = 3; empty = false }

abbrev second_term : Term
second_term = record { source = view (5 ∷ 7 ∷ 2000 ∷ []) 1; cur_id = 5; empty = false }

abbrev clause : Term → Clause query_terms
clause t = record { unionn = cleared; terms = t ∷ [] }

abbrev start : CnfCursor query_terms
start = record {
  clauses = clause first_term ∷ clause second_term ∷ [];
  isect = cleared;
  isect_offset = window_size;
  base_id = 0;
}

abbrev never : ℕ → Bool
never id = false

abbrev itself : ℕ → ℕ
itself id = id

start-IsCursor : IsCursor (query_term_laws 3000 (omega arith)) (omega arith) start
start-IsCursor = record {
  valid = (
    ((λ e. (omega arith, unfold later_ids in omega arith), tt), λ j. omega arith),
    (((λ e. (omega arith, unfold later_ids in omega arith), tt), λ j. omega arith), tt),
  );
  nonempty = refl;
  ahead = inl (λ o ge lt. absurd (omega arith));
}

cnf_cursor_next-Answer_example :
    Answer
      (query_term_laws 3000 (omega arith))
      (omega arith)
      never
      itself
      (pending (query_term_laws 3000 (omega arith)) (omega arith) start)
      (cnf_cursor_next query_terms never itself 4 start).0
      (cnf_cursor_next query_terms never itself 4 start).1
cnf_cursor_next-Answer_example =
    cnf_cursor_next-Answer (query_term_laws 3000 (omega arith)) (omega arith) never itself
      (λ x. refl) 4 start start-IsCursor (omega arith)

program : Unit {0}
unfolding set_bit test_bit isect isect_loop isempty isempty_loop clause_min find_max_clause skip
    fill add_term add_terms all_empty clause_union clause_unions isect_all intersect_clauses scan
    next_isect_entry windows cnf_cursor_next next view_next
program = tt

-- 5 is the first id in both clauses.
first_answer_runs : (cnf_cursor_next query_terms never itself 4 start).0 ≡ some 5
unfolding program
first_answer_runs = refl

abbrev bits : ℕ → ℕ
bits i = 5

bits-IsByteArray : IsByteArray bits
bits-IsByteArray j = omega arith

test_bit-set_bit_example : test_bit (set_bit bits 9) 8 ≡ (false || test_bit bits 8)
test_bit-set_bit_example = test_bit-set_bit bits 9 8

test_bit-isect_example :
    test_bit (isect bits (set_bit cleared 10) 128) 10
    ≡ (test_bit bits 10 && test_bit (set_bit cleared 10) 10)
test_bit-isect_example = test_bit-isect bits (set_bit cleared 10) 128 10 (omega arith)

isempty-false_example : (o : ℕ) × (o < 1024) × (test_bit bits o ≡ true)
isempty-false_example =
    isempty-false bits 128 bits-IsByteArray (unfold isempty isempty_loop in refl)

first-IsQueryTerm : IsQueryTerm 3000 (omega arith) first_term
first-IsQueryTerm e = (omega arith, unfold later_ids in omega arith)

add_term-Filled_example :
    Filled
      (query_term_laws 3000 (omega arith))
      4
      cleared
      first_term
      (add_term query_terms 4 cleared first_term).0
      (add_term query_terms 4 cleared first_term).1
add_term-Filled_example =
    add_term-Filled (query_term_laws 3000 (omega arith)) 4 (omega arith) cleared first_term
      (λ j. omega arith) first-IsQueryTerm

find_max_clause-Bound_example :
    Bound
      (query_term_laws 3000 (omega arith))
      start.clauses
      (find_max_clause query_terms start.clauses).0
      (find_max_clause query_terms start.clauses).1
find_max_clause-Bound_example =
    find_max_clause-Bound (query_term_laws 3000 (omega arith)) start.clauses start-IsCursor.valid
      (omega arith)
