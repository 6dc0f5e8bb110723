-- ===== src/Cnf/Terms.antt =====
-- The terms of a query: `ddb_val_next` on the ids of a key, and `ddb_view_next` on those of a view.
pub mod Laws
use discodb.Common.{
  ℕ, zero, suc, ◌+◌, ◌^◌, ◌≤◌, ◌<◌, ◌≡◌, refl, sym, ap, ◌∙◌, arith, Bool, true, false, not, ◌&&◌,
  ◌||◌, ltb, ◌==◌, if◌then◌else◌, Bool-cases, ◌⊎◌, inl, inr, List, [], ◌∷◌, length, drop, get_or,
  length-drop,
}
use discodb.Bits.{u32}
use discodb.Delta.{DeltaCursor, cursor_next, read_ids}
use discodb.Cnf.{TermOps}
use discodb.Cnf.Term.{TermLaws}
use mathlib.Core.Path.{subst}

-- The cursor behind a term, with the function that `next` points to. A view is its ids and an
-- index.
pub data Source : Type 0 where
  value : DeltaCursor → Source
  view : List ℕ → ℕ → Source

-- struct ddb_cnf_term
pub record Term : Type 0 where
  pub source : Source
  pub cur_id : ℕ
  pub empty : Bool

abbrev pub ended : Term → Term
ended t = record t { empty = true; cur_id = 0 }

pub val_next : DeltaCursor → Term → Term
val_next c t =
    if t.empty
    then t
    else if ltb 0 c.num_left
    then record t { source = value (cursor_next c); cur_id = u32 (cursor_next c).cur_id }
    else ended t

unfoldable pub view_next : List ℕ → ℕ → Term → Term
view_next values index t =
    if ltb index (length values)
    then record t { source = view values (index + 1); cur_id = get_or values index 0 }
    else ended t

unfoldable pub next : Term → Term
next t = elim t.source [ value c ↦ val_next c t | view values index ↦ view_next values index t ]

abbrev pub query_terms : TermOps
query_terms = record { Term = Term; cur_id = λ t. t.cur_id; empty = λ t. t.empty; next = next }

-- The ids after the current one.
unfoldable pub later_ids : Source → List ℕ
later_ids (value c) = read_ids c.num_left c
later_ids (view values index) = drop index values
