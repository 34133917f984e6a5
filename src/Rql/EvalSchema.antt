-- ===== src/Rql/EvalSchema.antt =====
-- EvalEntrySchema of the nodes of a query (primary/*.go, predicate/expression) and what the walker
-- asks of an entry (visit of api/rql/walker.go, past its depth check).
use wash.Prelude.{ℕ, Bool, true, Option, none, some}
use wash.Rql.Host.{Host}
use wash.Rql.Any.{Any}
use wash.Rql.Ast.{
  value, primary, Expr, Atom, atom, and, or, not, action_primary, kind_primary, meta_primary,
  boolean_primary,
}
use wash.Rql.Entry.{Entry, EntrySchema}
use wash.Rql.Eval.{both, either, negated, eval, some_action}
use wash.Rql.Schema.{schema_expr, new_svs}

module _ {h : Host} (validates : h.JsonSchema → Any h → Bool) (fuel : ℕ) where
  -- meta#EvalEntrySchema: an entry without a metadata schema passes.
  unfoldable pub eval_metadata_schema : Expr h value → Option h.JsonSchema → Option Bool
  eval_metadata_schema p none = some true
  eval_metadata_schema p (some s) = schema_expr (validates s) fuel p new_svs

  -- atom#EvalEntrySchema: a primary that is no EntrySchemaPredicate passes.
  unfoldable pub eval_schema_atom : Atom h primary → EntrySchema h → Option Bool
  unfolding eval_metadata_schema
  eval_schema_atom (action_primary p) s = some_action (eval p) s.actions
  eval_schema_atom (kind_primary p) s = eval p s.path
  eval_schema_atom (meta_primary p) s = eval_metadata_schema p s.metadata_schema
  eval_schema_atom (boolean_primary b) s = some b
  eval_schema_atom a s = some true

  unfoldable pub eval_schema : Expr h primary → EntrySchema h → Option Bool
  unfolding eval_schema_atom
  eval_schema (atom a) s = eval_schema_atom a s
  eval_schema (and p q) s = both (eval_schema p s) (eval_schema q s)
  eval_schema (or p q) s = either (eval_schema p s) (eval_schema q s)
  eval_schema (not p) s = negated (eval_schema p s)

  -- visit: the schema is asked first where it is known, then the entry.
  unfoldable pub eval_known_schema : Expr h primary → Option (EntrySchema h) → Option Bool
  eval_known_schema q none = some true
  eval_known_schema q (some s) = eval_schema q s

  unfoldable pub is_included : Expr h primary → Entry h → Option Bool
  unfolding eval_known_schema
  is_included q e = both (eval_known_schema q e.schema) (eval q e)
