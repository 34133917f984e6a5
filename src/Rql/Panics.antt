-- ===== src/Rql/Panics.antt =====
-- Single queries and their evaluation (time.go and array.go of predicate, and primary/kind.go).
use wash.Prelude.{ℕ, zero, suc, ◌≤◌, ◌≡◌, refl, ◌↔◌, Bool, true, false, none, some, arith}
use wash.Prelude.Int.{pos}
use wash.Rql.Host.{Host}
use wash.Rql.Any.{Any, Items, array, nil, item, get_item, length_items}
use wash.Rql.Ast.{
  value, text, StringField, index, Expr, atom, or, array_value, array_element, string_primary,
  kind_primary,
}
use wash.Rql.Entry.{Entry, EntrySchema}
use wash.Rql.Eval.{eval, select, nth_item}
use wash.Rql.EvalSchema.{eval_schema, is_included}

module _ {h : Host} where
  get_item-none : (xs : Items h) (i : ℕ) → get_item xs i ≡ none ↔ length_items xs ≤ i
  unfolding get_item length_items
  get_item-none nil i = (λ e. omega arith, λ l. refl)
  get_item-none (item x xs) zero = (λ e. cc, λ l. absurd (omega arith))
  get_item-none (item x xs) (suc i) =
      (λ e. omega (arith, (get_item-none xs i).0 e), λ l. (get_item-none xs i).1 (omega arith))

  -- An index selector panics on every array that is no longer than the index, and on a longer one
  -- asks the element at the index.
  pub index_lem :
      (i : ℕ) (p : Expr h value) (xs : Items h)
      → (length_items xs ≤ i
          → eval (atom (array_value (array_element (index (pos i)) p))) (array xs) ≡ none)
        × ((x : Any h)
            → get_item xs i ≡ some x
            → eval (atom (array_value (array_element (index (pos i)) p))) (array xs) ≡ eval p x)
  unfolding eval select
  index_lem i p xs = (λ l. rw ((get_item-none xs i).1 l, nth_item), λ x e. rw (e, nth_item))

  -- The query ["OR", ["kind", p], [name-like primary, q]] includes every entry whose schema is
  -- known, whatever its kind and name are, as long as `p` can be evaluated: the kind is asked of
  -- the schema alone and the name of the entry alone.
  pub kind-or-name_includes :
      (validates : h.JsonSchema → Any h → Bool) (fuel : ℕ) (p q : Expr h text) (f : StringField)
      (e : Entry h) (s : EntrySchema h) (b : Bool)
      → e.schema ≡ some s
      → eval p s.path ≡ some b
      → is_included validates fuel (or (atom (kind_primary p)) (atom (string_primary f q))) e
        ≡ some true
  unfolding is_included eval_schema eval
  kind-or-name_includes validates fuel p q f e s true known r = rw (known, r)
  kind-or-name_includes validates fuel p q f e s false known r = rw (known, r)
