-- ===== src/Rql/Schema.antt =====
-- Schema predicates: which metadata schemas can hold a value that satisfies a predicate
-- (api/rql/internal/primary/meta/valuePredicate.go, satisfyingValueSchema.go and valueSchema.go,
-- and the SchemaPredicate methods of the nodes).
pub mod Represents
pub mod Prunable
pub mod Sound
use wash.Prelude.{
  ℕ, zero, suc, String, Bool, false, ◌&&◌, ◌||◌, Option, none, some, List, [], ◌∷◌, map, str_eq,
  if◌then◌else◌,
}
use wash.Prelude.Maybe.{◌>>=◌}
use wash.Rql.Reduce.{reduce, reduce_measure}
use wash.Rql.Host.{Host}
use wash.Rql.Ast.{
  Ptype, value, Expr, Atom, ObjectP, ArrayP, atom, and, or, not, object_value, array_value,
  null_value, boolean_value, number_value, time_value, string_value, object_size, object_element,
  array_size, array_element,
}
use wash.Rql.Any.{Any, null, array, object, nil, item, end, field}

-- generateRepresentativeValue of an incomplete SatisfyingValueSchema. A complete one is the list
-- of its representativeValues, so that the panics of `add` and `Supports` cannot arise.
abbrev pub Generate : Host → Type 0
Generate h = Any h → Any h

module _ {h : Host} where
  -- NewSatisfyingValueSchema
  abbrev pub new_svs : Generate h
  new_svs v = v

  -- AddObject, without its panic on an empty key
  abbrev pub add_object : String → Generate h → Generate h
  add_object key svs v = svs (object (field (h.to_upper key) v end))

  -- AddArray
  abbrev pub add_array : Generate h → Generate h
  add_array svs v = svs (array (item v nil))

  -- endsWith, and the four ways in which it is called
  abbrev pub ends_with : Generate h → List (Any h) → List (Any h)
  ends_with svs values = map svs values

  abbrev pub ends_with_primitive_value : Generate h → List (Any h)
  ends_with_primitive_value svs = ends_with svs (null ∷ [])

  abbrev pub ends_with_object : Generate h → List (Any h)
  ends_with_object svs = ends_with svs (object end ∷ [])

  abbrev pub ends_with_array : Generate h → List (Any h)
  ends_with_array svs = ends_with svs (array nil ∷ [])

  abbrev pub ends_with_anything : Generate h → List (Any h)
  ends_with_anything svs = ends_with svs (object end ∷ array nil ∷ null ∷ [])

  -- ValueSchema#Supports, for a schema that is known by which values its validator accepts. The panic
  -- on an error of the validator is left out.
  unfoldable pub supports : (Any h → Bool) → List (Any h) → Bool
  supports validates [] = false
  supports validates (v ∷ vs) = validates v || supports validates vs

-- SchemaPredicate of the nodes, applied to a schema. `none` is a panic: of AddObject on an empty
-- key, or of the type assertion to a ValuePredicate. `nested` is the method of the expression under
-- an element predicate.
module _ {h : Host} (validates : Any h → Bool)
    (nested : Expr h value → Generate h → Option Bool) where
  unfoldable pub schema_object : ObjectP h → Generate h → Option Bool
  schema_object (object_size p) svs = some (supports validates (ends_with_object svs))
  schema_object (object_element key p) svs =
      if str_eq key "" then none else nested p (add_object key svs)

  unfoldable pub schema_array : ArrayP h → Generate h → Option Bool
  schema_array (array_size p) svs = some (supports validates (ends_with_array svs))
  schema_array (array_element s p) svs = nested p (add_array svs)

  unfoldable pub schema_atom : {t : Ptype} → Atom h t → Generate h → Option Bool
  unfolding schema_object schema_array
  schema_atom (object_value o) svs = schema_object o svs
  schema_atom (array_value a) svs = schema_array a svs
  schema_atom null_value svs = some (supports validates (ends_with_primitive_value svs))
  schema_atom (boolean_value b) svs = some (supports validates (ends_with_primitive_value svs))
  schema_atom (number_value p) svs = some (supports validates (ends_with_primitive_value svs))
  schema_atom (time_value p) svs = some (supports validates (ends_with_primitive_value svs))
  schema_atom (string_value p) svs = some (supports validates (ends_with_primitive_value svs))
  schema_atom a svs = none

  -- Both operands of AND and OR are built, and may panic, before either is asked.
  unfoldable pub schema_node : {t : Ptype} → Expr h t → Generate h → Option Bool
  unfolding schema_atom
  schema_node (atom a) svs = schema_atom a svs
  schema_node (and p q) svs = do sp1 ← schema_node p svs; sp2 ← schema_node q svs; some (sp1 && sp2)
  schema_node (or p q) svs = do sp1 ← schema_node p svs; sp2 ← schema_node q svs; some (sp1 || sp2)
  schema_node (not p) svs = some (supports validates (ends_with_anything svs))

-- expression#SchemaPredicate: reduce first. The fuel bounds how deep element predicates are nested;
-- at its end the result is `none`.
module _ {h : Host} (validates : Any h → Bool) where
  unfoldable pub schema_expr : ℕ → Expr h value → Generate h → Option Bool
  unfolding schema_node
  schema_expr zero e svs = none
  schema_expr (suc n) e svs = do
    reduced ← reduce (suc (reduce_measure e)) e
    schema_node validates (schema_expr n) reduced svs
