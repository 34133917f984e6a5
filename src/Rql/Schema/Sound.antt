-- ===== src/Rql/Schema/Sound.antt =====
-- Values that satisfy an expression, and its schema predicate (api/rql/internal/predicate and
-- primary/meta).
use wash.Prelude.{
  ℕ, zero, suc, ◌≡◌, refl, ap, subst, ◌∙◌, ◌⊎◌, inl, inr, Bool, true, false, ◌&&◌, ◌||◌, Option,
  none, some, [], ◌∷◌, arith,
}
use wash.Rql.Host.{Host}
use wash.Rql.Any.{Any, null, array, object}
use wash.Rql.Ast.{
  value, Expr, Atom, ObjectP, ArrayP, atom, and, or, not, object_value, array_value, null_value,
  boolean_value, number_value, time_value, string_value, object_size, object_element, array_size,
  array_element,
}
use wash.Rql.Eval.{both, either, eval, eval_atom, eval_found, matching_value}
use wash.Rql.Reduce.{reduce, reduce_measure, Reduces}
use wash.Rql.Reduce.Correct.{reduce_lem}
use wash.Rql.Schema.{
  new_svs, Generate, add_object, add_array, supports, schema_atom, schema_node, schema_expr,
  ends_with_anything,
}
use wash.Rql.Schema.Prunable.{AllAtoms, AtomFits, IsPrunable, AtomsOf, reduce-AllAtoms}
use wash.Rql.Schema.Represents.{
  Represents, object_end, array_end, primitive, under_key, inside, has_end, is_primitive_atom,
  primitive_only, select-witness,
}

eval_found-witness :
    {h : Host} (p : Any h → Option Bool) (o : Option (Any h))
    → eval_found p o ≡ some true
    → (w : Any h) × (o ≡ some w) × (p w ≡ some true)
unfolding eval_found
eval_found-witness p none e = cc
eval_found-witness p (some w) e = (w, refl, e)

both-left : (a b : Option Bool) → both a b ≡ some true → a ≡ some true
both-left (some true) b e = refl
both-left (some false) b e = cc
both-left none b e = cc

both-right : (a b : Option Bool) → both a b ≡ some true → b ≡ some true
both-right (some true) b e = e
both-right (some false) b e = cc
both-right none b e = cc

either-cases : (a b : Option Bool) → either a b ≡ some true → (a ≡ some true) ⊎ (b ≡ some true)
either-cases (some true) b e = inl refl
either-cases (some false) b e = inr e
either-cases none b e = cc

or_true : (a : Bool) → some (a || true) ≡ some true
or_true true = refl
or_true false = refl

-- A schema that holds the value `v` under the path `svs` accepts each representative of `v` there.
abbrev pub Accepts : {h : Host} → (Any h → Bool) → Generate h → Any h → Type 0
Accepts {h} validates svs v = (r : Any h) → Represents v r → validates (svs r) ≡ true

module _ {h : Host} (validates : Any h → Bool) where
  supports_one : (r : Any h) → validates r ≡ true → supports validates (r ∷ []) ≡ true
  supports_one r a = unfold supports in rw a

  supports_anything :
      (svs : Generate h) (v : Any h)
      → Accepts validates svs v
      → supports validates (ends_with_anything svs) ≡ true
  supports_anything svs v a = elim (has_end v) [
    | inl o ↦ unfold supports in rw (a _ o)
    | inr (inl o) ↦ unfold supports in ground (arith, a _ o)
    | inr (inr o) ↦ unfold supports in ground (arith, a _ o)
  ]

  -- What is asked of the schema predicates of nested expressions.
  record IsSound (R : Expr h value → Type 0) (nested : Expr h value → Generate h → Option Bool)
      : Type 0 where
    returns : (p : Expr h value) (svs : Generate h) → R p → (b : Bool) × (nested p svs ≡ some b)
    sound :
        (p : Expr h value) (svs : Generate h) (v : Any h)
        → R p
        → Accepts validates svs v
        → eval p v ≡ some true
        → nested p svs ≡ some true

  module _ (R : Expr h value → Type 0) (nested : Expr h value → Generate h → Option Bool)
      (ok : IsSound R nested) where
    atom_returns :
        (a : Atom h value) (svs : Generate h)
        → AtomFits R a
        → (b : Bool) × (schema_atom validates nested a svs ≡ some b)
    unfolding schema_atom
    atom_returns (object_value (object_size p)) svs fits = (_, refl)
    atom_returns (object_value (object_element key p)) svs (k, fits) =
        let (b, e) = ok.returns p (add_object key svs) fits in (b, rw (k, e))
    atom_returns (array_value (array_size p)) svs fits = (_, refl)
    atom_returns (array_value (array_element s p)) svs (k, fits) = ok.returns p (add_array svs) fits
    atom_returns null_value svs fits = (_, refl)
    atom_returns (boolean_value b) svs fits = (_, refl)
    atom_returns (number_value p) svs fits = (_, refl)
    atom_returns (time_value p) svs fits = (_, refl)
    atom_returns (string_value p) svs fits = (_, refl)

    node_returns :
        (e : Expr h value) (svs : Generate h)
        → AllAtoms (AtomFits R) e
        → (b : Bool) × (schema_node validates nested e svs ≡ some b)
    unfolding schema_node
    node_returns (atom a) svs fits = atom_returns a svs fits
    node_returns (and p q) svs (f, g) =
        let (a, d) = node_returns p svs f in
        let (b, e) = node_returns q svs g in (a && b, rw (d, e))
    node_returns (or p q) svs (f, g) =
        let (a, d) = node_returns p svs f in
        let (b, e) = node_returns q svs g in (a || b, rw (d, e))
    node_returns (not p) svs fits = (_, refl)

    primitive_sound :
        (a : Atom h value) (svs : Generate h) (v : Any h)
        → is_primitive_atom a ≡ true
        → Accepts validates svs v
        → eval_atom a v ≡ some true
        → supports validates (svs null ∷ []) ≡ true
    primitive_sound a svs v p acc e =
        supports_one _ (acc null (primitive v (primitive_only a v p e)))

    object_sound :
        (o : ObjectP h) (svs : Generate h) (v : Any h)
        → AtomFits R (object_value o)
        → Accepts validates svs v
        → eval_atom (object_value o) v ≡ some true
        → schema_atom validates nested (object_value o) svs ≡ some true
    unfolding schema_atom eval_atom eval_found matching_value
    object_sound (object_size p) svs (object fs) fits acc e =
        ap some (supports_one _ (acc _ (object_end fs)))
    object_sound (object_element key p) svs (object fs) (k, fits) acc e =
        let (w, m, holds) = eval_found-witness (eval p) (matching_value key fs) e in
        rw k (
          ok.sound p (add_object key svs) w fits (λ r rep. acc _ (under_key key fs w r m rep))
            holds)
    object_sound o svs v fits acc e = cc

    array_sound :
        (a : ArrayP h) (svs : Generate h) (v : Any h)
        → AtomFits R (array_value a)
        → Accepts validates svs v
        → eval_atom (array_value a) v ≡ some true
        → schema_atom validates nested (array_value a) svs ≡ some true
    unfolding schema_atom eval_atom
    array_sound (array_size p) svs (array xs) fits acc e =
        ap some (supports_one _ (acc _ (array_end xs)))
    array_sound (array_element s p) svs (array xs) (k, fits) acc e =
        let (i, w, at, holds) = select-witness s (eval p) xs k e in
        ok.sound p (add_array svs) w fits (λ r rep. acc _ (inside xs i w r at rep)) holds
    array_sound a svs v fits acc e = cc

    atom_sound :
        (a : Atom h value) (svs : Generate h) (v : Any h)
        → AtomFits R a
        → Accepts validates svs v
        → eval_atom a v ≡ some true
        → schema_atom validates nested a svs ≡ some true
    atom_sound (object_value o) svs v fits acc e = object_sound o svs v fits acc e
    atom_sound (array_value a) svs v fits acc e = array_sound a svs v fits acc e
    atom_sound null_value svs v fits acc e =
        unfold schema_atom in ap some (primitive_sound null_value svs v refl acc e)
    atom_sound (boolean_value b) svs v fits acc e =
        unfold schema_atom in ap some (primitive_sound (boolean_value b) svs v refl acc e)
    atom_sound (number_value p) svs v fits acc e =
        unfold schema_atom in ap some (primitive_sound (number_value p) svs v refl acc e)
    atom_sound (time_value p) svs v fits acc e =
        unfold schema_atom in ap some (primitive_sound (time_value p) svs v refl acc e)
    atom_sound (string_value p) svs v fits acc e =
        unfold schema_atom in ap some (primitive_sound (string_value p) svs v refl acc e)

    node_sound :
        (e : Expr h value) (svs : Generate h) (v : Any h)
        → AllAtoms (AtomFits R) e
        → Accepts validates svs v
        → eval e v ≡ some true
        → schema_node validates nested e svs ≡ some true
    unfolding schema_node eval
    node_sound (atom a) svs v fits acc e = atom_sound a svs v fits acc e
    node_sound (and p q) svs v (f, g) acc e = rw (
      node_sound p svs v f acc (both-left (eval p v) (eval q v) e),
      node_sound q svs v g acc (both-right (eval p v) (eval q v) e),
    )
    node_sound (or p q) svs v (f, g) acc e =
        let (a, d) = node_returns p svs f in
        let (b, c) = node_returns q svs g in
        elim (either-cases (eval p v) (eval q v) e) [
          | inl l ↦ rw (node_sound p svs v f acc l, c)
          | inr r ↦ rw (d, node_sound q svs v g acc r) (or_true a)
        ]
    node_sound (not p) svs v fits acc e = ap some (supports_anything svs v acc)

  -- Schema predicates, all the way down: they return, and they hold of the schema of every value
  -- that the predicate holds of.
  schema_expr-IsSound : (n : ℕ) → IsSound (IsPrunable n) (schema_expr validates n)
  unfolding schema_expr
  schema_expr-IsSound zero = record {
    returns = λ p svs fits. absurd fits;
    sound = λ p svs v fits acc e. absurd fits;
  }
  schema_expr-IsSound (suc n) = record {
    returns = λ p svs fits.
        let r : Reduces p (reduce (suc (reduce_measure p)) p) = reduce_lem _ p (omega arith) in
        rw r.is_result (
          node_returns (IsPrunable n) (schema_expr validates n) (schema_expr-IsSound n) r.reduced
            svs
            (subst (AtomsOf (AtomFits (IsPrunable n))) r.is_result
              (reduce-AllAtoms (AtomFits (IsPrunable n)) _ p fits)));
    sound = λ p svs v fits acc e.
        let r : Reduces p (reduce (suc (reduce_measure p)) p) = reduce_lem _ p (omega arith) in
        rw r.is_result (
          node_sound (IsPrunable n) (schema_expr validates n) (schema_expr-IsSound n) r.reduced svs
            v
            (subst (AtomsOf (AtomFits (IsPrunable n))) r.is_result
              (reduce-AllAtoms (AtomFits (IsPrunable n)) _ p fits))
            acc (r.same_value v ∙ e));
  }

  -- If a value satisfies a value expression of prunable form, nested less than `n` deep, then each
  -- schema that accepts the representatives of the value satisfies its schema predicate.
  pub schema_expr_sound :
      (n : ℕ) (e : Expr h value) (v : Any h)
      → IsPrunable n e
      → Accepts validates new_svs v
      → eval e v ≡ some true
      → schema_expr validates n e new_svs ≡ some true
  schema_expr_sound n e v fits acc holds = (schema_expr-IsSound n).sound e new_svs v fits acc holds
