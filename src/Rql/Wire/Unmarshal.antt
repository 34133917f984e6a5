-- ===== src/Rql/Wire/Unmarshal.antt =====
-- Unmarshal of expressions and of the nodes that hold them: expression.go, binOp.go, not.go,
-- atom.go, nonterminalNode.go; collectionBase.go, array.go, object.go, size.go; primary/base.go,
-- ast/primary.go, ast/query.go.
use wash.Prelude.{ℕ, zero, suc, String, Bool, true, false, [], ◌∷◌, str_eq, if◌then◌else◌}
use wash.Rql.Host.{Host}
use wash.Rql.Any.{
  Any, null, bool, num, str, array, nil, item, is_headed, pair_operand, tagged_operand,
}
use wash.Rql.Outcome.{Outcome, ok, mismatch, failed, out_of_fuel, wrapped, ◌>>=◌, first_match}
use wash.Rql.Ast.{
  Ptype, primary, value, number, unsigned, time_p, text, StringField, name, cname, path, TimeField,
  atime, crtime, ctime, mtime, Selector, some_elements, all_elements, index, Expr, Atom, ObjectP,
  ArrayP, atom, and, or, not, object_value, array_value, null_value, boolean_value, number_value,
  time_value, string_value, action_primary, string_primary, kind_primary, time_primary,
  size_primary, meta_primary, boolean_primary, object_size, object_element, array_size,
  array_element,
}
use wash.Rql.Wire.Marshal.{string_field_name, time_field_name}
use wash.Rql.Wire.Atoms.{
  unmarshal_numeric, unmarshal_unsigned, unmarshal_tm, unmarshal_string, unmarshal_action,
  read_string,
}

-- The `negatable` argument of expression.New (predicate/expression.go, ast/predicateExpression.go).
abbrev pub negatable : Ptype → Bool
negatable primary = false
negatable t = true

module _ {h : Host} where
  -- The operands of ["AND", p1, p2] and ["OR", p1, p2].
  unfoldable pub triple_operands : Any h → Outcome (Any h × Any h)
  triple_operands (array (item t (item x (item y nil)))) = ok (x, y)
  triple_operands v = failed

  -- binOp#Unmarshal and not#Unmarshal, over the Unmarshal of their operands
  unfoldable pub unmarshal_bin_op :
      {t : Ptype}
      → String
      → (Expr h t → Expr h t → Expr h t)
      → (Any h → Outcome (Expr h t))
      → Any h
      → Outcome (Expr h t)
  unfolding is_headed triple_operands
  unmarshal_bin_op op node operand v =
      if is_headed op v
      then (do
        (x, y) ← triple_operands v
        p1 ← wrapped (operand x)
        p2 ← wrapped (operand y)
        ok (node p1 p2))
      else mismatch

  unfoldable pub unmarshal_not :
      {t : Ptype} → (Any h → Outcome (Expr h t)) → Any h → Outcome (Expr h t)
  unfolding tagged_operand
  unmarshal_not operand v = do x ← tagged_operand "NOT" v; p ← wrapped (operand x); ok (not p)

  unfoldable pub to_atom : {t : Ptype} → Outcome (Atom h t) → Outcome (Expr h t)
  to_atom o = o >>= λ a. ok (atom a)

  -- expression#Unmarshal: the nodes in the order in which the nonterminal node tries them, its
  -- first argument, And, last. Each level of expressions costs a unit of fuel.
  unfoldable pub unmarshal_expr :
      {t : Ptype} → ℕ → Bool → (Any h → Outcome (Atom h t)) → Any h → Outcome (Expr h t)
  unfolding unmarshal_bin_op unmarshal_not to_atom first_match
  unmarshal_expr zero neg unmarshal_atom v = out_of_fuel
  unmarshal_expr (suc f) neg unmarshal_atom v =
      let operand = unmarshal_expr f neg unmarshal_atom in
      first_match (
        unmarshal_bin_op "OR" or operand v
        ∷ to_atom (unmarshal_atom v)
        ∷ (if neg then unmarshal_not operand v else mismatch)
        ∷ unmarshal_bin_op "AND" and operand v
        ∷ [])

  -- [tag, expression]: primary/base.go, size.go, and the values of numeric.go, time.go, string.go
  unfoldable pub unmarshal_tagged :
      {A B : Type 0} → String → (A → B) → (Any h → Outcome A) → Any h → Outcome B
  unfolding tagged_operand
  unmarshal_tagged tag node unmarshal_operand v = do
    x ← tagged_operand tag v
    a ← wrapped (unmarshal_operand x)
    ok (node a)

  unfoldable pub unmarshal_unsigned_expr : ℕ → Any h → Outcome (Expr h unsigned)
  unmarshal_unsigned_expr f = unmarshal_expr f true unmarshal_unsigned

  unfoldable pub unmarshal_text_expr : ℕ → Any h → Outcome (Expr h text)
  unmarshal_text_expr f = unmarshal_expr f true unmarshal_string

  unfoldable pub unmarshal_time_expr : ℕ → Any h → Outcome (Expr h time_p)
  unmarshal_time_expr f = unmarshal_expr f true unmarshal_tm

  unfoldable pub unmarshal_number_expr : ℕ → Any h → Outcome (Expr h number)
  unmarshal_number_expr f = unmarshal_expr f true unmarshal_numeric

  -- The element selector at the head of an arrayElement
  unfoldable pub read_selector : Any h → Outcome Selector
  read_selector (str s) =
      if str_eq s "some"
      then ok some_elements
      else if str_eq s "all"
      then ok all_elements
      else mismatch
  read_selector (num x) = if h.is_negative x then failed else ok (index (h.to_int64 x))
  read_selector v = mismatch

  -- The key of an objectElement
  unfoldable pub read_key : Any h → Outcome String
  unfolding is_headed pair_operand read_string
  read_key v = if is_headed "key" v then (pair_operand v >>= read_string) else mismatch

  -- What arrayElement#Unmarshal and objectElement#Unmarshal have in common
  unfoldable pub unmarshal_element :
      {S A : Type 0}
      → (Any h → Outcome S)
      → (S → Expr h value → A)
      → (Any h → Outcome (Expr h value))
      → Any h
      → Outcome A
  unfolding pair_operand
  unmarshal_element selector node operand (array (item x xs)) = do
    s ← selector x
    y ← pair_operand (array (item x xs))
    p ← wrapped (operand y)
    ok (node s p)
  unmarshal_element selector node operand v = mismatch

  -- collectionBase#Unmarshal: the element predicate is tried before the size predicate.
  unfoldable pub unmarshal_object :
      ℕ → (Any h → Outcome (Expr h value)) → Any h → Outcome (ObjectP h)
  unfolding unmarshal_element read_key unmarshal_tagged unmarshal_unsigned_expr first_match
      tagged_operand
  unmarshal_object f operand v = do
    x ← tagged_operand "object" v
    wrapped (
        first_match (
          unmarshal_element read_key object_element operand x
          ∷ unmarshal_tagged "size" object_size (unmarshal_unsigned_expr f) x
          ∷ []))

  unfoldable pub unmarshal_array : ℕ → (Any h → Outcome (Expr h value)) → Any h → Outcome (ArrayP h)
  unfolding unmarshal_element read_selector unmarshal_tagged unmarshal_unsigned_expr first_match
      tagged_operand
  unmarshal_array f operand v = do
    x ← tagged_operand "array" v
    wrapped (
        first_match (
          unmarshal_element read_selector array_element operand x
          ∷ unmarshal_tagged "size" array_size (unmarshal_unsigned_expr f) x
          ∷ []))

  -- null#Unmarshal and boolean#Unmarshal
  unfoldable pub unmarshal_null : Any h → Outcome (Atom h value)
  unmarshal_null null = ok null_value
  unmarshal_null v = mismatch

  unfoldable pub read_boolean : Any h → Outcome Bool
  read_boolean (bool b) = ok b
  read_boolean v = mismatch

  -- The atoms of NPE_ValuePredicate, Object last.
  unfoldable pub unmarshal_value : ℕ → Any h → Outcome (Atom h value)
  unfolding unmarshal_array unmarshal_null read_boolean unmarshal_object unmarshal_number_expr
      unmarshal_time_expr unmarshal_text_expr
  unmarshal_value zero v = out_of_fuel
  unmarshal_value (suc f) v =
      let operand = unmarshal_expr f true (unmarshal_value f) in
      first_match (
        (unmarshal_array f operand v >>= λ a. ok (array_value a))
        ∷ unmarshal_null v
        ∷ (read_boolean v >>= λ b. ok (boolean_value b))
        ∷ unmarshal_tagged "number" number_value (unmarshal_number_expr f) v
        ∷ unmarshal_tagged "time" time_value (unmarshal_time_expr f) v
        ∷ unmarshal_tagged "string" string_value (unmarshal_text_expr f) v
        ∷ (unmarshal_object f operand v >>= λ o. ok (object_value o))
        ∷ [])

  -- Object() as an atom, over the Unmarshal of its NPE_ValuePredicate
  unfoldable pub unmarshal_object_value : ℕ → Any h → Outcome (Atom h value)
  unfolding unmarshal_object
  unmarshal_object_value f v =
      unmarshal_object f (unmarshal_expr f true (unmarshal_value f)) v >>= λ o. ok (object_value o)

  -- PE_Object
  unfoldable pub unmarshal_object_expr : ℕ → Any h → Outcome (Expr h value)
  unfolding unmarshal_object_value
  unmarshal_object_expr f = unmarshal_expr f false (unmarshal_object_value f)

  -- Primary(), Action last.
  unfoldable pub unmarshal_primary : ℕ → Any h → Outcome (Atom h primary)
  unfolding unmarshal_object_expr
  unmarshal_primary f v =
      let string_tag = λ (s : StringField).
        unmarshal_tagged (string_field_name s) (string_primary s) (unmarshal_text_expr f) v in
      let time_tag = λ (s : TimeField).
        unmarshal_tagged (time_field_name s) (time_primary s) (unmarshal_time_expr f) v in
      first_match (
        string_tag name
        ∷ string_tag cname
        ∷ string_tag path
        ∷ unmarshal_tagged "kind" kind_primary (unmarshal_text_expr f) v
        ∷ time_tag atime
        ∷ time_tag crtime
        ∷ time_tag ctime
        ∷ time_tag mtime
        ∷ unmarshal_tagged "size" size_primary (unmarshal_unsigned_expr f) v
        ∷ unmarshal_tagged "meta" meta_primary (unmarshal_object_expr f) v
        ∷ (read_boolean v >>= λ b. ok (boolean_primary b))
        ∷ unmarshal_tagged "action" action_primary (unmarshal_expr f true unmarshal_action) v
        ∷ [])

  -- Query(), that is PE_Primary()
  unfoldable pub unmarshal_query : ℕ → Any h → Outcome (Expr h primary)
  unfolding unmarshal_primary
  unmarshal_query f = unmarshal_expr f false (unmarshal_primary f)
