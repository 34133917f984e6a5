-- ===== src/Rql/Eval.antt =====
-- The Eval methods of the nodes: EvalValue, EvalString, EvalNumeric, EvalTime, EvalAction and
-- EvalEntry (api/rql/internal/predicate, primary, predicate/expression). `none` is a panic.
use wash.Prelude.{
  String, Bool, true, false, negate, Option, none, some, List, [], ◌∷◌, str_eq, if◌then◌else◌,
}
use Prim.Native.Nat.{Ordering}
use wash.Prelude.Int.{ℤ, pos, negsuc}
use wash.Rql.Host.{Host}
use wash.Rql.Any.{
  Any, Items, Fields, null, bool, num, str, array, object, nil, item, end, field, length_items,
  length_fields, get_item, to_time,
}
use wash.Rql.Ast.{
  Ptype, primary, value, number, unsigned, time_p, text, action_p, ComparisonOp, lt, lte, gt, gte,
  eql, neql, StringField, name, cname, path, TimeField, atime, crtime, ctime, mtime, Selector,
  some_elements, all_elements, index, Expr, Atom, ObjectP, ArrayP, atom, and, or, not, numeric,
  unsigned_numeric, tm, glob, regex, equal, action, object_value, array_value, null_value,
  boolean_value, number_value, time_value, string_value, action_primary, string_primary,
  kind_primary, time_primary, size_primary, meta_primary, boolean_primary, object_size,
  object_element, array_size, array_element,
}
use wash.Rql.Entry.{Entry, is_schema_known, find_action, int64_of_uint64}

-- What a predicate of each type is evaluated on.
abbrev pub Subject : Host → Ptype → Type 0
Subject h primary = Entry h
Subject h value = Any h
Subject h number = h.Decimal
Subject h unsigned = h.Decimal
Subject h time_p = h.Time
Subject h text = String
Subject h action_p = String

abbrev pub bool_eq : Bool → Bool → Bool
bool_eq true b = b
bool_eq false b = negate b

-- `&&`, `||` and `!`: the right operand is not evaluated, and cannot panic, where the left decides.
abbrev pub both : Option Bool → Option Bool → Option Bool
both (some true) r = r
both (some false) r = some false
both none r = none

abbrev pub either : Option Bool → Option Bool → Option Bool
either (some true) r = some true
either (some false) r = r
either none r = none

abbrev pub negated : Option Bool → Option Bool
negated (some b) = some (negate b)
negated none = none

-- EvalNumeric, by the sign of Cmp
unfoldable pub eval_numeric : ComparisonOp → Ordering → Bool
eval_numeric lt c = elim c [ Ordering.lt ↦ true | _ ↦ false ]
eval_numeric lte c = elim c [ Ordering.gt ↦ false | _ ↦ true ]
eval_numeric gt c = elim c [ Ordering.gt ↦ true | _ ↦ false ]
eval_numeric gte c = elim c [ Ordering.lt ↦ false | _ ↦ true ]
eval_numeric eql c = elim c [ Ordering.eq ↦ true | _ ↦ false ]
eval_numeric neql c = elim c [ Ordering.eq ↦ false | _ ↦ true ]

-- EvalTime, which has no case for NEQL and panics there
unfoldable pub eval_time : ComparisonOp → Ordering → Option Bool
eval_time lt c = some (elim c [ Ordering.lt ↦ true | _ ↦ false ])
eval_time lte c = some (elim c [ Ordering.gt ↦ false | _ ↦ true ])
eval_time gt c = some (elim c [ Ordering.gt ↦ true | _ ↦ false ])
eval_time gte c = some (elim c [ Ordering.lt ↦ false | _ ↦ true ])
eval_time eql c = some (elim c [ Ordering.eq ↦ true | _ ↦ false ])
eval_time neql c = none

-- action#evalActions
unfoldable pub some_action : (String → Option Bool) → List String → Option Bool
some_action p [] = some false
some_action p (a ∷ names) = either (p (find_action a)) (some_action p names)

module _ {h : Host} where
  -- The loops of arrayElement#EvalValue, with their early returns.
  unfoldable pub some_item : (Any h → Option Bool) → Items h → Option Bool
  some_item p nil = some false
  some_item p (item x xs) = either (p x) (some_item p xs)

  unfoldable pub every_item : (Any h → Option Bool) → Items h → Option Bool
  every_item p nil = some true
  every_item p (item x xs) = both (p x) (every_item p xs)

  -- array[t]: out of range, or negative, it panics
  unfoldable pub nth_item : (Any h → Option Bool) → ℤ → Items h → Option Bool
  nth_item p (pos i) xs = elim (get_item xs i) [ some x ↦ p x | none ↦ none ]
  nth_item p (negsuc n) xs = none

  unfoldable pub select : Selector → (Any h → Option Bool) → Items h → Option Bool
  unfolding some_item every_item nth_item
  select some_elements p xs = some_item p xs
  select all_elements p xs = every_item p xs
  select (index i) p xs = nth_item p i xs

  -- objectElement#findMatchingKey, and the value under that key
  unfoldable pub matching_value : String → Fields h → Option (Any h)
  matching_value key end = none
  matching_value key (field k v fs) =
      if str_eq (h.to_upper k) (h.to_upper key) then some v else matching_value key fs

  -- `found && p.p.EvalValue(obj[k])`
  unfoldable pub eval_found : (Any h → Option Bool) → Option (Any h) → Option Bool
  eval_found p none = some false
  eval_found p (some w) = p w

  abbrev pub string_field : StringField → Entry h → String
  string_field name e = e.name
  string_field cname e = e.cname
  string_field path e = e.path

  abbrev pub time_field : TimeField → Entry h → h.Time
  time_field atime e = e.attributes.atime
  time_field crtime e = e.attributes.crtime
  time_field ctime e = e.attributes.ctime
  time_field mtime e = e.attributes.mtime

unfoldable mutual
  pub eval : {h : Host} {t : Ptype} → Expr h t → Subject h t → Option Bool
  eval (atom a) x = eval_atom a x
  eval (and p q) x = both (eval p x) (eval q x)
  eval (or p q) x = either (eval p x) (eval q x)
  eval (not p) x = negated (eval p x)

  pub eval_atom : {h : Host} {t : Ptype} → Atom h t → Subject h t → Option Bool
  eval_atom {h} (numeric op n) x = some (eval_numeric op (h.cmp_decimal x n))
  eval_atom {h} (unsigned_numeric op n) x = some (eval_numeric op (h.cmp_decimal x n))
  eval_atom {h} (tm op t) x = eval_time op (h.cmp_time x t)
  eval_atom {h} (glob s g) x = some (h.glob_matches g x)
  eval_atom {h} (regex r) x = some (h.regex_matches r x)
  eval_atom (equal s) x = some (str_eq x s)
  eval_atom (action a) x = some (str_eq a x)
  eval_atom (object_value o) v = eval_object o v
  eval_atom (array_value a) v = eval_array a v
  eval_atom null_value v = some (elim v [ null ↦ true | _ ↦ false ])
  eval_atom (boolean_value b) v = some (elim v [ bool c ↦ bool_eq c b | _ ↦ false ])
  eval_atom {h} (number_value p) v = elim v [
    | num f ↦ eval p (h.decimal_of_float f)
    | _ ↦ some false
  ]
  eval_atom (time_value p) v = elim (to_time v) [ some t ↦ eval p t | none ↦ some false ]
  eval_atom (string_value p) v = elim v [ str s ↦ eval p s | _ ↦ some false ]
  eval_atom (action_primary p) e = some_action (eval p) e.actions
  eval_atom (string_primary f p) e = eval p (string_field f e)
  eval_atom (kind_primary p) e = some (is_schema_known e)
  eval_atom (time_primary f p) e = eval p (time_field f e)
  eval_atom {h} (size_primary p) e = eval p (h.decimal_of_int (int64_of_uint64 e.attributes.size))
  eval_atom (meta_primary p) e = eval p (object e.metadata)
  eval_atom (boolean_primary b) e = some b

  pub eval_object : {h : Host} → ObjectP h → Any h → Option Bool
  eval_object {h} (object_size p) v = elim v [
    | object fs ↦ eval p (h.decimal_of_int (pos (length_fields fs)))
    | _ ↦ some false
  ]
  eval_object (object_element key p) v = elim v [
    | object fs ↦ elim (matching_value key fs) [ some w ↦ eval p w | none ↦ some false ]
    | _ ↦ some false
  ]

  pub eval_array : {h : Host} → ArrayP h → Any h → Option Bool
  eval_array {h} (array_size p) v = elim v [
    | array xs ↦ eval p (h.decimal_of_int (pos (length_items xs)))
    | _ ↦ some false
  ]
  eval_array (array_element s p) v = elim v [ array xs ↦ select s (eval p) xs | _ ↦ some false ]
