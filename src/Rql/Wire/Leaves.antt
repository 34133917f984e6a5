-- ===== src/Rql/Wire/Leaves.antt =====
-- The atoms of the round trip: operators, leaves, and what the nodes that are tried first answer.
use wash.Prelude.{ℕ, suc, ◌≡◌, refl, true, false, some, str_eq}
use wash.Rql.Host.{Host}
use wash.Rql.Any.{Any, is_headed, tagged_operand, pair_operand, to_time}
use wash.Rql.Outcome.{Outcome, ok, first_match}
use wash.Rql.Ast.{
  Ptype, primary, value, number, unsigned, time_p, text, action_p, ComparisonOp, lt, lte, gt, gte,
  eql, neql, name, cname, path, atime, crtime, ctime, mtime, Selector, some_elements, all_elements,
  index, Atom, ObjectP, numeric, unsigned_numeric, tm, glob, regex, equal, action, object_value,
  array_value, null_value, boolean_value, number_value, time_value, string_value, action_primary,
  string_primary, kind_primary, time_primary, size_primary, meta_primary, boolean_primary,
}
use wash.Rql.Wire.Marshal.{show_op, marshal_atom, marshal_selector}
use wash.Rql.Wire.Atoms.{
  read_op, unmarshal_numeric, unmarshal_unsigned, unmarshal_tm, unmarshal_string, unmarshal_action,
}
use wash.Rql.Wire.Unmarshal.{
  negatable, unmarshal_expr, unmarshal_tagged, unmarshal_value, unmarshal_primary, unmarshal_object,
  unmarshal_object_value, read_selector,
}
use wash.Rql.Wire.Writable.{IsWritable, IsWritableAtom, IsWritableSelector}
use wash.Rql.Wire.Levels.{SkipsOperators}

read_op-show_op : (op : ComparisonOp) → read_op (show_op op) ≡ some op
unfolding read_op show_op
read_op-show_op lt = refl
read_op-show_op lte = refl
read_op-show_op gt = refl
read_op-show_op gte = refl
read_op-show_op eql = refl
read_op-show_op neql = refl

op-ne-or : (op : ComparisonOp) → str_eq "OR" (show_op op) ≡ false
unfolding show_op
op-ne-or lt = refl
op-ne-or lte = refl
op-ne-or gt = refl
op-ne-or gte = refl
op-ne-or eql = refl
op-ne-or neql = refl

-- The Unmarshal of the atoms of each type.
abbrev pub unmarshal_atom : {h : Host} → ℕ → (t : Ptype) → Any h → Outcome (Atom h t)
unmarshal_atom k primary = unmarshal_primary k
unmarshal_atom k value = unmarshal_value k
unmarshal_atom k number = unmarshal_numeric
unmarshal_atom k unsigned = unmarshal_unsigned
unmarshal_atom k time_p = unmarshal_tm
unmarshal_atom k text = unmarshal_string
unmarshal_atom k action_p = unmarshal_action

module _ {h : Host} where
  pub skips_operators :
      (k : ℕ) (f : ℕ) (t : Ptype)
      → SkipsOperators {h = h} f (negatable t) (unmarshal_atom (suc k) t)
  unfolding unmarshal_primary unmarshal_value unmarshal_numeric unmarshal_unsigned unmarshal_tm
      unmarshal_string unmarshal_action unmarshal_tagged tagged_operand is_headed pair_operand
      first_match
  skips_operators k f primary = record { skips_not = λ xs. refl; skips_and = λ xs. refl }
  skips_operators k f value = record { skips_not = λ xs. refl; skips_and = λ xs. refl }
  skips_operators k f number = record { skips_not = λ xs. refl; skips_and = λ xs. refl }
  skips_operators k f unsigned = record { skips_not = λ xs. refl; skips_and = λ xs. refl }
  skips_operators k f time_p = record { skips_not = λ xs. refl; skips_and = λ xs. refl }
  skips_operators k f text = record { skips_not = λ xs. refl; skips_and = λ xs. refl }
  skips_operators k f action_p = record { skips_not = λ xs. refl; skips_and = λ xs. refl }

  pub skips_object : (k f : ℕ) → SkipsOperators {h = h} f false (unmarshal_object_value (suc k))
  unfolding unmarshal_object_value tagged_operand
  skips_object k f = record { skips_not = λ xs. refl; skips_and = λ xs. refl }

  pub object_read :
      (o : ObjectP h) (k : ℕ)
      → unmarshal_object
          (suc k)
          (unmarshal_expr (suc k) true (unmarshal_value (suc k)))
          (marshal_atom {t = value} (object_value o))
        ≡ ok o
      → unmarshal_object_value (suc k) (marshal_atom (object_value o)) ≡ ok (object_value o)
  unfolding unmarshal_object_value
  object_read o k r = rw r

  pub atom-ne-or : {t : Ptype} (a : Atom h t) → is_headed "OR" (marshal_atom a) ≡ false
  unfolding is_headed marshal_atom
  atom-ne-or (numeric op n) = op-ne-or op
  atom-ne-or (unsigned_numeric op n) = op-ne-or op
  atom-ne-or (tm op t) = op-ne-or op
  atom-ne-or (glob s g) = refl
  atom-ne-or (regex r) = refl
  atom-ne-or (equal s) = refl
  atom-ne-or (action a) = refl
  atom-ne-or (object_value o) = refl
  atom-ne-or (array_value a) = refl
  atom-ne-or null_value = refl
  atom-ne-or (boolean_value b) = refl
  atom-ne-or (number_value p) = refl
  atom-ne-or (time_value p) = refl
  atom-ne-or (string_value p) = refl
  atom-ne-or (action_primary p) = refl
  atom-ne-or (string_primary name p) = refl
  atom-ne-or (string_primary cname p) = refl
  atom-ne-or (string_primary path p) = refl
  atom-ne-or (kind_primary p) = refl
  atom-ne-or (time_primary atime p) = refl
  atom-ne-or (time_primary crtime p) = refl
  atom-ne-or (time_primary ctime p) = refl
  atom-ne-or (time_primary mtime p) = refl
  atom-ne-or (size_primary p) = refl
  atom-ne-or (meta_primary p) = refl
  atom-ne-or (boolean_primary b) = refl

  pub writes_numeric :
      (op : ComparisonOp) (n : h.Decimal)
      → h.parse_decimal (h.show_decimal n) ≡ some n
      → unmarshal_numeric (marshal_atom {h = h} {t = number} (numeric op n)) ≡ ok (numeric op n)
  unfolding unmarshal_numeric marshal_atom
  writes_numeric op n p = rw (read_op-show_op op, p)

  pub writes_unsigned :
      (op : ComparisonOp) (n : h.Decimal)
      → IsWritableAtom {h = h} {t = unsigned} (unsigned_numeric op n)
      → unmarshal_unsigned (marshal_atom {h = h} {t = unsigned} (unsigned_numeric op n))
        ≡ ok (unsigned_numeric op n)
  unfolding unmarshal_unsigned marshal_atom IsWritable
  writes_unsigned op n (p, q) = rw (read_op-show_op op, p, q)

  pub writes_tm :
      (op : ComparisonOp) (t : h.Time)
      → unmarshal_tm (marshal_atom {h = h} {t = time_p} (tm op t)) ≡ ok (tm op t)
  unfolding unmarshal_tm marshal_atom to_time
  writes_tm op t = rw (read_op-show_op op)

pub writes_selector :
    (h : Host) (s : Selector)
    → IsWritableSelector h s
    → read_selector {h = h} (marshal_selector s) ≡ ok s
unfolding read_selector marshal_selector
writes_selector h some_elements w = refl
writes_selector h all_elements w = refl
writes_selector h (index i) (p, q) = rw (p, q)
