-- ===== src/Rql/Wire/Writable.antt =====
-- The queries to be written and read back (api/rql/internal), and how deep they are.
use wash.Prelude.{ℕ, suc, ◌+◌, ◌≡◌, true, false, some}
use wash.Rql.Host.{Host}
use wash.Rql.Entry.{is_action}
use wash.Rql.Ast.{
  Ptype, value, Selector, index, Expr, Atom, ObjectP, ArrayP, atom, and, or, not, numeric,
  unsigned_numeric, tm, glob, regex, equal, action, object_value, array_value, null_value,
  boolean_value, number_value, time_value, string_value, action_primary, string_primary,
  kind_primary, time_primary, size_primary, meta_primary, boolean_primary, object_size,
  object_element, array_size, array_element,
}
use wash.Rql.Wire.Atoms.{is_below_zero}
use wash.Rql.Wire.Unmarshal.{negatable}

-- An index that survives the way through a float64.
abbrev pub IsWritableSelector : Host → Selector → Type 0
IsWritableSelector h (index i) =
    (h.is_negative (h.of_int64 i) ≡ false) × (h.to_int64 (h.of_int64 i) ≡ i)
IsWritableSelector h s = Unit {0}

-- The language of PE_Object: no NOT, and objects alone.
abbrev pub IsObjectExpr : {h : Host} → Expr h value → Type 0
IsObjectExpr (atom (object_value o)) = Unit {0}
IsObjectExpr (and p q) = IsObjectExpr p × IsObjectExpr q
IsObjectExpr (or p q) = IsObjectExpr p × IsObjectExpr q
IsObjectExpr e = ⊥

-- A NOT only where the grammar has one, decimals that their text gives back, globs and regular
-- expressions that were compiled from their text, actions that exist.
unfoldable mutual
  pub IsWritable : {h : Host} {t : Ptype} → Expr h t → Type 0
  IsWritable (atom a) = IsWritableAtom a
  IsWritable (and p q) = IsWritable p × IsWritable q
  IsWritable (or p q) = IsWritable p × IsWritable q
  IsWritable {t = t} (not p) = (negatable t ≡ true) × IsWritable p

  pub IsWritableAtom : {h : Host} {t : Ptype} → Atom h t → Type 0
  IsWritableAtom {h} (numeric op n) = h.parse_decimal (h.show_decimal n) ≡ some n
  IsWritableAtom {h} (unsigned_numeric op n) =
      (h.parse_decimal (h.show_decimal n) ≡ some n) × (is_below_zero h n ≡ false)
  IsWritableAtom (tm op t) = Unit {0}
  IsWritableAtom {h} (glob s g) = h.compile_glob s ≡ some g
  IsWritableAtom {h} (regex r) = h.compile_regex (h.show_regex r) ≡ some r
  IsWritableAtom (equal s) = Unit {0}
  IsWritableAtom (action a) = is_action a ≡ true
  IsWritableAtom (object_value o) = IsWritableObject o
  IsWritableAtom (array_value a) = IsWritableArray a
  IsWritableAtom null_value = Unit {0}
  IsWritableAtom (boolean_value b) = Unit {0}
  IsWritableAtom (number_value p) = IsWritable p
  IsWritableAtom (time_value p) = IsWritable p
  IsWritableAtom (string_value p) = IsWritable p
  IsWritableAtom (action_primary p) = IsWritable p
  IsWritableAtom (string_primary f p) = IsWritable p
  IsWritableAtom (kind_primary p) = IsWritable p
  IsWritableAtom (time_primary f p) = IsWritable p
  IsWritableAtom (size_primary p) = IsWritable p
  IsWritableAtom (meta_primary p) = IsObjectExpr p × IsWritable p
  IsWritableAtom (boolean_primary b) = Unit {0}

  pub IsWritableObject : {h : Host} → ObjectP h → Type 0
  IsWritableObject (object_size p) = IsWritable p
  IsWritableObject (object_element key p) = IsWritable p

  pub IsWritableArray : {h : Host} → ArrayP h → Type 0
  IsWritableArray (array_size p) = IsWritable p
  IsWritableArray {h} (array_element s p) = IsWritableSelector h s × IsWritable p

-- The fuel that reading an expression takes.
unfoldable mutual
  pub height : {h : Host} {t : Ptype} → Expr h t → ℕ
  height (atom a) = suc (height_atom a)
  height (and p q) = suc (height p + height q)
  height (or p q) = suc (height p + height q)
  height (not p) = suc (height p)

  pub height_atom : {h : Host} {t : Ptype} → Atom h t → ℕ
  height_atom (object_value o) = suc (height_object o)
  height_atom (array_value a) = suc (height_array a)
  height_atom (number_value p) = suc (height p)
  height_atom (time_value p) = suc (height p)
  height_atom (string_value p) = suc (height p)
  height_atom (action_primary p) = suc (height p)
  height_atom (string_primary f p) = suc (height p)
  height_atom (kind_primary p) = suc (height p)
  height_atom (time_primary f p) = suc (height p)
  height_atom (size_primary p) = suc (height p)
  height_atom (meta_primary p) = suc (height p)
  height_atom a = 0

  pub height_object : {h : Host} → ObjectP h → ℕ
  height_object (object_size p) = suc (height p)
  height_object (object_element key p) = suc (height p)

  pub height_array : {h : Host} → ArrayP h → ℕ
  height_array (array_size p) = suc (height p)
  height_array (array_element s p) = suc (height p)
