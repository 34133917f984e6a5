-- ===== src/Rql/Wire/Marshal.antt =====
-- Marshal of the nodes (api/rql/internal/predicate, primary and predicate/expression).
use wash.Prelude.{String}
use wash.Rql.Host.{Host}
use wash.Rql.Any.{Any, null, bool, num, str, time, array, nil, item}
use wash.Rql.Ast.{
  Ptype, ComparisonOp, lt, lte, gt, gte, eql, neql, StringField, name, cname, path, TimeField,
  atime, crtime, ctime, mtime, Selector, some_elements, all_elements, index, Expr, Atom, ObjectP,
  ArrayP, atom, and, or, not, numeric, unsigned_numeric, tm, glob, regex, equal, action,
  object_value, array_value, null_value, boolean_value, number_value, time_value, string_value,
  action_primary, string_primary, kind_primary, time_primary, size_primary, meta_primary,
  boolean_primary, object_size, object_element, array_size, array_element,
}

-- comparisonOp.go
unfoldable pub show_op : ComparisonOp → String
show_op lt = "<"
show_op lte = "<="
show_op gt = ">"
show_op gte = ">="
show_op eql = "="
show_op neql = "!="

abbrev pub string_field_name : StringField → String
string_field_name name = "name"
string_field_name cname = "cname"
string_field_name path = "path"

abbrev pub time_field_name : TimeField → String
time_field_name atime = "atime"
time_field_name crtime = "crtime"
time_field_name ctime = "ctime"
time_field_name mtime = "mtime"

-- []interface{}{a, b} and []interface{}{a, b, c}
abbrev pub pair : {h : Host} → Any h → Any h → Any h
pair a b = array (item a (item b nil))

abbrev pub triple : {h : Host} → Any h → Any h → Any h → Any h
triple a b c = array (item a (item b (item c nil)))

unfoldable pub marshal_selector : {h : Host} → Selector → Any h
marshal_selector some_elements = str "some"
marshal_selector all_elements = str "all"
marshal_selector {h} (index i) = num (h.of_int64 i)

unfoldable mutual
  pub marshal : {h : Host} {t : Ptype} → Expr h t → Any h
  marshal (atom a) = marshal_atom a
  marshal (and p q) = triple (str "AND") (marshal p) (marshal q)
  marshal (or p q) = triple (str "OR") (marshal p) (marshal q)
  marshal (not p) = pair (str "NOT") (marshal p)

  pub marshal_atom : {h : Host} {t : Ptype} → Atom h t → Any h
  marshal_atom {h} (numeric op n) = pair (str (show_op op)) (str (h.show_decimal n))
  marshal_atom {h} (unsigned_numeric op n) = pair (str (show_op op)) (str (h.show_decimal n))
  marshal_atom (tm op t) = pair (str (show_op op)) (time t)
  marshal_atom (glob s g) = pair (str "glob") (str s)
  marshal_atom {h} (regex r) = pair (str "regex") (str (h.show_regex r))
  marshal_atom (equal s) = pair (str "=") (str s)
  marshal_atom (action a) = str a
  marshal_atom (object_value o) = pair (str "object") (marshal_object o)
  marshal_atom (array_value a) = pair (str "array") (marshal_array a)
  marshal_atom null_value = null
  marshal_atom (boolean_value b) = bool b
  marshal_atom (number_value p) = pair (str "number") (marshal p)
  marshal_atom (time_value p) = pair (str "time") (marshal p)
  marshal_atom (string_value p) = pair (str "string") (marshal p)
  marshal_atom (action_primary p) = pair (str "action") (marshal p)
  marshal_atom (string_primary f p) = pair (str (string_field_name f)) (marshal p)
  marshal_atom (kind_primary p) = pair (str "kind") (marshal p)
  marshal_atom (time_primary f p) = pair (str (time_field_name f)) (marshal p)
  marshal_atom (size_primary p) = pair (str "size") (marshal p)
  marshal_atom (meta_primary p) = pair (str "meta") (marshal p)
  marshal_atom (boolean_primary b) = bool b

  pub marshal_object : {h : Host} → ObjectP h → Any h
  marshal_object (object_size p) = pair (str "size") (marshal p)
  marshal_object (object_element key p) = pair (pair (str "key") (str key)) (marshal p)

  pub marshal_array : {h : Host} → ArrayP h → Any h
  marshal_array (array_size p) = pair (str "size") (marshal p)
  marshal_array (array_element s p) = pair (marshal_selector s) (marshal p)
