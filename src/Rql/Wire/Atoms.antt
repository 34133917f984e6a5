-- ===== src/Rql/Wire/Atoms.antt =====
-- Unmarshal of the nodes that hold no expression: numeric.go, time.go, string.go, action.go,
-- boolean.go, null.go, and the element selectors of array.go and object.go.
use wash.Prelude.{String, Bool, true, false, Option, none, some, [], ◌∷◌, str_eq, if◌then◌else◌}
use Prim.Native.Nat.{Ordering}
use wash.Rql.Host.{Host}
use wash.Rql.Any.{Any, num, str, array, item, pair_operand, tagged_operand, to_time}
use wash.Rql.Outcome.{Outcome, ok, mismatch, failed, ◌>>=◌, first_match}
use wash.Rql.Entry.{is_action}
use wash.Rql.Ast.{
  number, unsigned, time_p, text, action_p, ComparisonOp, lt, lte, gt, gte, eql, neql, Atom,
  numeric, unsigned_numeric, tm, glob, regex, equal, action,
}

-- comparisonOpMap, as a partial function
unfoldable pub read_op : String → Option ComparisonOp
read_op s =
    if str_eq s "<"
    then some lt
    else if str_eq s "<="
    then some lte
    else if str_eq s ">"
    then some gt
    else if str_eq s ">="
    then some gte
    else if str_eq s "="
    then some eql
    else if str_eq s "!="
    then some neql
    else none

abbrev pub of_option {ℓ} : {A : Type ℓ} → Outcome A → Option A → Outcome A
of_option o none = o
of_option o (some a) = ok a

-- n.LessThan(decimal.Zero)
abbrev pub is_below_zero : (h : Host) → h.Decimal → Bool
is_below_zero h n = elim (h.cmp_decimal n h.decimal_zero) [ Ordering.lt ↦ true | _ ↦ false ]

module _ {h : Host} where
  -- The operator at the head of the array: a MatchError where there is none.
  unfoldable pub head_op : Any h → Outcome ComparisonOp
  unfolding read_op
  head_op (array (item (str s) xs)) = of_option mismatch (read_op s)
  head_op v = mismatch

  unfoldable pub read_number : Any h → Outcome h.Decimal
  read_number (num f) = ok (h.decimal_of_float f)
  read_number (str s) = of_option failed (h.parse_decimal s)
  read_number v = failed

  -- numeric#Unmarshal, with and without `unsigned`
  unfoldable pub unmarshal_numeric : Any h → Outcome (Atom h number)
  unfolding head_op read_number pair_operand
  unmarshal_numeric v = do
    op ← head_op v
    operand ← pair_operand v
    n ← read_number operand
    ok (numeric op n)

  unfoldable pub unmarshal_unsigned : Any h → Outcome (Atom h unsigned)
  unfolding head_op read_number pair_operand
  unmarshal_unsigned v = do
    op ← head_op v
    operand ← pair_operand v
    n ← read_number operand
    if is_below_zero h n then failed else ok (unsigned_numeric op n)

  -- tm#Unmarshal
  unfoldable pub unmarshal_tm : Any h → Outcome (Atom h time_p)
  unfolding head_op pair_operand
  unmarshal_tm v = do
    op ← head_op v
    operand ← pair_operand v
    t ← of_option failed (to_time operand)
    ok (tm op t)

  unfoldable pub read_string : Any h → Outcome String
  read_string (str s) = ok s
  read_string v = failed

  -- stringGlob#Unmarshal, stringRegex#Unmarshal, stringEqual#Unmarshal
  unfoldable pub unmarshal_glob : Any h → Outcome (Atom h text)
  unfolding tagged_operand read_string
  unmarshal_glob v = do
    operand ← tagged_operand "glob" v
    s ← read_string operand
    g ← of_option failed (h.compile_glob s)
    ok (glob s g)

  unfoldable pub unmarshal_regex : Any h → Outcome (Atom h text)
  unfolding tagged_operand read_string
  unmarshal_regex v = do
    operand ← tagged_operand "regex" v
    s ← read_string operand
    r ← of_option failed (h.compile_regex s)
    ok (regex r)

  unfoldable pub unmarshal_equal : Any h → Outcome (Atom h text)
  unfolding tagged_operand read_string
  unmarshal_equal v = do operand ← tagged_operand "=" v; s ← read_string operand; ok (equal s)

  -- String(): NewNonterminalNode tries its first argument last.
  unfoldable pub unmarshal_string : Any h → Outcome (Atom h text)
  unfolding unmarshal_glob unmarshal_regex unmarshal_equal first_match
  unmarshal_string v = first_match (unmarshal_regex v ∷ unmarshal_equal v ∷ unmarshal_glob v ∷ [])

  -- action#Unmarshal
  unfoldable pub unmarshal_action : Any h → Outcome (Atom h action_p)
  unmarshal_action (str name) = if is_action name then ok (action name) else mismatch
  unmarshal_action v = mismatch
