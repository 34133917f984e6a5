-- ===== src/Rql/Any.antt =====
-- Go's `interface{}` as the query language meets it: what encoding/json decodes, and the
-- `time.Time` and `int64` that munge.ToTime accepts beside it.
-- Also api/rql/internal/matcher/core.go and munge/time.go.
use wash.Prelude.{ℕ, zero, suc, String, Bool, false, Option, none, some, str_eq, if◌then◌else◌}
use wash.Prelude.Int.{ℤ, pos, negsuc}
use wash.Rql.Host.{Host}
use wash.Rql.Outcome.{Outcome, ok, mismatch, failed}

mutual
  pub data Any (h : Host) : Type 0 where
    null : Any h
    bool : Bool → Any h
    num : h.Float → Any h
    int64 : ℤ → Any h
    time : h.Time → Any h
    str : String → Any h
    array : Items h → Any h
    object : Fields h → Any h

  pub data Items (h : Host) : Type 0 where
    nil : Items h
    item : Any h → Items h → Items h

  -- The order of the fields stands for the order in which `range` meets the keys.
  pub data Fields (h : Host) : Type 0 where
    end : Fields h
    field : String → Any h → Fields h → Fields h

-- munge/time.go
unix_seconds_to_time : (h : Host) → ℤ → h.Time
unix_seconds_to_time h (pos zero) = h.zero_time
unix_seconds_to_time h (pos (suc s)) = h.unix_time (suc s)
unix_seconds_to_time h (negsuc n) = h.zero_time

-- RFC3339 first, then dateparse
parse_time : (h : Host) → String → Option h.Time
parse_time h s = elim (h.parse_rfc3339 s) [ some t ↦ some t | none ↦ h.parse_any_time s ]

module _ {h : Host} where
  unfoldable pub length_items : Items h → ℕ
  length_items nil = 0
  length_items (item x xs) = suc (length_items xs)

  unfoldable pub length_fields : Fields h → ℕ
  length_fields end = 0
  length_fields (field k v fs) = suc (length_fields fs)

  -- array[i], which panics out of range
  unfoldable pub get_item : Items h → ℕ → Option (Any h)
  get_item nil i = none
  get_item (item x xs) zero = some x
  get_item (item x xs) (suc i) = get_item xs i

  -- matcher.Array(matcher.Value(tag)) for a string tag
  unfoldable pub is_headed : String → Any h → Bool
  is_headed tag (array (item (str s) xs)) = str_eq tag s
  is_headed tag (array xs) = false
  is_headed tag v = false

  -- `len(array) > 2` and `len(array) < 2` are errors, else array[1]
  unfoldable pub pair_operand : Any h → Outcome (Any h)
  pair_operand (array (item t (item x nil))) = ok x
  pair_operand v = failed

  -- The guards that open the Unmarshal of every node of the form [tag, operand].
  unfoldable pub tagged_operand : String → Any h → Outcome (Any h)
  unfolding is_headed pair_operand
  tagged_operand tag v = if is_headed tag v then pair_operand v else mismatch

  unfoldable pub to_time : Any h → Option h.Time
  unfolding unix_seconds_to_time parse_time
  to_time (time t) = some t
  to_time (int64 s) = some (unix_seconds_to_time h s)
  to_time (num f) =
      if h.float_eq f (h.of_int64 (h.to_int64 f))
      then some (unix_seconds_to_time h (h.to_int64 f))
      else none
  to_time (str s) = parse_time h s
  to_time v = none
