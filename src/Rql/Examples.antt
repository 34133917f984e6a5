-- ===== src/Rql/Examples.antt =====
-- The theorems on the query language at concrete queries, over small stand-ins for the packages
-- that it calls.
use wash.Prelude.{
  ℕ, ◌≤◌, ◌<◌, String, ◌≡◌, refl, Bool, true, false, none, some, [], ◌∷◌, arith, str_eq, ◌==◌,
  if◌then◌else◌,
}
use Prim.Native.Nat.{compare}
use wash.Prelude.Int.{ℤ, pos, negsuc}
use wash.Rql.Host.{Host}
use wash.Rql.Any.{
  Any, Items, null, num, array, object, nil, item, end, field, length_items, get_item,
}
use wash.Rql.Outcome.{ok}
use wash.Rql.Ast.{
  primary, value, text, gt, name, index, Expr, atom, and, or, not, numeric, equal, action,
  object_value, array_value, object_element, array_element, number_value, null_value,
  string_primary, kind_primary, action_primary, meta_primary,
}
use wash.Rql.Entry.{Entry, EntrySchema, is_action}
use wash.Rql.Eval.{eval, matching_value, eval_numeric}
use wash.Rql.EvalSchema.{is_included}
use wash.Rql.Reduce.{reduce, Reduces}
use wash.Rql.Reduce.Correct.{reduce_lem}
use wash.Rql.Schema.{schema_expr, new_svs}
use wash.Rql.Schema.Represents.{object_end, primitive, under_key}
use wash.Rql.Schema.Prunable.{IsPrunable}
use wash.Rql.Schema.Sound.{Accepts, schema_expr_sound}
use wash.Rql.Wire.Marshal.{marshal}
use wash.Rql.Wire.Unmarshal.{unmarshal_query}
use wash.Rql.Wire.Writable.{IsWritable, height}
use wash.Rql.Wire.RoundTrip.{unmarshal-marshal}
use wash.Rql.Panics.{index_lem, kind-or-name_includes}

abbrev nat_of_int : ℤ → ℕ
nat_of_int (pos n) = n
nat_of_int (negsuc n) = 0

-- Numbers and times are naturals, and a glob or a regular expression matches its own text.
abbrev pub sample_host : Host
sample_host = record {
  Float = ℕ;
  Decimal = ℕ;
  Time = ℕ;
  Glob = String;
  Regex = String;
  is_negative = λ f. false;
  to_int64 = λ f. pos f;
  of_int64 = nat_of_int;
  float_eq = λ f g. f == g;
  decimal_of_float = λ f. f;
  parse_decimal = λ s. if str_eq s "5" then some 5 else none;
  show_decimal = λ d. "5";
  decimal_of_int = nat_of_int;
  cmp_decimal = compare;
  decimal_zero = 0;
  unix_time = λ s. s;
  zero_time = 0;
  cmp_time = compare;
  parse_rfc3339 = λ s. none;
  parse_any_time = λ s. none;
  compile_glob = λ s. some s;
  glob_matches = str_eq;
  compile_regex = λ s. some s;
  show_regex = λ r. r;
  regex_matches = str_eq;
  JsonSchema = Unit {0};
  to_upper = λ s. s;
}

abbrev pub is_five : Expr sample_host text
is_five = atom (equal "five")

-- NOT (["=", "five"] AND NOT ["=", "five"])
abbrev nested_not : Expr sample_host text
nested_not = not (and is_five (not is_five))

reduce_lem_example : Reduces nested_not (reduce 9 nested_not)
reduce_lem_example = reduce_lem 9 nested_not (omega arith)

-- ["object", [["key", "K"], ["number", [">", 5]]]]
abbrev key_above_five : Expr sample_host value
key_above_five =
    atom (object_value (object_element "K" (atom (number_value (atom (numeric gt 5))))))

abbrev key_above_five-IsPrunable : IsPrunable 2 key_above_five
key_above_five-IsPrunable = (refl, tt)

abbrev is_object : Any sample_host → Bool
is_object (object fs) = true
is_object v = false

abbrev seven_under_key : Any sample_host
seven_under_key = object (field "K" (num 7) end)

is_object-Accepts : Accepts is_object new_svs seven_under_key
is_object-Accepts r (object_end fs) = refl
is_object-Accepts r (primitive v e) = absurd (cc)
is_object-Accepts r (under_key key fs w x m p) = refl

seven_holds : eval key_above_five seven_under_key ≡ some true
unfolding eval matching_value eval_numeric
seven_holds = refl

schema_expr_sound_example : schema_expr is_object 2 key_above_five new_svs ≡ some true
schema_expr_sound_example =
    schema_expr_sound is_object 2 key_above_five seven_under_key key_above_five-IsPrunable
      is_object-Accepts seven_holds

abbrev is_null : Expr sample_host value
is_null = atom null_value

abbrev two_items : Items sample_host
two_items = item (num 7) (item null nil)

index_lem_example :
    (length_items two_items ≤ 1
      → eval (atom (array_value (array_element (index (pos 1)) is_null))) (array two_items) ≡ none)
    × ((x : Any sample_host)
        → get_item two_items 1 ≡ some x
        → eval (atom (array_value (array_element (index (pos 1)) is_null))) (array two_items)
          ≡ eval is_null x)
index_lem_example = index_lem 1 is_null two_items

abbrev sample_schema : EntrySchema sample_host
sample_schema = record { path = "docker/containers"; actions = "list" ∷ []; metadata_schema = none }

abbrev sample_entry : Entry sample_host
sample_entry = record {
  name = "foo";
  cname = "foo";
  path = "docker/containers/foo";
  actions = "list" ∷ [];
  attributes = record { atime = 1; mtime = 2; ctime = 3; crtime = 4; size = 5 };
  metadata = end;
  schema = some sample_schema;
}

sample_kind : eval is_five sample_schema.path ≡ some false
unfolding eval
sample_kind = refl

kind-or-name_includes_example :
    is_included
      (λ s v. true)
      3
      (or (atom (kind_primary is_five)) (atom (string_primary name is_five)))
      sample_entry
    ≡ some true
kind-or-name_includes_example =
    kind-or-name_includes {h = sample_host} (λ s v. true) 3 is_five is_five name sample_entry
      sample_schema false refl sample_kind

-- ["AND", ["action", "list"], ["meta", ["object", [["key", "K"], ["number", [">", 5]]]]]]
abbrev sample_query : Expr sample_host primary
sample_query =
    and (atom (action_primary (atom (action "list")))) (atom (meta_primary key_above_five))

sample_query-IsWritable : IsWritable sample_query
unfolding IsWritable is_action
sample_query-IsWritable = (refl, (tt, refl))

sample_query-height : height sample_query < 31
unfolding height
sample_query-height = omega arith

unmarshal-marshal_example : unmarshal_query 31 (marshal sample_query) ≡ ok sample_query
unmarshal-marshal_example =
    unmarshal-marshal sample_query 30 sample_query-IsWritable sample_query-height
