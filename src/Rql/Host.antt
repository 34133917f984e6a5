-- ===== src/Rql/Host.antt =====
-- What the query language takes from Go and from third-party packages: float64, shopspring/decimal,
-- time and dateparse, gobwas/glob, regexp, strings.ToUpper.
use Prim.Native.Nat.{Ordering}
use wash.Prelude.{ℕ, String, Bool, Option}
use wash.Prelude.Int.{ℤ}

pub record Host : Type 1 where
  pub Float : Type 0
  pub Decimal : Type 0
  pub Time : Type 0
  pub Glob : Type 0
  pub Regex : Type 0
  -- f < 0, int64(f), float64(i), f == g
  pub is_negative : Float → Bool
  pub to_int64 : Float → ℤ
  pub of_int64 : ℤ → Float
  pub float_eq : Float → Float → Bool
  -- decimal.NewFromFloat, NewFromString, String, NewFromInt, Cmp, Zero
  pub decimal_of_float : Float → Decimal
  pub parse_decimal : String → Option Decimal
  pub show_decimal : Decimal → String
  pub decimal_of_int : ℤ → Decimal
  pub cmp_decimal : Decimal → Decimal → Ordering
  pub decimal_zero : Decimal
  -- time.Unix(s, 0) for s > 0, time.Time{}, Before/Equal/After, time.Parse and dateparse.ParseAny
  pub unix_time : ℕ → Time
  pub zero_time : Time
  pub cmp_time : Time → Time → Ordering
  pub parse_rfc3339 : String → Option Time
  pub parse_any_time : String → Option Time
  -- glob.Compile, Match; regexp.Compile, String, MatchString
  pub compile_glob : String → Option Glob
  pub glob_matches : Glob → String → Bool
  pub compile_regex : String → Option Regex
  pub show_regex : Regex → String
  pub regex_matches : Regex → String → Bool
  -- plugin.JSONSchema
  pub JsonSchema : Type 0
  -- strings.ToUpper
  pub to_upper : String → String
