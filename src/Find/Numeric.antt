-- ===== src/Find/Numeric.antt =====
-- cmd/internal/find/primary/numeric: the numbers, sizes and durations of the primaries. A text is a
-- list of characters, and a unit is one of them. Sums and products are those of int64: they are kept
-- modulo 2^64 and read as signed at the end.
pub mod Chunks
pub mod Durations
mod Examples
use wash.Prelude.{
  ℕ, zero, suc, ◌+◌, ◌-◌, ◌*◌, ◌^◌, ◌%◌, String, Bool, true, false, ◌&&◌, Option, none, some, List,
  [], ◌∷◌, ltb, leb, ◌==◌, if◌then◌else◌,
}
use wash.Prelude.Int.{ℤ, pos, negsuc}
use wash.Find.Parser.{Err, match_error, syntax_error, is_match_error}
use Prim.Native.Char.{Char, code}
use Prim.Native.String

-- The (int64, error) of a numeric.Parser
pub data Reading : Type 0 where
  number : ℤ → Reading
  refused : Err → Reading

abbrev pub NumberParser : Type 0
NumberParser = String → Reading

-- int64(x) of a bit pattern
unfoldable pub int64 : ℕ → ℤ
int64 x = let w = x % 2 ^ 64 in if ltb w (2 ^ 63) then pos w else negsuc (2 ^ 64 - 1 - w)

abbrev pub is_digit : Char → Bool
is_digit c = leb b'0' (code c) && leb (code c) b'9'

-- The digits of strconv.ParseInt, before its check of the range
unfoldable pub read_digits : ℕ → String → Option ℕ
read_digits acc String.[] = some acc
read_digits acc (String.◌∷◌ c s) =
    let rest = read_digits (acc * 10 + (code c - b'0')) s in if is_digit c then rest else none

unfoldable pub read_some_digits : String → Option ℕ
unfolding read_digits
read_some_digits String.[] = none
read_some_digits (String.◌∷◌ c s) = read_digits 0 (String.◌∷◌ c s)

-- strconv.ParseInt(s, 10, 64)
unfoldable pub parse_int : String → Option ℤ
unfolding read_some_digits
parse_int String.[] = none
parse_int (String.◌∷◌ c s) =
    if code c == b'-'
    then elim (read_some_digits s) [
      | none ↦ none
      | some n ↦
          if n == 0 then some (pos 0) else if leb n (2 ^ 63) then some (negsuc (n - 1)) else none
    ]
    else elim (if code c == b'+' then read_some_digits s else read_some_digits (String.◌∷◌ c s)) [
      | none ↦ none
      | some n ↦ if ltb n (2 ^ 63) then some (pos n) else none
    ]

-- ParsePositiveInt
unfoldable pub parse_positive_int : NumberParser
unfolding parse_int
parse_positive_int s = elim (parse_int s) [
  | none ↦ refused match_error
  | some (pos n) ↦ number (pos n)
  | some (negsuc n) ↦ refused syntax_error
]

-- -n of int64, which leaves the least one
unfoldable pub negate_int64 : ℤ → ℤ
negate_int64 (pos zero) = pos 0
negate_int64 (pos (suc n)) = negsuc n
negate_int64 (negsuc n) = if n == 2 ^ 63 - 1 then negsuc n else pos (suc n)

-- Negate
unfoldable pub negate_parser : NumberParser → NumberParser
unfolding negate_int64
negate_parser p s = elim (p s) [ refused e ↦ refused e | number n ↦ number (negate_int64 n) ]

-- What stands before a closing '}' at the end
unfoldable pub before_closing : String → Option String
before_closing String.[] = none
before_closing (String.◌∷◌ c String.[]) = if code c == b'}' then some "" else none
before_closing (String.◌∷◌ c (String.◌∷◌ d s)) = elim (before_closing (String.◌∷◌ d s)) [
  | none ↦ none
  | some r ↦ some (String.◌∷◌ c r)
]

-- Bracket
unfoldable pub bracket : NumberParser → NumberParser
unfolding before_closing is_match_error
bracket p String.[] = refused match_error
bracket p (String.◌∷◌ c s) =
    if code c == b'{'
    then elim (before_closing s) [
      | none ↦ refused syntax_error
      | some inner ↦ elim (p inner) [
        | number n ↦ number n
        | refused e ↦ refused (if is_match_error e then syntax_error else e)
      ]
    ]
    else if code c == b'}'
    then refused syntax_error
    else refused match_error

-- DurationOf, in nanoseconds, and BytesOf; `none` is no unit.
unfoldable pub duration_of : Char → Option ℕ
duration_of c =
    if code c == b's'
    then some (10 ^ 9)
    else if code c == b'm'
    then some (60 * 10 ^ 9)
    else if code c == b'h'
    then some (3600 * 10 ^ 9)
    else if code c == b'd'
    then some (24 * 3600 * 10 ^ 9)
    else if code c == b'w'
    then some (7 * 24 * 3600 * 10 ^ 9)
    else none

unfoldable pub bytes_of : Char → Option ℕ
bytes_of c =
    if code c == b'c'
    then some 1
    else if code c == b'k'
    then some (2 ^ 10)
    else if code c == b'M'
    then some (2 ^ 20)
    else if code c == b'G'
    then some (2 ^ 30)
    else if code c == b'T'
    then some (2 ^ 40)
    else if code c == b'P'
    then some (2 ^ 50)
    else none

-- The chunks `\d+[units]` that a text consists of, each with its number and the value of its unit;
-- `started` tells that a digit was read.
unfoldable pub scan_chunks : (Char → Option ℕ) → Bool → ℕ → String → Option (List (ℕ × ℕ))
scan_chunks unit_of started acc String.[] = if started then none else some []
scan_chunks unit_of started acc (String.◌∷◌ c s) =
    let longer = scan_chunks unit_of true (acc * 10 + (code c - b'0')) s in
    let next = scan_chunks unit_of false 0 s in
    if is_digit c
    then longer
    else if started
    then elim (unit_of c) [
      | none ↦ none
      | some u ↦ elim next [ none ↦ none | some chunks ↦ some ((acc, u) ∷ chunks) ]
    ]
    else none

-- The loop of ParseDuration, from a duration as a bit pattern
unfoldable pub add_chunks : ℕ → List (ℕ × ℕ) → Reading
unfolding int64
add_chunks duration [] = number (int64 duration)
add_chunks duration ((n, u) ∷ chunks) =
    let rest = add_chunks ((duration + n * u) % 2 ^ 64) chunks in
    if ltb n (2 ^ 63) then rest else refused syntax_error

-- ParseDuration, on what its regular expression finds: at least one chunk
unfoldable pub sum_chunks : Option (List (ℕ × ℕ)) → Reading
unfolding add_chunks
sum_chunks none = refused match_error
sum_chunks (some []) = refused match_error
sum_chunks (some (chunk ∷ chunks)) = add_chunks 0 (chunk ∷ chunks)

-- ParseDuration
unfoldable pub parse_duration : NumberParser
unfolding scan_chunks duration_of sum_chunks
parse_duration s = sum_chunks (scan_chunks duration_of false 0 s)

-- ParseSize, on what its regular expression finds: one chunk
unfoldable pub scale_chunk : Option (List (ℕ × ℕ)) → Reading
unfolding int64
scale_chunk none = refused match_error
scale_chunk (some []) = refused match_error
scale_chunk (some ((n, u) ∷ [])) =
    if ltb n (2 ^ 63) then number (int64 (n * u)) else refused syntax_error
scale_chunk (some (a ∷ b ∷ chunks)) = refused match_error

-- ParseSize
unfoldable pub parse_size : NumberParser
unfolding scan_chunks bytes_of scale_chunk
parse_size s = scale_chunk (scan_chunks bytes_of false 0 s)

abbrev pub ltb_int : ℤ → ℤ → Bool
ltb_int (pos a) (pos b) = ltb a b
ltb_int (pos a) (negsuc b) = false
ltb_int (negsuc a) (pos b) = true
ltb_int (negsuc a) (negsuc b) = ltb b a

abbrev pub eq_int : ℤ → ℤ → Bool
eq_int (pos a) (pos b) = a == b
eq_int (pos a) (negsuc b) = false
eq_int (negsuc a) (pos b) = false
eq_int (negsuc a) (negsuc b) = a == b

pub data Comparison : Type 0 where
  more less equal : Comparison

abbrev pub compare_by : Comparison → ℤ → ℤ → Bool
compare_by more n v = ltb_int n v
compare_by less n v = ltb_int v n
compare_by equal n v = eq_int v n

-- The first parser that does not refuse by a MatchError, and its place
unfoldable pub first_reading : ℕ → List NumberParser → String → Reading × ℕ
unfolding is_match_error
first_reading i [] s = (refused match_error, i)
first_reading i (p ∷ ps) s =
    let rest = first_reading (i + 1) ps s in
    elim (p s) [
      | number n ↦ (number n, i)
      | refused e ↦ if is_match_error e then rest else (refused e, i)
    ]

pub data PredicateReading : Type 0 where
  a_predicate : (ℤ → Bool) → ℕ → PredicateReading
  no_predicate : Err → PredicateReading

abbrev pub to_predicate : Comparison → Reading × ℕ → PredicateReading
to_predicate cmp (number n, id) = a_predicate (compare_by cmp n) id
to_predicate cmp (refused e, id) = no_predicate e

-- ParsePredicate, with at least one parser
unfoldable pub parse_predicate : List NumberParser → String → PredicateReading
unfolding first_reading
parse_predicate parsers String.[] = no_predicate match_error
parse_predicate parsers (String.◌∷◌ c s) =
    if code c == b'+'
    then to_predicate more (first_reading 0 parsers s)
    else if code c == b'-'
    then to_predicate less (first_reading 0 parsers s)
    else to_predicate equal (first_reading 0 parsers (String.◌∷◌ c s))
