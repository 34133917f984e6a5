-- ===== src/Find/Numeric/Durations.antt =====
-- What ParseDuration of cmd/internal/find/primary/numeric/duration.go reads, in nanoseconds.
use wash.Prelude.{
  ℕ, ◌+◌, ◌*◌, ◌^◌, ◌≤◌, ◌<◌, String, ◌≡◌, refl, sym, ap, ◌∙◌, ◌⊎◌, inl, inr, true, false, some,
  List, [], ◌∷◌,
}
use wash.Prelude.Int.{pos}
use wash.Find.Numeric.{number, int64, is_digit, duration_of, parse_duration}
use wash.Find.Numeric.Chunks.{
  AllDigits, decimal, Chunk, print_chunks, total, Fit, int64-small, small-or-big,
  parse_duration-int64,
}
use Prim.Native.Char.{Char}
use Prim.Native.String.{◌++◌ as append_string}

-- The units of a duration as the comment on DurationOf lists them
pub data DurationUnit : Type 0 where
  seconds minutes hours days weeks : DurationUnit

abbrev pub letter : DurationUnit → Char
letter seconds = "s"
letter minutes = "m"
letter hours = "h"
letter days = "d"
letter weeks = "w"

-- How many seconds, 10^9 nanoseconds each, a unit has
abbrev pub in_seconds : DurationUnit → ℕ
in_seconds seconds = 1
in_seconds minutes = 60
in_seconds hours = 60 * 60
in_seconds days = 24 * (60 * 60)
in_seconds weeks = 7 * (24 * (60 * 60))

-- A number, by its digits, of a unit
pub record Amount : Type 0 where
  pub first : Char
  pub digits : String
  pub unit : DurationUnit
  pub is_first_digit : is_digit first ≡ true
  pub are_digits : AllDigits digits

abbrev pub number_of : Amount → ℕ
number_of a = decimal 0 (String.◌∷◌ a.first a.digits)

abbrev pub print_amounts : List Amount → String
print_amounts [] = ""
print_amounts (a ∷ r) =
    String.◌∷◌ a.first (append_string a.digits (String.◌∷◌ (letter a.unit) (print_amounts r)))

abbrev pub nanoseconds : List Amount → ℕ
nanoseconds [] = 0
nanoseconds (a ∷ r) = number_of a * (in_seconds a.unit * 10 ^ 9) + nanoseconds r

-- Each number fits an int64.
abbrev pub AreInt64 : List Amount → Type 0
AreInt64 [] = Unit {0}
AreInt64 (a ∷ r) = (number_of a < 2 ^ 63) × AreInt64 r

duration_of-letter : (u : DurationUnit) → duration_of (letter u) ≡ some (in_seconds u * 10 ^ 9)
unfolding duration_of
duration_of-letter seconds = refl
duration_of-letter minutes = refl
duration_of-letter hours = refl
duration_of-letter days = refl
duration_of-letter weeks = refl

letter-no_digit : (u : DurationUnit) → is_digit (letter u) ≡ false
letter-no_digit seconds = refl
letter-no_digit minutes = refl
letter-no_digit hours = refl
letter-no_digit days = refl
letter-no_digit weeks = refl

chunk_of : Amount → Chunk duration_of
chunk_of a = record {
  first = a.first;
  digits = a.digits;
  unit = letter a.unit;
  unit_value = in_seconds a.unit * 10 ^ 9;
  is_first_digit = a.is_first_digit;
  are_digits = a.are_digits;
  no_digit = letter-no_digit a.unit;
  has_value = duration_of-letter a.unit;
}

chunks_of : List Amount → List (Chunk duration_of)
unfolding chunk_of
chunks_of [] = []
chunks_of (a ∷ r) = chunk_of a ∷ chunks_of r

print_chunks-chunks_of : (r : List Amount) → print_chunks (chunks_of r) ≡ print_amounts r
unfolding chunk_of chunks_of
print_chunks-chunks_of [] = refl
print_chunks-chunks_of (a ∷ r) =
    ap (λ s. String.◌∷◌ a.first (append_string a.digits (String.◌∷◌ (letter a.unit) s)))
      (print_chunks-chunks_of r)

total-chunks_of : (r : List Amount) → total (chunks_of r) ≡ nanoseconds r
unfolding chunk_of chunks_of
total-chunks_of [] = refl
total-chunks_of (a ∷ r) =
    ap (λ n. number_of a * (in_seconds a.unit * 10 ^ 9) + n) (total-chunks_of r)

chunks_of-Fit : (r : List Amount) → AreInt64 r → Fit (chunks_of r)
unfolding chunk_of chunks_of
chunks_of-Fit [] h = tt
chunks_of-Fit (a ∷ r) (h, hs) = (h, chunks_of-Fit r hs)

parse_duration-amounts :
    (a : Amount) (r : List Amount)
    → AreInt64 (a ∷ r)
    → parse_duration (print_amounts (a ∷ r)) ≡ number (int64 (nanoseconds (a ∷ r)))
unfolding chunk_of chunks_of
parse_duration-amounts a r h =
    ap parse_duration (sym (print_chunks-chunks_of (a ∷ r)))
    ∙ parse_duration-int64 (chunk_of a) (chunks_of r) (chunks_of-Fit (a ∷ r) h)
    ∙ ap (λ n. number (int64 n)) (total-chunks_of (a ∷ r))

-- ParseDuration reads a text of amounts, each of digits and the letter of a unit, s, m, h, d or w, and
-- each number within an int64, as the sum of the amounts in nanoseconds, a second having 10^9, a
-- minute 60 seconds, an hour 60 minutes, a day 24 hours and a week 7 days, where that is below 2^63,
-- and else, without an error, as the sum modulo 2^64 read as signed.
pub parse_duration-print :
    (a : Amount) (r : List Amount)
    → AreInt64 (a ∷ r)
    → ((nanoseconds (a ∷ r) < 2 ^ 63)
        × (parse_duration (print_amounts (a ∷ r)) ≡ number (pos (nanoseconds (a ∷ r)))))
      ⊎ ((2 ^ 63 ≤ nanoseconds (a ∷ r))
          × (parse_duration (print_amounts (a ∷ r)) ≡ number (int64 (nanoseconds (a ∷ r)))))
parse_duration-print a r h = elim (small-or-big (nanoseconds (a ∷ r))) [
  | inl small ↦
      inl
        (small, parse_duration-amounts a r h ∙ ap number (int64-small (nanoseconds (a ∷ r)) small))
  | inr big ↦ inr (big, parse_duration-amounts a r h)
]
