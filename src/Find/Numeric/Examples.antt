-- ===== src/Find/Numeric/Examples.antt =====
-- Sizes and durations of command lines.
use wash.Prelude.{◌-◌, ◌*◌, ◌^◌, ◌≤◌, ◌<◌, ◌≡◌, refl, ◌⊎◌, [], ◌∷◌, arith}
use wash.Prelude.Int.{pos, negsuc}
use wash.Find.Numeric.{number, parse_duration, parse_size, negate_parser, bracket, int64, bytes_of}
use wash.Find.Numeric.Chunks.{Chunk, count_of, decimal, parse_size-print}
use wash.Find.Numeric.Durations.{days, minutes, Amount, nanoseconds, parse_duration-print}

duration_text : parse_duration "1h30m" ≡ number (pos (5400 * 10 ^ 9))
unfolding parse_duration
duration_text = refl

bracketed : bracket (negate_parser parse_size) "{2k}" ≡ number (negsuc 2047)
unfolding bracket negate_parser parse_size
bracketed = refl

-- 8192P are 2^63 bytes.
abbrev big_chunk : Chunk bytes_of
big_chunk = record {
  first = "8";
  digits = "192";
  unit = "P";
  unit_value = 2 ^ 50;
  is_first_digit = refl;
  are_digits = (refl, (refl, (refl, tt)));
  no_digit = refl;
  has_value = unfold bytes_of in refl;
}

parse_size-print_example :
    ((count_of big_chunk * 2 ^ 50 < 2 ^ 63)
      × (parse_size "8192P" ≡ number (pos (count_of big_chunk * 2 ^ 50))))
    ⊎ ((2 ^ 63 ≤ count_of big_chunk * 2 ^ 50)
        × (count_of big_chunk * 2 ^ 50 < 2 ^ 64)
        × (parse_size "8192P" ≡ number (negsuc (2 ^ 64 - 1 - count_of big_chunk * 2 ^ 50))))
    ⊎ ((2 ^ 64 ≤ count_of big_chunk * 2 ^ 50)
        × (parse_size "8192P" ≡ number (int64 (count_of big_chunk * 2 ^ 50))))
parse_size-print_example = parse_size-print big_chunk (unfold decimal in omega arith)

abbrev two_days : Amount
two_days = record { first = "2"; digits = ""; unit = days; is_first_digit = refl; are_digits = tt }

abbrev ten_minutes : Amount
ten_minutes = record {
  first = "1";
  digits = "0";
  unit = minutes;
  is_first_digit = refl;
  are_digits = (refl, tt);
}

parse_duration-print_example :
    ((nanoseconds (two_days ∷ ten_minutes ∷ []) < 2 ^ 63)
      × (parse_duration "2d10m" ≡ number (pos (nanoseconds (two_days ∷ ten_minutes ∷ [])))))
    ⊎ ((2 ^ 63 ≤ nanoseconds (two_days ∷ ten_minutes ∷ []))
        × (parse_duration "2d10m" ≡ number (int64 (nanoseconds (two_days ∷ ten_minutes ∷ [])))))
parse_duration-print_example =
    parse_duration-print two_days (ten_minutes ∷ [])
      (unfold decimal in (omega arith, (omega arith, tt)))
