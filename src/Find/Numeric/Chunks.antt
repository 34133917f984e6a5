-- ===== src/Find/Numeric/Chunks.antt =====
-- Numbers with units, as ParseDuration and ParseSize of cmd/internal/find/primary/numeric read them.
use wash.Prelude.{
  ℕ, ◌+◌, ◌-◌, ◌*◌, ◌^◌, ◌%◌, ◌≤◌, ◌<◌, String, ◌≡◌, refl, ap, ◌∙◌, ◌⊎◌, inl, inr, true, false,
  Option, some, List, [], ◌∷◌, arith, ltb, if◌then◌else◌, Bool-cases,
}
use wash.Prelude.Int.{pos, negsuc}
use wash.Find.Numeric.{
  number, int64, is_digit, duration_of, bytes_of, scan_chunks, add_chunks, sum_chunks, scale_chunk,
  parse_duration, parse_size,
}
use Prim.Native.Char.{Char, code}
use Prim.Native.String.{◌++◌ as append_string}
use text.Mathlib.TextLemmas.{nil-append, cons-append}

abbrev pub AllDigits : String → Type 0
AllDigits String.[] = Unit {0}
AllDigits (String.◌∷◌ c s) = (is_digit c ≡ true) × AllDigits s

-- The number that digits write
unfoldable pub decimal : ℕ → String → ℕ
decimal acc String.[] = acc
decimal acc (String.◌∷◌ c s) = decimal (acc * 10 + (code c - b'0')) s

-- A digit, more digits, and a unit with its value
pub record Chunk (unit_of : Char → Option ℕ) : Type 0 where
  pub first : Char
  pub digits : String
  pub unit : Char
  pub unit_value : ℕ
  pub is_first_digit : is_digit first ≡ true
  pub are_digits : AllDigits digits
  pub no_digit : is_digit unit ≡ false
  pub has_value : unit_of unit ≡ some unit_value

add_zero : (d : ℕ) → d ≡ d + 0
add_zero d = omega arith

ltb_of : (n : ℕ) → n < 2 ^ 63 → ltb n (2 ^ 63) ≡ true
ltb_of n h = ground arith

mod_add : (d p t : ℕ) → ((d + p) % 2 ^ 64 + t) % 2 ^ 64 ≡ (d + (p + t)) % 2 ^ 64
mod_add d p t = omega arith

int64_mod : (x y : ℕ) → x % 2 ^ 64 ≡ y % 2 ^ 64 → int64 x ≡ int64 y
unfolding int64
int64_mod x y e = ap (λ w. if ltb w (2 ^ 63) then pos w else negsuc (2 ^ 64 - 1 - w)) e

pub int64-small : (x : ℕ) → x < 2 ^ 63 → int64 x ≡ pos x
unfolding int64
int64-small x h = ground arith

int64-big : (x : ℕ) → 2 ^ 63 ≤ x → x < 2 ^ 64 → int64 x ≡ negsuc (2 ^ 64 - 1 - x)
unfolding int64
int64-big x h g = ground arith

zero_add : (n : ℕ) → 0 + n ≡ n
zero_add n = omega arith

scan_chunks-digits :
    (unit_of : Char → Option ℕ) (acc : ℕ) (s : String) (u : Char) (v : ℕ) (rest : String)
    (chunks : List (ℕ × ℕ))
    → AllDigits s
    → is_digit u ≡ false
    → unit_of u ≡ some v
    → scan_chunks unit_of false 0 rest ≡ some chunks
    → scan_chunks unit_of true acc (append_string s (String.◌∷◌ u rest))
      ≡ some ((decimal acc s, v) ∷ chunks)
unfolding scan_chunks decimal
scan_chunks-digits unit_of acc String.[] u v rest chunks h n val e =
    rw (nil-append (String.◌∷◌ u rest), n, val, e) refl
scan_chunks-digits unit_of acc (String.◌∷◌ c s) u v rest chunks (d, h) n val e =
    rw (cons-append c s (String.◌∷◌ u rest), d)
      (scan_chunks-digits unit_of (acc * 10 + (code c - b'0')) s u v rest chunks h n val e)

module _ {unit_of : Char → Option ℕ} where
  abbrev pub count_of : Chunk unit_of → ℕ
  count_of k = decimal 0 (String.◌∷◌ k.first k.digits)

  abbrev pub print_chunk : Chunk unit_of → String → String
  print_chunk k rest = String.◌∷◌ k.first (append_string k.digits (String.◌∷◌ k.unit rest))

  abbrev pub print_chunks : List (Chunk unit_of) → String
  print_chunks [] = ""
  print_chunks (k ∷ ks) = print_chunk k (print_chunks ks)

  abbrev pub amounts : List (Chunk unit_of) → List (ℕ × ℕ)
  amounts [] = []
  amounts (k ∷ ks) = (count_of k, k.unit_value) ∷ amounts ks

  abbrev pub total : List (Chunk unit_of) → ℕ
  total [] = 0
  total (k ∷ ks) = count_of k * k.unit_value + total ks

  -- Each number fits an int64.
  abbrev pub Fit : List (Chunk unit_of) → Type 0
  Fit [] = Unit {0}
  Fit (k ∷ ks) = (count_of k < 2 ^ 63) × Fit ks

  pub scan_chunks-print :
      (ks : List (Chunk unit_of))
      → scan_chunks unit_of false 0 (print_chunks ks) ≡ some (amounts ks)
  unfolding scan_chunks decimal
  scan_chunks-print [] = refl
  scan_chunks-print (k ∷ ks) = rw (k.is_first_digit) (
      scan_chunks-digits unit_of (0 * 10 + (code k.first - b'0')) k.digits k.unit k.unit_value
        (print_chunks ks) (amounts ks) k.are_digits k.no_digit k.has_value (scan_chunks-print ks))

  add_chunks-total :
      (d : ℕ) (ks : List (Chunk unit_of))
      → Fit ks
      → add_chunks d (amounts ks) ≡ number (int64 (d + total ks))
  unfolding add_chunks
  add_chunks-total d [] h = ap (λ n. number (int64 n)) (add_zero d)
  add_chunks-total d (k ∷ ks) (h, hs) =
      let p = count_of k * k.unit_value in
      let fits : ltb (count_of k) (2 ^ 63) ≡ true = ltb_of (count_of k) h in
      rw fits (
        add_chunks-total ((d + p) % 2 ^ 64) ks hs
        ∙ ap number
            (int64_mod ((d + p) % 2 ^ 64 + total ks) (d + (p + total ks)) (mod_add d p (total ks))))

below-or-past : (n : ℕ) → (n < 2 ^ 64) ⊎ (2 ^ 64 ≤ n)
below-or-past n = elim (Bool-cases (ltb n (2 ^ 64))) [
  | inl e ↦ inl (ground arith)
  | inr e ↦ inr (ground arith)
]

pub small-or-big : (n : ℕ) → (n < 2 ^ 63) ⊎ (2 ^ 63 ≤ n)
small-or-big n = elim (Bool-cases (ltb n (2 ^ 63))) [
  | inl e ↦ inl (ground arith)
  | inr e ↦ inr (ground arith)
]

pub parse_duration-int64 :
    (k : Chunk duration_of) (ks : List (Chunk duration_of))
    → Fit (k ∷ ks)
    → parse_duration (print_chunks (k ∷ ks)) ≡ number (int64 (total (k ∷ ks)))
unfolding parse_duration sum_chunks
parse_duration-int64 k ks h =
    ap sum_chunks (scan_chunks-print (k ∷ ks))
    ∙ add_chunks-total 0 (k ∷ ks) h
    ∙ ap (λ n. number (int64 n)) (zero_add (total (k ∷ ks)))

scale_chunk-fits :
    (n u : ℕ) → n < 2 ^ 63 → scale_chunk (some ((n, u) ∷ [])) ≡ number (int64 (n * u))
unfolding scale_chunk
scale_chunk-fits n u h = rw (ltb_of n h) refl

parse_size-int64 :
    (k : Chunk bytes_of)
    → count_of k < 2 ^ 63
    → parse_size (print_chunks (k ∷ [])) ≡ number (int64 (count_of k * k.unit_value))
unfolding parse_size
parse_size-int64 k h =
    ap scale_chunk (scan_chunks-print (k ∷ [])) ∙ scale_chunk-fits (count_of k) k.unit_value h

-- ParseSize reads digits and a unit, the number within an int64, as their product in bytes where that
-- is below 2^63, and else, without an error: as a negative number where it is below 2^64, and modulo
-- 2^64 and signed past that.
pub parse_size-print :
    (k : Chunk bytes_of)
    → count_of k < 2 ^ 63
    → ((count_of k * k.unit_value < 2 ^ 63)
        × (parse_size (print_chunks (k ∷ [])) ≡ number (pos (count_of k * k.unit_value))))
      ⊎ ((2 ^ 63 ≤ count_of k * k.unit_value)
          × (count_of k * k.unit_value < 2 ^ 64)
          × (parse_size (print_chunks (k ∷ []))
              ≡ number (negsuc (2 ^ 64 - 1 - count_of k * k.unit_value))))
      ⊎ ((2 ^ 64 ≤ count_of k * k.unit_value)
          × (parse_size (print_chunks (k ∷ [])) ≡ number (int64 (count_of k * k.unit_value))))
parse_size-print k h = elim (small-or-big (count_of k * k.unit_value)) [
  | inl small ↦
      inl (small, parse_size-int64 k h ∙ ap number (int64-small (count_of k * k.unit_value) small))
  | inr big ↦ elim (below-or-past (count_of k * k.unit_value)) [
    | inl fits ↦ inr (
        inl (
          big,
          fits,
          parse_size-int64 k h ∙ ap number (int64-big (count_of k * k.unit_value) big fits),
        ))
    | inr past ↦ inr (inr (past, parse_size-int64 k h))
  ]
]
