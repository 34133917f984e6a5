-- ===== src/Find/Parser/Returning.antt =====
-- What the parsers of cmd/internal/find/parser/expression return, and that their parts keep to it.
use wash.Prelude.{
  ℕ, suc, ◌≤◌, ◌<◌, String, ◌≡◌, refl, inl, inr, true, false, ◌||◌, Option, none, some, List, [],
  ◌∷◌, arith, str_eq, Bool-cases, length,
}
use wash.Prelude.Maybe.{◌>>=◌}
use wash.Find.Parser.{
  Parsed, parsed, failed, Err, match_error, unknown_token, incomplete_operator, empty_expression,
  syntax_error, is_match_error, is_syntax_error, or_parse, negate_parsed, not_op_parser,
  expect_close, close_parens, parenthesize,
}

-- The call returns a value, and the value has the property.
abbrev pub Returns : {A : Type 0} → Option A → (A → Type 0) → Type 0
Returns none Q = ⊥
Returns (some a) Q = Q a

pub Returns-bind :
    {A B : Type 0} (Q : A → Type 0) (R : B → Type 0) (m : Option A) (k : A → Option B)
    → Returns m Q
    → ((a : A) → Q a → Returns (k a) R)
    → Returns (m >>= k) R
Returns-bind Q R none k q next = absurd q
Returns-bind Q R (some a) k q next = next a q

pub Returns-some :
    {A : Type 0} (m : Option A) (Q : A → Type 0) → Returns m Q → (a : A) × (m ≡ some a) × Q a
Returns-some none Q q = absurd q
Returns-some (some a) Q q = (a, refl, q)

abbrev IsKnown : Err → Type 0
IsKnown (unknown_token t) = ⊥
IsKnown _ = Unit {0}

module _ {P : Type 0} where
  -- An atom takes at least one token; an error beside a predicate is an UnknownTokenError or an
  -- IncompleteOperatorError, and an UnknownTokenError stands beside a predicate.
  abbrev pub IsAtomResult : ℕ → Parsed P → Type 0
  IsAtomResult n (parsed p tokens none) = length tokens < n
  IsAtomResult n (parsed p tokens (some e)) =
      (length tokens < n) × (is_match_error e ≡ false) × (is_syntax_error e ≡ false)
  IsAtomResult n (failed tokens e) = IsKnown e

  -- Inside parentheses an error stands alone; alone it is a syntax error.
  abbrev pub IsParseResult : ℕ → ℕ → Parsed P → Type 0
  IsParseResult open_parens n (parsed p tokens none) = length tokens ≤ n
  IsParseResult open_parens n (parsed p tokens (some e)) =
      (length tokens ≤ n)
      × (is_match_error e ≡ false)
      × (is_syntax_error e ≡ false)
      × (open_parens ≡ 0)
  IsParseResult open_parens n (failed tokens e) = is_syntax_error e ≡ true

  pub or_parse-IsAtomResult :
      (n : ℕ) (m : Option (Parsed P)) (next : Unit {0} → Option (Parsed P))
      → Returns m (IsAtomResult n)
      → Returns (next tt) (IsAtomResult n)
      → Returns (or_parse m next) (IsAtomResult n)
  unfolding or_parse is_match_error
  or_parse-IsAtomResult n none next q k = absurd q
  or_parse-IsAtomResult n (some (parsed p tokens none)) next q k = q
  or_parse-IsAtomResult n (some (parsed p tokens (some e))) next q k = rw (q.1) q
  or_parse-IsAtomResult n (some (failed tokens match_error)) next q k = k
  or_parse-IsAtomResult n (some (failed tokens (unknown_token t))) next q k = absurd q
  or_parse-IsAtomResult n (some (failed tokens incomplete_operator)) next q k = q
  or_parse-IsAtomResult n (some (failed tokens empty_expression)) next q k = q
  or_parse-IsAtomResult n (some (failed tokens syntax_error)) next q k = q

  negate_parsed-IsAtomResult :
      (negate_p : P → P) (n : ℕ) (r : Parsed P)
      → IsAtomResult n r
      → IsAtomResult (suc n) (negate_parsed negate_p r)
  unfolding negate_parsed is_match_error is_syntax_error
  negate_parsed-IsAtomResult negate_p n (parsed p tokens none) q = omega arith
  negate_parsed-IsAtomResult negate_p n (parsed p tokens (some e)) (less, not_match, not_syntax) =
      rw not_match (omega arith, not_match, not_syntax)
  negate_parsed-IsAtomResult negate_p n (failed tokens match_error) q = tt
  negate_parsed-IsAtomResult negate_p n (failed tokens (unknown_token t)) q = absurd q
  negate_parsed-IsAtomResult negate_p n (failed tokens incomplete_operator) q = tt
  negate_parsed-IsAtomResult negate_p n (failed tokens empty_expression) q = tt
  negate_parsed-IsAtomResult negate_p n (failed tokens syntax_error) q = tt

  pub not_op_parser-IsAtomResult :
      (negate_p : P → P) (atom : List String → Option (Parsed P)) (token : String)
      (tokens : List String)
      → ((next : String) (rest : List String)
          → tokens ≡ next ∷ rest
          → Returns (atom (next ∷ rest)) (IsAtomResult (length (next ∷ rest))))
      → Returns (not_op_parser negate_p atom (token ∷ tokens)) (IsAtomResult (suc (length tokens)))
  unfolding not_op_parser
  not_op_parser-IsAtomResult negate_p atom token [] ih =
      elim (Bool-cases (str_eq token "!" || str_eq token "-not")) [
        | inl e ↦ rw e tt
        | inr e ↦ rw e tt
      ]
  not_op_parser-IsAtomResult negate_p atom token (next ∷ rest) ih =
      elim (Bool-cases (str_eq token "!" || str_eq token "-not")) [
        | inr e ↦ rw e tt
        | inl e ↦ elim (Bool-cases (str_eq next ")")) [
          | inl c ↦ rw (e, c) tt
          | inr c ↦
              rw (e, c)
                (Returns-bind (IsAtomResult (length (next ∷ rest)))
                  (IsAtomResult (suc (length (next ∷ rest)))) (atom (next ∷ rest))
                  (λ r. some (negate_parsed negate_p r)) (ih next rest refl)
                  (negate_parsed-IsAtomResult negate_p (length (next ∷ rest))))
        ]
      ]

  expect_close-IsAtomResult :
      (n : ℕ) (r : Parsed P) (tokens : List String)
      → IsAtomResult n r
      → IsAtomResult n (expect_close r tokens)
  unfolding expect_close
  expect_close-IsAtomResult n r [] q = tt
  expect_close-IsAtomResult n r (token ∷ tokens) q = elim (Bool-cases (str_eq token ")")) [
    | inl e ↦ rw e q
    | inr e ↦ rw e tt
  ]

  close_parens-IsAtomResult :
      (open_parens n : ℕ) (r : Parsed P)
      → IsParseResult (suc open_parens) n r
      → IsAtomResult (suc n) (close_parens r)
  unfolding close_parens expect_close is_syntax_error
  close_parens-IsAtomResult open_parens n (parsed p [] none) q = tt
  close_parens-IsAtomResult open_parens n (parsed p (token ∷ tokens) none) q =
      elim (Bool-cases (str_eq token ")")) [ inl e ↦ rw e (omega arith) | inr e ↦ rw e tt ]
  close_parens-IsAtomResult open_parens n (parsed p tokens (some e)) q = absurd (omega (arith, q.3))
  close_parens-IsAtomResult open_parens n (failed tokens match_error) q = cc
  close_parens-IsAtomResult open_parens n (failed tokens (unknown_token t)) q = cc
  close_parens-IsAtomResult open_parens n (failed tokens incomplete_operator) q = cc
  close_parens-IsAtomResult open_parens n (failed tokens empty_expression) q =
      expect_close-IsAtomResult (suc n) (failed [] syntax_error) tokens tt
  close_parens-IsAtomResult open_parens n (failed tokens syntax_error) q = tt

  pub parenthesize-IsAtomResult :
      (open_parens : ℕ) (inner : List String → Option (Parsed P)) (token : String)
      (tokens : List String)
      → Returns (inner tokens) (IsParseResult (suc open_parens) (length tokens))
      → Returns (parenthesize inner (token ∷ tokens)) (IsAtomResult (suc (length tokens)))
  unfolding parenthesize
  parenthesize-IsAtomResult open_parens inner token tokens ih =
      elim (Bool-cases (str_eq token ")")) [
        | inl e ↦ rw e tt
        | inr e ↦ elim (Bool-cases (str_eq token "(")) [
          | inr o ↦ rw (e, o) tt
          | inl o ↦
              rw (e, o)
                (Returns-bind (IsParseResult (suc open_parens) (length tokens))
                  (IsAtomResult (suc (length tokens))) (inner tokens) (λ r. some (close_parens r))
                  ih (close_parens-IsAtomResult open_parens (length tokens)))
        ]
      ]
