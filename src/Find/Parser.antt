-- ===== src/Find/Parser.antt =====
-- The expression parser of the find command: cmd/internal/find/parser/expression/parser.go and
-- atom.go, parser/errz/core.go, and the composite parser of parser/predicate/parser.go. The parser of
-- the primaries is an argument. numOpenParens is an argument too, and so is the stack: a parenthesised
-- expression gets a new stack, and the deferred restore of both leaves the caller's own. `none` is a
-- panic, or fuel that ran out.
pub mod Syntax
pub mod Piles
pub mod Reading
pub mod Documented
pub mod Returning
pub mod Total
mod Examples
use wash.Prelude.{
  ℕ, zero, suc, String, Bool, true, false, ◌||◌, Option, none, some, List, [], ◌∷◌, str_eq, ltb,
  ◌==◌, if◌then◌else◌,
}
use wash.Prelude.Maybe.{◌>>=◌}
use wash.Find.EvalStack.{
  BinaryOp, and_op, or_op, Item, predicate, operator, EvalStack, new_eval_stack, evaluate,
  push_binary_op, is_predicate, push_predicate,
}

-- The errors of errz, emptyExpressionError, and all others, which are syntax errors too
pub data Err : Type 0 where
  match_error : Err
  unknown_token : String → Err
  incomplete_operator : Err
  empty_expression : Err
  syntax_error : Err

unfoldable pub is_match_error : Err → Bool
is_match_error match_error = true
is_match_error _ = false

unfoldable pub is_syntax_error : Err → Bool
is_syntax_error match_error = false
is_syntax_error (unknown_token t) = false
is_syntax_error incomplete_operator = false
is_syntax_error empty_expression = true
is_syntax_error syntax_error = true

-- The (Predicate, []string, error) of a Parse: a predicate, maybe with an error, or an error alone
pub data Parsed (P : Type 0) : Type 0 where
  parsed : P → List String → Option Err → Parsed P
  failed : List String → Err → Parsed P

-- What parse returns, with the stack that it leaves
pub record Looped (P : Type 0) : Type 0 where
  pub stack : EvalStack P
  pub tokens : List String
  pub error : Option Err

-- The keys of binaryOps
unfoldable pub find_binary_op : String → Option BinaryOp
find_binary_op token =
    if str_eq token "-a" || str_eq token "-and"
    then some and_op
    else if str_eq token "-o" || str_eq token "-or"
    then some or_op
    else none

-- opTokens
unfoldable pub is_op : String → Bool
unfolding find_binary_op
is_op token =
    str_eq token "!"
    || str_eq token "-not"
    || str_eq token "("
    || str_eq token ")"
    || elim (find_binary_op token) [ none ↦ false | some b ↦ true ]

module _ {P : Type 0} where
  -- ParseAndReturnParserID: the first result that is not a MatchError. The parsers after it are not
  -- run: the alternative waits.
  unfoldable pub or_parse : Option (Parsed P) → (Unit {0} → Option (Parsed P)) → Option (Parsed P)
  unfolding is_match_error
  or_parse (some (failed tokens e)) next =
      if is_match_error e then next tt else some (failed tokens e)
  or_parse (some (parsed p tokens (some e))) next =
      if is_match_error e then next tt else some (parsed p tokens (some e))
  or_parse (some (parsed p tokens none)) next = some (parsed p tokens none)
  or_parse none next = none

  -- What notOpParser makes of the result of the atom that follows
  unfoldable pub negate_parsed : (P → P) → Parsed P → Parsed P
  unfolding is_match_error
  negate_parsed negate_p (parsed p tokens none) = parsed (negate_p p) tokens none
  negate_parsed negate_p (parsed p tokens (some e)) =
      parsed (negate_p p) tokens (some (if is_match_error e then incomplete_operator else e))
  negate_parsed negate_p (failed tokens e) =
      failed tokens (if is_match_error e then incomplete_operator else e)

  -- notOpParser, given the parser of the atom
  unfoldable pub not_op_parser :
      (P → P) → (List String → Option (Parsed P)) → List String → Option (Parsed P)
  unfolding negate_parsed
  not_op_parser negate_p atom [] = none
  not_op_parser negate_p atom (token ∷ []) =
      if str_eq token "!" || str_eq token "-not"
      then some (failed [] syntax_error)
      else some (failed [] match_error)
  not_op_parser negate_p atom (token ∷ next ∷ tokens) =
      if str_eq token "!" || str_eq token "-not"
      then if str_eq next ")"
        then some (failed [] syntax_error)
        else (atom (next ∷ tokens) >>= λ r. some (negate_parsed negate_p r))
      else some (failed [] match_error)

  -- Parenthesize after the inner Parse: the missing ")" is told before the empty expression
  unfoldable pub expect_close : Parsed P → List String → Parsed P
  expect_close r (token ∷ tokens) = if str_eq token ")" then r else failed [] syntax_error
  expect_close r [] = failed [] syntax_error

  unfoldable pub close_parens : Parsed P → Parsed P
  unfolding expect_close
  close_parens (parsed p (token ∷ tokens) none) =
      expect_close (parsed p tokens none) (token ∷ tokens)
  close_parens (parsed p [] none) = failed [] syntax_error
  close_parens (parsed p tokens (some empty_expression)) =
      expect_close (failed [] syntax_error) tokens
  close_parens (parsed p tokens (some e)) = parsed p tokens (some e)
  close_parens (failed tokens empty_expression) = expect_close (failed [] syntax_error) tokens
  close_parens (failed tokens e) = failed tokens e

  -- Parenthesize, given Parse inside the parentheses
  unfoldable pub parenthesize : (List String → Option (Parsed P)) → List String → Option (Parsed P)
  unfolding close_parens
  parenthesize inner [] = some (failed [] match_error)
  parenthesize inner (token ∷ tokens) =
      if str_eq token ")"
      then some (failed [] syntax_error)
      else if str_eq token "("
      then (inner tokens >>= λ r. some (close_parens r))
      else some (failed [] match_error)

  module _ (combine : BinaryOp → P → P → P) where
    -- The end of the loop body of parse, for a token that starts no atom; `again` is the next round
    unfoldable pub parse_binary_op :
        (List String → EvalStack P → Option (Looped P))
        → String
        → List String
        → EvalStack P
        → BinaryOp
        → Option (Looped P)
    unfolding push_binary_op
    parse_binary_op again token tokens s b = elim s.most_recent_op [
      | none ↦
          if is_predicate combine s.items
          then (push_binary_op combine token b s >>= again tokens)
          else some (record { stack = s; tokens = tokens; error = some syntax_error })
      | some op ↦ elim s.items [
        | operator c ∷ items ↦
            some (record { stack = s; tokens = tokens; error = some syntax_error })
        | _ ↦ push_binary_op combine token b s >>= again tokens
      ]
    ]

    unfoldable pub parse_other :
        (List String → EvalStack P → Option (Looped P))
        → String
        → List String
        → EvalStack P
        → Option (Looped P)
    unfolding parse_binary_op find_binary_op
    parse_other again token tokens s = elim (find_binary_op token) [
      | none ↦
          some (record { stack = s; tokens = token ∷ tokens; error = some (unknown_token token) })
      | some b ↦ parse_binary_op again token tokens s b
    ]

    -- The rest of a round of parse, given what the parser of atoms returns
    unfoldable pub after_atom :
        (List String → EvalStack P → Option (Looped P))
        → String
        → List String
        → EvalStack P
        → Parsed P
        → Option (Looped P)
    unfolding parse_other push_predicate is_match_error is_syntax_error
    after_atom again token tokens s (parsed p rest none) = push_predicate combine p s >>= again rest
    after_atom again token tokens s (parsed p rest (some e)) =
        if is_match_error e
        then parse_other again token tokens s
        else if is_syntax_error e
        then some (record { stack = s; tokens = token ∷ tokens; error = some e })
        else (push_predicate combine p s >>= again rest)
    after_atom again token tokens s (failed rest match_error) = parse_other again token tokens s
    after_atom again token tokens s (failed rest (unknown_token t)) = none
    after_atom again token tokens s (failed rest e) =
        some (record { stack = s; tokens = token ∷ tokens; error = some e })

    -- A round of parse; `atom` is the parser of atoms
    unfoldable pub parse_round :
        (List String → Option (Parsed P))
        → (List String → EvalStack P → Option (Looped P))
        → ℕ
        → List String
        → EvalStack P
        → Option (Looped P)
    unfolding after_atom
    parse_round atom again open_parens [] s = some (record { stack = s; tokens = []; error = none })
    parse_round atom again open_parens (token ∷ tokens) s =
        if str_eq token ")"
        then some (record {
          stack = s;
          tokens = token ∷ tokens;
          error = if open_parens == 0 then some incomplete_operator else none;
        })
        else (atom (token ∷ tokens) >>= after_atom again token tokens s)

    -- Parse, once nothing but a predicate is on the stack
    unfoldable pub pop_predicate : List String → Option Err → List (Item P) → Option (Parsed P)
    pop_predicate tokens e (predicate p ∷ items) = some (parsed p tokens e)
    pop_predicate tokens e _ = none

    unfoldable pub evaluate_parsed : List String → Option Err → List (Item P) → Option (Parsed P)
    unfolding evaluate pop_predicate
    evaluate_parsed tokens e items = evaluate combine items >>= pop_predicate tokens e

    -- Parse on an error that is none or no syntax error
    unfoldable pub finish_items :
        ℕ → List String → Option Err → String → List (Item P) → Option (Parsed P)
    unfolding evaluate_parsed
    finish_items open_parens tokens none token [] = some (failed tokens empty_expression)
    finish_items open_parens tokens (some e) token [] = some (failed tokens syntax_error)
    finish_items open_parens tokens none token (operator b ∷ items) = some (failed [] syntax_error)
    finish_items open_parens tokens (some e) token (operator b ∷ items) =
        if ltb 0 open_parens
        then some (failed tokens syntax_error)
        else evaluate_parsed (token ∷ tokens) (some e) items
    finish_items open_parens tokens none token (predicate p ∷ items) =
        evaluate_parsed tokens none (predicate p ∷ items)
    finish_items open_parens tokens (some e) token (predicate p ∷ items) =
        if ltb 0 open_parens
        then some (failed tokens syntax_error)
        else evaluate_parsed tokens (some e) (predicate p ∷ items)

    unfoldable pub finish_parse : ℕ → Looped P → Option (Parsed P)
    unfolding finish_items is_syntax_error
    finish_parse open_parens l = elim l.error [
      | none ↦ finish_items open_parens l.tokens none l.stack.most_recent_op_token l.stack.items
      | some e ↦
          if is_syntax_error e
          then some (failed [] e)
          else finish_items open_parens l.tokens (some e) l.stack.most_recent_op_token l.stack.items
    ]

module _ {P : Type 0} (combine : BinaryOp → P → P → P) (negate_p : P → P)
    (primary : List String → Option (Parsed P)) where
  unfoldable mutual
    unfolding or_parse not_op_parser parenthesize parse_round finish_parse

    -- Atom.Parse
    pub parse_atom : ℕ → ℕ → List String → Option (Parsed P)
    parse_atom zero open_parens tokens = none
    parse_atom (suc f) open_parens tokens =
        or_parse (not_op_parser negate_p (parse_atom f open_parens) tokens) (λ _.
          or_parse (parenthesize (parse f (suc open_parens)) tokens)
            (λ _. or_parse (primary tokens) (λ _. some (failed [] match_error))))

    -- parse
    pub parse_loop : ℕ → ℕ → List String → EvalStack P → Option (Looped P)
    parse_loop zero open_parens tokens s = none
    parse_loop (suc f) open_parens tokens s =
        parse_round combine (parse_atom f open_parens) (parse_loop f open_parens) open_parens tokens
          s

    -- Parse
    pub parse : ℕ → ℕ → List String → Option (Parsed P)
    parse zero open_parens tokens = none
    parse (suc f) open_parens tokens =
        parse_loop f open_parens tokens new_eval_stack >>= finish_parse combine open_parens
