-- ===== src/Find/Parser/Total.antt =====
-- The parser of cmd/internal/find/parser/expression/parser.go ends on all tokens, without a panic.
pub mod Ends
use wash.Prelude.{
  ℕ, suc, ◌+◌, ◌≤◌, ◌<◌, String, ◌≡◌, refl, inl, inr, false, Option, none, some, List, ◌∷◌, arith,
  Option-cases, length,
}
use wash.Prelude.Maybe.{◌>>=◌}
use wash.Find.EvalStack.{
  Item, BinaryOp, and_op, operator, Item, EvalStack, new_eval_stack, push_predicate, evaluate,
  is_predicate,
}
use wash.Find.EvalStack.Folding.{Pile, single, pair, triple, stack_of, next, value, evaluate-layout}
use wash.Find.Parser.{
  Parsed, parsed, failed, Looped, Err, match_error, unknown_token, incomplete_operator,
  empty_expression, syntax_error, is_match_error, is_syntax_error, find_binary_op, or_parse,
  not_op_parser, parenthesize, parse_binary_op, parse_other, after_atom, parse_round, pop_predicate,
  evaluate_parsed, finish_items, finish_parse, parse_atom, parse_loop, parse,
}
use wash.Find.Parser.Piles.{
  opened, covered, push_first, push_opened, push_juxtaposed, parse_binary_op-pile, finish-pile,
}
use wash.Find.Parser.Returning.{
  Returns, Returns-bind, IsAtomResult, IsParseResult, or_parse-IsAtomResult,
  not_op_parser-IsAtomResult, parenthesize-IsAtomResult,
}

-- What the expression parser relies on of the parser of primaries: it returns, and as an atom does.
unfoldable pub IsPrimaryParser : {P : Type 0} → (List String → Option (Parsed P)) → Type 0
IsPrimaryParser primary =
    (token : String) (tokens : List String)
    → Returns (primary (token ∷ tokens)) (IsAtomResult (suc (length tokens)))

abbrev IsNoMatch : Option Err → Type 0
IsNoMatch none = Unit {0}
IsNoMatch (some e) = is_match_error e ≡ false

module _ {P : Type 0} (combine : BinaryOp → P → P → P) where
  -- The stacks that parse meets
  data Stage : Type 0 where
    start : Stage
    piled : Pile combine → String → Stage
    opened_at : BinaryOp → Pile combine → String → Stage

  abbrev stack_at : Stage → EvalStack P
  stack_at start = new_eval_stack
  stack_at (piled l token) = stack_of combine l token
  stack_at (opened_at b l token) = opened combine b l token

  -- An operator on top may come back as a token.
  abbrev pending : Stage → ℕ
  pending start = 0
  pending (piled l token) = 0
  pending (opened_at b l token) = 1

  abbrev items_at : Stage → List (Item P)
  items_at st = (stack_at st).items

  abbrev token_at : Stage → String
  token_at st = (stack_at st).most_recent_op_token

  abbrev IsLooped : ℕ → Looped P → Type 0
  IsLooped n l =
      (st : Stage) × (l.stack ≡ stack_at st)
      × (length l.tokens + pending st ≤ n)
      × IsNoMatch l.error

  weaken_looped :
      (m n : ℕ) (o : Option (Looped P)) → m ≤ n → Returns o (IsLooped m) → Returns o (IsLooped n)
  weaken_looped m n none h q = q
  weaken_looped m n (some l) h (st, e, less, k) = (st, e, omega arith, k)

  push_predicate-stage :
      (p : P) (st : Stage)
      → (l : Pile combine) × (token : String) × (push_predicate combine p (stack_at st)
          ≡ some (stack_of combine l token))
  push_predicate-stage p start = (single p, "", push_first combine p)
  push_predicate-stage p (piled l token) =
      (next combine and_op p l, "-a", push_juxtaposed combine l token p)
  push_predicate-stage p (opened_at b l token) =
      (next combine b p l, token, push_opened combine b l token p)

  -- A round that pushes a predicate
  push-IsLooped :
      (again : List String → EvalStack P → Option (Looped P)) (p : P) (st : Stage) (n : ℕ)
      (rest : List String)
      → length rest < n
      → ((st' : Stage) → Returns (again rest (stack_at st')) (IsLooped (length rest + pending st')))
      → Returns (push_predicate combine p (stack_at st) >>= again rest) (IsLooped n)
  push-IsLooped again p st n rest less ih =
      let (l, token, e) = push_predicate-stage p st in
      rw e (
        weaken_looped (length rest + 0) n (again rest (stack_of combine l token)) (omega arith)
          (ih (piled l token)))

  -- A round at an operator
  parse_binary_op-IsLooped :
      (again : List String → EvalStack P → Option (Looped P)) (token : String)
      (tokens : List String) (st : Stage) (b : BinaryOp)
      → ((st' : Stage)
          → Returns (again tokens (stack_at st')) (IsLooped (length tokens + pending st')))
      → Returns
          (parse_binary_op combine again token tokens (stack_at st) b)
          (IsLooped (suc (length tokens) + pending st))
  unfolding parse_binary_op is_match_error
  parse_binary_op-IsLooped again token tokens start b ih = (start, refl, omega arith, refl)
  parse_binary_op-IsLooped again token tokens (piled l old) b ih =
      rw (parse_binary_op-pile combine again token tokens b l old) (
        weaken_looped (length tokens + 1) (suc (length tokens) + 0)
          (again tokens (opened combine b l token)) (omega arith) (ih (opened_at b l token)))
  parse_binary_op-IsLooped again token tokens (opened_at c l old) b ih =
      (opened_at c l old, refl, omega arith, refl)

  parse_other-IsLooped :
      (again : List String → EvalStack P → Option (Looped P)) (token : String)
      (tokens : List String) (st : Stage)
      → ((st' : Stage)
          → Returns (again tokens (stack_at st')) (IsLooped (length tokens + pending st')))
      → Returns
          (parse_other combine again token tokens (stack_at st))
          (IsLooped (suc (length tokens) + pending st))
  unfolding is_match_error parse_other
  parse_other-IsLooped again token tokens st ih = elim (Option-cases (find_binary_op token)) [
    | inl e ↦ rw (parse_other, e) (st, refl, omega arith, refl)
    | inr (b, e) ↦ rw (parse_other, e) (parse_binary_op-IsLooped again token tokens st b ih)
  ]
