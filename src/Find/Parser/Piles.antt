-- ===== src/Find/Parser/Piles.antt =====
-- Rounds of the parse loop of cmd/internal/find/parser/expression/parser.go on the stacks that an
-- expression leaves.
use wash.Prelude.{ℕ, String, ◌≡◌, refl, Option, none, some, List, ◌∷◌}
use wash.Find.EvalStack.{
  BinaryOp, and_op, or_op, operator, EvalStack, new_eval_stack, evaluate_from, evaluate,
  must_evaluate, push_binary_op, push_predicate,
}
use wash.Find.EvalStack.Folding.{Pile, single, pair, triple, layout_items, stack_of, next, value}
use wash.Find.Parser.{parsed, Looped, parse_binary_op, finish_parse}

module _ {P : Type 0} (combine : BinaryOp → P → P → P) where
  -- The pile below an operator once that is pushed
  abbrev pub covered : BinaryOp → Pile combine → Pile combine
  covered b (single v) = single v
  covered b (pair and_op v p) = single (combine and_op v p)
  covered or_op (pair or_op v p) = single (combine or_op v p)
  covered and_op (pair or_op v p) = pair or_op v p
  covered b (triple v p q) = single (combine or_op v (combine and_op p q))

  abbrev pub opened : BinaryOp → Pile combine → String → EvalStack P
  opened b l token = record {
    items = operator b ∷ layout_items combine (covered b l);
    most_recent_op = some b;
    most_recent_op_token = token;
  }

  pub push_first :
      (p : P) → push_predicate combine p new_eval_stack ≡ some (stack_of combine (single p) "")
  unfolding push_predicate
  push_first p = refl

  pub push_opened :
      (b : BinaryOp) (l : Pile combine) (token : String) (p : P)
      → push_predicate combine p (opened b l token)
        ≡ some (stack_of combine (next combine b p l) token)
  unfolding push_predicate
  push_opened b (single v) token p = refl
  push_opened b (pair and_op v p) token q = refl
  push_opened or_op (pair or_op v p) token q = refl
  push_opened and_op (pair or_op v p) token q = refl
  push_opened b (triple v p q) token r = refl

  pub push_juxtaposed :
      (l : Pile combine) (token : String) (p : P)
      → push_predicate combine p (stack_of combine l token)
        ≡ some (stack_of combine (next combine and_op p l) "-a")
  unfolding push_predicate push_binary_op evaluate evaluate_from must_evaluate
  push_juxtaposed (single v) token p = refl
  push_juxtaposed (pair and_op v p) token q = refl
  push_juxtaposed (pair or_op v p) token q = refl
  push_juxtaposed (triple v p q) token r = refl

  -- A binary operator after a predicate
  pub parse_binary_op-pile :
      (again : List String → EvalStack P → Option (Looped P)) (token : String)
      (tokens : List String) (b : BinaryOp) (l : Pile combine) (old : String)
      → parse_binary_op combine again token tokens (stack_of combine l old) b
        ≡ again tokens (opened b l token)
  unfolding parse_binary_op push_binary_op evaluate evaluate_from must_evaluate
  parse_binary_op-pile again token tokens b (single v) old = refl
  parse_binary_op-pile again token tokens and_op (pair and_op v p) old = refl
  parse_binary_op-pile again token tokens or_op (pair and_op v p) old = refl
  parse_binary_op-pile again token tokens or_op (pair or_op v p) old = refl
  parse_binary_op-pile again token tokens and_op (pair or_op v p) old = refl
  parse_binary_op-pile again token tokens and_op (triple v p q) old = refl
  parse_binary_op-pile again token tokens or_op (triple v p q) old = refl

  -- Parse at the end of its tokens
  pub finish-pile :
      (open_parens : ℕ) (l : Pile combine) (old : String) (tokens : List String)
      → finish_parse combine open_parens
          (record { stack = stack_of combine l old; tokens = tokens; error = none })
        ≡ some (parsed (value combine l) tokens none)
  unfolding finish_parse evaluate evaluate_from
  finish-pile open_parens (single v) old tokens = refl
  finish-pile open_parens (pair b v p) old tokens = refl
  finish-pile open_parens (triple v p q) old tokens = refl
