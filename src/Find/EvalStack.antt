-- ===== src/Find/EvalStack.antt =====
-- evalStack of cmd/internal/find/parser/expression/parser.go, with the operators of binaryOp.go.
-- `none` is a panic of a type assertion, or of Pop on an empty stack.
pub mod Layout
pub mod Folding
pub mod Documented
pub mod Examples
use wash.Prelude.{
  ℕ, String, Bool, true, false, Option, none, some, List, [], ◌∷◌, leb, if◌then◌else◌,
}
use wash.Prelude.Maybe.{◌>>=◌}

pub data BinaryOp : Type 0 where
  and_op or_op : BinaryOp

-- newAndOp and newOrOp
abbrev pub precedence : BinaryOp → ℕ
precedence and_op = 1
precedence or_op = 0

pub data Item (P : Type 0) : Type 0 where
  predicate : P → Item P
  operator : BinaryOp → Item P

-- The top of the stack is the head of the list.
pub record EvalStack (P : Type 0) : Type 0 where
  pub items : List (Item P)
  pub most_recent_op : Option BinaryOp
  pub most_recent_op_token : String

-- newEvalStack
abbrev pub new_eval_stack : {P : Type 0} → EvalStack P
new_eval_stack = record { items = []; most_recent_op = none; most_recent_op_token = "" }

-- What is pushed in turn
pub data Push (P : Type 0) : Type 0 where
  push_p : P → Push P
  push_op : String → BinaryOp → Push P

-- Combine of an operator is `combine`.
module _ {P : Type 0} (combine : BinaryOp → P → P → P) where
  -- The loop of evaluate, once `p2` is popped: a single predicate is left at the end.
  unfoldable pub evaluate_from : P → List (Item P) → Option (List (Item P))
  evaluate_from p2 [] = some (predicate p2 ∷ [])
  evaluate_from p2 (operator op ∷ predicate p1 ∷ items) = evaluate_from (combine op p1 p2) items
  evaluate_from p2 items = none

  unfoldable pub evaluate : List (Item P) → Option (List (Item P))
  unfolding evaluate_from
  evaluate [] = some []
  evaluate (operator op ∷ []) = some (operator op ∷ [])
  evaluate (operator op ∷ item ∷ items) = none
  evaluate (predicate p ∷ items) = evaluate_from p items

  -- `s.mostRecentOp != nil` and `b.precedence <= s.mostRecentOp.precedence`
  unfoldable pub must_evaluate : BinaryOp → Option BinaryOp → Bool
  must_evaluate b none = false
  must_evaluate b (some op) = leb (precedence b) (precedence op)

  unfoldable pub push_binary_op : String → BinaryOp → EvalStack P → Option (EvalStack P)
  unfolding evaluate must_evaluate
  push_binary_op token b s = do
    items ← if must_evaluate b s.most_recent_op then evaluate s.items else some s.items
    some (record {
      items = operator b ∷ items;
      most_recent_op = some b;
      most_recent_op_token = token;
    })

  abbrev pub is_predicate : List (Item P) → Bool
  is_predicate (predicate p ∷ items) = true
  is_predicate items = false

  -- p1 p2 is p1 -and p2.
  unfoldable pub push_predicate : P → EvalStack P → Option (EvalStack P)
  unfolding push_binary_op
  push_predicate p s = do
    t ← if is_predicate s.items then push_binary_op "-a" and_op s else some s
    some (record t { items = predicate p ∷ t.items })

  unfoldable pub push : Push P → EvalStack P → Option (EvalStack P)
  unfolding push_predicate
  push (push_p p) s = push_predicate p s
  push (push_op token b) s = push_binary_op token b s

  unfoldable pub push_all : List (Push P) → EvalStack P → Option (EvalStack P)
  unfolding push
  push_all [] s = some s
  push_all (x ∷ xs) s = push x s >>= λ t. push_all xs t

  -- The predicate that the pushes and a last evaluate leave
  unfoldable pub evaluate_all : List (Push P) → Option (List (Item P))
  unfolding push_all
  evaluate_all xs = push_all xs new_eval_stack >>= λ s. evaluate s.items
