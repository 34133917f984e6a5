-- ===== src/Find/EvalStack/Examples.antt =====
-- Truth values as the predicates of an expression.
use wash.Prelude.{◌≡◌, refl, Bool, true, false, ◌&&◌, ◌||◌, none, some, List, [], ◌∷◌}
use wash.Find.EvalStack.{BinaryOp, and_op, or_op, predicate, push_p, evaluate_all}
use wash.Find.EvalStack.Folding.{Link, written, left_out, chain_pushes, ops}
use wash.Find.EvalStack.Documented.{
  by_precedence, evaluate_all-by_precedence, evaluate_all-and_after_or,
}

abbrev pub combine_bool : BinaryOp → Bool → Bool → Bool
combine_bool and_op p q = p && q
combine_bool or_op p q = p || q

abbrev sample_chain : List (Link × Bool)
sample_chain = (written "-a" and_op, false) ∷ (written "-o" or_op, true) ∷ (left_out, false) ∷ []

evaluate_all-by_precedence_example :
    evaluate_all combine_bool (push_p true ∷ chain_pushes sample_chain)
    ≡ some (predicate (by_precedence combine_bool none true (ops sample_chain)) ∷ [])
evaluate_all-by_precedence_example = evaluate_all-by_precedence combine_bool true sample_chain tt

-- true -o true -a true -a false: false by the stack, and true as documented
evaluate_all-and_after_or_example :
    (evaluate_all combine_bool (
        push_p true
        ∷ chain_pushes
            ((written "-o" or_op, true) ∷ (written "-a" and_op, true) ∷ (left_out, false) ∷ []))
      ≡ some (predicate false ∷ []))
    × (by_precedence combine_bool none true ((or_op, true) ∷ (and_op, true) ∷ (and_op, false) ∷ [])
        ≡ true)
evaluate_all-and_after_or_example =
    evaluate_all-and_after_or combine_bool true true true "-o" (written "-a" and_op)
      ((left_out, false) ∷ []) refl (refl, tt)
