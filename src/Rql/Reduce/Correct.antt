-- ===== src/Rql/Reduce/Correct.antt =====
-- The result of reduce (api/rql/internal/predicate/expression/expression.go) and its value.
use wash.Prelude.{ℕ, zero, suc, ◌<◌, ◌≡◌, refl, ◌∙◌, Bool, true, false, Option, none, some, arith}
use wash.Rql.Host.{Host}
use wash.Rql.Ast.{Ptype, Expr, atom, and, or, not}
use wash.Rql.Eval.{Subject, both, either, negated, eval}
use wash.Rql.Reduce.{reduce, reduce_measure, reduce_measure-pos, Reduces}

negated-both : (a b : Option Bool) → either (negated a) (negated b) ≡ negated (both a b)
negated-both none b = refl
negated-both (some true) none = refl
negated-both (some true) (some b) = refl
negated-both (some false) b = refl

negated-either : (a b : Option Bool) → both (negated a) (negated b) ≡ negated (either a b)
negated-either none b = refl
negated-either (some true) b = refl
negated-either (some false) none = refl
negated-either (some false) (some b) = refl

negated_twice : (a : Option Bool) → a ≡ negated (negated a)
negated_twice none = refl
negated_twice (some true) = refl
negated_twice (some false) = refl

module _ {h : Host} {t : Ptype} where
  combine_and :
      (f : ℕ) (p q : Expr h t)
      → Reduces p (reduce f p)
      → Reduces q (reduce f q)
      → Reduces (and p q) (reduce (suc f) (and p q))
  unfolding reduce eval
  combine_and f p q a b = record {
    reduced = and a.reduced b.reduced;
    is_result = rw (a.is_result, b.is_result);
    in_grammar = (a.in_grammar, b.in_grammar);
    same_value = λ x. rw (a.same_value x, b.same_value x);
  }

  combine_or :
      (f : ℕ) (p q : Expr h t)
      → Reduces p (reduce f p)
      → Reduces q (reduce f q)
      → Reduces (or p q) (reduce (suc f) (or p q))
  unfolding reduce eval
  combine_or f p q a b = record {
    reduced = or a.reduced b.reduced;
    is_result = rw (a.is_result, b.is_result);
    in_grammar = (a.in_grammar, b.in_grammar);
    same_value = λ x. rw (a.same_value x, b.same_value x);
  }

  -- An expression of the same value may stand for the one that is reduced.
  replace :
      {e e' : Expr h t} {result : Option (Expr h t)}
      → ((x : Subject h t) → eval e' x ≡ eval e x)
      → Reduces e' result
      → Reduces e result
  replace same r = record {
    reduced = r.reduced;
    is_result = r.is_result;
    in_grammar = r.in_grammar;
    same_value = λ x. r.same_value x ∙ same x;
  }

  -- With fuel above its measure, every expression is reduced: the result is in the grammar of
  -- reduced expressions, and its evaluation is that of the expression on every subject, panics and
  -- the order of evaluation included.
  pub reduce_lem : (f : ℕ) (e : Expr h t) → reduce_measure e < f → Reduces e (reduce f e)
  unfolding reduce eval
  reduce_lem zero e h = absurd (omega arith)
  reduce_lem (suc f) (atom a) h = record {
    reduced = atom a;
    is_result = refl;
    in_grammar = tt;
    same_value = λ x. refl;
  }
  reduce_lem (suc f) (and p q) h =
      combine_and f p q (reduce_lem f p (omega arith)) (reduce_lem f q (omega arith))
  reduce_lem (suc f) (or p q) h =
      combine_or f p q (reduce_lem f p (omega arith)) (reduce_lem f q (omega arith))
  reduce_lem (suc f) (not (atom a)) h = record {
    reduced = not (atom a);
    is_result = refl;
    in_grammar = tt;
    same_value = λ x. refl;
  }
  reduce_lem (suc f) (not (not p)) h =
      replace (λ x. negated_twice (eval p x)) (reduce_lem f p (omega (arith, reduce_measure-pos p)))
  reduce_lem (suc f) (not (and p q)) h =
      replace (λ x. negated-both (eval p x) (eval q x))
        (reduce_lem f (or (not p) (not q)) (omega arith))
  reduce_lem (suc f) (not (or p q)) h =
      replace (λ x. negated-either (eval p x) (eval q x))
        (reduce_lem f (and (not p) (not q)) (omega arith))
