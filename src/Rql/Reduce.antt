-- ===== src/Rql/Reduce.antt =====
-- reduce of api/rql/internal/predicate/expression/expression.go: negations move to the atoms.
pub mod Correct
use wash.Prelude.{ℕ, zero, suc, ◌+◌, ◌*◌, ◌<◌, ◌≡◌, Option, none, some, arith}
use wash.Prelude.Maybe.{◌>>=◌}
use wash.Rql.Host.{Host}
use wash.Rql.Ast.{Ptype, Expr, atom, and, or, not}
use wash.Rql.Eval.{Subject, eval}

module _ {h : Host} {t : Ptype} where
  -- The code recurs on expressions that it builds, so each call costs a unit of fuel; `none` is
  -- the end of the fuel.
  unfoldable pub reduce : ℕ → Expr h t → Option (Expr h t)
  reduce zero e = none
  reduce (suc f) (atom a) = some (atom a)
  reduce (suc f) (and p q) = do p' ← reduce f p; q' ← reduce f q; some (and p' q')
  reduce (suc f) (or p q) = do p' ← reduce f p; q' ← reduce f q; some (or p' q')
  reduce (suc f) (not (atom a)) = some (not (atom a))
  reduce (suc f) (not (not p)) = reduce f p
  reduce (suc f) (not (and p q)) = reduce f (or (not p) (not q))
  reduce (suc f) (not (or p q)) = reduce f (and (not p) (not q))

  -- The RNPE grammar of the comment on reduce.
  abbrev pub IsReduced : Expr h t → Type 0
  IsReduced (atom a) = Unit {0}
  IsReduced (and p q) = IsReduced p × IsReduced q
  IsReduced (or p q) = IsReduced p × IsReduced q
  IsReduced (not (atom a)) = Unit {0}
  IsReduced (not p) = ⊥

  -- Falls in each recursive call of `reduce`.
  abbrev pub reduce_measure : Expr h t → ℕ
  reduce_measure (atom a) = 1
  reduce_measure (and p q) = reduce_measure p + reduce_measure q + 1
  reduce_measure (or p q) = reduce_measure p + reduce_measure q + 1
  reduce_measure (not p) = 2 * reduce_measure p

  pub reduce_measure-pos : (p : Expr h t) → 0 < reduce_measure p
  reduce_measure-pos (atom a) = omega arith
  reduce_measure-pos (and p q) = omega arith
  reduce_measure-pos (or p q) = omega arith
  reduce_measure-pos (not p) = omega (arith, reduce_measure-pos p)

  -- What the result `r` of reducing `e` is to be.
  pub record Reduces (e : Expr h t) (result : Option (Expr h t)) : Type 0 where
    pub reduced : Expr h t
    pub is_result : result ≡ some reduced
    pub in_grammar : IsReduced reduced
    pub same_value : (x : Subject h t) → eval reduced x ≡ eval e x
