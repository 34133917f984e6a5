-- ===== src/Rql/Wire/Levels.antt =====
-- One level of an expression, written and read (predicate/expression of api/rql/internal).
use wash.Prelude.{ℕ, suc, ◌≡◌, refl, Bool, true, false, if◌then◌else◌}
use wash.Rql.Host.{Host}
use wash.Rql.Any.{Any, Items, str, array, item, is_headed}
use wash.Rql.Outcome.{Outcome, ok, mismatch, or_else}
use wash.Rql.Ast.{Ptype, Expr, Atom, atom, and, or, not}
use wash.Rql.Wire.Marshal.{marshal, marshal_atom}
use wash.Rql.Wire.Unmarshal.{unmarshal_expr}

either_way :
    {A : Type 0} (b : Bool) (a : A) → or_else (if b then mismatch else mismatch) (ok a) ≡ ok a
either_way true a = refl
either_way false a = refl

module _ {h : Host} {t : Ptype} (f : ℕ) (neg : Bool) (read : Any h → Outcome (Atom h t)) where
  -- An Unmarshal of atoms that is not deceived by the operators tried after it.
  pub record SkipsOperators : Type 0 where
    pub skips_not : (xs : Items h) → read (array (item (str "NOT") xs)) ≡ mismatch
    pub skips_and : (xs : Items h) → read (array (item (str "AND") xs)) ≡ mismatch

  abbrev pub Reads : Expr h t → Type 0
  Reads e = unmarshal_expr f neg read (marshal e) ≡ ok e

  abbrev pub ReadsNext : Expr h t → Type 0
  ReadsNext e = unmarshal_expr (suc f) neg read (marshal e) ≡ ok e

  pub reads_atom :
      (a : Atom h t)
      → is_headed "OR" (marshal_atom a) ≡ false
      → read (marshal_atom a) ≡ ok a
      → ReadsNext (atom a)
  unfolding unmarshal_expr marshal
  reads_atom a headed r = rw (headed, r)

  pub Reads-or : (p q : Expr h t) → Reads p → Reads q → ReadsNext (or p q)
  unfolding unmarshal_expr marshal
  Reads-or p q a b = rw (a, b)

  pub Reads-and : SkipsOperators → (p q : Expr h t) → Reads p → Reads q → ReadsNext (and p q)
  unfolding unmarshal_expr marshal
  Reads-and s p q a b = rw (s.skips_and _, a, b) (either_way neg _)

  pub Reads-not : SkipsOperators → neg ≡ true → (p : Expr h t) → Reads p → ReadsNext (not p)
  unfolding unmarshal_expr marshal
  Reads-not s n p a = rw (s.skips_not _, a, n)
