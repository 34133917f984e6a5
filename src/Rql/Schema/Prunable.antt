-- ===== src/Rql/Schema/Prunable.antt =====
-- A class of value expressions (api/rql/internal/predicate) that reduce stays inside.
use wash.Prelude.{ℕ, zero, suc, ◌≡◌, false, Option, none, some, str_eq}
use wash.Prelude.Maybe.{◌>>=◌}
use wash.Rql.Host.{Host}
use wash.Rql.Ast.{
  Ptype, value, Expr, Atom, atom, and, or, not, object_value, array_value, object_size,
  object_element, array_size, array_element,
}
use wash.Rql.Reduce.{reduce}
use wash.Rql.Schema.Represents.{is_all}

abbrev pub AllAtoms {ℓ} : {h : Host} {t : Ptype} → (Atom h t → Type ℓ) → Expr h t → Type ℓ
AllAtoms P (atom a) = P a
AllAtoms P (and p q) = AllAtoms P p × AllAtoms P q
AllAtoms P (or p q) = AllAtoms P p × AllAtoms P q
AllAtoms P (not p) = AllAtoms P p

-- No `all` selector and no empty key, and `R` of what is nested.
abbrev pub AtomFits : {h : Host} → (Expr h value → Type 0) → Atom h value → Type 0
AtomFits R (object_value (object_size p)) = Unit {0}
AtomFits R (object_value (object_element key p)) = (str_eq key "" ≡ false) × R p
AtomFits R (array_value (array_size p)) = Unit {0}
AtomFits R (array_value (array_element s p)) = (is_all s ≡ false) × R p
AtomFits R a = Unit {0}

-- Element predicates nested less than `n` deep, none of them by `all` or on an empty key.
abbrev pub IsPrunable : {h : Host} → ℕ → Expr h value → Type 0
IsPrunable zero e = ⊥
IsPrunable (suc n) e = AllAtoms (AtomFits (IsPrunable n)) e

-- Rewriting by `reduce` keeps the atoms.
module _ {h : Host} {t : Ptype} (P : Atom h t → Type 0) where
  abbrev pub AtomsOf : Option (Expr h t) → Type 0
  AtomsOf none = Unit {0}
  AtomsOf (some r) = AllAtoms P r

  AtomsOf-and :
      (x y : Option (Expr h t))
      → AtomsOf x
      → AtomsOf y
      → AtomsOf (x >>= λ p. y >>= λ q. some (and p q))
  AtomsOf-and none y a b = tt
  AtomsOf-and (some p) none a b = tt
  AtomsOf-and (some p) (some q) a b = (a, b)

  AtomsOf-or :
      (x y : Option (Expr h t))
      → AtomsOf x
      → AtomsOf y
      → AtomsOf (x >>= λ p. y >>= λ q. some (or p q))
  AtomsOf-or none y a b = tt
  AtomsOf-or (some p) none a b = tt
  AtomsOf-or (some p) (some q) a b = (a, b)

  pub reduce-AllAtoms : (f : ℕ) (e : Expr h t) → AllAtoms P e → AtomsOf (reduce f e)
  unfolding reduce
  reduce-AllAtoms zero e a = tt
  reduce-AllAtoms (suc f) (atom b) a = a
  reduce-AllAtoms (suc f) (and x y) (a, b) =
      AtomsOf-and (reduce f x) (reduce f y) (reduce-AllAtoms f x a) (reduce-AllAtoms f y b)
  reduce-AllAtoms (suc f) (or x y) (a, b) =
      AtomsOf-or (reduce f x) (reduce f y) (reduce-AllAtoms f x a) (reduce-AllAtoms f y b)
  reduce-AllAtoms (suc f) (not (atom b)) a = a
  reduce-AllAtoms (suc f) (not (not e)) a = reduce-AllAtoms f e a
  reduce-AllAtoms (suc f) (not (and x y)) a = reduce-AllAtoms f (or (not x) (not y)) a
  reduce-AllAtoms (suc f) (not (or x y)) a = reduce-AllAtoms f (and (not x) (not y)) a
