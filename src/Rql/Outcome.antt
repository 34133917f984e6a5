-- ===== src/Rql/Outcome.antt =====
-- The result of an Unmarshal method (api/rql/internal/errz/matchError.go): a value, a MatchError,
-- or any other error. Error messages are left out. `out_of_fuel` has no counterpart in the code.
use wash.Prelude.{List, [], ◌∷◌}

pub data Outcome {ℓ} (A : Type ℓ) : Type ℓ where
  ok : A → Outcome A
  mismatch : Outcome A
  failed : Outcome A
  out_of_fuel : Outcome A

infixl 5 ◌>>=◌ ◌>>◌
abbrev pub ◌>>=◌ {ℓ κ} : {A : Type ℓ} {B : Type κ} → Outcome A → (A → Outcome B) → Outcome B
ok a >>= f = f a
mismatch >>= f = mismatch
failed >>= f = failed
out_of_fuel >>= f = out_of_fuel

abbrev pub ◌>>◌ {ℓ κ} : {A : Type ℓ} {B : Type κ} → Outcome A → Outcome B → Outcome B
m >> k = m >>= λ _. k

-- `fmt.Errorf("...: %w", err)`: the wrapped error is no MatchError, whatever it was.
abbrev pub wrapped {ℓ} : {A : Type ℓ} → Outcome A → Outcome A
wrapped (ok a) = ok a
wrapped mismatch = failed
wrapped failed = failed
wrapped out_of_fuel = out_of_fuel

abbrev pub or_else {ℓ} : {A : Type ℓ} → Outcome A → Outcome A → Outcome A
or_else mismatch next = next
or_else o next = o

-- api/rql/internal/nonterminalNode.go: the first node that does not answer with a MatchError.
unfoldable pub first_match {ℓ} : {A : Type ℓ} → List (Outcome A) → Outcome A
first_match [] = mismatch
first_match (o ∷ os) = or_else o (first_match os)
