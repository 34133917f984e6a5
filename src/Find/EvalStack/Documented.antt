-- ===== src/Find/EvalStack/Documented.antt =====
-- Where the order of evaluation of evalStack (cmd/internal/find/parser/expression/parser.go) agrees
-- with the documented precedence of the operators, and a case where it does not.
use wash.Prelude.{String, ◌≡◌, refl, ap, ◌∙◌, Option, none, some, List, [], ◌∷◌}
use wash.Find.EvalStack.{BinaryOp, and_op, or_op, predicate, push_p, evaluate_all}
use wash.Find.EvalStack.Folding.{
  Link, written, link_op, chain_pushes, ops, fold_chain, evaluate_all-fold_chain,
}

module _ {P : Type 0} (combine : BinaryOp → P → P → P) where
  -- The precedence that the documentation promises: the runs of -and first, then the -or
  abbrev pub join_or : Option P → P → P
  join_or none g = g
  join_or (some a) g = combine or_op a g

  unfoldable pub by_precedence : Option P → P → List (BinaryOp × P) → P
  by_precedence acc g [] = join_or acc g
  by_precedence acc g ((and_op, p) ∷ r) = by_precedence acc (combine and_op g p) r
  by_precedence acc g ((or_op, p) ∷ r) = by_precedence (some (join_or acc g)) p r

  -- No -or is followed by two -and in a row.
  abbrev pub IsShort : List (BinaryOp × P) → Type 0
  IsShort [] = Unit {0}
  IsShort ((and_op, p) ∷ r) = IsShort r
  IsShort ((or_op, p) ∷ []) = Unit {0}
  IsShort ((or_op, p) ∷ (or_op, q) ∷ r) = IsShort ((or_op, q) ∷ r)
  IsShort ((or_op, p) ∷ (and_op, q) ∷ []) = Unit {0}
  IsShort ((or_op, p) ∷ (and_op, q) ∷ (and_op, t) ∷ r) = ⊥
  IsShort ((or_op, p) ∷ (and_op, q) ∷ (or_op, t) ∷ r) = IsShort ((or_op, t) ∷ r)

  fold-after_or :
      (a p : P) (r : List (BinaryOp × P))
      → IsShort ((or_op, p) ∷ r)
      → fold_chain combine a ((or_op, p) ∷ r) ≡ by_precedence (some a) p r
  unfolding fold_chain by_precedence
  fold-after_or a p [] h = refl
  fold-after_or a p ((or_op, q) ∷ r) h = fold-after_or (combine or_op a p) q r h
  fold-after_or a p ((and_op, q) ∷ []) h = refl
  fold-after_or a p ((and_op, q) ∷ (and_op, t) ∷ r) h = absurd h
  fold-after_or a p ((and_op, q) ∷ (or_op, t) ∷ r) h =
      fold-after_or (combine or_op a (combine and_op p q)) t r h

  pub fold-by_precedence :
      (v : P) (r : List (BinaryOp × P))
      → IsShort r
      → fold_chain combine v r ≡ by_precedence none v r
  unfolding fold_chain by_precedence
  fold-by_precedence v [] h = refl
  fold-by_precedence v ((and_op, p) ∷ r) h = fold-by_precedence (combine and_op v p) r h
  fold-by_precedence v ((or_op, p) ∷ r) h = fold-after_or v p r h

  -- On a chain of predicates in which no -or is followed by two -and in a row, the evaluation stack
  -- computes what the documented precedence says: the runs of -and from the left, and then the -or.
  pub evaluate_all-by_precedence :
      (v : P) (r : List (Link × P))
      → IsShort (ops r)
      → evaluate_all combine (push_p v ∷ chain_pushes r)
        ≡ some (predicate (by_precedence none v (ops r)) ∷ [])
  evaluate_all-by_precedence v r h =
      evaluate_all-fold_chain combine v r
      ∙ ap (λ w. some (predicate w ∷ [])) (fold-by_precedence v (ops r) h)

  -- Operands joined by -and, from the left
  abbrev pub and_all : P → List (Link × P) → P
  and_all g [] = g
  and_all g ((k, p) ∷ r) = and_all (combine and_op g p) r

  abbrev pub AreAnd : List (Link × P) → Type 0
  AreAnd [] = Unit {0}
  AreAnd ((k, p) ∷ r) = (link_op k ≡ and_op) × AreAnd r

  fold_chain-and_all :
      (g : P) (r : List (Link × P)) → AreAnd r → fold_chain combine g (ops r) ≡ and_all g r
  unfolding fold_chain
  fold_chain-and_all g [] h = refl
  fold_chain-and_all g ((k, p) ∷ r) (is, h) = rw is (fold_chain-and_all (combine and_op g p) r h)

  by_precedence-and_all :
      (a g : P) (r : List (Link × P))
      → AreAnd r
      → by_precedence (some a) g (ops r) ≡ combine or_op a (and_all g r)
  unfolding by_precedence
  by_precedence-and_all a g [] h = refl
  by_precedence-and_all a g ((k, p) ∷ r) (is, h) =
      rw is (by_precedence-and_all a (combine and_op g p) r h)

  -- Of v, an -or, p, and then operands joined by -and, of which the first is q, the evaluation stack
  -- computes (v -o (p -a q)) joined by -and with all operands after q. The documented precedence says
  -- v -o the whole run of -and from p on.
  pub evaluate_all-and_after_or :
      (v p q : P) (token : String) (k : Link) (r : List (Link × P))
      → link_op k ≡ and_op
      → AreAnd r
      → (evaluate_all combine (push_p v ∷ chain_pushes ((written token or_op, p) ∷ (k, q) ∷ r))
          ≡ some (predicate (and_all (combine or_op v (combine and_op p q)) r) ∷ []))
        × (by_precedence none v (ops ((written token or_op, p) ∷ (k, q) ∷ r))
            ≡ combine or_op v (and_all (combine and_op p q) r))
  unfolding fold_chain by_precedence
  evaluate_all-and_after_or v p q token k r is h = (
    evaluate_all-fold_chain combine v ((written token or_op, p) ∷ (k, q) ∷ r)
        ∙ rw is (
            ap (λ w. some (predicate w ∷ []))
              (fold_chain-and_all (combine or_op v (combine and_op p q)) r h)),
    rw is (by_precedence-and_all v (combine and_op p q) r h),
  )
