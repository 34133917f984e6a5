-- ===== src/Find/EvalStack/Layout.antt =====
-- The layout "p (<op> p)*" of evalStack (cmd/internal/find/parser/expression/parser.go).
use wash.Prelude.{String, ◌≡◌, refl, inl, inr, Bool, true, false, some, List, [], ◌∷◌, Bool-cases}
use wash.Find.EvalStack.{
  BinaryOp, and_op, Item, predicate, operator, EvalStack, new_eval_stack, Push, push_p, push_op,
  evaluate_from, evaluate, must_evaluate, push_binary_op, is_predicate, push_predicate, push,
  push_all, evaluate_all,
}

module _ {P : Type 0} where
  -- A sequence of pushes that is an expression, if a predicate has to come next or not.
  abbrev pub IsExpression : Bool → List (Push P) → Type 0
  IsExpression true [] = ⊥
  IsExpression true (push_p p ∷ xs) = IsExpression false xs
  IsExpression true (push_op token b ∷ xs) = ⊥
  IsExpression false [] = Unit {0}
  IsExpression false (push_p p ∷ xs) = IsExpression false xs
  IsExpression false (push_op token b ∷ xs) = IsExpression true xs

  abbrev IsLayout : List (Item P) → Type 0
  IsLayout [] = ⊥
  IsLayout (operator b ∷ items) = ⊥
  IsLayout (predicate p ∷ []) = Unit {0}
  IsLayout (predicate p ∷ predicate q ∷ items) = ⊥
  IsLayout (predicate p ∷ operator b ∷ items) = IsLayout items

  -- The stack when a predicate has to come next.
  abbrev IsOpen : List (Item P) → Type 0
  IsOpen [] = Unit {0}
  IsOpen (operator b ∷ items) = IsLayout items
  IsOpen (predicate p ∷ items) = ⊥

  abbrev Fits : Bool → List (Item P) → Type 0
  Fits true items = IsOpen items
  Fits false items = IsLayout items

module _ {P : Type 0} (combine : BinaryOp → P → P → P) where
  evaluate_from-IsLayout :
      (p : P) (items : List (Item P))
      → IsLayout (predicate p ∷ items)
      → (q : P) × (evaluate_from combine p items ≡ some (predicate q ∷ []))
  unfolding evaluate_from
  evaluate_from-IsLayout p [] l = (p, refl)
  evaluate_from-IsLayout p (predicate q ∷ items) l = absurd l
  evaluate_from-IsLayout p (operator b ∷ []) l = absurd l
  evaluate_from-IsLayout p (operator b ∷ operator c ∷ items) l = absurd l
  evaluate_from-IsLayout p (operator b ∷ predicate q ∷ []) l = (combine b q p, refl)
  evaluate_from-IsLayout p (operator b ∷ predicate q ∷ predicate r ∷ items) l = absurd l
  evaluate_from-IsLayout p (operator b ∷ predicate q ∷ operator c ∷ items) l =
      evaluate_from-IsLayout (combine b q p) (operator c ∷ items) l

  evaluate-IsLayout :
      (items : List (Item P))
      → IsLayout items
      → (q : P) × (evaluate combine items ≡ some (predicate q ∷ []))
  unfolding evaluate
  evaluate-IsLayout [] l = absurd l
  evaluate-IsLayout (operator b ∷ items) l = absurd l
  evaluate-IsLayout (predicate p ∷ items) l = evaluate_from-IsLayout p items l

  push_binary_op-IsOpen :
      (token : String) (b : BinaryOp) (s : EvalStack P)
      → IsLayout s.items
      → (t : EvalStack P) × (push_binary_op combine token b s ≡ some t)
        × IsOpen t.items
        × (is_predicate combine t.items ≡ false)
  unfolding push_binary_op
  push_binary_op-IsOpen token b s l = elim (Bool-cases (must_evaluate combine b s.most_recent_op)) [
    | inr keep ↦ (
      record {
        items = operator b ∷ s.items;
        most_recent_op = some b;
        most_recent_op_token = token;
      },
      rw keep refl,
      l,
      refl,
    )
    | inl must ↦
        let (q, e) = evaluate-IsLayout s.items l in
        (
          record {
            items = operator b ∷ predicate q ∷ [];
            most_recent_op = some b;
            most_recent_op_token = token;
          },
          rw (must, e) refl,
          tt,
          refl,
        )
  ]

  push_on-IsOpen : (p : P) (items : List (Item P)) → IsOpen items → IsLayout (predicate p ∷ items)
  push_on-IsOpen p [] o = tt
  push_on-IsOpen p (operator b ∷ items) o = o
  push_on-IsOpen p (predicate q ∷ items) o = absurd o

  IsOpen-is_predicate : (items : List (Item P)) → IsOpen items → is_predicate combine items ≡ false
  IsOpen-is_predicate [] o = refl
  IsOpen-is_predicate (operator b ∷ items) o = refl
  IsOpen-is_predicate (predicate q ∷ items) o = absurd o

  IsLayout-is_predicate :
      (items : List (Item P)) → IsLayout items → is_predicate combine items ≡ true
  IsLayout-is_predicate [] l = absurd l
  IsLayout-is_predicate (operator b ∷ items) l = absurd l
  IsLayout-is_predicate (predicate q ∷ items) l = refl

  push_predicate-IsLayout :
      (p : P) (next : Bool) (s : EvalStack P)
      → Fits next s.items
      → (t : EvalStack P) × (push_predicate combine p s ≡ some t) × IsLayout t.items
  unfolding push_predicate
  push_predicate-IsLayout p true s o = (
    record s { items = predicate p ∷ s.items },
    rw (IsOpen-is_predicate s.items o) refl,
    push_on-IsOpen p s.items o,
  )
  push_predicate-IsLayout p false s l =
      let (t, e, o, n) = push_binary_op-IsOpen "-a" and_op s l in
      (
        record t { items = predicate p ∷ t.items },
        rw (IsLayout-is_predicate s.items l, e) refl,
        push_on-IsOpen p t.items o,
      )

  push_all-IsLayout :
      (xs : List (Push P)) (next : Bool) (s : EvalStack P)
      → IsExpression next xs
      → Fits next s.items
      → (t : EvalStack P) × (push_all combine xs s ≡ some t) × IsLayout t.items
  unfolding push_all push
  push_all-IsLayout [] true s x f = absurd x
  push_all-IsLayout [] false s x f = (s, refl, f)
  push_all-IsLayout (push_p p ∷ xs) true s x f =
      let (t, e, l) = push_predicate-IsLayout p true s f in
      let (u, g, m) = push_all-IsLayout xs false t x l in (u, rw e g, m)
  push_all-IsLayout (push_p p ∷ xs) false s x f =
      let (t, e, l) = push_predicate-IsLayout p false s f in
      let (u, g, m) = push_all-IsLayout xs false t x l in (u, rw e g, m)
  push_all-IsLayout (push_op token b ∷ xs) true s x f = absurd x
  push_all-IsLayout (push_op token b ∷ xs) false s x f =
      let (t, e, o, n) = push_binary_op-IsOpen token b s f in
      let (u, g, m) = push_all-IsLayout xs true t x o in (u, rw e g, m)

  -- Pushing an expression, predicates with an operator or nothing between each two, and evaluating
  -- leaves a single predicate, without a panic.
  pub evaluate_all_lem :
      (xs : List (Push P))
      → IsExpression true xs
      → (q : P) × (evaluate_all combine xs ≡ some (predicate q ∷ []))
  unfolding evaluate_all
  evaluate_all_lem xs x =
      let (t, e, l) = push_all-IsLayout xs true new_eval_stack x tt in
      let (q, g) = evaluate-IsLayout t.items l in (q, rw e g)
