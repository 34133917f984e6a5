-- ===== src/Find/EvalStack/Folding.antt =====
-- What evalStack (cmd/internal/find/parser/expression/parser.go) makes of a chain of predicates: a
-- fold from the left in which an -and that follows an -or binds its two predicates first.
use wash.Prelude.{String, ◌≡◌, refl, ap, ◌∙◌, Option, none, some, List, [], ◌∷◌, ◌++◌}
use wash.Find.EvalStack.{
  BinaryOp, and_op, or_op, Item, predicate, operator, EvalStack, Push, push_p, push_op,
  evaluate_from, evaluate, must_evaluate, push_binary_op, push_predicate, push, push_all,
  evaluate_all,
}

-- An operator between two predicates: written with its token, or left out for -and
pub data Link : Type 0 where
  written : String → BinaryOp → Link
  left_out : Link

abbrev pub link_op : Link → BinaryOp
link_op (written token b) = b
link_op left_out = and_op

module _ {P : Type 0} where
  abbrev pub link_pushes : Link → P → List (Push P)
  link_pushes (written token b) p = push_op token b ∷ push_p p ∷ []
  link_pushes left_out p = push_p p ∷ []

  abbrev pub chain_pushes : List (Link × P) → List (Push P)
  chain_pushes [] = []
  chain_pushes ((l, p) ∷ r) = link_pushes l p ++ chain_pushes r

  abbrev pub ops : List (Link × P) → List (BinaryOp × P)
  ops [] = []
  ops ((l, p) ∷ r) = (link_op l, p) ∷ ops r

module _ {P : Type 0} (combine : BinaryOp → P → P → P) where
  unfoldable pub fold_chain : P → List (BinaryOp × P) → P
  fold_chain v [] = v
  fold_chain v ((and_op, p) ∷ r) = fold_chain (combine and_op v p) r
  fold_chain v ((or_op, p) ∷ []) = combine or_op v p
  fold_chain v ((or_op, p) ∷ (or_op, q) ∷ r) = fold_chain (combine or_op v p) ((or_op, q) ∷ r)
  fold_chain v ((or_op, p) ∷ (and_op, q) ∷ r) = fold_chain (combine or_op v (combine and_op p q)) r

  -- The stacks with a predicate on top
  pub data Pile : Type 0 where
    single : P → Pile
    pair : BinaryOp → P → P → Pile
    triple : P → P → P → Pile

  abbrev pub layout_items : Pile → List (Item P)
  layout_items (single v) = predicate v ∷ []
  layout_items (pair b v p) = predicate p ∷ operator b ∷ predicate v ∷ []
  layout_items (triple v p q) =
      predicate q ∷ operator and_op ∷ predicate p ∷ operator or_op ∷ predicate v ∷ []

  abbrev pub layout_op : Pile → Option BinaryOp
  layout_op (single v) = none
  layout_op (pair b v p) = some b
  layout_op (triple v p q) = some and_op

  abbrev pub value : Pile → P
  value (single v) = v
  value (pair b v p) = combine b v p
  value (triple v p q) = combine or_op v (combine and_op p q)

  abbrev pub next : BinaryOp → P → Pile → Pile
  next b p (single v) = pair b v p
  next b q (pair and_op v p) = pair b (combine and_op v p) q
  next or_op q (pair or_op v p) = pair or_op (combine or_op v p) q
  next and_op q (pair or_op v p) = triple v p q
  next b r (triple v p q) = pair b (combine or_op v (combine and_op p q)) r

  abbrev pub steps : List (BinaryOp × P) → Pile → Pile
  steps [] l = l
  steps ((b, p) ∷ r) l = steps r (next b p l)

  abbrev pub stack_of : Pile → String → EvalStack P
  stack_of l token = record {
    items = layout_items l;
    most_recent_op = layout_op l;
    most_recent_op_token = token;
  }

  abbrev link_token : Link → String
  link_token (written token b) = token
  link_token left_out = "-a"

  push_link :
      (k : Link) (p : P) (l : Pile) (token : String) (xs : List (Push P))
      → push_all combine (link_pushes k p ++ xs) (stack_of l token)
        ≡ push_all combine xs (stack_of (next (link_op k) p l) (link_token k))
  unfolding push_all push push_predicate push_binary_op evaluate evaluate_from must_evaluate
  push_link (written token b) p (single v) old xs = refl
  push_link (written token and_op) q (pair and_op v p) old xs = refl
  push_link (written token or_op) q (pair and_op v p) old xs = refl
  push_link (written token or_op) q (pair or_op v p) old xs = refl
  push_link (written token and_op) q (pair or_op v p) old xs = refl
  push_link (written token and_op) r (triple v p q) old xs = refl
  push_link (written token or_op) r (triple v p q) old xs = refl
  push_link left_out p (single v) old xs = refl
  push_link left_out q (pair and_op v p) old xs = refl
  push_link left_out q (pair or_op v p) old xs = refl
  push_link left_out r (triple v p q) old xs = refl

  pub push_chain :
      (r : List (Link × P)) (l : Pile) (token : String)
      → (last : String) × (push_all combine (chain_pushes r) (stack_of l token)
          ≡ some (stack_of (steps (ops r) l) last))
  push_chain [] l token = (token, unfold push_all in refl)
  push_chain ((k, p) ∷ r) l token =
      let (last, e) = push_chain r (next (link_op k) p l) (link_token k) in
      (last, push_link k p l token (chain_pushes r) ∙ e)

  pub evaluate-layout :
      (l : Pile) → evaluate combine (layout_items l) ≡ some (predicate (value l) ∷ [])
  unfolding evaluate evaluate_from
  evaluate-layout (single v) = refl
  evaluate-layout (pair b v p) = refl
  evaluate-layout (triple v p q) = refl

  -- A pair under -and and a triple go on as their value does.
  pub value-steps : (v : P) (r : List (BinaryOp × P)) → value (steps r (single v)) ≡ fold_chain v r
  unfolding fold_chain
  value-steps v [] = refl
  value-steps v ((and_op, p) ∷ []) = refl
  value-steps v ((and_op, p) ∷ (b, q) ∷ r) = value-steps (combine and_op v p) ((b, q) ∷ r)
  value-steps v ((or_op, p) ∷ []) = refl
  value-steps v ((or_op, p) ∷ (or_op, q) ∷ r) = value-steps (combine or_op v p) ((or_op, q) ∷ r)
  value-steps v ((or_op, p) ∷ (and_op, q) ∷ []) = refl
  value-steps v ((or_op, p) ∷ (and_op, q) ∷ (b, t) ∷ r) =
      value-steps (combine or_op v (combine and_op p q)) ((b, t) ∷ r)

  -- On every chain of predicates the evaluation stack computes fold_chain.
  pub evaluate_all-fold_chain :
      (v : P) (r : List (Link × P))
      → evaluate_all combine (push_p v ∷ chain_pushes r)
        ≡ some (predicate (fold_chain v (ops r)) ∷ [])
  unfolding evaluate_all push_all push push_predicate
  evaluate_all-fold_chain v r =
      let (last, e) = push_chain r (single v) "" in
      rw e (
        evaluate-layout (steps (ops r) (single v))
        ∙ ap (λ w. some (predicate w ∷ [])) (value-steps v (ops r)))
