-- ===== src/Find/Parser/Reading.antt =====
-- The parser of cmd/internal/find/parser/expression/parser.go reads what an expression is written with.
pub mod Expressions
use wash.Prelude.{
  ℕ, suc, ◌+◌, ◌*◌, ◌<◌, String, ◌≡◌, refl, ◌∙◌, true, false, Option, none, some, List, [], ◌∷◌,
  ◌++◌, arith, str_eq,
}
use wash.Prelude.Maybe.{◌>>=◌}
use wash.Find.EvalStack.{BinaryOp, and_op, or_op, EvalStack, new_eval_stack, push_predicate}
use wash.Find.EvalStack.Folding.{
  Link, written, left_out, link_op, ops, fold_chain, Pile, single, stack_of, next, steps, value,
  value-steps,
}
use wash.Find.Parser.{
  Parsed, parsed, failed, Looped, Err, match_error, is_op, find_binary_op, or_parse, not_op_parser,
  negate_parsed, parenthesize, close_parens, expect_close, parse_round, after_atom, parse_other,
  parse_atom, parse_loop, parse, finish_parse,
}
use wash.Find.Parser.Piles.{
  opened, push_first, push_opened, push_juxtaposed, parse_binary_op-pile, finish-pile,
}
use wash.Find.Parser.Syntax.{
  Joint, dash_a, dash_and, dash_o, dash_or, juxtaposed, joint_link, link_tokens, Atom, leaf,
  negated, parens, Links, end, more, print_atom, print_links, atom_width, links_width,
  atom_width_pos, length-print, atom_meaning, links_meaning,
}

-- A parser of primaries for the expression parser: it reads each primary that it knows off the front
-- of the tokens, and no operator starts a primary.
pub record ReadsPrimaries {A P : Type 0} (name : A → String) (arguments : A → List String)
    (meaning : A → P) (primary : List String → Option (Parsed P)) : Type 0 where
  pub reads :
      (a : A) (rest : List String)
      → primary (name a ∷ arguments a ++ rest) ≡ some (parsed (meaning a) rest none)
  pub not_op : (a : A) → is_op (name a) ≡ false
  pub rejects :
      (token : String) (tokens : List String)
      → is_op token ≡ true
      → primary (token ∷ tokens) ≡ some (failed [] match_error)

add-two : (f : ℕ) → 2 + f ≡ suc (suc f)
add-two f = omega arith

add-one' : (f : ℕ) → 1 + f ≡ suc f
add-one' f = omega arith

IsPlain : String → Type 0
IsPlain token =
    (str_eq token "!" ≡ false)
    × (str_eq token "-not" ≡ false)
    × (str_eq token "(" ≡ false)
    × (str_eq token ")" ≡ false)

IsPlain-of_op : (token : String) → is_op token ≡ false → IsPlain token
unfolding is_op IsPlain
IsPlain-of_op token h = ground arith

module _ {P : Type 0} (negate_p : P → P) where
  not_op-skip :
      (atom : List String → Option (Parsed P)) (token : String) (tokens : List String)
      → str_eq token "!" ≡ false
      → str_eq token "-not" ≡ false
      → not_op_parser negate_p atom (token ∷ tokens) ≡ some (failed [] match_error)
  unfolding not_op_parser
  not_op-skip atom token [] h g = rw (h, g) refl
  not_op-skip atom token (t ∷ tokens) h g = rw (h, g) refl

  parenthesize-skip :
      (inner : List String → Option (Parsed P)) (token : String) (tokens : List String)
      → str_eq token ")" ≡ false
      → str_eq token "(" ≡ false
      → parenthesize inner (token ∷ tokens) ≡ some (failed [] match_error)
  unfolding parenthesize
  parenthesize-skip inner token tokens h g = rw (h, g) refl

module _ {A P : Type 0} (combine : BinaryOp → P → P → P) (negate_p : P → P) {name : A → String}
    {arguments : A → List String} {meaning : A → P} {primary : List String → Option (Parsed P)}
    (r : ReadsPrimaries name arguments meaning primary) where
  abbrev atom_of : ℕ → ℕ → List String → Option (Parsed P)
  atom_of = parse_atom combine negate_p primary

  abbrev loop_of : ℕ → ℕ → List String → EvalStack P → Option (Looped P)
  loop_of = parse_loop combine negate_p primary

  abbrev means : Atom A → P
  means = atom_meaning combine negate_p meaning

  abbrev link_means : Links A → List (Link × P)
  link_means = links_meaning combine negate_p meaning

  abbrev tokens_of : Atom A → List String → List String
  tokens_of = print_atom name arguments

  abbrev width_of : Atom A → ℕ
  width_of = atom_width name arguments

  abbrev link_tokens_of : Links A → List String → List String
  link_tokens_of = print_links name arguments

  -- A token that starts no atom
  atom_of-skip :
      (f open_parens : ℕ) (token : String) (tokens : List String)
      → IsPlain token
      → atom_of (suc f) open_parens (token ∷ tokens)
        ≡ or_parse (primary (token ∷ tokens)) (λ _. some (failed [] match_error))
  unfolding parse_atom or_parse IsPlain
  atom_of-skip f open_parens token tokens (a, b, c, d) =
      rw
        (
          not_op-skip negate_p (atom_of f open_parens) token tokens a b,
          parenthesize-skip negate_p (parse combine negate_p primary f (suc open_parens)) token
              tokens d c,
        )
        refl

  -- An atom starts with a token that does not close a parenthesis.
  starts :
      (t : Atom A) (rest : List String)
      → (token : String) × (tokens : List String) × (tokens_of t rest ≡ token ∷ tokens)
        × (str_eq token ")" ≡ false)
  unfolding print_atom IsPlain
  starts (leaf a) rest =
      (name a, arguments a ++ rest, refl, (IsPlain-of_op (name a) (r.not_op a)).3)
  starts (negated true t) rest = ("!", tokens_of t rest, refl, refl)
  starts (negated false t) rest = ("-not", tokens_of t rest, refl, refl)
  starts (parens t ls) rest = ("(", tokens_of t (link_tokens_of ls (")" ∷ rest)), refl, refl)

  -- A round of the loop that reads an atom
  loop_of-atom :
      (f open_parens : ℕ) (t : Atom A) (rest : List String) (s s' : EvalStack P)
      → atom_of f open_parens (tokens_of t rest) ≡ some (parsed (means t) rest none)
      → push_predicate combine (means t) s ≡ some s'
      → loop_of (suc f) open_parens (tokens_of t rest) s ≡ loop_of f open_parens rest s'
  unfolding parse_loop parse_round after_atom
  loop_of-atom f open_parens t rest s s' reads pushed =
      let (token, tokens, e, plain) = starts t rest in
      let reads' : atom_of f open_parens (token ∷ tokens) ≡ some (parsed (means t) rest none) =
        rw (← e) reads in
      rw (e, plain, reads', pushed) refl

  loop_of-step :
      (f open_parens : ℕ) (tokens : List String) (s : EvalStack P)
      → loop_of (suc f) open_parens tokens s
        ≡ parse_round combine (atom_of f open_parens) (loop_of f open_parens) open_parens tokens s
  unfolding parse_loop
  loop_of-step f open_parens tokens s = refl

  atom_of-operator :
      (f open_parens : ℕ) (token : String) (tokens : List String)
      → IsPlain token
      → is_op token ≡ true
      → atom_of (suc f) open_parens (token ∷ tokens) ≡ some (failed [] match_error)
  unfolding or_parse
  atom_of-operator f open_parens token tokens plain is =
      atom_of-skip f open_parens token tokens plain ∙ rw (r.rejects token tokens is) refl

  round-operator :
      (atom : List String → Option (Parsed P))
      (again : List String → EvalStack P → Option (Looped P)) (open_parens : ℕ) (token : String)
      (tokens : List String) (b : BinaryOp) (l : Pile combine) (old : String)
      → str_eq token ")" ≡ false
      → atom (token ∷ tokens) ≡ some (failed [] match_error)
      → find_binary_op token ≡ some b
      → parse_round combine atom again open_parens (token ∷ tokens) (stack_of combine l old)
        ≡ again tokens (opened combine b l token)
  unfolding parse_round after_atom
  round-operator atom again open_parens token tokens b l old closed fails found =
      rw (closed, fails, parse_other, found)
        (parse_binary_op-pile combine again token tokens b l old)

  -- A round of the loop that reads an operator after a predicate
  loop_of-operator :
      (f open_parens : ℕ) (token : String) (tokens : List String) (b : BinaryOp) (l : Pile combine)
      (old : String)
      → IsPlain token
      → is_op token ≡ true
      → find_binary_op token ≡ some b
      → loop_of (suc (suc f)) open_parens (token ∷ tokens) (stack_of combine l old)
        ≡ loop_of (suc f) open_parens tokens (opened combine b l token)
  unfolding IsPlain
  loop_of-operator f open_parens token tokens b l old plain is found =
      loop_of-step (suc f) open_parens (token ∷ tokens) (stack_of combine l old)
      ∙ round-operator (atom_of (suc f) open_parens) (loop_of (suc f) open_parens) open_parens token
          tokens b l old plain.3 (atom_of-operator f open_parens token tokens plain is) found

  AtomReads : Atom A → List String → Type 0
  AtomReads t rest =
      (f open_parens : ℕ)
      → 2 * width_of t < f
      → atom_of f open_parens (tokens_of t rest) ≡ some (parsed (means t) rest none)

  loop_of-written :
      (f open_parens : ℕ) (token : String) (b : BinaryOp) (t : Atom A) (rest : List String)
      (l : Pile combine) (old : String)
      → IsPlain token
      → is_op token ≡ true
      → find_binary_op token ≡ some b
      → AtomReads t rest
      → 2 * width_of t < f
      → loop_of (suc (suc f)) open_parens (token ∷ tokens_of t rest) (stack_of combine l old)
        ≡ loop_of f open_parens rest (stack_of combine (next combine b (means t) l) token)
  unfolding AtomReads
  loop_of-written f open_parens token b t rest l old plain is found reads h =
      loop_of-operator f open_parens token (tokens_of t rest) b l old plain is found
      ∙ loop_of-atom f open_parens t rest (opened combine b l token) _ (reads f open_parens h)
          (push_opened combine b l token (means t))

  -- How many rounds a joint and its atom take
  abbrev rounds : Link → ℕ
  rounds (written token b) = 2
  rounds left_out = 1

  -- The rounds of the loop that read a joint and an atom
  loop_of-joint :
      (f open_parens : ℕ) (j : Joint) (t : Atom A) (rest : List String) (l : Pile combine)
      (old : String)
      → AtomReads t rest
      → 2 * width_of t < f
      → (last : String) × (loop_of
            (rounds (joint_link j) + f)
            open_parens
            (link_tokens (joint_link j) ++ tokens_of t rest)
            (stack_of combine l old)
          ≡ loop_of f open_parens rest
              (stack_of combine (next combine (link_op (joint_link j)) (means t) l) last))
  unfolding find_binary_op is_op IsPlain
  loop_of-joint f open_parens dash_a t rest l old reads h = (
    "-a",
    rw (add-two f) (
        loop_of-written f open_parens "-a" and_op t rest l old (refl, refl, refl, refl) refl refl
          reads h),
  )
  loop_of-joint f open_parens dash_and t rest l old reads h = (
    "-and",
    rw (add-two f) (
        loop_of-written f open_parens "-and" and_op t rest l old (refl, refl, refl, refl) refl refl
          reads h),
  )
  loop_of-joint f open_parens dash_o t rest l old reads h = (
    "-o",
    rw (add-two f) (
        loop_of-written f open_parens "-o" or_op t rest l old (refl, refl, refl, refl) refl refl
          reads h),
  )
  loop_of-joint f open_parens dash_or t rest l old reads h = (
    "-or",
    rw (add-two f) (
        loop_of-written f open_parens "-or" or_op t rest l old (refl, refl, refl, refl) refl refl
          reads h),
  )
  loop_of-joint f open_parens juxtaposed t rest l old reads h = (
    "-a",
    rw (add-one' f) (
        loop_of-atom f open_parens t rest (stack_of combine l old) _
          (unfold AtomReads in reads f open_parens h) (push_juxtaposed combine l old (means t))),
  )
