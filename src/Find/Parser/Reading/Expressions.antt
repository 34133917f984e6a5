-- ===== src/Find/Parser/Reading/Expressions.antt =====
-- What Parse reads from the tokens of an expression, in cmd/internal/find/parser/expression/parser.go.
use wash.Prelude.{
  ℕ, zero, suc, ◌+◌, ◌-◌, ◌*◌, ◌≤◌, ◌<◌, String, ◌≡◌, refl, ap, ◌∙◌, ◌⊎◌, inl, inr, true, false,
  Option, none, some, List, [], ◌∷◌, ◌++◌, arith, str_eq, length,
}
use wash.Find.EvalStack.{BinaryOp, EvalStack, new_eval_stack}
use wash.Find.EvalStack.Folding.{
  Link, written, left_out, link_op, ops, fold_chain, Pile, single, stack_of, next, steps,
  value-steps,
}
use wash.Find.Parser.{
  Parsed, parsed, or_parse, not_op_parser, negate_parsed, parenthesize, close_parens, expect_close,
  parse_round, parse_atom, parse_loop, parse,
}
use wash.Find.Parser.Piles.{push_first, finish-pile}
use wash.Find.Parser.Reading.{
  ReadsPrimaries, IsPlain-of_op, not_op-skip, atom_of, loop_of, means, link_means, tokens_of,
  link_tokens_of, width_of, starts, atom_of-skip, AtomReads, loop_of-atom, loop_of-joint, rounds,
}
use wash.Find.Parser.Syntax.{
  Joint, joint_link, link_tokens, Atom, leaf, negated, parens, Links, end, more, print_atom,
  print_links, atom_width, links_width, atom_width_pos, length-print, atom_meaning, links_meaning,
}

module _ {A P : Type 0} (combine : BinaryOp → P → P → P) (negate_p : P → P) {name : A → String}
    {arguments : A → List String} {meaning : A → P} {primary : List String → Option (Parsed P)}
    (r : ReadsPrimaries name arguments meaning primary) where
  abbrev parse_of : ℕ → ℕ → List String → Option (Parsed P)
  parse_of = parse combine negate_p primary

  abbrev links_width_of : Links A → ℕ
  links_width_of = links_width name arguments

  -- Where Parse stops: at the end, or at the parenthesis that closes
  abbrev Stops : ℕ → List String → Type 0
  Stops open_parens [] = Unit {0}
  Stops open_parens (token ∷ rest) = (str_eq token ")" ≡ true) × (1 ≤ open_parens)

  abbrev steps_of : Links A → Pile combine → Pile combine
  steps_of ls l = steps combine (ops (link_means combine negate_p r ls)) l

  LinksRead : Links A → List String → Type 0
  LinksRead ls rest =
      (f open_parens : ℕ) (l : Pile combine) (old : String)
      → 2 * links_width_of ls + 1 < f
      → (f' : ℕ) × (last : String) × (f ≤ f' + links_width_of ls)
        × (loop_of combine negate_p r f open_parens (link_tokens_of combine negate_p r ls rest)
              (stack_of combine l old)
            ≡ loop_of combine negate_p r f' open_parens rest
                (stack_of combine (steps_of ls l) last))

  loop_of-stop :
      (f open_parens : ℕ) (rest : List String) (s : EvalStack P)
      → 1 ≤ f
      → Stops open_parens rest
      → loop_of combine negate_p r f open_parens rest s
        ≡ some (record { stack = s; tokens = rest; error = none })
  unfolding parse_loop parse_round
  loop_of-stop zero open_parens rest s h stops = absurd (omega arith)
  loop_of-stop (suc f) open_parens [] s h stops = refl
  loop_of-stop (suc f) zero (token ∷ rest) s h stops = absurd (omega arith)
  loop_of-stop (suc f) (suc open_parens) (token ∷ rest) s h (closes, inside) =
      rw closes (ground arith)

  chain_means : Atom A → Links A → P
  chain_means t ls =
      fold_chain combine (means combine negate_p r t) (ops (link_means combine negate_p r ls))

  -- Parse reads an atom and links.
  parse_chain :
      (t : Atom A) (ls : Links A) (rest : List String) (f open_parens : ℕ)
      → AtomReads combine negate_p r t (link_tokens_of combine negate_p r ls rest)
      → LinksRead ls rest
      → Stops open_parens rest
      → 2 * (width_of combine negate_p r t + links_width_of ls) + 3 < f
      → parse_of f open_parens
          (tokens_of combine negate_p r t (link_tokens_of combine negate_p r ls rest))
        ≡ some (parsed (chain_means t ls) rest none)
  unfolding AtomReads LinksRead chain_means parse
  parse_chain t ls rest zero open_parens reads links_read stops h = absurd (omega arith)
  parse_chain t ls rest (suc zero) open_parens reads links_read stops h = absurd (omega arith)
  parse_chain t ls rest (suc (suc f)) open_parens reads links_read stops h =
      let v = means combine negate_p r t in
      let first =
        loop_of-atom combine negate_p r f open_parens t (link_tokens_of combine negate_p r ls rest)
          new_eval_stack _ (reads f open_parens (omega arith)) (push_first combine v) in
      let (f', last, less, e) = links_read f open_parens (single v) "" (omega arith) in
      let stop =
        loop_of-stop f' open_parens rest (stack_of combine (steps_of ls (single v)) last)
          (omega arith) stops in
      rw (first ∙ e ∙ stop) (
        finish-pile combine open_parens (steps_of ls (single v)) last rest
        ∙ ap (λ w. some (parsed w rest none))
            (value-steps combine v (ops (link_means combine negate_p r ls))))

  rounds-length : (k : Link) → rounds combine negate_p r k ≡ suc (length (link_tokens k))
  rounds-length (written token b) = omega arith
  rounds-length left_out = omega arith

  -- One more joint and atom
  LinksRead-more :
      (j : Joint) (t : Atom A) (ls : Links A) (rest : List String)
      → AtomReads combine negate_p r t (link_tokens_of combine negate_p r ls rest)
      → LinksRead ls rest
      → LinksRead (more j t ls) rest
  unfolding AtomReads LinksRead print_links links_meaning links_width
  LinksRead-more j t ls rest reads links_read f open_parens l old h =
      let k = joint_link j in
      let wide = atom_width_pos name arguments t in
      let count = rounds-length k in
      let g : ℕ = f - rounds combine negate_p r k in
      let e : f ≡ rounds combine negate_p r k + g = omega arith in
      let (mid, joint) =
        loop_of-joint combine negate_p r g open_parens j t
          (link_tokens_of combine negate_p r ls rest) l old reads (omega arith) in
      let (f', last, less, tail) =
        links_read g open_parens (next combine (link_op k) (means combine negate_p r t) l) mid
          (omega arith) in
      (
        f',
        last,
        omega arith,
        ap
              (λ n.
                loop_of combine negate_p r n open_parens
                  (link_tokens k
                    ++ tokens_of combine negate_p r t (link_tokens_of combine negate_p r ls rest))
                  (stack_of combine l old))
              e
            ∙ joint
            ∙ tail,
      )

  negated-reads :
      (token : String) (t : Atom A) (rest : List String)
      → (str_eq token "!" ≡ true) ⊎ (str_eq token "-not" ≡ true)
      → AtomReads combine negate_p r t rest
      → (f open_parens : ℕ) → 2 * suc (width_of combine negate_p r t) < f
      → atom_of combine negate_p r f open_parens (token ∷ tokens_of combine negate_p r t rest)
        ≡ some (parsed (negate_p (means combine negate_p r t)) rest none)
  unfolding AtomReads parse_atom or_parse not_op_parser negate_parsed
  negated-reads token t rest bang reads zero open_parens h = absurd (omega arith)
  negated-reads token t rest bang reads (suc f) open_parens h =
      let (first, tokens, e, opens) = starts combine negate_p r t rest in
      let reads' : atom_of combine negate_p r f open_parens (first ∷ tokens)
          ≡ some (parsed (means combine negate_p r t) rest none) =
        rw (← e) (reads f open_parens (omega arith)) in
      elim bang [
        | inl b ↦ rw (e, b, opens, reads') refl
        | inr b ↦ rw (e, b, opens, reads') (ground arith)
      ]

  mutual
    unfolding AtomReads LinksRead print_atom print_links atom_meaning links_meaning atom_width
        links_width chain_means parse_atom or_parse parenthesize close_parens expect_close

    atom-reads : (t : Atom A) (rest : List String) → AtomReads combine negate_p r t rest
    atom-reads (leaf a) rest zero open_parens h = absurd (omega arith)
    atom-reads (leaf a) rest (suc f) open_parens h =
        atom_of-skip combine negate_p r f open_parens (name a) (arguments a ++ rest)
          (IsPlain-of_op (name a) (r.not_op a))
        ∙ rw (r.reads a rest) refl
    atom-reads (negated true t) rest f open_parens h =
        negated-reads "!" t rest (inl refl) (atom-reads t rest) f open_parens (omega arith)
    atom-reads (negated false t) rest f open_parens h =
        negated-reads "-not" t rest (inr refl) (atom-reads t rest) f open_parens (omega arith)
    atom-reads (parens t ls) rest zero open_parens h = absurd (omega arith)
    atom-reads (parens t ls) rest (suc f) open_parens h =
        rw
          (
            not_op-skip negate_p (atom_of combine negate_p r f open_parens) "("
                (print_atom name arguments t (print_links name arguments ls (")" ∷ rest))) refl
                refl,
            parse_chain t ls (")" ∷ rest) f (suc open_parens) (atom-reads t _) (links-read ls _)
                (refl, omega arith) (omega arith),
          )
          refl

    links-read : (ls : Links A) (rest : List String) → LinksRead ls rest
    links-read end rest f open_parens l old h = (f, old, omega arith, refl)
    links-read (more j t ls) rest f open_parens l old h =
        LinksRead-more j t ls rest (atom-reads t _) (links-read ls rest) f open_parens l old h

  -- Parse reads from the tokens of an expression, with fuel above twice their number and three, what
  -- the evaluation stack makes of the expression, and leaves no token and no error.
  pub parse-print_by_stack :
      (t : Atom A) (ls : Links A) (f : ℕ)
      → 2 * length (print_atom name arguments t (print_links name arguments ls [])) + 3 < f
      → parse combine negate_p primary f 0
          (print_atom name arguments t (print_links name arguments ls []))
        ≡ some (
            parsed
              (fold_chain combine
                (atom_meaning combine negate_p meaning t)
                (ops (links_meaning combine negate_p meaning ls)))
              []
              none)
  unfolding chain_means
  parse-print_by_stack t ls f h =
      parse_chain t ls [] f 0 (atom-reads t _) (links-read ls []) tt
        (omega (arith, length-print name arguments t ls []))
