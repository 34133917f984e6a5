-- ===== src/Find/Parser/Documented.antt =====
-- The meaning of an expression by the precedence that the comment on Parser in
-- cmd/internal/find/parser/expression/parser.go documents: -and binds tighter than -or.
use wash.Prelude.{
  ℕ, ◌+◌, ◌*◌, ◌<◌, String, ◌≡◌, refl, ap, ap₂, ◌∙◌, Option, none, some, List, [], ◌∷◌, length,
}
use wash.Find.EvalStack.{BinaryOp}
use wash.Find.EvalStack.Folding.{Link, ops, fold_chain}
use wash.Find.EvalStack.Documented.{by_precedence, IsShort, fold-by_precedence}
use wash.Find.Parser.{Parsed, parsed, parse}
use wash.Find.Parser.Reading.{ReadsPrimaries}
use wash.Find.Parser.Reading.Expressions.{parse-print_by_stack}
use wash.Find.Parser.Syntax.{
  joint_link, Atom, leaf, negated, parens, Links, end, more, print_atom, print_links, atom_meaning,
  links_meaning,
}

module _ {A P : Type 0} (combine : BinaryOp → P → P → P) (negate_p : P → P) (meaning : A → P) where
  -- What an atom stands for, and what is joined to the atom in front of links
  unfoldable mutual
    unfolding by_precedence

    pub atom_documented : Atom A → P
    atom_documented (leaf a) = meaning a
    atom_documented (negated bang t) = negate_p (atom_documented t)
    atom_documented (parens t ls) =
        by_precedence combine none (atom_documented t) (ops (links_documented ls))

    pub links_documented : Links A → List (Link × P)
    links_documented end = []
    links_documented (more j t ls) = (joint_link j, atom_documented t) ∷ links_documented ls

  -- In no parentheses, of the atom or of the links, is an -or followed by two -and in a row, written
  -- or left out.
  unfoldable mutual
    unfolding atom_documented links_documented

    pub AtomIsShort : Atom A → Type 0
    AtomIsShort (leaf a) = Unit {0}
    AtomIsShort (negated bang t) = AtomIsShort t
    AtomIsShort (parens t ls) =
        AtomIsShort t × LinksAreShort ls × IsShort combine (ops (links_documented ls))

    pub LinksAreShort : Links A → Type 0
    LinksAreShort end = Unit {0}
    LinksAreShort (more j t ls) = AtomIsShort t × LinksAreShort ls

  mutual
    unfolding atom_documented links_documented AtomIsShort LinksAreShort atom_meaning links_meaning
        by_precedence

    atom_meaning-documented :
        (t : Atom A) → AtomIsShort t → atom_meaning combine negate_p meaning t ≡ atom_documented t
    atom_meaning-documented (leaf a) h = refl
    atom_meaning-documented (negated bang t) h = ap negate_p (atom_meaning-documented t h)
    atom_meaning-documented (parens t ls) (first, others, short) =
        ap₂ (λ v r. fold_chain combine v (ops r)) (atom_meaning-documented t first)
          (links_meaning-documented ls others)
        ∙ fold-by_precedence combine (atom_documented t) (ops (links_documented ls)) short

    links_meaning-documented :
        (ls : Links A)
        → LinksAreShort ls
        → links_meaning combine negate_p meaning ls ≡ links_documented ls
    links_meaning-documented end h = refl
    links_meaning-documented (more j t ls) (first, others) =
        ap₂ (λ v r. (joint_link j, v) ∷ r) (atom_meaning-documented t first)
          (links_meaning-documented ls others)

module _ {A P : Type 0} (combine : BinaryOp → P → P → P) (negate_p : P → P) {name : A → String}
    {arguments : A → List String} {meaning : A → P} {primary : List String → Option (Parsed P)}
    (r : ReadsPrimaries name arguments meaning primary) where
  -- Where the parser of primaries reads each primary from its own tokens, of which the first is no
  -- operator, and rejects operators with a MatchError, and where neither in nor outside parentheses an
  -- -or is followed by two -and in a row, written or left out, Parse reads from the tokens of an
  -- expression, with fuel above twice their number and three, what the expression stands for by the
  -- documented precedence, and leaves no token and no error.
  pub parse-print :
      (t : Atom A) (ls : Links A) (f : ℕ)
      → AtomIsShort combine negate_p meaning t
      → LinksAreShort combine negate_p meaning ls
      → IsShort combine (ops (links_documented combine negate_p meaning ls))
      → 2 * length (print_atom name arguments t (print_links name arguments ls [])) + 3 < f
      → parse combine negate_p primary f 0
          (print_atom name arguments t (print_links name arguments ls []))
        ≡ some (
            parsed
              (by_precedence combine none
                (atom_documented combine negate_p meaning t)
                (ops (links_documented combine negate_p meaning ls)))
              []
              none)
  parse-print t ls f first others short h =
      parse-print_by_stack combine negate_p r t ls f h
      ∙ ap (λ v. some (parsed v [] none))
          (ap₂ (λ v l. fold_chain combine v (ops l))
              (atom_meaning-documented combine negate_p meaning t first)
              (links_meaning-documented combine negate_p meaning ls others)
            ∙ fold-by_precedence combine (atom_documented combine negate_p meaning t)
                (ops (links_documented combine negate_p meaning ls)) short)
