-- ===== src/Find/Parser/Syntax.antt =====
-- The grammar of cmd/internal/find/parser/expression/parser.go: expressions as trees, the tokens
-- that they are written with, and what they mean by the order in which the parser evaluates.
use wash.Prelude.{
  ℕ, suc, ◌+◌, ◌≤◌, String, ◌≡◌, Bool, List, [], ◌∷◌, ◌++◌, arith, if◌then◌else◌, length,
  length-append,
}
use wash.Find.EvalStack.{BinaryOp, and_op, or_op}
use wash.Find.EvalStack.Folding.{Link, written, left_out, ops, fold_chain}

-- How two atoms are joined
pub data Joint : Type 0 where
  dash_a dash_and dash_o dash_or juxtaposed : Joint

abbrev pub joint_link : Joint → Link
joint_link dash_a = written "-a" and_op
joint_link dash_and = written "-and" and_op
joint_link dash_o = written "-o" or_op
joint_link dash_or = written "-or" or_op
joint_link juxtaposed = left_out

abbrev pub link_tokens : Link → List String
link_tokens (written token b) = token ∷ []
link_tokens left_out = []

-- `negated true` is written "!", `negated false` "-not".
mutual
  pub data Atom (A : Type 0) : Type 0 where
    leaf : A → Atom A
    negated : Bool → Atom A → Atom A
    parens : Atom A → Links A → Atom A

  pub data Links (A : Type 0) : Type 0 where
    end : Links A
    more : Joint → Atom A → Links A → Links A

-- The tokens of an atom and of links, in front of a rest. A primary is written with a first token and
-- arguments.
module _ {A : Type 0} (name : A → String) (arguments : A → List String) where
  unfoldable mutual
    pub print_atom : Atom A → List String → List String
    print_atom (leaf a) rest = name a ∷ arguments a ++ rest
    print_atom (negated bang t) rest = (if bang then "!" else "-not") ∷ print_atom t rest
    print_atom (parens t ls) rest = "(" ∷ print_atom t (print_links ls (")" ∷ rest))

    pub print_links : Links A → List String → List String
    print_links end rest = rest
    print_links (more j t ls) rest =
        link_tokens (joint_link j) ++ print_atom t (print_links ls rest)

  -- How many tokens that are
  unfoldable mutual
    pub atom_width : Atom A → ℕ
    atom_width (leaf a) = suc (length (arguments a))
    atom_width (negated bang t) = suc (atom_width t)
    atom_width (parens t ls) = suc (suc (atom_width t + links_width ls))

    pub links_width : Links A → ℕ
    links_width end = 0
    links_width (more j t ls) = length (link_tokens (joint_link j)) + atom_width t + links_width ls

  mutual
    unfolding print_atom print_links atom_width links_width

    length-atom :
        (t : Atom A) (rest : List String) → length (print_atom t rest) ≡ atom_width t + length rest
    length-atom (leaf a) rest = omega (arith, length-append (arguments a) rest)
    length-atom (negated bang t) rest = omega (arith, length-atom t rest)
    length-atom (parens t ls) rest =
        omega (arith, length-atom t (print_links ls (")" ∷ rest)), length-links ls (")" ∷ rest))

    length-links :
        (ls : Links A) (rest : List String)
        → length (print_links ls rest) ≡ links_width ls + length rest
    length-links end rest = omega arith
    length-links (more j t ls) rest = omega (
      arith,
      length-append (link_tokens (joint_link j)) (print_atom t (print_links ls rest)),
      length-atom t (print_links ls rest),
      length-links ls rest,
    )

  pub length-print :
      (t : Atom A) (ls : Links A) (rest : List String)
      → length (print_atom t (print_links ls rest)) ≡ atom_width t + links_width ls + length rest
  length-print t ls rest = omega (arith, length-atom t (print_links ls rest), length-links ls rest)

  pub atom_width_pos : (t : Atom A) → 1 ≤ atom_width t
  unfolding atom_width
  atom_width_pos (leaf a) = omega arith
  atom_width_pos (negated bang t) = omega arith
  atom_width_pos (parens t ls) = omega arith

module _ {A P : Type 0} (combine : BinaryOp → P → P → P) (negate_p : P → P) (meaning : A → P) where
  unfoldable mutual
    pub atom_meaning : Atom A → P
    atom_meaning (leaf a) = meaning a
    atom_meaning (negated bang t) = negate_p (atom_meaning t)
    atom_meaning (parens t ls) = fold_chain combine (atom_meaning t) (ops (links_meaning ls))

    pub links_meaning : Links A → List (Link × P)
    links_meaning end = []
    links_meaning (more j t ls) = (joint_link j, atom_meaning t) ∷ links_meaning ls
