-- ===== src/Find/Parser/Examples.antt =====
-- A command line of find, with -true and -false as the only primaries.
use wash.Prelude.{
  String, ◌≡◌, refl, ap, inl, inr, Bool, true, false, negate, Option, none, some, List, [], ◌∷◌,
  arith, str_eq, eq_iff, if◌then◌else◌, Bool-cases,
}
use wash.Find.EvalStack.Examples.{combine_bool}
use wash.Find.Parser.{Parsed, parsed, failed, match_error, unknown_token, is_op, parse}
use wash.Find.Parser.Syntax.{
  dash_a, dash_or, juxtaposed, Atom, leaf, negated, parens, Links, end, more, print_atom,
  print_links,
}
use wash.Find.Parser.Reading.{ReadsPrimaries}
use wash.Find.Parser.Documented.{
  atom_documented, links_documented, AtomIsShort, LinksAreShort, parse-print,
}
use wash.Find.EvalStack.Documented.{by_precedence}
use wash.Find.Parser.Returning.{IsParseResult}
use wash.Find.Parser.Total.{IsPrimaryParser}
use wash.Find.Parser.Total.Ends.{parse_total}
use wash.Find.EvalStack.Folding.{ops}

abbrev truth_name : Bool → String
truth_name b = if b then "-true" else "-false"

abbrev truth_arguments : Bool → List String
truth_arguments b = []

abbrev truth : Bool → Bool
truth b = b

abbrev truth_parser : List String → Option (Parsed Bool)
truth_parser [] = some (failed [] match_error)
truth_parser (token ∷ tokens) =
    if str_eq token "-true"
    then some (parsed true tokens none)
    else if str_eq token "-false"
    then some (parsed false tokens none)
    else some (failed [] match_error)

no_op : (token name : String) → is_op name ≡ false → is_op token ≡ true → str_eq token name ≡ false
no_op token name not_op is = elim (Bool-cases (str_eq token name)) [
  | inr n ↦ n
  | inl e ↦ let same = ((eq_iff token name).0 e) in absurd (cc (ap is_op same, not_op, is))
]

truth_parser-reads :
    (a : Bool) (rest : List String) → truth_parser (truth_name a ∷ rest) ≡ some (parsed a rest none)
truth_parser-reads true rest = refl
truth_parser-reads false rest = refl

truth_name-not_op : (a : Bool) → is_op (truth_name a) ≡ false
unfolding is_op
truth_name-not_op true = refl
truth_name-not_op false = refl

truth_parser-rejects :
    (token : String) (tokens : List String)
    → is_op token ≡ true
    → truth_parser (token ∷ tokens) ≡ some (failed [] match_error)
truth_parser-rejects token tokens is =
    rw
      (
        no_op token "-true" (truth_name-not_op true) is,
        no_op token "-false" (truth_name-not_op false) is,
      )
      refl

abbrev truth_reads : ReadsPrimaries truth_name truth_arguments truth truth_parser
truth_reads = record {
  reads = truth_parser-reads;
  not_op = truth_name-not_op;
  rejects = truth_parser-rejects;
}

-- ! ( -false -or -true ) -a -not -true
abbrev sample_atom : Atom Bool
sample_atom = negated true (parens (leaf false) (more dash_or (leaf true) end))

abbrev sample_links : Links Bool
sample_links = more dash_a (negated false (leaf true)) (more juxtaposed (leaf true) end)

sample_tokens :
    print_atom truth_name truth_arguments sample_atom
      (print_links truth_name truth_arguments sample_links [])
    ≡ "!" ∷ "(" ∷ "-false" ∷ "-or" ∷ "-true" ∷ ")" ∷ "-a" ∷ "-not" ∷ "-true" ∷ "-true" ∷ []
unfolding print_atom print_links
sample_tokens = refl

parse-print_example :
    parse combine_bool negate truth_parser 24 0 (
      print_atom truth_name truth_arguments sample_atom
        (print_links truth_name truth_arguments sample_links []))
    ≡ some (
        parsed
          (by_precedence combine_bool none
            (atom_documented combine_bool negate truth sample_atom)
            (ops (links_documented combine_bool negate truth sample_links)))
          []
          none)
parse-print_example =
    parse-print combine_bool negate truth_reads sample_atom sample_links 24
      (unfold AtomIsShort LinksAreShort links_documented in (tt, (tt, tt), tt))
      (unfold AtomIsShort LinksAreShort in (tt, (tt, tt))) (unfold links_documented in tt)
      (unfold print_atom print_links in omega arith)

truth_parser-IsPrimaryParser : IsPrimaryParser truth_parser
unfolding IsPrimaryParser
truth_parser-IsPrimaryParser token tokens = elim (Bool-cases (str_eq token "-true")) [
  | inl e ↦ rw e (omega arith)
  | inr e ↦ elim (Bool-cases (str_eq token "-false")) [
    | inl g ↦ rw (e, g) (omega arith)
    | inr g ↦ rw (e, g) tt
  ]
]

parse_total_example :
    (r : Parsed Bool) × (parse combine_bool negate truth_parser 15 0
        ("-true" ∷ "-o" ∷ ")" ∷ "-x" ∷ [])
      ≡ some r)
    × IsParseResult 0 4 r
parse_total_example =
    parse_total combine_bool negate truth_parser truth_parser-IsPrimaryParser 15 0
      ("-true" ∷ "-o" ∷ ")" ∷ "-x" ∷ []) (omega arith)

-- An unknown token is left, with the operator before it.
unknown_left :
    parse combine_bool negate truth_parser 20 0 ("-true" ∷ "-o" ∷ "-x" ∷ [])
    ≡ some (parsed true ("-o" ∷ "-x" ∷ []) (some (unknown_token "-x")))
unfolding parse
unknown_left = refl
