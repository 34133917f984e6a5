-- ===== src/Find/Parser/Total/Ends.antt =====
-- The calls of Parse, parse and the parser of atoms (cmd/internal/find/parser/expression) return.
use wash.Prelude.{
  ℕ, zero, suc, ◌+◌, ◌*◌, ◌≤◌, ◌<◌, String, ◌≡◌, refl, sym, ap, subst, inl, inr, Bool, true, false,
  Option, none, some, List, [], ◌∷◌, arith, str_eq, ltb, ◌==◌, if◌then◌else◌, Bool-cases, length,
}
use wash.Find.EvalStack.{BinaryOp, EvalStack, new_eval_stack}
use wash.Find.EvalStack.Folding.{Pile, single, pair, triple, layout_items, value, evaluate-layout}
use wash.Find.Parser.{
  Parsed, parsed, failed, Looped, Err, match_error, unknown_token, incomplete_operator,
  empty_expression, syntax_error, is_match_error, is_syntax_error, after_atom, parse_round,
  pop_predicate, evaluate_parsed, finish_items, finish_parse, parse_atom, parse_loop, parse,
}
use wash.Find.Parser.Piles.{covered, finish-pile}
use wash.Find.Parser.Returning.{
  Returns, Returns-bind, Returns-some, IsAtomResult, IsParseResult, or_parse-IsAtomResult,
  not_op_parser-IsAtomResult, parenthesize-IsAtomResult,
}
use wash.Find.Parser.Total.{
  IsPrimaryParser, Stage, start, piled, opened_at, stack_at, pending, token_at, items_at, IsNoMatch,
  IsLooped, push-IsLooped, parse_other-IsLooped,
}

incomplete-IsNoMatch : (b : Bool) → IsNoMatch (if b then some incomplete_operator else none)
unfolding is_match_error
incomplete-IsNoMatch true = refl
incomplete-IsNoMatch false = tt

module _ {P : Type 0} (combine : BinaryOp → P → P → P) where
  after_atom-IsLooped :
      (again : List String → EvalStack P → Option (Looped P)) (token : String)
      (tokens : List String) (st : Stage combine) (r : Parsed P)
      → ((rest : List String) (st' : Stage combine)
          → length rest ≤ length tokens
          → Returns
              (again rest (stack_at combine st'))
              (IsLooped combine (length rest + pending combine st')))
      → IsAtomResult (suc (length tokens)) r
      → Returns
          (after_atom combine again token tokens (stack_at combine st) r)
          (IsLooped combine (suc (length tokens) + pending combine st))
  unfolding after_atom is_match_error is_syntax_error
  after_atom-IsLooped again token tokens st (parsed p rest none) ih q =
      push-IsLooped combine again p st (suc (length tokens) + pending combine st) rest (omega arith)
        (λ st'. ih rest st' (omega arith))
  after_atom-IsLooped again token tokens st (parsed p rest (some e)) ih
        (less, not_match, not_syntax) =
      rw (not_match, not_syntax)
        (push-IsLooped combine again p st (suc (length tokens) + pending combine st) rest
          (omega arith) (λ st'. ih rest st' (omega arith)))
  after_atom-IsLooped again token tokens st (failed rest match_error) ih q =
      parse_other-IsLooped combine again token tokens st (λ st'. ih tokens st' (omega arith))
  after_atom-IsLooped again token tokens st (failed rest (unknown_token t)) ih q = absurd q
  after_atom-IsLooped again token tokens st (failed rest incomplete_operator) ih q =
      (st, refl, omega arith, refl)
  after_atom-IsLooped again token tokens st (failed rest empty_expression) ih q =
      (st, refl, omega arith, refl)
  after_atom-IsLooped again token tokens st (failed rest syntax_error) ih q =
      (st, refl, omega arith, refl)

  parse_round-IsLooped :
      (atom : List String → Option (Parsed P))
      (again : List String → EvalStack P → Option (Looped P)) (open_parens : ℕ)
      (tokens : List String) (st : Stage combine)
      → ((token : String) (rest : List String)
          → tokens ≡ token ∷ rest
          → Returns (atom (token ∷ rest)) (IsAtomResult (suc (length rest))))
      → ((rest : List String) (st' : Stage combine)
          → length rest < length tokens
          → Returns
              (again rest (stack_at combine st'))
              (IsLooped combine (length rest + pending combine st')))
      → Returns
          (parse_round combine atom again open_parens tokens (stack_at combine st))
          (IsLooped combine (length tokens + pending combine st))
  unfolding parse_round is_match_error
  parse_round-IsLooped atom again open_parens [] st ia ih = (st, refl, omega arith, tt)
  parse_round-IsLooped atom again open_parens (token ∷ rest) st ia ih =
      elim (Bool-cases (str_eq token ")")) [
        | inl e ↦ rw e (st, refl, omega arith, incomplete-IsNoMatch (open_parens == 0))
        | inr e ↦ rw e (
            Returns-bind (IsAtomResult (suc (length rest)))
              (IsLooped combine (suc (length rest) + pending combine st)) (atom (token ∷ rest))
              (after_atom combine again token rest (stack_at combine st)) (ia token rest refl)
              (λ r.
                after_atom-IsLooped again token rest st r (λ ts st' h. ih ts st' (omega arith))))
      ]

  evaluate_parsed-pile :
      (tokens : List String) (e : Option Err) (l : Pile combine)
      → evaluate_parsed combine tokens e (layout_items combine l)
        ≡ some (parsed (value combine l) tokens e)
  unfolding evaluate_parsed pop_predicate
  evaluate_parsed-pile tokens e l = rw (evaluate-layout combine l) refl

  finish_items-pile :
      (open_parens : ℕ) (tokens : List String) (e : Err) (old : String) (l : Pile combine)
      → finish_items combine open_parens tokens (some e) old (layout_items combine l) ≡ (
          if ltb 0 open_parens
          then some (failed tokens syntax_error)
          else evaluate_parsed combine tokens (some e) (layout_items combine l))
  unfolding finish_items
  finish_items-pile open_parens tokens e old (single v) = refl
  finish_items-pile open_parens tokens e old (pair b v p) = refl
  finish_items-pile open_parens tokens e old (triple v p q) = refl

  -- Parse after the loop: the error is syntactic inside parentheses.
  evaluate-error :
      (open_parens n : ℕ) (tokens left : List String) (e : Err) (l : Pile combine)
      → length left ≤ n
      → is_match_error e ≡ false
      → is_syntax_error e ≡ false
      → Returns
          (if ltb 0 open_parens
            then some (failed tokens syntax_error)
            else evaluate_parsed combine left (some e) (layout_items combine l))
          (IsParseResult open_parens n)
  unfolding is_syntax_error
  evaluate-error zero n tokens left e l less m s =
      rw (evaluate_parsed-pile left (some e) l) (less, m, s, refl)
  evaluate-error (suc k) n tokens left e l less m s =
      let inside : ltb 0 (suc k) ≡ true = ground arith in rw inside refl

  finish-error :
      (open_parens n : ℕ) (st : Stage combine) (tokens : List String) (e : Err)
      → length tokens + pending combine st ≤ n
      → is_match_error e ≡ false
      → is_syntax_error e ≡ false
      → Returns
          (finish_items combine open_parens tokens
            (some e)
            (token_at combine st)
            (items_at combine st))
          (IsParseResult open_parens n)
  unfolding finish_items is_syntax_error
  finish-error open_parens n start tokens e less m s = refl
  finish-error open_parens n (piled l old) tokens e less m s =
      rw (finish_items-pile open_parens tokens e old l)
        (evaluate-error open_parens n tokens tokens e l (omega arith) m s)
  finish-error open_parens n (opened_at b l old) tokens e less m s =
      evaluate-error open_parens n tokens (old ∷ tokens) e (covered combine b l) (omega arith) m s

  finish-none :
      (open_parens n : ℕ) (st : Stage combine) (tokens : List String)
      → length tokens + pending combine st ≤ n
      → Returns
          (finish_parse combine open_parens
            (record { stack = stack_at combine st; tokens = tokens; error = none }))
          (IsParseResult open_parens n)
  unfolding finish_parse is_syntax_error
  finish-none open_parens n start tokens less = refl
  finish-none open_parens n (piled l old) tokens less =
      rw (finish-pile combine open_parens l old tokens) (omega arith)
  finish-none open_parens n (opened_at b l old) tokens less = refl

  IsLooped-zero : (n : ℕ) (l : Looped P) → IsLooped combine (n + 0) l → IsLooped combine n l
  IsLooped-zero n l (st, e, less, m) = (st, e, omega arith, m)

  finish-looped :
      (open_parens n : ℕ) (st : Stage combine) (tokens : List String) (e : Option Err)
      → length tokens + pending combine st ≤ n
      → IsNoMatch e
      → Returns
          (finish_parse combine open_parens
            (record { stack = stack_at combine st; tokens = tokens; error = e }))
          (IsParseResult open_parens n)
  unfolding finish_parse
  finish-looped open_parens n st tokens none less m = finish-none open_parens n st tokens less
  finish-looped open_parens n st tokens (some e) less m = elim (Bool-cases (is_syntax_error e)) [
    | inl s ↦ rw s s
    | inr s ↦ rw s (finish-error open_parens n st tokens e less m s)
  ]

  finish_parse-IsParseResult :
      (open_parens n : ℕ) (l : Looped P)
      → IsLooped combine n l
      → Returns (finish_parse combine open_parens l) (IsParseResult open_parens n)
  finish_parse-IsParseResult open_parens n l (st, e, less, m) =
      subst
        (λ s.
          Returns
            (finish_parse combine open_parens
              (record { stack = s; tokens = l.tokens; error = l.error }))
            (IsParseResult open_parens n))
        (sym e) (finish-looped open_parens n st l.tokens l.error less m)

module _ {P : Type 0} (combine : BinaryOp → P → P → P) (negate_p : P → P)
    (primary : List String → Option (Parsed P)) (good : IsPrimaryParser primary) where
  mutual
    unfolding parse_atom parse_loop parse IsPrimaryParser

    parse_atom-returns :
        (f open_parens : ℕ) (token : String) (tokens : List String)
        → 3 * suc (length tokens) < f
        → Returns
            (parse_atom combine negate_p primary f open_parens (token ∷ tokens))
            (IsAtomResult (suc (length tokens)))
    parse_atom-returns zero open_parens token tokens h = absurd (omega arith)
    parse_atom-returns (suc f) open_parens token tokens h =
        or_parse-IsAtomResult (suc (length tokens)) _ _
          (not_op_parser-IsAtomResult negate_p (parse_atom combine negate_p primary f open_parens)
            token tokens
            (λ next rest e.
              parse_atom-returns f open_parens next rest (omega (arith, ap length e))))
          (or_parse-IsAtomResult (suc (length tokens)) _ _
            (parenthesize-IsAtomResult open_parens
              (parse combine negate_p primary f (suc open_parens)) token tokens
              (parse-returns f (suc open_parens) tokens (omega arith)))
            (or_parse-IsAtomResult (suc (length tokens)) _ _ (good token tokens) tt))

    parse_loop-returns :
        (f open_parens : ℕ) (tokens : List String) (st : Stage combine)
        → 3 * length tokens + 1 < f
        → Returns
            (parse_loop combine negate_p primary f open_parens tokens (stack_at combine st))
            (IsLooped combine (length tokens + pending combine st))
    parse_loop-returns zero open_parens tokens st h = absurd (omega arith)
    parse_loop-returns (suc f) open_parens tokens st h =
        parse_round-IsLooped combine (parse_atom combine negate_p primary f open_parens)
          (parse_loop combine negate_p primary f open_parens) open_parens tokens st
          (λ token rest e. parse_atom-returns f open_parens token rest (omega (arith, ap length e)))
          (λ rest st' less. parse_loop-returns f open_parens rest st' (omega arith))

    parse-returns :
        (f open_parens : ℕ) (tokens : List String)
        → 3 * length tokens + 2 < f
        → Returns
            (parse combine negate_p primary f open_parens tokens)
            (IsParseResult open_parens (length tokens))
    parse-returns zero open_parens tokens h = absurd (omega arith)
    parse-returns (suc f) open_parens tokens h =
        Returns-bind (IsLooped combine (length tokens + 0))
          (IsParseResult open_parens (length tokens))
          (parse_loop combine negate_p primary f open_parens tokens new_eval_stack)
          (finish_parse combine open_parens)
          (parse_loop-returns f open_parens tokens start (omega arith))
          (λ l q.
            finish_parse-IsParseResult combine open_parens (length tokens) l
              (IsLooped-zero combine (length tokens) l q))

  -- Where the parser of primaries always returns, takes at least one token with a predicate, beside
  -- which it has no MatchError or syntax error, and does not fail with an UnknownTokenError, and with
  -- fuel above three times the number of the tokens and two, Parse returns on all tokens: a predicate
  -- with no more tokens than it was given, and with an UnknownTokenError or IncompleteOperatorError
  -- only outside parentheses, or a syntax error alone.
  pub parse_total :
      (f open_parens : ℕ) (tokens : List String)
      → 3 * length tokens + 2 < f
      → (r : Parsed P) × (parse combine negate_p primary f open_parens tokens ≡ some r)
        × IsParseResult open_parens (length tokens) r
  parse_total f open_parens tokens h =
      Returns-some (parse combine negate_p primary f open_parens tokens)
        (IsParseResult open_parens (length tokens)) (parse-returns f open_parens tokens h)
