-- ===== src/Rql/Walk/Selects.antt =====
-- What the walk of api/rql/walker.go selects.
use wash.Prelude.{
  ℕ, String, ◌≡◌, refl, ap₂, ◌∙◌, inl, inr, Bool, true, false, negate, ◌||◌, Option, none, some,
  List, [], ◌∷◌, ◌++◌, str_eq, ltb, if◌then◌else◌, Bool-cases,
}
use wash.Rql.Host.{Host}
use wash.Rql.Any.{Any, Fields}
use wash.Rql.Ast.{primary, Expr}
use wash.Rql.Entry.{Entry}
use wash.Rql.Eval.{eval, both}
use wash.Rql.EvalSchema.{eval_known_schema, is_included}
use wash.Rql.Walk.{
  Options, Schemas, Node, found, and_then, keep_if, visit_schema, visit, visit_entry, walk,
}
use wash.Rql.Walk.Meets.{Meets, descend-Meets}
use wash.Rql.Walk.Descend.{Event, entry_at, list_failed, descend, run, run_event, walk-run}

abbrev pub is_yes : Option Bool → Bool
is_yes (some true) = true
is_yes o = false

module _ {h : Host} (validates : h.JsonSchema → Any h → Bool) (fuel : ℕ) (q : Expr h primary)
    (opts : Options) (schemas : Schemas h) where
  -- The entry, if it is not the start entry, deep enough, and included by the query.
  unfoldable pub selected_of : Event h → List (Entry h)
  selected_of (entry_at depth full e) =
      if str_eq e.path ""
        || ltb depth opts.mindepth
        || negate (is_yes (is_included validates fuel q e))
      then []
      else e ∷ []
  selected_of list_failed = []

  unfoldable pub selected : List (Event h) → List (Entry h)
  selected [] = []
  selected (event ∷ events) = selected_of event ++ selected events

  -- The query can be evaluated on the entry without a panic.
  abbrev pub IsFine : Event h → Type 0
  IsFine (entry_at depth full e) = (b : Bool) × (is_included validates fuel q e ≡ some b)
  IsFine list_failed = ⊥

  abbrev pub AreFine : List (Event h) → Type 0
  AreFine [] = Unit {0}
  AreFine (event ∷ events) = IsFine event × AreFine events

  keep_if_lem :
      (r : Option Bool) (e : Entry h) (b : Bool)
      → r ≡ some b
      → keep_if r e ≡ found (if negate (is_yes r) then [] else e ∷ [])
  unfolding keep_if
  keep_if_lem none e b h = absurd (cc)
  keep_if_lem (some true) e b h = refl
  keep_if_lem (some false) e b h = refl

  visit_schema_lem :
      (s r : Option Bool) (full : Option (Fields h)) (e : Entry h) (b : Bool)
      → opts.fullmeta ≡ false
      → eval q e ≡ r
      → both s r ≡ some b
      → visit_schema validates fuel q opts schemas s full e
        ≡ found (if negate (is_yes (both s r)) then [] else e ∷ [])
  unfolding visit_schema
  visit_schema_lem none r full e b partial same fine = absurd (cc)
  visit_schema_lem (some false) r full e b partial same fine = refl
  visit_schema_lem (some true) r full e b partial same fine =
      rw (partial, same) (keep_if_lem r e b fine)

  run_event_lem :
      (event : Event h)
      → opts.fullmeta ≡ false
      → IsFine event
      → run_event validates fuel q opts schemas event ≡ found (selected_of event)
  unfolding run_event selected_of visit_entry visit is_included
  run_event_lem (entry_at depth full e) partial (b, fine) = elim (Bool-cases (str_eq e.path "")) [
    | inl start ↦ rw start refl
    | inr below ↦ elim (Bool-cases (ltb depth opts.mindepth)) [
      | inl shallow ↦ rw (below, shallow) refl
      | inr deep ↦
          rw (below, deep)
            (visit_schema_lem (eval_known_schema validates fuel q e.schema) (eval q e) full e b
              partial refl fine)
    ]
  ]
  run_event_lem list_failed partial fine = absurd fine

  run_lem :
      (events : List (Event h))
      → opts.fullmeta ≡ false
      → AreFine events
      → run validates fuel q opts schemas events ≡ found (selected events)
  unfolding selected
  run_lem [] partial fine = refl
  run_lem (event ∷ events) partial (fine, rest) =
      ap₂ and_then (run_event_lem event partial fine) (run_lem events partial rest)

  -- What descend gathers is what the walk is to meet: the entry, and if it can be listed above the
  -- maximal depth, what is met below its children, sorted by their cnames, each child with the path
  -- below its parent's and the first schema with its type ID, and without the children that have none
  -- below a known schema. Without Fullmeta, if no call of plugin.List fails and the query can be
  -- evaluated on all entries that are met, the walk returns of them, in this order, those that are not
  -- the start entry, are at the minimal depth or deeper, and are included by the query.
  pub walk_lem :
      (n : Node h) (path : String) (schema : Option ℕ) (depth : ℕ)
      → opts.fullmeta ≡ false
      → AreFine (descend opts schemas n path schema depth)
      → Meets opts schemas n path schema depth (descend opts schemas n path schema depth)
        × (walk validates fuel q opts schemas n path schema depth
            ≡ found (selected (descend opts schemas n path schema depth)))
  walk_lem n path schema depth partial fine = (
    descend-Meets opts schemas n path schema depth,
    walk-run validates fuel q opts schemas n path schema depth
        ∙ run_lem (descend opts schemas n path schema depth) partial fine,
  )
