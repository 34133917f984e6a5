-- ===== src/Rql/Walk/Descend.antt =====
-- What the walk of api/rql/walker.go meets, apart from what it selects.
use wash.Prelude.{
  ℕ, suc, String, ◌≡◌, refl, sym, ap, ◌∙◌, inl, inr, Bool, ◌&&◌, Option, none, some, List, [], ◌∷◌,
  ◌++◌, append_assoc, leb, if◌then◌else◌, Bool-cases,
}
use Prim.Native.String.{compare as compare_string}
use Prim.Native.Nat.{Ordering}
use wash.Rql.Host.{Host}
use wash.Rql.Any.{Any, Fields}
use wash.Rql.Ast.{primary, Expr}
use wash.Rql.Entry.{Entry}
use wash.Rql.Walk.{
  Options, Schemas, Node, node, Listing, list_fails, lists, Nodes, no_more, more, Walked, found,
  failed, panics, and_then, join, insert_by_cname, sort_by_cname, child_path, has_action,
  child_schema, new_entry, add_child, visit_entry, walk, walk_listing, walk_nodes,
}

-- An entry that is met, at its depth, or a failure of plugin.List.
pub data Event (h : Host) : Type 0 where
  entry_at : ℕ → Option (Fields h) → Entry h → Event h
  list_failed : Event h

abbrev pub concat : {A : Type 0} → List (String × List A) → List A
concat [] = []
concat ((k, xs) ∷ r) = xs ++ concat r

-- All that the walk meets down to the maximal depth, in order, whatever the query. It leaves out the
-- children that have no schema below a known one.
module _ {h : Host} (opts : Options) (schemas : Schemas h) where
  unfoldable mutual
    pub descend : Node h → String → Option ℕ → ℕ → List (Event h)
    descend (node l listing) path schema depth =
        entry_at depth l.full_metadata (new_entry schemas l path schema)
        ∷ (if leb (suc depth) opts.maxdepth && has_action "list" l.actions
            then descend_listing listing path schema (suc depth)
            else [])

    pub descend_listing : Listing h → String → Option ℕ → ℕ → List (Event h)
    descend_listing list_fails path schema depth = list_failed ∷ []
    descend_listing (lists ns) path schema depth =
        concat (sort_by_cname (descend_nodes ns path schema depth))

    pub descend_nodes : Nodes h → String → Option ℕ → ℕ → List (String × List (Event h))
    descend_nodes no_more path schema depth = []
    descend_nodes (more (node l listing) ns) path schema depth =
        add_child (child_schema schemas schema l.type_id) l.cname
          (λ s. descend (node l listing) (child_path path l.cname) s depth)
          (descend_nodes ns path schema depth)

module _ {A B : Type 0} (f : A → B) where
  abbrev map_second : List (String × A) → List (String × B)
  map_second [] = []
  map_second ((k, a) ∷ r) = (k, f a) ∷ map_second r

  insert_by_cname-map_second :
      (k : String) (a : A) (r : List (String × A))
      → insert_by_cname (k, f a) (map_second r) ≡ map_second (insert_by_cname (k, a) r)
  unfolding insert_by_cname
  insert_by_cname-map_second k a [] = refl
  insert_by_cname-map_second k a ((j, b) ∷ r) =
      by_order (insert_by_cname-map_second k a r) (compare_string k j)
    where
      by_order :
          (insert_by_cname (k, f a) (map_second r) ≡ map_second (insert_by_cname (k, a) r))
          → (o : Ordering)
          → (elim o [
            | Ordering.gt ↦ (j, f b) ∷ insert_by_cname (k, f a) (map_second r)
            | _ ↦ (k, f a) ∷ (j, f b) ∷ map_second r
          ])
            ≡ map_second (elim o [
              | Ordering.gt ↦ (j, b) ∷ insert_by_cname (k, a) r
              | _ ↦ (k, a) ∷ (j, b) ∷ r
            ])
      by_order h Ordering.lt = refl
      by_order h Ordering.eq = refl
      by_order h Ordering.gt = ap (λ x. (j, f b) ∷ x) h

  sort_by_cname-map_second :
      (r : List (String × A)) → sort_by_cname (map_second r) ≡ map_second (sort_by_cname r)
  unfolding sort_by_cname
  sort_by_cname-map_second [] = refl
  sort_by_cname-map_second ((k, a) ∷ r) =
      ap (insert_by_cname (k, f a)) (sort_by_cname-map_second r)
      ∙ insert_by_cname-map_second k a (sort_by_cname r)

  add_child-map_second :
      (s : Option (Option ℕ)) (cname : String) (w : Option ℕ → B) (d : Option ℕ → A)
      (r : List (String × A))
      → ((o : Option ℕ) → w o ≡ f (d o))
      → add_child s cname w (map_second r) ≡ map_second (add_child s cname d r)
  add_child-map_second none cname w d r same = refl
  add_child-map_second (some o) cname w d r same = ap (λ x. (cname, x) ∷ map_second r) (same o)

module _ {h : Host} (validates : h.JsonSchema → Any h → Bool) (fuel : ℕ) (q : Expr h primary)
    (opts : Options) (schemas : Schemas h) where
  unfoldable pub run_event : Event h → Walked (Entry h)
  run_event (entry_at depth full e) = visit_entry validates fuel q opts schemas depth full e
  run_event list_failed = failed

  abbrev pub run : List (Event h) → Walked (Entry h)
  run [] = found []
  run (event ∷ events) = and_then (run_event event) (run events)

  and_then_assoc :
      (a b d : Walked (Entry h)) → and_then (and_then a b) d ≡ and_then a (and_then b d)
  and_then_assoc (found xs) (found ys) (found zs) = ap found (append_assoc xs ys zs)
  and_then_assoc (found xs) (found ys) failed = refl
  and_then_assoc (found xs) (found ys) panics = refl
  and_then_assoc (found xs) failed d = refl
  and_then_assoc (found xs) panics d = refl
  and_then_assoc failed b d = refl
  and_then_assoc panics b d = refl

  and_then-left : (r : Walked (Entry h)) → and_then (found []) r ≡ r
  and_then-left (found xs) = refl
  and_then-left failed = refl
  and_then-left panics = refl

  run-append : (xs ys : List (Event h)) → run (xs ++ ys) ≡ and_then (run xs) (run ys)
  run-append [] ys = sym (and_then-left (run ys))
  run-append (x ∷ xs) ys =
      ap (and_then (run_event x)) (run-append xs ys)
      ∙ sym (and_then_assoc (run_event x) (run xs) (run ys))

  run-concat : (r : List (String × List (Event h))) → join (map_second run r) ≡ run (concat r)
  run-concat [] = refl
  run-concat ((k, xs) ∷ r) = ap (and_then (run xs)) (run-concat r) ∙ sym (run-append xs (concat r))

  mutual
    unfolding walk descend run_event

    pub walk-run :
        (n : Node h) (path : String) (schema : Option ℕ) (depth : ℕ)
        → walk validates fuel q opts schemas n path schema depth
          ≡ run (descend opts schemas n path schema depth)
    walk-run (node l listing) path schema depth =
        elim (Bool-cases (leb (suc depth) opts.maxdepth && has_action "list" l.actions)) [
          | inl e ↦ rw e (
              ap
                (and_then (
                  visit_entry validates fuel q opts schemas depth l.full_metadata
                    (new_entry schemas l path schema)))
                (walk_listing-run listing path schema (suc depth)))
          | inr e ↦ rw e refl
        ]

    walk_listing-run :
        (ns : Listing h) (path : String) (schema : Option ℕ) (depth : ℕ)
        → walk_listing validates fuel q opts schemas ns path schema depth
          ≡ run (descend_listing opts schemas ns path schema depth)
    walk_listing-run list_fails path schema depth = refl
    walk_listing-run (lists ns) path schema depth =
        ap (λ r. join (sort_by_cname r)) (walk_nodes-run ns path schema depth)
        ∙ ap join (sort_by_cname-map_second run (descend_nodes opts schemas ns path schema depth))
        ∙ run-concat (sort_by_cname (descend_nodes opts schemas ns path schema depth))

    walk_nodes-run :
        (ns : Nodes h) (path : String) (schema : Option ℕ) (depth : ℕ)
        → walk_nodes validates fuel q opts schemas ns path schema depth
          ≡ map_second run (descend_nodes opts schemas ns path schema depth)
    walk_nodes-run no_more path schema depth = refl
    walk_nodes-run (more (node l listing) ns) path schema depth =
        ap
          (add_child (child_schema schemas schema l.type_id) l.cname (λ s.
            walk validates fuel q opts schemas (node l listing) (child_path path l.cname) s depth))
          (walk_nodes-run ns path schema depth)
        ∙ add_child-map_second run (child_schema schemas schema l.type_id) l.cname _ _
            (descend_nodes opts schemas ns path schema depth)
            (λ s. walk-run (node l listing) (child_path path l.cname) s depth)
