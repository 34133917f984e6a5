-- ===== src/Rql/Walk/Meets.antt =====
-- What the walk of api/rql/walker.go is to meet below an entry, apart from how it sorts the children
-- and finds their paths and schemas.
use wash.Prelude.{
  ℕ, suc, ◌≤◌, ◌<◌, String, ◌≡◌, refl, ap, ◌≢◌, ◌⊎◌, inl, inr, true, false, Option, none, some,
  List, [], ◌∷◌, ◌++◌, arith, str_eq, eq_iff, leb, Bool-cases,
}
use mathlib.Core.List.{Perm}
use Prim.Native.String.{◌++◌ as append_string}
use wash.Rql.Host.{Host}
use wash.Rql.Walk.{
  Options, Schemas, Node, node, Listing, list_fails, lists, Nodes, no_more, more, child_path,
  has_action, get_child, child_schema, new_entry, sort_by_cname,
}
use wash.Rql.Walk.Sorting.{AreSorted, sort_by_cname-AreSorted, sort_by_cname-perm}
use wash.Rql.Walk.Descend.{
  Event, entry_at, list_failed, concat, descend, descend_listing, descend_nodes,
}

-- The path of a child: below the start entry its cname, else the parent's path, a slash, the cname
abbrev pub IsChildPath : String → String → String → Type 0
IsChildPath parent cname path =
    ((parent ≡ "") × (path ≡ cname))
    ⊎ ((parent ≢ "") × (path ≡ append_string parent (append_string "/" cname)))

module _ {h : Host} (schemas : Schemas h) where
  -- No schema among these has the type ID.
  abbrev pub HasNone : String → List ℕ → Type 0
  HasNone id [] = Unit {0}
  HasNone id (c ∷ cs) = (schemas.type_id c ≢ id) × HasNone id cs

  -- The first schema with the type ID
  abbrev pub IsFirst : String → List ℕ → ℕ → Type 0
  IsFirst id cs c =
      (before after : List ℕ) × (cs ≡ before ++ c ∷ after)
      × HasNone id before
      × (schemas.type_id c ≡ id)

  -- The schema of a child: unknown below an unknown one, and else the first among the children of
  -- its parent's that has the type ID of the child
  abbrev pub IsChildSchema : Option ℕ → String → Option ℕ → Type 0
  IsChildSchema none id child = child ≡ none
  IsChildSchema (some s) id child = (c : ℕ) × (child ≡ some c) × IsFirst id (schemas.children s) c

  abbrev pub IsLeftOut : Option ℕ → String → Type 0
  IsLeftOut none id = ⊥
  IsLeftOut (some s) id = HasNone id (schemas.children s)

  get_child-cases :
      (id : String) (cs : List ℕ)
      → ((get_child schemas id cs ≡ none) × HasNone id cs)
        ⊎ ((c : ℕ) × (get_child schemas id cs ≡ some c) × IsFirst id cs c)
  unfolding get_child
  get_child-cases id [] = inl (refl, tt)
  get_child-cases id (c ∷ cs) = elim (Bool-cases (str_eq (schemas.type_id c) id)) [
    | inl e ↦ inr (c, rw e refl, ([], cs, refl, tt, (eq_iff (schemas.type_id c) id).0 e))
    | inr e ↦
        let differs : schemas.type_id c ≢ id =
          λ same. absurd (cc (e, (eq_iff (schemas.type_id c) id).1 same)) in
        elim (get_child-cases id cs) [
          | inl (g, others) ↦ inl (rw e g, (differs, others))
          | inr (d, g, (before, after, same, others, has)) ↦
              inr (d, rw e g, (c ∷ before, after, ap (λ l. c ∷ l) same, (differs, others), has))
        ]
  ]

  child_schema-cases :
      (s : Option ℕ) (id : String)
      → ((child_schema schemas s id ≡ none) × IsLeftOut s id)
        ⊎ ((child : Option ℕ) × (child_schema schemas s id ≡ some child) × IsChildSchema s id child)
  unfolding child_schema
  child_schema-cases none id = inr (none, refl, refl)
  child_schema-cases (some s) id = elim (get_child-cases id (schemas.children s)) [
    | inl (e, others) ↦ inl (rw (child_schema, e) refl, others)
    | inr (c, e, first) ↦ inr (some c, rw (child_schema, e) refl, (c, refl, first))
  ]

child_path-IsChildPath :
    (parent cname : String) → IsChildPath parent cname (child_path parent cname)
unfolding child_path
child_path-IsChildPath parent cname = elim (Bool-cases (str_eq parent "")) [
  | inl e ↦ inl ((eq_iff parent "").0 e, rw e refl)
  | inr e ↦ inr (λ same. absurd (cc (e, (eq_iff parent "").1 same)), rw e refl)
]

module _ {h : Host} (opts : Options) (schemas : Schemas h) where
  -- The entry, and then, if it can be listed and its children are not too deep, what is met below it
  unfoldable mutual
    pub Meets : Node h → String → Option ℕ → ℕ → List (Event h) → Type 0
    Meets (node l listing) path schema depth events =
        (below : List (Event h)) × (events
          ≡ entry_at depth l.full_metadata (new_entry schemas l path schema) ∷ below)
        × (((suc depth ≤ opts.maxdepth)
              × (has_action "list" l.actions ≡ true)
              × MeetsListing listing path schema (suc depth) below)
            ⊎ (((opts.maxdepth < suc depth) ⊎ (has_action "list" l.actions ≡ false))
                × (below ≡ [])))

    -- What is met below the children, one after the other in some order that sorts the cnames
    pub MeetsListing : Listing h → String → Option ℕ → ℕ → List (Event h) → Type 0
    MeetsListing list_fails path schema depth events = events ≡ list_failed ∷ []
    MeetsListing (lists ns) path schema depth events =
        (parts sorted : List (String × List (Event h))) × MeetsEach ns path schema depth parts
        × Perm sorted parts
        × AreSorted sorted
        × (events ≡ concat sorted)

    -- The children by their cnames, each with what is met there, less those without a schema
    pub MeetsEach : Nodes h → String → Option ℕ → ℕ → List (String × List (Event h)) → Type 0
    MeetsEach no_more path schema depth parts = parts ≡ []
    MeetsEach (more (node l listing) ns) path schema depth parts =
        (others : List (String × List (Event h))) × MeetsEach ns path schema depth others
        × ((IsLeftOut schemas schema l.type_id × (parts ≡ others))
            ⊎ ((child : Option ℕ) × (p : String) × (events : List (Event h)) × IsChildSchema schemas
                  schema l.type_id child
                × IsChildPath path l.cname p
                × Meets (node l listing) p child depth events
                × (parts ≡ (l.cname, events) ∷ others)))

  mutual
    unfolding Meets descend

    pub descend-Meets :
        (n : Node h) (path : String) (schema : Option ℕ) (depth : ℕ)
        → Meets n path schema depth (descend opts schemas n path schema depth)
    descend-Meets (node l listing) path schema depth =
        elim (Bool-cases (leb (suc depth) opts.maxdepth)) [
          | inl e ↦ elim (Bool-cases (has_action "list" l.actions)) [
            | inl a ↦ (
              descend_listing opts schemas listing path schema (suc depth),
              rw (e, a) refl,
              inl (ground arith, a, descend_listing-MeetsListing listing path schema (suc depth)),
            )
            | inr a ↦ ([], rw (e, a) refl, inr (inr a, refl))
          ]
          | inr e ↦ ([], rw e refl, inr (inl (ground arith), refl))
        ]

    descend_listing-MeetsListing :
        (listing : Listing h) (path : String) (schema : Option ℕ) (depth : ℕ)
        → MeetsListing listing path schema depth
            (descend_listing opts schemas listing path schema depth)
    descend_listing-MeetsListing list_fails path schema depth = refl
    descend_listing-MeetsListing (lists ns) path schema depth =
        let parts = descend_nodes opts schemas ns path schema depth in
        (
          parts,
          sort_by_cname parts,
          descend_nodes-MeetsEach ns path schema depth,
          sort_by_cname-perm parts,
          sort_by_cname-AreSorted parts,
          refl,
        )

    descend_nodes-MeetsEach :
        (ns : Nodes h) (path : String) (schema : Option ℕ) (depth : ℕ)
        → MeetsEach ns path schema depth (descend_nodes opts schemas ns path schema depth)
    descend_nodes-MeetsEach no_more path schema depth = refl
    descend_nodes-MeetsEach (more (node l listing) ns) path schema depth =
        let others = descend_nodes opts schemas ns path schema depth in
        (
          others,
          descend_nodes-MeetsEach ns path schema depth,
          elim (child_schema-cases schemas schema l.type_id) [
            | inl (e, left) ↦ inl (left, rw e refl)
            | inr (child, e, is) ↦ inr (
              child,
              child_path path l.cname,
              descend opts schemas (node l listing) (child_path path l.cname) child depth,
              is,
              child_path-IsChildPath path l.cname,
              descend-Meets (node l listing) (child_path path l.cname) child depth,
              rw e refl,
            )
          ],
        )
