-- ===== src/Rql/Walk.antt =====
-- The walk over the entries below a start entry (api/rql/walker.go, newEntry of api/rql/entry.go,
-- GetChild of api/types/entrySchema.go). What plugin.List and plugin.Metadata return of an entry is
-- part of the entry; a schema is the number of its node in the graph.
pub mod Sorting
pub mod Descend
pub mod Meets
pub mod Selects
mod Examples
use wash.Prelude.{
  ℕ, suc, String, Bool, true, false, ◌&&◌, ◌||◌, Option, none, some, List, [], ◌∷◌, ◌++◌, str_eq,
  ltb, leb, if◌then◌else◌,
}
use Prim.Native.String.{◌++◌ as append_string, compare as compare_string}
use Prim.Native.Nat.{Ordering}
use wash.Rql.Host.{Host}
use wash.Rql.Any.{Any, Fields}
use wash.Rql.Ast.{primary, Expr}
use wash.Rql.Entry.{Entry, EntrySchema, Attributes}
use wash.Rql.Eval.{eval}
use wash.Rql.EvalSchema.{eval_known_schema}

-- Options
pub record Options : Type 0 where
  pub mindepth : ℕ
  pub maxdepth : ℕ
  pub fullmeta : Bool

pub record Schemas (h : Host) : Type 0 where
  pub describe : ℕ → EntrySchema h
  pub type_id : ℕ → String
  pub children : ℕ → List ℕ

-- A plugin.Entry: `full_metadata` is what plugin.Metadata returns, `none` if it fails.
pub record Listed (h : Host) : Type 0 where
  pub name : String
  pub cname : String
  pub type_id : String
  pub actions : List String
  pub attributes : Attributes h
  pub partial_metadata : Fields h
  pub full_metadata : Option (Fields h)

mutual
  pub data Node (h : Host) : Type 0 where
    node : Listed h → Listing h → Node h

  -- What plugin.List returns, in the order in which `range` meets the children
  pub data Listing (h : Host) : Type 0 where
    list_fails : Listing h
    lists : Nodes h → Listing h

  pub data Nodes (h : Host) : Type 0 where
    no_more : Nodes h
    more : Node h → Nodes h → Nodes h

-- What walk and visit return: an error and a panic end the walk.
pub data Walked (A : Type 0) : Type 0 where
  found : List A → Walked A
  failed panics : Walked A

-- Appends what the second step found to what the first did, if there is no error.
abbrev pub and_then : {A : Type 0} → Walked A → Walked A → Walked A
and_then (found xs) (found ys) = found (xs ++ ys)
and_then (found xs) r = r
and_then r s = r

abbrev pub join : {A : Type 0} → List (String × Walked A) → Walked A
join [] = found []
join ((cname, r) ∷ rs) = and_then r (join rs)

-- sort.Slice by cname, of cnames that all differ
unfoldable pub insert_by_cname : {A : Type 0} → String × A → List (String × A) → List (String × A)
insert_by_cname (k, a) [] = (k, a) ∷ []
insert_by_cname (k, a) ((j, b) ∷ r) = elim (compare_string k j) [
  | Ordering.gt ↦ (j, b) ∷ insert_by_cname (k, a) r
  | _ ↦ (k, a) ∷ (j, b) ∷ r
]

unfoldable pub sort_by_cname : {A : Type 0} → List (String × A) → List (String × A)
unfolding insert_by_cname
sort_by_cname [] = []
sort_by_cname (x ∷ xs) = insert_by_cname x (sort_by_cname xs)

-- The path of a child of an entry with the path `parent`
unfoldable pub child_path : String → String → String
child_path parent cname =
    if str_eq parent "" then cname else append_string parent (append_string "/" cname)

abbrev pub has_action : String → List String → Bool
has_action a [] = false
has_action a (b ∷ names) = str_eq a b || has_action a names

abbrev pub add_child :
    {A : Type 0}
    → Option (Option ℕ)
    → String
    → (Option ℕ → A)
    → List (String × A)
    → List (String × A)
add_child none cname walked rest = rest
add_child (some s) cname walked rest = (cname, walked s) ∷ rest

module _ {h : Host} where
  -- EntrySchema#GetChild
  unfoldable pub get_child : Schemas h → String → List ℕ → Option ℕ
  get_child schemas id [] = none
  get_child schemas id (c ∷ cs) =
      if str_eq (schemas.type_id c) id then some c else get_child schemas id cs

  -- The schema of a child, which is itself unknown below an unknown one; `none` where the child is
  -- not walked, since prune has removed it
  unfoldable pub child_schema : Schemas h → Option ℕ → String → Option (Option ℕ)
  unfolding get_child
  child_schema schemas none id = some none
  child_schema schemas (some s) id = elim (get_child schemas id (schemas.children s)) [
    | some c ↦ some (some c)
    | none ↦ none
  ]

  abbrev pub describe : Schemas h → Option ℕ → Option (EntrySchema h)
  describe schemas none = none
  describe schemas (some s) = some (schemas.describe s)

  -- newEntry, with its schema
  abbrev pub new_entry : Schemas h → Listed h → String → Option ℕ → Entry h
  new_entry schemas l path schema = record {
    name = l.name;
    cname = l.cname;
    path = path;
    actions = l.actions;
    attributes = l.attributes;
    metadata = l.partial_metadata;
    schema = describe schemas schema;
  }

  unfoldable pub keep_if : Option Bool → Entry h → Walked (Entry h)
  keep_if none e = panics
  keep_if (some true) e = found (e ∷ [])
  keep_if (some false) e = found []

module _ {h : Host} (validates : h.JsonSchema → Any h → Bool) (fuel : ℕ) (q : Expr h primary)
    (opts : Options) (schemas : Schemas h) where
  -- visit: past the depth check, the schema is asked, then the metadata fetched, then the entry
  unfoldable pub visit_metadata : Bool → Option (Fields h) → Entry h → Walked (Entry h)
  unfolding keep_if
  visit_metadata false full e = keep_if (eval q e) e
  visit_metadata true none e = failed
  visit_metadata true (some m) e =
      keep_if (eval q (record e { metadata = m })) (record e { metadata = m })

  unfoldable pub visit_schema : Option Bool → Option (Fields h) → Entry h → Walked (Entry h)
  unfolding visit_metadata
  visit_schema none full e = panics
  visit_schema (some false) full e = found []
  visit_schema (some true) full e = visit_metadata opts.fullmeta full e

  unfoldable pub visit : ℕ → Option (Fields h) → Entry h → Walked (Entry h)
  unfolding visit_schema
  visit depth full e =
      if ltb depth opts.mindepth
      then found []
      else visit_schema (eval_known_schema validates fuel q e.schema) full e

  -- The start entry, whose path is empty, is not visited.
  unfoldable pub visit_entry : ℕ → Option (Fields h) → Entry h → Walked (Entry h)
  unfolding visit
  visit_entry depth full e = if str_eq e.path "" then found [] else visit depth full e

  unfoldable mutual
    pub walk : Node h → String → Option ℕ → ℕ → Walked (Entry h)
    walk (node l listing) path schema depth =
        and_then (visit_entry depth l.full_metadata (new_entry schemas l path schema)) (
          if leb (suc depth) opts.maxdepth && has_action "list" l.actions
          then walk_listing listing path schema (suc depth)
          else found [])

    pub walk_listing : Listing h → String → Option ℕ → ℕ → Walked (Entry h)
    walk_listing list_fails path schema depth = failed
    walk_listing (lists ns) path schema depth =
        join (sort_by_cname (walk_nodes ns path schema depth))

    pub walk_nodes : Nodes h → String → Option ℕ → ℕ → List (String × Walked (Entry h))
    walk_nodes no_more path schema depth = []
    walk_nodes (more (node l listing) ns) path schema depth =
        add_child (child_schema schemas schema l.type_id) l.cname
          (λ s. walk (node l listing) (child_path path l.cname) s depth)
          (walk_nodes ns path schema depth)
