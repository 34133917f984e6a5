-- ===== src/Rql/Entry.antt =====
-- The subjects of a query: entries and their schemas (api/rql/entry.go, api/types, plugin/action.go),
-- as far as predicates read them.
use wash.Prelude.{
  ℕ, ◌-◌, ◌^◌, String, Bool, true, false, ◌||◌, Option, none, some, List, [], ◌∷◌, str_eq, ltb,
  if◌then◌else◌,
}
use wash.Prelude.Int.{ℤ, pos, negsuc}
use wash.Rql.Host.{Host}
use wash.Rql.Any.{Fields}

pub record Attributes (h : Host) : Type 0 where
  pub atime : h.Time
  pub mtime : h.Time
  pub ctime : h.Time
  pub crtime : h.Time
  pub size : ℕ

pub record EntrySchema (h : Host) : Type 0 where
  pub path : String
  pub actions : List String
  -- `none` is the nil schema
  pub metadata_schema : Option h.JsonSchema

pub record Entry (h : Host) : Type 0 where
  pub name : String
  pub cname : String
  pub path : String
  pub actions : List String
  pub attributes : Attributes h
  pub metadata : Fields h
  pub schema : Option (EntrySchema h)

abbrev pub is_some : {A : Type 0} → Option A → Bool
is_some none = false
is_some (some a) = true

-- Entry#SchemaKnown
abbrev pub is_schema_known : {h : Host} → Entry h → Bool
is_schema_known e = is_some e.schema

-- plugin.Actions()[name].Name: a name that is no action gives the zero Action.
abbrev action_names : List String
action_names = "list" ∷ "read" ∷ "stream" ∷ "write" ∷ "exec" ∷ "delete" ∷ "signal" ∷ []

is_member : String → List String → Bool
is_member s [] = false
is_member s (x ∷ xs) = str_eq s x || is_member s xs

unfoldable pub is_action : String → Bool
unfolding is_member
is_action name = is_member name action_names

unfoldable pub find_action : String → String
unfolding is_action
find_action name = if is_action name then name else ""

-- int64(u) of a uint64
unfoldable pub int64_of_uint64 : ℕ → ℤ
int64_of_uint64 u = if ltb u (2 ^ 63) then pos u else negsuc (2 ^ 64 - u - 1)
