-- ===== src/Plugin/EntryBase.antt =====
-- plugin/entryBase.go, and CName of plugin/methodWrappers.go. A value of T is a SchemaMap.
use wash.Prelude.{◌*◌, ◌^◌, String, Bool, true, false, Option, none, some, if◌then◌else◌}
use wash.Prelude.Int.{ℤ, pos, negsuc}
use wash.Prelude.Texts.{is_slash, is_empty}
use Prim.Native.Char.{Char}

pub data DefaultOp : Type 0 where
  list_op read_op metadata_op : DefaultOp

-- defaultOpCodeToNameMap
abbrev pub op_name : DefaultOp → String
op_name list_op = "List"
op_name read_op = "Read"
op_name metadata_op = "Metadata"

-- `ttl` is the array by op code; `own_wrapped_types` is what WrappedTypes of an entry that
-- implements HasWrappedTypes returns.
pub record EntryBase (T : Type 0) : Type 0 where
  pub name : String
  pub slash_replacer : Char
  pub id : String
  pub ttl : DefaultOp → ℤ
  pub wrapped_types : T
  pub own_wrapped_types : Option T
  pub is_prefetched : Bool
  pub is_inaccessible : Bool

unfoldable pub is_same_op : DefaultOp → DefaultOp → Bool
is_same_op list_op list_op = true
is_same_op read_op read_op = true
is_same_op metadata_op metadata_op = true
is_same_op _ _ = false

-- strings.Replace(name, "/", string(replacer), -1)
unfoldable pub replace_slash : Char → String → String
replace_slash r String.[] = String.[]
replace_slash r (String.◌∷◌ c s) = String.◌∷◌ (if is_slash c then r else c) (replace_slash r s)

module _ {T : Type 0} where
  -- NewEntry; `none` is its panic.
  unfoldable pub new_entry : T → String → Option (EntryBase T)
  unfolding is_empty
  new_entry no_types name =
      if is_empty name
      then none
      else some (record {
        name = name;
        slash_replacer = "#";
        id = "";
        ttl = λ op. pos (15 * 10 ^ 9);
        wrapped_types = no_types;
        own_wrapped_types = none;
        is_prefetched = false;
        is_inaccessible = false;
      })

  -- SetTTLOf
  unfoldable pub set_ttl_of : DefaultOp → ℤ → EntryBase T → EntryBase T
  unfolding is_same_op
  set_ttl_of op ttl e = record e { ttl = λ o. if is_same_op o op then ttl else e.ttl o }

  -- DisableCachingFor
  unfoldable pub disable_caching_for : DefaultOp → EntryBase T → EntryBase T
  unfolding set_ttl_of
  disable_caching_for op e = set_ttl_of op (negsuc 0) e

  -- DisableDefaultCaching
  unfoldable pub disable_default_caching : EntryBase T → EntryBase T
  unfolding disable_caching_for
  disable_default_caching e =
      disable_caching_for metadata_op (disable_caching_for read_op (disable_caching_for list_op e))

  -- SetSlashReplacer
  unfoldable pub set_slash_replacer : Char → EntryBase T → Option (EntryBase T)
  set_slash_replacer c e = if is_slash c then none else some (record e { slash_replacer = c })

  -- Prefetched and MarkInaccessible
  abbrev pub prefetched : EntryBase T → EntryBase T
  prefetched e = record e { is_prefetched = true }

  abbrev pub mark_inaccessible : EntryBase T → EntryBase T
  mark_inaccessible e = record e { is_inaccessible = true }

  -- CName
  unfoldable pub cname : EntryBase T → Option String
  unfolding is_empty replace_slash
  cname e = if is_empty e.name then none else some (replace_slash e.slash_replacer e.name)
