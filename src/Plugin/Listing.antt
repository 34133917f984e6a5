-- ===== src/Plugin/Listing.antt =====
-- The map of children that cachedList of plugin/cache.go makes, with plugin/entryMap.go. `none` is a
-- panic.
use wash.Prelude.{String, Option, none, some, List, [], ◌∷◌, str_eq, if◌then◌else◌}
use wash.Prelude.Maybe.{◌>>=◌}
use wash.Prelude.Texts.{trim_right}
use wash.Plugin.EntryBase.{EntryBase, cname}
use Prim.Native.String.{◌++◌ as append_string}

-- EntryMap: Load, Delete and Len; a key that is set again hides its old value.
abbrev pub EntryMap : Type 0 → Type 0
EntryMap T = List (String × EntryBase T)

unfoldable pub child_id : String → String → String
unfolding trim_right
child_id parent_id name = append_string (trim_right parent_id) (append_string "/" name)

pub record DuplicateCNameErr (T : Type 0) : Type 0 where
  pub parent_id : String
  pub first_child : EntryBase T
  pub second_child : EntryBase T
  pub c_name : String

pub data Collected (T : Type 0) : Type 0 where
  collected : EntryMap T → Collected T
  duplicate : DuplicateCNameErr T → Collected T

module _ {T : Type 0} where
  unfoldable pub load : String → EntryMap T → Option (EntryBase T)
  load k [] = none
  load k ((j, e) ∷ m) = if str_eq k j then some e else load k m

  unfoldable pub delete_entry : String → EntryMap T → EntryMap T
  delete_entry k [] = []
  delete_entry k ((j, e) ∷ m) = if str_eq k j then delete_entry k m else (j, e) ∷ delete_entry k m

  -- setChildID
  unfoldable pub set_child_id : String → EntryBase T → Option (EntryBase T)
  unfolding cname child_id
  set_child_id parent_id child = do
    name ← cname child
    some (record child { id = child_id parent_id name })

  -- passAlongWrappedTypes
  unfoldable pub pass_along_wrapped_types : T → EntryBase T → EntryBase T
  pass_along_wrapped_types types child = record child {
    wrapped_types = elim child.own_wrapped_types [ none ↦ types | some own ↦ own ];
  }

  -- A round of the loop of cachedList, given the child of the same cname; `next` is the rest
  unfoldable pub add_child :
      (EntryMap T → Option (Collected T))
      → EntryBase T
      → EntryMap T
      → EntryBase T
      → String
      → Option (EntryBase T)
      → Option (Collected T)
  unfolding set_child_id pass_along_wrapped_types
  add_child next p seen e name (some first) = some (
      duplicate (record { parent_id = p.id; first_child = first; second_child = e; c_name = name }))
  add_child next p seen e name none =
      if e.is_inaccessible
      then next seen
      else (set_child_id p.id e >>= λ child.
          next ((name, pass_along_wrapped_types p.wrapped_types child) ∷ seen))

  -- The loop of cachedList, in the order in which List returned the entries
  unfoldable pub collect : EntryBase T → EntryMap T → List (EntryBase T) → Option (Collected T)
  unfolding load cname add_child
  collect p seen [] = some (collected seen)
  collect p seen (e ∷ es) =
      cname e >>= λ name. add_child (λ s. collect p s es) p seen e name (load name seen)
