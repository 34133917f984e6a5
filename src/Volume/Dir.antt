-- ===== src/Volume/Dir.antt =====
-- volume/dir.go and volume/core.go: the entries of a directory, and the deletion of a node. The map
-- that a *dirMap points to is passed along; whether an entry has the pointer is told by `has_dirmap`.
use wash.Prelude.{
  ◌*◌, ◌^◌, String, Bool, true, false, Option, none, some, List, [], ◌∷◌, if◌then◌else◌,
}
use wash.Prelude.Texts.{split, join_all, split_last}
use wash.Prelude.Maps.{look, put, remove}
use wash.Prelude.Int.{pos}
use wash.Prelude.Maybe.{◌>>=◌}
use wash.Plugin.EntryBase.{
  EntryBase, new_entry, set_ttl_of, disable_caching_for, prefetched, list_op, read_op,
}
use wash.Volume.{NodeAttributes, is_dir, Children, DirMap}
use Prim.Native.String.{◌++◌ as append_string}

-- dir and file: their base with the attributes that SetAttributes gives it, and their fields
pub record Node (T : Type 0) : Type 0 where
  pub base : EntryBase T
  pub attributes : NodeAttributes
  pub path : String
  pub is_directory : Bool
  pub has_dirmap : Bool

module _ {T : Type 0} (no_types : T) where
  -- newDir; `none` is the panic of NewEntry on an empty name.
  unfoldable pub new_dir : String → NodeAttributes → String → Option (Node T)
  unfolding new_entry
  new_dir name attr path = do
    e ← new_entry no_types name
    some (record {
      base = e;
      attributes = attr;
      path = path;
      is_directory = true;
      has_dirmap = false;
    })

  -- newFile
  unfoldable pub new_file : String → NodeAttributes → String → Option (Node T)
  unfolding new_entry set_ttl_of
  new_file name attr path = do
    e ← new_entry no_types name
    some (record {
      base = set_ttl_of read_op (pos (60 * 10 ^ 9)) e;
      attributes = attr;
      path = path;
      is_directory = false;
      has_dirmap = false;
    })

  -- What generateChildren makes of a new directory, with what the map has at its path
  unfoldable pub explore : Option (Option Children) → Node T → Node T
  unfolding set_ttl_of disable_caching_for
  explore (some (some children)) v = record v {
    base = disable_caching_for list_op (prefetched (set_ttl_of list_op (pos (30 * 10 ^ 9)) v.base));
    has_dirmap = true;
  }
  explore _ v = record v { base = set_ttl_of list_op (pos (30 * 10 ^ 9)) v.base }

  -- A round of the loop of generateChildren
  unfoldable pub generate_child : DirMap → String → String → NodeAttributes → Option (Node T)
  unfolding look new_dir new_file explore
  generate_child dirmap dir_path name attr =
      let subpath = append_string dir_path (append_string "/" name) in
      if is_dir attr
      then (new_dir name attr subpath >>= λ v. some (explore (look subpath dirmap) v))
      else (new_file name attr subpath >>= λ v. some (record v { has_dirmap = true }))

  unfoldable pub generate_all : DirMap → String → Children → Option (List (Node T))
  unfolding generate_child
  generate_all dirmap dir_path [] = some []
  generate_all dirmap dir_path ((name, attr) ∷ children) = do
    v ← generate_child dirmap dir_path name attr
    vs ← generate_all dirmap dir_path children
    some (v ∷ vs)

  -- generateChildren: of no directory, or of one that is not explored, there are none.
  unfoldable pub generate_children : DirMap → String → Option (List (Node T))
  unfolding look generate_all
  generate_children dirmap dir_path = elim (look dir_path dirmap) [
    | some (some children) ↦ generate_all dirmap dir_path children
    | _ ↦ some []
  ]

  -- dir.List: what VolumeList returns, `none` an error, is used where the directory has no dirmap;
  -- the result is `none` for a panic, and in it `none` for that error.
  unfoldable pub list_dir : Node T → DirMap → Option DirMap → Option (Option (List (Node T)))
  unfolding generate_children
  list_dir v dirmap listed =
      if v.has_dirmap
      then (generate_children dirmap v.path >>= λ vs. some (some vs))
      else elim listed [
        | none ↦ some none
        | some fresh ↦ generate_children fresh v.path >>= λ vs. some (some vs)
      ]

-- The (bool, error) of VolumeDelete and of deleteNode
pub data Deletion : Type 0 where
  deletion : Bool → Deletion
  deletion_failed : Deletion

abbrev pub remove_child : String → Option Children → Option Children
remove_child name none = none
remove_child name (some children) = some (remove name children)

-- The deletion of the base name from what the map has of the parent's path, if it has that
abbrev pub update_parent : String → String → Option (Option Children) → DirMap → DirMap
update_parent parent basename none dirmap = dirmap
update_parent parent basename (some children) dirmap =
    put parent (remove_child basename children) dirmap

-- deleteNode, once the node is deleted: its key, and itself among the children of its parent
unfoldable pub forget_node : String → DirMap → DirMap
unfolding split join_all split_last look put remove
forget_node path dirmap =
    let segments = split path in
    let ends = split_last segments.0 segments.1 in
    let rest = remove path dirmap in
    update_parent (join_all ends.0) ends.1 (look (join_all ends.0) rest) rest

-- deleteNode, and Delete of dir and file: `none` is the panic of a nil dirmap.
unfoldable pub delete_node : {T : Type 0} → Node T → Deletion → DirMap → Option (Deletion × DirMap)
unfolding forget_node
delete_node v (deletion true) dirmap =
    if v.has_dirmap then some (deletion true, forget_node v.path dirmap) else none
delete_node v result dirmap = some (result, dirmap)
