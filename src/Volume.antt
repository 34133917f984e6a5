-- ===== src/Volume.antt =====
-- volume/stat.go: the maps of directories that VolumeList returns. A path is a text, a Children map
-- is `none` where the code has nil, and `none` of a result is a panic.
pub mod Posix
pub mod Powershell
pub mod Fs
pub mod Dir
pub mod Paths
pub mod Views
pub mod Above
pub mod Sound
pub mod Making
pub mod Tree
pub mod Own
pub mod Adding
pub mod Deleted
pub mod Lines
pub mod Listing
pub mod Listed
mod Examples
use wash.Prelude.{
  ℕ, zero, suc, String, Bool, true, false, Option, none, some, List, [], ◌∷◌, ltb, ◌==◌,
  if◌then◌else◌, length,
}
use wash.Prelude.Int.{ℤ}
use wash.Prelude.Maybe.{◌>>=◌}
use wash.Prelude.Texts.{is_slash, is_empty, size, split, strip_prefix}
use wash.Prelude.Maps.{look, put}
use wash.Munge.Mode.{FileMode}

-- EntryAttributes, as far as volumes set them: times are seconds since the epoch
pub record NodeAttributes : Type 0 where
  pub node_size : Option ℕ
  pub crtime : Option ℤ
  pub atime : Option ℤ
  pub mtime : Option ℤ
  pub ctime : Option ℤ
  pub mode : Option FileMode

-- plugin.EntryAttributes{}
abbrev pub no_attributes : NodeAttributes
no_attributes = record {
  node_size = none;
  crtime = none;
  atime = none;
  mtime = none;
  ctime = none;
  mode = none;
}

-- attr.Mode().IsDir(), of the mode 0 where none is set
abbrev pub is_dir : NodeAttributes → Bool
is_dir a = elim a.mode [ none ↦ false | some m ↦ m.dir ]

-- Children and DirMap
abbrev pub Children : Type 0
Children = List (String × NodeAttributes)

abbrev pub DirMap : Type 0
DirMap = List (String × Option Children)

-- os.ModeDir | 0550
abbrev pub implied_mode : FileMode
implied_mode = record {
  perm = 0o550;
  socket = false;
  symlink = false;
  device = false;
  dir = true;
  char_device = false;
  named_pipe = false;
  setuid = false;
  setgid = false;
  sticky = false;
}

abbrev pub implied_attributes : NodeAttributes
implied_attributes = record no_attributes { mode = some implied_mode }

unfoldable pub has_slash : String → Bool
has_slash String.[] = false
has_slash (String.◌∷◌ c s) = if is_slash c then true else has_slash s

-- path.Split: what stands before the last slash, with it, and after it
unfoldable pub path_split : String → String × String
unfolding has_slash
path_split String.[] = (String.[], String.[])
path_split (String.◌∷◌ c s) =
    let r = path_split s in
    if has_slash s
    then (String.◌∷◌ c r.0, r.1)
    else if is_slash c
    then (String.◌∷◌ c String.[], s)
    else (String.[], String.◌∷◌ c s)

-- strings.TrimSuffix(s, "/")
unfoldable pub trim_suffix : String → String
trim_suffix String.[] = String.[]
trim_suffix (String.◌∷◌ c String.[]) = if is_slash c then String.[] else String.◌∷◌ c String.[]
trim_suffix (String.◌∷◌ c (String.◌∷◌ d s)) = String.◌∷◌ c (trim_suffix (String.◌∷◌ d s))

-- strings.TrimPrefix(s, p)
unfoldable pub trim_prefix : String → String → String
unfolding strip_prefix
trim_prefix p s = elim (strip_prefix p s) [ none ↦ s | some r ↦ r ]

abbrev pub parent_of : String → String
parent_of p = trim_suffix (path_split p).0

abbrev pub file_of : String → String
file_of p = (path_split p).1

unfoldable pub num_path_segments : String → ℕ
unfolding trim_prefix is_empty split
num_path_segments p =
    let r = trim_prefix "/" p in if is_empty r then 0 else suc (length (split r).1)

-- parentchildren[file] = attr, of the children that dirmap has at the path
unfoldable pub set_child : String → String → NodeAttributes → DirMap → Option DirMap
unfolding look put
set_child path file attr dirmap = elim (look path dirmap) [
  | none ↦ none
  | some none ↦ none
  | some (some children) ↦ some (put path (some (put file attr children)) dirmap)
]

abbrev pub is_there : Option (Option Children) → Bool
is_there none = false
is_there (some c) = true

abbrev pub is_key : String → DirMap → Bool
is_key path dirmap = is_there (look path dirmap)

-- makeChildren, without the children that it returns: the caller finds them at the path.
unfoldable pub make_children : ℕ → String → DirMap → Option DirMap
unfolding look put path_split trim_suffix set_child
make_children zero newpath dirmap = none
make_children (suc f) newpath dirmap =
    let made = make_children f (parent_of newpath) (put newpath (some []) dirmap) in
    if is_key newpath dirmap
    then some dirmap
    else (made >>= set_child (parent_of newpath) (file_of newpath) implied_attributes)

-- What addAttributesForPath enters for a directory itself
unfoldable pub add_directory : ℕ → String → NodeAttributes → DirMap → DirMap
unfolding put num_path_segments
add_directory maxdepth relative attr dirmap =
    if is_dir attr
    then put relative (if num_path_segments relative == maxdepth then none else some []) dirmap
    else dirmap

unfoldable pub add_attributes_for_path :
    DirMap → NodeAttributes → String → String → ℕ → Option DirMap
unfolding trim_prefix num_path_segments add_directory make_children set_child path_split trim_suffix
    size
add_attributes_for_path dirmap attr base fullpath maxdepth =
    let relative = trim_prefix base fullpath in
    if ltb maxdepth (num_path_segments relative)
    then none
    else (make_children (suc (size relative)) (parent_of relative)
          (add_directory maxdepth relative attr dirmap)
        >>= set_child (parent_of relative) (file_of relative) attr)
