-- ===== src/Volume/Powershell.antt =====
-- volume/statPowershell.go: the records of Get-ChildItem as a map of directories. `records` is what
-- the CSV reader returns, `none` an error; it passes on records of six fields only. `parse_rfc3339` is
-- time.Parse with that layout. `none` of ParseStatPowershell is a panic, and of a record an error.
use wash.Prelude.{
  ℕ, ◌+◌, ◌-◌, String, Bool, true, false, ◌&&◌, Option, none, some, List, [], ◌∷◌, str_eq, ◌==◌,
  if◌then◌else◌,
}
use wash.Prelude.Maybe.{◌>>=◌}
use wash.Prelude.Int.{ℤ}
use wash.Prelude.Texts.{is_empty}
use wash.Munge.Mode.{FileMode, has_bit}
use wash.Volume.{NodeAttributes, DirMap, trim_prefix, num_path_segments, add_attributes_for_path}
use wash.Volume.Posix.{StatResult, stat_map, stat_error, parse_uint64}
use Prim.Native.Char.{Char, code}

abbrev pub is_backslash : Char → Bool
is_backslash c = code c == 92

-- strings.TrimLeftFunc up to the first backslash
unfoldable pub drop_drive : String → String
drop_drive String.[] = String.[]
drop_drive (String.◌∷◌ c s) = if is_backslash c then String.◌∷◌ c s else drop_drive s

-- strings.ReplaceAll of backslashes by slashes
unfoldable pub replace_backslashes : String → String
replace_backslashes String.[] = String.[]
replace_backslashes (String.◌∷◌ c s) =
    String.◌∷◌ (if is_backslash c then "/" else c) (replace_backslashes s)

-- strings.Split(s, ", "): the first part and the others
unfoldable pub split_attributes : String → String × List String
split_attributes String.[] = (String.[], [])
split_attributes (String.◌∷◌ c String.[]) = (String.◌∷◌ c String.[], [])
split_attributes (String.◌∷◌ c (String.◌∷◌ d s)) =
    let next = split_attributes s in
    let longer = split_attributes (String.◌∷◌ d s) in
    if code c == b',' && code d == b' '
    then (String.[], next.0 ∷ next.1)
    else (String.◌∷◌ c longer.0, longer.1)

-- 0600
abbrev pub initial_mode : FileMode
initial_mode = record {
  perm = 0o600;
  socket = false;
  symlink = false;
  device = false;
  dir = false;
  char_device = false;
  named_pipe = false;
  setuid = false;
  setgid = false;
  sticky = false;
}

-- mode &^= 0200
abbrev pub clear_write : FileMode → FileMode
clear_write m = record m { perm = if has_bit 0o200 m.perm then m.perm - 0o200 else m.perm }

-- The loop over the attributes of a record
unfoldable pub apply_attributes : List String → FileMode → FileMode
apply_attributes [] m = m
apply_attributes (a ∷ rest) m = apply_attributes rest (
    if str_eq a "Directory"
    then record m { dir = true }
    else if str_eq a "ReadOnly"
    then clear_write m
    else m)

unfoldable pub parse_length : String → Option ℕ
unfolding parse_uint64 is_empty
parse_length s = if is_empty s then some 0 else parse_uint64 s

module _ (parse_rfc3339 : String → Option ℤ) where
  -- parseStatPowershell
  unfoldable pub parse_stat_powershell_record : List String → Option (NodeAttributes × String)
  unfolding drop_drive replace_backslashes split_attributes apply_attributes parse_length
  parse_stat_powershell_record (full_name ∷ len ∷ created ∷ accessed ∷ written ∷ attrs ∷ []) = do
    n ← parse_length len
    cr ← parse_rfc3339 created
    at ← parse_rfc3339 accessed
    mt ← parse_rfc3339 written
    some (
      record {
        node_size = some n;
        crtime = some cr;
        atime = some at;
        mtime = some mt;
        ctime = some mt;
        mode = some (
            apply_attributes ((split_attributes attrs).0 ∷ (split_attributes attrs).1)
              initial_mode);
      },
      replace_backslashes (drop_drive full_name),
    )
  parse_stat_powershell_record _ = none

  -- The loop of ParseStatPowershell
  unfoldable pub add_records : String → ℕ → List (List String) → DirMap → Option StatResult
  unfolding parse_stat_powershell_record add_attributes_for_path
  add_records base maxdepth [] dirmap = some (stat_map dirmap)
  add_records base maxdepth (r ∷ records) dirmap = elim (parse_stat_powershell_record r) [
    | none ↦ some stat_error
    | some (attr, fullpath) ↦
        add_attributes_for_path dirmap attr base fullpath maxdepth
        >>= add_records base maxdepth records
  ]

  -- ParseStatPowershell; the first record is the header.
  unfoldable pub parse_stat_powershell :
      String → String → ℕ → Option (List (List String)) → Option StatResult
  unfolding add_records num_path_segments trim_prefix
  parse_stat_powershell base start maxdepth none = some stat_error
  parse_stat_powershell base start maxdepth (some []) = some (stat_map (("", some []) ∷ []))
  parse_stat_powershell base start maxdepth (some (header ∷ records)) =
      add_records base (maxdepth + num_path_segments (trim_prefix base start)) records
        (("", some []) ∷ [])
