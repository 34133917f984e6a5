-- ===== src/Volume/Posix.antt =====
-- volume/statPosix.go: the output of find and stat as a map of directories. The scanner is the list
-- of the lines that it reads and whether it fails after them; `parse_uint` is
-- strconv.ParseUint(s, 0, 32). `none` of ParseStatPOSIX is a panic, and `none` of a line an error.
use wash.Prelude.{
  ℕ, zero, suc, ◌+◌, ◌^◌, String, Bool, true, false, ◌&&◌, ◌||◌, Option, none, some, List, [], ◌∷◌,
  ltb, leb, ◌==◌, if◌then◌else◌,
}
use wash.Prelude.Maybe.{◌>>=◌}
use wash.Prelude.Int.{ℤ}
use wash.Prelude.Texts.{is_empty, strip_prefix}
use wash.Find.Numeric.{read_some_digits, parse_int}
use wash.Munge.Mode.{text, to_file_mode}
use wash.Volume.{NodeAttributes, DirMap, trim_prefix, num_path_segments, add_attributes_for_path}
use Prim.Native.Char.{code}
use Prim.Native.String.{◌++◌ as append_string}

-- strings.SplitN(s, " ", n + 1): the first part and the others
unfoldable pub split_n : ℕ → String → String × List String
split_n zero s = (s, [])
split_n (suc n) String.[] = (String.[], [])
split_n (suc n) (String.◌∷◌ c s) =
    let cut = split_n n s in
    let longer = split_n (suc n) s in
    if code c == b' ' then (String.[], cut.0 ∷ cut.1) else (String.◌∷◌ c longer.0, longer.1)

-- strconv.ParseUint(s, 10, 64)
unfoldable pub parse_uint64 : String → Option ℕ
unfolding read_some_digits
parse_uint64 s = do n ← read_some_digits s; if ltb n (2 ^ 64) then some n else none

-- parseTime
unfoldable pub parse_time : String → Option ℤ
unfolding parse_int
parse_time t = parse_int t

-- unicode.IsSpace
abbrev pub is_space : ℕ → Bool
is_space n =
    (leb 9 n && leb n 13)
    || n == 32
    || n == 133
    || n == 160
    || n == 5760
    || (leb 8192 n && leb n 8202)
    || n == 8232
    || n == 8233
    || n == 8239
    || n == 8287
    || n == 12288

unfoldable pub trim_space_left : String → String
trim_space_left String.[] = String.[]
trim_space_left (String.◌∷◌ c s) = if is_space (code c) then trim_space_left s else String.◌∷◌ c s

unfoldable pub trim_space_right : String → String
unfolding is_empty
trim_space_right String.[] = String.[]
trim_space_right (String.◌∷◌ c s) =
    let r = trim_space_right s in
    if is_space (code c) && is_empty r then String.[] else String.◌∷◌ c r

-- strings.TrimSpace
unfoldable pub trim_space : String → String
unfolding trim_space_left trim_space_right
trim_space s = trim_space_right (trim_space_left s)

abbrev pub has_prefix : String → String → Bool
has_prefix p s = elim (strip_prefix p s) [ none ↦ false | some r ↦ true ]

-- NormalErrorPOSIX
unfoldable pub normal_error_posix : String → Bool
unfolding strip_prefix
normal_error_posix line = has_prefix "stat:" line || has_prefix "find:" line

-- The lines that the loop of ParseStatPOSIX skips
unfoldable pub is_skipped : String → Bool
unfolding trim_space is_empty normal_error_posix
is_skipped line = is_empty (trim_space line) || normal_error_posix (trim_space line)

pub data StatResult : Type 0 where
  stat_map : DirMap → StatResult
  stat_error : StatResult

module _ (parse_uint : String → Option ℕ) where
  -- parseStatPOSIX, on the segments of a line
  unfoldable pub parse_segments : List String → Option (NodeAttributes × String)
  unfolding parse_uint64 parse_time to_file_mode
  parse_segments (a ∷ b ∷ c ∷ d ∷ e ∷ path ∷ []) = do
    n ← parse_uint64 a
    at ← parse_time b
    mt ← parse_time c
    ct ← parse_time d
    m ← to_file_mode parse_uint (text (append_string "0x" e))
    some (
      record {
        node_size = some n;
        crtime = none;
        atime = some at;
        mtime = some mt;
        ctime = some ct;
        mode = some m;
      },
      path,
    )
  parse_segments _ = none

  unfoldable pub parse_stat_posix_line : String → Option (NodeAttributes × String)
  unfolding split_n parse_segments
  parse_stat_posix_line line = let r = split_n 5 line in parse_segments (r.0 ∷ r.1)

  -- The loop of ParseStatPOSIX
  unfoldable pub add_lines : String → ℕ → Bool → List String → DirMap → Option StatResult
  unfolding is_skipped parse_stat_posix_line add_attributes_for_path
  add_lines base maxdepth scan_fails [] dirmap =
      some (if scan_fails then stat_error else stat_map dirmap)
  add_lines base maxdepth scan_fails (line ∷ lines) dirmap =
      let skipped = add_lines base maxdepth scan_fails lines dirmap in
      if is_skipped line then skipped else elim (parse_stat_posix_line (trim_space line)) [
        | none ↦ some stat_error
        | some (attr, fullpath) ↦
            add_attributes_for_path dirmap attr base fullpath maxdepth
            >>= add_lines base maxdepth scan_fails lines
      ]

  unfoldable pub parse_stat_posix : String → String → ℕ → Bool → List String → Option StatResult
  unfolding add_lines num_path_segments trim_prefix
  parse_stat_posix base start maxdepth scan_fails lines =
      add_lines base (maxdepth + num_path_segments (trim_prefix base start)) scan_fails lines
        (("", some []) ∷ [])
