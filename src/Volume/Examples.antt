-- ===== src/Volume/Examples.antt =====
-- Runs of the definitions of volume/.
use wash.Prelude.{
  ℕ, ◌+◌, String, ◌≡◌, refl, ◌≢◌, ◌⊎◌, inl, inr, Bool, true, false, Option, none, some, List, [],
  ◌∷◌, arith, str_eq, if◌then◌else◌,
}
use wash.Prelude.Maps.{put}
use wash.Prelude.Texts.{is_empty}
use wash.Volume.Posix.{is_skipped, trim_space, parse_stat_posix_line}
use wash.Volume.{NodeAttributes, num_path_segments, trim_prefix, implied_attributes, DirMap}
use wash.Volume.Posix.{StatResult, stat_map, stat_error, parse_stat_posix}
use wash.Prelude.Int.{ℤ, pos}
use wash.Volume.Dir.{Node, deletion, delete_node, generate_children}
use wash.Volume.Paths.{path_of}
use wash.Volume.Views.{child}
use wash.Munge.Mode.{of_bits}
use wash.Volume.Lines.{Line, IsListing, HasLines, is_at_or_below, has_file_above}
use wash.Volume.Listing.{IsOutput}
use wash.Volume.Above.{is_upto}
use wash.Volume.Powershell.{parse_stat_powershell}
use wash.Volume.Fs.{
  are_normal, split_lines, Chunk, stdout_chunk, stderr_chunk, exec, nonzero, Shell, unknown_shell,
  posix_shell, power_shell, volume_list,
}
use wash.Volume.Listed.{volume_list_lem}
use wash.Volume.Tree.{IsTree}
use wash.Volume.Deleted.{is_gone, delete_node_lem}

abbrev sample_root : DirMap
sample_root = put (path_of []) (some []) []

abbrev hex_mode : String → Option ℕ
hex_mode s = if str_eq s "0x41ed" then some 0o40755 else some 0o100644

-- What a run lists below a path
abbrev names : List (Node ℕ) → List (String × Bool)
names [] = []
names (v ∷ vs) = (v.path, v.has_dirmap) ∷ names vs

abbrev listed_at : String → Option StatResult → List (String × Bool)
listed_at path (some (stat_map d)) = elim (generate_children {T = ℕ} 0 d path) [
  | none ↦ []
  | some vs ↦ names vs
]
listed_at path _ = []

abbrev sample_lines : List String
sample_lines =
    "4096 1 2 3 41ed /var" ∷ " 4096 1 2 3 41ed /var/log" ∷ "" ∷ "find: no"
    ∷ "12 1 2 3 81a4 /var/a b" ∷ []

parse_sample_root :
    listed_at "" (parse_stat_posix hex_mode "" "" 2 false sample_lines) ≡ ("/var", true) ∷ []
unfolding parse_stat_posix generate_children
parse_sample_root = refl

-- A directory at the maximal depth is not explored.
parse_sample_var :
    listed_at "/var" (parse_stat_posix hex_mode "" "" 2 false sample_lines)
    ≡ ("/var/log", false) ∷ ("/var/a b", true) ∷ []
unfolding parse_stat_posix generate_children
parse_sample_var = refl

-- A line of too few segments is an error, and one below the maximal depth a panic.
parse_short : parse_stat_posix hex_mode "" "" 2 false ("4096 1 2 3 /var" ∷ []) ≡ some stat_error
unfolding parse_stat_posix
parse_short = refl

parse_too_deep : parse_stat_posix hex_mode "" "" 1 false ("1 1 2 3 81a4 /var/a" ∷ []) ≡ none
unfolding parse_stat_posix
parse_too_deep = refl

-- A time of an RFC3339 text, for the runs below
abbrev sample_time : String → Option ℤ
sample_time s = if is_empty s then none else some (pos 7)

abbrev sample_records : List (List String)
sample_records =
    ("FullName" ∷ "Length" ∷ "C" ∷ "A" ∷ "W" ∷ "Attributes" ∷ [])
    ∷ ("C:\\dir" ∷ "" ∷ "x" ∷ "y" ∷ "z" ∷ "ReadOnly, Directory" ∷ [])
    ∷ ("C:\\dir\\a b" ∷ "12" ∷ "x" ∷ "y" ∷ "z" ∷ "Archive" ∷ [])
    ∷ []

parse_sample_records :
    listed_at "/dir" (parse_stat_powershell sample_time "" "" 2 (some sample_records))
    ≡ ("/dir/a b", true) ∷ []
unfolding parse_stat_powershell generate_children is_empty
parse_sample_records = refl

-- An exit code other than 0 is tolerated with the messages of find, and only on a POSIX shell.
abbrev failing : Option (List Chunk × Option ℕ)
failing = some (stdout_chunk "out" ∷ stderr_chunk "find: x\n" ∷ stdout_chunk "put" ∷ [], some 1)

exec-failing : exec failing ≡ nonzero "output" "find: x"
unfolding exec
exec-failing = refl

volume_list-failing :
    (sh : Shell)
    → volume_list hex_mode sample_time (λ s. ([], false)) (λ s. some []) sh "" 2 (exec failing)
      ≡ elim sh as (λ k. Option StatResult) [
        | unknown_shell ↦ none
        | posix_shell ↦ some (stat_map sample_root)
        | power_shell ↦ some stat_error
      ]
unfolding volume_list exec put path_of
volume_list-failing unknown_shell = refl
volume_list-failing posix_shell = refl
volume_list-failing power_shell = refl

abbrev sample_attributes : ℕ → ℕ → NodeAttributes
sample_attributes n mode = record {
  node_size = some n;
  crtime = none;
  atime = some (pos 1);
  mtime = some (pos 2);
  ctime = some (pos 3);
  mode = some (of_bits mode);
}

abbrev sample_read : List Line
sample_read =
    (sample_attributes 4096 0o40755, "var", [])
    ∷ (sample_attributes 12 0o100644, "a b", "var" ∷ [])
    ∷ []

abbrev short_output : List String
short_output = "4096 1 2 3 41ed /var" ∷ "find: no" ∷ "12 1 2 3 81a4 /var/a b" ∷ []

short_output-IsOutput : IsOutput hex_mode "" short_output sample_read
unfolding is_skipped parse_stat_posix_line trim_space path_of
short_output-IsOutput = inr (
  sample_attributes 4096 0o40755,
  "var",
  [],
  (sample_attributes 12 0o100644, "a b", "var" ∷ []) ∷ [],
  refl,
  refl,
  refl,
  inl (refl, inr (sample_attributes 12 0o100644, "a b", "var" ∷ [], [], refl, refl, refl, refl)),
)

sample_read-IsListing : IsListing (2 + num_path_segments (trim_prefix "" "")) [] sample_read
unfolding is_empty path_of is_upto is_at_or_below has_file_above of_bits num_path_segments
    trim_prefix
sample_read-IsListing = (
  (refl, (refl, (refl, (refl, tt))), tt),
  omega arith,
  refl,
  refl,
  (
    (refl, (refl, (refl, (refl, tt))), (refl, (refl, (refl, (refl, tt))), tt)),
    omega arith,
    refl,
    refl,
    tt,
  ),
)

abbrev scan_short : String → List String × Bool
scan_short buf = (short_output, false)

volume_list_lem_example :
    (d : DirMap) × (volume_list hex_mode sample_time scan_short
        (λ s. none)
        posix_shell
        ""
        2
        (nonzero "output" "find: x")
      ≡ some (stat_map d))
    × IsTree (2 + num_path_segments (trim_prefix "" "")) d
    × HasLines d sample_read
volume_list_lem_example =
    volume_list_lem hex_mode sample_time scan_short (λ s. none) "" "output" 2
      (nonzero "output" "find: x") short_output sample_read
      (refl, unfold are_normal split_lines in refl) refl short_output-IsOutput sample_read-IsListing

abbrev sample_node : Node ℕ
sample_node = record {
  base = record {
    name = "b";
    slash_replacer = "#";
    id = "";
    ttl = λ op. pos 0;
    wrapped_types = 0;
    own_wrapped_types = none;
    is_prefetched = false;
    is_inaccessible = false;
  };
  attributes = implied_attributes;
  path = "/a/b";
  is_directory = false;
  has_dirmap = true;
}

delete_node_lem_example :
    ((deletion true ≢ deletion true)
      × (delete_node sample_node (deletion true) sample_root ≡ some (deletion true, sample_root)))
    ⊎ ((deletion true ≡ deletion true)
        × (true ≡ false)
        × (delete_node sample_node (deletion true) sample_root ≡ none))
    ⊎ ((deletion true ≡ deletion true)
        × (true ≡ true)
        × ((d' : DirMap) × (delete_node sample_node (deletion true) sample_root
              ≡ some (deletion true, d'))
            × (child (path_of []) "a" d' ≡ (
                if is_gone "b" ("a" ∷ []) "a" []
                then none
                else child (path_of []) "a" sample_root))))
delete_node_lem_example =
    delete_node_lem sample_node "b" ("a" ∷ []) "a" [] (deletion true) sample_root
      (unfold is_empty in (refl, (refl, tt), (refl, (refl, tt), tt)))
      (unfold is_empty in (refl, (refl, tt), tt)) (unfold path_of in refl)
