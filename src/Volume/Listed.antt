-- ===== src/Volume/Listed.antt =====
-- VolumeList of volume/fs.go on a POSIX shell, on what find and stat print.
use wash.Prelude.{ℕ, ◌+◌, String, ◌≡◌, ap, ◌∙◌, Bool, true, false, Option, some, List, [], ◌∷◌}
use wash.Prelude.Int.{ℤ}
use wash.Volume.{trim_prefix, num_path_segments, DirMap}
use wash.Volume.Posix.{stat_map, parse_stat_posix}
use wash.Volume.Fs.{
  Executed, output_of, nonzero, exec_failed, posix_shell, split_lines, are_normal, volume_list,
}
use wash.Volume.Tree.{IsTree}
use wash.Volume.Lines.{Line, IsListing, HasLines}
use wash.Volume.Listing.{IsOutput, parse_stat_posix_lem}

-- The command exits with 0, or with messages on stderr that are tolerated; `buf` is its stdout.
abbrev pub IsTolerated : Executed → String → Type 0
IsTolerated (output_of out) buf = out ≡ buf
IsTolerated (nonzero out err) buf =
    (out ≡ buf) × (are_normal posix_shell ((split_lines err).0 ∷ (split_lines err).1) ≡ true)
IsTolerated exec_failed buf = ⊥

module _ (parse_uint : String → Option ℕ) (parse_rfc3339 : String → Option ℤ)
    (scan : String → List String × Bool) (read_csv : String → Option (List (List String))) where
  volume_list-parse :
      (path buf : String) (maxdepth : ℕ) (executed : Executed)
      → IsTolerated executed buf
      → volume_list parse_uint parse_rfc3339 scan read_csv posix_shell path maxdepth executed
        ≡ parse_stat_posix parse_uint "" path maxdepth (scan buf).1 (scan buf).0
  unfolding volume_list
  volume_list-parse path buf maxdepth (output_of out) h =
      ap (λ b. parse_stat_posix parse_uint "" path maxdepth (scan b).1 (scan b).0) h
  volume_list-parse path buf maxdepth (nonzero out err) (h, k) =
      rw k (ap (λ b. parse_stat_posix parse_uint "" path maxdepth (scan b).1 (scan b).0) h)
  volume_list-parse path buf maxdepth exec_failed h = absurd h

  -- VolumeList on a POSIX shell, when the command exits with 0 or with messages of find and stat only,
  -- and prints clean paths in an order in which none stands after what is below it or below a file,
  -- each once and no deeper than the maximal depth below the path, returns, without an error or a
  -- panic, a tree in which each path has the attributes of its line and each directory among them is
  -- a key.
  pub volume_list_lem :
      (path buf : String) (maxdepth : ℕ) (executed : Executed) (output : List String)
      (ls : List Line)
      → IsTolerated executed buf
      → scan buf ≡ (output, false)
      → IsOutput parse_uint "" output ls
      → IsListing (maxdepth + num_path_segments (trim_prefix "" path)) [] ls
      → (d : DirMap) × (volume_list parse_uint parse_rfc3339 scan read_csv posix_shell path maxdepth
            executed
          ≡ some (stat_map d))
        × IsTree (maxdepth + num_path_segments (trim_prefix "" path)) d
        × HasLines d ls
  volume_list_lem path buf maxdepth executed output ls h scanned o l =
      let (d, e, tree, has) = parse_stat_posix_lem parse_uint "" path maxdepth output ls o l in
      (
        d,
        volume_list-parse path buf maxdepth executed h
            ∙ ap (λ r. parse_stat_posix parse_uint "" path maxdepth r.1 r.0) scanned
            ∙ e,
        tree,
        has,
      )
