-- ===== src/Volume/Listing.antt =====
-- ParseStatPOSIX of volume/statPosix.go on a whole listing, in the order in which find prints it.
use wash.Prelude.{
  ℕ, ◌+◌, ◌≤◌, String, ◌≡◌, refl, sym, subst, ◌∙◌, ◌⊎◌, inl, inr, true, false, Option, none, some,
  List, [], ◌∷◌, length,
}
use wash.Prelude.Maps.{put}
use wash.Volume.{NodeAttributes, DirMap, trim_prefix, num_path_segments, add_attributes_for_path}
use wash.Volume.Posix.{
  stat_map, is_skipped, parse_stat_posix_line, trim_space, add_lines, parse_stat_posix,
}
use wash.Volume.Paths.{path_of, IsClean}
use wash.Volume.Views.{kind}
use wash.Volume.Above.{is_upto}
use wash.Volume.Tree.{IsTree, root_map-IsTree, no_other}
use wash.Volume.Adding.{add_attributes-returns}
use Prim.Native.String.{◌++◌ as append_string}
use wash.Volume.Lines.{
  Line, is_at_or_below, has_file_above, IsListing, HasLines, or_false, HasLines-step, added_self,
}

record IsBuilt (maxdepth : ℕ) (seen : List Line) (d : DirMap) : Type 0 where
  tree : IsTree maxdepth d
  others :
      (s : String) (up : List String)
      → IsClean (s ∷ up)
      → is_at_or_below (s ∷ up) seen ≡ false
      → kind (path_of (s ∷ up)) d ≡ none
  lines : HasLines d seen

IsBuilt-step :
    (maxdepth : ℕ) (base : String) (d : DirMap) (a : NodeAttributes) (s : String) (up : List String)
    (seen : List Line)
    → IsBuilt maxdepth seen d
    → IsClean (s ∷ up)
    → length (s ∷ up) ≤ maxdepth
    → is_at_or_below (s ∷ up) seen ≡ false
    → has_file_above up seen ≡ false
    → (d' : DirMap) × (add_attributes_for_path d a base
          (append_string base (path_of (s ∷ up)))
          maxdepth
        ≡ some d')
      × IsBuilt maxdepth ((a, s, up) ∷ seen) d'
unfolding is_at_or_below
IsBuilt-step maxdepth base d a s up seen built hp le fresh above =
    let (d', e, is, tree) =
      add_attributes-returns maxdepth d a base s up hp le (built.others s up hp fresh) built.tree in
    (
      d',
      e,
      record {
        tree = tree;
        others = λ t vp hv k.
            let f = or_false (is_upto (t ∷ vp) (s ∷ up)) (is_at_or_below (t ∷ vp) seen) k in
            is.elsewhere (t ∷ vp) hv f.0 ∙ built.others t vp hv f.1;
        lines = (
          hp,
          is.children s up hp ∙ added_self a s up d,
          is.is_key_too,
          HasLines-step d d' a s up seen is fresh above built.lines,
        );
      },
    )

-- The lines that the loop does not skip, with their attributes and paths below the base
abbrev pub IsOutput : (String → Option ℕ) → String → List String → List Line → Type 0
IsOutput parse_uint base [] ls = ls ≡ []
IsOutput parse_uint base (line ∷ output) ls =
    ((is_skipped line ≡ true) × IsOutput parse_uint base output ls)
    ⊎ ((a : NodeAttributes) × (s : String) × (up : List String) × (rest : List Line) × (ls
          ≡ (a, s, up) ∷ rest)
        × (is_skipped line ≡ false)
        × (parse_stat_posix_line parse_uint (trim_space line)
            ≡ some (a, append_string base (path_of (s ∷ up))))
        × IsOutput parse_uint base output rest)

-- Those that were seen and those that are to come
accumulate : List Line → List Line → List Line
accumulate [] seen = seen
accumulate (l ∷ ls) seen = accumulate ls (l ∷ seen)

HasLines-accumulate :
    (d : DirMap) (ls seen : List Line)
    → HasLines d (accumulate ls seen)
    → HasLines d ls × HasLines d seen
unfolding accumulate
HasLines-accumulate d [] seen h = (tt, h)
HasLines-accumulate d ((a, s, up) ∷ ls) seen h =
    let (here, (hp, has, key, rest)) = HasLines-accumulate d ls ((a, s, up) ∷ seen) h in
    ((hp, has, key, here), rest)

add_lines_lem :
    (parse_uint : String → Option ℕ) (base : String) (maxdepth : ℕ) (output : List String)
    (ls seen : List Line) (d : DirMap)
    → IsOutput parse_uint base output ls
    → IsListing maxdepth seen ls
    → IsBuilt maxdepth seen d
    → (d' : DirMap) × (add_lines parse_uint base maxdepth false output d ≡ some (stat_map d'))
      × IsBuilt maxdepth (accumulate ls seen) d'
unfolding add_lines accumulate
add_lines_lem parse_uint base maxdepth [] ls seen d o l built =
    (d, refl, subst (λ x. IsBuilt maxdepth (accumulate x seen) d) (sym o) built)
add_lines_lem parse_uint base maxdepth (line ∷ output) ls seen d (inl (k, o)) l built =
    let (d', e, done) = add_lines_lem parse_uint base maxdepth output ls seen d o l built in
    (d', rw k e, done)
add_lines_lem parse_uint base maxdepth (line ∷ output) ls seen d
      (inr (a, s, up, rest, same_lines, k, parsed, o)) l built =
    let (hp, le, fresh, above, later) = subst (IsListing maxdepth seen) same_lines l in
    let (d1, e1, step) = IsBuilt-step maxdepth base d a s up seen built hp le fresh above in
    let (d', e, done) =
      add_lines_lem parse_uint base maxdepth output rest ((a, s, up) ∷ seen) d1 o later step in
    (
      d',
      rw (k, parsed, e1) e,
      subst (λ x. IsBuilt maxdepth (accumulate x seen) d') (sym same_lines) done,
    )

root-IsBuilt : (maxdepth : ℕ) → IsBuilt maxdepth [] (put (path_of []) (some []) [])
root-IsBuilt maxdepth = record {
  tree = root_map-IsTree maxdepth;
  others = λ s up h k. no_other s up h;
  lines = tt;
}

-- ParseStatPOSIX of such a listing does not fail, and its map is a tree with the lines.
pub parse_stat_posix_lem :
    (parse_uint : String → Option ℕ) (base start : String) (maxdepth : ℕ) (output : List String)
    (ls : List Line)
    → IsOutput parse_uint base output ls
    → IsListing (maxdepth + num_path_segments (trim_prefix base start)) [] ls
    → (d : DirMap) × (parse_stat_posix parse_uint base start maxdepth false output
        ≡ some (stat_map d))
      × IsTree (maxdepth + num_path_segments (trim_prefix base start)) d
      × HasLines d ls
unfolding parse_stat_posix path_of
parse_stat_posix_lem parse_uint base start maxdepth output ls o l =
    let depth = maxdepth + num_path_segments (trim_prefix base start) in
    let (d, e, built) =
      add_lines_lem parse_uint base depth output ls [] (put (path_of []) (some []) []) o l
        (root-IsBuilt depth) in
    (d, e, built.tree, (HasLines-accumulate d ls [] built.lines).0)
