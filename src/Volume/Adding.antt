-- ===== src/Volume/Adding.antt =====
-- addAttributesForPath of volume/stat.go: a map of directories stays a tree.
use wash.Prelude.{
  ℕ, suc, ◌≤◌, String, ◌≡◌, refl, ap, ◌∙◌, true, false, none, some, List, ◌∷◌, arith, ltb, length,
}
use wash.Prelude.Maybe.{◌>>=◌}
use wash.Prelude.Texts.{size}
use wash.Volume.{
  NodeAttributes, DirMap, is_dir, make_children, set_child, add_directory, add_attributes_for_path,
}
use wash.Volume.Paths.{
  path_of, IsClean, parent_of-path_of, file_of-path_of, trim_prefix-append,
  num_path_segments-path_of, size-path_of,
}
use wash.Volume.Views.{kind, absent, child, set_child_lem}
use wash.Volume.Making.{IsMade-explored, make_children_lem}
use wash.Volume.Above.{is_upto}
use Prim.Native.String.{◌++◌ as append_string}
use wash.Volume.Tree.{IsTree, IsTree-IsSound, added}
use wash.Volume.Own.{
  add_directory-HasOwn, HasOwn-IsSound, kind_not_missing, child_after, kind_elsewhere, keys_stay,
  own_missing, IsTree-root, IsTree-listed, IsTree-unexplored,
}

not_deeper : (m n : ℕ) → n ≤ m → ltb m n ≡ false
not_deeper m n h = ground arith

-- What addAttributesForPath does on a path of segments, before it is known to return
add_attributes-steps :
    (d : DirMap) (attr : NodeAttributes) (base s : String) (up : List String) (maxdepth : ℕ)
    → IsClean (s ∷ up)
    → length (s ∷ up) ≤ maxdepth
    → add_attributes_for_path d attr base (append_string base (path_of (s ∷ up))) maxdepth ≡ (
        make_children
          (suc (size (path_of (s ∷ up))))
          (path_of up)
          (add_directory maxdepth (path_of (s ∷ up)) attr d)
        >>= set_child (path_of up) s attr)
unfolding add_attributes_for_path
add_attributes-steps d attr base s up maxdepth h le =
    rw
      (
        trim_prefix-append base (path_of (s ∷ up)),
        num_path_segments-path_of (s ∷ up) h,
        parent_of-path_of s up h.1,
        file_of-path_of s up h.1,
      )
      (rw (not_deeper maxdepth (suc (length up)) le) refl)

-- What adding a path, not a key before, with its attributes makes of d
pub record IsAdded (attr : NodeAttributes) (s : String) (up : List String) (d d' : DirMap)
    : Type 0 where
  pub children :
      (t : String) (vp : List String)
      → IsClean (t ∷ vp)
      → child (path_of vp) t d' ≡ added attr s up t vp d
  pub elsewhere :
      (q : List String)
      → IsClean q
      → is_upto q (s ∷ up) ≡ false
      → kind (path_of q) d' ≡ kind (path_of q) d
  pub keys_stay :
      (q : List String)
      → IsClean q
      → absent (kind (path_of q) d) ≡ false
      → absent (kind (path_of q) d') ≡ false
  pub is_key_too : is_dir attr ≡ true → absent (kind (path_of (s ∷ up)) d') ≡ false

pub add_attributes-returns :
    (maxdepth : ℕ) (d : DirMap) (attr : NodeAttributes) (base s : String) (up : List String)
    → IsClean (s ∷ up)
    → length (s ∷ up) ≤ maxdepth
    → kind (path_of (s ∷ up)) d ≡ none
    → IsTree maxdepth d
    → (d' : DirMap) × (add_attributes_for_path d attr base
          (append_string base (path_of (s ∷ up)))
          maxdepth
        ≡ some d')
      × IsAdded attr s up d d'
      × IsTree maxdepth d'
add_attributes-returns maxdepth d attr base s up hp le new tree =
    let own = add_directory-HasOwn maxdepth s up attr d hp new in
    let d1 = add_directory maxdepth (path_of (s ∷ up)) attr d in
    let sound =
      HasOwn-IsSound maxdepth s up attr d d1 hp own
        (IsTree-IsSound maxdepth (length up) d (omega (arith, le)) tree) in
    let (d2, e2, made) =
      make_children_lem (suc (size (path_of (s ∷ up)))) up d1 hp.2 sound
        (omega (arith, size-path_of (s ∷ up))) in
    let (d', e', kinds, children) =
      set_child_lem (path_of up) s attr d2 (IsMade-explored up d1 d2 hp.2 sound made) in
    (
      d',
      add_attributes-steps d attr base s up maxdepth hp le ∙ rw e2 e',
      record {
        children = child_after maxdepth s up attr d d1 hp own d2 d' made kinds children;
        elsewhere = kind_elsewhere maxdepth s up attr d d1 hp own d2 d' made kinds children;
        keys_stay = keys_stay maxdepth s up attr d d1 hp own d2 d' made kinds children new;
        is_key_too = λ k.
            ap absent (
              kind_not_missing maxdepth s up attr d d1 hp own d2 d' made kinds children (s ∷ up) hp
                (own_missing maxdepth s up attr d d1 hp own d2 d' made kinds children))
            ∙ own.own_key k;
      },
      record {
        root = IsTree-root maxdepth s up attr d d1 hp own d2 d' made kinds children tree;
        listed = λ x xs h k.
            IsTree-listed maxdepth s up attr d d1 hp own d2 d' made kinds children x xs tree h k;
        unexplored = λ q h k.
            IsTree-unexplored maxdepth s up attr d d1 hp own d2 d' made kinds children q tree h k;
      },
    )

-- addAttributesForPath of a clean path below the base, no deeper than the maximal depth and no key
-- yet, of a map that is a tree, returns a tree in which the path has the attributes, each path above
-- it that was no key is a directory with mode 0550, and every other path has what it had.
pub add_attributes_for_path_lem :
    (maxdepth : ℕ) (d : DirMap) (attr : NodeAttributes) (base s : String) (up : List String)
    (t : String) (vp : List String)
    → IsClean (s ∷ up)
    → IsClean (t ∷ vp)
    → length (s ∷ up) ≤ maxdepth
    → kind (path_of (s ∷ up)) d ≡ none
    → IsTree maxdepth d
    → (d' : DirMap) × (add_attributes_for_path d attr base
          (append_string base (path_of (s ∷ up)))
          maxdepth
        ≡ some d')
      × (child (path_of vp) t d' ≡ added attr s up t vp d)
      × IsTree maxdepth d'
add_attributes_for_path_lem maxdepth d attr base s up t vp hp hv le new tree =
    let (d', e, is, tree') = add_attributes-returns maxdepth d attr base s up hp le new tree in
    (d', e, is.children t vp hv, tree')
