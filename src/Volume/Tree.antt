-- ===== src/Volume/Tree.antt =====
-- A map of directories (volume/stat.go) as a tree.
use wash.Prelude.{
  ℕ, ◌<◌, String, ◌≡◌, ap, Bool, true, false, Option, none, some, List, [], ◌∷◌, arith,
  if◌then◌else◌, length,
}
use wash.Prelude.Maps.{look, put}
use wash.Volume.{NodeAttributes, DirMap, is_dir, implied_attributes}
use wash.Volume.Paths.{path_of, IsClean}
use wash.Volume.Views.{kind_of, kind, absent, child, child-kind}
use wash.Volume.Making.{is_missing}
use wash.Volume.Sound.{IsSound, kind-put_other, kind-put_same}
use wash.Volume.Above.{same, same-length}

-- The root has children, each other key is a directory among the children of the path above it, and
-- only at the maximal depth are its children nil.
pub record IsTree (maxdepth : ℕ) (d : DirMap) : Type 0 where
  pub root : kind (path_of []) d ≡ some true
  pub listed :
      (s : String) (up : List String)
      → IsClean (s ∷ up)
      → absent (kind (path_of (s ∷ up)) d) ≡ false
      → (a : NodeAttributes) × (child (path_of up) s d ≡ some a) × (is_dir a ≡ true)
  pub unexplored :
      (q : List String) → IsClean q → kind (path_of q) d ≡ some false → length q ≡ maxdepth

pub no_other :
    (s : String) (up : List String)
    → IsClean (s ∷ up)
    → kind (path_of (s ∷ up)) (put (path_of []) (some []) []) ≡ none
unfolding kind_of look
no_other s up h =
    kind-put_other (s ∷ up) [] (some []) [] (same-length (s ∷ up) [] h tt (λ e. omega (arith, e)))

no_nil :
    (maxdepth : ℕ) (q : List String)
    → IsClean q
    → kind (path_of q) (put (path_of []) (some []) []) ≡ some false
    → length q ≡ maxdepth
no_nil maxdepth [] h k = absurd (cc (kind-put_same [] (some []) [], k))
no_nil maxdepth (s ∷ up) h k = absurd (cc (no_other s up h, k))

-- What the parsers begin with
pub root_map-IsTree : (maxdepth : ℕ) → IsTree maxdepth (put (path_of []) (some []) [])
root_map-IsTree maxdepth = record {
  root = kind-put_same [] (some []) [];
  listed = λ s up h k. absurd (cc (ap absent (no_other s up h), k));
  unexplored = no_nil maxdepth;
}

-- The path is p itself, or one above it that is missing, or neither.
unfoldable pub added :
    NodeAttributes → String → List String → String → List String → DirMap → Option NodeAttributes
unfolding is_missing
added attr s up t vp d =
    if same (t ∷ vp) (s ∷ up)
    then some attr
    else if is_missing (t ∷ vp) up d
    then some implied_attributes
    else child (path_of vp) t d

absent-some : (o : Option Bool) (b : Bool) → o ≡ some b → absent o ≡ false
absent-some o b e = ap absent e

pub IsTree-IsSound : (maxdepth n : ℕ) (d : DirMap) → n < maxdepth → IsTree maxdepth d → IsSound n d
IsTree-IsSound maxdepth n d lt tree = record {
  root = tree.root;
  above = λ s up h le e.
      let (a, k, _) = tree.listed s up h e in
      absent-some (kind (path_of up) d) true (child-kind (path_of up) s d a k);
  explored = λ q h le e. absurd (omega (arith, lt, le, tree.unexplored q h e));
}
