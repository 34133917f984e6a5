-- ===== src/Volume/Lines.antt =====
-- The lines of a listing (volume/statPosix.go), and that adding one keeps what the map has of others.
use wash.Prelude.{
  ℕ, ◌≤◌, String, ◌≡◌, refl, sym, ◌∙◌, inl, inr, Bool, true, false, negate, ◌&&◌, ◌||◌, some, List,
  [], ◌∷◌, eq_iff, eq_refl, Bool-cases, length,
}
use wash.Volume.{NodeAttributes, DirMap, is_dir}
use wash.Volume.Paths.{path_of, IsClean}
use wash.Volume.Views.{kind, absent, child}
use wash.Volume.Making.{is_missing}
use wash.Volume.Above.{same, is_upto}
use wash.Volume.Tree.{added}
use wash.Volume.Adding.{IsAdded}

-- The attributes and the path of a line: its last segment and those above
abbrev pub Line : Type 0
Line = NodeAttributes × String × List String

-- A line is at the path q or below it.
unfoldable pub is_at_or_below : List String → List Line → Bool
is_at_or_below q [] = false
is_at_or_below q ((a, s, up) ∷ seen) = is_upto q (s ∷ up) || is_at_or_below q seen

-- A line that is no directory is at the path q or above it.
unfoldable pub has_file_above : List String → List Line → Bool
has_file_above q [] = false
has_file_above q ((a, s, up) ∷ seen) =
    (is_upto (s ∷ up) q && negate (is_dir a)) || has_file_above q seen

-- Clean paths, no deeper than the maximal depth, none after itself or what is below it, and none
-- below a file, as find prints them
abbrev pub IsListing : ℕ → List Line → List Line → Type 0
IsListing maxdepth seen [] = Unit
IsListing maxdepth seen ((a, s, up) ∷ ls) =
    IsClean (s ∷ up)
    × (length (s ∷ up) ≤ maxdepth)
    × (is_at_or_below (s ∷ up) seen ≡ false)
    × (has_file_above up seen ≡ false)
    × IsListing maxdepth ((a, s, up) ∷ seen) ls

-- What the map has of the lines
abbrev pub HasLines : DirMap → List Line → Type 0
HasLines d [] = Unit
HasLines d ((a, s, up) ∷ ls) =
    IsClean (s ∷ up)
    × (child (path_of up) s d ≡ some a)
    × (is_dir a ≡ true → absent (kind (path_of (s ∷ up)) d) ≡ false)
    × HasLines d ls

same_sym : (p q : List String) → same p q ≡ false → same q p ≡ false
same_sym p q h = elim (Bool-cases (same q p)) [
  | inl e ↦
      absurd
        (cc (h, (eq_iff (path_of p) (path_of q)).1 (sym ((eq_iff (path_of q) (path_of p)).0 e))))
  | inr e ↦ e
]

-- The parts of a disjunction that is false
pub or_false : (a b : Bool) → (a || b) ≡ false → (a ≡ false) × (b ≡ false)
or_false false b h = (refl, h)
or_false true b h = absurd (cc)

negate-false : (b : Bool) → negate b ≡ false → b ≡ true
negate-false true h = refl
negate-false false h = absurd (cc)

pub added_self :
    (a : NodeAttributes) (s : String) (up : List String) (d : DirMap) → added a s up s up d ≡ some a
unfolding added
added_self a s up d = rw (eq_refl (path_of (s ∷ up))) refl

is_missing-line :
    (d : DirMap) (b : NodeAttributes) (q up : List String)
    → (is_upto q up && negate (is_dir b)) ≡ false
    → (is_dir b ≡ true → absent (kind (path_of q) d) ≡ false)
    → is_missing q up d ≡ false
unfolding is_missing
is_missing-line d b q up above key = elim (Bool-cases (is_upto q up)) [
  | inl u ↦ rw (u, key (negate-false (is_dir b) (rw u at above))) refl
  | inr u ↦ rw u refl
]

line_stays :
    (d d' : DirMap) (a b : NodeAttributes) (s t : String) (up vp : List String)
    → IsAdded a s up d d'
    → IsClean (t ∷ vp)
    → is_upto (s ∷ up) (t ∷ vp) ≡ false
    → (is_upto (t ∷ vp) up && negate (is_dir b)) ≡ false
    → (is_dir b ≡ true → absent (kind (path_of (t ∷ vp)) d) ≡ false)
    → child (path_of vp) t d ≡ some b
    → child (path_of vp) t d' ≡ some b
unfolding is_upto added
line_stays d d' a b s t up vp is hv fresh above key has =
    let f = or_false (same (s ∷ up) (t ∷ vp)) (is_upto (s ∷ up) vp) fresh in
    is.children t vp hv
    ∙ rw (same_sym (s ∷ up) (t ∷ vp) f.0, is_missing-line d b (t ∷ vp) up above key) has

pub HasLines-step :
    (d d' : DirMap) (a : NodeAttributes) (s : String) (up : List String) (seen : List Line)
    → IsAdded a s up d d'
    → is_at_or_below (s ∷ up) seen ≡ false
    → has_file_above up seen ≡ false
    → HasLines d seen
    → HasLines d' seen
unfolding is_at_or_below has_file_above
HasLines-step d d' a s up [] is fresh above h = tt
HasLines-step d d' a s up ((b, t, vp) ∷ seen) is fresh above (hv, has, key, h) =
    let f = or_false (is_upto (s ∷ up) (t ∷ vp)) (is_at_or_below (s ∷ up) seen) fresh in
    let g = or_false (is_upto (t ∷ vp) up && negate (is_dir b)) (has_file_above up seen) above in
    (
      hv,
      line_stays d d' a b s t up vp is hv f.0 g.0 key has,
      (λ k. is.keys_stay (t ∷ vp) hv (key k)),
      HasLines-step d d' a s up seen is f.1 g.1 h,
    )
