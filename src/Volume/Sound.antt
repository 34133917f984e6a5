-- ===== src/Volume/Sound.antt =====
-- Maps of directories (volume/stat.go) in which makeChildren can work, and another key in one.
use wash.Prelude.{
  ℕ, ◌≤◌, ◌<◌, String, ◌≡◌, refl, sym, ap, subst, ◌∙◌, ◌≢◌, inl, inr, true, false, Option, some,
  List, [], ◌∷◌, arith, eq_iff, eq_refl, Bool-cases, length,
}
use wash.Prelude.Maps.{put}
use wash.Volume.{Children, DirMap}
use wash.Volume.Paths.{path_of, IsClean}
use wash.Volume.Views.{kind, absent, kind-put, is_explored}
use wash.Volume.Above.{same, same-length, is_upto}

-- Of the paths with at most n segments, those that are keys have keys above them and no nil children.
pub record IsSound (n : ℕ) (d : DirMap) : Type 0 where
  pub root : kind (path_of []) d ≡ some true
  pub above :
      (s : String) (up : List String)
      → IsClean (s ∷ up)
      → length (s ∷ up) ≤ n
      → absent (kind (path_of (s ∷ up)) d) ≡ false
      → absent (kind (path_of up) d) ≡ false
  pub explored : (q : List String) → IsClean q → length q ≤ n → kind (path_of q) d ≢ some false

pub IsSound-upto :
    (n : ℕ) (d : DirMap) (p q : List String)
    → IsSound n d
    → IsClean p
    → IsClean q
    → length p ≤ n
    → absent (kind (path_of p) d) ≡ false
    → is_upto q p ≡ true
    → absent (kind (path_of q) d) ≡ false
unfolding is_upto
IsSound-upto n d [] q sound hp hq le h e =
    subst (λ x. absent (kind x d) ≡ false) (sym ((eq_iff (path_of q) (path_of [])).0 e)) h
IsSound-upto n d (s ∷ up) q sound hp hq le h e = elim (Bool-cases (same q (s ∷ up))) [
  | inl k ↦
      subst (λ x. absent (kind x d) ≡ false) (sym ((eq_iff (path_of q) (path_of (s ∷ up))).0 k)) h
  | inr k ↦
      IsSound-upto n d up q sound hp.2 hq (omega (arith, le)) (sound.above s up hp le h) (rw k at e)
]

-- Another path's key is not touched.
pub kind-put_other :
    (q p : List String) (c : Option Children) (d : DirMap)
    → same q p ≡ false
    → kind (path_of q) (put (path_of p) c d) ≡ kind (path_of q) d
kind-put_other q p c d h = kind-put (path_of q) (path_of p) c d ∙ rw h refl

pub kind-put_same :
    (p : List String) (c : Option Children) (d : DirMap)
    → kind (path_of p) (put (path_of p) c d) ≡ some (is_explored c)
kind-put_same p c d = kind-put (path_of p) (path_of p) c d ∙ rw (eq_refl (path_of p)) refl

-- A new key below does not matter to the paths above.
pub IsSound-put :
    (n : ℕ) (p : List String) (c : Option Children) (d : DirMap)
    → IsClean p
    → n < length p
    → IsSound n d
    → IsSound n (put (path_of p) c d)
IsSound-put n p c d hp lt sound = record {
  root = other [] tt (omega arith) ∙ sound.root;
  above = λ s up h le e.
      ap absent (other up h.2 (omega (arith, le)))
      ∙ sound.above s up h le (ap absent (sym (other (s ∷ up) h le)) ∙ e);
  explored = λ q h le e. sound.explored q h le (sym (other q h le) ∙ e);
}
  where
    other :
        (q : List String)
        → IsClean q
        → length q ≤ n
        → kind (path_of q) (put (path_of p) c d) ≡ kind (path_of q) d
    other q h le = kind-put_other q p c d (same-length q p h hp (λ e. omega (arith, lt, le, e)))

pub IsSound-shorter : (n m : ℕ) (d : DirMap) → m ≤ n → IsSound n d → IsSound m d
IsSound-shorter n m d h sound = record {
  root = sound.root;
  above = λ s up k le. sound.above s up k (omega (arith, h, le));
  explored = λ q k le. sound.explored q k (omega (arith, h, le));
}
