-- ===== src/Volume/Making.antt =====
-- What makeChildren of volume/stat.go makes: the directories on the way to a path that are missing.
use wash.Prelude.{
  ℕ, zero, suc, ◌<◌, String, ◌≡◌, refl, sym, ap, ◌∙◌, inl, inr, Bool, true, false, negate, ◌&&◌,
  Option, none, some, List, [], ◌∷◌, arith, str_eq, eq_iff, if◌then◌else◌, Bool-cases, Option-cases,
  length,
}
use wash.Prelude.Maps.{put}
use wash.Prelude.Maybe.{◌>>=◌}
use wash.Volume.{DirMap, implied_attributes, make_children, set_child, is_key}
use wash.Volume.Paths.{path_of, IsClean, parent_of-path_of, file_of-path_of}
use wash.Volume.Views.{kind_of, kind, absent, child, child-put_fresh, set_child_lem, look-cases}
use wash.Volume.Above.{same, same-cons, is_upto, is_upto_self}
use wash.Volume.Sound.{
  IsSound, IsSound-upto, kind-put_other, kind-put_same, IsSound-put, IsSound-shorter,
}

unfoldable pub is_missing : List String → List String → DirMap → Bool
is_missing q p d = is_upto q p && absent (kind (path_of q) d)

-- What makeChildren of the path p makes of d: each missing key, and its attributes above it.
pub record IsMade (p : List String) (d d' : DirMap) : Type 0 where
  pub kinds :
      (q : List String)
      → IsClean q
      → kind (path_of q) d' ≡ (if is_missing q p d then some true else kind (path_of q) d)
  pub children :
      (t : String) (vp : List String)
      → IsClean (t ∷ vp)
      → child (path_of vp) t d'
        ≡ (if is_missing (t ∷ vp) p d then some implied_attributes else child (path_of vp) t d)

is_key-absent : (p : String) (d : DirMap) → is_key p d ≡ negate (absent (kind p d))
unfolding kind_of
is_key-absent p d = elim (look-cases p d) [
  | inl e ↦ rw e refl
  | inr (inl e) ↦ rw e refl
  | inr (inr (c, e)) ↦ rw e refl
]

make_children-key :
    (f : ℕ) (p : String) (d : DirMap)
    → absent (kind p d) ≡ false
    → make_children (suc f) p d ≡ some d
unfolding make_children
make_children-key f p d h = rw (is_key-absent p d, h) refl

make_children-new :
    (f : ℕ) (s : String) (up : List String) (d : DirMap)
    → IsClean (s ∷ up)
    → absent (kind (path_of (s ∷ up)) d) ≡ true
    → make_children (suc f) (path_of (s ∷ up)) d ≡ (
        make_children f (path_of up) (put (path_of (s ∷ up)) (some []) d)
        >>= set_child (path_of up) s implied_attributes)
unfolding make_children
make_children-new f s up d (_, hs, _) h =
    rw (is_key-absent (path_of (s ∷ up)) d, h, parent_of-path_of s up hs, file_of-path_of s up hs)
      refl

is_missing-key :
    (p q : List String) (d : DirMap)
    → IsSound (length p) d
    → IsClean p
    → IsClean q
    → absent (kind (path_of p) d) ≡ false
    → is_missing q p d ≡ false
unfolding is_missing
is_missing-key p q d sound hp hq h = elim (Bool-cases (is_upto q p)) [
  | inl e ↦ rw (e, IsSound-upto (length p) d p q sound hp hq (omega arith) h e) refl
  | inr e ↦ rw e refl
]

IsMade-key :
    (p : List String) (d : DirMap)
    → IsSound (length p) d
    → IsClean p
    → absent (kind (path_of p) d) ≡ false
    → IsMade p d d
IsMade-key p d sound hp h = record {
  kinds = λ q hq. rw (is_missing-key p q d sound hp hq h) refl;
  children = λ t vp hv. rw (is_missing-key p (t ∷ vp) d sound hp hv h) refl;
}

-- Of a sound map, the path that makeChildren makes can take children.
pub IsMade-explored :
    (p : List String) (d d' : DirMap)
    → IsClean p
    → IsSound (length p) d
    → IsMade p d d'
    → kind (path_of p) d' ≡ some true
unfolding is_missing
IsMade-explored p d d' hp sound made = made.kinds p hp ∙ elim (Option-cases (kind (path_of p) d)) [
  | inl e ↦ rw (is_upto_self p, e) refl
  | inr (true, e) ↦ rw (is_upto_self p, e) refl
  | inr (false, e) ↦ absurd (sound.explored p hp (omega arith) e)
]

pub absent-none : (o : Option Bool) → absent o ≡ true → o ≡ none
absent-none none h = refl
absent-none (some b) h = absurd (cc)

IsMade-cons :
    (s : String) (up : List String) (d d3 d4 : DirMap)
    → IsClean (s ∷ up)
    → absent (kind (path_of (s ∷ up)) d) ≡ true
    → IsMade up (put (path_of (s ∷ up)) (some []) d) d3
    → ((p : String) → kind p d4 ≡ kind p d3)
    → ((p f : String)
        → child p f d4
          ≡ (if str_eq p (path_of up) && str_eq f s then some implied_attributes else child p f d3))
    → IsMade (s ∷ up) d d4
unfolding is_missing is_upto
IsMade-cons s up d d3 d4 hp e made kinds children = record {
  kinds = λ q hq. kinds (path_of q) ∙ made.kinds q hq ∙ kinds_at q hq;
  children = λ t vp hv. children (path_of vp) t ∙ children_at t vp hv;
}
  where
    absent_at : (q : List String) → same q (s ∷ up) ≡ true → absent (kind (path_of q) d) ≡ true
    absent_at q k = ap (λ x. absent (kind x d)) ((eq_iff (path_of q) (path_of (s ∷ up))).0 k) ∙ e

    kinds_at :
        (q : List String)
        → IsClean q
        → (if is_missing q up (put (path_of (s ∷ up)) (some []) d)
            then some true
            else kind (path_of q) (put (path_of (s ∷ up)) (some []) d))
          ≡ (if is_missing q (s ∷ up) d then some true else kind (path_of q) d)
    kinds_at q hq = elim (Bool-cases (same q (s ∷ up))) [
      | inl k ↦
          let now_key =
            ap (λ x. kind x (put (path_of (s ∷ up)) (some []) d))
              ((eq_iff (path_of q) (path_of (s ∷ up))).0 k)
            ∙ kind-put_same (s ∷ up) (some []) d in
          rw (now_key, k, absent_at q k)
            (elim (Bool-cases (is_upto q up)) [ inl g ↦ rw g refl | inr g ↦ rw g refl ])
      | inr k ↦ rw (kind-put_other q (s ∷ up) (some []) d k, k) refl
    ]

    child_above :
        (t : String) (vp : List String)
        → child (path_of vp) t (put (path_of (s ∷ up)) (some []) d) ≡ child (path_of vp) t d
    child_above t vp =
        child-put_fresh (path_of (s ∷ up)) (path_of vp) t false d
          (absent-none (kind (path_of (s ∷ up)) d) e)

    children_at :
        (t : String) (vp : List String)
        → IsClean (t ∷ vp)
        → (if same vp up && str_eq t s then some implied_attributes else child (path_of vp) t d3)
          ≡ (if is_missing (t ∷ vp) (s ∷ up) d
              then some implied_attributes
              else child (path_of vp) t d)
    children_at t vp hv = elim (Bool-cases (same (t ∷ vp) (s ∷ up))) [
      | inl k ↦ rw (sym (same-cons t s vp up hv hp) ∙ k, k, absent_at (t ∷ vp) k) refl
      | inr k ↦
          rw (sym (same-cons t s vp up hv hp) ∙ k, k)
            (made.children t vp hv
              ∙ rw (kind-put_other (t ∷ vp) (s ∷ up) (some []) d k, child_above t vp) refl)
    ]

-- With fuel above the number of segments, makeChildren ends.
pub make_children_lem :
    (f : ℕ) (p : List String) (d : DirMap)
    → IsClean p
    → IsSound (length p) d
    → length p < f
    → (d' : DirMap) × (make_children f (path_of p) d ≡ some d') × IsMade p d d'
make_children_lem zero p d hp sound lt = absurd (omega (arith, lt))
make_children_lem (suc f) [] d hp sound lt =
    let key = ap absent sound.root in
    (d, make_children-key f (path_of []) d key, IsMade-key [] d sound hp key)
make_children_lem (suc f) (s ∷ up) d hp sound lt =
    elim (Bool-cases (absent (kind (path_of (s ∷ up)) d))) [
      | inr e ↦ (d, make_children-key f (path_of (s ∷ up)) d e, IsMade-key (s ∷ up) d sound hp e)
      | inl e ↦
          let below =
            IsSound-put (length up) (s ∷ up) (some []) d hp (omega arith)
              (IsSound-shorter (length (s ∷ up)) (length up) d (omega arith) sound) in
          let (d3, e3, made) =
            make_children_lem f up (put (path_of (s ∷ up)) (some []) d) hp.2 below
              (omega (arith, lt)) in
          let (d4, e4, kinds, children) =
            set_child_lem (path_of up) s implied_attributes d3
              (IsMade-explored up (put (path_of (s ∷ up)) (some []) d) d3 hp.2 below made) in
          (
            d4,
            make_children-new f s up d hp e ∙ (rw e3 e4),
            IsMade-cons s up d d3 d4 hp e made kinds children,
          )
    ]
