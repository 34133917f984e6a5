-- ===== src/Volume/Own.antt =====
-- The key that addAttributesForPath of volume/stat.go enters for a directory itself, and what the
-- map is when the path has its attributes too.
use wash.Prelude.{
  ℕ, ◌≤◌, String, ◌≡◌, refl, sym, ap, subst, ◌∙◌, inl, inr, true, false, ◌&&◌, none, some, List, [],
  ◌∷◌, arith, str_eq, eq_iff, ◌==◌, if◌then◌else◌, Bool-cases, ==→eq, length,
}
use wash.Prelude.Maps.{put}
use wash.Volume.{NodeAttributes, DirMap, is_dir, implied_attributes, add_directory}
use wash.Volume.Paths.{path_of, IsClean, num_path_segments-path_of}
use wash.Volume.Views.{kind, absent, child, child-put_fresh, is_explored}
use wash.Volume.Making.{is_missing, IsMade}
use wash.Volume.Sound.{IsSound, kind-put_other, kind-put_same}
use wash.Volume.Above.{same, same-eq, same-cons, same-length, is_upto, is_upto-longer}
use wash.Volume.Tree.{IsTree, added}

-- The map with the path's own key, if it is a directory's
own_key :
    (maxdepth : ℕ) (s : String) (up : List String) (attr : NodeAttributes) (d : DirMap)
    → IsClean (s ∷ up)
    → (add_directory maxdepth (path_of (s ∷ up)) attr d ≡ (
        if is_dir attr
        then put (path_of (s ∷ up)) (if length (s ∷ up) == maxdepth then none else some []) d
        else d))
unfolding add_directory
own_key maxdepth s up attr d h = rw (num_path_segments-path_of (s ∷ up) h) refl

-- Of a map d with a new path p, what the key of p leaves
pub record HasOwn (maxdepth : ℕ) (p : List String) (attr : NodeAttributes) (d d1 : DirMap)
    : Type 0 where
  pub others : (q : List String) → same q p ≡ false → kind (path_of q) d1 ≡ kind (path_of q) d
  pub own_key : is_dir attr ≡ true → absent (kind (path_of p) d1) ≡ false
  pub own_dir : absent (kind (path_of p) d1) ≡ false → is_dir attr ≡ true
  pub own_nil : kind (path_of p) d1 ≡ some false → length p ≡ maxdepth
  pub children : (t : String) (vp : List String) → child (path_of vp) t d1 ≡ child (path_of vp) t d

nil_depth : (n m : ℕ) → some (is_explored (if n == m then none else some [])) ≡ some false → n ≡ m
nil_depth n m h = elim (Bool-cases (n == m)) [
  | inl e ↦ ==→eq n m e
  | inr e ↦ let no = rw e at h in absurd (cc)
]

pub add_directory-HasOwn :
    (maxdepth : ℕ) (s : String) (up : List String) (attr : NodeAttributes) (d : DirMap)
    → IsClean (s ∷ up)
    → kind (path_of (s ∷ up)) d ≡ none
    → HasOwn maxdepth (s ∷ up) attr d (add_directory maxdepth (path_of (s ∷ up)) attr d)
add_directory-HasOwn maxdepth s up attr d h new =
    subst (HasOwn maxdepth (s ∷ up) attr d) (sym (own_key maxdepth s up attr d h))
      (elim (Bool-cases (is_dir attr)) [
        | inl e ↦ rw e (record {
          others = λ q k. kind-put_other q (s ∷ up) _ d k;
          own_key = λ k. ap absent (kind-put_same (s ∷ up) _ d);
          own_dir = λ k. e;
          own_nil =
              λ k. nil_depth (length (s ∷ up)) maxdepth (sym (kind-put_same (s ∷ up) _ d) ∙ k);
          children = λ t vp. child-put_fresh (path_of (s ∷ up)) (path_of vp) t _ d new;
        })
        | inr e ↦ rw e (record {
          others = λ q k. refl;
          own_key = λ k. absurd (cc (k, e));
          own_dir = λ k. absurd (cc (k));
          own_nil = λ k. absurd (cc (new, k));
          children = λ t vp. refl;
        })
      ])

module _ (maxdepth : ℕ) (s : String) (up : List String) (attr : NodeAttributes) (d d1 : DirMap)
    (hp : IsClean (s ∷ up)) (own : HasOwn maxdepth (s ∷ up) attr d d1) where
  kind_shorter :
      (q : List String)
      → IsClean q
      → length q ≤ length up
      → kind (path_of q) d1 ≡ kind (path_of q) d
  kind_shorter q hq le = own.others q (same-length q (s ∷ up) hq hp (λ e. omega (arith, le, e)))

  pub HasOwn-IsSound : IsSound (length up) d → IsSound (length up) d1
  HasOwn-IsSound sound = record {
    root = kind_shorter [] tt (omega arith) ∙ sound.root;
    above = λ t vp h le e.
        ap absent (kind_shorter vp h.2 (omega (arith, le)))
        ∙ sound.above t vp h le (ap absent (sym (kind_shorter (t ∷ vp) h le)) ∙ e);
    explored = λ q h le e. sound.explored q h le (sym (kind_shorter q h le) ∙ e);
  }

  is_missing-other :
      (q : List String) → same q (s ∷ up) ≡ false → is_missing q up d1 ≡ is_missing q up d
  unfolding is_missing
  is_missing-other q k = ap (λ x. is_upto q up && absent x) (own.others q k)

  module _ (d2 d' : DirMap) (made : IsMade up d1 d2) (kinds : (p : String) → kind p d' ≡ kind p d2)
      (children : (p f : String)
        → child p f d'
          ≡ (if str_eq p (path_of up) && str_eq f s then some attr else child p f d2)) where
    kind_after :
        (q : List String)
        → IsClean q
        → kind (path_of q) d' ≡ (if is_missing q up d1 then some true else kind (path_of q) d1)
    kind_after q hq = kinds (path_of q) ∙ made.kinds q hq

    pub kind_not_missing :
        (q : List String)
        → IsClean q
        → is_missing q up d1 ≡ false
        → kind (path_of q) d' ≡ kind (path_of q) d1
    kind_not_missing q hq m = kind_after q hq ∙ rw m refl

    pub child_after :
        (t : String) (vp : List String)
        → IsClean (t ∷ vp)
        → child (path_of vp) t d' ≡ added attr s up t vp d
    unfolding added
    child_after t vp hv = children (path_of vp) t ∙ elim (Bool-cases (same (t ∷ vp) (s ∷ up))) [
      | inl k ↦ rw (sym (same-cons t s vp up hv hp) ∙ k, k) refl
      | inr k ↦
          rw (sym (same-cons t s vp up hv hp) ∙ k, k)
            (made.children t vp hv ∙ rw (is_missing-other (t ∷ vp) k, own.children t vp) refl)
    ]

    pub own_missing : is_missing (s ∷ up) up d1 ≡ false
    unfolding is_missing
    own_missing = rw (is_upto-longer (s ∷ up) up hp hp.2 (omega arith)) refl

    pub kind_elsewhere :
        (q : List String)
        → IsClean q
        → is_upto q (s ∷ up) ≡ false
        → kind (path_of q) d' ≡ kind (path_of q) d
    unfolding is_missing is_upto
    kind_elsewhere q hq k = elim (Bool-cases (same q (s ∷ up))) [
      | inl g ↦ let no = rw g at k in absurd (cc)
      | inr g ↦ let above = rw g at k in kind_not_missing q hq (rw above refl) ∙ own.others q g
    ]

    kind_missing :
        (q : List String) → IsClean q → is_missing q up d1 ≡ true → kind (path_of q) d' ≡ some true
    kind_missing q hq m = kind_after q hq ∙ rw m refl

    pub keys_stay :
        kind (path_of (s ∷ up)) d ≡ none
        → (q : List String) → IsClean q
        → absent (kind (path_of q) d) ≡ false
        → absent (kind (path_of q) d') ≡ false
    keys_stay new q hq k = elim (Bool-cases (is_missing q up d1)) [
      | inl m ↦ ap absent (kind_missing q hq m)
      | inr m ↦ elim (Bool-cases (same q (s ∷ up))) [
        | inl g ↦
            absurd (
              cc
                (k, new, ap (λ x. absent (kind x d)) ((eq_iff (path_of q) (path_of (s ∷ up))).0 g)))
        | inr g ↦ ap absent (kind_not_missing q hq m ∙ own.others q g) ∙ k
      ]
    ]

    pub IsTree-root : IsTree maxdepth d → kind (path_of []) d' ≡ some true
    IsTree-root tree = kind_after [] tt ∙ elim (Bool-cases (is_missing [] up d1)) [
      | inl k ↦ rw k refl
      | inr k ↦ rw k (kind_shorter [] tt (omega arith) ∙ tree.root)
    ]

    pub IsTree-listed :
        (t : String) (vp : List String)
        → IsTree maxdepth d
        → IsClean (t ∷ vp)
        → absent (kind (path_of (t ∷ vp)) d') ≡ false
        → (a : NodeAttributes) × (child (path_of vp) t d' ≡ some a) × (is_dir a ≡ true)
    unfolding added
    IsTree-listed t vp tree hv k = elim (Bool-cases (same (t ∷ vp) (s ∷ up))) [
      | inl g ↦ (
        attr,
        child_after t vp hv ∙ rw g refl,
        own.own_dir (
            ap (λ x. absent (kind x d1)) (sym ((eq_iff (path_of (t ∷ vp)) (path_of (s ∷ up))).0 g))
            ∙ ap absent (
                sym (
                  kind_not_missing (t ∷ vp) hv (
                    subst (λ x. is_missing x up d1 ≡ false)
                      (sym (same-eq (t ∷ vp) (s ∷ up) hv hp g)) own_missing)))
            ∙ k),
      )
      | inr g ↦ elim (Bool-cases (is_missing (t ∷ vp) up d)) [
        | inl m ↦ (implied_attributes, child_after t vp hv ∙ rw (g, m) refl, refl)
        | inr m ↦
            let (a, c, is) = tree.listed t vp hv (
              ap absent (sym (own.others (t ∷ vp) g))
              ∙ ap absent (sym (kind_not_missing (t ∷ vp) hv (is_missing-other (t ∷ vp) g ∙ m)))
              ∙ k) in
            (a, child_after t vp hv ∙ rw (g, m) c, is)
      ]
    ]

    pub IsTree-unexplored :
        (q : List String)
        → IsTree maxdepth d
        → IsClean q
        → kind (path_of q) d' ≡ some false
        → length q ≡ maxdepth
    IsTree-unexplored q tree hq k = elim (Bool-cases (is_missing q up d1)) [
      | inl m ↦ absurd (cc (sym (kind_after q hq) ∙ k, m))
      | inr m ↦ elim (Bool-cases (same q (s ∷ up))) [
        | inl g ↦
            ap length (same-eq q (s ∷ up) hq hp g)
            ∙ own.own_nil (
                ap (λ x. kind x d1) (sym ((eq_iff (path_of q) (path_of (s ∷ up))).0 g))
                ∙ sym (kind_not_missing q hq m)
                ∙ k)
        | inr g ↦ tree.unexplored q hq (sym (own.others q g) ∙ sym (kind_not_missing q hq m) ∙ k)
      ]
    ]
