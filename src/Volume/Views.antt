-- ===== src/Volume/Views.antt =====
-- What a map of directories (volume/stat.go) tells of a path: whether it is a key, with children or
-- nil, and the attributes of each child.
use wash.Prelude.{
  String, ◌≡◌, refl, sym, ap, ◌∙◌, ◌⊎◌, inl, inr, Bool, true, false, ◌&&◌, Option, none, some, [],
  str_eq, eq_iff, if◌then◌else◌, Bool-cases, Option-cases,
}
use wash.Prelude.Maps.{look, put, look-put}
use wash.Volume.{NodeAttributes, Children, DirMap, set_child}

unfoldable pub kind_of : Option (Option Children) → Option Bool
kind_of none = none
kind_of (some none) = some false
kind_of (some (some c)) = some true

-- Nothing if the path is no key, else whether its children are not nil
abbrev pub kind : String → DirMap → Option Bool
kind path d = kind_of (look path d)

abbrev pub absent : Option Bool → Bool
absent none = true
absent (some b) = false

unfoldable pub look_in : String → Option (Option Children) → Option NodeAttributes
unfolding look
look_in file none = none
look_in file (some none) = none
look_in file (some (some c)) = look file c

abbrev pub child : String → String → DirMap → Option NodeAttributes
child path file d = look_in file (look path d)

abbrev pub is_explored : Option Children → Bool
is_explored none = false
is_explored (some c) = true

kind_of-some : (c : Option Children) → kind_of (some c) ≡ some (is_explored c)
unfolding kind_of
kind_of-some none = refl
kind_of-some (some m) = refl

pub kind-put :
    (p j : String) (c : Option Children) (d : DirMap)
    → kind p (put j c d) ≡ (if str_eq p j then some (is_explored c) else kind p d)
unfolding kind_of
kind-put p j c d =
    rw (look-put p j c d)
      (elim (Bool-cases (str_eq p j)) [ inl e ↦ rw e (kind_of-some c) | inr e ↦ rw e refl ])

pub child-put :
    (p f j : String) (c : Option Children) (d : DirMap)
    → child p f (put j c d) ≡ (if str_eq p j then look_in f (some c) else child p f d)
child-put p f j c d =
    rw (look-put p j c d) (elim (Bool-cases (str_eq p j)) [ inl e ↦ rw e refl | inr e ↦ rw e refl ])

pub look-cases :
    (p : String) (d : DirMap)
    → (look p d ≡ none) ⊎ (look p d ≡ some none) ⊎ ((c : Children) × (look p d ≡ some (some c)))
look-cases p d = elim (Option-cases (look p d)) [
  | inl e ↦ inl e
  | inr (none, e) ↦ inr (inl e)
  | inr (some c, e) ↦ inr (inr (c, e))
]

pub child-absent : (p f : String) (d : DirMap) → kind p d ≡ none → child p f d ≡ none
unfolding kind_of look_in
child-absent p f d h = elim (look-cases p d) [
  | inl e ↦ rw e refl
  | inr (inl e) ↦ rw e refl
  | inr (inr (c, e)) ↦ let no = rw e at h in absurd (cc)
]

pub child-kind :
    (p f : String) (d : DirMap) (a : NodeAttributes) → child p f d ≡ some a → kind p d ≡ some true
unfolding kind_of look_in
child-kind p f d a h = elim (look-cases p d) [
  | inl e ↦ let no = rw e at h in absurd (cc)
  | inr (inl e) ↦ let no = rw e at h in absurd (cc)
  | inr (inr (c, e)) ↦ rw e refl
]

kind-none : (p : String) (d : DirMap) → look p d ≡ none → kind p d ≡ none
unfolding kind_of
kind-none p d e = rw e refl

kind-some :
    (p : String) (d : DirMap) (c : Option Children)
    → look p d ≡ some c
    → kind p d ≡ some (is_explored c)
unfolding kind_of
kind-some p d none e = rw e refl
kind-some p d (some c) e = rw e refl

child-some :
    (p f : String) (d : DirMap) (c : Children) → look p d ≡ some (some c) → child p f d ≡ look f c
unfolding look_in
child-some p f d c e = rw e refl

set_child-some :
    (path file : String) (attr : NodeAttributes) (d : DirMap) (c : Children)
    → look path d ≡ some (some c)
    → set_child path file attr d ≡ some (put path (some (put file attr c)) d)
unfolding set_child
set_child-some path file attr d c e = rw (set_child, e) refl

-- What setting a child that can be set does
pub set_child_lem :
    (path file : String) (attr : NodeAttributes) (d : DirMap)
    → kind path d ≡ some true
    → (d' : DirMap) × (set_child path file attr d ≡ some d')
      × ((p : String) → kind p d' ≡ kind p d)
      × ((p f : String)
          → child p f d' ≡ (if str_eq p path && str_eq f file then some attr else child p f d))
set_child_lem path file attr d h = elim (look-cases path d) [
  | inl e ↦ absurd (cc (h, kind-none path d e))
  | inr (inl e) ↦ absurd (cc (h, kind-some path d none e))
  | inr (inr (c, e)) ↦ (
    put path (some (put file attr c)) d,
    set_child-some path file attr d c e,
    (λ p. kind-put p path (some (put file attr c)) d ∙ elim (Bool-cases (str_eq p path)) [
      | inl s ↦ rw s (sym (ap (λ x. kind x d) ((eq_iff p path).0 s) ∙ kind-some path d (some c) e))
      | inr s ↦ rw s refl
    ]),
    (λ p f. child-put p f path (some (put file attr c)) d ∙ elim (Bool-cases (str_eq p path)) [
      | inl s ↦ rw s (
          unfold look_in in
          (look-put f file attr c
            ∙ ap (λ o. if str_eq f file then some attr else o)
                (sym (child-some path f d c e)
                  ∙ ap (λ x. child x f d) (sym ((eq_iff p path).0 s)))))
      | inr s ↦ rw s refl
    ]),
  )
]

pub look_in-none : (f : String) → look_in f none ≡ none
unfolding look_in
look_in-none f = refl

pub look_in-empty : (f : String) (b : Bool) → look_in f (some (if b then none else some [])) ≡ none
unfolding look_in look
look_in-empty f true = refl
look_in-empty f false = refl

-- A key without children, where there was none, is no child and has none.
pub child-put_fresh :
    (p q f : String) (b : Bool) (d : DirMap)
    → kind p d ≡ none
    → child q f (put p (if b then none else some []) d) ≡ child q f d
child-put_fresh p q f b d h =
    child-put q f p (if b then none else some []) d ∙ elim (Bool-cases (str_eq q p)) [
      | inl k ↦
          rw k (
            look_in-empty f b
            ∙ sym (child-absent q f d (ap (λ x. kind x d) ((eq_iff q p).0 k) ∙ h)))
      | inr k ↦ rw k refl
    ]
