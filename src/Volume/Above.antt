-- ===== src/Volume/Above.antt =====
-- Paths by their segments (volume/stat.go): which is which, and which are above one.
use wash.Prelude.{
  ◌<◌, String, ◌≡◌, refl, sym, ap, ap₂, subst, ◌∙◌, ◌≢◌, inl, inr, Bool, true, false, ◌&&◌, ◌||◌,
  List, [], ◌∷◌, arith, str_eq, eq_iff, eq_refl, Bool-cases, length,
}
use Prim.Native.String.{◌++◌ as append_string}
use wash.Volume.Paths.{path_of, IsClean, path_of-injective}

abbrev pub same : List String → List String → Bool
same p q = str_eq (path_of p) (path_of q)

-- q is the path p or one of those above it
unfoldable pub is_upto : List String → List String → Bool
is_upto q [] = same q []
is_upto q (s ∷ up) = same q (s ∷ up) || is_upto q up

pub same-eq : (p q : List String) → IsClean p → IsClean q → same p q ≡ true → p ≡ q
same-eq p q hp hq e = path_of-injective p q hp hq ((eq_iff (path_of p) (path_of q)).0 e)

-- The test of same-cons, on all lists
same_parts : List String → List String → Bool
same_parts (t ∷ vp) (s ∷ up) = same vp up && str_eq t s
same_parts _ _ = false

same_parts_refl : (t : String) (vp : List String) → same_parts (t ∷ vp) (t ∷ vp) ≡ true
unfolding same_parts
same_parts_refl t vp = rw (eq_refl (path_of vp), eq_refl t) refl

same-parts :
    (t s : String) (vp up : List String)
    → same vp up ≡ true
    → str_eq t s ≡ true
    → same (t ∷ vp) (s ∷ up) ≡ true
unfolding path_of
same-parts t s vp up h k = (eq_iff (path_of (t ∷ vp)) (path_of (s ∷ up))).1 (
    ap₂ (λ u v. append_string u (append_string "/" v)) ((eq_iff (path_of vp) (path_of up)).0 h)
      ((eq_iff t s).0 k))

pub same-cons :
    (t s : String) (vp up : List String)
    → IsClean (t ∷ vp)
    → IsClean (s ∷ up)
    → same (t ∷ vp) (s ∷ up) ≡ (same vp up && str_eq t s)
same-cons t s vp up hv hu = elim (Bool-cases (same (t ∷ vp) (s ∷ up))) [
  | inl e ↦
      e
      ∙ sym (
          unfold same_parts in
          (subst (λ x. same_parts (t ∷ vp) x ≡ true) (same-eq (t ∷ vp) (s ∷ up) hv hu e)
            (same_parts_refl t vp)))
  | inr e ↦ e ∙ elim (Bool-cases (same vp up)) [
    | inr k ↦ rw k refl
    | inl k ↦ elim (Bool-cases (str_eq t s)) [
      | inr j ↦ rw (k, j) refl
      | inl j ↦ absurd (cc (e, same-parts t s vp up k j))
    ]
  ]
]

-- Paths with different numbers of segments are different.
pub same-length :
    (p q : List String) → IsClean p → IsClean q → length p ≢ length q → same p q ≡ false
same-length p q hp hq h = elim (Bool-cases (same p q)) [
  | inl e ↦ absurd (h (ap length (same-eq p q hp hq e)))
  | inr e ↦ e
]

pub is_upto_self : (p : List String) → is_upto p p ≡ true
unfolding is_upto
is_upto_self [] = eq_refl (path_of [])
is_upto_self (s ∷ up) = rw (eq_refl (path_of (s ∷ up))) refl

pub is_upto-longer :
    (q p : List String) → IsClean q → IsClean p → length p < length q → is_upto q p ≡ false
unfolding is_upto
is_upto-longer q [] hq hp h = same-length q [] hq hp (λ e. omega (arith, e))
is_upto-longer q (s ∷ up) hq hp h =
    rw (same-length q (s ∷ up) hq hp (λ e. omega (arith, e)))
      (is_upto-longer q up hq hp.2 (omega arith))
