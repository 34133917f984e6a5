-- ===== src/Prelude/Maps.antt =====
-- Maps of the Go language from strings, as association lists without an order that means anything.
use mathlib.Core.Path.{◌≡◌, refl, ◌∙◌, subst}
use mathlib.Core.Logic.{inl, inr}
use mathlib.Core.Bool.{false}
use mathlib.Core.Option.{Option, none, some}
use mathlib.Core.List.{List, [], ◌∷◌}
use text.Mathlib.Text.{◌==◌ as str_eq}
use text.Mathlib.TextEquality.{eq_iff}
use Prim.Native.String.{String}
use wash.Prelude.Tests.{if◌then◌else◌, Bool-cases}

module _ {V : Type 0} where
  unfoldable pub look : String → List (String × V) → Option V
  look k [] = none
  look k ((j, v) ∷ m) = if str_eq k j then some v else look k m

  -- m[k] = v
  unfoldable pub put : String → V → List (String × V) → List (String × V)
  put k v [] = (k, v) ∷ []
  put k v ((j, w) ∷ m) = if str_eq k j then (k, v) ∷ m else (j, w) ∷ put k v m

  -- delete(m, k)
  unfoldable pub remove : String → List (String × V) → List (String × V)
  remove k [] = []
  remove k ((j, w) ∷ m) = if str_eq k j then remove k m else (j, w) ∷ remove k m

  pub look-put :
      (k j : String) (v : V) (m : List (String × V))
      → look k (put j v m) ≡ (if str_eq k j then some v else look k m)
  unfolding look put
  look-put k j v [] = refl
  look-put k j v ((i, w) ∷ m) = elim (Bool-cases (str_eq j i)) [
    | inl e ↦ rw e (elim (Bool-cases (str_eq k j)) [
      | inl h ↦ rw h refl
      | inr h ↦ rw (h, subst (λ x. str_eq k x ≡ false) ((eq_iff j i).0 e) h) refl
    ])
    | inr e ↦ rw e (elim (Bool-cases (str_eq k i)) [
      | inl h ↦ rw h (elim (Bool-cases (str_eq k j)) [
        | inl g ↦ absurd (cc ((eq_iff k j).0 g))
        | inr g ↦ rw g refl
      ])
      | inr h ↦ rw h (look-put k j v m)
    ])
  ]

  pub look-remove :
      (k j : String) (m : List (String × V))
      → look k (remove j m) ≡ (if str_eq k j then none else look k m)
  unfolding look remove
  look-remove k j [] = elim (Bool-cases (str_eq k j)) [ inl e ↦ rw e refl | inr e ↦ rw e refl ]
  look-remove k j ((i, w) ∷ m) = elim (Bool-cases (str_eq j i)) [
    | inl e ↦ rw e (elim (Bool-cases (str_eq k j)) [
      | inl h ↦ rw h (look-remove k j m ∙ rw h refl)
      | inr h ↦
          rw (h, subst (λ x. str_eq k x ≡ false) ((eq_iff j i).0 e) h)
            (look-remove k j m ∙ rw h refl)
    ])
    | inr e ↦ rw e (elim (Bool-cases (str_eq k i)) [
      | inl h ↦ rw h (elim (Bool-cases (str_eq k j)) [
        | inl g ↦ absurd (cc ((eq_iff k j).0 g))
        | inr g ↦ rw g refl
      ])
      | inr h ↦ rw h (look-remove k j m)
    ])
  ]
