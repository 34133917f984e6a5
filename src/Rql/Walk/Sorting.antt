-- ===== src/Rql/Walk/Sorting.antt =====
-- The order of cnames that sort.Slice of api/rql/walker.go sorts by.
use wash.Prelude.{
  ℕ, zero, suc, String, ◌≡◌, refl, sym, ap, ap₂, subst, ◌∙◌, ◌≢◌, ◌⊎◌, inl, inr, List, [], ◌∷◌,
}
use mathlib.Core.List.{Perm}
use mathlib.Core.List.Perm
use Prim.Native.Char.{code}
use Prim.Native.Nat.{Ordering, compare as compare_ℕ}
use Prim.Native.Nat.compare as compare_ℕ
use Prim.Native.String.{compare, then as and_then_by}
use Prim.Native.String.compare
use wash.Rql.Walk.{insert_by_cname, sort_by_cname}

flip : Ordering → Ordering
flip Ordering.lt = Ordering.gt
flip Ordering.eq = Ordering.eq
flip Ordering.gt = Ordering.lt

flip-and_then_by : (o p : Ordering) → and_then_by (flip o) (flip p) ≡ flip (and_then_by o p)
unfolding flip
flip-and_then_by Ordering.lt p = refl
flip-and_then_by Ordering.eq p = refl
flip-and_then_by Ordering.gt p = refl

compare-flip_number : (m n : ℕ) → compare_ℕ n m ≡ flip (compare_ℕ m n)
unfolding flip
compare-flip_number zero zero = compare_ℕ.zero-zero ∙ ap flip (sym compare_ℕ.zero-zero)
compare-flip_number zero (suc n) = compare_ℕ.suc-zero n ∙ ap flip (sym (compare_ℕ.zero-suc n))
compare-flip_number (suc m) zero = compare_ℕ.zero-suc m ∙ ap flip (sym (compare_ℕ.suc-zero m))
compare-flip_number (suc m) (suc n) =
    compare_ℕ.suc-suc n m ∙ compare-flip_number m n ∙ ap flip (sym (compare_ℕ.suc-suc m n))

compare-flip : (s t : String) → compare t s ≡ flip (compare s t)
unfolding flip
compare-flip String.[] String.[] = compare.nil-nil ∙ ap flip (sym compare.nil-nil)
compare-flip String.[] (String.◌∷◌ d t) =
    compare.cons-nil d t ∙ ap flip (sym (compare.nil-cons d t))
compare-flip (String.◌∷◌ c s) String.[] =
    compare.nil-cons c s ∙ ap flip (sym (compare.cons-nil c s))
compare-flip (String.◌∷◌ c s) (String.◌∷◌ d t) =
    compare.cons-cons d c t s
    ∙ ap₂ and_then_by (compare-flip_number (code c) (code d)) (compare-flip s t)
    ∙ flip-and_then_by (compare_ℕ (code c) (code d)) (compare s t)
    ∙ ap flip (sym (compare.cons-cons c d s t))

-- One text does not stand after the other.
abbrev pub IsNotAfter : String → String → Type 0
IsNotAfter s t = compare s t ≢ Ordering.gt

IsNotAfter-gt : (s t : String) → compare s t ≡ Ordering.gt → IsNotAfter t s
unfolding flip
IsNotAfter-gt s t h e =
    let bad : Ordering.lt ≡ Ordering.gt = sym (compare-flip s t ∙ ap flip h) ∙ e in absurd (cc)

Ordering-cases : (o : Ordering) → (o ≡ Ordering.lt) ⊎ (o ≡ Ordering.eq) ⊎ (o ≡ Ordering.gt)
Ordering-cases Ordering.lt = inl refl
Ordering-cases Ordering.eq = inr (inl refl)
Ordering-cases Ordering.gt = inr (inr refl)

not_gt : (s t : String) (o : Ordering) → compare s t ≡ o → o ≢ Ordering.gt → IsNotAfter s t
not_gt s t o e n g = n (sym e ∙ g)

module _ {A : Type 0} where
  -- By cnames, none after the next one
  abbrev pub AreSorted : List (String × A) → Type 0
  AreSorted [] = Unit {0}
  AreSorted (x ∷ []) = Unit {0}
  AreSorted (x ∷ y ∷ r) = IsNotAfter x.0 y.0 × AreSorted (y ∷ r)

  -- Where an element goes in: in front, or behind an element that it stands after
  insert_by_cname-cases :
      (k m : String) (a c : A) (r : List (String × A))
      → (IsNotAfter k m × (insert_by_cname (k, a) ((m, c) ∷ r) ≡ (k, a) ∷ (m, c) ∷ r))
        ⊎ (IsNotAfter m k
            × (insert_by_cname (k, a) ((m, c) ∷ r) ≡ (m, c) ∷ insert_by_cname (k, a) r))
  unfolding insert_by_cname
  insert_by_cname-cases k m a c r =
      let choose : Ordering → List (String × A) =
        λ o. elim o [ Ordering.gt ↦ (m, c) ∷ insert_by_cname (k, a) r | _ ↦ (k, a) ∷ (m, c) ∷ r ] in
      elim (Ordering-cases (compare k m)) [
        | inl e ↦ inl (not_gt k m Ordering.lt e (λ g. cc), ap choose e)
        | inr (inl e) ↦ inl (not_gt k m Ordering.eq e (λ g. cc), ap choose e)
        | inr (inr e) ↦ inr (IsNotAfter-gt k m e, ap choose e)
      ]

  insert_by_cname-below :
      (k j : String) (a b : A) (r : List (String × A))
      → IsNotAfter j k
      → AreSorted ((j, b) ∷ r)
      → AreSorted ((j, b) ∷ insert_by_cname (k, a) r)
  insert_by_cname-below k j a b [] h sorted = (unfold insert_by_cname in (h, tt))
  insert_by_cname-below k j a b ((m, c) ∷ r) h (first, sorted) =
      elim (insert_by_cname-cases k m a c r) [
        | inl (before, e) ↦ subst (λ l. AreSorted ((j, b) ∷ l)) (sym e) (h, (before, sorted))
        | inr (after, e) ↦
            subst (λ l. AreSorted ((j, b) ∷ l)) (sym e)
              (first, insert_by_cname-below k m a c r after sorted)
      ]

  insert_by_cname-AreSorted :
      (k : String) (a : A) (r : List (String × A))
      → AreSorted r
      → AreSorted (insert_by_cname (k, a) r)
  insert_by_cname-AreSorted k a [] sorted = (unfold insert_by_cname in tt)
  insert_by_cname-AreSorted k a ((m, c) ∷ r) sorted = elim (insert_by_cname-cases k m a c r) [
    | inl (before, e) ↦ subst AreSorted (sym e) (before, sorted)
    | inr (after, e) ↦ subst AreSorted (sym e) (insert_by_cname-below k m a c r after sorted)
  ]

  pub sort_by_cname-AreSorted : (r : List (String × A)) → AreSorted (sort_by_cname r)
  unfolding sort_by_cname
  sort_by_cname-AreSorted [] = tt
  sort_by_cname-AreSorted ((k, a) ∷ r) =
      insert_by_cname-AreSorted k a (sort_by_cname r) (sort_by_cname-AreSorted r)

  insert_by_cname-perm :
      (k : String) (a : A) (r : List (String × A)) → Perm (insert_by_cname (k, a) r) ((k, a) ∷ r)
  insert_by_cname-perm k a [] = (unfold insert_by_cname in Perm.refl ((k, a) ∷ []))
  insert_by_cname-perm k a ((m, c) ∷ r) = elim (insert_by_cname-cases k m a c r) [
    | inl (before, e) ↦ subst (λ l. Perm l ((k, a) ∷ (m, c) ∷ r)) (sym e) (Perm.refl _)
    | inr (after, e) ↦
        subst (λ l. Perm l ((k, a) ∷ (m, c) ∷ r)) (sym e)
          (Perm.trans (Perm.cons (m, c) (insert_by_cname-perm k a r)) (Perm.swap (k, a) (m, c) r))
  ]

  pub sort_by_cname-perm : (r : List (String × A)) → Perm (sort_by_cname r) r
  unfolding sort_by_cname
  sort_by_cname-perm [] = Perm.refl []
  sort_by_cname-perm ((k, a) ∷ r) =
      Perm.trans (insert_by_cname-perm k a (sort_by_cname r))
        (Perm.cons (k, a) (sort_by_cname-perm r))
