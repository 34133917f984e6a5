-- ===== src/Prelude/Members.antt =====
-- Lists of numbers as sets, and how many numbers of a list are not yet in a set.
use Prim.Native.Nat.{ℕ, ◌+◌, ◌≤◌, ◌<◌}
use mathlib.Core.Path.{◌≡◌, refl, sym, ap, subst, ◌∙◌}
use mathlib.Core.Logic.{◌⊎◌, inl, inr}
use mathlib.Core.Bool.{Bool, true, false, ◌||◌}
use mathlib.Core.List.{List, [], ◌∷◌}
use native.Mathlib.Omega.{arith}
use wash.Prelude.Tests.{◌==◌, ==→eq, ==_refl, Bool-cases, if◌then◌else◌}
use wash.Prelude.Lists.{length}

unfoldable pub contains : ℕ → List ℕ → Bool
contains n [] = false
contains n (x ∷ xs) = n == x || contains n xs

pub contains-head : (n : ℕ) (xs : List ℕ) → contains n (n ∷ xs) ≡ true
unfolding contains
contains-head n xs = rw (==_refl n)

pub contains-tail : (n m : ℕ) (xs : List ℕ) → contains n xs ≡ true → contains n (m ∷ xs) ≡ true
unfolding contains
contains-tail n m xs h = ground (arith, h)

pub contains-cons :
    (n m : ℕ) (xs : List ℕ) → contains n (m ∷ xs) ≡ true → (n ≡ m) ⊎ (contains n xs ≡ true)
unfolding contains
contains-cons n m xs h = elim (Bool-cases (n == m)) [
  | inl e ↦ inl (==→eq n m e)
  | inr e ↦ inr (sym (simp e) ∙ h)
]

unfoldable pub filter : (ℕ → Bool) → List ℕ → List ℕ
filter test [] = []
filter test (x ∷ xs) = if test x then x ∷ filter test xs else filter test xs

-- How many numbers fail the test.
pub count_failing : (ℕ → Bool) → List ℕ → ℕ
count_failing test [] = 0
count_failing test (x ∷ xs) = (if test x then 0 else 1) + count_failing test xs

pub count_failing-length : (test : ℕ → Bool) (xs : List ℕ) → count_failing test xs ≤ length xs
unfolding count_failing
count_failing-length test [] = omega arith
count_failing-length test (x ∷ xs) = ground (arith, count_failing-length test xs)

pub count_failing-le :
    (test wider : ℕ → Bool) (xs : List ℕ)
    → ((x : ℕ) → test x ≡ true → wider x ≡ true)
    → count_failing wider xs ≤ count_failing test xs
unfolding count_failing
count_failing-le test wider [] h = omega arith
count_failing-le test wider (x ∷ xs) h = elim (Bool-cases (test x)) [
  | inl e ↦ rw (e, h x e) (omega (arith, count_failing-le test wider xs h))
  | inr e ↦ ground (arith, e, count_failing-le test wider xs h)
]

pub count_failing-lt :
    (test wider : ℕ → Bool) (xs : List ℕ) (k : ℕ)
    → ((x : ℕ) → test x ≡ true → wider x ≡ true)
    → contains k xs ≡ true
    → test k ≡ false
    → wider k ≡ true
    → count_failing wider xs < count_failing test xs
unfolding count_failing contains
count_failing-lt test wider [] k h m f g = absurd (cc)
count_failing-lt test wider (x ∷ xs) k h m f g = elim (contains-cons k x xs m) [
  | inl e ↦
      let g' : wider x ≡ true = ap wider (sym e) ∙ g in
      let f' : test x ≡ false = ap test (sym e) ∙ f in
      rw (f', g') (omega (arith, count_failing-le test wider xs h))
  | inr i ↦
      let rest = count_failing-lt test wider xs k h i f g in
      elim (Bool-cases (test x)) [
        | inl e ↦ rw (e, h x e) (omega (arith, rest))
        | inr e ↦ ground (arith, e, rest)
      ]
]

pub contains-filter :
    (test : ℕ → Bool) (c : ℕ) (xs : List ℕ)
    → contains c (filter test xs) ≡ true
    → (contains c xs ≡ true) × (test c ≡ true)
unfolding contains filter
contains-filter test c [] h = absurd (cc)
contains-filter test c (x ∷ xs) h = elim (Bool-cases (test x)) [
  | inr e ↦ let p = contains-filter test c xs (simp e at h) in (contains-tail c x xs p.0, p.1)
  | inl e ↦
      let s : contains c (x ∷ filter test xs) ≡ true = simp e at h in
      elim (contains-cons c x (filter test xs) s) [
        | inl g ↦ (
          subst (λ y. contains y (x ∷ xs) ≡ true) (sym g) (contains-head x xs),
          subst (λ y. test y ≡ true) (sym g) e,
        )
        | inr i ↦ let p = contains-filter test c xs i in (contains-tail c x xs p.0, p.1)
      ]
]

pub filter-contains :
    (test : ℕ → Bool) (c : ℕ) (xs : List ℕ)
    → contains c xs ≡ true
    → test c ≡ true
    → contains c (filter test xs) ≡ true
unfolding contains filter
filter-contains test c [] h t = absurd (cc)
filter-contains test c (x ∷ xs) h t = elim (contains-cons c x xs h) [
  | inl g ↦ let e : test x ≡ true = subst (λ y. test y ≡ true) g t in rw (e, g, ==_refl x) refl
  | inr i ↦
      let rest = filter-contains test c xs i t in
      elim (Bool-cases (test x)) [
        | inl e ↦ rw e (contains-tail c x (filter test xs) rest)
        | inr e ↦ rw e rest
      ]
]
