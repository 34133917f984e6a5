-- ===== src/Rql/Prune/Marks.antt =====
-- The map from paths to marks (`result` in api/rql/prune.go).
use wash.Prelude.{
  ℕ, suc, ◌≡◌, refl, ap, ap₂, subst, ◌∙◌, ◌⊎◌, inl, inr, Bool, true, false, none, some, [], ◌∷◌,
  arith, ◌==◌, if◌then◌else◌, Bool-cases, ==_refl, ==→eq, length,
}
use wash.Rql.Prune.{Marks, get_mark, set_mark, delete_mark, is_kept}

pub get_mark-set_mark :
    (n m : ℕ) (b : Bool) (r : Marks)
    → get_mark m (set_mark n b r) ≡ (if m == n then some b else get_mark m r)
unfolding get_mark set_mark
get_mark-set_mark n m b [] = refl
get_mark-set_mark n m b ((k, c) ∷ r) = elim (Bool-cases (n == k)) [
  | inl e ↦ rw e (
      subst
        (λ x.
          (if m == n then some b else get_mark m r)
          ≡ (if m == n then some b else if m == x then some c else get_mark m r))
        (==→eq n k e) (elim (Bool-cases (m == n)) [ inl g ↦ rw g refl | inr g ↦ rw g refl ]))
  | inr e ↦ rw e (elim (Bool-cases (m == k)) [
    | inl g ↦ let d : (m == n) ≡ false = ground (arith, e, g) in rw (g, d) refl
    | inr g ↦ rw g (get_mark-set_mark n m b r)
  ])
]

pub get_mark-delete_mark :
    (n m : ℕ) (r : Marks) → get_mark m (delete_mark n r) ≡ (if m == n then none else get_mark m r)
unfolding get_mark delete_mark
get_mark-delete_mark n m [] = elim (Bool-cases (m == n)) [ inl g ↦ rw g refl | inr g ↦ rw g refl ]
get_mark-delete_mark n m ((k, c) ∷ r) = elim (Bool-cases (n == k)) [
  | inl e ↦ rw e (
      get_mark-delete_mark n m r ∙ (elim (Bool-cases (m == n)) [
        | inl g ↦ rw g refl
        | inr g ↦ let d : (m == k) ≡ false = ground (arith, e, g) in rw (g, d) refl
      ]))
  | inr e ↦ rw e (elim (Bool-cases (m == k)) [
    | inl g ↦ let d : (m == n) ≡ false = ground (arith, e, g) in rw (g, d) refl
    | inr g ↦ rw g (get_mark-delete_mark n m r)
  ])
]

pub set_mark-same : (n : ℕ) (b : Bool) (r : Marks) → get_mark n r ≡ some b → set_mark n b r ≡ r
unfolding get_mark set_mark
set_mark-same n b [] h = absurd (cc)
set_mark-same n b ((k, c) ∷ r) h = elim (Bool-cases (n == k)) [
  | inl e ↦ let s = simp e at h in rw e (ap₂ (λ x y. (x, y) ∷ r) (==→eq n k e) (cc))
  | inr e ↦ let s = simp e at h in rw e (ap (λ x. (k, c) ∷ x) (set_mark-same n b r s))
]

pub length-set_mark :
    (n : ℕ) (b : Bool) (r : Marks) → get_mark n r ≡ none → length (set_mark n b r) ≡ suc (length r)
unfolding get_mark set_mark
length-set_mark n b [] h = refl
length-set_mark n b ((k, c) ∷ r) h = elim (Bool-cases (n == k)) [
  | inl e ↦ let s = simp e at h in absurd (cc)
  | inr e ↦ let s = simp e at h in rw e (ap suc (length-set_mark n b r s))
]

-- The mark of a node that was just marked `true`, and the marks of the others.
pub set_mark-kept : (n : ℕ) (r : Marks) → is_kept (set_mark n true r) n ≡ true
unfolding is_kept
set_mark-kept n r = rw (get_mark-set_mark n n true r, ==_refl n) refl

pub set_mark-keeps :
    (n m : ℕ) (r : Marks) → is_kept r m ≡ true → is_kept (set_mark n true r) m ≡ true
unfolding is_kept
set_mark-keeps n m r h =
    rw (get_mark-set_mark n m true r)
      (elim (Bool-cases (m == n)) [ inl g ↦ rw g refl | inr g ↦ rw g h ])

pub set_mark-only :
    (n m : ℕ) (r : Marks) → is_kept (set_mark n true r) m ≡ true → (m ≡ n) ⊎ (is_kept r m ≡ true)
unfolding is_kept
set_mark-only n m r h = elim (Bool-cases (m == n)) [
  | inl g ↦ inl (==→eq m n g)
  | inr g ↦ inr (simp (get_mark-set_mark n m true r, g) at h)
]

pub set_mark-no_false :
    (n m : ℕ) (r : Marks) → get_mark m (set_mark n true r) ≡ some false → get_mark m r ≡ some false
set_mark-no_false n m r h = elim (Bool-cases (m == n)) [
  | inl g ↦ let s = simp (get_mark-set_mark n m true r, g) at h in absurd (cc)
  | inr g ↦ simp (get_mark-set_mark n m true r, g) at h
]
