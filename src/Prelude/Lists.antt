-- ===== src/Prelude/Lists.antt =====
-- Lists under native indices.
use Prim.Native.Nat.{ℕ, zero, suc, ◌+◌, ◌-◌, ◌≤◌, ◌<◌, min}
use mathlib.Core.Path.{◌≡◌, refl, ap, ◌∙◌}
use mathlib.Core.Option.{Option, none, some}
use mathlib.Core.List.{List, [], ◌∷◌, ◌++◌}
use native.Mathlib.Omega.{arith}

module _ {ℓ} {A : Type ℓ} where
  abbrev pub length : List A → ℕ
  length [] = 0
  length (x ∷ xs) = suc (length xs)

  abbrev pub get_elem? : List A → ℕ → Option A
  get_elem? [] i = none
  get_elem? (x ∷ xs) zero = some x
  get_elem? (x ∷ xs) (suc i) = get_elem? xs i

  pub length-append : (xs ys : List A) → length (xs ++ ys) ≡ length xs + length ys
  length-append [] ys = omega arith
  length-append (x ∷ xs) ys = omega (arith, length-append xs ys)

  abbrev pub get_or : List A → ℕ → A → A
  get_or [] i d = d
  get_or (x ∷ xs) zero d = x
  get_or (x ∷ xs) (suc i) d = get_or xs i d

  abbrev pub take : ℕ → List A → List A
  take zero xs = []
  take (suc n) [] = []
  take (suc n) (x ∷ xs) = x ∷ take n xs

  abbrev pub drop : ℕ → List A → List A
  drop zero xs = xs
  drop (suc n) [] = []
  drop (suc n) (x ∷ xs) = drop n xs

  abbrev pub replicate : ℕ → A → List A
  replicate zero a = []
  replicate (suc n) a = a ∷ replicate n a

  pub length-replicate : (n : ℕ) (a : A) → length (replicate n a) ≡ n
  length-replicate zero a = omega arith
  length-replicate (suc n) a = omega (arith, length-replicate n a)

  pub length-take : (n : ℕ) (xs : List A) → length (take n xs) ≡ min n (length xs)
  length-take zero xs = omega arith
  length-take (suc n) [] = omega arith
  length-take (suc n) (x ∷ xs) = omega (arith, length-take n xs)

  pub length-drop : (n : ℕ) (xs : List A) → length (drop n xs) ≡ length xs - n
  length-drop zero xs = omega arith
  length-drop (suc n) [] = omega arith
  length-drop (suc n) (x ∷ xs) = omega (arith, length-drop n xs)

  pub get_or-replicate : (n i : ℕ) (a : A) → get_or (replicate n a) i a ≡ a
  get_or-replicate zero i a = refl
  get_or-replicate (suc n) zero a = refl
  get_or-replicate (suc n) (suc i) a = get_or-replicate n i a

  pub get_or-beyond : (xs : List A) (i : ℕ) (a : A) → length xs ≤ i → get_or xs i a ≡ a
  get_or-beyond [] i a h = refl
  get_or-beyond (x ∷ xs) zero a h = absurd (omega arith)
  get_or-beyond (x ∷ xs) (suc i) a h = get_or-beyond xs i a (omega arith)

  pub get_or-append_left :
      (xs ys : List A) (i : ℕ) (a : A) → i < length xs → get_or (xs ++ ys) i a ≡ get_or xs i a
  get_or-append_left [] ys i a h = absurd (omega arith)
  get_or-append_left (x ∷ xs) ys zero a h = refl
  get_or-append_left (x ∷ xs) ys (suc i) a h = get_or-append_left xs ys i a (omega arith)

  pub get_or-append_right :
      (xs ys : List A) (i : ℕ) (a : A)
      → length xs ≤ i
      → get_or (xs ++ ys) i a ≡ get_or ys (i - length xs) a
  get_or-append_right [] ys i a h = ap (λ j. get_or ys j a) (omega arith)
  get_or-append_right (x ∷ xs) ys zero a h = absurd (omega arith)
  get_or-append_right (x ∷ xs) ys (suc i) a h =
      get_or-append_right xs ys i a (omega arith) ∙ ap (λ j. get_or ys j a) (omega arith)

  pub get_or-take :
      (n : ℕ) (xs : List A) (i : ℕ) (a : A) → i < n → get_or (take n xs) i a ≡ get_or xs i a
  get_or-take zero xs i a h = absurd (omega arith)
  get_or-take (suc n) [] i a h = refl
  get_or-take (suc n) (x ∷ xs) zero a h = refl
  get_or-take (suc n) (x ∷ xs) (suc i) a h = get_or-take n xs i a (omega arith)

  pub get_or-drop :
      (n : ℕ) (xs : List A) (i : ℕ) (a : A) → get_or (drop n xs) i a ≡ get_or xs (n + i) a
  get_or-drop zero xs i a = ap (λ j. get_or xs j a) (omega arith)
  get_or-drop (suc n) [] i a = refl
  get_or-drop (suc n) (x ∷ xs) i a =
      get_or-drop n xs i a ∙ ap (λ j. get_or (x ∷ xs) j a) {x = suc (n + i)} (omega arith)
