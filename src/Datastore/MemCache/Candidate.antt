-- ===== src/Datastore/MemCache/Candidate.antt =====
-- The candidate of deleteClosestToExpiration (datastore/cache.go).
use wash.Prelude.{
  ℕ, ◌-◌, ◌^◌, ◌≤◌, ◌<◌, String, ◌≡◌, refl, sym, ap, subst, ◌⊎◌, inl, inr, true, false, Option,
  none, some, List, [], ◌∷◌, arith, leb, Bool-cases,
}
use wash.Prelude.Int.{ℤ, pos, negsuc}
use wash.Datastore.GoCache.{GoCache}
use wash.Datastore.MemCache.{
  Cached, MemCache, remaining, is_less, find_candidate, delete_closest_to_expiration,
}

abbrev pub IsItem : String → ℕ → List (String × ℕ) → Type 0
IsItem k e [] = ⊥
IsItem k e ((j, x) ∷ items) = ((k ≡ j) × (e ≡ x)) ⊎ IsItem k e items

not_less_trans : (a b d : ℤ) → is_less a b ≡ false → is_less b d ≡ false → is_less a d ≡ false
unfolding is_less
not_less_trans (pos a) (pos b) (pos d) h g = ground arith
not_less_trans (pos a) (pos b) (negsuc d) h g = refl
not_less_trans (pos a) (negsuc b) (pos d) h g = absurd (cc)
not_less_trans (pos a) (negsuc b) (negsuc d) h g = refl
not_less_trans (negsuc a) (pos b) d h g = absurd (cc)
not_less_trans (negsuc a) (negsuc b) (pos d) h g = absurd (cc)
not_less_trans (negsuc a) (negsuc b) (negsuc d) h g = ground arith

less_asym : (a b : ℤ) → is_less a b ≡ true → is_less b a ≡ false
unfolding is_less
less_asym (pos a) (pos b) h = ground arith
less_asym (pos a) (negsuc b) h = absurd (cc)
less_asym (negsuc a) (pos b) h = refl
less_asym (negsuc a) (negsuc b) h = ground arith

less_irrefl : (a : ℤ) → is_less a a ≡ false
unfolding is_less
less_irrefl (pos a) = ground arith
less_irrefl (negsuc a) = ground arith

remaining_mono : (e x now : ℕ) → is_less (remaining x now) (remaining e now) ≡ false → e ≤ x
unfolding is_less remaining
remaining_mono e x now h = elim (Bool-cases (leb now x)) [
  | inl f ↦ elim (Bool-cases (leb now e)) [
    | inl g ↦ let s = simp (f, g) at h in ground arith
    | inr g ↦ ground arith
  ]
  | inr f ↦ elim (Bool-cases (leb now e)) [
    | inl g ↦ let s = simp (f, g) at h in absurd (cc)
    | inr g ↦ let s = simp (f, g) at h in ground arith
  ]
]

remaining-below : (e now : ℕ) → e < 2 ^ 63 - 1 → is_less (remaining e now) (pos (2 ^ 63 - 1)) ≡ true
unfolding is_less remaining
remaining-below e now h = elim (Bool-cases (leb now e)) [
  | inl g ↦ rw g (ground arith)
  | inr g ↦ rw g refl
]

-- What the loop finds.
record Finds (now : ℕ) (items : List (String × ℕ)) (best result : Option String × ℤ) : Type 0 where
  origin :
      (result ≡ best)
      ⊎ ((k : String) × (e : ℕ) × IsItem k e items × (result ≡ (some k, remaining e now)))
  below_best : is_less best.1 result.1 ≡ false
  least : (k : String) (e : ℕ) → IsItem k e items → is_less (remaining e now) result.1 ≡ false

find_candidate_lem :
    (now : ℕ) (items : List (String × ℕ)) (best : Option String × ℤ)
    → Finds now items best (find_candidate now items best)
unfolding find_candidate
find_candidate_lem now [] best = record {
  origin = inl refl;
  below_best = less_irrefl best.1;
  least = λ k e i. absurd i;
}
find_candidate_lem now ((j, x) ∷ items) (candidate, lowest) =
    elim (Bool-cases (is_less (remaining x now) lowest)) [
      | inl less ↦
          let rest = find_candidate_lem now items (some j, remaining x now) in
          rw less (record {
            origin = elim rest.origin [
              | inl e ↦ inr (j, x, inl (refl, refl), e)
              | inr (k, e, i, r) ↦ inr (k, e, inr i, r)
            ];
            below_best =
                not_less_trans lowest (remaining x now)
                  (find_candidate now items (some j, remaining x now)).1
                  (less_asym (remaining x now) lowest less) rest.below_best;
            least = λ k e i. elim i [
              | inl (_, same) ↦
                  subst
                    (λ y.
                      is_less (remaining y now)
                        (find_candidate now items (some j, remaining x now)).1
                      ≡ false)
                    (sym same) rest.below_best
              | inr m ↦ rest.least k e m
            ];
          })
      | inr not_less ↦
          let rest = find_candidate_lem now items (candidate, lowest) in
          rw not_less (record {
            origin = elim rest.origin [ inl e ↦ inl e | inr (k, e, i, r) ↦ inr (k, e, inr i, r) ];
            below_best = rest.below_best;
            least = λ k e i. elim i [
              | inl (_, same) ↦
                  subst
                    (λ y.
                      is_less (remaining y now) (find_candidate now items (candidate, lowest)).1
                      ≡ false)
                    (sym same)
                    (not_less_trans (remaining x now) lowest
                      (find_candidate now items (candidate, lowest)).1 not_less rest.below_best)
              | inr m ↦ rest.least k e m
            ];
          })
    ]

abbrev pub IsBounded : List (String × ℕ) → Type 0
IsBounded items = (k : String) (e : ℕ) → IsItem k e items → e < 2 ^ 63 - 1

-- What is to be deleted of a cache with unexpired items.
pub record Closest (items : List (String × ℕ)) : Type 0 where
  pub key : String
  pub expiration : ℕ
  pub is_item : IsItem key expiration items
  pub least : (k : String) (e : ℕ) → IsItem k e items → expiration ≤ e

find_candidate-Closest :
    (now : ℕ) (j : String) (x : ℕ) (items : List (String × ℕ))
    → IsBounded ((j, x) ∷ items)
    → (p : Closest ((j, x) ∷ items)) × ((find_candidate now
          ((j, x) ∷ items)
          (none, pos (2 ^ 63 - 1))).0
        ≡ some p.key)
find_candidate-Closest now j x items bounded =
    let found = find_candidate now ((j, x) ∷ items) (none, pos (2 ^ 63 - 1)) in
    let f : Finds now ((j, x) ∷ items) (none, pos (2 ^ 63 - 1)) found =
      find_candidate_lem now ((j, x) ∷ items) (none, pos (2 ^ 63 - 1)) in
    elim f.origin [
      | inl e ↦
          let a = f.least j x (inl (refl, refl)) in
          let b = remaining-below x now (bounded j x (inl (refl, refl))) in
          let d : is_less (remaining x now) (pos (2 ^ 63 - 1)) ≡ false =
            subst (λ y. is_less (remaining x now) y.1 ≡ false) e a in
          absurd (cc)
      | inr (k, e, i, r) ↦ (
        record {
          key = k;
          expiration = e;
          is_item = i;
          least = λ m y n.
              remaining_mono e y now
                (subst (λ z. is_less (remaining y now) z.1 ≡ false) r (f.least m y n));
        },
        ap (λ z. z.0) r,
      )
    ]

candidate-cases :
    (now : ℕ) (items : List (String × ℕ))
    → IsBounded items
    → ((items ≡ []) × ((find_candidate now items (none, pos (2 ^ 63 - 1))).0 ≡ none))
      ⊎ ((p : Closest items) × ((find_candidate now items (none, pos (2 ^ 63 - 1))).0 ≡ some p.key))
unfolding find_candidate
candidate-cases now [] bounded = inl (refl, refl)
candidate-cases now ((j, x) ∷ items) bounded = inr (find_candidate-Closest now j x items bounded)

module _ {V E : Type 0} {c : GoCache (Cached V E)} where
  -- Expirations are below 2^63 - 1. If the cache has no unexpired item, deleteClosestToExpiration
  -- panics; else it deletes one whose expiration is the least of all unexpired items. So items that
  -- never expire, whose expiration is 0, go first.
  pub delete_closest_lem :
      (now : ℕ) (cache : MemCache c)
      → IsBounded (c.items now cache.instance_state)
      → ((c.items now cache.instance_state ≡ []) × (delete_closest_to_expiration now cache ≡ none))
        ⊎ ((p : Closest (c.items now cache.instance_state)) × (delete_closest_to_expiration now
                cache
              ≡ some (record cache { instance_state = c.delete p.key cache.instance_state })))
  unfolding delete_closest_to_expiration
  delete_closest_lem now cache bounded =
      elim (candidate-cases now (c.items now cache.instance_state) bounded) [
        | inl (e, f) ↦ inl (e, rw f refl)
        | inr (p, f) ↦ inr (p, rw f refl)
      ]
