-- ===== src/Datastore/MemCache/Deletion.antt =====
-- The keys before and after Delete (datastore/cache.go).
use wash.Prelude.{
  ℕ, String, ◌≡◌, refl, sym, ap, subst, ◌∙◌, inl, inr, Bool, true, false, none, List, [], ◌∷◌,
  str_eq, eq_iff, if◌then◌else◌, Bool-cases, Option-cases,
}
use wash.Datastore.GoCache.{GoCache, Laws, has_key}
use wash.Datastore.MemCache.{Cached, MemCache, delete_matching, delete}

abbrev pub matching_keys : (String → Bool) → List (String × ℕ) → List String
matching_keys matches [] = []
matching_keys matches ((k, e) ∷ items) =
    if matches k then k ∷ matching_keys matches items else matching_keys matches items

module _ {A : Type 0} {c : GoCache A} (laws : Laws c) (matches : String → Bool) where
  delete_matching-keys :
      (items : List (String × ℕ)) (s : c.State)
      → (delete_matching c matches items s).0 ≡ matching_keys matches items
  unfolding delete_matching
  delete_matching-keys [] s = refl
  delete_matching-keys ((k, e) ∷ items) s = elim (Bool-cases (matches k)) [
    | inl m ↦ rw m (ap (λ r. k ∷ r) (delete_matching-keys items (c.delete k s)))
    | inr m ↦ rw m (delete_matching-keys items s)
  ]

  delete_matching-none :
      (items : List (String × ℕ)) (now : ℕ) (k : String) (s : c.State)
      → c.get now k s ≡ none
      → c.get now k (delete_matching c matches items s).1 ≡ none
  unfolding delete_matching
  delete_matching-none [] now k s h = h
  delete_matching-none ((j, e) ∷ items) now k s h = elim (Bool-cases (matches j)) [
    | inr m ↦ rw m (delete_matching-none items now k s h)
    | inl m ↦ elim (Bool-cases (str_eq k j)) [
      | inl same ↦ rw m (
          delete_matching-none items now k (c.delete j s) (
            subst (λ x. c.get now x (c.delete j s) ≡ none) (sym ((eq_iff k j).0 same))
              (laws.get-delete now j s)))
      | inr other ↦ rw m (
          delete_matching-none items now k (c.delete j s)
            (laws.get-delete_other now k j s other ∙ h))
    ]
  ]

  delete_matching-gone :
      (items : List (String × ℕ)) (now : ℕ) (k : String) (s : c.State)
      → matches k ≡ true
      → has_key k items ≡ true
      → c.get now k (delete_matching c matches items s).1 ≡ none
  unfolding delete_matching has_key
  delete_matching-gone [] now k s m i = absurd (cc)
  delete_matching-gone ((j, e) ∷ items) now k s m i = elim (Bool-cases (str_eq k j)) [
    | inl same ↦
        let at_j : matches j ≡ true = subst (λ x. matches x ≡ true) ((eq_iff k j).0 same) m in
        rw at_j (
          delete_matching-none items now k (c.delete j s) (
            subst (λ x. c.get now x (c.delete j s) ≡ none) (sym ((eq_iff k j).0 same))
              (laws.get-delete now j s)))
    | inr other ↦
        let rest : has_key k items ≡ true = simp other at i in
        elim (Bool-cases (matches j)) [
          | inl n ↦ rw n (delete_matching-gone items now k (c.delete j s) m rest)
          | inr n ↦ rw n (delete_matching-gone items now k s m rest)
        ]
  ]

  delete_matching-keeps :
      (items : List (String × ℕ)) (now : ℕ) (k : String) (s : c.State)
      → matches k ≡ false
      → c.get now k (delete_matching c matches items s).1 ≡ c.get now k s
  unfolding delete_matching
  delete_matching-keeps [] now k s m = refl
  delete_matching-keeps ((j, e) ∷ items) now k s m = elim (Bool-cases (matches j)) [
    | inr n ↦ rw n (delete_matching-keeps items now k s m)
    | inl n ↦
        let other : str_eq k j ≡ false = elim (Bool-cases (str_eq k j)) [
          | inr o ↦ o
          | inl same ↦
              let at_k = subst (λ x. matches x ≡ true) (sym ((eq_iff k j).0 same)) n in absurd (cc)
        ] in
        rw n (
          delete_matching-keeps items now k (c.delete j s) m
          ∙ laws.get-delete_other now k j s other)
  ]

-- What Delete is to do.
pub record Deletes {V E : Type 0} {c : GoCache (Cached V E)} (now : ℕ) (matches : String → Bool)
    (cache : MemCache c) (result : List String × MemCache c) : Type 0 where
  pub returns : result.0 ≡ matching_keys matches (c.items now cache.instance_state)
  pub removes : (k : String) → matches k ≡ true → c.get now k result.1.instance_state ≡ none
  pub keeps :
      (k : String)
      → matches k ≡ false
      → c.get now k result.1.instance_state ≡ c.get now k cache.instance_state

-- Delete returns the keys of the unexpired items that match, no key that matches has an item
-- afterwards, and every other key has the one that it had.
pub delete-Deletes :
    {V E : Type 0} {c : GoCache (Cached V E)} (laws : Laws c) (now : ℕ) (matches : String → Bool)
    (cache : MemCache c)
    → Deletes now matches cache (delete now matches cache)
unfolding delete
delete-Deletes {c = c} laws now matches cache =
    let s = cache.instance_state in
    let items = c.items now s in
    record {
      returns = delete_matching-keys laws matches items s;
      removes = λ k m. elim (Option-cases (c.get now k s)) [
        | inl e ↦ delete_matching-none laws matches items now k s e
        | inr (v, e) ↦
            delete_matching-gone laws matches items now k s m (laws.items-get now k v s e)
      ];
      keeps = λ k m. delete_matching-keeps laws matches items now k s m;
    }
