-- ===== src/Datastore/MemCache/ListCache.antt =====
-- A list of items that keeps the promises of go-cache.
use wash.Prelude.{
  ℕ, zero, suc, ◌+◌, ◌≤◌, ◌<◌, String, ◌≡◌, refl, subst, inl, inr, Bool, true, false, ◌||◌, Option,
  none, some, List, [], ◌∷◌, arith, str_eq, eq_iff, eq_refl, ltb, ◌==◌, if◌then◌else◌, Bool-cases,
  length,
}
use wash.Prelude.Int.{ℤ, pos, negsuc}
use wash.Datastore.GoCache.{GoCache, Laws, has_key}

pub record Item (A : Type 0) : Type 0 where
  pub key : String
  pub content : A
  pub expiration : ℕ

abbrev pub expire : ℕ → ℤ → ℕ
expire now (pos zero) = 0
expire now (pos (suc n)) = now + suc n
expire now (negsuc n) = 0

alive-expire : (now : ℕ) (ttl : ℤ) → (expire now ttl == 0 || ltb now (expire now ttl)) ≡ true
alive-expire now (pos zero) = refl
alive-expire now (pos (suc n)) = ground arith
alive-expire now (negsuc n) = refl

module _ {A : Type 0} where
  abbrev pub is_alive : ℕ → Item A → Bool
  is_alive now i = i.expiration == 0 || ltb now i.expiration

  unfoldable pub find : ℕ → String → List (Item A) → Option (A)
  find now k [] = none
  find now k (i ∷ s) =
      if str_eq k i.key then (if is_alive now i then some i.content else none) else find now k s

  unfoldable pub remove : String → List (Item A) → List (Item A)
  remove k [] = []
  remove k (i ∷ s) = if str_eq k i.key then remove k s else i ∷ remove k s

  unfoldable pub list_items : ℕ → List (Item A) → List (String × ℕ)
  list_items now [] = []
  list_items now (i ∷ s) =
      if is_alive now i then (i.key, i.expiration) ∷ list_items now s else list_items now s

  unfoldable pub remove_expired : ℕ → List (Item A) → List (Item A)
  remove_expired now [] = []
  remove_expired now (i ∷ s) =
      if is_alive now i then i ∷ remove_expired now s else remove_expired now s

  find-remove : (now : ℕ) (k : String) (s : List (Item A)) → find now k (remove k s) ≡ none
  unfolding find remove
  find-remove now k [] = refl
  find-remove now k (i ∷ s) = elim (Bool-cases (str_eq k i.key)) [
    | inl e ↦ rw e (find-remove now k s)
    | inr e ↦ rw e (rw e (find-remove now k s))
  ]

  find-remove_other :
      (now : ℕ) (k j : String) (s : List (Item A))
      → str_eq k j ≡ false
      → find now k (remove j s) ≡ find now k s
  unfolding find remove
  find-remove_other now k j [] o = refl
  find-remove_other now k j (i ∷ s) o = elim (Bool-cases (str_eq j i.key)) [
    | inr e ↦ rw e (elim (Bool-cases (str_eq k i.key)) [
      | inl f ↦ rw f refl
      | inr f ↦ rw f (find-remove_other now k j s o)
    ])
    | inl e ↦
        let f : str_eq k i.key ≡ false = subst (λ x. str_eq k x ≡ false) ((eq_iff j i.key).0 e) o in
        rw (e, f) (find-remove_other now k j s o)
  ]

  length-remove : (k : String) (s : List (Item A)) → length (remove k s) ≤ length s
  unfolding remove
  length-remove k [] = omega arith
  length-remove k (i ∷ s) = elim (Bool-cases (str_eq k i.key)) [
    | inl e ↦ rw e (omega (arith, length-remove k s))
    | inr e ↦ rw e (omega (arith, length-remove k s))
  ]

  length-remove_found :
      (now : ℕ) (k : String) (v : A) (s : List (Item A))
      → find now k s ≡ some v
      → length (remove k s) < length s
  unfolding find remove
  length-remove_found now k v [] h = absurd (cc)
  length-remove_found now k v (i ∷ s) h = elim (Bool-cases (str_eq k i.key)) [
    | inl e ↦ rw e (omega (arith, length-remove k s))
    | inr e ↦ rw e (omega (arith, length-remove_found now k v s (simp e at h)))
  ]

  length-remove_item :
      (now : ℕ) (k : String) (s : List (Item A))
      → has_key k (list_items now s) ≡ true
      → length (remove k s) < length s
  unfolding remove list_items has_key
  length-remove_item now k [] h = absurd (cc)
  length-remove_item now k (i ∷ s) h = elim (Bool-cases (str_eq k i.key)) [
    | inl e ↦ rw e (omega (arith, length-remove k s))
    | inr e ↦ elim (Bool-cases (is_alive now i)) [
      | inl a ↦ rw e (omega (arith, length-remove_item now k s (simp (a, e) at h)))
      | inr a ↦ rw e (omega (arith, length-remove_item now k s (simp a at h)))
    ]
  ]

  has_key-find :
      (now : ℕ) (k : String) (v : A) (s : List (Item A))
      → find now k s ≡ some v
      → has_key k (list_items now s) ≡ true
  unfolding find list_items has_key
  has_key-find now k v [] h = absurd (cc)
  has_key-find now k v (i ∷ s) h = elim (Bool-cases (str_eq k i.key)) [
    | inl e ↦ elim (Bool-cases (is_alive now i)) [
      | inl a ↦ rw (a, e) refl
      | inr a ↦ let x = simp (e, a) at h in absurd (cc)
    ]
    | inr e ↦ elim (Bool-cases (is_alive now i)) [
      | inl a ↦ rw (a, e) (has_key-find now k v s (simp e at h))
      | inr a ↦ rw a (has_key-find now k v s (simp e at h))
    ]
  ]

abbrev pub list_cache : (A : Type 0) → GoCache A
list_cache A = record {
  State = List (Item A);
  get = find {A = A};
  set = λ now k v ttl s. record { key = k; content = v; expiration = expire now ttl } ∷ remove k s;
  delete = remove {A = A};
  items = list_items {A = A};
  item_count = λ s. length s;
  delete_expired = remove_expired {A = A};
  clear = λ s. [];
}

pub list_cache-Laws : (A : Type 0) → Laws (list_cache A)
unfolding find
list_cache-Laws A = record {
  get-set = λ now k v ttl s. rw (eq_refl k, alive-expire now ttl) refl;
  get-delete = find-remove;
  get-delete_other = find-remove_other;
  count-set = λ now k v ttl s. omega (arith, length-remove k s);
  count-set_present = λ now k v w ttl s h. omega (arith, length-remove_found now k w s h);
  count-delete = length-remove_item;
  items-get = has_key-find;
}
