-- ===== src/Datastore/MemCache/Limit.antt =====
-- The number of items before and after GetOrUpdate (datastore/cache.go).
use wash.Prelude.{
  ℕ, ◌≤◌, ◌<◌, String, ◌≡◌, refl, ap, inl, inr, Bool, true, Option, none, some, List, [], ◌∷◌,
  arith, str_eq, eq_iff, ltb, leb, Bool-cases, Option-cases,
}
use wash.Prelude.Int.{ℤ}
use wash.Datastore.GoCache.{GoCache, Laws, has_key}
use wash.Datastore.MemCache.{
  Cached, MemCache, form_key, get_or_update, on_miss, make_room, delete_closest_to_expiration,
}
use wash.Datastore.MemCache.Candidate.{IsItem, IsBounded, delete_closest_lem}

IsItem-has_key :
    (k : String) (e : ℕ) (items : List (String × ℕ)) → IsItem k e items → has_key k items ≡ true
unfolding has_key
IsItem-has_key k e [] i = absurd i
IsItem-has_key k e ((j, x) ∷ items) (inl (same, _)) = rw ((eq_iff k j).1 same) refl
IsItem-has_key k e ((j, x) ∷ items) (inr i) = elim (Bool-cases (str_eq k j)) [
  | inl s ↦ rw s refl
  | inr s ↦ rw s (IsItem-has_key k e items i)
]

module _ {V E : Type 0} {c : GoCache (Cached V E)} (laws : Laws c) where
  abbrev pub IsWithin : MemCache c → Type 0
  IsWithin cache = c.item_count cache.instance_state ≤ cache.limit

  -- What is to be true of the cache that a call leaves, if it does not panic.
  abbrev pub Leaves : {A : Type 0} → (MemCache c → Type 0) → Option (A × MemCache c) → Type 0
  Leaves P none = Unit {0}
  Leaves P (some (a, cache)) = P cache

  HasRoom : MemCache c → Option (MemCache c) → Type 0
  HasRoom cache none = Unit {0}
  HasRoom cache (some d) = (c.item_count d.instance_state < d.limit) × (d.limit ≡ cache.limit)

  make_room-HasRoom :
      (now : ℕ) (cache : MemCache c)
      → 0 < cache.limit
      → IsWithin cache
      → IsBounded (c.items now cache.instance_state)
      → HasRoom cache (make_room now cache)
  unfolding make_room HasRoom
  make_room-HasRoom now cache pos within bounded =
      let on : ltb 0 cache.limit ≡ true = ground arith in
      elim (Bool-cases (leb cache.limit (c.item_count cache.instance_state))) [
        | inr free ↦ rw (on, free) (ground arith, refl)
        | inl full ↦ elim (delete_closest_lem now cache bounded) [
          | inl (e, panics) ↦ rw (on, full, panics) tt
          | inr (p, deletes) ↦
              rw (on, full, deletes)
                (
                  omega (
                    arith,
                    laws.count-delete now p.key cache.instance_state
                        (IsItem-has_key p.key p.expiration _ p.is_item),
                  ),
                  refl,
                )
        ]
      ]

  on_miss-IsWithin :
      (now : ℕ) (k : String) (ttl : ℤ) (generated : Cached V E) (cache : MemCache c)
      (room : Option (MemCache c))
      → HasRoom cache room
      → Leaves (λ d. IsWithin d × (d.limit ≡ cache.limit)) (on_miss now k ttl generated room)
  unfolding on_miss HasRoom
  on_miss-IsWithin now k ttl generated cache none h = tt
  on_miss-IsWithin now k ttl generated cache (some d) (less, same) =
      (omega (arith, laws.count-set now k generated ttl d.instance_state), same)

  -- Of a cache with a limit, holding no more items than that, expired ones included, GetOrUpdate
  -- leaves a cache with the same limit that holds no more items than that, unless it panics.
  pub get_or_update-IsWithin :
      (now : ℕ) (category key : String) (ttl : ℤ) (reset : Bool) (generated : Cached V E)
      (cache : MemCache c)
      → 0 < cache.limit
      → IsWithin cache
      → IsBounded (c.items now cache.instance_state)
      → Leaves
          (λ d. IsWithin d × (d.limit ≡ cache.limit))
          (get_or_update now category key ttl reset generated cache)
  unfolding get_or_update
  get_or_update-IsWithin now category key ttl reset generated cache pos within bounded =
      let k = form_key category key in
      elim (Option-cases (c.get now k cache.instance_state)) [
        | inl miss ↦ rw miss (
            on_miss-IsWithin now k ttl generated cache (make_room now cache)
              (make_room-HasRoom now cache pos within bounded))
        | inr (v, hit) ↦ elim (Bool-cases reset) [
          | inr r ↦ rw (hit, r) (within, refl)
          | inl r ↦
              rw (hit, r)
                (omega (arith, laws.count-set_present now k v v ttl cache.instance_state hit), refl)
        ]
      ]

  panics_when_empty :
      (now : ℕ) (cache : MemCache c)
      → c.items now cache.instance_state ≡ []
      → delete_closest_to_expiration now cache ≡ none
  unfolding delete_closest_to_expiration
  panics_when_empty now cache e = rw e refl

  -- A cache that is full of expired items, so that none is unexpired, makes GetOrUpdate panic at
  -- every key.
  pub get_or_update-panics :
      (now : ℕ) (category key : String) (ttl : ℤ) (reset : Bool) (generated : Cached V E)
      (cache : MemCache c)
      → 0 < cache.limit
      → cache.limit ≤ c.item_count cache.instance_state
      → c.items now cache.instance_state ≡ []
      → get_or_update now category key ttl reset generated cache ≡ none
  unfolding get_or_update make_room on_miss has_key
  get_or_update-panics now category key ttl reset generated cache pos full expired =
      let k = form_key category key in
      let on : ltb 0 cache.limit ≡ true = ground arith in
      let over : leb cache.limit (c.item_count cache.instance_state) ≡ true = ground arith in
      elim (Option-cases (c.get now k cache.instance_state)) [
        | inr (v, hit) ↦
            let i = laws.items-get now k v cache.instance_state hit in
            let n = ap (has_key k) expired in absurd (cc)
        | inl miss ↦ rw (miss, on, over, panics_when_empty now cache expired) refl
      ]
