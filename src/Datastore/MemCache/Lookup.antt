-- ===== src/Datastore/MemCache/Lookup.antt =====
-- GetOrUpdate and a Get after it (datastore/cache.go).
use wash.Prelude.{
  ℕ, ◌≤◌, ◌<◌, String, ◌≡◌, refl, ◌⊎◌, inl, inr, Bool, ◌&&◌, Option, none, some, [], arith, ltb,
  leb, Bool-cases, Option-cases,
}
use wash.Prelude.Int.{ℤ}
use wash.Datastore.GoCache.{GoCache, Laws}
use wash.Datastore.MemCache.Candidate.{IsBounded, delete_closest_lem}
use wash.Datastore.MemCache.{Cached, MemCache, form_key, get, get_or_update, on_miss, make_room}

-- What a call of GetOrUpdate is to do: nothing, if it panics.
abbrev pub Serves :
    {V E : Type 0} {c : GoCache (Cached V E)}
    → ℕ
    → String
    → String
    → Cached V E
    → Option (Cached V E × MemCache c)
    → Type 0
Serves now category key expected none = ⊥
Serves now category key expected (some (v, cache)) =
    (v ≡ expected) × (get now category key cache ≡ some expected)

-- The cached value, or the generated one.
abbrev pub hit_or : {A : Type 0} → Option A → A → A
hit_or none a = a
hit_or (some b) a = b

-- The cache has a limit, is full, and all of it expired.
pub record IsStale {V E : Type 0} {c : GoCache (Cached V E)} (now : ℕ) (cache : MemCache c)
    : Type 0 where
  pub limited : 0 < cache.limit
  pub full : cache.limit ≤ c.item_count cache.instance_state
  pub expired : c.items now cache.instance_state ≡ []

module _ {V E : Type 0} {c : GoCache (Cached V E)} (laws : Laws c) where
  make_room-cases :
      (now : ℕ) (cache : MemCache c)
      → IsBounded (c.items now cache.instance_state)
      → ((make_room now cache ≡ none) × IsStale now cache)
        ⊎ ((d : MemCache c) × (make_room now cache ≡ some d))
  unfolding make_room
  make_room-cases now cache bounded =
      elim (Bool-cases (ltb 0 cache.limit && leb cache.limit (c.item_count cache.instance_state))) [
        | inr free ↦ inr (cache, rw free refl)
        | inl full ↦ elim (delete_closest_lem now cache bounded) [
          | inl (e, panics) ↦
              inl (
                rw full panics,
                record { limited = ground arith; full = ground arith; expired = e },
              )
          | inr (p, deletes) ↦ inr (
            record cache { instance_state = c.delete p.key cache.instance_state },
            rw full deletes,
          )
        ]
      ]

  -- With go-cache as documented and expirations below 2^63 - 1, one of two things holds. Nothing is
  -- cached under the key, the cache has a positive limit, at least as many items as that, and none
  -- that is unexpired, and GetOrUpdate panics. Or it returns what is cached under the key, be it a
  -- value or an error, and what was generated only if nothing is; and Get at the same time returns the
  -- same afterwards.
  pub get_or_update_lem :
      (now : ℕ) (category key : String) (ttl : ℤ) (reset : Bool) (generated : Cached V E)
      (cache : MemCache c)
      → IsBounded (c.items now cache.instance_state)
      → ((get now category key cache ≡ none)
          × IsStale now cache
          × (get_or_update now category key ttl reset generated cache ≡ none))
        ⊎ Serves now category key
            (hit_or (get now category key cache) generated)
            (get_or_update now category key ttl reset generated cache)
  unfolding get_or_update get on_miss
  get_or_update_lem now category key ttl reset generated cache bounded =
      let k = form_key category key in
      elim (Option-cases (c.get now k cache.instance_state)) [
        | inl miss ↦ elim (make_room-cases now cache bounded) [
          | inl (panics, stale) ↦ inl (miss, stale, rw (miss, panics) refl)
          | inr (d, room) ↦
              rw (miss, room) (inr (refl, laws.get-set now k generated ttl d.instance_state))
        ]
        | inr (v, hit) ↦ elim (Bool-cases reset) [
          | inl r ↦ rw (hit, r) (inr (refl, laws.get-set now k v ttl cache.instance_state))
          | inr r ↦ rw (hit, r) (inr (refl, hit))
        ]
      ]
