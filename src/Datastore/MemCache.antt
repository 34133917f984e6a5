-- ===== src/Datastore/MemCache.antt =====
-- datastore/cache.go. Each operation is taken alone, as one step. GetOrUpdate holds a lock of its key
-- and shares the lock of the cache, so that calls with other keys can run beside it, and two misses at
-- once can exceed the limit; Flush and Delete hold that lock alone. The time that an operation reads is its
-- argument, and so is what generateValue returns.
pub mod Candidate
pub mod Lookup
pub mod Limit
pub mod Deletion
pub mod ListCache
mod Examples
use wash.Prelude.{
  ℕ, ◌-◌, ◌^◌, String, Bool, true, false, ◌&&◌, Option, none, some, List, [], ◌∷◌, ltb, leb,
  if◌then◌else◌,
}
use wash.Prelude.Int.{ℤ, pos, negsuc}
use Prim.Native.String.{◌++◌ as append_string}
use wash.Datastore.GoCache.{GoCache}

-- A stored `interface{}`: errors are stored as well.
pub data Cached (V E : Type 0) : Type 0 where
  value : V → Cached V E
  error : E → Cached V E

pub record MemCache {V E : Type 0} (c : GoCache (Cached V E)) : Type 0 where
  pub instance_state : c.State
  pub has_eviction : Bool
  pub limit : ℕ

-- What Get and GetOrUpdate return: nothing, or what is stored
unfoldable pub form_key : String → String → String
form_key category key = append_string category (append_string "::" key)

-- it.Expiration - now, of int64
unfoldable pub remaining : ℕ → ℕ → ℤ
remaining expiration now =
    if leb now expiration then pos (expiration - now) else negsuc (now - expiration - 1)

unfoldable pub is_less : ℤ → ℤ → Bool
is_less (pos a) (pos b) = ltb a b
is_less (pos a) (negsuc b) = false
is_less (negsuc a) (pos b) = true
is_less (negsuc a) (negsuc b) = ltb b a

-- The loop of deleteClosestToExpiration, over the items in the order in which `range` meets them
unfoldable pub find_candidate : ℕ → List (String × ℕ) → Option String × ℤ → Option String × ℤ
unfolding remaining is_less
find_candidate now [] best = best
find_candidate now ((k, expiration) ∷ items) (candidate, lowest) =
    if is_less (remaining expiration now) lowest
    then find_candidate now items (some k, remaining expiration now)
    else find_candidate now items (candidate, lowest)

module _ {A : Type 0} (c : GoCache A) where
  unfoldable pub delete_keys : List (String × ℕ) → c.State → c.State
  delete_keys [] s = s
  delete_keys ((k, e) ∷ items) s = delete_keys items (c.delete k s)

  -- The loop of Delete: the keys that it deleted, and the items that are left
  unfoldable pub delete_matching :
      (String → Bool) → List (String × ℕ) → c.State → List String × c.State
  delete_matching matches [] s = ([], s)
  delete_matching matches ((k, e) ∷ items) s =
      if matches k
      then (let (deleted, t) = delete_matching matches items (c.delete k s) in (k ∷ deleted, t))
      else delete_matching matches items s

module _ {V E : Type 0} {c : GoCache (Cached V E)} where
  -- Limit
  abbrev pub set_limit : ℕ → MemCache c → MemCache c
  set_limit n cache = record cache { limit = n }

  -- WithEvicted, less the function
  abbrev pub with_evicted : MemCache c → MemCache c
  with_evicted cache = record cache { has_eviction = true }

  unfoldable pub get : ℕ → String → String → MemCache c → Option (Cached V E)
  get now category key cache = c.get now (form_key category key) cache.instance_state

  -- The panic where no item is a candidate is `none`.
  unfoldable pub delete_candidate : Option String → MemCache c → Option (MemCache c)
  delete_candidate none cache = none
  delete_candidate (some k) cache =
      some (record cache { instance_state = c.delete k cache.instance_state })

  unfoldable pub delete_closest_to_expiration : ℕ → MemCache c → Option (MemCache c)
  unfolding find_candidate delete_candidate
  delete_closest_to_expiration now cache =
      delete_candidate
        (find_candidate now (c.items now cache.instance_state) (none, pos (2 ^ 63 - 1))).0 cache

  unfoldable pub make_room : ℕ → MemCache c → Option (MemCache c)
  unfolding delete_closest_to_expiration
  make_room now cache =
      if ltb 0 cache.limit && leb cache.limit (c.item_count cache.instance_state)
      then delete_closest_to_expiration now cache
      else some cache

  abbrev pub store : ℕ → String → Cached V E → ℤ → MemCache c → MemCache c
  store now k v ttl cache = record cache { instance_state = c.set now k v ttl cache.instance_state }

  unfoldable pub on_miss :
      ℕ → String → ℤ → Cached V E → Option (MemCache c) → Option (Cached V E × MemCache c)
  on_miss now k ttl generated none = none
  on_miss now k ttl generated (some cache) = some (generated, store now k generated ttl cache)

  -- The rest of GetOrUpdate, given what the key holds
  unfoldable pub on_hit_or_miss :
      ℕ
      → String
      → ℤ
      → Bool
      → Cached V E
      → MemCache c
      → Option (Cached V E)
      → Option (Cached V E × MemCache c)
  unfolding make_room on_miss
  on_hit_or_miss now k ttl reset_ttl_on_hit generated cache (some v) =
      some (v, if reset_ttl_on_hit then store now k v ttl cache else cache)
  on_hit_or_miss now k ttl reset_ttl_on_hit generated cache none =
      on_miss now k ttl generated (make_room now cache)

  unfoldable pub get_or_update :
      ℕ → String → String → ℤ → Bool → Cached V E → MemCache c → Option (Cached V E × MemCache c)
  unfolding on_hit_or_miss
  get_or_update now category key ttl reset_ttl_on_hit generated cache =
      let k = form_key category key in
      on_hit_or_miss now k ttl reset_ttl_on_hit generated cache (c.get now k cache.instance_state)

  unfoldable pub flush : ℕ → MemCache c → MemCache c
  unfolding delete_keys
  flush now cache =
      let s = cache.instance_state in
      record cache {
        instance_state = c.clear (
            if cache.has_eviction
            then c.delete_expired now (delete_keys c (c.items now s) s)
            else s);
      }

  unfoldable pub delete : ℕ → (String → Bool) → MemCache c → List String × MemCache c
  unfolding delete_matching
  delete now matches cache =
      let (deleted, s) =
        delete_matching c matches (c.items now cache.instance_state) cache.instance_state in
      (deleted, record cache { instance_state = s })
