-- ===== src/Plugin/Cache.antt =====
-- The operations of plugin/cache.go over the cache of datastore. `none` is a panic. The locks make
-- each operation one step. The cache is set.
use wash.Prelude.{
  ℕ, zero, suc, String, Bool, true, false, negate, ◌||◌, Option, none, some, List, [], ◌++◌, str_eq,
  if◌then◌else◌,
}
use wash.Prelude.Maybe.{◌>>=◌}
use wash.Prelude.Int.{ℤ, pos, negsuc}
use wash.Prelude.Texts.{is_empty}
use wash.Datastore.GoCache.{GoCache}
use wash.Datastore.MemCache.{Cached, value, error, MemCache}
use wash.Datastore.MemCache
use wash.Plugin.EntryBase.{EntryBase, DefaultOp, list_op, op_name}
use wash.Plugin.Keys.{split_id, is_op_name, op_key_matches, all_op_keys_match}
use wash.Plugin.Listing.{
  EntryMap, load, set_child_id, DuplicateCNameErr, collected, duplicate, collect,
}

-- What the cache holds: what List returned, and what the other operations did
pub data CachedValue (T W : Type 0) : Type 0 where
  entries : EntryMap T → CachedValue T W
  other : W → CachedValue T W

module _ {T W E : Type 0} where
  -- The type assertion of getCachedEntry, on what Get returned
  unfoldable pub entry_of :
      String → Option (Cached (CachedValue T W) E) → Option (Option (EntryBase T))
  unfolding load
  entry_of name none = some none
  entry_of name (some (error e)) = some none
  entry_of name (some (value (entries m))) = some (load name m)
  entry_of name (some (value (other w))) = none

  -- What cachedList caches, given what p.List returned
  unfoldable pub list_result :
      (DuplicateCNameErr T → E)
      → Cached (List (EntryBase T)) E
      → EntryBase T
      → Option (Cached (CachedValue T W) E)
  unfolding collect
  list_result to_error (error err) p = some (error err)
  list_result to_error (value es) p = collect p [] es >>= λ r.
      some (elim r [ collected m ↦ value (entries m) | duplicate d ↦ error (to_error d) ])

  -- op is called on a miss only.
  unfoldable pub generate_on_miss :
      Option (Cached (CachedValue T W) E)
      → Option (Cached (CachedValue T W) E)
      → Option (Cached (CachedValue T W) E)
  generate_on_miss (some v) generated = some v
  generate_on_miss none generated = generated

module _ {T : Type 0} where
  abbrev pub is_source : Option (EntryBase T) → Bool
  is_source none = false
  is_source (some e) = negate e.is_prefetched

  -- The ID that cachedOp sees: the entry's own, or one below the parent of the context
  unfoldable pub ensure_id : Option String → EntryBase T → Option (EntryBase T)
  unfolding set_child_id is_empty
  ensure_id parent_id e =
      if is_empty e.id then elim parent_id [ none ↦ none | some id ↦ set_child_id id e ] else some e

abbrev pub is_below_zero : ℤ → Bool
is_below_zero (pos n) = false
is_below_zero (negsuc n) = true

pub record OpResult {T W E : Type 0} (c : GoCache (Cached (CachedValue T W) E)) : Type 0 where
  pub returned : Cached (CachedValue T W) E
  pub entry : EntryBase T
  pub cache : MemCache c

module _ {T W E : Type 0} {c : GoCache (Cached (CachedValue T W) E)} where
  -- getCachedEntry
  unfoldable pub get_cached_entry : ℕ → String → MemCache c → Option (Option (EntryBase T))
  unfolding split_id entry_of MemCache.get
  get_cached_entry now path cache =
      let ids = split_id path in entry_of ids.1 (MemCache.get now "List" ids.0 cache)

  -- The loop of getSourceAncestorPathFromCache, on fuel
  unfoldable pub search_source : ℕ → ℕ → String → MemCache c → Option String
  unfolding split_id get_cached_entry is_empty
  search_source zero now path cache = none
  search_source (suc f) now path cache =
      let rest = search_source f now (split_id path).0 cache in
      if is_empty path
      then some ""
      else (get_cached_entry now path cache >>= λ e. if is_source e then some path else rest)

  -- getSourceAncestorPathFromCache
  unfoldable pub get_source_ancestor_path : ℕ → ℕ → String → MemCache c → Option String
  unfolding search_source
  get_source_ancestor_path f now path cache = get_cached_entry now path cache >>= λ e.
      if is_source e then some (split_id path).0 else search_source f now (split_id path).0 cache

  -- The part of ClearCacheFor that clears the List of the source ancestor
  unfoldable pub clear_list_of : ℕ → String → List String × MemCache c → List String × MemCache c
  unfolding op_key_matches is_empty MemCache.delete
  clear_list_of now source (deleted, cache) =
      if is_empty source
      then (deleted, cache)
      else (let more = MemCache.delete now (op_key_matches "List" source) cache in
          (deleted ++ more.0, more.1))

  -- ClearCacheFor
  unfoldable pub clear_cache_for :
      ℕ → ℕ → String → Bool → MemCache c → Option (List String × MemCache c)
  unfolding all_op_keys_match get_source_ancestor_path clear_list_of
  clear_cache_for f now path clear_ancestor_list cache =
      let cleared = MemCache.delete now (all_op_keys_match path) cache in
      if clear_ancestor_list
      then (get_source_ancestor_path f now path cleared.1 >>= λ source.
          some (clear_list_of now source cleared))
      else some cleared

  -- cachedOp; `op` is the call of the operation on the entry.
  unfoldable pub cached_op :
      ℕ
      → Option String
      → String
      → EntryBase T
      → ℤ
      → (EntryBase T → Option (Cached (CachedValue T W) E))
      → MemCache c
      → Option (OpResult c)
  unfolding ensure_id generate_on_miss MemCache.get MemCache.get_or_update
  cached_op now parent_id name e ttl op cache =
      if is_below_zero ttl
      then (op e >>= λ r. some (record { returned = r; entry = e; cache = cache }))
      else (do
        e' ← ensure_id parent_id e
        generated ← generate_on_miss (MemCache.get now name e'.id cache) (op e')
        r ← MemCache.get_or_update now name e'.id ttl false generated cache
        some (record { returned = r.0; entry = e'; cache = r.1 }))

  -- CachedOp
  unfoldable pub checked_cached_op :
      ℕ
      → Option String
      → String
      → EntryBase T
      → ℤ
      → (EntryBase T → Option (Cached (CachedValue T W) E))
      → MemCache c
      → Option (OpResult c)
  unfolding cached_op is_op_name
  checked_cached_op now parent_id name e ttl op cache =
      if negate (is_op_name name)
        || str_eq name "List"
        || str_eq name "Read"
        || str_eq name "Metadata"
      then none
      else if is_below_zero ttl
      then none
      else cached_op now parent_id name e ttl op cache

  -- cachedDefaultOp
  unfoldable pub cached_default_op :
      ℕ
      → Option String
      → DefaultOp
      → EntryBase T
      → (EntryBase T → Option (Cached (CachedValue T W) E))
      → MemCache c
      → Option (OpResult c)
  unfolding cached_op
  cached_default_op now parent_id op_code e op cache =
      cached_op now parent_id (op_name op_code) e (e.ttl op_code) op cache

  -- cachedList
  unfoldable pub cached_list :
      ℕ
      → Option String
      → (DuplicateCNameErr T → E)
      → (EntryBase T → Cached (List (EntryBase T)) E)
      → EntryBase T
      → MemCache c
      → Option (OpResult c)
  unfolding cached_default_op list_result
  cached_list now parent_id to_error list p cache =
      cached_default_op now parent_id list_op p (λ e. list_result to_error (list e) e) cache
