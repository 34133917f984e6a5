-- ===== src/Plugin/Listed.antt =====
-- A listing of plugin/cache.go is found again in the cache of datastore, by the ID of a child.
use wash.Prelude.{
  ℕ, String, ◌≡◌, refl, sym, ap, subst, ◌∙◌, inl, inr, false, Option, none, some, List,
  Option-cases,
}
use mathlib.Core.Option.{some-injective}
use wash.Prelude.Maybe.{◌>>=◌}
use wash.Prelude.Texts.{is_empty, NoSlash, trim_right}
use wash.Datastore.GoCache.{GoCache, Laws}
use wash.Datastore.MemCache.{Cached, value, MemCache}
use wash.Datastore.MemCache
use wash.Datastore.MemCache.Candidate.{IsBounded}
use wash.Datastore.MemCache.Lookup.{IsStale, Serves, hit_or, get_or_update_lem}
use wash.Plugin.EntryBase.{EntryBase, list_op}
use wash.Plugin.Keys.{split_id}
use wash.Plugin.Listing.{EntryMap, load, child_id, DuplicateCNameErr}
use wash.Plugin.Cache.{
  CachedValue, entries, OpResult, entry_of, get_cached_entry, ensure_id, is_below_zero,
  generate_on_miss, list_result, cached_op, cached_default_op, cached_list,
}
use wash.Plugin.Ids.{split_id-append}
use Prim.Native.String.{◌++◌ as append_string}

module _ {T W E : Type 0} {c : GoCache (Cached (CachedValue T W) E)} where
  served :
      (now : ℕ) (key : String) (expected : Cached (CachedValue T W) E) (e : EntryBase T)
      (o : Option (Cached (CachedValue T W) E × MemCache c)) (r : OpResult c)
      → Serves now "List" key expected o
      → (o >>= λ x. some (record { returned = x.0; entry = e; cache = x.1 })) ≡ some r
      → MemCache.get now "List" key r.cache ≡ some r.returned
  served now key expected e none r serves same = absurd serves
  served now key expected e (some (v, cache)) r (is_expected, got) same =
      subst (λ x. MemCache.get now "List" key x.cache ≡ some x.returned) (some-injective _ _ same)
        (got ∙ ap some (sym is_expected))

  cached_list-serves :
      (laws : Laws c) (now : ℕ) (parent_id : Option String) (to_error : DuplicateCNameErr T → E)
      (list : EntryBase T → Cached (List (EntryBase T)) E) (p : EntryBase T) (cache : MemCache c)
      (r : OpResult c)
      → IsBounded (c.items now cache.instance_state)
      → ¬ IsStale now cache
      → is_below_zero (p.ttl list_op) ≡ false
      → is_empty p.id ≡ false
      → cached_list now parent_id to_error list p cache ≡ some r
      → MemCache.get now "List" p.id r.cache ≡ some r.returned
  unfolding cached_list cached_default_op cached_op ensure_id
  cached_list-serves laws now parent_id to_error list p cache r bounded fresh ttl named same =
      elim (Option-cases
        (generate_on_miss (MemCache.get now "List" p.id cache) (list_result to_error (list p) p))) [
          | inl none_generated ↦ let no = rw (ttl, named, none_generated) at same in absurd (cc)
          | inr (g, generated) ↦
              elim (get_or_update_lem laws now "List" p.id (p.ttl list_op) false g cache bounded) [
                | inl (_, stale, _) ↦ absurd (fresh stale)
                | inr serves ↦
                    served now p.id (hit_or (MemCache.get now "List" p.id cache) g) p
                      (MemCache.get_or_update now "List" p.id (p.ttl list_op) false g cache) r
                      serves (rw (ttl, named, generated) at same)
              ]
        ]

  get_cached_entry-step :
      (now : ℕ) (path : String) (cache : MemCache c)
      → get_cached_entry now path cache
        ≡ entry_of (split_id path).1 (MemCache.get now "List" (split_id path).0 cache)
  unfolding get_cached_entry
  get_cached_entry-step now path cache = refl

  -- With go-cache as documented, expirations below 2^63 - 1, and a cache that is not one with a limit
  -- and full of expired items: when cachedList returns a map of children for a parent whose List has
  -- no negative ttl, and whose ID is not empty and has no trailing slash, then getCachedEntry finds at
  -- the ID of a child with a cname without slashes, at the same time, what the map has under the
  -- cname, whether the listing was cached before or not.
  pub cached_list-get_cached_entry :
      (laws : Laws c) (now : ℕ) (parent_id : Option String) (to_error : DuplicateCNameErr T → E)
      (list : EntryBase T → Cached (List (EntryBase T)) E) (p : EntryBase T) (cache : MemCache c)
      (r : OpResult c) (m : EntryMap T) (name : String)
      → IsBounded (c.items now cache.instance_state)
      → ¬ IsStale now cache
      → is_below_zero (p.ttl list_op) ≡ false
      → is_empty p.id ≡ false
      → trim_right p.id ≡ p.id
      → NoSlash name
      → cached_list now parent_id to_error list p cache ≡ some r
      → r.returned ≡ value (entries m)
      → get_cached_entry now (child_id p.id name) r.cache ≡ some (load name m)
  unfolding child_id entry_of
  cached_list-get_cached_entry laws now parent_id to_error list p cache r m name bounded fresh ttl
        named trimmed plain same map_returned =
      let split : split_id (append_string (trim_right p.id) (append_string "/" name))
          ≡ (p.id, name) =
        split_id-append (trim_right p.id) name plain ∙ ap (λ i. (i, name)) trimmed in
      let got =
        cached_list-serves laws now parent_id to_error list p cache r bounded fresh ttl named
          same in
      get_cached_entry-step now (child_id p.id name) r.cache
      ∙ ap (λ i. entry_of i.1 (MemCache.get now "List" i.0 r.cache)) split
      ∙ ap (entry_of name) (got ∙ ap some map_returned)
