-- ===== src/Plugin/Examples.antt =====
-- A parent with two children and its cache.
use wash.Prelude.{
  ℕ, String, ◌≡◌, refl, ◌⊎◌, inl, inr, true, false, none, some, List, [], ◌∷◌, arith, str_eq,
  Bool-cases,
}
use wash.Prelude.Int.{pos}
use wash.Prelude.Texts.{is_empty, trim_right, size}
use wash.Datastore.MemCache.{Cached, value, MemCache}
use wash.Datastore.MemCache
use wash.Datastore.MemCache.Candidate.{IsBounded}
use wash.Datastore.MemCache.Lookup.{IsStale}
use wash.Datastore.MemCache.ListCache.{list_cache, list_cache-Laws, list_items, find, remove}
use wash.Plugin.EntryBase.{EntryBase, cname, replace_slash}
use wash.Plugin.Keys.{is_op_name, split_id}
use wash.Plugin.Listing.{
  EntryMap, load, child_id, set_child_id, DuplicateCNameErr, collected, duplicate, collect,
}
use wash.Plugin.Cache.{
  CachedValue, entries, other, get_cached_entry, get_source_ancestor_path, clear_cache_for,
  cached_list,
}
use wash.Plugin.Ids.{split_id-set_child_id}
use wash.Plugin.Clearing.{IsAtOrBelow, clear_cache_for_lem}
use wash.Plugin.Ancestor.{HoldsLists, IsSource, IsNearest, get_source_ancestor_path_lem}
use wash.Plugin.Segments.{IsAncestor, IsParent}
use wash.Plugin.Children.{has_duplicate, find_child, collect_lem}
use wash.Plugin.Listed.{cached_list-get_cached_entry}

abbrev sample_entry : String → EntryBase ℕ
sample_entry name = record {
  name = name;
  slash_replacer = "#";
  id = "";
  ttl = λ op. pos 15;
  wrapped_types = 0;
  own_wrapped_types = none;
  is_prefetched = false;
  is_inaccessible = false;
}

abbrev sample_parent : EntryBase ℕ
sample_parent = record (sample_entry "docker") { id = "/docker"; wrapped_types = 7 }

split_id-set_child_id_example : split_id "/docker/a#b" ≡ (trim_right "/docker/", "a#b")
split_id-set_child_id_example =
    split_id-set_child_id "/docker/" (sample_entry "a/b")
      (record (sample_entry "a/b") { id = "/docker/a#b" }) "a#b" refl (unfold cname in refl)
      (unfold set_child_id in refl)

abbrev SampleValue : Type 0
SampleValue = Cached (CachedValue ℕ ℕ) String

abbrev sample_cache : MemCache (list_cache SampleValue)
sample_cache = record {
  instance_state =
      record {
        key = "List::/docker";
        content = value (entries (("a", sample_entry "a") ∷ []));
        expiration = 0;
      }
      ∷ record { key = "Read::/docker/a"; content = value (other 3); expiration = 0 }
      ∷ [];
  has_eviction = false;
  limit = 0;
}

clear_cache_for_lem_example :
    (deleted : List String) × (after : MemCache (list_cache SampleValue)) × (clear_cache_for 0 10
        "/docker" false sample_cache
      ≡ some (deleted, after))
    × ((IsAtOrBelow "/docker" "/docker/a" × (MemCache.get 10 "Read" "/docker/a" after ≡ none))
        ⊎ ((¬ IsAtOrBelow "/docker" "/docker/a")
            × (MemCache.get 10 "Read" "/docker/a" after
                ≡ MemCache.get 10 "Read" "/docker/a" sample_cache)))
clear_cache_for_lem_example =
    clear_cache_for_lem (list_cache-Laws SampleValue) 0 10 "/docker" "Read" "/docker/a" sample_cache
      refl (unfold is_op_name in refl)

cleared_keys :
    clear_cache_for 40 10 "/docker/a" true sample_cache
    ≡ some ("Read::/docker/a" ∷ "List::/docker" ∷ [], record sample_cache { instance_state = [] })
unfolding clear_cache_for list_items find remove MemCache.form_key
cleared_keys = refl

abbrev empty_cache : MemCache (list_cache SampleValue)
empty_cache = record { instance_state = []; has_eviction = false; limit = 0 }

-- At the root the entry docker, and below it a prefetched one.
abbrev listed_cache : MemCache (list_cache SampleValue)
listed_cache = record sample_cache {
  instance_state =
      record {
        key = "List::/docker";
        content = value (entries (("a", record (sample_entry "a") { is_prefetched = true }) ∷ []));
        expiration = 0;
      }
      ∷ record {
        key = "List::";
        content = value (entries (("docker", sample_parent) ∷ []));
        expiration = 0;
      }
      ∷ [];
}

listed_cache-HoldsLists : HoldsLists 10 listed_cache
unfolding get_cached_entry find
listed_cache-HoldsLists path =
    let key = MemCache.form_key "List" (split_id path).0 in
    elim (Bool-cases (str_eq key "List::/docker")) [
      | inl e ↦ (
        load (split_id path).1 (("a", record (sample_entry "a") { is_prefetched = true }) ∷ []),
        rw e refl,
      )
      | inr e ↦ elim (Bool-cases (str_eq key "List::")) [
        | inl g ↦ (load (split_id path).1 (("docker", sample_parent) ∷ []), rw (e, g) refl)
        | inr g ↦ (none, rw (e, g) refl)
      ]
    ]

get_source_ancestor_path_lem_example :
    (r : String) × (get_source_ancestor_path 10 10 "/docker/a" listed_cache ≡ some r)
    × ((IsSource 10 listed_cache "/docker/a" × IsParent r "/docker/a")
        ⊎ ((¬ IsSource 10 listed_cache "/docker/a")
            × IsNearest 10 listed_cache (λ a. IsAncestor a "/docker/a") r))
get_source_ancestor_path_lem_example =
    get_source_ancestor_path_lem 10 10 "/docker/a" listed_cache listed_cache-HoldsLists
      (unfold size in omega arith)

nearest_source : get_source_ancestor_path 10 10 "/docker/a" listed_cache ≡ some "/docker"
unfolding get_source_ancestor_path find MemCache.form_key
nearest_source = refl

collect_lem_example :
    ((has_duplicate (sample_entry "a" ∷ sample_entry "b/c" ∷ []) ≡ true)
      × ((d : DuplicateCNameErr ℕ) × (collect sample_parent []
              (sample_entry "a" ∷ sample_entry "b/c" ∷ [])
            ≡ some (duplicate d))))
    ⊎ ((has_duplicate (sample_entry "a" ∷ sample_entry "b/c" ∷ []) ≡ false)
        × ((m : EntryMap ℕ) × (collect sample_parent [] (sample_entry "a" ∷ sample_entry "b/c" ∷ [])
              ≡ some (collected m))
            × ((n : String)
                → load n m
                  ≡ find_child sample_parent n (sample_entry "a" ∷ sample_entry "b/c" ∷ []))))
collect_lem_example =
    collect_lem sample_parent (sample_entry "a" ∷ sample_entry "b/c" ∷ [])
      (unfold is_empty in (refl, (refl, tt)))

-- An inaccessible entry before an accessible one of the same cname is skipped, and after it refused.
abbrev hidden_entry : EntryBase ℕ
hidden_entry = record (sample_entry "a") { is_inaccessible = true }

hidden_order :
    (has_duplicate (hidden_entry ∷ sample_entry "a" ∷ []) ≡ false)
    × (has_duplicate (sample_entry "a" ∷ hidden_entry ∷ []) ≡ true)
unfolding has_duplicate replace_slash
hidden_order = (refl, refl)

-- The first listing of sample_parent, which fills an empty cache that has no limit.
abbrev one_child : EntryBase ℕ → Cached (List (EntryBase ℕ)) String
one_child e = value (sample_entry "a" ∷ [])

abbrev listed_entry : EntryBase ℕ
listed_entry = record (sample_entry "a") { id = "/docker/a"; wrapped_types = 7 }

abbrev filled_cache : MemCache (list_cache SampleValue)
filled_cache = record empty_cache {
  instance_state =
      record {
        key = "List::/docker";
        content = value (entries (("a", listed_entry) ∷ []));
        expiration = 25;
      }
      ∷ [];
}

empty_cache-IsBounded : IsBounded ((list_cache SampleValue).items 10 empty_cache.instance_state)
unfolding list_items
empty_cache-IsBounded k e i = absurd i

empty_cache-fresh : ¬ IsStale 10 empty_cache
empty_cache-fresh stale = absurd (omega (arith, stale.limited))

cached_list-get_cached_entry_example :
    get_cached_entry 10 (child_id "/docker" "a") filled_cache
    ≡ some (load "a" (("a", listed_entry) ∷ []))
cached_list-get_cached_entry_example =
    cached_list-get_cached_entry (list_cache-Laws SampleValue) 10 none (λ d. d.c_name) one_child
      sample_parent empty_cache
      (record {
        returned = value (entries (("a", listed_entry) ∷ []));
        entry = sample_parent;
        cache = filled_cache;
      })
      (("a", listed_entry) ∷ []) "a" empty_cache-IsBounded empty_cache-fresh refl
      (unfold is_empty in refl) (unfold trim_right in refl) (refl, tt)
      (unfold cached_list find remove is_empty MemCache.form_key in refl) refl
