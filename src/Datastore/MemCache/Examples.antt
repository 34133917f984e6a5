-- ===== src/Datastore/MemCache/Examples.antt =====
-- A list of items that keeps the promises of go-cache, and the theorems on it.
use wash.Prelude.{
  ℕ, ◌<◌, String, ◌≡◌, refl, ◌⊎◌, inl, inr, true, false, none, some, [], ◌∷◌, arith, str_eq, ltb,
}
use wash.Prelude.Int.{pos}
use wash.Datastore.MemCache.ListCache.{list_cache, list_cache-Laws, list_items}
use wash.Datastore.MemCache.{
  Cached, value, error, MemCache, get, get_or_update, delete, delete_closest_to_expiration,
}
use wash.Datastore.MemCache.Candidate.{IsBounded, Closest, delete_closest_lem}
use wash.Datastore.MemCache.Lookup.{Serves, IsStale, hit_or, get_or_update_lem}
use wash.Datastore.MemCache.Limit.{Leaves, IsWithin, get_or_update-IsWithin, get_or_update-panics}
use wash.Datastore.MemCache.Deletion.{Deletes, delete-Deletes}

-- Two items at time 10: one that never expires, and one that does at 20.
abbrev two_items : MemCache (list_cache (Cached ℕ String))
two_items = record {
  instance_state =
      record { key = "List::/a"; content = value 1; expiration = 0 }
      ∷ record { key = "List::/b"; content = error "no access"; expiration = 20 }
      ∷ [];
  has_eviction = false;
  limit = 2;
}

two_items-IsBounded :
    (now : ℕ)
    → now < 20
    → IsBounded ((list_cache (Cached ℕ String)).items now two_items.instance_state)
unfolding list_items
two_items-IsBounded now h =
    let alive : ltb now 20 ≡ true = ground arith in
    rw alive (λ k e i. elim i [
      | inl (_, same) ↦ omega (arith, same)
      | inr (inl (_, same)) ↦ omega (arith, same)
      | inr (inr f) ↦ absurd f
    ])

delete_closest_lem_example :
    (((list_cache (Cached ℕ String)).items 10 two_items.instance_state ≡ [])
      × (delete_closest_to_expiration 10 two_items ≡ none))
    ⊎ ((p : Closest ((list_cache (Cached ℕ String)).items 10 two_items.instance_state))
        × (delete_closest_to_expiration 10 two_items
            ≡ some (record two_items {
              instance_state = (list_cache (Cached ℕ String)).delete p.key two_items.instance_state;
            })))
delete_closest_lem_example = delete_closest_lem 10 two_items (two_items-IsBounded 10 (omega arith))

get_or_update_lem_example :
    ((get 10 "List" "/c" two_items ≡ none)
      × IsStale 10 two_items
      × (get_or_update 10 "List" "/c" (pos 5) true (value 3) two_items ≡ none))
    ⊎ Serves 10 "List" "/c"
        (hit_or (get 10 "List" "/c" two_items) (value 3))
        (get_or_update 10 "List" "/c" (pos 5) true (value 3) two_items)
get_or_update_lem_example =
    get_or_update_lem (list_cache-Laws (Cached ℕ String)) 10 "List" "/c" (pos 5) true (value 3)
      two_items (two_items-IsBounded 10 (omega arith))

get_or_update-IsWithin_example :
    Leaves
      (list_cache-Laws (Cached ℕ String))
      (λ d. IsWithin (list_cache-Laws (Cached ℕ String)) d × (d.limit ≡ 2))
      (get_or_update 10 "List" "/c" (pos 5) true (value 3) two_items)
get_or_update-IsWithin_example =
    get_or_update-IsWithin (list_cache-Laws (Cached ℕ String)) 10 "List" "/c" (pos 5) true (value 3)
      two_items (omega arith) (omega arith) (two_items-IsBounded 10 (omega arith))

-- One item, which expired at 20.
abbrev expired_item : MemCache (list_cache (Cached ℕ String))
expired_item = record {
  instance_state = record { key = "List::/b"; content = value 1; expiration = 20 } ∷ [];
  has_eviction = false;
  limit = 1;
}

expired_item-empty : (list_cache (Cached ℕ String)).items 30 expired_item.instance_state ≡ []
unfolding list_items
expired_item-empty = refl

get_or_update-panics_example :
    get_or_update 30 "List" "/c" (pos 5) false (value 3) expired_item ≡ none
get_or_update-panics_example =
    get_or_update-panics (list_cache-Laws (Cached ℕ String)) 30 "List" "/c" (pos 5) false (value 3)
      expired_item (omega arith) (omega arith) expired_item-empty

delete-Deletes_example :
    Deletes 10 (λ k. str_eq k "List::/b") two_items (delete 10 (λ k. str_eq k "List::/b") two_items)
delete-Deletes_example =
    delete-Deletes (list_cache-Laws (Cached ℕ String)) 10 (λ k. str_eq k "List::/b") two_items
