-- ===== src/Datastore/GoCache.antt =====
-- The go-cache package, which datastore/cache.go stores its items in, as an interface, with what its
-- documentation promises. Times are in nanoseconds; an item with the expiration 0 never expires.
use wash.Prelude.{
  ℕ, suc, ◌≤◌, ◌<◌, String, ◌≡◌, Bool, true, false, ◌||◌, Option, none, some, List, [], ◌∷◌, str_eq,
}
use wash.Prelude.Int.{ℤ}

pub record GoCache (V : Type 0) : Type 1 where
  pub State : Type 0
  -- Get, Set and Delete; Get and Set are told the time
  pub get : ℕ → String → State → Option V
  pub set : ℕ → String → V → ℤ → State → State
  pub delete : String → State → State
  -- Items: the keys of the unexpired items, with their expirations
  pub items : ℕ → State → List (String × ℕ)
  -- ItemCount: the expired items that are not yet deleted count too
  pub item_count : State → ℕ
  pub delete_expired : ℕ → State → State
  pub clear : State → State

unfoldable pub has_key : String → List (String × ℕ) → Bool
has_key k [] = false
has_key k ((j, e) ∷ r) = str_eq k j || has_key k r

pub record Laws {V : Type 0} (c : GoCache V) : Type 0 where
  pub get-set :
      (now : ℕ) (k : String) (v : V) (ttl : ℤ) (s : c.State)
      → c.get now k (c.set now k v ttl s) ≡ some v
  pub get-delete : (now : ℕ) (k : String) (s : c.State) → c.get now k (c.delete k s) ≡ none
  pub get-delete_other :
      (now : ℕ) (k j : String) (s : c.State)
      → str_eq k j ≡ false
      → c.get now k (c.delete j s) ≡ c.get now k s
  pub count-set :
      (now : ℕ) (k : String) (v : V) (ttl : ℤ) (s : c.State)
      → c.item_count (c.set now k v ttl s) ≤ suc (c.item_count s)
  pub count-set_present :
      (now : ℕ) (k : String) (v w : V) (ttl : ℤ) (s : c.State)
      → c.get now k s ≡ some w
      → c.item_count (c.set now k v ttl s) ≤ c.item_count s
  pub count-delete :
      (now : ℕ) (k : String) (s : c.State)
      → has_key k (c.items now s) ≡ true
      → c.item_count (c.delete k s) < c.item_count s
  pub items-get :
      (now : ℕ) (k : String) (v : V) (s : c.State)
      → c.get now k s ≡ some v
      → has_key k (c.items now s) ≡ true
