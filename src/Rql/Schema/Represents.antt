-- ===== src/Rql/Schema/Represents.antt =====
-- The representative values of a value: what a SatisfyingValueSchema hands to the validator. One
-- path of the value is kept, and what stands at its end becomes {}, [] or null.
use wash.Prelude.{
  ℕ, suc, String, ◌≡◌, refl, ◌⊎◌, inl, inr, Bool, true, false, Option, none, some, Option-cases,
}
use wash.Prelude.Int.{pos, negsuc}
use wash.Rql.Host.{Host}
use wash.Rql.Any.{
  Any, Items, Fields, null, bool, num, int64, time, str, array, object, nil, item, end, field,
  get_item, to_time,
}
use wash.Rql.Ast.{
  value, Selector, some_elements, all_elements, index, Atom, null_value, boolean_value,
  number_value, time_value, string_value,
}
use wash.Rql.Eval.{nth_item, eval_atom, select, some_item, matching_value}

abbrev pub is_primitive : {h : Host} → Any h → Bool
is_primitive (object fs) = false
is_primitive (array xs) = false
is_primitive v = true

pub data Represents {h : Host} : Any h → Any h → Type 0 where
  object_end : (fs : Fields h) → Represents (object fs) (object end)
  array_end : (xs : Items h) → Represents (array xs) (array nil)
  primitive : (v : Any h) → is_primitive v ≡ true → Represents v null
  under_key :
      (key : String) (fs : Fields h) (w r : Any h)
      → matching_value key fs ≡ some w
      → Represents w r
      → Represents (object fs) (object (field (h.to_upper key) r end))
  inside :
      (xs : Items h) (i : ℕ) (w r : Any h)
      → get_item xs i ≡ some w
      → Represents w r
      → Represents (array xs) (array (item r nil))

-- Every value has a representative that ends where the value begins.
pub has_end :
    {h : Host} (v : Any h)
    → Represents v (object end) ⊎ Represents v (array nil) ⊎ Represents v null
has_end (object fs) = inl (object_end fs)
has_end (array xs) = inr (inl (array_end xs))
has_end null = inr (inr (primitive null refl))
has_end (bool b) = inr (inr (primitive (bool b) refl))
has_end (num f) = inr (inr (primitive (num f) refl))
has_end (int64 i) = inr (inr (primitive (int64 i) refl))
has_end (time t) = inr (inr (primitive (time t) refl))
has_end (str s) = inr (inr (primitive (str s) refl))

-- The atoms on primitive values.
abbrev pub is_primitive_atom : {h : Host} → Atom h value → Bool
is_primitive_atom null_value = true
is_primitive_atom (boolean_value b) = true
is_primitive_atom (number_value p) = true
is_primitive_atom (time_value p) = true
is_primitive_atom (string_value p) = true
is_primitive_atom a = false

-- Such an atom holds of primitive values only.
pub primitive_only :
    {h : Host} (a : Atom h value) (v : Any h)
    → is_primitive_atom a ≡ true
    → eval_atom a v ≡ some true
    → is_primitive v ≡ true
unfolding eval_atom to_time
primitive_only null_value (object fs) p e = cc
primitive_only null_value (array xs) p e = cc
primitive_only (boolean_value b) (object fs) p e = cc
primitive_only (boolean_value b) (array xs) p e = cc
primitive_only (number_value q) (object fs) p e = cc
primitive_only (number_value q) (array xs) p e = cc
primitive_only (time_value q) (object fs) p e = cc
primitive_only (time_value q) (array xs) p e = cc
primitive_only (string_value q) (object fs) p e = cc
primitive_only (string_value q) (array xs) p e = cc
primitive_only a (object fs) p e = cc
primitive_only a (array xs) p e = cc
primitive_only a v p e = refl

-- An element that makes `some` or an index selector hold.
pub some_item-witness :
    {h : Host} (p : Any h → Option Bool) (xs : Items h)
    → some_item p xs ≡ some true
    → (i : ℕ) × (w : Any h) × (get_item xs i ≡ some w) × (p w ≡ some true)
unfolding some_item get_item
some_item-witness p nil e = cc
some_item-witness p (item x xs) e = elim (Option-cases (p x)) [
  | inl q ↦ (let c : ◌≡◌ {A = Option Bool} none (some true) = rw q at e in cc)
  | inr (true, q) ↦ (0, x, refl, q)
  | inr (false, q) ↦
      let (i, w, at, holds) = some_item-witness p xs (rw q at e) in (suc i, w, at, holds)
]

-- So for every selector but `all`, which holds of an empty array.
abbrev pub is_all : Selector → Bool
is_all all_elements = true
is_all s = false

pub select-witness :
    {h : Host} (s : Selector) (p : Any h → Option Bool) (xs : Items h)
    → is_all s ≡ false
    → select s p xs ≡ some true
    → (i : ℕ) × (w : Any h) × (get_item xs i ≡ some w) × (p w ≡ some true)
unfolding select
select-witness some_elements p xs a e = some_item-witness p xs e
select-witness all_elements p xs a e = cc
select-witness (index (negsuc n)) p xs a e = cc
select-witness (index (pos i)) p xs a e = elim (Option-cases (get_item xs i)) [
  | inl q ↦ (let c : ◌≡◌ {A = Option Bool} none (some true) = rw (q, nth_item) at e in cc)
  | inr (w, q) ↦ (i, w, q, rw (q, nth_item) at e)
]
