-- ===== src/Plugin/Ids.antt =====
-- IDs of entries: setChildID and splitID of plugin/cache.go undo each other.
use wash.Prelude.{
  suc, ◌+◌, ◌≤◌, ◌<◌, String, ◌≡◌, refl, sym, ap, subst, ◌∙◌, ◌⊎◌, inl, inr, false, Option, none,
  some, List, [], ◌∷◌, arith, Bool-cases,
}
use wash.Prelude.Texts.{
  is_slash, is_empty, size, NoSlash, trim_right, split, join, join_all, split_last, split-append,
  split_last-append, join-split, join-split_last,
}
use wash.Plugin.EntryBase.{EntryBase, cname, replace_slash}
use wash.Plugin.Keys.{split_id}
use wash.Plugin.Listing.{child_id, set_child_id}
use Prim.Native.Char.{Char}
use Prim.Native.String.{◌++◌ as append_string}
use text.Mathlib.TextLemmas.{nil-append, cons-append}

replace_slash-NoSlash : (r : Char) (s : String) → is_slash r ≡ false → NoSlash (replace_slash r s)
unfolding replace_slash
replace_slash-NoSlash r String.[] h = tt
replace_slash-NoSlash r (String.◌∷◌ c s) h = elim (Bool-cases (is_slash c)) [
  | inl e ↦ rw e (h, replace_slash-NoSlash r s h)
  | inr e ↦ rw e (e, replace_slash-NoSlash r s h)
]

pub split_id-append :
    (a t : String) → NoSlash t → split_id (append_string a (append_string "/" t)) ≡ (a, t)
unfolding split_id join_all
split_id-append a t h =
    rw (split-append a t h, split_last-append (split a).0 (split a).1 t, join-split a) refl

-- An ID is its parent's and its last segment, or one segment.
pub split_id-cases :
    (path : String)
    → (path ≡ append_string (split_id path).0 (append_string "/" (split_id path).1))
      ⊎ ((split_id path).0 ≡ "")
unfolding split_id
split_id-cases path = go (split path).0 (split path).1 (join-split path)
  where
    go :
        (x : String) (xs : List String)
        → join x xs ≡ path
        → (path
            ≡ append_string (join_all (split_last x xs).0) (append_string "/" (split_last x xs).1))
          ⊎ (join_all (split_last x xs).0 ≡ "")
    go x [] e = inr (unfold split_last join_all in refl)
    go x (y ∷ ys) e = inl (sym e ∙ join-split_last x y ys)

pub size-append : (s t : String) → size (append_string s t) ≡ size s + size t
unfolding size
size-append String.[] t = rw (nil-append t) (omega arith)
size-append (String.◌∷◌ c s) t = rw (cons-append c s t) (omega (arith, size-append s t))

pub size-slash : (t : String) → size (append_string "/" t) ≡ suc (size t)
unfolding size
size-slash t = size-append "/" t ∙ omega arith

pub size-split_id : (path : String) → is_empty path ≡ false → size (split_id path).0 < size path
size-split_id path h = elim (split_id-cases path) [
  | inl e ↦ omega (
    arith,
    ap size e,
    size-append (split_id path).0 (append_string "/" (split_id path).1),
    size-slash (split_id path).1,
  )
  | inr e ↦ rw e (size_pos path h)
]
  where
    size_pos : (s : String) → is_empty s ≡ false → size "" < size s
    size_pos String.[] g = absurd (unfold is_empty in cc)
    size_pos (String.◌∷◌ c s) g = unfold size in omega arith

pub size-split_id_le : (path : String) → size (split_id path).0 ≤ size path
size-split_id_le path = elim (split_id-cases path) [
  | inl e ↦
      omega (arith, ap size e, size-append (split_id path).0 (append_string "/" (split_id path).1))
  | inr e ↦ rw e (unfold size in omega arith)
]

pub cname-NoSlash :
    {T : Type 0} (e : EntryBase T) (name : String)
    → is_slash e.slash_replacer ≡ false
    → cname e ≡ some name
    → NoSlash name
unfolding cname
cname-NoSlash e name h named = elim (Bool-cases (is_empty e.name)) [
  | inl n ↦ let no = rw n at named in absurd (cc)
  | inr n ↦
      let same : replace_slash e.slash_replacer e.name ≡ name = some_injective (rw n at named) in
      subst NoSlash same (replace_slash-NoSlash e.slash_replacer e.name h)
]
  where
    some_injective : {a b : String} → some a ≡ some b → a ≡ b
    some_injective q = cc

id_of : {T : Type 0} → Option (EntryBase T) → String
id_of none = ""
id_of (some e) = e.id

-- The ID that setChildID gives a child, split again, is the parent's ID less its trailing slashes,
-- and the child's cname, if the child's slash replacer is no slash.
pub split_id-set_child_id :
    {T : Type 0} (parent_id : String) (e e' : EntryBase T) (name : String)
    → is_slash e.slash_replacer ≡ false
    → cname e ≡ some name
    → set_child_id parent_id e ≡ some e'
    → split_id e'.id ≡ (trim_right parent_id, name)
unfolding set_child_id child_id id_of
split_id-set_child_id parent_id e e' name h named set =
    let same : append_string (trim_right parent_id) (append_string "/" name) ≡ e'.id =
      ap id_of (rw named at set) in
    rw (← same) (split_id-append (trim_right parent_id) name (cname-NoSlash e name h named))
