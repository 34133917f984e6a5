-- ===== src/Plugin/Clearing.antt =====
-- Which keys ClearCacheFor of plugin/cache.go clears, and which path it takes for the source ancestor.
use wash.Prelude.{
  ℕ, String, ◌≡◌, refl, sym, ap, ◌∙◌, ◌↔◌, ◌⊎◌, inl, inr, Bool, true, false, ◌&&◌, none, some, List,
  str_eq, Bool-cases, Option-cases,
}
use wash.Prelude.Texts.{
  is_slash, trim, strip_prefix, strip_prefix-append, strip_prefix-some, slash_char,
}
use wash.Datastore.GoCache.{GoCache, Laws}
use wash.Datastore.MemCache.{Cached, MemCache, form_key}
use wash.Datastore.MemCache
use wash.Datastore.MemCache.Deletion.{delete-Deletes}
use wash.Plugin.Keys.{
  is_letter, is_op_name, skip_letters, ends_or_descends, path_matches, all_op_keys_match,
}
use wash.Plugin.Cache.{CachedValue, clear_cache_for}
use Prim.Native.Char.{Char}
use Prim.Native.String.{◌++◌ as append_string}
use text.Mathlib.TextLemmas.{nil-append, cons-append, append-nil as append_empty}

both : (a b : Bool) → (a && b) ≡ true → (a ≡ true) × (b ≡ true)
both true b h = (refl, h)
both false b h = absurd (cc)

-- The op name is skipped, and the "::" after it.
skip_letters-op :
    (started : Bool) (op id : String)
    → is_op_name op ≡ true
    → skip_letters started (append_string op (append_string "::" id)) ≡ some id
unfolding skip_letters is_op_name
skip_letters-op started String.[] id h = absurd (cc)
skip_letters-op started (String.◌∷◌ c String.[]) id h =
    rw (cons-append c "" (append_string "::" id), nil-append (append_string "::" id), h) (colons id)
  where
    colons : (id : String) → skip_letters true (append_string "::" id) ≡ some id
    colons id =
        rw (cons-append ":" ":" id, cons-append ":" "" id, nil-append id)
          (unfold strip_prefix is_letter in refl)
skip_letters-op started (String.◌∷◌ c (String.◌∷◌ d s)) id h =
    let (first, others) = both (is_letter c) (is_op_name (String.◌∷◌ d s)) h in
    rw (cons-append c (String.◌∷◌ d s) (append_string "::" id), first)
      (skip_letters-op true (String.◌∷◌ d s) id others)

-- The path itself, or a path below it
abbrev pub IsAtOrBelow : String → String → Type 0
IsAtOrBelow path id =
    (id ≡ append_string "/" (trim path))
    ⊎ ((rest : String) × (id
          ≡ append_string (append_string "/" (trim path)) (append_string "/" rest)))

path_matches-at :
    (path id : String) → str_eq path "/" ≡ false → path_matches path id ≡ true → IsAtOrBelow path id
unfolding path_matches ends_or_descends
path_matches-at path id not_root h =
    elim (Option-cases (strip_prefix (append_string "/" (trim path)) id)) [
      | inl e ↦ let no = rw (not_root, e) at h in absurd (cc)
      | inr (rest, e) ↦
          let same = strip_prefix-some (append_string "/" (trim path)) id rest e in
          let ends : ends_or_descends rest ≡ true = rw (not_root, e) at h in go rest same ends
    ]
  where
    slash_first : (c : Char) (r : String) → is_slash c ≡ true → String.◌∷◌ c r ≡ append_string "/" r
    slash_first c r s =
        ap (λ d. String.◌∷◌ d r) (slash_char c s)
        ∙ sym (cons-append "/" "" r ∙ ap (λ u. String.◌∷◌ "/" u) (nil-append r))

    go :
        (rest : String)
        → id ≡ append_string (append_string "/" (trim path)) rest
        → ends_or_descends rest ≡ true
        → IsAtOrBelow path id
    go String.[] same ends = inl (same ∙ append_empty _)
    go (String.◌∷◌ c r) same ends =
        inr (
          r,
          same ∙ ap (λ u. append_string (append_string "/" (trim path)) u) (slash_first c r ends),
        )

path_matches-of :
    (path id : String) → str_eq path "/" ≡ false → IsAtOrBelow path id → path_matches path id ≡ true
unfolding path_matches ends_or_descends
path_matches-of path id not_root (inl e) =
    let whole = strip_prefix-append (append_string "/" (trim path)) "" in
    let plain = rw (append_empty (append_string "/" (trim path))) at whole in
    rw (e, not_root, plain) refl
path_matches-of path id not_root (inr (rest, e)) =
    rw
      (
        e,
        not_root,
        strip_prefix-append (append_string "/" (trim path)) (append_string "/" rest),
        cons-append "/" "" rest,
      )
      refl

pub path_matches_iff :
    (path id : String)
    → str_eq path "/" ≡ false
    → (path_matches path id ≡ true) ↔ IsAtOrBelow path id
path_matches_iff path id not_root =
    (path_matches-at path id not_root, path_matches-of path id not_root)

all_op_keys_match-form_key :
    (path op id : String)
    → is_op_name op ≡ true
    → all_op_keys_match path (form_key op id) ≡ path_matches path id
unfolding all_op_keys_match form_key
all_op_keys_match-form_key path op id h = rw (all_op_keys_match, skip_letters-op false op id h) refl

module _ {T W E : Type 0} {c : GoCache (Cached (CachedValue T W) E)} where
  -- ClearCacheFor without the ancestor's list, of a path that is not the root, leaves nothing cached
  -- of an operation, under a name of letters, on an entry at the path or below it, and leaves what is
  -- cached of it on any other entry.
  pub clear_cache_for_lem :
      (laws : Laws c) (f now : ℕ) (path op id : String) (cache : MemCache c)
      → str_eq path "/" ≡ false
      → is_op_name op ≡ true
      → (deleted : List String) × (after : MemCache c) × (clear_cache_for f now path false cache
          ≡ some (deleted, after))
        × ((IsAtOrBelow path id × (MemCache.get now op id after ≡ none))
            ⊎ ((¬ IsAtOrBelow path id)
                × (MemCache.get now op id after ≡ MemCache.get now op id cache)))
  unfolding clear_cache_for MemCache.get
  clear_cache_for_lem laws f now path op id cache not_root named =
      let r = MemCache.delete now (all_op_keys_match path) cache in
      let deletes = delete-Deletes laws now (all_op_keys_match path) cache in
      let key = all_op_keys_match-form_key path op id named in
      (
        r.0,
        r.1,
        refl,
        elim (Bool-cases (path_matches path id)) [
          | inl e ↦
              inl (
                (path_matches_iff path id not_root).0 e,
                deletes.removes (form_key op id) (key ∙ e),
              )
          | inr e ↦ inr (
            λ at. absurd (differ e ((path_matches_iff path id not_root).1 at)),
            deletes.keeps (form_key op id) (key ∙ e),
          )
        ],
      )
    where
      differ : {b : Bool} → b ≡ false → b ≡ true → ⊥
      differ e g = cc
