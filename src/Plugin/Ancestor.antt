-- ===== src/Plugin/Ancestor.antt =====
-- The path that ClearCacheFor of plugin/cache.go takes for the source ancestor of an entry.
use wash.Prelude.{
  ℕ, zero, suc, ◌<◌, String, ◌≡◌, refl, sym, ap, subst, ◌∙◌, ◌⊎◌, inl, inr, true, false, Option,
  none, some, arith, Bool-cases,
}
use mathlib.Core.Option.{some-injective}
use wash.Prelude.Texts.{is_empty, size}
use wash.Datastore.GoCache.{GoCache}
use wash.Datastore.MemCache.{Cached, MemCache}
use wash.Plugin.EntryBase.{EntryBase}
use wash.Plugin.Keys.{split_id}
use wash.Plugin.Cache.{
  CachedValue, get_cached_entry, is_source, search_source, get_source_ancestor_path,
}
use wash.Plugin.Ids.{size-split_id, size-split_id_le}
use wash.Plugin.Segments.{
  IsAncestor, IsParent, size-IsAncestor, no-ancestor, IsParent-split_id, parent-IsAncestor,
  IsAncestor-parent,
}

is_source-some :
    {T : Type 0} (o : Option (EntryBase T))
    → is_source o ≡ true
    → (e : EntryBase T) × (o ≡ some e) × (e.is_prefetched ≡ false)
is_source-some none h = absurd (cc)
is_source-some (some e) h = elim (Bool-cases e.is_prefetched) [
  | inl p ↦ let no = rw p at h in absurd (cc)
  | inr p ↦ (e, refl, p)
]

is_source-not :
    {T : Type 0} (o : Option (EntryBase T)) (e : EntryBase T)
    → is_source o ≡ false
    → o ≡ some e
    → e.is_prefetched ≡ false
    → ⊥
is_source-not o e plain same fresh = let bad = rw (same, fresh) at plain in absurd (cc)

abbrev AtOrAbove : String → String → Type 0
AtOrAbove path a = (a ≡ path) ⊎ IsAncestor a path

module _ {T W E : Type 0} {c : GoCache (Cached (CachedValue T W) E)} where
  -- Under List nothing but children is cached.
  abbrev pub HoldsLists : ℕ → MemCache c → Type 0
  HoldsLists now cache =
      (path : String) → (e : Option (EntryBase T)) × (get_cached_entry now path cache ≡ some e)

  -- An entry that is not prefetched is cached at the path.
  abbrev pub IsSource : ℕ → MemCache c → String → Type 0
  IsSource now cache r =
      (e : EntryBase T) × (get_cached_entry now r cache ≡ some (some e)) × (e.is_prefetched ≡ false)

  not-IsSource :
      (now : ℕ) (cache : MemCache c) (path : String) (o : Option (EntryBase T))
      → get_cached_entry now path cache ≡ some o
      → is_source o ≡ false
      → ¬ IsSource now cache path
  not-IsSource now cache path o found plain (e, got, fresh) =
      is_source-not o e plain (some-injective _ _ (sym found ∙ got)) fresh

  -- No source is at a path that is not empty and that P holds of.
  abbrev pub NoSource : ℕ → MemCache c → (String → Type 0) → Type 0
  NoSource now cache P = (a : String) → P a → is_empty a ≡ false → ¬ IsSource now cache a

  -- The nearest source among the paths that P holds of, all on one branch, or nothing without one
  abbrev pub IsNearest : ℕ → MemCache c → (String → Type 0) → String → Type 0
  IsNearest now cache P r =
      ((r ≡ "") × NoSource now cache P)
      ⊎ ((is_empty r ≡ false)
          × P r
          × IsSource now cache r
          × NoSource now cache (λ a. P a × IsAncestor r a))

  lift-parent :
      (now : ℕ) (cache : MemCache c) (path r : String)
      → IsNearest now cache (AtOrAbove (split_id path).0) r
      → IsNearest now cache (λ a. IsAncestor a path) r
  lift-parent now cache path r (inl (e, none_above)) =
      inl (e, λ a above. none_above a (IsAncestor-parent a path above))
  lift-parent now cache path r (inr (named, at, source, nearest)) = inr (
    named,
    parent-IsAncestor r path named at,
    source,
    λ a (above, below). nearest a (IsAncestor-parent a path above, below),
  )

  weaken-path :
      (now : ℕ) (cache : MemCache c) (path r : String)
      → ¬ IsSource now cache path
      → IsNearest now cache (λ a. IsAncestor a path) r
      → IsNearest now cache (AtOrAbove path) r
  weaken-path now cache path r plain (inl (e, none_above)) = inl (
    e,
    λ a at named source. elim at [
      | inl same ↦ plain (subst (IsSource now cache) same source)
      | inr above ↦ none_above a above named source
    ],
  )
  weaken-path now cache path r plain (inr (named, above, source, nearest)) = inr (
    named,
    inr above,
    source,
    λ a (at, below) full is. elim at [
      | inl same ↦ plain (subst (IsSource now cache) same is)
      | inr higher ↦ nearest a (higher, below) full is
    ],
  )

  search_source-top :
      (now : ℕ) (cache : MemCache c) (path : String)
      → is_empty path ≡ true
      → NoSource now cache (AtOrAbove path)
  search_source-top now cache path e a at named source = elim at [
    | inl same ↦ let no = rw same at named in absurd (cc)
    | inr above ↦ no-ancestor a path e above
  ]

  at_path :
      (now : ℕ) (cache : MemCache c) (path : String)
      → is_empty path ≡ false
      → IsSource now cache path
      → IsNearest now cache (AtOrAbove path) path
  at_path now cache path named source = inr (
    named,
    inl refl,
    source,
    λ a (at, below) full is. elim at [
      | inl same ↦ absurd (omega (arith, ap size same, size-IsAncestor path a below))
      | inr above ↦
          absurd (omega (arith, size-IsAncestor a path above, size-IsAncestor path a below))
    ],
  )

  search_source-finds :
      (f now : ℕ) (path : String) (cache : MemCache c)
      → HoldsLists now cache
      → size path < f
      → (r : String) × (search_source f now path cache ≡ some r)
        × IsNearest now cache (AtOrAbove path) r
  unfolding search_source
  search_source-finds zero now path cache holds h = absurd (omega arith)
  search_source-finds (suc f) now path cache holds h = elim (Bool-cases (is_empty path)) [
    | inl e ↦ ("", rw e refl, inl (refl, search_source-top now cache path e))
    | inr e ↦
        let (o, found) = holds path in
        elim (Bool-cases (is_source o)) [
          | inl s ↦
              let (entry, same, fresh) = is_source-some o s in
              (
                path,
                rw (e, found, s) refl,
                at_path now cache path e (entry, found ∙ ap some same, fresh),
              )
          | inr s ↦
              let (r, g, q) =
                search_source-finds f now (split_id path).0 cache holds
                  (omega (arith, size-split_id path e)) in
              (
                r,
                rw (e, found, s) g,
                weaken-path now cache path r (not-IsSource now cache path o found s)
                    (lift-parent now cache path r q),
              )
        ]
  ]

  -- Where nothing but children is cached under List, and with fuel above the length of the path,
  -- getSourceAncestorPathFromCache ends. When an entry that is not prefetched is cached at the path,
  -- it returns the parent, which is all before the last slash, or nothing without a slash. Else it
  -- returns the nearest proper ancestor that is not empty with an entry cached that is not prefetched,
  -- so that no such entry is cached between that and the path, and nothing if there is none.
  pub get_source_ancestor_path_lem :
      (f now : ℕ) (path : String) (cache : MemCache c)
      → HoldsLists now cache
      → size path < f
      → (r : String) × (get_source_ancestor_path f now path cache ≡ some r)
        × ((IsSource now cache path × IsParent r path)
            ⊎ ((¬ IsSource now cache path) × IsNearest now cache (λ a. IsAncestor a path) r))
  unfolding get_source_ancestor_path
  get_source_ancestor_path_lem f now path cache holds h =
      let (o, found) = holds path in
      elim (Bool-cases (is_source o)) [
        | inl s ↦
            let (entry, same, fresh) = is_source-some o s in
            (
              (split_id path).0,
              rw (found, s) refl,
              inl ((entry, found ∙ ap some same, fresh), IsParent-split_id path),
            )
        | inr s ↦
            let (r, g, q) =
              search_source-finds f now (split_id path).0 cache holds
                (omega (arith, size-split_id_le path)) in
            (
              r,
              rw (found, s) g,
              inr (not-IsSource now cache path o found s, lift-parent now cache path r q),
            )
      ]
