-- ===== src/Plugin/Children.antt =====
-- What cachedList of plugin/cache.go makes of the entries that List returned.
use wash.Prelude.{
  String, ◌≡◌, refl, sym, ap, ◌∙◌, ◌⊎◌, inl, inr, Bool, true, false, negate, ◌&&◌, ◌||◌, Option,
  none, some, List, [], ◌∷◌, str_eq, eq_iff, if◌then◌else◌, Bool-cases, Option-cases,
}
use wash.Prelude.Texts.{is_empty}
use wash.Plugin.EntryBase.{EntryBase, cname, replace_slash}
use wash.Plugin.Listing.{
  EntryMap, load, child_id, set_child_id, pass_along_wrapped_types, DuplicateCNameErr, Collected,
  collected, duplicate, add_child, collect,
}

regroup : (a b d : Bool) → (a || (b || d)) ≡ ((b || a) || d)
regroup true true d = refl
regroup true false d = refl
regroup false true d = refl
regroup false false d = refl

drop_test :
    {A : Type 0} (b s : Bool) (x y : A)
    → b ≡ false
    → (if negate b && s then x else y) ≡ (if s then x else y)
drop_test true s x y h = absurd (cc)
drop_test false s x y h = refl

module _ {T : Type 0} where
  -- The cname of an entry with a name
  abbrev pub name_of : EntryBase T → String
  name_of e = replace_slash e.slash_replacer e.name

  abbrev pub HaveNames : List (EntryBase T) → Type 0
  HaveNames [] = Unit {0}
  HaveNames (e ∷ es) = (is_empty e.name ≡ false) × HaveNames es

  unfoldable pub is_named : String → List (EntryBase T) → Bool
  is_named n [] = false
  is_named n (e ∷ es) = str_eq (name_of e) n || is_named n es

  -- An accessible entry is followed by one of the same cname.
  unfoldable pub has_duplicate : List (EntryBase T) → Bool
  unfolding is_named
  has_duplicate [] = false
  has_duplicate (e ∷ es) = (negate e.is_inaccessible && is_named (name_of e) es) || has_duplicate es

  -- The child as it is listed, with its ID and the types of its parent
  unfoldable pub adopt : EntryBase T → EntryBase T → EntryBase T
  unfolding pass_along_wrapped_types
  adopt p e = pass_along_wrapped_types p.wrapped_types (record e { id = child_id p.id (name_of e) })

  -- The first accessible entry of the cname, adopted
  unfoldable pub find_child : EntryBase T → String → List (EntryBase T) → Option (EntryBase T)
  find_child p n [] = none
  find_child p n (e ∷ es) =
      if negate e.is_inaccessible && str_eq n (name_of e)
      then some (adopt p e)
      else find_child p n es

  abbrev is_there : Option (EntryBase T) → Bool
  is_there none = false
  is_there (some e) = true

  -- An entry has a cname that is already there.
  meets : EntryMap T → List (EntryBase T) → Bool
  meets seen [] = false
  meets seen (e ∷ es) = is_there (load (name_of e) seen) || meets seen es

  abbrev or_else : Option (EntryBase T) → Option (EntryBase T) → Option (EntryBase T)
  or_else none o = o
  or_else (some e) o = some e

  meets-cons :
      (n : String) (e : EntryBase T) (seen : EntryMap T) (es : List (EntryBase T))
      → meets ((n, e) ∷ seen) es ≡ (is_named n es || meets seen es)
  unfolding meets is_named load
  meets-cons n e seen [] = refl
  meets-cons n e seen (d ∷ es) = elim (Bool-cases (str_eq (name_of d) n)) [
    | inl s ↦ rw s refl
    | inr s ↦
        rw (s, meets-cons n e seen es)
          (swap (is_there (load (name_of d) seen)) (is_named n es) (meets seen es))
  ]
    where
      swap : (a b d : Bool) → (a || (b || d)) ≡ (b || (a || d))
      swap true true d = refl
      swap true false d = refl
      swap false b d = refl

  Lists : EntryBase T → EntryMap T → List (EntryBase T) → EntryMap T → Type 0
  Lists p seen es m = (n : String) → load n m ≡ or_else (load n seen) (find_child p n es)

  collect-step :
      (p e : EntryBase T) (seen : EntryMap T) (es : List (EntryBase T))
      → is_empty e.name ≡ false
      → collect p seen (e ∷ es)
        ≡ add_child (λ s. collect p s es) p seen e (name_of e) (load (name_of e) seen)
  unfolding collect cname
  collect-step p e seen es named = rw named refl

  add_child-adopts :
      (next : EntryMap T → Option (Collected T)) (p e : EntryBase T) (seen : EntryMap T)
      → is_empty e.name ≡ false
      → e.is_inaccessible ≡ false
      → add_child next p seen e (name_of e) none ≡ next ((name_of e, adopt p e) ∷ seen)
  unfolding add_child set_child_id cname adopt
  add_child-adopts next p e seen named open_e = rw (open_e, named) refl

  Collects : EntryBase T → EntryMap T → List (EntryBase T) → Type 0
  Collects p seen es =
      (((meets seen es || has_duplicate es) ≡ true)
        × ((d : DuplicateCNameErr T) × (collect p seen es ≡ some (duplicate d))))
      ⊎ (((meets seen es || has_duplicate es) ≡ false)
          × ((m : EntryMap T) × (collect p seen es ≡ some (collected m)) × Lists p seen es m))

  or_else-none : (o : Option (EntryBase T)) → o ≡ or_else o none
  or_else-none none = refl
  or_else-none (some e) = refl

  empty-Collects : (p : EntryBase T) (seen : EntryMap T) → Collects p seen []
  unfolding Collects Lists meets has_duplicate collect find_child
  empty-Collects p seen = inr (refl, (seen, refl, λ n. or_else-none (load n seen)))

  Collects-refused :
      (p : EntryBase T) (seen : EntryMap T) (e first : EntryBase T) (es : List (EntryBase T))
      → is_empty e.name ≡ false
      → load (name_of e) seen ≡ some first
      → Collects p seen (e ∷ es)
  unfolding Collects meets add_child
  Collects-refused p seen e first es named there = inl (
    rw there refl,
    (
      record { parent_id = p.id; first_child = first; second_child = e; c_name = name_of e },
      collect-step p e seen es named ∙ rw there refl,
    ),
  )

  Collects-hidden :
      (p : EntryBase T) (seen : EntryMap T) (e : EntryBase T) (es : List (EntryBase T))
      → is_empty e.name ≡ false
      → load (name_of e) seen ≡ none
      → e.is_inaccessible ≡ true
      → Collects p seen es
      → Collects p seen (e ∷ es)
  unfolding Collects Lists meets has_duplicate add_child find_child
  Collects-hidden p seen e es named free hidden (inl (bad, (d, same))) =
      inl (rw (free, hidden) bad, (d, collect-step p e seen es named ∙ rw (free, hidden) same))
  Collects-hidden p seen e es named free hidden (inr (good, (m, same, lists))) = inr (
    rw (free, hidden) good,
    (m, collect-step p e seen es named ∙ rw (free, hidden) same, λ n. rw hidden (lists n)),
  )

  flags-adopted :
      (p : EntryBase T) (seen : EntryMap T) (e : EntryBase T) (es : List (EntryBase T))
      → load (name_of e) seen ≡ none
      → e.is_inaccessible ≡ false
      → (meets seen (e ∷ es) || has_duplicate (e ∷ es))
        ≡ (meets ((name_of e, adopt p e) ∷ seen) es || has_duplicate es)
  unfolding has_duplicate meets
  flags-adopted p seen e es free open_e =
      rw (meets, free, open_e, meets-cons (name_of e) (adopt p e) seen es)
        (regroup (meets seen es) (is_named (name_of e) es) (has_duplicate es))

  Lists-adopted :
      (p : EntryBase T) (seen : EntryMap T) (e : EntryBase T) (es : List (EntryBase T))
      (m : EntryMap T)
      → load (name_of e) seen ≡ none
      → e.is_inaccessible ≡ false
      → Lists p ((name_of e, adopt p e) ∷ seen) es m
      → Lists p seen (e ∷ es) m
  unfolding Lists load find_child
  Lists-adopted p seen e es m free open_e lists n = elim (Bool-cases (str_eq n (name_of e))) [
    | inl s ↦
        let gone : load n seen ≡ none = ap (λ k. load k seen) ((eq_iff n (name_of e)).0 s) ∙ free in
        rw s at (lists n)
        ∙ sym (
            ap (λ o. or_else o (find_child p n (e ∷ es))) gone
            ∙ drop_test e.is_inaccessible (str_eq n (name_of e)) (some (adopt p e))
                (find_child p n es) open_e
            ∙ rw s refl)
    | inr s ↦
        rw s at (lists n)
        ∙ sym (
            ap (or_else (load n seen)) (
              drop_test e.is_inaccessible (str_eq n (name_of e)) (some (adopt p e))
                (find_child p n es) open_e
              ∙ rw s refl))
  ]

  Collects-adopted :
      (p : EntryBase T) (seen : EntryMap T) (e : EntryBase T) (es : List (EntryBase T))
      → is_empty e.name ≡ false
      → load (name_of e) seen ≡ none
      → e.is_inaccessible ≡ false
      → Collects p ((name_of e, adopt p e) ∷ seen) es
      → Collects p seen (e ∷ es)
  unfolding Collects
  Collects-adopted p seen e es named free open_e (inl (bad, (d, same))) = inl (
    flags-adopted p seen e es free open_e ∙ bad,
    (
      d,
      collect-step p e seen es named
          ∙ ap (add_child (λ s. collect p s es) p seen e (name_of e)) free
          ∙ add_child-adopts (λ s. collect p s es) p e seen named open_e
          ∙ same,
    ),
  )
  Collects-adopted p seen e es named free open_e (inr (good, (m, same, lists))) = inr (
    flags-adopted p seen e es free open_e ∙ good,
    (
      m,
      collect-step p e seen es named
          ∙ ap (add_child (λ s. collect p s es) p seen e (name_of e)) free
          ∙ add_child-adopts (λ s. collect p s es) p e seen named open_e
          ∙ same,
      Lists-adopted p seen e es m free open_e lists,
    ),
  )

  collect-Collects :
      (p : EntryBase T) (seen : EntryMap T) (es : List (EntryBase T))
      → HaveNames es
      → Collects p seen es
  collect-Collects p seen [] names = empty-Collects p seen
  collect-Collects p seen (e ∷ es) (named, names) = elim (Option-cases (load (name_of e) seen)) [
    | inr (first, there) ↦ Collects-refused p seen e first es named there
    | inl free ↦ elim (Bool-cases e.is_inaccessible) [
      | inl hidden ↦
          Collects-hidden p seen e es named free hidden (collect-Collects p seen es names)
      | inr open_e ↦
          Collects-adopted p seen e es named free open_e
            (collect-Collects p ((name_of e, adopt p e) ∷ seen) es names)
    ]
  ]

  meets-empty : (es : List (EntryBase T)) → meets [] es ≡ false
  unfolding meets load
  meets-empty [] = refl
  meets-empty (e ∷ es) = meets-empty es

  -- Of entries with names, cachedList returns an error if an accessible one is followed by one of the
  -- same cname, and else the map that has under each cname the accessible entry of that cname, with
  -- its ID below the parent's and the wrapped types that are passed along.
  pub collect_lem :
      (p : EntryBase T) (es : List (EntryBase T))
      → HaveNames es
      → ((has_duplicate es ≡ true)
          × ((d : DuplicateCNameErr T) × (collect p [] es ≡ some (duplicate d))))
        ⊎ ((has_duplicate es ≡ false)
            × ((m : EntryMap T) × (collect p [] es ≡ some (collected m))
                × ((n : String) → load n m ≡ find_child p n es)))
  unfolding Collects Lists load
  collect_lem p es names = elim (collect-Collects p [] es names) [
    | inl (bad, (d, same)) ↦ inl (rw (meets-empty es) at bad, (d, same))
    | inr (good, (m, same, lists)) ↦ inr (rw (meets-empty es) at good, (m, same, lists))
  ]
