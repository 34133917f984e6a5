-- ===== src/Volume/Deleted.antt =====
-- deleteNode of volume/core.go, on every branch.
use wash.Prelude.{
  String, ◌≡◌, refl, sym, ap, ◌∙◌, ◌≢◌, ◌⊎◌, inl, inr, Bool, true, false, ◌||◌, Option, none, some,
  List, [], ◌∷◌, ◌++◌, arith, str_eq, eq_iff, if◌then◌else◌, Bool-cases, length,
}
use wash.Prelude.Maps.{look, remove, look-remove}
use wash.Prelude.Texts.{NoSlash, split, join_all, split-append, split_last-append, join-split}
use wash.Volume.{Children, DirMap}
use wash.Volume.Dir.{
  Node, Deletion, deletion, deletion_failed, update_parent, forget_node, delete_node,
}
use wash.Volume.Paths.{path_of, IsClean}
use wash.Volume.Views.{child, child-put, look_in, look_in-none, look_in-empty, look-cases}
use wash.Volume.Above.{same, same-eq, same-cons, same-length}

child-remove :
    (p f j : String) (d : DirMap)
    → child p f (remove j d) ≡ (if str_eq p j then none else child p f d)
unfolding look_in
child-remove p f j d =
    rw (look-remove p j d)
      (elim (Bool-cases (str_eq p j)) [ inl e ↦ rw e refl | inr e ↦ rw e refl ])

split-path_of :
    (s : String) (up : List String)
    → NoSlash s
    → split (path_of (s ∷ up)) ≡ ((split (path_of up)).0, (split (path_of up)).1 ++ (s ∷ []))
unfolding path_of
split-path_of s up h = split-append (path_of up) s h

join_all-split : (p : String) → join_all ((split p).0 ∷ (split p).1) ≡ p
unfolding join_all
join_all-split p = join-split p

forget_node-path_of :
    (s : String) (up : List String) (d : DirMap)
    → IsClean (s ∷ up)
    → forget_node (path_of (s ∷ up)) d
      ≡ update_parent (path_of up) s (look (path_of up) d) (remove (path_of (s ∷ up)) d)
unfolding forget_node
forget_node-path_of s up d h =
    rw
      (
        split-path_of s up h.1,
        split_last-append (split (path_of up)).0 (split (path_of up)).1 s,
        join_all-split (path_of up),
        look-remove (path_of up) (path_of (s ∷ up)) d,
        same-length up (s ∷ up) h.2 h (λ e. omega (arith, e)),
      )
      refl

-- The node itself, or below it
unfoldable pub is_gone : String → List String → String → List String → Bool
is_gone s up t vp = same vp (s ∷ up) || same (t ∷ vp) (s ∷ up)

module _ (s : String) (up : List String) (t : String) (vp : List String) (d : DirMap)
    (hp : IsClean (s ∷ up)) (hv : IsClean (t ∷ vp)) where
  same-above : same (t ∷ vp) (s ∷ up) ≡ true → path_of vp ≡ path_of up
  same-above m = elim (Bool-cases (same vp up)) [
    | inl k ↦ (eq_iff (path_of vp) (path_of up)).0 k
    | inr k ↦ absurd (cc (m, same-cons t s vp up hv hp, k))
  ]

  elsewhere :
      same vp up ≡ false
      → child (path_of vp) t (remove (path_of (s ∷ up)) d)
        ≡ (if is_gone s up t vp then none else child (path_of vp) t d)
  unfolding is_gone
  elsewhere g =
      child-remove (path_of vp) t (path_of (s ∷ up)) d
      ∙ rw (same-cons t s vp up hv hp, g)
          (elim (Bool-cases (same vp (s ∷ up))) [ inl k ↦ rw k refl | inr k ↦ rw k refl ])

  childless :
      child (path_of vp) t d ≡ none
      → (if is_gone s up t vp then none else child (path_of vp) t d) ≡ none
  childless h = elim (Bool-cases (is_gone s up t vp)) [ inl k ↦ rw k refl | inr k ↦ rw k h ]

  at_parent :
      (x : Option (Option Children))
      → same vp up ≡ true
      → look (path_of up) d ≡ x
      → child (path_of vp) t d ≡ look_in t x
  at_parent x g e =
      ap (λ y. look_in t (look y d)) ((eq_iff (path_of vp) (path_of up)).0 g) ∙ ap (look_in t) e

  removed :
      child (path_of vp) t d ≡ none → child (path_of vp) t (remove (path_of (s ∷ up)) d) ≡ none
  removed h =
      child-remove (path_of vp) t (path_of (s ∷ up)) d
      ∙ elim (Bool-cases (same vp (s ∷ up))) [ inl k ↦ rw k refl | inr k ↦ rw k h ]

  beside :
      (c : Children)
      → same vp up ≡ true
      → look (path_of up) d ≡ some (some c)
      → look t (remove s c) ≡ (if is_gone s up t vp then none else child (path_of vp) t d)
  unfolding is_gone look_in
  beside c g e =
      let other =
        same-length vp (s ∷ up) hv.2 hp
          (λ k. omega (arith, ap length (same-eq vp up hv.2 hp.2 g), k)) in
      look-remove t s c
      ∙ sym (rw (other, same-cons t s vp up hv hp, g, at_parent (some (some c)) g e) refl)

  forget_in_lem :
      child
        (path_of vp)
        t
        (update_parent (path_of up) s (look (path_of up) d) (remove (path_of (s ∷ up)) d))
      ≡ (if is_gone s up t vp then none else child (path_of vp) t d)
  forget_in_lem = elim (look-cases (path_of up) d) [
    | inl e ↦ rw e (elim (Bool-cases (same vp up)) [
      | inl g ↦ let h = at_parent none g e ∙ look_in-none t in removed h ∙ sym (childless h)
      | inr g ↦ elsewhere g
    ])
    | inr (inl e) ↦ rw e (
        child-put (path_of vp) t (path_of up) none (remove (path_of (s ∷ up)) d)
        ∙ elim (Bool-cases (same vp up)) [
          | inl g ↦ rw g (
              look_in-empty t true
              ∙ sym (childless (at_parent (some none) g e ∙ look_in-empty t true)))
          | inr g ↦ rw g (elsewhere g)
        ])
    | inr (inr (c, e)) ↦ rw e (
        child-put (path_of vp) t (path_of up) (some (remove s c)) (remove (path_of (s ∷ up)) d)
        ∙ elim (Bool-cases (same vp up)) [
          | inl g ↦ rw g (unfold look_in in beside c g e)
          | inr g ↦ rw g (elsewhere g)
        ])
  ]

-- deleteNode of a node whose path is clean passes on what VolumeDelete returns and leaves the map
-- unless the node was deleted. Then it panics if the node has no map of directories; else neither the
-- node nor the children of its path are in the map, and every other path has what it had.
pub delete_node_lem :
    {T : Type 0} (v : Node T) (s : String) (up : List String) (t : String) (vp : List String)
    (result : Deletion) (d : DirMap)
    → IsClean (s ∷ up)
    → IsClean (t ∷ vp)
    → v.path ≡ path_of (s ∷ up)
    → ((result ≢ deletion true) × (delete_node v result d ≡ some (result, d)))
      ⊎ ((result ≡ deletion true) × (v.has_dirmap ≡ false) × (delete_node v result d ≡ none))
      ⊎ ((result ≡ deletion true)
          × (v.has_dirmap ≡ true)
          × ((d' : DirMap) × (delete_node v result d ≡ some (deletion true, d'))
              × (child (path_of vp) t d'
                  ≡ (if is_gone s up t vp then none else child (path_of vp) t d))))
unfolding delete_node
delete_node_lem v s up t vp deletion_failed d hp hv e = inl ((λ k. absurd (cc)), refl)
delete_node_lem v s up t vp (deletion false) d hp hv e = inl ((λ k. absurd (cc)), refl)
delete_node_lem v s up t vp (deletion true) d hp hv e = elim (Bool-cases v.has_dirmap) [
  | inr h ↦ inr (inl (refl, h, rw h refl))
  | inl h ↦ inr (
      inr (
        refl,
        h,
        (
          forget_node v.path d,
          rw h refl,
          ap (λ x. child (path_of vp) t (forget_node x d)) e
              ∙ ap (child (path_of vp) t) (forget_node-path_of s up d hp)
              ∙ forget_in_lem s up t vp d hp hv,
        ),
      ))
]
