-- ===== src/Rql/Prune/First.antt =====
-- The starting state of evaluateNodesToKeep (api/rql/prune.go).
use wash.Prelude.{
  ℕ, ◌<◌, ◌≡◌, refl, sym, subst, ◌∙◌, inl, inr, Bool, true, false, negate, ◌&&◌, Option, none, some,
  List, [], ◌==◌, if◌then◌else◌, Bool-cases, ==_refl, ==→eq, length,
}
use wash.Prelude.Members.{contains}
use wash.Rql.Prune.{
  Marks, get_mark, set_mark, is_kept, is_true, has_children, apply_predicate, first_marks,
}
use wash.Rql.Prune.Walk.{Reaches, IsGraph, Work, walk_from_root}
use wash.Rql.Prune.Marks.{get_mark-set_mark, get_mark-delete_mark}

module _ (nodes : List ℕ) (children : ℕ → List ℕ) (satisfies : ℕ → Bool)
    (graph : IsGraph nodes children) where
  abbrev pub first_mark : ℕ → Option Bool
  first_mark n =
      if negate (satisfies n) && has_children (children n) then none else some (satisfies n)

  get_mark-apply_predicate :
      (n m : ℕ) (r : Marks)
      → get_mark m (apply_predicate children satisfies n r)
        ≡ (if m == n then first_mark n else get_mark m r)
  unfolding apply_predicate
  get_mark-apply_predicate n m r =
      elim (Bool-cases (negate (satisfies n) && has_children (children n))) [
        | inl e ↦ rw e (
            get_mark-delete_mark n m (set_mark n (satisfies n) r) ∙ elim (Bool-cases (m == n)) [
              | inl g ↦ rw g refl
              | inr g ↦ rw (get_mark-set_mark n m (satisfies n) r, g) refl
            ])
        | inr e ↦ rw e (get_mark-set_mark n m (satisfies n) r)
      ]

  get_mark-own :
      (n m : ℕ) (r : Marks)
      → (m == n) ≡ true
      → get_mark m (apply_predicate children satisfies n r) ≡ first_mark n
  get_mark-own n m r g = rw (get_mark-apply_predicate n m r, g) refl

  get_mark-other :
      (n m : ℕ) (r : Marks)
      → (m == n) ≡ false
      → get_mark m (apply_predicate children satisfies n r) ≡ get_mark m r
  get_mark-other n m r g = rw (get_mark-apply_predicate n m r, g) refl

  -- The marks say yes of satisfying nodes only, and no of nodes without children only.
  pub record IsFirst (r : Marks) : Type 0 where
    pub sound : (n : ℕ) → is_kept r n ≡ true → satisfies n ≡ true
    pub leaf : (n : ℕ) → get_mark n r ≡ some false → has_children (children n) ≡ false

  first_mark_sound : (n : ℕ) → is_true (first_mark n) ≡ true → satisfies n ≡ true
  first_mark_sound n h = elim (Bool-cases (satisfies n)) [
    | inl e ↦ e
    | inr e ↦ elim (Bool-cases (has_children (children n))) [
      | inl g ↦ let s = simp (e, g) at h in absurd (cc)
      | inr g ↦ let s = simp (e, g) at h in absurd (cc)
    ]
  ]

  first_mark_leaf : (n : ℕ) → first_mark n ≡ some false → has_children (children n) ≡ false
  first_mark_leaf n h = elim (Bool-cases (has_children (children n))) [
    | inr g ↦ g
    | inl g ↦ elim (Bool-cases (satisfies n)) [
      | inl e ↦ let s = simp (e, g) at h in absurd (cc)
      | inr e ↦ let s = simp (e, g) at h in absurd (cc)
    ]
  ]

  apply_predicate-IsFirst :
      (n : ℕ) (r : Marks) → IsFirst r → IsFirst (apply_predicate children satisfies n r)
  unfolding is_kept
  apply_predicate-IsFirst n r inv = record {
    sound = λ m h. elim (Bool-cases (m == n)) [
      | inl g ↦
          subst (λ x. satisfies x ≡ true) (sym (==→eq m n g))
            (first_mark_sound n (simp (get_mark-apply_predicate n m r, g) at h))
      | inr g ↦ inv.sound m (simp (get_mark-apply_predicate n m r, g) at h)
    ];
    leaf = λ m h. elim (Bool-cases (m == n)) [
      | inl g ↦
          subst (λ x. has_children (children x) ≡ false) (sym (==→eq m n g))
            (first_mark_leaf n (sym (get_mark-own n m r g) ∙ h))
      | inr g ↦ inv.leaf m (sym (get_mark-other n m r g) ∙ h)
    ];
  }

  -- A satisfying node is marked.
  Marked : ℕ → Marks → Type 0
  Marked n r = satisfies n ≡ true → is_kept r n ≡ true

  apply_predicate-Marked : (n : ℕ) (r : Marks) → Marked n (apply_predicate children satisfies n r)
  unfolding is_kept Marked
  apply_predicate-Marked n r h = rw (get_mark-apply_predicate n n r, ==_refl n, h) refl

  apply_predicate-keeps :
      (n m : ℕ) (r : Marks) → Marked m r → Marked m (apply_predicate children satisfies n r)
  unfolding is_kept Marked
  apply_predicate-keeps n m r d h = elim (Bool-cases (m == n)) [
    | inl g ↦
        subst (λ x. is_true (get_mark x (apply_predicate children satisfies n r)) ≡ true)
          (sym (==→eq m n g))
          (apply_predicate-Marked n r (subst (λ x. satisfies x ≡ true) (==→eq m n g) h))
    | inr g ↦ rw (get_mark-apply_predicate n m r, g) (d h)
  ]

  apply_predicate-Work :
      Work nodes children
        (apply_predicate children satisfies)
        (λ n c r. r)
        (λ n r. r)
        IsFirst
        Marked
        (λ n. Unit {0})
        (λ c. ⊥)
        (λ n. ⊥)
  apply_predicate-Work = record {
    enter_inv = λ n r i inv. apply_predicate-IsFirst n r inv;
    after_inv = λ n c r i j inv. inv;
    leave_inv = λ n r inv. inv;
    enter_keeps = apply_predicate-keeps;
    after_keeps = λ n c m r d. d;
    leave_keeps = λ n m r d. d;
    enter_does = λ n r why. apply_predicate-Marked n r;
    after_does = λ n c r inv why. absurd why;
    leave_does = λ n r why. absurd why;
  }

  pub record FirstMarks (root : ℕ) (result : Option (List ℕ × Marks)) : Type 0 where
    pub visited : List ℕ
    pub marks : Marks
    pub is_result : result ≡ some (visited, marks)
    pub first : IsFirst marks
    pub complete : (n : ℕ) → Reaches children root n → satisfies n ≡ true → is_kept marks n ≡ true

  pub first_marks_lem :
      (fuel root : ℕ)
      → contains root nodes ≡ true
      → length nodes < fuel
      → FirstMarks root (first_marks children satisfies fuel root)
  unfolding first_marks Marked is_kept get_mark
  first_marks_lem fuel root node enough =
      let w =
        walk_from_root nodes children graph (apply_predicate children satisfies) (λ n c r. r)
          (λ n r. r) IsFirst Marked (λ n. Unit {0}) (λ c. ⊥) (λ n. ⊥) apply_predicate-Work fuel root
          [] node enough (record { sound = λ n h. absurd (cc); leaf = λ n h. absurd (cc) }) in
      record {
        visited = w.visited';
        marks = w.s';
        is_result = w.is_result;
        first = w.inv;
        complete = λ n r. w.at_entry n r tt;
      }
