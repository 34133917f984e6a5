-- ===== src/Rql/Prune/Update.antt =====
-- The iterations of evaluateNodesToKeep (api/rql/prune.go).
use wash.Prelude.{
  ℕ, ◌<◌, ◌≡◌, refl, sym, subst, ◌⊎◌, inl, inr, Bool, true, false, some, List, [], ◌∷◌, arith, ◌==◌,
  Bool-cases, Option-cases, ==_refl, length,
}
use wash.Prelude.Members.{contains, count_failing, count_failing-lt}
use wash.Rql.Entry.{is_some}
use wash.Rql.Prune.{Marks, get_mark, set_mark, is_kept, has_children, update_result}
use wash.Rql.Prune.Walk.{Reaches, through, IsGraph, Work}
use wash.Rql.Prune.Marks.{
  get_mark-set_mark, set_mark-same, length-set_mark, set_mark-kept, set_mark-keeps, set_mark-only,
  set_mark-no_false,
}

-- The node is an ancestor of a satisfying one, or one itself.
pub record Satisfiable (children : ℕ → List ℕ) (satisfies : ℕ → Bool) (n : ℕ) : Type 0 where
  pub witness : ℕ
  pub reaches : Reaches children n witness
  pub holds : satisfies witness ≡ true

pub has_children-contains : (c : ℕ) (cs : List ℕ) → contains c cs ≡ true → has_children cs ≡ true
unfolding contains
has_children-contains c [] h = absurd (cc)
has_children-contains c (x ∷ xs) h = refl

module _ (nodes : List ℕ) (children : ℕ → List ℕ) (satisfies : ℕ → Bool)
    (graph : IsGraph nodes children) where
  unfoldable pub is_marked : Marks → ℕ → Bool
  is_marked r n = is_some (get_mark n r)

  unfoldable pub unmarked : Marks → ℕ
  unmarked r = count_failing (is_marked r) nodes

  unfoldable pub Grew : Marks → Marks → Type 0
  Grew old new = (new ≡ old) ⊎ ((length old < length new) × (unmarked new < unmarked old))

  Grew-trans : (a b c : Marks) → Grew a b → Grew b c → Grew a c
  unfolding Grew
  Grew-trans a b c (inl e) g = subst (λ x. Grew x c) e g
  Grew-trans a b c (inr p) (inl e) = subst (λ x. Grew a x) (sym e) (inr p)
  Grew-trans a b c (inr (l, u)) (inr (l', u')) = inr (omega arith, omega arith)

  pub record IsSound (r : Marks) : Type 0 where
    pub sound : (n : ℕ) → is_kept r n ≡ true → Satisfiable children satisfies n
    pub leaf : (n : ℕ) → get_mark n r ≡ some false → has_children (children n) ≡ false

  -- The marks of a pass that began with `start`.
  pub record InPass (start r : Marks) : Type 0 where
    pub is_sound : IsSound r
    pub from_start : (n : ℕ) → is_kept start n ≡ true → is_kept r n ≡ true
    pub grew : Grew start r

  is_marked_mono :
      (n : ℕ) (r : Marks) (m : ℕ) → is_marked r m ≡ true → is_marked (set_mark n true r) m ≡ true
  unfolding is_marked
  is_marked_mono n r m h =
      rw (get_mark-set_mark n m true r)
        (elim (Bool-cases (m == n)) [ inl g ↦ rw g refl | inr g ↦ rw g h ])

  set_mark-Grew :
      (n c : ℕ) (r : Marks)
      → contains n nodes ≡ true
      → contains c (children n) ≡ true
      → IsSound r
      → Grew r (set_mark n true r)
  unfolding Grew unmarked is_marked
  set_mark-Grew n c r node child s = elim (Option-cases (get_mark n r)) [
    | inl e ↦ inr (
      omega (arith, length-set_mark n true r e),
      count_failing-lt (λ x. is_some (get_mark x r)) (λ x. is_some (get_mark x (set_mark n true r)))
          nodes n (is_marked_mono n r) node (rw e refl)
          (rw (get_mark-set_mark n n true r, ==_refl n) refl),
    )
    | inr (true, e) ↦ inl (set_mark-same n true r e)
    | inr (false, e) ↦
        let has = has_children-contains c (children n) child in let no = s.leaf n e in absurd (cc)
  ]

  set_mark-IsSound :
      (n c : ℕ) (r : Marks)
      → contains c (children n) ≡ true
      → is_kept r c ≡ true
      → IsSound r
      → IsSound (set_mark n true r)
  set_mark-IsSound n c r child kept s = record {
    sound = λ m h. elim (set_mark-only n m r h) [
      | inl e ↦
          let below = s.sound c kept in
          subst (λ x. Satisfiable children satisfies x) (sym e)
            (record {
              witness = below.witness;
              reaches = through n c below.witness child below.reaches;
              holds = below.holds;
            })
      | inr k ↦ s.sound m k
    ];
    leaf = λ m h. s.leaf m (set_mark-no_false n m r h);
  }

  module _ (start : Marks) where
    update_result-InPass :
        (n c : ℕ) (r : Marks)
        → contains n nodes ≡ true
        → contains c (children n) ≡ true
        → InPass start r
        → InPass start (update_result children satisfies n c r)
    unfolding update_result
    update_result-InPass n c r node child inv = elim (Bool-cases (is_kept r c)) [
      | inr e ↦ rw e inv
      | inl e ↦ rw e (record {
        is_sound = set_mark-IsSound n c r child e inv.is_sound;
        from_start = λ m k. set_mark-keeps n m r (inv.from_start m k);
        grew =
            Grew-trans start r (set_mark n true r) inv.grew
              (set_mark-Grew n c r node child inv.is_sound);
      })
    ]

    update_result-keeps :
        (n c m : ℕ) (r : Marks)
        → is_kept r m ≡ true
        → is_kept (update_result children satisfies n c r) m ≡ true
    unfolding update_result
    update_result-keeps n c m r k = elim (Bool-cases (is_kept r c)) [
      | inl e ↦ rw e (set_mark-keeps n m r k)
      | inr e ↦ rw e k
    ]

    update_result-does :
        (n c : ℕ) (r : Marks)
        → InPass start r
        → is_kept start c ≡ true
        → is_kept (update_result children satisfies n c r) n ≡ true
    unfolding update_result
    update_result-does n c r inv k = rw (inv.from_start c k) (set_mark-kept n r)

    pub update_result-Work :
        Work nodes children
          (λ n s. s)
          (update_result children satisfies)
          (λ n s. s)
          (InPass start)
          (λ n r. is_kept r n ≡ true)
          (λ n. ⊥)
          (λ c. is_kept start c ≡ true)
          (λ n. ⊥)
    update_result-Work = record {
      enter_inv = λ n r i inv. inv;
      after_inv = update_result-InPass;
      leave_inv = λ n r inv. inv;
      enter_keeps = λ n m r d. d;
      after_keeps = update_result-keeps;
      leave_keeps = λ n m r d. d;
      enter_does = λ n r why. absurd why;
      after_does = update_result-does;
      leave_does = λ n r why. absurd why;
    }
