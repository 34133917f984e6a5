-- ===== src/Rql/Prune/Pruned.antt =====
-- The graph after prune (api/rql/prune.go).
use wash.Prelude.{
  ℕ, ◌<◌, ◌≡◌, refl, sym, ap, ◌↔◌, ◌⊎◌, inl, inr, Bool, true, Option, none, some, List, [], ◌∷◌,
  arith, ◌==◌, Bool-cases, ==→eq, length,
}
use wash.Prelude.Members.{contains, contains-filter, filter-contains}
use wash.Rql.Prune.{
  Marks, is_kept, children_to_keep, prune_helper, prune, find_children, evaluate_nodes_to_keep,
}
use wash.Rql.Prune.Walk.{Reaches, here, through, IsGraph, Work, walk_from_root}
use wash.Rql.Prune.Update.{Satisfiable}
use wash.Rql.Prune.Keep.{Keeps, Reaches-step, evaluate_nodes_to_keep_lem}

Reaches-trans :
    {children : ℕ → List ℕ} (a b c : ℕ)
    → Reaches children a b
    → Reaches children b c
    → Reaches children a c
Reaches-trans a b c (here _) s = s
Reaches-trans a b c (through _ d _ i r) s = through a d c i (Reaches-trans d b c r s)

module _ (nodes : List ℕ) (children : ℕ → List ℕ) (satisfies : ℕ → Bool)
    (graph : IsGraph nodes children) (fuel root : ℕ) (node : contains root nodes ≡ true)
    (enough : length nodes < fuel) where
  module _ (keep : Marks) where
    kept_graph : IsGraph nodes (children_to_keep children satisfies keep)
    kept_graph = record {
      closed = λ n c i j. graph.closed n c i (contains-filter (is_kept keep) c (children n) j).0;
    }

    -- SetChildren was called with the children to keep.
    Set : ℕ → List (ℕ × List ℕ) → Type 0
    Set n m = find_children n m ≡ some (children_to_keep children satisfies keep n)

    Set-leave :
        (n m : ℕ) (r : List (ℕ × List ℕ))
        → (n ≡ m) ⊎ Set m r
        → Set m ((n, children_to_keep children satisfies keep n) ∷ r)
    unfolding Set find_children
    Set-leave n m r s = elim (Bool-cases (m == n)) [
      | inl g ↦
          rw g (ap (λ x. some (children_to_keep children satisfies keep x)) (sym (==→eq m n g)))
      | inr g ↦ rw g (elim s [ inl e ↦ absurd (ground (arith, e)) | inr d ↦ d ])
    ]

    prune_helper-Work :
        Work nodes
          (children_to_keep children satisfies keep)
          (λ n m. m)
          (λ n c m. m)
          (λ n m. (n, children_to_keep children satisfies keep n) ∷ m)
          (λ m. Unit {0})
          Set
          (λ n. ⊥)
          (λ c. ⊥)
          (λ n. Unit {0})
    prune_helper-Work = record {
      enter_inv = λ n m i inv. tt;
      after_inv = λ n c m i j inv. tt;
      leave_inv = λ n m inv. tt;
      enter_keeps = λ n k m d. d;
      after_keeps = λ n c k m d. d;
      leave_keeps = λ n k m d. Set-leave n k m (inr d);
      enter_does = λ n m why. absurd why;
      after_does = λ n c m inv why. absurd why;
      leave_does = λ n m why. Set-leave n n m (inl refl);
    }

    record Helped (result : Option (List ℕ × List (ℕ × List ℕ))) : Type 0 where
      visited : List ℕ
      kept : List (ℕ × List ℕ)
      is_result : result ≡ some (visited, kept)
      sets :
          (n : ℕ)
          → Reaches (children_to_keep children satisfies keep) root n
          → find_children n kept ≡ some (children_to_keep children satisfies keep n)

    prune_helper_lem : Helped (prune_helper children satisfies keep fuel root)
    unfolding prune_helper Set
    prune_helper_lem =
        let w =
          walk_from_root nodes (children_to_keep children satisfies keep) kept_graph (λ n m. m)
            (λ n c m. m) (λ n m. (n, children_to_keep children satisfies keep n) ∷ m)
            (λ m. Unit {0}) Set (λ n. ⊥) (λ c. ⊥) (λ n. Unit {0}) prune_helper-Work fuel root []
            node enough tt in
        record {
          visited = w.visited';
          kept = w.s';
          is_result = w.is_result;
          sets = λ n r. w.at_exit n r tt;
        }

  -- The children of the nodes that are left.
  pub KeepsChildren : List (ℕ × List ℕ) → Type 0
  KeepsChildren m =
      (n : ℕ)
      → Reaches children root n
      → Satisfiable children satisfies n
      → (cs : List ℕ) × (find_children n m ≡ some cs)
        × ((c : ℕ)
            → contains c cs ≡ true
              ↔ ((contains c (children n) ≡ true) × Satisfiable children satisfies c))

  -- Either no satisfying node can be reached and nothing is left, or the graph is cut down.
  pub Prunes : Option (Option (List (ℕ × List ℕ))) → Type 0
  Prunes result =
      ((result ≡ some none) × (Satisfiable children satisfies root → ⊥))
      ⊎ ((m : List (ℕ × List ℕ)) × (result ≡ some (some m))
          × Satisfiable children satisfies root
          × KeepsChildren m)

  kept_path :
      (keep : Marks)
      → ((n : ℕ)
          → Reaches children root n
          → is_kept keep n ≡ true ↔ Satisfiable children satisfies n)
      → (a n : ℕ) → Reaches children root a
      → Reaches children a n
      → Satisfiable children satisfies n
      → Reaches (children_to_keep children satisfies keep) a n
  kept_path keep exact a n from (here _) sat = here n
  kept_path keep exact a n from (through _ c _ i r) sat =
      let to_c = Reaches-step root a c from i in
      let sat_c : Satisfiable children satisfies c = record {
        witness = sat.witness;
        reaches = Reaches-trans c n sat.witness r sat.reaches;
        holds = sat.holds;
      } in
      through a c n (filter-contains (is_kept keep) c (children a) i ((exact c to_c).1 sat_c))
        (kept_path keep exact c n to_c r sat)

  keeps_children :
      (keep : Marks) (kept : List (ℕ × List ℕ))
      → ((n : ℕ)
          → Reaches children root n
          → is_kept keep n ≡ true ↔ Satisfiable children satisfies n)
      → ((n : ℕ)
          → Reaches (children_to_keep children satisfies keep) root n
          → find_children n kept ≡ some (children_to_keep children satisfies keep n))
      → KeepsChildren kept
  unfolding KeepsChildren
  keeps_children keep kept exact sets n reach sat = (
    children_to_keep children satisfies keep n,
    sets n (kept_path keep exact root n (here root) reach sat),
    λ c. (
      λ i.
          let p = contains-filter (is_kept keep) c (children n) i in
          (p.0, (exact c (Reaches-step root n c reach p.0)).0 p.1),
      λ q.
          filter-contains (is_kept keep) c (children n) q.0
            ((exact c (Reaches-step root n c reach q.0)).1 q.1),
    ),
  )

  -- With fuel above the number of nodes of a finite graph that has the root, prune ends. It returns
  -- nil exactly if the root neither satisfies the predicate nor reaches a node that does; else each
  -- node that can be reached from the root and is of that kind has, of its children, those that are
  -- of that kind.
  pub prune_lem : Prunes (prune children satisfies fuel root)
  unfolding prune Prunes
  prune_lem =
      let k : Keeps nodes children satisfies graph fuel root node enough
          (evaluate_nodes_to_keep children satisfies fuel root) =
        evaluate_nodes_to_keep_lem nodes children satisfies graph fuel root node enough in
      let at_root = k.exact root (here root) in
      elim (Bool-cases (is_kept k.keep root)) [
        | inr e ↦ rw k.is_result (rw e (inl (refl, λ sat. let t = at_root.1 sat in absurd (cc))))
        | inl e ↦
            let h : Helped k.keep (prune_helper children satisfies k.keep fuel root) =
              prune_helper_lem k.keep in
            rw k.is_result (
              rw e (
                rw h.is_result
                  (inr (h.kept, refl, at_root.0 e, keeps_children k.keep h.kept k.exact h.sets))))
      ]
