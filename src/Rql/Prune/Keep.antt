-- ===== src/Rql/Prune/Keep.antt =====
-- The result of evaluateNodesToKeep (api/rql/prune.go).
use wash.Prelude.{
  ℕ, zero, suc, ◌<◌, ◌≡◌, refl, ap, subst, ◌↔◌, inl, inr, Bool, true, false, Option, some, List,
  arith, leb, Bool-cases, length,
}
use wash.Prelude.Members.{contains, count_failing-length}
use wash.Rql.Prune.{
  Marks, is_kept, update_result, update_pass, update_until_stable, evaluate_nodes_to_keep,
  first_marks,
}
use wash.Rql.Prune.Walk.{Reaches, here, through, IsGraph, walk_from_root}
use wash.Rql.Prune.First.{IsFirst, FirstMarks, first_marks_lem}
use wash.Rql.Prune.Update.{
  Satisfiable, is_marked, unmarked, Grew, IsSound, InPass, update_result-Work,
}

pub Reaches-step :
    {children : ℕ → List ℕ} (n m c : ℕ)
    → Reaches children n m
    → contains c (children m) ≡ true
    → Reaches children n c
Reaches-step n m c (here _) e = through n c c e (here c)
Reaches-step n m c (through _ d _ i r) e = through n d c i (Reaches-step d m c r e)

module _ (nodes : List ℕ) (children : ℕ → List ℕ) (satisfies : ℕ → Bool)
    (graph : IsGraph nodes children) (fuel root : ℕ) (node : contains root nodes ≡ true)
    (enough : length nodes < fuel) where
  record Passed (start : Marks) (result : Option (List ℕ × Marks)) : Type 0 where
    visited : List ℕ
    marks : Marks
    is_result : result ≡ some (visited, marks)
    in_pass : InPass nodes children satisfies graph start marks
    closed :
        (n c : ℕ)
        → Reaches children root n
        → contains c (children n) ≡ true
        → is_kept start c ≡ true
        → is_kept marks n ≡ true

  update_pass_lem :
      (r : Marks)
      → IsSound nodes children satisfies graph r
      → Passed r (update_pass children satisfies fuel root r)
  unfolding update_pass Grew
  update_pass_lem r sound =
      let w =
        walk_from_root nodes children graph (λ n s. s) (update_result children satisfies) (λ n s. s)
          (InPass nodes children satisfies graph r) (λ n s. is_kept s n ≡ true) (λ n. ⊥)
          (λ c. is_kept r c ≡ true) (λ n. ⊥) (update_result-Work nodes children satisfies graph r)
          fuel root r node enough
          (record { is_sound = sound; from_start = λ n k. k; grew = inl refl }) in
      record {
        visited = w.visited';
        marks = w.s';
        is_result = w.is_result;
        in_pass = w.inv;
        closed = w.at_child;
      }

  record Stable (start : Marks) (result : Option Marks) : Type 0 where
    marks : Marks
    is_result : result ≡ some marks
    is_sound : IsSound nodes children satisfies graph marks
    from_start : (n : ℕ) → is_kept start n ≡ true → is_kept marks n ≡ true
    closed :
        (n c : ℕ)
        → Reaches children root n
        → contains c (children n) ≡ true
        → is_kept marks c ≡ true
        → is_kept marks n ≡ true

  Grew-same :
      (old new : Marks)
      → Grew nodes children satisfies graph old new
      → leb (length new) (length old) ≡ true
      → new ≡ old
  unfolding Grew
  Grew-same old new (inl e) h = e
  Grew-same old new (inr (l, u)) h = absurd (ground arith)

  Grew-more :
      (old new : Marks)
      → Grew nodes children satisfies graph old new
      → leb (length new) (length old) ≡ false
      → unmarked nodes children satisfies graph new < unmarked nodes children satisfies graph old
  unfolding Grew
  Grew-more old new (inl e) h = absurd (ground (arith, ap (λ r. length r) e))
  Grew-more old new (inr (l, u)) h = u

  update_until_stable_lem :
      (rounds : ℕ) (r : Marks)
      → IsSound nodes children satisfies graph r
      → unmarked nodes children satisfies graph r < rounds
      → Stable r (update_until_stable children satisfies rounds fuel root r)
  unfolding update_until_stable
  update_until_stable_lem zero r sound h = absurd (omega arith)
  update_until_stable_lem (suc rounds) r sound h =
      let p : Passed r (update_pass children satisfies fuel root r) = update_pass_lem r sound in
      elim (Bool-cases (leb (length p.marks) (length r))) [
        | inl stop ↦
            let same : p.marks ≡ r = Grew-same r p.marks p.in_pass.grew stop in
            rw p.is_result (
              rw stop (record {
                marks = p.marks;
                is_result = refl;
                is_sound = p.in_pass.is_sound;
                from_start = p.in_pass.from_start;
                closed =
                    λ n c reach i k. p.closed n c reach i (subst (λ x. is_kept x c ≡ true) same k);
              }))
        | inr go ↦
            let rest : Stable p.marks
                (update_until_stable children satisfies rounds fuel root p.marks) =
              update_until_stable_lem rounds p.marks p.in_pass.is_sound
                (omega (arith, Grew-more r p.marks p.in_pass.grew go)) in
            rw p.is_result (
              rw go (record {
                marks = rest.marks;
                is_result = rest.is_result;
                is_sound = rest.is_sound;
                from_start = λ n k. rest.from_start n (p.in_pass.from_start n k);
                closed = rest.closed;
              }))
      ]

  -- What the marks to keep are to be.
  pub record Keeps (result : Option Marks) : Type 0 where
    pub keep : Marks
    pub is_result : result ≡ some keep
    pub exact :
        (n : ℕ) → Reaches children root n → is_kept keep n ≡ true ↔ Satisfiable children satisfies n

  first-IsSound :
      (r : Marks)
      → IsFirst nodes children satisfies graph r
      → IsSound nodes children satisfies graph r
  first-IsSound r first = record {
    sound = λ n k. record { witness = n; reaches = here n; holds = first.sound n k };
    leaf = first.leaf;
  }

  kept_up :
      (start : Marks) (result : Option Marks) (s : Stable start result)
      → ((m : ℕ) → Reaches children root m → satisfies m ≡ true → is_kept start m ≡ true)
      → (n m : ℕ) → Reaches children root n
      → Reaches children n m
      → satisfies m ≡ true
      → is_kept s.marks n ≡ true
  kept_up start result s first n m reach (here _) h = s.from_start n (first n reach h)
  kept_up start result s first n m reach (through _ c _ i r) h =
      s.closed n c reach i (kept_up start result s first c m (Reaches-step root n c reach i) r h)

  -- On a finite graph with the root among its nodes, and with fuel above the number of nodes,
  -- evaluateNodesToKeep ends, and of the nodes that can be reached from the root it keeps those from
  -- which a node that satisfies the predicate can be reached, cycles and shared children included.
  pub evaluate_nodes_to_keep_lem : Keeps (evaluate_nodes_to_keep children satisfies fuel root)
  unfolding evaluate_nodes_to_keep unmarked
  evaluate_nodes_to_keep_lem =
      let f : FirstMarks nodes children satisfies graph root
          (first_marks children satisfies fuel root) =
        first_marks_lem nodes children satisfies graph fuel root node enough in
      let sound = first-IsSound f.marks f.first in
      let s : Stable f.marks (update_until_stable children satisfies fuel fuel root f.marks) =
        update_until_stable_lem fuel f.marks sound (
          omega (
            arith,
            count_failing-length (is_marked nodes children satisfies graph f.marks) nodes,
          )) in
      rw f.is_result (record {
        keep = s.marks;
        is_result = s.is_result;
        exact = λ n reach. (
          λ k. s.is_sound.sound n k,
          λ sat. kept_up f.marks _ s f.complete n sat.witness reach sat.reaches sat.holds,
        );
      })
