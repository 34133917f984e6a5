-- ===== src/Rql/Prune/Examples.antt =====
-- A schema graph with a cycle and a shared child: 0 lists 1 and 4, 1 lists itself, 2 and 3.
use wash.Prelude.{
  ℕ, ◌<◌, ◌≡◌, refl, inl, inr, Bool, true, some, List, [], ◌∷◌, arith, ◌==◌, if◌then◌else◌,
  Bool-cases,
}
use wash.Prelude.Members.{contains, filter}
use wash.Rql.Prune.{prune, evaluate_nodes_to_keep}
use wash.Rql.Prune.Walk.{IsGraph}
use wash.Rql.Prune.Keep.{Keeps, evaluate_nodes_to_keep_lem}
use wash.Rql.Prune.Pruned.{Prunes, prune_lem}

abbrev sample_nodes : List ℕ
sample_nodes = 0 ∷ 1 ∷ 2 ∷ 3 ∷ 4 ∷ []

abbrev sample_children : ℕ → List ℕ
sample_children n = if n == 0 then 1 ∷ 4 ∷ [] else if n == 1 then 1 ∷ 2 ∷ 3 ∷ [] else []

abbrev is_two : ℕ → Bool
is_two n = n == 2

contains-below_five : (c : ℕ) → c < 5 → contains c sample_nodes ≡ true
unfolding contains
contains-below_five c h = ground arith

sample_children-IsGraph : IsGraph sample_nodes sample_children
unfolding contains
sample_children-IsGraph = record {
  closed = λ n c i j. contains-below_five c (elim (Bool-cases (n == 0)) [
    | inl e ↦ let s = simp e at j in ground (arith, s)
    | inr e ↦ elim (Bool-cases (n == 1)) [
      | inl g ↦ let s = simp (e, g) at j in ground (arith, s)
      | inr g ↦ let s = simp (e, g) at j in absurd (cc)
    ]
  ]);
}

has_root : contains 0 sample_nodes ≡ true
unfolding contains
has_root = refl

evaluate_nodes_to_keep_lem_example :
    Keeps sample_nodes sample_children is_two sample_children-IsGraph 6 0 has_root
      (omega arith)
      (evaluate_nodes_to_keep sample_children is_two 6 0)
evaluate_nodes_to_keep_lem_example =
    evaluate_nodes_to_keep_lem sample_nodes sample_children is_two sample_children-IsGraph 6 0
      has_root (omega arith)

prune_lem_example :
    Prunes sample_nodes sample_children is_two sample_children-IsGraph 6 0 has_root
      (omega arith)
      (prune sample_children is_two 6 0)
prune_lem_example =
    prune_lem sample_nodes sample_children is_two sample_children-IsGraph 6 0 has_root (omega arith)

-- 0 and 1 keep the way to 2.
prunes_sample :
    prune sample_children is_two 6 0 ≡ some (some ((0, 1 ∷ []) ∷ (1, 1 ∷ 2 ∷ []) ∷ (2, []) ∷ []))
unfolding prune evaluate_nodes_to_keep filter
prunes_sample = refl
