-- ===== src/Rql/Prune.antt =====
-- api/rql/prune.go: pruning the graph of entry schemas. A node is a number, its path: paths identify
-- the nodes, before and after evaluateNodesToKeep trims their prefix. `children` is Children(), and
-- `satisfies n` is EvalEntrySchema of the node, once its kind and its metadata schema are set.
pub mod Walk
pub mod Marks
pub mod First
pub mod Update
pub mod Keep
pub mod Pruned
mod Examples
use wash.Prelude.{
  ℕ, zero, suc, Bool, true, false, negate, ◌&&◌, Option, none, some, List, [], ◌∷◌, leb, ◌==◌,
  if◌then◌else◌, length,
}
use wash.Prelude.Members.{contains, filter}
use wash.Prelude.Maybe.{◌>>=◌}

-- The three recursive closures of the file do nothing at a node that they have visited; else they
-- mark it, do something, call themselves on each child, do something after each call, and something
-- at the end. The depth of the calls costs fuel.
module _ {S : Type 0} (after : ℕ → ℕ → S → S) where
  unfoldable pub walk_children :
      (ℕ → List ℕ × S → Option (List ℕ × S)) → ℕ → List ℕ → List ℕ × S → Option (List ℕ × S)
  walk_children visit n [] st = some st
  walk_children visit n (c ∷ cs) st = do
    (visited, s) ← visit c st
    walk_children visit n cs (visited, after n c s)

module _ {S : Type 0} (children : ℕ → List ℕ) (enter : ℕ → S → S) (after : ℕ → ℕ → S → S)
    (leave : ℕ → S → S) where
  -- The body, told whether the node has been visited
  unfoldable pub walk_node :
      Bool → (ℕ → List ℕ × S → Option (List ℕ × S)) → ℕ → List ℕ × S → Option (List ℕ × S)
  unfolding walk_children
  walk_node true visit n st = some st
  walk_node false visit n (visited, s) = do
    (visited', s') ← walk_children after visit n (children n) (n ∷ visited, enter n s)
    some (visited', leave n s')

  unfoldable pub walk : ℕ → ℕ → List ℕ × S → Option (List ℕ × S)
  unfolding walk_node contains
  walk zero n st = none
  walk (suc f) n (visited, s) = walk_node (contains n visited) (walk f) n (visited, s)

-- map[string]bool
abbrev pub Marks : Type 0
Marks = List (ℕ × Bool)

unfoldable pub get_mark : ℕ → Marks → Option Bool
get_mark n [] = none
get_mark n ((m, b) ∷ r) = if n == m then some b else get_mark n r

abbrev pub is_true : Option Bool → Bool
is_true (some true) = true
is_true o = false

-- result[n], false where there is no such key
unfoldable pub is_kept : Marks → ℕ → Bool
unfolding get_mark
is_kept r n = is_true (get_mark n r)

unfoldable pub set_mark : ℕ → Bool → Marks → Marks
set_mark n b [] = (n, b) ∷ []
set_mark n b ((m, c) ∷ r) = if n == m then (n, b) ∷ r else (m, c) ∷ set_mark n b r

unfoldable pub delete_mark : ℕ → Marks → Marks
delete_mark n [] = []
delete_mark n ((m, c) ∷ r) = if n == m then delete_mark n r else (m, c) ∷ delete_mark n r

abbrev pub has_children : List ℕ → Bool
has_children [] = false
has_children (c ∷ cs) = true

-- The children that SetChildren gave a node
unfoldable pub find_children : ℕ → List (ℕ × List ℕ) → Option (List ℕ)
find_children n [] = none
find_children n ((m, cs) ∷ r) = if n == m then some cs else find_children n r

module _ (children : ℕ → List ℕ) (satisfies : ℕ → Bool) where
  -- The marks that applyPredicate makes at a node
  unfoldable pub apply_predicate : ℕ → Marks → Marks
  unfolding set_mark delete_mark
  apply_predicate n r =
      if negate (satisfies n) && has_children (children n)
      then delete_mark n (set_mark n (satisfies n) r)
      else set_mark n (satisfies n) r

  -- What updateResult does after the call on a child
  unfoldable pub update_result : ℕ → ℕ → Marks → Marks
  unfolding is_kept set_mark
  update_result n c r = if is_kept r c then set_mark n true r else r

  unfoldable pub first_marks : ℕ → ℕ → Option (List ℕ × Marks)
  unfolding walk apply_predicate
  first_marks fuel root = walk children apply_predicate (λ n c r. r) (λ n r. r) fuel root ([], [])

  unfoldable pub update_pass : ℕ → ℕ → Marks → Option (List ℕ × Marks)
  unfolding walk update_result
  update_pass fuel root r = walk children (λ n s. s) update_result (λ n s. s) fuel root ([], r)

  -- The loop, whose number of rounds costs fuel too
  unfoldable pub update_until_stable : ℕ → ℕ → ℕ → Marks → Option Marks
  unfolding update_pass
  update_until_stable zero fuel root r = none
  update_until_stable (suc rounds) fuel root r = do
    (visited, r') ← update_pass fuel root r
    let rest = update_until_stable rounds fuel root r' in
        if leb (length r') (length r) then some r' else rest

  unfoldable pub evaluate_nodes_to_keep : ℕ → ℕ → Option Marks
  unfolding first_marks update_until_stable
  evaluate_nodes_to_keep fuel root = do
    (visited, r) ← first_marks fuel root
    update_until_stable fuel fuel root r

  -- The childrenToKeep of a node
  abbrev pub children_to_keep : Marks → ℕ → List ℕ
  children_to_keep keep n = filter (is_kept keep) (children n)

  -- pruneHelper, with the children that it set, the last ones first
  unfoldable pub prune_helper : Marks → ℕ → ℕ → Option (List ℕ × List (ℕ × List ℕ))
  unfolding walk
  prune_helper keep fuel root =
      walk (children_to_keep keep) (λ n m. m) (λ n c m. m) (λ n m. (n, children_to_keep keep n) ∷ m)
        fuel root ([], [])

  -- prune: nil, or the children that the nodes have afterwards
  unfoldable pub prune : ℕ → ℕ → Option (Option (List (ℕ × List ℕ)))
  unfolding evaluate_nodes_to_keep prune_helper
  prune fuel root = do
    keep ← evaluate_nodes_to_keep fuel root
    let pruned = prune_helper keep fuel root >>= λ st. some (some st.1) in
        if is_kept keep root then pruned else some none
