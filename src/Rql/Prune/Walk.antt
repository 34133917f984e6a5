-- ===== src/Rql/Prune/Walk.antt =====
-- The nodes that the recursive closures of api/rql/prune.go visit, and the work at each.
use wash.Prelude.{
  ℕ, zero, suc, ◌≤◌, ◌<◌, ◌≡◌, refl, sym, subst, ◌⊎◌, inl, inr, true, false, Option, some, List, [],
  ◌∷◌, arith, Bool-cases, length,
}
use wash.Prelude.Members.{
  contains, contains-head, contains-tail, contains-cons, count_failing, count_failing-le,
  count_failing-lt, count_failing-length,
}
use wash.Rql.Prune.{walk, walk_children}

pub data Reaches (children : ℕ → List ℕ) : ℕ → ℕ → Type 0 where
  here : (n : ℕ) → Reaches children n n
  through :
      (n c m : ℕ) → contains c (children n) ≡ true → Reaches children c m → Reaches children n m

-- All numbers that are walked: the root, and the children of each.
pub record IsGraph (nodes : List ℕ) (children : ℕ → List ℕ) : Type 0 where
  pub closed :
      (n c : ℕ) → contains n nodes ≡ true → contains c (children n) ≡ true → contains c nodes ≡ true

visits_all :
    {children : ℕ → List ℕ} (visited : List ℕ)
    → ((n c : ℕ)
        → contains n visited ≡ true
        → contains c (children n) ≡ true
        → contains c visited ≡ true)
    → (n v : ℕ) → contains n visited ≡ true
    → Reaches children n v
    → contains v visited ≡ true
visits_all visited h n v i (here _) = i
visits_all visited h n v i (through _ c _ e r) = visits_all visited h c v (h n c i e) r

-- What the work at the nodes keeps true (`Inv`), and what it gets done at a node for good (`Done`):
-- at its entry, after one of its children, or when it is left.
pub record Work {S : Type 0} (nodes : List ℕ) (children : ℕ → List ℕ) (enter : ℕ → S → S)
    (after : ℕ → ℕ → S → S) (leave : ℕ → S → S) (Inv : S → Type 0) (Done : ℕ → S → Type 0)
    (AtEntry : ℕ → Type 0) (AtChild : ℕ → Type 0) (AtExit : ℕ → Type 0) : Type 0 where
  pub enter_inv : (n : ℕ) (s : S) → contains n nodes ≡ true → Inv s → Inv (enter n s)
  pub after_inv :
      (n c : ℕ) (s : S)
      → contains n nodes ≡ true
      → contains c (children n) ≡ true
      → Inv s
      → Inv (after n c s)
  pub leave_inv : (n : ℕ) (s : S) → Inv s → Inv (leave n s)
  pub enter_keeps : (n m : ℕ) (s : S) → Done m s → Done m (enter n s)
  pub after_keeps : (n c m : ℕ) (s : S) → Done m s → Done m (after n c s)
  pub leave_keeps : (n m : ℕ) (s : S) → Done m s → Done m (leave n s)
  pub enter_does : (n : ℕ) (s : S) → AtEntry n → Done n (enter n s)
  pub after_does : (n c : ℕ) (s : S) → Inv s → AtChild c → Done n (after n c s)
  pub leave_does : (n : ℕ) (s : S) → AtExit n → Done n (leave n s)

module _ {S : Type 0} (nodes : List ℕ) (children : ℕ → List ℕ) (graph : IsGraph nodes children)
    (enter : ℕ → S → S) (after : ℕ → ℕ → S → S) (leave : ℕ → S → S) (Inv : S → Type 0)
    (Done : ℕ → S → Type 0) (AtEntry : ℕ → Type 0) (AtChild : ℕ → Type 0) (AtExit : ℕ → Type 0)
    (work : Work nodes children enter after leave Inv Done AtEntry AtChild AtExit) where
  -- A node that has been visited and left.
  record Finished (v : ℕ) (visited : List ℕ) (s : S) : Type 0 where
    closed : (c : ℕ) → contains c (children v) ≡ true → contains c visited ≡ true
    by_entry : AtEntry v → Done v s
    by_child : (c : ℕ) → contains c (children v) ≡ true → AtChild c → Done v s
    by_exit : AtExit v → Done v s

  record Looped (n : ℕ) (cs visited : List ℕ) (s : S) (result : Option (List ℕ × S)) : Type 0 where
    visited' : List ℕ
    s' : S
    is_result : result ≡ some (visited', s')
    inv : Inv s'
    keeps_visited : (m : ℕ) → contains m visited ≡ true → contains m visited' ≡ true
    keeps_done : (m : ℕ) → Done m s → Done m s'
    reached : (c : ℕ) → contains c cs ≡ true → contains c visited' ≡ true
    did : (c : ℕ) → contains c cs ≡ true → AtChild c → Done n s'
    finished :
        (v : ℕ) → contains v visited' ≡ true → (contains v visited ≡ true) ⊎ Finished v visited' s'

  record Walked (n : ℕ) (visited : List ℕ) (s : S) (result : Option (List ℕ × S)) : Type 0 where
    visited' : List ℕ
    s' : S
    is_result : result ≡ some (visited', s')
    inv : Inv s'
    keeps_visited : (m : ℕ) → contains m visited ≡ true → contains m visited' ≡ true
    keeps_done : (m : ℕ) → Done m s → Done m s'
    reached : contains n visited' ≡ true
    finished :
        (v : ℕ) → contains v visited' ≡ true → (contains v visited ≡ true) ⊎ Finished v visited' s'

  Finished-mono :
      (v : ℕ) (visited wider : List ℕ) (s later : S)
      → ((m : ℕ) → contains m visited ≡ true → contains m wider ≡ true)
      → (Done v s → Done v later)
      → Finished v visited s
      → Finished v wider later
  Finished-mono v visited wider s later wide keep fin = record {
    closed = λ c i. wide c (fin.closed c i);
    by_entry = λ w. keep (fin.by_entry w);
    by_child = λ c i w. keep (fin.by_child c i w);
    by_exit = λ w. keep (fin.by_exit w);
  }

  unvisited : List ℕ → ℕ
  unvisited visited = count_failing (λ x. contains x visited) nodes

  unvisited-le :
      (visited wider : List ℕ)
      → ((m : ℕ) → contains m visited ≡ true → contains m wider ≡ true)
      → unvisited wider ≤ unvisited visited
  unfolding unvisited
  unvisited-le visited wider h =
      count_failing-le (λ x. contains x visited) (λ x. contains x wider) nodes h

  unvisited-lt :
      (n : ℕ) (visited : List ℕ)
      → contains n nodes ≡ true
      → contains n visited ≡ false
      → unvisited (n ∷ visited) < unvisited visited
  unfolding unvisited
  unvisited-lt n visited i new =
      count_failing-lt (λ x. contains x visited) (λ x. contains x (n ∷ visited)) nodes n
        (λ x. contains-tail x n visited) i new (contains-head n visited)

  -- A visit that works while fewer than `f` nodes are unvisited.
  Visits : ℕ → (ℕ → List ℕ × S → Option (List ℕ × S)) → Type 0
  Visits f visit =
      (n : ℕ) (visited : List ℕ) (s : S)
      → contains n nodes ≡ true
      → unvisited visited < f
      → Inv s
      → Walked n visited s (visit n (visited, s))

  walk_children_lem :
      (f : ℕ) (visit : ℕ → List ℕ × S → Option (List ℕ × S)) (n : ℕ) (cs visited : List ℕ) (s : S)
      → Visits f visit
      → contains n nodes ≡ true
      → ((c : ℕ) → contains c cs ≡ true → contains c (children n) ≡ true)
      → unvisited visited < f
      → Inv s
      → Looped n cs visited s (walk_children after visit n cs (visited, s))
  unfolding walk_children Visits contains
  walk_children_lem f visit n [] visited s visits node sub fuel inv = record {
    visited' = visited;
    s' = s;
    is_result = refl;
    inv = inv;
    keeps_visited = λ m i. i;
    keeps_done = λ m d. d;
    reached = λ c i. absurd (cc);
    did = λ c i. absurd (cc);
    finished = λ v i. inl i;
  }
  walk_children_lem f visit n (c ∷ cs) visited s visits node sub fuel inv =
      let child : contains c (children n) ≡ true = sub c (contains-head c cs) in
      let w : Walked c visited s (visit c (visited, s)) =
        visits c visited s (graph.closed n c node child) fuel inv in
      let s1 = after n c w.s' in
      let rest : Looped n cs w.visited' s1 (walk_children after visit n cs (w.visited', s1)) =
        walk_children_lem f visit n cs w.visited' s1 visits node
          (λ d i. sub d (contains-tail d c cs i))
          (omega (arith, unvisited-le visited w.visited' w.keeps_visited))
          (work.after_inv n c w.s' node child w.inv) in
      record {
        visited' = rest.visited';
        s' = rest.s';
        is_result = rw w.is_result rest.is_result;
        inv = rest.inv;
        keeps_visited = λ m i. rest.keeps_visited m (w.keeps_visited m i);
        keeps_done = λ m d. rest.keeps_done m (work.after_keeps n c m w.s' (w.keeps_done m d));
        reached = λ d i. elim (contains-cons d c cs i) [
          | inl e ↦
              rest.keeps_visited d (subst (λ x. contains x w.visited' ≡ true) (sym e) w.reached)
          | inr j ↦ rest.reached d j
        ];
        did = λ d i why. elim (contains-cons d c cs i) [
          | inl e ↦ rest.keeps_done n (work.after_does n c w.s' w.inv (subst AtChild e why))
          | inr j ↦ rest.did d j why
        ];
        finished = λ v i. elim (rest.finished v i) [
          | inr fin ↦ inr fin
          | inl j ↦ elim (w.finished v j) [
            | inl k ↦ inl k
            | inr fin ↦ inr (
                Finished-mono v w.visited' rest.visited' w.s' rest.s' rest.keeps_visited
                  (λ d. rest.keeps_done v (work.after_keeps n c v w.s' d)) fin)
          ]
        ];
      }

  -- With more fuel than there are unvisited nodes, the walk returns.
  walk_lem : (f : ℕ) → Visits f (walk children enter after leave f)
  unfolding walk Visits
  walk_lem zero n visited s node fuel inv = absurd (omega arith)
  walk_lem (suc f) n visited s node fuel inv = elim (Bool-cases (contains n visited)) [
    | inl old ↦
        rw (walk, old)
          (record {
            visited' = visited;
            s' = s;
            is_result = refl;
            inv = inv;
            keeps_visited = λ m i. i;
            keeps_done = λ m d. d;
            reached = old;
            finished = λ v i. inl i;
          })
    | inr new ↦
        let visit = walk children enter after leave f in
        let s1 = enter n s in
        let loop : Looped n (children n) (n ∷ visited) s1
            (walk_children after visit n (children n) (n ∷ visited, s1)) =
          walk_children_lem f visit n (children n) (n ∷ visited) s1 (walk_lem f) node (λ c i. i)
            (omega (arith, unvisited-lt n visited node new)) (work.enter_inv n s node inv) in
        let s2 = leave n loop.s' in
        let to_end = λ (m : ℕ) (d : Done m loop.s'). work.leave_keeps n m loop.s' d in
        let own : Finished n loop.visited' s2 = record {
          closed = loop.reached;
          by_entry = λ w. to_end n (loop.keeps_done n (work.enter_does n s w));
          by_child = λ c i w. to_end n (loop.did c i w);
          by_exit = λ w. work.leave_does n loop.s' w;
        } in
        rw (new, loop.is_result)
          (record {
            visited' = loop.visited';
            s' = s2;
            is_result = refl;
            inv = work.leave_inv n loop.s' loop.inv;
            keeps_visited = λ m i. loop.keeps_visited m (contains-tail m n visited i);
            keeps_done = λ m d. to_end m (loop.keeps_done m (work.enter_keeps n m s d));
            reached = loop.keeps_visited n (contains-head n visited);
            finished = λ v i. elim (loop.finished v i) [
              | inr fin ↦
                  inr (
                    Finished-mono v loop.visited' loop.visited' loop.s' s2 (λ m j. j) (to_end v)
                      fin)
              | inl j ↦ elim (contains-cons v n visited j) [
                | inl e ↦ inr (subst (λ x. Finished x loop.visited' s2) (sym e) own)
                | inr k ↦ inl k
              ]
            ];
          })
  ]

  -- A walk from a root that has visited nothing.
  pub record WalkedAll (root : ℕ) (s : S) (result : Option (List ℕ × S)) : Type 0 where
    pub visited' : List ℕ
    pub s' : S
    pub is_result : result ≡ some (visited', s')
    pub inv : Inv s'
    pub keeps_done : (m : ℕ) → Done m s → Done m s'
    pub at_entry : (v : ℕ) → Reaches children root v → AtEntry v → Done v s'
    pub at_child :
        (v c : ℕ) → Reaches children root v → contains c (children v) ≡ true → AtChild c → Done v s'
    pub at_exit : (v : ℕ) → Reaches children root v → AtExit v → Done v s'

  pub walk_from_root :
      (f root : ℕ) (s : S)
      → contains root nodes ≡ true
      → length nodes < f
      → Inv s
      → WalkedAll root s (walk children enter after leave f root ([], s))
  unfolding Visits unvisited contains
  walk_from_root f root s node fuel inv =
      let w : Walked root [] s (walk children enter after leave f root ([], s)) =
        walk_lem f root [] s node (omega (arith, count_failing-length (λ x. contains x []) nodes))
          inv in
      let fin : (v : ℕ) → contains v w.visited' ≡ true → Finished v w.visited' w.s' =
        λ v i. elim (w.finished v i) [ inl e ↦ absurd (cc) | inr f ↦ f ] in
      let all : (n v : ℕ)
          → contains n w.visited' ≡ true
          → Reaches children n v
          → contains v w.visited' ≡ true =
        λ n v i r. visits_all w.visited' (λ m c j k. (fin m j).closed c k) n v i r in
      record {
        visited' = w.visited';
        s' = w.s';
        is_result = w.is_result;
        inv = w.inv;
        keeps_done = w.keeps_done;
        at_entry = λ v r why. (fin v (all root v w.reached r)).by_entry why;
        at_child = λ v c r i why. (fin v (all root v w.reached r)).by_child c i why;
        at_exit = λ v r why. (fin v (all root v w.reached r)).by_exit why;
      }
