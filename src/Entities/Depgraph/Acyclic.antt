-- ===== src/Entities/Depgraph/Acyclic.antt =====
-- The sort succeeds on every graph without a cycle.
use pm.Base.{
  ℕ, zero, suc, ◌+◌, ◌<◌, ◌≡◌, true, false, inl, inr, some, List, [], ◌∷◌, ◌++◌, Memᴰ, Text,
  contains_text, not-all, length, length-append, mem-filter_of_mem, mem-map_of_mem, ltb, ok,
  Bool-cases, arith,
}
use pm.Entities.Depgraph.{DependencyNode, is_ready, next_ready_names, topo_loop, topo_sort}
use pm.Entities.Depgraph.Rounds.{
  Known, Consistent, Counted, Counted-nil, placed, round-Counted, length-filter_le,
  length-filter_lt, ensure_dependencies_known_of_Known,
}

-- A rank that falls from each node to its dependencies: the graph has no cycle.
abbrev pub Ranked : (Text → ℕ) → List DependencyNode → Type 0
Ranked rank nodes =
    (node : DependencyNode) (d : Text)
    → Memᴰ node nodes
    → Memᴰ d node.depends_on
    → rank d < rank node.name

length_pos_of_mem {ℓ} : {A : Type ℓ} {a : A} (xs : List A) → Memᴰ a xs → 0 < length xs
length_pos_of_mem [] m = elim m [ ]
length_pos_of_mem (x ∷ xs) m = omega arith

module _ (nodes : List DependencyNode) (rank : Text → ℕ) (known : Known nodes)
    (ranked : Ranked rank nodes) where
  not_ready_dep :
      (order : List Text) (node : DependencyNode)
      → placed order node ≡ false
      → is_ready order node ≡ false
      → (d : Text) × Memᴰ d node.depends_on × (contains_text order d ≡ false)
  unfolding is_ready
  not_ready_dep order node fresh idle =
      not-all (λ d. contains_text order d) node.depends_on (ground arith)

  -- Below an unplaced node with no ready node there would be ever smaller ranks.
  some_ready :
      (order : List Text) (bound : ℕ) (node : DependencyNode)
      → Memᴰ node nodes
      → placed order node ≡ false
      → rank node.name < bound
      → (ready : DependencyNode) × Memᴰ ready nodes × (is_ready order ready ≡ true)
  some_ready order zero node m fresh h = absurd (omega arith)
  some_ready order (suc bound) node m fresh h = elim (Bool-cases (is_ready order node)) [
    | inl e ↦ (node, m, e)
    | inr idle ↦
        let (d, n, absent) = not_ready_dep order node fresh idle in
        let (other, k, e) = known node d m n in
        let below = ranked node d m n in
        some_ready order bound other k (rw e absent) (rw e (omega arith))
  ]

  round_grows :
      (order : List Text)
      → Counted nodes order
      → length order < length nodes
      → 0 < length (next_ready_names nodes order)
  unfolding next_ready_names
  round_grows order counted more =
      let (node, m, fresh) = length-filter_lt (placed order) nodes (omega arith) in
      let (ready, n, r) = some_ready order (suc (rank node.name)) node m fresh (omega arith) in
      length_pos_of_mem _
        (mem-map_of_mem (λ n. n.name) _ (mem-filter_of_mem (is_ready order) nodes n r))

  topo_loop-succeeds :
      (fuel : ℕ) (order : List Text)
      → Consistent nodes
      → Counted nodes order
      → length nodes < length order + fuel
      → (result : List Text) × (topo_loop fuel nodes order ≡ some (ok result))
  unfolding topo_loop
  topo_loop-succeeds zero order c k enough =
      absurd (omega (arith, length-filter_le (placed order) nodes))
  topo_loop-succeeds (suc fuel) order c k enough =
      elim (Bool-cases (ltb (length order) (length nodes))) [
        | inr done ↦ (order, ground arith)
        | inl more ↦
            let grows = round_grows order k (ground arith) in
            let sum = length-append order (next_ready_names nodes order) in
            let (result, e) =
              topo_loop-succeeds fuel (order ++ next_ready_names nodes order) c
                (round-Counted nodes order c k) (omega arith) in
            (result, ground arith)
      ]

-- On nodes whose dependencies are all known, where nodes of one name agree and a rank falls along
-- every dependency, the sort succeeds.
pub topo_sort_acyclic :
    (nodes : List DependencyNode) (rank : Text → ℕ)
    → Known nodes
    → Consistent nodes
    → Ranked rank nodes
    → (order : List Text) × (topo_sort nodes ≡ some (ok order))
unfolding topo_sort
topo_sort_acyclic nodes rank known c ranked =
    rw (ensure_dependencies_known_of_Known nodes known, topo_sort)
      (topo_loop-succeeds nodes rank known ranked (suc (length nodes)) [] c (Counted-nil nodes)
        (omega arith))
