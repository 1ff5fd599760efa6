-- ===== src/Entities/Depgraph/Total.antt =====
-- entities/src/process/depgraph.rs: the fuel of the sort and of the search is enough, and the
-- `expect` of the search never fails.
use pm.Base.{
  ℕ, zero, suc, ◌+◌, ◌-◌, ◌≤◌, ◌<◌, ◌≡◌, refl, ◌⊎◌, inl, inr, Bool, true, false, Option, some, List,
  [], ◌∷◌, ◌++◌, reverse, length, Memᴰ, Memᴰ-append_cases, Text, text_eq, text_eq_iff, text_eq_comm,
  length-append, length-reverse, mem-reverse, ap, contains_text, find, find-some, find-none,
  is_empty, ltb, Bool-cases, Option-cases, Result-cases, Result, ok, err, arith, if◌then◌else◌,
}
use mathlib.Core.Option.{some-injective}
use pm.Entities.Depgraph.{
  DependencyNode, DependencyError, cycle, ensure_dependencies_known, next_ready_names, reach_loop,
  dependency_count, reaches_itself, cycle_members_from, cycle_members, topo_loop, topo_sort,
}
use pm.Entities.Depgraph.Rounds.{Known, ensure_dependencies_known-ok}

-- The dependencies of the nodes whose names are not visited.
abbrev unvisited : List Text → List DependencyNode → ℕ
unvisited visited [] = 0
unvisited visited (node ∷ nodes) =
    (if contains_text visited node.name then 0 else length node.depends_on)
    + unvisited visited nodes

unvisited-cons :
    (visited : List Text) (name : Text) (nodes : List DependencyNode)
    → unvisited (name ∷ visited) nodes ≤ unvisited visited nodes
unfolding contains_text
unvisited-cons visited name [] = omega arith
unvisited-cons visited name (x ∷ nodes) = ground (arith, unvisited-cons visited name nodes)

unvisited-visit :
    (visited : List Text) (name : Text) {node : DependencyNode} (nodes : List DependencyNode)
    → find (λ candidate. text_eq candidate.name name) nodes ≡ some node
    → contains_text visited name ≡ false
    → unvisited (name ∷ visited) nodes + length node.depends_on ≤ unvisited visited nodes
unfolding contains_text
unvisited-visit visited name [] h fresh = cc
unvisited-visit visited name {node} (x ∷ nodes) h fresh = elim (Bool-cases (text_eq x.name name)) [
  | inl e ↦
      let same : x ≡ node = some-injective x node (rw e at h) in
      let size : length x.depends_on ≡ length node.depends_on =
        ap (λ y. length y.depends_on) same in
      let named = (text_eq_iff x.name name).0 e in
      let fresh' : contains_text visited x.name ≡ false = rw named fresh in
      ground (arith, unvisited-cons visited name nodes, text_eq_comm x.name name)
  | inr e ↦
      ground (arith, unvisited-visit visited name {node = node} nodes, text_eq_comm x.name name)
]

unvisited-nil : (nodes : List DependencyNode) → unvisited [] nodes ≡ dependency_count nodes
unfolding dependency_count contains_text
unvisited-nil [] = refl
unvisited-nil (x ∷ nodes) = ground (arith, unvisited-nil nodes)

module _ (nodes : List DependencyNode) (known : Known nodes) (origin : Text) where
  AllKnown : List Text → Type 0
  AllKnown pending =
      (d : Text) → Memᴰ d pending → (other : DependencyNode) × Memᴰ other nodes × (other.name ≡ d)

  push :
      (node : DependencyNode) (pending : List Text)
      → Memᴰ node nodes
      → AllKnown pending
      → AllKnown (reverse node.depends_on ++ pending)
  unfolding AllKnown
  push node pending m k d n = split (Memᴰ-append_cases (reverse node.depends_on) n)
    where
      split :
          Memᴰ d (reverse node.depends_on) ⊎ Memᴰ d pending
          → (other : DependencyNode) × Memᴰ other nodes × (other.name ≡ d)
      split (inl a) = known node d m (mem-reverse node.depends_on a)
      split (inr b) = k d b

  reach_loop-returns :
      (fuel : ℕ) (visited pending : List Text)
      → AllKnown pending
      → length pending + unvisited visited nodes < fuel
      → (b : Bool) × (reach_loop fuel nodes origin visited pending ≡ some b)
  unfolding reach_loop AllKnown
  reach_loop-returns zero visited pending k enough = absurd (omega arith)
  reach_loop-returns (suc fuel) visited [] k enough = (false, refl)
  reach_loop-returns (suc fuel) visited (name ∷ pending) k enough =
      elim (Bool-cases (text_eq name origin)) [
        | inl e ↦ (true, rw e refl)
        | inr e ↦ elim (Bool-cases (contains_text visited name)) [
          | inl seen ↦
              let (b, g) =
                reach_loop-returns fuel visited pending (λ d m. k d (Memᴰ.tail m)) (omega arith) in
              (b, rw (e) (rw seen g))
          | inr fresh ↦
              elim (Option-cases (find (λ candidate. text_eq candidate.name name) nodes)) [
                | inl absent ↦
                    let (other, m, named) = k name (Memᴰ.head refl) in
                    absurd (
                      ground (
                        arith,
                        find-none (λ candidate. text_eq candidate.name name) nodes absent m,
                        text_eq_iff other.name name,
                      ))
                | inr (node, found) ↦
                    let pushed = reverse node.depends_on ++ pending in
                    let smaller : length pushed + unvisited (name ∷ visited) nodes < fuel = omega (
                      arith,
                      unvisited-visit visited name nodes found fresh,
                      length-append (reverse node.depends_on) pending,
                      length-reverse node.depends_on,
                    ) in
                    let (b, g) =
                      reach_loop-returns fuel (name ∷ visited) pushed
                        (push node pending (find-some _ nodes found).0 (λ d m. k d (Memᴰ.tail m)))
                        smaller in
                    (b, rw e (rw fresh (rw found g)))
              ]
        ]
      ]

length_pos : (xs : List Text) → is_empty xs ≡ false → 0 < length xs
length_pos [] h = absurd (ground arith)
length_pos (x ∷ xs) h = omega arith

module _ (nodes : List DependencyNode) (known : Known nodes) where
  reaches_itself-returns :
      (origin : DependencyNode)
      → Memᴰ origin nodes
      → (b : Bool) × (reaches_itself origin nodes ≡ some b)
  unfolding reaches_itself
  reaches_itself-returns origin m =
      reach_loop-returns nodes known origin.name
        (suc (length origin.depends_on + dependency_count nodes)) [] (reverse origin.depends_on)
        (unfold AllKnown in λ d n. known origin d m (mem-reverse origin.depends_on n))
        (omega (arith, unvisited-nil nodes, length-reverse origin.depends_on))

  cycle_members_from-returns :
      (order : List Text) (rest : List DependencyNode)
      → ((node : DependencyNode) → Memᴰ node rest → Memᴰ node nodes)
      → (involved : List Text) × (cycle_members_from nodes order rest ≡ some involved)
  unfolding cycle_members_from
  cycle_members_from-returns order [] sub = ([], refl)
  cycle_members_from-returns order (node ∷ rest) sub =
      let (names, g) = cycle_members_from-returns order rest (λ n m. sub n (Memᴰ.tail m)) in
      elim (Bool-cases (contains_text order node.name)) [
        | inl placed_before ↦ (names, rw g (rw placed_before refl))
        | inr free ↦
            let (b, e) = reaches_itself-returns node (sub node (Memᴰ.head refl)) in
            ((if b then node.name ∷ names else names), rw g (rw free (rw e (chosen names b))))
      ]
    where
      chosen :
          (names : List Text) (b : Bool)
          → (elim b as (λ x. Option (List Text)) [
            | true ↦ some (node.name ∷ names)
            | false ↦ some names
          ])
            ≡ some (if b then node.name ∷ names else names)
      chosen names true = refl
      chosen names false = refl

  topo_loop-returns :
      (fuel : ℕ) (order : List Text)
      → length nodes - length order < fuel
      → (result : Result (List Text) DependencyError) × (topo_loop fuel nodes order ≡ some result)
  unfolding topo_loop cycle_members
  topo_loop-returns zero order enough = absurd (omega arith)
  topo_loop-returns (suc fuel) order enough =
      elim (Bool-cases (ltb (length order) (length nodes))) [
        | inr done ↦ (ok order, ground arith)
        | inl more ↦ elim (Bool-cases (is_empty (next_ready_names nodes order))) [
          | inl none_ready ↦
              let (involved, e) = cycle_members_from-returns order nodes (λ n m. m) in
              (err (cycle involved), ground arith)
          | inr some_ready ↦
              let grows = length_pos (next_ready_names nodes order) some_ready in
              let sum = length-append order (next_ready_names nodes order) in
              let (result, e) =
                topo_loop-returns fuel (order ++ next_ready_names nodes order) (ground (arith)) in
              (result, ground arith)
        ]
      ]

-- The sort always returns: the fuel is enough for both of its loops, and the search for a cycle
-- always finds the nodes of the names that it meets.
pub topo_sort_returns :
    (nodes : List DependencyNode)
    → (result : Result (List Text) DependencyError) × (topo_sort nodes ≡ some result)
unfolding topo_sort
topo_sort_returns nodes = elim (Result-cases (ensure_dependencies_known nodes)) [
  | inr (e, h) ↦ (err e, rw (h, topo_sort) refl)
  | inl (u, h) ↦
      let (result, e) =
        topo_loop-returns nodes (ensure_dependencies_known-ok nodes h) (suc (length nodes)) []
          (omega arith) in
      (result, rw (h, topo_sort) e)
]
