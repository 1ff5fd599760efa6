-- ===== src/Entities/Depgraph.antt =====
-- entities/src/process/depgraph.rs
pub mod Rounds
pub mod Order
pub mod Acyclic
pub mod Total
use pm.Base.{
  ℕ, zero, suc, ◌+◌, Bool, true, false, not, ◌&&◌, Option, none, some, List, [], ◌∷◌, ◌++◌, map,
  Text, text_eq, contains_text, any, all, find, filter, is_empty, length, ltb, if◌then◌else◌,
  reverse, Result, ok, err, ◌>>=◌, ◌>>◌,
}

pub record DependencyNode : Type 0 where
  pub name : Text
  pub depends_on : List Text

pub data DependencyError : Type 0 where
  unknown_dependency : (app dependency : Text) → DependencyError
  cycle : (involved : List Text) → DependencyError

-- The inner `for` loop over the dependencies of one node.
check_dependencies : List DependencyNode → Text → List Text → Result (Unit {0}) DependencyError
check_dependencies nodes app [] = ok tt
check_dependencies nodes app (dependency ∷ rest) =
    if any (λ other. text_eq other.name dependency) nodes
    then check_dependencies nodes app rest
    else err (unknown_dependency app dependency)

check_nodes : List DependencyNode → List DependencyNode → Result (Unit {0}) DependencyError
unfolding check_dependencies
check_nodes nodes [] = ok tt
check_nodes nodes (node ∷ rest) = do
  check_dependencies nodes node.name node.depends_on
  check_nodes nodes rest

pub ensure_dependencies_known : List DependencyNode → Result (Unit {0}) DependencyError
unfolding check_nodes
ensure_dependencies_known nodes = check_nodes nodes nodes

-- The two `filter` tests of one node: it is not placed, and its dependencies are.
is_ready : List Text → DependencyNode → Bool
is_ready order node =
    not (contains_text order node.name) && all (λ d. contains_text order d) node.depends_on

pub next_ready_names : List DependencyNode → List Text → List Text
unfolding is_ready
next_ready_names nodes order = map (λ n. n.name) (filter (is_ready order) nodes)

-- The `while let` loop. `pending` is the stack with its top first, so `extend` puts the new names
-- in front in reverse. A dependency that no node has stops the program: `none`. So does the end
-- of the fuel.
reach_loop : ℕ → List DependencyNode → Text → (visited pending : List Text) → Option Bool
reach_loop zero nodes origin visited pending = none
reach_loop (suc fuel) nodes origin visited [] = some false
reach_loop (suc fuel) nodes origin visited (name ∷ pending) =
    let skip = reach_loop fuel nodes origin visited pending in
    let go = λ (node : DependencyNode).
      reach_loop fuel nodes origin (name ∷ visited) (reverse node.depends_on ++ pending) in
    if text_eq name origin
    then some true
    else if contains_text visited name
    then skip
    else elim (find (λ candidate. text_eq candidate.name name) nodes) [
      | none ↦ none
      | some node ↦ go node
    ]

dependency_count : List DependencyNode → ℕ
dependency_count [] = 0
dependency_count (node ∷ rest) = length node.depends_on + dependency_count rest

-- Each name is visited once, so its node's dependencies are pushed at most once: the fuel is one
-- more than all the pushes.
reaches_itself : DependencyNode → List DependencyNode → Option Bool
unfolding reach_loop dependency_count
reaches_itself origin nodes =
    reach_loop (suc (length origin.depends_on + dependency_count nodes)) nodes origin.name []
      (reverse origin.depends_on)

-- The names of the unplaced nodes that reach themselves, in the order of the nodes.
cycle_members_from : List DependencyNode → List Text → List DependencyNode → Option (List Text)
unfolding reaches_itself
cycle_members_from nodes order [] = some []
cycle_members_from nodes order (node ∷ rest) = elim (cycle_members_from nodes order rest) [
  | none ↦ none
  | some names ↦
      if contains_text order node.name then some names else elim (reaches_itself node nodes) [
        | none ↦ none
        | some true ↦ some (node.name ∷ names)
        | some false ↦ some names
      ]
]

cycle_members : List DependencyNode → List Text → Option (List Text)
unfolding cycle_members_from
cycle_members nodes order = cycle_members_from nodes order nodes

-- The outer `while` loop; `none` is an internal error of the source, or the end of the fuel.
topo_loop : ℕ → List DependencyNode → List Text → Option (Result (List Text) DependencyError)
unfolding next_ready_names cycle_members
topo_loop zero nodes order = none
topo_loop (suc fuel) nodes order =
    let rest = topo_loop fuel nodes (order ++ next_ready_names nodes order) in
    if ltb (length order) (length nodes)
    then if is_empty (next_ready_names nodes order)
      then elim (cycle_members nodes order) [
        | none ↦ none
        | some involved ↦ some (err (cycle involved))
      ]
      else rest
    else some (ok order)

-- Each round places a name or ends the loop: the fuel is one more than the nodes.
unfoldable pub topo_sort : List DependencyNode → Option (Result (List Text) DependencyError)
unfolding ensure_dependencies_known topo_loop
topo_sort nodes = elim (ensure_dependencies_known nodes) [
  | err error ↦ some (err error)
  | ok _ ↦ topo_loop (suc (length nodes)) nodes []
]
