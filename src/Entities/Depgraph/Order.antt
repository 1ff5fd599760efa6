-- ===== src/Entities/Depgraph/Order.antt =====
-- A successful sort is a topological order of the nodes.
use pm.Base.{
  ℕ, zero, suc, ◌≡◌, refl, subst, true, inl, inr, some, List, [], ◌∷◌, ◌++◌, map, Memᴰ, Text,
  contains_text, contains_text_iff, append_assoc, append-nil, filter, length, all-mem, mem-filter,
  Memᴰ-append_left, is_empty, ltb, ok, Bool-cases, arith,
}
use pm.Entities.Depgraph.{
  DependencyNode, is_ready, next_ready_names, cycle_members, topo_loop, topo_sort,
}
use pm.Entities.Depgraph.Rounds.{
  Consistent, Counted, Counted-nil, placed, round-Counted, length-filter_full, length-filter_le,
}

-- Each name is that of a node whose dependencies all stand before it.
abbrev pub Ordered : List DependencyNode → (before order : List Text) → Type 0
Ordered nodes before [] = Unit
Ordered nodes before (name ∷ rest) =
    ((node : DependencyNode) × Memᴰ node nodes
      × (node.name ≡ name)
      × ((d : Text) → Memᴰ d node.depends_on → Memᴰ d before))
    × Ordered nodes (before ++ name ∷ []) rest

pub record IsTopological (nodes : List DependencyNode) (order : List Text) : Type 0 where
  pub ordered : Ordered nodes [] order
  pub complete : (node : DependencyNode) → Memᴰ node nodes → Memᴰ node.name order
  pub exact : length order ≡ length nodes

module _ (nodes : List DependencyNode) where
  Ordered-append :
      (before xs ys : List Text)
      → Ordered nodes before xs
      → Ordered nodes (before ++ xs) ys
      → Ordered nodes before (xs ++ ys)
  Ordered-append before [] ys h k = rw append-nil at k
  Ordered-append before (x ∷ xs) ys h k =
      (h.0, Ordered-append (before ++ x ∷ []) xs ys h.1 (rw (append_assoc before (x ∷ []) xs) k))

  Ordered-of_ready :
      (order before : List Text) (ready : List DependencyNode)
      → ((d : Text) → Memᴰ d order → Memᴰ d before)
      → ((node : DependencyNode) → Memᴰ node ready → Memᴰ node nodes × (is_ready order node ≡ true))
      → Ordered nodes before (map (λ n. n.name) ready)
  unfolding is_ready
  Ordered-of_ready order before [] sub f = tt
  Ordered-of_ready order before (b ∷ ready) sub f =
      let (m, r) = f b (Memᴰ.head refl) in
      (
        (
          b,
          m,
          refl,
          λ d n. sub d (
              (contains_text_iff order d).0
                (all-mem (λ d. contains_text order d) b.depends_on (ground arith) n)),
        ),
        Ordered-of_ready order (before ++ b.name ∷ []) ready
            (λ d n. Memᴰ-append_left (b.name ∷ []) (sub d n)) (λ node n. f node (Memᴰ.tail n)),
      )

  round-Ordered :
      (order : List Text)
      → Ordered nodes [] order
      → Ordered nodes [] (order ++ next_ready_names nodes order)
  unfolding next_ready_names
  round-Ordered order h = Ordered-append [] order _ h (
      Ordered-of_ready order order (filter (is_ready order) nodes) (λ d m. m)
        (λ node m. mem-filter (is_ready order) nodes m))

  topo_loop-IsTopological :
      (fuel : ℕ) (order : List Text) {result : List Text}
      → Consistent nodes
      → Ordered nodes [] order
      → Counted nodes order
      → topo_loop fuel nodes order ≡ some (ok result)
      → IsTopological nodes result
  unfolding topo_loop
  topo_loop-IsTopological zero order c h k e = cc
  topo_loop-IsTopological (suc fuel) order {result = result} c h k e =
      elim (Bool-cases (ltb (length order) (length nodes))) [
        | inr done ↦ subst (IsTopological nodes) (ground arith) (record {
          ordered = h;
          complete = λ node m.
              (contains_text_iff _ _).0 (length-filter_full (placed order) nodes (ground arith) m);
          exact = ground (arith, length-filter_le (placed order) nodes);
        })
        | inl more ↦ elim (Bool-cases (is_empty (next_ready_names nodes order))) [
          | inl stuck ↦ absurd (ground (arith, cycle_members nodes order))
          | inr go ↦
              topo_loop-IsTopological fuel (order ++ next_ready_names nodes order) c
                (round-Ordered order h) (round-Counted nodes order c k) (ground arith)
        ]
      ]

-- If nodes of one name agree on their dependencies, then a sort that succeeds lists as many names
-- as there are nodes, every node's name among them, each after the names of all dependencies of
-- its node.
pub topo_sort-IsTopological :
    (nodes : List DependencyNode) (order : List Text)
    → Consistent nodes
    → topo_sort nodes ≡ some (ok order)
    → IsTopological nodes order
unfolding topo_sort
topo_sort-IsTopological nodes order c e =
    let looped : topo_loop (suc (length nodes)) nodes [] ≡ some (ok order) = ground arith in
    topo_loop-IsTopological nodes (suc (length nodes)) [] c tt (Counted-nil nodes) looped
