-- ===== src/Usecases/Table/Order.antt =====
-- usecases/src/table.rs: the order in which a table is shut down.
use pm.Base.{
  ◌≡◌, refl, sym, ap, ◌∙◌, subst, some, List, [], ◌∷◌, ◌++◌, Memᴰ, mem-map, mem-map_of_mem, All_at,
  Text, Result, ok, err,
}
use pm.Entities.Depgraph.{DependencyNode, DependencyError, topo_sort}
use pm.Entities.Depgraph.Order.{Ordered, topo_sort-IsTopological}
use pm.Entities.Depgraph.Rounds.{Consistent}
use pm.Entities.Depgraph.Total.{topo_sort_returns}
use pm.Entities.Spec.{dependency_node}
use pm.Usecases.Record.{ProcessRecord}
use pm.Usecases.Table.{ProcessTable, dependency_nodes, names_in_table_order, dependency_order}
use pm.Usecases.Table.Invariant.{names, IsSound, IsTable, Distinct-unique}

-- An order of the table: the names of its records, and no others.
pub record IsOrder (table : ProcessTable) (order : List Text) : Type 0 where
  pub known : (name : Text) → Memᴰ name order → Memᴰ name (names table.records)
  pub complete : (r : ProcessRecord) → Memᴰ r table.records → Memᴰ r.runtime.name order

nodes-Consistent : (table : ProcessTable) → IsTable table → Consistent (dependency_nodes table)
unfolding dependency_nodes dependency_node
nodes-Consistent table t a b m n e =
    let (x, k, p) = mem-map (λ r. dependency_node r.spec) table.records m in
    let (y, l, q) = mem-map (λ r. dependency_node r.spec) table.records n in
    let sx = (All_at IsSound table.records t.sound k).1 in
    let sy = (All_at IsSound table.records t.sound l).1 in
    let same : x ≡ y =
      Distinct-unique (λ r. r.runtime.name) table.records t.distinct_names k l
        (sym sx ∙ sym (ap (λ node. node.name) p) ∙ e ∙ ap (λ node. node.name) q ∙ sy) in
    ap (λ node. node.depends_on) p
    ∙ ap (λ r. r.spec.depends_on) same
    ∙ sym (ap (λ node. node.depends_on) q)

Ordered-mem :
    (nodes : List DependencyNode) (before order : List Text) {name : Text}
    → Ordered nodes before order
    → Memᴰ name order
    → (node : DependencyNode) × Memᴰ node nodes × (node.name ≡ name)
Ordered-mem nodes before [] o m = elim m [ ]
Ordered-mem nodes before (x ∷ order) o (Memᴰ.head e) = (o.0.0, o.0.1, o.0.2 ∙ sym e)
Ordered-mem nodes before (x ∷ order) o (Memᴰ.tail m) =
    Ordered-mem nodes (before ++ x ∷ []) order o.1 m

topo_sort-IsOrder :
    (table : ProcessTable) (order : List Text)
    → IsTable table
    → topo_sort (dependency_nodes table) ≡ some (ok order)
    → IsOrder table order
unfolding dependency_nodes dependency_node
topo_sort-IsOrder table order t e =
    let sorted =
      topo_sort-IsTopological (dependency_nodes table) order (nodes-Consistent table t) e in
    let named = λ (r : ProcessRecord) (m : Memᴰ r table.records).
      (All_at IsSound table.records t.sound m).1 in
    record {
      known = λ name m.
          let (node, n, e) = Ordered-mem (dependency_nodes table) [] order sorted.ordered m in
          let (r, k, p) = mem-map (λ r. dependency_node r.spec) table.records n in
          subst (λ x. Memᴰ x (names table.records)) (sym (named r k) ∙ sym (ap (λ x. x.name) p) ∙ e)
            (mem-map_of_mem (λ r. r.runtime.name) table.records k);
      complete = λ r m.
          subst (λ x. Memᴰ x order) (named r m)
            (sorted.complete (dependency_node r.spec)
              (mem-map_of_mem (λ r. dependency_node r.spec) table.records m));
    }

-- The order in which a table with the invariant is stopped is always found, and holds the names of
-- all its records and no others, even if the dependencies have a cycle or name no service.
pub dependency_order-IsOrder :
    (table : ProcessTable)
    → IsTable table
    → (order : List Text) × (dependency_order table ≡ some order) × IsOrder table order
unfolding dependency_order names_in_table_order
dependency_order-IsOrder table t =
    let (result, e) = topo_sort_returns (dependency_nodes table) in from result e
  where
    from :
        (result : Result (List Text) DependencyError)
        → topo_sort (dependency_nodes table) ≡ some result
        → (order : List Text) × (dependency_order table ≡ some order) × IsOrder table order
    from (ok order) e = (order, rw (e, dependency_order) refl, topo_sort-IsOrder table order t e)
    from (err error) e = (
      names_in_table_order table,
      rw (e, dependency_order) refl,
      record {
        known = λ name m. m;
        complete = λ r m. mem-map_of_mem (λ r. r.runtime.name) table.records m;
      },
    )
