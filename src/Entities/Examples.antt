-- ===== src/Entities/Examples.antt =====
-- The entities at concrete values.
use pm.Base.{
  Result, ℕ, ◌≡◌, refl, sym, ap, ◌∙◌, ◌≢◌, ◌⊎◌, inl, inr, text_eq, contains_text, strip_prefix, ◌<◌,
  subst, ◌↔◌, true, false, none, some, List, [], ◌∷◌, ◌++◌, Memᴰ, Text, codes, ok, min, ◌*◌, ◌^◌,
  ◌-◌, ltb, if◌then◌else◌, arith,
}
use pm.Entities.Depgraph.Total.{topo_sort_returns}
use pm.Entities.Depgraph.{DependencyNode, DependencyError, topo_sort}
use pm.Entities.Depgraph.Acyclic.{Ranked, topo_sort_acyclic}
use pm.Entities.Depgraph.Order.{IsTopological, topo_sort-IsTopological}
use pm.Entities.Depgraph.Rounds.{Known, Consistent}
use pm.Entities.Policy.{SandboxPolicy, workspace_write, full, validate_policy}
use pm.Entities.Policy.Accepted.{IsAccepted, validate_policy_iff, validate_policy_hides}
use pm.Entities.Restart.{RestartPolicy, backoff_delay, decide_restart}
use pm.Entities.Restart.Backoff.{backoff_delay-eq}
use pm.Entities.Restart.Breaker.{survives, survives-crash_loop, survives-stable}
use pm.Entities.Roots.{root_path, covers_path, normalize_root, is_absolute_path}
use pm.Entities.Roots.Components.{components, IsPrefix, covers_path_iff}
use pm.Entities.Secret.{mask_secret}
use pm.Entities.Secret.Hides.{mask_secret_hides}

abbrev policy : RestartPolicy
policy = record {
  autorestart = true;
  min_uptime_ms = 1000;
  max_restarts = 3;
  restart_delay_ms = 100;
  max_restart_delay_ms = 15000;
}

backoff_delay-eq_example : backoff_delay 100 15000 4 ≡ min 15000 (100 * 2 ^ (4 - 1))
backoff_delay-eq_example = backoff_delay-eq 100 15000 4 (omega arith)

survives-crash_loop_example :
    survives policy (10 ∷ 20 ∷ 999 ∷ []) 0 ≡ (if ltb 3 3 then some 3 else none)
survives-crash_loop_example =
    survives-crash_loop policy (10 ∷ 20 ∷ 999 ∷ []) refl (omega arith) (omega arith)
      (omega arith, (omega arith, (omega arith, tt)))

survives-stable_example :
    survives policy ((10 ∷ 20 ∷ []) ++ 5000 ∷ 30 ∷ []) 0 ≡ survives policy (30 ∷ []) 0
unfolding survives decide_restart
survives-stable_example =
    survives-stable policy (10 ∷ 20 ∷ []) (30 ∷ []) 5000 0 {v = 2} refl (omega arith) refl

abbrev granted : Text
granted = codes "/srv"

abbrev inner : Text
inner = codes "/srv/app"

abbrev hidden : Text
hidden = codes "/home/key"

covers_path_iff_example : (covers_path granted inner ≡ true) ↔ (
    (normalize_root granted ≡ root_path)
    ⊎ IsPrefix (components (normalize_root granted)) (components (normalize_root inner)))
covers_path_iff_example = covers_path_iff granted inner

-- A sibling is not covered.
covers_path-sibling : covers_path granted (codes "/srv-old") ≡ false
unfolding covers_path text_eq normalize_root strip_prefix
covers_path-sibling = refl

abbrev workspace : SandboxPolicy
workspace = record {
  mode = workspace_write;
  read = full;
  network = false;
  writable_roots = granted ∷ [];
  readable_roots = [];
  derived_readable_roots = [];
  derived_roots = [];
  unreadable_roots = hidden ∷ [];
}

validate_policy_iff_example : (validate_policy workspace ≡ ok tt) ↔ IsAccepted workspace
validate_policy_iff_example = validate_policy_iff workspace

validate_policy_hides_example : covers_path inner hidden ≡ false
unfolding validate_policy covers_path is_absolute_path text_eq normalize_root strip_prefix
validate_policy_hides_example =
    validate_policy_hides workspace granted inner hidden refl (Memᴰ.head refl) (Memᴰ.head refl) refl

mask_secret_hides_example : mask_secret (codes "abcdXXXXwxyz") ≡ mask_secret (codes "abcdYYYYwxyz")
mask_secret_hides_example =
    mask_secret_hides (codes "abcdXXXXwxyz") (codes "abcdYYYYwxyz") refl (λ _. refl) (λ _. refl)

abbrev db : Text
db = codes "db"

abbrev web : Text
web = codes "web"

abbrev web_node : DependencyNode
web_node = record { name = web; depends_on = db ∷ [] }

abbrev db_node : DependencyNode
db_node = record { name = db; depends_on = [] }

abbrev nodes : List DependencyNode
nodes = web_node ∷ db_node ∷ []

either : {node : DependencyNode} → Memᴰ node nodes → (node ≡ web_node) ⊎ (node ≡ db_node)
either (Memᴰ.head e) = inl e
either (Memᴰ.tail (Memᴰ.head e)) = inr e
either (Memᴰ.tail (Memᴰ.tail m)) = elim m [ ]

web-ne-db : web ≢ db
web-ne-db e = ground arith

nodes-Consistent : Consistent nodes
nodes-Consistent a b m n e = split (either m) (either n)
  where
    split :
        (a ≡ web_node) ⊎ (a ≡ db_node)
        → (b ≡ web_node) ⊎ (b ≡ db_node)
        → a.depends_on ≡ b.depends_on
    split (inl p) (inl q) = ap (λ x. x.depends_on) (p ∙ sym q)
    split (inr p) (inr q) = ap (λ x. x.depends_on) (p ∙ sym q)
    split (inl p) (inr q) = absurd (web-ne-db (sym (ap (λ x. x.name) p) ∙ e ∙ ap (λ x. x.name) q))
    split (inr p) (inl q) =
        absurd (web-ne-db (sym (ap (λ x. x.name) q) ∙ sym e ∙ ap (λ x. x.name) p))

-- What each node depends on.
dependency :
    {node : DependencyNode} {d : Text}
    → Memᴰ node nodes
    → Memᴰ d node.depends_on
    → (node ≡ web_node) × (d ≡ db)
dependency {node} {d} m n = split (either m)
  where
    only : Memᴰ d (db ∷ []) → d ≡ db
    only (Memᴰ.head e) = e
    only (Memᴰ.tail k) = elim k [ ]

    none_of_db : Memᴰ d [] → ⊥
    none_of_db k = elim k [ ]

    split : (node ≡ web_node) ⊎ (node ≡ db_node) → (node ≡ web_node) × (d ≡ db)
    split (inl e) = (e, only (subst (λ x. Memᴰ d x.depends_on) e n))
    split (inr e) = absurd (none_of_db (subst (λ x. Memᴰ d x.depends_on) e n))

nodes-Known : Known nodes
nodes-Known node d m n = (db_node, Memᴰ.tail (Memᴰ.head refl), sym (dependency m n).1)

abbrev rank : Text → ℕ
rank name = if text_eq name web then 1 else 0

nodes-Ranked : Ranked rank nodes
unfolding text_eq
nodes-Ranked node d m n =
    let (e, f) = dependency m n in
    subst (λ x. rank d < rank x.name) (sym e) (subst (λ x. rank x < rank web) (sym f) (omega arith))

topo_sort-IsTopological_example : IsTopological nodes (db ∷ web ∷ [])
unfolding topo_sort text_eq contains_text
topo_sort-IsTopological_example =
    topo_sort-IsTopological nodes (db ∷ web ∷ []) nodes-Consistent refl

topo_sort_acyclic_example : (order : List Text) × (topo_sort nodes ≡ some (ok order))
topo_sort_acyclic_example = topo_sort_acyclic nodes rank nodes-Known nodes-Consistent nodes-Ranked

-- Two nodes that depend on one another.
abbrev cyclic : List DependencyNode
cyclic = web_node ∷ record { name = db; depends_on = web ∷ [] } ∷ []

topo_sort_returns_example :
    (result : Result (List Text) DependencyError) × (topo_sort cyclic ≡ some result)
topo_sort_returns_example = topo_sort_returns cyclic
