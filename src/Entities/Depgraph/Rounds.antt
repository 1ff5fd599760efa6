-- ===== src/Entities/Depgraph/Rounds.antt =====
-- What one round of the sort does, and when every dependency is known.
use pm.Base.{
  ◌+◌, ◌≤◌, ◌≡◌, refl, sym, subst, ap, Bool, true, false, ◌||◌, inl, inr, List, [], ◌∷◌, ◌++◌, Memᴰ,
  Text, text_eq, text_eq_iff, contains_text, contains_text_iff, any, filter, length, mem-any,
  any-mem, mem-filter, mem-filter_of_mem, mem-map, mem-map_of_mem, eq_of_iff, ok, >>-eq-ok, ◌∙◌,
  Bool-cases, arith, ◌<◌, length-append, length-map,
}
use pm.Entities.Depgraph.{
  DependencyNode, check_dependencies, check_nodes, ensure_dependencies_known, is_ready,
  next_ready_names,
}

-- Every dependency of a node is the name of a node.
abbrev pub Known : List DependencyNode → Type 0
Known nodes =
    (node : DependencyNode) (dependency : Text)
    → Memᴰ node nodes
    → Memᴰ dependency node.depends_on
    → (other : DependencyNode) × Memᴰ other nodes × (other.name ≡ dependency)

-- Nodes of one name declare the same dependencies.
abbrev pub Consistent : List DependencyNode → Type 0
Consistent nodes =
    (a b : DependencyNode)
    → Memᴰ a nodes
    → Memᴰ b nodes
    → a.name ≡ b.name
    → a.depends_on ≡ b.depends_on

check_dependencies-ok :
    (nodes : List DependencyNode) (app : Text) (deps : List Text) {dependency : Text}
    → check_dependencies nodes app deps ≡ ok tt
    → Memᴰ dependency deps
    → (other : DependencyNode) × Memᴰ other nodes × (other.name ≡ dependency)
unfolding check_dependencies
check_dependencies-ok nodes app [] h m = elim m [ ]
check_dependencies-ok nodes app (d ∷ deps) {dependency} h m =
    elim (Bool-cases (any (λ other. text_eq other.name d) nodes)) [
      | inl found ↦
          split m (mem-any (λ other. text_eq other.name d) nodes found)
            (λ n. check_dependencies-ok nodes app deps (ground arith) n)
      | inr missing ↦ cc
    ]
  where
    split :
        Memᴰ dependency (d ∷ deps)
        → (other : DependencyNode) × Memᴰ other nodes × (text_eq other.name d ≡ true)
        → (Memᴰ dependency deps
            → (other : DependencyNode) × Memᴰ other nodes × (other.name ≡ dependency))
        → (other : DependencyNode) × Memᴰ other nodes × (other.name ≡ dependency)
    split (Memᴰ.head e) (other, n, f) rest = (other, n, (text_eq_iff other.name d).0 f ∙ sym e)
    split (Memᴰ.tail n) found rest = rest n

check_nodes-ok :
    (nodes rest : List DependencyNode) {node : DependencyNode} {dependency : Text}
    → check_nodes nodes rest ≡ ok tt
    → Memᴰ node rest
    → Memᴰ dependency node.depends_on
    → (other : DependencyNode) × Memᴰ other nodes × (other.name ≡ dependency)
unfolding check_nodes
check_nodes-ok nodes [] h m d = elim m [ ]
check_nodes-ok nodes (node ∷ rest) {dependency = dependency} h (Memᴰ.head e) d =
    check_dependencies-ok nodes node.name node.depends_on (>>-eq-ok _ _ h).0
      (subst (λ n. Memᴰ dependency n.depends_on) e d)
check_nodes-ok nodes (node ∷ rest) h (Memᴰ.tail m) d =
    check_nodes-ok nodes rest (>>-eq-ok _ _ h).1 m d

pub ensure_dependencies_known-ok :
    (nodes : List DependencyNode) → ensure_dependencies_known nodes ≡ ok tt → Known nodes
unfolding ensure_dependencies_known
ensure_dependencies_known-ok nodes h node dependency m d = check_nodes-ok nodes nodes h m d

check_dependencies_of_known :
    (nodes : List DependencyNode) (app : Text) (deps : List Text)
    → ((d : Text) → Memᴰ d deps → (other : DependencyNode) × Memᴰ other nodes × (other.name ≡ d))
    → check_dependencies nodes app deps ≡ ok tt
unfolding check_dependencies
check_dependencies_of_known nodes app [] f = refl
check_dependencies_of_known nodes app (d ∷ deps) f =
    let (other, m, e) = f d (Memᴰ.head refl) in
    let found = any-mem (λ other. text_eq other.name d) nodes m ((text_eq_iff _ _).1 e) in
    rw found (check_dependencies_of_known nodes app deps (λ d' n. f d' (Memᴰ.tail n)))

check_nodes_of_Known :
    (nodes rest : List DependencyNode)
    → ((node : DependencyNode) → Memᴰ node rest → Memᴰ node nodes)
    → Known nodes
    → check_nodes nodes rest ≡ ok tt
unfolding check_nodes
check_nodes_of_Known nodes [] sub known = refl
check_nodes_of_Known nodes (node ∷ rest) sub known =
    rw
      (check_dependencies_of_known nodes node.name node.depends_on
        (λ d n. known node d (sub node (Memᴰ.head refl)) n))
      (check_nodes_of_Known nodes rest (λ b m. sub b (Memᴰ.tail m)) known)

pub ensure_dependencies_known_of_Known :
    (nodes : List DependencyNode) → Known nodes → ensure_dependencies_known nodes ≡ ok tt
unfolding ensure_dependencies_known
ensure_dependencies_known_of_Known nodes known = check_nodes_of_Known nodes nodes (λ b m. m) known

-- A count over a test that is one of two others, which exclude one another.
length-filter_or {ℓ} :
    {A : Type ℓ} (p q r : A → Bool) (xs : List A)
    → ((a : A) → Memᴰ a xs → r a ≡ (p a || q a))
    → ((a : A) → Memᴰ a xs → q a ≡ true → p a ≡ false)
    → length (filter r xs) ≡ length (filter p xs) + length (filter q xs)
length-filter_or p q r [] f g = omega arith
length-filter_or p q r (x ∷ xs) f g = ground (
  arith,
  f x (Memᴰ.head refl),
  g x (Memᴰ.head refl),
  length-filter_or p q r xs (λ a m. f a (Memᴰ.tail m)) (λ a m. g a (Memᴰ.tail m)),
)

contains_text-append :
    (xs ys : List Text) (name : Text)
    → contains_text (xs ++ ys) name ≡ (contains_text xs name || contains_text ys name)
unfolding contains_text
contains_text-append [] ys name = refl
contains_text-append (x ∷ xs) ys name = ground (arith, contains_text-append xs ys name)

pub length-filter_le {ℓ} :
    {A : Type ℓ} (p : A → Bool) (xs : List A) → length (filter p xs) ≤ length xs
length-filter_le p [] = omega arith
length-filter_le p (x ∷ xs) = ground (arith, length-filter_le p xs)

pub length-filter_full {ℓ} :
    {A : Type ℓ} {a : A} (p : A → Bool) (xs : List A)
    → length xs ≤ length (filter p xs)
    → Memᴰ a xs
    → p a ≡ true
length-filter_full p [] h m = elim m [ ]
length-filter_full p (x ∷ xs) h (Memᴰ.head e) = rw e (ground (arith, length-filter_le p xs))
length-filter_full p (x ∷ xs) h (Memᴰ.tail m) =
    length-filter_full p xs (ground (arith, length-filter_le p xs)) m

-- Some element fails a test that does not keep the whole list.
pub length-filter_lt {ℓ} :
    {A : Type ℓ} (p : A → Bool) (xs : List A)
    → length (filter p xs) < length xs
    → (a : A) × Memᴰ a xs × (p a ≡ false)
length-filter_lt p [] h = absurd (omega arith)
length-filter_lt p (x ∷ xs) h = elim (Bool-cases (p x)) [
  | inl e ↦ let (a, m, f) = length-filter_lt p xs (ground arith) in (a, Memᴰ.tail m, f)
  | inr e ↦ (x, Memᴰ.head refl, e)
]

abbrev pub placed : List Text → DependencyNode → Bool
placed order node = contains_text order node.name

-- The number of placed nodes is the number of placed names.
abbrev pub Counted : List DependencyNode → List Text → Type 0
Counted nodes order = length order ≡ length (filter (placed order) nodes)

is_ready-not_placed :
    (order : List Text) (node : DependencyNode)
    → is_ready order node ≡ true
    → placed order node ≡ false
unfolding is_ready
is_ready-not_placed order node h = ground arith

length-next_ready_names :
    (nodes : List DependencyNode) (order : List Text)
    → length (next_ready_names nodes order) ≡ length (filter (is_ready order) nodes)
unfolding next_ready_names
length-next_ready_names nodes order = length-map (λ n. n.name) (filter (is_ready order) nodes)

pub Counted-nil : (nodes : List DependencyNode) → Counted nodes []
unfolding contains_text
Counted-nil [] = refl
Counted-nil (node ∷ rest) = Counted-nil rest

module _ (nodes : List DependencyNode) (order : List Text) (consistent : Consistent nodes) where
  is_ready-cong :
      (a b : DependencyNode)
      → Memᴰ a nodes
      → Memᴰ b nodes
      → a.name ≡ b.name
      → is_ready order a ≡ is_ready order b
  unfolding is_ready
  is_ready-cong a b m n e = rw (e, consistent a b m n e)

  contains_text-next_ready_names :
      (node : DependencyNode)
      → Memᴰ node nodes
      → contains_text (next_ready_names nodes order) node.name ≡ is_ready order node
  unfolding next_ready_names
  contains_text-next_ready_names node m =
      eq_of_iff _ _
        (λ h.
          let (b, kept, e) =
            mem-map (λ n. n.name) (filter (is_ready order) nodes) ((contains_text_iff _ _).0 h) in
          let (n, r) = mem-filter (is_ready order) nodes kept in is_ready-cong node b m n e ∙ r)
        (λ r.
          (contains_text_iff _ _).1
            (mem-map_of_mem (λ n. n.name) _ (mem-filter_of_mem (is_ready order) nodes m r)))

  -- A round keeps the count.
  pub round-Counted : Counted nodes order → Counted nodes (order ++ next_ready_names nodes order)
  round-Counted h =
      let both =
        length-filter_or (placed order) (is_ready order)
          (placed (order ++ next_ready_names nodes order)) nodes
          (λ a m.
            contains_text-append order (next_ready_names nodes order) a.name
            ∙ ap (λ b. placed order a || b) (contains_text-next_ready_names a m))
          (λ a m. is_ready-not_placed order a) in
      omega (
        arith,
        length-append order (next_ready_names nodes order),
        both,
        length-next_ready_names nodes order,
        h,
      )
