-- ===== src/Entities/Roots/Components.antt =====
-- `covers_path` against the components of paths.
use pm.Base.{
  ℕ, ◌==◌, true, ◌≡◌, refl, sym, ap, ◌∙◌, ◌↔◌, ◌⊎◌, inl, inr, List, [], ◌∷◌, ◌++◌, append-nil,
  append_assoc, Text, join, Bool-cases, if◌then◌else◌, arith,
}
use pm.Entities.Roots.{slash, root_path, normalize_root, covers_path}
use pm.Entities.Roots.Cover.{AtBoundary, Covers, covers_path-Covers, Covers-covers_path}

-- A character in front of the first component.
abbrev cons_first : ℕ → List Text → List Text
cons_first c [] = (c ∷ []) ∷ []
cons_first c (first ∷ rest) = (c ∷ first) ∷ rest

-- The components of a path: the texts between its slashes.
pub components : Text → List Text
components [] = [] ∷ []
components (c ∷ path) =
    let rest = components path in if c == slash then [] ∷ rest else cons_first c rest

abbrev pub IsPrefix : List Text → List Text → Type 0
IsPrefix xs ys = (zs : List Text) × (ys ≡ xs ++ zs)

components-cons : (path : Text) → (x : Text) × (xs : List Text) × (components path ≡ x ∷ xs)
unfolding components
components-cons [] = ([], [], refl)
components-cons (c ∷ path) =
    let (x, xs, e) = components-cons path in
    elim (Bool-cases (c == slash)) [
      | inl h ↦ ([], components path, rw (h, components) refl)
      | inr h ↦ (c ∷ x, xs, rw (h, components) (rw e refl))
    ]

components-append : (p r : Text) → components (p ++ slash ∷ r) ≡ components p ++ components r
unfolding components
components-append [] r = refl
components-append (c ∷ p) r =
    let (x, xs, e) = components-cons p in
    elim (Bool-cases (c == slash)) [
      | inl h ↦ rw (h, components) (ap (λ ts. [] ∷ ts) (components-append p r))
      | inr h ↦ rw (h, components) (ap (cons_first c) (components-append p r) ∙ rw e refl)
    ]

join-components : (path : Text) → join root_path (components path) ≡ path
unfolding components join
join-components [] = refl
join-components (c ∷ path) =
    let (x, xs, e) = components-cons path in
    let rest : join root_path (x ∷ xs) ≡ path = rw e at (join-components path) in
    elim (Bool-cases (c == slash)) [
      | inl h ↦
          let same : c ≡ slash = ground arith in
          rw (h, components) (rw e (ap (λ t. slash ∷ t) rest ∙ ap (λ d. d ∷ path) (sym same)))
      | inr h ↦ rw (h, components) (rw e (join-cons_first c x xs ∙ ap (λ t. c ∷ t) rest))
    ]
  where
    join-cons_first :
        (c : ℕ) (x : Text) (xs : List Text)
        → join root_path ((c ∷ x) ∷ xs) ≡ c ∷ join root_path (x ∷ xs)
    join-cons_first c x [] = refl
    join-cons_first c x (y ∷ xs) = refl

join-append :
    (x : Text) (xs : List Text) (z : Text) (zs : List Text)
    → join root_path ((x ∷ xs) ++ z ∷ zs)
      ≡ join root_path (x ∷ xs) ++ slash ∷ join root_path (z ∷ zs)
unfolding join
join-append x [] z zs = refl
join-append x (y ∷ xs) z zs =
    ap (λ t. x ++ slash ∷ t) (join-append y xs z zs)
    ∙ sym (append_assoc x (slash ∷ join root_path (y ∷ xs)) (slash ∷ join root_path (z ∷ zs)))

prefix_of_boundary :
    (p rest : Text) → AtBoundary rest → IsPrefix (components p) (components (p ++ rest))
prefix_of_boundary p [] b = ([], ap components (append-nil p) ∙ sym (append-nil (components p)))
prefix_of_boundary p (c ∷ rest) b =
    (components rest, ap (λ d. components (p ++ d ∷ rest)) b ∙ components-append p rest)

boundary_of_prefix :
    (p q : Text)
    → IsPrefix (components p) (components q)
    → (rest : Text) × (q ≡ p ++ rest) × AtBoundary rest
boundary_of_prefix p q ([], e) = (
  [],
  sym (join-components q)
      ∙ ap (join root_path) (e ∙ append-nil (components p))
      ∙ join-components p
      ∙ sym (append-nil p),
  tt,
)
boundary_of_prefix p q (z ∷ zs, e) =
    let (x, xs, f) = components-cons p in
    (
      slash ∷ join root_path (z ∷ zs),
      sym (join-components q)
          ∙ ap (join root_path) (e ∙ ap (λ ts. ts ++ z ∷ zs) f)
          ∙ join-append x xs z zs
          ∙ ap (λ t. t ++ slash ∷ join root_path (z ∷ zs))
              (ap (join root_path) (sym f) ∙ join-components p),
      refl,
    )

-- A root covers a path exactly if, both without their trailing slashes, it is the root directory or
-- its components are the first components of the path: never a sibling whose name begins with its
-- own.
pub covers_path_iff :
    (parent child : Text)
    → (covers_path parent child ≡ true) ↔ (
        (normalize_root parent ≡ root_path)
        ⊎ IsPrefix (components (normalize_root parent)) (components (normalize_root child)))
covers_path_iff parent child = (
  λ h. described (covers_path-Covers parent child h),
  λ d. Covers-covers_path parent child (covered d),
)
  where
    described :
        Covers parent child
        → (normalize_root parent ≡ root_path)
          ⊎ IsPrefix (components (normalize_root parent)) (components (normalize_root child))
    described (inl root) = inl root
    described (inr (rest, e, b)) =
        let (zs, f) = prefix_of_boundary (normalize_root parent) rest b in
        inr (zs, ap components e ∙ f)

    covered :
        (normalize_root parent ≡ root_path)
          ⊎ IsPrefix (components (normalize_root parent)) (components (normalize_root child))
        → Covers parent child
    covered (inl root) = inl root
    covered (inr d) = inr (boundary_of_prefix (normalize_root parent) (normalize_root child) d)
