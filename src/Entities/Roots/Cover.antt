-- ===== src/Entities/Roots/Cover.antt =====
-- `covers_path` is a preorder on paths.
use pm.Base.{
  true, false, ◌≡◌, refl, sym, ap, ◌∙◌, ◌≢◌, ◌↔◌, ◌⊎◌, inl, inr, none, some, [], ◌∷◌, ◌++◌,
  append_assoc, append-nil, Text, text_eq, text_eq_iff, strip_prefix, starts_with, Bool-cases,
  Option-cases, arith,
}
use pm.Entities.Roots.{slash, root_path, normalize_root, ends_at_boundary, covers_path}

strip_prefix-some : (p s rest : Text) → strip_prefix p s ≡ some rest → s ≡ p ++ rest
unfolding strip_prefix
strip_prefix-some [] s rest h = ground arith
strip_prefix-some (c ∷ p) [] rest h = cc
strip_prefix-some (c ∷ p) (d ∷ s) rest h = ground (arith, strip_prefix-some p s rest)

strip_prefix-append : (p rest : Text) → strip_prefix p (p ++ rest) ≡ some rest
unfolding strip_prefix
strip_prefix-append [] rest = refl
strip_prefix-append (c ∷ p) rest = ground (arith, strip_prefix-append p rest)

-- The rest of a path after a covering one: nothing, or what a separator begins.
abbrev pub AtBoundary : Text → Type 0
AtBoundary [] = Unit
AtBoundary (c ∷ rest) = c ≡ slash

ends_at_boundary_iff : (rest : Text) → (ends_at_boundary rest ≡ true) ↔ AtBoundary rest
unfolding ends_at_boundary starts_with
ends_at_boundary_iff [] = (λ _. tt, λ _. refl)
ends_at_boundary_iff (c ∷ rest) = (λ h. ground arith, λ h. ground arith)

normalize_root-ne-nil : (p : Text) → normalize_root p ≢ []
unfolding normalize_root
normalize_root-ne-nil p = ground arith

-- `covers_path` at normalised paths: the parent is the root, or the child continues it at a
-- separator.
abbrev pub Covers : Text → Text → Type 0
Covers parent child =
    (normalize_root parent ≡ root_path)
    ⊎ ((rest : Text) × (normalize_root child ≡ normalize_root parent ++ rest) × AtBoundary rest)

pub covers_path-Covers : (p c : Text) → covers_path p c ≡ true → Covers p c
unfolding covers_path
covers_path-Covers p c h = elim (Bool-cases (text_eq (normalize_root p) root_path)) [
  | inl root ↦ inl ((text_eq_iff _ _).0 root)
  | inr proper ↦ split (Option-cases (strip_prefix (normalize_root p) (normalize_root c))) proper
]
  where
    split :
        (strip_prefix (normalize_root p) (normalize_root c) ≡ none)
          ⊎ ((rest : Text) × (strip_prefix (normalize_root p) (normalize_root c) ≡ some rest))
        → text_eq (normalize_root p) root_path ≡ false
        → Covers p c
    split (inl missing) proper = absurd (ground arith)
    split (inr (rest, e)) proper =
        inr (rest, strip_prefix-some _ _ rest e, (ends_at_boundary_iff rest).0 (ground arith))

pub Covers-covers_path : (p c : Text) → Covers p c → covers_path p c ≡ true
unfolding covers_path
Covers-covers_path p c (inl e) = ground (arith, text_eq_iff (normalize_root p) root_path)
Covers-covers_path p c (inr (rest, e, b)) =
    ground (arith, strip_prefix-append (normalize_root p) rest, (ends_at_boundary_iff rest).1 b)

AtBoundary-append : (r s : Text) → AtBoundary r → AtBoundary s → AtBoundary (r ++ s)
AtBoundary-append [] s h k = k
AtBoundary-append (c ∷ r) s h k = h

-- A non-empty front of the root is the root.
only_root : (p r : Text) → p ≢ [] → p ++ r ≡ root_path → p ≡ root_path
only_root [] r h e = absurd (h refl)
only_root (c ∷ []) r h e = ground arith
only_root (c ∷ d ∷ p) r h e = absurd (ground arith)

-- A path covers itself.
pub covers_path_refl : (p : Text) → covers_path p p ≡ true
covers_path_refl p = Covers-covers_path p p (inr ([], sym (append-nil (normalize_root p)), tt))

-- What lies under a path that a granted root covers, the granted root covers too.
pub covers_path_trans :
    (a b c : Text) → covers_path a b ≡ true → covers_path b c ≡ true → covers_path a c ≡ true
covers_path_trans a b c h k =
    Covers-covers_path a c (join (covers_path-Covers a b h) (covers_path-Covers b c k))
  where
    join : Covers a b → Covers b c → Covers a c
    join (inl root) k = inl root
    join (inr (r, e, m)) (inl root) =
        inl (only_root (normalize_root a) r (normalize_root-ne-nil a) (sym e ∙ root))
    join (inr (r, e, m)) (inr (s, f, n)) = inr (
      r ++ s,
      f ∙ ap (λ t. t ++ s) e ∙ append_assoc (normalize_root a) r s,
      AtBoundary-append r s m n,
    )
