-- ===== src/Adapters/Config/Readings.antt =====
-- validate.rs: what the single tests of a configuration say of the text that they read.
use pm.Base.{
  ◌≡◌, ◌≢◌, refl, sym, ap, subst, ◌↔◌, ℕ, Bool, true, false, not, any, find, is_empty, none, List,
  [], ◌∷◌, All, All-of_mem, Memᴰ, any-mem, mem-any, text_eq, text_eq_iff, find-none,
  find-none_of_mem, Text, ok, starts_with, codes, ◌||◌, ◌==◌, ◌⊎◌, All_at, Bool-cases, Option-cases,
  inl, inr, arith,
}
use pm.Adapters.Config.Validate.{reject_relative_roots, derivable_root, parses}
use pm.Entities.Policy.{
  SandboxMode, ReadScope, read_only, workspace_write, danger_full_access, full, minimal,
  mode_as_str, mode_parse, read_as_str, read_parse,
}
use pm.Entities.Roots.{is_absolute_path}

-- A path that begins with a character.
abbrev pub BeginsWith : ℕ → Text → Type 0
BeginsWith c path = (rest : Text) × (path ≡ c ∷ rest)

pub fails_iff : {b : Bool} {P : Type 0} → ¬ P → (b ≡ true) ↔ P → b ≡ false
fails_iff {b} n i = elim (Bool-cases b) [ inl e ↦ absurd (n (i.0 e)) | inr e ↦ e ]

pub begins_iff : (c : ℕ) (path : Text) → (starts_with (c ∷ []) path ≡ true) ↔ BeginsWith c path
unfolding starts_with
begins_iff c [] = (λ h. cc, λ (rest, e). cc)
begins_iff c (d ∷ path) = (
  λ h. let same : d ≡ c = ground arith in (path, ap (λ e. e ∷ path) same),
  λ (rest, e). ground arith,
)

-- A directory that the program can derive or find: left empty, absolute, or behind a tilde.
abbrev pub IsDerivable : Text → Type 0
IsDerivable path = (path ≡ []) ⊎ (BeginsWith b'/' path ⊎ BeginsWith b'~' path)

pub IsDerivable-iff : (path : Text) → (derivable_root path ≡ true) ↔ IsDerivable path
unfolding derivable_root is_absolute_path
IsDerivable-iff [] = (λ h. inl refl, λ d. refl)
IsDerivable-iff (c ∷ path) = (
  λ h. elim (Bool-cases (starts_with (b'/' ∷ []) (c ∷ path))) [
    | inl e ↦ inr (inl ((begins_iff b'/' (c ∷ path)).0 e))
    | inr e ↦ inr (inr ((begins_iff b'~' (c ∷ path)).0 (ground arith)))
  ],
  λ d. elim d [
    | inl e ↦ cc
    | inr (inl h) ↦ let l = (begins_iff b'/' (c ∷ path)).1 h in ground arith
    | inr (inr h) ↦ let l = (begins_iff b'~' (c ∷ path)).1 h in ground arith
  ],
)

-- A text without a line break.
abbrev pub IsOneLine : Text → Type 0
IsOneLine path = (¬ Memᴰ 10 path) × (¬ Memᴰ 13 path)

pub IsOneLine-iff :
    (path : Text) → (any (λ c. (c == 10) || (c == 13)) path ≡ false) ↔ IsOneLine path
IsOneLine-iff path =
    let breaks : ℕ → Bool = λ c. (c == 10) || (c == 13) in
    (
      λ h. (
        λ m. let k : any breaks path ≡ true = any-mem breaks path m refl in cc,
        λ m. let k : any breaks path ≡ true = any-mem breaks path m refl in cc,
      ),
      λ (no_feed, no_return). elim (Bool-cases (any breaks path)) [
        | inr e ↦ e
        | inl e ↦
            let (c, m, h) = mem-any breaks path e in
            elim (Bool-cases (c == 10)) [
              | inl feed ↦
                  let same : c ≡ 10 = ground (arith, feed) in
                  absurd (no_feed (subst (λ d. Memᴰ d path) same m))
              | inr other ↦
                  let same : c ≡ 13 = ground (arith, other, h) in
                  absurd (no_return (subst (λ d. Memᴰ d path) same m))
            ]
      ],
    )

pub empty_iff {ℓ} : {A : Type ℓ} (xs : List A) → (is_empty xs ≡ false) ↔ (xs ≢ [])
empty_iff [] = (λ h. cc, λ n. absurd (n refl))
empty_iff (x ∷ xs) = (λ h e. cc, λ n. refl)

-- A search for an element that fails the test finds none exactly if all pass.
pub none_fails {ℓ} :
    {A : Type ℓ} (p : A → Bool) (xs : List A)
    → (find (λ x. not (p x)) xs ≡ none) ↔ All (λ x. p x ≡ true) xs
none_fails p xs = (
  λ absent.
      All-of_mem (λ x. p x ≡ true) xs
        (λ x m. let missed = find-none (λ y. not (p y)) xs absent m in ground arith),
  λ a. find-none_of_mem (λ x. not (p x)) xs (λ x m. rw (All_at (λ y. p y ≡ true) xs a m) refl),
)

abbrev pub AllAbsolute : List Text → Type 0
AllAbsolute roots = All (λ root. BeginsWith b'/' root) roots

pub reject_relative_roots_iff :
    (field : Text) (roots : List Text)
    → (reject_relative_roots field roots ≡ ok tt) ↔ AllAbsolute roots
unfolding reject_relative_roots is_absolute_path
reject_relative_roots_iff field roots = (
  λ h. elim (Option-cases (find (λ root. not (is_absolute_path root)) roots)) [
    | inl absent ↦
        let a = (none_fails is_absolute_path roots).0 absent in
        All-of_mem (λ root. BeginsWith b'/' root) roots
          (λ root m. (begins_iff b'/' root).0 (All_at (λ r. is_absolute_path r ≡ true) roots a m))
    | inr (root, found) ↦ let h' = rw (found, reject_relative_roots) at h in cc
  ],
  λ a.
      let b =
        All-of_mem (λ root. is_absolute_path root ≡ true) roots
          (λ root m. (begins_iff b'/' root).1 (All_at (λ r. BeginsWith b'/' r) roots a m)) in
      rw ((none_fails is_absolute_path roots).1 b, reject_relative_roots) refl,
)

mode_parses : (m : SandboxMode) → parses (mode_parse (mode_as_str m)) ≡ true
unfolding mode_parse mode_as_str text_eq
mode_parses read_only = refl
mode_parses workspace_write = refl
mode_parses danger_full_access = refl

pub mode_iff :
    (raw : Text) → (parses (mode_parse raw) ≡ true) ↔ ((m : SandboxMode) × (raw ≡ mode_as_str m))
unfolding mode_parse mode_as_str
mode_iff raw = (
  λ h. elim (Bool-cases (text_eq raw (codes "read-only"))) [
    | inl e ↦ (read_only, (text_eq_iff raw (codes "read-only")).0 e)
    | inr first ↦ elim (Bool-cases (text_eq raw (codes "workspace-write"))) [
      | inl e ↦ (workspace_write, (text_eq_iff raw (codes "workspace-write")).0 e)
      | inr neither ↦ elim (Bool-cases (text_eq raw (codes "danger-full-access"))) [
        | inl e ↦ (danger_full_access, (text_eq_iff raw (codes "danger-full-access")).0 e)
        | inr last ↦ let h' = rw (first, neither, last, mode_parse) at h in cc
      ]
    ]
  ],
  λ (m, e). subst (λ r. parses (mode_parse r) ≡ true) (sym e) (mode_parses m),
)

read_parses : (r : ReadScope) → parses (read_parse (read_as_str r)) ≡ true
unfolding read_parse read_as_str text_eq
read_parses full = refl
read_parses minimal = refl

pub read_iff :
    (raw : Text) → (parses (read_parse raw) ≡ true) ↔ ((r : ReadScope) × (raw ≡ read_as_str r))
unfolding read_parse read_as_str
read_iff raw = (
  λ h. elim (Bool-cases (text_eq raw (codes "full"))) [
    | inl e ↦ (full, (text_eq_iff raw (codes "full")).0 e)
    | inr first ↦ elim (Bool-cases (text_eq raw (codes "minimal"))) [
      | inl e ↦ (minimal, (text_eq_iff raw (codes "minimal")).0 e)
      | inr neither ↦ let h' = rw (first, neither, read_parse) at h in cc
    ]
  ],
  λ (r, e). subst (λ t. parses (read_parse t) ≡ true) (sym e) (read_parses r),
)
