-- ===== src/Entities/Policy.antt =====
-- entities/src/sandbox/policy.rs
pub mod Accepted
use pm.Base.{
  ℕ, Bool, true, false, not, ◌&&◌, Option, none, some, List, [], ◌∷◌, ◌++◌, Text, codes, text_eq,
  any, find, is_empty, Result, ok, err, ◌>>=◌, ◌>>◌, if◌then◌else◌,
}
use pm.Entities.Roots.{normalize_root, is_absolute_path, covers_path}

pub data SandboxMode : Type 0 where
  read_only workspace_write danger_full_access : SandboxMode

pub data ReadScope : Type 0 where
  full minimal : ReadScope

pub record SandboxPolicy : Type 0 where
  pub mode : SandboxMode
  pub read : ReadScope
  pub network : Bool
  pub writable_roots : List Text
  pub readable_roots : List Text
  pub derived_readable_roots : List Text
  pub derived_roots : List Text
  pub unreadable_roots : List Text

pub data PolicyError : Type 0 where
  empty_writable_root : PolicyError
  relative_writable_root : (root : Text) → PolicyError
  empty_derived_root : PolicyError
  relative_derived_root : (root : Text) → PolicyError
  empty_readable_root : PolicyError
  relative_readable_root : (root : Text) → PolicyError
  writable_roots_without_write_access : PolicyError
  writable_root_covers_hidden_root : (root hidden : Text) → PolicyError
  forbidden_writable_root : (root : Text) → PolicyError

unfoldable pub mode_as_str : SandboxMode → Text
mode_as_str read_only = codes "read-only"
mode_as_str workspace_write = codes "workspace-write"
mode_as_str danger_full_access = codes "danger-full-access"

unfoldable pub mode_parse : Text → Option SandboxMode
unfolding text_eq
mode_parse raw =
    if text_eq raw (codes "read-only")
    then some read_only
    else if text_eq raw (codes "workspace-write")
    then some workspace_write
    else if text_eq raw (codes "danger-full-access")
    then some danger_full_access
    else none

unfoldable pub read_as_str : ReadScope → Text
read_as_str full = codes "full"
read_as_str minimal = codes "minimal"

unfoldable pub read_parse : Text → Option ReadScope
unfolding text_eq
read_parse raw =
    if text_eq raw (codes "full")
    then some full
    else if text_eq raw (codes "minimal")
    then some minimal
    else none

abbrev pub allows_writes : SandboxMode → Bool
allows_writes workspace_write = true
allows_writes danger_full_access = true
allows_writes read_only = false

abbrev pub is_unconfined : SandboxMode → Bool
is_unconfined danger_full_access = true
is_unconfined _ = false

abbrev pub confines_reads : ReadScope → Bool
confines_reads minimal = true
confines_reads full = false

unfoldable pub granted_roots : SandboxPolicy → List Text
granted_roots policy = policy.writable_roots ++ policy.derived_roots

unfoldable pub readable_grants : SandboxPolicy → List Text
readable_grants policy = policy.readable_roots ++ policy.derived_readable_roots

unfoldable pub hidden_paths : SandboxPolicy → List Text
hidden_paths policy = policy.unreadable_roots

validate_roots : List Text → PolicyError → (Text → PolicyError) → Result (Unit {0}) PolicyError
validate_roots [] empty relative = ok tt
validate_roots (root ∷ roots) empty relative =
    if is_empty root
    then err empty
    else if not (is_absolute_path root)
    then err (relative root)
    else validate_roots roots empty relative

-- The `for` loop over the granted roots.
check_hidden : List Text → List Text → Result (Unit {0}) PolicyError
check_hidden [] hidden = ok tt
check_hidden (root ∷ granted) hidden =
    let rest = check_hidden granted hidden in
    elim (find (λ h. covers_path root h) hidden) [
      | some h ↦ err (writable_root_covers_hidden_root root h)
      | none ↦ rest
    ]

validate_hidden_roots_stay_hidden : SandboxPolicy → Result (Unit {0}) PolicyError
unfolding check_hidden granted_roots
validate_hidden_roots_stay_hidden policy =
    check_hidden (granted_roots policy) policy.unreadable_roots

unfoldable pub validate_policy : SandboxPolicy → Result (Unit {0}) PolicyError
unfolding granted_roots validate_roots validate_hidden_roots_stay_hidden
validate_policy policy =
    if not (allows_writes policy.mode) && not (is_empty (granted_roots policy))
    then err writable_roots_without_write_access
    else do
      validate_roots policy.writable_roots empty_writable_root relative_writable_root
      validate_roots policy.derived_roots empty_derived_root relative_derived_root
      validate_roots policy.readable_roots empty_readable_root relative_readable_root
      validate_hidden_roots_stay_hidden policy

unfoldable pub root_is_forbidden : List Text → Text → Bool
root_is_forbidden forbidden root =
    any (λ denied. text_eq (normalize_root denied) (normalize_root root)) forbidden

unfoldable pub validate_forbidden_roots : SandboxPolicy → List Text → Result (Unit {0}) PolicyError
unfolding root_is_forbidden
validate_forbidden_roots policy forbidden =
    elim (find (λ root. root_is_forbidden forbidden root) policy.writable_roots) [
      | none ↦ ok tt
      | some root ↦ err (forbidden_writable_root root)
    ]
