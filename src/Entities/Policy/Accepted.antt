-- ===== src/Entities/Policy/Accepted.antt =====
-- What the sandbox policies that `validate_policy` accepts have in common.
use pm.Base.{
  Bool, true, false, not, ◌&&◌, ◌≡◌, refl, ◌↔◌, inl, inr, List, [], ◌∷◌, Memᴰ, Text, is_empty,
  find-none, find-none_of_mem, All, ok, >>-eq-ok, Bool-cases, arith,
}
use pm.Entities.Roots.{is_absolute_path, covers_path}
use pm.Entities.Roots.Cover.{covers_path_trans}
use pm.Entities.Policy.{
  SandboxPolicy, PolicyError, empty_writable_root, relative_writable_root, empty_derived_root,
  relative_derived_root, empty_readable_root, relative_readable_root, allows_writes, granted_roots,
  validate_roots, check_hidden, validate_policy,
}

abbrev pub IsRoot : Text → Type 0
IsRoot root = (is_empty root ≡ false) × (is_absolute_path root ≡ true)

pub record IsAccepted (p : SandboxPolicy) : Type 0 where
  pub grants : allows_writes p.mode ≡ false → granted_roots p ≡ []
  pub writable : All IsRoot p.writable_roots
  pub derived : All IsRoot p.derived_roots
  pub readable : All IsRoot p.readable_roots
  pub hidden :
      (root h : Text)
      → Memᴰ root (granted_roots p)
      → Memᴰ h p.unreadable_roots
      → covers_path root h ≡ false

validate_roots-ok :
    (roots : List Text) (e : PolicyError) (f : Text → PolicyError)
    → validate_roots roots e f ≡ ok tt
    → All IsRoot roots
unfolding validate_roots
validate_roots-ok [] e f h = tt
validate_roots-ok (root ∷ roots) e f h =
    let rest = validate_roots-ok roots e f (ground arith) in (ground arith, rest)

validate_roots_of_All :
    (roots : List Text) (e : PolicyError) (f : Text → PolicyError)
    → All IsRoot roots
    → validate_roots roots e f ≡ ok tt
unfolding validate_roots
validate_roots_of_All [] e f h = refl
validate_roots_of_All (root ∷ roots) e f h = ground (arith, validate_roots_of_All roots e f h.1)

check_hidden-ok :
    (granted hidden : List Text) {root h : Text}
    → check_hidden granted hidden ≡ ok tt
    → Memᴰ root granted
    → Memᴰ h hidden
    → covers_path root h ≡ false
unfolding check_hidden
check_hidden-ok [] hidden e m n = elim m [ ]
check_hidden-ok (g ∷ granted) hidden {root} {h} e (Memᴰ.head same) n =
    rw same (find-none (λ h. covers_path g h) hidden (ground arith) n)
check_hidden-ok (g ∷ granted) hidden e (Memᴰ.tail m) n =
    check_hidden-ok granted hidden (ground arith) m n

check_hidden_of_mem :
    (granted hidden : List Text)
    → ((root h : Text) → Memᴰ root granted → Memᴰ h hidden → covers_path root h ≡ false)
    → check_hidden granted hidden ≡ ok tt
unfolding check_hidden
check_hidden_of_mem [] hidden f = refl
check_hidden_of_mem (g ∷ granted) hidden f =
    rw
      (
        find-none_of_mem (λ h. covers_path g h) hidden (λ h n. f g h (Memᴰ.head refl) n),
        check_hidden,
      )
      (check_hidden_of_mem granted hidden (λ root h m n. f root h (Memᴰ.tail m) n))

-- `validate_policy` accepts a policy exactly if a mode that denies writes has no granted root,
-- every writable, derived and readable root is a non-empty absolute path, and no granted root
-- covers a hidden one.
pub validate_policy_iff : (p : SandboxPolicy) → (validate_policy p ≡ ok tt) ↔ IsAccepted p
unfolding validate_policy
validate_policy_iff p = (sound, complete)
  where
    denies : Bool
    denies = not (allows_writes p.mode) && not (is_empty (granted_roots p))

    sound : validate_policy p ≡ ok tt → IsAccepted p
    sound h =
        let free : denies ≡ false = ground arith in
        let (writable, h') = >>-eq-ok _ _ (rw free at h) in
        let (derived, h'') = >>-eq-ok _ _ h' in
        let (readable, hidden) = >>-eq-ok _ _ h'' in
        record {
          grants = λ no_writes. ground arith;
          writable = validate_roots-ok p.writable_roots _ _ writable;
          derived = validate_roots-ok p.derived_roots _ _ derived;
          readable = validate_roots-ok p.readable_roots _ _ readable;
          hidden = λ root h m n. check_hidden-ok (granted_roots p) p.unreadable_roots hidden m n;
        }

    complete : IsAccepted p → validate_policy p ≡ ok tt
    complete a =
        let free : denies ≡ false = ground (arith, a.grants) in
        ground (
          arith,
          validate_roots_of_All p.writable_roots empty_writable_root relative_writable_root
              a.writable,
          validate_roots_of_All p.derived_roots empty_derived_root relative_derived_root a.derived,
          validate_roots_of_All p.readable_roots empty_readable_root relative_readable_root
              a.readable,
          check_hidden_of_mem (granted_roots p) p.unreadable_roots a.hidden,
        )

-- Under a policy that `validate_policy` accepts, nothing that a granted root covers covers a
-- hidden path in turn: no directory inside a writable root holds what is to stay hidden.
pub validate_policy_hides :
    (p : SandboxPolicy) (root path h : Text)
    → validate_policy p ≡ ok tt
    → Memᴰ root (granted_roots p)
    → Memᴰ h p.unreadable_roots
    → covers_path root path ≡ true
    → covers_path path h ≡ false
validate_policy_hides p root path h e m n inside = elim (Bool-cases (covers_path path h)) [
  | inl leak ↦
      let open_to = covers_path_trans root path h inside leak in
      absurd (ground (arith, ((validate_policy_iff p).0 e).hidden root h m n))
  | inr safe ↦ safe
]
