-- ===== src/Base/Lists.antt =====
-- Lists measured by native numbers, and the iterator methods over Boolean tests.
use Prim.Native.Nat.{ℕ, zero, suc, ◌+◌, ◌≤◌}
use mathlib.Core.Path.{◌≡◌, refl, sym, ap, subst}
use mathlib.Core.Logic.{◌⊎◌, inl, inr}
use mathlib.Core.Bool.{Bool, true, false, ◌&&◌, ◌||◌}
use mathlib.Core.List.{List, [], ◌∷◌, ◌++◌, map, Memᴰ, reverse, reverse-cons, reverse-reverse}
use mathlib.Core.Option.{Option, none, some}
use native.Mathlib.Omega.{arith}
use pm.Base.Tests.{if◌then◌else◌, Bool-cases, Option-cases}

module _ {ℓ} {A : Type ℓ} where
  abbrev pub length : List A → ℕ
  length [] = 0
  length (x ∷ xs) = suc (length xs)

  abbrev pub take : ℕ → List A → List A
  take zero xs = []
  take (suc n) [] = []
  take (suc n) (x ∷ xs) = x ∷ take n xs

  abbrev pub drop : ℕ → List A → List A
  drop zero xs = xs
  drop (suc n) [] = []
  drop (suc n) (x ∷ xs) = drop n xs

  abbrev pub is_empty : List A → Bool
  is_empty [] = true
  is_empty (x ∷ xs) = false

  abbrev pub any : (A → Bool) → List A → Bool
  any p [] = false
  any p (x ∷ xs) = p x || any p xs

  abbrev pub all : (A → Bool) → List A → Bool
  all p [] = true
  all p (x ∷ xs) = p x && all p xs

  abbrev pub find : (A → Bool) → List A → Option A
  find p [] = none
  find p (x ∷ xs) = if p x then some x else find p xs

  abbrev pub filter : (A → Bool) → List A → List A
  filter p [] = []
  filter p (x ∷ xs) = let rest = filter p xs in if p x then x ∷ rest else rest

  abbrev pub filter_map {κ} : {B : Type κ} → (A → Option B) → List A → List B
  filter_map f [] = []
  filter_map f (x ∷ xs) =
      let rest = filter_map f xs in elim (f x) [ none ↦ rest | some y ↦ y ∷ rest ]

  abbrev pub All {κ} : (A → Type κ) → List A → Type κ
  All P [] = Unit
  All P (x ∷ xs) = P x × All P xs

  pub length-append : (xs ys : List A) → length (xs ++ ys) ≡ length xs + length ys
  length-append [] ys = omega arith
  length-append (x ∷ xs) ys = omega (arith, length-append xs ys)

module _ {ℓ κ} {A : Type ℓ} (P : A → Type κ) where
  pub All_at : {a : A} (xs : List A) → All P xs → Memᴰ a xs → P a
  All_at [] h m = elim m [ ]
  All_at (x ∷ xs) h (Memᴰ.head e) = subst P (sym e) h.0
  All_at (x ∷ xs) h (Memᴰ.tail m) = All_at xs h.1 m

  pub All-of_mem : (xs : List A) → ((a : A) → Memᴰ a xs → P a) → All P xs
  All-of_mem [] f = tt
  All-of_mem (x ∷ xs) f = (f x (Memᴰ.head refl), All-of_mem xs (λ a m. f a (Memᴰ.tail m)))

  pub All-append : (xs ys : List A) → All P xs → All P ys → All P (xs ++ ys)
  All-append [] ys h k = k
  All-append (x ∷ xs) ys h k = (h.0, All-append xs ys h.1 k)

  pub All-append_left : (xs ys : List A) → All P (xs ++ ys) → All P xs
  All-append_left [] ys h = tt
  All-append_left (x ∷ xs) ys h = (h.0, All-append_left xs ys h.1)

  pub All-append_right : (xs ys : List A) → All P (xs ++ ys) → All P ys
  All-append_right [] ys h = h
  All-append_right (x ∷ xs) ys h = All-append_right xs ys h.1

module _ {ℓ} {A : Type ℓ} where
  pub Memᴰ-append_left : {a : A} {xs : List A} (ys : List A) → Memᴰ a xs → Memᴰ a (xs ++ ys)
  Memᴰ-append_left ys (Memᴰ.head e) = Memᴰ.head e
  Memᴰ-append_left ys (Memᴰ.tail m) = Memᴰ.tail (Memᴰ-append_left ys m)

  pub Memᴰ-append_right : {a : A} (xs : List A) {ys : List A} → Memᴰ a ys → Memᴰ a (xs ++ ys)
  Memᴰ-append_right [] m = m
  Memᴰ-append_right (x ∷ xs) m = Memᴰ.tail (Memᴰ-append_right xs m)

  pub Memᴰ-append_cases :
      {a : A} (xs : List A) {ys : List A} → Memᴰ a (xs ++ ys) → Memᴰ a xs ⊎ Memᴰ a ys
  Memᴰ-append_cases [] m = inr m
  Memᴰ-append_cases (x ∷ xs) (Memᴰ.head e) = inl (Memᴰ.head e)
  Memᴰ-append_cases (x ∷ xs) (Memᴰ.tail m) = elim (Memᴰ-append_cases xs m) [
    | inl n ↦ inl (Memᴰ.tail n)
    | inr n ↦ inr n
  ]

module _ {ℓ} {A : Type ℓ} (p : A → Bool) where
  pub any-mem : {a : A} (xs : List A) → Memᴰ a xs → p a ≡ true → any p xs ≡ true
  any-mem [] m h = elim m [ ]
  any-mem {a} (x ∷ xs) (Memᴰ.head e) h = rw (← e) (rw h refl)
  any-mem (x ∷ xs) (Memᴰ.tail m) h = ground (arith, any-mem xs m h)

  pub mem-any : (xs : List A) → any p xs ≡ true → (a : A) × Memᴰ a xs × (p a ≡ true)
  mem-any [] h = cc
  mem-any (x ∷ xs) h = elim (Bool-cases (p x)) [
    | inl e ↦ (x, Memᴰ.head refl, e)
    | inr e ↦ let (a, m, f) = mem-any xs (rw e at h) in (a, Memᴰ.tail m, f)
  ]

  pub all-mem : {a : A} (xs : List A) → all p xs ≡ true → Memᴰ a xs → p a ≡ true
  all-mem [] h m = elim m [ ]
  all-mem (x ∷ xs) h (Memᴰ.head e) = rw e (ground arith)
  all-mem (x ∷ xs) h (Memᴰ.tail m) = all-mem xs (ground arith) m

  pub all_of_mem : (xs : List A) → ((a : A) → Memᴰ a xs → p a ≡ true) → all p xs ≡ true
  all_of_mem [] f = refl
  all_of_mem (x ∷ xs) f = rw (f x (Memᴰ.head refl)) (all_of_mem xs (λ a m. f a (Memᴰ.tail m)))

  pub not-all : (xs : List A) → all p xs ≡ false → (a : A) × Memᴰ a xs × (p a ≡ false)
  not-all [] h = cc
  not-all (x ∷ xs) h = elim (Bool-cases (p x)) [
    | inl e ↦ let (a, m, f) = not-all xs (rw e at h) in (a, Memᴰ.tail m, f)
    | inr e ↦ (x, Memᴰ.head refl, e)
  ]

  pub find-some : {a : A} (xs : List A) → find p xs ≡ some a → Memᴰ a xs × (p a ≡ true)
  find-some [] h = cc
  find-some {a} (x ∷ xs) h = elim (Bool-cases (p x)) [
    | inl e ↦
        let same : x ≡ a = ground arith in (Memᴰ.head (sym same), subst (λ y. p y ≡ true) same e)
    | inr e ↦ let (m, f) = find-some xs (rw e at h) in (Memᴰ.tail m, f)
  ]

  pub find-none : {a : A} (xs : List A) → find p xs ≡ none → Memᴰ a xs → p a ≡ false
  find-none [] h m = elim m [ ]
  find-none (x ∷ xs) h (Memᴰ.head e) = rw e (ground arith)
  find-none (x ∷ xs) h (Memᴰ.tail m) = find-none xs (ground arith) m

  pub find-none_of_mem : (xs : List A) → ((a : A) → Memᴰ a xs → p a ≡ false) → find p xs ≡ none
  find-none_of_mem [] f = refl
  find-none_of_mem (x ∷ xs) f =
      rw (f x (Memᴰ.head refl)) (find-none_of_mem xs (λ a m. f a (Memᴰ.tail m)))

  pub mem-filter : {a : A} (xs : List A) → Memᴰ a (filter p xs) → Memᴰ a xs × (p a ≡ true)
  mem-filter [] m = elim m [ ]
  mem-filter {a} (x ∷ xs) m = elim (Bool-cases (p x)) [
    | inl e ↦ split e (subst (Memᴰ a) (rw e) m) (λ n. mem-filter xs n)
    | inr e ↦ let (n, f) = mem-filter xs (subst (Memᴰ a) (rw e) m) in (Memᴰ.tail n, f)
  ]
    where
      split :
          p x ≡ true
          → Memᴰ a (x ∷ filter p xs)
          → (Memᴰ a (filter p xs) → Memᴰ a xs × (p a ≡ true))
          → Memᴰ a (x ∷ xs) × (p a ≡ true)
      split e (Memᴰ.head same) f = (Memᴰ.head same, rw same e)
      split e (Memᴰ.tail n) f = (Memᴰ.tail (f n).0, (f n).1)

  pub mem-filter_of_mem : {a : A} (xs : List A) → Memᴰ a xs → p a ≡ true → Memᴰ a (filter p xs)
  mem-filter_of_mem [] m h = elim m [ ]
  mem-filter_of_mem (x ∷ xs) (Memᴰ.head e) h = rw (← e) (rw h (Memᴰ.head refl))
  mem-filter_of_mem {a} (x ∷ xs) (Memᴰ.tail m) h = elim (Bool-cases (p x)) [
    | inl e ↦ rw e (Memᴰ.tail (mem-filter_of_mem xs m h))
    | inr e ↦ rw e (mem-filter_of_mem xs m h)
  ]

module _ {ℓ κ} {A : Type ℓ} {B : Type κ} where
  pub length-map : (f : A → B) (xs : List A) → length (map f xs) ≡ length xs
  length-map f [] = refl
  length-map f (x ∷ xs) = ap suc (length-map f xs)

  pub mem-map :
      (f : A → B) {b : B} (xs : List A) → Memᴰ b (map f xs) → (a : A) × Memᴰ a xs × (b ≡ f a)
  mem-map f [] m = elim m [ ]
  mem-map f (x ∷ xs) (Memᴰ.head e) = (x, Memᴰ.head refl, e)
  mem-map f (x ∷ xs) (Memᴰ.tail m) = let (a, n, e) = mem-map f xs m in (a, Memᴰ.tail n, e)

  pub mem-map_of_mem : (f : A → B) {a : A} (xs : List A) → Memᴰ a xs → Memᴰ (f a) (map f xs)
  mem-map_of_mem f [] m = elim m [ ]
  mem-map_of_mem f (x ∷ xs) (Memᴰ.head e) = Memᴰ.head (ap f e)
  mem-map_of_mem f (x ∷ xs) (Memᴰ.tail m) = Memᴰ.tail (mem-map_of_mem f xs m)

module _ {ℓ} {A : Type ℓ} where
  pub length-reverse : (xs : List A) → length (reverse xs) ≡ length xs
  length-reverse [] = refl
  length-reverse (x ∷ xs) =
      rw (reverse-cons x xs) (omega (arith, length-append (reverse xs) (x ∷ []), length-reverse xs))

  pub mem-reverse : {d : A} (xs : List A) → Memᴰ d (reverse xs) → Memᴰ d xs
  mem-reverse [] m = m
  mem-reverse {d} (x ∷ xs) m =
      split (λ n. mem-reverse xs n) (Memᴰ-append_cases (reverse xs) (rw (reverse-cons x xs) at m))
    where
      split :
          (Memᴰ d (reverse xs) → Memᴰ d xs)
          → Memᴰ d (reverse xs) ⊎ Memᴰ d (x ∷ [])
          → Memᴰ d (x ∷ xs)
      split f (inl n) = Memᴰ.tail (f n)
      split f (inr (Memᴰ.head e)) = Memᴰ.head e
      split f (inr (Memᴰ.tail n)) = elim n [ ]

  pub mem-reverse_of_mem : {d : A} (xs : List A) → Memᴰ d xs → Memᴰ d (reverse xs)
  mem-reverse_of_mem {d} xs m =
      mem-reverse (reverse xs) (subst (λ ys. Memᴰ d ys) (sym (reverse-reverse xs)) m)

pub length-filter {ℓ} : {A : Type ℓ} (p : A → Bool) (xs : List A) → length (filter p xs) ≤ length xs
length-filter p [] = omega arith
length-filter p (x ∷ xs) = ground (arith, length-filter p xs)

pub All-filter {ℓ κ} :
    {A : Type ℓ} (P : A → Type κ) (p : A → Bool) (xs : List A) → All P xs → All P (filter p xs)
All-filter P p [] a = tt
All-filter P p (x ∷ xs) a = elim (Bool-cases (p x)) [
  | inl e ↦ rw e (a.0, All-filter P p xs a.1)
  | inr e ↦ rw e (All-filter P p xs a.1)
]

pub All-filter_map {ℓ κ μ ν} :
    {A : Type ℓ} {B : Type κ} (P : A → Type μ) (Q : B → Type ν) (f : A → Option B) (xs : List A)
    → ((x : A) (y : B) → P x → f x ≡ some y → Q y)
    → All P xs
    → All Q (filter_map f xs)
All-filter_map P Q f [] g a = tt
All-filter_map P Q f (x ∷ xs) g a = elim (Option-cases (f x)) [
  | inl e ↦ rw (e, All) (All-filter_map P Q f xs g a.1)
  | inr (y, e) ↦ rw (e, All) (g x y a.0 e, All-filter_map P Q f xs g a.1)
]
