-- ===== src/Adapters/Schedule/Agrees.antt =====
-- The random fields of a schedule against the widened ones.
use pm.Base.{
  ℕ, suc, ◌≡◌, refl, sym, ap, ◌∙◌, Option, none, some, Option-cases, inl, inr, List, [], ◌∷◌, Text,
  Result, ok, err, Result-cases, true, false, ◌==◌, if◌then◌else◌, Bool, length,
}
use pm.Adapters.Schedule.{
  ExpandError, random_mark, split_once, split_whitespace, parse_random, expand_field, expand_fields,
  expand, expand_random, widen_random, field_count, field_bounds, weekday_index,
}

abbrev pub error_of {ℓ} : {A : Type ℓ} → Result A ExpandError → Option ExpandError
error_of (ok a) = none
error_of (err e) = some e

-- The first error of two.
abbrev first_of : Option ExpandError → Option ExpandError → Option ExpandError
first_of none second = second
first_of (some e) second = some e

module _ {R : Type 0} (draw : (low high : ℕ) → R → ℕ × R) where
  expand_field-error :
      (field : Text) (bounds : ℕ × ℕ) (weekday : Bool) (r1 r2 : Option R)
      → error_of (expand_field draw field bounds weekday r1).0
        ≡ error_of (expand_field draw field bounds weekday r2).0
  unfolding expand_field
  expand_field-error field bounds weekday r1 r2 =
      elim (Option-cases (split_once random_mark field)) [
        | inl e ↦ rw (e, expand_field) refl
        | inr (parts, e) ↦ elim (Result-cases (parse_random field parts bounds)) [
          | inl (_, p) ↦ rw (e, expand_field, p) refl
          | inr (_, p) ↦ rw (e, expand_field, p) refl
        ]
      ]

  expand_fields-cons :
      (index : ℕ) (field : Text) (fields : List Text) (bound : ℕ × ℕ) (bounds : List (ℕ × ℕ))
      (r : Option R)
      → error_of (expand_fields draw index (field ∷ fields) (bound ∷ bounds) r).0
        ≡ first_of (error_of (expand_field draw field bound (index == weekday_index) r).0) (
            error_of
              (expand_fields draw
                (suc index)
                fields
                bounds
                (expand_field draw field bound (index == weekday_index) r).1).0)
  unfolding expand_fields
  expand_fields-cons index field fields bound bounds r =
      let first = expand_field draw field bound (index == weekday_index) r in
      elim (Result-cases first.0) [
        | inl (_, e) ↦
            elim (Result-cases (expand_fields draw (suc index) fields bounds first.1).0) [
              | inl (_, f) ↦ rw (e, expand_fields, f) refl
              | inr (_, f) ↦ rw (e, expand_fields, f) refl
            ]
        | inr (_, e) ↦ rw (e, expand_fields) refl
      ]

  expand_fields-error :
      (index : ℕ) (fields : List Text) (bounds : List (ℕ × ℕ)) (r1 r2 : Option R)
      → error_of (expand_fields draw index fields bounds r1).0
        ≡ error_of (expand_fields draw index fields bounds r2).0
  unfolding expand_fields
  expand_fields-error index [] bounds r1 r2 = refl
  expand_fields-error index (field ∷ fields) [] r1 r2 = refl
  expand_fields-error index (field ∷ fields) (bound ∷ bounds) r1 r2 =
      let weekday = index == weekday_index in
      let (f1, n1) = expand_field draw field bound weekday r1 in
      let (f2, n2) = expand_field draw field bound weekday r2 in
      expand_fields-cons index field fields bound bounds r1
      ∙ ap (λ e. first_of e (error_of (expand_fields draw (suc index) fields bounds n1).0))
          (expand_field-error field bound weekday r1 r2)
      ∙ ap (first_of (error_of f2)) (expand_fields-error (suc index) fields bounds n1 n2)
      ∙ sym (expand_fields-cons index field fields bound bounds r2)

  branch-error :
      (b : Bool) (pattern : Text) (x y : Result Text ExpandError × Option R) (r1 r2 : Option R)
      → error_of x.0 ≡ error_of y.0
      → error_of (if b then x else (ok pattern, r1)).0
        ≡ error_of (if b then y else (ok pattern, r2)).0
  branch-error true pattern x y r1 r2 h = h
  branch-error false pattern x y r1 r2 h = refl

  -- A schedule is refused with an error exactly when its widened form is, with the same error,
  -- whatever is drawn.
  pub expand_random-error :
      (pattern : Text) (rng : R)
      → error_of (expand_random draw pattern rng).0 ≡ error_of (widen_random draw pattern)
  unfolding expand_random widen_random expand
  expand_random-error pattern rng =
      branch-error (length (split_whitespace pattern) == field_count) pattern
        (expand_fields draw 0 (split_whitespace pattern) field_bounds (some rng))
        (expand_fields draw 0 (split_whitespace pattern) field_bounds none) (some rng) none
        (expand_fields-error 0 (split_whitespace pattern) field_bounds (some rng) none)
