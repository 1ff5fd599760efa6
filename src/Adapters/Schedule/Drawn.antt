-- ===== src/Adapters/Schedule/Drawn.antt =====
-- What is drawn for a random field lies in its range.
use pm.Base.{
  ℕ, ◌+◌, ◌-◌, ◌==◌, ap, ◌∙◌, Bool-cases, ◌≤◌, ◌<◌, ◌≡◌, ◌⊎◌, inl, inr, refl, subst, Option, none,
  some, Option-cases, [], ◌∷◌, Text, codes, concat, print_decimal, min, Result, ok, err,
  Result-cases, Bool, saturating_add, max_u32, parse_unsigned, arith,
}
use pm.Adapters.Schedule.{
  ExpandError, malformed, zero_step, random_mark, step_mark, split_once, split_step, some_step,
  parse_bounds, parse_bound, check_bounds, parse_random, render, expand_field, normalise_weekday,
}

-- Within the bounds of the field.
pub record InRange (bounds : ℕ × ℕ) (low high : ℕ) : Type 0 where
  pub above : bounds.0 ≤ low
  pub ordered : low ≤ high
  pub below : high ≤ bounds.1

-- The number of a bound: the fallback where its text is empty, else what the text is parsed to.
abbrev pub IsRead : (fallback : ℕ) (text : Text) → ℕ → Type 0
IsRead fallback text n = ((text ≡ []) × (n ≡ fallback)) ⊎ (parse_unsigned max_u32 text ≡ some n)

-- A field has no step where there is no step mark behind its random mark; else its step is the
-- number behind the step mark, and not 0.
abbrev pub HasStep : (tail high_text : Text) → Option ℕ → Type 0
HasStep tail high_text none = (split_once step_mark tail ≡ none) × (high_text ≡ tail)
HasStep tail high_text (some step) =
    (step_text : Text) × (split_once step_mark tail ≡ some (high_text, step_text))
    × (parse_unsigned max_u32 step_text ≡ some step)
    × (0 < step)

-- A range, and maybe a step, that the two parts of a field around its random mark declare.
pub record Declares (parts : Text × Text) (bounds : ℕ × ℕ) (low high : ℕ) (step : Option ℕ)
    : Type 0 where
  pub high_text : Text
  pub has_low : IsRead bounds.0 parts.0 low
  pub has_high : IsRead bounds.1 high_text high
  pub has_step : HasStep parts.1 high_text step
  pub in_range : InRange bounds low high

abbrev from_ok {ℓ} : {A : Type ℓ} → A → Result A ExpandError → A
from_ok default (ok a) = a
from_ok default (err e) = default

check_bounds-InRange :
    (field : Text) (l h low high : ℕ) (bounds : ℕ × ℕ)
    → check_bounds field l h bounds ≡ ok (low, high)
    → InRange bounds low high × (l ≡ low) × (h ≡ high)
unfolding check_bounds
check_bounds-InRange field l h low high bounds e = (
  record { above = ground (arith, e); ordered = ground (arith, e); below = ground (arith, e) },
  ground (arith, e),
  ground (arith, e),
)

parse_bound-IsRead :
    (field text : Text) (fallback n : ℕ)
    → parse_bound field text fallback ≡ ok n
    → IsRead fallback text n
unfolding parse_bound parse_unsigned
parse_bound-IsRead field [] fallback n h = inl (refl, ground (arith, h))
parse_bound-IsRead field (c ∷ text) fallback n h =
    elim (Option-cases (parse_unsigned max_u32 (c ∷ text))) [
      | inl e ↦
          let h' : Path (Result ℕ ExpandError) (err (malformed field)) (ok n) =
            rw (e, parse_bound) at h in
          absurd (ground (arith, h'))
      | inr (m, e) ↦
          let h' : Path (Result ℕ ExpandError) (ok m) (ok n) = rw (e, parse_bound) at h in
          inr (e ∙ ap some (ground (arith, h')))
    ]

-- What `parse_bounds` reads from the texts of the two bounds.
abbrev HasRange : (low_text high_text : Text) (bounds : ℕ × ℕ) (low high : ℕ) → Type 0
HasRange low_text high_text bounds low high =
    IsRead bounds.0 low_text low × IsRead bounds.1 high_text high × InRange bounds low high

parse_bounds-HasRange :
    (field low_text high_text : Text) (low high : ℕ) (bounds : ℕ × ℕ)
    → parse_bounds field low_text high_text bounds ≡ ok (low, high)
    → HasRange low_text high_text bounds low high
unfolding parse_bounds
parse_bounds-HasRange field low_text high_text low high bounds h =
    elim (Result-cases (parse_bound field low_text bounds.0)) [
      | inr (e, p) ↦
          let h' : Path (Result (ℕ × ℕ) ExpandError) (err e) (ok (low, high)) =
            rw (p, parse_bounds) at h in
          absurd (ground (arith, h'))
      | inl (l, p) ↦ elim (Result-cases (parse_bound field high_text bounds.1)) [
        | inr (e, q) ↦
            let h' : Path (Result (ℕ × ℕ) ExpandError) (err e) (ok (low, high)) =
              rw (p, parse_bounds, q) at h in
            absurd (ground (arith, h'))
        | inl (k, q) ↦
            let h' : check_bounds field l k bounds ≡ ok (low, high) =
              rw (p, parse_bounds, q) at h in
            let (range, same_low, same_high) = check_bounds-InRange field l k low high bounds h' in
            (
              subst (IsRead bounds.0 low_text) same_low
                  (parse_bound-IsRead field low_text bounds.0 l p),
              subst (IsRead bounds.1 high_text) same_high
                  (parse_bound-IsRead field high_text bounds.1 k q),
              range,
            )
      ]
    ]

some_step-HasStep :
    (field tail before after text : Text) (n : ℕ) (step : Option ℕ)
    → split_once step_mark tail ≡ some (before, after)
    → parse_unsigned max_u32 after ≡ some n
    → some_step field before n ≡ ok (text, step)
    → HasStep tail text step
unfolding some_step
some_step-HasStep field tail before after text n step e p h = elim (Bool-cases (n == 0)) [
  | inl zero_given ↦
      let h' : Path (Result (Text × Option ℕ) ExpandError) (err (zero_step field))
          (ok (text, step)) =
        rw (zero_given, some_step) at h in
      absurd (ground (arith, h'))
  | inr positive ↦
      let h' : Path (Result (Text × Option ℕ) ExpandError) (ok (before, some n)) (ok (text, step)) =
        rw (positive, some_step) at h in
      subst (λ q. HasStep tail q.0 q.1) (ap (from_ok (before, some n)) h')
        (after, e, p, ground arith)
]

split_step-HasStep :
    (field tail text : Text) (step : Option ℕ)
    → split_step field tail ≡ ok (text, step)
    → HasStep tail text step
unfolding split_step
split_step-HasStep field tail text step h = elim (Option-cases (split_once step_mark tail)) [
  | inl e ↦
      let h' : Path (Result (Text × Option ℕ) ExpandError) (ok (tail, none)) (ok (text, step)) =
        rw (e, split_step) at h in
      subst (λ q. HasStep tail q.0 q.1) (ap (from_ok (tail, none)) h') (e, refl)
  | inr ((before, after), e) ↦ elim (Option-cases (parse_unsigned max_u32 after)) [
    | inl p ↦
        let h' : Path (Result (Text × Option ℕ) ExpandError) (err (malformed field))
            (ok (text, step)) =
          rw (e, split_step, p) at h in
        absurd (ground (arith, h'))
    | inr (n, p) ↦
        let h' : some_step field before n ≡ ok (text, step) = rw (e, split_step, p) at h in
        some_step-HasStep field tail before after text n step e p h'
  ]
]

parse_random-Declares :
    (field : Text) (parts : Text × Text) (bounds : ℕ × ℕ) (low high : ℕ) (step : Option ℕ)
    → parse_random field parts bounds ≡ ok (low, high, step)
    → Declares parts bounds low high step
unfolding parse_random
parse_random-Declares field parts bounds low high step h =
    elim (Result-cases (split_step field parts.1)) [
      | inr (e, p) ↦
          let h' : Path (Result (ℕ × ℕ × Option ℕ) ExpandError) (err e) (ok (low, high, step)) =
            rw (p, parse_random) at h in
          absurd (ground (arith, h'))
      | inl ((text, s), p) ↦ elim (Result-cases (parse_bounds field parts.0 text bounds)) [
        | inr (e, q) ↦
            let h' : Path (Result (ℕ × ℕ × Option ℕ) ExpandError) (err e) (ok (low, high, step)) =
              rw (p, parse_random, q) at h in
            absurd (ground (arith, h'))
        | inl ((l, k), q) ↦
            let h' : Path (Result (ℕ × ℕ × Option ℕ) ExpandError) (ok (l, k, s))
                (ok (low, high, step)) =
              rw (p, parse_random, q) at h in
            let (low_read, high_read, range) =
              parse_bounds-HasRange field parts.0 text l k bounds q in
            subst (λ t. Declares parts bounds t.0 t.1 t.2) (ap (from_ok (l, k, s)) h')
              (record {
                high_text = text;
                has_low = low_read;
                has_high = high_read;
                has_step = split_step-HasStep field parts.1 text s p;
                in_range = range;
              })
      ]
    ]

module _ {R : Type 0} (draw : (low high : ℕ) → R → ℕ × R) where
  -- A number that is drawn lies between the two.
  pub record IsUniform : Type 0 where
    pub within :
        (low high : ℕ) (rng : R)
        → low ≤ high
        → (low ≤ (draw low high rng).0) × ((draw low high rng).0 ≤ high)

  -- The text of a value of the range, or, where there is a step, of a range with this step that
  -- starts inside it, and less than a step behind its beginning.
  abbrev pub IsDrawn : (low high : ℕ) → Bool → Option ℕ → Text → Type 0
  IsDrawn low high weekday none text =
      (value : ℕ) × (low ≤ value)
      × (value ≤ high)
      × (text ≡ print_decimal (normalise_weekday value weekday))
  IsDrawn low high weekday (some step) text =
      (offset : ℕ) × (low ≤ offset)
      × (offset ≤ high)
      × (offset < low + step)
      × (text
          ≡ concat (
              print_decimal offset
              ∷ codes "-"
              ∷ print_decimal high
              ∷ codes "/"
              ∷ print_decimal step
              ∷ []))

  render-IsDrawn :
      IsUniform
      → (parts : Text × Text) (bounds : ℕ × ℕ) (low high : ℕ) (step : Option ℕ) (weekday : Bool)
        (rng : R)
      → bounds.1 ≤ max_u32
      → Declares parts bounds low high step
      → IsDrawn low high weekday step (render draw low high step weekday (some rng)).0
  unfolding render
  render-IsDrawn uniform parts bounds low high none weekday rng fits d =
      let (above, below) = uniform.within low high rng d.in_range.ordered in
      ((draw low high rng).0, above, below, refl)
  render-IsDrawn uniform parts bounds low high (some step) weekday rng fits d =
      let value = (draw 0 (step - 1) rng).0 in
      let (above, drawn) = uniform.within 0 (step - 1) rng (omega arith) in
      let ordered = d.in_range.ordered in
      let below = d.in_range.below in
      let positive = d.has_step.3 in
      let offset_low : low ≤ min (saturating_add max_u32 low value) high = ground arith in
      let offset_high : min (saturating_add max_u32 low value) high ≤ high = omega arith in
      let offset_step : min (saturating_add max_u32 low value) high < low + step = ground arith in
      (min (saturating_add max_u32 low value) high, offset_low, offset_high, offset_step, refl)

  -- A random field that is accepted declares a range within the bounds of its field, by the numbers
  -- around its random mark or, where one is left out, by the bound, and a positive step where it has
  -- a step mark. Widened, it is that range; expanded, it is a value of the range, with 7 for a
  -- weekday read as 0, or, when it has a step, a range with this step up to the same end that starts
  -- inside it, and less than a step behind its beginning.
  pub expand_field-IsDrawn :
      IsUniform
      → (field : Text) (parts : Text × Text) (bounds : ℕ × ℕ) (weekday : Bool) (rng : R)
        (text : Text)
      → bounds.1 ≤ max_u32
      → split_once random_mark field ≡ some parts
      → (expand_field draw field bounds weekday (some rng)).0 ≡ ok text
      → (low : ℕ) × (high : ℕ) × (step : Option ℕ) × Declares parts bounds low high step
        × ((expand_field draw field bounds weekday none).0
            ≡ ok (concat (print_decimal low ∷ codes "-" ∷ print_decimal high ∷ [])))
        × IsDrawn low high weekday step text
  unfolding expand_field render
  expand_field-IsDrawn uniform field parts bounds weekday rng text fits found h =
      elim (Result-cases (parse_random field parts bounds)) [
        | inr (e, p) ↦
            let h' : Path (Result Text ExpandError) (err e) (ok text) =
              rw (found, expand_field, p) at h in
            absurd (ground (arith, h'))
        | inl ((low, high, step), p) ↦
            let d = parse_random-Declares field parts bounds low high step p in
            let drawn = (render draw low high step weekday (some rng)).0 in
            let h' : Path (Result Text ExpandError) (ok drawn) (ok text) =
              rw (found, expand_field, p) at h in
            (
              low,
              high,
              step,
              d,
              rw (found, expand_field, p) refl,
              subst (IsDrawn low high weekday step) (ap (from_ok drawn) h')
                  (render-IsDrawn uniform parts bounds low high step weekday rng fits d),
            )
      ]
