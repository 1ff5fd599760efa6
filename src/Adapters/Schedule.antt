-- ===== src/Adapters/Schedule.antt =====
-- adapters/src/schedule/random_expand.rs: the random fields of a schedule. The random generator is a
-- parameter: `draw low high` is a number between the two, and the generator after it.
mod Examples
pub mod Agrees
pub mod Drawn
use pm.Base.{
  ℕ, zero, suc, ◌+◌, ◌-◌, ◌||◌, ◌&&◌, Bool, true, false, Option, none, some, List, [], ◌∷◌, ◌++◌,
  length, min, Text, codes, concat, is_whitespace, parse_unsigned, print_decimal, saturating_add,
  max_u32, Result, ok, err, ◌==◌, ltb, if◌then◌else◌, is_empty,
}

pub data ExpandError : Type 0 where
  zero_step inverted_range malformed : (field : Text) → ExpandError
  out_of_range : (field : Text) (low high : ℕ) → ExpandError

abbrev pub field_count : ℕ
field_count = 5

abbrev pub field_bounds : List (ℕ × ℕ)
field_bounds = (0, 59) ∷ (0, 23) ∷ (1, 31) ∷ (1, 12) ∷ (0, 7) ∷ []

abbrev pub weekday_index : ℕ
weekday_index = 4

abbrev pub sunday_alias : ℕ
sunday_alias = 7

abbrev pub random_mark : ℕ
random_mark = b'~'

abbrev pub step_mark : ℕ
step_mark = b'/'

-- `str::split_once`
unfoldable pub split_once : ℕ → Text → Option (Text × Text)
split_once mark [] = none
split_once mark (c ∷ text) =
    let rest : Option (Text × Text) = elim (split_once mark text) [
      | none ↦ none
      | some (before, after) ↦ some (c ∷ before, after)
    ] in
    if c == mark then some ([], text) else rest

-- A word that ends here, in front of the words behind it.
abbrev pub add_word : Text → List Text → List Text
add_word [] words = words
add_word (c ∷ word) words = (c ∷ word) ∷ words

-- `str::split_whitespace`: the word that the text begins with, and the words behind it.
unfoldable pub split_words : Text → Text × List Text
split_words [] = ([], [])
split_words (c ∷ text) =
    let (word, words) = split_words text in
    if is_whitespace c then ([], add_word word words) else (c ∷ word, words)

unfoldable pub split_whitespace : Text → List Text
unfolding split_words
split_whitespace text = let (word, words) = split_words text in add_word word words

unfoldable pub normalise_weekday : ℕ → Bool → ℕ
normalise_weekday value weekday = if weekday && value == sunday_alias then 0 else value

-- `split_step` past the parser: the step 0 is refused.
unfoldable pub some_step : Text → Text → ℕ → Result (Text × Option ℕ) ExpandError
some_step field high n = if n == 0 then err (zero_step field) else ok (high, some n)

unfoldable pub split_step : Text → Text → Result (Text × Option ℕ) ExpandError
split_step field tail = elim (split_once step_mark tail) [
  | none ↦ ok (tail, none)
  | some (high, step) ↦ elim (parse_unsigned max_u32 step) [
    | none ↦ err (malformed field)
    | some n ↦ some_step field high n
  ]
]

unfoldable pub parse_bound : Text → Text → ℕ → Result ℕ ExpandError
parse_bound field text fallback = elim (parse_unsigned max_u32 text) [
  | none ↦ if is_empty text then ok fallback else err (malformed field)
  | some n ↦ if is_empty text then ok fallback else ok n
]

-- The checks of `parse_bounds` on what was parsed.
unfoldable pub check_bounds : Text → (low high : ℕ) → ℕ × ℕ → Result (ℕ × ℕ) ExpandError
check_bounds field low high (low_bound, high_bound) =
    if ltb high low
    then err (inverted_range field)
    else if ltb low low_bound || ltb high_bound high
    then err (out_of_range field low_bound high_bound)
    else ok (low, high)

unfoldable pub parse_bounds :
    Text → (low_text high_text : Text) → ℕ × ℕ → Result (ℕ × ℕ) ExpandError
unfolding check_bounds
parse_bounds field low_text high_text bounds = elim (parse_bound field low_text bounds.0) [
  | err e ↦ err e
  | ok low ↦ elim (parse_bound field high_text bounds.1) [
    | err e ↦ err e
    | ok high ↦ check_bounds field low high bounds
  ]
]

-- `Ok` of a range and an optional step, from the text of a field.
unfoldable pub parse_random : Text → Text × Text → ℕ × ℕ → Result (ℕ × ℕ × Option ℕ) ExpandError
parse_random field (low_text, tail) bounds = elim (split_step field tail) [
  | err e ↦ err e
  | ok (high_text, step) ↦ elim (parse_bounds field low_text high_text bounds) [
    | err e ↦ err e
    | ok (low, high) ↦ ok (low, high, step)
  ]
]

module _ {R : Type 0} (draw : (low high : ℕ) → R → ℕ × R) where
  -- The text of a range, without a generator or with one.
  unfoldable pub render :
      (low high : ℕ) → (step : Option ℕ) → (weekday : Bool) → Option R → Text × Option R
  unfolding normalise_weekday concat
  render low high step weekday none =
      (concat (print_decimal low ∷ codes "-" ∷ print_decimal high ∷ []), none)
  render low high none weekday (some rng) =
      let (value, rng') = draw low high rng in
      (print_decimal (normalise_weekday value weekday), some rng')
  render low high (some step) weekday (some rng) =
      let (value, rng') = draw 0 (step - 1) rng in
      let offset = min (saturating_add max_u32 low value) high in
      (
        concat (
            print_decimal offset
            ∷ codes "-"
            ∷ print_decimal high
            ∷ codes "/"
            ∷ print_decimal step
            ∷ []),
        some rng',
      )

  unfoldable pub expand_field :
      Text → ℕ × ℕ → (weekday : Bool) → Option R → Result Text ExpandError × Option R
  expand_field field bounds weekday rng = elim (split_once random_mark field) [
    | none ↦ (ok field, rng)
    | some parts ↦ elim (parse_random field parts bounds) [
      | err e ↦ (err e, rng)
      | ok (low, high, step) ↦
          let (text, rng') = render low high step weekday rng in (ok text, rng')
    ]
  ]

  -- The loop over the fields, from an index on: the text of the fields, each with the separator in
  -- front of it.
  unfoldable pub expand_fields :
      (index : ℕ) → List Text → List (ℕ × ℕ) → Option R → Result Text ExpandError × Option R
  expand_fields index [] bounds rng = (ok [], rng)
  expand_fields index (field ∷ fields) [] rng = (ok [], rng)
  expand_fields index (field ∷ fields) (bound ∷ bounds) rng =
      let (expanded, rng') = expand_field field bound (index == weekday_index) rng in
      let (rest, rng'') = expand_fields (suc index) fields bounds rng' in
      elim expanded [
        | err e ↦ (err e, rng')
        | ok text ↦ elim rest [
          | err e ↦ (err e, rng'')
          | ok texts ↦ (ok ((if index == 0 then text else codes " " ++ text) ++ texts), rng'')
        ]
      ]

  unfoldable pub expand : Text → Option R → Result Text ExpandError × Option R
  unfolding split_whitespace
  expand pattern rng =
      let fields = split_whitespace pattern in
      if length fields == field_count
      then expand_fields 0 fields field_bounds rng
      else (ok pattern, rng)

  unfoldable pub expand_random : Text → R → Result Text ExpandError × Option R
  expand_random pattern rng = expand pattern (some rng)

  unfoldable pub widen_random : Text → Result Text ExpandError
  widen_random pattern = (expand pattern none).0
