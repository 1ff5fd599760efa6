-- ===== src/Adapters/Schedule/Examples.antt =====
-- Random schedules, with a generator that draws the lowest number.
use pm.Base.{
  Option, ℕ, false, ◌≡◌, refl, none, [], ◌∷◌, codes, ok, err, concat, print_decimal, is_whitespace,
  parse_unsigned, arith,
}
use pm.Adapters.Schedule.{
  expand_field, expand_random, widen_random, split_once, expand, expand_fields, parse_random,
  render, split_step, some_step, parse_bound, parse_bounds, inverted_range,
}
use pm.Adapters.Schedule.Agrees.{error_of, expand_random-error}
use pm.Adapters.Schedule.Drawn.{IsUniform, Declares, IsDrawn, expand_field-IsDrawn}

abbrev lowest : ℕ → ℕ → ℕ → ℕ × ℕ
lowest low high rng = (low, rng)

widen_random-hour : widen_random lowest (codes "5 ~9 * * ~") ≡ ok (codes "5 0-9 * * 0-7")
unfolding widen_random expand is_whitespace expand_fields expand_field split_once parse_random
    split_step parse_bounds parse_bound parse_unsigned render print_decimal
widen_random-hour = refl

expand_random-inverted :
    (expand_random lowest (codes "5 9~3 * * *") 0).0 ≡ err (inverted_range (codes "9~3"))
unfolding expand_random expand is_whitespace expand_fields expand_field split_once parse_random
    split_step parse_bounds parse_bound parse_unsigned
expand_random-inverted = refl

expand_random-error_example :
    error_of (expand_random lowest (codes "5 9~3 * * *") 0).0
    ≡ error_of (widen_random lowest (codes "5 9~3 * * *"))
expand_random-error_example = expand_random-error lowest (codes "5 9~3 * * *") 0

lowest-IsUniform : IsUniform lowest
lowest-IsUniform = record { within = λ low high rng ordered. (omega arith, ordered) }

expand_field-IsDrawn_example :
    (low : ℕ) × (high : ℕ) × (step : Option ℕ) × Declares
      (codes "5", codes "20/4")
      (0, 59)
      low
      high
      step
    × ((expand_field lowest (codes "5~20/4") (0, 59) false none).0
        ≡ ok (concat (print_decimal low ∷ codes "-" ∷ print_decimal high ∷ [])))
    × IsDrawn lowest low high false step (codes "5-20/4")
unfolding expand_field split_once parse_random split_step parse_unsigned some_step parse_bounds
    parse_bound render print_decimal
expand_field-IsDrawn_example =
    expand_field-IsDrawn lowest lowest-IsUniform (codes "5~20/4") (codes "5", codes "20/4") (0, 59)
      false 0 (codes "5-20/4") (omega arith) refl refl
