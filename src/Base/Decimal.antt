-- ===== src/Base/Decimal.antt =====
-- The decimal text of a number is read back by `parse`.
use pm.Base.{
  ℕ, zero, suc, ◌+◌, ◌-◌, ◌*◌, ◌/◌, ◌%◌, ◌≤◌, ◌<◌, ◌≡◌, sym, ap, ◌∙◌, true, some, [], ◌∷◌, Text,
  Bool-cases, inl, inr, ltb, ltb→lt, arith,
}
use pm.Base.Chars.{print_digits, print_decimal, parse_digits, parse_unsigned, is_ascii_digit}

parse_digits-digit :
    (limit d acc : ℕ) (out : Text)
    → d < 10
    → acc * 10 + d ≤ limit
    → parse_digits limit ((b'0' + d) ∷ out) acc ≡ parse_digits limit out (acc * 10 + d)
unfolding parse_digits is_ascii_digit
parse_digits-digit limit d acc out h fits =
    let back : b'0' + d - b'0' ≡ d = omega arith in rw back (ground arith)

parse_digits-print_digits :
    (fuel limit n : ℕ) (out : Text)
    → n < fuel
    → n ≤ limit
    → parse_digits limit (print_digits fuel n out) 0 ≡ parse_digits limit out n
unfolding print_digits
parse_digits-print_digits zero limit n out h fits = absurd (omega arith)
parse_digits-print_digits (suc fuel) limit n out h fits = elim (Bool-cases (ltb n 10)) [
  | inl small ↦
      let short : n < 10 = ltb→lt _ _ small in
      rw (small, print_digits)
        (parse_digits-digit limit n 0 out short (omega arith)
          ∙ ap (parse_digits limit out) (omega arith))
  | inr large ↦
      let long : 10 ≤ n = ground arith in
      rw (large, print_digits)
        (parse_digits-print_digits fuel limit (n / 10) ((b'0' + n % 10) ∷ out) (omega arith)
            (omega arith)
          ∙ parse_digits-digit limit (n % 10) (n / 10) out (omega arith) (omega arith)
          ∙ ap (parse_digits limit out) (omega arith))
]

-- The digits begin with a digit.
print_digits-head :
    (fuel n : ℕ) (out : Text)
    → n < fuel
    → (c : ℕ) × (t : Text) × (print_digits fuel n out ≡ c ∷ t) × (is_ascii_digit c ≡ true)
unfolding print_digits is_ascii_digit
print_digits-head zero n out h = absurd (omega arith)
print_digits-head (suc fuel) n out h = elim (Bool-cases (ltb n 10)) [
  | inl small ↦ (b'0' + n, out, rw small, ground arith)
  | inr large ↦
      let long : 10 ≤ n = ground arith in
      let (c, t, e, d) = print_digits-head fuel (n / 10) ((b'0' + n % 10) ∷ out) (omega arith) in
      (c, t, rw large e, d)
]

pub print_decimal-head :
    (n : ℕ) → (c : ℕ) × (t : Text) × (print_decimal n ≡ c ∷ t) × (is_ascii_digit c ≡ true)
unfolding print_decimal
print_decimal-head n = print_digits-head (suc n) n [] (omega arith)

parse_unsigned-digit :
    (limit c : ℕ) (t : Text)
    → is_ascii_digit c ≡ true
    → parse_unsigned limit (c ∷ t) ≡ parse_digits limit (c ∷ t) 0
unfolding parse_unsigned is_ascii_digit
parse_unsigned-digit limit c [] h = ground arith
parse_unsigned-digit limit c (d ∷ t) h = ground arith

pub parse_unsigned-print_decimal :
    (limit n : ℕ) → n ≤ limit → parse_unsigned limit (print_decimal n) ≡ some n
parse_unsigned-print_decimal limit n h =
    let (c, t, e, d) = print_decimal-head n in
    rw e (parse_unsigned-digit limit c t d)
    ∙ ap (λ s. parse_digits limit s 0) (sym e)
    ∙ (unfold print_decimal parse_digits in
        parse_digits-print_digits (suc n) limit n [] (omega arith) h)
