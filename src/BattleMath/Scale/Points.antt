-- ===== src/BattleMath/Scale/Points.antt =====
-- Scaled points as decimal texts (`formatPoints` in packages/battle-math/src/scale.ts).
use ponswars.Base.{
  ℕ, ◌+◌, ◌-◌, ◌*◌, ◌/◌, ◌%◌, ◌<◌, ◌≡◌, ap, ◌∙◌, true, [], length, length-append, ok, arith,
}
use ponswars.Base.Text.{Text}
use ponswars.Base.Int.{pos}
use ponswars.Base.Decimal.{digits_from, to_decimal, zeros, pad_start, all_digits, parse_int}
use ponswars.Base.Decimal.Digits.{
  parse_int-digits_from, all_digits-digits_from, all_digits-nil, length-digits_from-le,
  length-zeros, parse_int-zeros, all_digits-zeros, parse_int-append, parse_int_from, ten_to,
}
use ponswars.Shared.Money.{parse_decimal_to_base_units}
use ponswars.Shared.Money.Parsing.{parse_trimmed, is_whole-to_decimal}
use ponswars.BattleMath.Scale.{format_points, format_point_magnitude}

parse_int-to_decimal : (n : ℕ) → parse_int 0 (to_decimal n) ≡ n
unfolding to_decimal parse_int
parse_int-to_decimal n = parse_int-digits_from n n [] (omega arith)

all_digits-to_decimal : (n : ℕ) → all_digits (to_decimal n) ≡ true
unfolding to_decimal
all_digits-to_decimal n = all_digits-digits_from n n [] all_digits-nil

-- The six digits of a number below a million.
abbrev six : ℕ → Text
six n = pad_start 6 (to_decimal n)

length-six : (n : ℕ) → n < 1_000_000 → length (six n) ≡ 6
unfolding pad_start to_decimal
length-six n h =
    let t = digits_from n n [] in
    omega (
      arith,
      length-append (zeros (6 - length t)) t,
      length-zeros (6 - length t),
      length-digits_from-le n n 5 [] h,
    )

all_digits-six : (n : ℕ) → all_digits (six n) ≡ true
unfolding pad_start to_decimal
all_digits-six n =
    all_digits-zeros (6 - length (digits_from n n [])) (digits_from n n [])
      (all_digits-digits_from n n [] all_digits-nil)

parse_int-six : (n : ℕ) → parse_int 0 (six n) ≡ n
unfolding pad_start to_decimal parse_int
parse_int-six n =
    parse_int-zeros (6 - length (digits_from n n [])) (digits_from n n [])
    ∙ parse_int-digits_from n n [] (omega arith)

-- Points that are rendered are read back as themselves, with the six decimals of the scale.
pub parse_decimal-format_points :
    (n : ℕ) → parse_decimal_to_base_units (format_points (pos n)) 6 ≡ ok n
unfolding format_points format_point_magnitude
parse_decimal-format_points n =
    let w = n / 1_000_000 in
    let r = n % 1_000_000 in
    let f = six r in
    let l = length-six r (omega arith) in
    parse_trimmed 6 (to_decimal w) f (is_whole-to_decimal w) (all_digits-to_decimal w)
      (all_digits-six r) l
    ∙ ap ok (
        parse_int-append 0 (to_decimal w) f
        ∙ ap (λ v. parse_int v f) (parse_int-to_decimal w)
        ∙ parse_int_from w f
        ∙ ap (λ (k : ℕ). w * ten_to k + parse_int 0 f) l
        ∙ omega (arith, parse_int-six r))
