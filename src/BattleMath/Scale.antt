-- ===== src/BattleMath/Scale.antt =====
-- packages/battle-math/src/scale.ts: fixed-point ratios and points.
pub mod Rounding
pub mod Points
use ponswars.Base.{
  ℕ, suc, ◌*◌, ◌/◌, ◌%◌, ◌∷◌, ◌&&◌, not, Bool, true, false, Result, ok, err, range_error,
  if◌then◌else◌, ◌==◌,
}
use ponswars.Base.Int.{ℤ, pos, negsuc, ◌*ℤ◌, ◌-ℤ◌, negate, quotient, remainder, ltb_ℤ, eqb_ℤ}
use ponswars.Base.Text.{Text}
use ponswars.Base.Decimal.{to_decimal, pad_start}
use ponswars.Shared.Money.{trim_zeros, render}

-- `RATIO_SCALE`: one unit is 1e-6.
abbrev pub ratio_scale : ℕ
ratio_scale = 1_000_000

-- `BATTLE_POINT_SCALE`, which scale.ts passes on as `POINT_SCALE`.
abbrev pub point_scale : ℕ
point_scale = 1_000_000

unfoldable pub points : ℕ → ℕ
points whole = whole * point_scale

unfoldable pub clamp_unit : ℤ → ℤ
clamp_unit scaled =
    if ltb_ℤ (pos ratio_scale) scaled
    then pos ratio_scale
    else if ltb_ℤ scaled (negate (pos ratio_scale))
    then negate (pos ratio_scale)
    else scaled

abbrev bool_ne : Bool → Bool → Bool
bool_ne true b = not b
bool_ne false b = b

-- The quotient of two integers, corrected from truncation to a true floor.
unfoldable pub floor_quotient : ℤ → ℤ → ℤ
floor_quotient scaled denominator =
    if not (eqb_ℤ (remainder scaled denominator) (pos 0))
      && bool_ne (ltb_ℤ scaled (pos 0)) (ltb_ℤ denominator (pos 0))
    then quotient scaled denominator -ℤ pos 1
    else quotient scaled denominator

unfoldable pub div_scaled : ℤ → ℤ → Result ℤ
div_scaled numerator denominator =
    if eqb_ℤ denominator (pos 0)
    then err range_error
    else ok (floor_quotient (numerator *ℤ pos ratio_scale) denominator)

-- `formatPoints`, of a number of points that is not negative.
unfoldable format_point_magnitude : ℕ → Text
unfolding to_decimal pad_start trim_zeros render
format_point_magnitude magnitude =
    render (to_decimal (magnitude / point_scale))
      (trim_zeros (pad_start 6 (to_decimal (magnitude % point_scale))))

unfoldable pub format_points : ℤ → Text
unfolding format_point_magnitude
format_points (pos n) = format_point_magnitude n
format_points (negsuc n) = b'-' ∷ format_point_magnitude (suc n)
