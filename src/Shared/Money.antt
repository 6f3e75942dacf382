-- ===== src/Shared/Money.antt =====
-- packages/shared-types/src/money.ts: exact arithmetic on amounts.
pub mod Sqrt
pub mod Parsing
pub mod Decimals
use mathlib.Core.Logic.{dite}
use mathlib.Core.WellFounded.{Acc}
use ponswars.Base.{
  ℕ, suc, ◌+◌, ◌-◌, ◌*◌, ◌/◌, ◌<◌, ◌&&◌, ◌||◌, not, Bool, true, false, Result, ok, err, range_error,
  type_error, dec_lt, ltb, leb, if◌then◌else◌, ◌==◌, List, [], ◌∷◌, ◌++◌, Option, none, some, any,
  length, take, drop,
}
use ponswars.Base.Int.{ℤ, pos, negsuc}
use ponswars.Base.Order.{lt_wf}
use ponswars.Base.Text.{Text, is_empty}
use ponswars.Base.Decimal.{to_decimal, pad_start, pad_end, all_digits, is_digit, parse_int}

abbrev pub basis_points_denominator : ℕ
basis_points_denominator = 10_000

-- `mulDivFloor` on amounts, which are never negative.
unfoldable pub mul_div_floor : ℕ → ℕ → ℕ → Result ℕ
mul_div_floor amount numerator denominator =
    if denominator == 0 then err range_error else ok (amount * numerator / denominator)

unfoldable pub apply_basis_points : ℕ → ℕ → Result ℕ
apply_basis_points amount bps = mul_div_floor amount bps basis_points_denominator

-- The loop of `integerSqrt`, which runs while `current < previous`.
sqrt_loop : (value previous current : ℕ) → Acc ◌<◌ previous → ℕ
sqrt_loop value previous current (Acc.intro _ smaller) =
    dite (dec_lt current previous)
      (λ h. sqrt_loop value current ((current + value / current) / 2) (smaller current h))
      (λ _. previous)

unfoldable pub sqrt_ℕ : ℕ → ℕ
unfolding sqrt_loop lt_wf dec_lt
sqrt_ℕ value =
    if leb 2 value then sqrt_loop value value ((value + 1) / 2) (lt_wf.apply value) else value

unfoldable pub integer_sqrt : ℤ → Result ℕ
unfolding sqrt_ℕ
integer_sqrt (pos value) = ok (sqrt_ℕ value)
integer_sqrt (negsuc value) = err range_error

unfoldable pub min_amount : ℕ → ℕ → ℕ
min_amount left right = if leb left right then left else right

unfoldable pub sum_amounts : ℕ → List ℕ → ℕ
sum_amounts total [] = total
sum_amounts total (amount ∷ amounts) = sum_amounts (total + amount) amounts

unfoldable pub token_decimals : ℕ → Result ℕ
token_decimals value = if ltb 36 value then err range_error else ok value

unfoldable pub basis_points : ℕ → Result ℕ
basis_points value = if ltb 10_000 value then err range_error else ok value

-- The text in front of the first point, and what follows that point.
unfoldable pub split_point : Text → Text × Option Text
split_point [] = ([], none)
split_point (c ∷ cs) =
    let (whole, fraction) = split_point cs in
    if c == b'.' then ([], some cs) else (c ∷ whole, fraction)

-- `0|[1-9][0-9]*`
unfoldable pub is_whole : Text → Bool
unfolding all_digits is_digit
is_whole [] = false
is_whole (c ∷ cs) = if c == b'0' then is_empty cs else (leb b'1' c && leb c b'9') && all_digits cs

-- `(?:\.([0-9]+))?`, with the empty text for a fraction that is not there.
unfoldable pub fraction_of : Option Text → Option Text
unfolding all_digits
fraction_of none = some []
fraction_of (some fraction) =
    if is_empty fraction || not (all_digits fraction) then none else some fraction

-- `/[1-9]/.test(dropped)`, on digits.
unfoldable pub has_nonzero : Text → Bool
has_nonzero dropped = any (λ c. leb b'1' c && leb c b'9') dropped

-- The digits of a literal in base units.
unfoldable pub base_units_of : Text → Option Text → ℕ → Result ℕ
unfolding has_nonzero pad_end parse_int
base_units_of whole none decimals = err type_error
base_units_of whole (some fraction) decimals =
    if ltb decimals (length fraction) && has_nonzero (drop decimals fraction)
    then err range_error
    else ok (parse_int 0 (whole ++ pad_end decimals (take decimals fraction)))

unfoldable pub parse_decimal_to_base_units : Text → ℕ → Result ℕ
unfolding split_point is_whole fraction_of base_units_of
parse_decimal_to_base_units value decimals =
    let (whole, fraction) = split_point value in
    if is_whole whole then base_units_of whole (fraction_of fraction) decimals else err type_error

-- `replace(/0+$/, '')`
unfoldable pub trim_zeros : Text → Text
trim_zeros [] = []
trim_zeros (c ∷ cs) =
    let rest = trim_zeros cs in if (c == b'0') && is_empty rest then [] else c ∷ rest

unfoldable pub render : Text → Text → Text
render whole [] = whole
render whole (c ∷ cs) = whole ++ (b'.' ∷ (c ∷ cs))

unfoldable pub format_magnitude : ℕ → ℕ → Text
unfolding to_decimal pad_start trim_zeros render
format_magnitude magnitude decimals =
    let digits = pad_start (decimals + 1) (to_decimal magnitude) in
    let whole = take (length digits - decimals) digits in
    let fraction =
      if decimals == 0 then [] else trim_zeros (drop (length digits - decimals) digits) in
    render whole fraction

unfoldable pub format_base_units : ℤ → ℕ → Text
unfolding format_magnitude
format_base_units (pos amount) decimals = format_magnitude amount decimals
format_base_units (negsuc n) decimals = b'-' ∷ format_magnitude (suc n) decimals
