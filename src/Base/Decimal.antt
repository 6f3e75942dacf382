-- ===== src/Base/Decimal.antt =====
-- Natural numbers in decimal digits (`toString`, `parseInt`, `padStart`, `padEnd`).
pub mod Digits
use ponswars.Base.Text.{Text}
use ponswars.Base.{
  ℕ, zero, suc, ◌+◌, ◌-◌, ◌*◌, ◌/◌, ◌%◌, ◌&&◌, Bool, true, false, [], ◌∷◌, ◌++◌, length, ltb, leb,
  if◌then◌else◌,
}

-- `index.toString()`, the digits from the last one, with a unit of fuel for each digit but the last.
unfoldable pub digits_from : ℕ → ℕ → Text → Text
digits_from zero n rest = (b'0' + n % 10) ∷ rest
digits_from (suc fuel) n rest =
    let more = digits_from fuel (n / 10) ((b'0' + n % 10) ∷ rest) in
    if ltb n 10 then (b'0' + n % 10) ∷ rest else more

unfoldable pub to_decimal : ℕ → Text
unfolding digits_from
to_decimal n = digits_from n n []

-- `padStart(width, '0')`
unfoldable pub zeros : ℕ → Text
zeros zero = []
zeros (suc n) = b'0' ∷ zeros n

unfoldable pub pad_start : ℕ → Text → Text
unfolding zeros
pad_start width text = zeros (width - length text) ++ text

unfoldable pub is_digit : ℕ → Bool
is_digit c = leb b'0' c && leb c b'9'

unfoldable pub all_digits : Text → Bool
unfolding is_digit
all_digits [] = true
all_digits (c ∷ cs) = is_digit c && all_digits cs

-- `Number.parseInt` of digits.
unfoldable pub parse_int : ℕ → Text → ℕ
parse_int value [] = value
parse_int value (c ∷ cs) = parse_int (10 * value + (c - b'0')) cs

-- `padEnd(width, '0')`
unfoldable pub pad_end : ℕ → Text → Text
unfolding zeros
pad_end width text = text ++ zeros (width - length text)
