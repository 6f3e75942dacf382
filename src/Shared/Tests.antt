-- ===== src/Shared/Tests.antt =====
-- Concrete values.
use ponswars.Base.{ok, ◌≡◌}
use ponswars.Base.Int.{pos}
use ponswars.Shared.Money.{integer_sqrt, parse_decimal_to_base_units, format_base_units}
use ponswars.Shared.Money.Decimals.{parse_decimal-format}
use ponswars.Shared.Money.Sqrt.{IsRootOf, integer_sqrt-IsRootOf}

root_example : IsRootOf (pos 1_000_000_007) (integer_sqrt (pos 1_000_000_007))
root_example = integer_sqrt-IsRootOf (pos 1_000_000_007)

amount_example : parse_decimal_to_base_units (format_base_units (pos 1_020_300) 5) 5 ≡ ok 1_020_300
amount_example = parse_decimal-format 1_020_300 5
