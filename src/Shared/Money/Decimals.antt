-- ===== src/Shared/Money/Decimals.antt =====
-- Amounts as decimal texts (`formatBaseUnits` and `parseDecimalToBaseUnits` in
-- packages/shared-types/src/money.ts).
use ponswars.Base.{
  ℕ, zero, suc, ◌+◌, ◌-◌, ◌≤◌, ◌==◌, ◌≡◌, refl, ap, ◌∙◌, true, false, Bool-cases, inl, inr, [], ◌∷◌,
  ◌++◌, length, length-append, leb, arith, take, drop, ok, if◌then◌else◌,
}
use ponswars.Base.Text.{Text}
use ponswars.Base.Int.{pos}
use ponswars.Base.Decimal.{digits_from, to_decimal, zeros, pad_start, all_digits, parse_int}
use ponswars.Base.Decimal.Digits.{
  parse_int-digits_from, all_digits-digits_from, all_digits-nil, length-zeros, parse_int-zeros,
  all_digits-zeros,
}
use ponswars.Shared.Money.{
  parse_decimal_to_base_units, format_base_units, is_whole, trim_zeros, render, format_magnitude,
}
use ponswars.Shared.Money.Parsing.{
  take-drop, length-take, all_digits-append, IsLed, IsLed-take, is_whole_of, digits_from-IsLed,
  parse_trimmed,
}

-- The digits of an amount: a whole part and as many decimals as the token has.
abbrev padded : ℕ → ℕ → Text
padded d m = pad_start (d + 1) (to_decimal m)

length-padded : (d m : ℕ) → d + 1 ≤ length (padded d m)
unfolding pad_start
length-padded d m =
    let t = to_decimal m in
    omega (arith, length-append (zeros (d + 1 - length t)) t, length-zeros (d + 1 - length t))

all_digits-padded : (d m : ℕ) → all_digits (padded d m) ≡ true
unfolding pad_start to_decimal
all_digits-padded d m =
    all_digits-zeros (d + 1 - length (digits_from m m [])) _
      (all_digits-digits_from m m [] all_digits-nil)

parse_int-padded : (d m : ℕ) → parse_int 0 (padded d m) ≡ m
unfolding pad_start to_decimal parse_int
parse_int-padded d m =
    parse_int-zeros (d + 1 - length (digits_from m m [])) _
    ∙ parse_int-digits_from m m [] (omega arith)

-- Digits in front of which no zero is put.
padded-IsLed : (d m : ℕ) → d + 2 ≤ length (padded d m) → IsLed (padded d m)
unfolding pad_start to_decimal zeros
padded-IsLed d zero h =
    absurd (omega (arith, length-append (zeros (d + 1 - 1)) (48 ∷ []), length-zeros (d + 1 - 1)))
padded-IsLed d (suc m) h =
    let t = digits_from (suc m) (suc m) [] in
    let l = length-append (zeros (d + 1 - length t)) t in
    let e : d + 1 - length t ≡ 0 = omega (arith, l, length-zeros (d + 1 - length t)) in
    rw e (digits_from-IsLed (suc m) (suc m) [] (omega arith) (omega arith))

abbrev whole_part : ℕ → ℕ → Text
whole_part d m = take (length (padded d m) - d) (padded d m)

abbrev fraction_part : ℕ → ℕ → Text
fraction_part d m = drop (length (padded d m) - d) (padded d m)

parts : (d m : ℕ) → whole_part d m ++ fraction_part d m ≡ padded d m
parts d m = take-drop (length (padded d m) - d) (padded d m)

length-whole_part : (d m : ℕ) → length (whole_part d m) ≡ length (padded d m) - d
length-whole_part d m = length-take (length (padded d m) - d) (padded d m) (omega arith)

length-fraction_part : (d m : ℕ) → length (fraction_part d m) ≡ d
length-fraction_part d m =
    let l = length-append (whole_part d m) (fraction_part d m) in
    omega (arith, l, ap (length {A = ℕ}) (parts d m), length-whole_part d m, length-padded d m)

all_digits-parts :
    (d m : ℕ) → (all_digits (whole_part d m) ≡ true) × (all_digits (fraction_part d m) ≡ true)
all_digits-parts d m =
    all_digits-append (whole_part d m) (fraction_part d m) (rw (parts d m) (all_digits-padded d m))

is_whole-whole_part : (d m : ℕ) → is_whole (whole_part d m) ≡ true
is_whole-whole_part d m = elim (Bool-cases (leb (d + 2) (length (padded d m)))) [
  | inl e ↦ is_whole_of _ (all_digits-parts d m).0 (
      inr (
        IsLed-take _ (padded d m) (ground arith) (padded-IsLed d m (ground arith)),
        ground (arith, length-whole_part d m),
      ))
  | inr e ↦
      is_whole_of _ (all_digits-parts d m).0
        (inl (ground (arith, length-whole_part d m, length-padded d m)))
]

-- A token without decimals has no fraction.
trim-fraction_part :
    (d m : ℕ)
    → (if d == 0 then [] else trim_zeros (fraction_part d m)) ≡ trim_zeros (fraction_part d m)
unfolding trim_zeros
trim-fraction_part zero m = empty_of (fraction_part 0 m) (length-fraction_part 0 m)
  where
    empty_of : (f : Text) → length f ≡ 0 → [] ≡ trim_zeros f
    empty_of [] h = refl
    empty_of (c ∷ cs) h = absurd (omega arith)
trim-fraction_part (suc d) m = let n : (suc d == 0) ≡ false = ground arith in rw n refl

-- An amount that is not negative, formatted with the decimals of a token and read again with these, is
-- the amount.
pub parse_decimal-format :
    (amount decimals : ℕ)
    → parse_decimal_to_base_units (format_base_units (pos amount) decimals) decimals ≡ ok amount
unfolding format_base_units format_magnitude
parse_decimal-format m d =
    let w = whole_part d m in
    let f = fraction_part d m in
    let (a, b) = all_digits-parts d m in
    ap (λ (t : Text). parse_decimal_to_base_units (render w t) d) (trim-fraction_part d m)
    ∙ parse_trimmed d w f (is_whole-whole_part d m) a b (length-fraction_part d m)
    ∙ ap (λ (t : Text). ok (parse_int 0 t)) (parts d m)
    ∙ ap (λ (n : ℕ). ok n) (parse_int-padded d m)
