-- ===== src/BattleMath/Scheduler/Names.antt =====
-- The names of rounds (`roundIdFor` and `roundIndexOf` in packages/battle-math/src/scheduler.ts).
use ponswars.Base.{
  ℕ, ◌-◌, ◌≤◌, ◌<◌, ◌==◌, ◌≡◌, refl, ◌∙◌, true, false, [], none, some, length, length-append, arith,
}
use ponswars.Base.Text.{Text, is_empty, after_prefix}
use ponswars.Base.Decimal.{digits_from, to_decimal, zeros, pad_start, all_digits, parse_int}
use ponswars.Base.Decimal.Digits.{
  parse_int-digits_from, all_digits-nil, all_digits-digits_from, length-digits_from-le,
  length-digits_from-ge, length-zeros, parse_int-zeros, all_digits-zeros,
}
use ponswars.BattleMath.Scheduler.{battle_id_for, round_id_for, index_of_digits, round_index_of}

-- The number in the name of a round.
abbrev padded : ℕ → Text
padded n = pad_start 10 (to_decimal n)

parse_int-padded : (n : ℕ) → parse_int 0 (padded n) ≡ n
unfolding pad_start to_decimal parse_int
parse_int-padded n =
    parse_int-zeros (10 - length (digits_from n n [])) (digits_from n n [])
    ∙ parse_int-digits_from n n [] (omega arith)

all_digits-padded : (n : ℕ) → all_digits (padded n) ≡ true
unfolding pad_start to_decimal
all_digits-padded n =
    all_digits-zeros (10 - length (digits_from n n [])) (digits_from n n [])
      (all_digits-digits_from n n [] all_digits-nil)

length-padded : (n : ℕ) → n < 10_000_000_000 → length (padded n) ≡ 10
unfolding pad_start to_decimal
length-padded n h =
    let m = length-digits_from-le n n 9 [] h in
    let d = 10 - length (digits_from n n []) in
    omega (arith, length-append (zeros d) (digits_from n n []), length-zeros d)

length-padded-over : (n : ℕ) → 10_000_000_000 ≤ n → 11 ≤ length (padded n)
unfolding pad_start to_decimal
length-padded-over n h =
    let m = length-digits_from-ge n n 10 [] (omega arith) h in
    let d = 10 - length (digits_from n n []) in
    omega (arith, length-append (zeros d) (digits_from n n []), length-zeros d)

-- The name of a round gives its index back, for every index below ten to the tenth.
pub round_index_of-round_id_for :
    (index : ℕ) → index < 10_000_000_000 → round_index_of (round_id_for index) ≡ some index
unfolding round_index_of round_id_for after_prefix index_of_digits
round_index_of-round_id_for index h =
    rw (length-padded index h, all_digits-padded index, parse_int-padded index) refl

-- From ten to the tenth on, the name of a round is not one that `roundIndexOf` reads.
pub round_index_of-round_id_for-over :
    (index : ℕ) → 10_000_000_000 ≤ index → round_index_of (round_id_for index) ≡ none
unfolding round_index_of round_id_for after_prefix index_of_digits
round_index_of-round_id_for-over index h =
    let l = length-padded-over index h in
    let e : (length (padded index) == 10) ≡ false = ground arith in rw e refl

pub battle_id_for-is_empty : (index slot : ℕ) → is_empty (battle_id_for index slot) ≡ false
unfolding battle_id_for round_id_for
battle_id_for-is_empty index slot = refl
