-- ===== src/BattleMath/Scheduler.antt =====
-- packages/battle-math/src/scheduler.ts: where the rounds lie in time, and their names.
pub mod Windows
pub mod Names
use ponswars.Base.{
  ℕ, zero, suc, ◌+◌, ◌-◌, ◌*◌, ◌/◌, ◌%◌, ◌^◌, ◌==◌, ◌&&◌, Bool, true, false, List, [], ◌∷◌, ◌++◌,
  Option, none, some, length, ltb, leb, if◌then◌else◌, Result, ok, err, range_error,
}
use ponswars.Base.Text.{Text, codes, after_prefix}
use ponswars.Base.Decimal.{to_decimal, pad_start, all_digits, parse_int}
use ponswars.Shared.Round.{CanonicalClock, build_canonical_clock, round_duration}

-- The index is a natural number, so the source's test on it never throws.
unfoldable pub clock_for_round : ℕ → ℕ → ℕ → CanonicalClock
unfolding build_canonical_clock
clock_for_round epoch index server_time =
    build_canonical_clock (epoch + index * round_duration) server_time

unfoldable pub round_index_at : ℕ → ℕ → Option ℕ
round_index_at epoch at = if ltb at epoch then none else some ((at - epoch) / round_duration)

unfoldable pub accepts_pick_at : CanonicalClock → ℕ → Bool
accepts_pick_at clock received_at =
    leb clock.pick_open_at received_at && ltb received_at clock.lock_at

pub data FinalizationDecision : Type 0 where
  wait finalize void : FinalizationDecision

unfoldable pub decide_finalization : CanonicalClock → ℕ → Bool → ℕ → Result FinalizationDecision
decide_finalization clock at required_data_complete max_wait =
    if ltb at clock.battle_end_at
    then err range_error
    else if required_data_complete
    then ok finalize
    else if ltb (at - clock.battle_end_at) max_wait
    then ok wait
    else ok void

unfoldable pub round_id_for : ℕ → Text
unfolding to_decimal pad_start
round_id_for index = codes "round-" ++ pad_start 10 (to_decimal index)

index_of_digits : Option Text → Option ℕ
unfolding all_digits parse_int
index_of_digits none = none
index_of_digits (some digits) =
    if (length digits == 10) && all_digits digits then some (parse_int 0 digits) else none

-- Ten digits are a safe integer, so the source's last test is never false.
unfoldable pub round_index_of : Text → Option ℕ
unfolding after_prefix index_of_digits
round_index_of id = index_of_digits (after_prefix (codes "round-") id)

-- The slots are natural numbers, so the tests on them never throw.
unfoldable pub battle_id_for : ℕ → ℕ → Text
unfolding round_id_for
battle_id_for index slot = round_id_for index ++ (codes "-b" ++ to_decimal slot)

unfoldable pub sector_id_for : ℕ → Text
sector_id_for slot = codes "sector-" ++ pad_start 2 (to_decimal (slot + 1))
