-- ===== src/BattleEngine/CreationTests.antt =====
-- A concrete round that is created.
use ponswars.Base.{◌≡◌, ◌↔◌, refl, List, [], ◌∷◌, Option, none, some, Returns}
use ponswars.Base.Int.{pos, negsuc, ◌-ℤ◌, ◌*ℤ◌, ◌+ℤ◌, negate, quotient, remainder}
use ponswars.Base.Text.{
  codes, strip_prefix, all_hex, is_hex_digit, hex_bytes, hex_value, to_lower_char,
}
use ponswars.Base.Toy.{toy_hashing}
use ponswars.Shared.Roster.{ActiveTicker}
use ponswars.Shared.Round.{RoundState, can_transition_battle, can_transition_round}
use ponswars.BattleMath.Scale.{div_scaled, floor_quotient}
use ponswars.BattleMath.Confidence.{
  ConfidenceLookback, ConfidenceCalibration, matchup_confidence, assert_calibration, sub_signals,
  band_of, direction_changes, standing, labels_for_gap,
}
use ponswars.BattleMath.Prng.{
  derive_round_seed, normalize_seed_hex, hex_text, new_prng, shuffle, shuffle_from, next_below,
  draw_below, next_bytes, next_byte, refill, read_big_endian,
}
use ponswars.BattleMath.Matchmaking.{
  Pairing, MatchmakingInput, matchup_key, has_key, cooldown_set, try_partners, pair_with_fuel,
  pair_in_order, has_duplicates, shuffled_roster, schedule_round, roster_of, recent_of,
}
use ponswars.BattleMath.Matchmaking.Counts.{IsSchedule}
use ponswars.BattleMath.Matchmaking.Rosters.{schedule_round_iff}
use ponswars.BattleEngine.Battle.{begin_battle, open_battle}
use ponswars.BattleEngine.Rounds.{lock_round, check_picks}
use ponswars.BattleEngine.Rounds.Lives.{Life, IsAlive, lives-IsAlive}
use ponswars.BattleEngine.Tests.{config}
use ponswars.BattleEngine.Rounds.Create.{
  RoundSetup, create_battle, create_battles, matchmaking_of, create_round, AreCreated,
  create_round_lem,
}

abbrev matchmaking : MatchmakingInput
matchmaking = record {
  base_seed_hex = codes "0x0a1b";
  round_id = codes "round-0000000001";
  roster = none;
  recent_rounds = none;
}

shuffled : Returns (shuffled_roster toy_hashing 2 matchmaking)
unfolding shuffled_roster derive_round_seed normalize_seed_hex strip_prefix all_hex is_hex_digit
    hex_bytes hex_value hex_text to_lower_char new_prng shuffle shuffle_from next_below draw_below
    next_bytes next_byte refill read_big_endian
shuffled = (_, refl)

roster_example :
    Returns (schedule_round toy_hashing 2 matchmaking)
    ↔ ((ps : List Pairing) × IsSchedule (cooldown_set []) (roster_of none) ps)
unfolding has_duplicates
roster_example =
    schedule_round_iff toy_hashing 2 matchmaking (record { ten = refl; distinct = refl }) shuffled.1

abbrev pub lookback : ActiveTicker → Option ConfidenceLookback
lookback ticker = some (record {
  window_return = pos 100;
  volatility = pos 300_000;
  relative_volume = pos 1_200_000;
  qualified_pons_activity = pos 40;
  sub_window_returns = pos 10 ∷ negsuc 4 ∷ [];
})

abbrev pub calibration : ConfidenceCalibration
calibration = record {
  trend_strong = pos 500_000;
  trend_weak = negsuc 499_999;
  pulse_rising = pos 1_100_000;
  pulse_weak = pos 900_000;
  activity_high = pos 50;
  activity_medium = pos 10;
  stability_stable = pos 1;
  stability_mixed = pos 3;
  matchup_favored = pos 20;
  matchup_strong_favorite = pos 60;
  matchup_dominant = pos 120;
}

abbrev round_setup : RoundSetup
round_setup = record {
  round_id = codes "round-0000000001";
  round_index = 1;
  clock = record {
    server_time = 600_000;
    pick_open_at = 600_000;
    lock_at = 660_000;
    battle_start_at = 660_000;
    battle_end_at = 1_200_000;
  };
  base_seed_hex = codes "0x0a1b";
  roster = none;
  recent_rounds = none;
  lookback = lookback;
  calibration = calibration;
}

created : Returns (create_round toy_hashing 2 round_setup)
unfolding create_round create_battles create_battle matchmaking_of schedule_round has_duplicates
    pair_in_order pair_with_fuel try_partners cooldown_set has_key matchup_key shuffled_roster
    derive_round_seed normalize_seed_hex strip_prefix all_hex is_hex_digit hex_bytes hex_value
    hex_text to_lower_char new_prng shuffle shuffle_from next_below draw_below next_bytes next_byte
    refill read_big_endian matchup_confidence assert_calibration sub_signals band_of
    direction_changes standing labels_for_gap div_scaled floor_quotient ◌-ℤ◌ ◌*ℤ◌ ◌+ℤ◌ negate
    quotient remainder
created = (_, refl)

created_example :
    (created.0.round_id ≡ round_setup.round_id)
    × (created.0.clock ≡ round_setup.clock)
    × (created.0.state ≡ RoundState.pick_open)
    × (created.0.picks ≡ [])
    × ((ps : List Pairing) × IsSchedule (cooldown_set (recent_of none)) (roster_of none) ps
        × AreCreated round_setup 0 ps created.0.battles)
created_example = create_round_lem toy_hashing 2 round_setup created.1

locked : Returns (lock_round created.0 660_000 [])
unfolding created create_round create_battles create_battle matchmaking_of schedule_round
    has_duplicates pair_in_order pair_with_fuel try_partners cooldown_set has_key matchup_key
    shuffled_roster derive_round_seed normalize_seed_hex strip_prefix all_hex is_hex_digit hex_bytes
    hex_value hex_text to_lower_char new_prng shuffle shuffle_from next_below draw_below next_bytes
    next_byte refill read_big_endian matchup_confidence assert_calibration sub_signals band_of
    direction_changes standing labels_for_gap div_scaled floor_quotient ◌-ℤ◌ ◌*ℤ◌ ◌+ℤ◌ negate
    quotient remainder lock_round check_picks open_battle begin_battle can_transition_battle
    can_transition_round
locked = (_, refl)

life_example : IsAlive round_setup locked.0 (locked.0.state ∷ created.0.state ∷ []) []
life_example =
    lives-IsAlive toy_hashing config round_setup
      (Life.locked 660_000 [] (Life.created 2 created.1) locked.1)
