-- ===== src/BattleMath/Tests.antt =====
-- Concrete battles.
use ponswars.Base.{
  ℕ, ◌≤◌, ◌<◌, List, [], ◌∷◌, ◌≡◌, ◌↔◌, refl, ok, none, some, false, Returns, SameEntries,
}
use ponswars.Base.Int.{ℤ, pos, negsuc, ◌+ℤ◌, ◌-ℤ◌, ◌*ℤ◌, negate, quotient, remainder}
use ponswars.Base.Text.{codes}
use ponswars.Base.Toy.{toy_hashing}
use ponswars.Shared.Roster.{nvda, spy, aapl, amd}
use ponswars.BattleMath.Scale.{div_scaled, floor_quotient, clamp_unit}
use ponswars.Shared.Money.{integer_sqrt}
use ponswars.BattleMath.Scale.Rounding.{IsScaledQuotient, div_scaled-IsScaledQuotient}
use ponswars.BattleMath.Scoring.{
  SideInputs, ScoringCalibration, BattleScore, ScaledBreakdown, no_card_support, score_battle,
  score_of_edges, edges_between, volatility_adjusted_return, edge_from_difference, pons_strength,
  card_support_strength,
}
use ponswars.BattleMath.Scoring.Total.{IsFullScore, score_battle-IsFullScore}
use ponswars.BattleMath.Scoring.Inputs.{IsValidSide, IsValidCalibration, score_battle_iff}
use ponswars.BattleMath.Momentum.{MomentumThresholds, initial_momentum_memory, next_momentum}
use ponswars.BattleMath.Momentum.Comebacks.{Sampled, next_momentum-Sampled, memory_after}
use ponswars.BattleMath.Confidence.{ConfidenceLookback, ConfidenceCalibration, matchup_confidence}
use ponswars.BattleMath.Confidence.Matchups.{swap_sides, matchup_confidence-swap}
use ponswars.BattleMath.Scheduler.{clock_for_round, round_index_at}
use ponswars.BattleMath.Scheduler.Windows.{round_index_iff}
use ponswars.BattleMath.Matchmaking.{MatchupKey, cooldown_set, pair_in_order}
use ponswars.BattleMath.Matchmaking.Complete.{Scheduled, pair_in_order-Scheduled}
use ponswars.BattleMath.Prng.{
  DeterministicPrng, shuffle, shuffle_from, next_below, draw_below, next_bytes, next_byte, refill,
  read_big_endian,
}
use ponswars.BattleMath.Prng.Shuffle.{shuffle-SameEntries}
use ponswars.BattleMath.Resolution.{ResolutionInput, resolve_battle, needs_chain_tiebreak}
use ponswars.BattleMath.Resolution.Order.{Decided, resolve_battle-Decided}
use ponswars.BattleMath.Resolution.Level.{resolve_without_hash_iff}

abbrev side : ℤ → ℤ → SideInputs
side window_return volume = record {
  window_return = window_return;
  volatility = pos 250_000;
  relative_volume = volume;
  qualified_pons_activity = pos 9;
  unique_active_wallets = pos 4;
  card_support = no_card_support;
}

abbrev calibration : ScoringCalibration
calibration = record {
  price_edge_divisor = pos 2_000_000;
  volume_edge_divisor = pos 1_500_000;
  pons_edge_divisor = pos 3_000_000;
  card_edge_divisor = pos 5_000_000;
}

abbrev rising : SideInputs
rising = side (pos 120_000) (pos 900_000)

abbrev falling : SideInputs
falling = side (negsuc 49_999) (pos 1_100_000)

abbrev edges : ScaledBreakdown
edges = record {
  price_momentum = pos 340_000;
  relative_volume = negsuc 133_333;
  pons_power = pos 0;
  holder_card_support = pos 0;
}

score_of_rising : score_battle rising falling calibration ≡ ok (score_of_edges edges)
unfolding score_battle edges_between volatility_adjusted_return div_scaled floor_quotient
    edge_from_difference pons_strength card_support_strength integer_sqrt clamp_unit ◌+ℤ◌ ◌-ℤ◌ ◌*ℤ◌
    negate quotient remainder
score_of_rising = refl

score_example : IsFullScore (score_of_edges edges)
score_example = score_battle-IsFullScore rising falling calibration score_of_rising

score_returns_example :
    Returns (score_battle rising falling calibration)
    ↔ (IsValidSide rising × IsValidSide falling × IsValidCalibration calibration)
score_returns_example = score_battle_iff rising falling calibration

abbrev level_breakdown : ScaledBreakdown
level_breakdown = record {
  price_momentum = pos 22_500_000;
  relative_volume = pos 12_500_000;
  pons_power = pos 10_000_000;
  holder_card_support = pos 5_000_000;
}

abbrev level_score : BattleScore
level_score = record {
  left = level_breakdown;
  right = level_breakdown;
  left_total = pos 50_000_000;
  right_total = pos 50_000_000;
  edges = record {
    price_momentum = pos 0;
    relative_volume = pos 0;
    pons_power = pos 0;
    holder_card_support = pos 0;
  };
}

abbrev level_battle : ResolutionInput
level_battle = record {
  score = level_score;
  left = nvda;
  right = spy;
  battle_id = codes "rnd_0000000001_b1";
  finalized_block_hash = some (codes "0xAb01");
}

abbrev without_hash : ResolutionInput
without_hash = record {
  score = level_score;
  left = nvda;
  right = spy;
  battle_id = codes "rnd_0000000001_b1";
  finalized_block_hash = none;
}

resolution_example : Decided toy_hashing level_battle (resolve_battle toy_hashing level_battle)
resolution_example = resolve_battle-Decided toy_hashing level_battle

no_hash_example :
    Returns (resolve_battle toy_hashing without_hash) ↔ (needs_chain_tiebreak level_score ≡ false)
no_hash_example = resolve_without_hash_iff toy_hashing without_hash refl

quotient_example : IsScaledQuotient (negsuc 6) (pos 2) (div_scaled (negsuc 6) (pos 2))
quotient_example = div_scaled-IsScaledQuotient (negsuc 6) (pos 2)

abbrev momentum_thresholds : MomentumThresholds
momentum_thresholds = record {
  push = pos 20_000;
  surge = pos 100_000;
  dominance = pos 250_000;
  comeback = pos 150_000;
}

abbrev battle_ticks : List ℤ
battle_ticks = pos 30_000 ∷ negsuc 199_999 ∷ negsuc 9_999 ∷ []

comeback_example : Sampled momentum_thresholds battle_ticks (pos 40_000) (
    next_momentum
      (memory_after initial_momentum_memory battle_ticks)
      (pos 40_000)
      momentum_thresholds)
comeback_example = next_momentum-Sampled momentum_thresholds battle_ticks (pos 40_000)

abbrev blocked_keys : List MatchupKey
blocked_keys = cooldown_set ((record { left = spy; right = nvda } ∷ []) ∷ [])

schedule_example :
    Scheduled blocked_keys
      (nvda ∷ spy ∷ aapl ∷ amd ∷ [])
      (pair_in_order (nvda ∷ spy ∷ aapl ∷ amd ∷ []) blocked_keys)
schedule_example = pair_in_order-Scheduled (nvda ∷ spy ∷ aapl ∷ amd ∷ []) blocked_keys

abbrev prng : DeterministicPrng
prng = record { seed = 1 ∷ []; domain = codes "d"; counter = 0; block = []; offset = 0 }

shuffled : Returns (shuffle toy_hashing 1 (nvda ∷ spy ∷ aapl ∷ []) prng)
unfolding shuffle shuffle_from next_below draw_below next_bytes next_byte refill read_big_endian
shuffled = (_, refl)

shuffle_example : SameEntries shuffled.0.0 (nvda ∷ spy ∷ aapl ∷ [])
shuffle_example =
    shuffle-SameEntries toy_hashing 1 (nvda ∷ spy ∷ aapl ∷ []) prng shuffled.0.1 shuffled.1

abbrev lookback : ℤ → ConfidenceLookback
lookback window_return = record {
  window_return = window_return;
  volatility = pos 300_000;
  relative_volume = pos 1_200_000;
  qualified_pons_activity = pos 40;
  sub_window_returns = pos 10 ∷ negsuc 4 ∷ pos 3 ∷ [];
}

abbrev confidence_calibration : ConfidenceCalibration
confidence_calibration = record {
  trend_strong = pos 500_000;
  trend_weak = negsuc 499_999;
  pulse_rising = pos 1_100_000;
  pulse_weak = pos 900_000;
  activity_high = pos 50;
  activity_medium = pos 10;
  stability_stable = pos 1;
  stability_mixed = pos 3;
  matchup_favored = pos 20;
  matchup_strong_favorite = pos 60;
  matchup_dominant = pos 120;
}

matchup_example :
    matchup_confidence (lookback (negsuc 9)) (lookback (pos 400_000)) confidence_calibration
    ≡ swap_sides
        (matchup_confidence (lookback (pos 400_000)) (lookback (negsuc 9)) confidence_calibration)
matchup_example =
    matchup_confidence-swap (lookback (pos 400_000)) (lookback (negsuc 9)) confidence_calibration

abbrev epoch : ℕ
epoch = 1_700_000_000_000

index_example : (round_index_at epoch 1_700_000_650_000 ≡ some 1) ↔ (
    ((clock_for_round epoch 1 epoch).pick_open_at ≤ 1_700_000_650_000)
    × (1_700_000_650_000 < (clock_for_round epoch 1 epoch).battle_end_at))
index_example = round_index_iff epoch 1 epoch 1_700_000_650_000
