-- ===== src/BattleEngine/Tests.antt =====
-- Concrete battles and rounds of the engine.
use ponswars.Base.{
  inr, ok, ◌≡◌, ◌⊎◌, refl, true, false, List, [], ◌∷◌, All, none, some, err, failure, Returns,
  arith,
}
use ponswars.Base.Int.{ℤ, pos, negsuc, ◌+ℤ◌, ◌-ℤ◌, ◌*ℤ◌, negate, quotient, remainder}
use ponswars.Base.Text.{codes, strip_prefix, all_hex, hex_bytes, text_eq, to_lower_char}
use ponswars.Base.Toy.{toy_hashing}
use ponswars.Shared.Money.{integer_sqrt}
use ponswars.Shared.Labels.{healthy, underdog, upset_victory, requires_void, is_scorable}
use ponswars.Shared.Cards.{bull_run}
use ponswars.Shared.Roster.{nvda, spy}
use ponswars.Shared.Round.{RoundState, CanonicalClock, can_transition_battle, can_transition_round}
use ponswars.BattleMath.Scale.{div_scaled, floor_quotient, clamp_unit}
use ponswars.BattleMath.Scoring.{
  SideInputs, ScaledBreakdown, no_card_support, score_battle, edges_between,
  volatility_adjusted_return, edge_from_difference, pons_strength, card_support_strength,
}
use ponswars.BattleMath.Momentum.{next_momentum, refuses_thresholds}
use ponswars.BattleMath.Confidence.{ConfidenceSnapshot, above, between, below}
use ponswars.BattleMath.Resolution.{chain_derived_side}
use ponswars.BattleMath.Scheduler.{decide_finalization}
use ponswars.BattleEngine.Battle.{
  BattleEngineState, BattleSetup, EngineConfig, TickInput, begin_battle, open_battle, apply_tick,
  score_tick, scored_state,
}
use ponswars.BattleEngine.Finalize.{
  FinalizedBattleResult, FinalizeOutcome, waiting, finalize_battle, finalize_live, finalize_decided,
  finalize_scored,
}
use ponswars.BattleEngine.Reachable.{IsSound, tick_state}
use ponswars.BattleEngine.Reachable.Endings.{
  Reaches, begun, opened, ticked, reachable-IsSound, final_state,
}
use ponswars.BattleEngine.Reachable.Settled.{Refuses, finalize_once, IsSettled}
use ponswars.BattleEngine.Reachable.Outcomes.{EndsAs, finalize_battle_ends}
use ponswars.BattleMath.Scoring.{score_of_edges, split_by_edge, total_of}
use ponswars.BattleMath.Scale.{points}
use ponswars.BattleMath.Resolution.{needs_chain_tiebreak}
use ponswars.BattleEngine.Rounds.Unhashed.{finalize_round_unhashed}
use ponswars.BattleEngine.Rounds.{
  needs_finalization_block_hash, level_battle, RoundEngineState, RoundFinalization, LockedPick,
  lock_round, check_picks, finalize_round, finalize_battles, gather, is_settled, awards_for,
}
use ponswars.BattleEngine.Rounds.Awards.{awards_for-ArePaid}
use ponswars.BattleEngine.Rounds.Paid.{ArePaid}
use ponswars.BattleEngine.Rounds.Lock.{IsLocked, lock_round-IsLocked}
use ponswars.BattleEngine.Rounds.Retry.{finalized_round_ends, finalize_round_again}

abbrev pub config : EngineConfig
config = record {
  scoring = record {
    price_edge_divisor = pos 2_000_000;
    volume_edge_divisor = pos 1_500_000;
    pons_edge_divisor = pos 3_000_000;
    card_edge_divisor = pos 5_000_000;
  };
  momentum = record {
    push = pos 20_000;
    surge = pos 100_000;
    dominance = pos 250_000;
    comeback = pos 150_000;
  };
  victory = record { narrow_margin = pos 5_000_000; decisive_margin = pos 20_000_000 };
  max_wait = 120_000;
  versions = record {
    scoring = codes "s1";
    normalization = codes "n1";
    pons_qualification = codes "p1";
    baseline_dataset = codes "b1";
    card_aggregation = codes "c1";
  };
  card_support_tiers = record { medium = pos 100; high = pos 500; max = pos 2_000 };
}

abbrev clock : CanonicalClock
clock = record {
  server_time = 1_000_000;
  pick_open_at = 1_000_000;
  lock_at = 1_060_000;
  battle_start_at = 1_060_000;
  battle_end_at = 1_600_000;
}

abbrev snapshot : ConfidenceSnapshot
snapshot = record {
  label = underdog;
  signals = record {
    price_trend = below;
    volume_pulse = between;
    pons_activity = between;
    momentum_stability = above;
  };
}

abbrev pub setup : BattleSetup
setup = record {
  battle_id = codes "b0";
  round_id = codes "r0";
  left = nvda;
  right = spy;
  clock = clock;
  left_intel = snapshot;
  right_intel = snapshot;
}

abbrev pub side : ℤ → SideInputs
side window_return = record {
  window_return = window_return;
  volatility = pos 250_000;
  relative_volume = pos 1_000_000;
  qualified_pons_activity = pos 9;
  unique_active_wallets = pos 4;
  card_support = no_card_support;
}

abbrev tick : TickInput
tick = record {
  at = 1_200_000;
  left = side (pos 120_000);
  right = side (negsuc 49_999);
  left_health = healthy;
  right_health = healthy;
}

opening : Returns (open_battle (begin_battle setup) 1_060_000)
unfolding open_battle begin_battle can_transition_battle
opening = (_, refl)

scoring : Returns (apply_tick toy_hashing opening.0 tick config)
unfolding opening open_battle begin_battle can_transition_battle apply_tick score_tick requires_void
    is_scorable score_battle edges_between volatility_adjusted_return div_scaled floor_quotient
    edge_from_difference pons_strength card_support_strength integer_sqrt clamp_unit ◌+ℤ◌ ◌-ℤ◌ ◌*ℤ◌
    negate quotient remainder next_momentum refuses_thresholds
scoring = (_, refl)

-- The battle after its tick.
abbrev scored : BattleEngineState
scored = tick_state scoring.0

scored-Reaches : Reaches toy_hashing config setup scored
scored-Reaches = ticked tick (opened 1_060_000 begun opening.1) scoring.1

engine_example : IsSound config scored
engine_example = reachable-IsSound toy_hashing config setup scored-Reaches

side_of_hash : Returns (chain_derived_side toy_hashing (codes "0x0a") (codes "b0"))
unfolding chain_derived_side strip_prefix all_hex hex_bytes to_lower_char
side_of_hash = (_, refl)

finish_example :
    (o : FinalizeOutcome) × (finalize_battle toy_hashing scored 1_600_000
        (some (codes "0x0a"))
        config
        true
      ≡ ok o)
    × EndsAs config.max_wait scored 1_600_000 true o
unfolding scoring opening open_battle begin_battle can_transition_battle apply_tick score_tick
    requires_void is_scorable score_battle edges_between volatility_adjusted_return div_scaled
    floor_quotient edge_from_difference pons_strength card_support_strength integer_sqrt clamp_unit
    ◌+ℤ◌ ◌-ℤ◌ ◌*ℤ◌ negate quotient remainder next_momentum refuses_thresholds scored_state
finish_example =
    finalize_battle_ends toy_hashing config setup scored 1_600_000 (codes "0x0a") true
      scored-Reaches refl (omega arith) (record { narrow = omega arith; decisive = omega arith })
      side_of_hash

waits : Returns (finalize_battle toy_hashing opening.0 1_610_000 none config false)
unfolding opening open_battle begin_battle can_transition_battle finalize_battle finalize_live
    decide_finalization finalize_decided
waits = (_, refl)

once_example : (waits.0 ≡ waiting opening.0) ⊎ Refuses toy_hashing config (final_state waits.0)
once_example = finalize_once toy_hashing config opening.0 1_610_000 none false waits.1

abbrev pub round : RoundState → List BattleEngineState → RoundEngineState
round state battles = record {
  round_id = codes "r0";
  state = state;
  clock = clock;
  battles = battles;
  picks = [];
  matchmaking_seed = codes "00";
}

abbrev pub backer : LockedPick
backer = record {
  wallet = 17;
  battle_id = codes "b0";
  backed_ticker = spy;
  deployed_card = some bull_run;
}

locks :
    Returns
      (lock_round (round RoundState.pick_open (begin_battle setup ∷ [])) 1_060_000 (backer ∷ []))
unfolding lock_round check_picks begin_battle open_battle can_transition_battle can_transition_round
    text_eq
locks = (_, refl)

lock_example :
    IsLocked (round RoundState.pick_open (begin_battle setup ∷ [])) 1_060_000 (backer ∷ []) locks.0
lock_example =
    lock_round-IsLocked (round RoundState.pick_open (begin_battle setup ∷ [])) 1_060_000
      (backer ∷ []) locks.1

-- A live round with one battle that was never scored.
abbrev live_round : RoundEngineState
live_round = round RoundState.battle_live (opening.0 ∷ [])

voids : Returns (finalize_round toy_hashing live_round 1_600_000 none config true)
unfolding opening open_battle begin_battle can_transition_battle finalize_battle finalize_live
    decide_finalization finalize_decided finalize_scored finalize_round finalize_battles gather
    is_settled can_transition_round
voids = (_, refl)

round_ends_example : All (λ b. IsSettled b.state) voids.0.state.battles
unfolding voids opening open_battle begin_battle can_transition_battle finalize_battle finalize_live
    decide_finalization finalize_decided finalize_scored finalize_round finalize_battles gather
    is_settled can_transition_round
round_ends_example =
    finalized_round_ends toy_hashing live_round 1_600_000 none config true voids.1 refl

delays : Returns (finalize_round toy_hashing live_round 1_600_000 none config false)
unfolding opening open_battle begin_battle can_transition_battle finalize_battle finalize_live
    decide_finalization finalize_decided finalize_scored finalize_round finalize_battles gather
    is_settled can_transition_round
delays = (_, refl)

again_example : finalize_round toy_hashing delays.0.state 1_650_000 none config true ≡ err failure
again_example =
    finalize_round_again toy_hashing live_round 1_600_000 none config false delays.1 1_650_000 none
      true

abbrev no_breakdown : ScaledBreakdown
no_breakdown = record {
  price_momentum = pos 0;
  relative_volume = pos 0;
  pons_power = pos 0;
  holder_card_support = pos 0;
}

abbrev upset : FinalizedBattleResult
upset = record {
  battle_id = codes "b0";
  round_id = codes "r0";
  left = nvda;
  right = spy;
  winner = spy;
  left_score = no_breakdown;
  right_score = no_breakdown;
  victory_label = upset_victory;
  tiebreak_step = none;
  tiebreak_block_hash = none;
  scoring_engine_version = codes "s1";
  finalized_at = 1_600_000;
  evidence_hash = codes "00";
}

abbrev backed_round : RoundEngineState
backed_round = record live_round { picks = backer ∷ [] }

awards_example :
    ArePaid backed_round.battles (upset ∷ []) (backer ∷ []) (awards_for backed_round (upset ∷ []))
awards_example = awards_for-ArePaid backed_round (upset ∷ [])

no_hash_needed : needs_finalization_block_hash (scored ∷ []) config ≡ ok false
unfolding scoring opening open_battle begin_battle can_transition_battle apply_tick score_tick
    requires_void is_scorable score_battle edges_between volatility_adjusted_return div_scaled
    floor_quotient edge_from_difference pons_strength card_support_strength integer_sqrt clamp_unit
    ◌+ℤ◌ ◌-ℤ◌ ◌*ℤ◌ negate quotient remainder next_momentum refuses_thresholds scored_state
    needs_finalization_block_hash level_battle score_of_edges split_by_edge total_of
    needs_chain_tiebreak points
no_hash_needed = refl

unhashed_example :
    (f : RoundFinalization) × (finalize_round toy_hashing
        (round RoundState.battle_live (scored ∷ []))
        1_600_000
        none
        config
        true
      ≡ ok f)
    × (f.state.state ≡ RoundState.finalized)
    × All (λ b. IsSettled b.state) f.state.battles
unfolding scoring opening open_battle begin_battle can_transition_battle apply_tick score_tick
    requires_void is_scorable score_battle edges_between volatility_adjusted_return div_scaled
    floor_quotient edge_from_difference pons_strength card_support_strength integer_sqrt clamp_unit
    ◌+ℤ◌ ◌-ℤ◌ ◌*ℤ◌ negate quotient remainder next_momentum refuses_thresholds scored_state
unhashed_example =
    finalize_round_unhashed toy_hashing config (round RoundState.battle_live (scored ∷ []))
      1_600_000 refl (record { narrow = omega arith; decisive = omega arith })
      (((setup, scored-Reaches), inr refl, omega arith), tt) no_hash_needed
