-- ===== src/BattleEngine/Battle.antt =====
-- packages/battle-engine/src/engine.ts: one battle, from its setup to its result.
use ponswars.Base.{
  ℕ, ◌+◌, ◌-◌, ◌&&◌, ◌||◌, not, Bool, true, false, Option, none, some, ltb, leb, if◌then◌else◌,
  Result, ok, err, range_error, failure, ◌>>=◌,
}
use ponswars.Base.Int.{ℤ, pos, ◌+ℤ◌, leb_ℤ}
use ponswars.Base.Text.{Text}
use ponswars.Base.Hashing.{Hashing}
use ponswars.Shared.Labels.{
  MomentumState, FeedHealth, healthy, is_scorable, requires_void, VoidReason, data_integrity,
}
use ponswars.Shared.Roster.{ActiveTicker}
use ponswars.Shared.Round.{BattleState, CanonicalClock, can_transition_battle, battle_state_eq}
use ponswars.BattleMath.Scoring.{
  AggregateCardSupport, BattleScore, ScoringCalibration, SideInputs, no_card_support, score_battle,
}
use ponswars.BattleMath.Momentum.{
  MomentumMemory, MomentumSample, MomentumThresholds, initial_momentum_memory, next_momentum,
  advantage_from_battle_score,
}
use ponswars.BattleMath.Confidence.{ConfidenceSnapshot}
use ponswars.BattleMath.Resolution.{VictoryThresholds}
use ponswars.BattleEngine.Evidence.{EngineVersions, empty_evidence, fold_evidence}

pub record CardSupportTiers : Type 0 where
  pub medium : ℤ
  pub high : ℤ
  pub max : ℤ

pub record EngineConfig : Type 0 where
  pub scoring : ScoringCalibration
  pub momentum : MomentumThresholds
  pub victory : VictoryThresholds
  pub max_wait : ℕ
  pub versions : EngineVersions
  pub card_support_tiers : CardSupportTiers

pub record BattleSetup : Type 0 where
  pub battle_id : Text
  pub round_id : Text
  pub left : ActiveTicker
  pub right : ActiveTicker
  pub clock : CanonicalClock
  pub left_intel : ConfidenceSnapshot
  pub right_intel : ConfidenceSnapshot

pub record CardSupportPair : Type 0 where
  pub left : AggregateCardSupport
  pub right : AggregateCardSupport

pub record BattleEngineState : Type 0 where
  pub setup : BattleSetup
  pub state : BattleState
  pub tick_sequence : ℕ
  pub momentum : MomentumMemory
  pub evidence_hash : Text
  pub left_score_scaled : ℤ
  pub right_score_scaled : ℤ
  pub last_left : Option SideInputs
  pub last_right : Option SideInputs
  pub last_tick_at : Option ℕ
  pub void_reason : Option VoidReason
  pub card_support : CardSupportPair

pub record TickInput : Type 0 where
  pub at : ℕ
  pub left : SideInputs
  pub right : SideInputs
  pub left_health : FeedHealth
  pub right_health : FeedHealth

pub data CardSupportTier : Type 0 where
  low_tier medium_tier high_tier max_tier : CardSupportTier

-- The floating-point `frontline` and `intensity` are left out.
pub record PublicBattleStateUpdate : Type 0 where
  pub battle_id : Text
  pub server_time : ℕ
  pub time_remaining : ℕ
  pub momentum : MomentumState
  pub card_support : CardSupportTier
  pub feed_health : FeedHealth

pub data IgnoreReason : Type 0 where
  not_live before_window after_cutoff out_of_order : IgnoreReason

pub data TickOutcome : Type 0 where
  ignored : IgnoreReason → BattleEngineState → TickOutcome
  updated : BattleEngineState → PublicBattleStateUpdate → TickOutcome
  voided : BattleEngineState → VoidReason → TickOutcome

unfoldable pub begin_battle : BattleSetup → BattleEngineState
begin_battle setup = record {
  setup = setup;
  state = BattleState.scheduled;
  tick_sequence = 0;
  momentum = initial_momentum_memory;
  evidence_hash = empty_evidence;
  left_score_scaled = pos 0;
  right_score_scaled = pos 0;
  last_left = none;
  last_right = none;
  last_tick_at = none;
  void_reason = none;
  card_support = record { left = no_card_support; right = no_card_support };
}

unfoldable pub open_battle : BattleEngineState → ℕ → Result BattleEngineState
open_battle state at =
    if not (can_transition_battle state.state BattleState.live)
    then err failure
    else if ltb at state.setup.clock.battle_start_at
    then err range_error
    else ok (record state { state = BattleState.live })

card_support_tier : ℤ → EngineConfig → CardSupportTier
card_support_tier support config =
    if leb_ℤ config.card_support_tiers.max support
    then max_tier
    else if leb_ℤ config.card_support_tiers.high support
    then high_tier
    else if leb_ℤ config.card_support_tiers.medium support
    then medium_tier
    else low_tier

abbrev is_healthy : FeedHealth → Bool
is_healthy healthy = true
is_healthy _ = false

-- `lastTickAt !== null && at < lastTickAt`
abbrev pub is_older : ℕ → Option ℕ → Bool
is_older at none = false
is_older at (some last) = ltb at last

sum_support : AggregateCardSupport → ℤ → ℤ
sum_support s total = total +ℤ s.market +ℤ s.volume +ℤ s.pons +ℤ s.general

-- The state after a tick that is scored.
unfoldable pub scored_state :
    Hashing → BattleEngineState → TickInput → BattleScore → MomentumSample → BattleEngineState
scored_state hashing state input score momentum = record state {
  tick_sequence = state.tick_sequence + 1;
  momentum = momentum.memory;
  evidence_hash = fold_evidence hashing state.evidence_hash (record {
    sequence = state.tick_sequence + 1;
    at = input.at;
    left = input.left;
    right = input.right;
    left_health = input.left_health;
    right_health = input.right_health;
    left_score_scaled = score.left_total;
    right_score_scaled = score.right_total;
  });
  left_score_scaled = score.left_total;
  right_score_scaled = score.right_total;
  last_left = some input.left;
  last_right = some input.right;
  last_tick_at = some input.at;
}

update_of : BattleEngineState → TickInput → EngineConfig → MomentumSample → PublicBattleStateUpdate
unfolding card_support_tier sum_support
update_of state input config momentum = record {
  battle_id = state.setup.battle_id;
  server_time = input.at;
  time_remaining = state.setup.clock.battle_end_at - input.at;
  momentum = momentum.state;
  card_support =
      card_support_tier
        (sum_support input.right.card_support (sum_support input.left.card_support (pos 0))) config;
  feed_health =
      if is_scorable input.left_health
        && (is_healthy input.left_health && is_healthy input.right_health)
      then healthy
      else FeedHealth.degraded;
}

-- A tick inside the window from feeds that can be scored.
unfoldable pub score_tick :
    Hashing → BattleEngineState → TickInput → EngineConfig → Result TickOutcome
unfolding update_of
score_tick hashing state input config =
    score_battle input.left input.right config.scoring >>= λ score.
    next_momentum state.momentum (advantage_from_battle_score score.left_total) config.momentum
    >>= λ momentum. ok (
        updated (scored_state hashing state input score momentum)
          (update_of state input config momentum))

-- The state of a battle that is voided for its data.
unfoldable pub void_state : BattleEngineState → BattleEngineState
void_state state = record state { state = BattleState.void; void_reason = some data_integrity }

unfoldable pub apply_tick :
    Hashing → BattleEngineState → TickInput → EngineConfig → Result TickOutcome
apply_tick hashing state input config =
    if not (battle_state_eq state.state BattleState.live)
    then ok (ignored not_live state)
    else if ltb input.at state.setup.clock.battle_start_at
    then ok (ignored before_window state)
    else if leb state.setup.clock.battle_end_at input.at
    then ok (ignored after_cutoff state)
    else if is_older input.at state.last_tick_at
    then ok (ignored out_of_order state)
    else if requires_void input.left_health || requires_void input.right_health
    then ok (voided (void_state state) data_integrity)
    else score_tick hashing state input config
