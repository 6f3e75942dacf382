-- ===== src/BattleEngine/Finalize.antt =====
-- `finalizeBattle` (packages/battle-engine/src/engine.ts).
use ponswars.Base.{
  ℕ, ◌==◌, Bool, Option, none, some, if◌then◌else◌, Result, ok, err, failure, ◌>>=◌,
}
use ponswars.Base.Text.{Text}
use ponswars.Base.Hashing.{Hashing}
use ponswars.Shared.Labels.{
  BattleSide, left_side, right_side, TiebreakStep, chain_derived, by_component, VictoryLabel,
  VoidReason, data_integrity, ConfidenceLabel,
}
use ponswars.Shared.Roster.{ActiveTicker}
use ponswars.Shared.Round.{BattleState}
use ponswars.BattleMath.Scoring.{BattleScore, ScaledBreakdown, SideInputs, score_battle}
use ponswars.BattleMath.Momentum.{was_comeback, advantage_from_battle_score}
use ponswars.BattleMath.Resolution.{
  Resolution, ResolutionInput, ClassificationInput, resolve_battle, classify_victory,
}
use ponswars.BattleMath.Scheduler.{FinalizationDecision, wait, finalize, void, decide_finalization}
use ponswars.BattleEngine.Evidence.{version_tag}
use ponswars.BattleEngine.Battle.{BattleEngineState, BattleSetup, EngineConfig, void_state}

pub record FinalizedBattleResult : Type 0 where
  pub battle_id : Text
  pub round_id : Text
  pub left : ActiveTicker
  pub right : ActiveTicker
  pub winner : ActiveTicker
  pub left_score : ScaledBreakdown
  pub right_score : ScaledBreakdown
  pub victory_label : VictoryLabel
  pub tiebreak_step : Option TiebreakStep
  pub tiebreak_block_hash : Option Text
  pub scoring_engine_version : Text
  pub finalized_at : ℕ
  pub evidence_hash : Text

pub data FinalizeOutcome : Type 0 where
  waiting : BattleEngineState → FinalizeOutcome
  finalized_as : BattleEngineState → FinalizedBattleResult → FinalizeOutcome
  voided_as : BattleEngineState → VoidReason → FinalizeOutcome

-- The hash is recorded only where the chain decided.
abbrev recorded_hash : Option TiebreakStep → Option Text → Option Text
recorded_hash none hash = none
recorded_hash (some (by_component c)) hash = none
recorded_hash (some chain_derived) hash = hash

abbrev pub winner_confidence : BattleSetup → BattleSide → ConfidenceLabel
winner_confidence setup left_side = setup.left_intel.label
winner_confidence setup right_side = setup.right_intel.label

unfoldable pub result_of :
    BattleEngineState
    → ℕ
    → Option Text
    → EngineConfig
    → BattleScore
    → Resolution
    → VictoryLabel
    → FinalizedBattleResult
result_of state at hash config score resolution label = record {
  battle_id = state.setup.battle_id;
  round_id = state.setup.round_id;
  left = state.setup.left;
  right = state.setup.right;
  winner = resolution.winner;
  left_score = score.left;
  right_score = score.right;
  victory_label = label;
  tiebreak_step = resolution.tiebreak_step;
  tiebreak_block_hash = recorded_hash resolution.tiebreak_step hash;
  scoring_engine_version = version_tag config.versions;
  finalized_at = at;
  evidence_hash = state.evidence_hash;
}

-- What `finalizeBattle` passes to `resolveBattle`, and then to `classifyVictory`.
abbrev pub resolution_input : BattleEngineState → Option Text → BattleScore → ResolutionInput
resolution_input state hash score = record {
  score = score;
  left = state.setup.left;
  right = state.setup.right;
  battle_id = state.setup.battle_id;
  finalized_block_hash = hash;
}

abbrev pub classification_input :
    BattleEngineState → EngineConfig → BattleScore → Resolution → ClassificationInput
classification_input state config score resolution = record {
  margin = resolution.margin;
  winner_confidence = winner_confidence state.setup resolution.winning_side;
  was_comeback =
      was_comeback state.momentum (advantage_from_battle_score score.left_total)
        config.momentum.comeback;
  thresholds = config.victory;
}

-- A battle whose last tick is known.
unfoldable pub finalize_from :
    Hashing
    → BattleEngineState
    → ℕ
    → Option Text
    → EngineConfig
    → SideInputs
    → SideInputs
    → Result FinalizeOutcome
finalize_from hashing state at hash config last_left last_right = do
  score ← score_battle last_left last_right config.scoring
  resolution ← resolve_battle hashing (resolution_input state hash score)
  label ← classify_victory (classification_input state config score resolution)
  ok (
      finalized_as
        (record state {
          state = BattleState.finalized;
          left_score_scaled = score.left_total;
          right_score_scaled = score.right_total;
        })
        (result_of state at hash config score resolution label))

abbrev voided_for_data : BattleEngineState → FinalizeOutcome
voided_for_data state = voided_as (void_state state) data_integrity

-- The test for a battle that was never scored.
unfoldable pub finalize_scored :
    Hashing
    → BattleEngineState
    → ℕ
    → Option Text
    → EngineConfig
    → Option SideInputs
    → Option SideInputs
    → Result FinalizeOutcome
finalize_scored hashing state at hash config none right = ok (voided_for_data state)
finalize_scored hashing state at hash config (some left) none = ok (voided_for_data state)
finalize_scored hashing state at hash config (some left) (some right) =
    if state.tick_sequence == 0
    then ok (voided_for_data state)
    else finalize_from hashing state at hash config left right

unfoldable pub finalize_decided :
    Hashing
    → BattleEngineState
    → ℕ
    → Option Text
    → EngineConfig
    → FinalizationDecision
    → Result FinalizeOutcome
unfolding finalize_scored
finalize_decided hashing state at hash config wait = ok (waiting state)
finalize_decided hashing state at hash config void = ok (voided_for_data state)
finalize_decided hashing state at hash config finalize =
    finalize_scored hashing state at hash config state.last_left state.last_right

-- Both errors of a battle that is not live are an Error.
unfoldable pub finalize_live :
    Hashing
    → BattleEngineState
    → ℕ
    → Option Text
    → EngineConfig
    → Bool
    → BattleState
    → Result FinalizeOutcome
unfolding finalize_decided
finalize_live hashing state at hash config complete BattleState.finalized = err failure
finalize_live hashing state at hash config complete BattleState.void = err failure
finalize_live hashing state at hash config complete BattleState.scheduled = err failure
finalize_live hashing state at hash config complete BattleState.live =
    decide_finalization state.setup.clock at complete config.max_wait >>= λ decision.
    finalize_decided hashing state at hash config decision

unfoldable pub finalize_battle :
    Hashing → BattleEngineState → ℕ → Option Text → EngineConfig → Bool → Result FinalizeOutcome
unfolding finalize_live
finalize_battle hashing state at hash config complete =
    finalize_live hashing state at hash config complete state.state
