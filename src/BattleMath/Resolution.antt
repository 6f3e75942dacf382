-- ===== src/BattleMath/Resolution.antt =====
-- packages/battle-math/src/resolution.ts: who won, and what the win is called.
pub mod Order
pub mod Level
pub mod Hashed
pub mod Victory
use ponswars.Base.{
  ℕ, ◌%◌, ◌==◌, ◌&&◌, ◌||◌, not, Bool, true, false, List, [], ◌∷◌, ◌++◌, map, Option, none, some,
  Result, ok, err, type_error, range_error, failure, ◌>>=◌, if◌then◌else◌,
}
use ponswars.Base.Int.{ℤ, pos, ◌-ℤ◌, negate, ltb_ℤ, leb_ℤ, eqb_ℤ}
use ponswars.Base.Text.{Text, codes, is_empty, all_hex, hex_bytes, strip_prefix, to_lower_char}
use ponswars.Base.Hashing.{Hashing}
use ponswars.Shared.Labels.{
  BattleSide, left_side, right_side, TiebreakStep, by_component, chain_derived, tiebreak_order,
  Component, ConfidenceLabel, heavy_underdog, underdog, VictoryLabel, narrow_victory, victory,
  decisive_victory, upset_victory, major_upset, comeback_victory,
}
use ponswars.Shared.Roster.{ActiveTicker}
use ponswars.BattleMath.Scoring.{BattleScore, at_component}

pub record Resolution : Type 0 where
  pub winner : ActiveTicker
  pub winning_side : BattleSide
  pub tiebreak_step : Option TiebreakStep
  pub margin : ℤ

-- The side that the first byte of a digest names.
unfoldable side_of_digest : List ℕ → Result BattleSide
side_of_digest [] = err failure
side_of_digest (first ∷ _) = ok (if first % 2 == 0 then left_side else right_side)

unfoldable pub chain_derived_side : Hashing → Text → Text → Result BattleSide
unfolding side_of_digest
chain_derived_side hashing finalized_block_hash battle_id =
    let normalized = strip_prefix finalized_block_hash in
    if is_empty normalized || not (all_hex normalized)
    then err type_error
    else if is_empty battle_id
    then err type_error
    else side_of_digest (
        hashing.sha256 (
          hashing.utf8 (codes "PONSWARS_TIEBREAK_V1")
          ++ (hex_bytes (map to_lower_char normalized) ++ hashing.utf8 battle_id)))

pub record ResolutionInput : Type 0 where
  pub score : BattleScore
  pub left : ActiveTicker
  pub right : ActiveTicker
  pub battle_id : Text
  pub finalized_block_hash : Option Text

-- `step === 'chainDerived' || score.left[step] === score.right[step]`
level_at : BattleScore → TiebreakStep → Bool
level_at score chain_derived = true
level_at score (by_component c) = eqb_ℤ (at_component score.left c) (at_component score.right c)

level_at_all : BattleScore → List TiebreakStep → Bool
unfolding level_at
level_at_all score [] = true
level_at_all score (step ∷ steps) = level_at score step && level_at_all score steps

unfoldable pub needs_chain_tiebreak : BattleScore → Bool
unfolding level_at_all
needs_chain_tiebreak score =
    if not (eqb_ℤ score.left_total score.right_total)
    then false
    else level_at_all score tiebreak_order

-- The resolution in favour of a side.
unfoldable pub resolution_for : ResolutionInput → BattleSide → Option TiebreakStep → ℤ → Resolution
resolution_for input left_side step margin = record {
  winner = input.left;
  winning_side = left_side;
  tiebreak_step = step;
  margin = margin;
}
resolution_for input right_side step margin = record {
  winner = input.right;
  winning_side = right_side;
  tiebreak_step = step;
  margin = margin;
}

-- The side that a difference which is not zero favours.
abbrev pub side_of_delta : ℤ → BattleSide
side_of_delta delta = if ltb_ℤ (pos 0) delta then left_side else right_side

-- The last step of the tiebreak order.
resolve_by_chain : Hashing → ResolutionInput → Option Text → Result Resolution
resolve_by_chain hashing input none = err failure
resolve_by_chain hashing input (some hash) =
    chain_derived_side hashing hash input.battle_id >>= λ side.
    ok (resolution_for input side (some chain_derived) (pos 0))

-- The loop over the tiebreak order.
break_tie : Hashing → ResolutionInput → List TiebreakStep → Result Resolution
unfolding resolve_by_chain
break_tie hashing input [] = err failure
break_tie hashing input (chain_derived ∷ steps) =
    resolve_by_chain hashing input input.finalized_block_hash
break_tie hashing input (by_component c ∷ steps) =
    let rest = break_tie hashing input steps in
    let delta = at_component input.score.left c -ℤ at_component input.score.right c in
    if not (eqb_ℤ delta (pos 0))
    then ok (resolution_for input (side_of_delta delta) (some (by_component c)) (pos 0))
    else rest

unfoldable pub resolve_battle : Hashing → ResolutionInput → Result Resolution
unfolding break_tie
resolve_battle hashing input =
    let total_delta = input.score.left_total -ℤ input.score.right_total in
    if not (eqb_ℤ total_delta (pos 0))
    then ok (
        resolution_for input (side_of_delta total_delta) none
          (if ltb_ℤ (pos 0) total_delta then total_delta else negate total_delta))
    else break_tie hashing input tiebreak_order

pub record VictoryThresholds : Type 0 where
  pub narrow_margin : ℤ
  pub decisive_margin : ℤ

pub record ClassificationInput : Type 0 where
  pub margin : ℤ
  pub winner_confidence : ConfidenceLabel
  pub was_comeback : Bool
  pub thresholds : VictoryThresholds

-- The labels that do not come from the pre-battle confidence.
label_of_margin : ClassificationInput → VictoryLabel
label_of_margin input =
    if input.was_comeback
    then comeback_victory
    else if leb_ℤ input.margin input.thresholds.narrow_margin
    then narrow_victory
    else if leb_ℤ input.thresholds.decisive_margin input.margin
    then decisive_victory
    else victory

label_of_confidence : ClassificationInput → ConfidenceLabel → VictoryLabel
unfolding label_of_margin
label_of_confidence input heavy_underdog = major_upset
label_of_confidence input underdog = upset_victory
label_of_confidence input _ = label_of_margin input

unfoldable pub classify_victory : ClassificationInput → Result VictoryLabel
unfolding label_of_confidence
classify_victory input =
    if ltb_ℤ input.thresholds.narrow_margin (pos 0)
      || ltb_ℤ input.thresholds.decisive_margin input.thresholds.narrow_margin
    then err range_error
    else ok (label_of_confidence input input.winner_confidence)
