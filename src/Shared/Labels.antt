-- ===== src/Shared/Labels.antt =====
-- The label sets of packages/shared-types/src: battle.ts, confidence.ts, feed.ts and rewards.ts.
pub mod Windows
use ponswars.Base.{
  any, ◌==◌, ℕ, ◌+◌, Bool, true, false, not, List, [], ◌∷◌, if◌then◌else◌, Option, some, none,
}

pub data BattleSide : Type 0 where
  left_side right_side : BattleSide

unfoldable pub opposing_side : BattleSide → BattleSide
opposing_side left_side = right_side
opposing_side right_side = left_side

-- `BattleScoreComponent`
pub data Component : Type 0 where
  price_momentum relative_volume pons_power holder_card_support : Component

abbrev pub battle_score_components : List Component
battle_score_components = price_momentum ∷ relative_volume ∷ pons_power ∷ holder_card_support ∷ []

abbrev pub battle_score_weight : Component → ℕ
battle_score_weight price_momentum = 45
battle_score_weight relative_volume = 25
battle_score_weight pons_power = 20
battle_score_weight holder_card_support = 10

-- `TiebreakStep`: a component of the score, or the finalized block hash.
pub data TiebreakStep : Type 0 where
  by_component : Component → TiebreakStep
  chain_derived : TiebreakStep

abbrev pub tiebreak_order : List TiebreakStep
tiebreak_order =
    by_component price_momentum
    ∷ by_component relative_volume
    ∷ by_component pons_power
    ∷ chain_derived
    ∷ []

pub data MomentumState : Type 0 where
  contested pushing surging dominating comeback : MomentumState

pub data VictoryLabel : Type 0 where
  narrow_victory victory decisive_victory upset_victory major_upset comeback_victory : VictoryLabel

pub data ConfidenceLabel : Type 0 where
  heavy_underdog underdog even favored strong_favorite dominant : ConfidenceLabel

pub data FeedHealth : Type 0 where
  healthy degraded stale unavailable : FeedHealth

unfoldable pub is_scorable : FeedHealth → Bool
is_scorable healthy = true
is_scorable degraded = true
is_scorable stale = false
is_scorable unavailable = false

unfoldable pub requires_void : FeedHealth → Bool
unfolding is_scorable
requires_void health = not (is_scorable health)

pub data VoidReason : Type 0 where
  data_integrity market_halt : VoidReason

pub data WpAwardReason : Type 0 where
  win underdog_win heavy_underdog_win card_assist : WpAwardReason

abbrev pub wp_awards : WpAwardReason → ℕ
wp_awards win = 10
wp_awards underdog_win = 12
wp_awards heavy_underdog_win = 14
wp_awards card_assist = 2

unfoldable pub base_wp_award_reason : ConfidenceLabel → WpAwardReason
base_wp_award_reason heavy_underdog = heavy_underdog_win
base_wp_award_reason underdog = underdog_win
base_wp_award_reason _ = win

unfoldable pub winning_pick_wp : ConfidenceLabel → Bool → ℕ
unfolding base_wp_award_reason
winning_pick_wp confidence card_deployed =
    let base = wp_awards (base_wp_award_reason confidence) in
    if card_deployed then base + wp_awards card_assist else base

unfoldable pub upset_label_for : ConfidenceLabel → Option VictoryLabel
upset_label_for heavy_underdog = some major_upset
upset_label_for underdog = some upset_victory
upset_label_for _ = none

unfoldable pub is_underdog_label : ConfidenceLabel → Bool
is_underdog_label heavy_underdog = true
is_underdog_label underdog = true
is_underdog_label _ = false

unfoldable pub is_upset : ConfidenceLabel → Bool
unfolding is_underdog_label
is_upset winner_confidence = is_underdog_label winner_confidence

-- The states of a distribution window.
pub data DistributionState : Type 0 where
  window_open snapshot calculated published closed : DistributionState

abbrev pub distribution_tag : DistributionState → ℕ
distribution_tag window_open = 0
distribution_tag snapshot = 1
distribution_tag calculated = 2
distribution_tag published = 3
distribution_tag closed = 4

abbrev pub distribution_transitions : DistributionState → List DistributionState
distribution_transitions window_open = snapshot ∷ []
distribution_transitions snapshot = calculated ∷ []
distribution_transitions calculated = published ∷ []
distribution_transitions published = closed ∷ []
distribution_transitions closed = []

unfoldable pub can_transition_distribution : DistributionState → DistributionState → Bool
can_transition_distribution from to =
    any (λ s. distribution_tag s == distribution_tag to) (distribution_transitions from)
