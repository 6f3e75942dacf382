-- ===== src/BattleMath/Scoring.antt =====
-- packages/battle-math/src/scoring.ts: one hundred points shared between two stocks.
pub mod Halves
pub mod Cards
pub mod Total
pub mod Inputs
use ponswars.Base.{
  ℕ, ◌+◌, ◌*◌, ◌||◌, List, [], ◌∷◌, Result, ok, err, range_error, ◌>>=◌, if◌then◌else◌,
}
use ponswars.Base.Int.{ℤ, pos, ◌+ℤ◌, ◌-ℤ◌, ◌*ℤ◌, quotient, ltb_ℤ, leb_ℤ, eqb_ℤ}
use ponswars.Shared.Labels.{
  Component, price_momentum, relative_volume, pons_power, holder_card_support,
  battle_score_components, battle_score_weight,
}
use ponswars.Shared.Cards.{CardType, card_support}
use ponswars.Shared.Money.{integer_sqrt}
use ponswars.BattleMath.Scale.{ratio_scale, points, clamp_unit, div_scaled}

pub record ScoringCalibration : Type 0 where
  pub price_edge_divisor : ℤ
  pub volume_edge_divisor : ℤ
  pub pons_edge_divisor : ℤ
  pub card_edge_divisor : ℤ

pub record AggregateCardSupport : Type 0 where
  pub market : ℤ
  pub volume : ℤ
  pub pons : ℤ
  pub general : ℤ

abbrev pub no_card_support : AggregateCardSupport
no_card_support = record { market = pos 0; volume = pos 0; pons = pos 0; general = pos 0 }

-- The body of the loop of `aggregateCardSupport`, on the four running totals.
add_card : AggregateCardSupport → CardType → AggregateCardSupport
add_card total card =
    let support = card_support card in
    record {
      market = total.market +ℤ pos support.market;
      volume = total.volume +ℤ pos support.volume;
      pons = total.pons +ℤ pos support.pons;
      general = total.general +ℤ pos support.general;
    }

add_cards : AggregateCardSupport → List CardType → AggregateCardSupport
unfolding add_card
add_cards total [] = total
add_cards total (card ∷ cards) = add_cards (add_card total card) cards

unfoldable pub aggregate_card_support : List CardType → AggregateCardSupport
unfolding add_cards
aggregate_card_support cards = add_cards no_card_support cards

pub record SideInputs : Type 0 where
  pub window_return : ℤ
  pub volatility : ℤ
  pub relative_volume : ℤ
  pub qualified_pons_activity : ℤ
  pub unique_active_wallets : ℤ
  pub card_support : AggregateCardSupport

pub record ScaledBreakdown : Type 0 where
  pub price_momentum : ℤ
  pub relative_volume : ℤ
  pub pons_power : ℤ
  pub holder_card_support : ℤ

-- `breakdown[component]`
abbrev pub at_component : ScaledBreakdown → Component → ℤ
at_component b price_momentum = b.price_momentum
at_component b relative_volume = b.relative_volume
at_component b pons_power = b.pons_power
at_component b holder_card_support = b.holder_card_support

pub record BattleScore : Type 0 where
  pub left : ScaledBreakdown
  pub right : ScaledBreakdown
  pub left_total : ℤ
  pub right_total : ℤ
  pub edges : ScaledBreakdown

pub record Split : Type 0 where
  pub left : ℤ
  pub right : ℤ

unfoldable pub split_by_edge : ℤ → ℤ → Split
split_by_edge weight_scaled edge =
    let left =
      quotient (weight_scaled *ℤ (pos ratio_scale +ℤ clamp_unit edge)) (pos (2 * ratio_scale)) in
    record { left = left; right = weight_scaled -ℤ left }

unfoldable pub edge_from_difference : ℤ → ℤ → ℤ → Result ℤ
edge_from_difference left right divisor =
    if leb_ℤ divisor (pos 0)
    then err range_error
    else if eqb_ℤ left right
    then ok (pos 0)
    else (div_scaled (left -ℤ right) divisor >>= λ q. ok (clamp_unit q))

unfoldable pub volatility_adjusted_return : SideInputs → Result ℤ
volatility_adjusted_return side =
    if leb_ℤ side.volatility (pos 0)
    then err range_error
    else div_scaled side.window_return side.volatility

-- `PONS_POWER_COMPOSITION`
abbrev pub qualified_activity_share : ℤ
qualified_activity_share = pos 70

abbrev pub unique_wallets_share : ℤ
unique_wallets_share = pos 30

unfoldable pub pons_strength : SideInputs → Result ℤ
pons_strength side =
    if ltb_ℤ side.qualified_pons_activity (pos 0) || ltb_ℤ side.unique_active_wallets (pos 0)
    then err range_error
    else (integer_sqrt (side.qualified_pons_activity *ℤ pos ratio_scale *ℤ pos ratio_scale)
        >>= λ activity.
            integer_sqrt (side.unique_active_wallets *ℤ pos ratio_scale *ℤ pos ratio_scale)
            >>= λ wallets. ok (
                quotient
                  (pos activity *ℤ qualified_activity_share +ℤ pos wallets *ℤ unique_wallets_share)
                  (pos 100)))

-- The weight of a component as a `bigint`.
abbrev weight : Component → ℤ
weight c = pos (battle_score_weight c)

abbrev channel_total : ℤ
channel_total = pos (
    battle_score_weight Component.price_momentum
    + battle_score_weight Component.relative_volume
    + battle_score_weight Component.pons_power)

-- One channel's support with its share of the general support, weighted.
abbrev channel : AggregateCardSupport → ℤ → Component → ℤ
channel support raw c = (raw +ℤ quotient (support.general *ℤ weight c) channel_total) *ℤ weight c

unfoldable pub card_support_strength : AggregateCardSupport → Result ℤ
card_support_strength support =
    if ltb_ℤ support.market (pos 0)
      || (ltb_ℤ support.volume (pos 0)
          || (ltb_ℤ support.pons (pos 0) || ltb_ℤ support.general (pos 0)))
    then err range_error
    else (let effective =
          channel support support.market Component.price_momentum
          +ℤ channel support support.volume Component.relative_volume
          +ℤ channel support support.pons Component.pons_power in
        integer_sqrt (quotient effective channel_total *ℤ pos ratio_scale *ℤ pos ratio_scale)
        >>= λ root. ok (pos root))

sum_components : ScaledBreakdown → ℤ → List Component → ℤ
sum_components breakdown sum [] = sum
sum_components breakdown sum (c ∷ cs) =
    sum_components breakdown (sum +ℤ at_component breakdown c) cs

unfoldable pub total_of : ScaledBreakdown → ℤ
unfolding sum_components
total_of breakdown = sum_components breakdown (pos 0) battle_score_components

-- The score that four edges give.
unfoldable pub score_of_edges : ScaledBreakdown → BattleScore
score_of_edges edges =
    let price = split_by_edge (pos (points 45)) edges.price_momentum in
    let volume = split_by_edge (pos (points 25)) edges.relative_volume in
    let pons = split_by_edge (pos (points 20)) edges.pons_power in
    let cards = split_by_edge (pos (points 10)) edges.holder_card_support in
    let left : ScaledBreakdown = record {
      price_momentum = price.left;
      relative_volume = volume.left;
      pons_power = pons.left;
      holder_card_support = cards.left;
    } in
    let right : ScaledBreakdown = record {
      price_momentum = price.right;
      relative_volume = volume.right;
      pons_power = pons.right;
      holder_card_support = cards.right;
    } in
    record {
      left = left;
      right = right;
      left_total = total_of left;
      right_total = total_of right;
      edges = edges;
    }

-- The four edges between two sides, each with its own divisor.
unfoldable pub edges_between : SideInputs → SideInputs → ScoringCalibration → Result ScaledBreakdown
edges_between left right calibration = do
  left_return ← volatility_adjusted_return left
  right_return ← volatility_adjusted_return right
  price ← edge_from_difference left_return right_return calibration.price_edge_divisor
  volume ←
      edge_from_difference left.relative_volume right.relative_volume
        calibration.volume_edge_divisor
  left_pons ← pons_strength left
  right_pons ← pons_strength right
  pons ← edge_from_difference left_pons right_pons calibration.pons_edge_divisor
  left_cards ← card_support_strength left.card_support
  right_cards ← card_support_strength right.card_support
  cards ← edge_from_difference left_cards right_cards calibration.card_edge_divisor
  ok (record {
    price_momentum = price;
    relative_volume = volume;
    pons_power = pons;
    holder_card_support = cards;
  })

unfoldable pub score_battle : SideInputs → SideInputs → ScoringCalibration → Result BattleScore
score_battle left right calibration =
    edges_between left right calibration >>= λ edges. ok (score_of_edges edges)

-- `FULL_BATTLE_SCORE_SCALED`
abbrev pub full_score_scaled : ℕ
full_score_scaled = 100_000_000
