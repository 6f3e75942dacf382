-- ===== src/BattleMath/Confidence.antt =====
-- packages/battle-math/src/confidence.ts: the labels of a matchup before its battle.
pub mod Matchups
use ponswars.Base.{
  ℕ, ◌+◌, ◌*◌, ◌==◌, ◌&&◌, ◌||◌, not, Bool, true, false, List, [], ◌∷◌, ltb, leb, if◌then◌else◌,
  Result, ok, err, range_error, ◌>>=◌, ◌>>◌, throw_if,
}
use ponswars.Base.Int.{ℤ, pos, ◌-ℤ◌, negate, ltb_ℤ, leb_ℤ, eqb_ℤ}
use ponswars.Shared.Labels.{
  ConfidenceLabel, heavy_underdog, underdog, even, favored, strong_favorite, dominant,
}
use ponswars.BattleMath.Scale.{div_scaled}

pub record ConfidenceLookback : Type 0 where
  pub window_return : ℤ
  pub volatility : ℤ
  pub relative_volume : ℤ
  pub qualified_pons_activity : ℤ
  pub sub_window_returns : List ℤ

-- The nested records of the source, one field for each of their fields.
pub record ConfidenceCalibration : Type 0 where
  pub trend_strong : ℤ
  pub trend_weak : ℤ
  pub pulse_rising : ℤ
  pub pulse_weak : ℤ
  pub activity_high : ℤ
  pub activity_medium : ℤ
  pub stability_stable : ℤ
  pub stability_mixed : ℤ
  pub matchup_favored : ℤ
  pub matchup_strong_favorite : ℤ
  pub matchup_dominant : ℤ

-- The four kinds of signal have three levels each: STRONG, MIXED and WEAK for the price trend,
-- RISING, NORMAL and WEAK for the volume, HIGH, MEDIUM and LOW for the activity, and STABLE, MIXED
-- and UNSTABLE for the momentum.
pub data Signal : Type 0 where
  above between below : Signal

-- The rank of a signal, in each of the four tables.
abbrev pub signal_rank : Signal → ℕ
signal_rank above = 2
signal_rank between = 1
signal_rank below = 0

pub record SubSignals : Type 0 where
  pub price_trend : Signal
  pub volume_pulse : Signal
  pub pons_activity : Signal
  pub momentum_stability : Signal

abbrev pub recent_price_trend : ℕ
recent_price_trend = 40

abbrev pub relative_volume_pulse : ℕ
relative_volume_pulse = 25

abbrev pub pons_activity_weight : ℕ
pons_activity_weight = 20

abbrev pub recent_momentum_stability : ℕ
recent_momentum_stability = 15

abbrev pub max_confidence_standing : ℕ
max_confidence_standing =
    2
    * (recent_price_trend + relative_volume_pulse + pons_activity_weight
        + recent_momentum_stability)

-- `value > 0n ? 1 : value < 0n ? -1 : 0`
direction_of : ℤ → ℤ
direction_of value =
    if ltb_ℤ (pos 0) value then pos 1 else if ltb_ℤ value (pos 0) then negate (pos 1) else pos 0

-- The loop of `directionChanges`, with its two variables.
count_changes : ℕ → ℤ → List ℤ → ℕ
unfolding direction_of
count_changes changes previous [] = changes
count_changes changes previous (value ∷ values) =
    let direction = direction_of value in
    let turned = not (eqb_ℤ previous (pos 0)) && not (eqb_ℤ direction previous) in
    if not (eqb_ℤ direction (pos 0))
    then count_changes (if turned then changes + 1 else changes) direction values
    else count_changes changes previous values

unfoldable pub direction_changes : List ℤ → ℕ
unfolding count_changes
direction_changes returns = count_changes 0 (pos 0) returns

unfoldable pub band_of : ℤ → ℤ → ℤ → Signal
band_of value high low =
    if leb_ℤ high value then above else if leb_ℤ value low then below else between

unfoldable pub sub_signals : ConfidenceLookback → ConfidenceCalibration → Result SubSignals
unfolding band_of
sub_signals lookback calibration =
    if leb_ℤ lookback.volatility (pos 0)
    then err range_error
    else (div_scaled lookback.window_return lookback.volatility >>= λ adjusted_return.
        let changes = pos (direction_changes lookback.sub_window_returns) in
        ok (record {
          price_trend = band_of adjusted_return calibration.trend_strong calibration.trend_weak;
          volume_pulse =
              band_of lookback.relative_volume calibration.pulse_rising calibration.pulse_weak;
          pons_activity =
              if leb_ℤ calibration.activity_high lookback.qualified_pons_activity
              then above
              else if leb_ℤ calibration.activity_medium lookback.qualified_pons_activity
              then between
              else below;
          momentum_stability =
              if leb_ℤ changes calibration.stability_stable
              then above
              else if leb_ℤ changes calibration.stability_mixed
              then between
              else below;
        }))

unfoldable pub standing : SubSignals → ℕ
standing signals =
    recent_price_trend * signal_rank signals.price_trend
    + relative_volume_pulse * signal_rank signals.volume_pulse
    + pons_activity_weight * signal_rank signals.pons_activity
    + recent_momentum_stability * signal_rank signals.momentum_stability

unfoldable pub labels_for_gap : ℤ → ConfidenceCalibration → ConfidenceLabel × ConfidenceLabel
labels_for_gap gap c =
    if leb_ℤ c.matchup_dominant gap
    then (dominant, heavy_underdog)
    else if leb_ℤ c.matchup_strong_favorite gap
    then (strong_favorite, underdog)
    else if leb_ℤ c.matchup_favored gap
    then (favored, underdog)
    else if leb_ℤ gap (negate c.matchup_dominant)
    then (heavy_underdog, dominant)
    else if leb_ℤ gap (negate c.matchup_strong_favorite)
    then (underdog, strong_favorite)
    else if leb_ℤ gap (negate c.matchup_favored)
    then (underdog, favored)
    else (even, even)

pub record ConfidenceSnapshot : Type 0 where
  pub label : ConfidenceLabel
  pub signals : SubSignals

pub record MatchupConfidence : Type 0 where
  pub left : ConfidenceSnapshot
  pub right : ConfidenceSnapshot

-- Whole numbers are whole, so the two tests of `Number.isInteger` are left out.
unfoldable pub assert_calibration : ConfidenceCalibration → Result (Unit {0})
assert_calibration c =
    throw_if (leb_ℤ c.trend_strong c.trend_weak) range_error
    >> (throw_if (leb_ℤ c.pulse_rising c.pulse_weak) range_error
        >> (throw_if (ltb_ℤ c.activity_high c.activity_medium) range_error
            >> (throw_if
                  (ltb_ℤ c.stability_stable (pos 0) || ltb_ℤ c.stability_mixed c.stability_stable)
                  range_error
                >> (throw_if
                      (leb_ℤ c.matchup_favored (pos 0)
                        || (leb_ℤ c.matchup_strong_favorite c.matchup_favored
                            || leb_ℤ c.matchup_dominant c.matchup_strong_favorite))
                      range_error
                    >> throw_if (ltb_ℤ (pos max_confidence_standing) c.matchup_dominant)
                        range_error))))

unfoldable pub matchup_confidence :
    ConfidenceLookback → ConfidenceLookback → ConfidenceCalibration → Result MatchupConfidence
matchup_confidence left right calibration =
    assert_calibration calibration
    >> (sub_signals left calibration >>= λ left_signals.
        sub_signals right calibration >>= λ right_signals.
        let labels =
          labels_for_gap (pos (standing left_signals) -ℤ pos (standing right_signals))
            calibration in
        ok (record {
          left = record { label = labels.0; signals = left_signals };
          right = record { label = labels.1; signals = right_signals };
        }))
