-- ===== src/BattleMath/Momentum.antt =====
-- packages/battle-math/src/momentum.ts: the momentum of a battle, read off its advantage.
pub mod Comebacks
use ponswars.Base.{
  ℕ, ◌+◌, ◌==◌, ◌&&◌, ◌||◌, Bool, true, false, Result, ok, err, range_error, if◌then◌else◌,
}
use ponswars.Base.Int.{ℤ, pos, ◌+ℤ◌, ◌-ℤ◌, ◌*ℤ◌, negate, quotient, ltb_ℤ, leb_ℤ, eqb_ℤ}
use ponswars.Shared.Labels.{MomentumState, contested, pushing, surging, dominating, comeback}
use ponswars.BattleMath.Scale.{ratio_scale, clamp_unit}
use ponswars.BattleMath.Scoring.{full_score_scaled}

pub record MomentumThresholds : Type 0 where
  pub push : ℤ
  pub surge : ℤ
  pub dominance : ℤ
  pub comeback : ℤ

pub record MomentumMemory : Type 0 where
  pub peak_left : ℤ
  pub peak_right : ℤ
  pub previous : ℤ
  pub ticks : ℕ

abbrev pub initial_momentum_memory : MomentumMemory
initial_momentum_memory = record {
  peak_left = pos 0;
  peak_right = pos 0;
  previous = pos 0;
  ticks = 0;
}

-- The two floating-point values for display, `frontline` and `intensity`, are left out.
pub record MomentumSample : Type 0 where
  pub state : MomentumState
  pub advantage : ℤ
  pub velocity : ℤ
  pub memory : MomentumMemory

unfoldable pub advantage_from_scores : ℤ → ℤ → ℤ
advantage_from_scores left_total right_total =
    let total = left_total +ℤ right_total in
    if leb_ℤ total (pos 0)
    then pos 0
    else clamp_unit (quotient ((left_total -ℤ right_total) *ℤ pos ratio_scale) total)

unfoldable pub magnitude : ℤ → ℤ
magnitude value = if ltb_ℤ value (pos 0) then negate value else value

-- The test of `assertThresholds`, true where it throws.
unfoldable pub refuses_thresholds : MomentumThresholds → Bool
refuses_thresholds t =
    (leb_ℤ t.push (pos 0) || (leb_ℤ t.surge t.push || leb_ℤ t.dominance t.surge))
    || (leb_ℤ t.comeback (pos 0) || ltb_ℤ (pos ratio_scale) t.comeback)

-- `a > b ? a : b`
unfoldable pub larger : ℤ → ℤ → ℤ
larger a b = if ltb_ℤ b a then a else b

-- Whether the other side had led by the comeback threshold before this tick.
unfoldable pub trailed_badly : MomentumMemory → ℤ → ℤ → Bool
trailed_badly memory clamped threshold =
    if ltb_ℤ (pos 0) clamped
    then leb_ℤ threshold memory.peak_right
    else leb_ℤ threshold memory.peak_left

-- The state of a tick from its lead.
unfoldable pub momentum_state : Bool → ℤ → MomentumThresholds → MomentumState
momentum_state is_comeback lead t =
    if is_comeback
    then MomentumState.comeback
    else if leb_ℤ t.dominance lead
    then dominating
    else if leb_ℤ t.surge lead
    then surging
    else if leb_ℤ t.push lead
    then pushing
    else contested

unfoldable pub next_memory : MomentumMemory → ℤ → MomentumMemory
next_memory memory clamped = record {
  peak_left = larger clamped memory.peak_left;
  peak_right = larger (negate clamped) memory.peak_right;
  previous = clamped;
  ticks = memory.ticks + 1;
}

unfoldable pub next_momentum : MomentumMemory → ℤ → MomentumThresholds → Result MomentumSample
next_momentum memory advantage thresholds =
    if refuses_thresholds thresholds
    then err range_error
    else (let clamped = clamp_unit advantage in
        let lead = magnitude clamped in
        ok (record {
          state =
              momentum_state
                (ltb_ℤ (pos 0) lead && trailed_badly memory clamped thresholds.comeback) lead
                thresholds;
          advantage = clamped;
          velocity = if memory.ticks == 0 then pos 0 else clamped -ℤ memory.previous;
          memory = next_memory memory clamped;
        }))

unfoldable pub was_comeback : MomentumMemory → ℤ → ℤ → Bool
was_comeback memory final_advantage threshold =
    if eqb_ℤ final_advantage (pos 0)
    then false
    else if ltb_ℤ (pos 0) final_advantage
    then leb_ℤ threshold memory.peak_right
    else leb_ℤ threshold memory.peak_left

unfoldable pub advantage_from_battle_score : ℤ → ℤ
advantage_from_battle_score left_total =
    advantage_from_scores left_total (pos full_score_scaled -ℤ left_total)
