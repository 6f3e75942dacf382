-- ===== src/BattleEngine/Driver.antt =====
-- packages/battle-engine/src/driver.ts: what a round is due for.
use ponswars.Base.{ℕ, ◌-◌, ◌&&◌, Bool, ltb, leb, if◌then◌else◌, Result, ok, err, range_error}
use ponswars.Shared.Round.{RoundState, CanonicalClock, is_terminal_round_state, final_push_duration}
use ponswars.BattleEngine.Rounds.{RoundEngineState}

-- The text of a reason is left out.
pub data RoundAction : Type 0 where
  wait : (until : ℕ) → RoundAction
  accept_picks : (closes_at : ℕ) → RoundAction
  lock : RoundAction
  tick : (deadline : ℕ) → RoundAction
  finalize : RoundAction
  finalization_overdue : (waited_for : ℕ) → RoundAction
  done : RoundState → RoundAction

-- The switch on the state of a round that is not over; the other two are answered before it.
unfoldable pub action_for : CanonicalClock → ℕ → ℕ → RoundState → RoundAction
action_for clock now max_wait RoundState.preparing = wait clock.pick_open_at
action_for clock now max_wait RoundState.pick_open =
    if ltb now clock.lock_at then accept_picks clock.lock_at else lock
action_for clock now max_wait RoundState.locking = lock
action_for clock now max_wait RoundState.battle_live =
    if ltb now clock.battle_end_at then tick clock.battle_end_at else finalize
action_for clock now max_wait RoundState.finalizing =
    let waited = now - clock.battle_end_at in
    if ltb max_wait waited then finalization_overdue waited else wait clock.battle_end_at
action_for clock now max_wait RoundState.finalized = done RoundState.finalized
action_for clock now max_wait RoundState.void = done RoundState.void

unfoldable pub next_round_action : RoundEngineState → ℕ → ℕ → Result RoundAction
unfolding action_for
next_round_action state now finalization_max_wait =
    if ltb now state.clock.pick_open_at
    then err range_error
    else if is_terminal_round_state state.state
    then ok (done state.state)
    else ok (action_for state.clock now finalization_max_wait state.state)

unfoldable pub is_final_push : CanonicalClock → ℕ → Bool
is_final_push clock now =
    leb (clock.battle_end_at - final_push_duration) now && ltb now clock.battle_end_at

unfoldable pub next_round_opens_at : CanonicalClock → ℕ
next_round_opens_at clock = clock.battle_end_at

-- A difference that would not be positive is zero here, as the source's test makes it.
unfoldable pub poll_delay : RoundAction → ℕ → ℕ → ℕ
poll_delay (wait until) now max_delay =
    if leb until now then 0 else if ltb (until - now) max_delay then until - now else max_delay
poll_delay _ now max_delay = 0
