-- ===== src/Shared/Round.antt =====
-- packages/shared-types/src/round.ts and time.ts: the clock of a round and its state machines.
pub mod Lifecycle
use ponswars.Base.{
  ℕ, ◌+◌, ◌-◌, ◌*◌, Bool, true, false, ◌&&◌, ◌==◌, List, [], ◌∷◌, ltb, leb, if◌then◌else◌, any,
}

-- Times and durations are whole milliseconds.
abbrev pub minutes : ℕ → ℕ
minutes count = count * 60_000

abbrev pub round_duration : ℕ
round_duration = minutes 10

abbrev pub pick_phase_duration : ℕ
pick_phase_duration = minutes 1

abbrev pub battle_duration : ℕ
battle_duration = minutes 9

abbrev pub battles_per_round : ℕ
battles_per_round = 5

abbrev pub matchup_cooldown_rounds : ℕ
matchup_cooldown_rounds = 2

pub data RoundState : Type 0 where
  preparing pick_open locking battle_live finalizing finalized void : RoundState

abbrev pub round_state_transitions : RoundState → List RoundState
round_state_transitions preparing = pick_open ∷ void ∷ []
round_state_transitions pick_open = locking ∷ void ∷ []
round_state_transitions locking = battle_live ∷ void ∷ []
round_state_transitions battle_live = finalizing ∷ void ∷ []
round_state_transitions finalizing = finalized ∷ void ∷ []
round_state_transitions finalized = []
round_state_transitions void = []

-- The place of a state in the order of `ROUND_STATES`.
abbrev pub round_tag : RoundState → ℕ
round_tag preparing = 0
round_tag pick_open = 1
round_tag locking = 2
round_tag battle_live = 3
round_tag finalizing = 4
round_tag finalized = 5
round_tag void = 6

-- `===` on states.
abbrev pub round_state_eq : RoundState → RoundState → Bool
round_state_eq a b = round_tag a == round_tag b

unfoldable pub can_transition_round : RoundState → RoundState → Bool
can_transition_round from to = any (λ s. round_state_eq s to) (round_state_transitions from)

unfoldable pub is_terminal_round_state : RoundState → Bool
is_terminal_round_state state = any (λ s. round_state_eq s state) (finalized ∷ void ∷ [])

unfoldable pub accepts_pick_mutation : RoundState → Bool
accepts_pick_mutation state = round_state_eq state pick_open

unfoldable pub may_reveal_exact_score : RoundState → Bool
may_reveal_exact_score state = round_state_eq state finalized

pub data BattleState : Type 0 where
  scheduled live finalized void : BattleState

abbrev pub battle_state_transitions : BattleState → List BattleState
battle_state_transitions scheduled = live ∷ BattleState.void ∷ []
battle_state_transitions live = BattleState.finalized ∷ BattleState.void ∷ []
battle_state_transitions BattleState.finalized = []
battle_state_transitions BattleState.void = []

abbrev pub battle_tag : BattleState → ℕ
battle_tag scheduled = 0
battle_tag live = 1
battle_tag BattleState.finalized = 2
battle_tag BattleState.void = 3

abbrev pub battle_state_eq : BattleState → BattleState → Bool
battle_state_eq a b = battle_tag a == battle_tag b

unfoldable pub can_transition_battle : BattleState → BattleState → Bool
can_transition_battle from to = any (λ s. battle_state_eq s to) (battle_state_transitions from)

pub record CanonicalClock : Type 0 where
  pub server_time : ℕ
  pub pick_open_at : ℕ
  pub lock_at : ℕ
  pub battle_start_at : ℕ
  pub battle_end_at : ℕ

unfoldable pub build_canonical_clock : ℕ → ℕ → CanonicalClock
build_canonical_clock pick_open_at server_time =
    let lock_at = pick_open_at + pick_phase_duration in
    record {
      server_time = server_time;
      pick_open_at = pick_open_at;
      lock_at = lock_at;
      battle_start_at = lock_at;
      battle_end_at = pick_open_at + round_duration;
    }

pub data DisplayPhase : Type 0 where
  before_round pick_open battle_live after_cutoff : DisplayPhase

unfoldable pub display_phase_at : CanonicalClock → ℕ → DisplayPhase
display_phase_at clock at =
    if ltb at clock.pick_open_at
    then DisplayPhase.before_round
    else if ltb at clock.lock_at
    then DisplayPhase.pick_open
    else if ltb at clock.battle_end_at
    then DisplayPhase.battle_live
    else DisplayPhase.after_cutoff

-- Subtraction on the native numbers stops at zero, as the source's does by its test.
unfoldable pub remaining_until : ℕ → ℕ → ℕ
remaining_until at target = target - at

abbrev pub final_push_duration : ℕ
final_push_duration = 30 * 1_000

unfoldable pub is_final_push : CanonicalClock → ℕ → Bool
is_final_push clock at =
    leb clock.battle_start_at at
    && (ltb at clock.battle_end_at && leb (clock.battle_end_at - at) final_push_duration)
