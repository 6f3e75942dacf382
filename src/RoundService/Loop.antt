-- ===== src/RoundService/Loop.antt =====
-- packages/round-service/src/loop.ts: one turn of the round loop.
pub mod Ordered
pub mod Told
pub mod Stored
pub mod Lively
pub mod Performed
pub mod Answering
pub mod Advances
use ponswars.Base.{
  ℕ, not, Bool, true, false, List, [], ◌∷◌, ◌++◌, Option, none, some, any, map, if◌then◌else◌,
  Result, ok, err, ◌>>=◌,
}
use ponswars.Base.Text.{Text, text_eq}
use ponswars.Base.Hashing.{Hashing}
use ponswars.Shared.Labels.{VoidReason}
use ponswars.BattleMath.Scoring.{AggregateCardSupport, SideInputs}
use ponswars.BattleEngine.Battle.{
  BattleEngineState, EngineConfig, TickInput, TickOutcome, ignored, updated, voided,
  PublicBattleStateUpdate, apply_tick,
}
use ponswars.BattleEngine.Rounds.{
  LockedPick, RoundEngineState, RoundFinalization, lock_round, needs_finalization_block_hash,
  finalize_round,
}
use ponswars.BattleEngine.Driver.{
  RoundAction, wait, accept_picks, lock, tick, finalize, finalization_overdue, done,
  next_round_action,
}
use ponswars.Realtime.Envelope.{round_channel, battle_channel}
use ponswars.RoundService.Ports.{
  MarketObservation, ObservationWindow, Matchup, Payload, picks_locked, battle_state_update,
  battle_void, round_finalized, RoundPorts, World, Action, on_action, save_state, save_finalization,
  publish, publish_all,
}

pub record StepResult : Type 0 where
  pub state : RoundEngineState
  pub action : RoundAction
  pub finalization : Option RoundFinalization

unfoldable pub matchup_of : BattleEngineState → Matchup
matchup_of battle = record {
  battle_id = battle.setup.battle_id;
  left = battle.setup.left;
  right = battle.setup.right;
}

-- Goes on from a value that may be an error.
abbrev pub on_result : {A B : Type 0} → Result A → (A → Action B) → Action B
on_result (ok a) rest world = rest a world
on_result (err e) rest world = (err e, world)

unfoldable pub perform_lock : RoundPorts → RoundEngineState → Action RoundEngineState
unfolding matchup_of
perform_lock ports state = on_result (ports.locked_picks state.round_id) λ picks.
    on_result (lock_round state state.clock.lock_at picks) λ locked world.
      on_action (save_state ports locked world) λ _ saved.
        on_action
          (publish ports (round_channel state.round_id) state.clock.lock_at
            (picks_locked state.round_id (map matchup_of locked.battles)) saved)
          λ _ after. (ok locked, after)

-- The inputs of a side with the card support of the battle.
unfoldable pub supported : MarketObservation → AggregateCardSupport → SideInputs
supported observation support = record observation.inputs { card_support = support }

unfoldable pub observe_tick :
    Hashing → RoundPorts → EngineConfig → ℕ → BattleEngineState → Result TickOutcome
unfolding supported
observe_tick hashing ports config now battle =
    let window : ObservationWindow = record {
      opens_at = battle.setup.clock.battle_start_at;
      at = now;
    } in
    ports.observe battle.setup.left window >>= λ left.
    ports.observe battle.setup.right window >>= λ right.
    apply_tick hashing battle
      (record {
        at = now;
        left = supported left battle.card_support.left;
        right = supported right battle.card_support.right;
        left_health = left.health;
        right_health = right.health;
      })
      config

-- What the loop over the battles has gathered: their states, and the updates to publish.
pub record Ticked : Type 0 where
  pub battles : List BattleEngineState
  pub to_publish : List (Text × ℕ × Payload)

unfoldable pub gather_tick : ℕ → BattleEngineState → TickOutcome → Ticked → Ticked
gather_tick now battle (ignored why after) rest = record {
  battles = after ∷ rest.battles;
  to_publish = rest.to_publish;
}
gather_tick now battle (updated after update) rest = record {
  battles = after ∷ rest.battles;
  to_publish =
      (battle_channel battle.setup.battle_id, now, battle_state_update update) ∷ rest.to_publish;
}
gather_tick now battle (voided after reason) rest = record {
  battles = after ∷ rest.battles;
  to_publish = rest.to_publish;
}

unfoldable pub tick_battles :
    Hashing → RoundPorts → EngineConfig → ℕ → List BattleEngineState → Result Ticked
unfolding observe_tick gather_tick
tick_battles hashing ports config now [] = ok (record { battles = []; to_publish = [] })
tick_battles hashing ports config now (battle ∷ battles) =
    observe_tick hashing ports config now battle >>= λ outcome.
    tick_battles hashing ports config now battles >>= λ rest.
    ok (gather_tick now battle outcome rest)

unfoldable pub perform_tick :
    Hashing → RoundPorts → EngineConfig → RoundEngineState → ℕ → Action RoundEngineState
perform_tick hashing ports config state now =
    on_result (tick_battles hashing ports config now state.battles) λ ticked world.
      let next = record state { battles = ticked.battles } in
      on_action (save_state ports next world)
        λ _ saved. on_action (publish_all ports ticked.to_publish saved) λ _ after. (ok next, after)

-- The hash is asked for only where a tie needs it.
unfoldable pub block_hash_for : RoundPorts → EngineConfig → RoundEngineState → Result (Option Text)
block_hash_for ports config state = needs_finalization_block_hash state.battles config >>= λ needed.
    if needed
    then (ports.finalization_block_hash state.clock.battle_end_at >>= λ hash. ok (some hash))
    else ok none

-- The event of a voided battle whose reason is known.
unfoldable pub void_event :
    ℕ → List Text → BattleEngineState → Option VoidReason → List (Text × ℕ × Payload)
void_event at restored battle none = []
void_event at restored battle (some reason) =
    (
      battle_channel battle.setup.battle_id,
      at,
      battle_void battle.setup.battle_id reason
          (any (λ id. text_eq id battle.setup.battle_id) restored),
    )
    ∷ []

unfoldable pub void_events :
    ℕ → List Text → List Text → List BattleEngineState → List (Text × ℕ × Payload)
unfolding void_event
void_events at restored voided_ids [] = []
void_events at restored voided_ids (battle ∷ battles) =
    let rest = void_events at restored voided_ids battles in
    if any (λ id. text_eq id battle.setup.battle_id) voided_ids
    then void_event at restored battle battle.void_reason ++ rest
    else rest

unfoldable pub perform_finalize :
    Hashing → RoundPorts → EngineConfig → RoundEngineState → Action RoundFinalization
perform_finalize hashing ports config state =
    on_result (block_hash_for ports config state) λ block_hash.
      on_result (finalize_round hashing state state.clock.battle_end_at block_hash config true)
        λ finalization world.
          on_action (save_finalization ports finalization world) λ restored saved.
            on_action
              (publish_all ports
                (void_events state.clock.battle_end_at restored finalization.voided
                  finalization.state.battles)
                saved)
              λ _ told.
                on_action
                  (publish ports (round_channel state.round_id) state.clock.battle_end_at
                    (round_finalized state.round_id finalization.results finalization.voided) told)
                  λ _ after. (ok finalization, after)

-- Performs what is due.
unfoldable pub perform :
    Hashing → RoundPorts → EngineConfig → RoundEngineState → ℕ → RoundAction → Action StepResult
perform hashing ports config state now lock world =
    on_action (perform_lock ports state world)
      λ locked after. (ok (record { state = locked; action = lock; finalization = none }), after)
perform hashing ports config state now (tick deadline) world =
    on_action (perform_tick hashing ports config state now world) λ next after.
      (ok (record { state = next; action = tick deadline; finalization = none }), after)
perform hashing ports config state now finalize world =
    on_action (perform_finalize hashing ports config state world) λ finalization after. (
      ok (record {
        state = finalization.state;
        action = finalize;
        finalization = some finalization;
      }),
      after,
    )
perform hashing ports config state now action world =
    (ok (record { state = state; action = action; finalization = none }), world)

unfoldable pub step_round :
    Hashing → RoundPorts → EngineConfig → RoundEngineState → ℕ → Action StepResult
unfolding perform
step_round hashing ports config state now =
    on_result (next_round_action state now config.max_wait)
      λ action. perform hashing ports config state now action
