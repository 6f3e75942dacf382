-- ===== src/RoundService/Ports.antt =====
-- packages/round-service/src/ports.ts, and the store and the publisher of memory.ts: what the loop
-- reads from the outside world, and what it writes to it.
use ponswars.Base.{ℕ, Bool, List, [], ◌∷◌, ◌++◌, Option, some, Result, ok, err}
use ponswars.Base.Text.{Text}
use ponswars.Shared.Labels.{FeedHealth, VoidReason}
use ponswars.Shared.Roster.{ActiveTicker}
use ponswars.Shared.Round.{CanonicalClock}
use ponswars.BattleMath.Confidence.{ConfidenceSnapshot}
use ponswars.BattleMath.Scoring.{SideInputs}
use ponswars.BattleEngine.Battle.{PublicBattleStateUpdate}
use ponswars.BattleEngine.Finalize.{FinalizedBattleResult}
use ponswars.BattleEngine.Rounds.{LockedPick, RoundEngineState, RoundFinalization}

-- The reason of a health is left out: the loop does not read it.
pub record MarketObservation : Type 0 where
  pub inputs : SideInputs
  pub health : FeedHealth

pub record ObservationWindow : Type 0 where
  pub opens_at : ℕ
  pub at : ℕ

pub record Matchup : Type 0 where
  pub battle_id : Text
  pub left : ActiveTicker
  pub right : ActiveTicker

-- A matchup as a round that opens is announced with it.
pub record OpenedMatchup : Type 0 where
  pub battle_id : Text
  pub sector_id : Text
  pub left : ActiveTicker
  pub right : ActiveTicker
  pub left_intel : ConfidenceSnapshot
  pub right_intel : ConfidenceSnapshot

-- The events of a round, each with its payload.
pub data Payload : Type 0 where
  round_opened : (round_id : Text) → CanonicalClock → List OpenedMatchup → Payload
  picks_locked : (round_id : Text) → List Matchup → Payload
  battle_state_update : PublicBattleStateUpdate → Payload
  battle_void : (battle_id : Text) (reason : VoidReason) (card_use_restored : Bool) → Payload
  round_finalized : (round_id : Text) → List FinalizedBattleResult → (voided : List Text) → Payload

-- What a step changes outside: a state saved, a finalization saved, an event published.
pub data Effect : Type 0 where
  saved_state : RoundEngineState → Effect
  saved_finalization : RoundFinalization → Effect
  published : (channel : Text) (at : ℕ) → Payload → Effect

-- What the ports answer during one step. An error is a rejected promise, and then nothing is written.
pub record RoundPorts : Type 0 where
  pub locked_picks : Text → Result (List LockedPick)
  pub observe : ActiveTicker → ObservationWindow → Result MarketObservation
  pub finalization_block_hash : ℕ → Result Text
  pub save_state : RoundEngineState → Result (Unit {0})
  pub save_finalization : RoundFinalization → Result (List Text)
  pub publish : (channel : Text) (at : ℕ) → Payload → Result (Unit {0})

-- What the store holds, and all that was written, in order.
pub record World : Type 0 where
  pub latest : Option RoundEngineState
  pub log : List Effect

-- A call writes before it returns or throws.
abbrev pub Action : Type 0 → Type 0
Action A = World → Result A × World

-- What follows an action runs on what it returned, and not at all where it threw.
abbrev pub on_action : {A B : Type 0} → Result A × World → (A → Action B) → Result B × World
on_action (ok a, world) rest = rest a world
on_action (err e, world) rest = (err e, world)

-- What the writes do to the world once the port has answered.
unfoldable pub state_saved : Result (Unit {0}) → RoundEngineState → Action (Unit {0})
state_saved (err e) state world = (err e, world)
state_saved (ok _) state world =
    (ok tt, record { latest = some state; log = world.log ++ (saved_state state ∷ []) })

unfoldable pub finalization_saved : Result (List Text) → RoundFinalization → Action (List Text)
finalization_saved (err e) finalization world = (err e, world)
finalization_saved (ok restored) finalization world = (
  ok restored,
  record {
    latest = some finalization.state;
    log = world.log ++ (saved_finalization finalization ∷ []);
  },
)

unfoldable pub event_published :
    Result (Unit {0}) → (channel : Text) (at : ℕ) → Payload → Action (Unit {0})
event_published (err e) channel at payload world = (err e, world)
event_published (ok _) channel at payload world = (
  ok tt,
  record { latest = world.latest; log = world.log ++ (published channel at payload ∷ []) },
)

module _ (ports : RoundPorts) where
  unfoldable pub save_state : RoundEngineState → Action (Unit {0})
  unfolding state_saved
  save_state state = state_saved (ports.save_state state) state

  unfoldable pub save_finalization : RoundFinalization → Action (List Text)
  unfolding finalization_saved
  save_finalization finalization =
      finalization_saved (ports.save_finalization finalization) finalization

  unfoldable pub publish : (channel : Text) (at : ℕ) → Payload → Action (Unit {0})
  unfolding event_published
  publish channel at payload = event_published (ports.publish channel at payload) channel at payload

  -- Publishes one event after the other.
  unfoldable pub publish_all : List (Text × ℕ × Payload) → Action (Unit {0})
  publish_all [] world = (ok tt, world)
  publish_all ((channel, at, payload) ∷ events) world =
      on_action (publish channel at payload world) (λ _. publish_all events)
