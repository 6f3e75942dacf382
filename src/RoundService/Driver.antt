-- ===== src/RoundService/Driver.antt =====
-- packages/round-service/src/driver.ts and announce.ts: rounds are opened, run and followed.
pub mod Opened
pub mod Opens
pub mod Market
pub mod Chronicle
pub mod Runs
pub mod Progress
pub mod Resumes
use ponswars.Base.{
  ℕ, ◌+◌, ltb, List, [], ◌∷◌, Option, none, some, get_elem?, map, map_result, if◌then◌else◌, Result,
  ok, err, failure, ◌>>=◌,
}
use ponswars.Base.Text.{Text, codes}
use ponswars.Base.Hashing.{Hashing}
use ponswars.Shared.Roster.{ActiveTicker, active_tickers, ticker_eq}
use ponswars.Shared.Round.{RoundState, CanonicalClock, round_state_eq}
use ponswars.BattleMath.Confidence.{ConfidenceLookback, ConfidenceCalibration}
use ponswars.BattleMath.Scheduler.{clock_for_round, round_id_for, round_index_of}
use ponswars.BattleEngine.Battle.{BattleEngineState, EngineConfig}
use ponswars.BattleEngine.Rounds.{RoundEngineState, RoundFinalization}
use ponswars.BattleEngine.Rounds.Create.{RoundSetup, create_round, sector_ids}
use ponswars.BattleEngine.Driver.{next_round_opens_at}
use ponswars.Realtime.Envelope.{world_channel}
use ponswars.RoundService.Ports.{
  OpenedMatchup, Payload, round_opened, RoundPorts, World, Action, on_action, save_state, publish,
}
use ponswars.RoundService.Loop.{StepResult, on_result, step_round}

-- `sectors[slot] ?? sectors[0]`
unfoldable pub sector_at : ℕ → Text
unfolding sector_ids
sector_at slot = elim (get_elem? sector_ids slot) [
  | some sector ↦ sector
  | none ↦ elim (get_elem? sector_ids 0) [ some sector ↦ sector | none ↦ [] ]
]

unfoldable pub opened_matchups : ℕ → List BattleEngineState → List OpenedMatchup
unfolding sector_at
opened_matchups slot [] = []
opened_matchups slot (battle ∷ battles) =
    record {
      battle_id = battle.setup.battle_id;
      sector_id = sector_at slot;
      left = battle.setup.left;
      right = battle.setup.right;
      left_intel = battle.setup.left_intel;
      right_intel = battle.setup.right_intel;
    }
    ∷ opened_matchups (slot + 1) battles

-- The part of the options that opening a round reads. `accepts` is the schema of the announcement,
-- which returns what it is given or throws.
pub record DriverOptions : Type 0 where
  pub config : EngineConfig
  pub calibration : ConfidenceCalibration
  pub base_seed_hex : Text
  pub accepts : Payload → Result (Unit {0})

unfoldable pub announce_round_opened :
    DriverOptions → RoundPorts → RoundEngineState → Action (Unit {0})
unfolding opened_matchups
announce_round_opened options ports state =
    let payload = round_opened state.round_id state.clock (opened_matchups 0 state.battles) in
    on_result (options.accepts payload)
      λ _. publish ports world_channel state.clock.pick_open_at payload

unfoldable pub persist_opened : DriverOptions → RoundPorts → RoundEngineState → Action (Unit {0})
persist_opened options ports round world =
    on_action (save_state ports round world) λ _. announce_round_opened options ports round

-- What opening a round reads: the lookbacks of the market, and `now()` each time that it is asked.
pub record Opening : Type 0 where
  pub ports : RoundPorts
  pub lookback : ActiveTicker → ℕ → Result ConfidenceLookback
  pub opened_at : ℕ
  pub served_at : ℕ
  pub observed_at : ℕ

unfoldable pub found_lookback :
    List (ActiveTicker × ConfidenceLookback) → ActiveTicker → Option ConfidenceLookback
found_lookback [] ticker = none
found_lookback ((t, lookback) ∷ rest) ticker =
    if ticker_eq t ticker then some lookback else found_lookback rest ticker

unfoldable pub open_round :
    Hashing → ℕ → DriverOptions → Opening → ℕ → CanonicalClock → Result RoundEngineState
unfolding found_lookback
open_round hashing fuel options opening index clock =
    map_result (λ ticker. opening.lookback ticker opening.observed_at >>= λ l. ok (ticker, l))
      active_tickers
    >>= λ lookback.
        create_round hashing fuel (record {
          round_id = round_id_for index;
          round_index = index;
          clock = clock;
          base_seed_hex = options.base_seed_hex;
          roster = none;
          recent_rounds = some [];
          lookback = found_lookback lookback;
          calibration = options.calibration;
        })
        >>= λ round. ok (record round { state = RoundState.pick_open })

-- `indexOf`, on what `roundIndexOf` reads.
unfoldable pub index_found : Option ℕ → Result ℕ
index_found none = err failure
index_found (some index) = ok index

unfoldable pub index_of : RoundEngineState → Result ℕ
unfolding index_found
index_of round = index_found (round_index_of round.round_id)

-- The later of two instants.
unfoldable pub latest_of : ℕ → ℕ → ℕ
latest_of a b = if ltb b a then a else b

-- What `runRounds` holds between its steps.
pub record Driver : Type 0 where
  pub index : ℕ
  pub clock : CanonicalClock
  pub round : RoundEngineState

-- A new round is saved and announced; `from` is where the round before it ended.
unfoldable pub open_next : Hashing → ℕ → DriverOptions → Opening → ℕ → ℕ → Action Driver
unfolding latest_of
open_next hashing fuel options opening index from =
    let clock = clock_for_round (latest_of from opening.opened_at) 0 opening.served_at in
    on_result (open_round hashing fuel options opening index clock) λ round world.
      on_action (persist_opened options opening.ports round world)
        λ _ after. (ok (record { index = index; clock = clock; round = round }), after)

-- The first round of a driver: the stored one, unless there is none or it is over.
unfoldable pub start_from :
    Hashing → ℕ → DriverOptions → Opening → Option RoundEngineState → Action Driver
unfolding index_of
start_from hashing fuel options opening none =
    open_next hashing fuel options opening 0 opening.opened_at
start_from hashing fuel options opening (some stored) = on_result (index_of stored) λ index.
    if round_state_eq stored.state RoundState.finalized
    then open_next hashing fuel options opening (index + 1) (next_round_opens_at stored.clock)
    else (λ world. (ok (record { index = index; clock = stored.clock; round = stored }), world))

unfoldable pub start : Hashing → ℕ → DriverOptions → Opening → Action Driver
unfolding start_from
start hashing fuel options opening world =
    start_from hashing fuel options opening world.latest world

-- After a step: a finalization is followed by the next round.
unfoldable pub follow :
    Hashing
    → ℕ
    → DriverOptions
    → Opening
    → Driver
    → RoundEngineState
    → Option RoundFinalization
    → Action Driver
follow hashing fuel options opening driver round none world =
    (ok (record driver { round = round }), world)
follow hashing fuel options opening driver round (some finalization) world =
    open_next hashing fuel options opening (driver.index + 1) (next_round_opens_at driver.clock)
      world

-- One pass of the loop of `runRounds`.
unfoldable pub drive : Hashing → ℕ → DriverOptions → Opening → ℕ → Driver → Action Driver
unfolding follow
drive hashing fuel options opening now driver world =
    on_action (step_round hashing opening.ports options.config driver.round now world)
      λ result. follow hashing fuel options opening driver result.state result.finalization
