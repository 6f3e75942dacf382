-- ===== src/RoundService/Tests.antt =====
-- Rounds that are run by a driver.
use ponswars.RoundService.Loop.{step_round, perform_lock, perform_tick, tick_battles}
use ponswars.BattleMath.Momentum.{next_momentum, refuses_thresholds}
use ponswars.Shared.Money.{integer_sqrt}
use ponswars.BattleMath.Scale.{floor_quotient, div_scaled}
use ponswars.BattleMath.Scoring.{
  edges_between, pons_strength, volatility_adjusted_return, card_support_strength,
  edge_from_difference, score_battle, aggregate_card_support,
}
use ponswars.BattleEngine.Driver.{next_round_action}
use ponswars.Base.{none, ℕ, ◌≡◌, refl, List, [], ◌∷◌, some, map, ok, err, failure}
use ponswars.Base.Int.{◌*ℤ◌, ◌+ℤ◌, pos, quotient, remainder}
use ponswars.Base.Text.{codes, text_eq}
use ponswars.Base.Toy.{toy_hashing}
use ponswars.Shared.Labels.{healthy, requires_void}
use ponswars.Shared.Round.{
  RoundState, can_transition_battle, is_terminal_round_state, can_transition_round,
}
use ponswars.BattleEngine.Battle.{begin_battle, open_battle, apply_tick, score_tick}
use ponswars.BattleEngine.Rounds.{RoundEngineState, check_picks, lock_round, battle_card_support}
use ponswars.BattleEngine.Tests.{config, setup, side, round, backer}
use ponswars.RoundService.Ports.{
  MarketObservation, RoundPorts, Effect, saved_state, saved_finalization, published, round_opened,
  picks_locked, battle_state_update, battle_void, round_finalized, publish, save_state, publish_all,
}
use ponswars.BattleEngine.CreationTests.{lookback, calibration}
use ponswars.RoundService.Driver.{Opening, DriverOptions, drive}
use ponswars.RoundService.Driver.Runs.{
  Running, Event, started, passed, events, before_all, Chronicled, events-Chronicled, happen,
}

abbrev observed : MarketObservation
observed = record { inputs = side (pos 120_000); health = healthy }

-- Ports that answer.
abbrev answering : RoundPorts
answering = record {
  locked_picks = λ id. ok (backer ∷ []);
  observe = λ ticker window. ok observed;
  finalization_block_hash = λ at. ok (codes "0x0a");
  save_state = λ state. ok tt;
  save_finalization = λ f. ok [];
  publish = λ c at p. ok tt;
}

-- Ports whose publisher fails.
abbrev mute : RoundPorts
mute = record answering { publish = λ c at p. err failure }

abbrev pick_round : RoundEngineState
pick_round = round RoundState.pick_open (begin_battle setup ∷ [])

abbrev options : DriverOptions
options = record {
  config = config;
  calibration = calibration;
  base_seed_hex = codes "0x0a1b";
  accepts = λ payload. ok tt;
}

abbrev opening : RoundPorts → ℕ → Opening
opening ports at = record {
  ports = ports;
  lookback = λ ticker at. elim (lookback ticker) [ none ↦ err failure | some l ↦ ok l ];
  opened_at = at;
  served_at = at;
  observed_at = at;
}

-- A driver that has opened a round.
abbrev running_driver : Running
running_driver = record {
  driver = some (record { index = 0; clock = pick_round.clock; round = pick_round });
  world = record { latest = some pick_round; log = [] };
}

abbrev kind_of : Effect → ℕ
kind_of (saved_state s) = 0
kind_of (saved_finalization f) = 1
kind_of (published c at (round_opened id k ms)) = 6
kind_of (published c at (picks_locked id ms)) = 2
kind_of (published c at (battle_state_update u)) = 3
kind_of (published c at (battle_void id r x)) = 4
kind_of (published c at (round_finalized id rs v)) = 5

-- The lock is saved and not told, which stops the driver.
mute_lock :
    map kind_of
      (events toy_hashing 2 options
        (passed 1_060_100 (opening mute 1_060_100) ∷ [])
        running_driver).world.log
    ≡ 0 ∷ []
unfolding drive events happen is_terminal_round_state next_round_action perform_lock step_round
    begin_battle can_transition_battle can_transition_round check_picks lock_round open_battle
    publish save_state text_eq
mute_lock = refl

-- A lock that is told, and a tick whose battle is updated.
told :
    map kind_of
      (events toy_hashing 2 options
        (passed 1_060_000 (opening answering 1_060_000)
          ∷ passed 1_200_000 (opening answering 1_200_000)
          ∷ [])
        running_driver).world.log
    ≡ 0 ∷ 2 ∷ 0 ∷ 3 ∷ []
unfolding drive events happen is_terminal_round_state next_round_action perform_lock step_round
    apply_tick begin_battle can_transition_battle can_transition_round check_picks edges_between
    lock_round open_battle perform_tick publish requires_void save_state score_battle score_tick
    text_eq tick_battles aggregate_card_support battle_card_support card_support_strength div_scaled
    edge_from_difference floor_quotient integer_sqrt next_momentum pons_strength publish_all
    quotient refuses_thresholds remainder volatility_adjusted_return ◌*ℤ◌ ◌+ℤ◌
told = refl

-- A driver that is started on an empty store, passes, stops and is started again.
abbrev long_run : List Event
long_run =
    started (opening answering 1_000_000)
    ∷ passed 1_060_000 (opening mute 1_060_000)
    ∷ started (opening answering 1_070_000)
    ∷ passed 1_600_000 (opening answering 1_600_000)
    ∷ []

events-Chronicled_example :
    Chronicled
      (events toy_hashing 2 options long_run before_all).driver
      (events toy_hashing 2 options long_run before_all).world
events-Chronicled_example = events-Chronicled toy_hashing 2 options long_run
