-- ===== src/RoundService/ProgressTests.antt =====
-- A driver that has opened and locked a round, which the next pass ends.
use ponswars.BattleEngine.Driver.{wait, accept_picks, poll_delay, next_round_action}
use ponswars.Shared.Round.{is_terminal_round_state, can_transition_battle, can_transition_round}
use ponswars.BattleEngine.Rounds.{check_picks, lock_round}
use ponswars.BattleEngine.Battle.{begin_battle, open_battle}
use ponswars.BattleMath.Scale.{div_scaled}
use ponswars.BattleMath.Confidence.{matchup_confidence, assert_calibration, sub_signals}
use ponswars.BattleMath.Scheduler.{round_id_for, clock_for_round}
use ponswars.BattleEngine.Rounds.Create.{
  create_round, matchmaking_of, create_battle, create_battles,
}
use ponswars.BattleMath.Prng.{derive_round_seed, new_prng, normalize_seed_hex, shuffle}
use ponswars.BattleMath.Matchmaking.{
  has_duplicates, shuffled_roster, schedule_round, has_key, pair_in_order, cooldown_set,
}
use ponswars.Base.{Returns, ◌+◌, arith, ℕ, ◌≡◌, refl, List, [], ◌∷◌, none, some, ok, err, failure}
use ponswars.Base.Int.{pos}
use ponswars.Base.Text.{is_hex_digit, codes, all_hex, strip_prefix, hex_bytes, to_lower_char}
use ponswars.Base.Toy.{toy_hashing}
use ponswars.Shared.Labels.{healthy}
use ponswars.Shared.Round.{RoundState}
use ponswars.BattleEngine.Tests.{config, side}
use ponswars.BattleEngine.CreationTests.{lookback, calibration}
use ponswars.RoundService.Ports.{RoundPorts, publish, save_state}
use ponswars.RoundService.Loop.{step_round, perform_lock}
use ponswars.RoundService.Loop.Answering.{Answers}
use ponswars.RoundService.Driver.Opens.{CanOpen, drawn_from}
use ponswars.RoundService.Loop.Advances.{due_at}
use ponswars.RoundService.Driver.{
  Opening, DriverOptions, Driver, open_round, open_next, start, persist_opened,
  announce_round_opened, drive,
}
use ponswars.RoundService.Driver.Runs.{happen, Running, Event, started, passed, events, before_all}
use ponswars.RoundService.Driver.Resumes.{Resumes, start-Resumes}
use ponswars.RoundService.Driver.Market.{step_delay}
use ponswars.RoundService.Driver.Progress.{RunsAfter, events-GoesOn}

abbrev ports : RoundPorts
ports = record {
  locked_picks = λ id. ok [];
  observe = λ ticker window. ok (record { inputs = side (pos 120_000); health = healthy });
  finalization_block_hash = λ at. ok (codes "0x0a");
  save_state = λ state. ok tt;
  save_finalization = λ f. ok [];
  publish = λ c at p. ok tt;
}

abbrev options : DriverOptions
options = record {
  config = config;
  calibration = calibration;
  base_seed_hex = codes "0x0a1b";
  accepts = λ payload. ok tt;
}

abbrev opening : Opening
opening = record {
  ports = ports;
  lookback = λ ticker at. elim (lookback ticker) [ none ↦ err failure | some l ↦ ok l ];
  opened_at = 1_000_000;
  served_at = 1_000_000;
  observed_at = 1_000_000;
}

-- The driver opens a round and locks it.
abbrev history : List Event
history = started opening ∷ passed 1_060_000 opening ∷ []

-- The driver holds the stored round, which is live until the given instant.
abbrev HoldsDriver : ℕ → Running → Type 0
HoldsDriver at r =
    (d : Driver) × (r.driver ≡ some d)
    × (due_at d.round.clock d.round.state ≡ at)
    × (r.world.latest ≡ some d.round)
    × (d.round.state ≡ RoundState.battle_live)

locked : HoldsDriver 1_600_000 (events toy_hashing 2 options history before_all)
unfolding all_hex create_round derive_round_seed events happen has_duplicates hex_bytes
    matchmaking_of new_prng normalize_seed_hex open_next open_round round_id_for schedule_round
    shuffled_roster start strip_prefix announce_round_opened assert_calibration cooldown_set
    create_battle create_battles div_scaled drive has_key matchup_confidence pair_in_order
    persist_opened publish save_state shuffle sub_signals to_lower_char begin_battle
    can_transition_battle can_transition_round check_picks clock_for_round is_terminal_round_state
    lock_round next_round_action open_battle perform_lock step_round
locked = (_, refl, refl, refl, refl)

ports_answer : Answers ports locked.0.round
unfolding strip_prefix all_hex is_hex_digit check_picks
ports_answer = record {
  picks = [];
  picks_given = refl;
  picks_taken = refl;
  hash = codes "0x0a";
  hash_given = refl;
  hash_in_hex = (refl, refl);
  writes = record {
    saves = λ s. (tt, refl);
    closes = λ f. ([], refl);
    tells = λ c at p. (tt, refl);
  };
}

shuffled : Returns (shuffled_roster toy_hashing 2 (drawn_from options (locked.0.index + 1)))
unfolding shuffled_roster derive_round_seed round_id_for normalize_seed_hex strip_prefix all_hex
    new_prng hex_bytes to_lower_char locked
shuffled = (_, refl)

next_opens : CanOpen toy_hashing 2 options opening (locked.0.index + 1)
unfolding assert_calibration
next_opens = record {
  observes = λ t. (_, refl, refl);
  calibrated = refl;
  shuffles = shuffled;
  accepts = λ p. (tt, refl);
}

events-GoesOn_example : RunsAfter locked.0 (
    happen toy_hashing 2 options
      (passed 1_700_000 opening)
      (events toy_hashing 2 options history before_all))
events-GoesOn_example =
    events-GoesOn toy_hashing 2 options history 1_700_000 opening locked.1
      (record { narrow = omega arith; decisive = omega arith }) ports_answer next_opens
      (let e = locked.2 in omega (arith, e))

start-Resumes_example :
    Resumes toy_hashing 2 options opening locked.0.round
      (events toy_hashing 2 options history before_all).world
start-Resumes_example = start-Resumes toy_hashing 2 options history opening locked.3

-- A driver asks again every tenth of a second while picks are open, and also where the instant that it
-- waits for is nearer.
tenths :
    (step_delay 1_000 (accept_picks 1_060_000) 1_000_000 ≡ 100)
    × (step_delay 1_000 (wait 1_000_030) 1_000_000 ≡ 100)
unfolding step_delay poll_delay
tenths = (refl, refl)
