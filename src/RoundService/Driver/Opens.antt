-- ===== src/RoundService/Driver/Opens.antt =====
-- When the next round can be opened (`openRound` and `persistOpened` in
-- packages/round-service/src/driver.ts).
use ponswars.Base.{
  ℕ, ◌≡◌, ◌∙◌, refl, inl, inr, true, Bool-cases, List, [], ◌∷◌, none, some, any, map_result, ok,
  ◌>>=◌, >>=-Returns, Returns,
}
use ponswars.Base.Hashing.{Hashing}
use ponswars.Shared.Round.{RoundState, CanonicalClock}
use ponswars.Shared.Roster.{
  ActiveTicker, active_tickers, ticker_eq, nvda, aapl, msft, tsla, gme, meta, amzn, googl, amd, spy,
}
use ponswars.Shared.Roster.Names.{each_ticker}
use ponswars.BattleMath.Confidence.{ConfidenceLookback, assert_calibration}
use ponswars.BattleMath.Scheduler.{clock_for_round, round_id_for}
use ponswars.BattleMath.Matchmaking.{
  Pairing, MatchmakingInput, shuffled_roster, schedule_round, has_duplicates, has_key, cooldown_set,
}
use ponswars.BattleMath.Matchmaking.Counts.{IsSchedule, occurrences, tickers_of}
use ponswars.BattleMath.Matchmaking.Rosters.{schedule_round_iff}
use ponswars.BattleEngine.Rounds.Create.{RoundSetup, create_round, matchmaking_of}
use ponswars.BattleEngine.Rounds.Creates.{IsMeasured, create_round-Returns}
use ponswars.Realtime.Envelope.{world_channel}
use ponswars.RoundService.Ports.{Payload, World, round_opened}
use ponswars.RoundService.Loop.Answering.{Writes, save_state-Returns, publish-Returns}
use ponswars.RoundService.Driver.Opened.{open_round-Lively}
use ponswars.RoundService.Driver.{
  Opening, DriverOptions, Driver, found_lookback, open_round, opened_matchups, latest_of,
  announce_round_opened, persist_opened, open_next,
}

abbrev pairing : ActiveTicker → ActiveTicker → Pairing
pairing left right = record { left = left; right = right }

-- With no round to keep apart from, the roster can be paired in its own order.
in_order : IsSchedule (cooldown_set []) active_tickers (
    pairing nvda aapl
    ∷ pairing msft tsla
    ∷ pairing gme meta
    ∷ pairing amzn googl
    ∷ pairing amd spy
    ∷ [])
unfolding occurrences tickers_of has_key cooldown_set
in_order = record { counts = λ t. refl; unblocked = (refl, (refl, (refl, (refl, (refl, tt))))) }

-- The inputs that the schedule of a round is drawn from.
abbrev pub drawn_from : DriverOptions → ℕ → MatchmakingInput
drawn_from options index = record {
  base_seed_hex = options.base_seed_hex;
  round_id = round_id_for index;
  roster = none;
  recent_rounds = some [];
}

schedule_round-Returns :
    (hashing : Hashing) (fuel : ℕ) (options : DriverOptions) (index : ℕ)
    → Returns (shuffled_roster hashing fuel (drawn_from options index))
    → Returns (schedule_round hashing fuel (drawn_from options index))
unfolding has_duplicates
schedule_round-Returns hashing fuel options index (_, e) =
    (schedule_round_iff hashing fuel (drawn_from options index)
        (record { ten = refl; distinct = refl }) e).1
      (_, in_order)

in_roster : (t : ActiveTicker) → any (λ x. ticker_eq x t) active_tickers ≡ true
in_roster =
    each_ticker (λ t. any (λ x. ticker_eq x t) active_tickers ≡ true) refl refl refl refl refl refl
      refl refl refl refl

-- The market gives every ticker a lookback that can be measured.
abbrev pub Observes : Opening → Type 0
Observes o =
    (t : ActiveTicker)
    → (l : ConfidenceLookback) × (o.lookback t o.observed_at ≡ ok l) × IsMeasured l

-- What is found in the lookbacks that were read.
abbrev Finds : List (ActiveTicker × ConfidenceLookback) → ActiveTicker → Type 0
Finds ls t = (l : ConfidenceLookback) × (found_lookback ls t ≡ some l) × IsMeasured l

lookbacks_read :
    (o : Opening) (ts : List ActiveTicker)
    → Observes o
    → (ls : List (ActiveTicker × ConfidenceLookback)) × (map_result
          (λ ticker. o.lookback ticker o.observed_at >>= λ l. ok (ticker, l))
          ts
        ≡ ok ls)
      × ((t : ActiveTicker) → any (λ x. ticker_eq x t) ts ≡ true → Finds ls t)
unfolding found_lookback
lookbacks_read o [] observes = ([], refl, λ t h. cc)
lookbacks_read o (x ∷ ts) observes =
    let (l, e, m) = observes x in
    let (ls, f, finds) = lookbacks_read o ts observes in
    (
      (x, l) ∷ ls,
      rw (e, f) refl,
      λ t h. elim (Bool-cases (ticker_eq x t)) [
        | inl same ↦ (l, rw same refl, m)
        | inr other ↦ let (k, found, n) = finds t (rw other at h) in (k, rw other found, n)
      ],
    )

-- A round is opened once every ticker has a lookback, the calibration is in order and the shuffle of
-- the roster ends.
pub open_round-Returns :
    (hashing : Hashing) (fuel : ℕ) (options : DriverOptions) (o : Opening) (index : ℕ)
    (clock : CanonicalClock)
    → Observes o
    → assert_calibration options.calibration ≡ ok tt
    → Returns (shuffled_roster hashing fuel (drawn_from options index))
    → Returns (open_round hashing fuel options o index clock)
unfolding open_round matchmaking_of
open_round-Returns hashing fuel options o index clock observes calibrated shuffles =
    let (ls, e, finds) = lookbacks_read o active_tickers observes in
    let setup : RoundSetup = record {
      round_id = round_id_for index;
      round_index = index;
      clock = clock;
      base_seed_hex = options.base_seed_hex;
      roster = none;
      recent_rounds = some [];
      lookback = found_lookback ls;
      calibration = options.calibration;
    } in
    let s = schedule_round-Returns hashing fuel options index shuffles in
    rw e (
      >>=-Returns (create_round hashing fuel setup) _
        (create_round-Returns hashing fuel setup s (λ t. finds t (in_roster t)) calibrated)
        (λ _ _. (_, refl)))

-- What opening a round asks of the market and of the options.
pub record CanOpen (hashing : Hashing) (fuel : ℕ) (options : DriverOptions) (o : Opening)
    (index : ℕ) : Type 0 where
  pub observes : Observes o
  pub calibrated : assert_calibration options.calibration ≡ ok tt
  pub shuffles : Returns (shuffled_roster hashing fuel (drawn_from options index))
  pub accepts : (payload : Payload) → Returns (options.accepts payload)

-- The next round is then opened, saved and announced.
pub open_next-Returns :
    (hashing : Hashing) (fuel : ℕ) (options : DriverOptions) (o : Opening) (index from : ℕ)
    (w : World)
    → CanOpen hashing fuel options o index
    → Writes o.ports
    → (d : Driver) × (v : World) × (open_next hashing fuel options o index from w ≡ (ok d, v))
      × (d.index ≡ index)
      × (d.round.state ≡ RoundState.pick_open)
      × (v.latest ≡ some d.round)
unfolding open_next persist_opened announce_round_opened
open_next-Returns hashing fuel options o index from w c p =
    let at = latest_of from o.opened_at in
    let clock = clock_for_round at 0 o.served_at in
    let (round, e) =
      open_round-Returns hashing fuel options o index clock c.observes c.calibrated c.shuffles in
    let (_, s, _) = open_round-Lively hashing fuel options o index at round e in
    let payload = round_opened round.round_id round.clock (opened_matchups 0 round.battles) in
    let (v, f, g) = save_state-Returns o.ports round w (p.saves round) in
    let opens_at = round.clock.pick_open_at in
    let (_, k) = c.accepts payload in
    let (u, m, n) =
      publish-Returns o.ports world_channel opens_at payload v
        (p.tells world_channel opens_at payload) in
    (
      record { index = index; clock = clock; round = round },
      u,
      rw (e, f, k, m) refl,
      refl,
      s,
      n ∙ g,
    )
