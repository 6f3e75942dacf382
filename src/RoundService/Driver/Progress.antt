-- ===== src/RoundService/Driver/Progress.antt =====
-- A driver is never stuck (`runRounds` in packages/round-service/src/driver.ts).
use ponswars.Base.{
  ℕ, ◌+◌, ◌≤◌, ◌≡◌, ◌⊎◌, inl, inr, refl, subst, List, Option, none, some, Result, ok, err,
}
use ponswars.Base.Hashing.{Hashing}
use ponswars.Shared.Round.{RoundState}
use ponswars.BattleEngine.Reachable.Finishes.{HasMargins}
use ponswars.BattleEngine.Rounds.{RoundEngineState, RoundFinalization}
use ponswars.BattleEngine.Driver.{next_round_opens_at}
use ponswars.RoundService.Ports.{World, on_action}
use ponswars.RoundService.Loop.{StepResult, step_round}
use ponswars.RoundService.Loop.Answering.{Writes, Answers}
use ponswars.RoundService.Loop.Advances.{due_at, MovedOn, Advanced, step_round-Advanced}
use ponswars.RoundService.Driver.{Opening, DriverOptions, Driver, follow, drive}
use ponswars.RoundService.Driver.Opens.{CanOpen, open_next-Returns}
use ponswars.RoundService.Driver.Runs.{
  Running, running, Event, passed, passed_by, happen, events, before_all, RunsOn, events-RunsOn,
}

-- An open round goes live, and a live one is followed by the next one, which is open.
abbrev pub FollowedBy : Driver → Driver → Type 0
FollowedBy d e =
    ((d.round.state ≡ RoundState.pick_open)
      × (e.round.state ≡ RoundState.battle_live)
      × (e.index ≡ d.index))
    ⊎ ((d.round.state ≡ RoundState.battle_live)
        × (e.round.state ≡ RoundState.pick_open)
        × (e.index ≡ d.index + 1))

-- The driver runs, one stage further, and its round is the stored one.
abbrev pub RunsAfter : Driver → Running → Type 0
RunsAfter d r =
    (e : Driver) × (r.driver ≡ some e) × (r.world.latest ≡ some e.round) × FollowedBy d e

-- The pass of a driver.
abbrev PassedTo : Driver → Result Driver × World → Type 0
PassedTo d (ok e, w) = (w.latest ≡ some e.round) × FollowedBy d e
PassedTo d (err x, w) = ⊥

running-RunsAfter :
    (d : Driver) (r : Result Driver × World) → PassedTo d r → RunsAfter d (running r)
running-RunsAfter d (ok e, w) (l, f) = (e, refl, l, f)
running-RunsAfter d (err x, w) h = absurd h

module _ (hashing : Hashing) (fuel : ℕ) (options : DriverOptions) (o : Opening) where
  follow-PassedTo :
      (d : Driver) (round : RoundEngineState) (f : Option RoundFinalization) (w : World)
      → CanOpen hashing fuel options o (d.index + 1)
      → Writes o.ports
      → w.latest ≡ some round
      → MovedOn d.round.state round.state f
      → PassedTo d (follow hashing fuel options o d round f w)
  unfolding follow
  follow-PassedTo d round none w c p l (inl (s, live, _)) = (l, inl (s, live, refl))
  follow-PassedTo d round (some f) w c p l (inl (s, live, e)) = absurd (cc)
  follow-PassedTo d round none w c p l (inr (s, over, (f, e))) = absurd (cc)
  follow-PassedTo d round (some f) w c p l (inr (s, over, closed)) =
      let (e, v, g, i, picks, stored) =
        open_next-Returns hashing fuel options o (d.index + 1) (next_round_opens_at d.clock) w c
          p in
      rw g (stored, inr (s, picks, i))

  drive-PassedTo :
      (now : ℕ) (d : Driver) (w : World)
      → CanOpen hashing fuel options o (d.index + 1)
      → Writes o.ports
      → Advanced d.round (step_round hashing o.ports options.config d.round now w)
      → PassedTo d (drive hashing fuel options o now d w)
  unfolding drive
  drive-PassedTo now d w c p = advanced (step_round hashing o.ports options.config d.round now w)
    where
      advanced :
          (r : Result StepResult × World)
          → Advanced d.round r
          → PassedTo d (
              on_action r
                (λ result. follow hashing fuel options o d result.state result.finalization))
      advanced (ok r, v) (l, same, moved) = follow-PassedTo d r.state r.finalization v c p l moved
      advanced (err e, v) h = absurd h

-- Whatever has happened before and wherever calls have failed, a driver that runs is never stuck. Its
-- round is open for picks or live; from the instant on that the round waits for, its lock or the end of
-- its battles, a pass on which the ports answer leaves the driver running, and its round stored: an open
-- round goes live, and after a live one the driver holds the next round, which is open for picks. That
-- the ports answer is that the picks are ones that `lockRound` takes, the block hash is a text in hex,
-- no write fails and the market has a lookback with a positive volatility for every ticker. The victory
-- thresholds and the calibration have to be in order, the schema has to take the announcement of a
-- round, and the shuffle of the roster has to end within the fuel.
pub events-GoesOn :
    (hashing : Hashing) (fuel : ℕ) (options : DriverOptions) (es : List Event) (now : ℕ)
    (o : Opening) {d : Driver}
    → (events hashing fuel options es before_all).driver ≡ some d
    → HasMargins options.config.victory
    → Answers o.ports d.round
    → CanOpen hashing fuel options o (d.index + 1)
    → due_at d.round.clock d.round.state ≤ now
    → RunsAfter d
        (happen hashing fuel options (passed now o) (events hashing fuel options es before_all))
unfolding happen passed_by
events-GoesOn hashing fuel options es now o {d} e m a c due =
    let r = events hashing fuel options es before_all in
    let (k, p) =
      subst (λ (x : Option Driver). RunsOn hashing options.config x r.world) e
        (events-RunsOn hashing fuel options es before_all (inl (refl, refl))) in
    let (_, _, _, l) = k.held in
    let step = step_round-Advanced hashing o.ports options.config d.round r.world now a l m p due in
    rw e (
      running-RunsAfter d (drive hashing fuel options o now d r.world)
        (drive-PassedTo hashing fuel options o now d r.world c a.writes step))
