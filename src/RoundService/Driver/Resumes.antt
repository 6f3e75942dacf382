-- ===== src/RoundService/Driver/Resumes.antt =====
-- Where a driver that is started again goes on (`runRounds` and `indexOf` in
-- packages/round-service/src/driver.ts).
use ponswars.Base.{
  ℕ, ◌+◌, ◌≡◌, ◌++◌, ◌∙◌, inl, inr, refl, ap, Bool-cases, ltb, List, some, if◌then◌else◌, Result,
  ok, err, failure, arith,
}
use ponswars.Base.Text.{Text}
use ponswars.Base.Hashing.{Hashing}
use ponswars.Shared.Round.{RoundState, round_state_eq}
use ponswars.BattleMath.Scheduler.{round_id_for, round_index_of}
use ponswars.BattleMath.Scheduler.Names.{
  round_index_of-round_id_for, round_index_of-round_id_for-over,
}
use ponswars.BattleEngine.Rounds.{RoundEngineState}
use ponswars.BattleEngine.Driver.{next_round_opens_at}
use ponswars.RoundService.Ports.{Effect, World}
use ponswars.RoundService.Driver.{
  Opening, DriverOptions, Driver, index_found, index_of, open_next, start_from, start,
}
use ponswars.RoundService.Driver.Opened.{IsChronicle}
use ponswars.RoundService.Driver.Runs.{Event, events, before_all, events-Chronicled}

index_of_numbered :
    (round : RoundEngineState) (n : ℕ)
    → round.round_id ≡ round_id_for n
    → index_of round ≡ (if ltb n 10_000_000_000 then ok n else err failure)
unfolding index_of index_found
index_of_numbered round n e =
    ap (λ (t : Text). index_found (round_index_of t)) e
    ∙ (elim (Bool-cases (ltb n 10_000_000_000)) [
      | inl b ↦ let g = round_index_of-round_id_for n (ground (arith, b)) in rw (g, b) refl
      | inr b ↦ let g = round_index_of-round_id_for-over n (ground (arith, b)) in rw (g, b) refl
    ])

-- What a driver makes of the stored round of a number.
abbrev pub resumed :
    Hashing → ℕ → DriverOptions → Opening → ℕ → RoundEngineState → World → Result Driver × World
resumed hashing fuel options o n s w =
    if ltb n 10_000_000_000
    then (if round_state_eq s.state RoundState.finalized
        then open_next hashing fuel options o (n + 1) (next_round_opens_at s.clock) w
        else (ok (record { index = n; clock = s.clock; round = s }), w))
    else (err failure, w)

-- Whole rounds were written before the stored one, which has the next number, and a driver that is
-- started goes on from it.
pub record Resumes (hashing : Hashing) (fuel : ℕ) (options : DriverOptions) (o : Opening)
    (s : RoundEngineState) (w : World) : Type 0 where
  pub index : ℕ
  pub base : List Effect
  pub round : List Effect
  pub log_is : w.log ≡ base ++ round
  pub before : IsChronicle index base
  pub goes_on : start hashing fuel options o w ≡ resumed hashing fuel options o index s w

start_stored :
    (hashing : Hashing) (fuel : ℕ) (options : DriverOptions) (o : Opening) (s : RoundEngineState)
    (w : World) (n : ℕ)
    → w.latest ≡ some s
    → s.round_id ≡ round_id_for n
    → start hashing fuel options o w ≡ resumed hashing fuel options o n s w
unfolding start start_from
start_stored hashing fuel options o s w n e named =
    let i = index_of_numbered s n named in
    elim (Bool-cases (ltb n 10_000_000_000)) [
      | inl b ↦ elim (Bool-cases (round_state_eq s.state RoundState.finalized)) [
        | inl f ↦ rw (e, i, b, f) refl
        | inr f ↦ rw (e, i, b, f) refl
      ]
      | inr b ↦ rw (e, i, b) refl
    ]

-- Whatever has happened before, a driver that is started on a stored round goes on with it: it holds that
-- round, with its clock and its number, or opens the one of the next number where that is finalized. It
-- throws an Error instead, and writes nothing, for the numbers from ten thousand million on, which
-- `roundIndexOf` does not read. The number is that of the whole rounds written before it.
pub start-Resumes :
    (hashing : Hashing) (fuel : ℕ) (options : DriverOptions) (es : List Event) (o : Opening)
    {s : RoundEngineState}
    → (events hashing fuel options es before_all).world.latest ≡ some s
    → Resumes hashing fuel options o s (events hashing fuel options es before_all).world
start-Resumes hashing fuel options es o {s} e =
    let c = events-Chronicled hashing fuel options es in
    record {
      index = c.index;
      base = c.base;
      round = c.round;
      log_is = c.log_is;
      before = c.before;
      goes_on = start_stored hashing fuel options o s _ c.index e (c.stored s e);
    }
