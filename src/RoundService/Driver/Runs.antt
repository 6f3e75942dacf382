-- ===== src/RoundService/Driver/Runs.antt =====
-- What a driver writes over any number of rounds and restarts (`runRounds` in
-- packages/round-service/src/driver.ts).
use ponswars.Base.{
  ℕ, ◌≡◌, ◌∙◌, inl, inr, refl, sym, ap, subst, false, List, [], ◌∷◌, ◌++◌, Option, none, some,
  Result, ok, err, some-injective,
}
use ponswars.Base.Hashing.{Hashing}
use ponswars.BattleMath.Scheduler.{round_id_for}
use ponswars.BattleEngine.Battle.{EngineConfig}
use ponswars.BattleEngine.Rounds.{RoundEngineState}
use ponswars.RoundService.Ports.{Effect, World}
use ponswars.RoundService.Loop.Ordered.{IsOrdered}
use ponswars.RoundService.Loop.Stored.{past_battle}
use ponswars.RoundService.Driver.{Opening, DriverOptions, Driver, start, drive}
use ponswars.RoundService.Driver.Opened.{IsChronicle, nothing, KeptBy, Kept, Ran}
use ponswars.RoundService.Driver.Chronicle.{start-Ran, drive-Ran}

-- A driver that runs, or has stopped, and the world.
pub record Running : Type 0 where
  pub driver : Option Driver
  pub world : World

-- A driver is started, also in place of one that runs; or the driver that runs makes a pass.
pub data Event : Type 0 where
  started : Opening → Event
  passed : (now : ℕ) → Opening → Event

-- A driver that throws stops.
abbrev pub running : Result Driver × World → Running
running (ok d, w) = record { driver = some d; world = w }
running (err e, w) = record { driver = none; world = w }

unfoldable pub passed_by :
    Hashing → ℕ → DriverOptions → ℕ → Opening → Option Driver → World → Running
passed_by hashing fuel options now o none w = record { driver = none; world = w }
passed_by hashing fuel options now o (some d) w = running (drive hashing fuel options o now d w)

unfoldable pub happen : Hashing → ℕ → DriverOptions → Event → Running → Running
unfolding passed_by
happen hashing fuel options (started o) r = running (start hashing fuel options o r.world)
happen hashing fuel options (passed now o) r = passed_by hashing fuel options now o r.driver r.world

unfoldable pub events : Hashing → ℕ → DriverOptions → List Event → Running → Running
events hashing fuel options [] r = r
events hashing fuel options (e ∷ es) r =
    events hashing fuel options es (happen hashing fuel options e r)

abbrev pub before_all : Running
before_all = record { driver = none; world = record { latest = none; log = [] } }

abbrev pub RunsOn : Hashing → EngineConfig → Option Driver → World → Type 0
RunsOn h config none w = Kept h config w
RunsOn h config (some d) w = KeptBy h config d w × (past_battle d.round.state ≡ false)

running-RunsOn :
    (h : Hashing) (config : EngineConfig) (r : Result Driver × World)
    → Ran h config r
    → RunsOn h config (running r).driver (running r).world
running-RunsOn h config (ok d, w) k = k
running-RunsOn h config (err e, w) k = k

RunsOn-Kept :
    (h : Hashing) (config : EngineConfig) (d : Option Driver) (w : World)
    → RunsOn h config d w
    → Kept h config w
RunsOn-Kept h config none w k = k
RunsOn-Kept h config (some d) w (k, p) = inr (d, k)

module _ (hashing : Hashing) (fuel : ℕ) (options : DriverOptions) where
  passed_by-RunsOn :
      (now : ℕ) (o : Opening) (d : Option Driver) (w : World)
      → RunsOn hashing options.config d w
      → RunsOn hashing options.config
          (passed_by hashing fuel options now o d w).driver
          (passed_by hashing fuel options now o d w).world
  unfolding passed_by
  passed_by-RunsOn now o none w k = k
  passed_by-RunsOn now o (some d) w (k, p) =
      running-RunsOn hashing options.config _ (drive-Ran hashing fuel options o now d w k p)

  pub events-RunsOn :
      (es : List Event) (r : Running)
      → RunsOn hashing options.config r.driver r.world
      → RunsOn hashing options.config
          (events hashing fuel options es r).driver
          (events hashing fuel options es r).world
  unfolding events happen
  events-RunsOn [] r k = k
  events-RunsOn (started o ∷ es) r k =
      events-RunsOn es (running (start hashing fuel options o r.world)) (
        running-RunsOn hashing options.config _ (
          start-Ran hashing fuel options o r.world
            (RunsOn-Kept hashing options.config r.driver r.world k)))
  events-RunsOn (passed now o ∷ es) r k =
      events-RunsOn es (passed_by hashing fuel options now o r.driver r.world)
        (passed_by-RunsOn now o r.driver r.world k)

-- What a run has written: whole rounds, and what was written so far of the one after them, which is
-- the stored round and that of the driver.
pub record Chronicled (driver : Option Driver) (w : World) : Type 0 where
  pub index : ℕ
  pub base : List Effect
  pub round : List Effect
  pub log_is : w.log ≡ base ++ round
  pub before : IsChronicle index base
  pub ordered : IsOrdered (round_id_for index) false false round
  pub stored : (s : RoundEngineState) → w.latest ≡ some s → s.round_id ≡ round_id_for index
  pub driven : (d : Driver) → driver ≡ some d → (d.index ≡ index) × (w.latest ≡ some d.round)

KeptBy-Chronicled :
    (h : Hashing) (config : EngineConfig) (d : Driver) (w : World) (driver : Option Driver)
    → KeptBy h config d w
    → ((e : Driver) → driver ≡ some e → e ≡ d)
    → Chronicled driver w
KeptBy-Chronicled h config d w driver k f =
    let (saved, ((l, b, o), e), n, _) = k.held in
    record {
      index = d.index;
      base = k.base;
      round = l;
      log_is = b;
      before = k.before;
      ordered = o.ordered;
      stored = λ s g.
          subst (λ (t : RoundEngineState). t.round_id ≡ round_id_for d.index)
            (some-injective (sym e ∙ g)) n;
      driven = λ c g.
          let same = f c g in
          (ap (λ (x : Driver). x.index) same, e ∙ sym (ap (λ (x : Driver). some x.round) same));
    }

RunsOn-Chronicled :
    (h : Hashing) (config : EngineConfig) (driver : Option Driver) (w : World)
    → RunsOn h config driver w
    → Chronicled driver w
RunsOn-Chronicled h config none w (inl (e, l)) = record {
  index = 0;
  base = [];
  round = [];
  log_is = l;
  before = nothing;
  ordered = tt;
  stored = λ s g. absurd (let x = sym e ∙ g in cc);
  driven = λ d g. absurd cc;
}
RunsOn-Chronicled h config none w (inr (d, k)) =
    KeptBy-Chronicled h config d w none k (λ e g. absurd cc)
RunsOn-Chronicled h config (some d) w (k, p) =
    KeptBy-Chronicled h config d w (some d) k (λ e g. some-injective (sym g))

-- From an empty store, whatever the ports answer, wherever a call of them fails and however often the
-- driver is started again, all that is written is the rounds 0, 1, 2 and so on, one after the other,
-- of which only the last may lack its end. Each of them is saved, is then told, and has its
-- finalization saved once, before the next one is saved at all; voids and results are told after the
-- finalization is saved. The states, the finalization and the events that carry a round's name carry
-- the one of that round. A stored round is the last of these, and a driver that runs holds that round
-- and its index.
pub events-Chronicled :
    (hashing : Hashing) (fuel : ℕ) (options : DriverOptions) (es : List Event)
    → Chronicled
        (events hashing fuel options es before_all).driver
        (events hashing fuel options es before_all).world
events-Chronicled hashing fuel options es =
    RunsOn-Chronicled hashing options.config _ _
      (events-RunsOn hashing fuel options es before_all (inl (refl, refl)))
