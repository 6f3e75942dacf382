-- ===== src/BattleEngine/Rounds/Create.antt =====
-- Creating a round (`createRound` in packages/battle-engine/src/round.ts).
use ponswars.Base.{
  ℕ, zero, suc, ◌+◌, ◌≡◌, refl, subst, List, [], ◌∷◌, Option, none, some, Result, ok, err,
  range_error, ◌>>=◌, >>=-eq-ok, ok-injective,
}
use ponswars.Base.Text.{Text}
use ponswars.Base.Hashing.{Hashing}
use ponswars.Shared.Roster.{ActiveTicker}
use ponswars.Shared.Round.{RoundState, CanonicalClock, battles_per_round}
use ponswars.BattleMath.Confidence.{ConfidenceLookback, ConfidenceCalibration, matchup_confidence}
use ponswars.BattleMath.Matchmaking.{
  Pairing, MatchmakingInput, roster_of, recent_of, cooldown_set, schedule_round,
}
use ponswars.BattleMath.Matchmaking.Counts.{IsSchedule}
use ponswars.BattleMath.Matchmaking.Rosters.{schedule_round-IsSchedule}
use ponswars.BattleMath.Scheduler.{battle_id_for, sector_id_for}
use ponswars.BattleEngine.Battle.{BattleEngineState, BattleSetup, begin_battle}
use ponswars.BattleEngine.Rounds.{RoundEngineState}

-- A lookback may be missing for a ticker.
pub record RoundSetup : Type 0 where
  pub round_id : Text
  pub round_index : ℕ
  pub clock : CanonicalClock
  pub base_seed_hex : Text
  pub roster : Option (List ActiveTicker)
  pub recent_rounds : Option (List (List Pairing))
  pub lookback : ActiveTicker → Option ConfidenceLookback
  pub calibration : ConfidenceCalibration

-- The battle of a pairing, whose lookbacks are looked up first.
unfoldable pub create_battle :
    RoundSetup
    → ℕ
    → Pairing
    → Option ConfidenceLookback
    → Option ConfidenceLookback
    → Result BattleEngineState
create_battle setup slot pairing (some left) (some right) =
    matchup_confidence left right setup.calibration >>= λ intel. ok (
      begin_battle (record {
        battle_id = battle_id_for setup.round_index slot;
        round_id = setup.round_id;
        left = pairing.left;
        right = pairing.right;
        clock = setup.clock;
        left_intel = intel.left;
        right_intel = intel.right;
      }))
create_battle setup slot pairing none right = err range_error
create_battle setup slot pairing (some left) none = err range_error

unfoldable pub create_battles : RoundSetup → ℕ → List Pairing → Result (List BattleEngineState)
create_battles setup slot [] = ok []
create_battles setup slot (pairing ∷ pairings) =
    create_battle setup slot pairing (setup.lookback pairing.left) (setup.lookback pairing.right)
    >>= λ battle. create_battles setup (slot + 1) pairings >>= λ battles. ok (battle ∷ battles)

unfoldable pub matchmaking_of : RoundSetup → MatchmakingInput
matchmaking_of setup = record {
  base_seed_hex = setup.base_seed_hex;
  round_id = setup.round_id;
  roster = setup.roster;
  recent_rounds = setup.recent_rounds;
}

unfoldable pub create_round : Hashing → ℕ → RoundSetup → Result RoundEngineState
create_round hashing fuel setup = schedule_round hashing fuel (matchmaking_of setup) >>= λ pairings.
    create_battles setup 0 pairings >>= λ battles. ok (record {
      round_id = setup.round_id;
      state = RoundState.pick_open;
      clock = setup.clock;
      battles = battles;
      picks = [];
      matchmaking_seed = setup.base_seed_hex;
    })

sector_ids_from : ℕ → ℕ → List Text
sector_ids_from slot zero = []
sector_ids_from slot (suc n) = sector_id_for slot ∷ sector_ids_from (slot + 1) n

unfoldable pub sector_ids : List Text
unfolding sector_ids_from
sector_ids = sector_ids_from 0 battles_per_round

-- The label of a battle is that of its two stocks against each other.
abbrev IsLabelled : RoundSetup → BattleSetup → Type 0
IsLabelled setup b =
    (left : ConfidenceLookback) × (right : ConfidenceLookback) × (setup.lookback b.left ≡ some left)
    × (setup.lookback b.right ≡ some right)
    × (matchup_confidence left right setup.calibration
        ≡ ok (record { left = b.left_intel; right = b.right_intel }))

-- The battles stand for the pairings, in order, from a slot on.
abbrev pub AreCreated : RoundSetup → ℕ → List Pairing → List BattleEngineState → Type 0
AreCreated setup slot [] [] = Unit {0}
AreCreated setup slot (p ∷ ps) (b ∷ bs) =
    (b ≡ begin_battle b.setup)
    × (b.setup.battle_id ≡ battle_id_for setup.round_index slot)
    × (b.setup.clock ≡ setup.clock)
    × (b.setup.left ≡ p.left)
    × (b.setup.right ≡ p.right)
    × IsLabelled setup b.setup
    × AreCreated setup (slot + 1) ps bs
AreCreated setup slot _ _ = ⊥

create_battle-cases :
    (setup : RoundSetup) (slot : ℕ) (p : Pairing) (l r : Option ConfidenceLookback)
    {b : BattleEngineState}
    → setup.lookback p.left ≡ l
    → setup.lookback p.right ≡ r
    → create_battle setup slot p l r ≡ ok b
    → (b ≡ begin_battle b.setup)
      × (b.setup.battle_id ≡ battle_id_for setup.round_index slot)
      × (b.setup.clock ≡ setup.clock)
      × (b.setup.left ≡ p.left)
      × (b.setup.right ≡ p.right)
      × IsLabelled setup b.setup
unfolding create_battle begin_battle
create_battle-cases setup slot p (some l) (some r) {b = b} el er e =
    let (intel, m, f) = >>=-eq-ok (matchup_confidence l r setup.calibration) _ e in
    subst
      (λ (c : BattleEngineState).
        (c ≡ begin_battle c.setup)
        × (c.setup.battle_id ≡ battle_id_for setup.round_index slot)
        × (c.setup.clock ≡ setup.clock)
        × (c.setup.left ≡ p.left)
        × (c.setup.right ≡ p.right)
        × IsLabelled setup c.setup)
      (ok-injective f) (refl, refl, refl, refl, refl, (l, r, el, er, m))
create_battle-cases setup slot p none r el er e = cc
create_battle-cases setup slot p (some l) none el er e = cc

create_battles-AreCreated :
    (setup : RoundSetup) (slot : ℕ) (ps : List Pairing) {bs : List BattleEngineState}
    → create_battles setup slot ps ≡ ok bs
    → AreCreated setup slot ps bs
unfolding create_battles
create_battles-AreCreated setup slot [] e = subst (AreCreated setup slot []) (ok-injective e) tt
create_battles-AreCreated setup slot (p ∷ ps) e =
    let (b, c, f) =
      >>=-eq-ok (create_battle setup slot p (setup.lookback p.left) (setup.lookback p.right)) _ e in
    let (bs, d, g) = >>=-eq-ok (create_battles setup (slot + 1) ps) _ f in
    let (s, i, t, l, r, k) = create_battle-cases setup slot p _ _ refl refl c in
    subst (AreCreated setup slot (p ∷ ps)) (ok-injective g)
      (s, i, t, l, r, k, create_battles-AreCreated setup (slot + 1) ps d)

-- A round that `createRound` returns has the name and the clock of its setup, is open for picks and has
-- none. Its battles stand for pairings that use every ticker of the roster and repeat no recent matchup,
-- and are numbered in their order; each is fresh, runs on the clock of the round and carries the labels
-- of its two stocks against each other.
pub create_round_lem :
    (hashing : Hashing) (fuel : ℕ) (setup : RoundSetup) {r : RoundEngineState}
    → create_round hashing fuel setup ≡ ok r
    → (r.round_id ≡ setup.round_id)
      × (r.clock ≡ setup.clock)
      × (r.state ≡ RoundState.pick_open)
      × (r.picks ≡ [])
      × ((ps : List Pairing) × IsSchedule
            (cooldown_set (recent_of setup.recent_rounds))
            (roster_of setup.roster)
            ps
          × AreCreated setup 0 ps r.battles)
unfolding create_round matchmaking_of
create_round_lem hashing fuel setup {r = r} e =
    let (ps, s, f) = >>=-eq-ok (schedule_round hashing fuel (matchmaking_of setup)) _ e in
    let (bs, c, g) = >>=-eq-ok (create_battles setup 0 ps) _ f in
    let i = schedule_round-IsSchedule hashing fuel (matchmaking_of setup) s in
    subst
      (λ (r : RoundEngineState).
        (r.round_id ≡ setup.round_id)
        × (r.clock ≡ setup.clock)
        × (r.state ≡ RoundState.pick_open)
        × (r.picks ≡ [])
        × ((ps : List Pairing) × IsSchedule (cooldown_set (recent_of setup.recent_rounds))
              (roster_of setup.roster) ps
            × AreCreated setup 0 ps r.battles))
      (ok-injective g) (refl, refl, refl, refl, (ps, i, create_battles-AreCreated setup 0 ps c))
