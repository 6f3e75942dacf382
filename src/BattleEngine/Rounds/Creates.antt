-- ===== src/BattleEngine/Rounds/Creates.antt =====
-- When a round can be created (`createRound` in packages/battle-engine/src/round.ts and
-- `matchupConfidence` in packages/battle-math/src/confidence.ts).
use ponswars.Base.{
  arith, ℕ, ◌+◌, ◌≡◌, refl, false, true, List, [], ◌∷◌, some, ok, Returns, >>=-Returns,
}
use ponswars.Base.Int.{ℤ, pos, leb_ℤ, eqb_ℤ, ltb_ℤ}
use ponswars.Base.Hashing.{Hashing}
use ponswars.Shared.Roster.{ActiveTicker}
use ponswars.BattleMath.Scale.{div_scaled}
use ponswars.BattleMath.Confidence.{
  ConfidenceLookback, ConfidenceCalibration, sub_signals, assert_calibration, matchup_confidence,
}
use ponswars.BattleMath.Matchmaking.{Pairing, schedule_round}
use ponswars.BattleEngine.Rounds.Create.{
  RoundSetup, create_battle, create_battles, matchmaking_of, create_round,
}

-- A lookback with a volatility to divide by.
abbrev pub IsMeasured : ConfidenceLookback → Type 0
IsMeasured l = ltb_ℤ (pos 0) l.volatility ≡ true

div_scaled-Returns : (n d : ℤ) → ltb_ℤ (pos 0) d ≡ true → Returns (div_scaled n d)
unfolding div_scaled
div_scaled-Returns n d h = let e : eqb_ℤ d (pos 0) ≡ false = ground (arith, h) in rw e (_, refl)

sub_signals-Returns :
    (l : ConfidenceLookback) (c : ConfidenceCalibration) → IsMeasured l → Returns (sub_signals l c)
unfolding sub_signals
sub_signals-Returns l c h =
    let e : leb_ℤ l.volatility (pos 0) ≡ false = ground (arith, h) in
    rw e (
      >>=-Returns (div_scaled l.window_return l.volatility) _
        (div_scaled-Returns l.window_return l.volatility h) (λ _ _. (_, refl)))

matchup_confidence-Returns :
    (l r : ConfidenceLookback) (c : ConfidenceCalibration)
    → IsMeasured l
    → IsMeasured r
    → assert_calibration c ≡ ok tt
    → Returns (matchup_confidence l r c)
unfolding matchup_confidence
matchup_confidence-Returns l r c h k e = rw e (
    >>=-Returns (sub_signals l c) _ (sub_signals-Returns l c h)
      (λ _ _. >>=-Returns (sub_signals r c) _ (sub_signals-Returns r c k) (λ _ _. (_, refl))))

-- Every ticker has a lookback that can be measured.
abbrev pub HasLookbacks : RoundSetup → Type 0
HasLookbacks setup =
    (t : ActiveTicker) → (l : ConfidenceLookback) × (setup.lookback t ≡ some l) × IsMeasured l

create_battles-Returns :
    (setup : RoundSetup) (slot : ℕ) (ps : List Pairing)
    → HasLookbacks setup
    → assert_calibration setup.calibration ≡ ok tt
    → Returns (create_battles setup slot ps)
unfolding create_battles create_battle
create_battles-Returns setup slot [] h c = (_, refl)
create_battles-Returns setup slot (p ∷ ps) h c =
    let (l, e, m) = h p.left in
    let (r, f, n) = h p.right in
    rw (e, f)
      (>>=-Returns (create_battle setup slot p (some l) (some r)) _
        (>>=-Returns (matchup_confidence l r setup.calibration) _
          (matchup_confidence-Returns l r setup.calibration m n c) (λ _ _. (_, refl)))
        (λ _ _.
          >>=-Returns (create_battles setup (slot + 1) ps) _
            (create_battles-Returns setup (slot + 1) ps h c) (λ _ _. (_, refl))))

-- A round with a schedule, lookbacks and a calibration in order is created.
pub create_round-Returns :
    (hashing : Hashing) (fuel : ℕ) (setup : RoundSetup)
    → Returns (schedule_round hashing fuel (matchmaking_of setup))
    → HasLookbacks setup
    → assert_calibration setup.calibration ≡ ok tt
    → Returns (create_round hashing fuel setup)
unfolding create_round
create_round-Returns hashing fuel setup s h c =
    >>=-Returns (schedule_round hashing fuel (matchmaking_of setup)) _ s (λ ps _.
      >>=-Returns (create_battles setup 0 ps) _ (create_battles-Returns setup 0 ps h c)
        (λ _ _. (_, refl)))
