-- ===== src/BattleEngine/Rounds/Paid.antt =====
-- What the picks of a round are to be awarded (`awardsFor` in packages/battle-engine/src/round.ts).
use ponswars.Base.{ℕ, ◌≡◌, ◌≢◌, List, [], ◌∷◌, ◌++◌, All, Option, none, some, map}
use ponswars.Base.Text.{Text}
use ponswars.Shared.Labels.{
  ConfidenceLabel, heavy_underdog, underdog, even, favored, strong_favorite, dominant,
  WpAwardReason, win, underdog_win, heavy_underdog_win, card_assist,
}
use ponswars.Shared.Cards.{CardType}
use ponswars.BattleEngine.Battle.{BattleEngineState}
use ponswars.BattleEngine.Finalize.{FinalizedBattleResult}
use ponswars.BattleEngine.Rounds.{LockedPick, WpAward}

-- What a win is worth by the label that the winner had before the battle, and a card with it.
abbrev pub price : ConfidenceLabel → WpAwardReason × ℕ
price heavy_underdog = (heavy_underdog_win, 14)
price underdog = (underdog_win, 12)
price even = (win, 10)
price favored = (win, 10)
price strong_favorite = (win, 10)
price dominant = (win, 10)

abbrev pub card_price : Option CardType → List (WpAwardReason × ℕ)
card_price none = []
card_price (some card) = (card_assist, 2) ∷ []

abbrev pub award_at : LockedPick → WpAwardReason × ℕ → WpAward
award_at pick (reason, points) = record {
  wallet = pick.wallet;
  battle_id = pick.battle_id;
  reason = reason;
  points = points;
}

-- The awards of a winning pick.
abbrev prize : LockedPick → ConfidenceLabel → List WpAward
prize pick label = map (award_at pick) (price label ∷ card_price pick.deployed_card)

-- The last result of a battle, and the first battle of that name.
pub record LastResult (id : Text) (results : List FinalizedBattleResult) (r : FinalizedBattleResult)
    : Type 0 where
  pub before : List FinalizedBattleResult
  pub after : List FinalizedBattleResult
  pub results_are : results ≡ before ++ (r ∷ after)
  pub named : r.battle_id ≡ id
  pub last : All (λ x. x.battle_id ≢ id) after

pub record FirstBattle (id : Text) (battles : List BattleEngineState) (b : BattleEngineState)
    : Type 0 where
  pub before : List BattleEngineState
  pub after : List BattleEngineState
  pub battles_are : battles ≡ before ++ (b ∷ after)
  pub named : b.setup.battle_id ≡ id
  pub first : All (λ x. x.setup.battle_id ≢ id) before

-- What a pick is paid: nothing where its battle has no result, is not of the round or was won by
-- another stock, and else the prize at the label of the side that it backed.
pub data PaidFor (battles : List BattleEngineState) (results : List FinalizedBattleResult)
    (pick : LockedPick) : List WpAward → Type 0 where
  no_result : All (λ r. r.battle_id ≢ pick.battle_id) results → PaidFor battles results pick []
  no_battle :
      All (λ b. b.setup.battle_id ≢ pick.battle_id) battles → PaidFor battles results pick []
  lost :
      {r : FinalizedBattleResult}
      → LastResult pick.battle_id results r
      → r.winner ≢ pick.backed_ticker
      → PaidFor battles results pick []
  won_left :
      {r : FinalizedBattleResult} {b : BattleEngineState}
      → LastResult pick.battle_id results r
      → FirstBattle pick.battle_id battles b
      → r.winner ≡ pick.backed_ticker
      → pick.backed_ticker ≡ b.setup.left
      → PaidFor battles results pick (prize pick b.setup.left_intel.label)
  won_right :
      {r : FinalizedBattleResult} {b : BattleEngineState}
      → LastResult pick.battle_id results r
      → FirstBattle pick.battle_id battles b
      → r.winner ≡ pick.backed_ticker
      → pick.backed_ticker ≢ b.setup.left
      → PaidFor battles results pick (prize pick b.setup.right_intel.label)

-- The awards of picks, those of each pick after those of the picks before it.
pub data ArePaid (battles : List BattleEngineState) (results : List FinalizedBattleResult)
    : List LockedPick → List WpAward → Type 0 where
  none_left : ArePaid battles results [] []
  paid :
      {pick : LockedPick} {picks : List LockedPick} {part rest : List WpAward}
      → PaidFor battles results pick part
      → ArePaid battles results picks rest
      → ArePaid battles results (pick ∷ picks) (part ++ rest)
