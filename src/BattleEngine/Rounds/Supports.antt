-- ===== src/BattleEngine/Rounds/Supports.antt =====
-- The card support of a battle (`battleCardSupport` in packages/battle-engine/src/round.ts).
use ponswars.Base.{◌≡◌, ◌≢◌, ◌⊎◌, refl, Bool-cases, inl, inr, List, [], ◌∷◌, Option, none, some}
use ponswars.Base.Text.{Text, text_eq, text_eq_iff}
use ponswars.Shared.Cards.{CardType}
use ponswars.Shared.Roster.{ActiveTicker, ticker_eq, ticker_eq_iff}
use ponswars.BattleMath.Scoring.{AggregateCardSupport}
use ponswars.BattleMath.Scoring.Cards.{catalogue_support, aggregate_card_support-catalogue_support}
use ponswars.BattleEngine.Battle.{BattleSetup}
use ponswars.BattleEngine.Rounds.{LockedPick, side_cards, battle_card_support}

-- The cards that picks deploy for a stock in a battle, in the order of the picks.
pub data Deployed (id : Text) (ticker : ActiveTicker)
    : List LockedPick → List CardType → Type 0 where
  no_picks : Deployed id ticker [] []
  counted :
      {pick : LockedPick} {picks : List LockedPick} {card : CardType} {cards : List CardType}
      → pick.battle_id ≡ id
      → pick.backed_ticker ≡ ticker
      → pick.deployed_card ≡ some card
      → Deployed id ticker picks cards
      → Deployed id ticker (pick ∷ picks) (card ∷ cards)
  left_out :
      {pick : LockedPick} {picks : List LockedPick} {cards : List CardType}
      → (pick.battle_id ≢ id) ⊎ (pick.backed_ticker ≢ ticker) ⊎ (pick.deployed_card ≡ none)
      → Deployed id ticker picks cards
      → Deployed id ticker (pick ∷ picks) cards

-- A side is supported by the cards that picks deploy for it in the battle, and by no other.
pub record SupportedBy (id : Text) (ticker : ActiveTicker) (picks : List LockedPick)
    (support : AggregateCardSupport) : Type 0 where
  pub cards : List CardType
  pub deployed : Deployed id ticker picks cards
  pub summed : support ≡ catalogue_support cards

deployed_case :
    (id : Text) (ticker : ActiveTicker) (pick : LockedPick) (picks : List LockedPick)
    (cards : List CardType) (card : Option CardType)
    → pick.battle_id ≡ id
    → pick.backed_ticker ≡ ticker
    → pick.deployed_card ≡ card
    → Deployed id ticker picks cards
    → Deployed id ticker (pick ∷ picks) (elim card [ none ↦ cards | some c ↦ c ∷ cards ])
deployed_case id ticker pick picks cards none e f g d = left_out (inr (inr g)) d
deployed_case id ticker pick picks cards (some c) e f g d = counted e f g d

side_cards-Deployed :
    (setup : BattleSetup) (picks : List LockedPick) (ticker : ActiveTicker)
    → Deployed setup.battle_id ticker picks (side_cards setup picks ticker)
unfolding side_cards
side_cards-Deployed setup [] ticker = no_picks
side_cards-Deployed setup (pick ∷ picks) ticker =
    let rest = side_cards-Deployed setup picks ticker in
    elim (Bool-cases (text_eq pick.battle_id setup.battle_id)) [
      | inr e ↦
          let other : pick.battle_id ≢ setup.battle_id =
            λ same. (let x = (text_eq_iff pick.battle_id setup.battle_id).1 same in cc) in
          rw e (left_out (inl other) rest)
      | inl e ↦ elim (Bool-cases (ticker_eq pick.backed_ticker ticker)) [
        | inr f ↦
            let other : pick.backed_ticker ≢ ticker =
              λ same. (let x = (ticker_eq_iff pick.backed_ticker ticker).1 same in cc) in
            rw (e, f) (left_out (inr (inl other)) rest)
        | inl f ↦
            rw (e, f)
              (deployed_case setup.battle_id ticker pick picks (side_cards setup picks ticker)
                pick.deployed_card ((text_eq_iff pick.battle_id setup.battle_id).0 e)
                ((ticker_eq_iff pick.backed_ticker ticker).0 f) refl rest)
      ]
    ]

pub battle_card_support-SupportedBy :
    (setup : BattleSetup) (picks : List LockedPick)
    → SupportedBy setup.battle_id setup.left picks (battle_card_support setup picks).left
      × SupportedBy setup.battle_id setup.right picks (battle_card_support setup picks).right
unfolding battle_card_support
battle_card_support-SupportedBy setup picks = (
  record {
    cards = side_cards setup picks setup.left;
    deployed = side_cards-Deployed setup picks setup.left;
    summed = aggregate_card_support-catalogue_support (side_cards setup picks setup.left);
  },
  record {
    cards = side_cards setup picks setup.right;
    deployed = side_cards-Deployed setup picks setup.right;
    summed = aggregate_card_support-catalogue_support (side_cards setup picks setup.right);
  },
)
