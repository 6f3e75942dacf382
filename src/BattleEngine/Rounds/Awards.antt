-- ===== src/BattleEngine/Rounds/Awards.antt =====
-- The awards of a round (`awardsFor` in packages/battle-engine/src/round.ts).
use ponswars.Base.{
  ◌≡◌, ◌≢◌, refl, sym, ap, ◌∙◌, subst, false, Bool-cases, inl, inr, List, [], ◌∷◌, All, Option,
  none, some, map, if◌then◌else◌,
}
use ponswars.Base.Text.{Text, text_eq, text_eq_iff}
use ponswars.Shared.Labels.{
  ConfidenceLabel, heavy_underdog, underdog, even, favored, strong_favorite, dominant,
  winning_pick_wp, base_wp_award_reason,
}
use ponswars.Shared.Cards.{CardType}
use ponswars.Shared.Roster.{ticker_eq, ticker_eq_iff}
use ponswars.BattleEngine.Battle.{BattleEngineState}
use ponswars.BattleEngine.Finalize.{FinalizedBattleResult}
use ponswars.BattleEngine.Rounds.{
  LockedPick, RoundEngineState, result_for, battle_for, confidence_of_winner, card_award, reason_of,
  pick_awards, awards_of, awards_for,
}
use ponswars.BattleEngine.Rounds.Paid.{
  price, card_price, award_at, LastResult, FirstBattle, PaidFor, ArePaid, no_result, no_battle,
  lost, won_left, won_right, none_left, paid,
}

abbrev FoundResult : Text → List FinalizedBattleResult → Option FinalizedBattleResult → Type 0
FoundResult id rs none = All (λ r. r.battle_id ≢ id) rs
FoundResult id rs (some r) = LastResult id rs r

abbrev FoundBattle : Text → List BattleEngineState → Option BattleEngineState → Type 0
FoundBattle id bs none = All (λ b. b.setup.battle_id ≢ id) bs
FoundBattle id bs (some b) = FirstBattle id bs b

other_name : (a b : Text) → text_eq a b ≡ false → a ≢ b
other_name a b h e = let x = (text_eq_iff a b).1 e in cc

-- A result in front of those that were searched.
earlier-FoundResult :
    (id : Text) (r : FinalizedBattleResult) (rs : List FinalizedBattleResult)
    (o : Option FinalizedBattleResult)
    → FoundResult id rs o
    → FoundResult id (r ∷ rs) (elim o [
      | some later ↦ some later
      | none ↦ if text_eq r.battle_id id then some r else none
    ])
earlier-FoundResult id r rs none f = elim (Bool-cases (text_eq r.battle_id id)) [
  | inl e ↦ rw e (record {
    before = [];
    after = rs;
    results_are = refl;
    named = (text_eq_iff r.battle_id id).0 e;
    last = f;
  })
  | inr e ↦ rw e (other_name r.battle_id id e, f)
]
earlier-FoundResult id r rs (some later) f = record {
  before = r ∷ f.before;
  after = f.after;
  results_are = ap (λ xs. r ∷ xs) f.results_are;
  named = f.named;
  last = f.last;
}

result_for-FoundResult :
    (id : Text) (rs : List FinalizedBattleResult) → FoundResult id rs (result_for id rs)
unfolding result_for
result_for-FoundResult id [] = tt
result_for-FoundResult id (r ∷ rs) =
    earlier-FoundResult id r rs (result_for id rs) (result_for-FoundResult id rs)

later-FoundBattle :
    (id : Text) (b : BattleEngineState) (bs : List BattleEngineState) (o : Option BattleEngineState)
    → b.setup.battle_id ≢ id
    → FoundBattle id bs o
    → FoundBattle id (b ∷ bs) o
later-FoundBattle id b bs none n f = (n, f)
later-FoundBattle id b bs (some c) n f = record {
  before = b ∷ f.before;
  after = f.after;
  battles_are = ap (λ xs. b ∷ xs) f.battles_are;
  named = f.named;
  first = (n, f.first);
}

battle_for-FoundBattle :
    (id : Text) (bs : List BattleEngineState) → FoundBattle id bs (battle_for id bs)
unfolding battle_for
battle_for-FoundBattle id [] = tt
battle_for-FoundBattle id (b ∷ bs) = elim (Bool-cases (text_eq b.setup.battle_id id)) [
  | inl e ↦ rw e (record {
    before = [];
    after = bs;
    battles_are = refl;
    named = (text_eq_iff b.setup.battle_id id).0 e;
    first = tt;
  })
  | inr e ↦ rw e (
      later-FoundBattle id b bs (battle_for id bs) (other_name b.setup.battle_id id e)
        (battle_for-FoundBattle id bs))
]

-- The awards that `awardsFor` pushes for a winning pick are its prize.
pushed_prize :
    (pick : LockedPick) (label : ConfidenceLabel) (card : Option CardType)
    → award_at pick (reason_of label, winning_pick_wp label false) ∷ card_award pick label card
      ≡ map (award_at pick) (price label ∷ card_price card)
unfolding reason_of winning_pick_wp base_wp_award_reason card_award
pushed_prize pick heavy_underdog none = refl
pushed_prize pick underdog none = refl
pushed_prize pick even none = refl
pushed_prize pick favored none = refl
pushed_prize pick strong_favorite none = refl
pushed_prize pick dominant none = refl
pushed_prize pick heavy_underdog (some card) = refl
pushed_prize pick underdog (some card) = refl
pushed_prize pick even (some card) = refl
pushed_prize pick favored (some card) = refl
pushed_prize pick strong_favorite (some card) = refl
pushed_prize pick dominant (some card) = refl

pick_awards-PaidFor :
    (battles : List BattleEngineState) (results : List FinalizedBattleResult) (pick : LockedPick)
    (r : Option FinalizedBattleResult) (b : Option BattleEngineState)
    → FoundResult pick.battle_id results r
    → FoundBattle pick.battle_id battles b
    → PaidFor battles results pick (pick_awards pick r b)
unfolding pick_awards confidence_of_winner
pick_awards-PaidFor battles results pick none b f g = no_result f
pick_awards-PaidFor battles results pick (some r) none f g = no_battle g
pick_awards-PaidFor battles results pick (some r) (some b) f g =
    elim (Bool-cases (ticker_eq r.winner pick.backed_ticker)) [
      | inr e ↦
          rw e (lost f (λ same. let x = (ticker_eq_iff r.winner pick.backed_ticker).1 same in cc))
      | inl e ↦
          let backed = (ticker_eq_iff r.winner pick.backed_ticker).0 e in
          elim (Bool-cases (ticker_eq r.winner b.setup.left)) [
            | inl l ↦
                let left = sym backed ∙ (ticker_eq_iff r.winner b.setup.left).0 l in
                rw (e, l)
                  (subst (PaidFor battles results pick)
                    (sym (pushed_prize pick b.setup.left_intel.label pick.deployed_card))
                    (won_left f g backed left))
            | inr l ↦
                let right : pick.backed_ticker ≢ b.setup.left =
                  λ same. (let x = (ticker_eq_iff r.winner b.setup.left).1 (backed ∙ same) in cc) in
                rw (e, l)
                  (subst (PaidFor battles results pick)
                    (sym (pushed_prize pick b.setup.right_intel.label pick.deployed_card))
                    (won_right f g backed right))
          ]
    ]

awards_of-ArePaid :
    (battles : List BattleEngineState) (results : List FinalizedBattleResult)
    (picks : List LockedPick)
    → ArePaid battles results picks (awards_of battles results picks)
unfolding awards_of
awards_of-ArePaid battles results [] = none_left
awards_of-ArePaid battles results (pick ∷ picks) =
    paid
      (pick_awards-PaidFor battles results pick (result_for pick.battle_id results)
        (battle_for pick.battle_id battles) (result_for-FoundResult pick.battle_id results)
        (battle_for-FoundBattle pick.battle_id battles))
      (awards_of-ArePaid battles results picks)

-- The awards of a round are those of its picks, in their order. A pick gets nothing when its battle has
-- no result, is not one of the round, or was won by another stock than the one it backed. Any other
-- pick, by the last result of its battle, gets 14 points as HEAVY_UNDERDOG_WIN, 12 as UNDERDOG_WIN or 10
-- as WIN where the side that it backed was labelled a heavy underdog, an underdog or anything else
-- before the battle, and 2 points more as CARD_ASSIST if it deployed a card.
pub awards_for-ArePaid :
    (state : RoundEngineState) (results : List FinalizedBattleResult)
    → ArePaid state.battles results state.picks (awards_for state results)
unfolding awards_for
awards_for-ArePaid state results = awards_of-ArePaid state.battles results state.picks
