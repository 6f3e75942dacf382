-- ===== src/BattleEngine/Rounds.antt =====
-- packages/battle-engine/src/round.ts: a round of battles, its picks and its awards.
pub mod Paid
pub mod Awards
pub mod Retry
pub mod Supports
pub mod Lock
pub mod Create
pub mod Creates
pub mod Running
pub mod Complete
pub mod Unhashed
pub mod Ending
pub mod Lives
use ponswars.Base.{
  ℕ, ◌+◌, ◌-◌, ◌==◌, ◌&&◌, not, Bool, true, false, List, [], ◌∷◌, ◌++◌, map, Option, none, some,
  any, length, ltb, if◌then◌else◌, Result, ok, err, range_error, failure, ◌>>=◌, ◌>>◌, map_result,
}
use ponswars.Base.Text.{Text, text_eq}
use ponswars.Base.Hashing.{Hashing}
use ponswars.Shared.Labels.{
  ConfidenceLabel, heavy_underdog, underdog, WpAwardReason, win, underdog_win, heavy_underdog_win,
  card_assist, winning_pick_wp,
}
use ponswars.Shared.Cards.{CardType}
use ponswars.Shared.Roster.{ActiveTicker, ticker_eq}
use ponswars.Shared.Round.{
  RoundState, BattleState, CanonicalClock, can_transition_round, battle_state_eq,
}
use ponswars.BattleMath.Scoring.{SideInputs, aggregate_card_support, score_battle}
use ponswars.BattleMath.Resolution.{needs_chain_tiebreak}
use ponswars.BattleEngine.Battle.{
  BattleEngineState, BattleSetup, CardSupportPair, EngineConfig, TickInput, TickOutcome, ignored,
  updated, voided, open_battle, apply_tick,
}
use ponswars.BattleEngine.Finalize.{
  FinalizedBattleResult, FinalizeOutcome, waiting, finalized_as, voided_as, finalize_battle,
}

pub record LockedPick : Type 0 where
  pub wallet : ℕ
  pub battle_id : Text
  pub backed_ticker : ActiveTicker
  pub deployed_card : Option CardType

-- The cards that the picks of a battle deploy for a ticker.
side_cards : BattleSetup → List LockedPick → ActiveTicker → List CardType
side_cards setup [] ticker = []
side_cards setup (pick ∷ picks) ticker =
    let rest = side_cards setup picks ticker in
    if text_eq pick.battle_id setup.battle_id && ticker_eq pick.backed_ticker ticker
    then elim pick.deployed_card [ none ↦ rest | some card ↦ card ∷ rest ]
    else rest

unfoldable pub battle_card_support : BattleSetup → List LockedPick → CardSupportPair
unfolding side_cards
battle_card_support setup picks = record {
  left = aggregate_card_support (side_cards setup picks setup.left);
  right = aggregate_card_support (side_cards setup picks setup.right);
}

pub record WpAward : Type 0 where
  pub wallet : ℕ
  pub battle_id : Text
  pub reason : WpAwardReason
  pub points : ℕ

pub record RoundEngineState : Type 0 where
  pub round_id : Text
  pub state : RoundState
  pub clock : CanonicalClock
  pub battles : List BattleEngineState
  pub picks : List LockedPick
  pub matchmaking_seed : Text

-- The loop of `lockRound` over the picks, with the wallets seen so far.
unfoldable pub check_picks : List BattleEngineState → List ℕ → List LockedPick → Result (Unit {0})
check_picks battles seen [] = ok tt
check_picks battles seen (pick ∷ picks) =
    let rest = check_picks battles (pick.wallet ∷ seen) picks in
    if any (λ w. w == pick.wallet) seen
    then err range_error
    else if not (any (λ b. text_eq b.setup.battle_id pick.battle_id) battles)
    then err range_error
    else rest

-- A battle that opens with the support of the picks.
unfoldable pub open_with : ℕ → List LockedPick → BattleEngineState → Result BattleEngineState
open_with at picks battle = open_battle battle at >>= λ live.
    ok (record live { card_support = battle_card_support battle.setup picks })

unfoldable pub lock_round : RoundEngineState → ℕ → List LockedPick → Result RoundEngineState
unfolding open_with
lock_round state at picks =
    if not (can_transition_round state.state RoundState.locking)
    then err failure
    else if ltb at state.clock.lock_at
    then err range_error
    else (check_picks state.battles [] picks
        >> (map_result (open_with at picks) state.battles >>= λ battles.
            ok (record state { state = RoundState.battle_live; battles = battles; picks = picks })))

abbrev ticked_state : TickOutcome → BattleEngineState
ticked_state (ignored why s) = s
ticked_state (updated s update) = s
ticked_state (voided s reason) = s

unfoldable pub tick_battle :
    Hashing → RoundEngineState → Text → TickInput → EngineConfig → Result RoundEngineState
tick_battle hashing state battle_id input config =
    map_result
      (λ battle.
        if text_eq battle.setup.battle_id battle_id
        then (apply_tick hashing battle input config >>= λ outcome. ok (ticked_state outcome))
        else ok battle)
      state.battles
    >>= λ battles. ok (record state { battles = battles })

-- Whether the last score of a live battle is level in everything.
unfoldable pub level_battle :
    EngineConfig → BattleState → Option SideInputs → Option SideInputs → Result Bool
level_battle config BattleState.live (some left) (some right) =
    score_battle left right config.scoring >>= λ score. ok (needs_chain_tiebreak score)
level_battle config _ _ _ = ok false

unfoldable pub needs_finalization_block_hash : List BattleEngineState → EngineConfig → Result Bool
needs_finalization_block_hash [] config = ok false
needs_finalization_block_hash (battle ∷ battles) config =
    let rest = needs_finalization_block_hash battles config in
    level_battle config battle.state battle.last_left battle.last_right >>= λ level.
    if level then ok true else rest

-- What the loop of `finalizeRound` has gathered.
pub record Gathered : Type 0 where
  pub battles : List BattleEngineState
  pub results : List FinalizedBattleResult
  pub voided : List Text

-- One battle's outcome in front of what the later battles give.
unfoldable pub gather : BattleEngineState → FinalizeOutcome → Gathered → Gathered
gather battle (waiting s) rest = record {
  battles = s ∷ rest.battles;
  results = rest.results;
  voided = rest.voided;
}
gather battle (finalized_as s result) rest = record {
  battles = s ∷ rest.battles;
  results = result ∷ rest.results;
  voided = rest.voided;
}
gather battle (voided_as s reason) rest = record {
  battles = s ∷ rest.battles;
  results = rest.results;
  voided = battle.setup.battle_id ∷ rest.voided;
}

unfoldable pub finalize_battles :
    Hashing → List BattleEngineState → ℕ → Option Text → EngineConfig → Bool → Result Gathered
finalize_battles hashing [] at hash config complete =
    ok (record { battles = []; results = []; voided = [] })
finalize_battles hashing (battle ∷ battles) at hash config complete =
    let later = finalize_battles hashing battles at hash config complete in
    if battle_state_eq battle.state BattleState.void
    then (later >>= λ rest. ok (record {
      battles = battle ∷ rest.battles;
      results = rest.results;
      voided = battle.setup.battle_id ∷ rest.voided;
    }))
    else (finalize_battle hashing battle at hash config complete >>= λ outcome.
        later >>= λ rest. ok (gather battle outcome rest))

-- `byBattle.get(id)`: a later result replaces an earlier one of the same battle.
unfoldable pub result_for : Text → List FinalizedBattleResult → Option FinalizedBattleResult
result_for id [] = none
result_for id (r ∷ rs) = elim (result_for id rs) [
  | some later ↦ some later
  | none ↦ if text_eq r.battle_id id then some r else none
]

unfoldable pub battle_for : Text → List BattleEngineState → Option BattleEngineState
battle_for id [] = none
battle_for id (b ∷ bs) = if text_eq b.setup.battle_id id then some b else battle_for id bs

unfoldable pub reason_of : ConfidenceLabel → WpAwardReason
reason_of heavy_underdog = heavy_underdog_win
reason_of underdog = underdog_win
reason_of _ = win

-- The confidence that the winner had before the battle.
unfoldable pub confidence_of_winner : BattleSetup → ActiveTicker → ConfidenceLabel
confidence_of_winner setup winner =
    if ticker_eq winner setup.left then setup.left_intel.label else setup.right_intel.label

card_award : LockedPick → ConfidenceLabel → Option CardType → List WpAward
card_award pick confidence none = []
card_award pick confidence (some card) =
    record {
      wallet = pick.wallet;
      battle_id = pick.battle_id;
      reason = card_assist;
      points = winning_pick_wp confidence true - winning_pick_wp confidence false;
    }
    ∷ []

-- The awards of a pick for the battle that it backed.
unfoldable pub pick_awards :
    LockedPick → Option FinalizedBattleResult → Option BattleEngineState → List WpAward
unfolding card_award
pick_awards pick none battle = []
pick_awards pick (some result) none = []
pick_awards pick (some result) (some battle) =
    if not (ticker_eq result.winner pick.backed_ticker)
    then []
    else (let confidence = confidence_of_winner battle.setup result.winner in
        record {
          wallet = pick.wallet;
          battle_id = pick.battle_id;
          reason = reason_of confidence;
          points = winning_pick_wp confidence false;
        }
        ∷ card_award pick confidence pick.deployed_card)

unfoldable pub awards_of :
    List BattleEngineState → List FinalizedBattleResult → List LockedPick → List WpAward
awards_of battles results [] = []
awards_of battles results (pick ∷ picks) =
    pick_awards pick (result_for pick.battle_id results) (battle_for pick.battle_id battles)
    ++ awards_of battles results picks

unfoldable pub awards_for : RoundEngineState → List FinalizedBattleResult → List WpAward
awards_for state results = awards_of state.battles results state.picks

pub record RoundFinalization : Type 0 where
  pub state : RoundEngineState
  pub results : List FinalizedBattleResult
  pub voided : List Text
  pub awards : List WpAward

unfoldable pub is_settled : RoundEngineState → Gathered → Bool
is_settled state g = (length g.results + length g.voided) == length state.battles

unfoldable pub finalize_round :
    Hashing → RoundEngineState → ℕ → Option Text → EngineConfig → Bool → Result RoundFinalization
finalize_round hashing state at hash config complete =
    if not (can_transition_round state.state RoundState.finalizing)
    then err failure
    else (finalize_battles hashing state.battles at hash config complete >>= λ g.
        let settled = is_settled state g in
        ok (record {
          state = record state {
            state = if settled then RoundState.finalized else RoundState.finalizing;
            battles = g.battles;
          };
          results = g.results;
          voided = g.voided;
          awards = if settled then awards_for state g.results else [];
        }))
