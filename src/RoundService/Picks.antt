-- ===== src/RoundService/Picks.antt =====
-- packages/round-service/src/picks.ts, and the pick store of apps/api/src/pick-store.ts.
pub mod Calls
pub mod Frozen
pub mod Replays
pub mod Keyed
pub mod Sorted
pub mod Locked
use ponswars.Base.{
  ℕ, ◌==◌, ◌&&◌, Bool, true, false, List, [], ◌∷◌, ◌++◌, map, Option, none, some, any, length, leb,
  ltb, if◌then◌else◌, Result, ok, err, picks_locked, ◌>>=◌, map_result,
}
use ponswars.Base.Text.{Text, text_eq}
use ponswars.Base.Dict.{lookup, assign}
use ponswars.Base.Entries.{entry, put, remove}
use ponswars.Shared.Cards.{CardType}
use ponswars.Shared.Roster.{ActiveTicker}
use ponswars.BattleEngine.Rounds.{LockedPick}

pub data CardDecision : Type 0 where
  use_card save_card : CardDecision

pub record SubmittedPick : Type 0 where
  pub wallet : ℕ
  pub round_id : Text
  pub battle_id : Text
  pub backed_ticker : ActiveTicker
  pub card_decision : CardDecision
  pub received_at : ℕ
  pub client_request_id : Text

pub record CardHolding : Type 0 where
  pub card_instance_id : Text
  pub card_type : CardType
  pub remaining_uses : ℕ

unfoldable pub can_deploy : Option CardHolding → Bool
can_deploy none = false
can_deploy (some holding) = ltb 0 holding.remaining_uses

-- The parts that `requestKey` joins with a bar, which stands in no wallet and in no round's name.
pub record RequestKey : Type 0 where
  pub wallet : ℕ
  pub round_id : Text
  pub client_request_id : Text

unfoldable pub request_key : ℕ → Text → Text → RequestKey
request_key wallet round_id client_request_id = record {
  wallet = wallet;
  round_id = round_id;
  client_request_id = client_request_id;
}

unfoldable pub same_key : RequestKey → RequestKey → Bool
same_key a b =
    (a.wallet == b.wallet)
    && (text_eq a.round_id b.round_id && text_eq a.client_request_id b.client_request_id)

pub record PickStore : Type 0 where
  pub by_round : List (Text × List (ℕ × SubmittedPick))
  pub applied : List (RequestKey × SubmittedPick)
  pub locked : List Text

abbrev pub new_store : PickStore
new_store = record { by_round = []; applied = []; locked = [] }

unfoldable pub is_locked : Text → PickStore → Bool
is_locked round_id store = any (λ id. text_eq id round_id) store.locked

abbrev pub or_empty : Option (List (ℕ × SubmittedPick)) → List (ℕ × SubmittedPick)
or_empty none = []
or_empty (some round) = round

-- `this.byRound.get(roundId)`, empty where there is none.
unfoldable pub picks_of : Text → PickStore → List (ℕ × SubmittedPick)
picks_of round_id store = or_empty (lookup round_id store.by_round)

unfoldable pub find : Text → ℕ → PickStore → Option SubmittedPick
unfolding picks_of
find round_id wallet store = entry ◌==◌ wallet (picks_of round_id store)

unfoldable pub count : Text → PickStore → ℕ
unfolding picks_of
count round_id store = length (picks_of round_id store)

-- A call changes the store before it returns or rejects.
abbrev pub Stored : Type 0 → Type 0
Stored A = PickStore → Result A × PickStore

unfoldable pub submit_seen : Option SubmittedPick → SubmittedPick → Stored (SubmittedPick × Bool)
unfolding picks_of request_key
submit_seen (some seen) pick store = (ok (seen, true), store)
submit_seen none pick store = (
  ok (pick, false),
  record store {
    by_round =
        assign pick.round_id (put ◌==◌ pick.wallet pick (picks_of pick.round_id store))
          store.by_round;
    applied =
        put same_key (request_key pick.wallet pick.round_id pick.client_request_id) pick
          store.applied;
  },
)

unfoldable pub submit : SubmittedPick → Stored (SubmittedPick × Bool)
unfolding is_locked submit_seen request_key
submit pick store =
    if is_locked pick.round_id store
    then (err picks_locked, store)
    else submit_seen
        (entry same_key (request_key pick.wallet pick.round_id pick.client_request_id)
          store.applied)
        pick store

-- The pick of a wallet and its request are taken out.
unfoldable pub withdraw_found : Option SubmittedPick → Text → ℕ → Stored Bool
unfolding picks_of request_key
withdraw_found none round_id wallet store = (ok false, store)
withdraw_found (some existing) round_id wallet store = (
  ok true,
  record store {
    by_round = assign round_id (remove ◌==◌ wallet (picks_of round_id store)) store.by_round;
    applied =
        remove same_key (request_key wallet round_id existing.client_request_id) store.applied;
  },
)

unfoldable pub withdraw : Text → ℕ → Stored Bool
unfolding is_locked find withdraw_found
withdraw round_id wallet store =
    if is_locked round_id store
    then (err picks_locked, store)
    else withdraw_found (find round_id wallet store) round_id wallet store

unfoldable pub decide_found :
    Option SubmittedPick → Text → ℕ → CardDecision → ℕ → Stored (Option SubmittedPick)
unfolding picks_of
decide_found none round_id wallet card_decision at store = (ok none, store)
decide_found (some existing) round_id wallet card_decision at store =
    let updated = record existing { card_decision = card_decision; received_at = at } in
    (
      ok (some updated),
      record store {
        by_round =
            assign round_id (put ◌==◌ wallet updated (picks_of round_id store)) store.by_round;
      },
    )

unfoldable pub decide_card : Text → ℕ → CardDecision → ℕ → Stored (Option SubmittedPick)
unfolding is_locked find decide_found
decide_card round_id wallet card_decision at store =
    if is_locked round_id store
    then (err picks_locked, store)
    else decide_found (find round_id wallet store) round_id wallet card_decision at store

-- `sort` by the wallet.
unfoldable pub insert_pick : SubmittedPick → List SubmittedPick → List SubmittedPick
insert_pick a [] = a ∷ []
insert_pick a (b ∷ bs) = if leb a.wallet b.wallet then a ∷ b ∷ bs else b ∷ insert_pick a bs

unfoldable pub sort_picks : List SubmittedPick → List SubmittedPick
unfolding insert_pick
sort_picks [] = []
sort_picks (a ∷ picks) = insert_pick a (sort_picks picks)

unfoldable pub deployed_card : CardDecision → Option CardHolding → Option CardType
unfolding can_deploy
deployed_card save_card holding = none
deployed_card use_card none = none
deployed_card use_card (some holding) =
    if can_deploy (some holding) then some holding.card_type else none

-- `cardOf` of the card holdings, which may reject, is asked only for a pick that uses its card.
unfoldable pub holding_for :
    (ℕ → Result (Option CardHolding)) → SubmittedPick → Result (Option CardHolding)
holding_for card_of pick = elim pick.card_decision [
  | use_card ↦ card_of pick.wallet
  | save_card ↦ ok none
]

unfoldable pub locked_pick : (ℕ → Result (Option CardHolding)) → SubmittedPick → Result LockedPick
unfolding holding_for deployed_card
locked_pick card_of pick = holding_for card_of pick >>= λ holding. ok (record {
  wallet = pick.wallet;
  battle_id = pick.battle_id;
  backed_ticker = pick.backed_ticker;
  deployed_card = deployed_card pick.card_decision holding;
})

unfoldable pub locked_picks : (ℕ → Result (Option CardHolding)) → Text → Stored (List LockedPick)
unfolding is_locked picks_of sort_picks locked_pick
locked_picks card_of round_id store = (
  map_result (locked_pick card_of)
      (sort_picks (map (λ (wallet, pick). pick) (picks_of round_id store))),
  record store {
    locked = if is_locked round_id store then store.locked else store.locked ++ (round_id ∷ []);
  },
)
