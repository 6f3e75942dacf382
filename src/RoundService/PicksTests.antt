-- ===== src/RoundService/PicksTests.antt =====
-- Concrete picks of a round.
use ponswars.Base.Entries.{put, entry}
use ponswars.Base.Dict.{lookup, assign}
use ponswars.Base.{
  ℕ, ◌≡◌, refl, true, false, List, [], ◌∷◌, Option, some, if◌then◌else◌, Result, ok, err,
  picks_locked, Returns,
}
use ponswars.Base.Text.{codes, text_eq}
use ponswars.Shared.Cards.{bull_run}
use ponswars.Shared.Roster.{nvda, spy}
use ponswars.RoundService.Picks.{
  use_card, save_card, CardHolding, SubmittedPick, new_store, submit, locked_picks, is_locked,
  decide_card, same_key,
}
use ponswars.RoundService.Picks.Calls.{Call, submitted, withdrawn, decided, calls, call}
use ponswars.RoundService.Picks.Frozen.{IsFrozen, calls-IsFrozen}
use ponswars.RoundService.Picks.Replays.{submit_replays}
use ponswars.RoundService.Picks.Locked.{IsRead, locked_picks-IsRead}

abbrev early : SubmittedPick
early = record {
  wallet = 17;
  round_id = codes "r0";
  battle_id = codes "b0";
  backed_ticker = spy;
  card_decision = use_card;
  received_at = 1_000_100;
  client_request_id = codes "k1";
}

abbrev other : SubmittedPick
other = record early { wallet = 5; card_decision = save_card; backed_ticker = nvda }

abbrev later : SubmittedPick
later = record early { backed_ticker = nvda; client_request_id = codes "k2" }

-- Every wallet holds a card with one charge left.
abbrev holdings : ℕ → Result (Option CardHolding)
holdings wallet = ok (
    some
      (record { card_instance_id = codes "card-000001"; card_type = bull_run; remaining_uses = 1 }))

abbrev busy : List Call
busy =
    submitted early
    ∷ submitted other
    ∷ submitted later
    ∷ decided (codes "r0") 5 use_card 1_000_200
    ∷ []

-- What the engine reads: the wallets in order, with the newest decision of each.
busy_picks : Returns (locked_picks holdings (codes "r0") (calls busy new_store)).0
unfolding assign call calls decide_card entry locked_picks lookup put same_key submit text_eq
busy_picks = (_, refl)

locked_picks-IsRead_example : IsRead holdings (codes "r0") (calls busy new_store) busy_picks.0
locked_picks-IsRead_example = locked_picks-IsRead holdings (codes "r0") busy busy_picks.1

calls-IsFrozen_example : IsFrozen (codes "r0") (calls busy new_store) (
    calls
      (submitted early ∷ withdrawn (codes "r0") 5 ∷ [])
      (locked_picks holdings (codes "r0") (calls busy new_store)).1)
calls-IsFrozen_example =
    calls-IsFrozen holdings (codes "r0") (calls busy new_store)
      (submitted early ∷ withdrawn (codes "r0") 5 ∷ [])

first : (submit early new_store).0 ≡ ok (early, false)
unfolding entry submit
first = refl

-- A wallet that has changed its mind since gets the answer of its first request again.
submit_replays_example : submit early (calls (submitted later ∷ []) (submit early new_store).1) ≡ (
  if is_locked (codes "r0") (calls (submitted later ∷ []) (submit early new_store).1)
      then err picks_locked
      else ok (early, true),
  calls (submitted later ∷ []) (submit early new_store).1,
)
submit_replays_example =
    submit_replays early early new_store (submitted later ∷ []) first ((λ e. cc), tt) refl
