-- ===== src/RoundService/Picks/Calls.antt =====
-- Any calls of the pick store, one after the other (apps/api/src/pick-store.ts).
use ponswars.Base.{ℕ, List, [], ◌∷◌, Option, Result}
use ponswars.Base.Text.{Text}
use ponswars.RoundService.Picks.{
  CardDecision, CardHolding, SubmittedPick, PickStore, submit, withdraw, decide_card, locked_picks,
}

-- The calls that may change a store.
pub data Call : Type 0 where
  submitted : SubmittedPick → Call
  withdrawn : (round_id : Text) (wallet : ℕ) → Call
  decided : (round_id : Text) (wallet : ℕ) → CardDecision → (at : ℕ) → Call
  read : (ℕ → Result (Option CardHolding)) → (round_id : Text) → Call

unfoldable pub call : Call → PickStore → PickStore
call (submitted pick) store = (submit pick store).1
call (withdrawn round_id wallet) store = (withdraw round_id wallet store).1
call (decided round_id wallet decision at) store = (decide_card round_id wallet decision at store).1
call (read card_of round_id) store = (locked_picks card_of round_id store).1

unfoldable pub calls : List Call → PickStore → PickStore
calls [] store = store
calls (c ∷ cs) store = calls cs (call c store)
