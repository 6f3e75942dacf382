-- ===== src/Realtime/Tests.antt =====
-- Runs of the hub and of a receiver.
use ponswars.Base.{ℕ, ◌+◌, ◌≡◌, refl, List, [], ◌∷◌, none, some, true, false}
use ponswars.Base.Int.{pos}
use ponswars.Base.Text.{Text, codes, text_eq, starts_with}
use ponswars.Base.Dict.{lookup, assign}
use ponswars.Realtime.Envelope.{SequencerState, next_sequence, wallet_channel, may_subscribe}
use ponswars.Realtime.Receiver.{ReceiverState, includes, empty_receiver}
use ponswars.Realtime.Receiver.Views.{
  Input, event, snapshot, view, seen, process, contract, on_channel, process-contract,
}
use ponswars.Realtime.Receiver.Losses.{Sending, transmit, arrivals, told, process-transmit}
use ponswars.Realtime.Hub.{
  ConnectionState, empty_hub, publish, identify_found, subscribe_found, recipients_of, subscribe,
  connect, identify, with_connection,
}
use ponswars.Realtime.Hub.Deliveries.{
  HubCall, connects, identifies, subscribes, after_calls, private_events, after_call,
}

abbrev numbered : Text → ℕ → Input ℕ
numbered c n = event (record {
  event = codes "BATTLE_STATE_UPDATE";
  version = 1;
  sequence = pos n;
  emitted_at = 5;
  channel = c;
  payload = 9;
})

abbrev inputs : List (Input ℕ)
inputs =
    numbered (codes "world") 3
    ∷ numbered (codes "battle:a") 0
    ∷ numbered (codes "world") 6
    ∷ snapshot (codes "world") 7
    ∷ numbered (codes "world") 8
    ∷ []

contract_example :
    (on_channel (codes "world") (process empty_receiver inputs).0
      ≡ (contract (codes "world") (view empty_receiver (codes "world")) inputs).0)
    × (view (process empty_receiver inputs).1 (codes "world")
        ≡ (contract (codes "world") (view empty_receiver (codes "world")) inputs).1)
contract_example = process-contract (codes "world") empty_receiver inputs

abbrev client : ReceiverState
client = record { last_sequence = (codes "world", 4) ∷ []; awaiting_snapshot = [] }

abbrev server : SequencerState
server = (codes "world", 5) ∷ []

abbrev sent : List (Sending ℕ)
sent =
    record { name = []; channel = codes "world"; at = 1; payload = 1; arrives = true }
    ∷ record { name = []; channel = codes "world"; at = 2; payload = 1; arrives = false }
    ∷ record { name = []; channel = codes "battle:a"; at = 2; payload = 1; arrives = true }
    ∷ record { name = []; channel = codes "world"; at = 3; payload = 1; arrives = true }
    ∷ []

client_last : view client (codes "world") ≡ seen 4
unfolding includes lookup text_eq view
client_last = refl

server_next : next_sequence server (codes "world") ≡ 4 + 1
unfolding lookup next_sequence text_eq
server_next = refl

losses_example :
    on_channel (codes "world") (process client (transmit server sent)).0
    ≡ told (4 + 1) 0 (arrivals (codes "world") sent)
losses_example = process-transmit (codes "world") client server 4 sent client_last server_next

abbrev hub_calls : List HubCall
hub_calls =
    connects (codes "c1") none
    ∷ identifies (codes "c1") (some (codes "0xab"))
    ∷ subscribes (codes "c1") (wallet_channel (codes "0xab"))
    ∷ []

listens :
    includes
      (publish
        (after_calls empty_hub hub_calls)
        (codes "SECRET")
        (wallet_channel (codes "0xab"))
        3
        (0 + 7)).recipients
      (codes "c1")
    ≡ true
unfolding after_call after_calls assign connect identify identify_found includes lookup
    may_subscribe publish recipients_of starts_with subscribe subscribe_found text_eq
    with_connection
listens = refl

private_example :
    (c : ConnectionState) × (lookup (codes "c1") (after_calls empty_hub hub_calls).connections
      ≡ some c)
    × (c.wallet ≡ some (codes "0xab"))
private_example =
    private_events hub_calls (codes "SECRET") (codes "0xab") 3 (0 + 7) (codes "c1") listens
