-- ===== src/Realtime/Hub.antt =====
-- packages/realtime/src/hub.ts: who listens to what.
pub mod Permitted
pub mod Deliveries
use ponswars.Base.{
  ℕ, ◌+◌, ◌-◌, not, Bool, true, false, List, [], ◌∷◌, ◌++◌, Option, none, some, select, length, map,
  ltb, if◌then◌else◌,
}
use ponswars.Base.Int.{ℤ, sub_ℕ}
use ponswars.Base.Text.{Text, text_eq}
use ponswars.Base.Dict.{lookup, assign, omit}
use ponswars.Realtime.Envelope.{
  Envelope, SequencerState, empty_sequencer, next_sequence, emit, may_subscribe,
}
use ponswars.Realtime.Receiver.{includes}

pub record ConnectionState : Type 0 where
  pub wallet : Option Text
  pub channels : List Text

pub record HubState : Type 0 where
  pub connections : List (Text × ConnectionState)
  pub sequencer : SequencerState

abbrev pub empty_hub : HubState
empty_hub = record { connections = []; sequencer = empty_sequencer }

-- `{ ...state.connections, [connectionId]: connection }`
unfoldable pub with_connection : HubState → Text → ConnectionState → HubState
with_connection state connection_id connection = record state {
  connections = assign connection_id connection state.connections;
}

unfoldable pub connect : HubState → Text → Option Text → HubState
connect state connection_id wallet =
    with_connection state connection_id (record { wallet = wallet; channels = [] })

-- The methods that look a connection up, on what they find.
unfoldable pub identify_found : HubState → Text → Option Text → Option ConnectionState → HubState
identify_found state connection_id wallet none = state
identify_found state connection_id wallet (some connection) =
    with_connection state connection_id (record {
      wallet = wallet;
      channels = select (λ channel. may_subscribe channel wallet) connection.channels;
    })

unfoldable pub identify : HubState → Text → Option Text → HubState
identify state connection_id wallet =
    identify_found state connection_id wallet (lookup connection_id state.connections)

unfoldable pub disconnect : HubState → Text → HubState
disconnect state connection_id = record state { connections = omit connection_id state.connections }

pub data SubscribeOutcome : Type 0 where
  subscribed already_subscribed denied unknown_connection : SubscribeOutcome

unfoldable pub subscribe_found :
    HubState → Text → Text → Option ConnectionState → HubState × SubscribeOutcome
subscribe_found state connection_id channel none = (state, unknown_connection)
subscribe_found state connection_id channel (some connection) =
    if not (may_subscribe channel connection.wallet)
    then (state, denied)
    else if includes connection.channels channel
    then (state, already_subscribed)
    else (
      with_connection state connection_id
          (record connection { channels = connection.channels ++ (channel ∷ []) }),
      subscribed,
    )

unfoldable pub subscribe : HubState → Text → Text → HubState × SubscribeOutcome
subscribe state connection_id channel =
    subscribe_found state connection_id channel (lookup connection_id state.connections)

unfoldable pub unsubscribe_found : HubState → Text → Text → Option ConnectionState → HubState
unsubscribe_found state connection_id channel none = state
unsubscribe_found state connection_id channel (some connection) =
    with_connection state connection_id (record connection {
      channels = select (λ other. not (text_eq other channel)) connection.channels;
    })

unfoldable pub unsubscribe : HubState → Text → Text → HubState
unsubscribe state connection_id channel =
    unsubscribe_found state connection_id channel (lookup connection_id state.connections)

-- The entries that listen to a channel.
unfoldable pub listeners : List (Text × ConnectionState) → Text → List (Text × ConnectionState)
listeners connections channel =
    select (λ (id, connection). includes connection.channels channel) connections

unfoldable pub recipients_of : HubState → Text → List Text
unfolding listeners
recipients_of state channel = map (λ (id, connection). id) (listeners state.connections channel)

pub record Delivery (P : Type 0) : Type 0 where
  pub state : HubState
  pub envelope : Envelope P
  pub recipients : List Text

unfoldable pub publish : {P : Type 0} → HubState → Text → Text → ℕ → P → Delivery P
publish state event channel at payload =
    let (sequencer, envelope) = emit state.sequencer event channel at payload in
    record {
      state = record state { sequencer = sequencer };
      envelope = envelope;
      recipients = recipients_of state channel;
    }

unfoldable pub note_sequence : HubState → Text → ℕ → HubState
note_sequence state channel sequence =
    if ltb (next_sequence state.sequencer channel) (sequence + 1)
    then record state { sequencer = assign channel (sequence + 1) state.sequencer }
    else state

-- Minus one for a channel without events.
unfoldable pub current_sequence : HubState → Text → ℤ
current_sequence state channel = sub_ℕ (next_sequence state.sequencer channel) 1

unfoldable pub channels_found : Option ConnectionState → List Text
channels_found none = []
channels_found (some connection) = connection.channels

unfoldable pub channels_of : HubState → Text → List Text
unfolding channels_found
channels_of state connection_id = channels_found (lookup connection_id state.connections)

unfoldable pub subscriber_count : HubState → Text → ℕ
unfolding listeners
subscriber_count state channel = length (listeners state.connections channel)
