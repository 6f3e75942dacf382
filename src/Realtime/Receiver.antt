-- ===== src/Realtime/Receiver.antt =====
-- packages/realtime/src/receiver.ts: what a client does with the events that reach it.
pub mod Views
pub mod Losses
use ponswars.Base.{
  ℕ, ◌+◌, ◌-◌, ◌==◌, ◌&&◌, not, Bool, true, false, List, [], ◌∷◌, ◌++◌, Option, none, some, any,
  select, leb, if◌then◌else◌, Result, ok, err, range_error,
}
use ponswars.Base.Int.{ℤ, pos, negsuc}
use ponswars.Base.Text.{Text, text_eq}
use ponswars.Base.Dict.{lookup, assign}
use ponswars.Realtime.Envelope.{Envelope, protocol_version}

pub record ReceiverState : Type 0 where
  pub last_sequence : List (Text × ℕ)
  pub awaiting_snapshot : List Text

abbrev pub empty_receiver : ReceiverState
empty_receiver = record { last_sequence = []; awaiting_snapshot = [] }

pub data RejectReason : Type 0 where
  unsupported_version negative_sequence : RejectReason

pub data ReceiveOutcome : Type 0 where
  apply : ReceiveOutcome
  duplicate : (seen : ℕ) → ReceiveOutcome
  gap : (expected received missing : ℕ) → ReceiveOutcome
  awaiting : ReceiveOutcome
  rejected : RejectReason → ReceiveOutcome

-- `list.includes(channel)`
unfoldable pub includes : List Text → Text → Bool
includes [] channel = false
includes (c ∷ cs) channel = if text_eq c channel then true else includes cs channel

-- An event in order is applied, and its number becomes the last one.
unfoldable pub applied : ReceiverState → Text → ℕ → ReceiverState × ReceiveOutcome
applied state channel sequence = (
  record {
    last_sequence = assign channel sequence state.last_sequence;
    awaiting_snapshot = state.awaiting_snapshot;
  },
  apply,
)

-- Compares the number of an event with the last one of its channel.
unfoldable pub compare_last : ReceiverState → Text → ℕ → Option ℕ → ReceiverState × ReceiveOutcome
unfolding applied
compare_last state channel sequence none = applied state channel sequence
compare_last state channel sequence (some last) =
    if leb sequence last
    then (state, duplicate last)
    else if not (sequence == (last + 1))
    then (
      record {
        last_sequence = state.last_sequence;
        awaiting_snapshot = state.awaiting_snapshot ++ (channel ∷ []);
      },
      gap (last + 1) sequence (sequence - (last + 1)),
    )
    else applied state channel sequence

unfoldable pub receive_number : ReceiverState → Text → ℤ → ReceiverState × ReceiveOutcome
unfolding compare_last
receive_number state channel (negsuc n) = (state, rejected negative_sequence)
receive_number state channel (pos sequence) =
    if includes state.awaiting_snapshot channel
    then (state, awaiting)
    else compare_last state channel sequence (lookup channel state.last_sequence)

unfoldable pub receive : {P : Type 0} → ReceiverState → Envelope P → ReceiverState × ReceiveOutcome
unfolding receive_number
receive state envelope =
    if not (envelope.version == protocol_version)
    then (state, rejected unsupported_version)
    else receive_number state envelope.channel envelope.sequence

unfoldable pub apply_snapshot : ReceiverState → Text → ℤ → Result ReceiverState
apply_snapshot state channel (negsuc n) = err range_error
apply_snapshot state channel (pos snapshot_sequence) = ok (record {
  last_sequence = assign channel snapshot_sequence state.last_sequence;
  awaiting_snapshot = select (λ waiting. not (text_eq waiting channel)) state.awaiting_snapshot;
})

unfoldable pub is_awaiting_snapshot : ReceiverState → Text → Bool
unfolding includes
is_awaiting_snapshot state channel = includes state.awaiting_snapshot channel
