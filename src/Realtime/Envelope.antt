-- ===== src/Realtime/Envelope.antt =====
-- packages/realtime/src/envelope.ts: channels, and the numbering of their events.
use ponswars.Base.{
  ℕ, ◌+◌, ◌==◌, ◌&&◌, ◌||◌, not, Bool, true, false, List, [], ◌∷◌, ◌++◌, Option, none, some, length,
  leb, if◌then◌else◌,
}
use ponswars.Base.Int.{ℤ, pos}
use ponswars.Base.Text.{Text, codes, text_eq, starts_with, after_prefix}
use ponswars.Base.Dict.{lookup, assign}

abbrev pub protocol_version : ℕ
protocol_version = 1

pub record Envelope (P : Type 0) : Type 0 where
  pub event : Text
  pub version : ℕ
  pub sequence : ℤ
  pub emitted_at : ℕ
  pub channel : Text
  pub payload : P

abbrev pub world_channel : Text
world_channel = codes "world"

abbrev pub round_channel : Text → Text
round_channel round_id = codes "round:" ++ round_id

abbrev pub battle_channel : Text → Text
battle_channel battle_id = codes "battle:" ++ battle_id

abbrev pub wallet_channel : Text → Text
wallet_channel wallet = codes "wallet:" ++ wallet

unfoldable pub all_chars : (ℕ → Bool) → Text → Bool
all_chars test [] = true
all_chars test (c ∷ cs) = test c && all_chars test cs

-- `[A-Za-z0-9_-]` and `[0-9a-f]`
unfoldable pub is_id_char : ℕ → Bool
is_id_char c =
    ((leb b'A' c && leb c b'Z') || (leb b'a' c && leb c b'z'))
    || ((leb b'0' c && leb c b'9') || ((c == b'_') || (c == b'-')))

unfoldable pub is_lower_hex : ℕ → Bool
is_lower_hex c = (leb b'0' c && leb c b'9') || (leb b'a' c && leb c b'f')

-- `[A-Za-z0-9_-]{1,96}`, and `[0-9a-f]{40}`, behind a prefix that may be missing.
unfoldable pub is_id : Option Text → Bool
unfolding all_chars is_id_char
is_id none = false
is_id (some text) = (leb 1 (length text) && leb (length text) 96) && all_chars is_id_char text

unfoldable pub is_address : Option Text → Bool
unfolding all_chars is_lower_hex
is_address none = false
is_address (some text) = (length text == 40) && all_chars is_lower_hex text

unfoldable pub is_channel : Text → Bool
unfolding after_prefix is_id is_address
is_channel value =
    text_eq value world_channel
    || ((is_id (after_prefix (codes "round:") value)
          || is_id (after_prefix (codes "battle:") value))
        || is_address (after_prefix (codes "wallet:0x") value))

unfoldable pub may_subscribe : Text → Option Text → Bool
may_subscribe channel none = not (starts_with (codes "wallet:") channel)
may_subscribe channel (some wallet) =
    if not (starts_with (codes "wallet:") channel)
    then true
    else text_eq channel (wallet_channel wallet)

abbrev pub SequencerState : Type 0
SequencerState = List (Text × ℕ)

abbrev pub empty_sequencer : SequencerState
empty_sequencer = []

abbrev pub or_zero : Option ℕ → ℕ
or_zero none = 0
or_zero (some n) = n

-- `state[channel] ?? 0`
unfoldable pub next_sequence : SequencerState → Text → ℕ
next_sequence state channel = or_zero (lookup channel state)

unfoldable pub emit :
    {P : Type 0} → SequencerState → Text → Text → ℕ → P → SequencerState × Envelope P
emit state event channel emitted_at payload =
    let sequence = next_sequence state channel in
    (
      assign channel (sequence + 1) state,
      record {
        event = event;
        version = protocol_version;
        sequence = pos sequence;
        emitted_at = emitted_at;
        channel = channel;
        payload = payload;
      },
    )
