-- ===== src/Realtime/Receiver/Views.antt =====
-- What one channel sees of a receiver (packages/realtime/src/receiver.ts).
use ponswars.Base.{
  ℕ, ◌+◌, ◌-◌, ◌==◌, ◌≡◌, refl, ap, subst, inl, inr, List, [], ◌∷◌, ◌++◌, Bool, true, false, not,
  Option, none, some, select, leb, Bool-cases, if◌then◌else◌, Result, ok, err, arith,
}
use ponswars.Base.Int.{ℤ, pos, negsuc}
use ponswars.Base.Text.{Text, text_eq, text_eq_iff}
use ponswars.Base.Dict.{lookup, lookup-assign}
use ponswars.Realtime.Envelope.{Envelope, protocol_version}
use ponswars.Realtime.Receiver.{
  ReceiverState, ReceiveOutcome, apply, duplicate, gap, awaiting, rejected, unsupported_version,
  negative_sequence, includes, receive, receive_number, compare_last, applied, apply_snapshot,
}

-- A channel that nothing was heard of, one that was last heard of with a number, and one that waits
-- for a snapshot.
pub data View : Type 0 where
  fresh : View
  seen : ℕ → View
  stalled : View

abbrev pub view_of : Bool → Option ℕ → View
view_of true last = stalled
view_of false none = fresh
view_of false (some last) = seen last

unfoldable pub view : ReceiverState → Text → View
view state channel =
    view_of (includes state.awaiting_snapshot channel) (lookup channel state.last_sequence)

-- What reaches a receiver: an event, or the snapshot of a channel.
pub data Input (P : Type 0) : Type 0 where
  event : Envelope P → Input P
  snapshot : Text → ℕ → Input P

-- The contract of one channel: from its view and an event, the new view and the answer.
unfoldable pub hear : View → ℕ → View × ReceiveOutcome
hear fresh sequence = (seen sequence, apply)
hear (seen last) sequence =
    if leb sequence last
    then (seen last, duplicate last)
    else if sequence == (last + 1)
    then (seen sequence, apply)
    else (stalled, gap (last + 1) sequence (sequence - (last + 1)))
hear stalled sequence = (stalled, awaiting)

includes-append :
    (cs : List Text) (c d : Text)
    → includes (cs ++ (c ∷ [])) d ≡ (if includes cs d then true else text_eq c d)
unfolding includes
includes-append [] c d = ground arith
includes-append (x ∷ cs) c d = ground (arith, includes-append cs c d)

includes-without :
    (cs : List Text) (c d : Text)
    → includes (select (λ x. not (text_eq x c)) cs) d
      ≡ (if text_eq c d then false else includes cs d)
unfolding includes
includes-without [] c d = ground arith
includes-without (x ∷ cs) c d =
    ground (arith, includes-without cs c d, text_eq_iff x c, text_eq_iff x d, text_eq_iff c d)

-- An event changes the view of its own channel as the contract says, and no other view.
module _ (s : ReceiverState) (channel : Text) (sequence : ℕ) where
  pub receive_number-hear :
      (receive_number s channel (pos sequence)).1 ≡ (hear (view s channel) sequence).1
  unfolding receive_number hear view compare_last applied
  receive_number-hear = ground arith

  pub view-receive_number :
      (d : Text)
      → view (receive_number s channel (pos sequence)).0 d
        ≡ (if text_eq channel d then (hear (view s channel) sequence).0 else view s d)
  unfolding receive_number hear view compare_last applied
  view-receive_number d = ground (
    arith,
    includes-append s.awaiting_snapshot channel d,
    lookup-assign channel d sequence s.last_sequence,
    text_eq_iff channel d,
  )

-- The snapshot of a channel is what was last seen of it.
snapshot_of : Result ReceiverState → ReceiverState → ReceiverState
snapshot_of (ok after) s = after
snapshot_of (err e) s = s

unfoldable pub after_snapshot : ReceiverState → Text → ℕ → ReceiverState
unfolding apply_snapshot snapshot_of
after_snapshot s channel sequence = snapshot_of (apply_snapshot s channel (pos sequence)) s

view-after_snapshot :
    (s : ReceiverState) (channel d : Text) (sequence : ℕ)
    → view (after_snapshot s channel sequence) d
      ≡ (if text_eq channel d then seen sequence else view s d)
unfolding after_snapshot view
view-after_snapshot s channel d sequence = ground (
  arith,
  includes-without s.awaiting_snapshot channel d,
  lookup-assign channel d sequence s.last_sequence,
  text_eq_iff channel d,
)

-- What a client answers to its inputs, each answer with the channel of its event.
unfoldable pub process :
    {P : Type 0} → ReceiverState → List (Input P) → List (Text × ReceiveOutcome) × ReceiverState
process s [] = ([], s)
process s (event e ∷ inputs) =
    let (t, outcome) = receive s e in
    let (log, last) = process t inputs in ((e.channel, outcome) ∷ log, last)
process s (snapshot channel sequence ∷ inputs) = process (after_snapshot s channel sequence) inputs

unfoldable pub hear_number : View → ℤ → View × ReceiveOutcome
hear_number v (negsuc n) = (v, rejected negative_sequence)
hear_number v (pos sequence) = hear v sequence

unfoldable pub hear_envelope : {P : Type 0} → View → Envelope P → View × ReceiveOutcome
unfolding hear_number
hear_envelope v e =
    if not (e.version == protocol_version)
    then (v, rejected unsupported_version)
    else hear_number v e.sequence

-- The contract of one channel over all inputs, of which it hears its own.
unfoldable pub contract : {P : Type 0} → Text → View → List (Input P) → List ReceiveOutcome × View
contract c v [] = ([], v)
contract c v (event e ∷ inputs) =
    let (w, outcome) = hear_envelope v e in
    let (log, last) = contract c (if text_eq e.channel c then w else v) inputs in
    (if text_eq e.channel c then outcome ∷ log else log, last)
contract c v (snapshot d sequence ∷ inputs) =
    contract c (if text_eq d c then seen sequence else v) inputs

-- The answers to the events of a channel.
unfoldable pub on_channel : Text → List (Text × ReceiveOutcome) → List ReceiveOutcome
on_channel c [] = []
on_channel c ((d, outcome) ∷ log) =
    let rest = on_channel c log in if text_eq d c then outcome ∷ rest else rest

same_view :
    (s : ReceiverState) (channel d : Text)
    → view s d ≡ (if text_eq channel d then view s channel else view s d)
same_view s channel d = ground (arith, text_eq_iff channel d)

receive_any :
    (s : ReceiverState) (channel d : Text) (n : ℤ)
    → (view (receive_number s channel n).0 d
        ≡ (if text_eq channel d then (hear_number (view s channel) n).0 else view s d))
      × ((receive_number s channel n).1 ≡ (hear_number (view s channel) n).1)
unfolding hear_number
receive_any s channel d (pos n) =
    (view-receive_number s channel n d, receive_number-hear s channel n)
receive_any s channel d (negsuc n) =
    (unfold receive_number in same_view s channel d, unfold receive_number in refl)

receive-hear_envelope :
    {P : Type 0} (s : ReceiverState) (e : Envelope P) (d : Text)
    → (view (receive s e).0 d
        ≡ (if text_eq e.channel d then (hear_envelope (view s e.channel) e).0 else view s d))
      × ((receive s e).1 ≡ (hear_envelope (view s e.channel) e).1)
unfolding receive hear_envelope
receive-hear_envelope s e d = elim (Bool-cases (e.version == protocol_version)) [
  | inl k ↦ rw k (receive_any s e.channel d e.sequence)
  | inr k ↦ rw k (same_view s e.channel d, refl)
]

-- The receiver keeps the contract of every channel at once. Whatever reaches a client, events in any
-- order, lost or repeated, of any channel or version, and snapshots, the answers to the events of one
-- channel and the view that is left of it are those of that channel's contract, which hears nothing
-- of the other channels.
pub process-contract :
    {P : Type 0} (channel : Text) (s : ReceiverState) (inputs : List (Input P))
    → (on_channel channel (process s inputs).0 ≡ (contract channel (view s channel) inputs).0)
      × (view (process s inputs).1 channel ≡ (contract channel (view s channel) inputs).1)
unfolding process contract on_channel
process-contract c s [] = (refl, refl)
process-contract c s (snapshot d n ∷ inputs) =
    subst
      (λ (v : View).
        (on_channel c (process (after_snapshot s d n) inputs).0 ≡ (contract c v inputs).0)
        × (view (process (after_snapshot s d n) inputs).1 c ≡ (contract c v inputs).1))
      (view-after_snapshot s d c n) (process-contract c (after_snapshot s d n) inputs)
process-contract c s (event e ∷ inputs) =
    let (v, o) = receive-hear_envelope s e c in
    let ih = process-contract c (receive s e).0 inputs in
    elim (Bool-cases (text_eq e.channel c)) [
      | inl k ↦
          let q = (text_eq_iff e.channel c).0 k in
          let v' : view (receive s e).0 c ≡ (hear_envelope (view s e.channel) e).0 = rw k at v in
          rw (k, o)
            (subst
              (λ (d : Text).
                ((hear_envelope (view s e.channel) e).1
                    ∷ on_channel c (process (receive s e).0 inputs).0
                  ≡ (hear_envelope (view s d) e).1
                    ∷ (contract c (hear_envelope (view s d) e).0 inputs).0)
                × (view (process (receive s e).0 inputs).1 c
                    ≡ (contract c (hear_envelope (view s d) e).0 inputs).1))
              q
              (rw (← v') (
                ap (λ (l : List ReceiveOutcome). (hear_envelope (view s e.channel) e).1 ∷ l) ih.0,
                ih.1,
              )))
      | inr k ↦ let v' : view (receive s e).0 c ≡ view s c = rw k at v in rw k (rw (← v') ih)
    ]
