-- ===== src/Realtime/Receiver/Losses.antt =====
-- What a client makes of the events that are lost on their way (`emit` in
-- packages/realtime/src/envelope.ts and `receive` in packages/realtime/src/receiver.ts).
use ponswars.Base.{
  ℕ, zero, suc, ◌+◌, ◌-◌, ◌==◌, ◌≡◌, ◌∙◌, refl, sym, ap, subst, inl, inr, List, [], ◌∷◌, Bool, true,
  false, leb, Bool-cases, if◌then◌else◌, arith,
}
use ponswars.Base.Text.{Text, text_eq, text_eq_iff}
use ponswars.Base.Dict.{assign, lookup-assign}
use ponswars.Realtime.Envelope.{SequencerState, next_sequence, emit}
use ponswars.Realtime.Receiver.{ReceiverState, ReceiveOutcome, apply, gap, awaiting}
use ponswars.Realtime.Receiver.Views.{
  View, seen, stalled, Input, event, view, hear, hear_number, hear_envelope, contract, process,
  on_channel, process-contract,
}

-- An event that a server publishes, and whether it reaches the client.
pub record Sending (P : Type 0) : Type 0 where
  pub name : Text
  pub channel : Text
  pub at : ℕ
  pub payload : P
  pub arrives : Bool

-- What arrives of the events that are published, each numbered in its turn.
unfoldable pub transmit : {P : Type 0} → SequencerState → List (Sending P) → List (Input P)
transmit state [] = []
transmit state (x ∷ xs) =
    let (after, envelope) = emit state x.name x.channel x.at x.payload in
    let rest = transmit after xs in if x.arrives then event envelope ∷ rest else rest

-- Which events of a channel arrive.
unfoldable pub arrivals : {P : Type 0} → Text → List (Sending P) → List Bool
arrivals c [] = []
arrivals c (x ∷ xs) =
    let rest = arrivals c xs in if text_eq x.channel c then x.arrives ∷ rest else rest

unfoldable pub all_awaiting : List Bool → List ReceiveOutcome
all_awaiting [] = []
all_awaiting (arrives ∷ rest) =
    let later = all_awaiting rest in if arrives then awaiting ∷ later else later

-- The answers to a channel's events, told by what arrives alone: each event is applied up to the first
-- loss, the next to arrive reports how many were lost, and all others wait for a snapshot.
unfoldable pub told : ℕ → ℕ → List Bool → List ReceiveOutcome
unfolding all_awaiting
told next lost [] = []
told next lost (false ∷ rest) = told (next + 1) (lost + 1) rest
told next zero (true ∷ rest) = apply ∷ told (next + 1) 0 rest
told next (suc lost) (true ∷ rest) = gap (next - suc lost) next (suc lost) ∷ all_awaiting rest

next_sequence-assign :
    (state : SequencerState) (c d : Text) (n : ℕ)
    → next_sequence (assign c n state) d ≡ (if text_eq c d then n else next_sequence state d)
unfolding next_sequence
next_sequence-assign state c d n = ground (arith, lookup-assign c d n state)

contract-stalled :
    {P : Type 0} (c : Text) (state : SequencerState) (xs : List (Sending P))
    → (contract c stalled (transmit state xs)).0 ≡ all_awaiting (arrivals c xs)
unfolding transmit contract arrivals all_awaiting hear_envelope hear_number hear emit
contract-stalled c state [] = refl
contract-stalled c state (x ∷ xs) =
    let ih = contract-stalled c (assign x.channel (next_sequence state x.channel + 1) state) xs in
    ground (arith, ih)

-- The next event of a channel that arrives, after as many lost ones.
arrived :
    {P : Type 0} (c : Text) (after : SequencerState) (xs : List (Sending P)) (l lost : ℕ)
    → (lost ≡ 0
        → (contract c (seen (l + 1)) (transmit after xs)).0
          ≡ told (l + 1 + 1 + 0) 0 (arrivals c xs))
    → (hear (seen l) (l + 1 + lost)).1
        ∷ (contract c (hear (seen l) (l + 1 + lost)).0 (transmit after xs)).0
      ≡ told (l + 1 + lost) lost (true ∷ arrivals c xs)
unfolding hear told
arrived c after xs l zero on =
    let n : leb (l + 1 + 0) l ≡ false = ground arith in
    let e : (l + 1 + 0 == (l + 1)) ≡ true = ground arith in
    let z : l + 1 + 0 ≡ l + 1 = omega arith in
    rw (n, e, z)
      (ap (λ (o : List ReceiveOutcome). apply ∷ o)
        (on refl ∙ ap (λ (m : ℕ). told m 0 (arrivals c xs)) (omega arith)))
arrived c after xs l (suc lost) on =
    let n : leb (l + 1 + suc lost) l ≡ false = ground arith in
    let e : (l + 1 + suc lost == (l + 1)) ≡ false = ground arith in
    let d : l + 1 + suc lost - (l + 1) ≡ suc lost = omega arith in
    let b : l + 1 + suc lost - suc lost ≡ l + 1 = omega arith in
    rw (n, e, d, b)
      (ap (λ (o : List ReceiveOutcome). gap (l + 1) (l + 1 + suc lost) (suc lost) ∷ o)
        (contract-stalled c after xs))

-- A channel that was last heard of with a number, some events before the next one.
contract-seen :
    {P : Type 0} (c : Text) (state : SequencerState) (l lost : ℕ) (xs : List (Sending P))
    → next_sequence state c ≡ l + 1 + lost
    → (contract c (seen l) (transmit state xs)).0 ≡ told (l + 1 + lost) lost (arrivals c xs)
unfolding transmit contract arrivals told hear_envelope hear_number hear emit
contract-seen c state l lost [] h = refl
contract-seen c state l lost (x ∷ xs) h =
    let next = next_sequence state x.channel in
    let after = assign x.channel (next + 1) state in
    let g = next_sequence-assign state x.channel c (next + 1) in
    elim (Bool-cases (text_eq x.channel c)) [
      | inr k ↦ let same = contract-seen c after l lost xs (rw (g, k) h) in ground (arith, same)
      | inl k ↦
          let q : next ≡ l + 1 + lost =
            ap (λ (d : Text). next_sequence state d) ((text_eq_iff x.channel c).0 k) ∙ h in
          let here : next_sequence after c ≡ l + 1 + lost + 1 = rw (g, k) (omega arith) in
          elim (Bool-cases x.arrives) [
            | inr a ↦
                let missed = contract-seen c after l (lost + 1) xs (omega arith) in
                rw (a, k) (missed ∙ ap (λ (n : ℕ). told n (lost + 1) (arrivals c xs)) (omega arith))
            | inl a ↦
                rw (a, k)
                  (subst
                    (λ (n : ℕ).
                      (hear (seen l) n).1 ∷ (contract c (hear (seen l) n).0 (transmit after xs)).0
                      ≡ told (l + 1 + lost) lost (true ∷ arrivals c xs))
                    (sym q)
                    (arrived c after xs l lost
                      (λ z. contract-seen c after (l + 1) 0 xs (omega arith))))
          ]
    ]

-- A client that has seen the last event of a channel, and then gets what arrives of the events that
-- are published on any channels: of the answers to that channel's events, the first ones apply up to
-- the first loss, the next names exactly the number of events that were lost, and all later ones wait
-- for a snapshot.
pub process-transmit :
    {P : Type 0} (channel : Text) (client : ReceiverState) (server : SequencerState) (last : ℕ)
    (sendings : List (Sending P))
    → view client channel ≡ seen last
    → next_sequence server channel ≡ last + 1
    → on_channel channel (process client (transmit server sendings)).0
      ≡ told (last + 1) 0 (arrivals channel sendings)
process-transmit c s state l xs v h =
    (process-contract c s (transmit state xs)).0
    ∙ ap (λ (w : View). (contract c w (transmit state xs)).0) v
    ∙ contract-seen c state l 0 xs (omega arith)
    ∙ ap (λ (n : ℕ). told n 0 (arrivals c xs)) (omega arith)
