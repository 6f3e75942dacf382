-- ===== src/Realtime/Hub/Deliveries.antt =====
-- Who receives an event after any calls of the hub (packages/realtime/src/hub.ts).
use ponswars.Base.{
  some-injective, ℕ, ◌≡◌, ◌∙◌, refl, sym, ap, subst, inl, inr, List, [], ◌∷◌, true, Option, none,
  some, Option-cases, map, select-All, All-select, All-append, Bool-cases, ◌+◌, ltb, drop, arith,
}
use ponswars.Base.Text.{Text, text_eq, text_eq_iff, starts_with}
use ponswars.Base.Dict.{lookup, lookup-assign, lookup-omit}
use ponswars.Realtime.Envelope.{may_subscribe, wallet_channel, next_sequence}
use ponswars.Realtime.Receiver.{includes}
use ponswars.Realtime.Hub.{
  ConnectionState, HubState, empty_hub, with_connection, connect, identify, identify_found,
  disconnect, subscribe, subscribe_found, unsubscribe, unsubscribe_found, listeners, recipients_of,
  publish, note_sequence, channels_found,
}
use ponswars.Realtime.Hub.Permitted.{
  IsPermitted, Distinct, Distinct-assign, Distinct-omit, All-includes, Once-select, Once-append,
}

-- A call of the hub.
pub data HubCall : Type 0 where
  connects : Text → Option Text → HubCall
  identifies : Text → Option Text → HubCall
  disconnects : Text → HubCall
  subscribes : Text → Text → HubCall
  unsubscribes : Text → Text → HubCall
  publishes : Text → Text → ℕ → HubCall
  notes : Text → ℕ → HubCall

-- The hub after a call; what an event carries does not matter to it.
unfoldable pub after_call : HubState → HubCall → HubState
after_call hub (connects id wallet) = connect hub id wallet
after_call hub (identifies id wallet) = identify hub id wallet
after_call hub (disconnects id) = disconnect hub id
after_call hub (subscribes id channel) = (subscribe hub id channel).0
after_call hub (unsubscribes id channel) = unsubscribe hub id channel
after_call hub (publishes event channel at) = (publish hub event channel at (tt {0})).state
after_call hub (notes channel sequence) = note_sequence hub channel sequence

unfoldable pub after_calls : HubState → List HubCall → HubState
after_calls hub [] = hub
after_calls hub (c ∷ cs) = after_calls (after_call hub c) cs

pub record IsOrderly (hub : HubState) : Type 0 where
  pub distinct : Distinct hub.connections
  pub permitted :
      (id : Text) (c : ConnectionState) → lookup id hub.connections ≡ some c → IsPermitted c

with_connection-IsOrderly :
    (hub : HubState) (id : Text) (c : ConnectionState)
    → IsOrderly hub
    → IsPermitted c
    → IsOrderly (with_connection hub id c)
unfolding with_connection
with_connection-IsOrderly hub id c o p = record {
  distinct = Distinct-assign id c hub.connections o.distinct;
  permitted = λ j d e. elim (Bool-cases (text_eq id j)) [
    | inl s ↦
        let g : some c ≡ some d = rw (lookup-assign id j c hub.connections, s) at e in
        subst IsPermitted (some-injective g) p
    | inr n ↦
        let g : lookup j hub.connections ≡ some d =
          rw (lookup-assign id j c hub.connections, n) at e in
        o.permitted j d g
  ];
}

disconnect-IsOrderly : (hub : HubState) (id : Text) → IsOrderly hub → IsOrderly (disconnect hub id)
unfolding disconnect
disconnect-IsOrderly hub id o = record {
  distinct = Distinct-omit id hub.connections o.distinct;
  permitted = λ j d e. elim (Bool-cases (text_eq id j)) [
    | inl s ↦ let g : none ≡ some d = rw (lookup-omit id j hub.connections, s) at e in cc
    | inr n ↦
        let g : lookup j hub.connections ≡ some d = rw (lookup-omit id j hub.connections, n) at e in
        o.permitted j d g
  ];
}

module _ (hub : HubState) (id : Text) (o : IsOrderly hub) where
  identify-IsOrderly :
      (wallet : Option Text) (q : Option ConnectionState)
      → lookup id hub.connections ≡ q
      → IsOrderly (identify_found hub id wallet q)
  unfolding identify_found
  identify-IsOrderly wallet none e = o
  identify-IsOrderly wallet (some c) e = with_connection-IsOrderly hub id _ o (record {
    allowed = select-All (λ channel. may_subscribe channel wallet) c.channels;
    once = Once-select _ c.channels (o.permitted id c e).once;
  })

  subscribe-IsOrderly :
      (channel : Text) (q : Option ConnectionState)
      → lookup id hub.connections ≡ q
      → IsOrderly (subscribe_found hub id channel q).0
  unfolding subscribe_found
  subscribe-IsOrderly channel none e = o
  subscribe-IsOrderly channel (some c) e = elim (Bool-cases (may_subscribe channel c.wallet)) [
    | inr n ↦ rw n o
    | inl m ↦ rw m (elim (Bool-cases (includes c.channels channel)) [
      | inl i ↦ rw i o
      | inr n ↦
          let p = o.permitted id c e in
          rw n (
            with_connection-IsOrderly hub id _ o (record {
              allowed = All-append _ c.channels (channel ∷ []) p.allowed (m, tt);
              once = Once-append c.channels channel p.once n;
            }))
    ])
  ]

  unsubscribe-IsOrderly :
      (channel : Text) (q : Option ConnectionState)
      → lookup id hub.connections ≡ q
      → IsOrderly (unsubscribe_found hub id channel q)
  unfolding unsubscribe_found
  unsubscribe-IsOrderly channel none e = o
  unsubscribe-IsOrderly channel (some c) e =
      let p = o.permitted id c e in
      with_connection-IsOrderly hub id _ o (record {
        allowed = All-select _ _ c.channels p.allowed;
        once = Once-select _ c.channels p.once;
      })

after_call-IsOrderly : (hub : HubState) (c : HubCall) → IsOrderly hub → IsOrderly (after_call hub c)
unfolding after_call connect identify subscribe unsubscribe publish note_sequence
after_call-IsOrderly hub (connects id wallet) o =
    with_connection-IsOrderly hub id _ o (record { allowed = tt; once = tt })
after_call-IsOrderly hub (identifies id wallet) o = identify-IsOrderly hub id o wallet _ refl
after_call-IsOrderly hub (disconnects id) o = disconnect-IsOrderly hub id o
after_call-IsOrderly hub (subscribes id channel) o = subscribe-IsOrderly hub id o channel _ refl
after_call-IsOrderly hub (unsubscribes id channel) o = unsubscribe-IsOrderly hub id o channel _ refl
after_call-IsOrderly hub (publishes event channel at) o = record {
  distinct = o.distinct;
  permitted = o.permitted;
}
after_call-IsOrderly hub (notes channel sequence) o =
    elim (Bool-cases (ltb (next_sequence hub.sequencer channel) (sequence + 1))) [
      | inl e ↦ rw e (record { distinct = o.distinct; permitted = o.permitted })
      | inr e ↦ rw e o
    ]

after_calls-IsOrderly :
    (hub : HubState) (cs : List HubCall) → IsOrderly hub → IsOrderly (after_calls hub cs)
unfolding after_calls
after_calls-IsOrderly hub [] o = o
after_calls-IsOrderly hub (c ∷ cs) o =
    after_calls-IsOrderly (after_call hub c) cs (after_call-IsOrderly hub c o)

empty_hub-IsOrderly : IsOrderly empty_hub
unfolding lookup
empty_hub-IsOrderly = record { distinct = tt; permitted = λ id c e. cc }

-- The connections that listen to a channel are those that have it among their channels.
listeners_lem :
    (m : List (Text × ConnectionState)) (channel id : Text)
    → Distinct m
    → includes (map (λ (j, c). j) (listeners m channel)) id
      ≡ includes (channels_found (lookup id m)) channel
unfolding listeners includes channels_found lookup
listeners_lem [] channel id h = refl
listeners_lem ((j, d) ∷ m) channel id (n, h) = elim (Bool-cases (text_eq j id)) [
  | inl e ↦
      let absent : lookup id m ≡ none =
        subst (λ (k : Text). lookup k m ≡ none) ((text_eq_iff j id).0 e) n in
      let ih = listeners_lem m channel id h in ground (arith, ih, absent)
  | inr e ↦ ground (arith, listeners_lem m channel id h)
]

-- A wallet's channel may be seen by that wallet alone.
may_subscribe-wallet :
    (w : Text) (session : Option Text)
    → may_subscribe (wallet_channel w) session ≡ true
    → session ≡ some w
unfolding may_subscribe starts_with
may_subscribe-wallet w none h = cc
may_subscribe-wallet w (some v) h =
    let e : wallet_channel w ≡ wallet_channel v =
      (text_eq_iff (wallet_channel w) (wallet_channel v)).0 h in
    ap (λ (t : Text). some (drop 7 t)) (sym e)

-- After any calls of the hub, whoever receives an event of a wallet's channel is a connection that has
-- proven that wallet.
pub private_events :
    {P : Type 0} (cs : List HubCall) (event wallet : Text) (at : ℕ) (payload : P) (id : Text)
    → let hub = after_calls empty_hub cs in
      includes (publish hub event (wallet_channel wallet) at payload).recipients id ≡ true
      → (c : ConnectionState) × (lookup id (after_calls empty_hub cs).connections ≡ some c)
        × (c.wallet ≡ some wallet)
unfolding publish recipients_of channels_found
private_events cs event wallet at payload id h =
    let hub = after_calls empty_hub cs in
    let o = after_calls-IsOrderly empty_hub cs empty_hub-IsOrderly in
    let g = sym (listeners_lem hub.connections (wallet_channel wallet) id o.distinct) ∙ h in
    elim (Option-cases (lookup id hub.connections)) [
      | inl n ↦ let k = rw n at g in unfold includes in cc k
      | inr (c, e) ↦
          let k : includes c.channels (wallet_channel wallet) ≡ true = rw e at g in
          (
            c,
            e,
            may_subscribe-wallet wallet c.wallet (
                All-includes (λ x. may_subscribe x c.wallet ≡ true) c.channels
                  (wallet_channel wallet) (o.permitted id c e).allowed k),
          )
    ]
