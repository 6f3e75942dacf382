-- ===== src/RoundService/Picks/Replays.antt =====
-- A request that is sent again (`submit` in apps/api/src/pick-store.ts).
use ponswars.Base.{
  ℕ, ◌≡◌, ◌≢◌, ◌↔◌, ◌∙◌, inl, inr, refl, sym, ap, subst, Bool, true, Bool-cases, List, [], ◌∷◌,
  Option, none, some, if◌then◌else◌, All, ok, err, picks_locked, ok-injective, arith,
}
use ponswars.Base.Text.{Text, text_eq_iff}
use ponswars.Base.Entries.{entry, entry-put, entry-remove}
use ponswars.RoundService.Picks.{
  CardDecision, SubmittedPick, RequestKey, request_key, same_key, PickStore, is_locked, submit_seen,
  submit, withdraw_found, withdraw, decide_found, decide_card, locked_picks,
}
use ponswars.RoundService.Picks.Calls.{Call, submitted, withdrawn, decided, read, call, calls}

request_key_lem :
    {w v : ℕ} {r q i j : Text} → w ≡ v → r ≡ q → i ≡ j → request_key w r i ≡ request_key v q j
request_key_lem e f g = cc

same_key_iff : (a b : RequestKey) → (same_key a b ≡ true) ↔ (a ≡ b)
unfolding same_key request_key
same_key_iff a b = (
  λ e.
      request_key_lem {w = a.wallet} {v = b.wallet} (ground (arith, e))
        ((text_eq_iff a.round_id b.round_id).0 (ground (arith, e)))
        ((text_eq_iff a.client_request_id b.client_request_id).0 (ground (arith, e))),
  λ e.
      subst (λ c. same_key a c ≡ true) e
        (ground (
          arith,
          text_eq_iff a.round_id a.round_id,
          text_eq_iff a.client_request_id a.client_request_id,
        )),
)

module _ (k : RequestKey) (stored : SubmittedPick) where
  -- The request is answered from the store.
  abbrev IsApplied : PickStore → Type 0
  IsApplied s = entry same_key k s.applied ≡ some stored

  submit-IsApplied :
      (pick : SubmittedPick) (s : PickStore) → IsApplied s → IsApplied (submit pick s).1
  unfolding submit
  submit-IsApplied pick s h = elim (Bool-cases (is_locked pick.round_id s)) [
    | inl e ↦ rw e h
    | inr e ↦ rw e (seen _ refl)
  ]
    where
      seen :
          (o : Option SubmittedPick)
          → entry same_key (request_key pick.wallet pick.round_id pick.client_request_id) s.applied
            ≡ o
          → IsApplied (submit_seen o pick s).1
      seen (some p) e = unfold submit_seen in h
      seen none e =
          unfold submit_seen in
          entry-put same_key same_key_iff _ k pick s.applied
          ∙ elim (Bool-cases
              (same_key (request_key pick.wallet pick.round_id pick.client_request_id) k)) [
                | inl x ↦ absurd (
                    let y = (same_key_iff _ k).0 x in
                    let z = subst (λ j. entry same_key j s.applied ≡ none) y e in cc)
                | inr x ↦ rw x h
              ]

  withdraw-IsApplied :
      (q : Text) (w : ℕ) (s : PickStore)
      → withdrawn q w ≢ withdrawn k.round_id k.wallet
      → IsApplied s
      → IsApplied (withdraw q w s).1
  unfolding withdraw request_key
  withdraw-IsApplied q w s n h = elim (Bool-cases (is_locked q s)) [
    | inl e ↦ rw e h
    | inr e ↦ rw e (found _)
  ]
    where
      found : (o : Option SubmittedPick) → IsApplied (withdraw_found o q w s).1
      found none = unfold withdraw_found in h
      found (some p) =
          unfold withdraw_found in
          entry-remove same_key same_key_iff _ k s.applied
          ∙ elim (Bool-cases (same_key (request_key w q p.client_request_id) k)) [
            | inl x ↦ absurd (
                let y = (same_key_iff _ k).0 x in
                n (ap (λ (j : RequestKey). withdrawn j.round_id j.wallet) y))
            | inr x ↦ rw x h
          ]

  decide_card-IsApplied :
      (q : Text) (w : ℕ) (d : CardDecision) (at : ℕ) (s : PickStore)
      → IsApplied s
      → IsApplied (decide_card q w d at s).1
  unfolding decide_card
  decide_card-IsApplied q w d at s h = elim (Bool-cases (is_locked q s)) [
    | inl e ↦ rw e h
    | inr e ↦ rw e (found _)
  ]
    where
      found : (o : Option SubmittedPick) → IsApplied (decide_found o q w d at s).1
      found none = unfold decide_found in h
      found (some p) = unfold decide_found in h

  calls-IsApplied :
      (cs : List Call) (s : PickStore)
      → All (λ c. c ≢ withdrawn k.round_id k.wallet) cs
      → IsApplied s
      → IsApplied (calls cs s)
  unfolding calls call
  calls-IsApplied [] s n h = h
  calls-IsApplied (submitted pick ∷ cs) s (_, n) h =
      calls-IsApplied cs (submit pick s).1 n (submit-IsApplied pick s h)
  calls-IsApplied (withdrawn q w ∷ cs) s (m, n) h =
      calls-IsApplied cs (withdraw q w s).1 n (withdraw-IsApplied q w s m h)
  calls-IsApplied (decided q w d at ∷ cs) s (_, n) h =
      calls-IsApplied cs (decide_card q w d at s).1 n (decide_card-IsApplied q w d at s h)
  calls-IsApplied (read card_of q ∷ cs) s (_, n) h =
      calls-IsApplied cs (locked_picks card_of q s).1 n (unfold locked_picks in h)

submit_seen_returned :
    (o : Option SubmittedPick) (pick : SubmittedPick) (s : PickStore) {stored : SubmittedPick}
    {replayed : Bool}
    → entry same_key (request_key pick.wallet pick.round_id pick.client_request_id) s.applied ≡ o
    → (submit_seen o pick s).0 ≡ ok (stored, replayed)
    → IsApplied
        (request_key pick.wallet pick.round_id pick.client_request_id)
        stored
        (submit_seen o pick s).1
unfolding submit_seen
submit_seen_returned (some seen) pick s f e =
    f ∙ ap some (ap (λ (x : SubmittedPick × Bool). x.0) (ok-injective e))
submit_seen_returned none pick s f e =
    let k = request_key pick.wallet pick.round_id pick.client_request_id in
    entry-put same_key same_key_iff k k pick s.applied
    ∙ rw ((same_key_iff k k).1 refl)
        (ap some (ap (λ (x : SubmittedPick × Bool). x.0) (ok-injective e)))

-- A submission that returned has left its answer.
submit_returned :
    (pick : SubmittedPick) (s : PickStore) {stored : SubmittedPick} {replayed : Bool}
    → (submit pick s).0 ≡ ok (stored, replayed)
    → IsApplied
        (request_key pick.wallet pick.round_id pick.client_request_id)
        stored
        (submit pick s).1
unfolding submit
submit_returned pick s e = elim (Bool-cases (is_locked pick.round_id s)) [
  | inl x ↦ absurd (let y = rw x at e in cc)
  | inr x ↦ rw x (submit_seen_returned _ pick s refl (rw x at e))
]

-- What a submission answers in a store that has an answer for its request.
submit_again :
    (again : SubmittedPick) (t : PickStore) (stored : SubmittedPick)
    → IsApplied (request_key again.wallet again.round_id again.client_request_id) stored t
    → submit again t
      ≡ (if is_locked again.round_id t then err picks_locked else ok (stored, true), t)
unfolding submit
submit_again again t stored h = elim (Bool-cases (is_locked again.round_id t)) [
  | inl x ↦ rw x refl
  | inr x ↦ rw (x, h) (unfold submit_seen in refl)
]

-- A submission that returned a stored pick returns that pick again to any later request of the same
-- wallet in the same round with the same key, whatever it asks for, and changes nothing, or is refused
-- as locked once the round's picks are frozen. Any calls may come between, even newer decisions of the
-- wallet, but no withdrawal by the wallet from the round.
pub submit_replays :
    (pick again : SubmittedPick) (store : PickStore) (cs : List Call) {stored : SubmittedPick}
    {replayed : Bool}
    → (submit pick store).0 ≡ ok (stored, replayed)
    → All (λ c. c ≢ withdrawn pick.round_id pick.wallet) cs
    → request_key again.wallet again.round_id again.client_request_id
      ≡ request_key pick.wallet pick.round_id pick.client_request_id
    → submit again (calls cs (submit pick store).1) ≡ (
      if is_locked again.round_id (calls cs (submit pick store).1)
          then err picks_locked
          else ok (stored, true),
      calls cs (submit pick store).1,
    )
submit_replays pick again s cs {stored = stored} e n k =
    let key = request_key pick.wallet pick.round_id pick.client_request_id in
    submit_again again (calls cs (submit pick s).1) stored (
      subst (λ j. IsApplied j stored (calls cs (submit pick s).1)) (sym k)
        (calls-IsApplied key stored cs (submit pick s).1 (unfold request_key in n)
          (submit_returned pick s e)))
