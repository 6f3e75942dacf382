-- ===== src/RoundService/Picks/Frozen.antt =====
-- Once read for the engine, the picks of a round stay (apps/api/src/pick-store.ts).
use ponswars.Base.{
  ℕ, ◌≡◌, ◌∙◌, inl, inr, refl, ap, Bool, true, false, ◌==◌, Bool-cases, List, [], ◌∷◌, ◌++◌, map,
  map_result, Option, none, some, any, Result, err, picks_locked, arith,
}
use ponswars.Base.Text.{Text, text_eq, text_eq_iff}
use ponswars.Base.Dict.{lookup, assign, lookup-assign}
use ponswars.Base.Entries.{entry}
use ponswars.RoundService.Picks.{
  CardDecision, CardHolding, SubmittedPick, PickStore, is_locked, or_empty, picks_of, find,
  submit_seen, submit, withdraw_found, withdraw, decide_found, decide_card, sort_picks, locked_pick,
  locked_picks,
}
use ponswars.RoundService.Picks.Calls.{Call, submitted, withdrawn, decided, read, call, calls}

any-append :
    (test : Text → Bool) (xs : List Text) (x : Text)
    → any test xs ≡ true
    → any test (xs ++ (x ∷ [])) ≡ true
any-append test [] x h = cc
any-append test (y ∷ xs) x h = ground (arith, any-append test xs x)

any_last :
    (test : Text → Bool) (xs : List Text) (x : Text)
    → test x ≡ true
    → any test (xs ++ (x ∷ [])) ≡ true
any_last test [] x h = rw h refl
any_last test (y ∷ xs) x h = ground (arith, any_last test xs x h)

-- A store in which a round is frozen, with what was written of that round.
record Holds (r : Text) (s t : PickStore) : Type 0 where
  pub frozen : is_locked r t ≡ true
  pub kept : lookup r t.by_round ≡ lookup r s.by_round

module _ (r : Text) (s t : PickStore) (h : Holds r s t) where
  -- What is written of a round that is not frozen leaves the frozen one as it is.
  written-Holds :
      (q : Text) (round : List (ℕ × SubmittedPick)) (u : PickStore)
      → is_locked q t ≡ false
      → u.by_round ≡ assign q round t.by_round
      → u.locked ≡ t.locked
      → Holds r s u
  unfolding is_locked
  written-Holds q round u f b l = record {
    frozen = rw l h.frozen;
    kept = rw b (
        lookup-assign q r round t.by_round ∙ elim (Bool-cases (text_eq q r)) [
          | inr e ↦ rw e h.kept
          | inl e ↦
              absurd (let x = h.frozen in let g = (text_eq_iff q r).0 e in let y = rw g at f in cc)
        ]);
  }

  submit-Holds : (pick : SubmittedPick) → Holds r s (submit pick t).1
  unfolding submit submit_seen
  submit-Holds pick = elim (Bool-cases (is_locked pick.round_id t)) [
    | inl e ↦ rw e h
    | inr e ↦ rw e (submit_seen-Holds _ e)
  ]
    where
      submit_seen-Holds :
          (q : Option SubmittedPick)
          → is_locked pick.round_id t ≡ false
          → Holds r s (submit_seen q pick t).1
      submit_seen-Holds (some seen) e = h
      submit_seen-Holds none e = written-Holds pick.round_id _ _ e refl refl

  withdraw-Holds : (q : Text) (wallet : ℕ) → Holds r s (withdraw q wallet t).1
  unfolding withdraw withdraw_found
  withdraw-Holds q wallet = elim (Bool-cases (is_locked q t)) [
    | inl e ↦ rw e h
    | inr e ↦ rw e (withdraw_found-Holds _ e)
  ]
    where
      withdraw_found-Holds :
          (o : Option SubmittedPick)
          → is_locked q t ≡ false
          → Holds r s (withdraw_found o q wallet t).1
      withdraw_found-Holds none e = h
      withdraw_found-Holds (some existing) e = written-Holds q _ _ e refl refl

  decide_card-Holds :
      (q : Text) (wallet : ℕ) (d : CardDecision) (at : ℕ)
      → Holds r s (decide_card q wallet d at t).1
  unfolding decide_card decide_found
  decide_card-Holds q wallet d at = elim (Bool-cases (is_locked q t)) [
    | inl e ↦ rw e h
    | inr e ↦ rw e (decide_found-Holds _ e)
  ]
    where
      decide_found-Holds :
          (o : Option SubmittedPick)
          → is_locked q t ≡ false
          → Holds r s (decide_found o q wallet d at t).1
      decide_found-Holds none e = h
      decide_found-Holds (some existing) e = written-Holds q _ _ e refl refl

  locked_picks-Holds :
      (card_of : ℕ → Result (Option CardHolding)) (q : Text)
      → Holds r s (locked_picks card_of q t).1
  unfolding locked_picks is_locked
  locked_picks-Holds card_of q = elim (Bool-cases (is_locked q t)) [
    | inl e ↦ record { frozen = rw e (h.frozen); kept = h.kept }
    | inr e ↦ record {
      frozen = rw e (any-append (λ id. text_eq id r) t.locked q h.frozen);
      kept = h.kept;
    }
  ]

call-Holds : (r : Text) (s t : PickStore) (c : Call) → Holds r s t → Holds r s (call c t)
unfolding call
call-Holds r s t (submitted pick) h = submit-Holds r s t h pick
call-Holds r s t (withdrawn q wallet) h = withdraw-Holds r s t h q wallet
call-Holds r s t (decided q wallet d at) h = decide_card-Holds r s t h q wallet d at
call-Holds r s t (read card_of q) h = locked_picks-Holds r s t h card_of q

calls-Holds : (r : Text) (s t : PickStore) (cs : List Call) → Holds r s t → Holds r s (calls cs t)
unfolding calls
calls-Holds r s t [] h = h
calls-Holds r s t (c ∷ cs) h = calls-Holds r s (call c t) cs (call-Holds r s t c h)

locked_picks-frozen :
    (card_of : ℕ → Result (Option CardHolding)) (r : Text) (s : PickStore)
    → Holds r s (locked_picks card_of r s).1
unfolding locked_picks is_locked
locked_picks-frozen card_of r s = elim (Bool-cases (is_locked r s)) [
  | inl e ↦ record { frozen = rw e e; kept = refl }
  | inr e ↦ record {
    frozen = rw e (any_last (λ id. text_eq id r) s.locked r ((text_eq_iff r r).1 refl));
    kept = refl;
  }
]

-- What a store `t` keeps of a round as it stood in `s`: its picks, for every reader, and every
-- change to them refused.
pub record IsFrozen (r : Text) (s t : PickStore) : Type 0 where
  pub same_found : (wallet : ℕ) → find r wallet t ≡ find r wallet s
  pub same_picks :
      (card_of : ℕ → Result (Option CardHolding))
      → (locked_picks card_of r t).0 ≡ (locked_picks card_of r s).0
  pub refuses_submit :
      (pick : SubmittedPick) → pick.round_id ≡ r → submit pick t ≡ (err picks_locked, t)
  pub refuses_withdraw : (wallet : ℕ) → withdraw r wallet t ≡ (err picks_locked, t)
  pub refuses_decision :
      (wallet : ℕ) (d : CardDecision) (at : ℕ) → decide_card r wallet d at t ≡ (err picks_locked, t)

Holds-picks_of : (r : Text) (s t : PickStore) → Holds r s t → picks_of r t ≡ picks_of r s
unfolding picks_of
Holds-picks_of r s t h = ap or_empty h.kept

Holds-IsFrozen : (r : Text) (s t : PickStore) → Holds r s t → IsFrozen r s t
unfolding find locked_picks submit withdraw decide_card
Holds-IsFrozen r s t h = record {
  same_found = λ wallet. ap (entry ◌==◌ wallet) (Holds-picks_of r s t h);
  same_picks = λ card_of.
      ap (λ ps. map_result (locked_pick card_of) (sort_picks (map (λ (w, p). p) ps)))
        (Holds-picks_of r s t h);
  refuses_submit = λ pick e. let f = h.frozen in rw (e, f) refl;
  refuses_withdraw = λ wallet. rw h.frozen refl;
  refuses_decision = λ wallet d at. rw h.frozen refl;
}

-- Once the picks of a round have been read for the engine, whatever is called after that, the round's
-- picks stay as they were read, for every wallet and for every later reading, and every submission,
-- withdrawal and card decision for the round is refused and changes nothing.
pub calls-IsFrozen :
    (card_of : ℕ → Result (Option CardHolding)) (round_id : Text) (store : PickStore)
    (cs : List Call)
    → IsFrozen round_id store (calls cs (locked_picks card_of round_id store).1)
calls-IsFrozen card_of r s cs =
    Holds-IsFrozen r s _ (calls-Holds r s _ cs (locked_picks-frozen card_of r s))
