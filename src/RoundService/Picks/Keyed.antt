-- ===== src/RoundService/Picks/Keyed.antt =====
-- Every round of a pick store holds one pick for a wallet (apps/api/src/pick-store.ts).
use ponswars.Base.{
  some-injective, ℕ, ◌≡◌, ◌≢◌, inl, inr, refl, sym, subst, ◌==◌, Bool-cases, List, [], ◌∷◌, Option,
  none, some, All, arith,
}
use ponswars.Base.Text.{Text, text_eq, text_eq_iff}
use ponswars.Base.Dict.{lookup, assign, lookup-assign}
use ponswars.Base.Entries.{entry, put, remove}
use ponswars.RoundService.Picks.{
  CardDecision, SubmittedPick, PickStore, is_locked, or_empty, picks_of, find, submit_seen, submit,
  withdraw_found, withdraw, decide_found, decide_card, locked_picks,
}
use ponswars.RoundService.Picks.Calls.{Call, submitted, withdrawn, decided, read, call, calls}

-- Each entry holds a pick of its wallet in the round.
abbrev pub Fits : Text → ℕ × SubmittedPick → Type 0
Fits r (w, p) = (p.wallet ≡ w) × (p.round_id ≡ r)

abbrev pub DistinctKeys : List (ℕ × SubmittedPick) → Type 0
DistinctKeys [] = Unit {0}
DistinctKeys ((w, p) ∷ m) = All (λ (v, q). v ≢ w) m × DistinctKeys m

pub record Keyed (r : Text) (m : List (ℕ × SubmittedPick)) : Type 0 where
  pub fits : All (Fits r) m
  pub distinct : DistinctKeys m

-- What holds of every other key holds after a write.
put-All :
    (P : ℕ → Type 0) (w : ℕ) (p : SubmittedPick) (m : List (ℕ × SubmittedPick))
    → P w
    → All (λ (v, q). P v) m
    → All (λ (v, q). P v) (put ◌==◌ w p m)
unfolding put
put-All P w p [] h a = (h, tt)
put-All P w p ((v, q) ∷ m) h (b, a) = elim (Bool-cases (v == w)) [
  | inl e ↦ rw e (b, a)
  | inr e ↦ rw e (b, put-All P w p m h a)
]

put-DistinctKeys :
    (w : ℕ) (p : SubmittedPick) (m : List (ℕ × SubmittedPick))
    → DistinctKeys m
    → DistinctKeys (put ◌==◌ w p m)
unfolding put
put-DistinctKeys w p [] d = (tt, tt)
put-DistinctKeys w p ((v, q) ∷ m) (a, d) = elim (Bool-cases (v == w)) [
  | inl e ↦ rw e (a, d)
  | inr e ↦
      rw e (put-All (λ x. x ≢ v) w p m (λ x. ground (arith, x, e)) a, put-DistinctKeys w p m d)
]

put-Fits :
    (r : Text) (w : ℕ) (p : SubmittedPick) (m : List (ℕ × SubmittedPick))
    → Fits r (w, p)
    → All (Fits r) m
    → All (Fits r) (put ◌==◌ w p m)
unfolding put
put-Fits r w p [] f a = (f, tt)
put-Fits r w p ((v, q) ∷ m) (f, g) (b, a) = elim (Bool-cases (v == w)) [
  | inl e ↦ rw e ((ground (arith, e, f), g), a)
  | inr e ↦ rw e (b, put-Fits r w p m (f, g) a)
]

pub put-Keyed :
    (r : Text) (w : ℕ) (p : SubmittedPick) (m : List (ℕ × SubmittedPick))
    → Fits r (w, p)
    → Keyed r m
    → Keyed r (put ◌==◌ w p m)
put-Keyed r w p m f k = record {
  fits = put-Fits r w p m f k.fits;
  distinct = put-DistinctKeys w p m k.distinct;
}

remove-All {ℓ} :
    (P : ℕ × SubmittedPick → Type ℓ) (w : ℕ) (m : List (ℕ × SubmittedPick))
    → All P m
    → All P (remove ◌==◌ w m)
unfolding remove
remove-All P w [] a = tt
remove-All P w ((v, q) ∷ m) (b, a) = elim (Bool-cases (v == w)) [
  | inl e ↦ rw e (remove-All P w m a)
  | inr e ↦ rw e (b, remove-All P w m a)
]

remove-DistinctKeys :
    (w : ℕ) (m : List (ℕ × SubmittedPick)) → DistinctKeys m → DistinctKeys (remove ◌==◌ w m)
unfolding remove
remove-DistinctKeys w [] d = tt
remove-DistinctKeys w ((v, q) ∷ m) (a, d) = elim (Bool-cases (v == w)) [
  | inl e ↦ rw e (remove-DistinctKeys w m d)
  | inr e ↦ rw e (remove-All (λ (u, p). u ≢ v) w m a, remove-DistinctKeys w m d)
]

remove-Keyed :
    (r : Text) (w : ℕ) (m : List (ℕ × SubmittedPick)) → Keyed r m → Keyed r (remove ◌==◌ w m)
remove-Keyed r w m k = record {
  fits = remove-All (Fits r) w m k.fits;
  distinct = remove-DistinctKeys w m k.distinct;
}

-- The pick that an entry gives is one of the wallet in the round.
entry-Fits :
    (r : Text) (w : ℕ) (m : List (ℕ × SubmittedPick)) {p : SubmittedPick}
    → All (Fits r) m
    → entry ◌==◌ w m ≡ some p
    → Fits r (w, p)
unfolding entry
entry-Fits r w [] a e = cc
entry-Fits r w ((v, q) ∷ m) ((f, g), a) e = elim (Bool-cases (v == w)) [
  | inl x ↦
      let y : q ≡ _ = some-injective (rw x at e) in
      subst (λ (z : SubmittedPick). Fits r (w, z)) y (ground (arith, f, x), g)
  | inr x ↦ entry-Fits r w m a (rw x at e)
]

abbrev MapKeyed : List (Text × List (ℕ × SubmittedPick)) → Type 0
MapKeyed m = (r : Text) → Keyed r (or_empty (lookup r m))

abbrev pub AllKeyed : PickStore → Type 0
AllKeyed s = MapKeyed s.by_round

-- A round that is written is that round; every other one stays.
assign-MapKeyed :
    (m : List (Text × List (ℕ × SubmittedPick))) (q : Text) (round : List (ℕ × SubmittedPick))
    → Keyed q round
    → MapKeyed m
    → MapKeyed (assign q round m)
assign-MapKeyed m q round k a r =
    subst (λ o. Keyed r (or_empty o)) (sym (lookup-assign q r round m))
      (elim (Bool-cases (text_eq q r)) [
        | inl e ↦ rw e (subst (λ x. Keyed x round) ((text_eq_iff q r).0 e) k)
        | inr e ↦ rw e (a r)
      ])

module _ (s : PickStore) (a : AllKeyed s) where
  submit_seen-AllKeyed :
      (o : Option SubmittedPick) (pick : SubmittedPick) → AllKeyed (submit_seen o pick s).1
  unfolding submit_seen picks_of
  submit_seen-AllKeyed (some seen) pick = a
  submit_seen-AllKeyed none pick =
      assign-MapKeyed s.by_round pick.round_id _
        (put-Keyed pick.round_id pick.wallet pick (picks_of pick.round_id s) (refl, refl)
          (a pick.round_id))
        a

  submit-AllKeyed : (pick : SubmittedPick) → AllKeyed (submit pick s).1
  unfolding submit
  submit-AllKeyed pick = elim (Bool-cases (is_locked pick.round_id s)) [
    | inl e ↦ rw e a
    | inr e ↦ rw e (submit_seen-AllKeyed _ pick)
  ]

  withdraw_found-AllKeyed :
      (o : Option SubmittedPick) (q : Text) (w : ℕ) → AllKeyed (withdraw_found o q w s).1
  unfolding withdraw_found picks_of
  withdraw_found-AllKeyed none q w = a
  withdraw_found-AllKeyed (some existing) q w =
      assign-MapKeyed s.by_round q _ (remove-Keyed q w (picks_of q s) (a q)) a

  withdraw-AllKeyed : (q : Text) (w : ℕ) → AllKeyed (withdraw q w s).1
  unfolding withdraw
  withdraw-AllKeyed q w = elim (Bool-cases (is_locked q s)) [
    | inl e ↦ rw e a
    | inr e ↦ rw e (withdraw_found-AllKeyed _ q w)
  ]

  decide_found-AllKeyed :
      (o : Option SubmittedPick) (q : Text) (w : ℕ) (d : CardDecision) (at : ℕ)
      → find q w s ≡ o
      → AllKeyed (decide_found o q w d at s).1
  unfolding decide_found find picks_of
  decide_found-AllKeyed none q w d at e = a
  decide_found-AllKeyed (some existing) q w d at e =
      assign-MapKeyed s.by_round q _
        (put-Keyed q w _ (picks_of q s) (entry-Fits q w (picks_of q s) (a q).fits e) (a q)) a

  decide_card-AllKeyed :
      (q : Text) (w : ℕ) (d : CardDecision) (at : ℕ) → AllKeyed (decide_card q w d at s).1
  unfolding decide_card
  decide_card-AllKeyed q w d at = elim (Bool-cases (is_locked q s)) [
    | inl e ↦ rw e a
    | inr e ↦ rw e (decide_found-AllKeyed _ q w d at refl)
  ]

  call-AllKeyed : (c : Call) → AllKeyed (call c s)
  unfolding call
  call-AllKeyed (submitted pick) = submit-AllKeyed pick
  call-AllKeyed (withdrawn q w) = withdraw-AllKeyed q w
  call-AllKeyed (decided q w d at) = decide_card-AllKeyed q w d at
  call-AllKeyed (read card_of q) = unfold locked_picks in a

pub calls-AllKeyed : (cs : List Call) (s : PickStore) → AllKeyed s → AllKeyed (calls cs s)
unfolding calls
calls-AllKeyed [] s a = a
calls-AllKeyed (c ∷ cs) s a = calls-AllKeyed cs (call c s) (call-AllKeyed s a c)
