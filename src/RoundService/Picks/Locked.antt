-- ===== src/RoundService/Picks/Locked.antt =====
-- What the engine reads of a round's picks (`lockedPicks` in apps/api/src/pick-store.ts).
use ponswars.Base.{
  some-injective, ◌↔◌, ltb, ℕ, ◌≡◌, ◌≢◌, ◌<◌, ◌∙◌, inl, inr, refl, sym, ap, subst, true, ◌==◌,
  Bool-cases, List, [], ◌∷◌, Option, none, some, All, any, map, map_result, Result, ok, >>=-eq-ok,
  ok-injective, not_any_iff, arith,
}
use ponswars.Base.Text.{Text, text_eq}
use ponswars.Base.Dict.{lookup}
use ponswars.Base.Entries.{entry}
use ponswars.Shared.Cards.{CardType}
use ponswars.BattleEngine.Battle.{BattleEngineState}
use ponswars.BattleEngine.Rounds.{LockedPick, check_picks}
use ponswars.RoundService.Picks.{
  CardDecision, use_card, save_card, CardHolding, deployed_card, can_deploy, SubmittedPick,
  PickStore, new_store, picks_of, find, sort_picks, holding_for, locked_pick, locked_picks,
}
use ponswars.RoundService.Picks.Calls.{Call, calls}
use ponswars.RoundService.Picks.Keyed.{Fits, DistinctKeys, Keyed, AllKeyed, calls-AllKeyed}
use ponswars.RoundService.Picks.Sorted.{
  Ascending, DistinctWallets, wallets, sort_picks-All, sort_picks-Ascending, sort_picks-any,
}

abbrev values : List (ℕ × SubmittedPick) → List SubmittedPick
values m = map (λ (w, p). p) m

entry-later :
    (w : ℕ) (p : SubmittedPick) (m ms : List (ℕ × SubmittedPick))
    → All (λ (v, q). v ≢ w) ms
    → All (λ (v, q). entry ◌==◌ v m ≡ some q) ms
    → All (λ (v, q). entry ◌==◌ v ((w, p) ∷ m) ≡ some q) ms
unfolding entry
entry-later w p m [] d k = tt
entry-later w p m ((v, q) ∷ ms) (n, d) (e, k) = (ground (arith, n, e), entry-later w p m ms d k)

entry-own :
    (m : List (ℕ × SubmittedPick)) → DistinctKeys m → All (λ (v, q). entry ◌==◌ v m ≡ some q) m
unfolding entry
entry-own [] d = tt
entry-own ((w, p) ∷ m) (n, d) = (ground arith, entry-later w p m m n (entry-own m d))

-- Each pick of a round is the one that its wallet finds.
abbrev IsOwn : Text → List (ℕ × SubmittedPick) → SubmittedPick → Type 0
IsOwn r m p = (entry ◌==◌ p.wallet m ≡ some p) × (p.round_id ≡ r)

values-IsOwn :
    (r : Text) (m ms : List (ℕ × SubmittedPick))
    → All (Fits r) ms
    → All (λ (v, q). entry ◌==◌ v m ≡ some q) ms
    → All (IsOwn r m) (values ms)
values-IsOwn r m [] f k = tt
values-IsOwn r m ((v, q) ∷ ms) ((f, g), fs) (e, k) =
    ((subst (λ (x : ℕ). entry ◌==◌ x m ≡ some q) (sym f) e, g), values-IsOwn r m ms fs k)

values-others :
    (r : Text) (w : ℕ) (m : List (ℕ × SubmittedPick))
    → All (Fits r) m
    → All (λ (v, q). v ≢ w) m
    → All (λ q. q.wallet ≢ w) (values m)
values-others r w [] f n = tt
values-others r w ((v, q) ∷ m) ((f, g), fs) (n, ns) =
    (subst (λ (x : ℕ). x ≢ w) (sym f) n, values-others r w m fs ns)

values-DistinctWallets :
    (r : Text) (m : List (ℕ × SubmittedPick))
    → All (Fits r) m
    → DistinctKeys m
    → DistinctWallets (values m)
values-DistinctWallets r [] f d = tt
values-DistinctWallets r ((w, p) ∷ m) ((f, g), fs) (n, d) = (
  subst (λ (x : ℕ). All (λ q. q.wallet ≢ x) (values m)) (sym f) (values-others r w m fs n),
  values-DistinctWallets r m fs d,
)

values-any :
    (r : Text) (w : ℕ) (m : List (ℕ × SubmittedPick)) {p : SubmittedPick}
    → All (Fits r) m
    → entry ◌==◌ w m ≡ some p
    → any (λ v. v == w) (wallets (values m)) ≡ true
unfolding entry
values-any r w [] f e = cc
values-any r w ((v, q) ∷ m) ((f, g), fs) e = elim (Bool-cases (v == w)) [
  | inl x ↦ rw (f, x) refl
  | inr x ↦ rw (f, x) (values-any r w m fs (rw x at e))
]

-- A locked pick is a pick of its wallet, and deploys a card exactly where the pick uses it and the
-- wallet still holds one with a charge.
pub record StandsFor (card_of : ℕ → Result (Option CardHolding)) (q : SubmittedPick)
    (p : LockedPick) : Type 0 where
  pub same_wallet : p.wallet ≡ q.wallet
  pub same_battle : p.battle_id ≡ q.battle_id
  pub same_ticker : p.backed_ticker ≡ q.backed_ticker
  pub deploys :
      (c : CardType)
      → (p.deployed_card ≡ some c) ↔ (
          (q.card_decision ≡ use_card)
          × ((h : CardHolding) × (card_of q.wallet ≡ ok (some h))
              × (0 < h.remaining_uses)
              × (h.card_type ≡ c)))

-- What a pick deploys where `cardOf` answers.
deployed_card_iff :
    (card_of : ℕ → Result (Option CardHolding)) (w : ℕ) (d : CardDecision)
    (holding : Option CardHolding) (c : CardType)
    → (elim d [ use_card ↦ card_of w | save_card ↦ ok none ]) ≡ ok holding
    → (deployed_card d holding ≡ some c) ↔ (
        (d ≡ use_card)
        × ((h : CardHolding) × (card_of w ≡ ok (some h))
            × (0 < h.remaining_uses)
            × (h.card_type ≡ c)))
unfolding deployed_card can_deploy
deployed_card_iff card_of w save_card holding c e = (λ x. absurd cc, λ (x, _). absurd cc)
deployed_card_iff card_of w use_card none c e = (λ x. absurd cc, λ (_, (h, f, _, _)). absurd cc)
deployed_card_iff card_of w use_card (some h) c e = (
  λ x. elim (Bool-cases (ltb 0 h.remaining_uses)) [
    | inl b ↦ (refl, (h, e, ground (arith, b), some-injective (rw b at x)))
    | inr b ↦ absurd (let y = rw b at x in cc)
  ],
  λ (_, (g, f, b, t)).
      let same : h ≡ g = some-injective (ok-injective (sym e ∙ f)) in
      let u : ltb 0 h.remaining_uses ≡ true =
        subst (λ (k : CardHolding). ltb 0 k.remaining_uses ≡ true) (sym same) (ground (arith, b)) in
      rw u (ap some (ap (λ (k : CardHolding). k.card_type) same ∙ t)),
)

locked_pick-StandsFor :
    (card_of : ℕ → Result (Option CardHolding)) (q : SubmittedPick) {p : LockedPick}
    → locked_pick card_of q ≡ ok p
    → StandsFor card_of q p
unfolding locked_pick holding_for
locked_pick-StandsFor card_of q e =
    let (holding, h, k) = >>=-eq-ok (holding_for card_of q) _ e in
    subst (StandsFor card_of q) (ok-injective k) (record {
      same_wallet = refl;
      same_battle = refl;
      same_ticker = refl;
      deploys = λ c. deployed_card_iff card_of q.wallet q.card_decision holding c h;
    })

-- A locked round: its picks stand for picks that are recorded.
locked-All :
    (card_of : ℕ → Result (Option CardHolding)) (P : SubmittedPick → Type 0)
    (ps : List SubmittedPick) {picks : List LockedPick}
    → All P ps
    → map_result (locked_pick card_of) ps ≡ ok picks
    → (All (λ p. (q : SubmittedPick) × P q × StandsFor card_of q p) picks)
      × (map (λ p. p.wallet) picks ≡ wallets ps)
locked-All card_of P [] a e =
    subst
      (λ (ls : List LockedPick).
        All (λ p. (q : SubmittedPick) × P q × StandsFor card_of q p) ls
        × (map (λ p. p.wallet) ls ≡ []))
      (ok-injective e) (tt, refl)
locked-All card_of P (q ∷ qs) (h, a) e =
    let (p, l, f) = >>=-eq-ok (locked_pick card_of q) _ e in
    let (rest, r, k) = >>=-eq-ok (map_result (locked_pick card_of) qs) _ f in
    let (b, c) = locked-All card_of P qs a r in
    let s = locked_pick-StandsFor card_of q l in
    subst
      (λ (ls : List LockedPick).
        All (λ p. (q : SubmittedPick) × P q × StandsFor card_of q p) ls
        × (map (λ p. p.wallet) ls ≡ wallets (q ∷ qs)))
      (ok-injective k) (((q, h, s), b), (let w = s.same_wallet in rw (w, c) refl))

-- Ascending wallets pass the test of `lockRound` on them.
Ascending-check_picks :
    (battles : List BattleEngineState) (seen : List ℕ) (picks : List LockedPick)
    → All (λ v. All (λ w. v < w) (map (λ p. p.wallet) picks)) seen
    → Ascending (map (λ p. p.wallet) picks)
    → All (λ p. any (λ b. text_eq b.setup.battle_id p.battle_id) battles ≡ true) picks
    → check_picks battles seen picks ≡ ok tt
unfolding check_picks
Ascending-check_picks battles seen [] b s k = refl
Ascending-check_picks battles seen (p ∷ picks) b (l, s) (k, ks) =
    let n = (not_any_iff seen p.wallet).1 (heads seen b) in
    rw (n, k) (Ascending-check_picks battles (p.wallet ∷ seen) picks (l, tails seen b) s ks)
  where
    heads :
        (vs : List ℕ)
        → All (λ v. All (λ w. v < w) (map (λ p. p.wallet) (p ∷ picks))) vs
        → All (λ v. v ≢ p.wallet) vs
    heads [] _ = tt
    heads (v ∷ vs) ((h, _), t) = ((λ e. omega (arith, e, h)), heads vs t)

    tails :
        (vs : List ℕ)
        → All (λ v. All (λ w. v < w) (map (λ p. p.wallet) (p ∷ picks))) vs
        → All (λ v. All (λ w. v < w) (map (λ p. p.wallet) picks)) vs
    tails [] _ = tt
    tails (v ∷ vs) ((_, h), t) = (h, tails vs t)

-- What the engine reads of a round of a store.
pub record IsRead (card_of : ℕ → Result (Option CardHolding)) (r : Text) (s : PickStore)
    (picks : List LockedPick) : Type 0 where
  pub ascending : Ascending (map (λ p. p.wallet) picks)
  pub recorded :
      All
        (λ p.
          (q : SubmittedPick) × ((find r q.wallet s ≡ some q) × (q.round_id ≡ r))
          × StandsFor card_of q p)
        picks
  pub complete :
      (w : ℕ) (q : SubmittedPick)
      → find r w s ≡ some q
      → any (λ v. v == w) (map (λ p. p.wallet) picks) ≡ true
  pub accepted :
      (battles : List BattleEngineState)
      → All (λ p. any (λ b. text_eq b.setup.battle_id p.battle_id) battles ≡ true) picks
      → check_picks battles [] picks ≡ ok tt

Keyed-IsRead :
    (card_of : ℕ → Result (Option CardHolding)) (r : Text) (s : PickStore) {picks : List LockedPick}
    → Keyed r (picks_of r s)
    → (locked_picks card_of r s).0 ≡ ok picks
    → IsRead card_of r s picks
unfolding find locked_picks
Keyed-IsRead card_of r s k e =
    let m = picks_of r s in
    let own =
      sort_picks-All (IsOwn r m) (values m) (values-IsOwn r m m k.fits (entry-own m k.distinct)) in
    let (a, w) = locked-All card_of (IsOwn r m) (sort_picks (values m)) own e in
    let up =
      subst Ascending (sym w)
        (sort_picks-Ascending (values m) (values-DistinctWallets r m k.fits k.distinct)) in
    record {
      ascending = up;
      recorded = a;
      complete = λ v q f. rw w (sort_picks-any v (values m) (values-any r v m k.fits f));
      accepted = λ battles b. Ascending-check_picks battles [] _ tt up b;
    }

new_store-AllKeyed : AllKeyed new_store
unfolding lookup
new_store-AllKeyed r = record { fits = tt; distinct = tt }

-- After any calls of a new store, the picks that are read for the engine stand in ascending order of
-- their wallets, each wallet once. They are exactly the picks that the wallets of the round have, each
-- for its battle and its ticker, and a pick deploys a card exactly where it uses one and its wallet
-- then still holds that card with a charge. `lockRound` refuses none of them whose battles are all
-- battles of its round.
pub locked_picks-IsRead :
    (card_of : ℕ → Result (Option CardHolding)) (round_id : Text) (cs : List Call)
    {picks : List LockedPick}
    → (locked_picks card_of round_id (calls cs new_store)).0 ≡ ok picks
    → IsRead card_of round_id (calls cs new_store) picks
locked_picks-IsRead card_of r cs e =
    Keyed-IsRead card_of r (calls cs new_store)
      (unfold picks_of in calls-AllKeyed cs new_store new_store-AllKeyed r) e
