-- ===== src/Genesis/Flow/Kept.antt =====
-- A claim is dealt once (`GenesisFlow` in packages/genesis-service/src/flow.ts): what calls keep.
use ponswars.Base.{
  ℕ, ◌+◌, ◌≡◌, inl, inr, refl, false, Option, none, some, Option-cases, Result-cases, List, [], ◌∷◌,
}
use ponswars.Base.Text.{Text, text_eq_iff}
use ponswars.Base.Hashing.{Hashing}
use ponswars.Base.Dict.{lookup}
use ponswars.Shared.Genesis.{pending}
use ponswars.Genesis.Requests.{
  GenesisRequest, genesis_request_id, open_request, check_eligibility, eligible, insufficient_war,
  already_claimed, war_threshold,
}
use ponswars.Genesis.Store.{StoredGenesis, Repository, new_repository, stored, find, open_stored}
use ponswars.Genesis.Flow.{
  GenesisFlowDeps, GenesisCall, asks, looks, from_chain, on_value, status, open_and_advance,
  request_first, request_of, request, call, calls, opening, entropy_target_distance,
}
use ponswars.Genesis.Flow.Genuine.{
  IsGenuine, AllGenuine, Keeps, Keeps-trans, Good, Good-same, stored-Good, find-stored,
}
use ponswars.Genesis.Flow.Advance.{opened, open_request_inv, advance-Good, status_of-Good}

Good-trans :
    (h : Hashing) (fuel : ℕ) (p q r : Repository)
    → Good h fuel p q
    → Good h fuel q r
    → Good h fuel p r
Good-trans h fuel p q r (a, k) (b, l) = (b, Keeps-trans p q r k l)

module _ (h : Hashing) (fuel : ℕ) (deps : GenesisFlowDeps) (p : Repository)
    (a : AllGenuine h fuel p) where
  -- A first request is stored, and the call goes on from it.
  open_and_advance-Good :
      (r : GenesisRequest)
      → find r.wallet p ≡ none
      → r.request_id ≡ genesis_request_id r.wallet
      → r.state ≡ pending
      → r.entropy_block_hash ≡ none
      → Good h fuel p (open_and_advance h fuel deps r p).1
  unfolding open_and_advance open_stored
  open_and_advance-Good r f n t e =
      let q = stored r none p in
      let first =
        stored-Good h fuel p p.next_number r none a
          (record { own = refl; named = n; backed = inl (t, e) }) (λ s g. cc) in
      let found : find r.wallet q ≡ some (record { request = r; claim = none }) =
        rw (find-stored p p.next_number r none r.wallet, (text_eq_iff r.wallet r.wallet).1 refl)
          refl in
      rw f (
        Good-trans h fuel p q _ first (
          advance-Good h fuel deps q first.0 r.wallet (record { request = r; claim = none }) none
            found refl))

  asked_Good :
      (w : Text) (target at : ℕ)
      → find w p ≡ none
      → Good h fuel p
          (on_value
            (open_request (genesis_request_id w) w target at)
            (λ r. open_and_advance h fuel deps r)
            p).1
  asked_Good w target at f = elim (Result-cases (open_request (genesis_request_id w) w target at)) [
    | inr (x, g) ↦ rw g (Good-same h fuel p a)
    | inl (r, g) ↦
        let e = open_request_inv (genesis_request_id w) w target at g in
        rw (g, e)
          (open_and_advance-Good (opened (genesis_request_id w) w target at) f refl refl refl)
  ]

  request_first-Good :
      (w : Text) → find w p ≡ none → Good h fuel p (request_first h fuel deps w p).1
  unfolding request_first
  request_first-Good w f = elim (Result-cases (from_chain (deps.war_balance_of w))) [
    | inr (x, g) ↦ rw g (Good-same h fuel p a)
    | inl (balance, g) ↦
        rw g
          (elim (Result-cases (
            check_eligibility (record {
              war_balance = balance;
              war_decimals = deps.war_decimals;
              has_claimed_before = false;
            }))) [
              | inr (x, k) ↦ rw k (Good-same h fuel p a)
              | inl (eligible, k) ↦ rw k (elim (Result-cases (from_chain deps.head_block)) [
                | inr (x, l) ↦ rw l (Good-same h fuel p a)
                | inl (head, l) ↦
                    rw l (asked_Good w (head + entropy_target_distance) (deps.now opening) f)
              ])
              | inl (insufficient_war, k) ↦
                  rw k (elim (Result-cases (war_threshold deps.war_decimals)) [
                    | inr (x, l) ↦ rw l (Good-same h fuel p a)
                    | inl (t, l) ↦ rw l (Good-same h fuel p a)
                  ])
              | inl (already_claimed, k) ↦
                  rw k (elim (Result-cases (war_threshold deps.war_decimals)) [
                    | inr (x, l) ↦ rw l (Good-same h fuel p a)
                    | inl (t, l) ↦ rw l (Good-same h fuel p a)
                  ])
            ])
  ]

  request_of-Good :
      (w : Text) (q : Option StoredGenesis)
      → find w p ≡ q
      → Good h fuel p (request_of h fuel deps w q p).1
  unfolding request_of
  request_of-Good w none f = request_first-Good w f
  request_of-Good w (some s) f = elim (Option-cases s.claim) [
    | inl n ↦ rw n (advance-Good h fuel deps p a w s none f n)
    | inr (c, e) ↦ rw e (Good-same h fuel p a)
  ]

module _ (h : Hashing) (fuel : ℕ) where
  call-Good :
      (c : GenesisCall) (p : Repository) → AllGenuine h fuel p → Good h fuel p (call h fuel c p)
  unfolding call request status
  call-Good (asks w deps) p a = request_of-Good h fuel deps p a w (find w p) refl
  call-Good (looks w deps) p a = status_of-Good h fuel deps p a w (find w p) refl

  calls-Good :
      (cs : List GenesisCall) (p : Repository)
      → AllGenuine h fuel p
      → Good h fuel p (calls h fuel cs p)
  unfolding calls
  calls-Good [] p a = Good-same h fuel p a
  calls-Good (c ∷ cs) p a =
      let g = call-Good c p a in
      Good-trans h fuel p (call h fuel c p) _ g (calls-Good cs (call h fuel c p) g.0)

  new_repository-AllGenuine : AllGenuine h fuel new_repository
  unfolding find lookup
  new_repository-AllGenuine w s e = cc

  -- After any calls, whatever the chain, the token and the vault answered, what is stored for a wallet
  -- is its own: one request under the id of the wallet, pending without a hash, or committed with one,
  -- or finalized with a claim. The claim names the request's block and hash, shows the outcome that
  -- these inputs give under the availability that it records, and has a reservation exactly when it is
  -- a Secret. Calls follow one another here.
  pub calls-IsGenuine :
      (cs : List GenesisCall) (w : Text) (s : StoredGenesis)
      → find w (calls h fuel cs new_repository) ≡ some s
      → IsGenuine h fuel w s
  calls-IsGenuine cs w s e = (calls-Good cs new_repository new_repository-AllGenuine).0 w s e

  -- Nothing is dealt again: what is stored for a wallet after some calls is still stored after any
  -- further calls, with the same block, the hash that it had and the claim that it had.
  pub claims_kept :
      (before after : List GenesisCall)
      → let p = calls h fuel before new_repository in Keeps p (calls h fuel after p)
  claims_kept before after =
      let g = calls-Good before new_repository new_repository-AllGenuine in
      (calls-Good after _ g.0).1
