-- ===== src/Genesis/Flow/Steps.antt =====
-- Each part of a call keeps the claims (`#reveal` and `#advance` in
-- packages/genesis-service/src/flow.ts).
use ponswars.Base.{
  some-injective, ℕ, ◌≡◌, ◌∙◌, inl, inr, refl, sym, subst, Bool, true, false, Bool-cases, Option,
  none, some, ok, Result-cases,
}
use ponswars.Base.Text.{Text}
use ponswars.Base.Hashing.{Hashing}
use ponswars.Shared.Cards.{secret, rarity_eq}
use ponswars.Shared.Genesis.{pending, committed, finalized, failed, GenesisRequestState}
use ponswars.BattleMath.Genesis.{GenesisOutcome, resolve_genesis}
use ponswars.Genesis.Requests.{GenesisRequest, ResolvedGenesis, resolve_request}
use ponswars.Genesis.Store.{GenesisClaim, StoredGenesis, Repository, find, commit_stored}
use ponswars.Genesis.Flow.{
  GenesisFlowDeps, ReserveAnswer, reserved, uncovered, finalizing, record_card, reveal_secret,
  reveal, secret_reservation_pending,
}
use ponswars.Genesis.Flow.Genuine.{Backed, AllGenuine, Good, Good-same, stored-Good}
use ponswars.Genesis.Flow.Recorded.{
  IsBound, input_of, resolve_request_inv, on_call_lem, bound-Continues, card_of, record_card-Good,
}

module _ (h : Hashing) (fuel : ℕ) (p : Repository) (r : GenesisRequest) (hash : Text) where
  Backed-pending :
      (c : Option GenesisClaim) (t : GenesisRequest)
      → Backed h fuel t c
      → t.state ≡ pending
      → c ≡ none
  Backed-pending none t b e = refl
  Backed-pending (some c) t b e = cc (b.0)

  commit_pending-Good :
      (s : StoredGenesis) (state : GenesisRequestState)
      → AllGenuine h fuel p
      → IsBound p r hash
      → find r.wallet p ≡ some s
      → s.request.state ≡ state
      → Good h fuel p (commit_stored (some s) r p).1
  unfolding commit_stored
  commit_pending-Good s pending a b f e = rw e (
      stored-Good h fuel p p.next_number r none a
        (record { own = refl; named = b.named; backed = inr (b.is_committed, (hash, b.hashed)) })
        (λ t g. bound-Continues h fuel p r hash t r.state none b g (
          Backed-pending t.claim t.request (a r.wallet t g).backed (
            subst (λ (u : StoredGenesis). u.request.state ≡ pending) (some-injective (sym f ∙ g))
              e))))
  commit_pending-Good s committed a b f e = rw e (Good-same h fuel p a)
  commit_pending-Good s finalized a b f e = rw e (Good-same h fuel p a)
  commit_pending-Good s failed a b f e = rw e (Good-same h fuel p a)

  commit_stored-Good :
      (q : Option StoredGenesis)
      → AllGenuine h fuel p
      → IsBound p r hash
      → find r.wallet p ≡ q
      → Good h fuel p (commit_stored q r p).1
  commit_stored-Good none a b f = unfold commit_stored in Good-same h fuel p a
  commit_stored-Good (some s) a b f = commit_pending-Good s s.request.state a b f refl

  reveal_secret-Good :
      (deps : GenesisFlowDeps) (o : GenesisOutcome) (already : Bool) (answer : Option ReserveAnswer)
      → AllGenuine h fuel p
      → IsBound p r hash
      → resolve_genesis h fuel (input_of r hash) o.secret_available ≡ ok o
      → Good h fuel p (reveal_secret h fuel deps (card_of r o) already answer p).1
  unfolding reveal_secret
  reveal_secret-Good deps o true none a b e = Good-same h fuel p a
  reveal_secret-Good deps o false none a b e =
      subst (Good h fuel p)
        (sym (
          on_call_lem (commit_stored (find r.wallet p) r p)
            (λ _. ok (secret_reservation_pending r.request_id))))
        (commit_stored-Good (find r.wallet p) a b refl)
  reveal_secret-Good deps o already (some (reserved v)) a b e =
      record_card-Good h fuel p r hash o (deps.now finalizing) (some v) a b e
  reveal_secret-Good deps o already (some uncovered) a b e =
      elim (Result-cases (resolve_request h fuel r false)) [
        | inr (x, f) ↦ rw f (Good-same h fuel p a)
        | inl (card, f) ↦
            let (u, g, k) = resolve_request_inv h fuel r hash false b.hashed f in
            rw f (
              subst
                (λ (c : ResolvedGenesis).
                  Good h fuel p (record_card c (deps.now finalizing) none p).1)
                (sym k) (record_card-Good h fuel p r hash u (deps.now finalizing) none a b g))
      ]

  pub reveal-Good :
      (deps : GenesisFlowDeps) (card : ResolvedGenesis) (available already : Bool)
      → AllGenuine h fuel p
      → IsBound p r hash
      → resolve_request h fuel r available ≡ ok card
      → Good h fuel p (reveal h fuel deps card already p).1
  unfolding reveal
  reveal-Good deps card available already a b f =
      let (o, g, k) = resolve_request_inv h fuel r hash available b.hashed f in
      subst (λ (c : ResolvedGenesis). Good h fuel p (reveal h fuel deps c already p).1) (sym k)
        (elim (Bool-cases (rarity_eq o.rarity secret)) [
          | inl e ↦ rw e (reveal_secret-Good deps o already _ a b g)
          | inr e ↦ rw e (record_card-Good h fuel p r hash o (deps.now finalizing) none a b g)
        ])
