-- ===== src/Genesis/Flow/Advance.antt =====
-- Going on with a stored request (`#advance` in packages/genesis-service/src/flow.ts).
use ponswars.Base.{
  some-injective, ℕ, ◌^◌, ◌||◌, leb, ◌==◌, ◌≡◌, ◌∙◌, inl, inr, refl, sym, ap, subst, true, false,
  not, Bool-cases, Option, none, some, ok, failure, range_error, throw_if, >>=-eq-ok, ok-injective,
  Result-cases, map,
}
use ponswars.Base.Text.{Text, is_empty, to_lower_char}
use ponswars.Base.Hashing.{Hashing}
use ponswars.Shared.Genesis.{
  pending, committed, finalized, failed, can_transition_genesis_request, GenesisRequestState,
}
use ponswars.Genesis.Requests.{
  GenesisRequest, Block, genesis_request_id, is_some, is_block_hash, commit_entropy,
  resolve_request, open_request,
}
use ponswars.Genesis.Store.{GenesisClaim, StoredGenesis, Repository, find}
use ponswars.Genesis.Flow.{
  GenesisFlowDeps, from_chain, coverage, on_block, advance_request, advance, status_of, committing,
}
use ponswars.Genesis.Flow.Genuine.{Backed, AllGenuine, Good, Good-same}
use ponswars.Genesis.Flow.Recorded.{IsBound}
use ponswars.Genesis.Flow.Steps.{reveal-Good}

-- What `commitEntropy` gives.
commit_entropy_inv :
    (r : GenesisRequest) (block : Block) (at : ℕ) {bound : GenesisRequest}
    → commit_entropy r block at ≡ ok bound
    → bound ≡ record r {
      state = committed;
      entropy_block_hash = some (map to_lower_char block.hash);
      committed_at = some at;
    }
unfolding commit_entropy
commit_entropy_inv r block at e =
    let (u, a, f) =
      >>=-eq-ok (throw_if (not (can_transition_genesis_request r.state committed)) failure) _ e in
    let (v, b, g) = >>=-eq-ok (throw_if (is_some r.entropy_block_hash) failure) _ f in
    let (w, c, i) =
      >>=-eq-ok (throw_if (not (block.number == r.entropy_target_block)) failure) _ g in
    let (x, d, k) = >>=-eq-ok (throw_if (not (is_block_hash block.hash)) range_error) _ i in
    sym (ok-injective k)

abbrev pub opened : Text → Text → ℕ → ℕ → GenesisRequest
opened id w target at = record {
  request_id = id;
  wallet = w;
  state = pending;
  entropy_target_block = target;
  entropy_block_hash = none;
  requested_at = at;
  committed_at = none;
}

-- What `openRequest` gives.
pub open_request_inv :
    (id w : Text) (target at : ℕ) {r : GenesisRequest}
    → open_request id w target at ≡ ok r
    → r ≡ opened id w target at
unfolding open_request
open_request_inv id w target at e = elim (Bool-cases (is_empty id)) [
  | inl f ↦ let g = rw f at e in cc g
  | inr f ↦ elim (Bool-cases (leb (2 ^ 53) target || (target == 0))) [
    | inl g ↦ let k = rw (f, g) at e in cc k
    | inr g ↦ let k = rw (f, g) at e in sym (ok-injective k)
  ]
]

module _ (h : Hashing) (fuel : ℕ) (deps : GenesisFlowDeps) (p : Repository)
    (s : StoredGenesis) where
  -- The request that is stored for its own wallet, and has no claim.
  abbrev IsOpen : Type 0
  IsOpen =
      AllGenuine h fuel p
      × (find s.request.wallet p ≡ some s)
      × (s.request.request_id ≡ genesis_request_id s.request.wallet)
      × Backed h fuel s.request none

  -- With a hash that goes on from the stored request it is bound.
  committed-IsBound :
      (hash : Text) (o : Option Text) (at : Option ℕ)
      → IsOpen
      → o ≡ some hash
      → ((k : Text) → s.request.entropy_block_hash ≡ some k → k ≡ hash)
      → IsBound p
          (record s.request { state = committed; entropy_block_hash = o; committed_at = at })
          hash
  committed-IsBound hash o at (a, f, n, b) e k = record {
    named = n;
    is_committed = refl;
    hashed = e;
    same_block = λ t g.
        ap (λ (u : StoredGenesis). u.request.entropy_target_block) (some-injective (sym f ∙ g));
    same_hash = λ t g x q. k x (
        subst (λ (u : StoredGenesis). u.request.entropy_block_hash ≡ some x)
          (some-injective (sym g ∙ f)) q);
  }

  on_block-Good :
      (block : Option Block)
      → IsOpen
      → s.request.entropy_block_hash ≡ none
      → Good h fuel p (on_block h fuel deps s.request block p).1
  unfolding on_block
  on_block-Good none i n = Good-same h fuel p i.0
  on_block-Good (some block) i n =
      elim (Result-cases (commit_entropy s.request block (deps.now committing))) [
        | inr (x, f) ↦ rw f (Good-same h fuel p i.0)
        | inl (bound, f) ↦ rw f (elim (Result-cases (coverage deps.secret_vault)) [
          | inr (x, g) ↦ rw g (Good-same h fuel p i.0)
          | inl (available, g) ↦
              rw g (elim (Result-cases (resolve_request h fuel bound available)) [
                | inr (x, k) ↦ rw k (Good-same h fuel p i.0)
                | inl (card, k) ↦
                    let b =
                      committed-IsBound (map to_lower_char block.hash)
                        (some (map to_lower_char block.hash)) (some (deps.now committing)) i refl
                        (λ x q. cc) in
                    let b' =
                      subst (λ (r : GenesisRequest). IsBound p r (map to_lower_char block.hash))
                        (sym (commit_entropy_inv s.request block (deps.now committing) f)) b in
                    rw k (
                      reveal-Good h fuel p bound (map to_lower_char block.hash) deps card available
                        false i.0 b' k)
              ])
        ])
      ]

  advance_request-Good :
      (state : GenesisRequestState)
      → IsOpen
      → s.request.state ≡ state
      → Good h fuel p (advance_request h fuel deps s.request state p).1
  unfolding advance_request
  advance_request-Good pending (a, f, n, inr (c, b)) e = cc
  advance_request-Good pending (a, f, n, inl (c, b)) e =
      elim (Result-cases (from_chain (deps.finalized_block s.request.entropy_target_block))) [
        | inr (x, g) ↦ rw g (Good-same h fuel p a)
        | inl (block, g) ↦ rw g (on_block-Good block (a, f, n, inl (c, b)) b)
      ]
  advance_request-Good committed (a, f, n, inl (c, b)) e = cc
  advance_request-Good committed (a, f, n, inr (c, (hash, b))) e =
      elim (Result-cases (resolve_request h fuel s.request true)) [
        | inr (x, g) ↦ rw g (Good-same h fuel p a)
        | inl (card, g) ↦ rw g (
            reveal-Good h fuel p s.request hash deps card true true a
              (record {
                named = n;
                is_committed = c;
                hashed = b;
                same_block = λ t k.
                    ap (λ (u : StoredGenesis). u.request.entropy_target_block)
                      (some-injective (sym f ∙ k));
                same_hash = λ t k x q. some-injective (
                    sym (
                      subst (λ (u : StoredGenesis). u.request.entropy_block_hash ≡ some x)
                        (some-injective (sym k ∙ f)) q)
                    ∙ b);
              })
              g)
      ]
  advance_request-Good finalized i e = Good-same h fuel p i.0
  advance_request-Good failed i e = Good-same h fuel p i.0

module _ (h : Hashing) (fuel : ℕ) (deps : GenesisFlowDeps) (p : Repository)
    (a : AllGenuine h fuel p) where
  -- Advancing what is stored for a wallet.
  pub advance-Good :
      (w : Text) (s : StoredGenesis) (c : Option GenesisClaim)
      → find w p ≡ some s
      → s.claim ≡ c
      → Good h fuel p (advance h fuel deps s.request c p).1
  unfolding advance
  advance-Good w s (some c) f e = Good-same h fuel p a
  advance-Good w s none f e =
      let g = a w s f in
      advance_request-Good h fuel deps p s s.request.state
        (
          a,
          subst (λ (v : Text). find v p ≡ some s) (sym g.own) f,
          subst (λ (v : Text). s.request.request_id ≡ genesis_request_id v) (sym g.own) g.named,
          subst (λ (x : Option GenesisClaim). Backed h fuel s.request x) e g.backed,
        )
        refl

  pub status_of-Good :
      (w : Text) (q : Option StoredGenesis)
      → find w p ≡ q
      → Good h fuel p (status_of h fuel deps q p).1
  unfolding status_of
  status_of-Good w none f = Good-same h fuel p a
  status_of-Good w (some s) f = advance-Good w s s.claim f refl
