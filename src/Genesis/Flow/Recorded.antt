-- ===== src/Genesis/Flow/Recorded.antt =====
-- A recorded card is a genuine claim (the end of `#reveal` in
-- packages/genesis-service/src/flow.ts).
use mathlib.Core.Option
use ponswars.Base.{
  some-injective, ℕ, ◌+◌, ◌≡◌, ◌∙◌, inl, inr, refl, sym, ap, subst, Bool, not, Bool-cases, Option,
  none, some, Option-cases, ok, err, failure, Result, throw_if, >>=-eq-ok, ok-injective,
}
use ponswars.Base.Text.{Text}
use ponswars.Base.Hashing.{Hashing}
use ponswars.Shared.Cards.{secret, rarity_eq}
use ponswars.Shared.Genesis.{
  committed, finalized, request_state_eq, rarity_for_slot, rng_slot_count, genesis_domain_separator,
  GenesisRequestState,
}
use ponswars.BattleMath.Genesis.{
  GenesisSeedInput, GenesisOutcome, resolve_genesis, initial_uses_for, derive_genesis_seed, draw_in,
  card_for,
}
use ponswars.Genesis.Requests.{
  GenesisRequest, RevealableGenesis, genesis_request_id, ResolvedGenesis, resolve_with,
  resolve_request, SecretReservation, is_some, finalize_genesis,
}
use ponswars.Genesis.Store.{
  GenesisClaim, StoredGenesis, Repository, find, claim_from, record_first, record_stored,
}
use ponswars.Genesis.Flow.{record_card, ready, on_call}
use ponswars.Genesis.Flow.Genuine.{IsGenuine, AllGenuine, Continues, Good, Good-same, stored-Good}

resolve_genesis-available :
    (h : Hashing) (fuel : ℕ) (input : GenesisSeedInput) (available : Bool) {o : GenesisOutcome}
    → resolve_genesis h fuel input available ≡ ok o
    → o.secret_available ≡ available
unfolding resolve_genesis
resolve_genesis-available h fuel input available e =
    let (seed, a, f) = >>=-eq-ok (derive_genesis_seed h input) _ e in
    let (slot, b, g) =
      >>=-eq-ok (draw_in h fuel seed genesis_domain_separator rng_slot_count) _ f in
    let (rarity, c, i) = >>=-eq-ok (rarity_for_slot slot available) _ g in
    let (card, d, k) = >>=-eq-ok (card_for h fuel seed rarity) _ i in
    sym (ap (λ (o : GenesisOutcome). o.secret_available) (ok-injective k))

abbrev pub input_of : GenesisRequest → Text → GenesisSeedInput
input_of r hash = record {
  finalized_block_hash = hash;
  wallet = r.wallet;
  request_id = r.request_id;
}

-- A request with the hash of its block, which goes on from what is stored for its wallet.
pub record IsBound (p : Repository) (r : GenesisRequest) (hash : Text) : Type 0 where
  pub named : r.request_id ≡ genesis_request_id r.wallet
  pub is_committed : r.state ≡ committed
  pub hashed : r.entropy_block_hash ≡ some hash
  pub same_block :
      (s : StoredGenesis)
      → find r.wallet p ≡ some s
      → r.entropy_target_block ≡ s.request.entropy_target_block
  pub same_hash :
      (s : StoredGenesis)
      → find r.wallet p ≡ some s
      → (k : Text) → s.request.entropy_block_hash ≡ some k
      → k ≡ hash

-- What `resolveRequest` gives.
pub resolve_request_inv :
    (h : Hashing) (fuel : ℕ) (r : GenesisRequest) (hash : Text) (available : Bool)
    {card : ResolvedGenesis}
    → r.entropy_block_hash ≡ some hash
    → resolve_request h fuel r available ≡ ok card
    → (o : GenesisOutcome) × (resolve_genesis h fuel (input_of r hash) o.secret_available ≡ ok o)
      × (card ≡ record { request = r; outcome = o; initial_uses = initial_uses_for o.card_type })
unfolding resolve_request resolve_with
resolve_request_inv h fuel r hash available {card = card} e f =
    let (checked, a, g) =
      >>=-eq-ok (throw_if (not (request_state_eq r.state committed)) failure) _ f in
    let g' = subst (λ (x : Option Text). resolve_with h fuel r x available ≡ ok card) e g in
    let (o, b, i) = >>=-eq-ok (resolve_genesis h fuel (input_of r hash) available) _ g' in
    (
      o,
      subst (λ (v : Bool). resolve_genesis h fuel (input_of r hash) v ≡ ok o)
          (sym (resolve_genesis-available h fuel (input_of r hash) available b)) b,
      sym (ok-injective i),
    )

tx_of : (v : Option SecretReservation) → is_some (Option.map (λ r. r.reservation_tx) v) ≡ is_some v
tx_of none = refl
tx_of (some v) = refl

-- What a card becomes when it is finalized, and its request.
abbrev shown : GenesisRequest → GenesisOutcome → ℕ → Option SecretReservation → RevealableGenesis
shown r o at v = record {
  wallet = r.wallet;
  request_id = r.request_id;
  rarity = o.rarity;
  card_type = o.card_type;
  initial_uses = initial_uses_for o.card_type;
  slot = o.slot;
  seed = o.seed;
  secret_available = o.secret_available;
  rarity_table_version = o.rarity_table_version;
  secret_reservation = v;
  finalized_at = at;
}

abbrev closed : GenesisRequest → GenesisRequest
closed r = record r { state = finalized }

-- What follows a call of the repository without changing it.
pub on_call_lem :
    {A B : Type 0} (c : Result A × Repository) (f : A → Result B)
    → (on_call c (λ x after. (f x, after))).1 ≡ c.1
on_call_lem (ok x, p) f = refl
on_call_lem (err e, p) f = refl

abbrev pub card_of : GenesisRequest → GenesisOutcome → ResolvedGenesis
card_of r o = record { request = r; outcome = o; initial_uses = initial_uses_for o.card_type }

module _ (h : Hashing) (fuel : ℕ) (p : Repository) (r : GenesisRequest) (hash : Text) where
  claim_from-IsGenuine :
      (o : GenesisOutcome) (at : ℕ) (v : Option SecretReservation) (id : Text)
      → IsBound p r hash
      → is_some v ≡ rarity_eq o.rarity secret
      → resolve_genesis h fuel (input_of r hash) o.secret_available ≡ ok o
      → IsGenuine h fuel r.wallet (record {
        request = closed r;
        claim = some (claim_from id (closed r) hash (shown r o at v));
      })
  unfolding claim_from
  claim_from-IsGenuine o at v id b k e = record {
    own = refl;
    named = b.named;
    backed = (
      refl,
      b.hashed,
      refl,
      refl,
      refl,
      (
        o,
        e,
        record {
          rarity_is = refl;
          card_is = refl;
          slot_is = refl;
          seed_is = refl;
          version_is = refl;
          uses_are = refl;
          reserved_iff = tx_of v ∙ k;
        },
      ),
    );
  }

  -- A request that is bound goes on from what is stored without a claim.
  pub bound-Continues :
      (s : StoredGenesis) (state : GenesisRequestState) (c : Option GenesisClaim)
      → IsBound p r hash
      → find r.wallet p ≡ some s
      → s.claim ≡ none
      → Continues s (record { request = record r { state = state }; claim = c })
  bound-Continues s state c b f n = record {
    same_block = b.same_block s f;
    same_hash = λ k e. b.hashed ∙ ap (λ (x : Text). some x) (sym (b.same_hash s f k e));
    same_claim = λ x e. cc;
  }

  record_stored-Good :
      (o : GenesisOutcome) (at : ℕ) (v : Option SecretReservation) (q : Option StoredGenesis)
      → AllGenuine h fuel p
      → IsBound p r hash
      → is_some v ≡ rarity_eq o.rarity secret
      → resolve_genesis h fuel (input_of r hash) o.secret_available ≡ ok o
      → find r.wallet p ≡ q
      → Good h fuel p (record_stored q (closed r) (shown r o at v) p).1
  unfolding record_stored record_first
  record_stored-Good o at v none a b k e f = Good-same h fuel p a
  record_stored-Good o at v (some s) a b k e f = elim (Option-cases s.claim) [
    | inr (c, g) ↦ rw g (Good-same h fuel p a)
    | inl n ↦ rw n (
        subst (λ (x : Option Text). Good h fuel p (record_first (closed r) x (shown r o at v) p).1)
          (sym b.hashed)
          (stored-Good h fuel p (p.next_number + 1) (closed r) _ a
            (claim_from-IsGenuine o at v _ b k e)
            (λ t g.
              bound-Continues t finalized _ b g
                (subst (λ (u : StoredGenesis). u.claim ≡ none) (some-injective (sym f ∙ g)) n))))
  ]

  pub record_card-Good :
      (o : GenesisOutcome) (at : ℕ) (v : Option SecretReservation)
      → AllGenuine h fuel p
      → IsBound p r hash
      → resolve_genesis h fuel (input_of r hash) o.secret_available ≡ ok o
      → Good h fuel p (record_card (card_of r o) at v p).1
  unfolding record_card finalize_genesis
  record_card-Good o at none a b e = elim (Bool-cases (rarity_eq o.rarity secret)) [
    | inl k ↦ rw k (Good-same h fuel p a)
    | inr k ↦
        rw
          (
            k,
            on_call_lem (record_stored (find r.wallet p) (closed r) (shown r o at none) p)
                (λ claim. ok (ready claim)),
          )
          (record_stored-Good o at none _ a b (sym k) e refl)
  ]
  record_card-Good o at (some v) a b e = elim (Bool-cases (rarity_eq o.rarity secret)) [
    | inr k ↦ rw k (Good-same h fuel p a)
    | inl k ↦
        rw
          (
            k,
            on_call_lem (record_stored (find r.wallet p) (closed r) (shown r o at (some v)) p)
                (λ claim. ok (ready claim)),
          )
          (record_stored-Good o at (some v) _ a b (sym k) e refl)
  ]
