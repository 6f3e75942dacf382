-- ===== src/Genesis/Flow/Genuine.antt =====
-- What the repository of claims keeps (packages/genesis-service/src/flow.ts and memory.ts).
use ponswars.Base.{
  some-injective, ℕ, ◌≡◌, ◌⊎◌, inl, inr, refl, subst, Option, none, some, ok, ◌∙◌, if◌then◌else◌,
  Bool-cases,
}
use ponswars.Base.Text.{Text, text_eq, text_eq_iff}
use ponswars.Base.Dict.{lookup-assign}
use ponswars.Base.Hashing.{Hashing}
use ponswars.Shared.Cards.{secret, rarity_eq}
use ponswars.Shared.Genesis.{pending, committed, finalized}
use ponswars.BattleMath.Genesis.{GenesisOutcome, resolve_genesis, initial_uses_for}
use ponswars.Genesis.Requests.{GenesisRequest, genesis_request_id, is_some}
use ponswars.Genesis.Store.{GenesisClaim, StoredGenesis, Repository, stored, find}

-- The claim shows the outcome, and names a reservation exactly when it is a Secret.
pub record IsShown (o : GenesisOutcome) (c : GenesisClaim) : Type 0 where
  pub rarity_is : c.rarity ≡ o.rarity
  pub card_is : c.card_type ≡ o.card_type
  pub slot_is : c.slot ≡ o.slot
  pub seed_is : c.seed ≡ o.seed
  pub version_is : c.rarity_table_version ≡ o.rarity_table_version
  pub uses_are : c.initial_uses ≡ initial_uses_for o.card_type
  pub reserved_iff : is_some c.secret_reservation_tx ≡ rarity_eq c.rarity secret

module _ (hashing : Hashing) (fuel : ℕ) where
  -- What a request with a claim, or without one, has gone through.
  abbrev pub Backed : GenesisRequest → Option GenesisClaim → Type 0
  Backed r none =
      ((r.state ≡ pending) × (r.entropy_block_hash ≡ none))
      ⊎ ((r.state ≡ committed) × ((h : Text) × (r.entropy_block_hash ≡ some h)))
  Backed r (some c) =
      (r.state ≡ finalized)
      × (r.entropy_block_hash ≡ some c.entropy_block_hash)
      × (c.entropy_block ≡ r.entropy_target_block)
      × (c.wallet ≡ r.wallet)
      × (c.request_id ≡ r.request_id)
      × ((o : GenesisOutcome) × (resolve_genesis hashing fuel
              (record {
                finalized_block_hash = c.entropy_block_hash;
                wallet = r.wallet;
                request_id = r.request_id;
              })
              c.secret_available
            ≡ ok o)
          × IsShown o c)

  -- What is stored for a wallet is its own: its one request, and a claim that this request determines.
  pub record IsGenuine (w : Text) (s : StoredGenesis) : Type 0 where
    pub own : s.request.wallet ≡ w
    pub named : s.request.request_id ≡ genesis_request_id w
    pub backed : Backed s.request s.claim

  abbrev pub AllGenuine : Repository → Type 0
  AllGenuine p = (w : Text) (s : StoredGenesis) → find w p ≡ some s → IsGenuine w s

-- The request keeps its block, a hash that it has, and a claim that it has.
pub record Continues (s t : StoredGenesis) : Type 0 where
  pub same_block : t.request.entropy_target_block ≡ s.request.entropy_target_block
  pub same_hash :
      (h : Text) → s.request.entropy_block_hash ≡ some h → t.request.entropy_block_hash ≡ some h
  pub same_claim : (c : GenesisClaim) → s.claim ≡ some c → t.claim ≡ some c

abbrev pub Keeps : Repository → Repository → Type 0
Keeps p q =
    (w : Text) (s : StoredGenesis)
    → find w p ≡ some s
    → (t : StoredGenesis) × (find w q ≡ some t) × Continues s t

pub Keeps-refl : (p : Repository) → Keeps p p
Keeps-refl p w s e =
    (s, e, record { same_block = refl; same_hash = λ h k. k; same_claim = λ c k. k })

pub Keeps-trans : (p q r : Repository) → Keeps p q → Keeps q r → Keeps p r
Keeps-trans p q r a b w s e =
    let (t, f, c) = a w s e in
    let (u, g, d) = b w t f in
    (
      u,
      g,
      record {
        same_block = d.same_block ∙ c.same_block;
        same_hash = λ h k. d.same_hash h (c.same_hash h k);
        same_claim = λ x k. d.same_claim x (c.same_claim x k);
      },
    )

-- A step from genuine claims keeps them, and leaves genuine claims.
abbrev pub Good : Hashing → ℕ → Repository → Repository → Type 0
Good hashing fuel p q = AllGenuine hashing fuel q × Keeps p q

pub find-stored :
    (p : Repository) (n : ℕ) (r : GenesisRequest) (c : Option GenesisClaim) (w : Text)
    → find w (stored r c (record p { next_number = n }))
      ≡ (if text_eq r.wallet w then some (record { request = r; claim = c }) else find w p)
unfolding find stored
find-stored p n r c w = lookup-assign r.wallet w _ p.records

module _ (hashing : Hashing) (fuel : ℕ) where
  pub Good-same : (p : Repository) → AllGenuine hashing fuel p → Good hashing fuel p p
  Good-same p a = (a, Keeps-refl p)

  -- Storing a genuine entry that goes on from what was there.
  pub stored-Good :
      (p : Repository) (n : ℕ) (r : GenesisRequest) (c : Option GenesisClaim)
      → AllGenuine hashing fuel p
      → IsGenuine hashing fuel r.wallet (record { request = r; claim = c })
      → ((s : StoredGenesis)
          → find r.wallet p ≡ some s
          → Continues s (record { request = r; claim = c }))
      → Good hashing fuel p (stored r c (record p { next_number = n }))
  stored-Good p n r c a g k = (
    λ w s e. elim (Bool-cases (text_eq r.wallet w)) [
      | inl same ↦
          let f : some (record { request = r; claim = c }) ≡ some s =
            rw (find-stored p n r c w, same) at e in
          subst (λ (t : StoredGenesis). IsGenuine hashing fuel w t) (some-injective f)
            (subst (λ (v : Text). IsGenuine hashing fuel v (record { request = r; claim = c }))
              ((text_eq_iff r.wallet w).0 same) g)
      | inr other ↦ let f : find w p ≡ some s = rw (find-stored p n r c w, other) at e in a w s f
    ],
    λ w s e. elim (Bool-cases (text_eq r.wallet w)) [
      | inl same ↦ (
        record { request = r; claim = c },
        rw (find-stored p n r c w, same) refl,
        k s (rw ((text_eq_iff r.wallet w).0 same) e),
      )
      | inr other ↦ (
        s,
        rw (find-stored p n r c w, other) e,
        record { same_block = refl; same_hash = λ h k. k; same_claim = λ c k. k },
      )
    ],
  )
