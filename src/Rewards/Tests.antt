-- ===== src/Rewards/Tests.antt =====
-- Concrete distributions.
use mathlib.Core.List.{Permᴰ}
use ponswars.Rewards.Merkle.{
  Keccak, MerkleEntry, build_merkle_tree, total_of_entries, build_levels, levels_from, next_level,
  hash_pair, leaf_of, root_of, claims_from, claim_at, tree_with, proof_from, push_sibling,
  sibling_index,
}
use ponswars.Rewards.Merkle.Proofs.{AreProved, build_merkle_tree-AreProved}
use ponswars.Rewards.Merkle.Inputs.{AreAllocations, AreEncodable, build_merkle_tree_iff}
use ponswars.Base.{
  Bool, Bool-cases, inl, inr, ◌&&◌, ◌<◌, ltb, if◌then◌else◌, Result, ok, err, failure, arith, ◌^◌,
  List, ℕ, [], ◌∷◌, ◌≡◌, refl, ◌≤◌, ◌*◌, ◌+◌, ◌%◌, ◌/◌, ◌↔◌, Returns, length,
}
use ponswars.Base.Int.{ℤ, pos, ◌+ℤ◌, ◌≤ℤ◌, ◌<ℤ◌, leb_ℤ, ltb_ℤ}
use ponswars.Rewards.Allocation.{AllocationInput, WalletStanding, allocate_distribution}
use ponswars.Rewards.Allocation.Payout.{Distributed, allocate_distribution-Distributed}
use ponswars.Rewards.Allocation.Ordered.{allocate_distribution-perm}

abbrev standing : ℕ → ℕ → WalletStanding
standing wallet points = record { wallet = wallet; window_war_points = pos points }

abbrev window : AllocationInput
window = record {
  pool_balance = pos 1_000_000;
  standings = standing 17 49 ∷ standing 3 100 ∷ standing 5 400 ∷ [];
  minimum_claim = pos 1_000;
}

payout_example : Distributed window (allocate_distribution window)
payout_example = allocate_distribution-Distributed window

same_window :
    allocate_distribution window
    ≡ allocate_distribution (record {
      pool_balance = pos 1_000_000;
      standings = standing 3 100 ∷ standing 17 49 ∷ standing 5 400 ∷ [];
      minimum_claim = pos 1_000;
    })
same_window = allocate_distribution-perm (pos 1_000_000) (pos 1_000) (Permᴰ.swap refl refl)

abbrev sum : List ℕ → ℕ
sum [] = 1
sum (x ∷ xs) = x * 31 + sum xs

abbrev fits : ℕ → ℤ → Bool
fits bound n = leb_ℤ (pos 0) n && ltb_ℤ n (pos bound)

abbrev toy_encode : ℕ → ℕ → ℤ → ℕ → ℤ → Result (List ℕ)
toy_encode bound wallets id wallet amount =
    if fits bound id && ltb wallet wallets && fits bound amount
    then ok (wallet ∷ [])
    else err failure

toy_encode_iff :
    (bound wallets : ℕ) (id : ℤ) (wallet : ℕ) (amount : ℤ)
    → Returns (toy_encode bound wallets id wallet amount) ↔ (
        ((pos 0 ≤ℤ id) × (id <ℤ pos bound))
        × (wallet < wallets)
        × ((pos 0 ≤ℤ amount) × (amount <ℤ pos bound)))
toy_encode_iff bound wallets id wallet amount =
    elim (Bool-cases (fits bound id && ltb wallet wallets && fits bound amount)) [
      | inl e ↦ rw e (
        λ _. ((ground arith, ground arith), ground arith, (ground arith, ground arith)),
        λ _. (_, refl),
      )
      | inr e ↦ rw e (λ (_, h). cc, λ ((a, b), c, (d, f)). absurd (ground (arith, a, b, c, d, f)))
    ]

abbrev toy_keccak : Keccak
toy_keccak = record {
  keccak256 = λ m. sum m % 65_521;
  word = λ h. h % 256 ∷ (h / 256 ∷ []);
  encode_abi_parameters = toy_encode (2 ^ 256) (2 ^ 160);
  encodes = toy_encode_iff (2 ^ 256) (2 ^ 160);
}

abbrev entry : ℕ → ℕ → MerkleEntry
entry wallet amount = record { wallet = wallet; amount = pos amount }

abbrev payouts : List MerkleEntry
payouts = entry 17 500 ∷ entry 3 900 ∷ entry 5 20 ∷ []

tree_example :
    Returns (build_merkle_tree toy_keccak (pos 7) payouts)
    ↔ ((1 ≤ length payouts) × AreAllocations [] payouts × AreEncodable (pos 7) payouts)
tree_example = build_merkle_tree_iff toy_keccak (pos 7) payouts

tree : Returns (build_merkle_tree toy_keccak (pos 7) payouts)
unfolding build_merkle_tree total_of_entries build_levels levels_from next_level hash_pair leaf_of
    root_of claims_from claim_at tree_with proof_from push_sibling sibling_index ◌+ℤ◌
tree = (_, refl)

proved_claims : AreProved toy_keccak (pos 7) tree.0.root payouts tree.0.claims
proved_claims = build_merkle_tree-AreProved toy_keccak (pos 7) payouts tree.1
