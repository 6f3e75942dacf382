-- ===== src/Rewards/Merkle.antt =====
-- packages/rewards-math/src/merkle.ts: the tree of a distribution and the proofs of its claims.
pub mod Levels
pub mod Proofs
pub mod Inputs
use ponswars.Base.{
  ℕ, zero, suc, ◌+◌, ◌-◌, ◌/◌, ◌%◌, ◌^◌, ◌<◌, ◌==◌, ◌↔◌, Bool, List, [], ◌∷◌, ◌++◌, Option, none,
  some, any, length, get_elem?, ltb, leb, if◌then◌else◌, Result, ok, err, range_error, failure,
  ◌>>=◌, map_result, Returns,
}
use ponswars.Base.Int.{ℤ, pos, ◌+ℤ◌, ◌≤ℤ◌, ◌<ℤ◌, leb_ℤ}

-- What a `uint256` can hold.
abbrev pub IsWord : ℤ → Type 0
IsWord n = (pos 0 ≤ℤ n) × (n <ℤ pos (2 ^ 256))

-- What the source takes from viem. A hash is the number that its 64 digits denote, so that the order
-- of the lower-case strings is that of the numbers; `word` gives its bytes. `encodeAbiParameters`
-- throws on a number that its type does not hold, and on an address of more than twenty bytes, and on
-- nothing else.
pub record Keccak : Type 0 where
  pub keccak256 : List ℕ → ℕ
  pub word : ℕ → List ℕ
  pub encode_abi_parameters : ℤ → ℕ → ℤ → Result (List ℕ)
  pub encodes :
      (id : ℤ) (wallet : ℕ) (amount : ℤ)
      → Returns (encode_abi_parameters id wallet amount)
        ↔ (IsWord id × (wallet < 2 ^ 160) × IsWord amount)

pub record MerkleEntry : Type 0 where
  pub wallet : ℕ
  pub amount : ℤ

pub record MerkleClaim : Type 0 where
  pub wallet : ℕ
  pub amount : ℤ
  pub leaf : ℕ
  pub proof : List ℕ

pub record MerkleTree : Type 0 where
  pub root : ℕ
  pub claims : List MerkleClaim
  pub total : ℤ

unfoldable pub leaf_of : Keccak → ℤ → ℕ → ℤ → Result ℕ
leaf_of k distribution_id wallet amount =
    k.encode_abi_parameters distribution_id wallet amount >>= λ bytes.
    ok (k.keccak256 (k.word (k.keccak256 bytes)))

unfoldable pub hash_pair : Keccak → ℕ → ℕ → ℕ
hash_pair k left right =
    if ltb left right
    then k.keccak256 (k.word left ++ k.word right)
    else k.keccak256 (k.word right ++ k.word left)

-- The loop that builds a level from the one below: an odd last node is promoted unchanged.
unfoldable pub next_level : Keccak → List ℕ → List ℕ
next_level k [] = []
next_level k (left ∷ []) = left ∷ []
next_level k (left ∷ (right ∷ rest)) = hash_pair k left right ∷ next_level k rest

-- The loop over the levels, the leaves first, with a unit of fuel for each level above them.
unfoldable pub levels_from : Keccak → ℕ → List ℕ → List (List ℕ)
levels_from k zero current = current ∷ []
levels_from k (suc fuel) current =
    let above = levels_from k fuel (next_level k current) in
    if leb (length current) 1 then current ∷ [] else current ∷ above

unfoldable pub build_levels : Keccak → List ℕ → List (List ℕ)
build_levels k leaves = levels_from k (length leaves) leaves

-- `levels[levels.length - 1]?.[0]`
unfoldable pub root_of : List (List ℕ) → Option ℕ
root_of [] = none
root_of (level ∷ []) = get_elem? level 0
root_of (level ∷ (above ∷ rest)) = root_of (above ∷ rest)

unfoldable pub sibling_index : ℕ → ℕ
sibling_index position = if position % 2 == 0 then position + 1 else position - 1

-- A sibling that is there goes on the proof.
unfoldable pub push_sibling : Option ℕ → List ℕ → List ℕ
push_sibling none proof = proof
push_sibling (some sibling) proof = sibling ∷ proof

-- The loop over the levels below the root.
unfoldable pub proof_from : ℕ → List (List ℕ) → List ℕ
unfolding sibling_index
proof_from position [] = []
proof_from position (level ∷ []) = []
proof_from position (level ∷ (above ∷ rest)) =
    push_sibling (get_elem? level (sibling_index position))
      (proof_from (position / 2) (above ∷ rest))

-- The checks of the entries, with the wallets seen so far, and their total.
unfoldable pub total_of_entries : List ℕ → ℤ → List MerkleEntry → Result ℤ
total_of_entries seen total [] = ok total
total_of_entries seen total (entry ∷ entries) =
    let rest = total_of_entries (entry.wallet ∷ seen) (total +ℤ entry.amount) entries in
    if any (λ w. w == entry.wallet) seen
    then err range_error
    else if leb_ℤ entry.amount (pos 0)
    then err range_error
    else rest

-- The claim of an entry, with the test that its leaf is there.
unfoldable pub claim_at : List (List ℕ) → ℕ → MerkleEntry → Option ℕ → Result MerkleClaim
claim_at levels index entry none = err failure
claim_at levels index entry (some leaf) = ok (record {
  wallet = entry.wallet;
  amount = entry.amount;
  leaf = leaf;
  proof = proof_from index levels;
})

-- The claims of the entries from an index on.
unfoldable pub claims_from :
    List (List ℕ) → List ℕ → ℕ → List MerkleEntry → Result (List MerkleClaim)
unfolding claim_at
claims_from levels leaves index [] = ok []
claims_from levels leaves index (entry ∷ entries) =
    let rest = claims_from levels leaves (index + 1) entries in
    claim_at levels index entry (get_elem? leaves index) >>= λ claim.
    rest >>= λ claims. ok (claim ∷ claims)

unfoldable pub tree_with :
    List MerkleEntry → ℤ → List ℕ → List (List ℕ) → Option ℕ → Result MerkleTree
tree_with entries total leaves levels none = err failure
tree_with entries total leaves levels (some root) =
    claims_from levels leaves 0 entries >>= λ claims.
    ok (record { root = root; claims = claims; total = total })

abbrev pub leaf_of_entry : Keccak → ℤ → MerkleEntry → Result ℕ
leaf_of_entry k id entry = leaf_of k id entry.wallet entry.amount

unfoldable pub build_merkle_tree : Keccak → ℤ → List MerkleEntry → Result MerkleTree
unfolding tree_with
build_merkle_tree k id entries =
    if length entries == 0
    then err range_error
    else (total_of_entries [] (pos 0) entries >>= λ total.
        map_result (leaf_of_entry k id) entries >>= λ leaves.
        let levels = build_levels k leaves in
        tree_with entries total leaves levels (root_of levels))

-- The hash that a proof leads to.
unfoldable pub climb : Keccak → ℕ → List ℕ → ℕ
climb k computed [] = computed
climb k computed (sibling ∷ proof) = climb k (hash_pair k computed sibling) proof

unfoldable pub verify_proof : Keccak → ℕ → List ℕ → ℕ → Bool
verify_proof k leaf proof root = climb k leaf proof == root
