-- ===== src/Rewards/Merkle/Proofs.antt =====
-- Every claim of a tree is proved (packages/rewards-math/src/merkle.ts).
use ponswars.Base.{
  ℕ, ◌+◌, ◌==◌, ◌≡◌, refl, ap, sym, ◌∙◌, subst, true, Bool-cases, inl, inr, List, [], ◌∷◌, ◌++◌,
  Option, none, some, length, get_elem?, ok, >>=-eq-ok, ok-injective, map_result, arith,
}
use ponswars.Base.Int.{ℤ, pos}
use ponswars.Rewards.Merkle.{
  Keccak, MerkleEntry, MerkleClaim, MerkleTree, leaf_of, leaf_of_entry, claim_at, levels_from,
  build_levels, root_of, proof_from, total_of_entries, claims_from, tree_with, build_merkle_tree,
  verify_proof,
}
use ponswars.Rewards.Merkle.Levels.{levels_climb}

-- The claims of a tree: each is proved, and they stand for the entries in their order.
abbrev pub AreProved : Keccak → ℤ → ℕ → List MerkleEntry → List MerkleClaim → Type 0
AreProved k id root [] [] = Unit {0}
AreProved k id root (e ∷ es) (c ∷ cs) =
    (c.wallet ≡ e.wallet)
    × (c.amount ≡ e.amount)
    × (leaf_of k id e.wallet e.amount ≡ ok c.leaf)
    × (verify_proof k c.leaf c.proof root ≡ true)
    × AreProved k id root es cs
AreProved k id root _ _ = ⊥

eq_test : {a b : ℕ} → a ≡ b → (a == b) ≡ true
eq_test h = ground (arith, h)

after_middle :
    (before : List ℕ) (x : ℕ) (after : List ℕ)
    → get_elem? (before ++ (x ∷ after)) (length before) ≡ some x
after_middle [] x after = refl
after_middle (b ∷ before) x after = after_middle before x after

move_over :
    (before : List ℕ) (x : ℕ) (after : List ℕ)
    → (before ++ (x ∷ [])) ++ after ≡ before ++ (x ∷ after)
move_over [] x after = refl
move_over (b ∷ before) x after = ap (λ l. b ∷ l) (move_over before x after)

length-last : (before : List ℕ) (x : ℕ) → length (before ++ (x ∷ [])) ≡ length before + 1
length-last [] x = refl
length-last (b ∷ before) x = omega (arith, length-last before x)

claim_at-some :
    (levels : List (List ℕ)) (index : ℕ) (e : MerkleEntry) (leaf : Option ℕ) {x : ℕ}
    → leaf ≡ some x
    → claim_at levels index e leaf
      ≡ ok (record {
        wallet = e.wallet;
        amount = e.amount;
        leaf = x;
        proof = proof_from index levels;
      })
unfolding claim_at
claim_at-some levels index e leaf h = ap (claim_at levels index e) h

-- The claims of entries whose leaves are those from an index on.
pub claims_from-AreProved :
    (k : Keccak) (id : ℤ) (leaves before : List ℕ) (entries : List MerkleEntry) {later : List ℕ}
    {root : ℕ}
    → leaves ≡ before ++ later
    → map_result (leaf_of_entry k id) entries ≡ ok later
    → root_of (build_levels k leaves) ≡ some root
    → (cs : List MerkleClaim) × (claims_from (build_levels k leaves) leaves (length before) entries
        ≡ ok cs)
      × AreProved k id root entries cs
unfolding claims_from claim_at verify_proof build_levels
claims_from-AreProved k id leaves before [] s m r = ([], refl, tt)
claims_from-AreProved k id leaves before (e ∷ es) {later = later} {root = root} s m r =
    let (x, f, g) = >>=-eq-ok (leaf_of_entry k id e) _ m in
    let (xs, n, o) = >>=-eq-ok (map_result (leaf_of_entry k id) es) _ g in
    let split : leaves ≡ before ++ (x ∷ xs) = s ∙ ap (λ l. before ++ l) (sym (ok-injective o)) in
    let at : get_elem? leaves (length before) ≡ some x =
      ap (λ l. get_elem? l (length before)) split ∙ after_middle before x xs in
    let climbed = levels_climb k (length leaves) leaves (length before) (omega arith) at r in
    let (cs, c, p) =
      claims_from-AreProved k id leaves (before ++ (x ∷ [])) es {later = xs} {root = root}
        (split ∙ sym (move_over before x xs)) n r in
    let levels = levels_from k (length leaves) leaves in
    let next : claims_from levels leaves (length before + 1) es ≡ ok cs =
      subst (λ i. claims_from levels leaves i es ≡ ok cs) (length-last before x) c in
    (
      record {
        wallet = e.wallet;
        amount = e.amount;
        leaf = x;
        proof = proof_from (length before) levels;
      }
          ∷ cs,
      rw (claim_at-some levels (length before) e (get_elem? leaves (length before)) at, next) refl,
      (refl, refl, f, eq_test climbed, p),
    )

tree_with-AreProved :
    (k : Keccak) (id : ℤ) (entries : List MerkleEntry) (total : ℤ) (leaves : List ℕ)
    (root : Option ℕ) {tree : MerkleTree}
    → map_result (leaf_of_entry k id) entries ≡ ok leaves
    → root_of (build_levels k leaves) ≡ root
    → tree_with entries total leaves (build_levels k leaves) root ≡ ok tree
    → AreProved k id tree.root entries tree.claims
unfolding tree_with
tree_with-AreProved k id entries total leaves none m r h = cc
tree_with-AreProved k id entries total leaves (some root) m r h =
    let (cs, c, p) = claims_from-AreProved k id leaves [] entries refl m r in
    let (ds, d, o) = >>=-eq-ok (claims_from (build_levels k leaves) leaves 0 entries) _ h in
    let same : cs ≡ ds = ok-injective (sym c ∙ d) in
    subst (λ (t : MerkleTree). AreProved k id t.root entries t.claims) (ok-injective o)
      (subst (AreProved k id root entries) same p)

-- Every claim of a tree that `buildMerkleTree` returns stands for its entry, in the order of the
-- entries, and `verifyProof` accepts its leaf and proof against the root of the tree.
pub build_merkle_tree-AreProved :
    (k : Keccak) (distribution_id : ℤ) (entries : List MerkleEntry) {tree : MerkleTree}
    → build_merkle_tree k distribution_id entries ≡ ok tree
    → AreProved k distribution_id tree.root entries tree.claims
unfolding build_merkle_tree
build_merkle_tree-AreProved k id entries {tree = tree} h = elim (Bool-cases (length entries == 0)) [
  | inl e ↦ absurd (let f = rw e at h in cc)
  | inr e ↦
      let (total, _, f) = >>=-eq-ok (total_of_entries [] (pos 0) entries) _ (rw e at h) in
      let (leaves, m, g) = >>=-eq-ok (map_result (leaf_of_entry k id) entries) _ f in
      tree_with-AreProved k id entries total leaves (root_of (build_levels k leaves)) m refl g
]
