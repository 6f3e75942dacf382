-- ===== src/Rewards/Merkle/Inputs.antt =====
-- When `buildMerkleTree` throws (packages/rewards-math/src/merkle.ts).
use ponswars.Base.{
  ℕ, zero, suc, ◌≤◌, ◌<◌, ◌^◌, ◌==◌, ◌≡◌, ◌≢◌, ◌↔◌, refl, ◌∙◌, subst, Bool-cases, inl, inr, any,
  not_any_iff, List, [], ◌∷◌, Option, none, some, All, length, leb, ok, map_result, ok-injective,
  >>=-eq-ok, >>=-Returns, Returns, arith,
}
use ponswars.Base.Int.{ℤ, pos, ◌+ℤ◌, ◌≤ℤ◌, leb_ℤ}
use ponswars.Rewards.Merkle.{
  Keccak, MerkleEntry, IsWord, leaf_of, leaf_of_entry, next_level, levels_from, build_levels,
  root_of, total_of_entries, claims_from, tree_with, build_merkle_tree,
}
use ponswars.Rewards.Merkle.Levels.{length-next_level, levels_from-IsCons, proof_from-cons}
use ponswars.Rewards.Merkle.Proofs.{claims_from-AreProved}

-- Every amount is positive, and no wallet stands twice, nor is one of those seen before.
abbrev pub AreAllocations : List ℕ → List MerkleEntry → Type 0
AreAllocations seen [] = Unit {0}
AreAllocations seen (e ∷ es) =
    All (λ w. w ≢ e.wallet) seen × (pos 1 ≤ℤ e.amount) × AreAllocations (e.wallet ∷ seen) es

total_iff :
    (seen : List ℕ) (total : ℤ) (entries : List MerkleEntry)
    → Returns (total_of_entries seen total entries) ↔ AreAllocations seen entries
unfolding total_of_entries
total_iff seen total [] = (λ _. tt, λ _. (total, refl))
total_iff seen total (e ∷ es) =
    let rec = total_iff (e.wallet ∷ seen) (total +ℤ e.amount) es in
    let fresh = not_any_iff seen e.wallet in
    elim (Bool-cases (any (λ w. w == e.wallet) seen)) [
      | inl a ↦ rw a (λ (_, h). cc, λ (n, _, _). absurd (let b = fresh.1 n in ground (arith, a, b)))
      | inr a ↦ elim (Bool-cases (leb_ℤ e.amount (pos 0))) [
        | inl b ↦ rw (a, b) (λ (_, h). cc, λ (_, p, _). absurd (ground arith))
        | inr b ↦ rw (a, b) (λ h. (fresh.0 a, ground arith, rec.0 h), λ (_, _, h). rec.1 h)
      ]
    ]

single_root :
    (level : List ℕ)
    → 1 ≤ length level
    → length level ≤ 1
    → (r : ℕ) × (root_of (level ∷ []) ≡ some r)
unfolding root_of
single_root [] h l = absurd (omega arith)
single_root (a ∷ []) h l = (a, refl)
single_root (a ∷ (b ∷ level)) h l = absurd (omega arith)

root_exists :
    (k : Keccak) (fuel : ℕ) (level : List ℕ)
    → 1 ≤ length level
    → length level ≤ suc fuel
    → (r : ℕ) × (root_of (levels_from k fuel level) ≡ some r)
unfolding levels_from
root_exists k zero level h l = single_root level h l
root_exists k (suc fuel) level h l = elim (Bool-cases (leb (length level) 1)) [
  | inl e ↦ rw e (single_root level h (ground arith))
  | inr e ↦
      let n = length-next_level k level in
      let (r, f) =
        root_exists k fuel (next_level k level) (ground (arith, n)) (ground (arith, n)) in
      let q =
        (proof_from-cons 0 level (levels_from k fuel (next_level k level))
          (levels_from-IsCons k fuel (next_level k level))).1 in
      rw e (r, q ∙ f)
]

tree_with-Returns :
    (k : Keccak) (id : ℤ) (entries : List MerkleEntry) (total : ℤ) (leaves : List ℕ)
    (root : Option ℕ) (r : ℕ)
    → map_result (leaf_of_entry k id) entries ≡ ok leaves
    → root_of (build_levels k leaves) ≡ some r
    → root ≡ some r
    → Returns (tree_with entries total leaves (build_levels k leaves) root)
unfolding tree_with
tree_with-Returns k id entries total leaves none r m f e = cc
tree_with-Returns k id entries total leaves (some root) r m f e =
    let (cs, c, _) = claims_from-AreProved k id leaves [] entries refl m f in
    >>=-Returns (claims_from (build_levels k leaves) leaves 0 entries) _ (cs, c) (λ _ _. (_, refl))

-- The id, the wallet and the amount of each entry are such that the ABI holds them.
abbrev pub AreEncodable : ℤ → List MerkleEntry → Type 0
AreEncodable id entries = All (λ e. IsWord id × (e.wallet < 2 ^ 160) × IsWord e.amount) entries

leaves_iff :
    (k : Keccak) (id : ℤ) (entries : List MerkleEntry)
    → Returns (map_result (leaf_of_entry k id) entries) ↔ AreEncodable id entries
unfolding leaf_of
leaves_iff k id [] = (λ _. tt, λ _. ([], refl))
leaves_iff k id (e ∷ es) =
    let rest = leaves_iff k id es in
    let one = k.encodes id e.wallet e.amount in
    (
      λ (ls, h).
          let (x, f, g) = >>=-eq-ok (leaf_of_entry k id e) _ h in
          let (bytes, b, _) = >>=-eq-ok (k.encode_abi_parameters id e.wallet e.amount) _ f in
          let (xs, n, _) = >>=-eq-ok (map_result (leaf_of_entry k id) es) _ g in
          (one.0 (bytes, b), rest.0 (xs, n)),
      λ (v, vs).
          >>=-Returns (leaf_of_entry k id e) _
            (>>=-Returns (k.encode_abi_parameters id e.wallet e.amount) _ (one.1 v)
              (λ _ _. (_, refl)))
            (λ _ _.
              >>=-Returns (map_result (leaf_of_entry k id) es) _ (rest.1 vs) (λ _ _. (_, refl))),
    )

length-leaves :
    (k : Keccak) (id : ℤ) (entries : List MerkleEntry) {leaves : List ℕ}
    → map_result (leaf_of_entry k id) entries ≡ ok leaves
    → length leaves ≡ length entries
length-leaves k id [] h = subst (λ (l : List ℕ). length l ≡ 0) (ok-injective h) refl
length-leaves k id (e ∷ es) h =
    let (x, f, g) = >>=-eq-ok (leaf_of_entry k id e) _ h in
    let (xs, n, o) = >>=-eq-ok (map_result (leaf_of_entry k id) es) _ g in
    let rest = length-leaves k id es n in
    subst (λ (l : List ℕ). length l ≡ suc (length es)) (ok-injective o) (omega (arith, rest))

-- `buildMerkleTree` returns a tree exactly for a distribution that has an entry, in which no wallet
-- stands twice and every amount is positive, and whose id and amounts are not negative and below
-- 2 ^ 256, with wallets of twenty bytes; on any other it throws.
pub build_merkle_tree_iff :
    (k : Keccak) (distribution_id : ℤ) (entries : List MerkleEntry)
    → Returns (build_merkle_tree k distribution_id entries)
      ↔ ((1 ≤ length entries) × AreAllocations [] entries × AreEncodable distribution_id entries)
unfolding build_merkle_tree build_levels
build_merkle_tree_iff k id entries = elim (Bool-cases (length entries == 0)) [
  | inl e ↦ rw e (λ (_, h). cc, λ (l, _, _). absurd (ground arith))
  | inr e ↦ rw e (
    λ (t, h).
        let (total, f, g) = >>=-eq-ok (total_of_entries [] (pos 0) entries) _ h in
        let (leaves, m, _) = >>=-eq-ok (map_result (leaf_of_entry k id) entries) _ g in
        (
          ground arith,
          (total_iff [] (pos 0) entries).0 (total, f),
          (leaves_iff k id entries).0 (leaves, m),
        ),
    λ (l, v, w).
        >>=-Returns (total_of_entries [] (pos 0) entries) _ ((total_iff [] (pos 0) entries).1 v)
          (λ total _.
            >>=-Returns (map_result (leaf_of_entry k id) entries) _ ((leaves_iff k id entries).1 w)
              (λ leaves m.
                let same = length-leaves k id entries m in
                let (r, f) =
                  root_exists k (length leaves) leaves (omega (arith, same)) (omega arith) in
                tree_with-Returns k id entries total leaves (root_of (build_levels k leaves)) r m f
                  f)),
  )
]
