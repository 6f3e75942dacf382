-- ===== src/Rewards/Merkle/Levels.antt =====
-- The levels of a tree and the proofs through them (packages/rewards-math/src/merkle.ts).
use ponswars.Base.{
  ℕ, zero, suc, ◌+◌, ◌/◌, ◌≤◌, ◌≡◌, refl, sym, ◌∙◌, Bool-cases, inl, inr, List, [], ◌∷◌, Option,
  none, some, length, get_elem?, ltb, leb, arith,
}
use ponswars.Rewards.Merkle.{
  Keccak, hash_pair, next_level, levels_from, root_of, sibling_index, push_sibling, proof_from,
  climb,
}

hash_pair_comm : (k : Keccak) (a b : ℕ) → hash_pair k a b ≡ hash_pair k b a
unfolding hash_pair
hash_pair_comm k a b = elim (Bool-cases (ltb a b)) [
  | inl e ↦ elim (Bool-cases (ltb b a)) [ inl f ↦ absurd (ground arith) | inr f ↦ rw (e, f) refl ]
  | inr e ↦ elim (Bool-cases (ltb b a)) [
    | inl f ↦ rw (e, f) refl
    | inr f ↦ let same : a ≡ b = ground arith in rw same refl
  ]
]

-- One step of a proof: a node with its sibling, if it has one.
climb_step : Keccak → ℕ → Option ℕ → ℕ
climb_step k x none = x
climb_step k x (some s) = hash_pair k x s

sibling_shift : (i : ℕ) → sibling_index (suc (suc i)) ≡ suc (suc (sibling_index i))
unfolding sibling_index
sibling_shift i = ground arith

half_shift : (i : ℕ) → suc (suc i) / 2 ≡ suc (i / 2)
half_shift i = omega arith

sibling_zero : sibling_index 0 ≡ 1
unfolding sibling_index
sibling_zero = refl

sibling_one : sibling_index 1 ≡ 0
unfolding sibling_index
sibling_one = refl

-- The node above a node is its step.
next_level-get_elem? :
    (k : Keccak) (level : List ℕ) (i : ℕ) {x : ℕ}
    → get_elem? level i ≡ some x
    → get_elem? (next_level k level) (i / 2)
      ≡ some (climb_step k x (get_elem? level (sibling_index i)))
unfolding next_level climb_step
next_level-get_elem? k [] i h = cc
next_level-get_elem? k (a ∷ []) zero h = rw sibling_zero h
next_level-get_elem? k (a ∷ []) (suc i) h = cc
next_level-get_elem? k (a ∷ (b ∷ rest)) zero {x = x} h =
    let e : a ≡ x = cc in rw (sibling_zero, sym e) refl
next_level-get_elem? k (a ∷ (b ∷ rest)) (suc zero) {x = x} h =
    let e : b ≡ x = cc in rw (sibling_one, sym e, hash_pair_comm k b a) refl
next_level-get_elem? k (a ∷ (b ∷ rest)) (suc (suc i)) h =
    rw (half_shift i, sibling_shift i) (next_level-get_elem? k rest i h)

pub length-next_level :
    (k : Keccak) (level : List ℕ) → length (next_level k level) ≡ (length level + 1) / 2
unfolding next_level
length-next_level k [] = refl
length-next_level k (a ∷ []) = refl
length-next_level k (a ∷ (b ∷ rest)) = omega (arith, length-next_level k rest)

climb-push_sibling :
    (k : Keccak) (x : ℕ) (s : Option ℕ) (proof : List ℕ)
    → climb k x (push_sibling s proof) ≡ climb k (climb_step k x s) proof
unfolding climb push_sibling climb_step
climb-push_sibling k x none proof = refl
climb-push_sibling k x (some s) proof = refl

abbrev pub IsCons : List (List ℕ) → Type 0
IsCons [] = ⊥
IsCons (level ∷ levels) = Unit {0}

pub levels_from-IsCons :
    (k : Keccak) (fuel : ℕ) (level : List ℕ) → IsCons (levels_from k fuel level)
unfolding levels_from
levels_from-IsCons k zero level = tt
levels_from-IsCons k (suc fuel) level = elim (Bool-cases (leb (length level) 1)) [
  | inl e ↦ rw e tt
  | inr e ↦ rw e tt
]

pub proof_from-cons :
    (i : ℕ) (level : List ℕ) (levels : List (List ℕ))
    → IsCons levels
    → (proof_from i (level ∷ levels)
        ≡ push_sibling (get_elem? level (sibling_index i)) (proof_from (i / 2) levels))
      × (root_of (level ∷ levels) ≡ root_of levels)
unfolding proof_from root_of
proof_from-cons i level (above ∷ rest) c = (refl, refl)
proof_from-cons i level [] c = absurd c

-- In a level of one node there is nothing to climb.
single_climb :
    (k : Keccak) (level : List ℕ) (i : ℕ) {x root : ℕ}
    → length level ≤ 1
    → get_elem? level i ≡ some x
    → root_of (level ∷ []) ≡ some root
    → climb k x (proof_from i (level ∷ [])) ≡ root
unfolding climb proof_from root_of
single_climb k [] i l h r = cc
single_climb k (a ∷ []) zero l h r = cc
single_climb k (a ∷ []) (suc i) l h r = cc
single_climb k (a ∷ (b ∷ level)) i l h r = absurd (omega arith)

-- A node at a position of a level, with the proof from there, leads to the root.
pub levels_climb :
    (k : Keccak) (fuel : ℕ) (level : List ℕ) (i : ℕ) {x root : ℕ}
    → length level ≤ suc fuel
    → get_elem? level i ≡ some x
    → root_of (levels_from k fuel level) ≡ some root
    → climb k x (proof_from i (levels_from k fuel level)) ≡ root
unfolding levels_from
levels_climb k zero level i l h r = single_climb k level i l h r
levels_climb k (suc fuel) level i {x = x} {root = root} l h r =
    elim (Bool-cases (leb (length level) 1)) [
      | inl e ↦ rw e (single_climb k level i (ground arith) h (rw e at r))
      | inr e ↦
          let above = levels_from k fuel (next_level k level) in
          let (p, q) =
            proof_from-cons i level above (levels_from-IsCons k fuel (next_level k level)) in
          let s = get_elem? level (sibling_index i) in
          let small : length (next_level k level) ≤ suc fuel =
            ground (arith, length-next_level k level) in
          let up : root_of above ≡ some root = sym q ∙ (rw e at r) in
          rw (e, p, climb-push_sibling k x s (proof_from (i / 2) above))
            (levels_climb k fuel (next_level k level) (i / 2) small
              (next_level-get_elem? k level i h) up)
    ]
