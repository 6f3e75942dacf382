-- ===== src/Rewards/Allocation/Payout.antt =====
-- What a distribution keeps to (packages/rewards-math/src/allocation.ts).
use ponswars.Base.{
  ℕ, suc, ◌+◌, ◌*◌, ◌/◌, ◌≤◌, ◌<◌, ◌≡◌, ◌⊎◌, refl, Bool-cases, inl, inr, List, [], ◌∷◌, map, some,
  none, Option, length, leb, leb→le, ◌==◌, ◌||◌, select, arith, Result, ok, err, out_of_fuel,
  range_error, ok-injective, subst, sum_of, All,
}
use ponswars.Base.Int.{pos, pos_part, ltb_ℤ, ◌≤ℤ◌}
use ponswars.Shared.Money.{apply_basis_points, mul_div_floor}
use ponswars.Rewards.Allocation.{
  Row, Standing, WalletAllocation, AllocationInput, AllocationResult, capped_count, settle,
  settle_all, allocation_of, result_of, empty_result, allocate_checked, allocate_distribution,
  row_of, sort_standings, qualifies_for_distribution,
}
use ponswars.Rewards.Allocation.Standings.{IsValidStandings, standing_of, check_standings_cases}
use ponswars.Rewards.Allocation.Ends.{settle_all-Returns}
use ponswars.Rewards.Allocation.Conserve.{CanPay, IsSettled, SettledTo, settle-SettledTo}

-- An amount is nothing or at least the claim threshold, and within the cap of 2% of the
-- distributable amount.
pub record IsPayable (minimum_claim distributable : ℕ) (a : WalletAllocation) : Type 0 where
  pub claimable : (a.amount ≡ 0) ⊎ (minimum_claim ≤ a.amount)
  pub carried : (a.carried_forward ≡ 0) ⊎ (a.amount ≡ 0)
  pub within_cap : (a.amount + a.carried_forward) * 10_000 ≤ distributable * 200

pub record IsAllocation (pool minimum_claim : ℕ) (r : AllocationResult) : Type 0 where
  pub conserved : r.total_allocated + r.carried_forward ≡ pool
  pub total : r.total_allocated ≡ sum_of (λ (a : WalletAllocation). a.amount) r.allocations
  pub within_share : r.total_allocated ≤ r.distributable
  pub share :
      (r.distributable * 10_000 ≤ pool * 8_000) × (pool * 8_000 < (r.distributable + 1) * 10_000)
  pub payable : All (IsPayable minimum_claim r.distributable) r.allocations

settle_all-IsSettled :
    (distributable cap : ℕ) (rows : List Row) {out : List Row}
    → CanPay distributable cap rows
    → settle_all distributable cap rows ≡ ok out
    → IsSettled distributable cap out
unfolding settle_all
settle_all-IsSettled distributable cap rows {out} h e =
    go (settle (suc (length rows)) distributable cap rows)
      (settle-SettledTo (suc (length rows)) distributable cap rows h) e
  where
    go :
        (o : Option (List Row))
        → SettledTo distributable cap o
        → (elim o as (λ _. Result (List Row)) [ none ↦ err out_of_fuel | some s ↦ ok s ]) ≡ ok out
        → IsSettled distributable cap out
    go none s p = cc
    go (some s) t p = subst (IsSettled distributable cap) (ok-injective p) t

row-IsPayable :
    (minimum_claim distributable cap : ℕ) (r : Row)
    → cap * 10_000 ≤ distributable * 200
    → r.amount ≤ cap
    → IsPayable minimum_claim distributable (allocation_of minimum_claim r)
unfolding allocation_of
row-IsPayable m d cap r h a = elim (Bool-cases (leb m r.amount)) [
  | inl e ↦ rw e (record {
    claimable = inr (leb→le m r.amount e);
    carried = inl refl;
    within_cap = omega arith;
  })
  | inr e ↦ rw e (record { claimable = inl refl; carried = inr refl; within_cap = omega arith })
]

allocation-IsPayable :
    (minimum_claim distributable cap : ℕ) (rows : List Row)
    → cap * 10_000 ≤ distributable * 200
    → All (λ (r : Row). r.amount ≤ cap) rows
    → All (IsPayable minimum_claim distributable) (map (allocation_of minimum_claim) rows)
unfolding allocation_of
allocation-IsPayable m d cap [] h a = tt
allocation-IsPayable m d cap (r ∷ rs) h a =
    (row-IsPayable m d cap r h a.0, allocation-IsPayable m d cap rs h a.1)

amounts_le :
    (minimum_claim : ℕ) (rows : List Row)
    → sum_of (λ (a : WalletAllocation). a.amount) (map (allocation_of minimum_claim) rows)
      ≤ sum_of (λ (r : Row). r.amount) rows
unfolding allocation_of
amounts_le m [] = omega arith
amounts_le m (r ∷ rs) = ground (arith, amounts_le m rs)

bps_lem : (amount bps : ℕ) → apply_basis_points amount bps ≡ ok (amount * bps / 10_000)
unfolding apply_basis_points mul_div_floor
bps_lem amount bps = refl

fresh_count : (ss : List Standing) → capped_count (map row_of ss) ≡ 0
unfolding capped_count row_of
fresh_count [] = refl
fresh_count (s ∷ ss) = fresh_count ss

fresh-CanPay :
    (distributable cap : ℕ) (ss : List Standing) → CanPay distributable cap (map row_of ss)
fresh-CanPay distributable cap ss = rw (fresh_count ss) (omega arith)

settled-IsAllocation :
    (pool minimum_claim unqualified : ℕ) (rows : List Row)
    → let d = pool * 8_000 / 10_000 in
      IsSettled d (d * 200 / 10_000) rows
      → IsAllocation pool minimum_claim (result_of pool d minimum_claim unqualified rows)
unfolding result_of
settled-IsAllocation pool m u rows s =
    let d = pool * 8_000 / 10_000 in
    let t = amounts_le m rows in
    let w = s.within_pool in
    record {
      conserved = omega arith;
      total = refl;
      within_share = omega arith;
      share = (omega arith, omega arith);
      payable = allocation-IsPayable m d (d * 200 / 10_000) rows (omega arith) s.within_cap;
    }

empty-IsAllocation :
    (pool minimum_claim unqualified : ℕ)
    → IsAllocation pool minimum_claim (empty_result pool (pool * 8_000 / 10_000) unqualified)
unfolding empty_result
empty-IsAllocation pool m u = record {
  conserved = omega arith;
  total = refl;
  within_share = omega arith;
  share = (omega arith, omega arith);
  payable = tt;
}

pub checked-IsAllocation :
    (pool minimum_claim : ℕ) (ss : List Standing)
    → (r : AllocationResult) × (allocate_checked pool minimum_claim ss ≡ ok r)
      × IsAllocation pool minimum_claim r
unfolding allocate_checked
checked-IsAllocation pool m ss =
    let d = pool * 8_000 / 10_000 in
    let qualified = select (λ (s : Standing). qualifies_for_distribution s.war_points) ss in
    let rows = map row_of (sort_standings qualified) in
    let (out, e) = settle_all-Returns d (d * 200 / 10_000) rows in
    let s =
      settle_all-IsSettled d (d * 200 / 10_000) rows (fresh-CanPay d _ (sort_standings qualified))
        e in
    rw (bps_lem pool 8_000) (elim (Bool-cases ((length qualified == 0) || (d == 0))) [
      | inl t ↦ rw t (_, refl, empty-IsAllocation pool m _)
      | inr t ↦ rw (t, bps_lem d 200, e) (_, refl, settled-IsAllocation pool m _ out s)
    ])

-- What a distribution promises, whether it returns or throws.
abbrev pub Distributed : AllocationInput → Result AllocationResult → Type 0
Distributed input (ok r) =
    (pos 0 ≤ℤ input.pool_balance)
    × (pos 0 ≤ℤ input.minimum_claim)
    × IsValidStandings input.standings
    × IsAllocation (pos_part input.pool_balance) (pos_part input.minimum_claim) r
Distributed input (err e) =
    (e ≡ range_error)
    × ¬ (
        (pos 0 ≤ℤ input.pool_balance)
        × (pos 0 ≤ℤ input.minimum_claim)
        × IsValidStandings input.standings)

-- A distribution of a valid input always ends and conserves the pool: what is allocated and what is
-- carried forward add up to the pool exactly, what is allocated is within the distributable 80%
-- (floored), and no wallet's amount exceeds 2% of that or falls, unless it is zero, below the claim
-- threshold; an amount below the threshold is carried forward instead. It throws a RangeError
-- exactly when the pool or the threshold is negative, a wallet stands twice, or a count is negative.
pub allocate_distribution-Distributed :
    (input : AllocationInput) → Distributed input (allocate_distribution input)
unfolding allocate_distribution
allocate_distribution-Distributed input = elim (Bool-cases (ltb_ℤ input.pool_balance (pos 0))) [
  | inl e ↦ rw e (refl, λ h. let p = h.0 in ground arith)
  | inr e ↦ elim (Bool-cases (ltb_ℤ input.minimum_claim (pos 0))) [
    | inl f ↦ rw (e, f) (refl, λ h. let p = h.1 in ground arith)
    | inr f ↦ elim (check_standings_cases input.standings) [
      | inl (v, g) ↦
          let (r, p, a) =
            checked-IsAllocation (pos_part input.pool_balance) (pos_part input.minimum_claim)
              (map standing_of input.standings) in
          rw (e, f, g, p) (ground arith, ground arith, v, a)
      | inr (n, g) ↦ rw (e, f, g) (refl, λ h. n h.2)
    ]
  ]
]
