-- ===== src/Rewards/Allocation.antt =====
-- packages/rewards-math/src/allocation.ts: the 24-hour distribution. A wallet address is the number
-- that its hexadecimal digits name, so `<` on addresses is `<` on numbers.
pub mod Conserve
pub mod Ends
pub mod Payout
pub mod Standings
pub mod Ordered
use ponswars.Base.{
  ℕ, zero, suc, ◌+◌, ◌-◌, ◌*◌, ◌/◌, ◌==◌, ◌&&◌, ◌||◌, not, ltb, leb, Bool, true, false, List, [],
  ◌∷◌, map, Option, none, some, Result, ok, err, range_error, out_of_fuel, ◌>>=◌, if◌then◌else◌,
  length, select, any, sum_of,
}
use ponswars.Base.Int.{ℤ, pos, negsuc, pos_part, ltb_ℤ}
use ponswars.Shared.Money.{apply_basis_points, sqrt_ℕ}

-- `MIN_QUALIFYING_WP`, `POOL_DISTRIBUTABLE_BPS`, `PER_WALLET_CAP_BPS` and `REWARD_WEIGHT_SCALE`.
abbrev pub min_qualifying_wp : ℕ
min_qualifying_wp = 50

abbrev pub pool_distributable_bps : ℕ
pool_distributable_bps = 8_000

abbrev pub per_wallet_cap_bps : ℕ
per_wallet_cap_bps = 200

abbrev pub reward_weight_scale : ℕ
reward_weight_scale = 1_000_000_000

-- `rewardWeight` of a count that is not negative.
unfoldable pub reward_weight : ℕ → ℕ
reward_weight war_points = sqrt_ℕ (war_points * reward_weight_scale * reward_weight_scale)

abbrev pub qualifies_for_distribution : ℕ → Bool
qualifies_for_distribution window_war_points = leb min_qualifying_wp window_war_points

pub record WalletStanding : Type 0 where
  pub wallet : ℕ
  pub window_war_points : ℤ

-- A standing that has passed the checks.
pub record Standing : Type 0 where
  pub wallet : ℕ
  pub war_points : ℕ

pub record WalletAllocation : Type 0 where
  pub wallet : ℕ
  pub window_war_points : ℕ
  pub weight : ℕ
  pub amount : ℕ
  pub capped : Bool
  pub carried_forward : ℕ

pub record AllocationInput : Type 0 where
  pub pool_balance : ℤ
  pub standings : List WalletStanding
  pub minimum_claim : ℤ

pub record AllocationResult : Type 0 where
  pub allocations : List WalletAllocation
  pub distributable : ℕ
  pub carried_forward : ℕ
  pub total_allocated : ℕ
  pub total_weight : ℕ
  pub capped_wallet_count : ℕ
  pub unqualified_wallet_count : ℕ

-- `seen.has(wallet)`
abbrev pub has_wallet : ℕ → List ℕ → Bool
has_wallet wallet seen = any (λ w. w == wallet) seen

-- The loop that checks the standings: no wallet twice, no negative count.
unfoldable pub check_standings : List ℕ → List WalletStanding → Result (List Standing)
check_standings seen [] = ok []
check_standings seen (s ∷ rest) =
    let checked = check_standings (s.wallet ∷ seen) rest in
    if has_wallet s.wallet seen
    then err range_error
    else if ltb_ℤ s.window_war_points (pos 0)
    then err range_error
    else (checked >>= λ ss.
        ok (record { wallet = s.wallet; war_points = pos_part s.window_war_points } ∷ ss))

-- The comparator: more War Points first, then the lower address.
abbrev pub before : Standing → Standing → Bool
before a b =
    if a.war_points == b.war_points then ltb a.wallet b.wallet else ltb b.war_points a.war_points

-- `Array.prototype.sort` by that comparator.
unfoldable pub insert_standing : Standing → List Standing → List Standing
insert_standing a [] = a ∷ []
insert_standing a (b ∷ bs) = if before b a then b ∷ insert_standing a bs else a ∷ (b ∷ bs)

unfoldable pub sort_standings : List Standing → List Standing
unfolding insert_standing
sort_standings [] = []
sort_standings (a ∷ as') = insert_standing a (sort_standings as')

-- One wallet in the loop: its entries in the maps `weights` and `amounts` and the set `capped`.
pub record Row : Type 0 where
  pub wallet : ℕ
  pub war_points : ℕ
  pub weight : ℕ
  pub amount : ℕ
  pub capped : Bool

unfoldable pub row_of : Standing → Row
row_of s = record {
  wallet = s.wallet;
  war_points = s.war_points;
  weight = reward_weight s.war_points;
  amount = 0;
  capped = false;
}

unfoldable pub capped_count : List Row → ℕ
capped_count [] = 0
capped_count (r ∷ rs) = if r.capped then capped_count rs + 1 else capped_count rs

-- The weight of the wallets that the cap has not bound.
unfoldable pub free_weight : List Row → ℕ
free_weight [] = 0
free_weight (r ∷ rs) = if r.capped then free_weight rs else r.weight + free_weight rs

-- What the capped wallets leave. Subtraction stops at zero, as the source's test makes it do.
unfoldable pub remaining : ℕ → ℕ → List Row → ℕ
unfolding capped_count
remaining distributable cap rows = distributable - cap * capped_count rows

-- A wallet's proportional part of what remains.
abbrev pub portion : ℕ → ℕ → ℕ → ℕ
portion remaining remaining_weight weight =
    if remaining_weight == 0 then 0 else remaining * weight / remaining_weight

unfoldable pub share : ℕ → ℕ → ℕ → Row → Row
share remaining remaining_weight cap r = if r.capped then record r { amount = cap } else record r {
  amount = portion remaining remaining_weight r.weight;
  capped = ltb cap (portion remaining remaining_weight r.weight);
}

-- Whether sharing binds the cap on one more wallet.
unfoldable pub newly_capped : ℕ → ℕ → ℕ → List Row → Bool
newly_capped remaining remaining_weight cap [] = false
newly_capped remaining remaining_weight cap (r ∷ rs) =
    (not r.capped && ltb cap (portion remaining remaining_weight r.weight))
    || newly_capped remaining remaining_weight cap rs

-- The passes of the loop. `none` means that the fuel has run out.
unfoldable pub settle : ℕ → ℕ → ℕ → List Row → Option (List Row)
unfolding share remaining free_weight newly_capped
settle zero distributable cap rows = none
settle (suc fuel) distributable cap rows =
    let rest = remaining distributable cap rows in
    let weight = free_weight rows in
    let next = map (share rest weight cap) rows in
    elim (newly_capped rest weight cap rows) [
      | true ↦ settle fuel distributable cap next
      | false ↦ some next
    ]

unfoldable pub allocation_of : ℕ → Row → WalletAllocation
allocation_of minimum_claim r =
    let claimable = leb minimum_claim r.amount in
    record {
      wallet = r.wallet;
      window_war_points = r.war_points;
      weight = r.weight;
      amount = if claimable then r.amount else 0;
      capped = r.capped;
      carried_forward = if claimable then 0 else r.amount;
    }

-- The result once the loop has settled on its rows.
unfoldable pub result_of : ℕ → ℕ → ℕ → ℕ → List Row → AllocationResult
unfolding allocation_of capped_count
result_of pool distributable minimum_claim unqualified rows =
    let allocations = map (allocation_of minimum_claim) rows in
    let total_allocated = sum_of (λ (a : WalletAllocation). a.amount) allocations in
    record {
      allocations = allocations;
      distributable = distributable;
      carried_forward = pool - total_allocated;
      total_allocated = total_allocated;
      total_weight = sum_of (λ (r : Row). r.weight) rows;
      capped_wallet_count = capped_count rows;
      unqualified_wallet_count = unqualified;
    }

-- The result when there is nothing to divide, or nobody to divide it among.
unfoldable pub empty_result : ℕ → ℕ → ℕ → AllocationResult
empty_result pool distributable unqualified = record {
  allocations = [];
  distributable = distributable;
  carried_forward = pool;
  total_allocated = 0;
  total_weight = 0;
  capped_wallet_count = 0;
  unqualified_wallet_count = unqualified;
}

-- The loop, with a pass for each wallet that the cap could bind and one more.
unfoldable pub settle_all : ℕ → ℕ → List Row → Result (List Row)
unfolding settle
settle_all distributable cap rows = elim (settle (suc (length rows)) distributable cap rows) [
  | none ↦ err out_of_fuel
  | some settled ↦ ok settled
]

-- From the checked standings to the result.
unfoldable pub allocate_checked : ℕ → ℕ → List Standing → Result AllocationResult
allocate_checked pool minimum_claim standings =
    apply_basis_points pool pool_distributable_bps >>= λ distributable.
    let qualified = select (λ s. qualifies_for_distribution s.war_points) standings in
    let unqualified = length standings - length qualified in
    if (length qualified == 0) || (distributable == 0)
    then ok (empty_result pool distributable unqualified)
    else (apply_basis_points distributable per_wallet_cap_bps >>= λ cap.
        settle_all distributable cap (map row_of (sort_standings qualified)) >>= λ rows.
        ok (result_of pool distributable minimum_claim unqualified rows))

unfoldable pub allocate_distribution : AllocationInput → Result AllocationResult
allocate_distribution input =
    if ltb_ℤ input.pool_balance (pos 0)
    then err range_error
    else if ltb_ℤ input.minimum_claim (pos 0)
    then err range_error
    else (check_standings [] input.standings >>= λ standings.
        allocate_checked (pos_part input.pool_balance) (pos_part input.minimum_claim) standings)
