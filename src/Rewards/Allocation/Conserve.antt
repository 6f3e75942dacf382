-- ===== src/Rewards/Allocation/Conserve.antt =====
-- Conservation of the pool (packages/rewards-math/src/allocation.ts).
use ponswars.Base.{
  ℕ, zero, suc, ◌+◌, ◌-◌, ◌*◌, ◌≤◌, ◌≡◌, refl, Bool-cases, inl, inr, false, List, [], ◌∷◌, map,
  Option, some, none, if◌then◌else◌, sum_of, ltb, ltb→lt, All, arith,
}
use native.Mathlib.Nat.{div-mul-le_self}
use ponswars.Rewards.Allocation.{
  Row, capped_count, free_weight, remaining, portion, share, newly_capped, settle,
}

-- What a pass gives to the wallets that are not capped yet.
free_amount : ℕ → ℕ → List Row → ℕ
free_amount rest weight [] = 0
free_amount rest weight (r ∷ rs) =
    if r.capped
    then free_amount rest weight rs
    else portion rest weight r.weight + free_amount rest weight rs

portion_le : (rest weight w : ℕ) → portion rest weight w * weight ≤ rest * w
portion_le rest weight w = ground (arith, div-mul-le_self (rest * w) weight)

add_mul_le :
    (p f w a weight rest : ℕ)
    → p * weight ≤ rest * w
    → f * weight ≤ rest * a
    → (p + f) * weight ≤ rest * (w + a)
add_mul_le p f w a weight rest h k = omega arith

free_amount_mul :
    (rest weight : ℕ) (rows : List Row)
    → free_amount rest weight rows * weight ≤ rest * free_weight rows
unfolding free_amount free_weight
free_amount_mul rest weight [] = omega arith
free_amount_mul rest weight (r ∷ rs) = elim (Bool-cases r.capped) [
  | inl e ↦ rw e (free_amount_mul rest weight rs)
  | inr e ↦ rw e (
      add_mul_le _ _ r.weight (free_weight rs) weight rest (portion_le rest weight r.weight)
        (free_amount_mul rest weight rs))
]

free_amount_zero : (rest : ℕ) (rows : List Row) → free_amount rest 0 rows ≡ 0
unfolding free_amount
free_amount_zero rest [] = refl
free_amount_zero rest (r ∷ rs) = ground (arith, free_amount_zero rest rs)

cancel_weight : (f weight rest : ℕ) → f * suc weight ≤ rest * suc weight → f ≤ rest
cancel_weight f weight rest h = grind arith

-- The wallets that are not capped get no more than what remains.
free_amount_le :
    (rest weight : ℕ) (rows : List Row)
    → free_weight rows ≡ weight
    → free_amount rest weight rows ≤ rest
free_amount_le rest zero rows e = rw free_amount_zero (omega arith)
free_amount_le rest (suc weight) rows e =
    let h = free_amount_mul rest (suc weight) rows in cancel_weight _ weight rest (rw e at h)

module _ (rest weight cap : ℕ) where
  -- A pass binds the cap only on wallets that it would give more than the cap.
  capped_count-share :
      (rows : List Row)
      → cap * capped_count (map (share rest weight cap) rows)
        ≤ cap * capped_count rows + free_amount rest weight rows
  unfolding capped_count free_amount share
  capped_count-share [] = omega arith
  capped_count-share (r ∷ rs) =
      let ih = capped_count-share rs in
      elim (Bool-cases r.capped) [
        | inl e ↦ rw e (omega (arith, ih))
        | inr e ↦ elim (Bool-cases (ltb cap (portion rest weight r.weight))) [
          | inl l ↦ rw (e, l) (omega (arith, ih, ltb→lt _ _ l))
          | inr l ↦ rw (e, l) (omega (arith, ih))
        ]
      ]

  -- What a pass that binds no further wallet gives out in all.
  amounts-share :
      (rows : List Row)
      → newly_capped rest weight cap rows ≡ false
      → sum_of (λ (r : Row). r.amount) (map (share rest weight cap) rows)
        ≡ cap * capped_count rows + free_amount rest weight rows
  unfolding capped_count free_amount share newly_capped
  amounts-share [] h = omega arith
  amounts-share (r ∷ rs) h =
      let ih = amounts-share rs (ground arith) in
      elim (Bool-cases r.capped) [
        | inl e ↦ rw e (omega (arith, ih))
        | inr e ↦ rw e (omega (arith, ih))
      ]

  -- After such a pass no wallet has more than the cap.
  share-le-cap :
      (rows : List Row)
      → newly_capped rest weight cap rows ≡ false
      → All (λ (r : Row). r.amount ≤ cap) (map (share rest weight cap) rows)
  unfolding share newly_capped
  share-le-cap [] h = tt
  share-le-cap (r ∷ rs) h = (ground arith, share-le-cap rs (ground arith))

-- The capped wallets can be paid the cap.
abbrev pub CanPay : ℕ → ℕ → List Row → Type 0
CanPay distributable cap rows = cap * capped_count rows ≤ distributable

-- What the loop ends on: no amount above the cap, and no more in all than there is.
pub record IsSettled (distributable cap : ℕ) (rows : List Row) : Type 0 where
  pub within_cap : All (λ (r : Row). r.amount ≤ cap) rows
  pub within_pool : sum_of (λ (r : Row). r.amount) rows ≤ distributable

abbrev pub SettledTo : ℕ → ℕ → Option (List Row) → Type 0
SettledTo distributable cap none = Unit {0}
SettledTo distributable cap (some rows) = IsSettled distributable cap rows

pass-CanPay :
    (distributable cap : ℕ) (rows : List Row)
    → CanPay distributable cap rows
    → let rest = remaining distributable cap rows in
      CanPay distributable cap (map (share rest (free_weight rows) cap) rows)
unfolding remaining
pass-CanPay distributable cap rows h =
    let rest = distributable - cap * capped_count rows in
    omega (
      arith,
      capped_count-share rest (free_weight rows) cap rows,
      free_amount_le rest (free_weight rows) rows refl,
    )

last-IsSettled :
    (distributable cap : ℕ) (rows : List Row)
    → CanPay distributable cap rows
    → let rest = remaining distributable cap rows in
      newly_capped rest (free_weight rows) cap rows ≡ false
      → IsSettled distributable cap (map (share rest (free_weight rows) cap) rows)
unfolding remaining
last-IsSettled distributable cap rows h n =
    let rest = distributable - cap * capped_count rows in
    record {
      within_cap = share-le-cap rest (free_weight rows) cap rows n;
      within_pool = omega (
        arith,
        amounts-share rest (free_weight rows) cap rows n,
        free_amount_le rest (free_weight rows) rows refl,
      );
    }

pub settle-SettledTo :
    (fuel distributable cap : ℕ) (rows : List Row)
    → CanPay distributable cap rows
    → SettledTo distributable cap (settle fuel distributable cap rows)
unfolding settle
settle-SettledTo zero distributable cap rows h = tt
settle-SettledTo (suc fuel) distributable cap rows h =
    elim (Bool-cases
      (newly_capped (remaining distributable cap rows) (free_weight rows) cap rows)) [
        | inl e ↦
            rw (e, settle)
              (settle-SettledTo fuel distributable cap _ (pass-CanPay distributable cap rows h))
        | inr e ↦ rw (e, settle) (last-IsSettled distributable cap rows h e)
      ]
