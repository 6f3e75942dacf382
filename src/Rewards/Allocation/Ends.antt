-- ===== src/Rewards/Allocation/Ends.antt =====
-- The loop of `allocateDistribution` ends (packages/rewards-math/src/allocation.ts).
use ponswars.Base.{
  ℕ, zero, suc, ◌+◌, ◌≤◌, ◌<◌, ◌≡◌, refl, Bool-cases, inl, inr, true, List, [], ◌∷◌, map, some,
  length, length-map, arith, Returns,
}
use ponswars.Rewards.Allocation.{
  Row, capped_count, free_weight, remaining, share, newly_capped, settle, settle_all,
}

module _ (rest weight cap : ℕ) where
  capped_count_mono :
      (rows : List Row) → capped_count rows ≤ capped_count (map (share rest weight cap) rows)
  unfolding capped_count share
  capped_count_mono [] = omega arith
  capped_count_mono (r ∷ rs) = ground (arith, capped_count_mono rs)

  -- A pass that binds a further wallet counts one more.
  capped_count_grows :
      (rows : List Row)
      → newly_capped rest weight cap rows ≡ true
      → capped_count rows < capped_count (map (share rest weight cap) rows)
  unfolding capped_count share newly_capped
  capped_count_grows [] h = cc
  capped_count_grows (r ∷ rs) h = ground (arith, capped_count_mono rs, capped_count_grows rs)

capped_count-le : (rows : List Row) → capped_count rows ≤ length rows
unfolding capped_count
capped_count-le [] = omega arith
capped_count-le (r ∷ rs) = ground (arith, capped_count-le rs)

settle_total :
    (fuel distributable cap : ℕ) (rows : List Row)
    → length rows < fuel + capped_count rows
    → (out : List Row) × (settle fuel distributable cap rows ≡ some out)
unfolding settle
settle_total zero distributable cap rows h = absurd (omega (arith, capped_count-le rows))
settle_total (suc fuel) distributable cap rows h =
    let rest = remaining distributable cap rows in
    let weight = free_weight rows in
    elim (Bool-cases (newly_capped rest weight cap rows)) [
      | inl e ↦
          let grows = capped_count_grows rest weight cap rows e in
          rw (e, settle)
            (settle_total fuel distributable cap (map (share rest weight cap) rows)
              (omega (arith, grows, length-map (share rest weight cap) rows)))
      | inr e ↦ rw (e, settle) (_, refl)
    ]

-- A pass for each wallet and one more are enough.
pub settle_all-Returns :
    (distributable cap : ℕ) (rows : List Row) → Returns (settle_all distributable cap rows)
unfolding settle_all
settle_all-Returns distributable cap rows =
    let (out, e) = settle_total (suc (length rows)) distributable cap rows (omega arith) in
    (out, rw (e, settle_all))
