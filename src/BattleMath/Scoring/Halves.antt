-- ===== src/BattleMath/Scoring/Halves.antt =====
-- Splitting a weight by an edge (`splitByEdge` in packages/battle-math/src/scoring.ts).
use ponswars.Base.{ℕ, ◌≤◌, ◌*◌, ◌-◌, ◌/◌, ◌≡◌, refl, arith}
use ponswars.Base.Int.{ℤ, pos, ◌+ℤ◌, ◌-ℤ◌, negate, int_laws, parts_disjoint, pos_part}
use native.Mathlib.Nat.{div-le_of_le-mul, mul-le-mul_left}
use ponswars.BattleMath.Scale.{ratio_scale, clamp_unit}
use ponswars.BattleMath.Scale.Rounding.{clamp_unit_bounds, quotient_pos, mul_pos, nonneg_pos}
use ponswars.BattleMath.Scoring.{split_by_edge}

-- The share of the left side in two-millionths of the weight: it is at most the whole.
abbrev pub left_share : ℤ → ℕ
left_share e = pos_part (pos ratio_scale +ℤ clamp_unit e)

left_share_le : (e : ℤ) → left_share e ≤ 2_000_000
left_share_le e =
    let x = pos ratio_scale +ℤ clamp_unit e in
    omega (negate, int_laws, parts_disjoint, clamp_unit_bounds e, parts_disjoint x)

pub split-left :
    (n : ℕ) (e : ℤ) → (split_by_edge (pos n) e).left ≡ pos (n * left_share e / 2_000_000)
unfolding split_by_edge
split-left n e =
    rw
      (
        nonneg_pos (pos ratio_scale +ℤ clamp_unit e)
            (omega (negate, int_laws, parts_disjoint, clamp_unit_bounds e)),
        mul_pos,
      )
      (quotient_pos _ _)

share_le : (n m : ℕ) → m ≤ 2_000_000 → n * m / 2_000_000 ≤ n
share_le n m h = div-le_of_le-mul 2_000_000 (omega (arith, mul-le-mul_left n h))

-- The half that the left side gets of a weight.
abbrev pub left_half : ℕ → ℤ → ℕ
left_half w e = w * left_share e / 2_000_000

pub left_half_le : (w : ℕ) (e : ℤ) → left_half w e ≤ w
left_half_le w e = share_le w (left_share e) (left_share_le e)

split-rest : (w e : ℤ) → (split_by_edge w e).right ≡ w -ℤ (split_by_edge w e).left
unfolding split_by_edge
split-rest w e = refl

pub split-right : (w : ℕ) (e : ℤ) → (split_by_edge (pos w) e).right ≡ pos (w - left_half w e)
split-right w e = rw (split-rest (pos w) e, split-left w e) (omega (int_laws, left_half_le w e))
