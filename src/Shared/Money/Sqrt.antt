-- ===== src/Shared/Money/Sqrt.antt =====
-- `integerSqrt` of packages/shared-types/src/money.ts: Newton's loop ends on the floor of the root.
use mathlib.Core.WellFounded.{Acc}
use mathlib.Core.Logic.{dif_pos, dif_neg}
use ponswars.Base.{
  ℕ, zero, suc, ◌+◌, ◌*◌, ◌/◌, ◌-◌, ◌≤◌, ◌<◌, ◌≡◌, refl, inl, inr, dec_lt, arith, leb, Bool-cases,
  leb→le, Result, ok, err, range_error,
}
use ponswars.Base.Int.{ℤ, pos, negsuc}
use ponswars.Base.Order.{lt_wf}
use ponswars.Shared.Money.{sqrt_loop, sqrt_ℕ, integer_sqrt}
use native.Mathlib.Bridge.{le_prop}
use native.Mathlib.Nat.{div_self, lt-mul-div-succ, mul-le-mul, mul-le-mul_left, mul-div-le}

-- `r` is the largest number whose square is at most `v`.
abbrev pub IsFloorRoot : ℕ → ℕ → Type 0
IsFloorRoot v r = (r * r ≤ v) × (v < (r + 1) * (r + 1))

square_sum_le : (x d : ℕ) → 4 * (x * (x + d)) ≤ (x + (x + d)) * (x + (x + d))
square_sum_le x d = omega arith

-- Four times a product is at most the square of the sum.
square_sum : (x y : ℕ) → 4 * (x * y) ≤ (x + y) * (x + y)
square_sum x y = elim (Bool-cases (leb x y)) [
  | inl e ↦ let k : y ≡ x + (y - x) = ground arith in rw k (square_sum_le x (y - x))
  | inr e ↦
      let k : x ≡ y + (x - y) = ground arith in
      let h = square_sum_le y (x - y) in rw k (omega (arith, h))
]

newton_parts : (v c q n : ℕ) → v < c * (q + 1) → c + (q + 1) ≤ 2 * (n + 1) → v < (n + 1) * (n + 1)
newton_parts v c q n h k = omega (arith, square_sum c (q + 1), mul-le-mul k k)

-- A Newton step never falls below the root.
newton_upper : (v c : ℕ) → 0 < c → v < ((c + v / c) / 2 + 1) * ((c + v / c) / 2 + 1)
newton_upper v c h = newton_parts v c (v / c) ((c + v / c) / 2) (lt-mul-div-succ v h) (omega arith)

-- Where the step does not go down, the root is reached.
newton_lower : (v p : ℕ) → 0 < p → p ≤ (p + v / p) / 2 → p * p ≤ v
newton_lower v p h k =
    let below : p ≤ v / p = omega arith in omega (arith, mul-le-mul_left p below, mul-div-le v p)

root_pos : (v n : ℕ) → 2 ≤ v → v < (n + 1) * (n + 1) → 0 < n
root_pos v zero two h = absurd (omega arith)
root_pos v (suc n) two h = omega arith

sqrt_loop-IsFloorRoot :
    (value previous : ℕ) (w : Acc ◌<◌ previous)
    → 2 ≤ value
    → 0 < previous
    → value < (previous + 1) * (previous + 1)
    → IsFloorRoot value (sqrt_loop value previous ((previous + value / previous) / 2) w)
unfolding sqrt_loop
sqrt_loop-IsFloorRoot value previous (Acc.intro _ smaller) two h u =
    let upper = newton_upper value previous h in
    elim (dec_lt ((previous + value / previous) / 2) previous) [
      | yes less ↦ rw (dif_pos _ le_prop less) (
          sqrt_loop-IsFloorRoot value ((previous + value / previous) / 2) (smaller _ less) two
            (root_pos value _ two upper) upper)
      | no more ↦ rw (dif_neg _ more) (newton_lower value previous h (omega arith), u)
    ]

half_start : (v : ℕ) → 2 ≤ v → (v + 1) / 2 ≡ (v + v / v) / 2
half_start v two = rw (div_self {n = v} (omega arith))

sqrt_loop_start :
    (v c : ℕ) (w : Acc ◌<◌ v) → 2 ≤ v → c ≡ (v + 1) / 2 → IsFloorRoot v (sqrt_loop v v c w)
sqrt_loop_start v c w two e =
    rw (e, half_start v two) (sqrt_loop-IsFloorRoot v v w two (omega arith) (omega arith))

sqrt_small : (k : ℕ) → k < 2 → IsFloorRoot k k
sqrt_small zero h = omega arith
sqrt_small (suc zero) h = omega arith
sqrt_small (suc (suc k)) h = absurd (omega arith)

sqrt_ℕ-IsFloorRoot : (v : ℕ) → IsFloorRoot v (sqrt_ℕ v)
unfolding sqrt_ℕ
sqrt_ℕ-IsFloorRoot v = elim (Bool-cases (leb 2 v)) [
  | inl e ↦ rw e (sqrt_loop_start v ((v + 1) / 2) (lt_wf.apply v) (leb→le 2 v e) refl)
  | inr e ↦ rw e (sqrt_small v (ground arith))
]

-- What `integerSqrt` promises: the floor root, or a RangeError for a negative number.
abbrev pub IsRootOf : ℤ → Result ℕ → Type 0
IsRootOf (pos v) (ok r) = IsFloorRoot v r
IsRootOf (pos v) (err e) = ⊥
IsRootOf (negsuc v) r = r ≡ err range_error

-- For every integer `integerSqrt` meets its promise: for a value of at least zero the loop ends and
-- returns the one `r` with r² ≤ value < (r + 1)², and for a negative value it throws a RangeError.
pub integer_sqrt-IsRootOf : (value : ℤ) → IsRootOf value (integer_sqrt value)
unfolding integer_sqrt
integer_sqrt-IsRootOf (pos v) = sqrt_ℕ-IsFloorRoot v
integer_sqrt-IsRootOf (negsuc v) = refl
