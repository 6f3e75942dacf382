-- ===== src/BattleMath/Scale/Rounding.antt =====
-- `divScaled` rounds toward negative infinity.
use native.Mathlib.Nat.{div-add-mod, mod-lt}
use ponswars.Base.{
  ℕ, zero, suc, ◌+◌, ◌*◌, ◌/◌, ◌%◌, ◌≤◌, ◌<◌, ◌≡◌, refl, Bool-cases, inl, inr, if◌then◌else◌, ◌==◌,
  Result, ok, err, range_error, arith,
}
use ponswars.Base.Int.{
  ℤ, pos, negsuc, ◌+ℤ◌, ◌*ℤ◌, ◌≤ℤ◌, ◌<ℤ◌, ◌-ℤ◌, negate, int_laws, *ℤ_parts, eqb_ℤ, pos_part,
  neg_part, quotient, remainder,
}
use ponswars.BattleMath.Scale.{ratio_scale, clamp_unit, floor_quotient, div_scaled}

-- A clamped value lies in [-1, 1], and a value in that range is left alone.
pub clamp_unit_bounds : (x : ℤ) → (negsuc 999_999 ≤ℤ clamp_unit x) × (clamp_unit x ≤ℤ pos 1_000_000)
unfolding clamp_unit negate
clamp_unit_bounds x = ground arith

-- `q` is the floor of `n / d`, for a divisor of either sign.
abbrev pub IsFloorOf : ℤ → ℤ → ℤ → Type 0
IsFloorOf n (pos d) q = (q *ℤ pos d ≤ℤ n) × (n <ℤ q *ℤ pos d +ℤ pos d)
IsFloorOf n (negsuc d) q = (n ≤ℤ q *ℤ negsuc d) × (q *ℤ negsuc d +ℤ negsuc d <ℤ n)

abbrev minus : ℕ → ℤ
minus zero = pos 0
minus (suc n) = negsuc n

floor-pos-pos : (a d : ℕ) → floor_quotient (pos a) (pos d) ≡ pos (a / d)
unfolding floor_quotient quotient remainder ◌-ℤ◌
floor-pos-pos a d = ground arith

floor-pos-negsuc :
    (a d : ℕ)
    → floor_quotient (pos a) (negsuc d)
      ≡ minus (if a % suc d == 0 then a / suc d else a / suc d + 1)
unfolding floor_quotient quotient remainder ◌-ℤ◌
floor-pos-negsuc a d = ground arith

floor-negsuc-pos :
    (a d : ℕ)
    → floor_quotient (negsuc a) (pos d)
      ≡ minus (if suc a % d == 0 then suc a / d else suc a / d + 1)
unfolding floor_quotient quotient remainder ◌-ℤ◌
floor-negsuc-pos a d = ground arith

floor-negsuc-negsuc : (a d : ℕ) → floor_quotient (negsuc a) (negsuc d) ≡ pos (suc a / suc d)
unfolding floor_quotient quotient remainder ◌-ℤ◌
floor-negsuc-negsuc a d = ground arith

-- The rounded-up quotient of the magnitudes, where the signs differ.
abbrev div_up : ℕ → ℕ → ℕ
div_up a d = if a % d == 0 then a / d else a / d + 1

div_up_bounds : (a d : ℕ) → 0 < d → (a ≤ d * div_up a d) × (d * div_up a d < a + d)
div_up_bounds a d h = elim (Bool-cases (a % d == 0)) [
  | inl e ↦ let z : a % d ≡ 0 = ground arith in rw e (omega (arith, div-add-mod a d))
  | inr e ↦
      let z : 0 < a % d = ground arith in
      let small = mod-lt a h in rw e (omega (arith, div-add-mod a d))
]

floor_below :
    (a d m : ℕ) → a ≤ suc d * m → suc d * m < a + suc d → IsFloorOf (pos a) (negsuc d) (minus m)
floor_below a d zero h k = omega (int_laws, *ℤ_parts)
floor_below a d (suc m) h k = omega (int_laws, *ℤ_parts)

floor_above :
    (a d m : ℕ) → suc a ≤ d * m → d * m < suc a + d → IsFloorOf (negsuc a) (pos d) (minus m)
floor_above a d zero h k = omega (int_laws, *ℤ_parts)
floor_above a d (suc m) h k = omega (int_laws, *ℤ_parts)

floor_quotient-IsFloorOf :
    (n d : ℤ) → 0 < pos_part d + neg_part d → IsFloorOf n d (floor_quotient n d)
floor_quotient-IsFloorOf (pos a) (pos d) h = rw (floor-pos-pos a d) (omega (int_laws, *ℤ_parts))
floor_quotient-IsFloorOf (pos a) (negsuc d) h =
    let b = div_up_bounds a (suc d) (omega arith) in
    rw (floor-pos-negsuc a d) (floor_below a d _ b.0 b.1)
floor_quotient-IsFloorOf (negsuc a) (pos d) h =
    let b = div_up_bounds (suc a) d (omega arith) in
    rw (floor-negsuc-pos a d) (floor_above a d _ b.0 b.1)
floor_quotient-IsFloorOf (negsuc a) (negsuc d) h =
    rw (floor-negsuc-negsuc a d) (omega (int_laws, *ℤ_parts))

-- What `divScaled` promises.
abbrev pub IsScaledQuotient : ℤ → ℤ → Result ℤ → Type 0
IsScaledQuotient n d (ok q) = IsFloorOf (n *ℤ pos ratio_scale) d q
IsScaledQuotient n d (err e) = (e ≡ range_error) × (d ≡ pos 0)

-- `divScaled` returns the floor of numerator * RATIO_SCALE / denominator, rounded toward negative
-- infinity whatever the signs, and throws a RangeError only for a denominator of zero.
pub div_scaled-IsScaledQuotient :
    (numerator denominator : ℤ)
    → IsScaledQuotient numerator denominator (div_scaled numerator denominator)
unfolding div_scaled
div_scaled-IsScaledQuotient n d = elim (Bool-cases (eqb_ℤ d (pos 0))) [
  | inl e ↦ rw e (refl, ground arith)
  | inr e ↦ rw e (floor_quotient-IsFloorOf _ d (ground arith))
]

pub quotient_pos : (a b : ℕ) → quotient (pos a) (pos b) ≡ pos (a / b)
unfolding quotient
quotient_pos a b = ground arith

pub mul_pos : (a b : ℕ) → pos a *ℤ pos b ≡ pos (a * b)
mul_pos a b = omega (int_laws, *ℤ_parts)

pub nonneg_pos : (x : ℤ) → pos 0 ≤ℤ x → x ≡ pos (pos_part x)
nonneg_pos (pos n) h = refl
nonneg_pos (negsuc n) h = absurd (omega arith)
