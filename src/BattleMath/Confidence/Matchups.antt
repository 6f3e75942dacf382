-- ===== src/BattleMath/Confidence/Matchups.antt =====
-- `matchupConfidence` treats its two sides alike (packages/battle-math/src/confidence.ts).
use ponswars.Base.{
  ℕ, ◌≡◌, ◌⊎◌, inl, inr, refl, Bool, true, false, Bool-cases, ◌||◌, Result, Error, ok, err,
  range_error, throw_if, arith,
}
use ponswars.Base.Int.{
  ℤ, pos, ◌-ℤ◌, ◌≤ℤ◌, ◌<ℤ◌, negate, negate_parts, -ℤ_parts, leb_ℤ, ltb_ℤ, eqb_ℤ,
}
use ponswars.Shared.Labels.{ConfidenceLabel}
use ponswars.BattleMath.Scale.{div_scaled}
use ponswars.BattleMath.Confidence.{
  ConfidenceLookback, ConfidenceCalibration, SubSignals, sub_signals, standing, labels_for_gap,
  MatchupConfidence, assert_calibration, matchup_confidence, max_confidence_standing,
}

-- The gaps that `assertCalibration` lets through.
pub record HasOrderedGaps (c : ConfidenceCalibration) : Type 0 where
  pub favored_positive : pos 1 ≤ℤ c.matchup_favored
  pub favored_below : c.matchup_favored <ℤ c.matchup_strong_favorite
  pub strong_below : c.matchup_strong_favorite <ℤ c.matchup_dominant

throw_if_cases :
    (b : Bool) (e : Error)
    → ((b ≡ true) × (throw_if b e ≡ err e)) ⊎ ((b ≡ false) × (throw_if b e ≡ ok tt))
throw_if_cases true e = inl (refl, refl)
throw_if_cases false e = inr (refl, refl)

calibration_cases :
    (c : ConfidenceCalibration)
    → (assert_calibration c ≡ err range_error) ⊎ ((assert_calibration c ≡ ok tt) × HasOrderedGaps c)
unfolding assert_calibration
calibration_cases c =
    let gaps =
      leb_ℤ c.matchup_favored (pos 0)
      || (leb_ℤ c.matchup_strong_favorite c.matchup_favored
          || leb_ℤ c.matchup_dominant c.matchup_strong_favorite) in
    elim (throw_if_cases (leb_ℤ c.trend_strong c.trend_weak) range_error) [
      | inl (e, f) ↦ rw f (inl refl)
      | inr (e, f) ↦ elim (throw_if_cases (leb_ℤ c.pulse_rising c.pulse_weak) range_error) [
        | inl (_, g) ↦ rw (f, g) (inl refl)
        | inr (_, g) ↦ elim (throw_if_cases (ltb_ℤ c.activity_high c.activity_medium) range_error) [
          | inl (_, h) ↦ rw (f, g, h) (inl refl)
          | inr (_, h) ↦
              elim (throw_if_cases
                (ltb_ℤ c.stability_stable (pos 0) || ltb_ℤ c.stability_mixed c.stability_stable)
                range_error) [
                  | inl (_, i) ↦ rw (f, g, h, i) (inl refl)
                  | inr (_, i) ↦ elim (throw_if_cases gaps range_error) [
                    | inl (_, j) ↦ rw (f, g, h, i, j) (inl refl)
                    | inr (o, j) ↦
                        elim (throw_if_cases
                          (ltb_ℤ (pos max_confidence_standing) c.matchup_dominant) range_error) [
                            | inl (_, k) ↦ rw (f, g, h, i, j, k) (inl refl)
                            | inr (_, k) ↦
                                rw (f, g, h, i, j, k)
                                  (inr (
                                    refl,
                                    record {
                                      favored_positive = ground arith;
                                      favored_below = ground arith;
                                      strong_below = ground arith;
                                    },
                                  ))
                          ]
                  ]
                ]
        ]
      ]
    ]

abbrev swap_labels : ConfidenceLabel × ConfidenceLabel → ConfidenceLabel × ConfidenceLabel
swap_labels (a, b) = (b, a)

-- A gap is at most `-d` where the gap seen from the other side is at least `d`.
mirror : (a b : ℕ) (d : ℤ) → leb_ℤ (pos a -ℤ pos b) (negate d) ≡ leb_ℤ d (pos b -ℤ pos a)
mirror a b d = ground (arith, negate_parts d, -ℤ_parts (pos a) (pos b), -ℤ_parts (pos b) (pos a))

-- A positive gap is not reached from both sides.
one_side :
    (a b : ℕ) (d e : ℤ)
    → pos 1 ≤ℤ d
    → pos 1 ≤ℤ e
    → leb_ℤ d (pos a -ℤ pos b) ≡ true
    → leb_ℤ e (pos b -ℤ pos a) ≡ false
one_side a b d e h k p = ground (arith, -ℤ_parts (pos a) (pos b), -ℤ_parts (pos b) (pos a))

labels_for_gap-swap :
    (a b : ℕ) (c : ConfidenceCalibration)
    → HasOrderedGaps c
    → labels_for_gap (pos b -ℤ pos a) c ≡ swap_labels (labels_for_gap (pos a -ℤ pos b) c)
unfolding labels_for_gap
labels_for_gap-swap a b c o =
    let d = c.matchup_dominant in
    let s = c.matchup_strong_favorite in
    let f = c.matchup_favored in
    let x = pos a -ℤ pos b in
    let y = pos b -ℤ pos a in
    let hf = o.favored_positive in
    let hs : pos 1 ≤ℤ s = let i = o.favored_below in omega (arith, i, hf) in
    let hd : pos 1 ≤ℤ d = let i = o.strong_below in omega (arith, i, hs) in
    rw (mirror a b d, mirror a b s, mirror a b f, mirror b a d, mirror b a s, mirror b a f)
      (elim (Bool-cases (leb_ℤ d x)) [
        | inl e ↦
            rw (e, one_side a b d d hd hd e, one_side a b d s hd hs e, one_side a b d f hd hf e)
              refl
        | inr e ↦ elim (Bool-cases (leb_ℤ s x)) [
          | inl g ↦
              rw
                (e, g, one_side a b s d hs hd g, one_side a b s s hs hs g, one_side a b s f hs hf g)
                refl
          | inr g ↦ elim (Bool-cases (leb_ℤ f x)) [
            | inl h ↦
                rw
                  (
                    e,
                    g,
                    h,
                    one_side a b f d hf hd h,
                    one_side a b f s hf hs h,
                    one_side a b f f hf hf h,
                  )
                  refl
            | inr h ↦ elim (Bool-cases (leb_ℤ d y)) [
              | inl i ↦ rw (e, g, h, i) refl
              | inr i ↦ elim (Bool-cases (leb_ℤ s y)) [
                | inl j ↦ rw (e, g, h, i, j) refl
                | inr j ↦ elim (Bool-cases (leb_ℤ f y)) [
                  | inl k ↦ rw (e, g, h, i, j, k) refl
                  | inr k ↦ rw (e, g, h, i, j, k) refl
                ]
              ]
            ]
          ]
        ]
      ])

-- The same matchup with its sides exchanged.
abbrev pub swap_sides : Result MatchupConfidence → Result MatchupConfidence
swap_sides (ok m) = ok (record { left = m.right; right = m.left })
swap_sides (err e) = err e

signals_cases :
    (l : ConfidenceLookback) (c : ConfidenceCalibration)
    → (sub_signals l c ≡ err range_error) ⊎ ((s : SubSignals) × (sub_signals l c ≡ ok s))
unfolding sub_signals div_scaled
signals_cases l c = elim (Bool-cases (leb_ℤ l.volatility (pos 0))) [
  | inl e ↦ rw e (inl refl)
  | inr e ↦ elim (Bool-cases (eqb_ℤ l.volatility (pos 0))) [
    | inl f ↦ absurd (ground arith)
    | inr f ↦ rw (e, f) (inr (_, refl))
  ]
]

-- `matchupConfidence` does not depend on which stock stands on which side: with the sides exchanged
-- it returns the same two snapshots, exchanged, and it throws on the same inputs, always a RangeError.
pub matchup_confidence-swap :
    (left right : ConfidenceLookback) (calibration : ConfidenceCalibration)
    → matchup_confidence right left calibration
      ≡ swap_sides (matchup_confidence left right calibration)
unfolding matchup_confidence
matchup_confidence-swap l r c = elim (calibration_cases c) [
  | inl e ↦ rw e refl
  | inr (e, o) ↦ elim (signals_cases l c) [
    | inl f ↦ elim (signals_cases r c) [
      | inl g ↦ rw (e, f, g) refl
      | inr (t, g) ↦ rw (e, f, g) refl
    ]
    | inr (s, f) ↦ elim (signals_cases r c) [
      | inl g ↦ rw (e, f, g) refl
      | inr (t, g) ↦ rw (e, f, g, labels_for_gap-swap (standing s) (standing t) c o) refl
    ]
  ]
]
