-- ===== src/BattleMath/Resolution/Victory.antt =====
-- The label of a win (`classifyVictory` in packages/battle-math/src/resolution.ts).
use ponswars.Base.{
  ◌≡◌, ◌≢◌, refl, true, false, Result, ok, err, range_error, arith, inl, inr, Bool-cases,
}
use ponswars.Base.Int.{pos, ◌≤ℤ◌, ◌<ℤ◌, leb_ℤ, ltb_ℤ}
use ponswars.Shared.Labels.{
  ConfidenceLabel, heavy_underdog, underdog, even, favored, strong_favorite, dominant, VictoryLabel,
  narrow_victory, victory, decisive_victory, upset_victory, major_upset, comeback_victory,
}
use ponswars.BattleMath.Resolution.{
  ClassificationInput, label_of_margin, label_of_confidence, classify_victory,
}

-- Neither the confidence nor the course of the battle names the win.
abbrev IsOrdinary : ClassificationInput → Type 0
IsOrdinary input =
    (input.winner_confidence ≢ heavy_underdog)
    × (input.winner_confidence ≢ underdog)
    × (input.was_comeback ≡ false)

-- What earns each label.
abbrev pub Earns : ClassificationInput → VictoryLabel → Type 0
Earns input major_upset = input.winner_confidence ≡ heavy_underdog
Earns input upset_victory = input.winner_confidence ≡ underdog
Earns input comeback_victory =
    (input.winner_confidence ≢ heavy_underdog)
    × (input.winner_confidence ≢ underdog)
    × (input.was_comeback ≡ true)
Earns input narrow_victory = IsOrdinary input × (input.margin ≤ℤ input.thresholds.narrow_margin)
Earns input decisive_victory =
    IsOrdinary input
    × (input.thresholds.narrow_margin <ℤ input.margin)
    × (input.thresholds.decisive_margin ≤ℤ input.margin)
Earns input victory =
    IsOrdinary input
    × (input.thresholds.narrow_margin <ℤ input.margin)
    × (input.margin <ℤ input.thresholds.decisive_margin)

-- The thresholds are not negative and in order.
abbrev pub HasThresholds : ClassificationInput → Type 0
HasThresholds input =
    (pos 0 ≤ℤ input.thresholds.narrow_margin)
    × (input.thresholds.narrow_margin ≤ℤ input.thresholds.decisive_margin)

abbrev pub Classified : ClassificationInput → Result VictoryLabel → Type 0
Classified input (ok label) = HasThresholds input × Earns input label
Classified input (err e) = (e ≡ range_error) × ¬ HasThresholds input

margin_Earns :
    (input : ClassificationInput)
    → input.winner_confidence ≢ heavy_underdog
    → input.winner_confidence ≢ underdog
    → Earns input (label_of_margin input)
unfolding label_of_margin
margin_Earns input h u = elim (Bool-cases input.was_comeback) [
  | inl c ↦ rw c (h, u, refl)
  | inr c ↦ elim (Bool-cases (leb_ℤ input.margin input.thresholds.narrow_margin)) [
    | inl n ↦ rw (c, n) ((h, u, refl), ground arith)
    | inr n ↦ elim (Bool-cases (leb_ℤ input.thresholds.decisive_margin input.margin)) [
      | inl d ↦ rw (c, n, d) ((h, u, refl), ground arith, ground arith)
      | inr d ↦ rw (c, n, d) ((h, u, refl), ground arith, ground arith)
    ]
  ]
]

label_Earns :
    (input : ClassificationInput) (c : ConfidenceLabel)
    → input.winner_confidence ≡ c
    → Earns input (label_of_confidence input c)
unfolding label_of_confidence
label_Earns input heavy_underdog e = e
label_Earns input underdog e = e
label_Earns input even e = margin_Earns input (λ h. cc) (λ h. cc)
label_Earns input favored e = margin_Earns input (λ h. cc) (λ h. cc)
label_Earns input strong_favorite e = margin_Earns input (λ h. cc) (λ h. cc)
label_Earns input dominant e = margin_Earns input (λ h. cc) (λ h. cc)

-- `classifyVictory` throws a RangeError exactly when the thresholds are negative or out of order,
-- and else gives the label that the win earns: a heavy underdog's win is MAJOR_UPSET and an
-- underdog's UPSET_VICTORY, whatever the margin; then a comeback; then the margin decides between
-- NARROW (at most the narrow margin), DECISIVE (at least the decisive one) and plain VICTORY.
pub classify_victory-Classified :
    (input : ClassificationInput) → Classified input (classify_victory input)
unfolding classify_victory
classify_victory-Classified input =
    elim (Bool-cases (ltb_ℤ input.thresholds.narrow_margin (pos 0))) [
      | inl e ↦ rw e (refl, λ h. ground arith)
      | inr e ↦
          elim (Bool-cases
            (ltb_ℤ input.thresholds.decisive_margin input.thresholds.narrow_margin)) [
              | inl d ↦ rw (e, d) (refl, λ h. ground arith)
              | inr d ↦ rw (e, d) ((ground arith, ground arith), label_Earns input _ refl)
            ]
    ]
