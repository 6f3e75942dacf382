-- ===== src/Shared/Labels/Windows.antt =====
-- Distribution windows and upsets (packages/shared-types/src/rewards.ts).
use ponswars.Base.{◌+◌, ◌≡◌, ◌↔◌, refl, true, some, arith}
use ponswars.Shared.Labels.{
  ConfidenceLabel, heavy_underdog, underdog, even, favored, strong_favorite, dominant, VictoryLabel,
  is_upset, upset_label_for, DistributionState, window_open, snapshot, calculated, published,
  closed, distribution_tag, can_transition_distribution,
}

-- A win is an upset exactly when it has an upset label.
pub is_upset_iff :
    (c : ConfidenceLabel)
    → (is_upset c ≡ true) ↔ ((l : VictoryLabel) × (upset_label_for c ≡ some l))
unfolding is_upset upset_label_for
is_upset_iff heavy_underdog = (λ _. (_, refl), λ _. refl)
is_upset_iff underdog = (λ _. (_, refl), λ _. refl)
is_upset_iff even = (λ h. cc, λ (l, e). cc)
is_upset_iff favored = (λ h. cc, λ (l, e). cc)
is_upset_iff strong_favorite = (λ h. cc, λ (l, e). cc)
is_upset_iff dominant = (λ h. cc, λ (l, e). cc)

-- A window goes through its states one by one, and never back.
pub can_transition_distribution_iff :
    (s t : DistributionState)
    → (can_transition_distribution s t ≡ true) ↔ (distribution_tag t ≡ distribution_tag s + 1)
unfolding can_transition_distribution
can_transition_distribution_iff window_open t = (λ h. ground arith, λ h. ground arith)
can_transition_distribution_iff snapshot t = (λ h. ground arith, λ h. ground arith)
can_transition_distribution_iff calculated t = (λ h. ground arith, λ h. ground arith)
can_transition_distribution_iff published t = (λ h. ground arith, λ h. ground arith)
can_transition_distribution_iff closed window_open = (λ h. cc, λ h. absurd (omega (arith, h)))
can_transition_distribution_iff closed snapshot = (λ h. cc, λ h. absurd (omega (arith, h)))
can_transition_distribution_iff closed calculated = (λ h. cc, λ h. absurd (omega (arith, h)))
can_transition_distribution_iff closed published = (λ h. cc, λ h. absurd (omega (arith, h)))
can_transition_distribution_iff closed closed = (λ h. cc, λ h. absurd (omega (arith, h)))
