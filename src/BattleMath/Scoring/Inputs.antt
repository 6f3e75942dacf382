-- ===== src/BattleMath/Scoring/Inputs.antt =====
-- When `scoreBattle` throws (packages/battle-math/src/scoring.ts).
use ponswars.Base.{ℕ, ◌*◌, ◌≡◌, ◌↔◌, refl, arith, ok, >>=-eq-ok, Returns, Returns_of}
use ponswars.Base.Int.{ℤ, pos, negsuc, ◌*ℤ◌, ◌+ℤ◌, quotient, ◌≤ℤ◌, int_laws, *ℤ_parts}
use ponswars.Shared.Money.{integer_sqrt}
use ponswars.BattleMath.Scale.{ratio_scale, div_scaled}
use ponswars.BattleMath.Scale.Rounding.{mul_pos, quotient_pos}
use ponswars.BattleMath.Scoring.{
  SideInputs, ScoringCalibration, AggregateCardSupport, edge_from_difference,
  volatility_adjusted_return, pons_strength, card_support_strength, edges_between, score_battle,
}

-- The counts of a side are not negative and its volatility is positive.
pub record IsValidSide (side : SideInputs) : Type 0 where
  pub volatility : pos 1 ≤ℤ side.volatility
  pub activity : pos 0 ≤ℤ side.qualified_pons_activity
  pub wallets : pos 0 ≤ℤ side.unique_active_wallets
  pub market : pos 0 ≤ℤ side.card_support.market
  pub volume : pos 0 ≤ℤ side.card_support.volume
  pub pons : pos 0 ≤ℤ side.card_support.pons
  pub general : pos 0 ≤ℤ side.card_support.general

pub record IsValidCalibration (c : ScoringCalibration) : Type 0 where
  pub price : pos 1 ≤ℤ c.price_edge_divisor
  pub volume : pos 1 ≤ℤ c.volume_edge_divisor
  pub pons : pos 1 ≤ℤ c.pons_edge_divisor
  pub cards : pos 1 ≤ℤ c.card_edge_divisor

edge-Returns : (l r d : ℤ) → pos 1 ≤ℤ d → Returns (edge_from_difference l r d)
unfolding edge_from_difference div_scaled
edge-Returns l r d h = Returns_of (edge_from_difference l r d) (λ e k. ground arith)

edge_divisor : (l r d : ℤ) {q : ℤ} → edge_from_difference l r d ≡ ok q → pos 1 ≤ℤ d
unfolding edge_from_difference
edge_divisor l r d h = ground arith

return-Returns : (s : SideInputs) → pos 1 ≤ℤ s.volatility → Returns (volatility_adjusted_return s)
unfolding volatility_adjusted_return div_scaled
return-Returns s h = Returns_of (volatility_adjusted_return s) (λ e k. ground arith)

return_volatility :
    (s : SideInputs) {q : ℤ} → volatility_adjusted_return s ≡ ok q → pos 1 ≤ℤ s.volatility
unfolding volatility_adjusted_return
return_volatility s h = ground arith

sqrt-Returns : (v : ℤ) → pos 0 ≤ℤ v → Returns (integer_sqrt v)
unfolding integer_sqrt
sqrt-Returns (pos v) h = (_, refl)
sqrt-Returns (negsuc v) h = absurd (omega arith)

scaled_nonneg : (a : ℤ) → pos 0 ≤ℤ a → pos 0 ≤ℤ a *ℤ pos ratio_scale *ℤ pos ratio_scale
scaled_nonneg (pos n) h =
    rw (mul_pos n ratio_scale, mul_pos (n * ratio_scale) ratio_scale) (omega arith)
scaled_nonneg (negsuc n) h = absurd (omega arith)

pons-Returns :
    (s : SideInputs)
    → pos 0 ≤ℤ s.qualified_pons_activity
    → pos 0 ≤ℤ s.unique_active_wallets
    → Returns (pons_strength s)
unfolding pons_strength
pons-Returns s h k = Returns_of (pons_strength s) (λ e p. ground (
  arith,
  sqrt-Returns _ (scaled_nonneg s.qualified_pons_activity h),
  sqrt-Returns _ (scaled_nonneg s.unique_active_wallets k),
))

pons_counts :
    (s : SideInputs) {q : ℤ}
    → pons_strength s ≡ ok q
    → (pos 0 ≤ℤ s.qualified_pons_activity) × (pos 0 ≤ℤ s.unique_active_wallets)
unfolding pons_strength
pons_counts s h = ground arith

support_counts :
    (s : AggregateCardSupport) {q : ℤ}
    → card_support_strength s ≡ ok q
    → (pos 0 ≤ℤ s.market) × (pos 0 ≤ℤ s.volume) × (pos 0 ≤ℤ s.pons) × (pos 0 ≤ℤ s.general)
unfolding card_support_strength
support_counts s h = ground arith

effective_nonneg :
    (m v p g : ℕ)
    → pos 0
      ≤ℤ (pos m +ℤ quotient (pos g *ℤ pos 45) (pos 90)) *ℤ pos 45
        +ℤ (pos v +ℤ quotient (pos g *ℤ pos 25) (pos 90)) *ℤ pos 25
        +ℤ (pos p +ℤ quotient (pos g *ℤ pos 20) (pos 90)) *ℤ pos 20
effective_nonneg m v p g =
    rw
      (
        mul_pos g 45,
        mul_pos g 25,
        mul_pos g 20,
        quotient_pos (g * 45) 90,
        quotient_pos (g * 25) 90,
        quotient_pos (g * 20) 90,
      )
      (omega (int_laws, *ℤ_parts))

quotient_nonneg : (x : ℤ) (n : ℕ) → pos 0 ≤ℤ x → pos 0 ≤ℤ quotient x (pos n)
quotient_nonneg (pos m) n h = rw (quotient_pos m n) (omega arith)
quotient_nonneg (negsuc m) n h = absurd (omega arith)

support-Returns :
    (m v p g : ℤ)
    → pos 0 ≤ℤ m
    → pos 0 ≤ℤ v
    → pos 0 ≤ℤ p
    → pos 0 ≤ℤ g
    → Returns (card_support_strength (record { market = m; volume = v; pons = p; general = g }))
unfolding card_support_strength
support-Returns (pos m) (pos v) (pos p) (pos g) a b c d = Returns_of _ (λ e q.
    ground
      (arith, sqrt-Returns _ (scaled_nonneg _ (quotient_nonneg _ 90 (effective_nonneg m v p g)))))
support-Returns (negsuc m) v p g a b c d = absurd (omega arith)
support-Returns (pos m) (negsuc v) p g a b c d = absurd (omega arith)
support-Returns (pos m) (pos v) (negsuc p) g a b c d = absurd (omega arith)
support-Returns (pos m) (pos v) (pos p) (negsuc g) a b c d = absurd (omega arith)

side_support-Returns :
    (s : SideInputs) → IsValidSide s → Returns (card_support_strength s.card_support)
side_support-Returns s v = support-Returns _ _ _ _ v.market v.volume v.pons v.general

score-Returns :
    (l r : SideInputs) (c : ScoringCalibration)
    → IsValidSide l
    → IsValidSide r
    → IsValidCalibration c
    → Returns (score_battle l r c)
unfolding score_battle edges_between
score-Returns l r c v w k =
    let (a, ea) = return-Returns l v.volatility in
    let (b, eb) = return-Returns r w.volatility in
    let (p, ep) = edge-Returns a b _ k.price in
    let (q, eq) = edge-Returns l.relative_volume r.relative_volume _ k.volume in
    let (d, ed) = pons-Returns l v.activity v.wallets in
    let (e, ee) = pons-Returns r w.activity w.wallets in
    let (f, ef) = edge-Returns d e _ k.pons in
    let (g, eg) = side_support-Returns l v in
    let (h, eh) = side_support-Returns r w in
    let (i, ei) = edge-Returns g h _ k.cards in
    rw (ea, eb, ep, eq, ed, ee, ef, eg, eh, ei) (_, refl)

edges-IsValid :
    (l r : SideInputs) (c : ScoringCalibration)
    → Returns (edges_between l r c)
    → IsValidSide l × IsValidSide r × IsValidCalibration c
unfolding edges_between
edges-IsValid l r c (s, h0) =
    let (a, ea, h1) = >>=-eq-ok _ _ h0 in
    let (b, eb, h2) = >>=-eq-ok _ _ h1 in
    let (p, ep, h3) = >>=-eq-ok _ _ h2 in
    let (q, eq, h4) = >>=-eq-ok _ _ h3 in
    let (d, ed, h5) = >>=-eq-ok _ _ h4 in
    let (e, ee, h6) = >>=-eq-ok _ _ h5 in
    let (f, ef, h7) = >>=-eq-ok _ _ h6 in
    let (g, eg, h8) = >>=-eq-ok _ _ h7 in
    let (h, eh, h9) = >>=-eq-ok _ _ h8 in
    let (i, ei, _) = >>=-eq-ok _ _ h9 in
    let dc = pons_counts l ed in
    let ec = pons_counts r ee in
    let gc = support_counts l.card_support eg in
    let hc = support_counts r.card_support eh in
    (
      record {
        volatility = return_volatility l ea;
        activity = dc.0;
        wallets = dc.1;
        market = gc.0;
        volume = gc.1;
        pons = gc.2;
        general = gc.3;
      },
      record {
        volatility = return_volatility r eb;
        activity = ec.0;
        wallets = ec.1;
        market = hc.0;
        volume = hc.1;
        pons = hc.2;
        general = hc.3;
      },
      record {
        price = edge_divisor a b _ ep;
        volume = edge_divisor _ _ _ eq;
        pons = edge_divisor d e _ ef;
        cards = edge_divisor g h _ ei;
      },
    )

-- `scoreBattle` returns a score exactly when both sides are valid (positive volatility, no negative
-- count and no negative card support) and all four divisors of the calibration are positive; on any
-- other input it throws.
pub score_battle_iff :
    (left right : SideInputs) (calibration : ScoringCalibration)
    → Returns (score_battle left right calibration)
      ↔ (IsValidSide left × IsValidSide right × IsValidCalibration calibration)
unfolding score_battle
score_battle_iff l r c = (
  λ (s, h).
      let (edges, e, _) = >>=-eq-ok (edges_between l r c) _ h in edges-IsValid l r c (edges, e),
  λ (v, w, k). score-Returns l r c v w k,
)
