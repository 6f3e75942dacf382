-- ===== src/BattleMath/Scoring/Total.antt =====
-- The totals of a score (`scoreBattle` in packages/battle-math/src/scoring.ts).
use ponswars.Base.{ℕ, ◌+◌, ◌≤◌, ◌≡◌, refl, subst, ok-injective, arith, ok, >>=-eq-ok}
use ponswars.Base.Int.{ℤ, pos, ◌+ℤ◌, pos_part, neg_part, +ℤ_parts, int_laws}
use ponswars.BattleMath.Scale.{points}
use ponswars.BattleMath.Scoring.{
  ScaledBreakdown, BattleScore, SideInputs, ScoringCalibration, split_by_edge, total_of,
  score_of_edges, edges_between, score_battle, full_score_scaled,
}
use ponswars.BattleMath.Scoring.Halves.{left_half, left_half_le, split-left, split-right}

-- The left side holds `l` of a weight and the right side the rest of it.
pub record IsShared (w : ℕ) (left right : ℤ) : Type 0 where
  pub share : ℕ
  pub at_most : share ≤ w
  pub left_is : left ≡ pos share
  pub sum : left +ℤ right ≡ pos w

split-IsShared :
    (w : ℕ) (e : ℤ) → IsShared w (split_by_edge (pos w) e).left (split_by_edge (pos w) e).right
split-IsShared w e = record {
  share = left_half w e;
  at_most = left_half_le w e;
  left_is = split-left w e;
  sum = rw (split-left w e, split-right w e) (omega (int_laws, left_half_le w e));
}

-- What every score keeps to.
pub record IsFullScore (s : BattleScore) : Type 0 where
  pub totals : s.left_total +ℤ s.right_total ≡ pos full_score_scaled
  pub left_sum : s.left_total ≡ total_of s.left
  pub right_sum : s.right_total ≡ total_of s.right
  pub price : IsShared (points 45) s.left.price_momentum s.right.price_momentum
  pub volume : IsShared (points 25) s.left.relative_volume s.right.relative_volume
  pub pons : IsShared (points 20) s.left.pons_power s.right.pons_power
  pub cards : IsShared (points 10) s.left.holder_card_support s.right.holder_card_support

pub total_of_lem :
    (b : ScaledBreakdown)
    → total_of b
      ≡ pos 0 +ℤ b.price_momentum +ℤ b.relative_volume +ℤ b.pons_power +ℤ b.holder_card_support
unfolding total_of
total_of_lem b = refl

sum_parts :
    (x y : ℤ) (n : ℕ) → x +ℤ y ≡ pos n → pos_part x + pos_part y ≡ n + neg_part x + neg_part y
sum_parts x y n h = let p = +ℤ_parts x y in let q = rw h at p in omega (arith, q)

totals_of_shared :
    (a b : ScaledBreakdown)
    → a.price_momentum +ℤ b.price_momentum ≡ pos 45_000_000
    → a.relative_volume +ℤ b.relative_volume ≡ pos 25_000_000
    → a.pons_power +ℤ b.pons_power ≡ pos 20_000_000
    → a.holder_card_support +ℤ b.holder_card_support ≡ pos 10_000_000
    → total_of a +ℤ total_of b ≡ pos full_score_scaled
totals_of_shared a b h i j k =
    rw (total_of_lem a, total_of_lem b)
      (omega (int_laws, sum_parts _ _ _ h, sum_parts _ _ _ i, sum_parts _ _ _ j, sum_parts _ _ _ k))

score_of_edges-IsFullScore : (edges : ScaledBreakdown) → IsFullScore (score_of_edges edges)
unfolding score_of_edges points
score_of_edges-IsFullScore edges =
    let p = split-IsShared 45_000_000 edges.price_momentum in
    let v = split-IsShared 25_000_000 edges.relative_volume in
    let o = split-IsShared 20_000_000 edges.pons_power in
    let c = split-IsShared 10_000_000 edges.holder_card_support in
    record {
      totals = totals_of_shared _ _ p.sum v.sum o.sum c.sum;
      left_sum = refl;
      right_sum = refl;
      price = p;
      volume = v;
      pons = o;
      cards = c;
    }

-- A battle that scores shares exactly one hundred points: the two totals add up to the full score,
-- each total is the sum of its side's components, and each component's weight (45, 25, 20 and 10
-- points) is divided between the two sides with nothing negative and nothing left over.
pub score_battle-IsFullScore :
    (left right : SideInputs) (calibration : ScoringCalibration) {s : BattleScore}
    → score_battle left right calibration ≡ ok s
    → IsFullScore s
unfolding score_battle
score_battle-IsFullScore left right calibration h =
    let (edges, _, e) = >>=-eq-ok (edges_between left right calibration) _ h in
    subst IsFullScore (ok-injective e) (score_of_edges-IsFullScore edges)
