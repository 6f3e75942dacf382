-- ===== src/BattleMath/Resolution/Order.antt =====
-- The order in which `resolveBattle` decides (packages/battle-math/src/resolution.ts).
use ponswars.Base.{
  ◌≡◌, ◌⊎◌, inl, inr, refl, true, false, Bool-cases, drop, Result-cases, if◌then◌else◌, List, [],
  ◌∷◌, Option, none, some, Result, ok, err, arith,
}
use ponswars.Base.Int.{
  ℤ, pos, ◌-ℤ◌, ◌≤ℤ◌, ◌<ℤ◌, eqb_ℤ, ltb_ℤ, negate, ◌+ℤ◌, negate_parts, parts_disjoint, int_laws,
  -ℤ_parts, eq_of_parts,
}
use ponswars.Base.Hashing.{Hashing}
use ponswars.Shared.Labels.{
  BattleSide, left_side, right_side, by_component, chain_derived, tiebreak_order, TiebreakStep,
}
use ponswars.Base.Text.{Text}
use ponswars.Shared.Roster.{ActiveTicker}
use ponswars.BattleMath.Scoring.{BattleScore}
use ponswars.BattleMath.Resolution.{
  Resolution, ResolutionInput, resolution_for, side_of_delta, chain_derived_side, break_tie,
  resolve_by_chain, resolve_battle,
}

-- The pairs of components that break a tie.
abbrev levels_below : BattleScore → List (ℤ × ℤ)
levels_below s =
    (s.left.price_momentum, s.right.price_momentum)
    ∷ (s.left.relative_volume, s.right.relative_volume)
    ∷ (s.left.pons_power, s.right.pons_power)
    ∷ []

-- The pairs of numbers that are compared, the totals first.
abbrev pub levels : BattleScore → List (ℤ × ℤ)
levels s = (s.left_total, s.right_total) ∷ levels_below s

-- The first pair that differs favours the side.
pub data FirstLead : List (ℤ × ℤ) → BattleSide → Type 0 where
  lead_left : {a b : ℤ} {rest : List (ℤ × ℤ)} → b <ℤ a → FirstLead ((a, b) ∷ rest) left_side
  lead_right : {a b : ℤ} {rest : List (ℤ × ℤ)} → a <ℤ b → FirstLead ((a, b) ∷ rest) right_side
  level :
      {a b : ℤ} {rest : List (ℤ × ℤ)} {s : BattleSide}
      → a ≡ b
      → FirstLead rest s
      → FirstLead ((a, b) ∷ rest) s

abbrev pub AllLevel : List (ℤ × ℤ) → Type 0
AllLevel [] = Unit {0}
AllLevel ((a, b) ∷ rest) = (a ≡ b) × AllLevel rest

side_lead :
    (a b : ℤ) (rest : List (ℤ × ℤ))
    → eqb_ℤ (a -ℤ b) (pos 0) ≡ false
    → FirstLead ((a, b) ∷ rest) (side_of_delta (a -ℤ b))
side_lead a b rest e = elim (Bool-cases (ltb_ℤ (pos 0) (a -ℤ b))) [
  | inl l ↦ rw l (lead_left (ground (arith, -ℤ_parts a b)))
  | inr r ↦ rw r (lead_right (ground (arith, -ℤ_parts a b)))
]

level_eq : (a b : ℤ) → eqb_ℤ (a -ℤ b) (pos 0) ≡ true → a ≡ b
level_eq a b e = eq_of_parts a b (ground (arith, -ℤ_parts a b))

-- The total of the side, and that of the other side.
abbrev pub total_on : BattleScore → BattleSide → ℤ
total_on s left_side = s.left_total
total_on s right_side = s.right_total

abbrev pub total_against : BattleScore → BattleSide → ℤ
total_against s left_side = s.right_total
total_against s right_side = s.left_total

abbrev pub ticker_on : ResolutionInput → BattleSide → ActiveTicker
ticker_on input left_side = input.left
ticker_on input right_side = input.right

-- What each kind of decision rests on.
abbrev pub RestsOn : Hashing → ResolutionInput → BattleSide → ℤ → Option TiebreakStep → Type 0
RestsOn h input side margin none =
    FirstLead (levels input.score) side
    × (total_on input.score side ≡ total_against input.score side +ℤ margin)
    × (pos 1 ≤ℤ margin)
RestsOn h input side margin (some (by_component c)) =
    (input.score.left_total ≡ input.score.right_total)
    × FirstLead (levels input.score) side
    × (margin ≡ pos 0)
RestsOn h input side margin (some chain_derived) =
    AllLevel (levels input.score)
    × (margin ≡ pos 0)
    × ((hash : Text) × (input.finalized_block_hash ≡ some hash)
        × (chain_derived_side h hash input.battle_id ≡ ok side))

-- The winner is the stock of the winning side, and the decision rests on the first lead or the chain.
abbrev pub Decided : Hashing → ResolutionInput → Result Resolution → Type 0
Decided h input (ok r) =
    (r.winner ≡ ticker_on input r.winning_side)
    × RestsOn h input r.winning_side r.margin r.tiebreak_step
Decided h input (err e) =
    AllLevel (levels input.score)
    × ((input.finalized_block_hash ≡ none)
        ⊎ ((hash : Text) × (input.finalized_block_hash ≡ some hash)
            × (chain_derived_side h hash input.battle_id ≡ err e)))

-- A resolution for a side is decided by what its step rests on.
Decided-resolution_for :
    (h : Hashing) (input : ResolutionInput) (side : BattleSide) (step : Option TiebreakStep)
    (margin : ℤ)
    → RestsOn h input side margin step
    → Decided h input (ok (resolution_for input side step margin))
unfolding resolution_for
Decided-resolution_for h input left_side step margin r = (refl, r)
Decided-resolution_for h input right_side step margin r = (refl, r)

by_chain-Decided :
    (h : Hashing) (input : ResolutionInput) (hash : Option Text)
    → input.finalized_block_hash ≡ hash
    → AllLevel (levels input.score)
    → Decided h input (resolve_by_chain h input hash)
unfolding resolve_by_chain
by_chain-Decided h input none e l = (l, inl e)
by_chain-Decided h input (some hash) e l =
    elim (Result-cases (chain_derived_side h hash input.battle_id)) [
      | inl (side, d) ↦
          rw d (
            Decided-resolution_for h input side (some chain_derived) (pos 0)
              (l, refl, (hash, e, d)))
      | inr (x, d) ↦ rw d (l, inr (hash, e, d))
    ]

-- The test on the difference of two numbers, with what follows from each answer.
delta_cases :
    (a b : ℤ) (rest : List (ℤ × ℤ))
    → ((eqb_ℤ (a -ℤ b) (pos 0) ≡ true) × (a ≡ b))
      ⊎ ((eqb_ℤ (a -ℤ b) (pos 0) ≡ false) × FirstLead ((a, b) ∷ rest) (side_of_delta (a -ℤ b)))
delta_cases a b rest = elim (Bool-cases (eqb_ℤ (a -ℤ b) (pos 0))) [
  | inl e ↦ inl (e, level_eq a b e)
  | inr e ↦ inr (e, side_lead a b rest e)
]

break_tie-Decided :
    (h : Hashing) (input : ResolutionInput)
    → input.score.left_total ≡ input.score.right_total
    → Decided h input (break_tie h input tiebreak_order)
unfolding break_tie
break_tie-Decided h input t =
    let s = input.score in
    elim (delta_cases s.left.price_momentum s.right.price_momentum (drop 1 (levels_below s))) [
      | inr (e, l) ↦ rw e (Decided-resolution_for h input _ _ _ (t, level t l, refl))
      | inl (e, p) ↦
          elim (delta_cases s.left.relative_volume s.right.relative_volume
            (drop 2 (levels_below s))) [
              | inr (f, l) ↦
                  rw (e, f) (Decided-resolution_for h input _ _ _ (t, level t (level p l), refl))
              | inl (f, q) ↦
                  elim (delta_cases s.left.pons_power s.right.pons_power
                    (drop 3 (levels_below s))) [
                      | inr (g, l) ↦
                          rw (e, f, g)
                            (Decided-resolution_for h input _ _ _
                              (t, level t (level p (level q l)), refl))
                      | inl (g, r) ↦
                          rw (e, f, g) (by_chain-Decided h input _ refl (t, (p, (q, (r, tt)))))
                    ]
            ]
    ]

abbrev margin_of : ℤ → ℤ
margin_of d = if ltb_ℤ (pos 0) d then d else negate d

totals_margin :
    (s : BattleScore) (a b : ℤ)
    → s.left_total ≡ a
    → s.right_total ≡ b
    → eqb_ℤ (a -ℤ b) (pos 0) ≡ false
    → (total_on s (side_of_delta (a -ℤ b))
        ≡ total_against s (side_of_delta (a -ℤ b)) +ℤ margin_of (a -ℤ b))
      × (pos 1 ≤ℤ margin_of (a -ℤ b))
totals_margin s a b p q e = elim (Bool-cases (ltb_ℤ (pos 0) (a -ℤ b))) [
  | inl l ↦ rw (l, p, q) (omega int_laws, ground arith)
  | inr r ↦
      rw (r, p, q)
        (
          omega int_laws,
          ground (arith, negate_parts (a -ℤ b), parts_disjoint (a -ℤ b), -ℤ_parts a b),
        )
]

-- `resolveBattle` decides every battle by the first difference in the order total, price momentum,
-- relative volume, Pons power: the side ahead there wins, and its stock is the winner. A battle
-- decided on the total has the positive difference of the totals as its margin, and any other a
-- margin of zero. A battle level in all four goes to the side that the finalized block hash names,
-- and only such a battle, with no hash or a hash that is refused, throws.
pub resolve_battle-Decided :
    (hashing : Hashing) (input : ResolutionInput)
    → Decided hashing input (resolve_battle hashing input)
unfolding resolve_battle
resolve_battle-Decided h input =
    elim (delta_cases input.score.left_total input.score.right_total (levels_below input.score)) [
      | inl (e, t) ↦ rw e (break_tie-Decided h input t)
      | inr (e, l) ↦
          let m = totals_margin input.score _ _ refl refl e in
          rw e (Decided-resolution_for h input _ none _ (l, m.0, m.1))
    ]
