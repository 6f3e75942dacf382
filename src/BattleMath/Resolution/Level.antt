-- ===== src/BattleMath/Resolution/Level.antt =====
-- Battles that need a block hash (`needsChainTiebreak` in packages/battle-math/src/resolution.ts).
use ponswars.Base.{
  ◌≡◌, ◌↔◌, inl, inr, refl, ap, true, false, Bool-cases, List, Option, none, some, Result, ok, err,
  Returns, arith,
}
use ponswars.Base.Int.{pos_part, neg_part, ℤ, eqb_ℤ, eq_of_parts}
use ponswars.Base.Hashing.{Hashing}
use ponswars.Shared.Labels.{BattleSide, by_component, chain_derived, TiebreakStep}
use ponswars.BattleMath.Scoring.{BattleScore}
use ponswars.BattleMath.Resolution.{
  Resolution, ResolutionInput, needs_chain_tiebreak, resolve_battle,
}
use ponswars.BattleMath.Resolution.Order.{
  FirstLead, AllLevel, levels, RestsOn, Decided, resolve_battle-Decided, lead_left, lead_right,
  level,
}

lead_not_level : {l : List (ℤ × ℤ)} {s : BattleSide} → FirstLead l s → AllLevel l → ⊥
lead_not_level (lead_left h) (e, _) = let p = ap pos_part e in let q = ap neg_part e in omega arith
lead_not_level (lead_right h) (e, _) = let p = ap pos_part e in let q = ap neg_part e in omega arith
lead_not_level (level e l) (_, r) = lead_not_level l r

eqb_eq : (a b : ℤ) → eqb_ℤ a b ≡ true → a ≡ b
eqb_eq a b e = eq_of_parts a b (ground arith)

eqb_refl : (a b : ℤ) → a ≡ b → eqb_ℤ a b ≡ true
eqb_refl a b e = rw e (ground arith)

needs_chain-AllLevel : (s : BattleScore) → needs_chain_tiebreak s ≡ true → AllLevel (levels s)
unfolding needs_chain_tiebreak
needs_chain-AllLevel s h = (
  eqb_eq s.left_total s.right_total (ground arith),
  (
    eqb_eq s.left.price_momentum s.right.price_momentum (ground arith),
    (
      eqb_eq s.left.relative_volume s.right.relative_volume (ground arith),
      (eqb_eq s.left.pons_power s.right.pons_power (ground arith), tt),
    ),
  ),
)

AllLevel-needs_chain : (s : BattleScore) → AllLevel (levels s) → needs_chain_tiebreak s ≡ true
unfolding needs_chain_tiebreak
AllLevel-needs_chain s (a, (b, (c, (d, _)))) =
    rw (eqb_refl _ _ a, eqb_refl _ _ b, eqb_refl _ _ c, eqb_refl _ _ d)

-- A battle that is decided without a hash is not level.
decided_not_level :
    (h : Hashing) (input : ResolutionInput) (side : BattleSide) (m : ℤ) (step : Option TiebreakStep)
    → input.finalized_block_hash ≡ none
    → RestsOn h input side m step
    → ¬ AllLevel (levels input.score)
decided_not_level h input side m none n r l = lead_not_level r.0 l
decided_not_level h input side m (some (by_component c)) n r l = lead_not_level r.1 l
decided_not_level h input side m (some chain_derived) n (_, _, (hash, e, _)) l = cc

resolve-AllLevel :
    (h : Hashing) (input : ResolutionInput) (r : Result Resolution)
    → input.finalized_block_hash ≡ none
    → Decided h input r
    → Returns r ↔ (needs_chain_tiebreak input.score ≡ false)
resolve-AllLevel h input (ok r) n d = (
  λ _. elim (Bool-cases (needs_chain_tiebreak input.score)) [
    | inl e ↦ absurd (decided_not_level h input _ _ _ n d.1 (needs_chain-AllLevel input.score e))
    | inr e ↦ e
  ],
  λ _. (r, refl),
)
resolve-AllLevel h input (err x) n d =
    let e = AllLevel-needs_chain input.score d.0 in (λ (r, p). cc, λ f. cc)

-- With no block hash `resolveBattle` throws exactly on the battles that `needsChainTiebreak` names,
-- so a hash that is not fetched is missed only by a battle that needs it.
pub resolve_without_hash_iff :
    (hashing : Hashing) (input : ResolutionInput)
    → input.finalized_block_hash ≡ none
    → Returns (resolve_battle hashing input) ↔ (needs_chain_tiebreak input.score ≡ false)
resolve_without_hash_iff h input n =
    resolve-AllLevel h input (resolve_battle h input) n (resolve_battle-Decided h input)
