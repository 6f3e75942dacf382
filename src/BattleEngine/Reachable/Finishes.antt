-- ===== src/BattleEngine/Reachable/Finishes.antt =====
-- Finalizing a battle from its cutoff on does not throw (`finalizeBattle` in packages/battle-engine/src/engine.ts).
use ponswars.Base.{
  ℕ, ◌≤◌, ◌==◌, ◌≡◌, inl, inr, refl, subst, sym, Bool, Bool-cases, Option, none, some, ltb, ◌-◌,
  Result, ok, err, >>=-Returns, Returns, arith,
}
use ponswars.Base.Int.{pos, ◌≤ℤ◌}
use ponswars.Base.Text.{Text}
use ponswars.Base.Hashing.{Hashing}
use ponswars.Shared.Round.{BattleState, CanonicalClock}
use ponswars.BattleMath.Scoring.{BattleScore, SideInputs, score_battle}
use ponswars.BattleMath.Resolution.{
  Resolution, ResolutionInput, ClassificationInput, VictoryThresholds, chain_derived_side,
  resolve_battle, classify_victory,
}
use ponswars.BattleMath.Resolution.Order.{Decided, resolve_battle-Decided}
use ponswars.BattleMath.Resolution.Victory.{HasThresholds, Classified, classify_victory-Classified}
use ponswars.BattleMath.Scheduler.{FinalizationDecision, wait, finalize, void, decide_finalization}
use ponswars.BattleEngine.Battle.{BattleEngineState, BattleSetup, EngineConfig}
use ponswars.BattleEngine.Finalize.{
  finalize_battle, finalize_live, finalize_decided, finalize_scored, finalize_from,
  resolution_input, classification_input,
}
use ponswars.BattleEngine.Reachable.{Remembers, IsSound}
use ponswars.BattleEngine.Reachable.Endings.{Reaches, reachable-IsSound}

resolve_given :
    (h : Hashing) (input : ResolutionInput) (hash : Text) (r : Result Resolution)
    → input.finalized_block_hash ≡ some hash
    → Returns (chain_derived_side h hash input.battle_id)
    → Decided h input r
    → Returns r
resolve_given h input hash (ok r) e side d = (r, refl)
resolve_given h input hash (err x) e (side, f) (_, inl n) = cc
resolve_given h input hash (err x) e (side, f) (_, inr (other, g, k)) =
    let same : hash ≡ other = cc in
    let k' = subst (λ t. chain_derived_side h t input.battle_id ≡ ok side) same f in cc

classify_given :
    (input : ClassificationInput) (r : Result _)
    → HasThresholds input
    → Classified input r
    → Returns r
classify_given input (ok label) t c = (label, refl)
classify_given input (err e) t (_, n) = absurd (n t)

-- The victory thresholds of a configuration are not negative and in order.
pub record HasMargins (t : VictoryThresholds) : Type 0 where
  pub narrow : pos 0 ≤ℤ t.narrow_margin
  pub decisive : t.narrow_margin ≤ℤ t.decisive_margin

-- Every score of the last inputs resolves with the hash.
abbrev pub Resolves :
    Hashing
    → EngineConfig
    → BattleEngineState
    → Option Text
    → Option SideInputs
    → Option SideInputs
    → Type 0
Resolves h config s hash l r =
    (a b : SideInputs) (score : BattleScore)
    → l ≡ some a
    → r ≡ some b
    → score_battle a b config.scoring ≡ ok score
    → Returns (resolve_battle h (resolution_input s hash score))

finalize_from-Returns :
    (h : Hashing) (config : EngineConfig) (s : BattleEngineState) (at : ℕ) (hash : Option Text)
    (l r : SideInputs)
    → HasMargins config.victory
    → Resolves h config s hash (some l) (some r)
    → Returns (score_battle l r config.scoring)
    → Returns (finalize_from h s at hash config l r)
unfolding finalize_from
finalize_from-Returns h config s at hash l r m resolves scored =
    >>=-Returns (score_battle l r config.scoring) _ scored (λ score e.
      >>=-Returns (resolve_battle h (resolution_input s hash score)) _
        (resolves l r score refl refl e)
        (λ resolution _.
          >>=-Returns (classify_victory (classification_input s config score resolution)) _
            (classify_given (classification_input s config score resolution) _
              (m.narrow, m.decisive)
              (classify_victory-Classified (classification_input s config score resolution)))
            (λ label _. (_, refl))))

pub remembered_score :
    (config : EngineConfig) (s : BattleEngineState) (l r : Option SideInputs) (last : Option ℕ)
    (a b : SideInputs)
    → Remembers config s l r last
    → l ≡ some a
    → r ≡ some b
    → Returns (score_battle a b config.scoring)
remembered_score config s (some l) (some r) (some t) a b (_, _, _, i) e f =
    let p : l ≡ a = cc in
    let q : r ≡ b = cc in
    (
      i.score,
      subst (λ x. score_battle a x config.scoring ≡ ok i.score) q
          (subst (λ x. score_battle x r config.scoring ≡ ok i.score) p i.scored),
    )
remembered_score config s none r last a b m e f = cc
remembered_score config s (some l) none last a b m e f = cc
remembered_score config s (some l) (some r) none a b m e f = absurd m

finalize_scored-Returns :
    (h : Hashing) (config : EngineConfig) (s : BattleEngineState) (at : ℕ) (hash : Option Text)
    (l r : Option SideInputs)
    → HasMargins config.victory
    → Resolves h config s hash l r
    → ((a b : SideInputs) → l ≡ some a → r ≡ some b → Returns (score_battle a b config.scoring))
    → Returns (finalize_scored h s at hash config l r)
unfolding finalize_scored
finalize_scored-Returns h config s at hash none r m resolves score = (_, refl)
finalize_scored-Returns h config s at hash (some l) none m resolves score = (_, refl)
finalize_scored-Returns h config s at hash (some l) (some r) m resolves score =
    elim (Bool-cases (s.tick_sequence == 0)) [
      | inl e ↦ rw e (_, refl)
      | inr e ↦ rw e (finalize_from-Returns h config s at hash l r m resolves (score l r refl refl))
    ]

decide-Returns :
    (clock : CanonicalClock) (at : ℕ) (complete : Bool) (max_wait : ℕ)
    → clock.battle_end_at ≤ at
    → Returns (decide_finalization clock at complete max_wait)
unfolding decide_finalization
decide-Returns clock at complete max_wait h = elim (Bool-cases (ltb at clock.battle_end_at)) [
  | inl e ↦ absurd (ground arith)
  | inr e ↦ elim (Bool-cases complete) [
    | inl f ↦ rw (e, f) (_, refl)
    | inr f ↦ elim (Bool-cases (ltb (at - clock.battle_end_at) max_wait)) [
      | inl g ↦ rw (e, f, g) (_, refl)
      | inr g ↦ rw (e, f, g) (_, refl)
    ]
  ]
]

finalize_decided-Returns :
    (h : Hashing) (config : EngineConfig) (s : BattleEngineState) (at : ℕ) (hash : Option Text)
    (d : FinalizationDecision)
    → HasMargins config.victory
    → Resolves h config s hash s.last_left s.last_right
    → IsSound config s
    → Returns (finalize_decided h s at hash config d)
unfolding finalize_decided
finalize_decided-Returns h config s at hash wait m resolves i = (_, refl)
finalize_decided-Returns h config s at hash void m resolves i = (_, refl)
finalize_decided-Returns h config s at hash finalize m resolves i =
    finalize_scored-Returns h config s at hash s.last_left s.last_right m resolves
      (λ a b e f. remembered_score config s _ _ _ a b i.remembered e f)

finalize_live-Returns :
    (h : Hashing) (config : EngineConfig) (s : BattleEngineState) (at : ℕ) (hash : Option Text)
    (complete : Bool)
    → s.setup.clock.battle_end_at ≤ at
    → HasMargins config.victory
    → Resolves h config s hash s.last_left s.last_right
    → IsSound config s
    → Returns (finalize_live h s at hash config complete BattleState.live)
unfolding finalize_live
finalize_live-Returns h config s at hash complete cutoff m resolves i =
    >>=-Returns (decide_finalization s.setup.clock at complete config.max_wait) _
      (decide-Returns s.setup.clock at complete config.max_wait cutoff)
      (λ d _. finalize_decided-Returns h config s at hash d m resolves i)

-- A sound live battle ends from its cutoff on, when its score resolves.
pub finalize_resolved-Returns :
    (h : Hashing) (config : EngineConfig) (s : BattleEngineState) (at : ℕ) (hash : Option Text)
    (complete : Bool)
    → IsSound config s
    → s.state ≡ BattleState.live
    → s.setup.clock.battle_end_at ≤ at
    → HasMargins config.victory
    → Resolves h config s hash s.last_left s.last_right
    → Returns (finalize_battle h s at hash config complete)
unfolding finalize_battle
finalize_resolved-Returns h config s at hash complete i live cutoff m resolves =
    subst (λ b. Returns (finalize_live h s at hash config complete b)) (sym live)
      (finalize_live-Returns h config s at hash complete cutoff m resolves i)

-- `finalizeBattle` returns, on every live battle that the engine reaches, from its cutoff on, with
-- victory thresholds in order and a block hash that chainDerivedSide takes.
pub finalize-Returns :
    (hashing : Hashing) (config : EngineConfig) (setup : BattleSetup) (s : BattleEngineState)
    (at : ℕ) (hash : Text) (complete : Bool)
    → Reaches hashing config setup s
    → s.state ≡ BattleState.live
    → s.setup.clock.battle_end_at ≤ at
    → HasMargins config.victory
    → Returns (chain_derived_side hashing hash s.setup.battle_id)
    → Returns (finalize_battle hashing s at (some hash) config complete)
finalize-Returns hashing config setup s at hash complete r live cutoff m side =
    finalize_resolved-Returns hashing config s at (some hash) complete
      (reachable-IsSound hashing config setup r) live cutoff m
      (λ a b score _ _ _.
        resolve_given hashing (resolution_input s (some hash) score) hash _ refl side
          (resolve_battle-Decided hashing (resolution_input s (some hash) score)))
