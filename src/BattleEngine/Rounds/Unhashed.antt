-- ===== src/BattleEngine/Rounds/Unhashed.antt =====
-- Finalizing a round with no block hash (`needsFinalizationBlockHash` and `finalizeRound` in
-- packages/battle-engine/src/round.ts).
use ponswars.Base.{
  ℕ, ◌≤◌, ◌≡◌, ◌⊎◌, inl, inr, refl, ap, ◌∙◌, sym, subst, Bool, true, false, Bool-cases, List, [],
  ◌∷◌, All, Option, none, some, ok, >>=-eq-ok, >>=-Returns, ok-injective, Returns,
}
use ponswars.Base.Text.{Text}
use ponswars.Base.Hashing.{Hashing}
use ponswars.Shared.Round.{RoundState, BattleState, can_transition_round, battle_state_eq}
use ponswars.BattleMath.Scoring.{SideInputs, score_battle}
use ponswars.BattleMath.Resolution.{needs_chain_tiebreak}
use ponswars.BattleMath.Resolution.Level.{resolve_without_hash_iff}
use ponswars.BattleEngine.Battle.{BattleEngineState, BattleSetup, EngineConfig}
use ponswars.BattleEngine.Finalize.{finalize_battle, resolution_input}
use ponswars.BattleEngine.Reachable.Endings.{Reaches, reachable-IsSound}
use ponswars.BattleEngine.Reachable.Finishes.{HasMargins, Resolves, finalize_resolved-Returns}
use ponswars.BattleEngine.Reachable.Settled.{IsSettled}
use ponswars.BattleEngine.Rounds.Complete.{finalize_round_complete}
use ponswars.BattleEngine.Rounds.Retry.{finalized_round_ends}
use ponswars.BattleEngine.Rounds.{
  RoundEngineState, RoundFinalization, level_battle, needs_finalization_block_hash,
  finalize_battles, finalize_round,
}

-- A battle that the engine reaches, is void or past its cutoff.
abbrev pub IsDue : Hashing → EngineConfig → ℕ → BattleEngineState → Type 0
IsDue h config at b =
    ((setup : BattleSetup) × Reaches h config setup b)
    × ((b.state ≡ BattleState.void) ⊎ (b.state ≡ BattleState.live))
    × (b.setup.clock.battle_end_at ≤ at)

level_battle-Resolves :
    (h : Hashing) (config : EngineConfig) (s : BattleEngineState) (b : BattleState)
    (l r : Option SideInputs)
    → b ≡ BattleState.live
    → level_battle config b l r ≡ ok false
    → Resolves h config s none l r
unfolding level_battle
level_battle-Resolves h config s BattleState.live (some l) (some r) live e a b score el er scored =
    let x : l ≡ a = cc in
    let y : r ≡ b = cc in
    let (found, f, g) = >>=-eq-ok (score_battle l r config.scoring) _ e in
    let same : found ≡ score = ok-injective (
      sym f
      ∙ ap (λ z. score_battle z r config.scoring) x
      ∙ ap (λ z. score_battle a z config.scoring) y
      ∙ scored) in
    (resolve_without_hash_iff h (resolution_input s none score) refl).1
      (subst (λ z. needs_chain_tiebreak z ≡ false) same (ok-injective g))
level_battle-Resolves h config s BattleState.live none r live e a b score el er scored = cc
level_battle-Resolves h config s BattleState.live (some l) none live e a b score el er scored = cc
level_battle-Resolves h config s BattleState.scheduled l r live e a b score el er scored = cc
level_battle-Resolves h config s BattleState.finalized l r live e a b score el er scored = cc
level_battle-Resolves h config s BattleState.void l r live e a b score el er scored = cc

no_need :
    (b : BattleEngineState) (battles : List BattleEngineState) (config : EngineConfig)
    → needs_finalization_block_hash (b ∷ battles) config ≡ ok false
    → (level_battle config b.state b.last_left b.last_right ≡ ok false)
      × (needs_finalization_block_hash battles config ≡ ok false)
unfolding needs_finalization_block_hash
no_need b battles config e =
    let (level, f, g) = >>=-eq-ok (level_battle config b.state b.last_left b.last_right) _ e in
    elim (Bool-cases level) [
      | inl t ↦ absurd (let k = rw t at g in cc)
      | inr t ↦ (f ∙ ap ok t, rw t at g)
    ]

-- A battle that is void or that can be finalized.
abbrev pub CanEnd : Hashing → EngineConfig → ℕ → Option Text → Bool → BattleEngineState → Type 0
CanEnd h config at hash complete b =
    (b.state ≡ BattleState.void) ⊎ Returns (finalize_battle h b at hash config complete)

finalize_battles-Returns :
    (h : Hashing) (config : EngineConfig) (at : ℕ) (hash : Option Text) (complete : Bool)
    (battles : List BattleEngineState)
    → All (CanEnd h config at hash complete) battles
    → Returns (finalize_battles h battles at hash config complete)
unfolding finalize_battles
finalize_battles-Returns h config at hash complete [] a = (_, refl)
finalize_battles-Returns h config at hash complete (b ∷ battles) (inl v, a) = rw v (
    >>=-Returns (finalize_battles h battles at hash config complete) _
      (finalize_battles-Returns h config at hash complete battles a) (λ _ _. (_, refl)))
finalize_battles-Returns h config at hash complete (b ∷ battles) (inr r, a) =
    let rest = finalize_battles-Returns h config at hash complete battles a in
    elim (Bool-cases (battle_state_eq b.state BattleState.void)) [
      | inl v ↦ rw v (
          >>=-Returns (finalize_battles h battles at hash config complete) _ rest
            (λ _ _. (_, refl)))
      | inr v ↦ rw v (
          >>=-Returns (finalize_battle h b at hash config complete) _ r (λ _ _.
            >>=-Returns (finalize_battles h battles at hash config complete) _ rest
              (λ _ _. (_, refl))))
    ]

-- A live round whose battles can end is finalized.
pub finalize_round-Returns :
    (h : Hashing) (config : EngineConfig) (state : RoundEngineState) (at : ℕ) (hash : Option Text)
    (complete : Bool)
    → state.state ≡ RoundState.battle_live
    → All (CanEnd h config at hash complete) state.battles
    → Returns (finalize_round h state at hash config complete)
unfolding finalize_round can_transition_round
finalize_round-Returns h config state at hash complete live a =
    let t : can_transition_round state.state RoundState.finalizing ≡ true =
      ap (λ s. can_transition_round s RoundState.finalizing) live in
    rw t (
      >>=-Returns (finalize_battles h state.battles at hash config complete) _
        (finalize_battles-Returns h config at hash complete state.battles a) (λ _ _. (_, refl)))

unhashed-CanEnd :
    (h : Hashing) (config : EngineConfig) (at : ℕ) (complete : Bool)
    (battles : List BattleEngineState)
    → HasMargins config.victory
    → All (IsDue h config at) battles
    → needs_finalization_block_hash battles config ≡ ok false
    → All (CanEnd h config at none complete) battles
unhashed-CanEnd h config at complete [] m d e = tt
unhashed-CanEnd h config at complete (b ∷ battles) m ((r, inl v, c), ds) e =
    (inl v, unhashed-CanEnd h config at complete battles m ds (no_need b battles config e).1)
unhashed-CanEnd h config at complete (b ∷ battles) m (((setup, r), inr live, c), ds) e =
    let (f, g) = no_need b battles config e in
    (
      inr (
          finalize_resolved-Returns h config b at none complete (reachable-IsSound h config setup r)
            live c m (level_battle-Resolves h config b b.state b.last_left b.last_right live f)),
      unhashed-CanEnd h config at complete battles m ds g,
    )

-- A live round whose battles the engine reached, each void or past its cutoff, needs no block hash when
-- `needsFinalizationBlockHash` answers false: with victory thresholds in order and the data complete,
-- `finalizeRound` without one returns the round as FINALIZED, each of its battles finalized or void.
pub finalize_round_unhashed :
    (hashing : Hashing) (config : EngineConfig) (state : RoundEngineState) (at : ℕ)
    → state.state ≡ RoundState.battle_live
    → HasMargins config.victory
    → All (IsDue hashing config at) state.battles
    → needs_finalization_block_hash state.battles config ≡ ok false
    → (f : RoundFinalization) × (finalize_round hashing state at none config true ≡ ok f)
      × (f.state.state ≡ RoundState.finalized)
      × All (λ b. IsSettled b.state) f.state.battles
finalize_round_unhashed hashing config state at live m d e =
    let (f, k) =
      finalize_round-Returns hashing config state at none true live
        (unhashed-CanEnd hashing config at true state.battles m d e) in
    let over = finalize_round_complete hashing config state at none k in
    (f, k, over, finalized_round_ends hashing state at none config true k over)
