-- ===== src/BattleEngine/Rounds/Ending.antt =====
-- A live round ends (`needsFinalizationBlockHash` and `finalizeRound` in
-- packages/battle-engine/src/round.ts).
use ponswars.Base.{
  ℕ, ◌≤◌, ◌≡◌, ◌⊎◌, inl, inr, refl, sym, subst, true, false, Bool-cases, List, [], ◌∷◌, All, Option,
  none, some, ok, >>=-Returns, Returns,
}
use ponswars.Base.Text.{Text}
use ponswars.Base.Hashing.{Hashing}
use ponswars.Shared.Round.{RoundState, BattleState, CanonicalClock}
use ponswars.BattleMath.Scoring.{SideInputs, score_battle}
use ponswars.BattleMath.Resolution.Hashed.{IsHexText, chain_derived_side-Returns}
use ponswars.BattleEngine.Battle.{BattleEngineState, EngineConfig}
use ponswars.BattleEngine.Reachable.Endings.{reachable-IsSound}
use ponswars.BattleEngine.Reachable.Finishes.{HasMargins, remembered_score, finalize-Returns}
use ponswars.BattleEngine.Rounds.{
  RoundEngineState, level_battle, needs_finalization_block_hash, finalize_round,
}
use ponswars.BattleEngine.Rounds.Running.{Running}
use ponswars.BattleEngine.Rounds.Unhashed.{
  IsDue, CanEnd, finalize_round-Returns, finalize_round_unhashed,
}

Running-IsDue :
    (h : Hashing) (config : EngineConfig) (clock : CanonicalClock) (at : ℕ)
    (bs : List BattleEngineState)
    → clock.battle_end_at ≤ at
    → All (Running h config clock) bs
    → All (IsDue h config at) bs
Running-IsDue h config clock at [] c a = tt
Running-IsDue h config clock at (b ∷ bs) c (r, a) =
    let on = r.on_clock in
    (
      (
        (r.setup, r.reached),
        r.running,
        subst (λ (k : CanonicalClock). k.battle_end_at ≤ at) (sym on) c,
      ),
      Running-IsDue h config clock at bs c a,
    )

hashed-CanEnd :
    (h : Hashing) (config : EngineConfig) (clock : CanonicalClock) (at : ℕ) (hash : Text)
    (bs : List BattleEngineState)
    → HasMargins config.victory
    → IsHexText hash
    → clock.battle_end_at ≤ at
    → All (Running h config clock) bs
    → All (CanEnd h config at (some hash) true) bs
hashed-CanEnd h config clock at hash [] m d c a = tt
hashed-CanEnd h config clock at hash (b ∷ bs) m d c (r, a) = elim r.running [
  | inl v ↦ (inl v, hashed-CanEnd h config clock at hash bs m d c a)
  | inr live ↦
      let on = r.on_clock in
      let due : b.setup.clock.battle_end_at ≤ at =
        subst (λ (k : CanonicalClock). k.battle_end_at ≤ at) (sym on) c in
      (
        inr (
            finalize-Returns h config r.setup b at hash true r.reached live due m
              (chain_derived_side-Returns h hash b.setup.battle_id d r.named)),
        hashed-CanEnd h config clock at hash bs m d c a,
      )
]

-- Whether a battle is level can be asked of a battle that the engine reached.
level_battle-Returns :
    (config : EngineConfig) (s : BattleState) (l r : Option SideInputs)
    → ((a b : SideInputs) → l ≡ some a → r ≡ some b → Returns (score_battle a b config.scoring))
    → Returns (level_battle config s l r)
unfolding level_battle
level_battle-Returns config BattleState.live (some l) (some r) f =
    >>=-Returns (score_battle l r config.scoring) _ (f l r refl refl) (λ _ _. (_, refl))
level_battle-Returns config BattleState.live none r f = (_, refl)
level_battle-Returns config BattleState.live (some l) none f = (_, refl)
level_battle-Returns config BattleState.scheduled l r f = (_, refl)
level_battle-Returns config BattleState.finalized l r f = (_, refl)
level_battle-Returns config BattleState.void l r f = (_, refl)

pub needs_hash-Returns :
    (h : Hashing) (config : EngineConfig) (clock : CanonicalClock) (bs : List BattleEngineState)
    → All (Running h config clock) bs
    → Returns (needs_finalization_block_hash bs config)
unfolding needs_finalization_block_hash
needs_hash-Returns h config clock [] a = (_, refl)
needs_hash-Returns h config clock (b ∷ bs) (r, a) =
    let i = reachable-IsSound h config r.setup r.reached in
    >>=-Returns (level_battle config b.state b.last_left b.last_right) _
      (level_battle-Returns config b.state b.last_left b.last_right
        (λ x y e f. remembered_score config b _ _ _ x y i.remembered e f))
      (λ level _. elim (Bool-cases level) [
        | inl e ↦ rw e (_, refl)
        | inr e ↦ rw e (needs_hash-Returns h config clock bs a)
      ])

-- A live round of running battles is over once it is finalized from its cutoff on, with a hash in hex
-- where one is needed.
pub finalize_round-Running :
    (h : Hashing) (config : EngineConfig) (state : RoundEngineState) (at : ℕ) (hash : Option Text)
    → state.state ≡ RoundState.battle_live
    → HasMargins config.victory
    → state.clock.battle_end_at ≤ at
    → All (Running h config state.clock) state.battles
    → ((needs_finalization_block_hash state.battles config ≡ ok false) × (hash ≡ none))
      ⊎ ((x : Text) × (hash ≡ some x) × IsHexText x)
    → Returns (finalize_round h state at hash config true)
finalize_round-Running h config state at hash live m c a (inl (n, e)) = rw e (
    let (f, k, _, _) =
      finalize_round_unhashed h config state at live m
        (Running-IsDue h config state.clock at state.battles c a) n in
    (f, k))
finalize_round-Running h config state at hash live m c a (inr (x, e, d)) = rw e (
    finalize_round-Returns h config state at (some x) true live
      (hashed-CanEnd h config state.clock at x state.battles m d c a))
