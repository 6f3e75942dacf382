-- ===== src/BattleEngine/Rounds/Complete.antt =====
-- Once the data of a round is complete, finalizing it ends it (`finalizeRound` in
-- packages/battle-engine/src/round.ts).
use ponswars.Base.{
  ℕ, ◌+◌, ◌==◌, ◌≡◌, inl, inr, refl, sym, subst, true, Bool-cases, List, [], ◌∷◌, length, ltb,
  Option, none, some, ok, >>=-eq-ok, ok-injective, arith,
}
use ponswars.Base.Text.{Text}
use ponswars.Base.Hashing.{Hashing}
use ponswars.Shared.Round.{
  RoundState, BattleState, CanonicalClock, can_transition_round, battle_state_eq,
}
use ponswars.BattleMath.Scoring.{SideInputs, score_battle}
use ponswars.BattleMath.Resolution.{resolve_battle, classify_victory}
use ponswars.BattleMath.Scheduler.{FinalizationDecision, finalize, decide_finalization}
use ponswars.BattleEngine.Battle.{BattleEngineState, EngineConfig}
use ponswars.BattleEngine.Finalize.{
  FinalizeOutcome, waiting, finalized_as, voided_as, finalize_battle, finalize_live,
  finalize_decided, finalize_scored, finalize_from,
}
use ponswars.BattleEngine.Rounds.{
  RoundEngineState, RoundFinalization, Gathered, gather, finalize_battles, is_settled,
  finalize_round,
}

-- Once the data is complete, finalizing a battle does not wait.
abbrev IsEnd : FinalizeOutcome → Type 0
IsEnd (waiting s) = ⊥
IsEnd (finalized_as s result) = Unit {0}
IsEnd (voided_as s reason) = Unit {0}

complete-finalize :
    (clock : CanonicalClock) (at max_wait : ℕ) {d : FinalizationDecision}
    → decide_finalization clock at true max_wait ≡ ok d
    → d ≡ finalize
unfolding decide_finalization
complete-finalize clock at max_wait e = elim (Bool-cases (ltb at clock.battle_end_at)) [
  | inl f ↦ absurd (let x = rw f at e in cc)
  | inr f ↦ sym (ok-injective (rw f at e))
]

finalize_scored-IsEnd :
    (h : Hashing) (config : EngineConfig) (s : BattleEngineState) (at : ℕ) (hash : Option Text)
    (l r : Option SideInputs) {o : FinalizeOutcome}
    → finalize_scored h s at hash config l r ≡ ok o
    → IsEnd o
unfolding finalize_scored finalize_from
finalize_scored-IsEnd h config s at hash none r e = subst IsEnd (ok-injective e) tt
finalize_scored-IsEnd h config s at hash (some l) none e = subst IsEnd (ok-injective e) tt
finalize_scored-IsEnd h config s at hash (some l) (some r) e =
    elim (Bool-cases (s.tick_sequence == 0)) [
      | inl f ↦ subst IsEnd (ok-injective (rw f at e)) tt
      | inr f ↦
          let (score, a, g) = >>=-eq-ok (score_battle l r config.scoring) _ (rw f at e) in
          let (resolution, b, k) = >>=-eq-ok (resolve_battle h _) _ g in
          let (label, c, m) = >>=-eq-ok (classify_victory _) _ k in subst IsEnd (ok-injective m) tt
    ]

finalize_live-IsEnd :
    (h : Hashing) (config : EngineConfig) (s : BattleEngineState) (at : ℕ) (hash : Option Text)
    (b : BattleState) {o : FinalizeOutcome}
    → finalize_live h s at hash config true b ≡ ok o
    → IsEnd o
unfolding finalize_live finalize_decided
finalize_live-IsEnd h config s at hash BattleState.scheduled e = cc
finalize_live-IsEnd h config s at hash BattleState.finalized e = cc
finalize_live-IsEnd h config s at hash BattleState.void e = cc
finalize_live-IsEnd h config s at hash BattleState.live {o} e =
    let (d, f, g) = >>=-eq-ok (decide_finalization s.setup.clock at true config.max_wait) _ e in
    finalize_scored-IsEnd h config s at hash s.last_left s.last_right (
      subst (λ (x : FinalizationDecision). finalize_decided h s at hash config x ≡ ok o)
        (complete-finalize s.setup.clock at config.max_wait f) g)

-- Every battle is counted among the results or the voided ones.
abbrev IsFull : List BattleEngineState → Gathered → Type 0
IsFull bs g = length g.results + length g.voided ≡ length bs

gather-IsFull :
    (b : BattleEngineState) (bs : List BattleEngineState) (o : FinalizeOutcome) (g : Gathered)
    → IsEnd o
    → IsFull bs g
    → IsFull (b ∷ bs) (gather b o g)
unfolding gather
gather-IsFull b bs (waiting s) g e c = absurd e
gather-IsFull b bs (finalized_as s result) g e c = omega (arith, c)
gather-IsFull b bs (voided_as s reason) g e c = omega (arith, c)

finalize_battles-IsFull :
    (h : Hashing) (config : EngineConfig) (at : ℕ) (hash : Option Text)
    (bs : List BattleEngineState) {g : Gathered}
    → finalize_battles h bs at hash config true ≡ ok g
    → IsFull bs g
unfolding finalize_battles finalize_battle
finalize_battles-IsFull h config at hash [] e = subst (IsFull []) (ok-injective e) refl
finalize_battles-IsFull h config at hash (b ∷ bs) e =
    elim (Bool-cases (battle_state_eq b.state BattleState.void)) [
      | inl v ↦
          let (g, f, k) = >>=-eq-ok (finalize_battles h bs at hash config true) _ (rw v at e) in
          let c = finalize_battles-IsFull h config at hash bs f in
          subst (IsFull (b ∷ bs)) (ok-injective k) (omega (arith, c))
      | inr v ↦
          let (o, d, m) = >>=-eq-ok (finalize_live h b at hash config true b.state) _ (rw v at e) in
          let (g, f, k) = >>=-eq-ok (finalize_battles h bs at hash config true) _ m in
          subst (IsFull (b ∷ bs)) (ok-injective k) (
            gather-IsFull b bs o g (finalize_live-IsEnd h config b at hash b.state d)
              (finalize_battles-IsFull h config at hash bs f))
    ]

-- A round that is finalized once its data is complete is over.
pub finalize_round_complete :
    (h : Hashing) (config : EngineConfig) (state : RoundEngineState) (at : ℕ) (hash : Option Text)
    {f : RoundFinalization}
    → finalize_round h state at hash config true ≡ ok f
    → f.state.state ≡ RoundState.finalized
unfolding finalize_round is_settled
finalize_round_complete h config state at hash e =
    elim (Bool-cases (can_transition_round state.state RoundState.finalizing)) [
      | inr t ↦ absurd (let x = rw t at e in cc)
      | inl t ↦
          let (g, r, k) =
            >>=-eq-ok (finalize_battles h state.battles at hash config true) _ (rw t at e) in
          let c = finalize_battles-IsFull h config at hash state.battles r in
          let s : ((length g.results + length g.voided) == length state.battles) ≡ true =
            ground (arith, c) in
          subst (λ (f : RoundFinalization). f.state.state ≡ RoundState.finalized) (ok-injective k)
            (rw s refl)
    ]
