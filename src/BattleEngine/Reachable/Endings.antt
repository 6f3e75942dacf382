-- ===== src/BattleEngine/Reachable/Endings.antt =====
-- Battles that end, and what holds of every battle (packages/battle-engine/src/engine.ts).
use ponswars.Base.{
  ℕ, ◌==◌, ◌≡◌, refl, subst, Bool, Bool-cases, inl, inr, Option, none, some, ok, >>=-eq-ok,
  ok-injective,
}
use ponswars.Base.Text.{Text}
use ponswars.Base.Hashing.{Hashing}
use ponswars.Shared.Labels.{data_integrity}
use ponswars.Shared.Round.{BattleState}
use ponswars.BattleMath.Scoring.{BattleScore, SideInputs, score_battle}
use ponswars.BattleEngine.Battle.{
  BattleEngineState, BattleSetup, CardSupportPair, EngineConfig, TickInput, TickOutcome,
  begin_battle, open_battle, apply_tick, void_state,
}
use ponswars.BattleMath.Resolution.{resolve_battle, classify_victory}
use ponswars.BattleMath.Scheduler.{FinalizationDecision, wait, finalize, void, decide_finalization}
use ponswars.BattleEngine.Finalize.{
  FinalizeOutcome, waiting, finalized_as, voided_as, finalize_battle, finalize_live,
  finalize_decided, finalize_scored, finalize_from,
}
use ponswars.BattleEngine.Reachable.{
  HasReason, Remembers, IsSound, tick_state, relabel, Soundly, open_battle-Soundly,
  apply_tick-Soundly, begin_battle-IsSound,
}

abbrev pub final_state : FinalizeOutcome → BattleEngineState
final_state (waiting s) = s
final_state (finalized_as s result) = s
final_state (voided_as s reason) = s

voided-IsSound :
    {config : EngineConfig} (s : BattleEngineState)
    → IsSound config s
    → IsSound config (void_state s)
unfolding void_state
voided-IsSound s i = relabel s BattleState.void (some data_integrity) refl i

-- What the engine remembers stays when a battle ends on a known score.
Remembers-finalized :
    (config : EngineConfig) (s : BattleEngineState) (l r : SideInputs) (score : BattleScore)
    (el er : Option SideInputs) (last : Option ℕ)
    → el ≡ some l
    → er ≡ some r
    → score_battle l r config.scoring ≡ ok score
    → Remembers config s el er last
    → Remembers config
        (record s {
          state = BattleState.finalized;
          left_score_scaled = score.left_total;
          right_score_scaled = score.right_total;
        })
        el
        er
        last
Remembers-finalized config s l r score (some a) (some b) (some t) p q e (m, n, o, _) =
    let x : l ≡ a = cc in
    let y : r ≡ b = cc in
    (
      m,
      n,
      o,
      record {
        score = score;
        scored =
            subst (λ z. score_battle a z config.scoring ≡ ok score) y
              (subst (λ z. score_battle z r config.scoring ≡ ok score) x e);
        left_total = refl;
        right_total = refl;
      },
    )
Remembers-finalized config s l r score none er last p q e m = cc
Remembers-finalized config s l r score (some a) none last p q e m = cc
Remembers-finalized config s l r score (some a) (some b) none p q e m = absurd m

finalize_from-IsSound :
    (h : Hashing) (config : EngineConfig) (s : BattleEngineState) (at : ℕ) (hash : Option Text)
    (l r : SideInputs) {o : FinalizeOutcome}
    → s.state ≡ BattleState.live
    → s.last_left ≡ some l
    → s.last_right ≡ some r
    → IsSound config s
    → finalize_from h s at hash config l r ≡ ok o
    → IsSound config (final_state o)
unfolding finalize_from
finalize_from-IsSound h config s at hash l r live el er i f =
    let (score, e, f1) = >>=-eq-ok (score_battle l r config.scoring) _ f in
    let (resolution, _, f2) = >>=-eq-ok (resolve_battle h _) _ f1 in
    let (label, _, f3) = >>=-eq-ok (classify_victory _) _ f2 in
    subst (λ o. IsSound config (final_state o)) (ok-injective f3)
      (record {
        reason = subst (λ b. HasReason b s.void_reason) live i.reason;
        remembered = Remembers-finalized config s l r score _ _ _ el er e i.remembered;
        momentum_ticks = i.momentum_ticks;
      })

finalize_scored-IsSound :
    (h : Hashing) (config : EngineConfig) (s : BattleEngineState) (at : ℕ) (hash : Option Text)
    (l r : Option SideInputs) {o : FinalizeOutcome}
    → s.state ≡ BattleState.live
    → s.last_left ≡ l
    → s.last_right ≡ r
    → IsSound config s
    → finalize_scored h s at hash config l r ≡ ok o
    → IsSound config (final_state o)
unfolding finalize_scored
finalize_scored-IsSound h config s at hash none r live el er i f =
    subst (λ o. IsSound config (final_state o)) (ok-injective f) (voided-IsSound s i)
finalize_scored-IsSound h config s at hash (some l) none live el er i f =
    subst (λ o. IsSound config (final_state o)) (ok-injective f) (voided-IsSound s i)
finalize_scored-IsSound h config s at hash (some l) (some r) live el er i f =
    elim (Bool-cases (s.tick_sequence == 0)) [
      | inl e ↦
          subst (λ o. IsSound config (final_state o)) (ok-injective (rw e at f))
            (voided-IsSound s i)
      | inr e ↦ finalize_from-IsSound h config s at hash l r live el er i (rw e at f)
    ]

finalize_decided-IsSound :
    (h : Hashing) (config : EngineConfig) (s : BattleEngineState) (at : ℕ) (hash : Option Text)
    (d : FinalizationDecision) {o : FinalizeOutcome}
    → s.state ≡ BattleState.live
    → IsSound config s
    → finalize_decided h s at hash config d ≡ ok o
    → IsSound config (final_state o)
unfolding finalize_decided
finalize_decided-IsSound h config s at hash wait live i f =
    subst (λ o. IsSound config (final_state o)) (ok-injective f) i
finalize_decided-IsSound h config s at hash void live i f =
    subst (λ o. IsSound config (final_state o)) (ok-injective f) (voided-IsSound s i)
finalize_decided-IsSound h config s at hash finalize live i f =
    finalize_scored-IsSound h config s at hash s.last_left s.last_right live refl refl i f

finalize_live-IsSound :
    (h : Hashing) (config : EngineConfig) (s : BattleEngineState) (at : ℕ) (hash : Option Text)
    (complete : Bool) (b : BattleState) {o : FinalizeOutcome}
    → s.state ≡ b
    → IsSound config s
    → finalize_live h s at hash config complete b ≡ ok o
    → IsSound config (final_state o)
unfolding finalize_live
finalize_live-IsSound h config s at hash complete BattleState.scheduled e i f = cc
finalize_live-IsSound h config s at hash complete BattleState.finalized e i f = cc
finalize_live-IsSound h config s at hash complete BattleState.void e i f = cc
finalize_live-IsSound h config s at hash complete BattleState.live e i f =
    let (d, _, g) = >>=-eq-ok (decide_finalization s.setup.clock at complete config.max_wait) _ f in
    finalize_decided-IsSound h config s at hash d e i g

-- The states that the engine reaches from the setup of a battle: opened, given the support of cards,
-- ticked and finalized in any order, at any times and with any inputs.
pub data Reaches (h : Hashing) (config : EngineConfig) (setup : BattleSetup)
    : BattleEngineState → Type 0 where
  begun : Reaches h config setup (begin_battle setup)
  opened :
      {s t : BattleEngineState} (at : ℕ)
      → Reaches h config setup s
      → open_battle s at ≡ ok t
      → Reaches h config setup t
  ticked :
      {s : BattleEngineState} (input : TickInput) {o : TickOutcome}
      → Reaches h config setup s
      → apply_tick h s input config ≡ ok o
      → Reaches h config setup (tick_state o)
  backed :
      {s : BattleEngineState} (support : CardSupportPair)
      → Reaches h config setup s
      → Reaches h config setup (record s { card_support = support })
  ended :
      {s : BattleEngineState} (at : ℕ) (hash : Option Text) (complete : Bool) {o : FinalizeOutcome}
      → Reaches h config setup s
      → finalize_battle h s at hash config complete ≡ ok o
      → Reaches h config setup (final_state o)

finalize_battle-IsSound :
    (h : Hashing) (config : EngineConfig) (s : BattleEngineState) (at : ℕ) (hash : Option Text)
    (complete : Bool) {o : FinalizeOutcome}
    → IsSound config s
    → finalize_battle h s at hash config complete ≡ ok o
    → IsSound config (final_state o)
unfolding finalize_battle
finalize_battle-IsSound h config s at hash complete i f =
    finalize_live-IsSound h config s at hash complete s.state refl i f

-- In every battle that the engine reaches, whatever its ticks: it has a void reason exactly when it is
-- void; the engine remembers either nothing, and then no tick was counted, or the two inputs and the
-- time of a tick inside the scoring window, and then the scores that it shows are those that
-- scoreBattle gives for these inputs; and the momentum has seen each counted tick once.
pub reachable-IsSound :
    (h : Hashing) (config : EngineConfig) (setup : BattleSetup) {s : BattleEngineState}
    → Reaches h config setup s
    → IsSound config s
reachable-IsSound h config setup begun = begin_battle-IsSound config setup
reachable-IsSound h config setup (opened {s = s} at r e) =
    subst (Soundly config (λ b. b)) e
      (open_battle-Soundly config s at (reachable-IsSound h config setup r))
reachable-IsSound h config setup (ticked {s = s} input r e) =
    subst (Soundly config tick_state) e
      (apply_tick-Soundly h config s input (reachable-IsSound h config setup r))
reachable-IsSound h config setup (backed {s = s} support r) =
    let i = reachable-IsSound h config setup r in
    record { reason = i.reason; remembered = i.remembered; momentum_ticks = i.momentum_ticks }
reachable-IsSound h config setup (ended {s = s} at hash complete r e) =
    finalize_battle-IsSound h config s at hash complete (reachable-IsSound h config setup r) e
