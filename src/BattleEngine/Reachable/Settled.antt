-- ===== src/BattleEngine/Reachable/Settled.antt =====
-- Battles that are settled, and that a battle can be settled (packages/battle-engine/src/engine.ts).
use ponswars.Base.{
  ℕ, ◌==◌, ◌≡◌, ◌⊎◌, inl, inr, refl, ap, subst, Bool, Bool-cases, Option, none, some, ok, err,
  failure, >>=-eq-ok, ok-injective,
}
use ponswars.Base.Text.{Text}
use ponswars.Base.Hashing.{Hashing}
use ponswars.Shared.Round.{BattleState, can_transition_battle}
use ponswars.BattleMath.Scoring.{SideInputs, score_battle}
use ponswars.BattleMath.Resolution.{resolve_battle, classify_victory}
use ponswars.BattleMath.Scheduler.{FinalizationDecision, wait, finalize, void, decide_finalization}
use ponswars.BattleEngine.Battle.{
  BattleEngineState, EngineConfig, TickInput, ignored, not_live, open_battle, apply_tick,
  void_state,
}
use ponswars.BattleEngine.Finalize.{
  FinalizeOutcome, waiting, finalized_as, voided_as, finalize_battle, finalize_live,
  finalize_decided, finalize_scored, finalize_from,
}
use ponswars.BattleEngine.Reachable.Endings.{final_state}

abbrev pub IsSettled : BattleState → Type 0
IsSettled b = (b ≡ BattleState.finalized) ⊎ (b ≡ BattleState.void)

-- No operation changes the battle any more.
pub record Refuses (h : Hashing) (config : EngineConfig) (s : BattleEngineState) : Type 0 where
  pub opens : (at : ℕ) → open_battle s at ≡ err failure
  pub ticks : (input : TickInput) → apply_tick h s input config ≡ ok (ignored not_live s)
  pub finalizes :
      (at : ℕ) (hash : Option Text) (complete : Bool)
      → finalize_battle h s at hash config complete ≡ err failure

settled-Refuses :
    (h : Hashing) (config : EngineConfig) (s : BattleEngineState)
    → IsSettled s.state
    → Refuses h config s
unfolding open_battle apply_tick finalize_battle finalize_live can_transition_battle
settled-Refuses h config s (inl e) = record {
  opens = λ at. rw e refl;
  ticks = λ input. rw e refl;
  finalizes = λ at hash complete. rw e refl;
}
settled-Refuses h config s (inr e) = record {
  opens = λ at. rw e refl;
  ticks = λ input. rw e refl;
  finalizes = λ at hash complete. rw e refl;
}

-- The outcome waits, or settles the battle.
abbrev pub Ends : BattleEngineState → FinalizeOutcome → Type 0
Ends s (waiting t) = t ≡ s
Ends s (finalized_as t result) = t.state ≡ BattleState.finalized
Ends s (voided_as t reason) = t.state ≡ BattleState.void

finalize_scored-Ends :
    (h : Hashing) (config : EngineConfig) (s : BattleEngineState) (at : ℕ) (hash : Option Text)
    (l r : Option SideInputs) {o : FinalizeOutcome}
    → finalize_scored h s at hash config l r ≡ ok o
    → Ends s o
unfolding finalize_scored finalize_from void_state
finalize_scored-Ends h config s at hash none r e = subst (Ends s) (ok-injective e) refl
finalize_scored-Ends h config s at hash (some l) none e = subst (Ends s) (ok-injective e) refl
finalize_scored-Ends h config s at hash (some l) (some r) e =
    elim (Bool-cases (s.tick_sequence == 0)) [
      | inl f ↦ subst (Ends s) (ok-injective (rw f at e)) refl
      | inr f ↦
          let (score, _, e1) = >>=-eq-ok (score_battle l r config.scoring) _ (rw f at e) in
          let (resolution, _, e2) = >>=-eq-ok (resolve_battle h _) _ e1 in
          let (label, _, e3) = >>=-eq-ok (classify_victory _) _ e2 in
          subst (Ends s) (ok-injective e3) refl
    ]

finalize_decided-Ends :
    (h : Hashing) (config : EngineConfig) (s : BattleEngineState) (at : ℕ) (hash : Option Text)
    (d : FinalizationDecision) {o : FinalizeOutcome}
    → finalize_decided h s at hash config d ≡ ok o
    → Ends s o
unfolding finalize_decided void_state
finalize_decided-Ends h config s at hash wait e = subst (Ends s) (ok-injective e) refl
finalize_decided-Ends h config s at hash void e = subst (Ends s) (ok-injective e) refl
finalize_decided-Ends h config s at hash finalize e =
    finalize_scored-Ends h config s at hash s.last_left s.last_right e

finalize_live-Ends :
    (h : Hashing) (config : EngineConfig) (s : BattleEngineState) (at : ℕ) (hash : Option Text)
    (complete : Bool) (b : BattleState) {o : FinalizeOutcome}
    → finalize_live h s at hash config complete b ≡ ok o
    → Ends s o
unfolding finalize_live
finalize_live-Ends h config s at hash complete BattleState.scheduled e = cc
finalize_live-Ends h config s at hash complete BattleState.finalized e = cc
finalize_live-Ends h config s at hash complete BattleState.void e = cc
finalize_live-Ends h config s at hash complete BattleState.live e =
    let (d, _, g) = >>=-eq-ok (decide_finalization s.setup.clock at complete config.max_wait) _ e in
    finalize_decided-Ends h config s at hash d g

Ends-Refuses :
    (h : Hashing) (config : EngineConfig) (s : BattleEngineState) (o : FinalizeOutcome)
    → Ends s o
    → (o ≡ waiting s) ⊎ Refuses h config (final_state o)
Ends-Refuses h config s (waiting t) e = inl (ap waiting e)
Ends-Refuses h config s (finalized_as t result) e = inr (settled-Refuses h config t (inl e))
Ends-Refuses h config s (voided_as t reason) e = inr (settled-Refuses h config t (inr e))

pub finalize_battle-Ends :
    (h : Hashing) (config : EngineConfig) (s : BattleEngineState) (at : ℕ) (hash : Option Text)
    (complete : Bool) {o : FinalizeOutcome}
    → finalize_battle h s at hash config complete ≡ ok o
    → Ends s o
unfolding finalize_battle
finalize_battle-Ends h config s at hash complete e =
    finalize_live-Ends h config s at hash complete s.state e

-- Finalization is exactly-once: a call of `finalizeBattle` that returns either waits and leaves the
-- battle as it was, or settles it for good, so that from then on opening or finalizing it again throws
-- an Error and every tick is ignored and changes nothing.
pub finalize_once :
    (hashing : Hashing) (config : EngineConfig) (s : BattleEngineState) (at : ℕ)
    (hash : Option Text) (complete : Bool) {o : FinalizeOutcome}
    → finalize_battle hashing s at hash config complete ≡ ok o
    → (o ≡ waiting s) ⊎ Refuses hashing config (final_state o)
finalize_once hashing config s at hash complete {o = o} e =
    Ends-Refuses hashing config s o (finalize_battle-Ends hashing config s at hash complete e)
