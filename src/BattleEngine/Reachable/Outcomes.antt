-- ===== src/BattleEngine/Reachable/Outcomes.antt =====
-- How a battle ends from its cutoff on (`finalizeBattle` in packages/battle-engine/src/engine.ts).
use ponswars.Base.{
  ℕ, ◌-◌, ◌≤◌, ◌<◌, ◌==◌, ◌≡◌, ◌⊎◌, inl, inr, refl, subst, Bool, true, false, Bool-cases, Option,
  none, some, ltb, ok, >>=-eq-ok, ok-injective, Returns, arith,
}
use ponswars.Base.Text.{Text}
use ponswars.Base.Hashing.{Hashing}
use ponswars.Shared.Round.{BattleState, CanonicalClock}
use ponswars.BattleMath.Scoring.{SideInputs, score_battle}
use ponswars.BattleMath.Resolution.{chain_derived_side, resolve_battle, classify_victory}
use ponswars.BattleMath.Scheduler.{FinalizationDecision, wait, finalize, void, decide_finalization}
use ponswars.BattleEngine.Battle.{BattleEngineState, BattleSetup, EngineConfig, void_state}
use ponswars.BattleEngine.Finalize.{
  FinalizeOutcome, waiting, finalized_as, voided_as, finalize_battle, finalize_live,
  finalize_decided, finalize_scored, finalize_from,
}
use ponswars.BattleEngine.Reachable.{Remembers, IsSound}
use ponswars.BattleEngine.Reachable.Endings.{Reaches, reachable-IsSound}
use ponswars.BattleEngine.Reachable.Finishes.{HasMargins, finalize-Returns}

-- The outcome of a live battle at an instant from its cutoff on: it waits, unchanged, exactly while the
-- data is not complete and the time to wait is not over, it is finalized when the data is complete and
-- a tick was scored, and it is void else.
abbrev pub EndsAs : ℕ → BattleEngineState → ℕ → Bool → FinalizeOutcome → Type 0
EndsAs max_wait s at complete (waiting t) =
    (complete ≡ false) × (at - s.setup.clock.battle_end_at < max_wait) × (t ≡ s)
EndsAs max_wait s at complete (finalized_as t result) =
    (complete ≡ true) × (1 ≤ s.tick_sequence) × (t.state ≡ BattleState.finalized)
EndsAs max_wait s at complete (voided_as t reason) =
    (t.state ≡ BattleState.void)
    × (((complete ≡ true) × (s.tick_sequence ≡ 0))
        ⊎ ((complete ≡ false) × (max_wait ≤ at - s.setup.clock.battle_end_at)))

-- What a decision was made for.
abbrev DecidedFor : CanonicalClock → ℕ → Bool → ℕ → FinalizationDecision → Type 0
DecidedFor clock at complete max_wait wait =
    (complete ≡ false) × (at - clock.battle_end_at < max_wait)
DecidedFor clock at complete max_wait finalize = complete ≡ true
DecidedFor clock at complete max_wait void =
    (complete ≡ false) × (max_wait ≤ at - clock.battle_end_at)

decide-DecidedFor :
    (clock : CanonicalClock) (at : ℕ) (complete : Bool) (max_wait : ℕ) {d : FinalizationDecision}
    → decide_finalization clock at complete max_wait ≡ ok d
    → DecidedFor clock at complete max_wait d
unfolding decide_finalization
decide-DecidedFor clock at complete max_wait h = elim (Bool-cases (ltb at clock.battle_end_at)) [
  | inl e ↦ absurd (let x = rw e at h in cc)
  | inr e ↦ elim (Bool-cases complete) [
    | inl f ↦ subst (DecidedFor clock at complete max_wait) (ok-injective (rw (e, f) at h)) f
    | inr f ↦ elim (Bool-cases (ltb (at - clock.battle_end_at) max_wait)) [
      | inl g ↦
          subst (DecidedFor clock at complete max_wait) (ok-injective (rw (e, f, g) at h))
            (f, ground arith)
      | inr g ↦
          subst (DecidedFor clock at complete max_wait) (ok-injective (rw (e, f, g) at h))
            (f, ground arith)
    ]
  ]
]

finalize_scored-EndsAs :
    (h : Hashing) (config : EngineConfig) (s : BattleEngineState) (at : ℕ) (hash : Option Text)
    (complete : Bool) (l r : Option SideInputs) (last : Option ℕ) {o : FinalizeOutcome}
    → complete ≡ true
    → Remembers config s l r last
    → finalize_scored h s at hash config l r ≡ ok o
    → EndsAs config.max_wait s at complete o
unfolding finalize_scored finalize_from void_state
finalize_scored-EndsAs h config s at hash complete none none none c m e =
    subst (EndsAs config.max_wait s at complete) (ok-injective e) (refl, inl (c, m))
finalize_scored-EndsAs h config s at hash complete none none (some t) c m e = absurd m
finalize_scored-EndsAs h config s at hash complete none (some r) last c m e = absurd m
finalize_scored-EndsAs h config s at hash complete (some l) none last c m e = absurd m
finalize_scored-EndsAs h config s at hash complete (some l) (some r) none c m e = absurd m
finalize_scored-EndsAs h config s at hash complete (some l) (some r) (some t) c (n, _, _, _) e =
    elim (Bool-cases (s.tick_sequence == 0)) [
      | inl f ↦ absurd (ground arith)
      | inr f ↦
          let (score, _, g) = >>=-eq-ok (score_battle l r config.scoring) _ (rw f at e) in
          let (resolution, _, k) = >>=-eq-ok (resolve_battle h _) _ g in
          let (label, _, m) = >>=-eq-ok (classify_victory _) _ k in
          subst (EndsAs config.max_wait s at complete) (ok-injective m) (c, n, refl)
    ]

finalize_decided-EndsAs :
    (h : Hashing) (config : EngineConfig) (s : BattleEngineState) (at : ℕ) (hash : Option Text)
    (complete : Bool) (d : FinalizationDecision) {o : FinalizeOutcome}
    → IsSound config s
    → DecidedFor s.setup.clock at complete config.max_wait d
    → finalize_decided h s at hash config d ≡ ok o
    → EndsAs config.max_wait s at complete o
unfolding finalize_decided void_state
finalize_decided-EndsAs h config s at hash complete wait i (c, w) e =
    subst (EndsAs config.max_wait s at complete) (ok-injective e) (c, w, refl)
finalize_decided-EndsAs h config s at hash complete void i d e =
    subst (EndsAs config.max_wait s at complete) (ok-injective e) (refl, inr d)
finalize_decided-EndsAs h config s at hash complete finalize i d e =
    finalize_scored-EndsAs h config s at hash complete s.last_left s.last_right s.last_tick_at d
      i.remembered e

finalize_battle-EndsAs :
    (h : Hashing) (config : EngineConfig) (s : BattleEngineState) (at : ℕ) (hash : Option Text)
    (complete : Bool) {o : FinalizeOutcome}
    → IsSound config s
    → s.state ≡ BattleState.live
    → finalize_battle h s at hash config complete ≡ ok o
    → EndsAs config.max_wait s at complete o
unfolding finalize_battle finalize_live
finalize_battle-EndsAs h config s at hash complete {o = o} i live e =
    let k : finalize_live h s at hash config complete BattleState.live ≡ ok o =
      subst (λ b. finalize_live h s at hash config complete b ≡ ok o) live e in
    let (d, f, g) = >>=-eq-ok (decide_finalization s.setup.clock at complete config.max_wait) _ k in
    finalize_decided-EndsAs h config s at hash complete d i
      (decide-DecidedFor s.setup.clock at complete config.max_wait f) g

-- Every live battle that the engine reaches is ended by `finalizeBattle` from its cutoff on, with
-- victory thresholds in order and a block hash that chainDerivedSide takes. Once the data is complete,
-- it is finalized if a tick of it was scored, and void if none was. Before that it waits, unchanged,
-- as long as less than the time to wait has passed since the cutoff, and is void from then on.
pub finalize_battle_ends :
    (hashing : Hashing) (config : EngineConfig) (setup : BattleSetup) (s : BattleEngineState)
    (at : ℕ) (hash : Text) (complete : Bool)
    → Reaches hashing config setup s
    → s.state ≡ BattleState.live
    → s.setup.clock.battle_end_at ≤ at
    → HasMargins config.victory
    → Returns (chain_derived_side hashing hash s.setup.battle_id)
    → (o : FinalizeOutcome) × (finalize_battle hashing s at (some hash) config complete ≡ ok o)
      × EndsAs config.max_wait s at complete o
finalize_battle_ends hashing config setup s at hash complete r live cutoff m side =
    let (o, e) = finalize-Returns hashing config setup s at hash complete r live cutoff m side in
    (
      o,
      e,
      finalize_battle-EndsAs hashing config s at (some hash) complete
          (reachable-IsSound hashing config setup r) live e,
    )
