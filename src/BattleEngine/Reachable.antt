-- ===== src/BattleEngine/Reachable.antt =====
-- Battles that the engine reaches (packages/battle-engine/src/engine.ts).
pub mod Endings
pub mod Settled
pub mod Finishes
pub mod Outcomes
use ponswars.Base.{
  ℕ, ◌+◌, ◌≤◌, ◌<◌, ◌==◌, ◌&&◌, ◌||◌, not, ◌≡◌, refl, ap, sym, ◌∙◌, subst, Bool, true, false,
  Bool-cases, inl, inr, Option, none, some, ltb, leb, if◌then◌else◌, Result, ok, err, ◌>>=◌,
  >>=-eq-ok, Result-cases, ok-injective, arith,
}
use ponswars.Base.Int.{ℤ, pos}
use ponswars.Base.Text.{Text}
use ponswars.Base.Hashing.{Hashing}
use ponswars.Shared.Labels.{FeedHealth, requires_void, VoidReason, data_integrity}
use ponswars.Shared.Round.{
  BattleState, CanonicalClock, can_transition_battle, battle_state_eq, battle_tag,
}
use ponswars.BattleMath.Scoring.{BattleScore, SideInputs, score_battle}
use ponswars.BattleMath.Momentum.{
  MomentumMemory, MomentumSample, MomentumThresholds, next_momentum, next_memory,
  advantage_from_battle_score, initial_momentum_memory, refuses_thresholds,
}
use ponswars.BattleEngine.Battle.{
  BattleEngineState, BattleSetup, EngineConfig, TickInput, TickOutcome, ignored, updated, voided,
  begin_battle, open_battle, apply_tick, score_tick, scored_state, void_state, is_older,
}
use ponswars.BattleMath.Resolution.{Resolution, resolve_battle, classify_victory}
use ponswars.BattleMath.Scheduler.{FinalizationDecision, wait, finalize, void, decide_finalization}
use ponswars.BattleEngine.Finalize.{
  FinalizeOutcome, waiting, finalized_as, voided_as, finalize_battle, finalize_live,
  finalize_decided, finalize_scored, finalize_from,
}

-- A battle that is void has a reason, and any other has none.
abbrev pub HasReason : BattleState → Option VoidReason → Type 0
HasReason BattleState.void reason = reason ≡ some data_integrity
HasReason BattleState.scheduled reason = reason ≡ none
HasReason BattleState.live reason = reason ≡ none
HasReason BattleState.finalized reason = reason ≡ none

-- The score that is shown is that of the last inputs.
pub record IsScoreOf (config : EngineConfig) (left right : SideInputs) (l r : ℤ) : Type 0 where
  pub score : BattleScore
  pub scored : score_battle left right config.scoring ≡ ok score
  pub left_total : l ≡ score.left_total
  pub right_total : r ≡ score.right_total

-- What the engine remembers of the ticks belongs to one tick, inside the scoring window.
abbrev pub Remembers :
    EngineConfig → BattleEngineState → Option SideInputs → Option SideInputs → Option ℕ → Type 0
Remembers config s (some left) (some right) (some at) =
    (1 ≤ s.tick_sequence)
    × (s.setup.clock.battle_start_at ≤ at)
    × (at < s.setup.clock.battle_end_at)
    × IsScoreOf config left right s.left_score_scaled s.right_score_scaled
Remembers config s none none none = s.tick_sequence ≡ 0
Remembers config s _ _ _ = ⊥

pub record IsSound (config : EngineConfig) (s : BattleEngineState) : Type 0 where
  pub reason : HasReason s.state s.void_reason
  pub remembered : Remembers config s s.last_left s.last_right s.last_tick_at
  pub momentum_ticks : s.momentum.ticks ≡ s.tick_sequence

abbrev pub tick_state : TickOutcome → BattleEngineState
tick_state (ignored why s) = s
tick_state (updated s update) = s
tick_state (voided s reason) = s

pub begin_battle-IsSound :
    (config : EngineConfig) (setup : BattleSetup) → IsSound config (begin_battle setup)
unfolding begin_battle
begin_battle-IsSound config setup = record {
  reason = refl;
  remembered = refl;
  momentum_ticks = refl;
}

-- Only the state and the reason change.
pub relabel :
    {config : EngineConfig} (s : BattleEngineState) (state : BattleState)
    (reason : Option VoidReason)
    → HasReason state reason
    → IsSound config s
    → IsSound config (record s { state = state; void_reason = reason })
relabel s state reason h i = record {
  reason = h;
  remembered = i.remembered;
  momentum_ticks = i.momentum_ticks;
}

opens_from :
    (b : BattleState) → can_transition_battle b BattleState.live ≡ true → b ≡ BattleState.scheduled
unfolding can_transition_battle
opens_from BattleState.scheduled h = refl
opens_from BattleState.live h = cc
opens_from BattleState.finalized h = cc
opens_from BattleState.void h = cc

pub is_live : (b : BattleState) → battle_state_eq b BattleState.live ≡ true → b ≡ BattleState.live
is_live BattleState.scheduled h = cc
is_live BattleState.live h = refl
is_live BattleState.finalized h = cc
is_live BattleState.void h = cc

-- What a call returned is sound.
abbrev pub Soundly : {A : Type 0} → EngineConfig → (A → BattleEngineState) → Result A → Type 0
Soundly config state_of (ok a) = IsSound config (state_of a)
Soundly config state_of (err e) = Unit {0}

pub open_battle-Soundly :
    (config : EngineConfig) (s : BattleEngineState) (at : ℕ)
    → IsSound config s
    → Soundly config (λ b. b) (open_battle s at)
unfolding open_battle
open_battle-Soundly config s at i =
    elim (Bool-cases (can_transition_battle s.state BattleState.live)) [
      | inr e ↦ rw e tt
      | inl e ↦ elim (Bool-cases (ltb at s.setup.clock.battle_start_at)) [
        | inl f ↦ rw (e, f) tt
        | inr f ↦
            rw (e, f)
              (relabel s BattleState.live s.void_reason
                (subst (λ b. HasReason b s.void_reason) (opens_from s.state e) i.reason) i)
      ]
    ]

next_momentum-ticks :
    (m : MomentumMemory) (a : ℤ) (t : MomentumThresholds) {sample : MomentumSample}
    → next_momentum m a t ≡ ok sample
    → sample.memory.ticks ≡ m.ticks + 1
unfolding next_momentum next_memory
next_momentum-ticks m a t h = elim (Bool-cases (refuses_thresholds t)) [
  | inl e ↦ absurd (let f = rw e at h in cc)
  | inr e ↦ sym (ap (λ s. s.memory.ticks) (ok-injective (rw e at h)))
]

score_tick-Soundly :
    (h : Hashing) (config : EngineConfig) (s : BattleEngineState) (input : TickInput)
    → s.state ≡ BattleState.live
    → s.setup.clock.battle_start_at ≤ input.at
    → input.at < s.setup.clock.battle_end_at
    → IsSound config s
    → Soundly config tick_state (score_tick h s input config)
unfolding score_tick scored_state
score_tick-Soundly h config s input l a b i =
    elim (Result-cases (score_battle input.left input.right config.scoring)) [
      | inr (_, e) ↦ rw e tt
      | inl (score, e) ↦
          elim (Result-cases (
            next_momentum s.momentum (advantage_from_battle_score score.left_total)
              config.momentum)) [
                | inr (_, f) ↦ rw (e, f) tt
                | inl (sample, f) ↦
                    rw (e, f)
                      (record {
                        reason = i.reason;
                        remembered = (
                          omega arith,
                          a,
                          b,
                          record {
                            score = score;
                            scored = e;
                            left_total = refl;
                            right_total = refl;
                          },
                        );
                        momentum_ticks =
                            let t = i.momentum_ticks in
                            omega (arith, t, next_momentum-ticks s.momentum _ config.momentum f);
                      })
              ]
    ]

pub apply_tick-Soundly :
    (h : Hashing) (config : EngineConfig) (s : BattleEngineState) (input : TickInput)
    → IsSound config s
    → Soundly config tick_state (apply_tick h s input config)
unfolding apply_tick void_state
apply_tick-Soundly h config s input i =
    elim (Bool-cases (battle_state_eq s.state BattleState.live)) [
      | inr e ↦ rw e i
      | inl e ↦ elim (Bool-cases (ltb input.at s.setup.clock.battle_start_at)) [
        | inl f ↦ rw (e, f) i
        | inr f ↦ elim (Bool-cases (leb s.setup.clock.battle_end_at input.at)) [
          | inl g ↦ rw (e, f, g) i
          | inr g ↦ elim (Bool-cases (is_older input.at s.last_tick_at)) [
            | inl k ↦ rw (e, f, g, k) i
            | inr k ↦
                elim (Bool-cases
                  (requires_void input.left_health || requires_void input.right_health)) [
                    | inl v ↦
                        rw (e, f, g, k, v) (relabel s BattleState.void (some data_integrity) refl i)
                    | inr v ↦
                        rw (e, f, g, k, v)
                          (score_tick-Soundly h config s input (is_live s.state e) (ground arith)
                            (ground arith) i)
                  ]
          ]
        ]
      ]
    ]
