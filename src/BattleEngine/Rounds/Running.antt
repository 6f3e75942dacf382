-- ===== src/BattleEngine/Rounds/Running.antt =====
-- The battles of a round that runs (`lockRound` in packages/battle-engine/src/round.ts and
-- `applyTick` in packages/battle-engine/src/engine.ts).
use ponswars.Base.{
  ℕ, ◌≤◌, ◌||◌, ◌≡◌, ◌∙◌, ◌⊎◌, inl, inr, refl, sym, ap, subst, Bool-cases, List, [], ◌∷◌, All, ltb,
  leb, Result, ok, err, Result-cases, >>=-eq-ok, ok-injective, map_result, false, Returns,
  >>=-Returns, arith,
}
use ponswars.Base.Text.{is_empty}
use ponswars.Base.Hashing.{Hashing}
use ponswars.Shared.Labels.{requires_void}
use ponswars.Shared.Round.{
  RoundState, can_transition_round, BattleState, CanonicalClock, can_transition_battle,
  battle_state_eq,
}
use ponswars.BattleMath.Scoring.{score_battle}
use ponswars.BattleMath.Momentum.{next_momentum, advantage_from_battle_score}
use ponswars.BattleEngine.Battle.{
  BattleEngineState, BattleSetup, EngineConfig, TickInput, TickOutcome, begin_battle, open_battle,
  apply_tick, score_tick, scored_state, void_state, is_older,
}
use ponswars.BattleEngine.Reachable.{tick_state}
use ponswars.BattleEngine.Reachable.Endings.{Reaches, begun, opened, ticked, backed}
use ponswars.BattleEngine.Rounds.Lock.{lock_round_inv}
use ponswars.BattleEngine.Rounds.{LockedPick, RoundEngineState, check_picks, open_with, lock_round}

abbrev pub IsRunning : BattleState → Type 0
IsRunning b = (b ≡ BattleState.void) ⊎ (b ≡ BattleState.live)

-- A named battle that was created and that nothing has happened to.
abbrev pub Fresh : CanonicalClock → BattleEngineState → Type 0
Fresh clock b =
    (b ≡ begin_battle b.setup) × (b.setup.clock ≡ clock) × (is_empty b.setup.battle_id ≡ false)

-- A battle of a live round: the engine reached it, on the clock of the round.
pub record Running (h : Hashing) (config : EngineConfig) (clock : CanonicalClock)
    (b : BattleEngineState) : Type 0 where
  pub setup : BattleSetup
  pub reached : Reaches h config setup b
  pub on_clock : b.setup.clock ≡ clock
  pub named : is_empty b.setup.battle_id ≡ false
  pub running : IsRunning b.state

-- What a tick that returned leaves of the battle.
abbrev Carries : BattleEngineState → Result TickOutcome → Type 0
Carries s (ok o) = ((tick_state o).setup ≡ s.setup) × IsRunning (tick_state o).state
Carries s (err e) = Unit {0}

score_tick-Carries :
    (h : Hashing) (config : EngineConfig) (s : BattleEngineState) (input : TickInput)
    → IsRunning s.state
    → Carries s (score_tick h s input config)
unfolding score_tick scored_state
score_tick-Carries h config s input r =
    elim (Result-cases (score_battle input.left input.right config.scoring)) [
      | inr (_, e) ↦ rw e tt
      | inl (score, e) ↦
          elim (Result-cases (
            next_momentum s.momentum (advantage_from_battle_score score.left_total)
              config.momentum)) [
                | inr (_, f) ↦ rw (e, f) tt
                | inl (sample, f) ↦ rw (e, f) (refl, r)
              ]
    ]

apply_tick-Carries :
    (h : Hashing) (config : EngineConfig) (s : BattleEngineState) (input : TickInput)
    → IsRunning s.state
    → Carries s (apply_tick h s input config)
unfolding apply_tick void_state
apply_tick-Carries h config s input r =
    elim (Bool-cases (battle_state_eq s.state BattleState.live)) [
      | inr e ↦ rw e (refl, r)
      | inl e ↦ elim (Bool-cases (ltb input.at s.setup.clock.battle_start_at)) [
        | inl f ↦ rw (e, f) (refl, r)
        | inr f ↦ elim (Bool-cases (leb s.setup.clock.battle_end_at input.at)) [
          | inl g ↦ rw (e, f, g) (refl, r)
          | inr g ↦ elim (Bool-cases (is_older input.at s.last_tick_at)) [
            | inl k ↦ rw (e, f, g, k) (refl, r)
            | inr k ↦
                elim (Bool-cases
                  (requires_void input.left_health || requires_void input.right_health)) [
                    | inl v ↦ rw (e, f, g, k, v) (refl, inl refl)
                    | inr v ↦ rw (e, f, g, k, v) (score_tick-Carries h config s input r)
                  ]
          ]
        ]
      ]
    ]

-- A running battle runs on after a tick.
pub apply_tick-Running :
    (h : Hashing) (config : EngineConfig) (clock : CanonicalClock) (s : BattleEngineState)
    (input : TickInput) {o : TickOutcome}
    → Running h config clock s
    → apply_tick h s input config ≡ ok o
    → Running h config clock (tick_state o)
apply_tick-Running h config clock s input r e =
    let (same, runs) = subst (Carries s) e (apply_tick-Carries h config s input r.running) in
    record {
      setup = r.setup;
      reached = ticked input r.reached e;
      on_clock = ap (λ (x : BattleSetup). x.clock) same ∙ r.on_clock;
      named = ap (λ (x : BattleSetup). is_empty x.battle_id) same ∙ r.named;
      running = runs;
    }

open_battle_inv :
    (s : BattleEngineState) (at : ℕ) {t : BattleEngineState}
    → open_battle s at ≡ ok t
    → (t.setup ≡ s.setup) × (t.state ≡ BattleState.live)
unfolding open_battle
open_battle_inv s at e = elim (Bool-cases (can_transition_battle s.state BattleState.live)) [
  | inr f ↦ absurd (let x = rw f at e in cc)
  | inl f ↦ elim (Bool-cases (ltb at s.setup.clock.battle_start_at)) [
    | inl g ↦ absurd (let x = rw (f, g) at e in cc)
    | inr g ↦
        subst (λ (t : BattleEngineState). (t.setup ≡ s.setup) × (t.state ≡ BattleState.live))
          (ok-injective (rw (f, g) at e)) (refl, refl)
  ]
]

-- A fresh battle runs once it is opened with the support of the picks.
open_with-Running :
    (h : Hashing) (config : EngineConfig) (clock : CanonicalClock) (at : ℕ)
    (picks : List LockedPick) (b : BattleEngineState) {c : BattleEngineState}
    → Fresh clock b
    → open_with at picks b ≡ ok c
    → Running h config clock c
unfolding open_with
open_with-Running h config clock at picks b (fresh, on, n) e =
    let (t, f, g) = >>=-eq-ok (open_battle b at) _ e in
    let (same, live) = open_battle_inv b at f in
    let start = subst (Reaches h config b.setup) (sym fresh) begun in
    subst (Running h config clock) (ok-injective g) (record {
      setup = b.setup;
      reached = backed _ (opened at start f);
      on_clock = ap (λ (x : BattleSetup). x.clock) same ∙ on;
      named = ap (λ (x : BattleSetup). is_empty x.battle_id) same ∙ n;
      running = inr live;
    })

each_open-Running :
    (h : Hashing) (config : EngineConfig) (clock : CanonicalClock) (at : ℕ)
    (picks : List LockedPick) (bs : List BattleEngineState) {cs : List BattleEngineState}
    → All (Fresh clock) bs
    → map_result (open_with at picks) bs ≡ ok cs
    → All (Running h config clock) cs
each_open-Running h config clock at picks [] a e =
    subst (All (Running h config clock)) (ok-injective e) tt
each_open-Running h config clock at picks (b ∷ bs) (f, a) e =
    let (c, x, g) = >>=-eq-ok (open_with at picks b) _ e in
    let (cs, y, k) = >>=-eq-ok (map_result (open_with at picks) bs) _ g in
    subst (All (Running h config clock)) (ok-injective k) (
      open_with-Running h config clock at picks b f x,
      each_open-Running h config clock at picks bs a y,
    )

-- Locking a round of fresh battles leaves running ones.
pub lock_round-Running :
    (h : Hashing) (config : EngineConfig) (clock : CanonicalClock) (state : RoundEngineState)
    (at : ℕ) (picks : List LockedPick) {r : RoundEngineState}
    → All (Fresh clock) state.battles
    → lock_round state at picks ≡ ok r
    → All (Running h config clock) r.battles
lock_round-Running h config clock state at picks a e =
    let l = lock_round_inv state at picks e in
    subst (λ (r : RoundEngineState). All (Running h config clock) r.battles) (sym l.result)
      (each_open-Running h config clock at picks state.battles a l.all_open)

open_battle-Returns :
    (b : BattleEngineState) (at : ℕ)
    → b.state ≡ BattleState.scheduled
    → b.setup.clock.battle_start_at ≤ at
    → Returns (open_battle b at)
unfolding open_battle can_transition_battle
open_battle-Returns b at s d =
    let e : ltb at b.setup.clock.battle_start_at ≡ false = ground (arith, d) in rw (s, e) (_, refl)

each_open-Returns :
    (clock : CanonicalClock) (at : ℕ) (picks : List LockedPick) (bs : List BattleEngineState)
    → clock.battle_start_at ≤ at
    → All (Fresh clock) bs
    → Returns (map_result (open_with at picks) bs)
unfolding open_with begin_battle
each_open-Returns clock at picks [] d a = (_, refl)
each_open-Returns clock at picks (b ∷ bs) d ((fresh, on, _), a) =
    let start : b.setup.clock.battle_start_at ≤ at =
      subst (λ (c : CanonicalClock). c.battle_start_at ≤ at) (sym on) d in
    >>=-Returns (open_with at picks b) _
      (>>=-Returns (open_battle b at) _
        (open_battle-Returns b at (ap (λ (c : BattleEngineState). c.state) fresh) start)
        (λ _ _. (_, refl)))
      (λ c _.
        >>=-Returns (map_result (open_with at picks) bs) _ (each_open-Returns clock at picks bs d a)
          (λ _ _. (_, refl)))

-- An open round of fresh battles can be locked from its lock instant on, with picks that pass the test.
pub lock_round-Returns :
    (state : RoundEngineState) (at : ℕ) (picks : List LockedPick)
    → state.state ≡ RoundState.pick_open
    → state.clock.lock_at ≤ at
    → state.clock.battle_start_at ≤ at
    → All (Fresh state.clock) state.battles
    → check_picks state.battles [] picks ≡ ok tt
    → Returns (lock_round state at picks)
unfolding lock_round can_transition_round
lock_round-Returns state at picks s d b a c =
    let e : ltb at state.clock.lock_at ≡ false = ground (arith, d) in
    rw (s, e, c)
      (>>=-Returns (map_result (open_with at picks) state.battles) _
        (each_open-Returns state.clock at picks state.battles b a) (λ _ _. (_, refl)))
