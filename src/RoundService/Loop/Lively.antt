-- ===== src/RoundService/Loop/Lively.antt =====
-- The battles of the round that the loop runs (packages/round-service/src/loop.ts).
use ponswars.Base.{
  ℕ, ◌≤◌, ◌≡◌, ◌∙◌, inl, inr, refl, sym, ap, subst, Bool, true, false, Bool-cases, List, [], ◌∷◌,
  All, ltb, ◌-◌, ok, >>=-eq-ok, ok-injective, arith,
}
use ponswars.Base.Hashing.{Hashing}
use ponswars.Shared.Round.{
  RoundState, CanonicalClock, can_transition_round, is_terminal_round_state,
}
use ponswars.BattleEngine.Battle.{
  BattleEngineState, EngineConfig, TickOutcome, ignored, updated, voided,
}
use ponswars.BattleEngine.Reachable.{tick_state}
use ponswars.BattleEngine.Rounds.{LockedPick, RoundEngineState, RoundFinalization, lock_round}
use ponswars.BattleEngine.Rounds.Lock.{lock_round_inv, lock_round-IsLocked}
use ponswars.BattleEngine.Rounds.Running.{Fresh, Running, apply_tick-Running, lock_round-Running}
use ponswars.BattleEngine.Driver.{RoundAction, tick, action_for, next_round_action}
use ponswars.RoundService.Ports.{RoundPorts}
use ponswars.RoundService.Loop.{Ticked, gather_tick, observe_tick, tick_battles}

-- What a round that the loop runs is: its battles are fresh while picks are open, then battles that the
-- engine reached, on a clock that opens, locks and starts in order, and then it is finalized.
abbrev pub LivelyIn :
    Hashing → EngineConfig → CanonicalClock → List BattleEngineState → RoundState → Type 0
LivelyIn h config clock bs RoundState.pick_open =
    (clock.pick_open_at ≤ clock.lock_at)
    × (clock.battle_start_at ≤ clock.lock_at)
    × (clock.lock_at ≤ clock.battle_end_at)
    × All (Fresh clock) bs
LivelyIn h config clock bs RoundState.battle_live =
    (clock.pick_open_at ≤ clock.battle_end_at) × All (Running h config clock) bs
LivelyIn h config clock bs RoundState.finalized = Unit {0}
LivelyIn h config clock bs _ = ⊥

abbrev pub Lively : Hashing → EngineConfig → RoundEngineState → Type 0
Lively h config r = LivelyIn h config r.clock r.battles r.state

locks_from :
    (s : RoundState) → can_transition_round s RoundState.locking ≡ true → s ≡ RoundState.pick_open
unfolding can_transition_round
locks_from RoundState.preparing e = cc
locks_from RoundState.pick_open e = refl
locks_from RoundState.locking e = cc
locks_from RoundState.battle_live e = cc
locks_from RoundState.finalizing e = cc
locks_from RoundState.finalized e = cc
locks_from RoundState.void e = cc

lock_round_from :
    (state : RoundEngineState) (at : ℕ) (picks : List LockedPick) {r : RoundEngineState}
    → lock_round state at picks ≡ ok r
    → (state.state ≡ RoundState.pick_open) × (r.clock ≡ state.clock)
lock_round_from state at picks e =
    let l = lock_round_inv state at picks e in
    (locks_from state.state l.from_open, ap (λ (r : RoundEngineState). r.clock) l.result)

pub lock_round-Lively :
    (h : Hashing) (config : EngineConfig) (state : RoundEngineState) (at : ℕ)
    (picks : List LockedPick) {r : RoundEngineState}
    → Lively h config state
    → lock_round state at picks ≡ ok r
    → Lively h config r
lock_round-Lively h config state at picks {r} l e =
    let (from, same) = lock_round_from state at picks e in
    let (a, b, c, fresh) = subst (LivelyIn h config state.clock state.battles) from l in
    let live = (lock_round-IsLocked state at picks e).live in
    subst (LivelyIn h config r.clock r.battles) (sym live) (
      subst
        (λ (k : CanonicalClock).
          (k.pick_open_at ≤ k.battle_end_at) × All (Running h config k) r.battles)
        (sym same)
        (omega (arith, a, c), lock_round-Running h config state.clock state at picks fresh e))

-- The battles that a tick leaves run on.
gather_tick-Running :
    (h : Hashing) (config : EngineConfig) (clock : CanonicalClock) (now : ℕ) (b : BattleEngineState)
    (o : TickOutcome) (rest : Ticked)
    → Running h config clock (tick_state o)
    → All (Running h config clock) rest.battles
    → All (Running h config clock) (gather_tick now b o rest).battles
unfolding gather_tick
gather_tick-Running h config clock now b (ignored why s) rest r a = (r, a)
gather_tick-Running h config clock now b (updated s update) rest r a = (r, a)
gather_tick-Running h config clock now b (voided s reason) rest r a = (r, a)

tick_battles-Running :
    (h : Hashing) (ports : RoundPorts) (config : EngineConfig) (clock : CanonicalClock) (now : ℕ)
    (bs : List BattleEngineState) {ticked : Ticked}
    → All (Running h config clock) bs
    → tick_battles h ports config now bs ≡ ok ticked
    → All (Running h config clock) ticked.battles
unfolding tick_battles observe_tick
tick_battles-Running h ports config clock now [] a e =
    subst (λ (t : Ticked). All (Running h config clock) t.battles) (ok-injective e) tt
tick_battles-Running h ports config clock now (b ∷ bs) (r, a) e =
    let (o, x, f) = >>=-eq-ok (observe_tick h ports config now b) _ e in
    let (rest, y, k) = >>=-eq-ok (tick_battles h ports config now bs) _ f in
    let (left, p, q) = >>=-eq-ok (ports.observe b.setup.left _) _ x in
    let (right, s, t) = >>=-eq-ok (ports.observe b.setup.right _) _ q in
    subst (λ (t : Ticked). All (Running h config clock) t.battles) (ok-injective k)
      (gather_tick-Running h config clock now b o rest (apply_tick-Running h config clock b _ r t)
        (tick_battles-Running h ports config clock now bs a y))

pub tick_battles-Lively :
    (h : Hashing) (ports : RoundPorts) (config : EngineConfig) (now : ℕ) (state : RoundEngineState)
    {ticked : Ticked}
    → state.state ≡ RoundState.battle_live
    → Lively h config state
    → tick_battles h ports config now state.battles ≡ ok ticked
    → Lively h config (record state { battles = ticked.battles })
tick_battles-Lively h ports config now state {ticked} live l e =
    let (c, a) = subst (LivelyIn h config state.clock state.battles) live l in
    subst (LivelyIn h config state.clock ticked.battles) (sym live)
      (c, tick_battles-Running h ports config state.clock now state.battles a e)

pub ended-Lively :
    (h : Hashing) (config : EngineConfig) (f : RoundFinalization)
    → f.state.state ≡ RoundState.finalized
    → Lively h config f.state
ended-Lively h config f e = subst (LivelyIn h config f.state.clock f.state.battles) (sym e) tt

abbrev pub ticks : RoundAction → Bool
ticks (tick deadline) = true
ticks _ = false

action_for_ticks :
    (clock : CanonicalClock) (now max_wait : ℕ) (state : RoundState)
    → ticks (action_for clock now max_wait state) ≡ true
    → state ≡ RoundState.battle_live
unfolding action_for
action_for_ticks clock now max_wait RoundState.preparing h = absurd cc
action_for_ticks clock now max_wait RoundState.pick_open h =
    elim (Bool-cases (ltb now clock.lock_at)) [
      | inl e ↦ absurd (let x = rw e at h in cc)
      | inr e ↦ absurd (let x = rw e at h in cc)
    ]
action_for_ticks clock now max_wait RoundState.locking h = absurd cc
action_for_ticks clock now max_wait RoundState.battle_live h = refl
action_for_ticks clock now max_wait RoundState.finalizing h =
    elim (Bool-cases (ltb max_wait (now - clock.battle_end_at))) [
      | inl e ↦ absurd (let x = rw e at h in cc)
      | inr e ↦ absurd (let x = rw e at h in cc)
    ]
action_for_ticks clock now max_wait RoundState.finalized h = absurd cc
action_for_ticks clock now max_wait RoundState.void h = absurd cc

-- Only a live round ticks.
pub next_round_action_ticks :
    (state : RoundEngineState) (now max_wait : ℕ) {action : RoundAction}
    → next_round_action state now max_wait ≡ ok action
    → ticks action ≡ true
    → state.state ≡ RoundState.battle_live
unfolding next_round_action
next_round_action_ticks state now max_wait h a =
    elim (Bool-cases (ltb now state.clock.pick_open_at)) [
      | inl e ↦ absurd (let x = rw e at h in cc)
      | inr e ↦ elim (Bool-cases (is_terminal_round_state state.state)) [
        | inl t ↦ absurd (let x = ap ticks (ok-injective (rw (e, t) at h)) in cc)
        | inr t ↦
            let x = ok-injective (rw (e, t) at h) in
            action_for_ticks state.clock now max_wait state.state (ap ticks x ∙ a)
      ]
    ]
