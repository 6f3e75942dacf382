-- ===== src/RoundService/Loop/Stored.antt =====
-- What the parts of a step write and leave stored (packages/round-service/src/loop.ts).
use ponswars.Base.{
  ℕ, ◌≡◌, ◌∙◌, refl, sym, ap, subst, inl, inr, ◌-◌, Bool-cases, Bool, true, false, List, Option,
  some, All, Error, Result, ok, err, ok-injective, >>=-eq-ok, ltb,
}
use ponswars.Base.Text.{Text}
use ponswars.Base.Hashing.{Hashing}
use ponswars.Shared.Round.{RoundState, CanonicalClock, is_terminal_round_state}
use ponswars.BattleEngine.Battle.{EngineConfig}
use ponswars.BattleEngine.Rounds.{RoundEngineState, RoundFinalization}
use ponswars.BattleEngine.Driver.{RoundAction, lock, tick, finalize, action_for, next_round_action}
use ponswars.BattleEngine.Rounds.{finalize_round, finalize_battles}
use ponswars.Shared.Round.{can_transition_round}
use ponswars.BattleEngine.Rounds.Retry.{EndsRound}
use ponswars.Realtime.Envelope.{round_channel}
use ponswars.RoundService.Ports.{
  Effect, Payload, published, RoundPorts, World, Action, on_action, save_state, publish,
  publish_all, round_finalized,
}
use ponswars.RoundService.Loop.{on_result}
use ponswars.RoundService.Loop.Ordered.{
  Allowed, on_action_lem, Keeps, publish-Keeps, publish_all-Keeps, state_saved-Keeps,
  state_saved_err,
}

-- Whether a round in this state has left its battles behind.
abbrev pub past_battle : RoundState → Bool
past_battle RoundState.preparing = false
past_battle RoundState.pick_open = false
past_battle RoundState.locking = false
past_battle RoundState.battle_live = false
past_battle RoundState.finalizing = true
past_battle RoundState.finalized = true
past_battle RoundState.void = true

-- Whether an action writes.
abbrev pub acts : RoundAction → Bool
acts lock = true
acts (tick deadline) = true
acts finalize = true
acts _ = false

-- A round that writes has not left its battles behind.
action_for-acts :
    (clock : CanonicalClock) (now max_wait : ℕ) (state : RoundState)
    → acts (action_for clock now max_wait state) ≡ true
    → past_battle state ≡ false
unfolding action_for
action_for-acts clock now max_wait RoundState.preparing h = refl
action_for-acts clock now max_wait RoundState.pick_open h = refl
action_for-acts clock now max_wait RoundState.locking h = refl
action_for-acts clock now max_wait RoundState.battle_live h = refl
action_for-acts clock now max_wait RoundState.finalizing h =
    elim (Bool-cases (ltb max_wait (now - clock.battle_end_at))) [
      | inl e ↦ absurd (let x = rw e at h in cc)
      | inr e ↦ absurd (let x = rw e at h in cc)
    ]
action_for-acts clock now max_wait RoundState.finalized h = absurd cc
action_for-acts clock now max_wait RoundState.void h = absurd cc

pub next_round_action-acts :
    (state : RoundEngineState) (now max_wait : ℕ) {action : RoundAction}
    → next_round_action state now max_wait ≡ ok action
    → acts action ≡ true
    → past_battle state.state ≡ false
unfolding next_round_action
next_round_action-acts state now max_wait h a =
    elim (Bool-cases (ltb now state.clock.pick_open_at)) [
      | inl e ↦ absurd (let x = rw e at h in cc)
      | inr e ↦ elim (Bool-cases (is_terminal_round_state state.state)) [
        | inl t ↦ absurd (let x = ap acts (ok-injective (rw (e, t) at h)) in cc)
        | inr t ↦
            let x = ok-injective (rw (e, t) at h) in
            action_for-acts state.clock now max_wait state.state (ap acts x ∙ a)
      ]
    ]

-- What was written after a base is in order for the named round, which is the given one and the
-- stored one, and the round has left its battles behind exactly when its finalization was saved.
abbrev pub Held :
    (RoundEngineState → Type 0) → Text → List Effect → World → RoundEngineState → Type 0
Held P id base w s =
    (saved : Bool) × Keeps id base saved (past_battle s.state) (some s) w × (s.round_id ≡ id) × P s

-- An action that returns leaves its state as the stored one, and what is said of what it returned; an
-- action that throws leaves some round stored.
abbrev pub Leaves :
    (RoundEngineState → Type 0)
    → Text
    → List Effect
    → {A : Type 0} → (A → RoundEngineState)
    → (A → Type 0)
    → Result A × World
    → Type 0
Leaves P id base state_in Q (ok a, w) = Held P id base w (state_in a) × Q a
Leaves P id base state_in Q (err e, w) = (s : RoundEngineState) × Held P id base w s

-- A round that has not ended stays held in another state.
Held-as :
    (P : RoundEngineState → Type 0) (id : Text) (base : List Effect) (saved over : Bool)
    (t : RoundEngineState) (w : World)
    → past_battle t.state ≡ over
    → t.round_id ≡ id
    → P t
    → Keeps id base saved over (some t) w
    → Held P id base w t
Held-as P id base saved over t w p n l k = (saved, rw p k, n, l)

-- What follows a value that may be an error.
pub on_result_lem :
    {A B : Type 0} (R : Result B × World → Type 0) (p : Result A) (rest : A → Action B) (w : World)
    → ((a : A) → p ≡ ok a → R (rest a w))
    → ((e : Error) → R (err e, w))
    → R (on_result p rest w)
on_result_lem R (ok a) rest w f g = f a refl
on_result_lem R (err e) rest w f g = g e

-- A round that is saved and told about before it has ended.
pub save_state-Leaves :
    (P : RoundEngineState → Type 0) (id : Text) (base : List Effect) (ports : RoundPorts)
    (s t : RoundEngineState) (w : World) (tell : Action (Unit {0}))
    → Held P id base w s
    → past_battle s.state ≡ false
    → past_battle t.state ≡ false
    → t.round_id ≡ id
    → P t
    → ((v : World)
        → Keeps id base true false (some t) v
        → Keeps id base true false (some t) (tell v).1)
    → Leaves P id base
        (λ r. r)
        (λ r. past_battle r.state ≡ past_battle s.state)
        (on_action (save_state ports t w) (λ _ v. on_action (tell v) (λ _ after. (ok t, after))))
unfolding save_state
save_state-Leaves P id base ports s t w tell (saved, (l, k), n, lively) p q m lives told =
    on_action_lem (Leaves P id base (λ r. r) (λ r. past_battle r.state ≡ past_battle s.state))
      (save_state ports t w) (λ _ v. on_action (tell v) (λ _ after. (ok t, after)))
      (λ u e.
        let h =
          Held-as P id base true false t _ q m lives
            (told _ (state_saved-Keeps id base (ports.save_state t) saved t w (rw p at l) m e)) in
        on_action_lem (Leaves P id base (λ r. r) (λ r. past_battle r.state ≡ past_battle s.state))
          (tell _) (λ _ after. (ok t, after)) (λ _ _. (h, q ∙ sym p)) (λ _ _. (t, h)))
      (λ x e. (
        s,
        subst (λ v. Held P id base v s) (sym (state_saved_err (ports.save_state t) t w e))
            (saved, (l, k), n, lively),
      ))

-- A round that was finalized has left its battles behind.
pub ended-past_battle : (f : RoundFinalization) → EndsRound f → past_battle f.state.state ≡ true
ended-past_battle f (inl (e, a)) = rw e refl
ended-past_battle f (inr e) = rw e refl

pub finalize_round-round_id :
    (hashing : Hashing) (state : RoundEngineState) (at : ℕ) (hash : Option Text)
    (config : EngineConfig) (complete : Bool) {f : RoundFinalization}
    → finalize_round hashing state at hash config complete ≡ ok f
    → f.state.round_id ≡ state.round_id
unfolding finalize_round
finalize_round-round_id hashing state at hash config complete e =
    elim (Bool-cases (can_transition_round state.state RoundState.finalizing)) [
      | inr t ↦ absurd (let x = rw t at e in cc)
      | inl t ↦
          let (g, r, k) =
            >>=-eq-ok (finalize_battles hashing state.battles at hash config complete) _
              (rw t at e) in
          subst (λ (f : RoundFinalization). f.state.round_id ≡ state.round_id) (ok-injective k) refl
    ]

-- The voids and the results are told after the end.
pub told_end-Leaves :
    (P : RoundEngineState → Type 0) (id : Text) (base : List Effect) (ports : RoundPorts)
    (state : RoundEngineState) (f : RoundFinalization) {saved : Bool} (w : World)
    (events : List (Text × ℕ × Payload))
    → state.round_id ≡ id
    → f.state.round_id ≡ id
    → past_battle f.state.state ≡ true
    → P f.state
    → All (λ (c, at, p). Allowed id saved true (published c at p)) events
    → Keeps id base saved true (some f.state) w
    → Leaves P id base {A = RoundFinalization}
        (λ g. g.state)
        (λ g. past_battle g.state.state ≡ true)
        (on_action (publish_all ports events w) (λ _ told.
          on_action
            (publish ports
              (round_channel state.round_id)
              state.clock.battle_end_at
              (round_finalized state.round_id f.results f.voided)
              told)
            (λ _ after. (ok f, after))))
told_end-Leaves P id base ports state f {saved} w events n o p lives a k =
    let m = publish_all-Keeps id base saved true (some f.state) ports events w a k in
    on_action_lem
      (Leaves P id base {A = RoundFinalization} (λ g. g.state)
        (λ g. past_battle g.state.state ≡ true))
      (publish_all ports events w) _
      (λ u e.
        let h = Held-as P id base saved true f.state _ p o lives (
          publish-Keeps id base saved true (some f.state) ports (round_channel state.round_id)
            state.clock.battle_end_at (round_finalized state.round_id f.results f.voided) _
            (n, refl) m) in
        on_action_lem
          (Leaves P id base {A = RoundFinalization} (λ g. g.state)
            (λ g. past_battle g.state.state ≡ true))
          (publish ports (round_channel state.round_id) state.clock.battle_end_at
            (round_finalized state.round_id f.results f.voided) _)
          (λ _ after. (ok f, after)) (λ _ _. (h, p)) (λ _ _. (f.state, h)))
      (λ x e. (f.state, Held-as P id base saved true f.state _ p o lives m))
