-- ===== src/BattleEngine/Rounds/Lives.antt =====
-- The life of a round in the engine (packages/battle-engine/src/round.ts): it is created, locked,
-- ticked and finalized by calls, each on the round that the call before returned.
use ponswars.Base.{
  ℕ, ◌≡◌, refl, sym, ◌∙◌, subst, Bool, true, Bool-cases, inl, inr, List, [], ◌∷◌, Option, ok,
  >>=-eq-ok, ok-injective, map_result,
}
use ponswars.Base.Text.{Text}
use ponswars.Base.Hashing.{Hashing}
use ponswars.Shared.Round.{RoundState, can_transition_round}
use ponswars.Shared.Round.Lifecycle.{Run}
use ponswars.BattleEngine.Battle.{EngineConfig, TickInput}
use ponswars.BattleEngine.Rounds.{
  LockedPick, RoundEngineState, RoundFinalization, lock_round, tick_battle, finalize_battles,
  finalize_round,
}
use ponswars.BattleEngine.Rounds.Create.{RoundSetup, create_round, create_round_lem}
use ponswars.BattleEngine.Rounds.Lock.{lock_round_inv}
use ponswars.BattleEngine.Rounds.Retry.{EndsRound, finalize_round-EndsRound}

-- A round after calls, with the states in which createRound, lockRound and finalizeRound returned it,
-- the latest first, and the picks that it was locked with.
pub data Life (h : Hashing) (config : EngineConfig) (setup : RoundSetup)
    : RoundEngineState → List RoundState → List LockedPick → Type 0 where
  created :
      {r : RoundEngineState} (fuel : ℕ)
      → create_round h fuel setup ≡ ok r
      → Life h config setup r (r.state ∷ []) []
  locked :
      {s r : RoundEngineState} {returned : List RoundState} {picks : List LockedPick} (at : ℕ)
      (taken : List LockedPick)
      → Life h config setup s returned picks
      → lock_round s at taken ≡ ok r
      → Life h config setup r (r.state ∷ returned) taken
  ticked :
      {s r : RoundEngineState} {returned : List RoundState} {picks : List LockedPick} (id : Text)
      (input : TickInput)
      → Life h config setup s returned picks
      → tick_battle h s id input config ≡ ok r
      → Life h config setup r returned picks
  ended :
      {s : RoundEngineState} {f : RoundFinalization} {returned : List RoundState}
      {picks : List LockedPick} (at : ℕ) (hash : Option Text) (complete : Bool)
      → Life h config setup s returned picks
      → finalize_round h s at hash config complete ≡ ok f
      → Life h config setup f.state (f.state.state ∷ returned) picks

-- The states in which a round was returned, by the one that it is in.
abbrev Returned : RoundState → List RoundState → Type 0
Returned RoundState.pick_open l = l ≡ RoundState.pick_open ∷ []
Returned RoundState.battle_live l = l ≡ RoundState.battle_live ∷ RoundState.pick_open ∷ []
Returned RoundState.finalizing l =
    l ≡ RoundState.finalizing ∷ RoundState.battle_live ∷ RoundState.pick_open ∷ []
Returned RoundState.finalized l =
    l ≡ RoundState.finalized ∷ RoundState.battle_live ∷ RoundState.pick_open ∷ []
Returned _ l = ⊥

-- What holds of a round at any point of its life.
pub record IsAlive (setup : RoundSetup) (r : RoundEngineState) (returned : List RoundState)
    (picks : List LockedPick) : Type 0 where
  pub same_round : r.round_id ≡ setup.round_id
  pub same_clock : r.clock ≡ setup.clock
  pub picks_kept : r.picks ≡ picks
  pub in_order : Returned r.state returned
  pub by_table : (visited : List RoundState) × Run RoundState.pick_open visited r.state

before_locking :
    (s : RoundState) (returned : List RoundState)
    → can_transition_round s RoundState.locking ≡ true
    → Returned s returned
    → returned ≡ RoundState.pick_open ∷ []
unfolding can_transition_round
before_locking RoundState.pick_open returned t e = e
before_locking RoundState.preparing returned t e = absurd e
before_locking RoundState.locking returned t e = absurd e
before_locking RoundState.void returned t e = absurd e
before_locking RoundState.battle_live returned t e = cc
before_locking RoundState.finalizing returned t e = cc
before_locking RoundState.finalized returned t e = cc

before_finalizing :
    (s : RoundState) (returned : List RoundState)
    → can_transition_round s RoundState.finalizing ≡ true
    → Returned s returned
    → returned ≡ RoundState.battle_live ∷ RoundState.pick_open ∷ []
unfolding can_transition_round
before_finalizing RoundState.battle_live returned t e = e
before_finalizing RoundState.preparing returned t e = absurd e
before_finalizing RoundState.locking returned t e = absurd e
before_finalizing RoundState.void returned t e = absurd e
before_finalizing RoundState.pick_open returned t e = cc
before_finalizing RoundState.finalizing returned t e = cc
before_finalizing RoundState.finalized returned t e = cc

-- lockRound goes through LOCKING and finalizeRound through FINALIZING inside one call.
table_path :
    (s : RoundState) (returned : List RoundState)
    → Returned s returned
    → (visited : List RoundState) × Run RoundState.pick_open visited s
unfolding can_transition_round
table_path RoundState.pick_open returned e = (_, Run.stay)
table_path RoundState.battle_live returned e =
    (_, Run.go {t = RoundState.locking} refl (Run.go refl Run.stay))
table_path RoundState.finalizing returned e = (
  _,
  Run.go {t = RoundState.locking} refl
      (Run.go {t = RoundState.battle_live} refl (Run.go refl Run.stay)),
)
table_path RoundState.finalized returned e = (
  _,
  Run.go {t = RoundState.locking} refl (
      Run.go {t = RoundState.battle_live} refl
        (Run.go {t = RoundState.finalizing} refl (Run.go refl Run.stay))),
)
table_path RoundState.preparing returned e = absurd e
table_path RoundState.locking returned e = absurd e
table_path RoundState.void returned e = absurd e

-- What finalizing keeps of a round, and the test that it makes.
finalize_round_keeps :
    (h : Hashing) (state : RoundEngineState) (at : ℕ) (hash : Option Text) (config : EngineConfig)
    (complete : Bool) {f : RoundFinalization}
    → finalize_round h state at hash config complete ≡ ok f
    → (can_transition_round state.state RoundState.finalizing ≡ true)
      × (f.state.round_id ≡ state.round_id)
      × (f.state.clock ≡ state.clock)
      × (f.state.picks ≡ state.picks)
unfolding finalize_round
finalize_round_keeps h state at hash config complete e =
    elim (Bool-cases (can_transition_round state.state RoundState.finalizing)) [
      | inr t ↦ absurd (let x = rw t at e in cc)
      | inl t ↦
          let (g, r, k) =
            >>=-eq-ok (finalize_battles h state.battles at hash config complete) _ (rw t at e) in
          subst
            (λ (f : RoundFinalization).
              (can_transition_round state.state RoundState.finalizing ≡ true)
              × (f.state.round_id ≡ state.round_id)
              × (f.state.clock ≡ state.clock)
              × (f.state.picks ≡ state.picks))
            (ok-injective k) (t, refl, refl, refl)
    ]

ends-Returned :
    (f : RoundFinalization) (before : List RoundState)
    → EndsRound f
    → before ≡ RoundState.battle_live ∷ RoundState.pick_open ∷ []
    → Returned f.state.state (f.state.state ∷ before)
ends-Returned f before (inl (s, _)) e = rw (s, e) refl
ends-Returned f before (inr s) e = rw (s, e) refl

round-IsAlive :
    (setup : RoundSetup) (r : RoundEngineState) (returned : List RoundState)
    (picks : List LockedPick)
    → r.round_id ≡ setup.round_id
    → r.clock ≡ setup.clock
    → r.picks ≡ picks
    → Returned r.state returned
    → IsAlive setup r returned picks
round-IsAlive setup r returned picks i c p o = record {
  same_round = i;
  same_clock = c;
  picks_kept = p;
  in_order = o;
  by_table = table_path r.state returned o;
}

-- A round that is created, and then locked, ticked and finalized by any calls in any order, is in
-- PICK_OPEN, BATTLE_LIVE, FINALIZING or FINALIZED, and was returned by createRound, lockRound and
-- finalizeRound in PICK_OPEN, then in BATTLE_LIVE, and then in FINALIZING or in FINALIZED, up to the
-- state that it is in, each once and in no state besides. It holds the picks that lockRound took, and
-- none before that, with the name and the clock of its setup, and its state is reached from PICK_OPEN
-- by steps of ROUND_STATE_TRANSITIONS.
pub lives-IsAlive :
    (hashing : Hashing) (config : EngineConfig) (setup : RoundSetup) {r : RoundEngineState}
    {returned : List RoundState} {picks : List LockedPick}
    → Life hashing config setup r returned picks
    → IsAlive setup r returned picks
unfolding tick_battle
lives-IsAlive h config setup (created {r} fuel e) =
    let (i, c, s, p, _) = create_round_lem h fuel setup e in
    round-IsAlive setup r (r.state ∷ []) [] i c p (subst (λ x. Returned x (x ∷ [])) (sym s) refl)
lives-IsAlive h config setup (locked {s} {r} {returned} at taken before e) =
    let a = lives-IsAlive h config setup before in
    let l = lock_round_inv s at taken e in
    let o = before_locking s.state returned l.from_open a.in_order in
    subst (λ (r : RoundEngineState). IsAlive setup r (r.state ∷ returned) taken) (sym l.result)
      (round-IsAlive setup
        (record s { state = RoundState.battle_live; battles = l.battles; picks = taken })
        (RoundState.battle_live ∷ returned) taken a.same_round a.same_clock refl (rw o refl))
lives-IsAlive h config setup (ticked {s} {r} {returned} {picks} id input before e) =
    let a = lives-IsAlive h config setup before in
    let (bs, _, k) = >>=-eq-ok (map_result _ s.battles) _ e in
    subst (λ (r : RoundEngineState). IsAlive setup r returned picks) (ok-injective k)
      (round-IsAlive setup (record s { battles = bs }) returned picks a.same_round a.same_clock
        a.picks_kept a.in_order)
lives-IsAlive h config setup (ended {s} {f} {returned} {picks} at hash complete before e) =
    let a = lives-IsAlive h config setup before in
    let (t, i, c, p) = finalize_round_keeps h s at hash config complete e in
    round-IsAlive setup f.state (f.state.state ∷ returned) picks (i ∙ a.same_round)
      (c ∙ a.same_clock) (p ∙ a.picks_kept)
      (ends-Returned f returned (finalize_round-EndsRound h s at hash config complete e)
        (before_finalizing s.state returned t a.in_order))
