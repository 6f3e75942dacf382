-- ===== src/RoundService/Loop/Performed.antt =====
-- What a step writes and leaves stored (packages/round-service/src/loop.ts).
use ponswars.Base.{
  ◌∙◌, Option, List, ℕ, ◌≡◌, refl, sym, subst, true, false, none, some, map, Result, ok, err,
}
use ponswars.Base.Hashing.{Hashing}
use ponswars.BattleEngine.Battle.{EngineConfig}
use ponswars.BattleEngine.Rounds.{RoundEngineState, RoundFinalization, lock_round, finalize_round}
use ponswars.BattleEngine.Driver.{
  RoundAction, wait, accept_picks, lock, tick, finalize, finalization_overdue, done,
  next_round_action,
}
use ponswars.BattleEngine.Rounds.Retry.{finalize_round-EndsRound}
use ponswars.BattleEngine.Rounds.Complete.{finalize_round_complete}
use ponswars.BattleEngine.Rounds.Lock.{lock_round-IsLocked}
use ponswars.Realtime.Envelope.{round_channel}
use ponswars.RoundService.Ports.{
  Effect, RoundPorts, World, on_action, save_finalization, publish, publish_all, picks_locked,
}
use ponswars.Base.Text.{Text}
use ponswars.RoundService.Loop.{
  StepResult, matchup_of, perform_lock, tick_battles, perform_tick, block_hash_for, void_events,
  perform_finalize, perform, step_round,
}
use ponswars.RoundService.Loop.Ordered.{
  on_action_lem, publish-Keeps, publish_all-Keeps, finalization_saved-Keeps, finalization_saved_err,
}
use ponswars.Shared.Round.{RoundState}
use ponswars.RoundService.Loop.Told.{tick_battles-Allowed, void_events-Allowed}
use ponswars.RoundService.Loop.Lively.{
  Lively, lock_round-Lively, tick_battles-Lively, ended-Lively, ticks, next_round_action_ticks,
}
use ponswars.RoundService.Loop.Stored.{
  past_battle, acts, next_round_action-acts, Held, Leaves, on_result_lem, save_state-Leaves,
  told_end-Leaves, ended-past_battle, finalize_round-round_id,
}

-- What an action returned, wrapped.
wrapped-Leaves :
    {A B : Type 0} (P : RoundEngineState → Type 0) (id : Text) (base : List Effect)
    (state_in : B → RoundEngineState) (Q : B → Type 0) (wrap : A → B) (p : Result A × World)
    → Leaves P id base (λ a. state_in (wrap a)) (λ a. Q (wrap a)) p
    → Leaves P id base state_in Q (on_action p (λ a after. (ok (wrap a), after)))
wrapped-Leaves P id base state_in Q wrap (ok a, w) l = l
wrapped-Leaves P id base state_in Q wrap (err e, w) l = l

-- A step with a finalization has left the battles of its round behind, and no other step does.
abbrev pub ClosedBy : RoundEngineState → Option RoundFinalization → RoundEngineState → Type 0
ClosedBy before none round = past_battle round.state ≡ past_battle before.state
ClosedBy before (some f) round = past_battle round.state ≡ true

abbrev pub Closed : RoundEngineState → StepResult → Type 0
Closed before r = ClosedBy before r.finalization r.state

module _ (hashing : Hashing) (config : EngineConfig) (id : Text) (base : List Effect)
    (ports : RoundPorts) (state : RoundEngineState) (w : World) where
  -- Each performed action starts from a round that has not left its battles behind.
  perform_lock-Leaves :
      Held (Lively hashing config) id base w state
      → past_battle state.state ≡ false
      → Leaves
          (Lively hashing config)
          id
          base
          (λ s. s)
          (λ s. past_battle s.state ≡ past_battle state.state)
          (perform_lock ports state w)
  unfolding perform_lock
  perform_lock-Leaves h p =
      on_result_lem
        (Leaves (Lively hashing config) id base (λ s. s)
          (λ s. past_battle s.state ≡ past_battle state.state))
        (ports.locked_picks state.round_id) _ w
        (λ picks _.
          on_result_lem
            (Leaves (Lively hashing config) id base (λ s. s)
              (λ s. past_battle s.state ≡ past_battle state.state))
            (lock_round state state.clock.lock_at picks) _ w
            (λ locked e.
              let told = picks_locked state.round_id (map matchup_of locked.battles) in
              let l = lock_round-IsLocked state state.clock.lock_at picks e in
              let live = l.live in
              let (_, _, n, lively) = h in
              save_state-Leaves (Lively hashing config) id base ports state locked w
                (publish ports (round_channel state.round_id) state.clock.lock_at told) h p
                (rw live refl) (l.same_round ∙ n)
                (lock_round-Lively hashing config state state.clock.lock_at picks lively e)
                (λ v k.
                  publish-Keeps id base true false (some locked) ports
                    (round_channel state.round_id) state.clock.lock_at told v (n, refl, refl) k))
            (λ _. (state, h)))
        (λ _. (state, h))

  perform_tick-Leaves :
      (now : ℕ)
      → Held (Lively hashing config) id base w state
      → past_battle state.state ≡ false
      → state.state ≡ RoundState.battle_live
      → Leaves
          (Lively hashing config)
          id
          base
          (λ s. s)
          (λ s. past_battle s.state ≡ past_battle state.state)
          (perform_tick hashing ports config state now w)
  unfolding perform_tick
  perform_tick-Leaves now h p live =
      on_result_lem
        (Leaves (Lively hashing config) id base (λ s. s)
          (λ s. past_battle s.state ≡ past_battle state.state))
        (tick_battles hashing ports config now state.battles) _ w
        (λ ticked e.
          let next = record state { battles = ticked.battles } in
          let (_, _, n, lively) = h in
          save_state-Leaves (Lively hashing config) id base ports state next w
            (publish_all ports ticked.to_publish) h p p n
            (tick_battles-Lively hashing ports config now state live lively e)
            (λ v k.
              publish_all-Keeps id base true false (some next) ports ticked.to_publish v
                (tick_battles-Allowed id hashing ports config now state.battles e) k))
        (λ _. (state, h))

  perform_finalize-Leaves :
      Held (Lively hashing config) id base w state
      → past_battle state.state ≡ false
      → Leaves
          (Lively hashing config)
          id
          base
          (λ f. f.state)
          (λ f. past_battle f.state.state ≡ true)
          (perform_finalize hashing ports config state w)
  unfolding perform_finalize save_finalization
  perform_finalize-Leaves (saved, (l, k), n, lively) p =
      let at = state.clock.battle_end_at in
      let h : Held (Lively hashing config) id base w state = (saved, (l, k), n, lively) in
      on_result_lem
        (Leaves (Lively hashing config) id base (λ f. f.state)
          (λ f. past_battle f.state.state ≡ true))
        (block_hash_for ports config state) _ w
        (λ hash _.
          on_result_lem
            (Leaves (Lively hashing config) id base (λ f. f.state)
              (λ f. past_battle f.state.state ≡ true))
            (finalize_round hashing state at hash config true) _ w
            (λ f d.
              let m = finalize_round-round_id hashing state at hash config true d ∙ n in
              on_action_lem
                (Leaves (Lively hashing config) id base (λ f. f.state)
                  (λ f. past_battle f.state.state ≡ true))
                (save_finalization ports f w) _
                (λ restored e.
                  told_end-Leaves (Lively hashing config) id base ports state f _
                    (void_events at restored f.voided f.state.battles) n m
                    (ended-past_battle f
                      (finalize_round-EndsRound hashing state at hash config true d))
                    (ended-Lively hashing config f
                      (finalize_round_complete hashing config state at hash d))
                    (void_events-Allowed id saved at restored f.voided f.state.battles)
                    (finalization_saved-Keeps id base (ports.save_finalization f) saved f w
                      (rw p at l) m e))
                (λ x e. (
                  state,
                  subst (λ v. Held (Lively hashing config) id base v state)
                      (sym (finalization_saved_err (ports.save_finalization f) f w e)) h,
                )))
            (λ _. (state, h)))
        (λ _. (state, h))

  perform-Leaves :
      (now : ℕ) (action : RoundAction)
      → Held (Lively hashing config) id base w state
      → (acts action ≡ true → past_battle state.state ≡ false)
      → (ticks action ≡ true → state.state ≡ RoundState.battle_live)
      → Leaves
          (Lively hashing config)
          id
          base
          (λ r. r.state)
          (Closed state)
          (perform hashing ports config state now action w)
  unfolding perform
  perform-Leaves now lock h a b =
      wrapped-Leaves (Lively hashing config) id base (λ r. r.state) (Closed state)
        (λ locked. record { state = locked; action = lock; finalization = none })
        (perform_lock ports state w) (perform_lock-Leaves h (a refl))
  perform-Leaves now (tick deadline) h a b =
      wrapped-Leaves (Lively hashing config) id base (λ r. r.state) (Closed state)
        (λ next. record { state = next; action = tick deadline; finalization = none })
        (perform_tick hashing ports config state now w)
        (perform_tick-Leaves now h (a refl) (b refl))
  perform-Leaves now finalize h a b =
      wrapped-Leaves (Lively hashing config) id base (λ r. r.state) (Closed state)
        (λ (f : RoundFinalization). record {
          state = f.state;
          action = finalize;
          finalization = some f;
        })
        (perform_finalize hashing ports config state w) (perform_finalize-Leaves h (a refl))
  perform-Leaves now (wait until) h a b = (h, refl)
  perform-Leaves now (accept_picks t) h a b = (h, refl)
  perform-Leaves now (finalization_overdue t) h a b = (h, refl)
  perform-Leaves now (done t) h a b = (h, refl)

  pub step_round-Leaves :
      (now : ℕ)
      → Held (Lively hashing config) id base w state
      → Leaves
          (Lively hashing config)
          id
          base
          (λ r. r.state)
          (Closed state)
          (step_round hashing ports config state now w)
  unfolding step_round
  step_round-Leaves now h =
      on_result_lem (Leaves (Lively hashing config) id base (λ r. r.state) (Closed state))
        (next_round_action state now config.max_wait) _ w
        (λ action e.
          perform-Leaves now action h (next_round_action-acts state now config.max_wait e)
            (next_round_action_ticks state now config.max_wait e))
        (λ _. (state, h))
