-- ===== src/RoundService/Loop/Advances.antt =====
-- A step that is due moves its round on (`stepRound` in packages/round-service/src/loop.ts).
use ponswars.Base.{
  ℕ, ◌≤◌, ◌∙◌, All, map, ◌≡◌, ◌⊎◌, inl, inr, refl, ap, subst, true, false, Bool-cases, List, Option,
  none, some, ltb, Result, ok, err, arith,
}
use ponswars.Base.Text.{Text}
use ponswars.Base.Hashing.{Hashing}
use ponswars.Shared.Round.{RoundState, CanonicalClock, is_terminal_round_state}
use ponswars.BattleMath.Resolution.Hashed.{IsHexText}
use ponswars.BattleEngine.Battle.{BattleEngineState, EngineConfig}
use ponswars.BattleEngine.Reachable.Finishes.{HasMargins}
use ponswars.BattleEngine.Rounds.{
  RoundEngineState, RoundFinalization, needs_finalization_block_hash,
}
use ponswars.BattleEngine.Rounds.Lock.{lock_round-IsLocked}
use ponswars.BattleEngine.Rounds.Running.{Running, lock_round-Returns}
use ponswars.BattleEngine.Rounds.Complete.{finalize_round_complete}
use ponswars.BattleEngine.Rounds.Ending.{needs_hash-Returns, finalize_round-Running}
use ponswars.BattleEngine.Driver.{lock, finalize, next_round_action}
use ponswars.Realtime.Envelope.{round_channel}
use ponswars.RoundService.Ports.{RoundPorts, World, picks_locked, round_finalized}
use ponswars.RoundService.Loop.{
  matchup_of, void_events, StepResult, perform_lock, block_hash_for, perform_finalize, perform,
  step_round,
}
use ponswars.RoundService.Loop.Answering.{
  Answers, save_state-Returns, save_finalization-Returns, publish-Returns, publish_all-Returns,
}
use ponswars.RoundService.Loop.Stored.{past_battle, finalize_round-round_id}
use ponswars.RoundService.Loop.Lively.{LivelyIn, Lively}

-- The instant that a round waits for in a state.
abbrev pub due_at : CanonicalClock → RoundState → ℕ
due_at clock RoundState.pick_open = clock.lock_at
due_at clock _ = clock.battle_end_at

-- The state of a round went from open picks to live with no finalization, or from live to finalized with a finalization.
abbrev pub MovedOn : RoundState → RoundState → Option RoundFinalization → Type 0
MovedOn before after f =
    ((before ≡ RoundState.pick_open) × (after ≡ RoundState.battle_live) × (f ≡ none))
    ⊎ ((before ≡ RoundState.battle_live)
        × (after ≡ RoundState.finalized)
        × ((closed : RoundFinalization) × (f ≡ some closed)))

-- A step returned and left the same round stored, in its next state.
abbrev pub Advanced : RoundEngineState → Result StepResult × World → Type 0
Advanced before (ok r, w) =
    (w.latest ≡ some r.state)
    × (r.state.round_id ≡ before.round_id)
    × MovedOn before.state r.state.state r.finalization
Advanced before (err e, w) = ⊥

-- What the loop asks the hash for.
abbrev HashAsked : EngineConfig → RoundEngineState → Option Text → Type 0
HashAsked config state hash =
    ((needs_finalization_block_hash state.battles config ≡ ok false) × (hash ≡ none))
    ⊎ ((x : Text) × (hash ≡ some x) × IsHexText x)

lock_due :
    (state : RoundEngineState) (now max_wait : ℕ)
    → state.state ≡ RoundState.pick_open
    → state.clock.pick_open_at ≤ now
    → state.clock.lock_at ≤ now
    → next_round_action state now max_wait ≡ ok lock
unfolding next_round_action is_terminal_round_state
lock_due state now max_wait s b d =
    let e : ltb now state.clock.pick_open_at ≡ false = ground (arith, b) in
    let f : ltb now state.clock.lock_at ≡ false = ground (arith, d) in rw (s, e, f) refl

finalize_due :
    (state : RoundEngineState) (now max_wait : ℕ)
    → state.state ≡ RoundState.battle_live
    → state.clock.pick_open_at ≤ now
    → state.clock.battle_end_at ≤ now
    → next_round_action state now max_wait ≡ ok finalize
unfolding next_round_action is_terminal_round_state
finalize_due state now max_wait s b d =
    let e : ltb now state.clock.pick_open_at ≡ false = ground (arith, b) in
    let f : ltb now state.clock.battle_end_at ≡ false = ground (arith, d) in rw (s, e, f) refl

-- A round that has its battles before it is open or live.
stage :
    (h : Hashing) (config : EngineConfig) (clock : CanonicalClock) (bs : List BattleEngineState)
    (s : RoundState)
    → LivelyIn h config clock bs s
    → past_battle s ≡ false
    → (s ≡ RoundState.pick_open) ⊎ (s ≡ RoundState.battle_live)
stage h config clock bs RoundState.preparing l e = absurd l
stage h config clock bs RoundState.pick_open l e = inl refl
stage h config clock bs RoundState.locking l e = absurd l
stage h config clock bs RoundState.battle_live l e = inr refl
stage h config clock bs RoundState.finalizing l e = absurd l
stage h config clock bs RoundState.finalized l e = cc
stage h config clock bs RoundState.void l e = absurd l

module _ (hashing : Hashing) (ports : RoundPorts) (config : EngineConfig) (state : RoundEngineState)
    (w : World) where
  perform_lock-Returns :
      Answers ports state
      → Lively hashing config state
      → state.state ≡ RoundState.pick_open
      → (locked : RoundEngineState) × (v : World) × (perform_lock ports state w ≡ (ok locked, v))
        × (v.latest ≡ some locked)
        × (locked.round_id ≡ state.round_id)
        × (locked.state ≡ RoundState.battle_live)
  unfolding perform_lock
  perform_lock-Returns a l s =
      let (_, d, _, fresh) = subst (LivelyIn hashing config state.clock state.battles) s l in
      let at = state.clock.lock_at in
      let (locked, e) = lock_round-Returns state at a.picks s (omega arith) d fresh a.picks_taken in
      let i = lock_round-IsLocked state at a.picks e in
      let told = picks_locked state.round_id (map matchup_of locked.battles) in
      let (v, f, g) = save_state-Returns ports locked w (a.writes.saves locked) in
      let channel = round_channel state.round_id in
      let (u, h, k) = publish-Returns ports channel at told v (a.writes.tells channel at told) in
      let given = a.picks_given in
      (locked, u, rw (given, e, f, h) refl, k ∙ g, i.same_round, i.live)

  block_hash_for-HashAsked :
      Answers ports state
      → All (Running hashing config state.clock) state.battles
      → (hash : Option Text) × (block_hash_for ports config state ≡ ok hash)
        × HashAsked config state hash
  unfolding block_hash_for
  block_hash_for-HashAsked a r =
      let (needed, e) = needs_hash-Returns hashing config state.clock state.battles r in
      let given = a.hash_given in
      elim (Bool-cases needed) [
        | inl t ↦ (some a.hash, rw (e, t, given) refl, inr (a.hash, refl, a.hash_in_hex))
        | inr t ↦ (none, rw (e, t) refl, inl (e ∙ ap ok t, refl))
      ]

  perform_finalize-Returns :
      Answers ports state
      → Lively hashing config state
      → HasMargins config.victory
      → state.state ≡ RoundState.battle_live
      → (f : RoundFinalization) × (v : World) × (perform_finalize hashing ports config state w
          ≡ (ok f, v))
        × (v.latest ≡ some f.state)
        × (f.state.round_id ≡ state.round_id)
        × (f.state.state ≡ RoundState.finalized)
  unfolding perform_finalize
  perform_finalize-Returns a l m s =
      let (_, r) = subst (LivelyIn hashing config state.clock state.battles) s l in
      let at = state.clock.battle_end_at in
      let (hash, e, asked) = block_hash_for-HashAsked a r in
      let (f, g) = finalize_round-Running hashing config state at hash s m (omega arith) r asked in
      let (ids, v, h, k) = save_finalization-Returns ports f w (a.writes.closes f) in
      let voids = void_events at ids f.voided f.state.battles in
      let (u, n, o) = publish_all-Returns ports voids v a.writes.tells in
      let told = round_finalized state.round_id f.results f.voided in
      let channel = round_channel state.round_id in
      let (t, p, q) = publish-Returns ports channel at told u (a.writes.tells channel at told) in
      (
        f,
        t,
        rw (e, g, h, n, p) refl,
        q ∙ o ∙ k,
        finalize_round-round_id hashing state at hash config true g,
        finalize_round_complete hashing config state at hash g,
      )

  -- From its instant on, an open round is locked and a live one is finalized.
  pub step_round-Advanced :
      (now : ℕ)
      → Answers ports state
      → Lively hashing config state
      → HasMargins config.victory
      → past_battle state.state ≡ false
      → due_at state.clock state.state ≤ now
      → Advanced state (step_round hashing ports config state now w)
  unfolding step_round perform
  step_round-Advanced now a l m p d =
      let clock = state.clock in
      elim (stage hashing config clock state.battles state.state l p) [
        | inl s ↦
            let (b, _, _, _) = subst (LivelyIn hashing config clock state.battles) s l in
            let due : clock.lock_at ≤ now = subst (λ t. due_at clock t ≤ now) s d in
            let before : clock.pick_open_at ≤ now = omega (arith, b, due) in
            let e = lock_due state now config.max_wait s before due in
            let (locked, v, f, stored, same, live) = perform_lock-Returns a l s in
            rw (e, f) (stored, same, inl (s, live, refl))
        | inr s ↦
            let (b, _) = subst (LivelyIn hashing config clock state.battles) s l in
            let due : clock.battle_end_at ≤ now = subst (λ t. due_at clock t ≤ now) s d in
            let before : clock.pick_open_at ≤ now = omega (arith, b, due) in
            let e = finalize_due state now config.max_wait s before due in
            let (closed, v, f, stored, same, over) = perform_finalize-Returns a l m s in
            rw (e, f) (stored, same, inr (s, over, (closed, refl)))
      ]
