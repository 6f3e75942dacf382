-- ===== src/RoundService/Driver/Chronicle.antt =====
-- What starting a driver and each of its passes keep (`runRounds` in
-- packages/round-service/src/driver.ts).
use ponswars.Base.{
  ℕ, ◌+◌, ◌≡◌, ◌∙◌, inl, inr, refl, sym, subst, true, false, Bool-cases, ltb, List, Option, none,
  some, if◌then◌else◌, Result, ok, err, ok-injective, some-injective, arith,
}
use ponswars.Base.Text.{Text}
use ponswars.Base.Hashing.{Hashing}
use ponswars.Shared.Round.{RoundState, CanonicalClock, round_state_eq}
use ponswars.BattleMath.Scheduler.{round_id_for, round_index_of}
use ponswars.BattleMath.Scheduler.Names.{
  round_index_of-round_id_for, round_index_of-round_id_for-over,
}
use ponswars.BattleEngine.Battle.{EngineConfig}
use ponswars.RoundService.Loop.Lively.{Lively, LivelyIn}
use ponswars.BattleEngine.Battle.{BattleEngineState}
use ponswars.BattleEngine.Rounds.{RoundEngineState, RoundFinalization}
use ponswars.BattleEngine.Driver.{next_round_opens_at}
use ponswars.RoundService.Ports.{Effect, World, on_action}
use ponswars.RoundService.Loop.{StepResult, step_round}
use ponswars.RoundService.Loop.Stored.{past_battle, Held, Leaves, on_result_lem}
use ponswars.RoundService.Loop.Performed.{ClosedBy, Closed, step_round-Leaves}
use ponswars.RoundService.Driver.{
  Opening, DriverOptions, Driver, index_found, index_of, follow, open_next, start_from, start,
  drive,
}
use ponswars.RoundService.Driver.Opened.{
  IsChronicle, nothing, whole_round, KeptBy, Kept, Ran, open_next-Ran,
}

-- A round that has left its battles behind is whole.
whole-IsChronicle :
    (hashing : Hashing) (config : EngineConfig) (d : Driver) (w : World)
    → KeptBy hashing config d w
    → past_battle d.round.state ≡ true
    → IsChronicle (d.index + 1) w.log
whole-IsChronicle hashing config d w k p =
    let (saved, ((l, b, h), _), _, _) = k.held in
    subst (IsChronicle (d.index + 1)) (sym b)
      (whole_round d.index k.base l k.before h.ordered (h.over_is ∙ p))

finalized-past_battle :
    (s : RoundState) → round_state_eq s RoundState.finalized ≡ true → past_battle s ≡ true
finalized-past_battle RoundState.preparing e = cc
finalized-past_battle RoundState.pick_open e = cc
finalized-past_battle RoundState.locking e = cc
finalized-past_battle RoundState.battle_live e = cc
finalized-past_battle RoundState.finalizing e = refl
finalized-past_battle RoundState.finalized e = refl
finalized-past_battle RoundState.void e = refl

-- The index that is read from a round's name is the one that it was named by.
index_of-named :
    (round : RoundEngineState) (n : ℕ) {i : ℕ}
    → round.round_id ≡ round_id_for n
    → index_of round ≡ ok i
    → i ≡ n
unfolding index_of index_found
index_of-named round n {i} e h =
    let f : index_found (round_index_of (round_id_for n)) ≡ ok i =
      subst (λ (t : Text). index_found (round_index_of t) ≡ ok i) e h in
    elim (Bool-cases (ltb n 10_000_000_000)) [
      | inl b ↦
          let g = round_index_of-round_id_for n (ground (arith, b)) in
          sym (ok-injective (rw g at f))
      | inr b ↦
          let g = round_index_of-round_id_for-over n (ground (arith, b)) in
          absurd (let x = rw g at f in cc)
    ]

-- A round that the loop runs and that is not finalized has its battles before it.
goes_on :
    (h : Hashing) (config : EngineConfig) (clock : CanonicalClock) (bs : List BattleEngineState)
    (s : RoundState)
    → LivelyIn h config clock bs s
    → round_state_eq s RoundState.finalized ≡ false
    → past_battle s ≡ false
goes_on h config clock bs RoundState.preparing l e = absurd l
goes_on h config clock bs RoundState.pick_open l e = refl
goes_on h config clock bs RoundState.locking l e = absurd l
goes_on h config clock bs RoundState.battle_live l e = refl
goes_on h config clock bs RoundState.finalizing l e = absurd l
goes_on h config clock bs RoundState.finalized l e = cc
goes_on h config clock bs RoundState.void l e = absurd l

module _ (hashing : Hashing) (fuel : ℕ) (options : DriverOptions) (o : Opening) where
  resumed-Ran :
      (d : Driver) (w : World) (i : ℕ)
      → KeptBy hashing options.config d w
      → i ≡ d.index
      → Ran hashing options.config (
          (if round_state_eq d.round.state RoundState.finalized
              then open_next hashing fuel options o (i + 1) (next_round_opens_at d.round.clock)
              else (λ v. (ok (record { index = i; clock = d.round.clock; round = d.round }), v)))
            w)
  resumed-Ran d w i k e = elim (Bool-cases (round_state_eq d.round.state RoundState.finalized)) [
    | inl f ↦ rw f (
        open_next-Ran hashing options fuel o (i + 1) (next_round_opens_at d.round.clock) w
          (subst (λ (j : ℕ). IsChronicle (j + 1) w.log) (sym e)
            (whole-IsChronicle hashing options.config d w k
              (finalized-past_battle d.round.state f)))
          (inr (d, k)))
    | inr f ↦
        let (_, _, _, l) = k.held in
        rw f (
          record {
            base = k.base;
            before = subst (λ (j : ℕ). IsChronicle j k.base) (sym e) k.before;
            held =
                subst
                  (λ (j : ℕ).
                    Held (Lively hashing options.config) (round_id_for j) k.base w d.round)
                  (sym e) k.held;
          },
          goes_on hashing options.config d.round.clock d.round.battles d.round.state l f,
        )
  ]

  start_from-Ran :
      (q : Option RoundEngineState) (w : World)
      → w.latest ≡ q
      → Kept hashing options.config w
      → Ran hashing options.config (start_from hashing fuel options o q w)
  unfolding start_from
  start_from-Ran none w e (inl (f, l)) =
      open_next-Ran hashing options fuel o 0 o.opened_at w (subst (IsChronicle 0) (sym l) nothing)
        (inl (f, l))
  start_from-Ran none w e (inr (d, k)) =
      let (_, (_, f), _, _) = k.held in absurd (let x = sym e ∙ f in cc)
  start_from-Ran (some s) w e (inl (f, l)) = absurd (let x = sym e ∙ f in cc)
  start_from-Ran (some s) w e (inr (d, k)) =
      let (_, (_, f), n, _) = k.held in
      let same : d.round ≡ s = some-injective (sym f ∙ e) in
      subst (λ t. Ran hashing options.config (start_from hashing fuel options o (some t) w)) same
        (on_result_lem (Ran hashing options.config) (index_of d.round) _ w
          (λ i g. resumed-Ran d w i k (index_of-named d.round d.index n g)) (λ _. inr (d, k)))

  pub start-Ran :
      (w : World)
      → Kept hashing options.config w
      → Ran hashing options.config (start hashing fuel options o w)
  unfolding start
  start-Ran w k = start_from-Ran w.latest w refl k

  follow-Ran :
      (d : Driver) (base : List Effect) (r : RoundEngineState) (f : Option RoundFinalization)
      (w : World)
      → IsChronicle d.index base
      → Held (Lively hashing options.config) (round_id_for d.index) base w r
      → past_battle d.round.state ≡ false
      → ClosedBy d.round f r
      → Ran hashing options.config (follow hashing fuel options o d r f w)
  unfolding follow
  follow-Ran d base r none w c h p q = (record { base = base; before = c; held = h }, q ∙ p)
  follow-Ran d base r (some f) w c h p q =
      let e : Driver = record d { round = r } in
      let k : KeptBy hashing options.config e w = record { base = base; before = c; held = h } in
      open_next-Ran hashing options fuel o (d.index + 1) (next_round_opens_at d.clock) w
        (whole-IsChronicle hashing options.config e w k q) (inr (e, k))

  pub drive-Ran :
      (now : ℕ) (d : Driver) (w : World)
      → KeptBy hashing options.config d w
      → past_battle d.round.state ≡ false
      → Ran hashing options.config (drive hashing fuel options o now d w)
  unfolding drive
  drive-Ran now d w k p = driven-Ran (step_round hashing o.ports options.config d.round now w) (
      step_round-Leaves hashing options.config (round_id_for d.index) k.base o.ports d.round w now
        k.held)
    where
      driven-Ran :
          (r : Result StepResult × World)
          → Leaves
              (Lively hashing options.config)
              (round_id_for d.index)
              k.base
              (λ r. r.state)
              (Closed d.round)
              r
          → Ran hashing options.config (
              on_action r
                (λ result. follow hashing fuel options o d result.state result.finalization))
      driven-Ran (ok r, v) (h, c) = follow-Ran d k.base r.state r.finalization v k.before h p c
      driven-Ran (err e, v) (s, h) =
          inr (record d { round = s }, record { base = k.base; before = k.before; held = h })
