-- ===== src/BattleEngine/Rounds/Retry.antt =====
-- What a finalized round holds, and finalizing a round again (`finalizeRound` in
-- packages/battle-engine/src/round.ts).
use ponswars.Base.{
  ℕ, ◌+◌, ◌≤◌, ◌==◌, ◌≡◌, ◌⊎◌, inl, inr, refl, subst, Bool, true, Bool-cases, List, [], ◌∷◌, Option,
  All, length, ok, err, failure, >>=-eq-ok, ok-injective, arith,
}
use ponswars.Base.Text.{Text}
use ponswars.Base.Hashing.{Hashing}
use ponswars.Shared.Round.{RoundState, BattleState, battle_state_eq, can_transition_round}
use ponswars.BattleEngine.Battle.{BattleEngineState, EngineConfig}
use ponswars.BattleEngine.Finalize.{
  FinalizeOutcome, waiting, finalized_as, voided_as, finalize_battle,
}
use ponswars.BattleEngine.Reachable.Settled.{IsSettled, Ends, finalize_battle-Ends}
use ponswars.BattleEngine.Rounds.{
  RoundEngineState, Gathered, gather, finalize_battles, RoundFinalization, is_settled,
  finalize_round,
}

-- The outcomes that are counted are at most the battles, and all of them only when each is settled.
record IsCounted (battles : List BattleEngineState) (g : Gathered) : Type 0 where
  pub same_length : length g.battles ≡ length battles
  pub at_most : length g.results + length g.voided ≤ length battles
  pub all_settled :
      length g.results + length g.voided ≡ length battles → All (λ b. IsSettled b.state) g.battles

gather-IsCounted :
    (b : BattleEngineState) (battles : List BattleEngineState) (o : FinalizeOutcome) (g : Gathered)
    → Ends b o
    → IsCounted battles g
    → IsCounted (b ∷ battles) (gather b o g)
unfolding gather
gather-IsCounted b battles (waiting s) g e c =
    let l = c.same_length in
    let m = c.at_most in
    record {
      same_length = omega (arith, l);
      at_most = omega (arith, m);
      all_settled = λ n. absurd (omega (arith, m, n));
    }
gather-IsCounted b battles (finalized_as s result) g e c =
    let l = c.same_length in
    let m = c.at_most in
    record {
      same_length = omega (arith, l);
      at_most = omega (arith, m);
      all_settled = λ n. (inl e, c.all_settled (omega (arith, n)));
    }
gather-IsCounted b battles (voided_as s reason) g e c =
    let l = c.same_length in
    let m = c.at_most in
    record {
      same_length = omega (arith, l);
      at_most = omega (arith, m);
      all_settled = λ n. (inr e, c.all_settled (omega (arith, n)));
    }

is_void : (b : BattleState) → battle_state_eq b BattleState.void ≡ true → b ≡ BattleState.void
is_void BattleState.scheduled h = cc
is_void BattleState.live h = cc
is_void BattleState.finalized h = cc
is_void BattleState.void h = refl

finalize_battles-IsCounted :
    (h : Hashing) (battles : List BattleEngineState) (at : ℕ) (hash : Option Text)
    (config : EngineConfig) (complete : Bool) {g : Gathered}
    → finalize_battles h battles at hash config complete ≡ ok g
    → IsCounted battles g
unfolding finalize_battles
finalize_battles-IsCounted h [] at hash config complete e =
    subst (IsCounted []) (ok-injective e)
      (record { same_length = refl; at_most = omega arith; all_settled = λ _. tt })
finalize_battles-IsCounted h (b ∷ battles) at hash config complete e =
    elim (Bool-cases (battle_state_eq b.state BattleState.void)) [
      | inl v ↦
          let (rest, r, f) =
            >>=-eq-ok (finalize_battles h battles at hash config complete) _ (rw v at e) in
          let c = finalize_battles-IsCounted h battles at hash config complete r in
          let l = c.same_length in
          let m = c.at_most in
          subst (IsCounted (b ∷ battles)) (ok-injective f) (record {
            same_length = omega (arith, l);
            at_most = omega (arith, m);
            all_settled = λ n. (inr (is_void b.state v), c.all_settled (omega (arith, n)));
          })
      | inr v ↦
          let (o, d, f) = >>=-eq-ok (finalize_battle h b at hash config complete) _ (rw v at e) in
          let (rest, r, k) = >>=-eq-ok (finalize_battles h battles at hash config complete) _ f in
          subst (IsCounted (b ∷ battles)) (ok-injective k) (
            gather-IsCounted b battles o rest (finalize_battle-Ends h config b at hash complete d)
              (finalize_battles-IsCounted h battles at hash config complete r))
    ]

-- The state that `finalizeRound` returns.
abbrev pub EndsRound : RoundFinalization → Type 0
EndsRound f =
    ((f.state.state ≡ RoundState.finalized) × All (λ b. IsSettled b.state) f.state.battles)
    ⊎ (f.state.state ≡ RoundState.finalizing)

pub finalize_round-EndsRound :
    (h : Hashing) (state : RoundEngineState) (at : ℕ) (hash : Option Text) (config : EngineConfig)
    (complete : Bool) {f : RoundFinalization}
    → finalize_round h state at hash config complete ≡ ok f
    → EndsRound f
unfolding finalize_round is_settled
finalize_round-EndsRound h state at hash config complete e =
    elim (Bool-cases (can_transition_round state.state RoundState.finalizing)) [
      | inr t ↦ absurd (let x = rw t at e in cc)
      | inl t ↦
          let (g, r, k) =
            >>=-eq-ok (finalize_battles h state.battles at hash config complete) _ (rw t at e) in
          let c = finalize_battles-IsCounted h state.battles at hash config complete r in
          subst EndsRound (ok-injective k)
            (elim (Bool-cases ((length g.results + length g.voided) == length state.battles)) [
              | inl s ↦ rw s (inl (refl, c.all_settled (ground arith)))
              | inr s ↦ rw s (inr refl)
            ])
    ]

-- A round that `finalizeRound` returns as FINALIZED holds only battles that are finalized or void.
pub finalized_round_ends :
    (hashing : Hashing) (state : RoundEngineState) (at : ℕ) (hash : Option Text)
    (config : EngineConfig) (complete : Bool) {f : RoundFinalization}
    → finalize_round hashing state at hash config complete ≡ ok f
    → f.state.state ≡ RoundState.finalized
    → All (λ b. IsSettled b.state) f.state.battles
finalized_round_ends hashing state at hash config complete e s =
    elim (finalize_round-EndsRound hashing state at hash config complete e) [
      | inl (_, a) ↦ a
      | inr w ↦ absurd cc
    ]

-- The round that a call of `finalizeRound` returns is never finalized again: every later call on it
-- throws an Error, whether the first one settled the round or left it in FINALIZING to wait.
pub finalize_round_again :
    (hashing : Hashing) (state : RoundEngineState) (at : ℕ) (hash : Option Text)
    (config : EngineConfig) (complete : Bool) {f : RoundFinalization}
    → finalize_round hashing state at hash config complete ≡ ok f
    → (later : ℕ) (new_hash : Option Text) (now_complete : Bool)
    → finalize_round hashing f.state later new_hash config now_complete ≡ err failure
unfolding finalize_round can_transition_round
finalize_round_again hashing state at hash config complete e later new_hash now_complete =
    elim (finalize_round-EndsRound hashing state at hash config complete e) [
      | inl (s, _) ↦ rw s refl
      | inr s ↦ rw s refl
    ]
