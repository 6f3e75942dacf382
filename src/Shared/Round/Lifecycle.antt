-- ===== src/Shared/Round/Lifecycle.antt =====
-- The states that a round passes through (`ROUND_STATE_TRANSITIONS` in
-- packages/shared-types/src/round.ts).
use ponswars.Base.{
  ℕ, zero, suc, ◌<◌, ◌≤◌, ◌≡◌, ◌↔◌, ◌∙◌, sym, refl, true, false, List, [], ◌∷◌, ap, arith,
}
use ponswars.Shared.Round.{
  RoundState, preparing, pick_open, locking, battle_live, finalizing, finalized, void, round_tag,
  can_transition_round, is_terminal_round_state,
}

-- A round goes from one state to another through the states listed.
pub data Run : RoundState → List RoundState → RoundState → Type 0 where
  stay : {s : RoundState} → Run s [] s
  go :
      {s t u : RoundState} {visited : List RoundState}
      → can_transition_round s t ≡ true
      → Run t visited u
      → Run s (t ∷ visited) u

abbrev of_tag : ℕ → RoundState
of_tag zero = preparing
of_tag (suc zero) = pick_open
of_tag (suc (suc zero)) = locking
of_tag (suc (suc (suc zero))) = battle_live
of_tag (suc (suc (suc (suc zero)))) = finalizing
of_tag (suc (suc (suc (suc (suc zero))))) = finalized
of_tag (suc (suc (suc (suc (suc (suc n)))))) = void

of_tag-round_tag : (s : RoundState) → of_tag (round_tag s) ≡ s
of_tag-round_tag preparing = refl
of_tag-round_tag pick_open = refl
of_tag-round_tag locking = refl
of_tag-round_tag battle_live = refl
of_tag-round_tag finalizing = refl
of_tag-round_tag finalized = refl
of_tag-round_tag void = refl

pub round_tag-injective : (s t : RoundState) → round_tag s ≡ round_tag t → s ≡ t
round_tag-injective s t h = sym (of_tag-round_tag s) ∙ ap of_tag h ∙ of_tag-round_tag t

transition_tag : (s t : RoundState) → can_transition_round s t ≡ true → round_tag s < round_tag t
unfolding can_transition_round
transition_tag preparing t h = ground arith
transition_tag pick_open t h = ground arith
transition_tag locking t h = ground arith
transition_tag battle_live t h = ground arith
transition_tag finalizing t h = ground arith
transition_tag finalized t h = ground arith
transition_tag void t h = ground arith

-- A state is never entered twice: the tag only grows along a run.
path_tag :
    {s t : RoundState} {visited : List RoundState} → Run s visited t → round_tag s ≤ round_tag t
path_tag stay = omega arith
path_tag (go {s = s} {t = t} h r) = omega (arith, transition_tag s t h, path_tag r)

-- The states that a round which is not voided still goes through.
abbrev pub phases_after : RoundState → List RoundState
phases_after preparing = pick_open ∷ locking ∷ battle_live ∷ finalizing ∷ finalized ∷ []
phases_after pick_open = locking ∷ battle_live ∷ finalizing ∷ finalized ∷ []
phases_after locking = battle_live ∷ finalizing ∷ finalized ∷ []
phases_after battle_live = finalizing ∷ finalized ∷ []
phases_after finalizing = finalized ∷ []
phases_after finalized = []
phases_after void = []

step_phases :
    (s t : RoundState)
    → can_transition_round s t ≡ true
    → round_tag t ≤ 5
    → t ∷ phases_after t ≡ phases_after s
unfolding can_transition_round
step_phases preparing t h l = let e = round_tag-injective t pick_open (ground arith) in rw e refl
step_phases pick_open t h l = let e = round_tag-injective t locking (ground arith) in rw e refl
step_phases locking t h l = let e = round_tag-injective t battle_live (ground arith) in rw e refl
step_phases battle_live t h l = let e = round_tag-injective t finalizing (ground arith) in rw e refl
step_phases finalizing t h l = let e = round_tag-injective t finalized (ground arith) in rw e refl
step_phases finalized t h l = absurd (ground arith)
step_phases void t h l = absurd (ground arith)

-- In the table, the one path to FINALIZED goes through every later state once and in order. The engine
-- returns a round in some of these states only: lockRound and finalizeRound take two steps in one call.
pub finalized_path :
    {s : RoundState} {visited : List RoundState}
    → Run s visited finalized
    → visited ≡ phases_after s
finalized_path stay = refl
finalized_path (go {s = s} {t = t} h r) =
    ap (λ later. t ∷ later) (finalized_path r) ∙ step_phases s t h (path_tag r)

-- The terminal states are exactly those that no transition leaves.
pub terminal_iff :
    (s : RoundState)
    → (is_terminal_round_state s ≡ true) ↔ ((t : RoundState) → can_transition_round s t ≡ false)
unfolding is_terminal_round_state can_transition_round
terminal_iff preparing = (λ h. cc, λ h. absurd (let e = h pick_open in cc))
terminal_iff pick_open = (λ h. cc, λ h. absurd (let e = h locking in cc))
terminal_iff locking = (λ h. cc, λ h. absurd (let e = h battle_live in cc))
terminal_iff battle_live = (λ h. cc, λ h. absurd (let e = h finalizing in cc))
terminal_iff finalizing = (λ h. cc, λ h. absurd (let e = h finalized in cc))
terminal_iff finalized = (λ _ _. refl, λ _. refl)
terminal_iff void = (λ _ _. refl, λ _. refl)
