-- ===== src/BattleMath/Scheduler/Windows.antt =====
-- Rounds divide the time after the epoch (packages/battle-math/src/scheduler.ts).
use ponswars.Base.{
  ℕ, ◌+◌, ◌-◌, ◌*◌, ◌/◌, ◌≤◌, ◌<◌, ◌≡◌, ◌↔◌, inl, inr, refl, ap, Bool, true, false, Bool-cases,
  some, Result, ok, err, range_error, ltb, arith,
}
use ponswars.Shared.Round.{
  CanonicalClock, DisplayPhase, build_canonical_clock, display_phase_at, round_duration,
  pick_phase_duration,
}
use ponswars.BattleMath.Scheduler.{
  clock_for_round, round_index_at, accepts_pick_at, decide_finalization, FinalizationDecision, wait,
  finalize, void,
}

div_unique : (n i : ℕ) → i * 600_000 ≤ n → n < i * 600_000 + 600_000 → n / 600_000 ≡ i
div_unique n i h k = omega arith

-- A time belongs to round `index` exactly when it lies from the opening of that round's clock up to
-- its end, the end left out; `roundIndexAt` and `clockForRound` agree on where every round lies.
pub round_index_iff :
    (epoch index server_time at : ℕ)
    → (round_index_at epoch at ≡ some index) ↔ (
        ((clock_for_round epoch index server_time).pick_open_at ≤ at)
        × (at < (clock_for_round epoch index server_time).battle_end_at))
unfolding round_index_at clock_for_round build_canonical_clock
round_index_iff epoch index server_time at = elim (Bool-cases (ltb at epoch)) [
  | inl e ↦ rw e (λ h. cc, λ h. absurd (ground arith))
  | inr e ↦ rw e (
    λ h. let d : (at - epoch) / 600_000 ≡ index = cc in (ground arith, ground arith),
    λ h. ap some (div_unique (at - epoch) index (ground arith) (ground arith)),
  )
]

-- The server takes a pick, in every round, exactly while the display shows the pick phase, and the
-- four display phases follow the clock: before it opens, for one minute, to its end, and after.
pub accepts_pick_iff :
    (epoch index server_time at : ℕ)
    → let clock = clock_for_round epoch index server_time in
      (accepts_pick_at clock at ≡ true) ↔ (display_phase_at clock at ≡ DisplayPhase.pick_open)
unfolding accepts_pick_at display_phase_at clock_for_round build_canonical_clock
accepts_pick_iff epoch index server_time at =
    elim (Bool-cases (ltb at (epoch + index * round_duration))) [
      | inl e ↦ rw e (λ h. absurd (ground arith), λ h. cc)
      | inr e ↦ elim (Bool-cases (ltb at (epoch + index * round_duration + pick_phase_duration))) [
        | inl f ↦ rw (e, f) (λ h. refl, λ h. ground arith)
        | inr f ↦ elim (Bool-cases (ltb at (epoch + index * round_duration + round_duration))) [
          | inl g ↦ rw (e, f, g) (λ h. absurd (ground arith), λ h. cc)
          | inr g ↦ rw (e, f, g) (λ h. absurd (ground arith), λ h. cc)
        ]
      ]
    ]

-- What each decision on a round needs.
abbrev pub Decides : CanonicalClock → ℕ → Bool → ℕ → Result FinalizationDecision → Type 0
Decides clock at complete max_wait (ok finalize) = (clock.battle_end_at ≤ at) × (complete ≡ true)
Decides clock at complete max_wait (ok wait) =
    (clock.battle_end_at ≤ at) × (complete ≡ false) × (at < clock.battle_end_at + max_wait)
Decides clock at complete max_wait (ok void) =
    (clock.battle_end_at + max_wait ≤ at) × (complete ≡ false)
Decides clock at complete max_wait (err e) = (e ≡ range_error) × (at < clock.battle_end_at)

-- `decideFinalization` throws a RangeError exactly before the cutoff; from the cutoff on a round with
-- complete data is finalized, and one without waits for less than the longest wait and is then voided.
pub decide_finalization-Decides :
    (clock : CanonicalClock) (at : ℕ) (complete : Bool) (max_wait : ℕ)
    → Decides clock at complete max_wait (decide_finalization clock at complete max_wait)
unfolding decide_finalization
decide_finalization-Decides clock at complete max_wait =
    elim (Bool-cases (ltb at clock.battle_end_at)) [
      | inl e ↦ rw e (refl, ground arith)
      | inr e ↦ elim (Bool-cases complete) [
        | inl f ↦ rw (e, f) (ground arith, refl)
        | inr f ↦ elim (Bool-cases (ltb (at - clock.battle_end_at) max_wait)) [
          | inl g ↦ rw (e, f, g) (ground arith, refl, ground arith)
          | inr g ↦ rw (e, f, g) (ground arith, refl)
        ]
      ]
    ]
