-- ===== src/BattleMath/Momentum/Comebacks.antt =====
-- When a battle reads as a comeback (`nextMomentum` and `wasComeback` in
-- packages/battle-math/src/momentum.ts).
use ponswars.Base.{
  ◌≡◌, ◌⊎◌, ◌↔◌, inl, inr, refl, Bool, true, false, Bool-cases, List, [], ◌∷◌, Result, ok, err,
  range_error, ◌&&◌, ◌++◌, arith,
}
use ponswars.Base.Int.{ℤ, pos, negsuc, ◌≤ℤ◌, ◌<ℤ◌, negate, ltb_ℤ, leb_ℤ}
use ponswars.Shared.Labels.{MomentumState, contested, pushing, surging, dominating, comeback}
use ponswars.BattleMath.Scale.{clamp_unit, ratio_scale}
use ponswars.BattleMath.Momentum.{
  MomentumThresholds, MomentumMemory, MomentumSample, initial_momentum_memory, magnitude,
  refuses_thresholds, larger, trailed_badly, momentum_state, next_memory, next_momentum,
  was_comeback,
}

-- The memory after a sequence of ticks.
unfoldable pub memory_after : MomentumMemory → List ℤ → MomentumMemory
memory_after memory [] = memory
memory_after memory (a ∷ ticks) = memory_after (next_memory memory (clamp_unit a)) ticks

abbrev pub LedLeft : ℤ → List ℤ → Type 0
LedLeft c [] = ⊥
LedLeft c (a ∷ ticks) = (c ≤ℤ clamp_unit a) ⊎ LedLeft c ticks

abbrev pub LedRight : ℤ → List ℤ → Type 0
LedRight c [] = ⊥
LedRight c (a ∷ ticks) = (c ≤ℤ negate (clamp_unit a)) ⊎ LedRight c ticks

larger_iff : (c a b : ℤ) → (c ≤ℤ larger a b) ↔ ((c ≤ℤ a) ⊎ (c ≤ℤ b))
unfolding larger
larger_iff c a b = ground arith

either_left : {P Q R S T : Type 0} → (P ↔ (Q ⊎ R)) → (Q ↔ (S ⊎ T)) → P ↔ (T ⊎ (S ⊎ R))
either_left f g = (
  λ p. elim (f.0 p) [
    | inl q ↦ elim (g.0 q) [ inl s ↦ inr (inl s) | inr t ↦ inl t ]
    | inr r ↦ inr (inr r)
  ],
  λ x. f.1 (elim x [
    | inl t ↦ inl (g.1 (inr t))
    | inr y ↦ elim y [ inl s ↦ inl (g.1 (inl s)) | inr r ↦ inr r ]
  ]),
)

peak_left_iff :
    (c : ℤ) (m : MomentumMemory) (ticks : List ℤ)
    → (c ≤ℤ (memory_after m ticks).peak_left) ↔ ((c ≤ℤ m.peak_left) ⊎ LedLeft c ticks)
unfolding memory_after next_memory
peak_left_iff c m [] = (λ h. inl h, λ h. elim h [ inl k ↦ k | inr k ↦ absurd k ])
peak_left_iff c m (a ∷ ticks) =
    either_left (peak_left_iff c (next_memory m (clamp_unit a)) ticks)
      (larger_iff c (clamp_unit a) m.peak_left)

peak_right_iff :
    (c : ℤ) (m : MomentumMemory) (ticks : List ℤ)
    → (c ≤ℤ (memory_after m ticks).peak_right) ↔ ((c ≤ℤ m.peak_right) ⊎ LedRight c ticks)
unfolding memory_after next_memory
peak_right_iff c m [] = (λ h. inl h, λ h. elim h [ inl k ↦ k | inr k ↦ absurd k ])
peak_right_iff c m (a ∷ ticks) =
    either_left (peak_right_iff c (next_memory m (clamp_unit a)) ticks)
      (larger_iff c (negate (clamp_unit a)) m.peak_right)

-- The side ahead at the advantage `a` trailed by the threshold in one of the ticks.
abbrev pub CameBack : ℤ → List ℤ → ℤ → Type 0
CameBack c ticks a = ((pos 1 ≤ℤ a) × LedRight c ticks) ⊎ ((a ≤ℤ negsuc 0) × LedLeft c ticks)

start_right :
    (c : ℤ) (ticks : List ℤ)
    → pos 1 ≤ℤ c
    → (c ≤ℤ (memory_after initial_momentum_memory ticks).peak_right) ↔ LedRight c ticks
start_right c ticks h =
    let p = peak_right_iff c initial_momentum_memory ticks in
    (λ k. elim (p.0 k) [ inl l ↦ absurd (omega arith) | inr l ↦ l ], λ l. p.1 (inr l))

start_left :
    (c : ℤ) (ticks : List ℤ)
    → pos 1 ≤ℤ c
    → (c ≤ℤ (memory_after initial_momentum_memory ticks).peak_left) ↔ LedLeft c ticks
start_left c ticks h =
    let p = peak_left_iff c initial_momentum_memory ticks in
    (λ k. elim (p.0 k) [ inl l ↦ absurd (omega arith) | inr l ↦ l ], λ l. p.1 (inr l))

-- The test that the two functions share, once the advantage is known not to be zero.
was_comeback_iff_peaks :
    (m : MomentumMemory) (a c : ℤ)
    → (was_comeback m a c ≡ true)
      ↔ (((pos 1 ≤ℤ a) × (c ≤ℤ m.peak_right)) ⊎ ((a ≤ℤ negsuc 0) × (c ≤ℤ m.peak_left)))
unfolding was_comeback
was_comeback_iff_peaks m a c = ground arith

peaks_iff :
    (c : ℤ) (ticks : List ℤ) (a : ℤ)
    → pos 1 ≤ℤ c
    → (((pos 1 ≤ℤ a) × (c ≤ℤ (memory_after initial_momentum_memory ticks).peak_right))
        ⊎ ((a ≤ℤ negsuc 0) × (c ≤ℤ (memory_after initial_momentum_memory ticks).peak_left)))
      ↔ CameBack c ticks a
peaks_iff c ticks a h =
    let r = start_right c ticks h in
    let l = start_left c ticks h in
    (
      λ k. elim k [ inl (p, q) ↦ inl (p, r.0 q) | inr (p, q) ↦ inr (p, l.0 q) ],
      λ k. elim k [ inl (p, q) ↦ inl (p, r.1 q) | inr (p, q) ↦ inr (p, l.1 q) ],
    )

-- `wasComeback` on the memory of a whole battle holds exactly when the winner trailed by the
-- threshold, which is positive, in some tick of the battle.
pub was_comeback_iff :
    (ticks : List ℤ) (final threshold : ℤ)
    → pos 1 ≤ℤ threshold
    → (was_comeback (memory_after initial_momentum_memory ticks) final threshold ≡ true)
      ↔ CameBack threshold ticks final
was_comeback_iff ticks final threshold h =
    let p = was_comeback_iff_peaks (memory_after initial_momentum_memory ticks) final threshold in
    let q = peaks_iff threshold ticks final h in (λ k. q.0 (p.0 k), λ k. p.1 (q.1 k))

-- The advantage reads as the state, in a battle that has had the ticks before.
abbrev pub ReadsAs : MomentumThresholds → List ℤ → ℤ → MomentumState → Type 0
ReadsAs t ticks a comeback = CameBack t.comeback ticks a
ReadsAs t ticks a dominating = (¬ CameBack t.comeback ticks a) × (t.dominance ≤ℤ magnitude a)
ReadsAs t ticks a surging =
    (¬ CameBack t.comeback ticks a) × (t.surge ≤ℤ magnitude a) × (magnitude a <ℤ t.dominance)
ReadsAs t ticks a pushing =
    (¬ CameBack t.comeback ticks a) × (t.push ≤ℤ magnitude a) × (magnitude a <ℤ t.surge)
ReadsAs t ticks a contested = (¬ CameBack t.comeback ticks a) × (magnitude a <ℤ t.push)

-- The thresholds that `assertThresholds` lets through.
pub record AreOrdered (t : MomentumThresholds) : Type 0 where
  pub push_positive : pos 1 ≤ℤ t.push
  pub push_below : t.push <ℤ t.surge
  pub surge_below : t.surge <ℤ t.dominance
  pub comeback_positive : pos 1 ≤ℤ t.comeback
  pub comeback_at_most : t.comeback ≤ℤ pos ratio_scale

refuses_cases :
    (t : MomentumThresholds)
    → ((refuses_thresholds t ≡ true) × (¬ AreOrdered t))
      ⊎ ((refuses_thresholds t ≡ false) × AreOrdered t)
unfolding refuses_thresholds
refuses_cases t = elim (Bool-cases (refuses_thresholds t)) [
  | inl e ↦ inl (
    e,
    λ o.
        let a = o.push_positive in
        let b = o.push_below in
        let c = o.surge_below in
        let d = o.comeback_positive in let f = o.comeback_at_most in ground arith,
  )
  | inr e ↦ inr (
    e,
    record {
      push_positive = ground arith;
      push_below = ground arith;
      surge_below = ground arith;
      comeback_positive = ground arith;
      comeback_at_most = ground arith;
    },
  )
]

comeback_test :
    (m : MomentumMemory) (a c : ℤ)
    → (ltb_ℤ (pos 0) (magnitude a) && trailed_badly m a c) ≡ was_comeback m a c
unfolding magnitude trailed_badly was_comeback negate
comeback_test m a c = ground arith

state-ReadsAs :
    (b : Bool) (t : MomentumThresholds) (ticks : List ℤ) (a : ℤ)
    → (b ≡ true) ↔ CameBack t.comeback ticks a
    → ReadsAs t ticks a (momentum_state b (magnitude a) t)
unfolding momentum_state
state-ReadsAs true t ticks a h = h.0 refl
state-ReadsAs false t ticks a h =
    let n : ¬ CameBack t.comeback ticks a = λ k. let e = h.1 k in ground arith in
    elim (Bool-cases (leb_ℤ t.dominance (magnitude a))) [
      | inl e ↦ rw e (n, ground arith)
      | inr e ↦ elim (Bool-cases (leb_ℤ t.surge (magnitude a))) [
        | inl f ↦ rw (e, f) (n, ground arith, ground arith)
        | inr f ↦ elim (Bool-cases (leb_ℤ t.push (magnitude a))) [
          | inl g ↦ rw (e, f, g) (n, ground arith, ground arith)
          | inr g ↦ rw (e, f, g) (n, ground arith)
        ]
      ]
    ]

-- What a tick gives after the ticks before it.
abbrev pub Sampled : MomentumThresholds → List ℤ → ℤ → Result MomentumSample → Type 0
Sampled t ticks a (ok s) =
    AreOrdered t
    × ReadsAs t ticks (clamp_unit a) s.state
    × (s.advantage ≡ clamp_unit a)
    × (s.memory ≡ memory_after initial_momentum_memory (ticks ++ (a ∷ [])))
Sampled t ticks a (err e) = (e ≡ range_error) × (¬ AreOrdered t)

memory_after_last :
    (m : MomentumMemory) (ticks : List ℤ) (a : ℤ)
    → next_memory (memory_after m ticks) (clamp_unit a) ≡ memory_after m (ticks ++ (a ∷ []))
unfolding memory_after
memory_after_last m [] a = refl
memory_after_last m (b ∷ ticks) a = memory_after_last (next_memory m (clamp_unit b)) ticks a

-- `nextMomentum`, after any sequence of ticks, throws a RangeError exactly when the thresholds of push,
-- surge and dominance are not positive and strictly increasing, or the comeback threshold is not between
-- 1 and 1,000,000. Else a tick reads as COMEBACK exactly when its leader trailed by the
-- comeback threshold in an earlier tick, any other tick reads as the state that its lead reaches, and
-- the memory that is returned is that of the sequence with the tick at its end.
pub next_momentum-Sampled :
    (thresholds : MomentumThresholds) (ticks : List ℤ) (advantage : ℤ)
    → Sampled thresholds ticks advantage
        (next_momentum (memory_after initial_momentum_memory ticks) advantage thresholds)
unfolding next_momentum
next_momentum-Sampled t ticks a = elim (refuses_cases t) [
  | inl (e, n) ↦ rw e (refl, n)
  | inr (e, o) ↦
      let m = memory_after initial_momentum_memory ticks in
      let reads : ReadsAs t ticks (clamp_unit a) _ =
        state-ReadsAs (was_comeback m (clamp_unit a) t.comeback) t ticks (clamp_unit a)
          (was_comeback_iff ticks (clamp_unit a) t.comeback o.comeback_positive) in
      rw (e, comeback_test m (clamp_unit a) t.comeback)
        (o, reads, refl, memory_after_last initial_momentum_memory ticks a)
]
