-- ===== src/RoundService/Driver/Market.antt =====
-- The waits of a driver (`waitForMarket` and the delay between two steps in
-- packages/round-service/src/driver.ts).
use ponswars.Base.{
  ℕ, ◌+◌, ◌-◌, ◌≤◌, ◌<◌, ◌==◌, ◌≡◌, ◌≢◌, ◌⊎◌, ◌↔◌, inl, inr, refl, sym, ap, subst, Bool, true,
  false, Bool-cases, List, [], ◌∷◌, ◌++◌, All, Option, none, some, ltb, leb, if◌then◌else◌, arith,
  some-injective,
}
use ponswars.BattleEngine.Driver.{RoundAction, wait, tick, poll_delay}

-- What a turn of the loop of `waitForMarket` reads: whether the signal has aborted, and `now()`.
pub record Turn : Type 0 where
  pub aborted : Bool
  pub at : ℕ

-- The loop returns true or false, or sleeps after its last turn.
pub data Waited : Type 0 where
  may_open stopped asleep : Waited

-- What the loop came to, and the reopenings that it announced.
pub record MarketWait : Type 0 where
  pub waited : Waited
  pub said : List ℕ

-- A closure is announced unless it was the last one announced.
unfoldable pub say_closed : Option ℕ → ℕ → List ℕ → List ℕ
say_closed none reopens_at later = reopens_at ∷ later
say_closed (some announced) reopens_at later =
    if announced == reopens_at then later else reopens_at ∷ later

unfoldable pub wait_turns : (ℕ → ℕ) → Option ℕ → List Turn → MarketWait
unfolding say_closed
wait_turns rounds_open_at announced [] = record { waited = asleep; said = [] }
wait_turns rounds_open_at announced (turn ∷ turns) =
    let reopens_at = rounds_open_at turn.at in
    let later = wait_turns rounds_open_at (some reopens_at) turns in
    if turn.aborted
    then record { waited = stopped; said = [] }
    else if leb reopens_at turn.at
    then record { waited = may_open; said = [] }
    else record { waited = later.waited; said = say_closed announced reopens_at later.said }

-- With no calendar only the signal is asked.
unfoldable pub wait_for_market : Option (ℕ → ℕ) → Turn → List Turn → MarketWait
unfolding wait_turns
wait_for_market none turn turns = record {
  waited = if turn.aborted then stopped else may_open;
  said = [];
}
wait_for_market (some rounds_open_at) turn turns = wait_turns rounds_open_at none (turn ∷ turns)

abbrev pub market_recheck : ℕ
market_recheck = 60_000

-- The sleep of a turn while the market is shut.
unfoldable pub recheck_delay : (reopens_at current : ℕ) → ℕ
recheck_delay reopens_at current =
    if ltb market_recheck (reopens_at - current) then market_recheck else reopens_at - current

-- The sleep after a step that has finalized nothing.
unfoldable pub step_delay : (tick_ms : ℕ) → RoundAction → ℕ → ℕ
step_delay tick_ms (tick deadline) now = tick_ms
step_delay tick_ms action now =
    let delay = poll_delay action now 1_000 in if ltb delay 100 then 100 else delay

-- The market is shut at a turn of a driver that goes on.
abbrev IsShut : (ℕ → ℕ) → Turn → Type 0
IsShut rounds_open_at turn = (turn.aborted ≡ false) × (turn.at < rounds_open_at turn.at)

-- After turns at which the market is shut comes one at which a round can open.
pub record OpensAfter (rounds_open_at : ℕ → ℕ) (turns : List Turn) : Type 0 where
  pub before : List Turn
  pub turn : Turn
  pub after : List Turn
  pub turns_are : turns ≡ before ++ (turn ∷ after)
  pub shut : All (IsShut rounds_open_at) before
  pub goes_on : turn.aborted ≡ false
  pub is_open : rounds_open_at turn.at ≤ turn.at

opens_within :
    (f : ℕ → ℕ) (announced : Option ℕ) (turns : List Turn)
    → (wait_turns f announced turns).waited ≡ may_open
    → OpensAfter f turns
unfolding wait_turns
opens_within f announced [] h = absurd (cc)
opens_within f announced (t ∷ ts) h = elim (Bool-cases t.aborted) [
  | inl a ↦ absurd (let x = rw a at h in cc)
  | inr a ↦ elim (Bool-cases (leb (f t.at) t.at)) [
    | inl o ↦ record {
      before = [];
      turn = t;
      after = ts;
      turns_are = refl;
      shut = tt;
      goes_on = a;
      is_open = ground (arith, o);
    }
    | inr o ↦
        let r = opens_within f (some (f t.at)) ts (rw (a, o) at h) in
        record {
          before = t ∷ r.before;
          turn = r.turn;
          after = r.after;
          turns_are = ap (λ xs. t ∷ xs) r.turns_are;
          shut = ((a, ground (arith, o)), r.shut);
          goes_on = r.goes_on;
          is_open = r.is_open;
        }
  ]
]

opens_at :
    (f : ℕ → ℕ) (announced : Option ℕ) (before after : List Turn) (t : Turn)
    → All (IsShut f) before
    → t.aborted ≡ false
    → f t.at ≤ t.at
    → (wait_turns f announced (before ++ (t ∷ after))).waited ≡ may_open
unfolding wait_turns
opens_at f announced [] after t s a o =
    let e : leb (f t.at) t.at ≡ true = ground (arith, o) in rw (a, e) refl
opens_at f announced (b ∷ before) after t ((g, c), s) a o =
    let e : leb (f b.at) b.at ≡ false = ground (arith, c) in
    rw (g, e) (opens_at f (some (f b.at)) before after t s a o)

-- The loop lets a round open exactly at a turn at which one can run, after turns at which the market
-- was shut, and not once the signal has aborted.
pub wait_for_market_iff :
    (rounds_open_at : ℕ → ℕ) (turn : Turn) (turns : List Turn)
    → ((wait_for_market (some rounds_open_at) turn turns).waited ≡ may_open)
      ↔ OpensAfter rounds_open_at (turn ∷ turns)
unfolding wait_for_market
wait_for_market_iff f turn turns = (
  opens_within f none (turn ∷ turns),
  λ r.
      let e = r.turns_are in
      subst (λ (ts : List Turn). (wait_turns f none ts).waited ≡ may_open) (sym e)
        (opens_at f none r.before r.after r.turn r.shut r.goes_on r.is_open),
)

-- No closure is announced twice in a row.
abbrev pub Apart : Option ℕ → List ℕ → Type 0
Apart last [] = Unit {0}
Apart last (x ∷ xs) = (last ≢ some x) × Apart (some x) xs

say_closed-Apart :
    (announced : Option ℕ) (x : ℕ) (later : List ℕ)
    → Apart (some x) later
    → Apart announced (say_closed announced x later)
unfolding say_closed
say_closed-Apart none x later a = (λ e. cc, a)
say_closed-Apart (some y) x later a = elim (Bool-cases (y == x)) [
  | inl e ↦
      let same : y ≡ x = ground (arith, e) in
      rw e (subst (λ (z : ℕ). Apart (some z) later) (sym same) a)
  | inr e ↦ rw e (λ q. (let z = some-injective q in ground (arith, e, z)), a)
]

pub wait_turns-Apart :
    (f : ℕ → ℕ) (announced : Option ℕ) (turns : List Turn)
    → Apart announced (wait_turns f announced turns).said
unfolding wait_turns
wait_turns-Apart f announced [] = tt
wait_turns-Apart f announced (t ∷ ts) = elim (Bool-cases t.aborted) [
  | inl a ↦ rw a tt
  | inr a ↦ elim (Bool-cases (leb (f t.at) t.at)) [
    | inl o ↦ rw (a, o) tt
    | inr o ↦
        rw (a, o) (say_closed-Apart announced (f t.at) _ (wait_turns-Apart f (some (f t.at)) ts))
  ]
]

-- A driver that waits for an instant sleeps a tenth of a second at least and a second at most, and never
-- past the instant unless that is less than a tenth of a second away.
pub step_delay-wait :
    (tick_ms until now : ℕ)
    → (100 ≤ step_delay tick_ms (wait until) now)
      × (step_delay tick_ms (wait until) now ≤ 1_000)
      × ((now + step_delay tick_ms (wait until) now ≤ until) ⊎ (until < now + 100))
unfolding step_delay poll_delay
step_delay-wait tick_ms until now = (ground arith, ground arith, ground arith)

-- A sleep while the market is shut takes some time, a minute at most, and ends no later than the
-- announced reopening.
pub recheck_delay_bounds :
    (reopens_at current : ℕ)
    → current < reopens_at
    → (1 ≤ recheck_delay reopens_at current)
      × (recheck_delay reopens_at current ≤ 60_000)
      × (current + recheck_delay reopens_at current ≤ reopens_at)
unfolding recheck_delay
recheck_delay_bounds reopens_at current h =
    (ground (arith, h), ground (arith, h), ground (arith, h))
