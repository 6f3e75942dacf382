-- ===== src/RoundService/Loop/Told.antt =====
-- What a step tells is allowed where it is told (packages/round-service/src/loop.ts).
use ponswars.Base.{
  ℕ, ◌≡◌, refl, subst, inl, inr, Bool-cases, All-append, Bool, true, false, List, [], ◌∷◌, Option,
  none, some, any, All, ok, ok-injective, >>=-eq-ok,
}
use ponswars.Base.Text.{Text, text_eq}
use ponswars.Base.Hashing.{Hashing}
use ponswars.Shared.Labels.{VoidReason}
use ponswars.BattleEngine.Battle.{
  BattleEngineState, EngineConfig, TickOutcome, ignored, updated, voided,
}
use ponswars.RoundService.Ports.{published, RoundPorts}
use ponswars.RoundService.Loop.{
  Ticked, gather_tick, observe_tick, tick_battles, void_event, void_events,
}
use ponswars.RoundService.Loop.Ordered.{Allowed}

-- An update of a battle is told before the end.
gather_tick-Allowed :
    (id : Text) (now : ℕ) (battle : BattleEngineState) (outcome : TickOutcome) (rest : Ticked)
    → All (λ (c, at, p). Allowed id true false (published c at p)) rest.to_publish
    → All
        (λ (c, at, p). Allowed id true false (published c at p))
        (gather_tick now battle outcome rest).to_publish
unfolding gather_tick
gather_tick-Allowed id now battle (ignored why after) rest a = a
gather_tick-Allowed id now battle (updated after update) rest a = ((refl, refl), a)
gather_tick-Allowed id now battle (voided after reason) rest a = a

pub tick_battles-Allowed :
    (id : Text) (hashing : Hashing) (ports : RoundPorts) (config : EngineConfig) (now : ℕ)
    (battles : List BattleEngineState) {ticked : Ticked}
    → tick_battles hashing ports config now battles ≡ ok ticked
    → All (λ (c, at, p). Allowed id true false (published c at p)) ticked.to_publish
unfolding tick_battles
tick_battles-Allowed id hashing ports config now [] e =
    subst
      (λ (t : Ticked). All (λ (c, at, p). Allowed id true false (published c at p)) t.to_publish)
      (ok-injective e) tt
tick_battles-Allowed id hashing ports config now (b ∷ bs) e =
    let (o, x, f) = >>=-eq-ok (observe_tick hashing ports config now b) _ e in
    let (rest, r, k) = >>=-eq-ok (tick_battles hashing ports config now bs) _ f in
    subst
      (λ (t : Ticked). All (λ (c, at, p). Allowed id true false (published c at p)) t.to_publish)
      (ok-injective k)
      (gather_tick-Allowed id now b o rest (tick_battles-Allowed id hashing ports config now bs r))

void_event-Allowed :
    (id : Text) (saved : Bool) (at : ℕ) (restored : List Text) (battle : BattleEngineState)
    (reason : Option VoidReason)
    → All
        (λ (c, at, p). Allowed id saved true (published c at p))
        (void_event at restored battle reason)
unfolding void_event
void_event-Allowed id saved at restored battle none = tt
void_event-Allowed id saved at restored battle (some reason) = (refl, tt)

pub void_events-Allowed :
    (id : Text) (saved : Bool) (at : ℕ) (restored voided_ids : List Text)
    (battles : List BattleEngineState)
    → All
        (λ (c, at, p). Allowed id saved true (published c at p))
        (void_events at restored voided_ids battles)
unfolding void_events
void_events-Allowed id saved at restored voided_ids [] = tt
void_events-Allowed id saved at restored voided_ids (b ∷ bs) =
    let rest = void_events-Allowed id saved at restored voided_ids bs in
    elim (Bool-cases (any (λ v. text_eq v b.setup.battle_id) voided_ids)) [
      | inl e ↦ rw e (
          All-append (λ (c, at, p). Allowed id saved true (published c at p))
            (void_event at restored b b.void_reason) (void_events at restored voided_ids bs)
            (void_event-Allowed id saved at restored b b.void_reason) rest)
      | inr e ↦ rw e rest
    ]
