-- ===== src/BattleEngine/Rounds/Lock.antt =====
-- Locking a round (`lockRound` in packages/battle-engine/src/round.ts).
use ponswars.Base.{
  sym, true, false, not_any_iff, ℕ, ◌≤◌, ◌==◌, ◌≡◌, ◌≢◌, inl, inr, refl, subst, true, Bool-cases,
  any, List, [], ◌∷◌, All, ltb, ok, >>=-eq-ok, ok-injective, map_result, arith,
}
use ponswars.Base.Text.{text_eq}
use ponswars.Shared.Round.{RoundState, BattleState, can_transition_round, can_transition_battle}
use ponswars.BattleEngine.Battle.{BattleEngineState, open_battle}
use ponswars.BattleEngine.Rounds.{RoundEngineState, LockedPick, check_picks, open_with, lock_round}
use ponswars.BattleEngine.Rounds.Supports.{SupportedBy, battle_card_support-SupportedBy}

-- No wallet picks twice, nor is one of those seen before.
abbrev pub Distinct : List ℕ → List LockedPick → Type 0
Distinct seen [] = Unit {0}
Distinct seen (p ∷ picks) = All (λ w. w ≢ p.wallet) seen × Distinct (p.wallet ∷ seen) picks

-- The battles of a locked round, in step with those before it: each is live with the support of the
-- cards deployed for its sides, and is the battle before it in everything else.
abbrev pub AreOpened :
    ℕ → List LockedPick → List BattleEngineState → List BattleEngineState → Type 0
AreOpened at picks [] [] = Unit {0}
AreOpened at picks (b ∷ bs) (c ∷ cs) =
    (c.state ≡ BattleState.live)
    × (c ≡ record b { state = BattleState.live; card_support = c.card_support })
    × (b.setup.clock.battle_start_at ≤ at)
    × SupportedBy b.setup.battle_id b.setup.left picks c.card_support.left
    × SupportedBy b.setup.battle_id b.setup.right picks c.card_support.right
    × AreOpened at picks bs cs
AreOpened at picks _ _ = ⊥

check_picks-Distinct :
    (battles : List BattleEngineState) (seen : List ℕ) (picks : List LockedPick)
    → check_picks battles seen picks ≡ ok tt
    → Distinct seen picks
      × All (λ p. any (λ b. text_eq b.setup.battle_id p.battle_id) battles ≡ true) picks
unfolding check_picks
check_picks-Distinct battles seen [] h = (tt, tt)
check_picks-Distinct battles seen (p ∷ picks) h =
    elim (Bool-cases (any (λ w. w == p.wallet) seen)) [
      | inl e ↦ absurd (let f = rw e at h in cc)
      | inr e ↦ elim (Bool-cases (any (λ b. text_eq b.setup.battle_id p.battle_id) battles)) [
        | inr g ↦ absurd (let f = rw (e, g) at h in cc)
        | inl g ↦
            let (d, k) = check_picks-Distinct battles (p.wallet ∷ seen) picks (rw (e, g) at h) in
            (((not_any_iff seen p.wallet).0 e, d), (g, k))
      ]
    ]

each_open-AreOpened :
    (at : ℕ) (picks : List LockedPick) (bs : List BattleEngineState) {cs : List BattleEngineState}
    → map_result (open_with at picks) bs ≡ ok cs
    → AreOpened at picks bs cs
unfolding open_with open_battle
each_open-AreOpened at picks [] h = subst (AreOpened at picks []) (ok-injective h) tt
each_open-AreOpened at picks (b ∷ bs) h =
    elim (Bool-cases (can_transition_battle b.state BattleState.live)) [
      | inr e ↦ absurd (let f = rw e at h in cc)
      | inl e ↦ elim (Bool-cases (ltb at b.setup.clock.battle_start_at)) [
        | inl g ↦ absurd (let f = rw (e, g) at h in cc)
        | inr g ↦
            let (left, right) = battle_card_support-SupportedBy b.setup picks in
            let (cs, o, k) = >>=-eq-ok (map_result (open_with at picks) bs) _ (rw (e, g) at h) in
            subst (AreOpened at picks (b ∷ bs)) (ok-injective k)
              (refl, refl, ground arith, left, right, each_open-AreOpened at picks bs o)
      ]
    ]

-- What lockRound does when it returns.
pub record Locks (state : RoundEngineState) (at : ℕ) (picks : List LockedPick)
    (r : RoundEngineState) : Type 0 where
  pub from_open : can_transition_round state.state RoundState.locking ≡ true
  pub is_due : ltb at state.clock.lock_at ≡ false
  pub checked : check_picks state.battles [] picks ≡ ok tt
  pub battles : List BattleEngineState
  pub all_open : map_result (open_with at picks) state.battles ≡ ok battles
  pub result : r ≡ record state { state = RoundState.battle_live; battles = battles; picks = picks }

pub lock_round_inv :
    (state : RoundEngineState) (at : ℕ) (picks : List LockedPick) {r : RoundEngineState}
    → lock_round state at picks ≡ ok r
    → Locks state at picks r
unfolding lock_round
lock_round_inv state at picks h =
    elim (Bool-cases (can_transition_round state.state RoundState.locking)) [
      | inr e ↦ absurd (let f = rw e at h in cc)
      | inl e ↦ elim (Bool-cases (ltb at state.clock.lock_at)) [
        | inl g ↦ absurd (let f = rw (e, g) at h in cc)
        | inr g ↦
            let (u, c, k) = >>=-eq-ok (check_picks state.battles [] picks) _ (rw (e, g) at h) in
            let (bs, o, l) = >>=-eq-ok (map_result (open_with at picks) state.battles) _ k in
            record {
              from_open = e;
              is_due = g;
              checked = c;
              battles = bs;
              all_open = o;
              result = sym (ok-injective l);
            }
      ]
    ]

-- What a locked round holds.
pub record IsLocked (state : RoundEngineState) (at : ℕ) (picks : List LockedPick)
    (r : RoundEngineState) : Type 0 where
  pub live : r.state ≡ RoundState.battle_live
  pub same_round : r.round_id ≡ state.round_id
  pub due : state.clock.lock_at ≤ at
  pub locked_picks : r.picks ≡ picks
  pub distinct : Distinct [] picks
  pub known : All (λ p. any (λ b. text_eq b.setup.battle_id p.battle_id) state.battles ≡ true) picks
  pub opened : AreOpened at picks state.battles r.battles

-- A round that `lockRound` returns was locked at its lock instant or later, and is live. It holds the
-- picks given to it, in which no wallet stands twice and every battle is one of the round, and each
-- battle of the round, in order, opened no earlier than its start and changed only in being live and
-- in its card support. The support of a side is the sum, kind by kind, of what the catalogue gives for
-- the cards that exactly the picks of this battle which back the stock of that side deploy.
pub lock_round-IsLocked :
    (state : RoundEngineState) (at : ℕ) (picks : List LockedPick) {r : RoundEngineState}
    → lock_round state at picks ≡ ok r
    → IsLocked state at picks r
lock_round-IsLocked state at picks h =
    let l = lock_round_inv state at picks h in
    let (d, n) = check_picks-Distinct state.battles [] picks l.checked in
    let due = l.is_due in
    subst (IsLocked state at picks) (sym l.result) (record {
      live = refl;
      same_round = refl;
      due = ground (arith, due);
      locked_picks = refl;
      distinct = d;
      known = n;
      opened = each_open-AreOpened at picks state.battles l.all_open;
    })
