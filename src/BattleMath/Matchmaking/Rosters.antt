-- ===== src/BattleMath/Matchmaking/Rosters.antt =====
-- The schedule of a round (`scheduleRound` in packages/battle-math/src/matchmaking.ts).
use ponswars.Base.{
  ℕ, ◌+◌, ◌*◌, ◌==◌, ◌≡◌, ◌↔◌, inl, inr, refl, ap, sym, ◌∙◌, subst, true, false, Bool-cases, List,
  [], ◌∷◌, Option, none, some, length, sum_of, ok, >>=-eq-ok, ok-injective, Returns, arith,
}
use ponswars.Base.Hashing.{Hashing}
use ponswars.Shared.Round.{battles_per_round}
use ponswars.Shared.Roster.{ActiveTicker}
use ponswars.BattleMath.Prng.{derive_round_seed, new_prng, shuffle}
use ponswars.BattleMath.Prng.Shuffle.{shuffle-SameEntries}
use ponswars.BattleMath.Matchmaking.{
  Pairing, MatchupKey, MatchmakingInput, roster_of, recent_of, has_duplicates, cooldown_set,
  pair_in_order, shuffled_roster, pairings_or_throw, schedule_round,
}
use ponswars.BattleMath.Matchmaking.Counts.{is_ticker, occurrences, IsSchedule}
use ponswars.BattleMath.Matchmaking.Complete.{Scheduled, pair_in_order-Scheduled, recount}

occurrences-sum_of :
    (t : ActiveTicker) (xs : List ActiveTicker) → occurrences t xs ≡ sum_of (is_ticker t) xs
unfolding occurrences
occurrences-sum_of t [] = refl
occurrences-sum_of t (x ∷ xs) = ap (λ n. is_ticker t x + n) (occurrences-sum_of t xs)

shuffled_roster-occurrences :
    (h : Hashing) (fuel : ℕ) (input : MatchmakingInput) {order : List ActiveTicker}
    → shuffled_roster h fuel input ≡ ok order
    → (t : ActiveTicker) → occurrences t order ≡ occurrences t (roster_of input.roster)
unfolding shuffled_roster
shuffled_roster-occurrences h fuel input {order = order} e t =
    let (seed, _, e1) = >>=-eq-ok (derive_round_seed h input.base_seed_hex input.round_id) _ e in
    let (prng, _, e2) = >>=-eq-ok (new_prng seed _) _ e1 in
    let ((out, after), s, e3) = >>=-eq-ok (shuffle h fuel (roster_of input.roster) prng) _ e2 in
    let same : out ≡ order = ok-injective e3 in
    ap (occurrences t) (sym same)
    ∙ occurrences-sum_of t out
    ∙ shuffle-SameEntries h fuel (roster_of input.roster) prng after s (is_ticker t)
    ∙ sym (occurrences-sum_of t (roster_of input.roster))

-- A roster that the source accepts: ten tickers, no two of them equal.
pub record IsRoster (roster : List ActiveTicker) : Type 0 where
  pub ten : length roster ≡ 10
  pub distinct : has_duplicates roster ≡ false

pairings_or_throw_iff :
    (blocked : List MatchupKey) (roster order : List ActiveTicker) (found : Option (List Pairing))
    → ((t : ActiveTicker) → occurrences t order ≡ occurrences t roster)
    → Scheduled blocked order found
    → Returns (pairings_or_throw found) ↔ ((ps : List Pairing) × IsSchedule blocked roster ps)
unfolding pairings_or_throw
pairings_or_throw_iff blocked roster order none e s =
    (λ (ps, f). cc, λ (ps, i). absurd (s ps (recount (λ t. sym (e t)) i)))
pairings_or_throw_iff blocked roster order (some ps) e s = (λ _. (ps, recount e s), λ _. (ps, refl))

found-IsSchedule :
    (blocked : List MatchupKey) (order : List ActiveTicker) (found : Option (List Pairing))
    (ps : List Pairing)
    → pairings_or_throw found ≡ ok ps
    → Scheduled blocked order found
    → IsSchedule blocked order ps
unfolding pairings_or_throw
found-IsSchedule blocked order none ps e s = cc
found-IsSchedule blocked order (some qs) ps e s =
    subst (IsSchedule blocked order) (ok-injective e) s

-- With a roster of ten different tickers whose shuffle ends, `scheduleRound` returns exactly when some
-- pairings use every ticker of the roster once and repeat no matchup of the last two rounds.
pub schedule_round_iff :
    (hashing : Hashing) (fuel : ℕ) (input : MatchmakingInput) {order : List ActiveTicker}
    → IsRoster (roster_of input.roster)
    → shuffled_roster hashing fuel input ≡ ok order
    → Returns (schedule_round hashing fuel input) ↔ (
        (ps : List Pairing) × IsSchedule
          (cooldown_set (recent_of input.recent_rounds))
          (roster_of input.roster)
          ps)
unfolding schedule_round
schedule_round_iff hashing fuel input {order = order} roster e =
    let blocked = cooldown_set (recent_of input.recent_rounds) in
    let t : (length (roster_of input.roster) == battles_per_round * 2) ≡ true =
      let l = roster.ten in ground (arith, l) in
    let r =
      pairings_or_throw_iff blocked (roster_of input.roster) order (pair_in_order order blocked)
        (shuffled_roster-occurrences hashing fuel input e)
        (pair_in_order-Scheduled order blocked) in
    rw (t, roster.distinct, e) r

-- The pairings that `scheduleRound` returns use each ticker as often as the roster holds it, and repeat
-- no matchup of the last two rounds, whatever the seed.
pub schedule_round-IsSchedule :
    (hashing : Hashing) (fuel : ℕ) (input : MatchmakingInput) {ps : List Pairing}
    → schedule_round hashing fuel input ≡ ok ps
    → IsSchedule (cooldown_set (recent_of input.recent_rounds)) (roster_of input.roster) ps
unfolding schedule_round pairings_or_throw
schedule_round-IsSchedule hashing fuel input {ps = ps} e =
    let blocked = cooldown_set (recent_of input.recent_rounds) in
    elim (Bool-cases (length (roster_of input.roster) == battles_per_round * 2)) [
      | inr l ↦ absurd (let f = rw l at e in cc)
      | inl l ↦ elim (Bool-cases (has_duplicates (roster_of input.roster))) [
        | inl d ↦ absurd (let f = rw (l, d) at e in cc)
        | inr d ↦
            let (order, o, f) = >>=-eq-ok (shuffled_roster hashing fuel input) _ (rw (l, d) at e) in
            recount (shuffled_roster-occurrences hashing fuel input o) (
              found-IsSchedule blocked order (pair_in_order order blocked) ps f
                (pair_in_order-Scheduled order blocked))
      ]
    ]
