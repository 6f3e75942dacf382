-- ===== src/BattleMath/Matchmaking/Complete.antt =====
-- `pairInOrder` (packages/battle-math/src/matchmaking.ts) finds a schedule whenever there is one.
use ponswars.Base.{
  ℕ, zero, suc, ◌≤◌, ◌+◌, ◌≡◌, refl, ap, subst, true, false, Bool, Bool-cases, inl, inr, List, [],
  ◌∷◌, ◌++◌, Option, none, some, length, length-append, arith,
}
use ponswars.Shared.Roster.{ActiveTicker}
use ponswars.BattleMath.Matchmaking.{
  Pairing, MatchupKey, matchup_key, has_key, or_else, with_pair, try_partners, pair_with_fuel,
  pair_in_order,
}
use ponswars.BattleMath.Matchmaking.Counts.{
  is_ticker_self, occurrences, tickers_of, occurrences-middle, occurs-SplitsAt, IsSchedule,
  paired-PartnerOf,
}

-- A schedule is found, or none exists.
abbrev pub Scheduled : List MatchupKey → List ActiveTicker → Option (List Pairing) → Type 0
Scheduled blocked order (some ps) = IsSchedule blocked order ps
Scheduled blocked order none = (ps : List Pairing) → ¬ IsSchedule blocked order ps

abbrev Allowed : List MatchupKey → ActiveTicker → ActiveTicker → Type 0
Allowed blocked a b = has_key blocked (matchup_key a b) ≡ false

-- What the loop over the partners of `head` has found when only those of `after` are left.
abbrev Tried :
    List MatchupKey
    → ActiveTicker
    → List ActiveTicker
    → List ActiveTicker
    → Option (List Pairing)
    → Type 0
Tried blocked head before after (some ps) = IsSchedule blocked (head ∷ (before ++ after)) ps
Tried blocked head before after none =
    (mid : List ActiveTicker) (partner : ActiveTicker) (post : List ActiveTicker)
    → after ≡ mid ++ (partner ∷ post)
    → Allowed blocked head partner
    → (ps : List Pairing) → ¬ IsSchedule blocked (before ++ (mid ++ post)) ps

pub recount :
    {blocked : List MatchupKey} {xs ys : List ActiveTicker} {ps : List Pairing}
    → ((t : ActiveTicker) → occurrences t xs ≡ occurrences t ys)
    → IsSchedule blocked xs ps
    → IsSchedule blocked ys ps
recount e s = record {
  counts = λ t. let a = s.counts t in let b = e t in omega (arith, a, b);
  unblocked = s.unblocked;
}

shift :
    (p : ActiveTicker) (before rest : List ActiveTicker) (t : ActiveTicker)
    → occurrences t ((before ++ (p ∷ [])) ++ rest) ≡ occurrences t (before ++ (p ∷ rest))
unfolding occurrences
shift p [] rest t = refl
shift p (b ∷ before) rest t = omega (arith, shift p before rest t)

clash : {b : Bool} → b ≡ true → b ≡ false → ⊥
clash e f = ground arith

abbrev NoSchedule : List MatchupKey → List ActiveTicker → Type 0
NoSchedule blocked order = (ps : List Pairing) → ¬ IsSchedule blocked order ps

Tried-later :
    (blocked : List MatchupKey) (head p : ActiveTicker) (before after : List ActiveTicker)
    → (Allowed blocked head p → NoSchedule blocked (before ++ after))
    → Tried blocked head (before ++ (p ∷ [])) after none
    → Tried blocked head before (p ∷ after) none
unfolding occurrences
Tried-later blocked head p before after n t [] partner post e a ps s =
    let same : partner ≡ p = cc in
    let rest : post ≡ after = cc in
    n (subst (λ x. Allowed blocked head x) same a) ps
      (subst (λ r. IsSchedule blocked (before ++ r) ps) rest s)
Tried-later blocked head p before after n t (m ∷ mid) partner post e a ps s =
    let same : p ≡ m = cc in
    let rest : after ≡ mid ++ (partner ∷ post) = cc in
    t mid partner post rest a ps (
      recount
        (λ u.
          let g = shift p before (mid ++ post) u in
          let f = ap (λ x. occurrences u (before ++ (x ∷ (mid ++ post)))) same in
          omega (arith, f, g))
        s)

-- The loop goes on with the next partner when this one gives nothing.
Tried-next :
    (blocked : List MatchupKey) (head p : ActiveTicker) (before after : List ActiveTicker)
    (found : Option (List Pairing))
    → (Allowed blocked head p → NoSchedule blocked (before ++ after))
    → Tried blocked head (before ++ (p ∷ [])) after found
    → Tried blocked head before (p ∷ after) found
unfolding occurrences
Tried-next blocked head p before after (some ps) n t =
    recount (λ u. let e = shift p before after u in omega (arith, e)) t
Tried-next blocked head p before after none n t = Tried-later blocked head p before after n t

with_pair-IsSchedule :
    (blocked : List MatchupKey) (head p : ActiveTicker) (before after : List ActiveTicker)
    (tail : List Pairing)
    → Allowed blocked head p
    → IsSchedule blocked (before ++ after) tail
    → IsSchedule blocked (head ∷ (before ++ (p ∷ after))) (record { left = head; right = p } ∷ tail)
unfolding occurrences tickers_of
with_pair-IsSchedule blocked head p before after tail a s = record {
  counts = λ t. let c = s.counts t in omega (arith, c, occurrences-middle t p before after);
  unblocked = (a, s.unblocked);
}

-- A partner that is allowed: what pairing the others gives decides whether the loop goes on.
Tried-partner :
    (blocked : List MatchupKey) (head p : ActiveTicker) (before after : List ActiveTicker)
    (found next : Option (List Pairing))
    → Allowed blocked head p
    → Scheduled blocked (before ++ after) found
    → Tried blocked head (before ++ (p ∷ [])) after next
    → Tried blocked head before (p ∷ after) (or_else (with_pair head p found) next)
unfolding or_else with_pair
Tried-partner blocked head p before after (some tail) next a s t =
    with_pair-IsSchedule blocked head p before after tail a s
Tried-partner blocked head p before after none next a s t =
    Tried-next blocked head p before after next (λ _ ps. s ps) t

Tried-end :
    (blocked : List MatchupKey) (head : ActiveTicker) (before : List ActiveTicker)
    → Tried blocked head before [] none
Tried-end blocked head before [] partner post e = cc
Tried-end blocked head before (m ∷ mid) partner post e = cc

try_partners-Tried :
    (blocked : List MatchupKey) (pair : List ActiveTicker → Option (List Pairing)) (n : ℕ)
    → ((xs : List ActiveTicker) → length xs ≤ n → Scheduled blocked xs (pair xs))
    → (head : ActiveTicker) (before after : List ActiveTicker)
    → length before + length after ≤ suc n
    → Tried blocked head before after (try_partners blocked pair head before after)
unfolding try_partners
try_partners-Tried blocked pair n h head before [] l = Tried-end blocked head before
try_partners-Tried blocked pair n h head before (p ∷ after) l =
    let next =
      try_partners-Tried blocked pair n h head (before ++ (p ∷ [])) after
        (omega (arith, length-append before (p ∷ []))) in
    elim (Bool-cases (has_key blocked (matchup_key head p))) [
      | inl e ↦ rw e (Tried-next blocked head p before after _ (λ a. absurd (clash e a)) next)
      | inr e ↦ rw e (
          Tried-partner blocked head p before after _ _ e
            (h (before ++ after) (omega (arith, length-append before after))) next)
    ]

-- A schedule of `head ∷ rest` gives the partner of `head` and a schedule of the others.
no_partner :
    (blocked : List MatchupKey) (head : ActiveTicker) (rest : List ActiveTicker)
    → Tried blocked head [] rest none
    → (ps : List Pairing) → ¬ IsSchedule blocked (head ∷ rest) ps
unfolding occurrences
no_partner blocked head rest n ps s =
    let c = s.counts head in
    let r = paired-PartnerOf blocked head ps (omega (arith, c, is_ticker_self head)) s.unblocked in
    let d = s.counts r.partner in
    let f = r.counts r.partner in
    let (before, after, e) =
      occurs-SplitsAt r.partner rest (omega (arith, d, f, is_ticker_self r.partner)) in
    n before r.partner after e r.allowed r.others (record {
      counts = λ t.
          let a = s.counts t in
          let b = r.counts t in
          let g = ap (occurrences t) e in
          omega (arith, a, b, g, occurrences-middle t r.partner before after);
      unblocked = r.unblocked;
    })

Tried-Scheduled :
    (blocked : List MatchupKey) (head : ActiveTicker) (rest : List ActiveTicker)
    (found : Option (List Pairing))
    → Tried blocked head [] rest found
    → Scheduled blocked (head ∷ rest) found
Tried-Scheduled blocked head rest (some ps) t = t
Tried-Scheduled blocked head rest none t = no_partner blocked head rest t

pair_with_fuel-Scheduled :
    (blocked : List MatchupKey) (fuel : ℕ) (order : List ActiveTicker)
    → length order ≤ fuel
    → Scheduled blocked order (pair_with_fuel blocked fuel order)
unfolding pair_with_fuel tickers_of
pair_with_fuel-Scheduled blocked fuel [] l = record { counts = λ t. refl; unblocked = tt }
pair_with_fuel-Scheduled blocked zero (head ∷ rest) l = absurd (omega arith)
pair_with_fuel-Scheduled blocked (suc fuel) (head ∷ rest) l = Tried-Scheduled blocked head rest _ (
    try_partners-Tried blocked (pair_with_fuel blocked fuel) fuel
      (λ xs m. pair_with_fuel-Scheduled blocked fuel xs m) head [] rest (omega arith))

-- `pairInOrder` searches completely: the pairings that it returns use each ticker exactly as often as
-- the order holds it and none of them is blocked, and it returns null only where no pairings with
-- these two properties exist.
pub pair_in_order-Scheduled :
    (order : List ActiveTicker) (blocked : List MatchupKey)
    → Scheduled blocked order (pair_in_order order blocked)
unfolding pair_in_order
pair_in_order-Scheduled order blocked =
    pair_with_fuel-Scheduled blocked (length order) order (omega arith)
