-- ===== src/BattleMath/Matchmaking.antt =====
-- packages/battle-math/src/matchmaking.ts: the pairings of a round.
pub mod Counts
pub mod Complete
pub mod Rosters
use ponswars.Base.{
  ℕ, zero, suc, ◌+◌, ◌==◌, ◌&&◌, Bool, true, false, List, [], ◌∷◌, ◌++◌, Option, none, some, any,
  take, length, if◌then◌else◌, ◌*◌, not, Result, ok, err, range_error, failure, ◌>>=◌,
}
use ponswars.Base.Text.{Text, codes}
use ponswars.Base.Hashing.{Hashing}
use ponswars.Shared.Round.{battles_per_round, matchup_cooldown_rounds}
use ponswars.BattleMath.Prng.{derive_round_seed, new_prng, shuffle}
use ponswars.Shared.Roster.{ActiveTicker, active_tickers, ticker_eq, ticker_lt}

pub record Pairing : Type 0 where
  pub left : ActiveTicker
  pub right : ActiveTicker

-- The string `first:second` of two tickers in order.
pub record MatchupKey : Type 0 where
  pub first : ActiveTicker
  pub second : ActiveTicker

unfoldable pub matchup_key : ActiveTicker → ActiveTicker → MatchupKey
matchup_key a b =
    if ticker_lt a b then record { first = a; second = b } else record { first = b; second = a }

abbrev pub key_eq : MatchupKey → MatchupKey → Bool
key_eq k l = ticker_eq k.first l.first && ticker_eq k.second l.second

-- `blocked.has(key)`
unfoldable pub has_key : List MatchupKey → MatchupKey → Bool
has_key blocked key = any (λ k. key_eq k key) blocked

keys_of_round : List Pairing → List MatchupKey
unfolding matchup_key
keys_of_round [] = []
keys_of_round (p ∷ ps) = matchup_key p.left p.right ∷ keys_of_round ps

keys_of_rounds : List (List Pairing) → List MatchupKey
unfolding keys_of_round
keys_of_rounds [] = []
keys_of_rounds (round ∷ rounds) = keys_of_round round ++ keys_of_rounds rounds

unfoldable pub cooldown_set : List (List Pairing) → List MatchupKey
unfolding keys_of_rounds
cooldown_set recent_rounds = keys_of_rounds (take matchup_cooldown_rounds recent_rounds)

-- The pairing with a partner, on top of what the other tickers give.
with_pair : ActiveTicker → ActiveTicker → Option (List Pairing) → Option (List Pairing)
with_pair head partner none = none
with_pair head partner (some tail) = some (record { left = head; right = partner } ∷ tail)

or_else : Option (List Pairing) → Option (List Pairing) → Option (List Pairing)
or_else (some ps) next = some ps
or_else none next = next

-- The loop over the partners of `head`: `before` holds those tried so far, and `pair` pairs the
-- tickers that are left over.
unfoldable pub try_partners :
    List MatchupKey
    → (List ActiveTicker → Option (List Pairing))
    → ActiveTicker
    → List ActiveTicker
    → List ActiveTicker
    → Option (List Pairing)
unfolding with_pair or_else
try_partners blocked pair head before [] = none
try_partners blocked pair head before (partner ∷ after) =
    let next = try_partners blocked pair head (before ++ (partner ∷ [])) after in
    if has_key blocked (matchup_key head partner)
    then next
    else or_else (with_pair head partner (pair (before ++ after))) next

-- One unit of fuel for each pair.
unfoldable pub pair_with_fuel : List MatchupKey → ℕ → List ActiveTicker → Option (List Pairing)
unfolding try_partners
pair_with_fuel blocked fuel [] = some []
pair_with_fuel blocked zero (head ∷ rest) = none
pair_with_fuel blocked (suc fuel) (head ∷ rest) =
    try_partners blocked (pair_with_fuel blocked fuel) head [] rest

unfoldable pub pair_in_order : List ActiveTicker → List MatchupKey → Option (List Pairing)
unfolding pair_with_fuel
pair_in_order order blocked = pair_with_fuel blocked (length order) order

pub record MatchmakingInput : Type 0 where
  pub base_seed_hex : Text
  pub round_id : Text
  pub roster : Option (List ActiveTicker)
  pub recent_rounds : Option (List (List Pairing))

abbrev pub roster_of : Option (List ActiveTicker) → List ActiveTicker
roster_of none = active_tickers
roster_of (some roster) = roster

abbrev pub recent_of : Option (List (List Pairing)) → List (List Pairing)
recent_of none = []
recent_of (some rounds) = rounds

-- `new Set(roster).size !== roster.length`
unfoldable pub has_duplicates : List ActiveTicker → Bool
has_duplicates [] = false
has_duplicates (t ∷ ts) = if any (λ u. ticker_eq t u) ts then true else has_duplicates ts

-- The roster in the order that the seed of the round gives it.
unfoldable pub shuffled_roster : Hashing → ℕ → MatchmakingInput → Result (List ActiveTicker)
shuffled_roster hashing fuel input = do
  seed ← derive_round_seed hashing input.base_seed_hex input.round_id
  prng ← new_prng seed (codes "PONSWARS_MATCHMAKING_V1")
  shuffled ← shuffle hashing fuel (roster_of input.roster) prng
  ok shuffled.0

-- A schedule, or the throw for a round that has none.
pairings_or_throw : Option (List Pairing) → Result (List Pairing)
pairings_or_throw none = err failure
pairings_or_throw (some pairings) = ok pairings

unfoldable pub schedule_round : Hashing → ℕ → MatchmakingInput → Result (List Pairing)
unfolding pairings_or_throw
schedule_round hashing fuel input =
    if not (length (roster_of input.roster) == battles_per_round * 2)
    then err range_error
    else if has_duplicates (roster_of input.roster)
    then err range_error
    else shuffled_roster hashing fuel input >>= λ order.
        pairings_or_throw (pair_in_order order (cooldown_set (recent_of input.recent_rounds)))
