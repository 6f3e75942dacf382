-- ===== src/BattleMath/Matchmaking/Counts.antt =====
-- Counting tickers, and the tickers of a list of pairings (packages/battle-math/src/matchmaking.ts).
use ponswars.Base.{
  ℕ, ◌≤◌, ◌+◌, ◌≡◌, ◌⊎◌, inl, inr, refl, ap, sym, false, Bool-cases, List, [], ◌∷◌, ◌++◌, All,
  if◌then◌else◌, arith,
}
use ponswars.Shared.Roster.{ActiveTicker, ticker_eq, ticker_lt, ticker_eq_iff, rank-injective}
use ponswars.BattleMath.Matchmaking.{Pairing, MatchupKey, matchup_key, has_key}

abbrev pub is_ticker : ActiveTicker → ActiveTicker → ℕ
is_ticker t x = if ticker_eq t x then 1 else 0

-- How often a ticker stands in a list.
unfoldable pub occurrences : ActiveTicker → List ActiveTicker → ℕ
occurrences t [] = 0
occurrences t (x ∷ xs) = is_ticker t x + occurrences t xs

unfoldable pub tickers_of : List Pairing → List ActiveTicker
tickers_of [] = []
tickers_of (p ∷ ps) = p.left ∷ (p.right ∷ tickers_of ps)

pub occurrences-append :
    (t : ActiveTicker) (xs ys : List ActiveTicker)
    → occurrences t (xs ++ ys) ≡ occurrences t xs + occurrences t ys
unfolding occurrences
occurrences-append t [] ys = omega arith
occurrences-append t (x ∷ xs) ys = omega (arith, occurrences-append t xs ys)

pub occurrences-middle :
    (t x : ActiveTicker) (before after : List ActiveTicker)
    → occurrences t (before ++ (x ∷ after)) ≡ is_ticker t x + occurrences t (before ++ after)
unfolding occurrences
occurrences-middle t x [] after = refl
occurrences-middle t x (b ∷ before) after = omega (arith, occurrences-middle t x before after)

pub is_ticker_self : (t : ActiveTicker) → is_ticker t t ≡ 1
is_ticker_self t = rw ((ticker_eq_iff t t).1 refl) refl

is_ticker_cases : (t x : ActiveTicker) → (t ≡ x) ⊎ (is_ticker t x ≡ 0)
is_ticker_cases t x = elim (Bool-cases (ticker_eq t x)) [
  | inl e ↦ inl ((ticker_eq_iff t x).0 e)
  | inr e ↦ inr (rw e refl)
]

-- A ticker that occurs splits the list.
abbrev pub SplitsAt : ActiveTicker → List ActiveTicker → Type 0
SplitsAt t xs =
    (before : List ActiveTicker) × (after : List ActiveTicker) × (xs ≡ before ++ (t ∷ after))

pub occurs-SplitsAt :
    (t : ActiveTicker) (xs : List ActiveTicker) → 1 ≤ occurrences t xs → SplitsAt t xs
unfolding occurrences
occurs-SplitsAt t [] h = absurd (omega arith)
occurs-SplitsAt t (x ∷ xs) h = elim (is_ticker_cases t x) [
  | inl e ↦ ([], xs, ap (λ y. y ∷ xs) (sym e))
  | inr e ↦
      let (before, after, s) = occurs-SplitsAt t xs (omega (arith, e)) in
      (x ∷ before, after, ap (λ ys. x ∷ ys) s)
]

-- A key does not depend on the order of its tickers.
pub matchup_key_symm : (a b : ActiveTicker) → matchup_key a b ≡ matchup_key b a
unfolding matchup_key
matchup_key_symm a b = elim (Bool-cases (ticker_lt a b)) [
  | inl e ↦ elim (Bool-cases (ticker_lt b a)) [
    | inl f ↦ absurd (ground arith)
    | inr f ↦ rw (e, f) refl
  ]
  | inr e ↦ elim (Bool-cases (ticker_lt b a)) [
    | inl f ↦ rw (e, f) refl
    | inr f ↦ let h = rank-injective a b (ground arith) in rw h refl
  ]
]

-- The pairings use each ticker as often as the list holds it, and none of them is blocked.
pub record IsSchedule (blocked : List MatchupKey) (order : List ActiveTicker) (ps : List Pairing)
    : Type 0 where
  pub counts : (t : ActiveTicker) → occurrences t (tickers_of ps) ≡ occurrences t order
  pub unblocked : All (λ p. has_key blocked (matchup_key p.left p.right) ≡ false) ps

-- Takes the pairing of a ticker out of a list of pairings.
pub record PartnerOf (blocked : List MatchupKey) (head : ActiveTicker) (ps : List Pairing)
    : Type 0 where
  pub partner : ActiveTicker
  pub others : List Pairing
  pub counts :
      (t : ActiveTicker)
      → occurrences t (tickers_of ps)
        ≡ is_ticker t head + is_ticker t partner + occurrences t (tickers_of others)
  pub allowed : has_key blocked (matchup_key head partner) ≡ false
  pub unblocked : All (λ p. has_key blocked (matchup_key p.left p.right) ≡ false) others

pub paired-PartnerOf :
    (blocked : List MatchupKey) (head : ActiveTicker) (ps : List Pairing)
    → 1 ≤ occurrences head (tickers_of ps)
    → All (λ p. has_key blocked (matchup_key p.left p.right) ≡ false) ps
    → PartnerOf blocked head ps
unfolding tickers_of occurrences
paired-PartnerOf blocked head [] h u = absurd (omega arith)
paired-PartnerOf blocked head (p ∷ ps) h (u, us) = elim (is_ticker_cases head p.left) [
  | inl e ↦ record {
    partner = p.right;
    others = ps;
    counts = λ t. rw e (omega arith);
    allowed = rw e u;
    unblocked = us;
  }
  | inr e ↦ elim (is_ticker_cases head p.right) [
    | inl f ↦ record {
      partner = p.left;
      others = ps;
      counts = λ t. rw f (omega arith);
      allowed = rw (f, matchup_key_symm p.right p.left) u;
      unblocked = us;
    }
    | inr f ↦
        let r = paired-PartnerOf blocked head ps (omega (arith, e, f)) us in
        record {
          partner = r.partner;
          others = p ∷ r.others;
          counts = λ t. let c = r.counts t in omega (arith, c);
          allowed = r.allowed;
          unblocked = (u, r.unblocked);
        }
  ]
]
