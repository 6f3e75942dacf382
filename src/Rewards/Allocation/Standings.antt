-- ===== src/Rewards/Allocation/Standings.antt =====
-- The checks on the standings (packages/rewards-math/src/allocation.ts).
use ponswars.Base.{
  ℕ, ◌≡◌, ◌≢◌, ◌⊎◌, refl, Bool-cases, inl, inr, false, List, [], ◌∷◌, map, arith, Result, ok, err,
  range_error, All, ◌>>=◌, ap,
}
use ponswars.Base.Int.{pos, pos_part, ltb_ℤ, ◌≤ℤ◌}
use ponswars.Rewards.Allocation.{Standing, WalletStanding, has_wallet, check_standings}

-- No wallet stands twice.
abbrev pub AllDistinct : List WalletStanding → Type 0
AllDistinct [] = Unit {0}
AllDistinct (s ∷ rest) = All (λ (t : WalletStanding). t.wallet ≢ s.wallet) rest × AllDistinct rest

-- No wallet stands twice and none has a negative count.
abbrev pub IsValidStandings : List WalletStanding → Type 0
IsValidStandings ss = AllDistinct ss × All (λ (s : WalletStanding). pos 0 ≤ℤ s.window_war_points) ss

abbrev pub standing_of : WalletStanding → Standing
standing_of s = record { wallet = s.wallet; war_points = pos_part s.window_war_points }

-- None of the wallets has been seen.
abbrev Fresh : List ℕ → List WalletStanding → Type 0
Fresh seen ss = All (λ (s : WalletStanding). has_wallet s.wallet seen ≡ false) ss

Fresh-nil : (ss : List WalletStanding) → Fresh [] ss
Fresh-nil [] = tt
Fresh-nil (s ∷ ss) = (refl, Fresh-nil ss)

Fresh-cons :
    (w : ℕ) (seen : List ℕ) (ss : List WalletStanding)
    → Fresh seen ss
    → All (λ (t : WalletStanding). t.wallet ≢ w) ss
    → Fresh (w ∷ seen) ss
Fresh-cons w seen [] h k = tt
Fresh-cons w seen (s ∷ ss) h k = (ground (arith, h.0, k.0), Fresh-cons w seen ss h.1 k.1)

unseen_split :
    (w : ℕ) (seen : List ℕ) (ss : List WalletStanding)
    → Fresh (w ∷ seen) ss
    → Fresh seen ss × All (λ (t : WalletStanding). t.wallet ≢ w) ss
unseen_split w seen [] h = (tt, tt)
unseen_split w seen (s ∷ ss) h =
    let ih = unseen_split w seen ss h.1 in
    let p = h.0 in ((ground arith, ih.0), (ground arith, ih.1))

-- What the checks promise.
abbrev Checked : List ℕ → List WalletStanding → Result (List Standing) → Type 0
Checked seen ss (ok out) = Fresh seen ss × IsValidStandings ss × (out ≡ map standing_of ss)
Checked seen ss (err e) = (e ≡ range_error) × ¬ (Fresh seen ss × IsValidStandings ss)

standing_step :
    (seen : List ℕ) (s : WalletStanding) (rest : List WalletStanding) (r : Result (List Standing))
    → has_wallet s.wallet seen ≡ false
    → pos 0 ≤ℤ s.window_war_points
    → Checked (s.wallet ∷ seen) rest r
    → Checked seen (s ∷ rest) (r >>= λ ss. ok (standing_of s ∷ ss))
standing_step seen s rest (ok out) f n (fr, (d, a), e) =
    let sp = unseen_split s.wallet seen rest fr in
    ((f, sp.0), ((sp.1, d), (n, a)), ap (◌∷◌ (standing_of s)) e)
standing_step seen s rest (err x) f n (e, no_way) =
    (e, λ ((_, fr), ((ds, d), (_, a))). no_way (Fresh-cons s.wallet seen rest fr ds, (d, a)))

check-Checked :
    (seen : List ℕ) (ss : List WalletStanding) → Checked seen ss (check_standings seen ss)
unfolding check_standings
check-Checked seen [] = (tt, (tt, tt), refl)
check-Checked seen (s ∷ rest) = elim (Bool-cases (has_wallet s.wallet seen)) [
  | inl e ↦ rw e (refl, λ h. let p = h.0.0 in cc)
  | inr e ↦ elim (Bool-cases (ltb_ℤ s.window_war_points (pos 0))) [
    | inl l ↦ rw (e, l) (refl, λ h. let p = h.1.1.0 in ground arith)
    | inr l ↦
        rw (e, l)
          (standing_step seen s rest _ e (ground arith) (check-Checked (s.wallet ∷ seen) rest))
  ]
]

-- The checks pass valid standings unchanged and throw a RangeError on any other.
pub check_standings_cases :
    (ss : List WalletStanding)
    → (IsValidStandings ss × (check_standings [] ss ≡ ok (map standing_of ss)))
      ⊎ ((¬ IsValidStandings ss) × (check_standings [] ss ≡ err range_error))
check_standings_cases ss = go (check_standings [] ss) (check-Checked [] ss)
  where
    go :
        (r : Result (List Standing))
        → Checked [] ss r
        → (IsValidStandings ss × (r ≡ ok (map standing_of ss)))
          ⊎ ((¬ IsValidStandings ss) × (r ≡ err range_error))
    go (ok out) c = inl (c.1, ap ok c.2)
    go (err e) c = inr (λ v. c.1 (Fresh-nil ss, v), ap err c.0)
