-- ===== src/RoundService/Picks/Sorted.antt =====
-- The order of a round's picks (`lockedPicks` in apps/api/src/pick-store.ts).
use ponswars.Base.{
  ℕ, ◌≡◌, ◌≢◌, ◌<◌, inl, inr, true, ◌==◌, leb, Bool-cases, List, [], ◌∷◌, All, any, map, arith,
}
use ponswars.RoundService.Picks.{SubmittedPick, insert_pick, sort_picks}

-- The wallets stand in ascending order, each once.
abbrev pub Ascending : List ℕ → Type 0
Ascending [] = Unit {0}
Ascending (w ∷ ws) = All (λ v. w < v) ws × Ascending ws

abbrev pub DistinctWallets : List SubmittedPick → Type 0
DistinctWallets [] = Unit {0}
DistinctWallets (p ∷ ps) = All (λ q. q.wallet ≢ p.wallet) ps × DistinctWallets ps

abbrev pub wallets : List SubmittedPick → List ℕ
wallets ps = map (λ p. p.wallet) ps

module _ (P : SubmittedPick → Type 0) where
  insert_pick-All :
      (a : SubmittedPick) (ps : List SubmittedPick) → P a → All P ps → All P (insert_pick a ps)
  unfolding insert_pick
  insert_pick-All a [] h k = (h, tt)
  insert_pick-All a (b ∷ bs) h (l, k) = elim (Bool-cases (leb a.wallet b.wallet)) [
    | inl e ↦ rw e (h, (l, k))
    | inr e ↦ rw e (l, insert_pick-All a bs h k)
  ]

  pub sort_picks-All : (ps : List SubmittedPick) → All P ps → All P (sort_picks ps)
  unfolding sort_picks
  sort_picks-All [] k = tt
  sort_picks-All (p ∷ ps) (h, k) = insert_pick-All p (sort_picks ps) h (sort_picks-All ps k)

insert_pick-wallets :
    (n : ℕ) (a : SubmittedPick) (ps : List SubmittedPick)
    → n < a.wallet
    → All (λ v. n < v) (wallets ps)
    → All (λ v. n < v) (wallets (insert_pick a ps))
unfolding insert_pick
insert_pick-wallets n a [] h k = (h, tt)
insert_pick-wallets n a (b ∷ bs) h (l, k) = elim (Bool-cases (leb a.wallet b.wallet)) [
  | inl e ↦ rw e (h, (l, k))
  | inr e ↦ rw e (l, insert_pick-wallets n a bs h k)
]

Above-below : (m n : ℕ) (ws : List ℕ) → m < n → All (λ v. n < v) ws → All (λ v. m < v) ws
Above-below m n [] h k = tt
Above-below m n (w ∷ ws) h (l, k) = (omega (arith, h, l), Above-below m n ws h k)

insert_pick-Ascending :
    (a : SubmittedPick) (ps : List SubmittedPick)
    → All (λ q. q.wallet ≢ a.wallet) ps
    → Ascending (wallets ps)
    → Ascending (wallets (insert_pick a ps))
unfolding insert_pick
insert_pick-Ascending a [] d s = (tt, tt)
insert_pick-Ascending a (b ∷ bs) (n, d) (l, s) = elim (Bool-cases (leb a.wallet b.wallet)) [
  | inl e ↦
      let h : a.wallet < b.wallet = ground (arith, n, e) in
      rw e ((h, Above-below a.wallet b.wallet (wallets bs) h l), (l, s))
  | inr e ↦
      rw e (insert_pick-wallets b.wallet a bs (ground (arith, e)) l, insert_pick-Ascending a bs d s)
]

pub sort_picks-Ascending :
    (ps : List SubmittedPick) → DistinctWallets ps → Ascending (wallets (sort_picks ps))
unfolding sort_picks
sort_picks-Ascending [] d = tt
sort_picks-Ascending (p ∷ ps) (n, d) =
    insert_pick-Ascending p (sort_picks ps) (sort_picks-All (λ q. q.wallet ≢ p.wallet) ps n)
      (sort_picks-Ascending ps d)

-- A wallet that is listed is still listed after the sort.
insert_pick-any :
    (w : ℕ) (a : SubmittedPick) (ps : List SubmittedPick)
    → any (λ v. v == w) (wallets (a ∷ ps)) ≡ true
    → any (λ v. v == w) (wallets (insert_pick a ps)) ≡ true
unfolding insert_pick
insert_pick-any w a [] h = h
insert_pick-any w a (b ∷ bs) h = ground (arith, insert_pick-any w a bs)

pub sort_picks-any :
    (w : ℕ) (ps : List SubmittedPick)
    → any (λ v. v == w) (wallets ps) ≡ true
    → any (λ v. v == w) (wallets (sort_picks ps)) ≡ true
unfolding sort_picks
sort_picks-any w [] h = h
sort_picks-any w (p ∷ ps) h =
    insert_pick-any w p (sort_picks ps) (ground (arith, sort_picks-any w ps))
