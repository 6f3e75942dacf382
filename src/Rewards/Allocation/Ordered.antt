-- ===== src/Rewards/Allocation/Ordered.antt =====
-- The order of the rows does not matter (packages/rewards-math/src/allocation.ts).
use ponswars.Base.{
  ℕ, ◌≡◌, ◌∙◌, refl, sym, Bool-cases, inl, inr, true, false, List, [], ◌∷◌, map, arith, ap, length,
  select, Bool, All, suc, subst, ◌≢◌,
}
use mathlib.Core.Path.{ap₂}
use mathlib.Core.List.{Permᴰ}
use mathlib.Core.List.Permᴰ
use ponswars.Base.Int.{ℤ}
use ponswars.Rewards.Allocation.Standings.{
  check_standings_cases, AllDistinct, IsValidStandings, standing_of,
}
use ponswars.Rewards.Allocation.{
  WalletStanding, Standing, AllocationInput, allocate_checked, allocate_distribution,
  qualifies_for_distribution, before, insert_standing, sort_standings,
}

-- Two standings of which neither stands before the other are one.
before_total : (a b : Standing) → before a b ≡ false → before b a ≡ false → a ≡ b
before_total a b h k =
    let w : a.wallet ≡ b.wallet = ground arith in
    let p : a.war_points ≡ b.war_points = ground arith in
    λ i. record { wallet = w i; war_points = p i }

before_asym : (a b : Standing) → before a b ≡ true → before b a ≡ false
before_asym a b h = ground arith

before_of_not : (a b c : Standing) → before c a ≡ false → before c b ≡ true → before a b ≡ true
before_of_not a b c h k = ground arith

insert_comm :
    (a b : Standing) (l : List Standing)
    → insert_standing a (insert_standing b l) ≡ insert_standing b (insert_standing a l)
unfolding insert_standing
insert_comm a b [] = elim (Bool-cases (before a b)) [
  | inl e ↦ rw (e, before_asym a b e)
  | inr e ↦ elim (Bool-cases (before b a)) [
    | inl f ↦ rw (e, f)
    | inr f ↦
        let p = before_total a b e f in
        ap₂ (λ x y. insert_standing x (insert_standing y [])) p (sym p)
  ]
]
insert_comm a b (c ∷ cs) = elim (Bool-cases (before c b)) [
  | inl e ↦ elim (Bool-cases (before c a)) [
    | inl f ↦ simp (e, f) (ap (◌∷◌ c) (insert_comm a b cs))
    | inr f ↦ simp (e, f, before_of_not a b c f e)
  ]
  | inr e ↦ elim (Bool-cases (before c a)) [
    | inl f ↦ simp (e, f, before_of_not b a c e f)
    | inr f ↦ elim (Bool-cases (before a b)) [
      | inl g ↦ simp (e, f, g, before_asym a b g)
      | inr g ↦ elim (Bool-cases (before b a)) [
        | inl h ↦ simp (e, f, g, h)
        | inr h ↦
            let p = before_total a b g h in
            ap₂ (λ x y. insert_standing x (insert_standing y (c ∷ cs))) p (sym p)
      ]
    ]
  ]
]

pub sort-perm : {l m : List Standing} → Permᴰ l m → sort_standings l ≡ sort_standings m
unfolding sort_standings
sort-perm Permᴰ.nil = refl
sort-perm (Permᴰ.cons {a = a} {b = b} e p) = ap₂ insert_standing e (sort-perm p)
sort-perm (Permᴰ.swap {a = a} {b = b} {l = l} e f) =
    insert_comm a b (sort_standings l)
    ∙ ap₂ (λ x y. insert_standing x (insert_standing y (sort_standings l))) f e
sort-perm (Permᴰ.trans p q) = sort-perm p ∙ sort-perm q

length-perm {ℓ} : {A : Type ℓ} {l m : List A} → Permᴰ l m → length l ≡ length m
length-perm Permᴰ.nil = refl
length-perm (Permᴰ.cons e p) = ap suc (length-perm p)
length-perm (Permᴰ.swap e f) = refl
length-perm (Permᴰ.trans p q) = length-perm p ∙ length-perm q

select-perm {ℓ} :
    {A : Type ℓ} (t : A → Bool) {l m : List A} → Permᴰ l m → Permᴰ (select t l) (select t m)
select-perm t Permᴰ.nil = Permᴰ.nil
select-perm t (Permᴰ.cons {a = a} e p) =
    let ih = select-perm t p in
    rw (← e) (elim (Bool-cases (t a)) [ inl h ↦ rw h (Permᴰ.cons refl ih) | inr h ↦ rw h ih ])
select-perm t (Permᴰ.swap {a = a} {b = b} e f) =
    rw (← e, ← f)
      (elim (Bool-cases (t a)) [
        | inl h ↦ elim (Bool-cases (t b)) [
          | inl k ↦ rw (h, k) (Permᴰ.swap refl refl)
          | inr k ↦ rw (h, k) (Permᴰ.refl _)
        ]
        | inr h ↦ elim (Bool-cases (t b)) [
          | inl k ↦ rw (h, k) (Permᴰ.refl _)
          | inr k ↦ rw (h, k) (Permᴰ.refl _)
        ]
      ])
select-perm t (Permᴰ.trans p q) = Permᴰ.trans (select-perm t p) (select-perm t q)

map-perm {ℓ κ} :
    {A : Type ℓ} {B : Type κ} (f : A → B) {l m : List A} → Permᴰ l m → Permᴰ (map f l) (map f m)
map-perm f Permᴰ.nil = Permᴰ.nil
map-perm f (Permᴰ.cons e p) = Permᴰ.cons (ap f e) (map-perm f p)
map-perm f (Permᴰ.swap e g) = Permᴰ.swap (ap f e) (ap f g)
map-perm f (Permᴰ.trans p q) = Permᴰ.trans (map-perm f p) (map-perm f q)

All-perm {ℓ κ} : {A : Type ℓ} (P : A → Type κ) {l m : List A} → Permᴰ l m → All P l → All P m
All-perm P Permᴰ.nil h = tt
All-perm P (Permᴰ.cons e p) (h, k) = (subst P e h, All-perm P p k)
All-perm P (Permᴰ.swap e f) (h, (k, r)) = (subst P f k, (subst P e h, r))
All-perm P (Permᴰ.trans p q) h = All-perm P q (All-perm P p h)

AllDistinct-perm : {l m : List WalletStanding} → Permᴰ l m → AllDistinct l → AllDistinct m
AllDistinct-perm Permᴰ.nil h = tt
AllDistinct-perm (Permᴰ.cons {l₂ = l₂} e p) (h, k) = (
  subst (λ s. All (λ (t : WalletStanding). t.wallet ≢ s.wallet) l₂) e (All-perm _ p h),
  AllDistinct-perm p k,
)
AllDistinct-perm (Permᴰ.swap {l = l} e f) ((h, k), (g, r)) = (
  (
    λ q. h (
        ap (λ (s : WalletStanding). s.wallet) f
        ∙ sym q
        ∙ sym (ap (λ (s : WalletStanding). s.wallet) e)),
    subst (λ s. All (λ (t : WalletStanding). t.wallet ≢ s.wallet) l) f g,
  ),
  (subst (λ s. All (λ (t : WalletStanding). t.wallet ≢ s.wallet) l) e k, r),
)
AllDistinct-perm (Permᴰ.trans p q) h = AllDistinct-perm q (AllDistinct-perm p h)

valid-perm : {l m : List WalletStanding} → Permᴰ l m → IsValidStandings l → IsValidStandings m
valid-perm p (d, a) = (AllDistinct-perm p d, All-perm _ p a)

allocate_checked-perm :
    (pool minimum_claim : ℕ) {l m : List Standing}
    → Permᴰ l m
    → allocate_checked pool minimum_claim l ≡ allocate_checked pool minimum_claim m
unfolding allocate_checked
allocate_checked-perm pool minimum_claim p =
    let q = select-perm (λ (s : Standing). qualifies_for_distribution s.war_points) p in
    rw (length-perm p, length-perm q, sort-perm q)

abbrev input_of : ℤ → ℤ → List WalletStanding → AllocationInput
input_of pool minimum_claim ss = record {
  pool_balance = pool;
  standings = ss;
  minimum_claim = minimum_claim;
}

-- The order in which the standings come does not matter: the same standings in another order give
-- the same allocations in the same order, the same totals, or the same error.
pub allocate_distribution-perm :
    (pool minimum_claim : ℤ) {ss ts : List WalletStanding}
    → Permᴰ ss ts
    → allocate_distribution (input_of pool minimum_claim ss)
      ≡ allocate_distribution (input_of pool minimum_claim ts)
unfolding allocate_distribution
allocate_distribution-perm pool minimum_claim {ss} {ts} p = elim (check_standings_cases ss) [
  | inl (v, e) ↦ elim (check_standings_cases ts) [
    | inl (w, f) ↦ rw (e, f, allocate_checked-perm _ _ (map-perm standing_of p))
    | inr (n, f) ↦ absurd (n (valid-perm p v))
  ]
  | inr (n, e) ↦ elim (check_standings_cases ts) [
    | inl (w, f) ↦ absurd (n (valid-perm (Permᴰ.symm p) w))
    | inr (m, f) ↦ rw (e, f)
  ]
]
