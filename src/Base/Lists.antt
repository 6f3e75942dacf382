-- ===== src/Base/Lists.antt =====
-- Lists measured and indexed by native numbers, under the library's names.
use Prim.Native.Nat.{ℕ, zero, suc, ◌+◌, ◌≤◌}
use mathlib.Core.Path.{◌≡◌, refl, ap}
use mathlib.Core.List.{List, [], ◌∷◌, ◌++◌, map}
use mathlib.Core.Logic.{◌≢◌, ◌↔◌, inl, inr}
use mathlib.Core.Bool.{Bool, true, false}
use mathlib.Core.Option.{Option, none, some}
use native.Mathlib.Omega.{arith}
use ponswars.Base.Tests.{if◌then◌else◌, ◌==◌, Bool-cases}

module _ {ℓ} {A : Type ℓ} where
  abbrev pub length : List A → ℕ
  length [] = 0
  length (x ∷ xs) = suc (length xs)

  abbrev pub get_elem? : List A → ℕ → Option A
  get_elem? [] i = none
  get_elem? (x ∷ xs) zero = some x
  get_elem? (x ∷ xs) (suc i) = get_elem? xs i

  abbrev pub take : ℕ → List A → List A
  take zero xs = []
  take (suc n) [] = []
  take (suc n) (x ∷ xs) = x ∷ take n xs

  abbrev pub drop : ℕ → List A → List A
  drop zero xs = xs
  drop (suc n) [] = []
  drop (suc n) (x ∷ xs) = drop n xs

  -- `xs[i] = y` at an index within the list.
  abbrev pub set_at : List A → ℕ → A → List A
  set_at [] i y = []
  set_at (x ∷ xs) zero y = y ∷ xs
  set_at (x ∷ xs) (suc i) y = x ∷ set_at xs i y

  -- The entries that pass a Boolean test (`Array.prototype.filter`).
  abbrev pub select : (A → Bool) → List A → List A
  select p [] = []
  select p (x ∷ xs) = if p x then x ∷ select p xs else select p xs

  -- `Array.prototype.some`
  abbrev pub any : (A → Bool) → List A → Bool
  any p [] = false
  any p (x ∷ xs) = if p x then true else any p xs

  -- Every entry has the property.
  abbrev pub All {κ} : (A → Type κ) → List A → Type κ
  All P [] = Unit
  All P (x ∷ xs) = P x × All P xs

  pub length-append : (xs ys : List A) → length (xs ++ ys) ≡ length xs + length ys
  length-append [] ys = omega arith
  length-append (x ∷ xs) ys = omega (arith, length-append xs ys)

  pub length-select-le : (p : A → Bool) (xs : List A) → length (select p xs) ≤ length xs
  length-select-le p [] = omega arith
  length-select-le p (x ∷ xs) = ground (arith, length-select-le p xs)

pub length-map {ℓ κ} :
    {A : Type ℓ} {B : Type κ} (f : A → B) (xs : List A) → length (map f xs) ≡ length xs
length-map f [] = refl
length-map f (x ∷ xs) = ap suc (length-map f xs)

-- The sum of a number taken from each entry.
abbrev pub sum_of {ℓ} : {A : Type ℓ} → (A → ℕ) → List A → ℕ
sum_of f [] = 0
sum_of f (x ∷ xs) = f x + sum_of f xs

-- Two lists hold the same entries, each as often: every number taken from the entries has one sum.
abbrev pub SameEntries {ℓ} : {A : Type ℓ} → List A → List A → Type ℓ
SameEntries {A = A} xs ys = (f : A → ℕ) → sum_of f xs ≡ sum_of f ys

module _ {ℓ} {A : Type ℓ} where
  sum_of-set_at :
      (f : A → ℕ) (xs : List A) (i : ℕ) (a b : A)
      → get_elem? xs i ≡ some a
      → sum_of f (set_at xs i b) + f a ≡ sum_of f xs + f b
  sum_of-set_at f [] i a b h = cc
  sum_of-set_at f (x ∷ xs) zero a b h = let e : f x ≡ f a = cc in omega (arith, e)
  sum_of-set_at f (x ∷ xs) (suc i) a b h = omega (arith, sum_of-set_at f xs i a b h)

  -- An entry that is already `b` stays so when another one becomes `b`.
  get_elem?-set_at :
      (xs : List A) (i j : ℕ) (b : A)
      → get_elem? xs j ≡ some b
      → get_elem? (set_at xs i b) j ≡ some b
  get_elem?-set_at [] i j b h = h
  get_elem?-set_at (x ∷ xs) zero zero b h = refl
  get_elem?-set_at (x ∷ xs) zero (suc j) b h = h
  get_elem?-set_at (x ∷ xs) (suc i) zero b h = h
  get_elem?-set_at (x ∷ xs) (suc i) (suc j) b h = get_elem?-set_at xs i j b h

  -- Two entries change places.
  pub swap-SameEntries :
      (xs : List A) (i j : ℕ) (a b : A)
      → get_elem? xs i ≡ some a
      → get_elem? xs j ≡ some b
      → SameEntries (set_at (set_at xs i b) j a) xs
  swap-SameEntries xs i j a b h k f = omega (
    arith,
    sum_of-set_at f xs i a b h,
    sum_of-set_at f (set_at xs i b) j b a (get_elem?-set_at xs i j b k),
  )

-- A number that no test finds is none of the list.
pub not_any_iff : (seen : List ℕ) (w : ℕ) → (any (λ v. v == w) seen ≡ false) ↔ All (λ v. v ≢ w) seen
not_any_iff [] w = (λ h. tt, λ h. refl)
not_any_iff (v ∷ seen) w = elim (Bool-cases (v == w)) [
  | inl e ↦ rw e (λ h. cc, λ (n, _). absurd (n (ground arith)))
  | inr e ↦
      rw e (
        λ h. (λ q. ground (arith, q), (not_any_iff seen w).0 h),
        λ (_, h). (not_any_iff seen w).1 h,
      )
]

module _ {ℓ} {A : Type ℓ} where
  -- What is selected passes the test, and keeps what it had.
  pub select-All : (test : A → Bool) (xs : List A) → All (λ x. test x ≡ true) (select test xs)
  select-All test [] = tt
  select-All test (x ∷ xs) = elim (Bool-cases (test x)) [
    | inl e ↦ rw e (e, select-All test xs)
    | inr e ↦ rw e (select-All test xs)
  ]

  pub All-select {κ} :
      (P : A → Type κ) (test : A → Bool) (xs : List A) → All P xs → All P (select test xs)
  All-select P test [] h = tt
  All-select P test (x ∷ xs) (h, hs) = elim (Bool-cases (test x)) [
    | inl e ↦ rw e (h, All-select P test xs hs)
    | inr e ↦ rw e (All-select P test xs hs)
  ]

  pub All-append {κ} : (P : A → Type κ) (xs ys : List A) → All P xs → All P ys → All P (xs ++ ys)
  All-append P [] ys hx hy = hy
  All-append P (x ∷ xs) ys (h, hs) hy = (h, All-append P xs ys hs hy)
