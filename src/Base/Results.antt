-- ===== src/Base/Results.antt =====
-- What a function that may throw returns. An error keeps the class of what is thrown; the text of
-- a message is not modelled.
use mathlib.Core.Option.{some}
use mathlib.Core.Path.{◌≡◌, refl}
use mathlib.Core.Logic.{◌⊎◌, inl, inr}
use mathlib.Core.Bool.{Bool, true, false}
use mathlib.Core.List.{List, [], ◌∷◌}

-- `RangeError`, `TypeError`, `Error`, `GenesisChainError` and `PicksLockedError`. The source has no error `out_of_fuel`: a loop with no bound of
-- its own returns it where its fuel ends first.
pub data Error : Type 0 where
  range_error type_error failure chain_error picks_locked out_of_fuel : Error

pub data Result {ℓ} (A : Type ℓ) : Type ℓ where
  err : Error → Result A
  ok : A → Result A

module _ {ℓ κ} {A : Type ℓ} {B : Type κ} where
  infixl 5 ◌>>=◌
  -- What follows a call runs on what the call returned, and not at all where it threw.
  abbrev pub ◌>>=◌ : Result A → (A → Result B) → Result B
  err thrown >>= rest = err thrown
  ok returned >>= rest = rest returned

  -- A chain that returned has a first call that returned.
  pub >>=-eq-ok :
      (call : Result A) (rest : A → Result B) {last : B}
      → (call >>= rest) ≡ ok last
      → (first : A) × (call ≡ ok first) × (rest first ≡ ok last)
  >>=-eq-ok (err thrown) rest e = cc
  >>=-eq-ok (ok first) rest e = (first, refl, e)

-- `if (c) throw e`
abbrev pub throw_if : Bool → Error → Result (Unit {0})
throw_if true e = err e
throw_if false e = ok tt

infixl 5 ◌>>◌
abbrev pub ◌>>◌ {ℓ} : {B : Type ℓ} → Result (Unit {0}) → Result B → Result B
check >> rest = check >>= λ _. rest

-- `xs.map(f)` for an `f` that may throw: the first throw ends it.
abbrev pub map_result {ℓ κ} : {A : Type ℓ} {B : Type κ} → (A → Result B) → List A → Result (List B)
map_result f [] = ok []
map_result f (x ∷ xs) = f x >>= λ y. map_result f xs >>= λ ys. ok (y ∷ ys)

pub Result-cases {ℓ} :
    {A : Type ℓ} (r : Result A) → ((a : A) × (r ≡ ok a)) ⊎ ((e : Error) × (r ≡ err e))
Result-cases (ok a) = inl (a, refl)
Result-cases (err e) = inr (e, refl)

pub ok-injective {ℓ} : {A : Type ℓ} {a b : A} → ok a ≡ ok b → a ≡ b
ok-injective h = cc

-- A call returned.
abbrev pub Returns {ℓ} : {A : Type ℓ} → Result A → Type ℓ
Returns {A = A} r = (a : A) × (r ≡ ok a)

-- A call that throws nothing returns.
pub Returns_of {ℓ} : {A : Type ℓ} (r : Result A) → ((e : Error) → ¬ (r ≡ err e)) → Returns r
Returns_of (ok a) h = (a, refl)
Returns_of (err e) h = absurd (h e refl)

-- A chain returns when its first call returns, and what follows on every value that it may return.
pub >>=-Returns {ℓ κ} :
    {A : Type ℓ} {B : Type κ} (call : Result A) (rest : A → Result B)
    → Returns call
    → ((a : A) → call ≡ ok a → Returns (rest a))
    → Returns (call >>= rest)
>>=-Returns (ok a) rest (b, e) k = k a refl
>>=-Returns (err thrown) rest (b, e) k = cc

pub some-injective {ℓ} : {A : Type ℓ} {a b : A} → some a ≡ some b → a ≡ b
some-injective h = cc
