-- ===== src/Base/Toy.antt =====
-- A concrete hash for the tests: thirty-two bytes, the first of which is the sum of the message.
use Prim.Native.Nat.{ℕ, zero, suc, ◌+◌, ◌%◌, ◌<◌}
use mathlib.Core.Path.{refl}
use mathlib.Core.List.{List, [], ◌∷◌}
use native.Mathlib.Nat.{mod-lt}
use native.Mathlib.Omega.{arith}
use ponswars.Base.Lists.{All}
use ponswars.Base.Hashing.{Hashing}

abbrev zeros : ℕ → List ℕ
zeros zero = []
zeros (suc n) = 0 ∷ zeros n

pub zeros-All : (n : ℕ) → All (λ b. b < 256) (zeros n)
zeros-All zero = tt
zeros-All (suc n) = (omega arith, zeros-All n)

abbrev sum : List ℕ → ℕ
sum [] = 0
sum (x ∷ xs) = x + sum xs

abbrev pub toy_hashing : Hashing
toy_hashing = record {
  sha256 = λ m. sum m % 256 ∷ zeros 31;
  utf8 = λ t. t;
  digest_length = λ m. refl;
  digest_bytes = λ m. (mod-lt (sum m) (omega arith), zeros-All 31);
}
