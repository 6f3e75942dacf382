-- ===== src/Base/Hashing.antt =====
-- What the source takes from Node: SHA-256 (`createHash`) and the UTF-8 bytes of a string.
use Prim.Native.Nat.{ℕ, ◌<◌}
use mathlib.Core.Path.{◌≡◌}
use mathlib.Core.List.{List}
use ponswars.Base.Lists.{length, All}
use ponswars.Base.Text.{Text}

pub record Hashing : Type 0 where
  pub sha256 : List ℕ → List ℕ
  pub utf8 : Text → List ℕ
  pub digest_length : (m : List ℕ) → length (sha256 m) ≡ 32
  pub digest_bytes : (m : List ℕ) → All (λ b. b < 256) (sha256 m)
