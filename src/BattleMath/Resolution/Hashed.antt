-- ===== src/BattleMath/Resolution/Hashed.antt =====
-- When a block hash decides a battle (`chainDerivedSide` in packages/battle-math/src/resolution.ts).
use ponswars.Base.{ℕ, ◌≡◌, refl, true, false, List, [], ◌∷◌, length, Returns, arith}
use ponswars.Base.Text.{Text, is_empty, all_hex, strip_prefix}
use ponswars.Base.Hashing.{Hashing}
use ponswars.BattleMath.Resolution.{side_of_digest, chain_derived_side}

-- A text in hex, with or without a prefix.
abbrev pub IsHexText : Text → Type 0
IsHexText t = (is_empty (strip_prefix t) ≡ false) × (all_hex (strip_prefix t) ≡ true)

side_of_digest-Returns : (d : List ℕ) → length d ≡ 32 → Returns (side_of_digest d)
unfolding side_of_digest
side_of_digest-Returns [] e = absurd (omega (arith, e))
side_of_digest-Returns (x ∷ xs) e = (_, refl)

-- A hash in hex decides every battle that has a name.
pub chain_derived_side-Returns :
    (h : Hashing) (hash battle_id : Text)
    → IsHexText hash
    → is_empty battle_id ≡ false
    → Returns (chain_derived_side h hash battle_id)
unfolding chain_derived_side
chain_derived_side-Returns h hash battle_id (some_text, hex) named =
    rw (some_text, hex, named) (side_of_digest-Returns _ (h.digest_length _))
