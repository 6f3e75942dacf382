-- ===== src/Shared/Genesis/Bands.antt =====
-- The slots of each rarity (`rarityForSlot` in packages/shared-types/src/genesis.ts).
use ponswars.Base.{ℕ, ◌≤◌, ◌<◌, ◌≡◌, ◌↔◌, Bool, true, false, ok, if◌then◌else◌, ltb, arith}
use ponswars.Shared.Cards.{Rarity, common, uncommon, rare, epic, legendary, secret}
use ponswars.Shared.Genesis.{rarity_for_slot, rng_slot_count}

-- The slots of a rarity: half of them common, and so on down to a thousandth for a secret, which
-- falls to the legendary cards where no secret is available.
abbrev pub InBand : Bool → Rarity → ℕ → Type 0
InBand available common slot = slot < 500_000
InBand available uncommon slot = (500_000 ≤ slot) × (slot < 780_000)
InBand available rare slot = (780_000 ≤ slot) × (slot < 920_000)
InBand available epic slot = (920_000 ≤ slot) × (slot < 980_000)
InBand true legendary slot = (980_000 ≤ slot) × (slot < 999_000)
InBand false legendary slot = (980_000 ≤ slot) × (slot < 1_000_000)
InBand true secret slot = (999_000 ≤ slot) × (slot < 1_000_000)
InBand false secret slot = ⊥

-- A slot has a rarity exactly where it lies in the band of that rarity. So every slot below a
-- million has one, and no other slot has any.
pub rarity_for_slot_iff :
    (slot : ℕ) (available : Bool) (r : Rarity)
    → (rarity_for_slot slot available ≡ ok r) ↔ InBand available r slot
unfolding rarity_for_slot
rarity_for_slot_iff slot true common = (λ h. ground arith, λ h. ground arith)
rarity_for_slot_iff slot true _ = (λ h. ground arith, λ h. ground arith)
rarity_for_slot_iff slot false common = (λ h. ground arith, λ h. ground arith)
rarity_for_slot_iff slot false _ = (λ h. ground arith, λ h. ground arith)

-- The rarity of a slot in its place, by the bands.
pub band_of : Bool → ℕ → Rarity
band_of available slot =
    if ltb slot 500_000
    then common
    else if ltb slot 780_000
    then uncommon
    else if ltb slot 920_000
    then rare
    else if ltb slot 980_000
    then epic
    else if ltb slot 999_000
    then legendary
    else if available
    then secret
    else legendary

pub band_of-InBand :
    (slot : ℕ) (available : Bool)
    → slot < rng_slot_count
    → InBand available (band_of available slot) slot
unfolding band_of
band_of-InBand slot true h = ground arith
band_of-InBand slot false h = ground arith
