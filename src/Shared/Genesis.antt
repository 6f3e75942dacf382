-- ===== src/Shared/Genesis.antt =====
-- packages/shared-types/src/genesis.ts: the rarities, the slot table and the life of a request.
pub mod Bands
use ponswars.Base.{
  ℕ, ◌+◌, ◌*◌, ◌==◌, ◌&&◌, Bool, List, [], ◌∷◌, Option, none, some, any, leb, if◌then◌else◌, Result,
  ok, err, range_error, type_error,
}
use ponswars.Base.Int.{ℤ, pos, sub_ℕ, leb_ℤ}
use ponswars.Base.Text.{Text, codes}
use ponswars.Shared.Cards.{Rarity, common, uncommon, rare, epic, legendary, secret, rarity_eq}

abbrev pub genesis_war_threshold_decimal : Text
genesis_war_threshold_decimal = codes "1000000"

abbrev pub rarities : List Rarity
rarities = common ∷ uncommon ∷ rare ∷ epic ∷ legendary ∷ secret ∷ []

abbrev pub rarity_rate_bps : Rarity → ℕ
rarity_rate_bps common = 5_000
rarity_rate_bps uncommon = 2_800
rarity_rate_bps rare = 1_400
rarity_rate_bps epic = 600
rarity_rate_bps legendary = 190
rarity_rate_bps secret = 10

abbrev pub rarity_rate_bps_secret_disabled : Rarity → ℕ
rarity_rate_bps_secret_disabled common = 5_000
rarity_rate_bps_secret_disabled uncommon = 2_800
rarity_rate_bps_secret_disabled rare = 1_400
rarity_rate_bps_secret_disabled epic = 600
rarity_rate_bps_secret_disabled legendary = 200
rarity_rate_bps_secret_disabled secret = 0

abbrev pub rarity_uses : Rarity → ℕ
rarity_uses common = 20
rarity_uses uncommon = 15
rarity_uses rare = 10
rarity_uses epic = 5
rarity_uses legendary = 3
rarity_uses secret = 1

abbrev pub rng_slot_count : ℕ
rng_slot_count = 1_000_000

abbrev pub slots_per_basis_point : ℕ
slots_per_basis_point = 100

abbrev pub genesis_domain_separator : Text
genesis_domain_separator = codes "PONSWARS_GENESIS_V1"

-- An inclusive range; that of a rate of zero ends before its start.
pub record SlotRange : Type 0 where
  pub start : ℕ
  pub end : ℤ

abbrev pub SlotTable : Type 0
SlotTable = List (Rarity × SlotRange)

-- The loop of `buildSlotTable`, with the cursor reached.
unfoldable pub table_from : (Rarity → ℕ) → ℕ → List Rarity → SlotTable
table_from rates cursor [] = []
table_from rates cursor (rarity ∷ rest) =
    let width = rates rarity * slots_per_basis_point in
    (rarity, record { start = cursor; end = sub_ℕ (cursor + width) 1 })
    ∷ table_from rates (cursor + width) rest

unfoldable pub build_slot_table : (Rarity → ℕ) → SlotTable
unfolding table_from
build_slot_table rates = table_from rates 0 rarities

abbrev pub rarity_slot_table : SlotTable
unfolding build_slot_table
rarity_slot_table = build_slot_table rarity_rate_bps

abbrev pub rarity_slot_table_secret_disabled : SlotTable
unfolding build_slot_table
rarity_slot_table_secret_disabled = build_slot_table rarity_rate_bps_secret_disabled

-- `table[rarity]`
unfoldable pub range_of : SlotTable → Rarity → Option SlotRange
range_of [] rarity = none
range_of ((r, range) ∷ table) rarity =
    if rarity_eq r rarity then some range else range_of table rarity

in_range : ℕ → SlotRange → Bool
in_range slot range = leb range.start slot && leb_ℤ (pos slot) range.end

-- The loop of `rarityForSlot`.
unfoldable pub search_slot : SlotTable → ℕ → List Rarity → Result Rarity
unfolding range_of in_range
search_slot table slot [] = err range_error
search_slot table slot (rarity ∷ rest) = elim (range_of table rarity) [
  | none ↦ err type_error
  | some range ↦
      let later = search_slot table slot rest in if in_range slot range then ok rarity else later
]

unfoldable pub rarity_for_slot : ℕ → Bool → Result Rarity
unfolding search_slot build_slot_table
rarity_for_slot slot secret_available =
    if leb rng_slot_count slot
    then err range_error
    else search_slot
        (if secret_available then rarity_slot_table else rarity_slot_table_secret_disabled) slot
        rarities

pub data GenesisRequestState : Type 0 where
  pending committed finalized failed : GenesisRequestState

abbrev pub genesis_request_transitions : GenesisRequestState → List GenesisRequestState
genesis_request_transitions pending = committed ∷ failed ∷ []
genesis_request_transitions committed = finalized ∷ []
genesis_request_transitions finalized = []
genesis_request_transitions failed = []

-- The place of a state in `GENESIS_REQUEST_STATES`, and `===` on states.
abbrev pub request_tag : GenesisRequestState → ℕ
request_tag pending = 0
request_tag committed = 1
request_tag finalized = 2
request_tag failed = 3

abbrev pub request_state_eq : GenesisRequestState → GenesisRequestState → Bool
request_state_eq a b = request_tag a == request_tag b

unfoldable pub can_transition_genesis_request : GenesisRequestState → GenesisRequestState → Bool
can_transition_genesis_request from to =
    any (λ s. request_state_eq s to) (genesis_request_transitions from)
