-- ===== src/BattleMath/Genesis.antt =====
-- packages/battle-math/src/genesis-rng.ts: the card that a wallet is dealt.
pub mod Dealt
use ponswars.Base.{
  ℕ, ◌+◌, ◌^◌, ◌==◌, ◌%◌, ◌&&◌, ◌||◌, not, Bool, true, false, List, [], ◌∷◌, ◌++◌, Option, none,
  some, map, length, get_elem?, leb, if◌then◌else◌, Result, ok, err, range_error, type_error,
  failure, ◌>>=◌, throw_if, ◌>>◌,
}
use ponswars.Base.Text.{
  Text, codes, is_empty, all_hex, hex_bytes, to_lower_char, strip_prefix, text_eq,
}
use ponswars.Base.Hashing.{Hashing}
use ponswars.Shared.Cards.{Rarity, CardType, card_rarity, cards_of_rarity, rarity_eq, card_eq}
use ponswars.Shared.Genesis.{genesis_domain_separator, rng_slot_count, rarity_for_slot, rarity_uses}
use ponswars.BattleMath.Prng.{
  DeterministicPrng, big_endian, hex_text, new_prng, next_below, normalize_seed_hex,
}

pub record GenesisSeedInput : Type 0 where
  pub finalized_block_hash : Text
  pub wallet : Text
  pub request_id : Text

-- The label of the source only stands in the message.
unfoldable pub normalize_hex : Text → Result Text
normalize_hex value =
    let without_prefix = strip_prefix value in
    if is_empty without_prefix || not (all_hex without_prefix)
    then err type_error
    else if not (length without_prefix % 2 == 0)
    then err type_error
    else ok (map to_lower_char without_prefix)

-- The bytes that each field adds to the hash, its length first (`writeUInt32BE` has a bound).
unfoldable pub length_prefixed : List (List ℕ) → Result (List ℕ)
unfolding big_endian
length_prefixed [] = ok []
length_prefixed (field ∷ fields) =
    throw_if (leb (2 ^ 32) (length field)) range_error
    >> (length_prefixed fields >>= λ rest. ok (big_endian 4 (length field) ++ (field ++ rest)))

unfoldable pub derive_genesis_seed : Hashing → GenesisSeedInput → Result Text
unfolding normalize_hex length_prefixed hex_text
derive_genesis_seed hashing input = normalize_hex input.finalized_block_hash >>= λ block_hash.
    normalize_hex input.wallet >>= λ wallet.
    throw_if (is_empty input.request_id) type_error
    >> (length_prefixed
          (hex_bytes block_hash ∷ hex_bytes wallet ∷ hashing.utf8 input.request_id ∷ [])
        >>= λ fields.
            ok (hex_text (hashing.sha256 (hashing.utf8 genesis_domain_separator ++ fields))))

abbrev pub rarity_table_funded : Text
rarity_table_funded = codes "rarity-table-v1"

abbrev pub rarity_table_secret_disabled : Text
rarity_table_secret_disabled = codes "rarity-table-v1-secret-disabled"

pub record GenesisOutcome : Type 0 where
  pub slot : ℕ
  pub rarity : Rarity
  pub card_type : CardType
  pub seed : Text
  pub secret_available : Bool
  pub rarity_table_version : Text

abbrev pub genesis_card_domain : Text
genesis_card_domain = genesis_domain_separator ++ codes "_CARD"

-- The candidate at the drawn index.
unfoldable pub chosen_card : Option CardType → Result CardType
chosen_card none = err failure
chosen_card (some card) = ok card

-- The first number below a bound that the stream of a domain draws.
unfoldable pub draw_in : Hashing → ℕ → Text → Text → ℕ → Result ℕ
draw_in hashing fuel seed domain bound = new_prng seed domain >>= λ prng.
    next_below hashing fuel bound prng >>= λ (drawn, after). ok drawn

unfoldable pub card_for : Hashing → ℕ → Text → Rarity → Result CardType
unfolding chosen_card
card_for hashing fuel seed rarity =
    let candidates = cards_of_rarity rarity in
    if length candidates == 0
    then err failure
    else (draw_in hashing fuel seed genesis_card_domain (length candidates) >>= λ card_draw.
        chosen_card (get_elem? candidates card_draw))

unfoldable pub resolve_genesis : Hashing → ℕ → GenesisSeedInput → Bool → Result GenesisOutcome
resolve_genesis hashing fuel input secret_available = derive_genesis_seed hashing input >>= λ seed.
    draw_in hashing fuel seed genesis_domain_separator rng_slot_count >>= λ slot.
    rarity_for_slot slot secret_available >>= λ rarity.
    card_for hashing fuel seed rarity >>= λ card_type. ok (record {
      slot = slot;
      rarity = rarity;
      card_type = card_type;
      seed = seed;
      secret_available = secret_available;
      rarity_table_version =
          if secret_available then rarity_table_funded else rarity_table_secret_disabled;
    })

-- The fields of a recorded outcome that are checked.
pub record RecordedOutcome : Type 0 where
  pub slot : ℕ
  pub rarity : Rarity
  pub card_type : CardType

unfoldable pub verify_genesis :
    Hashing → ℕ → GenesisSeedInput → Bool → RecordedOutcome → Result Bool
verify_genesis hashing fuel input secret_available recorded =
    resolve_genesis hashing fuel input secret_available >>= λ recomputed. ok (
      (recomputed.slot == recorded.slot)
      && (rarity_eq recomputed.rarity recorded.rarity
          && card_eq recomputed.card_type recorded.card_type))

unfoldable pub initial_uses_for : CardType → ℕ
initial_uses_for card_type = rarity_uses (card_rarity card_type)
