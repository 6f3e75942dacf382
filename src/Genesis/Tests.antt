-- ===== src/Genesis/Tests.antt =====
-- Runs of a Genesis claim.
use ponswars.Shared.Cards.{cards_of_rarity}
use ponswars.Base.Dict.{lookup, assign}
use ponswars.Genesis.Requests.{
  resolve_request, is_block_hash, genesis_request_id, commit_entropy, open_request, resolve_with,
  war_threshold, finalize_genesis, check_eligibility,
}
use ponswars.BattleMath.Prng.{
  new_prng, next_byte, next_bytes, draw_below, read_big_endian, hex_digit, normalize_seed_hex,
  refill, next_below, big_endian, hex_text,
}
use ponswars.Shared.Money.{
  parse_decimal_to_base_units, is_whole, split_point, has_nonzero, base_units_of, fraction_of,
}
use ponswars.BattleMath.Genesis.{
  card_for, draw_in, derive_genesis_seed, chosen_card, normalize_hex, length_prefixed,
  initial_uses_for, resolve_genesis,
}
use ponswars.Base.Decimal.{
  to_decimal, is_digit, parse_int, all_digits, zeros, pad_start, digits_from, pad_end,
}
use ponswars.Base.{◌≡◌, refl, List, [], ◌∷◌, Option, none, some, ok}
use ponswars.Base.Text.{
  Text, codes, text_eq, strip_prefix, all_hex, is_hex_digit, to_lower_char, hex_value, hex_bytes,
}
use ponswars.Base.Toy.{toy_hashing}
use ponswars.Shared.Genesis.{
  pending, search_slot, can_transition_genesis_request, rarity_for_slot, range_of,
}
use ponswars.Genesis.Store.{
  StoredGenesis, new_repository, find, commit_stored, stored, record_stored, open_stored,
  claim_from, record_first,
}
use ponswars.Genesis.Flow.{
  GenesisFlowDeps, GenesisCall, asks, looks, calls, reveal, from_chain, reveal_secret, advance,
  record_card, request_of, call, status, request, advance_request, status_of, try_reserve,
  request_first, on_block, open_and_advance, coverage,
}
use ponswars.Genesis.Flow.Genuine.{IsGenuine, Keeps}
use ponswars.Genesis.Flow.Kept.{calls-IsGenuine, claims_kept}

abbrev alice : Text
alice = codes "0x1111111111111111111111111111111111111111"

abbrev block_hash : Text
block_hash = codes "0x00000000000000000000000000000000000000000000000000000000000000AB"

-- Before the block is final, and after it.
abbrev waits : GenesisFlowDeps
waits = record {
  head_block = ok 90;
  finalized_block = λ n. ok none;
  war_balance_of = λ w. ok 2_000_000;
  war_decimals = 0;
  secret_vault = none;
  now = λ m. 7;
}

abbrev final : GenesisFlowDeps
final = record waits { finalized_block = λ n. ok (some (record { number = n; hash = block_hash })) }

abbrev two_calls : List GenesisCall
two_calls = asks alice waits ∷ looks alice final ∷ []

abbrev held : Option StoredGenesis → StoredGenesis
held (some s) = s
held none = record {
  request = record {
    request_id = [];
    wallet = [];
    state = pending;
    entropy_target_block = 0;
    entropy_block_hash = none;
    requested_at = 0;
    committed_at = none;
  };
  claim = none;
}

abbrev alice_entry : StoredGenesis
alice_entry = held (find alice (calls toy_hashing 3 two_calls new_repository))

alice_has_card : find alice (calls toy_hashing 3 two_calls new_repository) ≡ some alice_entry
unfolding calls advance advance_request all_digits all_hex assign base_units_of big_endian call
    can_transition_genesis_request card_for cards_of_rarity check_eligibility chosen_card claim_from
    commit_entropy commit_stored coverage derive_genesis_seed digits_from draw_below draw_in
    finalize_genesis find fraction_of from_chain genesis_request_id has_nonzero hex_bytes hex_digit
    hex_text hex_value initial_uses_for is_block_hash is_digit is_hex_digit is_whole length_prefixed
    lookup new_prng next_below next_byte next_bytes normalize_hex normalize_seed_hex on_block
    open_and_advance open_request open_stored pad_end pad_start parse_decimal_to_base_units
    parse_int range_of rarity_for_slot read_big_endian record_card record_first record_stored refill
    request request_first request_of resolve_genesis resolve_request resolve_with reveal
    reveal_secret search_slot split_point status status_of stored strip_prefix text_eq to_decimal
    to_lower_char try_reserve war_threshold zeros
alice_has_card = refl

calls-IsGenuine_example : IsGenuine toy_hashing 3 alice alice_entry
calls-IsGenuine_example = calls-IsGenuine toy_hashing 3 two_calls alice alice_entry alice_has_card

claims_kept_example :
    Keeps
      (calls toy_hashing 3 two_calls new_repository)
      (calls toy_hashing 3 (asks alice final ∷ []) (calls toy_hashing 3 two_calls new_repository))
claims_kept_example = claims_kept toy_hashing 3 two_calls (asks alice final ∷ [])
