-- ===== src/BattleMath/GenesisTests.antt =====
-- A draw on a concrete input.
use ponswars.Base.{◌≡◌, ◌⊎◌, refl, true, Result, ok, err, out_of_fuel, arith}
use ponswars.Base.Text.{Text, codes, all_hex, hex_bytes, strip_prefix}
use ponswars.Base.Toy.{toy_hashing}
use ponswars.BattleMath.Genesis.{
  GenesisSeedInput, GenesisOutcome, derive_genesis_seed, resolve_genesis,
}
use ponswars.BattleMath.Genesis.Dealt.{IsDealt, resolve_genesis-IsDealt}

abbrev draw_input : GenesisSeedInput
draw_input = record {
  finalized_block_hash = codes "0xab01";
  wallet = codes "0x1111111111111111111111111111111111111111";
  request_id = codes "genesis-1";
}

abbrev text_of : Result Text → Text
text_of (ok t) = t
text_of (err e) = codes ""

abbrev draw_seed : Text
draw_seed = text_of (derive_genesis_seed toy_hashing draw_input)

has_seed : derive_genesis_seed toy_hashing draw_input ≡ ok draw_seed
unfolding all_hex derive_genesis_seed hex_bytes strip_prefix
has_seed = refl

draw_example :
    ((o : GenesisOutcome) × (resolve_genesis toy_hashing 3 draw_input true ≡ ok o)
      × IsDealt draw_seed true o)
    ⊎ (resolve_genesis toy_hashing 3 draw_input true ≡ err out_of_fuel)
draw_example = resolve_genesis-IsDealt toy_hashing 3 draw_input true has_seed (omega arith)
