-- ===== src/BattleMath/Prng.antt =====
-- packages/battle-math/src/prng.ts: the byte stream behind every draw of the battle mathematics.
pub mod Shuffle
pub mod Draws
use ponswars.Base.{
  ℕ, zero, suc, ◌+◌, ◌-◌, ◌*◌, ◌/◌, ◌%◌, ◌^◌, ◌==◌, ◌||◌, not, Bool, List, [], ◌∷◌, ◌++◌, Option,
  none, some, map, length, get_elem?, set_at, ltb, leb, if◌then◌else◌, Result, ok, err, range_error,
  type_error, failure, out_of_fuel, ◌>>=◌, throw_if, ◌>>◌,
}
use ponswars.Base.Text.{Text, codes, is_empty, all_hex, hex_bytes, to_lower_char, strip_prefix}
use ponswars.Base.Hashing.{Hashing}

unfoldable pub normalize_seed_hex : Text → Result Text
normalize_seed_hex seed_hex =
    let without_prefix = strip_prefix seed_hex in
    if is_empty without_prefix || not (all_hex without_prefix)
    then err type_error
    else if not (length without_prefix % 2 == 0)
    then err type_error
    else ok (map to_lower_char without_prefix)

-- The private fields of `DeterministicPrng`.
pub record DeterministicPrng : Type 0 where
  pub seed : List ℕ
  pub domain : Text
  pub counter : ℕ
  pub block : List ℕ
  pub offset : ℕ

unfoldable pub new_prng : Text → Text → Result DeterministicPrng
new_prng seed_hex domain =
    if is_empty domain
    then err type_error
    else (normalize_seed_hex seed_hex >>= λ seed.
        ok (record { seed = hex_bytes seed; domain = domain; counter = 0; block = []; offset = 0 }))

-- `writeBigUInt64BE`: eight bytes, the most significant first, and a throw past their range.
unfoldable pub big_endian : ℕ → ℕ → List ℕ
big_endian zero n = []
big_endian (suc k) n = (n / 256 ^ k % 256) ∷ big_endian k n

unfoldable pub refill : Hashing → DeterministicPrng → Result DeterministicPrng
unfolding big_endian
refill hashing prng =
    if leb (2 ^ 64) prng.counter
    then err range_error
    else ok (record {
      seed = prng.seed;
      domain = prng.domain;
      counter = prng.counter + 1;
      block = hashing.sha256 (hashing.utf8 prng.domain ++ (prng.seed ++ big_endian 8 prng.counter));
      offset = 0;
    })

-- The byte at the offset of the block.
take_byte : DeterministicPrng → Option ℕ → Result (ℕ × DeterministicPrng)
take_byte prng none = err failure
take_byte prng (some byte) = ok (
  byte,
  record {
    seed = prng.seed;
    domain = prng.domain;
    counter = prng.counter;
    block = prng.block;
    offset = prng.offset + 1;
  },
)

unfoldable pub next_byte : Hashing → DeterministicPrng → Result (ℕ × DeterministicPrng)
unfolding refill take_byte
next_byte hashing prng =
    (if leb (length prng.block) prng.offset then refill hashing prng else ok prng) >>= λ ready.
    take_byte ready (get_elem? ready.block ready.offset)

unfoldable pub next_bytes : Hashing → ℕ → DeterministicPrng → Result (List ℕ × DeterministicPrng)
unfolding next_byte
next_bytes hashing zero prng = ok ([], prng)
next_bytes hashing (suc count) prng = next_byte hashing prng >>= λ (byte, after_byte).
    next_bytes hashing count after_byte >>= λ (bytes, after). ok (byte ∷ bytes, after)

-- `readUInt32BE`, on the four bytes read.
unfoldable pub read_big_endian : ℕ → List ℕ → ℕ
read_big_endian value [] = value
read_big_endian value (byte ∷ bytes) = read_big_endian (256 * value + byte) bytes

-- The loop that rejects values past the limit, with one unit of fuel for each draw.
unfoldable pub draw_below : Hashing → ℕ → ℕ → ℕ → DeterministicPrng → Result (ℕ × DeterministicPrng)
unfolding next_bytes read_big_endian
draw_below hashing zero limit bound prng = err out_of_fuel
draw_below hashing (suc fuel) limit bound prng = next_bytes hashing 4 prng >>= λ (bytes, after).
    let again = draw_below hashing fuel limit bound after in
    let value = read_big_endian 0 bytes in
    if ltb value limit then ok (value % bound, after) else again

-- A bound past the safe integers is refused.
unfoldable pub next_below : Hashing → ℕ → ℕ → DeterministicPrng → Result (ℕ × DeterministicPrng)
unfolding draw_below
next_below hashing fuel bound prng =
    if leb (2 ^ 53) bound || (bound == 0)
    then err range_error
    else if bound == 1
    then ok (0, prng)
    else draw_below hashing fuel (2 ^ 32 - 2 ^ 32 % bound) bound prng

module _ {ℓ} {A : Type ℓ} where
  -- `out[i] = b; out[j] = a` for the two entries at `i` and `j`.
  swap_found : List A → ℕ → ℕ → Option A → Option A → Result (List A)
  swap_found out i j none b = err failure
  swap_found out i j (some a) none = err failure
  swap_found out i j (some a) (some b) = ok (set_at (set_at out i b) j a)

  -- The loop of `shuffle`, from the index `i` down to one.
  unfoldable pub shuffle_from :
      Hashing → ℕ → ℕ → List A → DeterministicPrng → Result (List A × DeterministicPrng)
  unfolding next_below swap_found
  shuffle_from hashing fuel zero out prng = ok (out, prng)
  shuffle_from hashing fuel (suc i) out prng =
      next_below hashing fuel (suc i + 1) prng >>= λ (j, after).
      swap_found out (suc i) j (get_elem? out (suc i)) (get_elem? out j) >>= λ swapped.
      shuffle_from hashing fuel i swapped after

  unfoldable pub shuffle :
      Hashing → ℕ → List A → DeterministicPrng → Result (List A × DeterministicPrng)
  unfolding shuffle_from
  shuffle hashing fuel items prng = shuffle_from hashing fuel (length items - 1) items prng

-- The 64 digits of the digest, in lower case.
unfoldable pub hex_digit : ℕ → ℕ
hex_digit v = if ltb v 10 then b'0' + v else b'a' + (v - 10)

unfoldable pub hex_text : List ℕ → Text
unfolding hex_digit
hex_text [] = []
hex_text (byte ∷ bytes) = hex_digit (byte / 16) ∷ (hex_digit (byte % 16) ∷ hex_text bytes)

unfoldable pub derive_round_seed : Hashing → Text → Text → Result Text
unfolding hex_text
derive_round_seed hashing base_seed_hex round_id =
    throw_if (is_empty round_id) type_error
    >> (normalize_seed_hex base_seed_hex >>= λ seed. ok (
        hex_text (
          hashing.sha256 (
            hashing.utf8 (codes "PONSWARS_ROUND_SEED_V1")
            ++ (hex_bytes seed ++ hashing.utf8 round_id)))))
