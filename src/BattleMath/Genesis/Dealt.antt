-- ===== src/BattleMath/Genesis/Dealt.antt =====
-- What a wallet may be dealt (`resolveGenesis` in packages/battle-math/src/genesis-rng.ts).
use ponswars.Base.{
  some-injective, ℕ, zero, suc, ◌^◌, ◌/◌, ◌%◌, ◌≤◌, ◌<◌, ◌==◌, ◌≡◌, ◌⊎◌, refl, inl, inr, List, [],
  ◌∷◌, ◌++◌, Bool, true, false, some, length, get_elem?, select-All, All, map, if◌then◌else◌,
  Result, ok, err, out_of_fuel, throw_if, type_error, >>=-eq-ok, ok-injective, subst, arith, sym,
}
use ponswars.Base.Text.{
  Text, strip_prefix, all_hex, is_empty, is_hex_digit, hex_bytes, to_lower_char,
}
use ponswars.Base.Hashing.{Hashing}
use ponswars.Shared.Cards.{
  Rarity, CardType, card_rarity, cards_of_rarity, card_types, rarity_eq, common,
}
use ponswars.Shared.Genesis.{rarity_for_slot, rng_slot_count, genesis_domain_separator}
use ponswars.Shared.Genesis.Bands.{InBand, band_of, band_of-InBand, rarity_for_slot_iff}
use ponswars.BattleMath.Prng.{DeterministicPrng, hex_digit, hex_text, new_prng, normalize_seed_hex}
use ponswars.BattleMath.Prng.Draws.{get_elem?_within, next_below_gives}
use ponswars.BattleMath.Genesis.{
  GenesisSeedInput, GenesisOutcome, genesis_card_domain, normalize_hex, length_prefixed,
  derive_genesis_seed, draw_in, card_for, chosen_card, resolve_genesis, rarity_table_funded,
  rarity_table_secret_disabled,
}

hex_digit-hex : (v : ℕ) → v < 16 → is_hex_digit (hex_digit v) ≡ true
unfolding hex_digit is_hex_digit
hex_digit-hex v h = ground arith

all_hex-hex_text : (bs : List ℕ) → All (λ b. b < 256) bs → all_hex (hex_text bs) ≡ true
unfolding all_hex hex_text
all_hex-hex_text [] h = refl
all_hex-hex_text (b ∷ bs) (l, h) =
    rw (hex_digit-hex (b / 16) (omega arith), hex_digit-hex (b % 16) (omega arith))
      (all_hex-hex_text bs h)

even-hex_text : (bs : List ℕ) → (length (hex_text bs) % 2 == 0) ≡ true
unfolding hex_text
even-hex_text [] = refl
even-hex_text (b ∷ bs) = ground (arith, even-hex_text bs)

strip_prefix-hex_text :
    (b : ℕ) (bs : List ℕ) → b < 256 → strip_prefix (hex_text (b ∷ bs)) ≡ hex_text (b ∷ bs)
unfolding hex_text hex_digit strip_prefix
strip_prefix-hex_text b bs h = ground arith

-- The digits of a digest are a seed of the generator.
normalize-hex_text :
    (b : ℕ) (bs : List ℕ)
    → All (λ b. b < 256) (b ∷ bs)
    → normalize_seed_hex (hex_text (b ∷ bs)) ≡ ok (map to_lower_char (hex_text (b ∷ bs)))
unfolding normalize_seed_hex
normalize-hex_text b bs a =
    rw (strip_prefix-hex_text b bs a.0, all_hex-hex_text (b ∷ bs) a, even-hex_text (b ∷ bs))
      (unfold hex_text in refl)

new_prng-hex_text :
    (bs : List ℕ) (domain : Text)
    → is_empty domain ≡ false
    → All (λ b. b < 256) bs
    → 1 ≤ length bs
    → (p : DeterministicPrng) × (new_prng (hex_text bs) domain ≡ ok p) × (p.counter ≡ 0)
unfolding new_prng
new_prng-hex_text [] domain n a l = absurd (omega arith)
new_prng-hex_text (b ∷ bs) domain n a l = (
  record {
    seed = hex_bytes (map to_lower_char (hex_text (b ∷ bs)));
    domain = domain;
    counter = 0;
    block = [];
    offset = 0;
  },
  rw (n, normalize-hex_text b bs a) refl,
  refl,
)

-- A draw from a stream that a digest seeds ends below its bound, or with its fuel.
abbrev Draws : ℕ → Result ℕ → Type 0
Draws bound drawn = ((v : ℕ) × (drawn ≡ ok v) × (v < bound)) ⊎ (drawn ≡ err out_of_fuel)

draw_in-Draws :
    (h : Hashing) (fuel : ℕ) (bs : List ℕ) (domain : Text) (bound : ℕ)
    → is_empty domain ≡ false
    → All (λ b. b < 256) bs
    → 1 ≤ length bs
    → 0 < bound
    → bound < 2 ^ 53
    → fuel ≤ 2 ^ 60
    → Draws bound (draw_in h fuel (hex_text bs) domain bound)
unfolding draw_in
draw_in-Draws h fuel bs domain bound n a l b s f =
    let (p, e, z) = new_prng-hex_text bs domain n a l in
    rw e (elim (next_below_gives h fuel bound p b s z f) [
      | inl (v, q, g, k) ↦ inl (v, rw g refl, k)
      | inr g ↦ inr (rw g refl)
    ])

module _ {A : Type 0} where
  All-get_elem? :
      (P : A → Type 0) (xs : List A) (i : ℕ) {x : A} → All P xs → get_elem? xs i ≡ some x → P x
  All-get_elem? P [] i a h = cc
  All-get_elem? P (y ∷ ys) zero (a, rest) h = subst P (some-injective h) a
  All-get_elem? P (y ∷ ys) (suc i) (a, rest) h = All-get_elem? P ys i rest h

rarity_eq→eq : (a b : Rarity) → rarity_eq a b ≡ true → a ≡ b
rarity_eq→eq common b h = ground arith
rarity_eq→eq _ b h = ground arith

of_rarity_All : (r : Rarity) → All (λ c. rarity_eq (card_rarity c) r ≡ true) (cards_of_rarity r)
unfolding cards_of_rarity
of_rarity_All r = select-All (λ c. rarity_eq (card_rarity c) r) card_types

cards_of_rarity_pos :
    (r : Rarity) → (0 < length (cards_of_rarity r)) × (length (cards_of_rarity r) < 2 ^ 53)
unfolding cards_of_rarity
cards_of_rarity_pos common = omega arith
cards_of_rarity_pos _ = omega arith

-- The card is one of the rarity, or the fuel ended.
card_for_gives :
    (h : Hashing) (fuel : ℕ) (bs : List ℕ) (r : Rarity)
    → All (λ b. b < 256) bs
    → 1 ≤ length bs
    → fuel ≤ 2 ^ 60
    → ((c : CardType) × (card_for h fuel (hex_text bs) r ≡ ok c) × (card_rarity c ≡ r))
      ⊎ (card_for h fuel (hex_text bs) r ≡ err out_of_fuel)
unfolding card_for chosen_card
card_for_gives h fuel bs r a l f =
    let (some_cards, few) = cards_of_rarity_pos r in
    let n : (length (cards_of_rarity r) == 0) ≡ false = ground arith in
    rw n
      (elim (draw_in-Draws h fuel bs genesis_card_domain (length (cards_of_rarity r)) refl a l
        some_cards few f) [
          | inl (v, e, b) ↦
              let (c, g) = get_elem?_within (cards_of_rarity r) v b in
              let k =
                All-get_elem? (λ c. rarity_eq (card_rarity c) r ≡ true) (cards_of_rarity r) v
                  (of_rarity_All r) g in
              inl (c, rw (e, g) refl, rarity_eq→eq _ _ k)
          | inr e ↦ inr (rw e refl)
        ])

-- An outcome that the slot table and the card pool allow.
pub record IsDealt (seed : Text) (available : Bool) (o : GenesisOutcome) : Type 0 where
  pub slot_below : o.slot < rng_slot_count
  pub in_band : InBand available o.rarity o.slot
  pub of_rarity : card_rarity o.card_type ≡ o.rarity
  pub same_seed : o.seed ≡ seed
  pub same_availability : o.secret_available ≡ available
  pub same_version :
      o.rarity_table_version
      ≡ (if available then rarity_table_funded else rarity_table_secret_disabled)

-- A digest.
digest_of : (h : Hashing) (m : List ℕ) → All (λ b. b < 256) (h.sha256 m) × (1 ≤ length (h.sha256 m))
digest_of h m = (h.digest_bytes m, omega (arith, h.digest_length m))

-- A seed that was derived is the text of a digest.
derive_genesis_seed-digest :
    (h : Hashing) (input : GenesisSeedInput) {seed : Text}
    → derive_genesis_seed h input ≡ ok seed
    → (bs : List ℕ) × (seed ≡ hex_text bs) × All (λ b. b < 256) bs × (1 ≤ length bs)
unfolding derive_genesis_seed
derive_genesis_seed-digest h input e =
    let (block, b, f) = >>=-eq-ok (normalize_hex input.finalized_block_hash) _ e in
    let (wallet, w, g) = >>=-eq-ok (normalize_hex input.wallet) _ f in
    let (checked, c, i) = >>=-eq-ok (throw_if (is_empty input.request_id) type_error) _ g in
    let (fields, l, k) =
      >>=-eq-ok
        (length_prefixed (hex_bytes block ∷ hex_bytes wallet ∷ h.utf8 input.request_id ∷ [])) _ i in
    let (a, l') = digest_of h (h.utf8 genesis_domain_separator ++ fields) in
    (_, sym (ok-injective k), a, l')

-- The card of a wallet whose inputs have a seed. Its slot lies below a million and in the band of its
-- rarity, the card is one of that rarity, and the outcome names the seed, the availability and the
-- table of that availability. The one other end is that the fuel of a draw runs out; no draw falls
-- outside its range, and the two errors that the source calls unreachable are not returned.
pub resolve_genesis-IsDealt :
    (hashing : Hashing) (fuel : ℕ) (input : GenesisSeedInput) (available : Bool) {seed : Text}
    → derive_genesis_seed hashing input ≡ ok seed
    → fuel ≤ 2 ^ 60
    → ((o : GenesisOutcome) × (resolve_genesis hashing fuel input available ≡ ok o)
        × IsDealt seed available o)
      ⊎ (resolve_genesis hashing fuel input available ≡ err out_of_fuel)
unfolding resolve_genesis
resolve_genesis-IsDealt h fuel input available e f =
    let (bs, t, a, l) = derive_genesis_seed-digest h input e in
    let e' : derive_genesis_seed h input ≡ ok (hex_text bs) = rw t at e in
    rw (e', t)
      (elim (draw_in-Draws h fuel bs genesis_domain_separator rng_slot_count refl a l (omega arith)
        (omega arith) f) [
          | inr d ↦ inr (rw d refl)
          | inl (slot, d, b) ↦
              let r = band_of available slot in
              let band = band_of-InBand slot available b in
              let g : rarity_for_slot slot available ≡ ok r =
                (rarity_for_slot_iff slot available r).1 band in
              elim (card_for_gives h fuel bs r a l f) [
                | inr c ↦ inr (rw (d, g, c) refl)
                | inl (card, c, k) ↦ inl (
                  record {
                    slot = slot;
                    rarity = r;
                    card_type = card;
                    seed = hex_text bs;
                    secret_available = available;
                    rarity_table_version =
                        if available then rarity_table_funded else rarity_table_secret_disabled;
                  },
                  rw (d, g, c) refl,
                  record {
                    slot_below = b;
                    in_band = band;
                    of_rarity = k;
                    same_seed = refl;
                    same_availability = refl;
                    same_version = refl;
                  },
                )
              ]
        ])
