-- ===== src/Genesis/Requests.antt =====
-- packages/genesis-service/src/genesis-service.ts: the steps of a claim.
use ponswars.Base.{
  ℕ, ◌^◌, ◌==◌, ◌&&◌, ◌||◌, not, Bool, true, false, [], ◌∷◌, ◌++◌, Option, none, some, map, length,
  ltb, leb, if◌then◌else◌, Result, ok, err, range_error, failure, ◌>>=◌, throw_if, ◌>>◌,
}
use ponswars.Base.Text.{Text, codes, is_empty, all_hex, to_lower_char}
use ponswars.Base.Hashing.{Hashing}
use ponswars.Shared.Cards.{Rarity, CardType, secret, rarity_eq}
use ponswars.Shared.Money.{parse_decimal_to_base_units}
use ponswars.Shared.Genesis.{
  GenesisRequestState, pending, committed, finalized, can_transition_genesis_request,
  request_state_eq, genesis_war_threshold_decimal,
}
use ponswars.BattleMath.Genesis.{GenesisOutcome, resolve_genesis, initial_uses_for}

pub data EligibilityVerdict : Type 0 where
  eligible insufficient_war already_claimed : EligibilityVerdict

pub record EligibilityInput : Type 0 where
  pub war_balance : ℕ
  pub war_decimals : ℕ
  pub has_claimed_before : Bool

unfoldable pub war_threshold : ℕ → Result ℕ
war_threshold decimals = parse_decimal_to_base_units genesis_war_threshold_decimal decimals

unfoldable pub check_eligibility : EligibilityInput → Result EligibilityVerdict
check_eligibility input =
    if input.has_claimed_before
    then ok already_claimed
    else (parse_decimal_to_base_units genesis_war_threshold_decimal input.war_decimals
        >>= λ threshold.
            ok (if ltb input.war_balance threshold then insufficient_war else eligible))

pub record GenesisRequest : Type 0 where
  pub request_id : Text
  pub wallet : Text
  pub state : GenesisRequestState
  pub entropy_target_block : ℕ
  pub entropy_block_hash : Option Text
  pub requested_at : ℕ
  pub committed_at : Option ℕ

unfoldable pub genesis_request_id : Text → Text
genesis_request_id wallet = codes "genesis-" ++ wallet

unfoldable pub open_request : Text → Text → ℕ → ℕ → Result GenesisRequest
open_request request_id wallet target_block at =
    if is_empty request_id
    then err range_error
    else if leb (2 ^ 53) target_block || (target_block == 0)
    then err range_error
    else ok (record {
      request_id = request_id;
      wallet = wallet;
      state = pending;
      entropy_target_block = target_block;
      entropy_block_hash = none;
      requested_at = at;
      committed_at = none;
    })

pub record Block : Type 0 where
  pub number : ℕ
  pub hash : Text

-- `/^0x[0-9a-fA-F]{64}$/`
unfoldable pub is_block_hash : Text → Bool
is_block_hash [] = false
is_block_hash (c ∷ []) = false
is_block_hash (c ∷ (d ∷ digits)) =
    ((c == b'0') && (d == b'x')) && ((length digits == 64) && all_hex digits)

abbrev pub is_some {ℓ} : {A : Type ℓ} → Option A → Bool
is_some none = false
is_some (some a) = true

unfoldable pub commit_entropy : GenesisRequest → Block → ℕ → Result GenesisRequest
unfolding is_block_hash
commit_entropy request block at =
    throw_if (not (can_transition_genesis_request request.state committed)) failure
    >> (throw_if (is_some request.entropy_block_hash) failure
        >> (throw_if (not (block.number == request.entropy_target_block)) failure
            >> (throw_if (not (is_block_hash block.hash)) range_error
                >> ok (record request {
                  state = committed;
                  entropy_block_hash = some (map to_lower_char block.hash);
                  committed_at = some at;
                }))))

pub record ResolvedGenesis : Type 0 where
  pub request : GenesisRequest
  pub outcome : GenesisOutcome
  pub initial_uses : ℕ

-- Resolves with the committed hash, if there is one.
unfoldable pub resolve_with :
    Hashing → ℕ → GenesisRequest → Option Text → Bool → Result ResolvedGenesis
resolve_with hashing fuel request none secret_available = err failure
resolve_with hashing fuel request (some hash) secret_available =
    resolve_genesis hashing fuel
      (record {
        finalized_block_hash = hash;
        wallet = request.wallet;
        request_id = request.request_id;
      })
      secret_available
    >>= λ outcome. ok (record {
      request = request;
      outcome = outcome;
      initial_uses = initial_uses_for outcome.card_type;
    })

unfoldable pub resolve_request : Hashing → ℕ → GenesisRequest → Bool → Result ResolvedGenesis
resolve_request hashing fuel request secret_available =
    throw_if (not (request_state_eq request.state committed)) failure
    >> resolve_with hashing fuel request request.entropy_block_hash secret_available

pub record SecretReservation : Type 0 where
  pub entitlement_id : Text
  pub amount : ℕ
  pub reservation_tx : Text

pub record RevealableGenesis : Type 0 where
  pub wallet : Text
  pub request_id : Text
  pub rarity : Rarity
  pub card_type : CardType
  pub initial_uses : ℕ
  pub slot : ℕ
  pub seed : Text
  pub secret_available : Bool
  pub rarity_table_version : Text
  pub secret_reservation : Option SecretReservation
  pub finalized_at : ℕ

pub data FinalizeOutcome : Type 0 where
  revealable : RevealableGenesis → GenesisRequest → FinalizeOutcome
  reservation_failed : GenesisRequest → FinalizeOutcome

unfoldable pub finalize_genesis :
    ResolvedGenesis → ℕ → Option SecretReservation → Result FinalizeOutcome
finalize_genesis resolved at reservation =
    let is_secret = rarity_eq resolved.outcome.rarity secret in
    if not is_secret && is_some reservation
    then err range_error
    else if is_secret && not (is_some reservation)
    then ok (reservation_failed resolved.request)
    else ok (
        revealable
          (record {
            wallet = resolved.request.wallet;
            request_id = resolved.request.request_id;
            rarity = resolved.outcome.rarity;
            card_type = resolved.outcome.card_type;
            initial_uses = resolved.initial_uses;
            slot = resolved.outcome.slot;
            seed = resolved.outcome.seed;
            secret_available = resolved.outcome.secret_available;
            rarity_table_version = resolved.outcome.rarity_table_version;
            secret_reservation = reservation;
            finalized_at = at;
          })
          (record resolved.request { state = finalized }))
