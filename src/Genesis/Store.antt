-- ===== src/Genesis/Store.antt =====
-- packages/genesis-service/src/memory.ts: the requests and the claims of all wallets.
use mathlib.Core.Option
use ponswars.Base.{ℕ, ◌+◌, Bool, List, [], ◌++◌, Option, none, some, Result, ok, err, failure}
use ponswars.Base.Text.{Text, codes}
use ponswars.Base.Dict.{lookup, assign}
use ponswars.Base.Decimal.{to_decimal, pad_start}
use ponswars.Shared.Cards.{Rarity, CardType}
use ponswars.Shared.Genesis.{pending}
use ponswars.Genesis.Requests.{GenesisRequest, RevealableGenesis}

pub record GenesisClaim : Type 0 where
  pub genesis_id : Text
  pub card_instance_id : Text
  pub wallet : Text
  pub request_id : Text
  pub entropy_block : ℕ
  pub entropy_block_hash : Text
  pub rarity : Rarity
  pub card_type : CardType
  pub initial_uses : ℕ
  pub slot : ℕ
  pub seed : Text
  pub secret_available : Bool
  pub rarity_table_version : Text
  pub secret_reservation_tx : Option Text
  pub finalized_at : ℕ

pub record StoredGenesis : Type 0 where
  pub request : GenesisRequest
  pub claim : Option GenesisClaim

-- The fields of `MemoryGenesisRepository`.
pub record Repository : Type 0 where
  pub records : List (Text × StoredGenesis)
  pub next_number : ℕ

abbrev pub new_repository : Repository
new_repository = record { records = []; next_number = 1 }

unfoldable pub stored : GenesisRequest → Option GenesisClaim → Repository → Repository
stored request claim repository = record repository {
  records = assign request.wallet (record { request = request; claim = claim }) repository.records;
}

-- The methods of the repository, on what it holds for the wallet.
unfoldable pub open_stored :
    Option StoredGenesis → GenesisRequest → Repository → GenesisRequest × Repository
open_stored (some existing) request repository = (existing.request, repository)
open_stored none request repository = (request, stored request none repository)

-- A call changes the repository before it returns or throws.
abbrev pub Flow : Type 0 → Type 0
Flow A = Repository → Result A × Repository

unfoldable pub commit_stored : Option StoredGenesis → GenesisRequest → Flow (Unit {0})
commit_stored none request repository = (err failure, repository)
commit_stored (some existing) request repository = elim existing.request.state [
  | pending ↦ (ok tt, stored request none repository)
  | _ ↦ (err failure, repository)
]

unfoldable pub claim_from : Text → GenesisRequest → Text → RevealableGenesis → GenesisClaim
claim_from genesis_id request hash result = record {
  genesis_id = genesis_id;
  card_instance_id = codes "card-" ++ genesis_id;
  wallet = result.wallet;
  request_id = result.request_id;
  entropy_block = request.entropy_target_block;
  entropy_block_hash = hash;
  rarity = result.rarity;
  card_type = result.card_type;
  initial_uses = result.initial_uses;
  slot = result.slot;
  seed = result.seed;
  secret_available = result.secret_available;
  rarity_table_version = result.rarity_table_version;
  secret_reservation_tx = Option.map (λ r. r.reservation_tx) result.secret_reservation;
  finalized_at = result.finalized_at;
}

-- A first claim is numbered and kept; the hash must be committed.
unfoldable pub record_first : GenesisRequest → Option Text → RevealableGenesis → Flow GenesisClaim
record_first request none result repository = (err failure, repository)
record_first request (some hash) result repository =
    let genesis_id = pad_start 6 (to_decimal repository.next_number) in
    let claim = claim_from genesis_id request hash result in
    (
      ok claim,
      stored request (some claim) (record repository { next_number = repository.next_number + 1 }),
    )

unfoldable pub record_stored :
    Option StoredGenesis → GenesisRequest → RevealableGenesis → Flow GenesisClaim
record_stored none request result repository = (err failure, repository)
record_stored (some existing) request result repository = elim existing.claim [
  | some claim ↦ (ok claim, repository)
  | none ↦ record_first request request.entropy_block_hash result repository
]

unfoldable pub find : Text → Repository → Option StoredGenesis
find wallet repository = lookup wallet repository.records
