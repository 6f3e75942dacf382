-- ===== src/Genesis/Flow.antt =====
-- packages/genesis-service/src/flow.ts: a claim from the request to the card, one call at a time.
pub mod Genuine
pub mod Recorded
pub mod Steps
pub mod Advance
pub mod Kept
use mathlib.Core.Option
use ponswars.Base.{
  ℕ, ◌+◌, ◌^◌, ◌==◌, ◌&&◌, ◌||◌, not, Bool, true, false, List, [], ◌∷◌, ◌++◌, Option, none, some,
  map, length, ltb, leb, if◌then◌else◌, Result, ok, err, range_error, failure, chain_error, ◌>>=◌,
}
use ponswars.Base.Text.{Text, codes}
use ponswars.Base.Dict.{lookup, assign}
use ponswars.Base.Decimal.{to_decimal, pad_start}
use ponswars.Base.Hashing.{Hashing}
use ponswars.Shared.Cards.{Rarity, CardType, secret, rarity_eq}
use ponswars.Shared.Genesis.{GenesisRequestState, pending, committed, finalized, failed}
use ponswars.Genesis.Requests.{
  EligibilityVerdict, eligible, insufficient_war, already_claimed, check_eligibility, war_threshold,
  GenesisRequest, genesis_request_id, open_request, Block, commit_entropy, ResolvedGenesis,
  resolve_request, SecretReservation, RevealableGenesis, FinalizeOutcome, revealable,
  reservation_failed, finalize_genesis,
}
use ponswars.Genesis.Store.{
  GenesisClaim, StoredGenesis, Repository, Flow, open_stored, commit_stored, record_stored, find,
}

pub data ReserveAnswer : Type 0 where
  reserved : SecretReservation → ReserveAnswer
  uncovered : ReserveAnswer

-- What the vault answers during a call; an answer that is an error is a rejected promise.
pub record SecretVault : Type 0 where
  pub is_covered : Result Bool
  pub reserve : Text → Result ReserveAnswer

-- The instants at which a call may read its clock.
pub data Moment : Type 0 where
  opening committing finalizing : Moment

-- What the chain, the token, the vault and the clock answer during one call.
pub record GenesisFlowDeps : Type 0 where
  pub head_block : Result ℕ
  pub finalized_block : ℕ → Result (Option Block)
  pub war_balance_of : Text → Result ℕ
  pub war_decimals : ℕ
  pub secret_vault : Option SecretVault
  pub now : Moment → ℕ

pub data GenesisStatus : Type 0 where
  not_asked : GenesisStatus
  not_eligible_balance : (balance threshold decimals : ℕ) → GenesisStatus
  pending_finality : (request_id : Text) (target_block : ℕ) → GenesisStatus
  secret_reservation_pending : (request_id : Text) → GenesisStatus
  ready : GenesisClaim → GenesisStatus
  claimed_before : GenesisClaim → GenesisStatus

abbrev pub entropy_target_distance : ℕ
entropy_target_distance = 10

-- `fromChain`: whatever the read throws is a `GenesisChainError`.
unfoldable pub from_chain {ℓ} : {A : Type ℓ} → Result A → Result A
from_chain (ok a) = ok a
from_chain (err e) = err chain_error

-- Goes on from a computed value, and from what a call of the repository returned.
abbrev pub on_value : {A B : Type 0} → Result A → (A → Flow B) → Flow B
on_value (ok a) rest repository = rest a repository
on_value (err e) rest repository = (err e, repository)

abbrev pub on_call : {A B : Type 0} → Result A × Repository → (A → Flow B) → Result B × Repository
on_call (ok a, after) rest = rest a after
on_call (err e, after) rest = (err e, after)

-- Records a card that is finalized, or holds it back.
unfoldable pub record_card : ResolvedGenesis → ℕ → Option SecretReservation → Flow GenesisStatus
record_card card at reservation =
    on_value (finalize_genesis card at reservation) (λ outcome repository. elim outcome [
      | reservation_failed request ↦
          (ok (secret_reservation_pending card.request.request_id), repository)
      | revealable result request ↦
          on_call (record_stored (find request.wallet repository) request result repository)
            (λ claim after. (ok (ready claim), after))
    ])

-- `reserve`, where a vault that throws, and no vault at all, reserve nothing.
unfoldable pub try_reserve : Option SecretVault → Text → Option ReserveAnswer
try_reserve none wallet = none
try_reserve (some vault) wallet = elim (vault.reserve wallet) [
  | ok answer ↦ some answer
  | err e ↦ none
]

-- What a Secret does with the answer of the vault.
unfoldable pub reveal_secret :
    Hashing
    → ℕ
    → GenesisFlowDeps
    → ResolvedGenesis
    → Bool
    → Option ReserveAnswer
    → Flow GenesisStatus
reveal_secret hashing fuel deps resolved already_committed none repository =
    let held = ok (secret_reservation_pending resolved.request.request_id) in
    if already_committed
    then (held, repository)
    else on_call
        (commit_stored (find resolved.request.wallet repository) resolved.request repository)
        (λ _ after. (held, after))
reveal_secret hashing fuel deps resolved already_committed (some uncovered) repository =
    on_value (resolve_request hashing fuel resolved.request false)
      (λ card. record_card card (deps.now finalizing) none) repository
reveal_secret hashing fuel deps resolved already_committed (some (reserved reservation))
      repository =
    record_card resolved (deps.now finalizing) (some reservation) repository

unfoldable pub reveal : Hashing → ℕ → GenesisFlowDeps → ResolvedGenesis → Bool → Flow GenesisStatus
unfolding try_reserve
reveal hashing fuel deps resolved already_committed repository =
    if rarity_eq resolved.outcome.rarity secret
    then reveal_secret hashing fuel deps resolved already_committed
        (try_reserve deps.secret_vault resolved.request.wallet) repository
    else record_card resolved (deps.now finalizing) none repository

-- Whether a Secret may be dealt, read at the moment of the resolution.
unfoldable pub coverage : Option SecretVault → Result Bool
coverage none = ok false
coverage (some vault) = from_chain vault.is_covered

-- The block of a request, and the card once it is finalized.
unfoldable pub on_block :
    Hashing → ℕ → GenesisFlowDeps → GenesisRequest → Option Block → Flow GenesisStatus
unfolding coverage
on_block hashing fuel deps request none = λ repository.
    (ok (pending_finality request.request_id request.entropy_target_block), repository)
on_block hashing fuel deps request (some block) =
    on_value (commit_entropy request block (deps.now committing)) λ bound.
      on_value (coverage deps.secret_vault) λ secret_available.
        on_value (resolve_request hashing fuel bound secret_available)
          λ resolved. reveal hashing fuel deps resolved false

unfoldable pub advance_request :
    Hashing → ℕ → GenesisFlowDeps → GenesisRequest → GenesisRequestState → Flow GenesisStatus
advance_request hashing fuel deps request committed =
    on_value (resolve_request hashing fuel request true)
      λ resolved. reveal hashing fuel deps resolved true
advance_request hashing fuel deps request pending =
    on_value (from_chain (deps.finalized_block request.entropy_target_block))
      λ block. on_block hashing fuel deps request block
advance_request hashing fuel deps request finalized = λ repository. (err failure, repository)
advance_request hashing fuel deps request failed = λ repository. (err failure, repository)

unfoldable pub advance :
    Hashing → ℕ → GenesisFlowDeps → GenesisRequest → Option GenesisClaim → Flow GenesisStatus
unfolding advance_request
advance hashing fuel deps request (some claim) repository = (ok (ready claim), repository)
advance hashing fuel deps request none repository =
    advance_request hashing fuel deps request request.state repository

unfoldable pub claim_of : Text → Repository → Option GenesisClaim
claim_of wallet repository = elim (find wallet repository) [
  | none ↦ none
  | some found ↦ found.claim
]

unfoldable pub status_of : Hashing → ℕ → GenesisFlowDeps → Option StoredGenesis → Flow GenesisStatus
status_of hashing fuel deps none repository = (ok not_asked, repository)
status_of hashing fuel deps (some found) repository =
    advance hashing fuel deps found.request found.claim repository

unfoldable pub status : Hashing → ℕ → GenesisFlowDeps → Text → Flow GenesisStatus
status hashing fuel deps wallet repository =
    status_of hashing fuel deps (find wallet repository) repository

-- Opens the one request of a wallet, and goes on with the request that the repository holds.
unfoldable pub open_and_advance :
    Hashing → ℕ → GenesisFlowDeps → GenesisRequest → Flow GenesisStatus
open_and_advance hashing fuel deps request repository =
    let (held, after) = open_stored (find request.wallet repository) request repository in
    advance hashing fuel deps held none after

unfoldable pub request_first : Hashing → ℕ → GenesisFlowDeps → Text → Flow GenesisStatus
request_first hashing fuel deps wallet =
    on_value (from_chain (deps.war_balance_of wallet)) λ balance.
      on_value
        (check_eligibility (record {
          war_balance = balance;
          war_decimals = deps.war_decimals;
          has_claimed_before = false;
        }))
        λ verdict. elim verdict [
          | eligible ↦ on_value (from_chain deps.head_block) λ head.
              on_value
                (open_request (genesis_request_id wallet) wallet (head + entropy_target_distance)
                  (deps.now opening))
                λ request. open_and_advance hashing fuel deps request
          | _ ↦ on_value (war_threshold deps.war_decimals) λ threshold repository.
              (ok (not_eligible_balance balance threshold deps.war_decimals), repository)
        ]

unfoldable pub request_of :
    Hashing → ℕ → GenesisFlowDeps → Text → Option StoredGenesis → Flow GenesisStatus
request_of hashing fuel deps wallet none = request_first hashing fuel deps wallet
request_of hashing fuel deps wallet (some found) = elim found.claim [
  | some claim ↦ λ repository. (ok (claimed_before claim), repository)
  | none ↦ advance hashing fuel deps found.request none
]

unfoldable pub request : Hashing → ℕ → GenesisFlowDeps → Text → Flow GenesisStatus
request hashing fuel deps wallet repository =
    request_of hashing fuel deps wallet (find wallet repository) repository

-- A call that a wallet makes, with what it is answered.
pub data GenesisCall : Type 0 where
  asks : Text → GenesisFlowDeps → GenesisCall
  looks : Text → GenesisFlowDeps → GenesisCall

-- The repository after one call, and after calls that follow one another.
unfoldable pub call : Hashing → ℕ → GenesisCall → Repository → Repository
call hashing fuel (asks wallet deps) repository = (request hashing fuel deps wallet repository).1
call hashing fuel (looks wallet deps) repository = (status hashing fuel deps wallet repository).1

unfoldable pub calls : Hashing → ℕ → List GenesisCall → Repository → Repository
calls hashing fuel [] repository = repository
calls hashing fuel (c ∷ cs) repository = calls hashing fuel cs (call hashing fuel c repository)
