-- ===== src/BattleEngine/Evidence.antt =====
-- packages/battle-engine/src/evidence.ts and versions.ts: the hash chain over the ticks of a battle.
use ponswars.Base.{ℕ, zero, suc, List, [], ◌∷◌, ◌++◌, map}
use ponswars.Base.Int.{ℤ, pos, negsuc}
use ponswars.Base.Text.{Text, codes}
use ponswars.Base.Hashing.{Hashing}
use ponswars.Shared.Labels.{FeedHealth, healthy, degraded, stale, unavailable}
use ponswars.BattleMath.Scoring.{SideInputs}
use ponswars.BattleMath.Prng.{hex_text}
use ponswars.Base.Decimal.{to_decimal}

repeat : ℕ → ℕ → Text
repeat zero c = []
repeat (suc n) c = c ∷ repeat n c

unfoldable pub empty_evidence : Text
unfolding repeat
empty_evidence = repeat 64 b'0'

-- `value.toString()` of a bigint.
unfoldable pub text_of_ℤ : ℤ → Text
text_of_ℤ (pos n) = to_decimal n
text_of_ℤ (negsuc n) = b'-' ∷ to_decimal (suc n)

-- `join(separator)`
unfoldable pub join : ℕ → List Text → Text
join separator [] = []
join separator (x ∷ []) = x
join separator (x ∷ (y ∷ rest)) = x ++ (separator ∷ join separator (y ∷ rest))

unfoldable pub encode_side : SideInputs → Text
encode_side side = join b',' (
    map text_of_ℤ (
      side.window_return ∷ side.volatility ∷ side.relative_volume ∷ side.qualified_pons_activity
      ∷ side.unique_active_wallets ∷ side.card_support.market ∷ side.card_support.volume
      ∷ side.card_support.pons ∷ side.card_support.general ∷ []))

pub record EvidenceTick : Type 0 where
  pub sequence : ℕ
  pub at : ℕ
  pub left : SideInputs
  pub right : SideInputs
  pub left_health : FeedHealth
  pub right_health : FeedHealth
  pub left_score_scaled : ℤ
  pub right_score_scaled : ℤ

abbrev health_text : FeedHealth → Text
health_text healthy = codes "HEALTHY"
health_text degraded = codes "DEGRADED"
health_text stale = codes "STALE"
health_text unavailable = codes "UNAVAILABLE"

unfoldable pub payload_of : EvidenceTick → Text
payload_of tick = join b'|' (
    to_decimal tick.sequence
    ∷ to_decimal tick.at
    ∷ encode_side tick.left
    ∷ encode_side tick.right
    ∷ health_text tick.left_health
    ∷ health_text tick.right_health
    ∷ text_of_ℤ tick.left_score_scaled
    ∷ text_of_ℤ tick.right_score_scaled
    ∷ [])

unfoldable pub fold_evidence : Hashing → Text → EvidenceTick → Text
fold_evidence hashing previous tick = hex_text (
    hashing.sha256 (
      hashing.utf8 (codes "PONSWARS_EVIDENCE_V1")
      ++ (hashing.utf8 previous ++ hashing.utf8 (payload_of tick))))

pub record EngineVersions : Type 0 where
  pub scoring : Text
  pub normalization : Text
  pub pons_qualification : Text
  pub baseline_dataset : Text
  pub card_aggregation : Text

unfoldable pub version_tag : EngineVersions → Text
version_tag versions = join b'+' (
    versions.scoring ∷ versions.normalization ∷ versions.pons_qualification
    ∷ versions.baseline_dataset ∷ versions.card_aggregation ∷ [])
