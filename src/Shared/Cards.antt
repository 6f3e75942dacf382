-- ===== src/Shared/Cards.antt =====
-- packages/shared-types/src/cards.ts: the card pool and the support of each card, in tenths.
use ponswars.Base.{ℕ, List, [], ◌∷◌, Bool, true, false, select, ◌==◌}

pub data Rarity : Type 0 where
  common uncommon rare epic legendary secret : Rarity

pub data CardType : Type 0 where
  reinforcement market_signal supply_drop : CardType
  heavy_reinforcement volume_booster market_amplifier : CardType
  bull_run liquidity_wave pons_surge : CardType
  war_machine triple_engine golden_army market_dominance secret_stock_drop : CardType

abbrev pub card_types : List CardType
card_types =
    reinforcement ∷ market_signal ∷ supply_drop ∷ heavy_reinforcement ∷ volume_booster
    ∷ market_amplifier ∷ bull_run ∷ liquidity_wave ∷ pons_surge ∷ war_machine ∷ triple_engine
    ∷ golden_army ∷ market_dominance ∷ secret_stock_drop ∷ []

pub record SupportTenths : Type 0 where
  pub market : ℕ
  pub volume : ℕ
  pub pons : ℕ
  pub general : ℕ

abbrev tenths : ℕ → ℕ → ℕ → ℕ → SupportTenths
tenths m v p g = record { market = m; volume = v; pons = p; general = g }

-- `CARD_CATALOG[card].support`
abbrev pub card_support : CardType → SupportTenths
card_support reinforcement = tenths 0 0 0 10
card_support market_signal = tenths 10 0 0 0
card_support supply_drop = tenths 0 0 10 0
card_support heavy_reinforcement = tenths 0 0 0 15
card_support volume_booster = tenths 0 15 0 0
card_support market_amplifier = tenths 15 0 0 0
card_support bull_run = tenths 20 0 0 0
card_support liquidity_wave = tenths 0 20 0 0
card_support pons_surge = tenths 0 0 20 0
card_support war_machine = tenths 0 0 0 30
card_support triple_engine = tenths 15 15 15 0
card_support golden_army = tenths 0 0 0 50
card_support market_dominance = tenths 25 25 25 0
card_support secret_stock_drop = tenths 0 0 0 0

-- `CARD_CATALOG[card].rarity`
abbrev pub card_rarity : CardType → Rarity
card_rarity reinforcement = common
card_rarity market_signal = common
card_rarity supply_drop = common
card_rarity heavy_reinforcement = uncommon
card_rarity volume_booster = uncommon
card_rarity market_amplifier = uncommon
card_rarity bull_run = rare
card_rarity liquidity_wave = rare
card_rarity pons_surge = rare
card_rarity war_machine = epic
card_rarity triple_engine = epic
card_rarity golden_army = legendary
card_rarity market_dominance = legendary
card_rarity secret_stock_drop = secret

-- `===` on rarities.
abbrev pub rarity_eq : Rarity → Rarity → Bool
rarity_eq common common = true
rarity_eq uncommon uncommon = true
rarity_eq rare rare = true
rarity_eq epic epic = true
rarity_eq legendary legendary = true
rarity_eq secret secret = true
rarity_eq _ _ = false

unfoldable pub cards_of_rarity : Rarity → List CardType
cards_of_rarity rarity = select (λ card. rarity_eq (card_rarity card) rarity) card_types

-- The place of a card in `CARD_TYPES`, and `===` on cards.
abbrev pub card_tag : CardType → ℕ
card_tag reinforcement = 0
card_tag market_signal = 1
card_tag supply_drop = 2
card_tag heavy_reinforcement = 3
card_tag volume_booster = 4
card_tag market_amplifier = 5
card_tag bull_run = 6
card_tag liquidity_wave = 7
card_tag pons_surge = 8
card_tag war_machine = 9
card_tag triple_engine = 10
card_tag golden_army = 11
card_tag market_dominance = 12
card_tag secret_stock_drop = 13

abbrev pub card_eq : CardType → CardType → Bool
card_eq a b = card_tag a == card_tag b
