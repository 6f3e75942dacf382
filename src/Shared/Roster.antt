-- ===== src/Shared/Roster.antt =====
-- packages/shared-types/src/roster.ts: the ten active stocks and the reserve.
pub mod Names
use ponswars.Base.{
  ℕ, ◌≡◌, refl, ap, sym, ◌∙◌, ◌↔◌, Bool, true, List, [], ◌∷◌, ◌==◌, ◌||◌, any, ltb, arith, zero,
  suc,
}
use ponswars.Base.Text.{Text, codes, text_eq}

pub data ActiveTicker : Type 0 where
  nvda aapl msft tsla gme meta amzn googl amd spy : ActiveTicker

abbrev pub active_tickers : List ActiveTicker
active_tickers = nvda ∷ aapl ∷ msft ∷ tsla ∷ gme ∷ meta ∷ amzn ∷ googl ∷ amd ∷ spy ∷ []

-- The place of a ticker in the order of the strings that name them.
abbrev pub rank : ActiveTicker → ℕ
rank aapl = 0
rank amd = 1
rank amzn = 2
rank gme = 3
rank googl = 4
rank meta = 5
rank msft = 6
rank nvda = 7
rank spy = 8
rank tsla = 9

abbrev of_rank : ℕ → ActiveTicker
of_rank zero = aapl
of_rank (suc zero) = amd
of_rank (suc (suc zero)) = amzn
of_rank (suc (suc (suc zero))) = gme
of_rank (suc (suc (suc (suc zero)))) = googl
of_rank (suc (suc (suc (suc (suc zero))))) = meta
of_rank (suc (suc (suc (suc (suc (suc zero)))))) = msft
of_rank (suc (suc (suc (suc (suc (suc (suc zero))))))) = nvda
of_rank (suc (suc (suc (suc (suc (suc (suc (suc zero)))))))) = spy
of_rank (suc (suc (suc (suc (suc (suc (suc (suc (suc n))))))))) = tsla

-- `a === b` and `a < b` on tickers.
abbrev pub ticker_eq : ActiveTicker → ActiveTicker → Bool
ticker_eq a b = rank a == rank b

abbrev pub ticker_lt : ActiveTicker → ActiveTicker → Bool
ticker_lt a b = ltb (rank a) (rank b)

of_rank-rank : (t : ActiveTicker) → of_rank (rank t) ≡ t
of_rank-rank nvda = refl
of_rank-rank aapl = refl
of_rank-rank msft = refl
of_rank-rank tsla = refl
of_rank-rank gme = refl
of_rank-rank meta = refl
of_rank-rank amzn = refl
of_rank-rank googl = refl
of_rank-rank amd = refl
of_rank-rank spy = refl

pub rank-injective : (a b : ActiveTicker) → rank a ≡ rank b → a ≡ b
rank-injective a b h = sym (of_rank-rank a) ∙ ap of_rank h ∙ of_rank-rank b

pub ticker_eq_iff : (a b : ActiveTicker) → (ticker_eq a b ≡ true) ↔ (a ≡ b)
ticker_eq_iff a b = (λ h. rank-injective a b (ground arith), λ e. ground (arith, ap rank e))

-- The string that a ticker is.
abbrev pub ticker_text : ActiveTicker → Text
ticker_text nvda = codes "NVDA"
ticker_text aapl = codes "AAPL"
ticker_text msft = codes "MSFT"
ticker_text tsla = codes "TSLA"
ticker_text gme = codes "GME"
ticker_text meta = codes "META"
ticker_text amzn = codes "AMZN"
ticker_text googl = codes "GOOGL"
ticker_text amd = codes "AMD"
ticker_text spy = codes "SPY"

abbrev reserve_tickers : List Text
reserve_tickers = codes "COIN" ∷ codes "PLTR" ∷ codes "NFLX" ∷ codes "QQQ" ∷ []

unfoldable pub is_active_ticker : Text → Bool
is_active_ticker value = any (λ t. text_eq (ticker_text t) value) active_tickers

unfoldable pub is_reserve_ticker : Text → Bool
is_reserve_ticker value = any (λ t. text_eq t value) reserve_tickers

unfoldable pub is_ticker : Text → Bool
unfolding is_active_ticker is_reserve_ticker
is_ticker value = is_active_ticker value || is_reserve_ticker value
