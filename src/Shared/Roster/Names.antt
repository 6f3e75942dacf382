-- ===== src/Shared/Roster/Names.antt =====
-- Tickers and the strings that they are (packages/shared-types/src/roster.ts).
use ponswars.Base.{◌≡◌, ◌↔◌, ◌∙◌, refl, sym, ap, inl, inr, true, Bool-cases, List, [], ◌∷◌, any}
use ponswars.Base.Text.{Text, text_eq, text_lt, text_eq_iff}
use ponswars.Shared.Roster.{
  ActiveTicker, nvda, aapl, msft, tsla, gme, meta, amzn, googl, amd, spy, active_tickers, ticker_eq,
  ticker_lt, ticker_eq_iff, ticker_text, is_active_ticker,
}

-- What holds of the ten tickers holds of every ticker.
pub each_ticker :
    (P : ActiveTicker → Type 0)
    → P nvda
    → P aapl
    → P msft
    → P tsla
    → P gme
    → P meta
    → P amzn
    → P googl
    → P amd
    → P spy
    → (t : ActiveTicker) → P t
each_ticker P a b c d e f g h i j nvda = a
each_ticker P a b c d e f g h i j aapl = b
each_ticker P a b c d e f g h i j msft = c
each_ticker P a b c d e f g h i j tsla = d
each_ticker P a b c d e f g h i j gme = e
each_ticker P a b c d e f g h i j meta = f
each_ticker P a b c d e f g h i j amzn = g
each_ticker P a b c d e f g h i j googl = h
each_ticker P a b c d e f g h i j amd = i
each_ticker P a b c d e f g h i j spy = j

-- The order and the equality of tickers are those of their strings.
pub text_lt-ticker_text :
    (a b : ActiveTicker) → text_lt (ticker_text a) (ticker_text b) ≡ ticker_lt a b
unfolding text_lt
text_lt-ticker_text nvda b =
    each_ticker (λ b. text_lt (ticker_text nvda) (ticker_text b) ≡ ticker_lt nvda b) refl refl refl
      refl refl refl refl refl refl refl b
text_lt-ticker_text aapl b =
    each_ticker (λ b. text_lt (ticker_text aapl) (ticker_text b) ≡ ticker_lt aapl b) refl refl refl
      refl refl refl refl refl refl refl b
text_lt-ticker_text msft b =
    each_ticker (λ b. text_lt (ticker_text msft) (ticker_text b) ≡ ticker_lt msft b) refl refl refl
      refl refl refl refl refl refl refl b
text_lt-ticker_text tsla b =
    each_ticker (λ b. text_lt (ticker_text tsla) (ticker_text b) ≡ ticker_lt tsla b) refl refl refl
      refl refl refl refl refl refl refl b
text_lt-ticker_text gme b =
    each_ticker (λ b. text_lt (ticker_text gme) (ticker_text b) ≡ ticker_lt gme b) refl refl refl
      refl refl refl refl refl refl refl b
text_lt-ticker_text meta b =
    each_ticker (λ b. text_lt (ticker_text meta) (ticker_text b) ≡ ticker_lt meta b) refl refl refl
      refl refl refl refl refl refl refl b
text_lt-ticker_text amzn b =
    each_ticker (λ b. text_lt (ticker_text amzn) (ticker_text b) ≡ ticker_lt amzn b) refl refl refl
      refl refl refl refl refl refl refl b
text_lt-ticker_text googl b =
    each_ticker (λ b. text_lt (ticker_text googl) (ticker_text b) ≡ ticker_lt googl b) refl refl
      refl refl refl refl refl refl refl refl b
text_lt-ticker_text amd b =
    each_ticker (λ b. text_lt (ticker_text amd) (ticker_text b) ≡ ticker_lt amd b) refl refl refl
      refl refl refl refl refl refl refl b
text_lt-ticker_text spy b =
    each_ticker (λ b. text_lt (ticker_text spy) (ticker_text b) ≡ ticker_lt spy b) refl refl refl
      refl refl refl refl refl refl refl b

text_eq-ticker_text : (a b : ActiveTicker) → text_eq (ticker_text a) (ticker_text b) ≡ ticker_eq a b
unfolding text_eq
text_eq-ticker_text nvda b =
    each_ticker (λ b. text_eq (ticker_text nvda) (ticker_text b) ≡ ticker_eq nvda b) refl refl refl
      refl refl refl refl refl refl refl b
text_eq-ticker_text aapl b =
    each_ticker (λ b. text_eq (ticker_text aapl) (ticker_text b) ≡ ticker_eq aapl b) refl refl refl
      refl refl refl refl refl refl refl b
text_eq-ticker_text msft b =
    each_ticker (λ b. text_eq (ticker_text msft) (ticker_text b) ≡ ticker_eq msft b) refl refl refl
      refl refl refl refl refl refl refl b
text_eq-ticker_text tsla b =
    each_ticker (λ b. text_eq (ticker_text tsla) (ticker_text b) ≡ ticker_eq tsla b) refl refl refl
      refl refl refl refl refl refl refl b
text_eq-ticker_text gme b =
    each_ticker (λ b. text_eq (ticker_text gme) (ticker_text b) ≡ ticker_eq gme b) refl refl refl
      refl refl refl refl refl refl refl b
text_eq-ticker_text meta b =
    each_ticker (λ b. text_eq (ticker_text meta) (ticker_text b) ≡ ticker_eq meta b) refl refl refl
      refl refl refl refl refl refl refl b
text_eq-ticker_text amzn b =
    each_ticker (λ b. text_eq (ticker_text amzn) (ticker_text b) ≡ ticker_eq amzn b) refl refl refl
      refl refl refl refl refl refl refl b
text_eq-ticker_text googl b =
    each_ticker (λ b. text_eq (ticker_text googl) (ticker_text b) ≡ ticker_eq googl b) refl refl
      refl refl refl refl refl refl refl refl b
text_eq-ticker_text amd b =
    each_ticker (λ b. text_eq (ticker_text amd) (ticker_text b) ≡ ticker_eq amd b) refl refl refl
      refl refl refl refl refl refl refl b
text_eq-ticker_text spy b =
    each_ticker (λ b. text_eq (ticker_text spy) (ticker_text b) ≡ ticker_eq spy b) refl refl refl
      refl refl refl refl refl refl refl b

-- Different tickers are different strings.
pub ticker_text-injective : (a b : ActiveTicker) → ticker_text a ≡ ticker_text b → a ≡ b
ticker_text-injective a b h =
    (ticker_eq_iff a b).0
      (sym (text_eq-ticker_text a b) ∙ (text_eq_iff (ticker_text a) (ticker_text b)).1 h)

found_in :
    (value : Text) (ts : List ActiveTicker)
    → any (λ t. text_eq (ticker_text t) value) ts ≡ true
    → (t : ActiveTicker) × (ticker_text t ≡ value)
found_in value [] h = cc
found_in value (t ∷ ts) h = elim (Bool-cases (text_eq (ticker_text t) value)) [
  | inl e ↦ (t, (text_eq_iff (ticker_text t) value).0 e)
  | inr e ↦ found_in value ts (rw e at h)
]

actives : (t : ActiveTicker) → is_active_ticker (ticker_text t) ≡ true
unfolding is_active_ticker text_eq
actives =
    each_ticker (λ t. is_active_ticker (ticker_text t) ≡ true) refl refl refl refl refl refl refl
      refl refl refl

-- `isActiveTicker` takes exactly the strings of the tickers.
pub is_active_ticker_iff :
    (value : Text)
    → (is_active_ticker value ≡ true) ↔ ((t : ActiveTicker) × (ticker_text t ≡ value))
unfolding is_active_ticker
is_active_ticker_iff value =
    (found_in value active_tickers, λ found. ap is_active_ticker (sym found.1) ∙ actives found.0)
