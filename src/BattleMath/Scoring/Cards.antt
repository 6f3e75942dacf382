-- ===== src/BattleMath/Scoring/Cards.antt =====
-- The support of cards in total (`aggregateCardSupport` in packages/battle-math/src/scoring.ts).
use ponswars.Base.{ℕ, ◌+◌, ◌≡◌, refl, sym, ◌∙◌, List, [], ◌∷◌, sum_of, arith}
use ponswars.Base.Int.{pos, ◌+ℤ◌}
use ponswars.Shared.Cards.{CardType, card_support}
use ponswars.BattleMath.Scoring.{AggregateCardSupport, add_card, add_cards, aggregate_card_support}

abbrev totals : ℕ → ℕ → ℕ → ℕ → AggregateCardSupport
totals m v p g = record { market = pos m; volume = pos v; pons = pos p; general = pos g }

-- The support of cards, each kind summed over the catalogue.
abbrev pub catalogue_support : List CardType → AggregateCardSupport
catalogue_support cards =
    totals (sum_of (λ c. (card_support c).market) cards)
      (sum_of (λ c. (card_support c).volume) cards) (sum_of (λ c. (card_support c).pons) cards)
      (sum_of (λ c. (card_support c).general) cards)

move_sum : (a b c : ℕ) → (a + b) + c ≡ a + (b + c)
move_sum a b c = omega arith

no_less : (a : ℕ) → 0 + a ≡ a
no_less a = omega arith

no_more : (a : ℕ) → a + 0 ≡ a
no_more a = omega arith

add_pos : (a b : ℕ) → pos a +ℤ pos b ≡ pos (a + b)
unfolding ◌+ℤ◌
add_pos a b = ground arith

add_card-totals :
    (m v p g : ℕ) (c : CardType)
    → add_card (totals m v p g) c
      ≡ totals
          (m + (card_support c).market)
          (v + (card_support c).volume)
          (p + (card_support c).pons)
          (g + (card_support c).general)
unfolding add_card
add_card-totals m v p g c =
    let s = card_support c in
    rw (add_pos m s.market, add_pos v s.volume, add_pos p s.pons, add_pos g s.general) refl

add_cards-totals :
    (m v p g : ℕ) (cards : List CardType)
    → add_cards (totals m v p g) cards
      ≡ totals
          (m + sum_of (λ c. (card_support c).market) cards)
          (v + sum_of (λ c. (card_support c).volume) cards)
          (p + sum_of (λ c. (card_support c).pons) cards)
          (g + sum_of (λ c. (card_support c).general) cards)
unfolding add_cards
add_cards-totals m v p g [] = rw (no_more m, no_more v, no_more p, no_more g) refl
add_cards-totals m v p g (c ∷ cards) =
    let s = card_support c in
    rw
      (
        add_card-totals m v p g c,
        sym (move_sum m s.market (sum_of (λ c. (card_support c).market) cards)),
        sym (move_sum v s.volume (sum_of (λ c. (card_support c).volume) cards)),
        sym (move_sum p s.pons (sum_of (λ c. (card_support c).pons) cards)),
        sym (move_sum g s.general (sum_of (λ c. (card_support c).general) cards)),
      )
      (add_cards-totals (m + s.market) (v + s.volume) (p + s.pons) (g + s.general) cards)

pub aggregate_card_support-catalogue_support :
    (cards : List CardType) → aggregate_card_support cards ≡ catalogue_support cards
unfolding aggregate_card_support add_cards
aggregate_card_support-catalogue_support cards =
    add_cards-totals 0 0 0 0 cards ∙ ap4 (no_less _) (no_less _) (no_less _) (no_less _)
  where
    ap4 : {a b c d e f g h : ℕ} → a ≡ e → b ≡ f → c ≡ g → d ≡ h → totals a b c d ≡ totals e f g h
    ap4 p q r s = rw (p, q, r, s) refl
