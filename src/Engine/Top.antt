-- ===== src/Engine/Top.antt =====
-- The best prices and the oldest orders of LimitOrderBook.cpp, as the market has them.
use marketdatabook.Common.{ℕ, ◌<◌, ◌≡◌, ◌≢◌, ◌⊎◌, inl, inr, arith, refl, sym, ap, ◌∙◌, false}
use marketdatabook.Common.{List, [], ◌∷◌, Array}
use marketdatabook.Bitset.{no_price}
use marketdatabook.Book.{
  Book, Side, Order, levels, null_index, max_ticks, get_best_bid, get_best_offer,
}
use marketdatabook.Book.Chain.{has, first}
use marketdatabook.Book.Laid.{levels_of-level_of}
use marketdatabook.Book.Tags.{level_of}
use marketdatabook.Book.Market.{Market, Resting}
use marketdatabook.Book.Market.View.{resting, view}
use marketdatabook.Book.Represents.{Represents}
use marketdatabook.Engine.Best.{tracked_bid, tracked_offer}

-- No level of a side has an order.
abbrev pub IsEmpty : Market → Side → Type 0
IsEmpty m side = (t : ℕ) → t < max_ticks → m.queues (level_of side t) ≡ []

-- The price has an order, and no better price of the side has one: none above for bids, and none
-- below for asks.
pub record IsBest (m : Market) (side : Side) (better : ℕ → ℕ → Type 0) (t : ℕ) : Type 0 where
  pub in_range : t < max_ticks
  pub has_orders : m.queues (level_of side t) ≢ []
  pub best : (u : ℕ) → better u t → u < max_ticks → m.queues (level_of side u) ≡ []

view_cases :
    (pool : Array Order) (xs : List ℕ)
    → has null_index xs ≡ false
    → ((first xs ≡ null_index) × (view pool xs ≡ []))
      ⊎ ((rest : List Resting) × (first xs ≢ null_index)
          × (view pool xs ≡ resting pool (first xs) ∷ rest))
view_cases pool [] out = inl (refl, refl)
view_cases pool (x ∷ xs) out = inr (view pool xs, ground arith, refl)

module _ {size : ℕ} {b : Book} {m : Market} (v : Represents size b m) (side : Side) (t : ℕ) where
  abbrev k : ℕ
  k = level_of side t

  level_head : (levels side b t).head ≡ first (v.layout.queues k)
  level_head = ap (λ l. l.head) (sym (levels_of-level_of b side t)) ∙ v.laid.in_queues.heads k

  -- A price level has no head exactly if the market has no order there; otherwise its head is the
  -- order that arrived first.
  pub head_cases :
      (((levels side b t).head ≡ null_index) × (m.queues k ≡ []))
      ⊎ ((rest : List Resting) × ((levels side b t).head ≢ null_index)
          × (m.queues k ≡ resting b.pool (levels side b t).head ∷ rest))
  head_cases =
      elim (view_cases b.pool (v.layout.queues k)
        (ground (arith, v.laid.in_queues.owned null_index k, v.laid.in_queues.no_null))) [
          | inl (no_head, nothing) ↦ inl (level_head ∙ no_head, v.same_queues k ∙ nothing)
          | inr (rest, head, queue) ↦ inr (
            rest,
            rw (level_head) head,
            v.same_queues k ∙ queue ∙ ap (λ h. resting b.pool h ∷ rest) (sym level_head),
          )
        ]

  empty_of_no_head : (levels side b t).head ≡ null_index → m.queues k ≡ []
  empty_of_no_head e = elim head_cases [
    | inl (_, nothing) ↦ nothing
    | inr (_, head, _) ↦ absurd (head e)
  ]

  orders_of_head : (levels side b t).head ≢ null_index → m.queues k ≢ []
  orders_of_head ne = elim head_cases [
    | inl (no_head, _) ↦ absurd (ne no_head)
    | inr (_, _, queue) ↦ rw (queue) (λ e. absurd (cc))
  ]

module _ {size : ℕ} {b : Book} {m : Market} (v : Represents size b m) where
  -- In a book that stands for a market, the best bid is the highest price at which the market has a
  -- bid, and -1 as a `size_t` if it has none.
  pub get_best_bid-IsBest :
      (IsEmpty m Side.buy × (get_best_bid b ≡ no_price))
      ⊎ IsBest m Side.buy (λ u t. t < u) (get_best_bid b)
  get_best_bid-IsBest = elim (tracked_bid v.tracked.bids_tracked) [
    | inl (nothing, e) ↦ inl (λ t h. empty_of_no_head v Side.buy t (nothing t h), e)
    | inr g ↦ inr (record {
      in_range = g.in_range;
      has_orders = orders_of_head v Side.buy (get_best_bid b) g.has_orders;
      best = λ u better h. empty_of_no_head v Side.buy u (g.above u better h);
    })
  ]

  -- In a book that stands for a market, the best offer is the lowest price at which the market has
  -- an ask, and -1 as a `size_t` if it has none.
  pub get_best_offer-IsBest :
      (IsEmpty m Side.sell × (get_best_offer b ≡ no_price))
      ⊎ IsBest m Side.sell (λ u t. u < t) (get_best_offer b)
  get_best_offer-IsBest = elim (tracked_offer v.tracked.asks_tracked) [
    | inl (nothing, e) ↦ inl (λ t h. empty_of_no_head v Side.sell t (nothing t h), e)
    | inr g ↦ inr (record {
      in_range = g.in_range;
      has_orders = orders_of_head v Side.sell (get_best_offer b) g.has_orders;
      best = λ u better h. empty_of_no_head v Side.sell u (g.below u better);
    })
  ]
