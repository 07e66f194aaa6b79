-- ===== src/Engine/Best.antt =====
-- The best bid and the best offer after any sequence of orders.
use marketdatabook.Common.{ℕ, ◌<◌, ◌^◌, ◌≡◌, ◌≢◌, ◌⊎◌, inl, inr}
use marketdatabook.Common.{arith, true, false, List, [], ◌∷◌, done, state}
use marketdatabook.Common.{Result-cases, Array}
use marketdatabook.Bitset.{no_price}
use marketdatabook.Bitset.Levels.{contains}
use marketdatabook.Bitset.Best.{get_best_offer-IsLeast, get_best_bid-IsGreatest}
use marketdatabook.Itch.{NormalizedOrder, add_order, execute_order, cancel_order}
use marketdatabook.Book.{Book, PriceLevel, new, null_index, max_ticks}
use marketdatabook.Book
use marketdatabook.Bitset.{Bitset, get_best_bid, get_best_offer}
use marketdatabook.Book.New.{new-IsTracked}
use native.Mathlib.Decide.{dec_lt}
use marketdatabook.Book.Tracked.{IsTracked, IsTracking}
use marketdatabook.Book.Best.{add_order-IsTracked, execute_order-IsTracked, cancel_order-IsTracked}
use marketdatabook.Engine.{dispatch, consume}

dispatch-IsTracked :
    {b : Book} (o : NormalizedOrder) → IsTracked b → IsTracked (state (dispatch b o))
unfolding dispatch
dispatch-IsTracked (add_order o) v = add_order-IsTracked o v
dispatch-IsTracked (execute_order o) v = execute_order-IsTracked o v
dispatch-IsTracked (cancel_order o) v = cancel_order-IsTracked (o.order_reference_number) v

-- Dispatching any orders to a book whose bitsets track its price levels gives such a book, and
-- also where one of them throws.
pub consume-IsTracked :
    (os : List NormalizedOrder) {b : Book} → IsTracked b → IsTracked (state (consume b os))
unfolding consume
consume-IsTracked [] v = v
consume-IsTracked (o ∷ os) {b} v =
    let v' = dispatch-IsTracked o v in
    elim (Result-cases (dispatch b o)) [
      | inl (b', e) ↦ rw (e, consume) (consume-IsTracked os (rw e at v'))
      | inr (error, b', e) ↦ rw (e, consume) (rw e at v')
    ]

-- No level of a side has an order.
abbrev pub HasNone : Array PriceLevel → Type 0
HasNone levels = (t : ℕ) → t < max_ticks → (levels t).head ≡ null_index

-- The price is that of a level with orders, and no level above it has any.
pub record IsBestBid (levels : Array PriceLevel) (t : ℕ) : Type 0 where
  pub in_range : t < max_ticks
  pub has_orders : (levels t).head ≢ null_index
  pub above : (u : ℕ) → t < u → u < max_ticks → (levels u).head ≡ null_index

-- The price is that of a level with orders, and no level below it has any.
pub record IsBestOffer (levels : Array PriceLevel) (t : ℕ) : Type 0 where
  pub in_range : t < max_ticks
  pub has_orders : (levels t).head ≢ null_index
  pub below : (u : ℕ) → u < t → (levels u).head ≡ null_index

module _ {lv : Array PriceLevel} {s : Bitset} (v : IsTracking lv s) where
  no_head : (t : ℕ) → t < max_ticks → contains s t ≡ false → (lv t).head ≡ null_index
  no_head t h e = ground (arith, v.tracks t h)

  has_head :
      (t : ℕ) → t < 64 ^ 3 → contains s t ≡ true → (t < max_ticks) × ((lv t).head ≢ null_index)
  has_head t h e = elim (dec_lt t max_ticks) [
    | yes p ↦ (p, ground (arith, v.tracks t p))
    | no p ↦ absurd (ground (arith, v.no_others t (omega arith) h))
  ]

  -- The value of `get_best_bid` is right for levels that the bitset tracks.
  pub tracked_bid : (HasNone lv × (get_best_bid s ≡ no_price)) ⊎ IsBestBid lv (get_best_bid s)
  tracked_bid = elim (get_best_bid-IsGreatest v.consistent) [
    | inl (none_set, e) ↦ inl (λ t h. no_head t h (none_set t (omega arith)), e)
    | inr g ↦
        let (h, head) = has_head (get_best_bid s) g.in_range g.member in
        inr (record {
          in_range = h;
          has_orders = head;
          above = λ u gt hu. no_head u hu (g.greatest u gt (omega arith));
        })
  ]

  pub tracked_offer :
      (HasNone lv × (get_best_offer s ≡ no_price)) ⊎ IsBestOffer lv (get_best_offer s)
  tracked_offer = elim (get_best_offer-IsLeast v.consistent) [
    | inl (none_set, e) ↦ inl (λ t h. no_head t h (none_set t (omega arith)), e)
    | inr g ↦
        let (h, head) = has_head (get_best_offer s) g.in_range g.member in
        inr (record {
          in_range = h;
          has_orders = head;
          below = λ u lt. no_head u (omega arith) (g.least u lt);
        })
  ]

module _ (max_orders : ℕ) (os : List NormalizedOrder) {b : Book}
    (made : new max_orders ≡ done b) where
  after-IsTracked : IsTracked (state (consume b os))
  after-IsTracked = consume-IsTracked os (rw made at (new-IsTracked max_orders))

  -- Whatever orders are dispatched to a new book, and also where one of them throws, the best bid
  -- is the highest price whose bid level has an order, and the best offer the lowest price whose
  -- ask level has one; each is -1 as a `size_t` if no level of its side has one.
  pub best_prices_lem :
      let b' = state (consume b os) in
      ((HasNone b'.bids × (Book.get_best_bid b' ≡ no_price))
        ⊎ IsBestBid b'.bids (Book.get_best_bid b'))
      × ((HasNone b'.asks × (Book.get_best_offer b' ≡ no_price))
          ⊎ IsBestOffer b'.asks (Book.get_best_offer b'))
  best_prices_lem =
      (tracked_bid after-IsTracked.bids_tracked, tracked_offer after-IsTracked.asks_tracked)
