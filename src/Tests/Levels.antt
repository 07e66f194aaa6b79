-- ===== src/Tests/Levels.antt =====
-- src/utils/HierarchicalBitset.h and src/book/LimitOrderBook.cpp at concrete ticks and orders.
use marketdatabook.Common.{ℕ, ◌≡◌, ◌⊎◌, refl, arith, List, [], ◌∷◌, done, state}
use marketdatabook.Bitset.{Bitset, empty, no_price, set_price_level, clear_price_level}
use marketdatabook.Bitset
use marketdatabook.Bitset.Levels.{IsConsistent, empty-IsConsistent}
use marketdatabook.Bitset.Levels.{set_price_level-IsConsistent}
use marketdatabook.Bitset.Best.{IsEmpty, IsLeast, get_best_offer-IsLeast}
use marketdatabook.Itch.{NormalizedOrder, add_order, cancel_order}
use marketdatabook.Book
use marketdatabook.Book.{Book}
use marketdatabook.Engine.{consume}
use marketdatabook.Engine.Best.{HasNone, IsBestBid, IsBestOffer, best_prices_lem}

-- Ticks 5000 and 70000.
abbrev two_ticks : Bitset
two_ticks = set_price_level (set_price_level empty 5000) 70000

two_ticks-IsConsistent : IsConsistent two_ticks
two_ticks-IsConsistent =
    set_price_level-IsConsistent 70000 (omega arith)
      (set_price_level-IsConsistent 5000 (omega arith) empty-IsConsistent)

get_best_offer-IsLeast_example :
    (IsEmpty two_ticks × (Bitset.get_best_offer two_ticks ≡ no_price))
    ⊎ IsLeast two_ticks (Bitset.get_best_offer two_ticks)
get_best_offer-IsLeast_example = get_best_offer-IsLeast two_ticks-IsConsistent

-- Two bids and the cancellation of the better one.
abbrev bid : ℕ → ℕ → NormalizedOrder
bid id price = add_order (record {
  timestamp = 1;
  order_reference_number = id;
  shares = 100;
  price = price;
  stock_locate = 0;
  tracking_number = 0;
  stock = [];
  indicator = b'B';
})

abbrev three_orders : List NormalizedOrder
three_orders =
    bid 7 5000
    ∷ bid 8 6000
    ∷ cancel_order (record {
      timestamp = 2;
      order_reference_number = 8;
      shares = 100;
      stock_locate = 0;
      tracking_number = 0;
    })
    ∷ []

abbrev book_of_four : Book
book_of_four = state (Book.new 4)

made : Book.new 4 ≡ done book_of_four
unfolding Book.new
made = refl

best_prices_lem_example :
    let b' = state (consume book_of_four three_orders) in
    ((HasNone b'.bids × (Book.get_best_bid b' ≡ no_price))
      ⊎ IsBestBid b'.bids (Book.get_best_bid b'))
    × ((HasNone b'.asks × (Book.get_best_offer b' ≡ no_price))
        ⊎ IsBestOffer b'.asks (Book.get_best_offer b'))
best_prices_lem_example = best_prices_lem 4 three_orders made
