-- ===== src/Tests/Market.antt =====
-- LimitOrderBook.cpp with a pool of four orders, and the market that it stands for.
use marketdatabook.Common.{◌<◌, ◌≡◌, ◌⊎◌, refl, arith, List, [], ◌∷◌, done, state}
use marketdatabook.Bitset.{no_price}
use marketdatabook.Itch.{NormalizedOrder, NormalizedAddOrder, NormalizedOrderExecuted}
use marketdatabook.Itch.{NormalizedCancelOrder, add_order, execute_order, cancel_order}
use marketdatabook.Book.{Book, Side, new, get_best_bid}
use marketdatabook.Book.Orders
use marketdatabook.Book.Laid.New.{new-IsLaid}
use marketdatabook.Book.Market.{Market, enter, withdraw, fill, closed}
use marketdatabook.Book.Represents.{Represents, Matches, Matches-state}
use marketdatabook.Book.Represents.Entering.{new-Represents, add_order-Matches}
use marketdatabook.Book.Represents.Leaving.{execute_order-Matches, cancel_order-Represents}
use marketdatabook.Engine.{consume}
use marketdatabook.Engine.Refinement.{trade, trade_one, AreNew, consume-new}
use marketdatabook.Engine.Top.{IsEmpty, IsBest, get_best_bid-IsBest}

abbrev bid : NormalizedAddOrder
bid = record {
  timestamp = 1;
  order_reference_number = 7;
  shares = 50;
  price = 100;
  stock_locate = 0;
  tracking_number = 0;
  stock = [];
  indicator = b'B';
}

abbrev second_bid : NormalizedAddOrder
second_bid = record bid { order_reference_number = 9; shares = 20 }

abbrev ask : NormalizedAddOrder
ask = record bid { order_reference_number = 8; price = 101; indicator = b'S' }

abbrev part : NormalizedOrderExecuted
part = record {
  timestamp = 2;
  order_reference_number = 7;
  match_number = 1;
  shares = 30;
  stock_locate = 0;
  tracking_number = 0;
}

abbrev cancellation : NormalizedCancelOrder
cancellation = record {
  timestamp = 3;
  order_reference_number = 9;
  shares = 20;
  stock_locate = 0;
  tracking_number = 0;
}

abbrev orders : List NormalizedOrder
orders =
    add_order bid
    ∷ add_order second_bid
    ∷ execute_order part
    ∷ cancel_order cancellation
    ∷ add_order ask
    ∷ []

orders_AreNew : AreNew (closed 4) orders
unfolding AreNew trade_one enter fill withdraw
orders_AreNew = (refl, (refl, (tt, (tt, (refl, tt)))))

consume-new_example : Matches 4 (consume (state (new 4)) orders) (trade (closed 4) orders)
consume-new_example =
    consume-new 4 orders (state (new 4)) (omega arith) (omega arith) orders_AreNew
      (new-IsLaid 4 (omega arith) (omega arith)).0

-- What the market has after these orders.
trade_result :
    (state (trade (closed 4) orders)).queues 200
    ≡ record { order_reference_number = 7; shares = 20 } ∷ []
unfolding trade trade_one enter fill withdraw
trade_result = refl

new_book-Represents : Represents 4 (state (new 4)) (closed 4)
new_book-Represents = new-Represents 4 (omega arith) (omega arith)

add_order-Matches_example :
    Matches 4 (Orders.add_order (state (new 4)) bid) (done (enter (closed 4) bid))
add_order-Matches_example = add_order-Matches new_book-Represents bid refl

abbrev one_bid : Book
one_bid = state (Orders.add_order (state (new 4)) bid)

abbrev one_bid_market : Market
one_bid_market = enter (closed 4) bid

one_bid-Represents : Represents 4 one_bid one_bid_market
one_bid-Represents =
    Matches-state (Orders.add_order (state (new 4)) bid) (done (enter (closed 4) bid))
      add_order-Matches_example

execute_order-Matches_example :
    Matches 4 (Orders.execute_order one_bid part) (fill one_bid_market part)
execute_order-Matches_example = execute_order-Matches one_bid-Represents part

cancel_order-Represents_example :
    Represents 4 (Orders.cancel_order one_bid 7) (withdraw one_bid_market 7)
cancel_order-Represents_example = cancel_order-Represents 7 one_bid-Represents

get_best_bid-IsBest_example :
    (IsEmpty one_bid_market Side.buy × (get_best_bid one_bid ≡ no_price))
    ⊎ IsBest one_bid_market Side.buy (λ u t. t < u) (get_best_bid one_bid)
get_best_bid-IsBest_example = get_best_bid-IsBest one_bid-Represents
