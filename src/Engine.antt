-- ===== src/Engine.antt =====
-- src/main.cpp: the consumer's dispatch of orders to the book. An exception ends the program, so
-- that nothing is dispatched after one.
pub mod Best
pub mod Telemetry
pub mod Check
pub mod Refinement
pub mod Top
use marketdatabook.Common.{List, [], ◌∷◌, Result, done, threw}
use marketdatabook.Itch.{NormalizedOrder, add_order, execute_order, cancel_order}
use marketdatabook.Book.{Book}
use marketdatabook.Book.Orders

-- `dispatch_table[order.type](book, order)`, and `OrderBookCallBack`
unfoldable pub dispatch : Book → NormalizedOrder → Result Book
dispatch b (add_order o) = Orders.add_order b o
dispatch b (execute_order o) = Orders.execute_order b o
dispatch b (cancel_order o) = done (Orders.cancel_order b (o.order_reference_number))

-- The consumer's loop over the orders that it pops.
unfoldable pub consume : Book → List NormalizedOrder → Result Book
consume b [] = done b
consume b (o ∷ os) = elim (dispatch b o) [ done b' ↦ consume b' os | threw e b' ↦ threw e b' ]
