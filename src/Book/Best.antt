-- ===== src/Book/Best.antt =====
-- The operations of LimitOrderBook.cpp keep the bitsets in step with the levels; the best bid and
-- the best offer follow.
use marketdatabook.Common.{ℕ, ◌<◌, ◌==◌, ◌≢◌, ltb}
use marketdatabook.Common.{arith, if◌then◌else◌, update, Array}
use marketdatabook.Common.{Bool-cases, inl, inr, Option-cases, bit_or, ◌-◌, state, Result-cases}
use marketdatabook.OrderMap
use marketdatabook.Bitset
use marketdatabook.Bitset.{Bitset}
use marketdatabook.Itch.{NormalizedAddOrder, NormalizedOrderExecuted}
use marketdatabook.Book.{Side, Order, PriceLevel, Book, null_index, max_ticks, map_bits}
use marketdatabook.Book.Orders.{execute_update_price_level, side_tag}
use marketdatabook.Book.Orders.{
  add_order_impl, add_order, unlink, release_level, release_order_to_pool,
}
use marketdatabook.Book.Orders.{cancel_order, execute_found, execute_order, index_of, side_of}
use marketdatabook.Book.Orders.{lookup, filled}
use marketdatabook.Book.Tracked.{IsTracking, IsTracked, clear-IsTracking, keep-IsTracking}
use marketdatabook.Book.Tracked.{index_of-ne_null, price-unlink, enqueue-IsTracked}

-- The bitset after a release.
abbrev released_bitset : Bitset → PriceLevel → ℕ → Bitset
released_bitset s level price =
    if level.head == null_index then Bitset.clear_price_level s price else s

release-IsTracking :
    {lv : Array PriceLevel} {s : Bitset} (order : Order) (idx : ℕ)
    → order.price < max_ticks
    → idx ≢ null_index
    → IsTracking lv s
    → let level = execute_update_price_level (lv order.price) order idx in
      IsTracking (update lv order.price level) (released_bitset s level order.price)
unfolding execute_update_price_level
release-IsTracking {lv} {s} order idx h ne v =
    let level = execute_update_price_level (lv order.price) order idx in
    elim (Bool-cases (level.head == null_index)) [
      | inl gone ↦ rw gone (clear-IsTracking order.price level h (ground arith) v)
      | inr left ↦ rw left (keep-IsTracking order.price level (ground arith) (ground arith) v)
    ]

release_level-IsTracked :
    (side : Side) {b : Book} (order : Order) (idx : ℕ)
    → order.price < max_ticks
    → idx ≢ null_index
    → IsTracked b
    → IsTracked (release_level side b order idx)
unfolding release_level
release_level-IsTracked Side.buy {b} order idx h ne v =
    let t = release-IsTracking order idx h ne v.bids_tracked in
    let level = execute_update_price_level (b.bids order.price) order idx in
    elim (Bool-cases (level.head == null_index)) [
      | inl gone ↦
          rw (gone, release_level)
            (record {
              bids_tracked = rw gone at t;
              asks_tracked = v.asks_tracked;
              prices = v.prices;
            })
      | inr left ↦
          rw (left, release_level)
            (record {
              bids_tracked = rw left at t;
              asks_tracked = v.asks_tracked;
              prices = v.prices;
            })
    ]
release_level-IsTracked Side.sell {b} order idx h ne v =
    let t = release-IsTracking order idx h ne v.asks_tracked in
    let level = execute_update_price_level (b.asks order.price) order idx in
    elim (Bool-cases (level.head == null_index)) [
      | inl gone ↦
          rw (gone, release_level)
            (record {
              bids_tracked = v.bids_tracked;
              asks_tracked = rw gone at t;
              prices = v.prices;
            })
      | inr left ↦
          rw (left, release_level)
            (record {
              bids_tracked = v.bids_tracked;
              asks_tracked = rw left at t;
              prices = v.prices;
            })
    ]

pub release-IsTracked :
    (side : Side) {b : Book} (idx : ℕ)
    → idx ≢ null_index
    → IsTracked b
    → IsTracked (release_order_to_pool side b idx)
unfolding release_order_to_pool
release-IsTracked side {b} idx ne v =
    let pool = unlink b.pool idx in
    let start : IsTracked (record b { pool = pool }) = record {
      bids_tracked = v.bids_tracked;
      asks_tracked = v.asks_tracked;
      prices = λ j. rw price-unlink (v.prices j);
    } in
    let u = release_level-IsTracked side (pool idx) idx (start.prices idx) ne start in
    record {
      bids_tracked = u.bids_tracked;
      asks_tracked = u.asks_tracked;
      prices = λ j. ground (arith, u.prices j, u.prices idx);
    }

pub cancel_order-IsTracked : {b : Book} (id : ℕ) → IsTracked b → IsTracked (cancel_order b id)
unfolding cancel_order
cancel_order-IsTracked {b} id v = elim (Option-cases (lookup b id)) [
  | inl e ↦ rw (e, cancel_order) v
  | inr (tagged, e) ↦
      rw (e, cancel_order) (release-IsTracked (side_of tagged) _ (index_of-ne_null tagged) v)
]

pub execute_order-IsTracked :
    {b : Book} (order : NormalizedOrderExecuted)
    → IsTracked b
    → IsTracked (state (execute_order b order))
unfolding execute_order execute_found
execute_order-IsTracked {b} order v = elim (Option-cases (lookup b order.order_reference_number)) [
  | inl e ↦ rw (e, execute_order) v
  | inr (tagged, e) ↦
      let idx = index_of tagged in
      let left = (b.pool idx).shares - order.shares in
      let b1 = record b { pool = update b.pool idx (record (b.pool idx) { shares = left }) } in
      let v1 : IsTracked b1 = record {
        bids_tracked = v.bids_tracked;
        asks_tracked = v.asks_tracked;
        prices = λ j. ground (arith, v.prices idx, v.prices j);
      } in
      elim (Bool-cases (ltb (b.pool idx).shares order.shares)) [
        | inl short ↦ rw (e, execute_order, execute_found, short) v
        | inr enough ↦ elim (Bool-cases (left == 0)) [
          | inl spent ↦
              rw (e, execute_order, execute_found, enough, spent)
                (release-IsTracked (side_of tagged) idx (index_of-ne_null tagged) v1)
          | inr rest ↦ rw (e, execute_order, execute_found, enough, rest) v1
        ]
      ]
]

add_order_impl-IsTracked :
    (side : Side) {b : Book} (order : NormalizedAddOrder)
    → order.price < max_ticks
    → b.next_free_index ≢ null_index
    → IsTracked b
    → IsTracked (state (add_order_impl side b order))
unfolding add_order_impl
add_order_impl-IsTracked side {b} order h ne v =
    let idx = b.next_free_index in
    let entry = bit_or (side_tag side) idx in
    let stored = OrderMap.assign map_bits b.orders order.order_reference_number entry in
    let pool = update b.pool idx (filled (b.pool idx) order) in
    let start : (orders : OrderMap.OrderMap)
        → IsTracked
            (record b { next_free_index = (b.pool idx).next; pool = pool; orders = orders }) =
      λ orders. record {
        bids_tracked = v.bids_tracked;
        asks_tracked = v.asks_tracked;
        prices = λ j. ground (arith, v.prices j);
      } in
    elim (Result-cases stored) [
      | inl (orders, e) ↦
          rw (e, add_order_impl) (enqueue-IsTracked side order.price idx h ne (start orders))
      | inr (error, orders, e) ↦ rw (e, add_order_impl) (start orders)
    ]

pub add_order-IsTracked :
    {b : Book} (order : NormalizedAddOrder) → IsTracked b → IsTracked (state (add_order b order))
unfolding add_order
add_order-IsTracked {b} order v = elim (Bool-cases (ltb order.price max_ticks)) [
  | inr out ↦ rw (out, add_order) v
  | inl priced ↦ elim (Bool-cases (b.next_free_index == null_index)) [
    | inl full ↦ rw (priced, full, add_order) v
    | inr free ↦
        let keep : (side : Side) → IsTracked (state (add_order_impl side b order)) =
          λ side. add_order_impl-IsTracked side order (ground arith) (ground arith) v in
        elim (Bool-cases (order.indicator == b'B')) [
          | inl bid ↦ rw (priced, free, bid, add_order) (keep Side.buy)
          | inr ask ↦ rw (priced, free, ask, add_order) (keep Side.sell)
        ]
  ]
]
