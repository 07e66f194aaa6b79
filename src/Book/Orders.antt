-- ===== src/Book/Orders.antt =====
-- The operations of LimitOrderBook.cpp.
use marketdatabook.Common.{ℕ, ◌-◌, bit_and, bit_or, ◌==◌, ltb, not, if◌then◌else◌, Array, update}
use marketdatabook.Common.{Result, done, threw, too_few_shares, Option, none, some}
use marketdatabook.OrderMap
use marketdatabook.Bitset
use marketdatabook.Itch.{NormalizedAddOrder, NormalizedOrderExecuted}
use marketdatabook.Book.{Side, Order, PriceLevel, Book, null_index, max_ticks, side_mask}
use marketdatabook.Book.{index_mask, map_bits, levels, bitset, with_levels, with_bitset}
use marketdatabook.Book.{set_next, set_prev}

-- `add_update_price_level`: the new order goes to the end of its level. The writes come in the
-- order of the code.
unfoldable pub add_update_price_level : Array Order → PriceLevel → ℕ → Array Order × PriceLevel
add_update_price_level pool level idx =
    let pool1 = set_next (set_prev pool idx null_index) idx null_index in
    let head = if level.head == null_index then idx else level.head in
    let pool2 =
      if level.tail == null_index
      then pool1
      else set_prev (set_next pool1 level.tail idx) idx level.tail in
    (pool2, record { head = head; tail = idx })

-- `execute_update_price_level`
unfoldable pub execute_update_price_level : PriceLevel → Order → ℕ → PriceLevel
execute_update_price_level level order idx = record {
  head = if level.head == idx then order.next else level.head;
  tail = if level.tail == idx then order.prev else level.tail;
}

-- `side == Side::Buy ? 0 : (1U << 31)`
abbrev pub side_tag : Side → ℕ
side_tag Side.buy = 0
side_tag Side.sell = side_mask

-- The order's fields, as `add_order_impl` sets them.
abbrev pub filled : Order → NormalizedAddOrder → Order
filled slot order = record slot {
  order_reference_number = order.order_reference_number;
  price = order.price;
  shares = order.shares;
}

-- The end of `add_order_impl`, once the order is in the table.
unfoldable pub enqueue : Side → Book → ℕ → ℕ → Book
enqueue side b price idx =
    let (pool, level) = add_update_price_level b.pool (levels side b price) idx in
    let b1 = with_levels side (update (levels side b) price level) (record b { pool = pool }) in
    with_bitset side (Bitset.set_price_level (bitset side b) price) b1

unfoldable pub add_order_impl : Side → Book → NormalizedAddOrder → Result Book
add_order_impl side b order =
    let idx = b.next_free_index in
    let b1 = record b {
      next_free_index = (b.pool idx).next;
      pool = update b.pool idx (filled (b.pool idx) order);
    } in
    elim (OrderMap.assign map_bits b.orders order.order_reference_number
      (bit_or (side_tag side) idx)) [
        | done orders ↦ done (enqueue side (record b1 { orders = orders }) order.price idx)
        | threw e orders ↦ threw e (record b1 { orders = orders })
      ]

unfoldable pub add_order : Book → NormalizedAddOrder → Result Book
add_order b order =
    if not (ltb order.price max_ticks)
    then done b
    else (if b.next_free_index == null_index
        then done b
        else (if order.indicator == b'B'
            then add_order_impl Side.buy b order
            else add_order_impl Side.sell b order))

-- The neighbours' links, at the start of `release_order_to_pool`.
unfoldable pub unlink : Array Order → ℕ → Array Order
unlink pool idx =
    let order = pool idx in
    let pool1 = if order.prev == null_index then pool else set_next pool order.prev order.next in
    let order1 = pool1 idx in
    if order1.next == null_index then pool1 else set_prev pool1 order1.next order1.prev

-- The part of `release_order_to_pool` that updates the price level and the bitset.
unfoldable pub release_level : Side → Book → Order → ℕ → Book
release_level side b order idx =
    let level = execute_update_price_level (levels side b order.price) order idx in
    let b1 = with_levels side (update (levels side b) order.price level) b in
    if level.head == null_index
    then with_bitset side (Bitset.clear_price_level (bitset side b) order.price) b1
    else b1

unfoldable pub release_order_to_pool : Side → Book → ℕ → Book
release_order_to_pool side b idx =
    let pool = unlink b.pool idx in
    let order = pool idx in
    let b1 = release_level side (record b { pool = pool }) order idx in
    record b1 {
      orders = OrderMap.erase map_bits b1.orders order.order_reference_number;
      pool = set_next b1.pool idx b1.next_free_index;
      next_free_index = idx;
    }

-- The side bit and the index of a table entry.
abbrev pub side_of : ℕ → Side
side_of tagged = if bit_and tagged side_mask == 0 then Side.buy else Side.sell

abbrev pub index_of : ℕ → ℕ
index_of tagged = bit_and tagged index_mask

-- `it->pool_idx` of the entry that `find` returns
abbrev pub lookup : Book → ℕ → Option ℕ
lookup b id = elim (OrderMap.find map_bits b.orders id) [
  | none ↦ none
  | some at ↦ some ((b.orders at).pool_idx)
]

unfoldable pub cancel_order : Book → ℕ → Book
cancel_order b id = elim (lookup b id) [
  | none ↦ b
  | some tagged ↦ release_order_to_pool (side_of tagged) b (index_of tagged)
]

-- The part of `execute_order` that has found the order. `shares` is left unsigned since the
-- test before has excluded a borrow.
unfoldable pub execute_found : Book → ℕ → ℕ → Result Book
execute_found b tagged shares =
    let idx = index_of tagged in
    let order = b.pool idx in
    let left = order.shares - shares in
    let b1 = record b { pool = update b.pool idx (record order { shares = left }) } in
    if ltb order.shares shares
    then threw too_few_shares b
    else (if left == 0 then done (release_order_to_pool (side_of tagged) b1 idx) else done b1)

unfoldable pub execute_order : Book → NormalizedOrderExecuted → Result Book
execute_order b order = elim (lookup b order.order_reference_number) [
  | none ↦ done b
  | some tagged ↦ execute_found b tagged order.shares
]
