-- ===== src/Book.antt =====
-- src/book/LimitOrderBook.h and LimitOrderBook.cpp: orders in a pool, linked by index in one queue
-- for each price and side, with a table by order id and a bitset of the prices in use. A reference
-- into the pool or to a price level is its index; what is written through it is written back.
pub mod Orders
pub mod Chain
pub mod Tags
pub mod Laid
pub mod Queued
pub mod Market
pub mod Represents
pub mod Tracked
pub mod New
pub mod Best
use marketdatabook.Common.{ℕ, zero, suc, ◌+◌, ◌-◌, ◌%◌, ◌^◌, bit_and, bit_or, ◌==◌, ltb, not}
use marketdatabook.Common.{if◌then◌else◌, Array, update, Result, done, threw, no_orders}
use marketdatabook.OrderMap
use marketdatabook.OrderMap.{OrderMap}
use marketdatabook.Bitset
use marketdatabook.Bitset.{Bitset}

pub data Side : Type 0 where
  buy sell : Side

-- `struct Order`
pub record Order : Type 0 where
  pub order_reference_number : ℕ
  pub shares : ℕ
  pub price : ℕ
  pub next : ℕ
  pub prev : ℕ

pub record PriceLevel : Type 0 where
  pub head : ℕ
  pub tail : ℕ

abbrev pub null_index : ℕ
null_index = 0xFFFF_FFFF

abbrev pub max_ticks : ℕ
max_ticks = 100_000

abbrev pub side_mask : ℕ
side_mask = 2 ^ 31

-- `~SIDE_MASK` on 32 bits
abbrev pub index_mask : ℕ
index_mask = 2 ^ 31 - 1

-- The order table has `2 << 21` buckets.
abbrev pub map_bits : ℕ
map_bits = 22

pub record Book : Type 0 where
  pub pool : Array Order
  pub bids : Array PriceLevel
  pub asks : Array PriceLevel
  pub orders : OrderMap
  pub bids_bitset : Bitset
  pub asks_bitset : Bitset
  pub next_free_index : ℕ

-- The price levels and the bitset of a side, which the templates select.
abbrev pub levels : Side → Book → Array PriceLevel
levels Side.buy b = b.bids
levels Side.sell b = b.asks

abbrev pub bitset : Side → Book → Bitset
bitset Side.buy b = b.bids_bitset
bitset Side.sell b = b.asks_bitset

abbrev pub with_levels : Side → Array PriceLevel → Book → Book
with_levels Side.buy l b = record b { bids = l }
with_levels Side.sell l b = record b { asks = l }

abbrev pub with_bitset : Side → Bitset → Book → Book
with_bitset Side.buy s b = record b { bids_bitset = s }
with_bitset Side.sell s b = record b { asks_bitset = s }

abbrev pub set_next : Array Order → ℕ → ℕ → Array Order
set_next pool i n = update pool i (record (pool i) { next = n })

abbrev pub set_prev : Array Order → ℕ → ℕ → Array Order
set_prev pool i p = update pool i (record (pool i) { prev = p })

-- Memory from `mmap` is zero.
abbrev pub zero_order : Order
zero_order = record { order_reference_number = 0; shares = 0; price = 0; next = 0; prev = 0 }

-- The constructor's loop over `i = 1, …, n`.
pub link_free : ℕ → Array Order → Array Order
link_free zero pool = pool
link_free (suc n) pool = set_next (link_free n pool) n (suc n % 2 ^ 32)

-- The constructor. Where `mmap` fails it throws, which is not modelled.
unfoldable pub new : ℕ → Result Book
new max_orders =
    let null_level : PriceLevel = record { head = null_index; tail = null_index } in
    let pool = link_free (max_orders - 1) (λ _. zero_order) in
    let book : Book = record {
      pool = set_next pool (max_orders - 1) null_index;
      bids = λ _. null_level;
      asks = λ _. null_level;
      orders = OrderMap.new;
      bids_bitset = Bitset.empty;
      asks_bitset = Bitset.empty;
      next_free_index = 0;
    } in
    if max_orders == 0 then threw no_orders book else done book

abbrev pub get_best_bid : Book → ℕ
get_best_bid b = Bitset.get_best_bid b.bids_bitset

abbrev pub get_best_offer : Book → ℕ
get_best_offer b = Bitset.get_best_offer b.asks_bitset
