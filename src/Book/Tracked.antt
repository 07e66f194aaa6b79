-- ===== src/Book/Tracked.antt =====
-- LimitOrderBook.cpp keeps its bitsets in step with its price levels, so that the best bid and
-- the best offer are the prices of levels that have orders.
use marketdatabook.Common.{ℕ, ◌^◌, ◌<◌, ◌≤◌, ◌==◌, ◌≡◌, ◌≢◌, not}
use marketdatabook.Common.{arith, false, update, Array}
use marketdatabook.Common.Bits.{bit_and-mask}
use marketdatabook.Bitset
use marketdatabook.Bitset.{Bitset}
use marketdatabook.Bitset.Levels.{contains, IsConsistent, contains-set_price_level}
use marketdatabook.Bitset.Levels.{contains-clear_price_level, set_price_level-IsConsistent}
use marketdatabook.Bitset.Levels.{clear_price_level-IsConsistent}
use marketdatabook.Book.{Side, Order, PriceLevel, Book, null_index, max_ticks}
use marketdatabook.Book.Orders.{add_update_price_level, enqueue}
use marketdatabook.Book.Orders.{unlink}
use marketdatabook.Book.Orders.{index_of}

-- The bitset of a side holds exactly the ticks whose level has a head.
pub record IsTracking (lv : Array PriceLevel) (s : Bitset) : Type 0 where
  pub consistent : IsConsistent s
  pub tracks : (t : ℕ) → t < max_ticks → contains s t ≡ not ((lv t).head == null_index)
  pub no_others : (t : ℕ) → max_ticks ≤ t → t < 64 ^ 3 → contains s t ≡ false

pub record IsTracked (b : Book) : Type 0 where
  pub bids_tracked : IsTracking b.bids b.bids_bitset
  pub asks_tracked : IsTracking b.asks b.asks_bitset
  pub prices : (i : ℕ) → (b.pool i).price < max_ticks

-- A level that gets a head enters the bitset.
set-IsTracking :
    {lv : Array PriceLevel} {s : Bitset} (price : ℕ) (level : PriceLevel)
    → price < max_ticks
    → level.head ≢ null_index
    → IsTracking lv s
    → IsTracking (update lv price level) (Bitset.set_price_level s price)
set-IsTracking {lv} {s} price level h head v = record {
  consistent = set_price_level-IsConsistent price (omega arith) v.consistent;
  tracks = λ t ht. ground (arith, contains-set_price_level s price t, v.tracks t ht);
  no_others = λ t lo hi. ground (arith, contains-set_price_level s price t, v.no_others t lo hi);
}

-- A level that loses its head leaves the bitset.
pub clear-IsTracking :
    {lv : Array PriceLevel} {s : Bitset} (price : ℕ) (level : PriceLevel)
    → price < max_ticks
    → level.head ≡ null_index
    → IsTracking lv s
    → IsTracking (update lv price level) (Bitset.clear_price_level s price)
clear-IsTracking {lv} {s} price level h head v = record {
  consistent = clear_price_level-IsConsistent price (omega arith) v.consistent;
  tracks = λ t ht. ground (arith, contains-clear_price_level s price t, v.tracks t ht);
  no_others = λ t lo hi. ground (arith, contains-clear_price_level s price t, v.no_others t lo hi);
}

-- A level that keeps a head stays as it is.
pub keep-IsTracking :
    {lv : Array PriceLevel} {s : Bitset} (price : ℕ) (level : PriceLevel)
    → (lv price).head ≢ null_index
    → level.head ≢ null_index
    → IsTracking lv s
    → IsTracking (update lv price level) s
keep-IsTracking {lv} {s} price level before head v = record {
  consistent = v.consistent;
  tracks = λ t ht. ground (arith, v.tracks t ht);
  no_others = v.no_others;
}

-- An index from the table is no null index.
pub index_of-ne_null : (tagged : ℕ) → index_of tagged ≢ null_index
index_of-ne_null tagged = ground (arith, bit_and-mask 31 tagged)

-- All orders of the pool have a price that is a tick.
abbrev pub IsPriced : Array Order → Type 0
IsPriced pool = (i : ℕ) → (pool i).price < max_ticks

-- The links do not change the prices.
price-add_update :
    (pool : Array Order) (level : PriceLevel) (idx j : ℕ)
    → ((add_update_price_level pool level idx).0 j).price ≡ (pool j).price
unfolding add_update_price_level
price-add_update pool level idx j = ground arith

pub price-unlink : (pool : Array Order) (idx j : ℕ) → (unlink pool idx j).price ≡ (pool j).price
unfolding unlink
price-unlink pool idx j = ground arith

add_update-head :
    (pool : Array Order) (level : PriceLevel) (idx : ℕ)
    → idx ≢ null_index
    → (add_update_price_level pool level idx).1.head ≢ null_index
unfolding add_update_price_level
add_update-head pool level idx h = ground arith

pub enqueue-IsTracked :
    (side : Side) {b : Book} (price idx : ℕ)
    → price < max_ticks
    → idx ≢ null_index
    → IsTracked b
    → IsTracked (enqueue side b price idx)
unfolding enqueue
enqueue-IsTracked Side.buy {b} price idx h ne v = record {
  bids_tracked =
      set-IsTracking price _ h (add_update-head b.pool (b.bids price) idx ne) v.bids_tracked;
  asks_tracked = v.asks_tracked;
  prices = λ j. rw price-add_update (v.prices j);
}
enqueue-IsTracked Side.sell {b} price idx h ne v = record {
  bids_tracked = v.bids_tracked;
  asks_tracked =
      set-IsTracking price _ h (add_update-head b.pool (b.asks price) idx ne) v.asks_tracked;
  prices = λ j. rw price-add_update (v.prices j);
}
