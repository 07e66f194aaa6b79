-- ===== src/Itch.antt =====
-- src/protocol/ItchOrderTypes.h: the orders that the parser hands to the book, in host byte order.
pub mod Decode
pub mod Wire
pub mod Prefix
use marketdatabook.Common.{ℕ, List}

-- `struct Header`
pub record Header : Type 0 where
  pub timestamp : ℕ
  pub order_reference_number : ℕ
  pub stock_locate : ℕ
  pub tracking_number : ℕ

pub record NormalizedAddOrder : Type 0 where
  pub timestamp : ℕ
  pub order_reference_number : ℕ
  pub shares : ℕ
  pub price : ℕ
  pub stock_locate : ℕ
  pub tracking_number : ℕ
  pub stock : List ℕ
  pub indicator : ℕ

pub record NormalizedOrderExecuted : Type 0 where
  pub timestamp : ℕ
  pub order_reference_number : ℕ
  pub match_number : ℕ
  pub shares : ℕ
  pub stock_locate : ℕ
  pub tracking_number : ℕ

pub record NormalizedCancelOrder : Type 0 where
  pub timestamp : ℕ
  pub order_reference_number : ℕ
  pub shares : ℕ
  pub stock_locate : ℕ
  pub tracking_number : ℕ

-- `struct NormalizedOrder`: the tag `OrderType` and the union.
pub data NormalizedOrder : Type 0 where
  add_order : NormalizedAddOrder → NormalizedOrder
  execute_order : NormalizedOrderExecuted → NormalizedOrder
  cancel_order : NormalizedCancelOrder → NormalizedOrder
