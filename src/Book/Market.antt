-- ===== src/Book/Market.antt =====
-- What LimitOrderBook.cpp promises, without pool, links, table or bitsets: the resting orders of
-- each level in the order of their arrival. A level goes by its number (`level_of`).
pub mod View
use marketdatabook.Common.{ℕ, ◌+◌, ◌-◌, ◌==◌, ltb, if◌then◌else◌, ◌&&◌, not}
use marketdatabook.Common.{List, [], ◌∷◌, ◌++◌, Option, none, some, Array, update}
use marketdatabook.Common.{Result, done, threw, too_few_shares}
use marketdatabook.Itch.{NormalizedAddOrder, NormalizedOrderExecuted}
use marketdatabook.Book.{Side, max_ticks}
use marketdatabook.Book.Tags.{level_of}

pub record Resting : Type 0 where
  pub order_reference_number : ℕ
  pub shares : ℕ

-- The queues of the levels, the level that an order rests at, and how many orders more there is
-- room for.
pub record Market : Type 0 where
  pub queues : Array (List Resting)
  pub place : ℕ → Option ℕ
  pub room : ℕ

abbrev pub closed : ℕ → Market
closed room = record { queues = λ _. []; place = λ _. none; room = room }

-- The queue without the order.
abbrev pub without : ℕ → List Resting → List Resting
without id [] = []
without id (r ∷ rs) = if r.order_reference_number == id then rs else r ∷ without id rs

-- The queue with the shares of the order reduced, at its place.
abbrev pub reduced : ℕ → ℕ → List Resting → List Resting
reduced id shares [] = []
reduced id shares (r ∷ rs) =
    if r.order_reference_number == id
    then record r { shares = r.shares - shares } ∷ rs
    else r ∷ reduced id shares rs

abbrev pub quantity : ℕ → List Resting → ℕ
quantity id [] = 0
quantity id (r ∷ rs) = if r.order_reference_number == id then r.shares else quantity id rs

abbrev pub side_named : NormalizedAddOrder → Side
side_named order = if order.indicator == b'B' then Side.buy else Side.sell

-- An order enters at the end of its level, where its price is a tick and there is room.
unfoldable pub enter : Market → NormalizedAddOrder → Market
enter m order =
    let id = order.order_reference_number in
    let k = level_of (side_named order) order.price in
    let new : Resting = record { order_reference_number = id; shares = order.shares } in
    if ltb order.price max_ticks && not (m.room == 0)
    then record {
      queues = update m.queues k (m.queues k ++ new ∷ []);
      place = update m.place id (some k);
      room = m.room - 1;
    }
    else m

-- An order that rests leaves its level; of any other nothing happens.
unfoldable pub withdraw : Market → ℕ → Market
withdraw m id = elim (m.place id) [
  | none ↦ m
  | some k ↦ record {
    queues = update m.queues k (without id (m.queues k));
    place = update m.place id none;
    room = m.room + 1;
  }
]

abbrev pub reduce : Market → ℕ → ℕ → ℕ → Market
reduce m k id shares = record m { queues = update m.queues k (reduced id shares (m.queues k)) }

-- A part of an order is filled at its place, and the order leaves when nothing is left. More than
-- the order has is refused.
unfoldable pub fill : Market → NormalizedOrderExecuted → Result Market
fill m order =
    let id = order.order_reference_number in
    elim (m.place id) [
      | none ↦ done m
      | some k ↦
          let left = quantity id (m.queues k) in
          if ltb left order.shares
          then threw too_few_shares m
          else (let m1 = reduce m k id order.shares in
              if left - order.shares == 0 then done (withdraw m1 id) else done m1)
    ]
