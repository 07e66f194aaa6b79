-- ===== src/Book/Represents.antt =====
-- The book of LimitOrderBook.cpp and the market that it stands for.
pub mod Leaving
pub mod Entering
use marketdatabook.Common.{
  ℕ, ◌≡◌, refl, arith, Option, none, some, Array, length, true, Result, done, threw, state,
}
use marketdatabook.Book.{Book, map_bits}
use marketdatabook.Book.Orders.{index_of}
use marketdatabook.Book.Chain.{has}
use marketdatabook.Book.Queued.{Owners}
use marketdatabook.Book.Laid.{IsLaid, Layout, entry, order_reference_number_unique}
use marketdatabook.Book.Market.{Market}
use marketdatabook.Book.Market.View.{view, IsOnly}
use marketdatabook.Book.Tracked.{IsTracked}

-- The level of the index that a table entry names.
abbrev pub level_at : Owners → Option ℕ → Option ℕ
level_at owner none = none
level_at owner (some tagged) = owner (index_of tagged)

pub record Represents (size : ℕ) (b : Book) (m : Market) : Type 0 where
  pub layout : Layout
  pub laid : IsLaid size b layout
  pub tracked : IsTracked b
  pub same_queues : (k : ℕ) → m.queues k ≡ view b.pool (layout.queues k)
  pub same_place : (id : ℕ) → m.place id ≡ level_at layout.owner (entry b id)
  pub same_room : m.room ≡ length layout.free

module _ {size : ℕ} {b : Book} {l : Layout} (v : IsLaid size b l) where
  -- An index of a queue is the only one there with its id.
  pub queue-IsOnly : (k idx : ℕ) → l.owner idx ≡ some k → IsOnly b.pool idx (l.queues k)
  queue-IsOnly k idx mine x mem same =
      order_reference_number_unique v x idx k k (v.in_queues.owned x k mem) mine same

-- A call on the book and a call on the market return or throw alike, and leave a book that stands
-- for the market.
unfoldable pub Matches : ℕ → Result Book → Result Market → Type 0
Matches size (done b) (done m) = Represents size b m
Matches size (threw e b) (threw e' m) = (e ≡ e') × Represents size b m
Matches size (done b) (threw e m) = ⊥
Matches size (threw e b) (done m) = ⊥

pub Matches-state :
    {size : ℕ} (rb : Result Book) (rm : Result Market)
    → Matches size rb rm
    → Represents size (state rb) (state rm)
unfolding Matches
Matches-state (done b) (done m) v = v
Matches-state (threw e b) (threw e' m) (same, v) = v
Matches-state (done b) (threw e m) v = absurd v
Matches-state (threw e b) (done m) v = absurd v
