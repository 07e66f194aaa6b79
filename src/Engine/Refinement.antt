-- ===== src/Engine/Refinement.antt =====
-- The consumer of main.cpp as a matching of its book with a market, for any sequence of orders.
use marketdatabook.Common.{ℕ, ◌^◌, ◌<◌, ◌≤◌, ◌≡◌, ◌⊎◌, inl, inr, refl}
use marketdatabook.Common.{List, [], ◌∷◌, none, Result, done, threw, state}
use marketdatabook.Itch.{NormalizedOrder, add_order, execute_order, cancel_order}
use marketdatabook.Book.{Book, new, map_bits}
use marketdatabook.Book.Market.{Market, enter, withdraw, fill, closed}
use marketdatabook.Book.Represents.{Represents, Matches}
use marketdatabook.Book.Represents.Entering.{new-Represents, add_order-Matches}
use marketdatabook.Book.Represents.Leaving.{execute_order-Matches, cancel_order-Represents}
use marketdatabook.Engine.{dispatch, consume}

unfoldable pub trade_one : Market → NormalizedOrder → Result Market
trade_one m (add_order o) = done (enter m o)
trade_one m (execute_order o) = fill m o
trade_one m (cancel_order o) = done (withdraw m o.order_reference_number)

-- The orders on the market, up to one that is refused.
unfoldable pub trade : Market → List NormalizedOrder → Result Market
trade m [] = done m
trade m (o ∷ os) = elim (trade_one m o) [ done m' ↦ trade m' os | threw e m' ↦ threw e m' ]

-- No order that enters has the id of one that rests.
abbrev pub IsNew : Market → NormalizedOrder → Type 0
IsNew m (add_order o) = m.place o.order_reference_number ≡ none
IsNew m (execute_order o) = Unit
IsNew m (cancel_order o) = Unit

unfoldable pub AreNew : Market → List NormalizedOrder → Type 0
AreNew m [] = Unit
AreNew m (o ∷ os) = IsNew m o × AreNew (state (trade_one m o)) os

pub dispatch-Matches :
    {size : ℕ} {b : Book} {m : Market} (o : NormalizedOrder)
    → Represents size b m
    → IsNew m o
    → Matches size (dispatch b o) (trade_one m o)
unfolding dispatch trade_one Matches
dispatch-Matches (add_order o) v new = add_order-Matches v o new
dispatch-Matches (execute_order o) v new = execute_order-Matches v o
dispatch-Matches (cancel_order o) v new = cancel_order-Represents o.order_reference_number v

-- A match of two calls, by what they return.
Matches-cases :
    {size : ℕ} (rb : Result Book) (rm : Result Market)
    → Matches size rb rm
    → ((b : Book) × (m : Market) × (rb ≡ done b) × (rm ≡ done m) × Represents size b m)
      ⊎ ((e : _) × (b : Book) × (m : Market) × (rb ≡ threw e b)
          × (rm ≡ threw e m)
          × Represents size b m)
unfolding Matches
Matches-cases (done b) (done m) v = inl (b, m, refl, refl, v)
Matches-cases (threw e b) (threw e' m) (same, v) = inr (e, b, m, refl, rw (same) refl, v)
Matches-cases (done b) (threw e m) v = absurd v
Matches-cases (threw e b) (done m) v = absurd v

pub consume-Matches :
    (os : List NormalizedOrder) {size : ℕ} {b : Book} {m : Market}
    → Represents size b m
    → AreNew m os
    → Matches size (consume b os) (trade m os)
unfolding consume trade AreNew Matches
consume-Matches [] v new = v
consume-Matches (o ∷ os) {size} {b} {m} v (first_new, rest_new) =
    elim (Matches-cases (dispatch b o) (trade_one m o) (dispatch-Matches o v first_new)) [
      | inl (b', m', run, trade_run, v') ↦
          rw (run, trade_run, consume, trade) (consume-Matches os v' (rw (trade_run) at rest_new))
      | inr (e, b', m', run, trade_run, v') ↦
          rw (run, trade_run, consume, trade, Matches) (refl, v')
    ]

-- For a pool of at least one order and at most 2 ^ 22, and orders of which none that enters has the
-- id of one that rests, the consumer with a new book returns or throws as the market of queues in
-- order of arrival does, and leaves a book that stands for the market then.
pub consume-new :
    (max_orders : ℕ) (os : List NormalizedOrder) (b : Book)
    → 0 < max_orders
    → max_orders ≤ 2 ^ map_bits
    → AreNew (closed max_orders) os
    → new max_orders ≡ done b
    → Matches max_orders (consume b os) (trade (closed max_orders) os)
consume-new max_orders os b pos few fresh made =
    let v : Represents max_orders b (closed max_orders) =
      rw (made) at (new-Represents max_orders pos few) in
    consume-Matches os v fresh
