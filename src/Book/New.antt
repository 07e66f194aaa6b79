-- ===== src/Book/New.antt =====
-- The book as the constructor of LimitOrderBook.cpp leaves it.
use marketdatabook.Common.{ℕ, zero, suc, ◌-◌, ◌<◌, ◌==◌, ◌≡◌, arith, refl, state}
use marketdatabook.Common.{Bool-cases, inl, inr}
use marketdatabook.Bitset.{empty}
use marketdatabook.Bitset.Levels.{empty-IsConsistent, contains-empty}
use marketdatabook.Book.{new, null_index, max_ticks, link_free, zero_order}
use marketdatabook.Book.{set_next}
use marketdatabook.Book.Tracked.{IsTracked, IsTracking}

price-link_free : (n i : ℕ) → (link_free n (λ _. zero_order) i).price ≡ 0
unfolding link_free
price-link_free zero i = refl
price-link_free (suc n) i = ground (arith, price-link_free n i, price-link_free n n)

empty-IsTracking : IsTracking (λ _. record { head = null_index; tail = null_index }) empty
empty-IsTracking = record {
  consistent = empty-IsConsistent;
  tracks = λ t h. contains-empty t;
  no_others = λ t lo hi. contains-empty t;
}

pub new-IsTracked : (max_orders : ℕ) → IsTracked (state (new max_orders))
unfolding new
new-IsTracked max_orders =
    let last = max_orders - 1 in
    let priced : (i : ℕ)
        → (set_next (link_free last (λ _. zero_order)) last null_index i).price < max_ticks =
      λ i. ground (arith, price-link_free last i, price-link_free last last) in
    elim (Bool-cases (max_orders == 0)) [
      | inl e ↦
          rw (e, new)
            (record {
              bids_tracked = empty-IsTracking;
              asks_tracked = empty-IsTracking;
              prices = priced;
            })
      | inr e ↦
          rw (e, new)
            (record {
              bids_tracked = empty-IsTracking;
              asks_tracked = empty-IsTracking;
              prices = priced;
            })
    ]
