-- ===== src/Book/Represents/Leaving.antt =====
-- `cancel_order` and `execute_order` of LimitOrderBook.cpp do to the market what they promise.
use marketdatabook.Common.{
  ℕ, ◌+◌, ◌-◌, ◌==◌, ltb, ◌^◌, ◌<◌, ◌≡◌, ◌≢◌, refl, ==_refl, ==_of_ne, List, arith, ap, ◌∙◌, sym,
  if◌then◌else◌,
}
use marketdatabook.Common.{none, some, Option-cases, inl, inr, Bool-cases, update}
use native.Mathlib.Decide.{ℕ_discrete}
use marketdatabook.Itch.{NormalizedOrderExecuted}
use marketdatabook.Book.{Book}
use marketdatabook.Book.Orders.{
  index_of, side_of, cancel_order, execute_order, execute_found, release_order_to_pool,
}
use marketdatabook.Book.Chain.{remove}
use marketdatabook.Book.Tags.{side_at, side_of-tag}
use marketdatabook.Book.Laid.{entry, lookup-entry}
use marketdatabook.Book.Laid.Release.{
  released, release_order_to_pool-IsLaid, release_order_to_pool-fields, release_order_to_pool-entry,
}
use marketdatabook.Book.Market.{Market, withdraw, without, reduce, reduced, quantity, fill}
use marketdatabook.Book.Market.View.{view, view-congr, view-remove, view-reduced, quantity-view}
use marketdatabook.Book.Tracked.{index_of-ne_null}
use marketdatabook.Book.Best.{release-IsTracked}
use marketdatabook.Book.Laid.{IsLaid-congr}
use marketdatabook.Book.Represents.{Represents, Matches, level_at, queue-IsOnly}

module _ {size : ℕ} {b : Book} {m : Market} (v : Represents size b m) where
  -- The order that a table entry names, and its level.
  pub record IsResting (id tagged : ℕ) : Type 0 where
    pub k : ℕ
    pub mine : v.layout.owner (index_of tagged) ≡ some k
    pub its_id : (b.pool (index_of tagged)).order_reference_number ≡ id
    pub side : side_of tagged ≡ side_at k
    pub placed : m.place id ≡ some k

  pub entry-IsResting : (id tagged : ℕ) → entry b id ≡ some tagged → IsResting id tagged
  entry-IsResting id tagged e =
      let (k, o, same, its_id) = v.laid.listed id tagged e in
      let small : index_of tagged < 2 ^ 31 =
        omega (arith, v.laid.small (index_of tagged) k o, v.laid.few) in
      record {
        k = k;
        mine = o;
        its_id = its_id;
        side = ap side_of same ∙ side_of-tag k (index_of tagged) small;
        placed = v.same_place id ∙ ap (level_at v.layout.owner) e ∙ o;
      }

  module _ {id tagged : ℕ} (r : IsResting id tagged) where
    abbrev idx : ℕ
    idx = index_of tagged

    abbrev left : Book
    left = release_order_to_pool (side_at r.k) b idx

    kept_view : (xs : List ℕ) → view left.pool xs ≡ view b.pool xs
    kept_view xs =
        view-congr b.pool left.pool xs (λ x h. release_order_to_pool-fields v.laid r.k idx r.mine x)

    withdraw-resting : withdraw m id ≡ record {
      queues = update m.queues r.k (without id (m.queues r.k));
      place = update m.place id none;
      room = m.room + 1;
    }
    unfolding withdraw
    withdraw-resting = rw (r.placed, withdraw) refl

    left_queue : without id (m.queues r.k) ≡ view b.pool (remove idx (v.layout.queues r.k))
    left_queue =
        ap (without id) (v.same_queues r.k)
        ∙ rw (← r.its_id) (
            sym (view-remove b.pool idx (v.layout.queues r.k) (queue-IsOnly v.laid r.k idx r.mine)))

    left_queues :
        (j : ℕ)
        → update m.queues r.k (without id (m.queues r.k)) j
          ≡ view left.pool ((released v.laid r.k idx r.mine).queues j)
    left_queues j = elim (ℕ_discrete r.k j) [
      | yes same ↦ rw (kept_view, ← same, ==_refl r.k) left_queue
      | no ne ↦ rw (kept_view, ==_of_ne r.k j ne) (v.same_queues j)
    ]

    left_place :
        (j : ℕ)
        → update m.place id none j ≡ level_at (update v.layout.owner idx none) (entry left j)
    left_place j =
        rw (release_order_to_pool-entry v.laid r.k idx r.mine j, r.its_id)
          (elim (ℕ_discrete id j) [
            | yes same ↦ rw (same, ==_refl j) refl
            | no ne ↦ rw (==_of_ne id j ne) (
                v.same_place j ∙ elim (Option-cases (entry b j)) [
                  | inl e ↦ rw (e) refl
                  | inr (other, e) ↦
                      let (k, o, same, other_id) = v.laid.listed j other e in
                      let elsewhere : idx ≢ index_of other = ground (arith, r.its_id) in
                      rw (e, ==_of_ne idx (index_of other) elsewhere) refl
                ])
          ])

    -- The release of an order that rests is its withdrawal.
    pub release_order_to_pool-Represents :
        Represents size (release_order_to_pool (side_of tagged) b idx) (withdraw m id)
    release_order_to_pool-Represents =
        rw (r.side, withdraw-resting)
          (record {
            layout = released v.laid r.k idx r.mine;
            laid = release_order_to_pool-IsLaid v.laid r.k idx r.mine;
            tracked = release-IsTracked (side_at r.k) idx (index_of-ne_null tagged) v.tracked;
            same_queues = left_queues;
            same_place = left_place;
            same_room = omega (arith, v.same_room);
          })

    abbrev spent : ℕ → Book
    spent shares = record b {
      pool = update b.pool idx (record (b.pool idx) { shares = (b.pool idx).shares - shares });
    }

    spent_fields :
        (shares x : ℕ)
        → let order = (spent shares).pool x in
          (order.order_reference_number ≡ (b.pool x).order_reference_number)
          × (order.shares ≡ (if idx == x then (b.pool x).shares - shares else (b.pool x).shares))
    spent_fields shares x = ground arith

    spent_queues :
        (shares j : ℕ)
        → (reduce m r.k id shares).queues j ≡ view (spent shares).pool (v.layout.queues j)
    spent_queues shares j = elim (ℕ_discrete r.k j) [
      | yes same ↦
          rw (← same, ==_refl r.k)
            (ap (reduced id shares) (v.same_queues r.k)
              ∙ rw (← r.its_id) (
                  sym (
                    view-reduced b.pool (spent shares).pool idx shares (v.layout.queues r.k)
                      (queue-IsOnly v.laid r.k idx r.mine) (v.laid.in_queues.distinct r.k)
                      (spent_fields shares))))
      | no ne ↦ rw (==_of_ne r.k j ne) (
          v.same_queues j
          ∙ sym (
              view-congr b.pool (spent shares).pool (v.layout.queues j) (λ x h.
                ground (arith, spent_fields shares x, v.laid.in_queues.owned x j h, r.mine))))
    ]

    -- Shares that are taken from an order that rests are taken from it in its queue.
    pub spent-Represents : (shares : ℕ) → Represents size (spent shares) (reduce m r.k id shares)
    spent-Represents shares = record {
      layout = v.layout;
      laid = IsLaid-congr v.laid (λ x. ground arith);
      tracked = record {
        bids_tracked = v.tracked.bids_tracked;
        asks_tracked = v.tracked.asks_tracked;
        prices = λ x. ground (arith, v.tracked.prices x, v.tracked.prices idx);
      };
      same_queues = spent_queues shares;
      same_place = v.same_place;
      same_room = v.same_room;
    }

    quantity-resting : quantity id (m.queues r.k) ≡ (b.pool idx).shares
    quantity-resting =
        ap (quantity id) (v.same_queues r.k)
        ∙ rw (← r.its_id) (
            quantity-view b.pool idx (v.layout.queues r.k) (queue-IsOnly v.laid r.k idx r.mine)
              (v.laid.in_queues.queued idx r.k r.mine))

-- On a book that stands for a market, `cancel_order` takes the order out of its queue and makes
-- room for another, and does nothing where it does not rest.
pub cancel_order-Represents :
    {size : ℕ} {b : Book} {m : Market} (id : ℕ)
    → Represents size b m
    → Represents size (cancel_order b id) (withdraw m id)
unfolding cancel_order withdraw
cancel_order-Represents {size} {b} {m} id v = elim (Option-cases (entry b id)) [
  | inl e ↦
      let missing : m.place id ≡ none = v.same_place id ∙ ap (level_at v.layout.owner) e in
      rw (lookup-entry b id, e, missing, cancel_order, withdraw) v
  | inr (tagged, e) ↦
      rw (lookup-entry b id, e, cancel_order)
        (release_order_to_pool-Represents v (entry-IsResting v id tagged e))
]

module _ {size : ℕ} {b : Book} {m : Market} (v : Represents size b m)
    (order : NormalizedOrderExecuted) where
  abbrev id : ℕ
  id = order.order_reference_number

  found-Matches :
      (tagged : ℕ)
      → entry b id ≡ some tagged
      → Matches size (execute_found b tagged order.shares) (fill m order)
  unfolding execute_found fill Matches
  found-Matches tagged e =
      let r = entry-IsResting v id tagged e in
      let rest = spent-Represents v r order.shares in
      elim (Bool-cases (ltb (b.pool (index_of tagged)).shares order.shares)) [
        | inl few ↦ rw (r.placed, quantity-resting v r, few, execute_found, fill, Matches) (refl, v)
        | inr enough ↦ elim (Bool-cases ((b.pool (index_of tagged)).shares - order.shares == 0)) [
          | inl all ↦
              rw (r.placed, quantity-resting v r, enough, all, execute_found, fill, Matches)
                (release_order_to_pool-Represents rest (entry-IsResting rest id tagged e))
          | inr some_left ↦
              rw (r.placed, quantity-resting v r, enough, some_left, execute_found, fill, Matches)
                rest
        ]
      ]

  -- On a book that stands for a market, `execute_order` takes the shares from the order at its
  -- place in the queue, takes it out of the queue when none are left, throws and changes nothing
  -- where it has fewer, and does nothing where it does not rest.
  pub execute_order-Matches : Matches size (execute_order b order) (fill m order)
  unfolding execute_order fill Matches
  execute_order-Matches = elim (Option-cases (entry b id)) [
    | inl e ↦
        let missing : m.place id ≡ none = v.same_place id ∙ ap (level_at v.layout.owner) e in
        rw (lookup-entry b id, e, missing, execute_order, fill, Matches) v
    | inr (tagged, e) ↦ rw (lookup-entry b id, e, execute_order) (found-Matches tagged e)
  ]
