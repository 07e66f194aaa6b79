-- ===== src/Book/Laid/Release.antt =====
-- `release_order_to_pool` of LimitOrderBook.cpp moves an index from its queue to the free indices.
use marketdatabook.Common.{ℕ, ◌/◌, ◌^◌, ◌<◌, ◌==◌, ◌≡◌, refl, arith, if◌then◌else◌, ap, ◌∙◌}
use marketdatabook.Common.{none, some, ◌∷◌, Array, update, true}
use marketdatabook.OrderMap
use marketdatabook.OrderMap.Laws.{Models, erase-Models}
use marketdatabook.Book.{Side, Order, Book, map_bits, levels, set_next}
use marketdatabook.Book.Orders.{
  release_level, release_order_to_pool, execute_update_price_level, unlink, index_of,
}
use marketdatabook.Book.Chain.{has, remove}
use marketdatabook.Book.Tags.{side_at, level_of, level_of-side_at}
use marketdatabook.Book.Queued.{IsQueued, unlink-IsQueued, unlink-next, IsQueued-congr}
use marketdatabook.Book.Queued.{prev_owner, prev_ne}
use marketdatabook.Book.Laid.{
  order_reference_number_unique, IsLaid, Layout, levels_of, levels_of-level_of, IsFreeChain,
  IsFreeChain-congr, entry,
}

-- A release touches nothing of a book but its levels and bitsets.
release_level-rest :
    (side : Side) (b : Book) (order : Order) (idx : ℕ)
    → let b' = release_level side b order idx in
      (b'.pool ≡ b.pool) × (b'.orders ≡ b.orders) × (b'.next_free_index ≡ b.next_free_index)
unfolding release_level
release_level-rest Side.buy b order idx = ground arith
release_level-rest Side.sell b order idx = ground arith

levels_of-release_level :
    (side : Side) (b : Book) (order : Order) (idx j : ℕ)
    → levels_of (release_level side b order idx) j
      ≡ update
          (levels_of b)
          (level_of side order.price)
          (execute_update_price_level (levels side b order.price) order idx)
          j
unfolding release_level
levels_of-release_level Side.buy b order idx j = ground arith
levels_of-release_level Side.sell b order idx j = ground arith

unlink_rest :
    (pool : Array Order) (idx x : ℕ)
    → ((unlink pool idx x).price ≡ (pool x).price)
      × ((unlink pool idx x).order_reference_number ≡ (pool x).order_reference_number)
      × ((unlink pool idx x).shares ≡ (pool x).shares)
unfolding unlink
unlink_rest pool idx x = ground arith

-- What a release leaves of a book, field by field.
record IsReleased (b b' : Book) (k idx : ℕ) : Type 0 where
  pools : (x : ℕ) → b'.pool x ≡ set_next (unlink b.pool idx) idx b.next_free_index x
  tables : b'.orders ≡ OrderMap.erase map_bits b.orders (b.pool idx).order_reference_number
  frees : b'.next_free_index ≡ idx
  ends :
      (j : ℕ)
      → levels_of b' j
        ≡ update
            (levels_of b)
            k
            (execute_update_price_level (levels_of b k) (unlink b.pool idx idx) idx)
            j

module _ {size : ℕ} {b : Book} {l : Layout} (v : IsLaid size b l) (k idx : ℕ)
    (mine : l.owner idx ≡ some k) where
  -- The layout after the release.
  abbrev pub released : Layout
  released = record {
    queues = update l.queues k (remove idx (l.queues k));
    owner = update l.owner idx none;
    free = idx ∷ l.free;
  }

  release_order_to_pool-IsReleased : IsReleased b (release_order_to_pool (side_at k) b idx) k idx
  unfolding release_order_to_pool
  release_order_to_pool-IsReleased =
      let side = side_at k in
      let b1 : Book = record b { pool = unlink b.pool idx } in
      let order = unlink b.pool idx idx in
      let rest = release_level-rest side b1 order idx in
      let own = unlink_rest b.pool idx idx in
      let price : order.price ≡ k / 2 = own.0 ∙ v.priced idx k mine in
      let same : level_of side order.price ≡ k = ap (level_of side) price ∙ level_of-side_at k in
      record {
        pools = λ x. rw (rest.0, rest.2) refl;
        tables = rw (rest.1, own.1) refl;
        frees = refl;
        ends = λ j.
            levels_of-release_level side b1 order idx j
            ∙ rw (← levels_of-level_of b1 side order.price, same) refl;
      }

  module _ {b' : Book} (r : IsReleased b b' k idx) where
    released_queues : IsQueued b'.pool (levels_of b') released.queues released.owner
    released_queues =
        IsQueued-congr (unlink-IsQueued v.in_queues k idx mine) (λ x j o. ground (arith, r.pools x))
          r.ends

    -- A free index keeps its link: no neighbour of the released order is free.
    kept_next : (x : ℕ) → has x l.free ≡ true → (b'.pool x).next ≡ (b.pool x).next
    kept_next x free = ground (
      arith,
      r.pools x,
      v.free_alone x free,
      mine,
      unlink-next b.pool idx x (prev_ne v.in_queues k idx mine),
      prev_owner v.in_queues k idx mine,
      v.in_queues.prevs idx k mine,
    )

    same_fields :
        (x : ℕ)
        → ((b'.pool x).price ≡ (b.pool x).price)
          × ((b'.pool x).order_reference_number ≡ (b.pool x).order_reference_number)
          × ((b'.pool x).shares ≡ (b.pool x).shares)
    same_fields x = ground (arith, r.pools x, unlink_rest b.pool idx x)

    erased :
        Models map_bits
          (λ id. if (b.pool idx).order_reference_number == id then none else entry b id)
          b'.orders
    erased = rw (r.tables) (erase-Models map_bits v.table (b.pool idx).order_reference_number)

    in_range : (x j : ℕ) → l.owner x ≡ some j → x < 2 ^ 31
    in_range x j o = omega (arith, v.small x j o, v.few)

    released_chain : IsFreeChain b'.pool b'.next_free_index (idx ∷ l.free)
    unfolding IsFreeChain
    released_chain =
        let link : (b'.pool idx).next ≡ b.next_free_index = ground (arith, r.pools idx) in
        (
          r.frees,
          rw (link)
              (IsFreeChain-congr b.pool b'.pool b.next_free_index l.free kept_next v.free_chain),
        )

    released-IsLaid : IsLaid size b' released
    released-IsLaid = record {
      in_queues = released_queues;
      free_chain = released_chain;
      free_distinct = (ground (arith, v.free_alone idx), v.free_distinct);
      free_alone = λ x h. ground (arith, v.free_alone x);
      free_small = λ x h. ground (arith, v.free_small x, v.small idx k mine);
      small = λ x j o. ground (arith, v.small x j);
      few = v.few;
      priced = λ x j o. ground (arith, v.priced x j, same_fields x);
      table = erased.in_order;
      entries = λ x j o. ground (
        arith,
        same_fields x,
        erased.values (b.pool x).order_reference_number,
        v.entries x j,
        order_reference_number_unique v x idx j k,
      );
      listed = λ id tagged e.
          let (j, o, same, its_id) = v.listed id tagged (ground (arith, erased.values id)) in
          (
            j,
            ground (arith, erased.values id),
            same,
            ground (arith, same_fields (index_of tagged)),
          );
    }

  -- A release takes the index out of its queue and puts it before the free ones.
  pub release_order_to_pool-IsLaid : IsLaid size (release_order_to_pool (side_at k) b idx) released
  release_order_to_pool-IsLaid = released-IsLaid release_order_to_pool-IsReleased

  pub release_order_to_pool-fields :
      (x : ℕ)
      → let order = (release_order_to_pool (side_at k) b idx).pool x in
        (order.order_reference_number ≡ (b.pool x).order_reference_number)
        × (order.shares ≡ (b.pool x).shares)
  release_order_to_pool-fields x =
      let same = same_fields release_order_to_pool-IsReleased x in (same.1, same.2)

  pub release_order_to_pool-entry :
      (id : ℕ)
      → entry (release_order_to_pool (side_at k) b idx) id
        ≡ (if (b.pool idx).order_reference_number == id then none else entry b id)
  release_order_to_pool-entry = (erased release_order_to_pool-IsReleased).values
