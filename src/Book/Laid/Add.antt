-- ===== src/Book/Laid/Add.antt =====
-- `add_order_impl` of LimitOrderBook.cpp moves the first free index to the end of a queue.
use mathlib.Core.Path.{subst}
use native.Mathlib.Decide.{ℕ_discrete}
use marketdatabook.Common.{
  ℕ, ◌^◌, ◌<◌, ◌==◌, ◌≡◌, ◌≢◌, refl, arith, if◌then◌else◌, ap, ◌∙◌, sym, bit_or,
}
use marketdatabook.Common.{none, some, List, [], ◌∷◌, ◌++◌, update, true, done}
use marketdatabook.OrderMap
use marketdatabook.OrderMap.Laws.{Models}
use marketdatabook.OrderMap.Assign.{assign-Models}
use marketdatabook.Itch.{NormalizedAddOrder}
use marketdatabook.Book.{Side, Book, null_index, map_bits, levels}
use marketdatabook.Book.Orders.{
  add_order_impl, enqueue, add_update_price_level, filled, side_tag, index_of,
}
use marketdatabook.Book.Chain.{has, last, has-last_from, Distinct}
use marketdatabook.Book.Tags.{tag, level_of, level_of-price, tag_lem, index_of-tag}
use marketdatabook.Book.Queued.{IsQueued, IsQueued-congr, add_update_price_level-IsQueued}
use marketdatabook.Book.Laid.{
  IsLaid, Layout, levels_of, levels_of-level_of, IsFreeChain, IsFreeChain-congr,
}
use marketdatabook.Book.Laid.{entry}
use marketdatabook.Book.Laid.Room.{HasRoom-free}

enqueue-rest :
    (side : Side) (b : Book) (price idx : ℕ)
    → let b' = enqueue side b price idx in
      (b'.pool ≡ (add_update_price_level b.pool (levels side b price) idx).0)
      × (b'.orders ≡ b.orders)
      × (b'.next_free_index ≡ b.next_free_index)
unfolding enqueue
enqueue-rest Side.buy b price idx = (refl, refl, refl)
enqueue-rest Side.sell b price idx = (refl, refl, refl)

levels_of-enqueue :
    (side : Side) (b : Book) (price idx j : ℕ)
    → levels_of (enqueue side b price idx) j
      ≡ update
          (levels_of b)
          (level_of side price)
          (add_update_price_level b.pool (levels side b price) idx).1
          j
unfolding enqueue
levels_of-enqueue Side.buy b price idx j = ground arith
levels_of-enqueue Side.sell b price idx j = ground arith

-- What an addition leaves of a book, field by field.
record IsAdded (b b' : Book) (order : NormalizedAddOrder) (k idx : ℕ) : Type 0 where
  pools :
      b'.pool
      ≡ (add_update_price_level
          (update b.pool idx (filled (b.pool idx) order))
          (levels_of b k)
          idx).0
  table :
      Models map_bits
        (λ j. if order.order_reference_number == j then some (tag k idx) else entry b j)
        b'.orders
  frees : b'.next_free_index ≡ (b.pool idx).next
  ends :
      (j : ℕ)
      → levels_of b' j
        ≡ update
            (levels_of b)
            k
            (add_update_price_level
              (update b.pool idx (filled (b.pool idx) order))
              (levels_of b k)
              idx).1
            j

abbrev stored : Book → NormalizedAddOrder → OrderMap.OrderMap → Book
stored b order m = record b {
  next_free_index = (b.pool b.next_free_index).next;
  pool = update b.pool b.next_free_index (filled (b.pool b.next_free_index) order);
  orders = m;
}

levels-stored :
    (side : Side) (b : Book) (order : NormalizedAddOrder) (m : OrderMap.OrderMap)
    → levels side (stored b order m) ≡ levels side b
levels-stored Side.buy b order m = refl
levels-stored Side.sell b order m = refl

add_order_impl-stored :
    (side : Side) (b : Book) (order : NormalizedAddOrder) {m : OrderMap.OrderMap}
    → OrderMap.assign map_bits b.orders order.order_reference_number
        (bit_or (side_tag side) b.next_free_index)
      ≡ done m
    → add_order_impl side b order
      ≡ done (enqueue side (stored b order m) order.price b.next_free_index)
unfolding add_order_impl
add_order_impl-stored side b order run = rw (run, add_order_impl) refl

module _ {size : ℕ} {b : Book} {l : Layout} (v : IsLaid size b l) (side : Side)
    (order : NormalizedAddOrder) (rest : List ℕ) (head : l.free ≡ b.next_free_index ∷ rest) where
  abbrev idx : ℕ
  idx = b.next_free_index

  abbrev place : ℕ
  place = level_of side order.price

  free : has idx l.free ≡ true
  free = rw (head) (ground (arith))

  pub next_free_index-lt : idx < 2 ^ 22
  next_free_index-lt = omega (arith, v.free_small idx free, v.few)

  -- The layout after the addition.
  abbrev pub added : Layout
  added = record {
    queues = update l.queues place (l.queues place ++ idx ∷ []);
    owner = update l.owner idx (some place);
    free = rest;
  }

  chain : IsFreeChain b.pool (b.pool idx).next rest
  unfolding IsFreeChain
  chain =
      let whole : IsFreeChain b.pool idx (idx ∷ rest) =
        subst (IsFreeChain b.pool idx) head v.free_chain in
      whole.1

  enqueue-IsAdded :
      (m : OrderMap.OrderMap)
      → Models map_bits
          (λ j. if order.order_reference_number == j then some (tag place idx) else entry b j)
          m
      → IsAdded b (enqueue side (stored b order m) order.price idx) order place idx
  enqueue-IsAdded m models =
      let b1 = stored b order m in
      let other = enqueue-rest side b1 order.price idx in
      let same : levels side b1 order.price ≡ levels_of b place =
        ap (λ lv. lv order.price) (levels-stored side b order m)
        ∙ sym (levels_of-level_of b side order.price) in
      record {
        pools = other.0 ∙ ap (λ lv. (add_update_price_level b1.pool lv idx).0) same;
        table = rw (other.1) models;
        frees = other.2;
        ends = λ j.
            levels_of-enqueue side b1 order.price idx j
            ∙ ap (λ lv. update (levels_of b) place (add_update_price_level b1.pool lv idx).1 j)
                same;
      }

  module _ (fresh : entry b order.order_reference_number ≡ none) {b' : Book}
      (r : IsAdded b b' order place idx) where
    alone : l.owner idx ≡ none
    alone = v.free_alone idx free

    filled_queues :
        IsQueued (update b.pool idx (filled (b.pool idx) order)) (levels_of b) l.queues l.owner
    filled_queues = IsQueued-congr v.in_queues (λ x k o. ground arith) (λ k. refl)

    added_queues : IsQueued b'.pool (levels_of b') added.queues added.owner
    added_queues = rw (r.pools) (
        IsQueued-congr
          (add_update_price_level-IsQueued filled_queues place idx alone
            (omega (arith, next_free_index-lt)))
          (λ x k o. (refl, refl)) r.ends)

    same_links : (x : ℕ) → l.owner x ≡ none → x ≢ idx → (b'.pool x).next ≡ (b.pool x).next
    unfolding add_update_price_level
    same_links x o ne = ground (
      arith,
      ap (λ p. (p x).next) r.pools,
      v.in_queues.tails place,
      v.in_queues.owned (last (l.queues place)) place,
      has-last_from null_index (l.queues place),
    )

    same_fields :
        (x : ℕ)
        → let slot = (update b.pool idx (filled (b.pool idx) order)) x in
          ((b'.pool x).price ≡ slot.price)
          × ((b'.pool x).order_reference_number ≡ slot.order_reference_number)
          × ((b'.pool x).shares ≡ slot.shares)
    unfolding add_update_price_level
    same_fields x = rw (r.pools) (ground arith)

    rest-Distinct : Distinct (idx ∷ rest)
    rest-Distinct = subst Distinct head v.free_distinct

    rest_free : (x : ℕ) → has x rest ≡ true → (has x l.free ≡ true) × (x ≢ idx)
    rest_free x h = (rw (head) (ground (arith)), ground (arith, rest-Distinct))

    own_index : index_of (tag place idx) ≡ idx
    own_index = index_of-tag place idx (omega (arith, next_free_index-lt))

    -- An order in a queue has another id than the new one.
    others :
        (x j : ℕ)
        → l.owner x ≡ some j
        → (b.pool x).order_reference_number ≢ order.order_reference_number
    others x j o same = ground (arith, v.entries x j o, fresh)

    added-IsLaid : IsLaid size b' added
    added-IsLaid = record {
      in_queues = added_queues;
      free_chain = rw (r.frees) (
          IsFreeChain-congr b.pool b'.pool (b.pool idx).next rest
            (λ x h. same_links x (v.free_alone x (rest_free x h).0) (rest_free x h).1) chain);
      free_distinct = rest-Distinct.1;
      free_alone = λ x h. ground (arith, v.free_alone x, rest_free x h);
      free_small = λ x h. v.free_small x (rest_free x h).0;
      small = λ x j o. ground (arith, v.small x j, v.free_small idx);
      few = v.few;
      priced =
          λ x j o. ground (arith, v.priced x j, same_fields x, level_of-price side order.price);
      table = r.table.in_order;
      entries = λ x j o. ground (
        arith,
        same_fields x,
        r.table.values (b'.pool x).order_reference_number,
        v.entries x j,
        others x j,
      );
      listed = λ id tagged e. elim (ℕ_discrete order.order_reference_number id) [
        | yes same ↦
            let own : tag place idx ≡ tagged = ground (arith, r.table.values id) in
            let at : index_of tagged ≡ idx = sym (ap index_of own) ∙ own_index in
            (
              place,
              rw (at) (ground (arith)),
              rw (at) (sym own),
              rw (at) (ground (arith, same_fields idx)),
            )
        | no ne ↦
            let (j, o, same, its_id) = v.listed id tagged (ground (arith, r.table.values id)) in
            let elsewhere : index_of tagged ≢ idx = ground (arith, alone) in
            (j, ground (arith), same, ground (arith, same_fields (index_of tagged)))
      ];
    }

  -- An addition of a new order takes the first free index and puts it at the end of its queue.
  pub add_order_impl-IsLaid :
      entry b order.order_reference_number ≡ none
      → (b' : Book) × (add_order_impl side b order ≡ done b')
        × IsLaid size b' added
        × ((x : ℕ)
            → let slot = update b.pool idx (filled (b.pool idx) order) x in
              ((b'.pool x).order_reference_number ≡ slot.order_reference_number)
              × ((b'.pool x).shares ≡ slot.shares))
        × ((id : ℕ)
            → entry b' id
              ≡ (if order.order_reference_number == id then some (tag place idx) else entry b id))
  add_order_impl-IsLaid fresh =
      let (m, run, models) =
        assign-Models map_bits v.table order.order_reference_number (bit_or (side_tag side) idx)
          (HasRoom-free v idx free) in
      let r =
        enqueue-IsAdded m
          (rw (← tag_lem side order.price idx (omega (arith, next_free_index-lt))) models) in
      (
        _,
        add_order_impl-stored side b order run,
        added-IsLaid fresh r,
        λ x. let same = same_fields fresh r x in (same.1, same.2),
        r.table.values,
      )
