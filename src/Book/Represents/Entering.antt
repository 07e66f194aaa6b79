-- ===== src/Book/Represents/Entering.antt =====
-- `add_order` of LimitOrderBook.cpp and its constructor do to the market what they promise.
use marketdatabook.Common.{
  ℕ, zero, suc, ◌+◌, ◌-◌, ◌==◌, ltb, ◌^◌, ◌<◌, ◌≤◌, ◌≡◌, ◌≢◌, refl, ==_refl, ==_of_ne, List, [],
  arith, ap, ◌∙◌, sym,
}
use marketdatabook.Common.{
  if◌then◌else◌, Option, none, some, Option-cases, inl, inr, ◌⊎◌, Bool-cases, length, update, true,
  false, ◌∷◌, ◌++◌,
}
use marketdatabook.Common.{done, state}
use native.Mathlib.Decide.{ℕ_discrete}
use marketdatabook.Itch.{NormalizedAddOrder}
use marketdatabook.Book.{Book, map_bits, Side, new, null_index, max_ticks}
use marketdatabook.Book.Orders.{index_of, add_order, add_order_impl, filled}
use marketdatabook.Book.Chain.{has}
use marketdatabook.Book.Tags.{tag, level_of, index_of-tag}
use marketdatabook.Book.Laid.{entry, IsFreeChain, IsFreeChain-head}
use marketdatabook.Book.Laid.Add.{added, add_order_impl-IsLaid, next_free_index-lt}
use marketdatabook.Book.Laid.New.{fresh, range, new-IsLaid}
use marketdatabook.Book.Market.{Market, Resting, enter, closed}
use marketdatabook.Book.Market.View.{view, view-congr, view-append, resting}
use marketdatabook.Book.Tracked.{IsTracked}
use marketdatabook.Book.New.{new-IsTracked}
use marketdatabook.Book.Best.{add_order-IsTracked}
use marketdatabook.Book.Represents.{Represents, Matches, level_at}

length-range : (from n : ℕ) → length (range from n) ≡ n
length-range from zero = refl
length-range from (suc n) = ap suc (length-range (from + 1) n)

level_at-none : (tagged : Option ℕ) → level_at (λ _. none) tagged ≡ none
level_at-none none = refl
level_at-none (some tagged) = refl

-- A book from the constructor stands for the market without orders.
pub new-Represents :
    (max_orders : ℕ)
    → 0 < max_orders
    → max_orders ≤ 2 ^ map_bits
    → Represents max_orders (state (new max_orders)) (closed max_orders)
new-Represents max_orders pos few =
    let (_, laid) = new-IsLaid max_orders pos few in
    record {
      layout = fresh max_orders;
      laid = laid;
      tracked = new-IsTracked max_orders;
      same_queues = λ k. refl;
      same_place = λ id. sym (level_at-none (entry (state (new max_orders)) id));
      same_room = sym (length-range 0 max_orders);
    }

module _ {size : ℕ} {b : Book} {m : Market} (v : Represents size b m)
    (order : NormalizedAddOrder) where
  abbrev id : ℕ
  id = order.order_reference_number

  no_free :
      (xs : List ℕ)
      → b.next_free_index ≡ null_index
      → IsFreeChain b.pool b.next_free_index xs
      → ((x : ℕ) → has x xs ≡ true → x < size)
      → length xs ≡ 0
  unfolding IsFreeChain
  no_free [] full c small = refl
  no_free (x ∷ xs) full c small = absurd (omega (arith, small x (ground arith), c.0, v.laid.few))

  -- There is room exactly where the chain of free indices has a head.
  free_cases :
      ((b.next_free_index ≡ null_index) × (m.room ≡ 0))
      ⊎ ((rest : List ℕ) × (v.layout.free ≡ b.next_free_index ∷ rest)
          × (b.next_free_index ≢ null_index)
          × (m.room ≡ length rest + 1))
  unfolding IsFreeChain
  free_cases = elim (ℕ_discrete b.next_free_index null_index) [
    | yes full ↦
        inl
          (full, rw (v.same_room) (no_free v.layout.free full v.laid.free_chain v.laid.free_small))
    | no ne ↦
        let (rest, head, _) =
          IsFreeChain-head b.pool b.next_free_index v.layout.free ne v.laid.free_chain in
        inr (rest, head, ne, v.same_room ∙ rw (head) (omega arith))
  ]

  not_there : m.place id ≡ none → entry b id ≡ none
  not_there missing = elim (Option-cases (entry b id)) [
    | inl e ↦ e
    | inr (tagged, e) ↦
        let (k, o, _, _) = v.laid.listed id tagged e in
        let both : none ≡ some k =
          sym missing ∙ v.same_place id ∙ ap (level_at v.layout.owner) e ∙ o in
        absurd (cc)
  ]

  module _ (side : Side) (rest : List ℕ) (head : v.layout.free ≡ b.next_free_index ∷ rest)
      (missing : m.place id ≡ none) where
    alone : v.layout.owner b.next_free_index ≡ none
    alone = v.laid.free_alone b.next_free_index (rw (head) (ground (arith)))

    abbrev k : ℕ
    k = level_of side order.price

    abbrev entered : Market
    entered =
        let own : Resting = record { order_reference_number = id; shares = order.shares } in
        record {
          queues = update m.queues k (m.queues k ++ own ∷ []);
          place = update m.place id (some k);
          room = m.room - 1;
        }

    module _ (b' : Book)
        (fields : (x : ℕ)
          → let slot =
              update b.pool b.next_free_index (filled (b.pool b.next_free_index) order) x in
            ((b'.pool x).order_reference_number ≡ slot.order_reference_number)
            × ((b'.pool x).shares ≡ slot.shares)) where
      old_view : (j : ℕ) → view b'.pool (v.layout.queues j) ≡ view b.pool (v.layout.queues j)
      old_view j =
          view-congr b.pool b'.pool (v.layout.queues j)
            (λ x h. ground (arith, fields x, v.laid.in_queues.owned x j h, alone))

      entered_queues :
          (j : ℕ) → entered.queues j ≡ view b'.pool ((added v.laid side order rest head).queues j)
      entered_queues j = elim (ℕ_discrete k j) [
        | yes same ↦
            let own : resting b'.pool b.next_free_index
                ≡ record { order_reference_number = id; shares = order.shares } =
              rw
                (
                  (fields b.next_free_index).0,
                  (fields b.next_free_index).1,
                  ==_refl b.next_free_index,
                )
                refl in
            rw
              (
                ← same,
                ==_refl k,
                view-append b'.pool b.next_free_index (v.layout.queues k),
                old_view k,
                own,
                v.same_queues k,
              )
              refl
        | no ne ↦ rw (==_of_ne k j ne) (v.same_queues j ∙ sym (old_view j))
      ]

    entered_place :
        (tagged : Option ℕ) (j : ℕ)
        → tagged ≡ (if id == j then some (tag k b.next_free_index) else entry b j)
        → entered.place j ≡ level_at (update v.layout.owner b.next_free_index (some k)) tagged
    entered_place tagged j e = elim (ℕ_discrete id j) [
      | yes same ↦
          let own : index_of (tag k b.next_free_index) ≡ b.next_free_index =
            index_of-tag k b.next_free_index
              (omega (arith, next_free_index-lt v.laid side order rest head)) in
          rw (e, same, ==_refl j, own, ==_refl b.next_free_index) refl
      | no ne ↦
          rw (e, ==_of_ne id j ne)
            (v.same_place j ∙ elim (Option-cases (entry b j)) [
              | inl missing ↦ rw (missing) refl
              | inr (other, there) ↦
                  let (_, o, _, _) = v.laid.listed j other there in
                  let elsewhere : b.next_free_index ≢ index_of other = ground (arith, alone) in
                  rw (there, ==_of_ne b.next_free_index (index_of other) elsewhere) refl
            ])
    ]

    add_order_impl-Represents :
        IsTracked (state (add_order_impl side b order))
        → (b' : Book) × (add_order_impl side b order ≡ done b') × Represents size b' entered
    add_order_impl-Represents tracked =
        let (b', run, laid, fields, entries) =
          add_order_impl-IsLaid v.laid side order rest head (not_there missing) in
        (
          b',
          run,
          record {
            layout = added v.laid side order rest head;
            laid = laid;
            tracked = rw run at tracked;
            same_queues = entered_queues b' fields;
            same_place = λ j. entered_place (entry b' j) j (entries j);
            same_room = omega (arith, v.same_room, ap length head);
          },
        )

  -- On a book that stands for a market, `add_order` of an order whose id does not rest returns, and
  -- puts the order at the end of its level, where its price is a tick and there is room; otherwise
  -- it leaves the market as it was.
  pub add_order-Matches :
      m.place id ≡ none → Matches size (add_order b order) (done (enter m order))
  unfolding add_order enter Matches
  add_order-Matches missing =
      let tracked = add_order-IsTracked order v.tracked in
      elim (Bool-cases (ltb order.price max_ticks)) [
        | inr out ↦ rw (out, add_order, enter, Matches) v
        | inl priced ↦ elim free_cases [
          | inl (full, no_room) ↦
              let no_index : (b.next_free_index == null_index) ≡ true = ground (arith, full) in
              let none_left : (m.room == 0) ≡ true = ground (arith, no_room) in
              rw (priced, no_index, none_left, add_order, enter, Matches) v
          | inr (rest, head, ne, room) ↦
              let free : (b.next_free_index == null_index) ≡ false =
                ==_of_ne b.next_free_index null_index ne in
              let some_room : (m.room == 0) ≡ false = ground (arith, room) in
              elim (Bool-cases (order.indicator == b'B')) [
                | inl bid ↦
                    let (b', run, r) =
                      add_order_impl-Represents Side.buy rest head missing
                        (rw (priced, free, bid, add_order) at tracked) in
                    rw (priced, free, some_room, bid, run, add_order, enter, Matches) r
                | inr ask ↦
                    let (b', run, r) =
                      add_order_impl-Represents Side.sell rest head missing
                        (rw (priced, free, ask, add_order) at tracked) in
                    rw (priced, free, some_room, ask, run, add_order, enter, Matches) r
              ]
        ]
      ]
