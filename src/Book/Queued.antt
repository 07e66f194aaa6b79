-- ===== src/Book/Queued.antt =====
-- The price levels of LimitOrderBook.cpp as queues of pool indices. A level goes by a number: twice
-- its price for a bid, and one more for an ask.
use marketdatabook.Common.{ℕ, ◌==◌, ◌≡◌, ◌≢◌, arith, if◌then◌else◌, true, false, not, ◌&&◌}
use marketdatabook.Common.{List, [], ◌∷◌, ◌++◌, Option, none, some, Array, update, ◌⊎◌}
use marketdatabook.Book.{Order, PriceLevel, null_index}
use marketdatabook.Book.Orders.{add_update_price_level, execute_update_price_level, unlink}
use marketdatabook.Book.Chain.{has, Distinct, first, last, after, before, remove}
use marketdatabook.Book.Chain.{has-append, Distinct-append, first-append, last_from-append}
use marketdatabook.Book.Chain.{after-append_new, before_from-append_new, before_from-append}
use marketdatabook.Book.Chain.{after-append, has-last_from}
use marketdatabook.Book.Chain.Remove.{has-remove, Distinct-remove, first-remove, last_from-remove}
use marketdatabook.Book.Chain.Remove.{after-remove, before_from-remove, after-before_from}
use marketdatabook.Book.Chain.Remove.{has-after, has-before_from, after_ne, before_from_ne}

-- The links after `unlink`.
pub unlink-next :
    (pool : Array Order) (idx x : ℕ)
    → (pool idx).prev ≢ idx
    → let p = (pool idx).prev in
      (unlink pool idx x).next
      ≡ (if not (p == null_index) && (p == x) then (pool idx).next else (pool x).next)
unfolding unlink
unlink-next pool idx x ne = ground arith

pub unlink-prev :
    (pool : Array Order) (idx x : ℕ)
    → (pool idx).prev ≢ idx
    → let n = (pool idx).next in
      (unlink pool idx x).prev
      ≡ (if not (n == null_index) && (n == x) then (pool idx).prev else (pool x).prev)
unfolding unlink
unlink-prev pool idx x ne = ground arith

-- The queue that an index stands in, if any.
abbrev pub Owners : Type 0
Owners = Array (Option ℕ)

-- The ends of the levels and the links of the orders say the queues `q`; each index of a queue
-- stands in no other.
pub record IsQueued (pool : Array Order) (lv : Array PriceLevel) (q : Array (List ℕ))
    (owner : Owners) : Type 0 where
  pub heads : (k : ℕ) → (lv k).head ≡ first (q k)
  pub tails : (k : ℕ) → (lv k).tail ≡ last (q k)
  pub owned : (x k : ℕ) → has x (q k) ≡ true → owner x ≡ some k
  pub queued : (x k : ℕ) → owner x ≡ some k → has x (q k) ≡ true
  pub nexts : (x k : ℕ) → owner x ≡ some k → (pool x).next ≡ after x (q k)
  pub prevs : (x k : ℕ) → owner x ≡ some k → (pool x).prev ≡ before x (q k)
  pub distinct : (k : ℕ) → Distinct (q k)
  pub no_null : owner null_index ≡ none

module _ {pool : Array Order} {lv : Array PriceLevel} {q : Array (List ℕ)} {owner : Owners}
    (v : IsQueued pool lv q owner) where
  -- The queues go by the ends of the levels and the links of their own orders.
  pub IsQueued-congr :
      {pool' : Array Order} {lv' : Array PriceLevel}
      → ((x k : ℕ)
          → owner x ≡ some k
          → ((pool' x).next ≡ (pool x).next) × ((pool' x).prev ≡ (pool x).prev))
      → ((k : ℕ) → lv' k ≡ lv k)
      → IsQueued pool' lv' q owner
  IsQueued-congr same same_levels = record {
    heads = λ k. ground (arith, same_levels k, v.heads k);
    tails = λ k. ground (arith, same_levels k, v.tails k);
    owned = v.owned;
    queued = v.queued;
    nexts = λ x k o. ground (arith, same x k o, v.nexts x k o);
    prevs = λ x k o. ground (arith, same x k o, v.prevs x k o);
    distinct = v.distinct;
    no_null = v.no_null;
  }

  null_out : (k : ℕ) → has null_index (q k) ≡ false
  null_out k = ground (arith, v.owned null_index k, v.no_null)

  module _ (k idx : ℕ) (free : owner idx ≡ none) (ne : idx ≢ null_index) where
    out : has idx (q k) ≡ false
    out = ground (arith, v.owned idx k)

    -- The index that joins a queue stands at its end.
    pub add_update_price_level-IsQueued :
        IsQueued
          (add_update_price_level pool (lv k) idx).0
          (update lv k (add_update_price_level pool (lv k) idx).1)
          (update q k (q k ++ idx ∷ []))
          (update owner idx (some k))
    unfolding add_update_price_level
    add_update_price_level-IsQueued = record {
      heads = λ j. ground (arith, v.heads j, first-append idx (q k) (null_out k));
      tails = λ j. ground (arith, v.tails j, last_from-append null_index idx (q k));
      owned = λ x j h. ground (arith, v.owned x j, has-append x idx (q k), free);
      queued = λ x j o. ground (arith, v.queued x j, has-append x idx (q k));
      nexts = λ x j o. ground (
        arith,
        v.nexts x j,
        v.queued x j,
        v.tails k,
        v.owned (last (q k)) k,
        v.no_null,
        has-last_from null_index (q k),
        after-append null_index x idx (q k) (v.distinct k),
        after-append_new idx (q k) out,
      );
      prevs = λ x j o. ground (
        arith,
        v.prevs x j,
        v.queued x j,
        v.tails k,
        v.owned (last (q k)) k,
        v.no_null,
        has-last_from null_index (q k),
        before_from-append null_index x idx (q k),
        before_from-append_new null_index idx (q k) out,
      );
      distinct = λ j. ground (arith, v.distinct j, Distinct-append idx (q k) (v.distinct k) out);
      no_null = ground (arith, v.no_null);
    }

  module _ (k idx : ℕ) (mine : owner idx ≡ some k) where
    member : has idx (q k) ≡ true
    member = v.queued idx k mine

    -- The neighbours of the index that leaves.
    pub next_owner : (after idx (q k) ≡ null_index) ⊎ (owner (after idx (q k)) ≡ some k)
    next_owner = ground (arith, has-after idx (q k), v.owned (after idx (q k)) k)

    pub prev_owner : (before idx (q k) ≡ null_index) ⊎ (owner (before idx (q k)) ≡ some k)
    prev_owner =
        ground (arith, has-before_from null_index idx (q k) member, v.owned (before idx (q k)) k)

    next_ne : after idx (q k) ≢ idx
    next_ne = after_ne idx (q k) (v.distinct k) (null_out k) member

    pub prev_ne : (pool idx).prev ≢ idx
    prev_ne = ground (
      arith,
      v.prevs idx k mine,
      before_from_ne null_index idx (q k) (v.distinct k) (null_out k) (null_out k) member,
    )

    -- `unlink` leaves the links of the index itself.
    unlink_own :
        ((unlink pool idx idx).next ≡ after idx (q k))
        × ((unlink pool idx idx).prev ≡ before idx (q k))
    unlink_own = ground (
      arith,
      unlink-next pool idx idx prev_ne,
      unlink-prev pool idx idx prev_ne,
      v.nexts idx k mine,
      v.prevs idx k mine,
      next_ne,
      prev_ne,
    )

    -- The index that leaves a queue is taken out of it.
    pub unlink-IsQueued :
        IsQueued
          (unlink pool idx)
          (update lv k (execute_update_price_level (lv k) (unlink pool idx idx) idx))
          (update q k (remove idx (q k)))
          (update owner idx none)
    unfolding execute_update_price_level
    unlink-IsQueued = record {
      heads = λ j. ground (arith, v.heads j, unlink_own, first-remove idx (q k) member);
      tails = λ j. ground (
        arith,
        v.tails j,
        unlink_own,
        last_from-remove null_index idx (q k) (v.distinct k) member,
      );
      owned = λ x j h. ground (arith, v.owned x j, has-remove x idx (q k) (v.distinct k), mine);
      queued = λ x j o. ground (arith, v.queued x j, has-remove x idx (q k) (v.distinct k), mine);
      nexts = λ x j o. ground (
        arith,
        unlink-next pool idx x prev_ne,
        v.nexts x j,
        v.nexts idx k mine,
        v.prevs idx k mine,
        v.queued x j,
        prev_owner,
        after-remove x idx (q k) (v.distinct k) (null_out k) member,
        after-before_from null_index x idx (q k) (v.distinct k) (null_out k) (null_out k),
        v.no_null,
        member,
      );
      prevs = λ x j o. ground (
        arith,
        unlink-prev pool idx x prev_ne,
        v.prevs x j,
        v.nexts idx k mine,
        v.prevs idx k mine,
        v.queued x j,
        next_owner,
        before_from-remove null_index x idx (q k) (v.distinct k) (null_out k) member,
        after-before_from null_index idx x (q k) (v.distinct k) (null_out k) (null_out k) member,
        v.no_null,
      );
      distinct = λ j. ground (arith, v.distinct j, Distinct-remove idx (q k) (v.distinct k));
      no_null = ground (arith, v.no_null);
    }
