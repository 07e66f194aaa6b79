-- ===== src/Book/Laid/New.antt =====
-- The constructor of LimitOrderBook.cpp lays out a book without orders, with every index free.
use marketdatabook.Common.{ℕ, zero, suc, ◌+◌, ◌-◌, ◌^◌, ◌<◌, ◌≤◌, ◌==◌, ◌≡◌, ◌≢◌, refl, arith}
use marketdatabook.Common.{
  List, [], ◌∷◌, true, false, none, some, state, inl, inr, Option-cases, done, Array,
}
use marketdatabook.OrderMap
use marketdatabook.OrderMap.Laws.{get}
use marketdatabook.OrderMap.Invariant.{new-IsProbed, find-IsEntry}
use marketdatabook.Book.{Order, new, link_free, set_next, zero_order, null_index, map_bits}
use marketdatabook.Book.Chain.{has, Distinct}
use marketdatabook.Book.Laid.{IsLaid, Layout, IsFreeChain}

-- `from`, `from + 1`, … up to `n` numbers.
abbrev pub range : ℕ → ℕ → List ℕ
range from zero = []
range from (suc n) = from ∷ range (from + 1) n

has-range : (x from n : ℕ) → has x (range from n) ≡ true → (from ≤ x) × (x < from + n)
has-range x from zero h = absurd (cc)
has-range x from (suc n) h = ground (arith, has-range x (from + 1) n)

range-Distinct : (from n : ℕ) → Distinct (range from n)
range-Distinct from zero = tt
range-Distinct from (suc n) =
    (ground (arith, has-range from (from + 1) n), range-Distinct (from + 1) n)

link_free-next : (n x : ℕ) → n ≤ 2 ^ 31 → x < n → (link_free n (λ _. zero_order) x).next ≡ x + 1
unfolding link_free
link_free-next zero x h lt = absurd (omega arith)
link_free-next (suc n) x h lt = ground (arith, link_free-next n x (omega arith))

-- The layout of a new book.
abbrev pub fresh : ℕ → Layout
fresh max_orders = record { queues = λ _. []; owner = λ _. none; free = range 0 max_orders }

chain_from :
    (pool : Array Order) (size from n : ℕ)
    → from + n ≡ size
    → 0 < n
    → ((x : ℕ) → x + 1 < size → (pool x).next ≡ x + 1)
    → ((x : ℕ) → x + 1 ≡ size → (pool x).next ≡ null_index)
    → IsFreeChain pool from (range from n)
unfolding IsFreeChain
chain_from pool size from zero total pos links end = absurd (omega arith)
chain_from pool size from (suc zero) total pos links end = (refl, end from (omega arith))
chain_from pool size from (suc (suc n)) total pos links end = (
  refl,
  rw (links from (omega arith))
      (chain_from pool size (from + 1) (suc n) (omega arith) (omega arith) links end),
)

new_entry : (id tagged : ℕ) → get map_bits OrderMap.new id ≢ some tagged
unfolding get
new_entry id tagged e = elim (Option-cases (OrderMap.find map_bits OrderMap.new id)) [
  | inl missing ↦ ground (arith, missing)
  | inr (at, there) ↦
      absurd (ground (arith, (find-IsEntry map_bits (new-IsProbed map_bits) id at there).1.used))
]

-- The constructor's book, for a pool of at most as many orders as the table has buckets.
pub new-IsLaid :
    (max_orders : ℕ)
    → 0 < max_orders
    → max_orders ≤ 2 ^ map_bits
    → (new max_orders ≡ done (state (new max_orders)))
      × IsLaid max_orders (state (new max_orders)) (fresh max_orders)
unfolding new
new-IsLaid max_orders pos few =
    let pool : Array Order =
      set_next (link_free (max_orders - 1) (λ _. zero_order)) (max_orders - 1) null_index in
    let some_order : (max_orders == 0) ≡ false = ground (arith) in
    rw (some_order, new)
      (
        refl,
        record {
          in_queues = record {
            heads = λ k. ground arith;
            tails = λ k. ground arith;
            owned = λ x k h. absurd (cc);
            queued = λ x k o. absurd (cc);
            nexts = λ x k o. absurd (cc);
            prevs = λ x k o. absurd (cc);
            distinct = λ k. tt;
            no_null = refl;
          };
          free_chain =
              chain_from pool max_orders 0 max_orders (omega arith) pos
                (λ x h. ground (arith, link_free-next (max_orders - 1) x)) (λ x h. ground arith);
          free_distinct = range-Distinct 0 max_orders;
          free_alone = λ x h. refl;
          free_small = λ x h. omega (arith, has-range x 0 max_orders h);
          small = λ x k o. absurd (cc);
          few = few;
          priced = λ x k o. absurd (cc);
          table = new-IsProbed map_bits;
          entries = λ x k o. absurd (cc);
          listed = λ id tagged e. absurd (new_entry id tagged e);
        },
      )
