-- ===== src/Book/Laid.antt =====
-- How the memory of LimitOrderBook.cpp lays out a book: each index of the pool is free or in the
-- queue of one level, and the table has the queued orders by their ids.
pub mod Release
pub mod Add
pub mod New
pub mod Room
use marketdatabook.Common.{
  ℕ, ◌+◌, ◌*◌, ◌/◌, ◌%◌, ◌^◌, ◌<◌, ◌≤◌, ◌==◌, ◌≡◌, ◌≢◌, refl, arith, if◌then◌else◌, ap, ◌∙◌, sym,
}
use marketdatabook.Common.{
  Option, none, some, List, [], ◌∷◌, Array, update, true, Option-cases, inl, inr,
}
use marketdatabook.OrderMap.{find}
use marketdatabook.OrderMap.Invariant.{IsProbed}
use marketdatabook.OrderMap.Laws.{get}
use marketdatabook.Book.{Side, Order, PriceLevel, Book, null_index, map_bits, levels}
use marketdatabook.Book.Orders.{lookup, index_of}
use marketdatabook.Book.Chain.{has, Distinct}
use marketdatabook.Book.Tags.{tag, level_of, index_of-tag}
use marketdatabook.Book.Queued.{Owners, IsQueued, IsQueued-congr}

-- All price levels by their numbers.
abbrev pub levels_of : Book → Array PriceLevel
levels_of b k = if k % 2 == 0 then b.bids (k / 2) else b.asks (k / 2)

pub levels_of-level_of :
    (b : Book) (side : Side) (price : ℕ) → levels_of b (level_of side price) ≡ levels side b price
levels_of-level_of b Side.buy price =
    let even : (2 * price) % 2 ≡ 0 = omega arith in
    let half : (2 * price) / 2 ≡ price = omega arith in rw (even, half)
levels_of-level_of b Side.sell price =
    let odd : (2 * price + 1) % 2 ≡ 1 = omega arith in
    let half : (2 * price + 1) / 2 ≡ price = omega arith in rw (odd, half)

-- The chain of free indices, which `next` links.
unfoldable pub IsFreeChain : Array Order → ℕ → List ℕ → Type 0
IsFreeChain pool at [] = at ≡ null_index
IsFreeChain pool at (x ∷ xs) = (at ≡ x) × IsFreeChain pool (pool x).next xs

pub IsFreeChain-congr :
    (pool pool' : Array Order) (at : ℕ) (xs : List ℕ)
    → ((x : ℕ) → has x xs ≡ true → (pool' x).next ≡ (pool x).next)
    → IsFreeChain pool at xs
    → IsFreeChain pool' at xs
unfolding IsFreeChain
IsFreeChain-congr pool pool' at [] same c = c
IsFreeChain-congr pool pool' at (x ∷ xs) same (e, c) = (
  e,
  rw (same x (ground arith))
      (IsFreeChain-congr pool pool' (pool x).next xs (λ y h. same y (ground arith)) c),
)

pub IsFreeChain-head :
    (pool : Array Order) (at : ℕ) (xs : List ℕ)
    → at ≢ null_index
    → IsFreeChain pool at xs
    → (rest : List ℕ) × (xs ≡ at ∷ rest) × IsFreeChain pool (pool at).next rest
unfolding IsFreeChain
IsFreeChain-head pool at [] ne c = absurd (ne c)
IsFreeChain-head pool at (x ∷ xs) ne (e, c) = (xs, rw (e) refl, rw (e) c)

pub record Layout : Type 0 where
  pub queues : Array (List ℕ)
  pub owner : Owners
  pub free : List ℕ

-- The value that the order table has for an id.
abbrev pub entry : Book → ℕ → Option ℕ
entry b id = get map_bits b.orders id

pub lookup-entry : (b : Book) (id : ℕ) → lookup b id ≡ entry b id
unfolding get
lookup-entry b id = elim (Option-cases (find map_bits b.orders id)) [
  | inl e ↦ ground (arith, e)
  | inr (at, e) ↦ ground (arith, e)
]

pub record IsLaid (size : ℕ) (b : Book) (l : Layout) : Type 0 where
  pub in_queues : IsQueued b.pool (levels_of b) l.queues l.owner
  pub free_chain : IsFreeChain b.pool b.next_free_index l.free
  pub free_distinct : Distinct l.free
  pub free_alone : (x : ℕ) → has x l.free ≡ true → l.owner x ≡ none
  pub free_small : (x : ℕ) → has x l.free ≡ true → x < size
  pub small : (x k : ℕ) → l.owner x ≡ some k → x < size
  pub few : size ≤ 2 ^ map_bits
  pub priced : (x k : ℕ) → l.owner x ≡ some k → (b.pool x).price ≡ k / 2
  pub table : IsProbed map_bits b.orders
  pub entries :
      (x k : ℕ) → l.owner x ≡ some k → entry b (b.pool x).order_reference_number ≡ some (tag k x)
  pub listed :
      (id tagged : ℕ)
      → entry b id ≡ some tagged
      → (k : ℕ) × (l.owner (index_of tagged) ≡ some k)
        × (tagged ≡ tag k (index_of tagged))
        × ((b.pool (index_of tagged)).order_reference_number ≡ id)

module _ {size : ℕ} {b : Book} {l : Layout} (v : IsLaid size b l) where
  pub index_of-tag_owned : (x k : ℕ) → l.owner x ≡ some k → index_of (tag k x) ≡ x
  index_of-tag_owned x k o = index_of-tag k x (omega (arith, v.small x k o, v.few))

  -- Orders in queues have different ids.
  pub order_reference_number_unique :
      (x y j k : ℕ)
      → l.owner x ≡ some j
      → l.owner y ≡ some k
      → (b.pool x).order_reference_number ≡ (b.pool y).order_reference_number
      → x ≡ y
  order_reference_number_unique x y j k ox oy same = ground (
    arith,
    v.entries x j ox,
    v.entries y k oy,
    same,
    index_of-tag_owned x j ox,
    index_of-tag_owned y k oy,
  )

  -- The shares of the orders are no part of the layout.
  pub IsLaid-congr :
      {pool : Array Order}
      → ((x : ℕ)
          → ((pool x).next ≡ (b.pool x).next)
            × ((pool x).prev ≡ (b.pool x).prev)
            × ((pool x).price ≡ (b.pool x).price)
            × ((pool x).order_reference_number ≡ (b.pool x).order_reference_number))
      → IsLaid size (record b { pool = pool }) l
  IsLaid-congr {pool} same = record {
    in_queues = IsQueued-congr v.in_queues (λ x k o. ((same x).0, (same x).1)) (λ k. refl);
    free_chain =
        IsFreeChain-congr b.pool pool b.next_free_index l.free (λ x h. (same x).0) v.free_chain;
    free_distinct = v.free_distinct;
    free_alone = v.free_alone;
    free_small = v.free_small;
    small = v.small;
    few = v.few;
    priced = λ x k o. ground (arith, same x, v.priced x k);
    table = v.table;
    entries = λ x k o. ground (arith, same x, v.entries x k);
    listed = λ id tagged e.
        let (k, o, t, its_id) = v.listed id tagged e in
        (k, o, t, ground (arith, same (index_of tagged)));
  }
