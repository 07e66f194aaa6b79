-- ===== src/OrderMap.antt =====
-- src/utils/StaticOrderMap.h: an open-addressed hash table of `Capacity` buckets with linear
-- probing and tombstones. A pointer into the table is the index of its bucket, `end_` is the
-- capacity. The mapping of the memory and the move operations are not modelled.
pub mod Probe
pub mod Invariant
pub mod Laws
pub mod Assign
use marketdatabook.Common.{ℕ, zero, suc, ◌+◌, ◌-◌, ◌^◌, bit_and, ◌==◌, ltb, ◌&&◌, not}
use marketdatabook.Common.{if◌then◌else◌, Bool, true, false, Option, none, some, Array, update}
use marketdatabook.Common.{Result, done, threw, not_from_map, map_full}

pub data BucketState : Type 0 where
  empty occupied tombstone : BucketState

pub record Bucket : Type 0 where
  pub order_id : ℕ
  pub pool_idx : ℕ
  pub state : BucketState

abbrev pub OrderMap : Type 0
OrderMap = Array Bucket

abbrev pub is_empty : BucketState → Bool
is_empty empty = true
is_empty occupied = false
is_empty tombstone = false

abbrev pub is_occupied : BucketState → Bool
is_occupied empty = false
is_occupied occupied = true
is_occupied tombstone = false

-- `mmap` hands out zeroed memory, and `Empty` is 0.
abbrev pub new : OrderMap
new = λ _. record { order_id = 0; pool_idx = 0; state = empty }

-- `entry_ptr->state = BucketState::Tombstone`
abbrev pub bury : OrderMap → ℕ → OrderMap
bury m at = update m at (record (m at) { state = tombstone })

-- The write through the reference that `operator[]` returns.
abbrev pub set_pool_idx : OrderMap → ℕ → ℕ → OrderMap
set_pool_idx m at v = update m at (record (m at) { pool_idx = v })

-- `Capacity` is a power of 2, which the `static_assert` demands: `2 ^ k`.
module _ (k : ℕ) where
  abbrev pub capacity : ℕ
  capacity = 2 ^ k

  -- `order_id & (capacity_ - 1)`
  unfoldable pub home : ℕ → ℕ
  home id = bit_and id (2 ^ k - 1)

  -- `curr_location++`, and back to `map_` at `end_`
  unfoldable pub advance : ℕ → ℕ
  advance at = if at + 1 == capacity then 0 else at + 1

  -- The loop of `find`, with `capacity_ - num_elements_checked` rounds left.
  pub find_from : ℕ → OrderMap → ℕ → ℕ → Option ℕ
  find_from zero m id at = none
  find_from (suc left) m id at =
      let rest = find_from left m id (advance at) in
      if is_empty (m at).state
      then none
      else (if (m at).order_id == id && is_occupied (m at).state then some at else rest)

  unfoldable pub find : OrderMap → ℕ → Option ℕ
  unfolding find_from home advance
  find m id = find_from capacity m id (home id)

  -- The loop of `insert`; `none` is a full round.
  pub insert_from : ℕ → OrderMap → ℕ → ℕ → Option ℕ
  insert_from zero m id at = none
  insert_from (suc left) m id at =
      let rest = insert_from left m id (advance at) in
      if is_occupied (m at).state && not ((m at).order_id == id) then rest else some at

  -- The pair that `insert` returns: a bucket, and whether there was room for it.
  unfoldable pub insert : OrderMap → ℕ → ℕ → OrderMap × ℕ × Bool
  unfolding insert_from home advance
  insert m id v = elim (insert_from capacity m id (home id)) [
    | some at ↦ (update m at (record { order_id = id; pool_idx = v; state = occupied }), at, true)
    | none ↦ (m, capacity, false)
  ]

  -- `operator[]`: the bucket whose `pool_idx` the reference is to.
  unfoldable pub index : OrderMap → ℕ → Result (OrderMap × ℕ)
  unfolding find insert
  index m id = elim (find m id) [
    | some at ↦ done (m, at)
    | none ↦
        let (m', at, ok) = insert m id 0 in if ok then done (m', at) else threw map_full (m', at)
  ]

  -- `erase(Bucket*)`
  pub erase_at : OrderMap → ℕ → Result OrderMap
  erase_at m at = if ltb at capacity then done (bury m at) else threw not_from_map m

  -- `erase(uint64_t)`
  unfoldable pub erase : OrderMap → ℕ → OrderMap
  unfolding find
  erase m id = elim (find m id) [ some at ↦ bury m at | none ↦ m ]

  -- The expression `orders_[id] = v`.
  unfoldable pub assign : OrderMap → ℕ → ℕ → Result OrderMap
  unfolding index
  assign m id v = elim (index m id) [
    | done (m', at) ↦ done (set_pool_idx m' at v)
    | threw e (m', at) ↦ threw e m'
  ]
