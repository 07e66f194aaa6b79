-- ===== src/Book/Laid/Room.antt =====
-- The order table of LimitOrderBook.cpp has as many buckets as the pool has orders at most, so that
-- a bucket is free wherever an order is.
use marketdatabook.Common.{ℕ, zero, suc, ◌+◌, ◌<◌, ◌≤◌, ◌==◌, ◌≡◌, ◌≢◌, refl, arith}
use marketdatabook.Common.{if◌then◌else◌, none, some, ◌⊎◌, inl, inr, true}
use marketdatabook.Common.Pigeons.{le_of_injective}
use marketdatabook.OrderMap.{OrderMap, occupied, capacity}
use marketdatabook.OrderMap.Invariant.{find-eq_of_entry}
use marketdatabook.OrderMap.Laws.{get}
use marketdatabook.OrderMap.Assign.{HasRoom}
use marketdatabook.Book.{Book, map_bits}
use marketdatabook.Book.Orders.{index_of}
use marketdatabook.Book.Chain.{has}
use marketdatabook.Book.Laid.{IsLaid, Layout, entry}

bucket_cases : (m : OrderMap) (i : ℕ) → ((m i).state ≡ occupied) ⊎ ((m i).state ≢ occupied)
bucket_cases m i = ground arith

room_cases :
    (m : OrderMap) (n : ℕ)
    → ((i : ℕ) × (i < n) × ((m i).state ≢ occupied)) ⊎ ((i : ℕ) → i < n → (m i).state ≡ occupied)
room_cases m zero = inr (λ i h. absurd (omega arith))
room_cases m (suc n) = elim (room_cases m n) [
  | inl (i, h, free) ↦ inl (i, omega arith, free)
  | inr full ↦ elim (bucket_cases m n) [
    | inr free ↦ inl (n, omega arith, free)
    | inl used ↦ inr (λ i h. ground (arith, full i))
  ]
]

module _ {size : ℕ} {b : Book} {l : Layout} (v : IsLaid size b l) where
  module _ (full : (i : ℕ) → i < capacity map_bits → (b.orders i).state ≡ occupied) where
    entry-full :
        (i : ℕ) → i < capacity map_bits → entry b (b.orders i).order_id ≡ some (b.orders i).pool_idx
    unfolding get
    entry-full i h =
        rw
          (find-eq_of_entry map_bits v.table (b.orders i).order_id i h
            (record { used = full i h; same_id = refl }))
          refl

    full-injective :
        (i j : ℕ)
        → i < capacity map_bits
        → j < capacity map_bits
        → index_of (b.orders i).pool_idx ≡ index_of (b.orders j).pool_idx
        → i ≡ j
    full-injective i j hi hj same =
        let (_, _, _, its_id) = v.listed _ _ (entry-full i hi) in
        let (_, _, _, other_id) = v.listed _ _ (entry-full j hj) in
        let ids : (b.orders i).order_id ≡ (b.orders j).order_id = ground (arith) in
        v.table.unique (b.orders i).order_id i j hi hj (record { used = full i hi; same_id = refl })
          (record { used = full j hj; same_id = ground (arith) })

    full-owned :
        (i x : ℕ)
        → i < capacity map_bits
        → l.owner x ≡ none
        → (index_of (b.orders i).pool_idx < size) × (index_of (b.orders i).pool_idx ≢ x)
    full-owned i x h alone =
        let (k, o, _, _) = v.listed _ _ (entry-full i h) in (v.small _ k o, ground arith)

    -- A full table leaves no index free.
    no_free : (x : ℕ) → x < size → l.owner x ≡ none → ⊥
    no_free x small alone =
        let target : ℕ → ℕ =
          λ i. if i == capacity map_bits then x else index_of (b.orders i).pool_idx in
        let bound : capacity map_bits + 1 ≤ size =
          le_of_injective (capacity map_bits + 1) size target
            (λ i h. ground (arith, full-owned i x))
            (λ i j hi hj e. ground (arith, full-owned i x, full-owned j x, full-injective i j)) in
        omega (arith, v.few)

  -- A bucket is free wherever an index is.
  pub HasRoom-free : (x : ℕ) → has x l.free ≡ true → HasRoom map_bits b.orders
  HasRoom-free x free = elim (room_cases b.orders (capacity map_bits)) [
    | inl room ↦ room
    | inr full ↦ absurd (no_free full x (v.free_small x free) (v.free_alone x free))
  ]
