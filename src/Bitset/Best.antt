-- ===== src/Bitset/Best.antt =====
-- `get_best_offer` and `get_best_bid` of HierarchicalBitset.h find the least and the greatest tick.
use marketdatabook.Common.{ℕ, ◌+◌, ◌-◌, ◌*◌, ◌/◌, ◌%◌, ◌^◌, ◌<◌, ◌==◌}
use marketdatabook.Common.{
  ◌≡◌, ◌≢◌, arith, true, false, Bool-cases, inl, inr, ◌⊎◌, ◌∙◌, ap, ap₂, sym, Array,
}
use marketdatabook.Common.Bits.{clz, ctz, test_bit, clz-IsHighest, ctz-IsLowest}
use marketdatabook.Bitset.{Bitset, first_index, tick_of, no_price, get_best_offer, get_best_bid}
use marketdatabook.Bitset.Levels.{
  has, contains, clear_of_zero, IsConsistent, not_contains_of_second,
}
use marketdatabook.Bitset.Levels.{not_contains_of_third}

-- `k` is the first index of a word that is set.
record IsFirst (w k : ℕ) : Type 0 where
  below : k < 64
  is_set : has w k ≡ true
  before : (i : ℕ) → i < k → has w i ≡ false

record IsLast (w k : ℕ) : Type 0 where
  below : k < 64
  is_set : has w k ≡ true
  after : (i : ℕ) → k < i → i < 64 → has w i ≡ false

-- The bit of index `i` is bit `63 - i`.
has-bit : (w i : ℕ) → i < 64 → has w i ≡ test_bit w (63 - i)
has-bit w i h = ap (λ (r : ℕ). test_bit w (63 - r)) (omega arith)

clz-IsFirst : (w : ℕ) → w < 2 ^ 64 → w ≢ 0 → IsFirst w (clz w)
clz-IsFirst w word ne =
    let (below, high) = clz-IsHighest w word ne in
    record {
      below = below;
      is_set = has-bit w (clz w) below ∙ high.is_set;
      before = λ i h. has-bit w i (omega arith) ∙ high.above (63 - i) (omega arith) (omega arith);
    }

ctz-IsLast : (w : ℕ) → w < 2 ^ 64 → w ≢ 0 → IsLast w (63 - ctz w)
ctz-IsLast w word ne =
    let low = ctz-IsLowest w word ne in
    let back : 63 - (63 - ctz w) ≡ ctz w = omega (arith, low.below) in
    record {
      below = omega arith;
      is_set = has-bit w (63 - ctz w) (omega arith) ∙ rw back low.is_set;
      after = λ i h k. has-bit w i k ∙ low.under (63 - i) (omega arith);
    }

-- The bit of an index, from the index of its word and its place in it.
has_split :
    (level : Array ℕ) (word i : ℕ)
    → i < 64
    → has (level ((word * 64 + i) / 64)) (word * 64 + i) ≡ has (level word) i
has_split level word i h =
    ap₂ (λ (k r : ℕ). test_bit (level k) (63 - r)) (omega arith) (omega arith)

-- `t` is the lowest tick of the set.
pub record IsLeast (b : Bitset) (t : ℕ) : Type 0 where
  pub in_range : t < 64 ^ 3
  pub member : contains b t ≡ true
  pub least : (j : ℕ) → j < t → contains b j ≡ false

-- `t` is the highest tick of the set.
pub record IsGreatest (b : Bitset) (t : ℕ) : Type 0 where
  pub in_range : t < 64 ^ 3
  pub member : contains b t ≡ true
  pub greatest : (j : ℕ) → t < j → j < 64 ^ 3 → contains b j ≡ false

abbrev pub IsEmpty : Bitset → Type 0
IsEmpty b = (j : ℕ) → j < 64 ^ 3 → contains b j ≡ false

module _ {b : Bitset} (v : IsConsistent b) where
  IsEmpty-of_zero : b.third_level ≡ 0 → IsEmpty b
  IsEmpty-of_zero e j h = not_contains_of_third j h v (clear_of_zero b.third_level (j / 64 ^ 2) e)

  -- A set bit of an upper level leads to a word that is not zero.
  second_ne : (s : ℕ) → s < 64 → has b.third_level s ≡ true → b.second_level s ≢ 0
  second_ne s hs e = ground (arith, v.third_bit s)

  first_index_sum : (s f : ℕ) → s < 64 → f < 64 → first_index f s ≡ s * 64 + f
  first_index_sum s f hs hf = omega arith

  first_ne :
      (s f : ℕ)
      → s < 64
      → f < 64
      → has (b.second_level s) f ≡ true
      → b.first_level (first_index f s) ≢ 0
  first_ne s f hs hf e =
      rw (first_index_sum s f hs hf)
        (ground (arith, v.second_bit (s * 64 + f), has_split b.second_level s f hf))

  module _ (s f a : ℕ) (hs : s < 64) (hf : f < 64) (ha : a < 64) where
    index : first_index f s ≡ s * 64 + f
    index = first_index_sum s f hs hf

    tick_of_sum : tick_of a f s ≡ (s * 64 + f) * 64 + a
    tick_of_sum = omega arith

    contains-tick_of :
        has (b.first_level (first_index f s)) a ≡ true → contains b (tick_of a f s) ≡ true
    unfolding contains
    contains-tick_of e = rw tick_of_sum (
        has_split b.first_level (s * 64 + f) a ha
        ∙ ap (λ (k : ℕ). has (b.first_level k) a) (sym index)
        ∙ e)

    -- A tick is out of the set if one of its three bits is clear.
    outside :
        (j : ℕ)
        → j < 64 ^ 3
        → (has b.third_level (j / 64 ^ 2) ≡ false)
          ⊎ (j / 64 ^ 2 ≡ s) × (has (b.second_level s) (j / 64 % 64) ≡ false)
          ⊎ (j / 64 ≡ s * 64 + f) × (has (b.first_level (first_index f s)) (j % 64) ≡ false)
        → contains b j ≡ false
    unfolding contains
    outside j h (inl e) = not_contains_of_third j h v e
    outside j h (inr (inl (k, e))) =
        not_contains_of_second j h v
          (rw k (ap (λ (r : ℕ). test_bit (b.second_level s) (63 - r)) (omega arith) ∙ e))
    outside j h (inr (inr (k, e))) =
        rw (k, ← index)
          (ap (λ (r : ℕ). test_bit (b.first_level (first_index f s)) (63 - r)) (omega arith) ∙ e)

    tick_of-IsLeast :
        IsFirst b.third_level s
        → IsFirst (b.second_level s) f
        → IsFirst (b.first_level (first_index f s)) a
        → IsLeast b (tick_of a f s)
    tick_of-IsLeast h3 h2 h1 = record {
      in_range = omega arith;
      member = contains-tick_of h1.is_set;
      least = λ j lt.
          outside j (omega arith)
            (ground (arith, h3.before (j / 64 ^ 2), h2.before (j / 64 % 64), h1.before (j % 64)));
    }

    tick_of-IsGreatest :
        IsLast b.third_level s
        → IsLast (b.second_level s) f
        → IsLast (b.first_level (first_index f s)) a
        → IsGreatest b (tick_of a f s)
    tick_of-IsGreatest h3 h2 h1 = record {
      in_range = omega arith;
      member = contains-tick_of h1.is_set;
      greatest = λ j gt below.
          outside j below
            (ground (arith, h3.after (j / 64 ^ 2), h2.after (j / 64 % 64), h1.after (j % 64)));
    }

  -- On a consistent bitset `get_best_offer` returns the lowest tick of the set, and the value -1
  -- of `size_t` exactly if the set is empty.
  pub get_best_offer-IsLeast :
      (IsEmpty b × (get_best_offer b ≡ no_price)) ⊎ IsLeast b (get_best_offer b)
  unfolding get_best_offer
  get_best_offer-IsLeast = elim (Bool-cases (b.third_level == 0)) [
    | inl none_set ↦ inl (IsEmpty-of_zero (ground arith), rw none_set)
    | inr some_set ↦
        let s = clz b.third_level in
        let h3 = clz-IsFirst b.third_level v.third_word (ground arith) in
        let f = clz (b.second_level s) in
        let h2 =
          clz-IsFirst (b.second_level s) (v.second_word s) (second_ne s h3.below h3.is_set) in
        let a = clz (b.first_level (first_index f s)) in
        let h1 =
          clz-IsFirst (b.first_level (first_index f s)) (v.first_word (first_index f s))
            (first_ne s f h3.below h2.below h2.is_set) in
        inr (rw some_set (tick_of-IsLeast s f a h3.below h2.below h1.below h3 h2 h1))
  ]

  -- On a consistent bitset `get_best_bid` returns the highest tick of the set, and the value -1
  -- of `size_t` exactly if the set is empty.
  pub get_best_bid-IsGreatest :
      (IsEmpty b × (get_best_bid b ≡ no_price)) ⊎ IsGreatest b (get_best_bid b)
  unfolding get_best_bid
  get_best_bid-IsGreatest = elim (Bool-cases (b.third_level == 0)) [
    | inl none_set ↦ inl (IsEmpty-of_zero (ground arith), rw none_set)
    | inr some_set ↦
        let s = 63 - ctz b.third_level in
        let h3 = ctz-IsLast b.third_level v.third_word (ground arith) in
        let f = 63 - ctz (b.second_level s) in
        let h2 = ctz-IsLast (b.second_level s) (v.second_word s) (second_ne s h3.below h3.is_set) in
        let a = 63 - ctz (b.first_level (first_index f s)) in
        let h1 =
          ctz-IsLast (b.first_level (first_index f s)) (v.first_word (first_index f s))
            (first_ne s f h3.below h2.below h2.is_set) in
        inr (rw some_set (tick_of-IsGreatest s f a h3.below h2.below h1.below h3 h2 h1))
  ]
