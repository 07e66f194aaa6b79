-- ===== src/Bitset/Levels.antt =====
-- The three levels agree, and the writes of HierarchicalBitset.h are writes to a set of ticks.
use marketdatabook.Common.{ℕ, ◌-◌, ◌/◌, ◌%◌, ◌^◌, ◌<◌, bit_or, ◌==◌}
use marketdatabook.Common.{◌≡◌, ap, ◌∙◌, arith, Bool, false}
use marketdatabook.Common.{◌&&◌, ◌||◌, not}
use marketdatabook.Common.Bits.{
  shl_one, shl_one-lt, complement, test_bit, test_bit-bit_or, test_bit-bit_and,
}
use marketdatabook.Common.Bits.{test_bit-shl_one, test_bit-complement, test_bit-zero}
use marketdatabook.Common.Bits.{bit_and-mask, bit_or-lt, bit_and-le}
use marketdatabook.Bitset.{Bitset, empty, mask_of, cleared, set_price_level, clear_price_level}

-- The bit of `idx` in a word of 64 indices.
abbrev pub has : ℕ → ℕ → Bool
has word idx = test_bit word (63 - idx % 64)

-- The tick is in the set.
unfoldable pub contains : Bitset → ℕ → Bool
contains b tick = has (b.first_level (tick / 64)) tick

-- Each bit of an upper level says that the word below it is not zero. The `static_assert` keeps
-- the ticks below 64 ^ 3.
pub record IsConsistent (b : Bitset) : Type 0 where
  pub first_word : (i : ℕ) → b.first_level i < 2 ^ 64
  pub second_word : (i : ℕ) → b.second_level i < 2 ^ 64
  pub third_word : b.third_level < 2 ^ 64
  pub second_bit :
      (i : ℕ) → i < 64 ^ 2 → has (b.second_level (i / 64)) i ≡ not (b.first_level i == 0)
  pub third_bit : (i : ℕ) → i < 64 → has b.third_level i ≡ not (b.second_level i == 0)

mask_of_mod : (idx : ℕ) → mask_of idx ≡ shl_one (63 - idx % 64)
mask_of_mod idx = ap (λ (r : ℕ). 2 ^ (63 - r)) (bit_and-mask 6 idx)

-- `|= 1ULL << …` sets the bit of its index in the word and no other.
has-set : (word idx j : ℕ) → has (bit_or word (mask_of idx)) j ≡ (idx % 64 == j % 64) || has word j
has-set word idx j = rw (test_bit-bit_or, mask_of_mod, test_bit-shl_one) (ground arith)

-- `&= ~(1ULL << …)` clears the bit of its index in the word and no other.
has-cleared : (word idx j : ℕ) → has (cleared word idx) j ≡ not (idx % 64 == j % 64) && has word j
has-cleared word idx j =
    rw
      (
        test_bit-bit_and,
        mask_of_mod,
        test_bit-complement (shl_one (63 - idx % 64)) (63 - j % 64)
            (shl_one-lt 64 (63 - idx % 64) (omega arith)) (omega arith),
        test_bit-shl_one,
      )
      (ground arith)

mask_of-lt : (idx : ℕ) → mask_of idx < 2 ^ 64
mask_of-lt idx = rw mask_of_mod (shl_one-lt 64 (63 - idx % 64) (omega arith))

or-lt : (word idx : ℕ) → word < 2 ^ 64 → bit_or word (mask_of idx) < 2 ^ 64
or-lt word idx h = bit_or-lt 64 word (mask_of idx) h (mask_of-lt idx)

cleared-lt : (word idx : ℕ) → word < 2 ^ 64 → cleared word idx < 2 ^ 64
cleared-lt word idx h = omega (arith, bit_and-le word (complement (mask_of idx)))

or-ne-zero : (word idx : ℕ) → (bit_or word (mask_of idx) == 0) ≡ false
or-ne-zero word idx = ground (
  arith,
  has-set word idx idx,
  ap (λ (w : ℕ). has w idx) {x = bit_or word (mask_of idx)} {y = 0},
  test_bit-zero (63 - idx % 64),
)

-- Whether a word is zero shows in its bits.
pub clear_of_zero : (word j : ℕ) → word ≡ 0 → has word j ≡ false
clear_of_zero word j e = ap (λ (w : ℕ). has w j) e ∙ test_bit-zero _

pub empty-IsConsistent : IsConsistent empty
empty-IsConsistent = record {
  first_word = λ i. omega arith;
  second_word = λ i. omega arith;
  third_word = omega arith;
  second_bit = λ i h. test_bit-zero _;
  third_bit = λ i h. test_bit-zero _;
}

-- Setting a tick adds it to the set and no other.
pub contains-set_price_level :
    (b : Bitset) (tick j : ℕ) → contains (set_price_level b tick) j ≡ (tick == j) || contains b j
unfolding contains set_price_level
contains-set_price_level b tick j = ground (arith, has-set (b.first_level (tick / 64)) tick j)

-- Clearing a tick takes it out of the set and no other.
pub contains-clear_price_level :
    (b : Bitset) (tick j : ℕ)
    → contains (clear_price_level b tick) j ≡ not (tick == j) && contains b j
unfolding contains clear_price_level
contains-clear_price_level b tick j = ground (arith, has-cleared (b.first_level (tick / 64)) tick j)

-- Setting a tick below 64 ^ 3 keeps the three levels of a consistent bitset consistent.
pub set_price_level-IsConsistent :
    {b : Bitset} (tick : ℕ) → tick < 64 ^ 3 → IsConsistent b → IsConsistent (set_price_level b tick)
unfolding set_price_level
set_price_level-IsConsistent {b} tick h v =
    let first = tick / 64 in
    let second = first / 64 in
    record {
      first_word = λ i. ground (arith, v.first_word i, or-lt (b.first_level first) tick);
      second_word = λ i. ground (arith, v.second_word i, or-lt (b.second_level second) first);
      third_word = ground (arith, or-lt b.third_level second);
      second_bit = λ i hi. ground (
        arith,
        v.second_bit i,
        has-set (b.second_level second) first i,
        or-ne-zero (b.first_level first) tick,
      );
      third_bit = λ i hi. ground (
        arith,
        v.third_bit i,
        has-set b.third_level second i,
        or-ne-zero (b.second_level second) first,
      );
    }

-- Clearing a tick below 64 ^ 3 keeps the three levels of a consistent bitset consistent.
pub clear_price_level-IsConsistent :
    {b : Bitset} (tick : ℕ)
    → tick < 64 ^ 3
    → IsConsistent b
    → IsConsistent (clear_price_level b tick)
unfolding clear_price_level
clear_price_level-IsConsistent {b} tick h v =
    let first = tick / 64 in
    let second = first / 64 in
    let le1 = bit_and-le (b.first_level first) (complement (mask_of tick)) in
    let le2 = bit_and-le (b.second_level second) (complement (mask_of first)) in
    let le3 = bit_and-le b.third_level (complement (mask_of second)) in
    record {
      first_word = λ i. ground (arith, v.first_word i, le1);
      second_word = λ i. ground (arith, v.second_word i, le2);
      third_word = ground (arith, v.third_word, le3);
      second_bit =
          λ i hi. ground (arith, v.second_bit i, has-cleared (b.second_level second) first i, le1);
      third_bit = λ i hi. ground (arith, v.third_bit i, has-cleared b.third_level second i, le2);
    }

-- A word that is not zero has a bit of one of its 64 indices; a word that is zero has none.
pub not_contains_of_second :
    {b : Bitset} (j : ℕ)
    → j < 64 ^ 3
    → IsConsistent b
    → has (b.second_level (j / 64 ^ 2)) (j / 64) ≡ false
    → contains b j ≡ false
unfolding contains
not_contains_of_second {b} j h v e =
    ground (arith, v.second_bit (j / 64), clear_of_zero (b.first_level (j / 64)) j)

pub not_contains_of_third :
    {b : Bitset} (j : ℕ)
    → j < 64 ^ 3
    → IsConsistent b
    → has b.third_level (j / 64 ^ 2) ≡ false
    → contains b j ≡ false
not_contains_of_third {b} j h v e =
    let zero_word = clear_of_zero (b.second_level (j / 64 ^ 2)) (j / 64) in
    not_contains_of_second j h v (ground (arith, v.third_bit (j / 64 ^ 2), zero_word))

pub contains-empty : (j : ℕ) → contains empty j ≡ false
unfolding contains
contains-empty j = test_bit-zero _
