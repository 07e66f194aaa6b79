-- ===== src/Bitset.antt =====
-- src/utils/HierarchicalBitset.h: three levels of 64-bit words over the price ticks. Bit 63 of a
-- word stands for the lowest of its 64 ticks. `size_t` is 64 bits wide, and sums and shifts wrap.
pub mod Levels
pub mod Best
use marketdatabook.Common.{ℕ, ◌+◌, ◌-◌, ◌*◌, ◌/◌, ◌%◌, ◌^◌, bit_and, bit_or, ◌==◌, if◌then◌else◌}
use marketdatabook.Common.{Array, update}
use marketdatabook.Common.Bits.{shl_one, complement, clz, ctz}

pub record Bitset : Type 0 where
  pub first_level : Array ℕ
  pub second_level : Array ℕ
  pub third_level : ℕ

-- The arrays start zeroed.
abbrev pub empty : Bitset
empty = record { first_level = λ _. 0; second_level = λ _. 0; third_level = 0 }

-- `return -1` as a `size_t`
abbrev pub no_price : ℕ
no_price = 2 ^ 64 - 1

-- `first_level_idx + (second_level_idx << 6)`
abbrev pub first_index : ℕ → ℕ → ℕ
first_index first second = (first + second * 2 ^ 6 % 2 ^ 64) % 2 ^ 64

-- `actual_idx + (first_level_idx << 6) + (second_level_idx << 12)`
abbrev pub tick_of : ℕ → ℕ → ℕ → ℕ
tick_of actual first second =
    ((actual + first * 2 ^ 6 % 2 ^ 64) % 2 ^ 64 + second * 2 ^ 12 % 2 ^ 64) % 2 ^ 64

pub get_best_offer : Bitset → ℕ
get_best_offer b =
    if b.third_level == 0
    then no_price
    else let second = clz b.third_level in
      let first = clz (b.second_level second) in
      let actual = clz (b.first_level (first_index first second)) in tick_of actual first second

pub get_best_bid : Bitset → ℕ
get_best_bid b =
    if b.third_level == 0
    then no_price
    else let second = 63 - ctz b.third_level in
      let first = 63 - ctz (b.second_level second) in
      let actual = 63 - ctz (b.first_level (first_index first second)) in
      tick_of actual first second

-- `1ULL << (63 - (idx & 63))`
abbrev pub mask_of : ℕ → ℕ
mask_of idx = shl_one (63 - bit_and idx 63)

pub set_price_level : Bitset → ℕ → Bitset
set_price_level b tick =
    let first = tick / 2 ^ 6 in
    let second = first / 2 ^ 6 in
    record {
      first_level = update b.first_level first (bit_or (b.first_level first) (mask_of tick));
      second_level = update b.second_level second (bit_or (b.second_level second) (mask_of first));
      third_level = bit_or b.third_level (mask_of second);
    }

-- The words that `clear_price_level` stores at each level it reaches.
abbrev pub cleared : ℕ → ℕ → ℕ
cleared word idx = bit_and word (complement (mask_of idx))

pub clear_price_level : Bitset → ℕ → Bitset
clear_price_level b tick =
    let first = tick / 2 ^ 6 in
    let second = first / 2 ^ 6 in
    let first_word = cleared (b.first_level first) tick in
    let second_word = cleared (b.second_level second) first in
    let third_word = cleared b.third_level second in
    let b1 = record b { first_level = update b.first_level first first_word } in
    let b2 = record b1 { second_level = update b.second_level second second_word } in
    let b3 = record b2 { third_level = third_word } in
    if first_word == 0 then (if second_word == 0 then b3 else b2) else b1
