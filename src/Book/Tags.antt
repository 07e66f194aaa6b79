-- ===== src/Book/Tags.antt =====
-- The table entries of LimitOrderBook.cpp: an index into the pool below 2 ^ 31, and the side of the
-- order in the bit above it.
use marketdatabook.Common.{
  ℕ, zero, suc, ◌+◌, ◌*◌, ◌/◌, ◌%◌, ◌^◌, ◌<◌, ◌==◌, ltb, ◌≡◌, refl, arith, if◌then◌else◌,
  Bool-cases, inl, inr,
}
use marketdatabook.Common.{bit_and, bit_or}
use marketdatabook.Common.Bits.{bit_and-mask}
use marketdatabook.Common.Bits.Step.{bit_or_step, bit_and_step}
use Prim.Native.Nat.{bit_or-bitwise}
use native.Mathlib.Nat.{pow-suc}
use marketdatabook.Book.{Side, side_mask}
use marketdatabook.Book.Orders.{side_tag, side_of, index_of}

bit_or-pow : (n x : ℕ) → x < 2 ^ n → bit_or (2 ^ n) x ≡ 2 ^ n + x
bit_or-pow zero zero h = refl
bit_or-pow zero (suc x) h = absurd (omega arith)
bit_or-pow (suc n) x h =
    let double : 2 ^ suc n ≡ 2 * 2 ^ n = omega (arith, pow-suc 2 n) in
    let half : 2 ^ suc n / 2 ≡ 2 ^ n = omega arith in
    let rest : bit_or (2 ^ suc n / 2) (x / 2) ≡ 2 ^ n + x / 2 =
      rw half (bit_or-pow n (x / 2) (omega arith)) in
    omega (arith, bit_or_step (2 ^ suc n) x)

bit_and-pow : (n x : ℕ) → x < 2 * 2 ^ n → bit_and x (2 ^ n) ≡ (if ltb x (2 ^ n) then 0 else 2 ^ n)
bit_and-pow zero zero h = refl
bit_and-pow zero (suc zero) h = refl
bit_and-pow zero (suc (suc x)) h = absurd (omega arith)
bit_and-pow (suc n) x h =
    let double : 2 ^ suc n ≡ 2 * 2 ^ n = omega (arith, pow-suc 2 n) in
    let half : 2 ^ suc n / 2 ≡ 2 ^ n = omega arith in
    let rest : bit_and (x / 2) (2 ^ suc n / 2) ≡ (if ltb (x / 2) (2 ^ n) then 0 else 2 ^ n) =
      rw half (bit_and-pow n (x / 2) (omega arith)) in
    ground (arith, bit_and_step x (2 ^ suc n))

-- The level of a price: twice the price for a bid, and one more for an ask.
abbrev pub level_of : Side → ℕ → ℕ
level_of Side.buy price = 2 * price
level_of Side.sell price = 2 * price + 1

abbrev pub side_at : ℕ → Side
side_at k = if k % 2 == 0 then Side.buy else Side.sell

-- The entry of an order of a level.
abbrev pub tag : ℕ → ℕ → ℕ
tag k x = if k % 2 == 0 then x else side_mask + x

pub side_at-level_of : (side : Side) (price : ℕ) → side_at (level_of side price) ≡ side
side_at-level_of Side.buy price = ground arith
side_at-level_of Side.sell price = ground arith

pub level_of-price : (side : Side) (price : ℕ) → level_of side price / 2 ≡ price
level_of-price Side.buy price = ground arith
level_of-price Side.sell price = ground arith

pub level_of-side_at : (k : ℕ) → level_of (side_at k) (k / 2) ≡ k
level_of-side_at k = elim (Bool-cases (k % 2 == 0)) [
  | inl e ↦ rw (e) (ground arith)
  | inr e ↦ rw (e) (ground arith)
]

pub tag_lem :
    (side : Side) (price x : ℕ)
    → x < side_mask
    → bit_or (side_tag side) x ≡ tag (level_of side price) x
tag_lem Side.buy price x h = ground (arith, bit_or-bitwise 0 x)
tag_lem Side.sell price x h = ground (arith, bit_or-pow 31 x h)

pub index_of-tag : (k x : ℕ) → x < side_mask → index_of (tag k x) ≡ x
index_of-tag k x h = ground (arith, bit_and-mask 31 (tag k x))

pub side_of-tag : (k x : ℕ) → x < side_mask → side_of (tag k x) ≡ side_at k
side_of-tag k x h = ground (arith, bit_and-pow 31 (tag k x))
