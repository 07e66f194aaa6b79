-- ===== src/Common/Bits.antt =====
-- Machine words of `uint64_t` and their bits: what `|`, `&`, `~`, `<<` and `>>` do to a single
-- bit, and the compiler's builtins that count zeros.
pub mod Step
use Step.{bit_or_step, bit_and_step}
use Prim.Native.Nat.{ℕ, zero, suc, ◌+◌, ◌-◌, ◌*◌, ◌/◌, ◌%◌, ◌^◌, ◌≤◌, ◌<◌, bit_and, bit_or}
use mathlib.Core.Path.{◌≡◌, refl, ap, ◌∙◌}
use mathlib.Core.Logic.{◌≢◌, ◌⊎◌, inl, inr}
use mathlib.Core.Bool.{Bool, true, false, ◌&&◌, ◌||◌, not}
use Prim.Native.Nat.{bit_or-bitwise, bit_and-bitwise}
use native.Mathlib.Omega.{arith}
use native.Mathlib.Numerals.{add-one}
use native.Mathlib.Decide.{ℕ_discrete}
use native.Mathlib.Nat.{pow-suc, one-le-pow, mod-eq-sub-mul-div, div-div-eq-div-mul}
use marketdatabook.Common.Bools.{◌==◌, ltb, if◌then◌else◌, Bool-cases}

-- `1ULL << k` for `k < 64`
abbrev pub shl_one : ℕ → ℕ
shl_one k = 2 ^ k

-- `~x` on 64 bits
abbrev pub complement : ℕ → ℕ
complement x = 2 ^ 64 - 1 - x

-- Bit `k` of `w`, counted from the least significant.
pub test_bit : ℕ → ℕ → Bool
test_bit w zero = w % 2 == 1
test_bit w (suc k) = test_bit (w / 2) k

pub test_bit-bit_or : (a b k : ℕ) → test_bit (bit_or a b) k ≡ test_bit a k || test_bit b k
unfolding test_bit
test_bit-bit_or a b zero = ground (arith, bit_or_step a b)
test_bit-bit_or a b (suc k) =
    ap (λ (w : ℕ). test_bit w k) (omega (arith, bit_or_step a b))
    ∙ test_bit-bit_or (a / 2) (b / 2) k

pub test_bit-bit_and : (a b k : ℕ) → test_bit (bit_and a b) k ≡ test_bit a k && test_bit b k
unfolding test_bit
test_bit-bit_and a b zero = ground (arith, bit_and_step a b)
test_bit-bit_and a b (suc k) =
    ap (λ (w : ℕ). test_bit w k) (omega (arith, bit_and_step a b))
    ∙ test_bit-bit_and (a / 2) (b / 2) k

pub test_bit-zero : (k : ℕ) → test_bit 0 k ≡ false
unfolding test_bit
test_bit-zero zero = refl
test_bit-zero (suc k) = test_bit-zero k

pub test_bit-shl_one : (i k : ℕ) → test_bit (shl_one i) k ≡ (i == k)
unfolding test_bit
test_bit-shl_one zero zero = refl
test_bit-shl_one zero (suc k) = ground (arith, test_bit-zero k)
test_bit-shl_one (suc i) zero = ground (arith, pow-suc 2 i)
test_bit-shl_one (suc i) (suc k) =
    ap (λ (w : ℕ). test_bit w k) (omega (arith, pow-suc 2 i)) ∙ test_bit-shl_one i k ∙ ground arith

pub shl_one-lt : (n k : ℕ) → k < n → shl_one k < 2 ^ n
shl_one-lt zero k h = absurd (omega arith)
shl_one-lt (suc n) zero h = omega (arith, one-le-pow n 2, pow-suc 2 n)
shl_one-lt (suc n) (suc k) h = omega (arith, pow-suc 2 n, pow-suc 2 k, shl_one-lt n k (omega arith))

-- Taking a word from a mask of `n` ones flips its bits below `n`.
test_bit-flip : (n w k : ℕ) → w < 2 ^ n → k < n → test_bit (2 ^ n - 1 - w) k ≡ not (test_bit w k)
unfolding test_bit
test_bit-flip zero w k hw hk = absurd (omega arith)
test_bit-flip (suc n) w zero hw hk = ground (arith, pow-suc 2 n)
test_bit-flip (suc n) w (suc k) hw hk =
    ap (λ (v : ℕ). test_bit v k) (omega (arith, pow-suc 2 n, one-le-pow n 2))
    ∙ test_bit-flip n (w / 2) k (omega (arith, pow-suc 2 n)) (omega arith)

pub test_bit-complement :
    (w k : ℕ) → w < 2 ^ 64 → k < 64 → test_bit (complement w) k ≡ not (test_bit w k)
test_bit-complement w k hw hk = test_bit-flip 64 w k hw hk

-- `__builtin_clzll(w)`: the zeros above the highest set bit of the low `n` bits, at `n = 64`.
pub clz_below : ℕ → ℕ → ℕ
clz_below zero w = 0
clz_below (suc n) w = let below = clz_below n w in if test_bit w n then 0 else below + 1

unfoldable pub clz : ℕ → ℕ
unfolding clz_below test_bit
clz w = clz_below 64 w

-- `__builtin_ctzll(w)`: the zeros below the lowest set bit, with `n` bits left to look at.
pub ctz_above : ℕ → ℕ → ℕ
ctz_above zero w = 0
ctz_above (suc n) w = let above = ctz_above n (w / 2) in if w % 2 == 1 then 0 else above + 1

unfoldable pub ctz : ℕ → ℕ
unfolding ctz_above
ctz w = ctz_above 64 w

pub bit_or-lt : (n a b : ℕ) → a < 2 ^ n → b < 2 ^ n → bit_or a b < 2 ^ n
bit_or-lt zero zero zero ha hb = omega (arith, bit_or-bitwise 0 0)
bit_or-lt zero zero (suc b) ha hb = absurd (omega arith)
bit_or-lt zero (suc a) b ha hb = absurd (omega arith)
bit_or-lt (suc n) a b ha hb =
    let half_a : a / 2 < 2 ^ n = omega (arith, pow-suc 2 n) in
    let half_b : b / 2 < 2 ^ n = omega (arith, pow-suc 2 n) in
    omega (arith, pow-suc 2 n, bit_or_step a b, bit_or-lt n (a / 2) (b / 2) half_a half_b)

bit_and-le_fuel : (n a b : ℕ) → a ≤ n → bit_and a b ≤ a
bit_and-le_fuel n zero b h = omega (arith, bit_and-bitwise 0 b)
bit_and-le_fuel zero (suc a) b h = absurd (omega arith)
bit_and-le_fuel (suc n) (suc a) b h =
    omega (arith, bit_and_step (suc a) b, bit_and-le_fuel n (suc a / 2) (b / 2) (omega arith))

pub bit_and-le : (a b : ℕ) → bit_and a b ≤ a
bit_and-le a b = bit_and-le_fuel a a b (omega arith)

-- A word that is not zero has a set bit.
pub set_bit_of_ne_zero : (n w : ℕ) → w < 2 ^ n → w ≢ 0 → (k : ℕ) × (k < n) × (test_bit w k ≡ true)
unfolding test_bit
set_bit_of_ne_zero zero w h ne = absurd (omega arith)
set_bit_of_ne_zero (suc n) w h ne = elim (Bool-cases (w % 2 == 1)) [
  | inl odd ↦ (0, omega arith, odd)
  | inr even ↦
      let half_lt : w / 2 < 2 ^ n = omega (arith, pow-suc 2 n) in
      let half_ne : w / 2 ≢ 0 = ground arith in
      let (k, hk, e) = set_bit_of_ne_zero n (w / 2) half_lt half_ne in (suc k, omega arith, e)
]

-- `k` is the highest of the low `n` bits of `w` that is set.
pub record IsHighest (n w k : ℕ) : Type 0 where
  pub below : k < n
  pub is_set : test_bit w k ≡ true
  pub above : (i : ℕ) → k < i → i < n → test_bit w i ≡ false

pub clz_below-IsHighest :
    (n w j : ℕ)
    → j < n
    → test_bit w j ≡ true
    → (k : ℕ) × (k + 1 + clz_below n w ≡ n) × IsHighest n w k
unfolding clz_below
clz_below-IsHighest zero w j h e = absurd (omega arith)
clz_below-IsHighest (suc n) w j h e = elim (Bool-cases (test_bit w n)) [
  | inl top ↦ (
    n,
    rw (top) (omega arith),
    record { below = omega arith; is_set = top; above = λ i lo hi. absurd (omega arith) },
  )
  | inr clear ↦ elim (ℕ_discrete j n) [
    | yes p ↦ absurd (ground arith)
    | no p ↦
        let (k, count, high) = clz_below-IsHighest n w j (omega arith) e in
        (
          k,
          rw (clear) (omega arith),
          record {
            below = omega (arith, high.below);
            is_set = high.is_set;
            above = λ i lo hi. elim (ℕ_discrete i n) [
              | yes q ↦ rw q clear
              | no q ↦ high.above i lo (omega arith)
            ];
          },
        )
  ]
]

-- `k` is the lowest bit of `w` that is set.
pub record IsLowest (n w k : ℕ) : Type 0 where
  pub below : k < n
  pub is_set : test_bit w k ≡ true
  pub under : (i : ℕ) → i < k → test_bit w i ≡ false

pub ctz_above-IsLowest : (n w j : ℕ) → j < n → test_bit w j ≡ true → IsLowest n w (ctz_above n w)
unfolding ctz_above test_bit
ctz_above-IsLowest zero w j h e = absurd (omega arith)
ctz_above-IsLowest (suc n) w zero h e =
    rw e (record { below = omega arith; is_set = e; under = λ i lo. absurd (omega arith) })
ctz_above-IsLowest (suc n) w (suc j) h e = elim (Bool-cases (w % 2 == 1)) [
  | inl odd ↦
      rw odd (record { below = omega arith; is_set = odd; under = λ i lo. absurd (omega arith) })
  | inr even ↦
      let low = ctz_above-IsLowest n (w / 2) j (omega arith) e in
      rw (even, add-one)
        (record {
          below = omega (arith, low.below);
          is_set = low.is_set;
          under = elim [ zero ↦ λ lo. even | suc i ↦ λ lo. low.under i (omega arith) ];
        })
]

module _ (w : ℕ) (word : w < 2 ^ 64) (ne : w ≢ 0) where
  pub clz-IsHighest : (clz w < 64) × IsHighest 64 w (63 - clz w)
  unfolding clz
  clz-IsHighest =
      let (j, below, e) = set_bit_of_ne_zero 64 w word ne in
      let (k, count, high) = clz_below-IsHighest 64 w j below e in
      let same : 63 - clz_below 64 w ≡ k = omega arith in (omega arith, rw same high)

  pub ctz-IsLowest : IsLowest 64 w (ctz w)
  unfolding ctz
  ctz-IsLowest =
      let (j, below, e) = set_bit_of_ne_zero 64 w word ne in ctz_above-IsLowest 64 w j below e

bit_and-none_fuel : (n a : ℕ) → a ≤ n → bit_and a 0 ≡ 0
bit_and-none_fuel n zero h = bit_and-bitwise 0 0
bit_and-none_fuel zero (suc a) h = absurd (omega arith)
bit_and-none_fuel (suc n) (suc a) h =
    omega (arith, bit_and_step (suc a) 0, bit_and-none_fuel n (suc a / 2) (omega arith))

pub mod_double : (p a : ℕ) → a % (2 * p) ≡ a / 2 % p * 2 + a % 2
mod_double p a = omega (
  arith,
  mod-eq-sub-mul-div a (2 * p),
  mod-eq-sub-mul-div (a / 2) p,
  ap (λ (q : ℕ). 2 * p * q) (div-div-eq-div-mul a 2 p),
)

-- `x & (2 ^ k - 1)` is the remainder by `2 ^ k`.
pub bit_and-mask : (k a : ℕ) → bit_and a (2 ^ k - 1) ≡ a % 2 ^ k
bit_and-mask zero a = omega (arith, bit_and-none_fuel a a (omega arith))
bit_and-mask (suc k) a =
    let half : (2 ^ suc k - 1) / 2 ≡ 2 ^ k - 1 = omega (arith, pow-suc 2 k, one-le-pow k 2) in
    let double : 2 ^ suc k ≡ 2 * 2 ^ k = omega (arith, pow-suc 2 k) in
    omega (
      arith,
      bit_and_step a (2 ^ suc k - 1),
      ap (λ (m : ℕ). bit_and (a / 2) m) half,
      bit_and-mask k (a / 2),
      ap (λ (m : ℕ). a % m) double,
      mod_double (2 ^ k) a,
      double,
      one-le-pow k 2,
    )
