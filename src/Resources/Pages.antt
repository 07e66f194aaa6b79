-- ===== src/Resources/Pages.antt =====
-- The rounding of a size to whole pages in MagicBuffer.h and StaticOrderMap.h.
use marketdatabook.Common.{
  ℕ, zero, suc, ◌+◌, ◌-◌, ◌*◌, ◌/◌, ◌%◌, ◌^◌, ◌<◌, ◌≤◌, ◌≡◌, arith, ap, bit_and,
}
use marketdatabook.Common.Bits.{bit_and-mask, mod_double}
use marketdatabook.Common.Bits.Step.{bit_and_step}
use native.Mathlib.Nat.{pow-suc, one-le-pow, mod-eq_of_lt, mod-lt, mod-eq-sub-mul-div, mul-div-le}

-- `(bytes + PAGE_SIZE - 1) & ~(PAGE_SIZE - 1)` in 64 bits, for pages of 2 ^ p bytes.
unfoldable pub page_aligned : ℕ → ℕ → ℕ
page_aligned p bytes = bit_and ((bytes + 2 ^ p - 1) % 2 ^ 64) (2 ^ 64 - 2 ^ p)

pow_le : (p n : ℕ) → p ≤ n → 2 ^ p ≤ 2 ^ n
pow_le zero n h = one-le-pow n 2 (omega arith)
pow_le (suc p) zero h = absurd (omega arith)
pow_le (suc p) (suc n) h = omega (arith, pow-suc 2 p, pow-suc 2 n, pow_le p n (omega arith))

-- A mask without its low bits rounds down.
bit_and-high : (p n x : ℕ) → p ≤ n → x < 2 ^ n → bit_and x (2 ^ n - 2 ^ p) ≡ x - x % 2 ^ p
bit_and-high zero n x le h = omega (arith, bit_and-mask n x, mod-eq_of_lt h)
bit_and-high (suc p) zero x le h = absurd (omega arith)
bit_and-high (suc p) (suc n) x le h =
    let double : 2 ^ suc n ≡ 2 * 2 ^ n = omega (arith, pow-suc 2 n) in
    let double_page : 2 ^ suc p ≡ 2 * 2 ^ p = omega (arith, pow-suc 2 p) in
    let half : (2 ^ suc n - 2 ^ suc p) / 2 ≡ 2 ^ n - 2 ^ p = omega arith in
    omega (
      arith,
      bit_and_step x (2 ^ suc n - 2 ^ suc p),
      ap (λ (m : ℕ). bit_and (x / 2) m) half,
      bit_and-high p n (x / 2) (omega arith) (omega arith),
      ap (λ (m : ℕ). x % m) double_page,
      mod_double (2 ^ p) x,
      pow_le p n (omega arith),
    )

-- A size that can be rounded up in 64 bits is rounded up to the next whole number of pages.
pub page_aligned_lem :
    (p bytes : ℕ)
    → p < 64
    → bytes + 2 ^ p ≤ 2 ^ 64
    → (bytes ≤ page_aligned p bytes)
      × (page_aligned p bytes < bytes + 2 ^ p)
      × (page_aligned p bytes ≡ 2 ^ p * ((bytes + 2 ^ p - 1) / 2 ^ p))
unfolding page_aligned
page_aligned_lem p bytes small fits =
    let page = one-le-pow p 2 (omega arith) in
    let y = bytes + 2 ^ p - 1 in
    let whole : y % 2 ^ 64 ≡ y = mod-eq_of_lt (omega arith) in
    let rounded = bit_and-high p 64 y (omega arith) (omega arith) in
    let low = mod-lt y page in
    let split = mod-eq-sub-mul-div y (2 ^ p) in
    rw (whole, rounded) (omega arith, omega arith, omega (arith, split, mul-div-le y (2 ^ p)))
