-- ===== src/Common/Bits/Step.antt =====
-- `bit_or` and `bit_and` a digit at a time. The native operations stand for a recursion over
-- binary digits that takes the first operand as its fuel; any larger fuel gives the same.
use Prim.Native.Nat.{ℕ, zero, suc, ◌+◌, ◌*◌, ◌/◌, ◌%◌, ◌≤◌, min, max, bit_and, bit_or}
use Prim.Native.Nat.{digits, bit_and-bitwise, bit_or-bitwise}
use mathlib.Core.Path.{◌≡◌, refl, ap}
use native.Mathlib.Omega.{arith}

module _ (rest : ℕ → ℕ) (op : ℕ → ℕ → ℕ) where
  stable :
      (a fuel more b : ℕ) → a ≤ fuel → a ≤ more → digits rest op fuel a b ≡ digits rest op more a b
  stable zero zero zero b h k = refl
  stable zero zero (suc more) b h k = refl
  stable zero (suc fuel) zero b h k = refl
  stable zero (suc fuel) (suc more) b h k = refl
  stable (suc a) zero more b h k = absurd (omega arith)
  stable (suc a) (suc fuel) zero b h k = absurd (omega arith)
  stable (suc a) (suc fuel) (suc more) b h k =
      ap (λ (high : ℕ). high * 2 + op (suc a % 2) (b % 2))
        (stable (suc a / 2) fuel more (b / 2) (omega arith) (omega arith))

pub bit_or_step : (a b : ℕ) → bit_or a b ≡ bit_or (a / 2) (b / 2) * 2 + max (a % 2) (b % 2)
bit_or_step zero b = omega (arith, bit_or-bitwise 0 b, bit_or-bitwise 0 (b / 2))
bit_or_step (suc a) b =
    let high = stable (λ y. y) max (suc a / 2) a (suc a / 2) (b / 2) (omega arith) (omega arith) in
    omega (arith, bit_or-bitwise (suc a) b, bit_or-bitwise (suc a / 2) (b / 2), high)

pub bit_and_step : (a b : ℕ) → bit_and a b ≡ bit_and (a / 2) (b / 2) * 2 + min (a % 2) (b % 2)
bit_and_step zero b = omega (arith, bit_and-bitwise 0 b, bit_and-bitwise 0 (b / 2))
bit_and_step (suc a) b =
    let high = stable (λ y. 0) min (suc a / 2) a (suc a / 2) (b / 2) (omega arith) (omega arith) in
    omega (arith, bit_and-bitwise (suc a) b, bit_and-bitwise (suc a / 2) (b / 2), high)
