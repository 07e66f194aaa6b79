-- ===== src/Common/Pigeons.antt =====
-- Counting by injections below a bound.
use Prim.Native.Nat.{ℕ, zero, suc, ◌≤◌, ◌<◌}
use mathlib.Core.Path.{◌≡◌}
use native.Mathlib.Omega.{arith}
use marketdatabook.Common.Bools.{◌==◌, if◌then◌else◌}

-- An injection from the numbers below `n` to those below `m` needs `n ≤ m`.
pub le_of_injective :
    (n m : ℕ) (f : ℕ → ℕ)
    → ((i : ℕ) → i < n → f i < m)
    → ((i j : ℕ) → i < n → j < n → f i ≡ f j → i ≡ j)
    → n ≤ m
le_of_injective zero m f below inj = omega arith
le_of_injective (suc n) zero f below inj = absurd (omega (arith, below n (omega arith)))
le_of_injective (suc n) (suc m) f below inj =
    let last : n < suc n = omega arith in
    let rest : n ≤ m =
      le_of_injective n m (λ i. if f i == m then f n else f i)
        (λ i h. ground (arith, below i (omega arith), below n last, inj i n (omega arith) last))
        (λ i j hi hj e. ground (
          arith,
          inj i j (omega arith) (omega arith),
          inj i n (omega arith) last,
          inj j n (omega arith) last,
        )) in
    omega arith
