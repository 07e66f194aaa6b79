-- ===== src/Common/Arrays.antt =====
-- Fixed arrays and mapped memory, as functions of the index. Which indices the code reaches is
-- a matter of the components' bounds theorems.
use Prim.Native.Nat.{ℕ}
use mathlib.Core.Path.{◌≡◌}
use mathlib.Core.Logic.{◌≢◌}
use marketdatabook.Common.Bools.{◌==◌, if◌then◌else◌, ==_refl, ==_of_ne}

abbrev pub Array {ℓ} : Type ℓ → Type ℓ
Array A = ℕ → A

module _ {ℓ} {A : Type ℓ} where
  abbrev pub update : Array A → ℕ → A → Array A
  update a i v j = if i == j then v else a j

  pub update_self : (a : Array A) (i : ℕ) (v : A) → update a i v i ≡ v
  update_self a i v = simp (==_refl i)

  pub update_ne : (a : Array A) (i j : ℕ) (v : A) → i ≢ j → update a i v j ≡ a j
  update_ne a i j v h = simp (==_of_ne i j h)
