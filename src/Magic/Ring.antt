-- ===== src/Magic/Ring.antt =====
-- Loads and stores through the two mappings of MagicBuffer.h.
use marketdatabook.Common.{ℕ, zero, suc, ◌+◌, ◌-◌, ◌%◌, ◌<◌, ◌≤◌, ◌≡◌, refl, ap, ap₂, ◌∙◌, arith}
use marketdatabook.Common.{[], ◌∷◌, length, update, update_self, update_ne}
use marketdatabook.Common.Bytes.{Bytes}
use marketdatabook.Common.Memory.{Memory, load}
use marketdatabook.Magic.{view, fill}
use marketdatabook.Spsc.Holds.{mod-ne}
use native.Mathlib.Nat.{add-mod_right}

module _ (cap : ℕ) where
  -- Both mappings show the same.
  pub load-period :
      (cells : Memory) (at n : ℕ) → load (view cells cap) (at + cap) n ≡ load (view cells cap) at n
  unfolding load
  load-period cells at zero = refl
  load-period cells at (suc n) =
      let shift : at + cap + 1 ≡ at + 1 + cap = omega arith in
      ap₂ ◌∷◌ (ap cells (add-mod_right at cap))
        (ap (λ a. load (view cells cap) a n) shift ∙ load-period cells (at + 1) n)

  pub fill-period :
      (cells : Memory) (at : ℕ) (bs : Bytes) → fill cells cap (at + cap) bs ≡ fill cells cap at bs
  unfolding fill
  fill-period cells at [] = refl
  fill-period cells at (b ∷ bs) =
      let shift : at + cap + 1 ≡ at + 1 + cap = omega arith in
      ap₂ (λ (i a : ℕ). fill (update cells i b) cap a bs) (add-mod_right at cap) shift
      ∙ fill-period (update cells (at % cap) b) (at + 1) bs

  -- A store leaves the bytes that are less than a round in front of its end.
  pub fill_apart :
      (cells : Memory) (at : ℕ) (bs : Bytes) (j : ℕ)
      → j < at
      → at + length bs ≤ j + cap
      → fill cells cap at bs (j % cap) ≡ cells (j % cap)
  unfolding fill
  fill_apart cells at [] j lo hi = refl
  fill_apart cells at (b ∷ bs) j lo hi =
      let ne = mod-ne j (at - j) cap (omega arith) (omega arith) in
      let sum : j + (at - j) ≡ at = omega arith in
      fill_apart (update cells (at % cap) b) (at + 1) bs j (omega arith) (omega arith)
      ∙ update_ne cells (at % cap) (j % cap) b (λ e. ne (ap (λ i. i % cap) sum ∙ e))

  -- What was stored is loaded back, if it is no more than a round.
  pub load-fill :
      (cells : Memory) (at : ℕ) (bs : Bytes)
      → length bs ≤ cap
      → load (view (fill cells cap at bs) cap) at (length bs) ≡ bs
  unfolding fill load
  load-fill cells at [] h = refl
  load-fill cells at (b ∷ bs) h =
      ap₂ ◌∷◌
        (fill_apart (update cells (at % cap) b) (at + 1) bs at (omega arith) (omega arith)
          ∙ update_self cells (at % cap) b)
        (load-fill (update cells (at % cap) b) (at + 1) bs (omega arith))
