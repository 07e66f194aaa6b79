-- ===== src/Common/Memory.antt =====
-- Byte-addressed memory: loads and stores of several bytes.
use Prim.Native.Nat.{ℕ, zero, suc, ◌+◌, ◌≤◌, ◌<◌}
use mathlib.Core.Path.{◌≡◌, refl, ap, ap₂, ◌∙◌}
use mathlib.Core.Logic.{◌⊎◌, inl, inr}
use mathlib.Core.List.{[], ◌∷◌, ◌++◌}
use native.Mathlib.Omega.{arith}
use native.Mathlib.Nat.{zero-add, add-zero}
use marketdatabook.Common.Lists.{length}
use marketdatabook.Common.Arrays.{Array, update, update_self, update_ne}
use marketdatabook.Common.Bytes.{Bytes}

abbrev pub Memory : Type 0
Memory = Array ℕ

-- The `n` bytes from an address on.
unfoldable pub load : Memory → ℕ → ℕ → Bytes
load m at zero = []
load m at (suc n) = m at ∷ load m (at + 1) n

unfoldable pub store : Memory → ℕ → Bytes → Memory
store m at [] = m
store m at (b ∷ bs) = store (update m at b) (at + 1) bs

pub length-load : (m : Memory) (at n : ℕ) → length (load m at n) ≡ n
unfolding load
length-load m at zero = refl
length-load m at (suc n) = ap suc (length-load m (at + 1) n)

-- A store changes the bytes that it covers and no other.
pub store_below : (m : Memory) (at : ℕ) (bs : Bytes) (j : ℕ) → j < at → store m at bs j ≡ m j
unfolding store
store_below m at [] j h = refl
store_below m at (b ∷ bs) j h =
    store_below (update m at b) (at + 1) bs j (omega arith) ∙ update_ne m at j b (omega arith)

pub store_above :
    (m : Memory) (at : ℕ) (bs : Bytes) (j : ℕ) → at + length bs ≤ j → store m at bs j ≡ m j
unfolding store
store_above m at [] j h = refl
store_above m at (b ∷ bs) j h =
    store_above (update m at b) (at + 1) bs j (omega arith) ∙ update_ne m at j b (omega arith)

-- A load goes by the bytes that it covers.
pub load_congr :
    (m m' : Memory) (at n : ℕ)
    → ((j : ℕ) → at ≤ j → j < at + n → m j ≡ m' j)
    → load m at n ≡ load m' at n
unfolding load
load_congr m m' at zero h = refl
load_congr m m' at (suc n) h =
    ap₂ ◌∷◌ (h at (omega arith) (omega arith))
      (load_congr m m' (at + 1) n (λ j lo hi. h j (omega arith) (omega arith)))

-- What was stored is loaded back.
pub load-store : (m : Memory) (at : ℕ) (bs : Bytes) → load (store m at bs) at (length bs) ≡ bs
unfolding load store
load-store m at [] = refl
load-store m at (b ∷ bs) =
    ap₂ ◌∷◌ (store_below (update m at b) (at + 1) bs at (omega arith) ∙ update_self m at b)
      (load-store (update m at b) (at + 1) bs)

pub load-add : (m : Memory) (at n k : ℕ) → load m at (n + k) ≡ load m at n ++ load m (at + n) k
unfolding load
load-add m at zero k = rw (zero-add, add-zero) refl
load-add m at (suc n) k =
    let count : suc n + k ≡ suc (n + k) = omega arith in
    let place : at + suc n ≡ at + 1 + n = omega arith in
    rw (count, place) (ap (λ t. m at ∷ t) (load-add m (at + 1) n k))

pub store_apart :
    (m : Memory) (at : ℕ) (bs : Bytes) (j : ℕ)
    → (j < at) ⊎ (at + length bs ≤ j)
    → store m at bs j ≡ m j
store_apart m at bs j (inl h) = store_below m at bs j h
store_apart m at bs j (inr h) = store_above m at bs j h

-- A load beside a store reads what was there before.
pub load_apart :
    (m : Memory) (at : ℕ) (bs : Bytes) (from n : ℕ)
    → (from + n ≤ at) ⊎ (at + length bs ≤ from)
    → load (store m at bs) from n ≡ load m from n
load_apart m at bs from n (inl h) =
    load_congr (store m at bs) m from n (λ j lo hi. store_below m at bs j (omega arith))
load_apart m at bs from n (inr h) =
    load_congr (store m at bs) m from n (λ j lo hi. store_above m at bs j (omega arith))

-- What was stored is loaded back, for a store of known length.
pub load-store_of_length :
    (m : Memory) (at : ℕ) (bs : Bytes) {n : ℕ} → length bs ≡ n → load (store m at bs) at n ≡ bs
load-store_of_length m at bs e = rw (← e) (load-store m at bs)
