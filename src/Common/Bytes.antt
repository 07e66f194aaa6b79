-- ===== src/Common/Bytes.antt =====
-- Integers in memory: the little-endian loads and stores of x86, and the byte swaps of the
-- compiler's builtins.
use Prim.Native.Nat.{ℕ, zero, suc, ◌+◌, ◌*◌, ◌/◌, ◌%◌, ◌^◌, ◌<◌}
use mathlib.Core.Path.{◌≡◌, refl, ap, ◌∙◌, sym}
use mathlib.Core.List.{List, [], ◌∷◌}
use native.Mathlib.Omega.{arith}
use native.Mathlib.Nat.{pow-suc, div-add-mod, div-div-eq-div-mul, mod-eq_of_lt}
use marketdatabook.Common.Lists.{length}

abbrev pub Bytes : Type 0
Bytes = List ℕ

-- What `memcpy` puts into an integer: the first byte is the lowest.
unfoldable pub load_le : Bytes → ℕ
load_le [] = 0
load_le (b ∷ bs) = b + 256 * load_le bs

-- The bytes of an integer of `n` bytes in memory.
unfoldable pub store_le : ℕ → ℕ → Bytes
store_le zero x = []
store_le (suc n) x = x % 256 ∷ store_le n (x / 256)

pub length-store_le : (n x : ℕ) → length (store_le n x) ≡ n
unfolding store_le
length-store_le zero x = refl
length-store_le (suc n) x = ap suc (length-store_le n (x / 256))

-- `__builtin_bswap16`, `32` and `64` at `n` = 2, 4 and 8.
unfoldable pub bswap : ℕ → ℕ → ℕ
bswap zero x = 0
bswap (suc n) x = x % 256 * 256 ^ n + bswap n (x / 256)

-- The number that bytes in network order stand for.
unfoldable pub from_be : Bytes → ℕ
from_be [] = 0
from_be (b ∷ bs) = b * 256 ^ length bs + from_be bs

-- All of them are bytes.
abbrev pub AreBytes : Bytes → Type 0
AreBytes [] = Unit
AreBytes (b ∷ bs) = (b < 256) × AreBytes bs

-- Swapping what was loaded reads the bytes in network order.
pub bswap-load_le : (bs : Bytes) → AreBytes bs → bswap (length bs) (load_le bs) ≡ from_be bs
unfolding bswap load_le from_be
bswap-load_le [] h = refl
bswap-load_le (b ∷ bs) h =
    let low : (b + 256 * load_le bs) % 256 ≡ b = omega (arith, h.0) in
    let high : (b + 256 * load_le bs) / 256 ≡ load_le bs = omega (arith, h.0) in
    rw (low, high, bswap-load_le bs h.1)

pub load_le-store_le : (n x : ℕ) → x < 256 ^ n → load_le (store_le n x) ≡ x
unfolding load_le store_le
load_le-store_le zero x h = omega arith
load_le-store_le (suc n) x h =
    omega (arith, load_le-store_le n (x / 256) (omega (arith, pow-suc 256 n)))

-- The bytes of a number in network order.
unfoldable pub to_be : ℕ → ℕ → Bytes
to_be zero x = []
to_be (suc n) x = x / 256 ^ n % 256 ∷ to_be n x

pub length-to_be : (n x : ℕ) → length (to_be n x) ≡ n
unfolding to_be
length-to_be zero x = refl
length-to_be (suc n) x = ap suc (length-to_be n x)

pub to_be-AreBytes : (n x : ℕ) → AreBytes (to_be n x)
unfolding to_be
to_be-AreBytes zero x = tt
to_be-AreBytes (suc n) x = (omega arith, to_be-AreBytes n x)

mod_split : (p x : ℕ) → x % (p * 256) ≡ x / p % 256 * p + x % p
mod_split p x =
    let q = x / p in
    let whole = div-add-mod x (p * 256) in
    let part = div-add-mod x p in
    let digit : q * p ≡ (256 * (q / 256) + q % 256) * p = ap (λ (t : ℕ). t * p) (omega arith) in
    let same = ap (λ (t : ℕ). t * (p * 256)) (div-div-eq-div-mul x p 256) in
    omega (arith, whole, part, digit, same)

from_be-to_be_mod : (n x : ℕ) → from_be (to_be n x) ≡ x % 256 ^ n
unfolding from_be to_be
from_be-to_be_mod zero x = omega arith
from_be-to_be_mod (suc n) x =
    rw (length-to_be, from_be-to_be_mod n x, pow-suc) (sym (mod_split (256 ^ n) x))

-- A number that fits is read back from its bytes.
pub from_be-to_be : (n x : ℕ) → x < 256 ^ n → from_be (to_be n x) ≡ x
from_be-to_be n x h = from_be-to_be_mod n x ∙ mod-eq_of_lt h
