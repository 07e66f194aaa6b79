-- ===== src/Book/Chain.antt =====
-- A queue of pool indices as a list: its ends, and the neighbours of an index, as the links of
-- LimitOrderBook.cpp give them. `null_index` stands for no neighbour.
pub mod Remove
use marketdatabook.Common.{ℕ, ◌==◌, ◌≡◌, refl, arith, if◌then◌else◌, Bool, true, false, ◌||◌}
use marketdatabook.Common.{List, [], ◌∷◌, ◌++◌, ◌⊎◌, inl, inr}
use marketdatabook.Book.{null_index}

abbrev pub has : ℕ → List ℕ → Bool
has x [] = false
has x (y ∷ ys) = (x == y) || has x ys

abbrev pub Distinct : List ℕ → Type 0
Distinct [] = Unit
Distinct (x ∷ xs) = (has x xs ≡ false) × Distinct xs

abbrev pub first : List ℕ → ℕ
first [] = null_index
first (x ∷ xs) = x

-- The last index of a list, or the one before the list.
abbrev pub last_from : ℕ → List ℕ → ℕ
last_from p [] = p
last_from p (x ∷ xs) = last_from x xs

abbrev pub last : List ℕ → ℕ
last xs = last_from null_index xs

abbrev pub after : ℕ → List ℕ → ℕ
after x [] = null_index
after x (y ∷ ys) = if x == y then first ys else after x ys

abbrev pub before_from : ℕ → ℕ → List ℕ → ℕ
before_from p x [] = null_index
before_from p x (y ∷ ys) = if x == y then p else before_from y x ys

abbrev pub before : ℕ → List ℕ → ℕ
before x xs = before_from null_index x xs

abbrev pub remove : ℕ → List ℕ → List ℕ
remove x [] = []
remove x (y ∷ ys) = if x == y then ys else y ∷ remove x ys

pub has-append : (x i : ℕ) (xs : List ℕ) → has x (xs ++ i ∷ []) ≡ has x xs || (x == i)
has-append x i [] = ground arith
has-append x i (y ∷ ys) = ground (arith, has-append x i ys)

pub Distinct-append :
    (i : ℕ) (xs : List ℕ) → Distinct xs → has i xs ≡ false → Distinct (xs ++ i ∷ [])
Distinct-append i [] d out = (refl, tt)
Distinct-append i (y ∷ ys) (new, d) out =
    (ground (arith, has-append y i ys), Distinct-append i ys d (ground arith))

-- A new index at the end.
pub first-append :
    (i : ℕ) (xs : List ℕ)
    → has null_index xs ≡ false
    → first (xs ++ i ∷ []) ≡ (if first xs == null_index then i else first xs)
first-append i [] out = refl
first-append i (y ∷ ys) out = ground arith

pub last_from-append : (p i : ℕ) (xs : List ℕ) → last_from p (xs ++ i ∷ []) ≡ i
last_from-append p i [] = refl
last_from-append p i (y ∷ ys) = last_from-append y i ys

pub after-append_new :
    (i : ℕ) (xs : List ℕ) → has i xs ≡ false → after i (xs ++ i ∷ []) ≡ null_index
after-append_new i [] out = ground arith
after-append_new i (y ∷ ys) out = ground (arith, after-append_new i ys)

pub before_from-append_new :
    (p i : ℕ) (xs : List ℕ) → has i xs ≡ false → before_from p i (xs ++ i ∷ []) ≡ last_from p xs
before_from-append_new p i [] out = ground arith
before_from-append_new p i (y ∷ ys) out = ground (arith, before_from-append_new y i ys)

pub before_from-append :
    (p x i : ℕ) (xs : List ℕ)
    → has x xs ≡ true
    → before_from p x (xs ++ i ∷ []) ≡ before_from p x xs
before_from-append p x i [] mem = absurd (cc)
before_from-append p x i (y ∷ ys) mem = ground (arith, before_from-append y x i ys)

pub has-last_from : (p : ℕ) (xs : List ℕ) → (last_from p xs ≡ p) ⊎ (has (last_from p xs) xs ≡ true)
has-last_from p [] = inl refl
has-last_from p (y ∷ ys) = ground (arith, has-last_from y ys)

-- The last index gets the new one behind it.
pub after-append :
    (p x i : ℕ) (xs : List ℕ)
    → Distinct xs
    → has x xs ≡ true
    → after x (xs ++ i ∷ []) ≡ (if last_from p xs == x then i else after x xs)
after-append p x i [] d mem = absurd (cc)
after-append p x i (y ∷ []) d mem = ground arith
after-append p x i (y ∷ z ∷ zs) (new, d) mem =
    ground (arith, after-append y x i (z ∷ zs) d, has-last_from z zs)
