-- ===== src/Book/Chain/Remove.antt =====
-- An index that leaves a queue of LimitOrderBook.cpp: the ends and the neighbours afterwards.
use marketdatabook.Common.{ℕ, ◌==◌, ◌≡◌, ◌≢◌, refl, arith, if◌then◌else◌, true, false, not, ◌&&◌}
use marketdatabook.Common.{List, [], ◌∷◌, ◌⊎◌, inl}
use marketdatabook.Book.{null_index}
use marketdatabook.Book.Chain.{
  has, Distinct, first, last_from, after, before_from, remove, has-last_from,
}

pub has-remove :
    (x i : ℕ) (xs : List ℕ) → Distinct xs → has x (remove i xs) ≡ not (i == x) && has x xs
has-remove x i [] d = ground arith
has-remove x i (y ∷ ys) (new, d) = ground (arith, has-remove x i ys d)

pub Distinct-remove : (i : ℕ) (xs : List ℕ) → Distinct xs → Distinct (remove i xs)
Distinct-remove i [] d = tt
Distinct-remove i (y ∷ ys) (new, d) = ground (arith, has-remove y i ys d, Distinct-remove i ys d)

-- A neighbour is in the list, or there is none.
pub has-after : (x : ℕ) (xs : List ℕ) → (after x xs ≡ null_index) ⊎ (has (after x xs) xs ≡ true)
has-after x [] = inl refl
has-after x (y ∷ []) = ground arith
has-after x (y ∷ z ∷ zs) = ground (arith, has-after x (z ∷ zs))

pub has-before_from :
    (p x : ℕ) (xs : List ℕ)
    → has x xs ≡ true
    → (before_from p x xs ≡ p) ⊎ (has (before_from p x xs) xs ≡ true)
has-before_from p x [] mem = absurd (cc)
has-before_from p x (y ∷ ys) mem = ground (arith, has-before_from y x ys)

pub first-remove :
    (i : ℕ) (xs : List ℕ)
    → has i xs ≡ true
    → first (remove i xs) ≡ (if first xs == i then after i xs else first xs)
first-remove i [] mem = absurd (cc)
first-remove i (y ∷ ys) mem = ground arith

pub last_from-remove :
    (p i : ℕ) (xs : List ℕ)
    → Distinct xs
    → has i xs ≡ true
    → last_from p (remove i xs)
      ≡ (if last_from p xs == i then before_from p i xs else last_from p xs)
last_from-remove p i [] d mem = absurd (cc)
last_from-remove p i (y ∷ []) d mem = ground arith
last_from-remove p i (y ∷ z ∷ zs) (new, d) mem =
    ground (arith, last_from-remove y i (z ∷ zs) d, has-last_from z zs)

pub after-remove :
    (x i : ℕ) (xs : List ℕ)
    → Distinct xs
    → has null_index xs ≡ false
    → has i xs ≡ true
    → x ≢ i
    → after x (remove i xs) ≡ (if after x xs == i then after i xs else after x xs)
after-remove x i [] d out mem ne = absurd (cc)
after-remove x i (y ∷ ys) (new, d) out mem ne =
    ground (arith, after-remove x i ys d, has-after x ys, first-remove i ys)

pub before_from-remove :
    (p x i : ℕ) (xs : List ℕ)
    → Distinct xs
    → has p xs ≡ false
    → has i xs ≡ true
    → has x xs ≡ true
    → x ≢ i
    → before_from p x (remove i xs)
      ≡ (if before_from p x xs == i then before_from p i xs else before_from p x xs)
before_from-remove p x i [] d out mem there ne = absurd (cc)
before_from-remove p x i (y ∷ []) d out mem there ne = absurd (ground arith)
before_from-remove p x i (y ∷ z ∷ zs) (new, d) out mem there ne =
    ground (arith, before_from-remove y x i (z ∷ zs) d new, has-before_from z x zs)

-- Links in both directions agree.
pub after-before_from :
    (p x i : ℕ) (xs : List ℕ)
    → Distinct xs
    → has p xs ≡ false
    → has null_index xs ≡ false
    → has x xs ≡ true
    → has i xs ≡ true
    → (after x xs == i) ≡ (before_from p i xs == x)
after-before_from p x i [] d out some_null there mem = absurd (cc)
after-before_from p x i (y ∷ []) d out some_null there mem = ground arith
after-before_from p x i (y ∷ z ∷ zs) (new, d) out some_null there mem =
    ground
      (arith, after-before_from y x i (z ∷ zs) d new, has-before_from z i zs, has-after x (z ∷ zs))

-- No index is its own neighbour.
pub after_ne :
    (i : ℕ) (xs : List ℕ)
    → Distinct xs
    → has null_index xs ≡ false
    → has i xs ≡ true
    → after i xs ≢ i
after_ne i [] d out mem = absurd (cc)
after_ne i (y ∷ []) d out mem = ground arith
after_ne i (y ∷ z ∷ zs) (new, d) out mem = ground (arith, after_ne i (z ∷ zs) d)

pub before_from_ne :
    (p i : ℕ) (xs : List ℕ)
    → Distinct xs
    → has p xs ≡ false
    → has null_index xs ≡ false
    → has i xs ≡ true
    → before_from p i xs ≢ i
before_from_ne p i xs d out some_null mem =
    ground
      (arith, after-before_from p i i xs d out some_null mem mem, after_ne i xs d some_null mem)
