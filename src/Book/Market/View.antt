-- ===== src/Book/Market/View.antt =====
-- A queue of pool indices as the queue of the resting orders there.
use marketdatabook.Common.{
  ℕ, ◌-◌, ◌==◌, ◌≡◌, refl, arith, if◌then◌else◌, true, false, ==_refl, ==_of_ne,
}
use native.Mathlib.Decide.{ℕ_discrete}
use marketdatabook.Common.{List, [], ◌∷◌, ◌++◌, map, Array}
use marketdatabook.Book.{Order}
use marketdatabook.Book.Chain.{has, Distinct, remove}
use marketdatabook.Book.Market.{Resting, without, reduced, quantity}

abbrev pub resting : Array Order → ℕ → Resting
resting pool x = record {
  order_reference_number = (pool x).order_reference_number;
  shares = (pool x).shares;
}

abbrev pub view : Array Order → List ℕ → List Resting
view pool xs = map (resting pool) xs

pub view-congr :
    (pool pool' : Array Order) (xs : List ℕ)
    → ((x : ℕ)
        → has x xs ≡ true
        → ((pool' x).order_reference_number ≡ (pool x).order_reference_number)
          × ((pool' x).shares ≡ (pool x).shares))
    → view pool' xs ≡ view pool xs
view-congr pool pool' [] same = refl
view-congr pool pool' (x ∷ xs) same =
    rw
      (
        (same x (ground arith)).0,
        (same x (ground arith)).1,
        view-congr pool pool' xs (λ y h. same y (ground arith)),
      )
      refl

pub view-append :
    (pool : Array Order) (x : ℕ) (xs : List ℕ)
    → view pool (xs ++ x ∷ []) ≡ view pool xs ++ resting pool x ∷ []
view-append pool x [] = refl
view-append pool x (y ∷ ys) = rw (view-append pool x ys) refl

-- The order is the only one of a queue with its id.
abbrev pub IsOnly : Array Order → ℕ → List ℕ → Type 0
IsOnly pool idx xs =
    (x : ℕ)
    → has x xs ≡ true
    → (pool x).order_reference_number ≡ (pool idx).order_reference_number
    → x ≡ idx

pub view-remove :
    (pool : Array Order) (idx : ℕ) (xs : List ℕ)
    → IsOnly pool idx xs
    → view pool (remove idx xs) ≡ without (pool idx).order_reference_number (view pool xs)
view-remove pool idx [] only = refl
view-remove pool idx (y ∷ ys) only =
    ground (arith, only y, view-remove pool idx ys (λ x h. only x (ground arith)))

pub view-reduced :
    (pool pool' : Array Order) (idx shares : ℕ) (xs : List ℕ)
    → IsOnly pool idx xs
    → Distinct xs
    → ((x : ℕ)
        → ((pool' x).order_reference_number ≡ (pool x).order_reference_number)
          × ((pool' x).shares ≡ (if idx == x then (pool x).shares - shares else (pool x).shares)))
    → view pool' xs ≡ reduced (pool idx).order_reference_number shares (view pool xs)
view-reduced pool pool' idx shares [] only d same = refl
view-reduced pool pool' idx shares (y ∷ ys) only (new, d) same =
    let (id, left) = same y in
    elim (ℕ_discrete idx y) [
      | yes own ↦
          let rest : view pool' ys ≡ view pool ys =
            view-congr pool pool' ys (λ x h. ground (arith, same x)) in
          let first_id : ((pool y).order_reference_number == (pool idx).order_reference_number)
              ≡ true =
            ground arith in
          rw (first_id, rest, id, left, own, ==_refl y) refl
      | no ne ↦
          let rest = view-reduced pool pool' idx shares ys (λ x h. only x (ground arith)) d same in
          let first_id : ((pool y).order_reference_number == (pool idx).order_reference_number)
              ≡ false =
            ground (arith, only y) in
          rw (first_id, rest, id, left, ==_of_ne idx y ne) refl
    ]

pub quantity-view :
    (pool : Array Order) (idx : ℕ) (xs : List ℕ)
    → IsOnly pool idx xs
    → has idx xs ≡ true
    → quantity (pool idx).order_reference_number (view pool xs) ≡ (pool idx).shares
quantity-view pool idx [] only mem = absurd (cc)
quantity-view pool idx (y ∷ ys) only mem =
    ground (arith, only y, quantity-view pool idx ys (λ x h. only x (ground arith)))
