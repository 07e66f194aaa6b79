-- ===== src/Engine/Check.antt =====
-- src/main.cpp: the lines that the consumer prints while `add_count` is below 10.
use marketdatabook.Common.{
  ℕ, suc, zero, ◌+◌, ◌-◌, ◌≡◌, refl, ap, ◌∙◌, ltb, if◌then◌else◌, arith, take,
}
use marketdatabook.Common.{List, [], ◌∷◌, Option, none, some, Bool-cases, inl, inr}
use marketdatabook.Itch.{
  NormalizedOrder, NormalizedAddOrder, add_order, execute_order, cancel_order,
}

-- The count afterwards, and the order that is printed, by its id, stock, shares and price.
unfoldable pub print_order : ℕ → NormalizedOrder → ℕ × Option NormalizedAddOrder
print_order add_count (add_order o) =
    if ltb add_count 10 then (add_count + 1, some o) else (add_count, none)
print_order add_count (execute_order o) = (add_count, none)
print_order add_count (cancel_order o) = (add_count, none)

abbrev printed : Option NormalizedAddOrder → List NormalizedAddOrder → List NormalizedAddOrder
printed none os = os
printed (some o) os = o ∷ os

-- All that is printed while the consumer dispatches some orders.
unfoldable pub print_orders : ℕ → List NormalizedOrder → List NormalizedAddOrder
print_orders add_count [] = []
print_orders add_count (o ∷ os) =
    let (count, line) = print_order add_count o in printed line (print_orders count os)

abbrev pub adds : List NormalizedOrder → List NormalizedAddOrder
adds [] = []
adds (add_order o ∷ os) = o ∷ adds os
adds (execute_order o ∷ os) = adds os
adds (cancel_order o ∷ os) = adds os

-- From a count on, the add orders up to the tenth are printed, and nothing else.
pub print_orders_lem :
    (os : List NormalizedOrder) (add_count : ℕ)
    → print_orders add_count os ≡ take (10 - add_count) (adds os)
unfolding print_orders print_order
print_orders_lem [] add_count = nil_lem (10 - add_count)
  where
    nil_lem : (n : ℕ) → ◌≡◌ {A = List NormalizedAddOrder} [] (take n [])
    nil_lem zero = refl
    nil_lem (suc n) = refl
print_orders_lem (execute_order o ∷ os) add_count = print_orders_lem os add_count
print_orders_lem (cancel_order o ∷ os) add_count = print_orders_lem os add_count
print_orders_lem (add_order o ∷ os) add_count = elim (Bool-cases (ltb add_count 10)) [
  | inl few ↦
      let left : 10 - add_count ≡ suc (10 - (add_count + 1)) = ground arith in
      rw (few, left) (ap (λ t. o ∷ t) (print_orders_lem os (add_count + 1)))
  | inr many ↦
      let left : 10 - add_count ≡ 0 = ground arith in
      rw (many, left) (print_orders_lem os add_count ∙ ap (λ n. take n (adds os)) left)
]
