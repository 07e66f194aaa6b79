-- ===== src/Tests/Orders.antt =====
-- src/utils/StaticOrderMap.h with a table of four buckets.
use marketdatabook.Common.{◌==◌, ◌≡◌, arith, if◌then◌else◌, none, some, done, state}
use marketdatabook.OrderMap.{OrderMap, new, assign, erase}
use marketdatabook.OrderMap.Invariant.{IsProbed, new-IsProbed}
use marketdatabook.OrderMap.Laws.{get, Models, erase-Models}
use marketdatabook.OrderMap.Assign.{HasRoom, assign-Models}

new-HasRoom : HasRoom 2 new
new-HasRoom = (0, omega arith, λ e. absurd (ground (arith, e)))

abbrev one_order : OrderMap
one_order = state (assign 2 new 5 9)

one_order-IsProbed : IsProbed 2 one_order
one_order-IsProbed =
    let (m, run, models) = assign-Models 2 (new-IsProbed 2) 5 9 new-HasRoom in
    rw (run) models.in_order

assign-Models_example :
    (m : OrderMap) × (assign 2 new 5 9 ≡ done m)
    × Models 2 (λ j. if 5 == j then some 9 else get 2 new j) m
assign-Models_example = assign-Models 2 (new-IsProbed 2) 5 9 new-HasRoom

erase-Models_example :
    Models 2 (λ j. if 5 == j then none else get 2 one_order j) (erase 2 one_order 5)
erase-Models_example = erase-Models 2 one_order-IsProbed 5
