-- ===== src/OrderMap/Assign.antt =====
-- `orders_[id] = v` of StaticOrderMap.h: a write to the finite map wherever a bucket is free.
use marketdatabook.Common.{ℕ, ◌<◌, ◌==◌, ◌≡◌, ◌≢◌, refl, sym, ◌∙◌, arith, if◌then◌else◌}
use marketdatabook.Common.{none, some, Option-cases, inl, inr, update, done}
use marketdatabook.Common.{==_refl, ==_of_ne}
use marketdatabook.OrderMap.{OrderMap, Bucket, occupied, set_pool_idx, capacity}
use marketdatabook.OrderMap.{home, find, insert, index, assign, insert_from}
use marketdatabook.OrderMap.Probe.{IsEntry, IsStop, walk-lt, walk-surjective}
use marketdatabook.OrderMap.Probe.{insert_from-IsStop, insert_from-ne-none}
use marketdatabook.OrderMap.Invariant.{IsProbed, home-lt, find-IsEntry, find_found}
use marketdatabook.OrderMap.Invariant.{IsEntry-update, update-IsEntry}
use marketdatabook.OrderMap.Invariant.{update-IsProbed, find_congr}
use marketdatabook.OrderMap.Laws.{get, get_congr, Models, set_pool_idx-IsProbed, get-set_pool_idx}
use native.Mathlib.Decide.{ℕ_discrete}

module _ (k : ℕ) where
  abbrev pub HasRoom : OrderMap → Type 0
  HasRoom m = (i : ℕ) × (i < capacity k) × ((m i).state ≢ occupied)

  module _ {m : OrderMap} (v : IsProbed k m) (id : ℕ) where
    -- What `operator[]` prepares: a bucket for the order, with every other order as it was.
    record IsPrepared (m' : OrderMap) (at : ℕ) : Type 0 where
      in_order : IsProbed k m'
      inside : at < capacity k
      entry : IsEntry m' id at
      others : (j : ℕ) → id ≢ j → get k m' j ≡ get k m j

    -- The bucket that `insert` writes when `find` found none.
    inserted :
        (at : ℕ)
        → find k m id ≡ none
        → IsStop k m id (home k id) at (capacity k)
        → IsPrepared (update m at (record { order_id = id; pool_idx = 0; state = occupied })) at
    inserted at e s =
        let new_bucket : Bucket = record { order_id = id; pool_idx = 0; state = occupied } in
        let entry : IsEntry (update m at new_bucket) id at = record {
          used = ground arith;
          same_id = ground arith;
        } in
        let not_there : (i : ℕ) → i < capacity k → IsEntry m id i → ⊥ =
          λ i hi x. find_found k v id i hi x e in
        let kept : (j i : ℕ) → id ≢ j → IsEntry m j i → i ≢ at =
          λ j i ne x same. ne (sym (s.stop (rw same at x.used)) ∙ rw same at x.same_id) in
        let inside : at < capacity k = rw s.arrives at (walk-lt k s.steps (home-lt k id)) in
        let in_order : IsProbed k (update m at new_bucket) =
          update-IsProbed k v at new_bucket (λ e. cc)
            (λ used. (
              λ i hi x. absurd (not_there i hi x),
              record {
                steps = s.steps;
                steps-lt = s.steps-lt;
                arrives = s.arrives;
                past = λ d lt. ground (arith, s.past d lt);
              },
            )) in
        record {
          in_order = in_order;
          inside = inside;
          entry = entry;
          others = λ j ne.
              get_congr k _ j v
                (find_congr k v in_order j
                  (λ i hi x. update-IsEntry m at new_bucket j i (kept j i ne x) x)
                  (λ i hi x. elim (IsEntry-update m at new_bucket j i x) [
                    | inl (_, _, same) ↦ absurd (ne same)
                    | inr (_, y) ↦ y
                  ]))
                (λ i x. ground (arith, kept j i ne x));
        }

    index-IsPrepared :
        HasRoom m → (m' : OrderMap) × (at : ℕ) × (index k m id ≡ done (m', at)) × IsPrepared m' at
    unfolding index
    index-IsPrepared (free, hf, unused) = elim (Option-cases (find k m id)) [
      | inr (at, e) ↦
          let (h, entry) = find-IsEntry k v id at e in
          (
            m,
            at,
            rw (e, index),
            record { in_order = v; inside = h; entry = entry; others = λ j ne. refl },
          )
      | inl e ↦ elim (Option-cases (insert_from k (capacity k) m id (home k id))) [
        | inl full ↦
            let (d, hd, arrives) = walk-surjective k (home k id) free (home-lt k id) hf in
            absurd
              (insert_from-ne-none k (capacity k) m id (home k id) d hd (rw arrives unused) full)
        | inr (at, stop) ↦
            let s = insert_from-IsStop k (capacity k) m id (home k id) at stop in
            (_, at, rw (e, index, insert, stop), inserted at e s)
      ]
    ]

    -- Where a bucket is free, `orders_[id] = v` does not throw; it gives the order its value and
    -- leaves every other order as it was, and the table stays in order.
    pub assign-Models :
        (w : ℕ)
        → HasRoom m
        → (m' : OrderMap) × (assign k m id w ≡ done m')
          × Models k (λ j. if id == j then some w else get k m j) m'
    unfolding assign
    assign-Models w room =
        let (m1, at, run, p) = index-IsPrepared room in
        (
          set_pool_idx m1 at w,
          rw (run, assign),
          record {
            in_order = set_pool_idx-IsProbed k p.in_order id at p.inside p.entry w;
            values = λ j.
                get-set_pool_idx k p.in_order id at p.inside p.entry w j ∙ elim (ℕ_discrete id j) [
                  | yes same ↦ rw (same, ==_refl j)
                  | no ne ↦ rw (==_of_ne id j ne) (p.others j ne)
                ];
          },
        )
