-- ===== src/OrderMap/Invariant.antt =====
-- StaticOrderMap.h: the invariant of the table, and the writes that keep it.
use marketdatabook.Common.{ℕ, ◌<◌, ◌≡◌, ◌≢◌, sym, ap, ◌∙◌, arith}
use marketdatabook.Common.{none, some, Option-cases}
use marketdatabook.Common.{◌⊎◌, inl, inr, update}
use marketdatabook.OrderMap.{OrderMap, Bucket, empty, occupied, new}
use marketdatabook.OrderMap.{capacity, home, find}
use marketdatabook.OrderMap.Probe.{IsEntry, IsReached}
use marketdatabook.OrderMap.Probe.{find_from-IsEntry, find_from-ne-none}
use native.Mathlib.Decide.{ℕ_discrete}
use native.Mathlib.Nat.{mod-lt, one-le-pow}
use marketdatabook.Common.Bits.{bit_and-mask}

module _ (k : ℕ) where
  -- An order has one bucket at most, and its probe reaches it.
  pub record IsProbed (m : OrderMap) : Type 0 where
    pub unique :
        (id i j : ℕ) → i < capacity k → j < capacity k → IsEntry m id i → IsEntry m id j → i ≡ j
    pub reached : (id i : ℕ) → i < capacity k → IsEntry m id i → IsReached k m (home k id) i

  pub home-lt : (id : ℕ) → home k id < capacity k
  unfolding home
  home-lt id = omega (arith, bit_and-mask k id, mod-lt id (one-le-pow k 2 (omega arith)))

  -- An empty table is in order.
  pub new-IsProbed : IsProbed new
  new-IsProbed = record {
    unique = λ id i j hi hj a b. absurd (ground (arith, a.used));
    reached = λ id i h a. absurd (ground (arith, a.used));
  }

  module _ {m : OrderMap} (v : IsProbed m) where
    -- `find` returns the bucket of the order exactly if there is one.
    pub find-IsEntry : (id i : ℕ) → find k m id ≡ some i → (i < capacity k) × IsEntry m id i
    unfolding find
    find-IsEntry id i e = find_from-IsEntry k (capacity k) m id (home k id) i (home-lt id) e

    pub find_found : (id i : ℕ) → i < capacity k → IsEntry m id i → find k m id ≢ none
    unfolding find
    find_found id i h entry =
        let r = v.reached id i h entry in
        find_from-ne-none k (capacity k) m id (home k id) r.steps r.steps-lt r.past
          (rw r.arrives entry)

    pub find-eq_of_entry : (id i : ℕ) → i < capacity k → IsEntry m id i → find k m id ≡ some i
    find-eq_of_entry id i h entry = elim (Option-cases (find k m id)) [
      | inl e ↦ absurd (find_found id i h entry e)
      | inr (j, e) ↦
          let (hj, found) = find-IsEntry id j e in e ∙ ap some (v.unique id j i hj h found entry)
    ]

-- An entry after a write to a bucket is that bucket, or was an entry before.
pub IsEntry-update :
    (m : OrderMap) (at : ℕ) (b : Bucket) (id i : ℕ)
    → IsEntry (update m at b) id i
    → ((i ≡ at) × (b.state ≡ occupied) × (b.order_id ≡ id)) ⊎ ((i ≢ at) × IsEntry m id i)
IsEntry-update m at b id i x = elim (ℕ_discrete i at) [
  | yes p ↦ inl (p, ground (arith, x.used), ground (arith, x.same_id))
  | no p ↦ inr (p, record { used = ground (arith, x.used); same_id = ground (arith, x.same_id) })
]

pub update-IsEntry :
    (m : OrderMap) (at : ℕ) (b : Bucket) (id i : ℕ)
    → i ≢ at
    → IsEntry m id i
    → IsEntry (update m at b) id i
update-IsEntry m at b id i p x = record {
  used = ground (arith, x.used);
  same_id = ground (arith, x.same_id);
}

module _ (k : ℕ) {m : OrderMap} (v : IsProbed k m) where
  -- A write that leaves no gap keeps what the probes reach.
  pub update-IsReached :
      (at : ℕ) (b : Bucket) {from i : ℕ}
      → b.state ≢ empty
      → IsReached k m from i
      → IsReached k (update m at b) from i
  update-IsReached at b full r = record {
    steps = r.steps;
    steps-lt = r.steps-lt;
    arrives = r.arrives;
    past = λ e lt. ground (arith, r.past e lt);
  }

  -- A write to a bucket keeps the table in order if it leaves no gap and adds no second bucket
  -- for an order.
  pub update-IsProbed :
      (at : ℕ) (b : Bucket)
      → b.state ≢ empty
      → (b.state ≡ occupied
          → ((i : ℕ) → i < capacity k → IsEntry m b.order_id i → i ≡ at)
            × IsReached k m (home k b.order_id) at)
      → IsProbed k (update m at b)
  update-IsProbed at b full fresh = record {
    unique = λ id i j hi hj x y. elim (IsEntry-update m at b id i x) [
      | inl (ei, used, same) ↦ elim (IsEntry-update m at b id j y) [
        | inl (ej, _, _) ↦ ei ∙ sym ej
        | inr (nj, y') ↦ ei ∙ sym ((fresh used).0 j hj (rw same y'))
      ]
      | inr (ni, x') ↦ elim (IsEntry-update m at b id j y) [
        | inl (ej, used, same) ↦ (fresh used).0 i hi (rw same x') ∙ sym ej
        | inr (nj, y') ↦ v.unique id i j hi hj x' y'
      ]
    ];
    reached = λ id i hi x. update-IsReached at b full (elim (IsEntry-update m at b id i x) [
      | inl (ei, used, same) ↦ rw (ei, ← same) (fresh used).1
      | inr (ni, x') ↦ v.reached id i hi x'
    ]);
  }

  -- `find` for an order goes by its entries alone.
  pub find_congr :
      {m' : OrderMap} (v' : IsProbed k m') (id : ℕ)
      → ((i : ℕ) → i < capacity k → IsEntry m id i → IsEntry m' id i)
      → ((i : ℕ) → i < capacity k → IsEntry m' id i → IsEntry m id i)
      → find k m' id ≡ find k m id
  find_congr {m'} v' id there back = elim (Option-cases (find k m id)) [
    | inr (i, e) ↦
        let (h, x) = find-IsEntry k v id i e in find-eq_of_entry k v' id i h (there i h x) ∙ sym e
    | inl e ↦ elim (Option-cases (find k m' id)) [
      | inl e' ↦ e' ∙ sym e
      | inr (i, e') ↦
          let (h, x) = find-IsEntry k v' id i e' in absurd (find_found k v id i h (back i h x) e)
    ]
  ]
