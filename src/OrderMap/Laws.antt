-- ===== src/OrderMap/Laws.antt =====
-- StaticOrderMap.h as a finite map from order ids to pool indices: what its writes and
-- `erase` do to the value of every order.
use marketdatabook.Common.{ℕ, ◌<◌, ◌==◌, ◌≡◌, ◌≢◌, refl, sym, ap, ◌∙◌, arith, if◌then◌else◌}
use marketdatabook.Common.{Option, none, some, Option-cases, inl, inr, ==_refl, ==_of_ne}
use marketdatabook.OrderMap.{OrderMap, bury, set_pool_idx, capacity}
use marketdatabook.OrderMap.{find, erase}
use marketdatabook.OrderMap.Probe.{IsEntry}
use marketdatabook.OrderMap.Invariant.{IsProbed, find-IsEntry}
use marketdatabook.OrderMap.Invariant.{find-eq_of_entry, IsEntry-update, update-IsEntry}
use marketdatabook.OrderMap.Invariant.{update-IsProbed, find_congr}
use native.Mathlib.Decide.{ℕ_discrete}
use mathlib.Core.Option

module _ (k : ℕ) where
  -- The value that the map has for an order.
  unfoldable pub get : OrderMap → ℕ → Option ℕ
  get m id = Option.map (λ at. (m at).pool_idx) (find k m id)

  -- The value changes with the entries of the order alone.
  pub get_congr :
      {m : OrderMap} (m' : OrderMap) (id : ℕ)
      → IsProbed k m
      → find k m' id ≡ find k m id
      → ((i : ℕ) → IsEntry m id i → (m' i).pool_idx ≡ (m i).pool_idx)
      → get m' id ≡ get m id
  unfolding get
  get_congr {m} m' id v same values = elim (Option-cases (find k m id)) [
    | inl e ↦ rw (same, e)
    | inr (i, e) ↦ rw (same, e) (ap some (values i (find-IsEntry k v id i e).1))
  ]

  module _ {m : OrderMap} (v : IsProbed k m) (id at : ℕ) (h : at < capacity k)
      (entry : IsEntry m id at) where
    bury-IsProbed : IsProbed k (bury m at)
    bury-IsProbed = update-IsProbed k v at _ (λ e. cc) (λ e. cc)

    pub set_pool_idx-IsProbed : (w : ℕ) → IsProbed k (set_pool_idx m at w)
    set_pool_idx-IsProbed w =
        update-IsProbed k v at _ (λ e. ground (arith, entry.used))
          (λ used. (
            λ i hi x. v.unique (m at).order_id i at hi h x (record { used = used; same_id = refl }),
            v.reached (m at).order_id at h (record { used = used; same_id = refl }),
          ))

    -- Entries of other orders are elsewhere.
    pub elsewhere : (j i : ℕ) → id ≢ j → IsEntry m j i → i ≢ at
    elsewhere j i ne x same =
        ne (sym entry.same_id ∙ ap (λ a. (m a).order_id) (sym same) ∙ x.same_id)

    find-bury_self : find k (bury m at) id ≡ none
    find-bury_self = elim (Option-cases (find k (bury m at) id)) [
      | inl e ↦ e
      | inr (i, e) ↦
          let (hi, x) = find-IsEntry k bury-IsProbed id i e in
          elim (IsEntry-update m at _ id i x) [
            | inl (_, used, _) ↦ absurd (cc)
            | inr (ne, y) ↦ absurd (ne (v.unique id i at hi h y entry))
          ]
    ]

    get-bury : (j : ℕ) → get (bury m at) j ≡ (if id == j then none else get m j)
    unfolding get
    get-bury j = elim (ℕ_discrete id j) [
      | yes same ↦ rw (← same, find-bury_self, ==_refl)
      | no ne ↦ rw (==_of_ne id j ne) (
          get_congr (bury m at) j v
            (find_congr k v bury-IsProbed j
              (λ i hi x. update-IsEntry m at _ j i (elsewhere j i ne x) x)
              (λ i hi x. elim (IsEntry-update m at _ j i x) [
                | inl (_, used, _) ↦ absurd (cc)
                | inr (_, y) ↦ y
              ]))
            (λ i x. ground arith))
    ]

    pub get-set_pool_idx :
        (w j : ℕ) → get (set_pool_idx m at w) j ≡ (if id == j then some w else get m j)
    unfolding get
    get-set_pool_idx w j = elim (ℕ_discrete id j) [
      | yes same ↦
          let here : IsEntry (set_pool_idx m at w) id at = record {
            used = ground (arith, entry.used);
            same_id = ground (arith, entry.same_id);
          } in
          rw (
            ← same,
            find-eq_of_entry k (set_pool_idx-IsProbed w) id at h here,
            ==_refl at,
            ==_refl id,
          )
      | no ne ↦ rw (==_of_ne id j ne) (
          get_congr (set_pool_idx m at w) j v
            (find_congr k v (set_pool_idx-IsProbed w) j
              (λ i hi x. update-IsEntry m at _ j i (elsewhere j i ne x) x)
              (λ i hi x. elim (IsEntry-update m at _ j i x) [
                | inl (_, used, same) ↦ absurd (ne (sym entry.same_id ∙ same))
                | inr (_, y) ↦ y
              ]))
            (λ i x. ground (arith, elsewhere j i ne x)))
    ]

  -- The table is in order and has, for every order, the value that `f` says.
  pub record Models (f : ℕ → Option ℕ) (m : OrderMap) : Type 0 where
    pub in_order : IsProbed k m
    pub values : (j : ℕ) → get m j ≡ f j

  module _ {m : OrderMap} (v : IsProbed k m) (id : ℕ) where
    absent : (j : ℕ) → find k m id ≡ none → get m j ≡ (if id == j then none else get m j)
    unfolding get
    absent j e = elim (ℕ_discrete id j) [
      | yes same ↦ rw (← same, ==_refl id, e)
      | no ne ↦ rw (==_of_ne id j ne)
    ]

    -- Erasing an order takes it out of the map and leaves every other as it was, whether it was
    -- there or not.
    pub erase-Models : Models (λ j. if id == j then none else get m j) (erase k m id)
    unfolding erase
    erase-Models = elim (Option-cases (find k m id)) [
      | inr (at, e) ↦
          let (h, entry) = find-IsEntry k v id at e in
          rw (e, erase)
            (record { in_order = bury-IsProbed v id at h entry; values = get-bury v id at h entry })
      | inl e ↦ rw (e, erase) (record { in_order = v; values = λ j. absent j e })
    ]
