-- ===== src/OrderMap/Probe.antt =====
-- Probe sequences of StaticOrderMap.h: what the loops of `find` and `insert` come to.
use marketdatabook.Common.{ℕ, zero, suc, ◌+◌, ◌-◌, ◌<◌, ◌==◌, ◌&&◌, not, ◌≡◌, ◌≢◌, refl}
use marketdatabook.Common.{none, some, arith}
use marketdatabook.Common.{Bool-cases, inl, inr, ap, ◌∙◌}
use native.Mathlib.Decide.{dec_lt}
use native.Mathlib.Nat.{zero-add}
use marketdatabook.OrderMap.{OrderMap, empty, occupied, is_occupied}
use marketdatabook.OrderMap.{capacity, advance, find_from, insert_from}

-- The bucket is in use for the order.
pub record IsEntry (m : OrderMap) (id at : ℕ) : Type 0 where
  pub used : (m at).state ≡ occupied
  pub same_id : (m at).order_id ≡ id

module _ (k : ℕ) where
  -- The bucket reached from `at` in `d` steps.
  abbrev pub walk : ℕ → ℕ → ℕ
  walk at zero = at
  walk at (suc d) = walk (advance k at) d

  -- The probe from `at` reaches bucket `i` within the capacity, past buckets that are not empty.
  pub record IsReached (m : OrderMap) (at i : ℕ) : Type 0 where
    pub steps : ℕ
    pub steps-lt : steps < capacity k
    pub arrives : walk at steps ≡ i
    pub past : (e : ℕ) → e < steps → (m (walk at e)).state ≢ empty

  pub advance-lt : {at : ℕ} → at < capacity k → advance k at < capacity k
  unfolding advance
  advance-lt h = ground arith

  pub walk-lt : (d : ℕ) {at : ℕ} → at < capacity k → walk at d < capacity k
  walk-lt zero h = h
  walk-lt (suc d) h = walk-lt d (advance-lt h)

  -- What `find` returns is a bucket of the table in use for the order.
  pub find_from-IsEntry :
      (left : ℕ) (m : OrderMap) (id at i : ℕ)
      → at < capacity k
      → find_from k left m id at ≡ some i
      → (i < capacity k) × IsEntry m id i
  unfolding find_from
  find_from-IsEntry zero m id at i h e = cc
  find_from-IsEntry (suc left) m id at i h e =
      ground (arith, find_from-IsEntry left m id (advance k at) i (advance-lt h))

  -- `find` sees every entry that its probe reaches.
  pub find_from-ne-none :
      (left : ℕ) (m : OrderMap) (id at d : ℕ)
      → d < left
      → ((e : ℕ) → e < d → (m (walk at e)).state ≢ empty)
      → IsEntry m id (walk at d)
      → find_from k left m id at ≢ none
  unfolding find_from
  find_from-ne-none zero m id at d h past entry = absurd (omega arith)
  find_from-ne-none (suc left) m id at zero h past entry = ground arith
  find_from-ne-none (suc left) m id at (suc d) h past entry = ground (
    arith,
    past 0,
    find_from-ne-none left m id (advance k at) d (omega arith) (λ e lt. past (suc e) (omega arith))
        entry,
  )

  -- `insert` stops at the first bucket that is free or holds the same order.
  pub record IsStop (m : OrderMap) (id at i left : ℕ) : Type 0 where
    pub steps : ℕ
    pub steps-lt : steps < left
    pub arrives : walk at steps ≡ i
    pub past : (e : ℕ) → e < steps → (m (walk at e)).state ≡ occupied
    pub stop : (m i).state ≡ occupied → (m i).order_id ≡ id

  pub insert_from-IsStop :
      (left : ℕ) (m : OrderMap) (id at i : ℕ)
      → insert_from k left m id at ≡ some i
      → IsStop m id at i left
  unfolding insert_from
  insert_from-IsStop zero m id at i e = cc
  insert_from-IsStop (suc left) m id at i e =
      elim (Bool-cases (is_occupied (m at).state && not ((m at).order_id == id))) [
        | inl full ↦
            let s = insert_from-IsStop left m id (advance k at) i (rw full at e) in
            record {
              steps = suc s.steps;
              steps-lt = omega (arith, s.steps-lt);
              arrives = s.arrives;
              past = elim [ zero ↦ λ lt. ground arith | suc d ↦ λ lt. s.past d (omega arith) ];
              stop = s.stop;
            }
        | inr stop ↦ record {
          steps = 0;
          steps-lt = omega arith;
          arrives = ground arith;
          past = λ d lt. absurd (omega arith);
          stop = λ used. ground arith;
        }
      ]

  -- `insert` finds room where the walk meets a bucket that is not in use.
  pub insert_from-ne-none :
      (left : ℕ) (m : OrderMap) (id at d : ℕ)
      → d < left
      → (m (walk at d)).state ≢ occupied
      → insert_from k left m id at ≢ none
  unfolding insert_from
  insert_from-ne-none zero m id at d h free = absurd (omega arith)
  insert_from-ne-none (suc left) m id at zero h free = ground arith
  insert_from-ne-none (suc left) m id at (suc d) h free =
      ground (arith, insert_from-ne-none left m id (advance k at) d (omega arith) free)

  advance-next : (at : ℕ) → at + 1 ≢ capacity k → advance k at ≡ at + 1
  unfolding advance
  advance-next at h = ground arith

  advance-wrap : (at : ℕ) → at + 1 ≡ capacity k → advance k at ≡ 0
  unfolding advance
  advance-wrap at h = ground arith

  walk-add : (at d : ℕ) → at + d < capacity k → walk at d ≡ at + d
  walk-add at zero h = omega arith
  walk-add at (suc d) h =
      rw (advance-next at (omega arith)) (walk-add (at + 1) d (omega arith) ∙ omega arith)

  walk_to_end : (at d : ℕ) → d ≢ 0 → at + d ≡ capacity k → walk at d ≡ 0
  walk_to_end at zero ne h = absurd (ne refl)
  walk_to_end at (suc zero) ne h = advance-wrap at (omega arith)
  walk_to_end at (suc (suc d)) ne h =
      rw (advance-next at (omega arith)) (walk_to_end (at + 1) (suc d) (omega arith) (omega arith))

  walk-walk : (at d e : ℕ) → walk at (d + e) ≡ walk (walk at d) e
  walk-walk at zero e = rw zero-add refl
  walk-walk at (suc d) e =
      let sum : suc d + e ≡ suc (d + e) = omega arith in rw sum (walk-walk (advance k at) d e)

  -- Every bucket is on every walk of a whole round.
  pub walk-surjective :
      (at i : ℕ) → at < capacity k → i < capacity k → (d : ℕ) × (d < capacity k) × (walk at d ≡ i)
  walk-surjective at i h g = elim (dec_lt i at) [
    | no p ↦
        let ahead : at + (i - at) ≡ i = omega arith in
        (i - at, omega arith, walk-add at (i - at) (omega arith) ∙ ahead)
    | yes p ↦
        let end = walk_to_end at (capacity k - at) (omega arith) (omega arith) in
        (
          capacity k - at + i,
          omega arith,
          walk-walk at (capacity k - at) i
              ∙ ap (λ (a : ℕ). walk a i) end
              ∙ walk-add 0 i (omega arith)
              ∙ omega arith,
        )
  ]
