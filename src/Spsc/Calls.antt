-- ===== src/Spsc/Calls.antt =====
-- Whole calls of spscqueue.h against a FIFO of at most `Size - 1` elements.
use marketdatabook.Common.{ℕ, ◌-◌, ◌%◌, ◌<◌, ◌≡◌, refl, arith, if◌then◌else◌, Bool, true, false}
use marketdatabook.Common.{Option, none, some, List, [], ◌∷◌, ◌++◌, length, Array}
use marketdatabook.Common.{ltb, Bool-cases, inl, inr, update_self, ap}
use marketdatabook.Spsc.{Queue, new, push, pop, load_head, load_tail, write_slot, store_tail}
use marketdatabook.Spsc.{store_head, read_slot, looks_full, looks_empty}
use marketdatabook.Spsc.Holds.{size, size-pos, Holds}
use marketdatabook.Spsc.Holds.{load_head-Holds, load_tail-Holds, write_slot-Holds, store_tail-Holds}
use marketdatabook.Spsc.Holds.{
  store_head-Holds, looks_full-room, full_of_looks_full, empty_of_looks_empty, read_slot_lem,
  looks_empty-items,
}

-- What a bounded FIFO answers: `push` is refused at `cap` elements, `pop` on none.
abbrev pub fifo_push {ℓ} : {A : Type ℓ} → ℕ → List A → A → List A × Bool
fifo_push cap xs x = if ltb (length xs) cap then (xs ++ x ∷ [], true) else (xs, false)

abbrev pub fifo_pop {ℓ} : {A : Type ℓ} → List A → List A × Option A
fifo_pop [] = ([], none)
fifo_pop (x ∷ xs) = (xs, some x)

-- One call agrees with the FIFO: the same answer, and the queue holds the FIFO's elements.
abbrev pub Agrees {ℓ κ} : {A : Type ℓ} {B : Type κ} → ℕ → Queue A × B → List A × B → Type (ℓ ⊔ κ)
Agrees k (q, r) (xs, s) = Holds k q xs × (r ≡ s)

module _ {ℓ} {A : Type ℓ} {k : ℕ} (fits : k < 64) where
  -- The writes of a `push` that finds room.
  stored :
      {q : Queue A} {xs : List A} (x : A)
      → Holds k q xs
      → looks_full k q ≡ false
      → Holds k (store_tail k (write_slot k x q)) (xs ++ x ∷ [])
  unfolding write_slot
  stored {q} {xs} x h e =
      rw (update_self q.slots q.tail x) at (store_tail-Holds fits (write_slot-Holds fits h x e) e)

  -- For k < 64, on a queue that holds some elements, `push` answers as a FIFO of `Size - 1`
  -- elements does, and leaves the queue holding its elements: the new one last if there is room,
  -- and unchanged if there is none.
  pub push-Agrees :
      {q : Queue A} {xs : List A} (x : A)
      → Holds k q xs
      → Agrees k (push k q x) (fifo_push (size k - 1) xs x)
  unfolding push
  push-Agrees {q} {xs} x h =
      let h' = load_head-Holds fits h in
      elim (Bool-cases (looks_full k q)) [
        | inr room ↦
            let fits_in : ltb (length xs) (size k - 1) ≡ true =
              ground (arith, looks_full-room fits h room, h.room, h.head_known) in
            rw (room, fits_in) (stored x h room, refl)
        | inl full ↦ elim (Bool-cases (looks_full k (load_head k q))) [
          | inr room ↦
              let fits_in : ltb (length xs) (size k - 1) ≡ true =
                ground (arith, looks_full-room fits h' room, h'.room, h'.head_known) in
              rw (full, room, fits_in) (stored x h' room, refl)
          | inl still ↦
              let none_fits : ltb (length xs) (size k - 1) ≡ false =
                ground (arith, full_of_looks_full fits h still) in
              rw (full, still, none_fits) (h', refl)
        ]
      ]

  taken :
      {q : Queue A} {xs : List A}
      → Holds k q xs
      → looks_empty k q ≡ false
      → Agrees k (store_head k q, some (read_slot k q)) (fifo_pop xs)
  taken {xs = []} h e = absurd (omega (arith, looks_empty-items fits h e, h.tail_reached))
  taken {xs = x ∷ xs} h e = (store_head-Holds fits h e, ap some (read_slot_lem fits h))

  emptied :
      {q : Queue A} {xs : List A}
      → Holds k q xs
      → looks_empty k (load_tail k q) ≡ true
      → Agrees k (load_tail k q, none) (fifo_pop xs)
  emptied {xs = []} h e = (load_tail-Holds fits h, refl)
  emptied {xs = x ∷ xs} h e = absurd (omega (arith, empty_of_looks_empty fits h e))

  -- For k < 64, on a queue that holds some elements, `pop` answers as the FIFO does: the oldest
  -- element and the queue of the others, or `false` and the same elements if there are none.
  pub pop-Agrees : {q : Queue A} {xs : List A} → Holds k q xs → Agrees k (pop k q) (fifo_pop xs)
  unfolding pop
  pop-Agrees {q} {xs} h = elim (Bool-cases (looks_empty k q)) [
    | inr some_in ↦ rw (some_in) (taken h some_in)
    | inl none_in ↦ elim (Bool-cases (looks_empty k (load_tail k q))) [
      | inr some_in ↦ rw (none_in, some_in) (taken (load_tail-Holds fits h) some_in)
      | inl still ↦ rw (none_in, still) (emptied h still)
    ]
  ]

  -- A queue as it is constructed holds nothing.
  pub new-Holds : (slots : Array A) → Holds k (new slots) []
  unfolding new
  new-Holds slots = record {
    first = 0;
    seen_head = 0;
    seen_tail = 0;
    head_at = zero-mod;
    tail_at = zero-mod;
    cached_head_at = zero-mod;
    cached_tail_at = zero-mod;
    head_known = omega arith;
    room = omega (arith, size-pos fits);
    tail_known = omega arith;
    tail_reached = omega arith;
    items = λ i lt. absurd (omega arith);
  }
    where
      zero-mod : ◌≡◌ {A = ℕ} 0 (0 % size k)
      zero-mod = omega arith
