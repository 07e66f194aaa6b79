-- ===== src/Spsc/Holds.antt =====
-- What a queue of spscqueue.h holds, and each of its loads and stores as a step on that.
use marketdatabook.Common.{ℕ, suc, ◌+◌, ◌-◌, ◌%◌, ◌^◌, ◌≤◌, ◌<◌, ◌≡◌, ◌≢◌, refl, ap}
use marketdatabook.Common.{arith, some, List, [], ◌∷◌, ◌++◌, length, update_ne}
use marketdatabook.Common.{
  true, false, ==_iff, ◌∙◌, sym, length-snoc, get_elem?, get_elem?-append_left, get_elem?-snoc_end,
}
use marketdatabook.Common.Bits.{bit_and-mask}
use native.Mathlib.Decide.{dec_lt}
use native.Mathlib.Nat.{mod-add-mod, mod-eq_of_lt, mod-eq-sub-mod, mod-lt, one-le-pow}
use native.Mathlib.Nat.{pow-le-pow_right}
use marketdatabook.Spsc.{Queue, next_index, load_head, write_slot, store_tail, load_tail}
use marketdatabook.Spsc.{store_head, read_slot, looks_full, looks_empty}

-- Counters less than a whole turn apart fall on different indices.
pub mod-ne : (a d n : ℕ) → 0 < d → d < n → (a + d) % n ≢ a % n
mod-ne a d n pos small =
    let wrap = mod-add-mod a n d in
    let low = mod-lt a {m = n} (omega arith) in
    elim (dec_lt (a % n + d) n) [
      | yes p ↦ omega (arith, wrap, mod-eq_of_lt p)
      | no p ↦ omega (
        arith,
        wrap,
        low,
        mod-eq-sub-mod {n = a % n + d} {m = n} (omega arith),
        mod-eq_of_lt {n = a % n + d - n} {m = n} (omega arith),
      )
    ]

abbrev pub size : ℕ → ℕ
size k = 2 ^ k

-- The queue holds `xs`, oldest first. The counters tell how many elements were taken (`first`),
-- and how many each side knows the other to have taken and added.
pub record Holds {ℓ} {A : Type ℓ} (k : ℕ) (q : Queue A) (xs : List A) : Type ℓ where
  pub first : ℕ
  pub seen_head : ℕ
  pub seen_tail : ℕ
  pub head_at : q.head ≡ first % size k
  pub tail_at : q.tail ≡ (first + length xs) % size k
  pub cached_head_at : q.cached_head ≡ seen_head % size k
  pub cached_tail_at : q.cached_tail ≡ seen_tail % size k
  pub head_known : seen_head ≤ first
  pub room : first + length xs < seen_head + size k
  pub tail_known : first ≤ seen_tail
  pub tail_reached : seen_tail ≤ first + length xs
  pub items : (i : ℕ) → i < length xs → get_elem? xs i ≡ some (q.slots ((first + i) % size k))

module _ {k : ℕ} (fits : k < 64) where
  pub size-pos : 0 < size k
  size-pos = one-le-pow k 2 (omega arith)

  size-le : size k ≤ 2 ^ 63
  size-le = pow-le-pow_right {n = 2} (omega arith) {i = k} {j = 63} (omega arith)

  next_index-mod : (a : ℕ) → next_index k (a % size k) ≡ (a + 1) % size k
  unfolding next_index
  next_index-mod a =
      let small : (a % size k + 1) % 2 ^ 64 ≡ a % size k + 1 =
        omega (arith, size-le, mod-lt a size-pos) in
      rw (bit_and-mask, small) (mod-add-mod a (size k) 1)

  module _ {ℓ} {A : Type ℓ} {q : Queue A} {xs : List A} (h : Holds k q xs) where
    pub load_head-Holds : Holds k (load_head k q) xs
    unfolding load_head
    load_head-Holds = record {
      first = h.first;
      seen_head = h.first;
      seen_tail = h.seen_tail;
      head_at = h.head_at;
      tail_at = h.tail_at;
      cached_head_at = h.head_at;
      cached_tail_at = h.cached_tail_at;
      head_known = omega arith;
      room = omega (arith, h.room, h.head_known);
      tail_known = h.tail_known;
      tail_reached = h.tail_reached;
      items = h.items;
    }

    pub load_tail-Holds : Holds k (load_tail k q) xs
    unfolding load_tail
    load_tail-Holds = record {
      first = h.first;
      seen_head = h.seen_head;
      seen_tail = h.first + length xs;
      head_at = h.head_at;
      tail_at = h.tail_at;
      cached_head_at = h.cached_head_at;
      cached_tail_at = h.tail_at;
      head_known = h.head_known;
      room = h.room;
      tail_known = omega arith;
      tail_reached = omega arith;
      items = h.items;
    }

    -- What the producer's test says of the counters, and the consumer's.
    pub looks_full-room : looks_full k q ≡ false → h.first + length xs + 1 < h.seen_head + size k
    looks_full-room e = elim (dec_lt (h.first + length xs + 1) (h.seen_head + size k)) [
      | yes p ↦ p
      | no p ↦
          let last : h.first + length xs + 1 ≡ h.seen_head + size k = omega (arith, h.room) in
          let turn = mod-eq-sub-mod {n = h.seen_head + size k} {m = size k} (omega arith) in
          let back : h.seen_head + size k - size k ≡ h.seen_head = omega arith in
          let next : next_index k q.tail ≡ q.cached_head =
            rw (h.tail_at, next_index-mod, last, turn, back, h.cached_head_at) refl in
          absurd (ground (arith, next))
    ]

    -- The tests tell the truth right after the load.
    pub full_of_looks_full : looks_full k (load_head k q) ≡ true → size k ≤ length xs + 1
    unfolding load_head
    full_of_looks_full e = elim (dec_lt (length xs + 1) (size k)) [
      | no p ↦ omega arith
      | yes p ↦
          let same : q.head ≡ next_index k q.tail = (==_iff _ _).0 e in
          let next = next_index-mod (h.first + length xs) in
          let sum : h.first + length xs + 1 ≡ h.first + (length xs + 1) = omega arith in
          absurd (
            mod-ne h.first (length xs + 1) (size k) (omega arith) p (
              sym (
                sym h.head_at
                ∙ same
                ∙ ap (next_index k) h.tail_at
                ∙ next
                ∙ ap (λ (n : ℕ). n % size k) sum)))
    ]

    pub empty_of_looks_empty : looks_empty k (load_tail k q) ≡ true → length xs ≡ 0
    unfolding load_tail
    empty_of_looks_empty e = elim (dec_lt 0 (length xs)) [
      | no p ↦ omega arith
      | yes p ↦
          let same : q.head ≡ q.tail = (==_iff _ _).0 e in
          absurd (
            mod-ne h.first (length xs) (size k) p (omega (arith, h.room, h.head_known))
              (sym h.tail_at ∙ sym same ∙ h.head_at))
    ]

    -- The slot behind the last element is none of the elements' slots.
    behind-ne : (i : ℕ) → i < length xs → q.tail ≢ (h.first + i) % size k
    behind-ne i lt =
        let end : h.first + i + (length xs - i) ≡ h.first + length xs = omega arith in
        let apart =
          mod-ne (h.first + i) (length xs - i) (size k) (omega arith)
            (omega (arith, h.room, h.head_known)) in
        rw (h.tail_at, ← end) apart

    pub looks_empty-items : looks_empty k q ≡ false → h.first < h.seen_tail
    looks_empty-items e = ground (arith, h.head_at, h.cached_tail_at, h.tail_known)

    -- A write to the slot behind the last element changes no element.
    pub write_slot-Holds : (x : A) → looks_full k q ≡ false → Holds k (write_slot k x q) xs
    unfolding write_slot
    write_slot-Holds x e = record {
      first = h.first;
      seen_head = h.seen_head;
      seen_tail = h.seen_tail;
      head_at = h.head_at;
      tail_at = h.tail_at;
      cached_head_at = h.cached_head_at;
      cached_tail_at = h.cached_tail_at;
      head_known = h.head_known;
      room = h.room;
      tail_known = h.tail_known;
      tail_reached = h.tail_reached;
      items = λ i lt.
          rw (update_ne q.slots q.tail ((h.first + i) % size k) x (behind-ne i lt)) (h.items i lt);
    }

    -- Storing the tail adds what the slot behind the last element holds.
    pub store_tail-Holds :
        looks_full k q ≡ false → Holds k (store_tail k q) (xs ++ q.slots q.tail ∷ [])
    unfolding store_tail
    store_tail-Holds e =
        let grown = length-snoc xs (q.slots q.tail) in
        let next : next_index k q.tail ≡ (h.first + length xs + 1) % size k =
          ap (next_index k) h.tail_at ∙ next_index-mod (h.first + length xs) in
        record {
          first = h.first;
          seen_head = h.seen_head;
          seen_tail = h.seen_tail;
          head_at = h.head_at;
          tail_at = next ∙ ap (λ (n : ℕ). n % size k) (omega (arith, grown));
          cached_head_at = h.cached_head_at;
          cached_tail_at = h.cached_tail_at;
          head_known = h.head_known;
          room = omega (arith, looks_full-room e, grown);
          tail_known = h.tail_known;
          tail_reached = omega (arith, h.tail_reached, grown);
          items = λ i lt. elim (dec_lt i (length xs)) [
            | yes p ↦ get_elem?-append_left xs (q.slots q.tail ∷ []) i p ∙ h.items i p
            | no p ↦
                let end : i ≡ length xs = omega (arith, grown) in
                rw (end, ← h.tail_at) (get_elem?-snoc_end xs (q.slots q.tail))
          ];
        }

  module _ {ℓ} {A : Type ℓ} {q : Queue A} {x : A} {xs : List A} (h : Holds k q (x ∷ xs)) where
    -- The slot at the head is the oldest element.
    pub read_slot_lem : read_slot k q ≡ x
    read_slot_lem =
        let at : (h.first + 0) % size k ≡ q.head =
          ap (λ (n : ℕ). n % size k) (omega arith) ∙ sym h.head_at in
        let oldest : some x ≡ some (q.slots q.head) =
          h.items 0 (omega arith) ∙ ap (λ (n : ℕ). some (q.slots n)) at in
        cc

    -- Storing the head takes the oldest element, if the consumer knows of it.
    pub store_head-Holds : looks_empty k q ≡ false → Holds k (store_head k q) xs
    unfolding store_head
    store_head-Holds e = record {
      first = h.first + 1;
      seen_head = h.seen_head;
      seen_tail = h.seen_tail;
      head_at = rw (h.head_at, next_index-mod);
      tail_at = h.tail_at ∙ ap (λ (n : ℕ). n % size k) (omega arith);
      cached_head_at = h.cached_head_at;
      cached_tail_at = h.cached_tail_at;
      head_known = omega (arith, h.head_known);
      room = omega (arith, h.room);
      tail_known = omega (arith, looks_empty-items h e);
      tail_reached = omega (arith, h.tail_reached);
      items = λ i lt.
          h.items (suc i) (omega arith) ∙ ap (λ (n : ℕ). some (q.slots (n % size k))) (omega arith);
    }
