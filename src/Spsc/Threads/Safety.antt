-- ===== src/Spsc/Threads/Safety.antt =====
-- No interleaving of the threads of spscqueue.h loses, repeats or reorders an element, and none
-- lets them touch the same slot.
use marketdatabook.Common.{ℕ, ◌<◌, ◌≡◌, ◌≢◌, refl, arith}
use marketdatabook.Common.{false, List, [], ◌∷◌, ◌++◌, length, Array, sym, ◌∙◌}
use marketdatabook.Common.{Bool-cases, inl, inr, update_ne, update_self}
use marketdatabook.Spsc.{Queue, load_head, load_tail, write_slot, store_tail, store_head}
use marketdatabook.Spsc.{looks_full, looks_empty}
use marketdatabook.Spsc.Holds.{size, Holds, load_head-Holds, load_tail-Holds, write_slot-Holds}
use marketdatabook.Spsc.Holds.{
  store_tail-Holds, store_head-Holds, read_slot_lem, mod-ne, looks_empty-items,
}
use mathlib.Core.List.{append_assoc}
use marketdatabook.Spsc.Calls.{new-Holds}
use marketdatabook.Spsc.Threads.{Producer, Consumer, Threads, Step, Reach}
use marketdatabook.Spsc.Threads.{enter_push, retry_push, enter_pop, retry_pop}
use marketdatabook.Spsc.Threads.{call_push, reload_head, write, publish, call_pop, reload_tail}
use marketdatabook.Spsc.Threads.{read, release, here, next}

module _ {ℓ} {A : Type ℓ} (k : ℕ) where
  -- What each thread has found out, which the other's steps leave true.
  abbrev ProducerKnows : Producer A → Queue A → Type ℓ
  ProducerKnows Producer.outside q = Unit
  ProducerKnows (Producer.reloading x) q = Unit
  ProducerKnows (Producer.writing x) q = (looks_full k q ≡ false) × Unit {ℓ}
  ProducerKnows (Producer.publishing x) q = (looks_full k q ≡ false) × (q.slots q.tail ≡ x)

  abbrev ConsumerKnows : Consumer A → Queue A → Type ℓ
  ConsumerKnows Consumer.outside q = Unit
  ConsumerKnows Consumer.reloading q = Unit
  ConsumerKnows Consumer.reading q = (looks_empty k q ≡ false) × Unit {ℓ}
  ConsumerKnows (Consumer.releasing x) q = (looks_empty k q ≡ false) × (q.slots q.head ≡ x)

  record IsSafe (t : Threads A) : Type ℓ where
    pending : List A
    holds : Holds k t.queue pending
    history : t.pushed ≡ t.popped ++ pending
    producer_knows : ProducerKnows t.producer t.queue
    consumer_knows : ConsumerKnows t.consumer t.queue

module _ {ℓ} {A : Type ℓ} {k : ℕ} (fits : k < 64) where
  enter_push-knows : (x : A) (q : Queue A) → ProducerKnows k (enter_push k x q) q
  enter_push-knows x q = elim (Bool-cases (looks_full k q)) [
    | inl full ↦ rw full tt
    | inr room ↦ rw room (room, tt)
  ]

  retry_push-knows : (x : A) (q : Queue A) → ProducerKnows k (retry_push k x q) q
  retry_push-knows x q = elim (Bool-cases (looks_full k q)) [
    | inl full ↦ rw full tt
    | inr room ↦ rw room (room, tt)
  ]

  enter_pop-knows : (q : Queue A) → ConsumerKnows k (enter_pop k q) q
  enter_pop-knows q = elim (Bool-cases (looks_empty k q)) [
    | inl none_in ↦ rw none_in tt
    | inr some_in ↦ rw some_in (some_in, tt)
  ]

  retry_pop-knows : (q : Queue A) → ConsumerKnows k (retry_pop k q) q
  retry_pop-knows q = elim (Bool-cases (looks_empty k q)) [
    | inl none_in ↦ rw none_in tt
    | inr some_in ↦ rw some_in (some_in, tt)
  ]

  -- The steps of one thread keep what the other knows.
  load_head-consumer :
      (c : Consumer A) (q : Queue A) → ConsumerKnows k c q → ConsumerKnows k c (load_head k q)
  unfolding load_head
  load_head-consumer Consumer.outside q h = h
  load_head-consumer Consumer.reloading q h = h
  load_head-consumer Consumer.reading q h = h
  load_head-consumer (Consumer.releasing x) q h = h

  store_tail-consumer :
      (c : Consumer A) (q : Queue A) → ConsumerKnows k c q → ConsumerKnows k c (store_tail k q)
  unfolding store_tail
  store_tail-consumer Consumer.outside q h = h
  store_tail-consumer Consumer.reloading q h = h
  store_tail-consumer Consumer.reading q h = h
  store_tail-consumer (Consumer.releasing x) q h = h

  write_slot-consumer :
      (c : Consumer A) (q : Queue A) (x : A)
      → (looks_empty k q ≡ false → q.tail ≢ q.head)
      → ConsumerKnows k c q
      → ConsumerKnows k c (write_slot k x q)
  unfolding write_slot
  write_slot-consumer Consumer.outside q x apart h = h
  write_slot-consumer Consumer.reloading q x apart h = h
  write_slot-consumer Consumer.reading q x apart h = h
  write_slot-consumer (Consumer.releasing y) q x apart h =
      (h.0, update_ne q.slots q.tail q.head x (apart h.0) ∙ h.1)

  load_tail-producer :
      (p : Producer A) (q : Queue A) → ProducerKnows k p q → ProducerKnows k p (load_tail k q)
  unfolding load_tail
  load_tail-producer Producer.outside q h = h
  load_tail-producer (Producer.reloading x) q h = h
  load_tail-producer (Producer.writing x) q h = h
  load_tail-producer (Producer.publishing x) q h = h

  store_head-producer :
      (p : Producer A) (q : Queue A) → ProducerKnows k p q → ProducerKnows k p (store_head k q)
  unfolding store_head
  store_head-producer Producer.outside q h = h
  store_head-producer (Producer.reloading x) q h = h
  store_head-producer (Producer.writing x) q h = h
  store_head-producer (Producer.publishing x) q h = h

  -- While the consumer knows of an element, the slots at the head and the tail differ.
  slots_apart :
      {q : Queue A} {xs : List A} → Holds k q xs → looks_empty k q ≡ false → q.tail ≢ q.head
  slots_apart {q} {xs} h e same =
      mod-ne h.first (length xs) (size k)
        (omega (arith, looks_empty-items fits h e, h.tail_reached))
        (omega (arith, h.room, h.head_known)) (sym h.tail_at ∙ same ∙ h.head_at)

  -- What the consumer releases is the oldest element.
  released :
      {q : Queue A} {x : A} (xs : List A)
      → Holds k q xs
      → looks_empty k q ≡ false
      → q.slots q.head ≡ x
      → (rest : List A) × (xs ≡ x ∷ rest) × Holds k (store_head k q) rest
  released [] h e at = absurd (omega (arith, looks_empty-items fits h e, h.tail_reached))
  released (y ∷ rest) h e at =
      let oldest = read_slot_lem fits h in (rest, cc, store_head-Holds fits h e)

  written :
      (x : A) (q : Queue A)
      → looks_full k q ≡ false
      → ProducerKnows k (Producer.publishing x) (write_slot k x q)
  unfolding write_slot
  written x q room = (room, update_self q.slots q.tail x)

  Step-IsSafe : {t u : Threads A} → Step k t u → IsSafe k t → IsSafe k u
  Step-IsSafe (call_push t x at) s = record {
    pending = s.pending;
    holds = s.holds;
    history = s.history;
    producer_knows = enter_push-knows x t.queue;
    consumer_knows = s.consumer_knows;
  }
  Step-IsSafe (reload_head t x at) s = record {
    pending = s.pending;
    holds = load_head-Holds fits s.holds;
    history = s.history;
    producer_knows = retry_push-knows x (load_head k t.queue);
    consumer_knows = load_head-consumer t.consumer t.queue s.consumer_knows;
  }
  Step-IsSafe (write t x at) s =
      let (room, _) = rw at at s.producer_knows in
      record {
        pending = s.pending;
        holds = write_slot-Holds fits s.holds x room;
        history = s.history;
        producer_knows = written x t.queue room;
        consumer_knows =
            write_slot-consumer t.consumer t.queue x (slots_apart s.holds) s.consumer_knows;
      }
  Step-IsSafe (publish t x at) s =
      let (room, value) = rw at at s.producer_knows in
      record {
        pending = s.pending ++ x ∷ [];
        holds = rw value at (store_tail-Holds fits s.holds room);
        history = rw s.history (append_assoc t.popped s.pending (x ∷ []));
        producer_knows = tt;
        consumer_knows = store_tail-consumer t.consumer t.queue s.consumer_knows;
      }
  Step-IsSafe (call_pop t at) s = record {
    pending = s.pending;
    holds = s.holds;
    history = s.history;
    producer_knows = s.producer_knows;
    consumer_knows = enter_pop-knows t.queue;
  }
  Step-IsSafe (reload_tail t at) s = record {
    pending = s.pending;
    holds = load_tail-Holds fits s.holds;
    history = s.history;
    producer_knows = load_tail-producer t.producer t.queue s.producer_knows;
    consumer_knows = retry_pop-knows (load_tail k t.queue);
  }
  Step-IsSafe (read t at) s = record {
    pending = s.pending;
    holds = s.holds;
    history = s.history;
    producer_knows = s.producer_knows;
    consumer_knows = let (some_in, _) = rw at at s.consumer_knows in (some_in, refl);
  }
  Step-IsSafe (release t x at) s =
      let (some_in, value) = rw at at s.consumer_knows in
      let (rest, oldest, holds) = released s.pending s.holds some_in value in
      record {
        pending = rest;
        holds = holds;
        history = rw (s.history, oldest) (sym (append_assoc t.popped (x ∷ []) rest));
        producer_knows = store_head-producer t.producer t.queue s.producer_knows;
        consumer_knows = tt;
      }

  Reach-IsSafe : {slots : Array A} {t : Threads A} → Reach k slots t → IsSafe k t
  Reach-IsSafe {slots} here = record {
    pending = [];
    holds = new-Holds fits slots;
    history = refl;
    producer_knows = tt;
    consumer_knows = tt;
  }
  Reach-IsSafe (next r step) = Step-IsSafe step (Reach-IsSafe r)

  -- At every point of every interleaving, what the consumer popped is the start of what the
  -- producer pushed, in order, and the rest is at most `Size - 1` elements, for a
  -- `Size` of 2 ^ k with k < 64.
  pub pushed-popped :
      {slots : Array A} {t : Threads A}
      → Reach k slots t
      → (rest : List A) × (t.pushed ≡ t.popped ++ rest) × (length rest < size k)
  pushed-popped r =
      let s = Reach-IsSafe r in
      (s.pending, s.history, omega (arith, s.holds.room, s.holds.head_known))

  -- The threads never touch one slot at one time: where the producer is about to write the slot
  -- at the tail and the consumer is about to read the slot at the head, these differ, for
  -- k < 64.
  pub write-read-ne :
      {slots : Array A} {t : Threads A} {x : A}
      → Reach k slots t
      → t.producer ≡ Producer.writing x
      → t.consumer ≡ Consumer.reading
      → t.queue.tail ≢ t.queue.head
  write-read-ne r writes reads =
      let s = Reach-IsSafe r in slots_apart s.holds (rw reads at s.consumer_knows).0
