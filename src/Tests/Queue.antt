-- ===== src/Tests/Queue.antt =====
-- src/utils/spscqueue.h with a ring of four slots.
use marketdatabook.Common.{ℕ, ◌-◌, ◌<◌, ◌≡◌, ◌≢◌, refl, arith, List, [], ◌∷◌, ◌++◌, length, Array}
use marketdatabook.Spsc.{Queue, new, push, pop, load_tail, write_slot, store_tail, next_index}
use marketdatabook.Spsc.Holds.{size}
use marketdatabook.Spsc.Calls.{Agrees, fifo_push, fifo_pop, new-Holds, push-Agrees, pop-Agrees}
use marketdatabook.Spsc.Threads.{Threads, Reach, enter_push, retry_pop}
use marketdatabook.Spsc.Threads.{call_push, write, publish, call_pop, reload_tail, here, next}
use marketdatabook.Spsc.Threads.Safety.{pushed-popped, write-read-ne}

abbrev slots : Array ℕ
slots = λ _. 0

push-Agrees_example : Agrees 2 (push 2 (new slots) 5) (fifo_push (size 2 - 1) [] 5)
push-Agrees_example = push-Agrees (omega arith) 5 (new-Holds (omega arith) slots)

pop-Agrees_example :
    Agrees 2 (pop 2 (push 2 (new slots) 5).0) (fifo_pop (fifo_push (size 2 - 1) [] 5).0)
pop-Agrees_example =
    pop-Agrees (omega arith) (push-Agrees (omega arith) 5 (new-Holds (omega arith) slots)).0

-- The producer has pushed 5 and is about to write 6, the consumer is about to read.
abbrev written : Queue ℕ
written = store_tail 2 (write_slot 2 5 (new slots))

abbrev both_inside : Threads ℕ
both_inside = record {
  queue = load_tail 2 written;
  producer = enter_push 2 6 written;
  consumer = retry_pop 2 (load_tail 2 written);
  pushed = 5 ∷ [];
  popped = [];
}

both_inside-Reach : Reach 2 slots both_inside
unfolding new store_tail write_slot load_tail next_index
both_inside-Reach =
    next
      (next
        (next (next (next (next here (call_push _ 5 refl)) (write _ 5 refl)) (publish _ 5 refl))
          (call_push _ 6 refl))
        (call_pop _ refl))
      (reload_tail _ refl)

pushed-popped_example :
    (rest : List ℕ) × (both_inside.pushed ≡ both_inside.popped ++ rest) × (length rest < size 2)
pushed-popped_example = pushed-popped (omega arith) both_inside-Reach

write-read-ne_example : both_inside.queue.tail ≢ both_inside.queue.head
unfolding new store_tail write_slot load_tail next_index
write-read-ne_example = write-read-ne (omega arith) both_inside-Reach refl refl
