-- ===== src/System/Recovered.antt =====
-- The log and the book of `run_mock_mode` of src/main.cpp, in every state that its threads reach.
use mathlib.Core.List.{Sublistᴰ}
use marketdatabook.Common.{
  ℕ, ◌≤◌, ◌<◌, ◌^◌, ◌≡◌, refl, sym, ap, ap₂, ◌∙◌, arith, List, [], ◌∷◌, ◌++◌, length,
}
use marketdatabook.Common.{some, done, Array, append-nil, length-append}
use marketdatabook.Itch.{NormalizedOrder}
use marketdatabook.Book
use marketdatabook.Book.{Book, map_bits}
use marketdatabook.Book.Market.{closed}
use marketdatabook.Book.Represents.{Matches}
use marketdatabook.Engine.{consume}
use marketdatabook.Engine.Refinement.{AreNew, trade, consume-new}
use marketdatabook.Parser.Messages.{Message, orders}
use marketdatabook.Recovery.{run_recovery, no_report}
use marketdatabook.Recovery.EndToEnd.{start, file_frames}
use marketdatabook.Recovery.Logged.{Logged, AreSmall, handle_messages-Extends, handle_messages-curr}
use marketdatabook.Recovery.Ends.{Framed, Logged-whole}
use marketdatabook.Parser.Stream.{AreMessages}
use marketdatabook.Common.Memory.{Memory}
use marketdatabook.Common.{◌+◌, ◌*◌, Bool, false}
use marketdatabook.Recovery.Replay.{outcome, recover_from_lem}
use marketdatabook.Spsc
use marketdatabook.Spsc.Holds.{Holds}
use marketdatabook.Wal.{Crc, Logger, frame_size}
use marketdatabook.Multicast.Ring.{Poller}
use marketdatabook.System.{System, Reach, Call, queue_bits, idle, at_round, pushing}
use marketdatabook.System.Kept.{Sublistᴰ-whole, Sublistᴰ-append, length-Sublistᴰ}
use marketdatabook.System.Blocks.{
  all, blocks_of, AreMessages-append, AreSmall-append, seen, IsNext, CallKnows, CallKnows-pushed,
  CallKnows-IsNext,
}
use marketdatabook.System.Running.{IsFile, IsRunning, seen-first}
use marketdatabook.System.Reached.{Reach-IsRunning}

nothing_later :
    (so_far later : List (List Message))
    → blocks_of (so_far ++ later) ≡ blocks_of so_far
    → so_far ++ later ≡ so_far
nothing_later [] [] e = refl
nothing_later [] (ms ∷ later) e = absurd (cc)
nothing_later (x ∷ so_far) later e = ap (λ t. x ∷ t) (nothing_later so_far later (cc))

no_more : {A : Type 0} (xs ys : List A) → xs ++ ys ≡ xs → ys ≡ []
no_more xs [] e = refl
no_more xs (y ∷ ys) e = absurd (omega (arith, ap length e, length-append xs (y ∷ ys)))

-- A part of the whole that is as long as it with some more behind it has nothing more.
whole_part :
    {A : Type 0} (xs ys zs : List A) → Sublistᴰ (xs ++ ys) zs → length xs ≡ length zs → xs ≡ zs
whole_part xs [] zs s e = rw (append-nil) at (Sublistᴰ-whole s (ap length (append-nil xs) ∙ e))
whole_part xs (y ∷ ys) zs s e = absurd (omega (arith, length-Sublistᴰ s, length-append xs (y ∷ ys)))

-- When all blocks were parsed, none is begun.
nothing_begun :
    (c : Call) (poller : Poller) (so_far later : List (List Message)) (part : List Message)
    (pushed : List NormalizedOrder)
    → later ≡ []
    → CallKnows c poller so_far later part pushed
    → part ≡ []
nothing_begun idle poller so_far later part pushed e (nothing, _) = nothing
nothing_begun (at_round rest) poller so_far later part pushed e (inside, _) =
    absurd (omega (arith, ap length inside.first, ap length e))
nothing_begun (pushing o rest) poller so_far later part pushed e (inside, _) =
    absurd (omega (arith, ap length inside.first, ap length e))

module _ (header_size : ℕ) (crc : Crc) (rdtsc : ℕ → ℕ) {file : List (List Message)}
    {slots : Array NormalizedOrder} {b : Book} {s : System}
    (good : IsFile header_size crc rdtsc file)
    (reached : Reach header_size crc rdtsc (blocks_of file) slots b s) where
  -- `so_far` are the blocks that were parsed, and `part` messages with which the next one begins.
  -- The orders consumed and those that wait are among the orders of these, in order, and the
  -- consumer's book is what they make of the first one.
  pub record IsOrderly (so_far : List (List Message)) (part : List Message) : Type 0 where
    pub parsed : s.frames.parsed ≡ blocks_of so_far
    pub first : (later : List (List Message)) × (file ≡ so_far ++ later) × IsNext part later
    pub among :
        (waiting : List NormalizedOrder) × Holds queue_bits s.parser.queue waiting
        × Sublistᴰ (s.consumed ++ waiting) (orders (seen so_far part))
    pub ran : consume b s.consumed ≡ done s.book

  running-IsOrderly :
      {n : ℕ} (v : IsRunning header_size crc rdtsc file slots b s n) → IsOrderly v.so_far v.part
  running-IsOrderly v =
      let (last, split) =
        CallKnows-pushed s.call s.frames.poller v.so_far v.later v.part v.pushed v.call in
      record {
        parsed = v.parsed;
        first = (
          v.later,
          v.cut,
          CallKnows-IsNext s.call s.frames.poller v.so_far v.later v.part v.pushed v.call,
        );
        among = (v.kept.waiting, v.kept.holds, rw (split) (Sublistᴰ-append last v.kept.among));
        ran = v.ran;
      }

  -- The parts of the file that are logged, as recovery needs them.
  record IsReadable (ms : List Message) : Type 0 where
    whole : AreMessages ms
    small : AreSmall ms
    few : length ms < file_frames
    log : Logged crc s.parser.logger.memory 0 0 ms
    curr : s.parser.logger.curr ≡ 0 + frame_size * length ms

  running-IsReadable :
      {n : ℕ} (v : IsRunning header_size crc rdtsc file slots b s n)
      → IsReadable (seen v.so_far v.part)
  running-IsReadable v =
      let ms = seen v.so_far v.part in
      let (ahead, split) = seen-first header_size crc rdtsc v in
      let small = (AreSmall-append ms ahead (rw (split) at good.small)).0 in
      let few : length ms < file_frames =
        omega (arith, good.room, ap length split, length-append ms ahead) in
      let written =
        handle_messages-Extends crc rdtsc queue_bits ms (start (Spsc.new slots)) small (λ j h. refl)
          (omega arith) in
      let moved =
        handle_messages-curr crc rdtsc queue_bits ms (start (Spsc.new slots)) (omega arith) in
      record {
        whole = (AreMessages-append ms ahead (rw (split) at good.whole)).0;
        small = small;
        few = few;
        log = rw (v.alike.logger) written.logged;
        curr = omega (arith, ap (λ (l : Logger). l.curr) v.alike.logger, moved);
      }

  recovered_running :
      (m : Memory) (torn : Bool) (start_book : Book) (ms : List Message)
      → IsReadable ms
      → Framed crc m torn 0 0 ms
      → outcome (run_recovery crc file_frames m start_book) ≡ some (consume start_book (orders ms))
  unfolding run_recovery
  recovered_running m torn start_book ms h framed =
      recover_from_lem crc m torn ms file_frames 0 0 start_book no_report h.whole h.small framed
        h.few

  -- On a file whose blocks are whole messages and fit the frames of the ring, whose messages fit
  -- those of the log, and for which the log has room, whatever way the steps of the ring's threads,
  -- of the parser and of the consumer interleave, the blocks that were parsed are the first of the
  -- file; the orders that were consumed and then those that wait in the queue are among the orders
  -- of these blocks and of some messages that the next block begins with, in order; and the book is
  -- the one that the consumer makes of the orders consumed. The frame that a message leaves in the
  -- log is one step, and so is a call on the queue.
  pub consumed-IsOrderly :
      (so_far : List (List Message)) × (part : List Message) × IsOrderly so_far part
  consumed-IsOrderly =
      let v = Reach-IsRunning header_size crc rdtsc good reached in
      (v.so_far, v.part, running-IsOrderly v)

  module _ (parsed : s.frames.parsed ≡ blocks_of file)
      (count : length s.consumed ≡ length (orders (all file))) where
    complete-seen :
        {n : ℕ} (v : IsRunning header_size crc rdtsc file slots b s n)
        → seen v.so_far v.part ≡ all file
    complete-seen v =
        let whole : v.so_far ≡ file =
          sym (v.cut ∙ nothing_later v.so_far v.later (rw (← v.cut) (sym parsed ∙ v.parsed))) in
        let nothing : v.later ≡ [] = no_more v.so_far v.later (sym v.cut ∙ sym whole) in
        ap₂ (λ x y. all x ++ y) whole
          (nothing_begun s.call s.frames.poller v.so_far v.later v.part v.pushed nothing v.call)
        ∙ append-nil (all file)

    complete-consumed : s.consumed ≡ orders (all file)
    complete-consumed =
        let v = Reach-IsRunning header_size crc rdtsc good reached in
        let (waiting, held, among) = (running-IsOrderly v).among in
        whole_part s.consumed waiting (orders (all file)) (rw (complete-seen v) at among) count

    -- On a file whose blocks are whole messages and fit the frames of the ring, whose messages fit
    -- those of the log, and for which the log has room, when all of it was parsed, and as many
    -- orders were consumed as the file has, recovery from the log, with the book that the consumer
    -- started with, ends with the consumer's book, whatever book that was.
    pub drained_lem :
        outcome (run_recovery crc file_frames s.parser.logger.memory b) ≡ some (done s.book)
    drained_lem =
        let v = Reach-IsRunning header_size crc rdtsc good reached in
        let h = running-IsReadable v in
        recovered_running s.parser.logger.memory false b (seen v.so_far v.part) h
          (Logged-whole crc s.parser.logger.memory 0 0 (seen v.so_far v.part) h.log)
        ∙ ap (λ (ms : List Message). some (consume b (orders ms))) (complete-seen v)
        ∙ ap some (rw (complete-consumed) at v.ran)

    -- On a file whose blocks are whole messages and fit the frames of the ring, whose messages fit
    -- those of the log, and for which the log has room, when all of it was parsed, and as many
    -- orders were consumed as the file has, a consumer that started with a new book, of at least
    -- one order and at most 2 ^ 22, has one that stands for the market of queues in order of
    -- arrival after all orders of the file, if none of them enters with the id of one that rests.
    pub drained-Matches :
        (max_orders : ℕ)
        → Book.new max_orders ≡ done b
        → 0 < max_orders
        → max_orders ≤ 2 ^ map_bits
        → AreNew (closed max_orders) (orders (all file))
        → Matches max_orders (done s.book) (trade (closed max_orders) (orders (all file)))
    drained-Matches max_orders made pos few fresh =
        let v = Reach-IsRunning header_size crc rdtsc good reached in
        let ran : consume b (orders (all file)) ≡ done s.book = rw (complete-consumed) at v.ran in
        rw (ran) at (consume-new max_orders (orders (all file)) b pos few fresh made)
