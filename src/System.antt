-- ===== src/System.antt =====
-- `run_mock_mode` of src/main.cpp: the threads of the ring, the parser that the poller calls, and
-- the consumer of the queue. In `parse_block` the start, the frame that a message leaves in the
-- log, the push of its order and the return are a step each, with rounds of the consumer in
-- between; the log has one reader, recovery, which runs before or after. `Spsc.Threads` takes calls
-- on the queue apart. An order at which the book throws has no step: the exception ends the
-- program; nor has a message type outside the table. `Multicast.Ring.Statistics` has the thread
-- that prints the counter.
pub mod Kept
pub mod Alike
pub mod Blocks
pub mod Running
pub mod Parsing
pub mod Reached
pub mod Progress
pub mod Recovered
use marketdatabook.Common.{
  ℕ, ◌+◌, ltb, ◌≡◌, Bool, true, false, List, [], ◌∷◌, ◌++◌, length, Option, none, some, Array, done,
}
use marketdatabook.Common.Bytes.{Bytes}
use marketdatabook.Itch.{NormalizedOrder}
use marketdatabook.Book.{Book}
use marketdatabook.Engine.{dispatch}
use marketdatabook.Multicast.Ring
use marketdatabook.Multicast.Ring.{Mock, Poller, frame_payload, parse_current, mock}
use marketdatabook.Parser.{Parser, message_length, log_round, push_order}
use marketdatabook.Recovery.EndToEnd.{start}
use marketdatabook.Spsc
use marketdatabook.Wal.{Crc}

-- `SPSCQueue<Orders, 4096>`
abbrev pub queue_bits : ℕ
queue_bits = 12

-- Where the poller stands in `parse_block`: it does not run; it is at the start of a round, with
-- this rest of the block; or it has logged a message and is about to push its order.
pub data Call : Type 0 where
  idle : Call
  at_round : Bytes → Call
  pushing : NormalizedOrder → Bytes → Call

-- `consumed` are the orders that the consumer has dispatched.
pub record System : Type 0 where
  pub frames : Mock
  pub parser : Parser
  pub call : Call
  pub book : Book
  pub consumed : List NormalizedOrder

-- The two returns of `parse_block`: at the end of the block, or where less than a message is left.
abbrev pub shorter : Bytes → Option ℕ → Bool
shorter rest none = false
shorter rest (some len) = ltb (length rest) len

abbrev pub ends_block : Bytes → Bool
ends_block [] = true
ends_block (kind ∷ rest) = shorter (kind ∷ rest) (message_length kind)

-- Behind the log of a message: the push, or the next round.
abbrev pub after_log : Option NormalizedOrder → Bytes → Call
after_log none rest = at_round rest
after_log (some o) rest = pushing o rest

module _ (header_size : ℕ) (crc : Crc) (rdtsc : ℕ → ℕ) where
  abbrev pub logged : System → Parser × Option NormalizedOrder × Bytes → System
  logged s t = record s { parser = t.0; call = after_log t.1 t.2 }

  abbrev pub with_queue : System → Spsc.Queue NormalizedOrder → System
  with_queue s q = record s { parser = record s.parser { queue = q } }

  pub data Step : System → System → Type 0 where
    move_frame :
        (s : System) (t : Mock)
        → Ring.Step header_size s.frames t
        → t.parsed ≡ s.frames.parsed
        → Step s (record s { frames = t })
    begin_block :
        (s : System)
        → s.frames.poller ≡ Poller.parsing
        → s.call ≡ idle
        → Step s
            (record s { call = at_round (frame_payload s.frames.ring s.frames.curr_frame_idx) })
    log_message :
        (s : System) (kind : ℕ) (rest : Bytes) (len : ℕ)
        → s.call ≡ at_round (kind ∷ rest)
        → message_length kind ≡ some len
        → ends_block (kind ∷ rest) ≡ false
        → Step s (logged s (log_round crc rdtsc queue_bits s.parser kind (kind ∷ rest) len))
    push_message :
        (s : System) (o : NormalizedOrder) (rest : Bytes)
        → s.call ≡ pushing o rest
        → Step s
            (record s { parser = push_order crc rdtsc queue_bits s.parser o; call = at_round rest })
    end_block :
        (s : System) (rest : Bytes)
        → s.call ≡ at_round rest
        → ends_block rest ≡ true
        → Step s (record s { frames = parse_current s.frames; call = idle })
    find_nothing :
        (s : System)
        → (Spsc.pop queue_bits s.parser.queue).1 ≡ none
        → Step s (with_queue s (Spsc.pop queue_bits s.parser.queue).0)
    consume_order :
        (s : System) (o : NormalizedOrder) (b : Book)
        → (Spsc.pop queue_bits s.parser.queue).1 ≡ some o
        → dispatch s.book o ≡ done b
        → Step s (record (with_queue s (Spsc.pop queue_bits s.parser.queue).0) {
          book = b;
          consumed = s.consumed ++ o ∷ [];
        })

  -- The program before its threads start, with a file of these blocks.
  abbrev pub run_mock_mode : List Bytes → Array NormalizedOrder → Book → System
  run_mock_mode blocks slots book = record {
    frames = mock header_size blocks;
    parser = start (Spsc.new slots);
    call = idle;
    book = book;
    consumed = [];
  }

  pub data Reach (blocks : List Bytes) (slots : Array NormalizedOrder) (b : Book)
      : System → Type 0 where
    here : Reach blocks slots b (run_mock_mode blocks slots b)
    next : {s t : System} → Reach blocks slots b s → Step s t → Reach blocks slots b t

  -- A round of the consumer that finds nothing is no work.
  abbrev pub work_of : {s t : System} → Step s t → ℕ
  work_of (move_frame s t step same) = 1
  work_of (begin_block s parsing not_yet) = 1
  work_of (log_message s kind rest len at known more) = 1
  work_of (push_message s o rest at) = 1
  work_of (end_block s rest at ends) = 1
  work_of (find_nothing s empty) = 0
  work_of (consume_order s o b found run) = 1

  abbrev pub work :
      {blocks : List Bytes} {slots : Array NormalizedOrder} {b : Book} {s : System}
      → Reach blocks slots b s
      → ℕ
  work here = 0
  work (next r step) = work r + work_of step
