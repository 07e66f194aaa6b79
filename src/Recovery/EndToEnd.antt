-- ===== src/Recovery/EndToEnd.antt =====
-- ItchParser.h, MmapLogger, RecoveryEngine.cpp and main.cpp together: the book that recovery makes
-- from the log is the book that the consumer makes from the queue.
use marketdatabook.Common.{false}
use marketdatabook.Common.{ℕ, ◌<◌, ◌^◌, ◌≡◌, refl, arith, some, List, [], ◌++◌, length}
use marketdatabook.Common.Bytes.{Bytes}
use marketdatabook.Itch.{NormalizedOrder}
use marketdatabook.Spsc.{Queue}
use marketdatabook.Spsc.Holds.{Holds, size}
use marketdatabook.Book.{Book}
use marketdatabook.Engine.{consume}
use marketdatabook.Wal
use marketdatabook.Wal.{Crc}
use marketdatabook.Parser.{Parser, Outcome, parse_block, returned}
use marketdatabook.Parser.Messages.{Message, stream, orders}
use marketdatabook.Parser.Stream.{AreMessages, IsTail, handle_messages, parse_block-stream}
use marketdatabook.Parser.Pushed.{handle_messages-Holds}
use marketdatabook.Recovery.{run_recovery, no_report}
use marketdatabook.Recovery.Logged.{AreSmall, handle_messages-Extends}
use marketdatabook.Recovery.Ends.{Logged-whole}
use marketdatabook.Recovery.Replay.{outcome, recover_from_lem}

-- The parser as main.cpp makes it, with its queue.
abbrev pub start : Queue NormalizedOrder → Parser
start queue = record { queue = queue; logger = Wal.new; curr_seq_num = 0 }

-- The frames of a log file.
abbrev pub file_frames : ℕ
file_frames = 2 ^ 24

-- The block was handled to its end; the queue then holds these orders, and recovery from the log
-- ends as the loop of main.cpp does on them.
pub IsRecoverable : Crc → ℕ → Outcome → Book → List NormalizedOrder → Type 0
IsRecoverable crc k result book os =
    (p : Parser) × (result ≡ returned p)
    × Holds k p.queue os
    × (outcome (run_recovery crc file_frames p.logger.memory book) ≡ some (consume book os))

module _ (crc : Crc) (rdtsc : ℕ → ℕ) (k : ℕ) (fits : k < 64) where
  -- A block of whole messages, with an incomplete one behind them or none, is parsed with an empty
  -- queue and a new log. If each message fits a frame, the messages are fewer than the log's frames
  -- and the orders fit the queue, then the parser returns, the queue holds the orders of the
  -- messages, and recovery from the log gives the book, or the exception, that the consumer of the
  -- queue gets. The ring has 2 ^ k slots with k < 64.
  pub parse_block-run_recovery :
      (ms : List Message) (tail : Bytes) (queue : Queue NormalizedOrder) (book : Book) (fuel : ℕ)
      → AreMessages ms
      → AreSmall ms
      → IsTail tail
      → Holds k queue []
      → length (orders ms) < size k
      → length ms < file_frames
      → length ms < fuel
      → IsRecoverable crc k
          (parse_block crc rdtsc k fuel (start queue) (stream ms ++ tail))
          book
          (orders ms)
  unfolding IsRecoverable run_recovery
  parse_block-run_recovery ms tail queue book fuel whole small t empty room frames enough =
      let log =
        handle_messages-Extends crc rdtsc k ms (start queue) small (λ j h. refl) (omega arith) in
      let p = handle_messages crc rdtsc k (start queue) ms in
      (
        p,
        parse_block-stream crc rdtsc k ms tail (start queue) fuel whole t enough,
        handle_messages-Holds crc rdtsc k fits ms (start queue) [] empty (omega arith),
        recover_from_lem crc p.logger.memory false ms file_frames 0 0 book no_report whole small
            (Logged-whole crc p.logger.memory 0 0 ms log.logged) frames,
      )
