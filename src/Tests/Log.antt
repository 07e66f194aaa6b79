-- ===== src/Tests/Log.antt =====
-- src/recovery/MmapLogger.cpp and RecoveryEngine.cpp on the messages of a concrete block.
use marketdatabook.Common.{refl, arith, ◌++◌, state}
use marketdatabook.Book
use marketdatabook.Book.{Book}
use marketdatabook.Spsc.Calls.{new-Holds}
use marketdatabook.Parser.{parse_block}
use marketdatabook.Parser.Messages.{stream, orders}
use marketdatabook.Parser.Stream.{handle_messages}
use marketdatabook.Recovery.Logged.{AreSmall, Extends, handle_messages-Extends}
use marketdatabook.Recovery.EndToEnd.{start, IsRecoverable, parse_block-run_recovery}
use marketdatabook.Tests.Messages.{sum_crc, three_messages, three_messages-AreMessages}
use marketdatabook.Tests.Messages.{cut_off, cut_off-IsTail, empty_queue, orders_few}

three_messages-AreSmall : AreSmall three_messages
unfolding AreSmall
three_messages-AreSmall = (omega arith, (omega arith, (omega arith, tt)))

abbrev some_book : Book
some_book = state (Book.new 10)

parse_block-run_recovery_example :
    IsRecoverable sum_crc 12
      (parse_block sum_crc (λ n. n) 12 4 (start empty_queue) (stream three_messages ++ cut_off))
      some_book
      (orders three_messages)
parse_block-run_recovery_example =
    parse_block-run_recovery sum_crc (λ n. n) 12 (omega arith) three_messages cut_off empty_queue
      some_book 4 three_messages-AreMessages three_messages-AreSmall cut_off-IsTail
      (new-Holds (omega arith) _) orders_few (omega arith) (omega arith)

handle_messages-Extends_example :
    Extends sum_crc
      (λ n. n)
      12
      (start empty_queue)
      (handle_messages sum_crc (λ n. n) 12 (start empty_queue) three_messages).logger.memory
      three_messages
handle_messages-Extends_example =
    handle_messages-Extends sum_crc (λ n. n) 12 three_messages (start empty_queue)
      three_messages-AreSmall (λ j h. refl) (omega arith)
