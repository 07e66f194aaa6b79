-- ===== src/Tests/Torn.antt =====
-- src/recovery/RecoveryEngine.cpp on a log of one frame and a torn one behind it.
use marketdatabook.Common.{
  ℕ, ◌+◌, List, replicate, ◌≤◌, ◌≡◌, refl, ap, ◌∙◌, arith, inr, update, true, [], ◌∷◌, done, state,
  some,
}
use marketdatabook.Common.Bytes.{Bytes, load_le}
use marketdatabook.Common.Memory.{Memory, load, load_congr}
use marketdatabook.Book
use marketdatabook.Book.{Book}
use marketdatabook.Itch.Decode.{parse_cancel_order}
use marketdatabook.Engine.{consume, dispatch}
use marketdatabook.Wal.{write_frame, valid_marker, calculate_crc32}
use marketdatabook.Parser.Messages.{Message, orders, logged_kind, decode}
use marketdatabook.Recovery.{recover_from, no_report, finished}
use marketdatabook.Recovery.Frames.{write_frame-IsFrame, write_frame_outside, calculate_crc32_congr}
use marketdatabook.Recovery.Ends.{IsEnd, Framed}
use marketdatabook.Recovery.Replay.{outcome, recover_from_lem}
use marketdatabook.Recovery.Report.{recover_from-report}
use marketdatabook.Parser.{message_length}
use marketdatabook.Parser.Stream.{AreMessages}
use marketdatabook.Recovery.Logged.{AreSmall}
use marketdatabook.Tests.Messages.{sum_crc}

-- The marker of a frame whose other bytes did not reach the disk.
abbrev torn_frame : Memory
torn_frame = update (λ _. 0) 64 valid_marker

abbrev one_message : List Message
one_message = record { kind = b'X'; body = replicate 22 3 } ∷ []

abbrev payload : Bytes
payload = b'X' ∷ replicate 22 3

abbrev torn_log : Memory
torn_log = write_frame sum_crc torn_frame 0 b'X' 5 99 payload

same_behind : (j : ℕ) → 64 ≤ j → torn_log j ≡ torn_frame j
same_behind j h =
    write_frame_outside sum_crc torn_frame 0 b'X' 5 99 payload (omega arith) j (inr (omega arith))

torn_checksum : calculate_crc32 sum_crc torn_log 64 ≡ valid_marker
unfolding calculate_crc32 load load_le
torn_checksum =
    calculate_crc32_congr sum_crc torn_log torn_frame 64 (λ j lo hi. same_behind j lo) ∙ refl

stored_checksum : load_le (load torn_log 124 4) ≡ 0
unfolding load load_le
stored_checksum =
    ap load_le (load_congr torn_log torn_frame 124 4 (λ j lo hi. same_behind j (omega arith)))

torn_log-IsEnd : IsEnd sum_crc torn_log 64 true
unfolding IsEnd
torn_log-IsEnd = (rw (same_behind 64 (omega arith)) refl, rw (torn_checksum, stored_checksum) refl)

torn_log-Framed : Framed sum_crc torn_log true 0 5 one_message
unfolding Framed IsEnd logged_kind
torn_log-Framed =
    (write_frame-IsFrame sum_crc torn_frame 0 b'X' 5 99 payload (omega arith), torn_log-IsEnd)

abbrev some_book : Book
some_book = state (Book.new 10)

abbrev after_cancel : Book
after_cancel = state (consume some_book (orders one_message))

consumed : consume some_book (orders one_message) ≡ done after_cancel
unfolding consume dispatch decode parse_cancel_order
consumed = refl

one_message-AreMessages : AreMessages one_message
unfolding message_length
one_message-AreMessages = (refl, tt)

one_message-AreSmall : AreSmall one_message
unfolding AreSmall
one_message-AreSmall = (omega arith, tt)

recover_from-report_example :
    recover_from sum_crc 3 torn_log 0 some_book no_report
    ≡ finished after_cancel
        (record { records_processed = 0 + 1; last_valid_seq = 5; torn_write_detected = true })
recover_from-report_example =
    recover_from-report sum_crc torn_log true one_message 3 0 5 some_book after_cancel no_report
      one_message-AreMessages one_message-AreSmall torn_log-Framed (omega arith) consumed

recover_from_lem_example :
    outcome (recover_from sum_crc 3 torn_log 0 some_book no_report)
    ≡ some (consume some_book (orders one_message))
recover_from_lem_example =
    recover_from_lem sum_crc torn_log true one_message 3 0 5 some_book no_report
      one_message-AreMessages one_message-AreSmall torn_log-Framed (omega arith)
