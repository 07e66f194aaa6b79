-- ===== src/Recovery.antt =====
-- src/recovery/RecoveryEngine.{h,cpp}: `run_recovery` over the bytes of the log file. The mapping
-- holds a number of frames; the loop has no test for its end, and a read behind it faults.
pub mod Frames
pub mod Logged
pub mod Ends
pub mod Replay
pub mod Report
pub mod EndToEnd
use marketdatabook.Common.{ℕ, zero, suc, ◌+◌, ◌==◌, if◌then◌else◌, Bool, true, false}
use marketdatabook.Common.{Error, Result, done, threw}
use marketdatabook.Common.Bytes.{Bytes, load_le}
use marketdatabook.Common.Memory.{Memory, load}
use marketdatabook.Itch.Decode.{extract_header, parse_add_order, parse_executed_order}
use marketdatabook.Itch.Decode.{parse_cancel_order}
use marketdatabook.Book.{Book}
use marketdatabook.Engine.{dispatch}
use marketdatabook.Wal.{Crc, calculate_crc32, frame_size, payload_size, valid_marker}

pub record RecoveryReport : Type 0 where
  pub records_processed : ℕ
  pub last_valid_seq : ℕ
  pub torn_write_detected : Bool

abbrev pub no_report : RecoveryReport
no_report = record { records_processed = 0; last_valid_seq = 0; torn_write_detected = false }

-- How `run_recovery` ends: it returns, a book operation throws, or it reads behind the mapping.
pub data Recovered : Type 0 where
  finished : Book → RecoveryReport → Recovered
  aborted : Error → Book → RecoveryReport → Recovered
  read_past_end : Recovered

-- The `switch` over the message type.
unfoldable pub replay_payload : Book → ℕ → Bytes → Result Book
replay_payload book kind payload =
    let header = extract_header payload in
    if kind == b'A'
    then dispatch book (parse_add_order payload header)
    else (if kind == b'E'
        then dispatch book (parse_executed_order payload header)
        else (if kind == b'X'
            then dispatch book (parse_cancel_order payload header)
            else done book))

abbrev pub counted : RecoveryReport → ℕ → RecoveryReport
counted r seq = record r { records_processed = r.records_processed + 1; last_valid_seq = seq }

module _ (crc : Crc) where
  -- The loop, with the frames left in the mapping.
  unfoldable pub recover_from : ℕ → Memory → ℕ → Book → RecoveryReport → Recovered
  recover_from zero m at book report = read_past_end
  recover_from (suc left) m at book report =
      let seq = load_le (load m (at + 4) 4) in
      let result = replay_payload book (m (at + 1)) (load m (at + 16) payload_size) in
      let go_on = λ (b : Book). recover_from left m (at + frame_size) b (counted report seq) in
      if m at == valid_marker
      then if calculate_crc32 crc m at == load_le (load m (at + 60) 4)
        then elim result [ done b ↦ go_on b | threw e b ↦ aborted e b report ]
        else finished book (record report { torn_write_detected = true })
      else finished book report

  -- `run_recovery` on a file of `frames` frames.
  unfoldable pub run_recovery : ℕ → Memory → Book → Recovered
  unfolding recover_from
  run_recovery frames m book = recover_from frames m 0 book no_report
