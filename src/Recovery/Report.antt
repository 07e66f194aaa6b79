-- ===== src/Recovery/Report.antt =====
-- The report of `run_recovery` of RecoveryEngine.cpp, also on a log whose last frame is torn.
use marketdatabook.Common.{
  ℕ, zero, suc, ◌+◌, ◌%◌, ◌^◌, ◌<◌, ◌≡◌, ◌≢◌, refl, sym, ◌∙◌, arith, if◌then◌else◌,
}
use marketdatabook.Common.{List, [], ◌∷◌, length, inl, inr, Bool, true}
use marketdatabook.Common.{Error, done, threw, Result-cases}
use native.Mathlib.Nat.{add-zero}
use marketdatabook.Common.Memory.{Memory}
use marketdatabook.Book.{Book}
use marketdatabook.Engine.{consume}
use marketdatabook.Wal.{Crc, frame_size}
use marketdatabook.Parser.Messages.{Message, bytes, decode, logged_kind, orders}
use marketdatabook.Parser.Stream.{AreMessages}
use marketdatabook.Recovery.{RecoveryReport, counted, finished, recover_from}
use marketdatabook.Recovery.Logged.{AreSmall}
use marketdatabook.Recovery.Ends.{Framed, recover_from-IsEnd}
use marketdatabook.Recovery.Replay.{dispatch_some, replay_payload-message, consume-orders}
use marketdatabook.Recovery.Replay.{recover_from-frame}

-- The sequence number of the last of some frames, or what it was before them.
abbrev pub last_seq : ℕ → ℕ → List Message → ℕ
last_seq before seq [] = before
last_seq before seq (x ∷ xs) = last_seq (seq % 2 ^ 32) ((seq + 1) % 2 ^ 64) xs

count : (a n : ℕ) → a + 1 + n ≡ a + suc n
count a n = omega arith

done_ne : {e : Error} {b b' : Book} → threw e b ≢ done b'
done_ne same = cc

returned : {b b' : Book} → done b ≡ done b' → b ≡ b'
returned same = cc

module _ (crc : Crc) (m : Memory) (torn : Bool) where
  first_done :
      (book b : Book) (x : Message) (ms : List Message)
      → consume book (orders (x ∷ ms)) ≡ done b
      → (b1 : Book) × (dispatch_some book (decode x.kind (bytes x)) ≡ done b1)
        × (consume b1 (orders ms) ≡ done b)
  first_done book b x ms e =
      let order = decode x.kind (bytes x) in
      let run = sym (consume-orders book order (orders ms)) ∙ e in
      elim (Result-cases (dispatch_some book order)) [
        | inl (b1, first) ↦ (b1, first, rw (first) at run)
        | inr (error, b1, first) ↦ absurd (done_ne (rw (first) at run))
      ]

  -- On a log that has a complete frame for each of some whole messages that fit a frame, and ends
  -- there or with a torn frame, where the orders of the messages are dispatched without an
  -- exception, the loop returns with the book that this leaves; the report says as many records
  -- more as there are messages, the sequence number of the last, and whether a frame was torn. More
  -- frames are left than there are messages.
  pub recover_from-report :
      (ms : List Message) (left at seq : ℕ) (book b : Book) (report : RecoveryReport)
      → AreMessages ms
      → AreSmall ms
      → Framed crc m torn at seq ms
      → length ms < left
      → consume book (orders ms) ≡ done b
      → recover_from crc left m at book report
        ≡ finished b (record {
          records_processed = report.records_processed + length ms;
          last_valid_seq = last_seq report.last_valid_seq seq ms;
          torn_write_detected = if torn then true else report.torn_write_detected;
        })
  unfolding AreSmall Framed consume
  recover_from-report ms zero at seq book b report whole small l enough run = absurd (omega arith)
  recover_from-report [] (suc left) at seq book b report whole small l enough run =
      recover_from-IsEnd crc m torn left at book report l ∙ rw (returned run, add-zero) refl
  recover_from-report (x ∷ ms) (suc left) at seq book b report (is_message, whole) (fits, small)
        (f, l) enough run =
      let (b1, first, rest) = first_done book b x ms run in
      let step =
        recover_from-frame crc m left at (logged_kind x.kind) (seq % 2 ^ 32) (bytes x) book report
          (done b1) f
          (replay_payload-message crc m at (seq % 2 ^ 32) book x is_message fits f ∙ first) in
      step
      ∙ recover_from-report ms left (at + frame_size) ((seq + 1) % 2 ^ 64) b1 b
          (counted report (seq % 2 ^ 32)) whole small l (omega arith) rest
      ∙ rw (count report.records_processed (length ms)) refl
