-- ===== src/Recovery/Replay.antt =====
-- `run_recovery` of RecoveryEngine.cpp on a log that ItchParser.h has written.
use marketdatabook.Common.{
  ℕ, zero, suc, ◌+◌, ◌-◌, ◌%◌, ◌^◌, ◌<◌, ◌≤◌, ◌==◌, ◌≡◌, refl, sym, ap, ap₂, ◌∙◌,
}
use marketdatabook.Common.{
  arith, List, [], ◌∷◌, ◌++◌, length, inl, inr, Option, none, some, Bool-cases, ==_iff,
}
use marketdatabook.Common.{Result, done, threw, true, Bool}
use marketdatabook.Common.Bytes.{Bytes, load_le}
use marketdatabook.Common.Memory.{Memory, load, load-add}
use marketdatabook.Itch.{NormalizedOrder}
use marketdatabook.Book.{Book}
use marketdatabook.Engine.{dispatch, consume}
use marketdatabook.Wal.{Crc, frame_size, payload_size}
use marketdatabook.Parser.Messages.{
  Message, bytes, IsMessage, decode, logged_kind, orders, decode-append,
}
use marketdatabook.Parser.Stream.{AreMessages}
use marketdatabook.Recovery.{RecoveryReport, counted, Recovered, finished, aborted, read_past_end}
use marketdatabook.Recovery.{replay_payload, recover_from}
use marketdatabook.Recovery.Frames.{IsFrame}
use marketdatabook.Recovery.Logged.{AreSmall}
use marketdatabook.Recovery.Ends.{Framed, recover_from-IsEnd}

-- What the loop of main.cpp does with an order, where a message has one.
unfoldable pub dispatch_some : Book → Option NormalizedOrder → Result Book
dispatch_some book none = done book
dispatch_some book (some o) = dispatch book o

replay_payload-decode :
    (book : Book) (kind : ℕ) (payload : Bytes)
    → replay_payload book (logged_kind kind) payload ≡ dispatch_some book (decode kind payload)
unfolding replay_payload logged_kind decode dispatch_some
replay_payload-decode book kind payload = elim (Bool-cases (kind == b'A')) [
  | inl a ↦ rw (a, a)
  | inr a ↦ elim (Bool-cases (kind == b'E')) [
    | inl b ↦ rw (a, b, a, b)
    | inr b ↦ elim (Bool-cases (kind == b'X')) [
      | inl c ↦ rw (a, b, c, a, b, c)
      | inr c ↦ rw (a, b, c)
    ]
  ]
]

-- The payload of a frame begins with the message, which is all that is decoded.
pub replay_payload-message :
    (crc : Crc) (m : Memory) (at seq : ℕ) (book : Book) (x : Message)
    → IsMessage x
    → length (bytes x) ≤ payload_size
    → IsFrame crc m at (logged_kind x.kind) seq (bytes x)
    → replay_payload book (m (at + 1)) (load m (at + 16) payload_size)
      ≡ dispatch_some book (decode x.kind (bytes x))
replay_payload-message crc m at seq book x whole fits f =
    let n = length (bytes x) in
    let split : load m (at + 16) payload_size ≡ bytes x ++ load m (at + 16 + n) (payload_size - n) =
      ap (load m (at + 16)) (omega arith)
      ∙ load-add m (at + 16) n (payload_size - n)
      ∙ ap (λ (bs : Bytes). bs ++ load m (at + 16 + n) (payload_size - n)) f.bytes in
    ap₂ (replay_payload book) f.msg_type split
    ∙ replay_payload-decode book x.kind _
    ∙ ap (dispatch_some book) (decode-append x.kind (bytes x) _ whole)

-- How a run ends for the book: with it, or with the exception that a book operation threw.
pub outcome : Recovered → Option (Result Book)
outcome (finished book report) = some (done book)
outcome (aborted e book report) = some (threw e book)
outcome read_past_end = none

pub consume-orders :
    (book : Book) (order : Option NormalizedOrder) (os : List NormalizedOrder)
    → consume book (elim order [ none ↦ os | some o ↦ o ∷ os ])
      ≡ elim (dispatch_some book order) [ done b ↦ consume b os | threw e b ↦ threw e b ]
unfolding consume dispatch_some
consume-orders book none os = refl
consume-orders book (some o) os = refl

module _ (crc : Crc) (m : Memory) where
  pub recover_from-frame :
      (left at kind seq : ℕ) (raw : Bytes) (book : Book) (report : RecoveryReport)
      (result : Result Book)
      → IsFrame crc m at kind seq raw
      → replay_payload book (m (at + 1)) (load m (at + 16) payload_size) ≡ result
      → recover_from crc (suc left) m at book report ≡ elim result [
        | done b ↦ recover_from crc left m (at + frame_size) b (counted report seq)
        | threw e b ↦ aborted e b report
      ]
  unfolding recover_from
  recover_from-frame left at kind seq raw book report (done b) f e =
      rw (recover_from, f.marker, sym f.checksum, same, e, f.seq_num)
    where
      same : (load_le (load m (at + 60) 4) == load_le (load m (at + 60) 4)) ≡ true
      same = (==_iff _ _).1 refl
  recover_from-frame left at kind seq raw book report (threw x b) f e =
      rw (recover_from, f.marker, sym f.checksum, same, e)
    where
      same : (load_le (load m (at + 60) 4) == load_le (load m (at + 60) 4)) ≡ true
      same = (==_iff _ _).1 refl

  carry_on :
      (left at seq : ℕ) (os : List NormalizedOrder) (report : RecoveryReport) (result : Result Book)
      → ((b : Book) (r : RecoveryReport)
          → outcome (recover_from crc left m (at + frame_size) b r) ≡ some (consume b os))
      → outcome (elim result [
        | done b ↦ recover_from crc left m (at + frame_size) b (counted report seq)
        | threw e b ↦ aborted e b report
      ])
        ≡ some (elim result [ done b ↦ consume b os | threw e b ↦ threw e b ])
  unfolding outcome
  carry_on left at seq os report (done b) rest = rest b (counted report seq)
  carry_on left at seq os report (threw e b) rest = refl

  -- On a log that has a complete frame for each of some whole messages that fit a frame, and ends
  -- there, with a byte that is no marker, or with a torn frame, the loop ends with the book, or the
  -- exception, that dispatching the orders of the messages ends with, where more frames are left
  -- than there are messages.
  pub recover_from_lem :
      (torn : Bool) (ms : List Message) (left at seq : ℕ) (book : Book) (report : RecoveryReport)
      → AreMessages ms
      → AreSmall ms
      → Framed crc m torn at seq ms
      → length ms < left
      → outcome (recover_from crc left m at book report) ≡ some (consume book (orders ms))
  unfolding AreSmall Framed outcome consume
  recover_from_lem torn ms zero at seq book report whole small l enough = absurd (omega arith)
  recover_from_lem torn [] (suc left) at seq book report whole small l enough =
      ap outcome (recover_from-IsEnd crc m torn left at book report l)
  recover_from_lem torn (x ∷ ms) (suc left) at seq book report (is_message, whole) (fits, small)
        (f, l) enough =
      let order = decode x.kind (bytes x) in
      let result = dispatch_some book order in
      let step =
        recover_from-frame left at (logged_kind x.kind) (seq % 2 ^ 32) (bytes x) book report result
          f (replay_payload-message crc m at (seq % 2 ^ 32) book x is_message fits f) in
      ap outcome step
      ∙ carry_on left at (seq % 2 ^ 32) (orders ms) report result (λ b r.
        recover_from_lem torn ms left (at + frame_size) ((seq + 1) % 2 ^ 64) b r whole small l
          (omega arith))
      ∙ ap some (sym (consume-orders book order (orders ms)))
