-- ===== src/Recovery/Ends.antt =====
-- How the log that RecoveryEngine.cpp reads may end.
use marketdatabook.Common.{
  ℕ, suc, ◌+◌, ◌*◌, ◌%◌, ◌^◌, ◌<◌, ◌≤◌, ◌==◌, ◌≡◌, refl, arith, if◌then◌else◌,
}
use marketdatabook.Common.{List, [], ◌∷◌, length, Bool, true, false}
use marketdatabook.Common.Bytes.{load_le}
use marketdatabook.Common.Memory.{Memory, load}
use marketdatabook.Book.{Book}
use marketdatabook.Wal.{Crc, frame_size, calculate_crc32, valid_marker}
use marketdatabook.Parser.Messages.{Message, bytes, logged_kind}
use marketdatabook.Recovery.{RecoveryReport, finished, recover_from}
use marketdatabook.Recovery.Frames.{IsFrame, IsFrame-congr}
use marketdatabook.Recovery.Logged.{Logged, AreSmall}

-- The end of a log: a frame without the marker or, torn, with the marker and another checksum.
unfoldable pub IsEnd : Crc → Memory → ℕ → Bool → Type 0
IsEnd crc m at false = (m at == valid_marker) ≡ false
IsEnd crc m at true =
    ((m at == valid_marker) ≡ true)
    × ((calculate_crc32 crc m at == load_le (load m (at + 60) 4)) ≡ false)

-- From an address on, the log has one complete frame for each message, and then its end.
unfoldable pub Framed : Crc → Memory → Bool → ℕ → ℕ → List Message → Type 0
Framed crc m torn at seq [] = IsEnd crc m at torn
Framed crc m torn at seq (x ∷ xs) =
    IsFrame crc m at (logged_kind x.kind) (seq % 2 ^ 32) (bytes x)
    × Framed crc m torn (at + frame_size) ((seq + 1) % 2 ^ 64) xs

module _ (crc : Crc) (m : Memory) where
  pub recover_from-IsEnd :
      (torn : Bool) (left at : ℕ) (book : Book) (report : RecoveryReport)
      → IsEnd crc m at torn
      → recover_from crc (suc left) m at book report
        ≡ finished book (record report {
          torn_write_detected = if torn then true else report.torn_write_detected;
        })
  unfolding recover_from IsEnd
  recover_from-IsEnd false left at book report e = rw (recover_from, e) refl
  recover_from-IsEnd true left at book report (marked, other) =
      rw (recover_from, marked, other) refl

IsEnd-at :
    (crc : Crc) (m : Memory) {at at' : ℕ} (torn : Bool)
    → at ≡ at'
    → IsEnd crc m at torn
    → IsEnd crc m at' torn
IsEnd-at crc m torn e h = rw (← e) h

-- A log whose frames are in another memory too, and that ends there in some way.
pub Logged-Framed :
    (crc : Crc) (m m' : Memory) (torn : Bool) (at seq : ℕ) (ms : List Message)
    → AreSmall ms
    → Logged crc m at seq ms
    → ((j : ℕ) → at ≤ j → j < at + frame_size * length ms → m j ≡ m' j)
    → IsEnd crc m' (at + frame_size * length ms) torn
    → Framed crc m' torn at seq ms
unfolding AreSmall Logged Framed
Logged-Framed crc m m' torn at seq [] small l same end = IsEnd-at crc m' torn (omega arith) end
Logged-Framed crc m m' torn at seq (x ∷ ms) (fits, small) (f, l) same end = (
  IsFrame-congr crc fits (λ j lo hi. same j lo (omega arith)) f,
  Logged-Framed crc m m' torn (at + frame_size) ((seq + 1) % 2 ^ 64) ms small l
      (λ j lo hi. same j (omega arith) (omega arith)) (IsEnd-at crc m' torn (omega arith) end),
)

-- The byte 0 behind the frames is an end.
pub Logged-whole :
    (crc : Crc) (m : Memory) (at seq : ℕ) (ms : List Message)
    → Logged crc m at seq ms
    → Framed crc m false at seq ms
unfolding Logged Framed IsEnd
Logged-whole crc m at seq [] l = rw (l) refl
Logged-whole crc m at seq (x ∷ ms) (f, l) =
    (f, Logged-whole crc m (at + frame_size) ((seq + 1) % 2 ^ 64) ms l)
