-- ===== src/Tests/Feed.antt =====
-- src/network/MulticastReceiver.h and the telemetry of src/main.cpp at concrete inputs.
use marketdatabook.Common.{◌≡◌, refl, arith, List, [], ◌∷◌, none, some}
use marketdatabook.Common.Bytes.{Bytes}
use marketdatabook.Spsc
use marketdatabook.Multicast.{next_block, simulate}
use marketdatabook.Multicast.Blocks.{file_of, AreShort, simulate-file_of}
use marketdatabook.Engine.Telemetry.{Telemetry, Measurement, IsInBounds, record_measurements}
use marketdatabook.Engine.Telemetry.{record_measurement, record_measurements-IsInBounds}
use marketdatabook.Engine.Telemetry.Log.{log_round, IsLogged, log_round-IsLogged}
use marketdatabook.Spsc.Calls.{new-Holds}

-- Two blocks and an odd byte.
abbrev two_blocks : List Bytes
two_blocks = (b'S' ∷ 1 ∷ 2 ∷ []) ∷ (b'X' ∷ 9 ∷ []) ∷ []

two_blocks-AreShort : AreShort two_blocks
unfolding AreShort
two_blocks-AreShort = (omega arith, (omega arith, tt))

odd_byte : next_block (3 ∷ []) ≡ none
unfolding next_block
odd_byte = refl

simulate-file_of_example : simulate 3 (file_of two_blocks (3 ∷ [])) ≡ some two_blocks
simulate-file_of_example =
    simulate-file_of two_blocks (3 ∷ []) 3 two_blocks-AreShort odd_byte (omega arith)

abbrev slow_order : Measurement
slow_order = record { tsc_delta = 6000; l1d_delta = 3; branch_delta = 1 }

-- The second buffer, with one place left.
abbrev almost_full : Telemetry
almost_full = record {
  buffers = λ _ _. slow_order;
  telemetry_handoff_queue = Spsc.new (λ _. 0);
  active_buf = 1;
  tel_idx = 16383;
}

record_measurements-IsInBounds_example :
    IsInBounds (record_measurements almost_full (slow_order ∷ slow_order ∷ []))
record_measurements-IsInBounds_example =
    record_measurements-IsInBounds (slow_order ∷ slow_order ∷ []) almost_full
      (record { buffer = omega arith; index = omega arith })

abbrev quick_order : Measurement
quick_order = record { tsc_delta = 900; l1d_delta = 3; branch_delta = 1 }

abbrev from_start : Telemetry
from_start = record almost_full { tel_idx = 0 }

log_round-IsLogged_example :
    let (t', output_file') = log_round (
      record_measurement
          (record_measurements from_start (quick_order ∷ quick_order ∷ []))
          slow_order,
      [],
    ) in
    IsLogged from_start t' [] output_file' (quick_order ∷ quick_order ∷ slow_order ∷ [])
log_round-IsLogged_example =
    log_round-IsLogged (quick_order ∷ quick_order ∷ []) slow_order from_start [] (refl, (refl, tt))
      refl refl (new-Holds (omega arith) (λ _. 0)) (omega arith)
