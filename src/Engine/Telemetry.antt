-- ===== src/Engine/Telemetry.antt =====
-- src/main.cpp: the measurements that the consumer records after each order, in one of two buffers,
-- and the hand-over of a buffer to the logging thread.
pub mod Log
use marketdatabook.Common.{
  ℕ, ◌+◌, ◌-◌, ◌<◌, ◌^◌, ◌%◌, ◌≡◌, ltb, ◌||◌, if◌then◌else◌, arith, List, [], ◌∷◌, Array, update,
  bit_and,
}
use marketdatabook.Common.Bits.{bit_and-mask}
use native.Mathlib.Nat.{mod-lt}
use marketdatabook.Spsc
use marketdatabook.Spsc.{Queue}

-- The differences of the time stamp, of the cache misses and of the branch misses.
pub record Measurement : Type 0 where
  pub tsc_delta : ℕ
  pub l1d_delta : ℕ
  pub branch_delta : ℕ

-- What the clock and the two counters say, before or after an order is dispatched.
pub record Reading : Type 0 where
  pub tsc : ℕ
  pub l1d : ℕ
  pub branches : ℕ

-- A difference of two values of `uint64_t`.
unfoldable pub delta : ℕ → ℕ → ℕ
delta stop start = (stop + (2 ^ 64 - start)) % 2 ^ 64

abbrev pub measured : Reading → Reading → Measurement
measured start stop = record {
  tsc_delta = delta stop.tsc start.tsc;
  l1d_delta = delta stop.l1d start.l1d;
  branch_delta = delta stop.branches start.branches;
}

-- A counter of 64 bits that goes up by less than 2 ^ 64, also around its end, has that difference.
pub delta_lem : (start n : ℕ) → start < 2 ^ 64 → n < 2 ^ 64 → delta ((start + n) % 2 ^ 64) start ≡ n
unfolding delta
delta_lem start n h k = omega (arith, h, k)

pub record Telemetry : Type 0 where
  pub buffers : Array (Array Measurement)
  pub telemetry_handoff_queue : Queue ℕ
  pub active_buf : ℕ
  pub tel_idx : ℕ

abbrev pub buffer_bits : ℕ
buffer_bits = 14

-- `TELEMETRY_BUFFER_SIZE`
abbrev pub buffer_size : ℕ
buffer_size = 2 ^ buffer_bits

-- The measurement is stored and the index moves on; a slow order hands the buffer over. The result
-- of the `push` is not looked at.
unfoldable pub record_measurement : Telemetry → Measurement → Telemetry
record_measurement t x =
    let active = t.active_buf in
    let buffers = update t.buffers active (update (t.buffers active) t.tel_idx x) in
    let idx = bit_and (t.tel_idx + 1) (2 ^ buffer_bits - 1) in
    if ltb 1000 x.l1d_delta || ltb 5000 x.tsc_delta
    then record {
      buffers = buffers;
      telemetry_handoff_queue = (Spsc.push 1 t.telemetry_handoff_queue active).0;
      active_buf = 1 - active;
      tel_idx = 0;
    }
    else record t { buffers = buffers; tel_idx = idx }

pub record_measurements : Telemetry → List Measurement → Telemetry
record_measurements t [] = t
record_measurements t (x ∷ xs) = record_measurements (record_measurement t x) xs

-- The next measurement goes into a buffer.
pub record IsInBounds (t : Telemetry) : Type 0 where
  pub buffer : t.active_buf < 2
  pub index : t.tel_idx < buffer_size

record_measurement-IsInBounds :
    (t : Telemetry) (x : Measurement) → IsInBounds t → IsInBounds (record_measurement t x)
unfolding record_measurement
record_measurement-IsInBounds t x v =
    let mask = bit_and-mask buffer_bits (t.tel_idx + 1) in
    let wrapped = mod-lt (t.tel_idx + 1) {m = 2 ^ buffer_bits} (omega arith) in
    record { buffer = ground (arith, v.buffer); index = ground (arith, mask, wrapped) }

-- Any measurements leave the next one with an index that lies in one of the buffers, where it lay
-- there before.
pub record_measurements-IsInBounds :
    (xs : List Measurement) (t : Telemetry) → IsInBounds t → IsInBounds (record_measurements t xs)
unfolding record_measurements
record_measurements-IsInBounds [] t v = v
record_measurements-IsInBounds (x ∷ xs) t v =
    record_measurements-IsInBounds xs (record_measurement t x) (record_measurement-IsInBounds t x v)
