-- ===== src/Wal.antt =====
-- src/utils/WalFrame.h, src/utils/crc32.h and src/recovery/MmapLogger.{h,cpp}: the write-ahead log
-- as the bytes of its file. A frame of 64 bytes has its marker at 0, its message type at 1, its
-- channel at 2, its sequence number at 4, its time stamp at 8, its payload at 16, and its checksum
-- at 60. Addresses count from the start of the file.
use marketdatabook.Common.{ℕ, ◌+◌, ◌%◌, ◌^◌, ltb, if◌then◌else◌, Option, none, some, ◌∷◌}
use marketdatabook.Common.Bytes.{Bytes, load_le, store_le}
use marketdatabook.Common.Memory.{Memory, load, store}

-- The instructions `_mm_crc32_u64` and `_mm_crc32_u32`: the sum so far and the word to add.
pub record Crc : Type 0 where
  pub crc32_u64 : ℕ → ℕ → ℕ
  pub crc32_u32 : ℕ → ℕ → ℕ

abbrev pub frame_size : ℕ
frame_size = 64

abbrev pub payload_size : ℕ
payload_size = 44

abbrev pub valid_marker : ℕ
valid_marker = 0xAA

-- `FILE_SIZE`
abbrev pub file_size : ℕ
file_size = 2 ^ 30

-- `calculate_crc32`: seven words of 8 bytes and one of 4, which leaves out the checksum.
unfoldable pub calculate_crc32 : Crc → Memory → ℕ → ℕ
calculate_crc32 crc m at =
    let add = λ (sum i : ℕ). crc.crc32_u64 sum (load_le (load m (at + i) 8)) in
    let sum = add (add (add (add (add (add (add 0 0) 8) 16) 24) 32) 40) 48 in
    crc.crc32_u32 (sum % 2 ^ 32) (load_le (load m (at + 56) 4)) % 2 ^ 32

-- `start_` is address 0, `curr_` is `curr`.
pub record Logger : Type 0 where
  pub memory : Memory
  pub curr : ℕ

-- The constructor: a file of zeros. Where the system calls fail it throws, which is not modelled.
abbrev pub new : Logger
new = record { memory = λ _. 0; curr = 0 }

unfoldable pub reserve_frame : Logger → Logger × Option ℕ
reserve_frame l =
    if ltb file_size (l.curr + frame_size)
    then (l, none)
    else (record l { curr = l.curr + frame_size }, some l.curr)

-- The stores of `log_payload` into a frame: the fields, the payload, and then the checksum.
unfoldable pub write_frame : Crc → Memory → ℕ → ℕ → ℕ → ℕ → Bytes → Memory
write_frame crc m at kind seq timestamp payload =
    let m1 = store m at (valid_marker ∷ kind ∷ store_le 2 1) in
    let m2 = store m1 (at + 4) (store_le 4 (seq % 2 ^ 32)) in
    let m3 = store m2 (at + 8) (store_le 8 timestamp) in
    let m4 = store m3 (at + 16) payload in
    store m4 (at + 60) (store_le 4 (calculate_crc32 crc m4 at))
