-- ===== src/Recovery/Frames.antt =====
-- What `write_frame` leaves in the log, as `run_recovery` reads it.
use marketdatabook.Common.{ℕ, ◌+◌, ◌%◌, ◌^◌, ◌<◌, ◌≤◌, ◌≡◌, sym, ap, ◌∙◌}
use marketdatabook.Common.{arith, ◌∷◌, length, ◌⊎◌, inl}
use marketdatabook.Common.Bytes.{Bytes, load_le, store_le, load_le-store_le, length-store_le}
use marketdatabook.Common.Memory.{Memory, load, store, store_below}
use marketdatabook.Common.Memory.{load_congr, load-store, load_apart, store_apart}
use marketdatabook.Common.Memory.{load-store_of_length}
use marketdatabook.Common.{update, update_self}
use marketdatabook.Wal.{Crc, calculate_crc32, frame_size, payload_size, valid_marker, write_frame}

-- The memories agree on the addresses from `lo` to `hi`.
abbrev pub SameOn : ℕ → ℕ → Memory → Memory → Type 0
SameOn lo hi m m' = (j : ℕ) → lo ≤ j → j < hi → m j ≡ m' j

module _ (crc : Crc) where
  -- The checksum goes by the first 60 bytes of the frame.
  pub calculate_crc32_congr :
      (m m' : Memory) (at : ℕ)
      → SameOn at (at + 60) m m'
      → calculate_crc32 crc m at ≡ calculate_crc32 crc m' at
  unfolding calculate_crc32
  calculate_crc32_congr m m' at same =
      let word : (i : ℕ) → i ≤ 52 → load m (at + i) 8 ≡ load m' (at + i) 8 =
        λ i h. load_congr m m' (at + i) 8 (λ j lo hi. same j (omega arith) (omega arith)) in
      let last : load m (at + 56) 4 ≡ load m' (at + 56) 4 =
        load_congr m m' (at + 56) 4 (λ j lo hi. same j (omega arith) (omega arith)) in
      rw (
        word 0 (omega arith),
        word 8 (omega arith),
        word 16 (omega arith),
        word 24 (omega arith),
        word 32 (omega arith),
        word 40 (omega arith),
        word 48 (omega arith),
        last,
      )

  calculate_crc32-lt : (m : Memory) (at : ℕ) → calculate_crc32 crc m at < 256 ^ 4
  unfolding calculate_crc32
  calculate_crc32-lt m at = omega arith

  -- A complete frame: a message of this type with its sequence number and its checksum.
  pub record IsFrame (m : Memory) (at kind seq : ℕ) (payload : Bytes) : Type 0 where
    pub marker : m at ≡ valid_marker
    pub msg_type : m (at + 1) ≡ kind
    pub seq_num : load_le (load m (at + 4) 4) ≡ seq
    pub bytes : load m (at + 16) (length payload) ≡ payload
    pub checksum : load_le (load m (at + 60) 4) ≡ calculate_crc32 crc m at

  -- A frame goes by its own 64 bytes.
  pub IsFrame-congr :
      {m m' : Memory} {at kind seq : ℕ} {payload : Bytes}
      → length payload ≤ payload_size
      → SameOn at (at + frame_size) m m'
      → IsFrame m at kind seq payload
      → IsFrame m' at kind seq payload
  IsFrame-congr {m} {m'} {at} {kind} {seq} {payload} small same f =
      let part : (i n : ℕ) → i + n ≤ 64 → load m' (at + i) n ≡ load m (at + i) n =
        λ i n h. load_congr m' m (at + i) n (λ j lo hi. sym (same j (omega arith) (omega arith))) in
      record {
        marker = sym (same at (omega arith) (omega arith)) ∙ f.marker;
        msg_type = sym (same (at + 1) (omega arith) (omega arith)) ∙ f.msg_type;
        seq_num = ap load_le (part 4 4 (omega arith)) ∙ f.seq_num;
        bytes = part 16 (length payload) (omega arith) ∙ f.bytes;
        checksum =
            ap load_le (part 60 4 (omega arith))
            ∙ f.checksum
            ∙ calculate_crc32_congr m m' at (λ j lo hi. same j lo (omega arith));
      }

  module _ (m : Memory) (at kind seq timestamp : ℕ) (payload : Bytes)
      (small : length payload ≤ payload_size) where
    -- The memory after each of the stores of `write_frame`.
    abbrev m1 : Memory
    m1 = store m at (valid_marker ∷ kind ∷ store_le 2 1)

    abbrev m2 : Memory
    m2 = store m1 (at + 4) (store_le 4 (seq % 2 ^ 32))

    abbrev m3 : Memory
    m3 = store m2 (at + 8) (store_le 8 timestamp)

    abbrev m4 : Memory
    m4 = store m3 (at + 16) payload

    abbrev m5 : Memory
    m5 = store m4 (at + 60) (store_le 4 (calculate_crc32 crc m4 at))

    m5_low : (j : ℕ) → j < at + 4 → m5 j ≡ m1 j
    m5_low j h =
        store_below m4 (at + 60) _ j (omega arith)
        ∙ store_below m3 (at + 16) payload j (omega arith)
        ∙ store_below m2 (at + 8) _ j (omega arith)
        ∙ store_below m1 (at + 4) _ j (omega arith)

    m5_marker : m5 at ≡ valid_marker
    unfolding store
    m5_marker =
        m5_low at (omega arith)
        ∙ store_below (update m at valid_marker) (at + 1) (kind ∷ store_le 2 1) at (omega arith)
        ∙ update_self m at valid_marker

    m5_msg_type : m5 (at + 1) ≡ kind
    unfolding store
    m5_msg_type =
        m5_low (at + 1) (omega arith)
        ∙ store_below (update (update m at valid_marker) (at + 1) kind) (at + 1 + 1) (store_le 2 1)
            (at + 1) (omega arith)
        ∙ update_self (update m at valid_marker) (at + 1) kind

    m5_seq_num : load_le (load m5 (at + 4) 4) ≡ seq % 2 ^ 32
    m5_seq_num =
        let len2 = length-store_le 4 (seq % 2 ^ 32) in
        ap load_le (
          load_apart m4 (at + 60) _ (at + 4) 4 (inl (omega arith))
          ∙ load_apart m3 (at + 16) payload (at + 4) 4 (inl (omega arith))
          ∙ load_apart m2 (at + 8) _ (at + 4) 4 (inl (omega arith))
          ∙ load-store_of_length m1 (at + 4) _ len2)
        ∙ load_le-store_le 4 (seq % 2 ^ 32) (omega arith)

    m5_bytes : load m5 (at + 16) (length payload) ≡ payload
    m5_bytes =
        load_apart m4 (at + 60) _ (at + 16) (length payload) (inl (omega arith))
        ∙ load-store m3 (at + 16) payload

    m5_checksum : load_le (load m5 (at + 60) 4) ≡ calculate_crc32 crc m5 at
    m5_checksum =
        let sum = calculate_crc32 crc m4 at in
        ap load_le (load-store_of_length m4 (at + 60) _ (length-store_le 4 sum))
        ∙ load_le-store_le 4 sum (calculate_crc32-lt m4 at)
        ∙ calculate_crc32_congr m4 m5 at
            (λ j lo hi. sym (store_below m4 (at + 60) _ j (omega arith)))

    -- `write_frame` writes a complete frame, for a message that fits the payload.
    pub write_frame-IsFrame :
        IsFrame (write_frame crc m at kind seq timestamp payload) at kind (seq % 2 ^ 32) payload
    unfolding write_frame
    write_frame-IsFrame = record {
      marker = m5_marker;
      msg_type = m5_msg_type;
      seq_num = m5_seq_num;
      bytes = m5_bytes;
      checksum = m5_checksum;
    }

    -- It writes nothing outside its 64 bytes.
    pub write_frame_outside :
        (j : ℕ)
        → (j < at) ⊎ (at + frame_size ≤ j)
        → write_frame crc m at kind seq timestamp payload j ≡ m j
    unfolding write_frame
    write_frame_outside j out =
        let header = length-store_le 2 1 in
        let seq_len = length-store_le 4 (seq % 2 ^ 32) in
        let time_len = length-store_le 8 timestamp in
        let sum_len = length-store_le 4 (calculate_crc32 crc m4 at) in
        store_apart m4 (at + 60) _ j (omega (arith, sum_len))
        ∙ store_apart m3 (at + 16) payload j (omega arith)
        ∙ store_apart m2 (at + 8) _ j (omega (arith, time_len))
        ∙ store_apart m1 (at + 4) _ j (omega (arith, seq_len))
        ∙ store_apart m at _ j (omega (arith, header))
