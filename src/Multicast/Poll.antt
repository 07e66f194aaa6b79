-- ===== src/Multicast/Poll.antt =====
-- `poll` of src/network/MulticastReceiver.h, by rounds that find a packet. What the kernel has put
-- into a frame is a hypothesis of the theorems.
pub mod Payloads
use marketdatabook.Common.{ℕ, zero, suc, ◌+◌, ◌*◌, ◌-◌, ◌%◌, ◌^◌, ltb, if◌then◌else◌}
use marketdatabook.Common.{List, [], ◌∷◌, Option, none, some}
use marketdatabook.Common.Bytes.{Bytes}
use marketdatabook.Common.Memory.{load}
use marketdatabook.Multicast.Ring.{
  Ring, Status, kernel, user, with_status, next_frame, rx_frame_size,
}

-- The fields of the receiver that `poll` uses.
pub record Polling : Type 0 where
  pub ring : Ring
  pub curr_frame_idx : ℕ
  pub total_packets : ℕ

-- `payload_ptr` and `payload_length`, behind an Ethernet header of 14 bytes, an IP header of 20 and
-- a UDP header of 8. It is `none` for a negative length, at which `parse_block` returns.
unfoldable pub packet_payload : Ring → ℕ → Option Bytes
packet_payload r idx =
    let packet = r.headers idx in
    let payload_ptr = idx * rx_frame_size + packet.tp_net + 20 + 8 in
    if ltb packet.tp_snaplen (14 + 20 + 8)
    then none
    else some (load r.bytes payload_ptr (packet.tp_snaplen - 14 - 20 - 8))

-- A round: what `parse_block` gets, and the frame back to the kernel.
unfoldable pub poll_round : Polling → Option Bytes × Polling
poll_round s = (
  packet_payload s.ring s.curr_frame_idx,
  record {
    ring = with_status s.ring s.curr_frame_idx kernel;
    curr_frame_idx = next_frame s.curr_frame_idx;
    total_packets = (s.total_packets + 1) % 2 ^ 64;
  },
)

-- Some rounds, and what they give; `none` where a frame is the kernel's, so that the loop waits.
unfoldable pub poll_rounds : ℕ → Polling → Option (List (Option Bytes) × Polling)
poll_rounds zero s = some ([], s)
poll_rounds (suc n) s = elim (s.ring.headers s.curr_frame_idx).tp_status [
  | kernel ↦ none
  | user ↦
      let (payload, s') = poll_round s in
      elim (poll_rounds n s') [ none ↦ none | some (rest, s'') ↦ some (payload ∷ rest, s'') ]
]
