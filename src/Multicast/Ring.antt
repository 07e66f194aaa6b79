-- ===== src/Multicast/Ring.antt =====
-- The ring of frames of src/network/MulticastReceiver.h in mock mode: `simulate_packets` fills
-- frames and `poll_simulation` hands them to the parser. Each load or store of a frame's status is
-- a step, the count of a packet is one, and what a thread does to a frame in between is one; the
-- steps interleave freely. The turns of the two waiting loops that find nothing are not steps.
pub mod Held
pub mod Safety
pub mod Progress
pub mod Statistics
use marketdatabook.Common.{ℕ, ◌+◌, ◌*◌, ◌%◌, ◌^◌, ◌≡◌, if◌then◌else◌, List, [], ◌∷◌, ◌++◌, length}
use marketdatabook.Common.{Array, update}
use marketdatabook.Common.Bytes.{Bytes}
use marketdatabook.Common.Memory.{Memory, load, store}

-- `tp_status`: `TP_STATUS_KERNEL`, which is 0 and so what fresh memory says, or `TP_STATUS_USER`.
pub data Status : Type 0 where
  kernel user : Status

-- The fields of `tpacket2_hdr` that the two loops use.
pub record FrameHeader : Type 0 where
  pub tp_status : Status
  pub tp_snaplen : ℕ
  pub tp_len : ℕ
  pub tp_mac : ℕ
  pub tp_net : ℕ

-- The headers by frame, and the other bytes by their offset from `ring_`.
pub record Ring : Type 0 where
  pub headers : Array FrameHeader
  pub bytes : Memory

abbrev pub rx_frame_size : ℕ
rx_frame_size = 2048

abbrev pub rx_frame_nr : ℕ
rx_frame_nr = 4096

abbrev pub next_frame : ℕ → ℕ
next_frame idx = (idx + 1) % rx_frame_nr

abbrev pub with_status : Ring → ℕ → Status → Ring
with_status r idx s = record r {
  headers = update r.headers idx (record (r.headers idx) { tp_status = s });
}

-- `payload_ptr` and `payload_length`: what `parse_block` gets.
abbrev pub frame_payload : Ring → ℕ → Bytes
frame_payload r idx =
    load r.bytes (idx * rx_frame_size + (r.headers idx).tp_net) (r.headers idx).tp_snaplen

-- Where `simulate_packets` stands: at its waiting loop, before it writes the frame, or before the
-- store of the status.
pub data Simulator : Type 0 where
  waiting filling publishing : Simulator

-- Where `poll_simulation` stands: at its waiting loop, before the call of `parse_block`, before the
-- store of the status, or before the packet is counted.
pub data Poller : Type 0 where
  waiting parsing returning counting : Poller

-- The ring, the two threads, the blocks that the file still has, and those that were parsed.
pub record Mock : Type 0 where
  pub ring : Ring
  pub frame_idx : ℕ
  pub curr_frame_idx : ℕ
  pub total_packets : ℕ
  pub simulator : Simulator
  pub poller : Poller
  pub left : List Bytes
  pub parsed : List Bytes

-- The store of the status in `simulate_packets`, and its moves to the next block and frame.
abbrev pub publish_current : Mock → List Bytes → Mock
publish_current t rest = record t {
  ring = with_status t.ring t.frame_idx user;
  frame_idx = next_frame t.frame_idx;
  simulator = Simulator.waiting;
  left = rest;
}

-- The call of `parse_block` in `poll_simulation`.
abbrev pub parse_current : Mock → Mock
parse_current t = record t {
  parsed = t.parsed ++ frame_payload t.ring t.curr_frame_idx ∷ [];
  poller = Poller.returning;
}

-- The store of the status in `poll_simulation`, and its move to the next frame.
abbrev pub return_current : Mock → Mock
return_current t = record t {
  ring = with_status t.ring t.curr_frame_idx kernel;
  curr_frame_idx = next_frame t.curr_frame_idx;
  poller = Poller.counting;
}

-- The `fetch_add` that ends the round.
abbrev pub count_current : Mock → Mock
count_current t = record t {
  total_packets = (t.total_packets + 1) % 2 ^ 64;
  poller = Poller.waiting;
}

-- The size of the kernel's `tpacket2_hdr`, aligned: `TPACKET_ALIGN(sizeof(struct tpacket2_hdr))`.
module _ (header_size : ℕ) where
  -- The header and the `memcpy`.
  abbrev pub fill_frame : Ring → ℕ → Bytes → Ring
  fill_frame r idx block = record {
    headers = update r.headers idx (record (r.headers idx) {
      tp_snaplen = length block;
      tp_len = length block;
      tp_mac = header_size;
      tp_net = header_size;
    });
    bytes = store r.bytes (idx * rx_frame_size + header_size) block;
  }

  pub data Step : Mock → Mock → Type 0 where
    see_kernel :
        (t : Mock) (block : Bytes) (rest : List Bytes)
        → t.simulator ≡ Simulator.waiting
        → t.left ≡ block ∷ rest
        → (t.ring.headers t.frame_idx).tp_status ≡ kernel
        → Step t (record t { simulator = Simulator.filling })
    fill :
        (t : Mock) (block : Bytes) (rest : List Bytes)
        → t.simulator ≡ Simulator.filling
        → t.left ≡ block ∷ rest
        → Step t (record t {
          ring = fill_frame t.ring t.frame_idx block;
          simulator = Simulator.publishing;
        })
    publish :
        (t : Mock) (block : Bytes) (rest : List Bytes)
        → t.simulator ≡ Simulator.publishing
        → t.left ≡ block ∷ rest
        → Step t (publish_current t rest)
    see_user :
        (t : Mock)
        → t.poller ≡ Poller.waiting
        → (t.ring.headers t.curr_frame_idx).tp_status ≡ user
        → Step t (record t { poller = Poller.parsing })
    parse : (t : Mock) → t.poller ≡ Poller.parsing → Step t (parse_current t)
    return_frame : (t : Mock) → t.poller ≡ Poller.returning → Step t (return_current t)
    count_packet : (t : Mock) → t.poller ≡ Poller.counting → Step t (count_current t)

  -- Both threads at their loops, with zero memory and a file of these blocks.
  abbrev pub mock : List Bytes → Mock
  mock blocks = record {
    ring = record {
      headers =
          λ _. record { tp_status = kernel; tp_snaplen = 0; tp_len = 0; tp_mac = 0; tp_net = 0 };
      bytes = λ _. 0;
    };
    frame_idx = 0;
    curr_frame_idx = 0;
    total_packets = 0;
    simulator = Simulator.waiting;
    poller = Poller.waiting;
    left = blocks;
    parsed = [];
  }

  pub data Reach (blocks : List Bytes) : Mock → Type 0 where
    here : Reach blocks (mock blocks)
    next : {t u : Mock} → Reach blocks t → Step t u → Reach blocks u
