-- ===== src/Tests/Packets.antt =====
-- The filter and `poll` of src/network/MulticastReceiver.h on two packets to port 58362, which
-- stand in the last frame of the ring and in the first.
use marketdatabook.Common.{
  ℕ, ◌*◌, ◌+◌, ◌^◌, ◌≡◌, refl, arith, [], ◌∷◌, ◌++◌, replicate, some, length,
}
use marketdatabook.Common.{◌||◌, ◌==◌, true, false, if◌then◌else◌}
use marketdatabook.Common.Bytes.{Bytes, from_be}
use marketdatabook.Common.Memory.{load, store}
use marketdatabook.Multicast.Filter.{filter_packet, half}
use marketdatabook.Multicast.Filter.Wanted.{is_udp4, is_udp6, filter_packet_lem}
use marketdatabook.Multicast.Ring.{Ring, user, rx_frame_size}
use marketdatabook.Multicast.Poll.{Polling, poll_rounds}
use marketdatabook.Multicast.Poll.Payloads.{AreDelivered, ArePlain}
use marketdatabook.Multicast.Poll.Payloads.{IsReturned, poll_rounds-payloads}

-- The headers, with the destination port in two bytes.
abbrev packet : ℕ → ℕ → Bytes → Bytes
packet high low payload =
    replicate 12 1
    ++ (8
        ∷ 0
        ∷ 0x45
        ∷ 0
        ∷ 0
        ∷ 30
        ∷ 0
        ∷ 1
        ∷ 0x40
        ∷ 0
        ∷ 64
        ∷ 17
        ∷ 0
        ∷ 0
        ∷ (replicate 8 10 ++ (9 ∷ 9 ∷ high ∷ low ∷ 0 ∷ (8 + length payload) ∷ 0 ∷ 0 ∷ payload)))

abbrev first_packet : Bytes
first_packet = packet 0xe3 0xfa (7 ∷ 8 ∷ [])

abbrev second_packet : Bytes
second_packet = packet 0xe3 0xfa (9 ∷ [])

filter_packet_lem_example :
    filter_packet first_packet
    ≡ (if is_udp4 first_packet 58362 || is_udp6 first_packet 58362 then 2 ^ 18 else 0)
filter_packet_lem_example = filter_packet_lem first_packet

wanted_first : (is_udp4 first_packet 58362 || is_udp6 first_packet 58362) ≡ true
unfolding half from_be
wanted_first = refl

-- One port off.
unwanted : (is_udp4 (packet 0xe3 0xfb []) 58362 || is_udp6 (packet 0xe3 0xfb []) 58362) ≡ false
unfolding half from_be
unwanted = refl

abbrev ring : Ring
ring = record {
  headers = λ idx. record {
    tp_status = user;
    tp_snaplen = if idx == 0 then 43 else 44;
    tp_len = 0;
    tp_mac = 66;
    tp_net = 80;
  };
  bytes = store (store (λ _. 0) (4095 * rx_frame_size + 66) first_packet) 66 second_packet;
}

abbrev polling : Polling
polling = record { ring = ring; curr_frame_idx = 4095; total_packets = 0 }

ring-AreDelivered : AreDelivered ring 4095 0 (first_packet ∷ second_packet ∷ [])
unfolding load store
ring-AreDelivered = (
  record { status = refl; snaplen = refl; net = refl; bytes = refl },
  (record { status = refl; snaplen = refl; net = refl; bytes = refl }, tt),
)

packets-ArePlain : ArePlain (first_packet ∷ second_packet ∷ [])
unfolding from_be
packets-ArePlain = (
  record {
    version_length = 0x45;
    length_field = refl;
    no_options = refl;
    headers = omega arith;
    no_padding = refl;
  },
  (
    record {
      version_length = 0x45;
      length_field = refl;
      no_options = refl;
      headers = omega arith;
      no_padding = refl;
    },
    tt,
  ),
)

poll_rounds-payloads_example :
    (s' : Polling) × (poll_rounds 2 polling ≡ some (some (7 ∷ 8 ∷ []) ∷ some (9 ∷ []) ∷ [], s'))
    × IsReturned polling s' 4095 0 2
unfolding from_be
poll_rounds-payloads_example =
    poll_rounds-payloads (first_packet ∷ second_packet ∷ []) polling (omega arith) (omega arith)
      packets-ArePlain ring-AreDelivered
