-- ===== src/Tests/Outbound.antt =====
-- src/network/OuchClient.h: a packet of five bytes that goes out in two parts.
use marketdatabook.Common.{◌+◌, ◌≡◌, refl, arith, [], ◌∷◌, ◌++◌, replicate, take, state}
use marketdatabook.Common.Memory.{Memory, load}
use marketdatabook.Ouch.{
  Client, new_client, handle_write, accepted, no_error, pending_write, connected,
}
use marketdatabook.Ouch.Packet.{FramedEnterOrder, packed, joined, with_packet, send_order-packed}
use marketdatabook.Common.Bytes.{store_le}
use marketdatabook.Ouch.{connect_to_server, send_order, after_send}
use marketdatabook.Ouch.Session.{
  Session, Reach, unsent, here, next, connecting_step, send_step, write_step,
}
use marketdatabook.Ouch.Session.{wire-offered}
use marketdatabook.Ouch.Drain.{write_all, IsDrained, write_all-IsDrained}
use marketdatabook.Common.{inl, inr}

-- The byte at an address is one more than the address.
abbrev memory : Memory
memory = λ at. at + 1

-- Two of the five bytes at 100 are sent.
abbrev half_sent : Client
half_sent = record {
  state = pending_write;
  pending_buffer = 102;
  pending_bytes = 3;
  wire = 101 ∷ 102 ∷ [];
}

abbrev half_session : Session
half_session = record { client = half_sent; offered = 101 ∷ 102 ∷ 103 ∷ 104 ∷ 105 ∷ [] }

half_session-Reach : Reach memory half_session
unfolding send_order connect_to_server after_send load
half_session-Reach =
    next
      (next (next here (connecting_step _ refl)) (write_step _ no_error (accepted 0) (omega arith)))
      (send_step _ 100 5 (accepted 2) (omega arith))

wire-offered_example : half_sent.wire ++ unsent memory half_sent ≡ half_session.offered
wire-offered_example = wire-offered memory half_session-Reach

write_all-IsDrained_example :
    IsDrained memory half_sent (write_all memory half_sent (1 ∷ 2 ∷ 1 ∷ []))
write_all-IsDrained_example =
    write_all-IsDrained memory (1 ∷ 2 ∷ 1 ∷ []) half_sent refl (omega arith)
      (inr (omega arith, omega arith, inr (omega arith, omega arith, inl refl))) (omega arith)

-- A client whose connection is set up.
abbrev idle_client : Client
idle_client = record new_client { state = connected }

abbrev an_order : FramedEnterOrder
an_order = record {
  soup_length = 48;
  soup_type = b'U';
  type = b'O';
  user_ref_num = 258;
  side = b'B';
  quantity = 100;
  symbol = 7;
  price = 70000;
  time_in_force = b'0';
  display = b'Y';
  capacity = b'P';
  intermarket_sweep_eligibility = b'N';
  cross_type = b'N';
  cust_order_id = replicate 14 b' ';
  appendage_len = 0;
}

-- The fields begin at their offsets, and are little-endian.
packed_start : take 8 (packed an_order) ≡ 48 ∷ 0 ∷ b'U' ∷ b'O' ∷ 2 ∷ 1 ∷ 0 ∷ 0 ∷ []
unfolding packed joined store_le
packed_start = refl

-- Twenty bytes go at once, the other thirty at the next event.
order_sent :
    let sent = with_packet memory 64 an_order refl in
    let begun = (state (send_order sent idle_client 64 50 (accepted 20))).0 in
    (state (handle_write sent begun no_error (accepted 30))).0.wire ≡ packed an_order
order_sent = (send_order-packed memory 64 an_order refl idle_client 20 refl (omega arith)).0
