-- ===== src/Tests/Messages.antt =====
-- src/protocol/ItchParser.h on concrete messages.
use marketdatabook.Common.{
  ◌+◌, ◌%◌, ◌^◌, ◌<◌, ◌≡◌, refl, arith, List, [], ◌∷◌, ◌++◌, length, some, replicate,
}
use marketdatabook.Common.Bytes.{Bytes}
use marketdatabook.Itch.{NormalizedAddOrder, NormalizedCancelOrder, NormalizedOrder}
use marketdatabook.Itch.{add_order, cancel_order}
use marketdatabook.Itch.Decode.{extract_header, parse_add_order}
use marketdatabook.Itch.Wire.{wire_add, parse_add_order-wire}
use marketdatabook.Spsc
use marketdatabook.Spsc.Holds.{size}
use marketdatabook.Wal.{Crc}
use marketdatabook.Parser.{message_length, parse_block, returned, out_of_fuel}
use marketdatabook.Parser.Messages.{Message, stream, orders, decode}
use marketdatabook.Parser.Stream.{
  IsTail, AreMessages, handle_messages, parse_block-stream, parse_block_stall,
}
use marketdatabook.Recovery.EndToEnd.{start}

abbrev an_add : NormalizedAddOrder
an_add = record {
  timestamp = 3;
  order_reference_number = 7;
  shares = 100;
  price = 5000;
  stock_locate = 1;
  tracking_number = 2;
  stock = replicate 8 b'Z';
  indicator = b'B';
}

parse_add_order-wire_example :
    let raw = wire_add an_add (1 ∷ []) in
    parse_add_order raw (extract_header raw)
    ≡ add_order (record an_add { stock_locate = 0; tracking_number = 0 })
parse_add_order-wire_example = parse_add_order-wire an_add (1 ∷ []) (record {
  header = record {
    stock_locate = omega arith;
    tracking_number = omega arith;
    timestamp = omega arith;
    order_reference_number = omega arith;
  };
  shares = omega arith;
  price = omega arith;
  stock = refl;
})

abbrev a_cancellation : NormalizedCancelOrder
a_cancellation = record {
  timestamp = 3;
  order_reference_number = 7;
  shares = 100;
  stock_locate = 1;
  tracking_number = 2;
}

-- Words are summed modulo 2 ^ 32, which stands for the checksum instructions.
abbrev pub sum_crc : Crc
sum_crc = record {
  crc32_u64 = λ sum word. (sum + word) % 2 ^ 32;
  crc32_u32 = λ sum word. (sum + word) % 2 ^ 32;
}

-- An add order, a system event and a cancellation.
abbrev pub three_messages : List Message
three_messages =
    record { kind = b'A'; body = replicate 35 1 }
    ∷ record { kind = b'S'; body = replicate 11 2 }
    ∷ record { kind = b'X'; body = replicate 22 3 }
    ∷ []

pub three_messages-AreMessages : AreMessages three_messages
unfolding message_length
three_messages-AreMessages = (refl, (refl, (refl, tt)))

-- The start of an execution.
abbrev pub cut_off : Bytes
cut_off = b'E' ∷ 0 ∷ 1 ∷ []

pub cut_off-IsTail : IsTail cut_off
unfolding message_length IsTail
cut_off-IsTail = (31, refl, omega arith)

abbrev pub empty_queue : Spsc.Queue NormalizedOrder
empty_queue = Spsc.new (λ _. cancel_order a_cancellation)

pub orders_few : length (orders three_messages) < size 12
unfolding decode
orders_few = omega arith

parse_block-stream_example :
    parse_block sum_crc (λ n. n) 12 4 (start empty_queue) (stream three_messages ++ cut_off)
    ≡ returned (handle_messages sum_crc (λ n. n) 12 (start empty_queue) three_messages)
parse_block-stream_example =
    parse_block-stream sum_crc (λ n. n) 12 three_messages cut_off (start empty_queue) 4
      three_messages-AreMessages cut_off-IsTail (omega arith)

no_length : message_length b'Z' ≡ some 0
unfolding message_length
no_length = refl

parse_block_stall_example :
    parse_block sum_crc (λ n. n) 12 9 (start empty_queue) (b'Z' ∷ 1 ∷ []) ≡ out_of_fuel
parse_block_stall_example =
    parse_block_stall sum_crc (λ n. n) 12 b'Z' no_length (1 ∷ []) (start empty_queue) 9
