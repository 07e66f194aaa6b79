-- ===== src/Itch/Decode.antt =====
-- src/protocol/ItchParser.h: `extract_header` and the three `parse_` functions, which read the
-- packed structs of ItchOrderTypes.h out of a payload.
use marketdatabook.Common.{ℕ, ◌/◌, ◌^◌, take, drop, get_or}
use marketdatabook.Common.Bytes.{Bytes, load_le, bswap}
use marketdatabook.Itch.{Header}
use marketdatabook.Itch.{NormalizedOrder, add_order, execute_order, cancel_order}

-- The `n` bytes at an offset of the payload.
abbrev pub field : ℕ → ℕ → Bytes → Bytes
field at n payload = take n (drop at payload)

-- An integer field of `n` bytes, swapped to host order.
abbrev pub swapped : ℕ → ℕ → Bytes → ℕ
swapped at n payload = bswap n (load_le (field at n payload))

-- The six bytes of the time stamp are swapped as the low end of eight.
unfoldable pub extract_header : Bytes → Header
extract_header payload = record {
  timestamp = bswap 8 (load_le (field 5 6 payload)) / 2 ^ 16;
  order_reference_number = swapped 11 8 payload;
  stock_locate = swapped 1 2 payload;
  tracking_number = swapped 3 2 payload;
}

-- `struct AddOrder`: `stock_locate` and `tracking_number` keep the zeros of `new_order{}`.
unfoldable pub parse_add_order : Bytes → Header → NormalizedOrder
parse_add_order raw header = add_order (record {
  timestamp = header.timestamp;
  order_reference_number = header.order_reference_number;
  shares = swapped 20 4 raw;
  price = swapped 32 4 raw;
  stock_locate = 0;
  tracking_number = 0;
  stock = field 24 8 raw;
  indicator = get_or raw 19 0;
})

-- `struct OrderExecuted`
unfoldable pub parse_executed_order : Bytes → Header → NormalizedOrder
parse_executed_order raw header = execute_order (record {
  timestamp = header.timestamp;
  order_reference_number = header.order_reference_number;
  match_number = swapped 23 8 raw;
  shares = swapped 19 4 raw;
  stock_locate = header.stock_locate;
  tracking_number = header.tracking_number;
})

-- `struct CancelOrder`
unfoldable pub parse_cancel_order : Bytes → Header → NormalizedOrder
parse_cancel_order raw header = cancel_order (record {
  timestamp = header.timestamp;
  order_reference_number = header.order_reference_number;
  shares = swapped 19 4 raw;
  stock_locate = header.stock_locate;
  tracking_number = header.tracking_number;
})
