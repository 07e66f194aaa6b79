-- ===== src/Itch/Wire.antt =====
-- The messages of the ITCH specification as bytes, and that the parser of ItchParser.h reads them
-- back.
use marketdatabook.Common.{ℕ, ◌/◌, ◌^◌, ◌<◌, ◌≡◌, ap, sym, ◌∙◌, arith, ◌∷◌, ◌++◌}
use marketdatabook.Common.{length, take, take-append, drop-append}
use marketdatabook.Common.Bytes.{Bytes, load_le, bswap, to_be, to_be-AreBytes}
use marketdatabook.Common.Bytes.{length-to_be, bswap-load_le, from_be-to_be}
use marketdatabook.Itch.{Header, NormalizedAddOrder, NormalizedOrderExecuted, NormalizedCancelOrder}
use marketdatabook.Itch.{add_order, execute_order, cancel_order}
use marketdatabook.Itch.Decode.{extract_header, parse_add_order}
use marketdatabook.Itch.Decode.{parse_executed_order, parse_cancel_order}

-- The fields that all messages begin with.
abbrev pub wire_header : ℕ → Header → Bytes → Bytes
wire_header kind h rest =
    kind ∷ to_be 2 h.stock_locate
    ++ (to_be 2 h.tracking_number
        ++ (to_be 6 h.timestamp ++ (to_be 8 h.order_reference_number ++ rest)))

-- The header's numbers fit their fields.
pub record FitsHeader (h : Header) : Type 0 where
  pub stock_locate : h.stock_locate < 256 ^ 2
  pub tracking_number : h.tracking_number < 256 ^ 2
  pub timestamp : h.timestamp < 256 ^ 6
  pub order_reference_number : h.order_reference_number < 256 ^ 8

pub swapped_be : (n x : ℕ) → x < 256 ^ n → bswap n (load_le (to_be n x)) ≡ x
swapped_be n x h =
    ap (λ (k : ℕ). bswap k (load_le (to_be n x))) (sym (length-to_be n x))
    ∙ bswap-load_le (to_be n x) (to_be-AreBytes n x)
    ∙ from_be-to_be n x h

-- The time stamp takes six of eight bytes.
timestamp_be : (x : ℕ) → x < 256 ^ 6 → bswap 8 (load_le (to_be 6 x)) / 2 ^ 16 ≡ x
unfolding bswap load_le to_be
timestamp_be x h = omega arith

extract_header-wire :
    (kind : ℕ) (h : Header) (rest : Bytes)
    → FitsHeader h
    → extract_header (wire_header kind h rest) ≡ h
unfolding extract_header to_be
extract_header-wire kind h rest f = λ i. record {
  timestamp = timestamp_be h.timestamp f.timestamp i;
  order_reference_number = swapped_be 8 h.order_reference_number f.order_reference_number i;
  stock_locate = swapped_be 2 h.stock_locate f.stock_locate i;
  tracking_number = swapped_be 2 h.tracking_number f.tracking_number i;
}

abbrev pub add_header : NormalizedAddOrder → Header
add_header o = record {
  timestamp = o.timestamp;
  order_reference_number = o.order_reference_number;
  stock_locate = o.stock_locate;
  tracking_number = o.tracking_number;
}

abbrev pub executed_header : NormalizedOrderExecuted → Header
executed_header o = record {
  timestamp = o.timestamp;
  order_reference_number = o.order_reference_number;
  stock_locate = o.stock_locate;
  tracking_number = o.tracking_number;
}

abbrev pub cancel_header : NormalizedCancelOrder → Header
cancel_header o = record {
  timestamp = o.timestamp;
  order_reference_number = o.order_reference_number;
  stock_locate = o.stock_locate;
  tracking_number = o.tracking_number;
}

-- The three messages, followed by more bytes.
unfoldable pub wire_add : NormalizedAddOrder → Bytes → Bytes
wire_add o rest =
    wire_header b'A' (add_header o)
      (o.indicator ∷ to_be 4 o.shares ++ (o.stock ++ (to_be 4 o.price ++ rest)))

unfoldable pub wire_executed : NormalizedOrderExecuted → Bytes → Bytes
wire_executed o rest =
    wire_header b'E' (executed_header o) (to_be 4 o.shares ++ (to_be 8 o.match_number ++ rest))

unfoldable pub wire_cancel : NormalizedCancelOrder → Bytes → Bytes
wire_cancel o rest = wire_header b'X' (cancel_header o) (to_be 4 o.shares ++ rest)

pub record FitsAdd (o : NormalizedAddOrder) : Type 0 where
  pub header : FitsHeader (add_header o)
  pub shares : o.shares < 256 ^ 4
  pub price : o.price < 256 ^ 4
  pub stock : length o.stock ≡ 8

pub record FitsExecuted (o : NormalizedOrderExecuted) : Type 0 where
  pub header : FitsHeader (executed_header o)
  pub shares : o.shares < 256 ^ 4
  pub match_number : o.match_number < 256 ^ 8

pub record FitsCancel (o : NormalizedCancelOrder) : Type 0 where
  pub header : FitsHeader (cancel_header o)
  pub shares : o.shares < 256 ^ 4

-- An add order that was put on the wire is parsed to itself, whatever follows it, but for the
-- stock locate and the tracking number, which the parser leaves zero.
pub parse_add_order-wire :
    (o : NormalizedAddOrder) (rest : Bytes)
    → FitsAdd o
    → let raw = wire_add o rest in
      parse_add_order raw (extract_header raw)
      ≡ add_order (record o { stock_locate = 0; tracking_number = 0 })
unfolding wire_add parse_add_order to_be
parse_add_order-wire o rest f =
    let body = o.indicator ∷ to_be 4 o.shares ++ (o.stock ++ (to_be 4 o.price ++ rest)) in
    let h = extract_header-wire b'A' (add_header o) body f.header in
    let after_stock = drop-append o.stock (to_be 4 o.price ++ rest) f.stock in
    let price =
      ap (λ (t : Bytes). bswap 4 (load_le (take 4 t))) after_stock ∙ swapped_be 4 o.price f.price in
    λ i. add_order (record {
      timestamp = (h i).timestamp;
      order_reference_number = (h i).order_reference_number;
      shares = swapped_be 4 o.shares f.shares i;
      price = price i;
      stock_locate = 0;
      tracking_number = 0;
      stock = take-append o.stock (to_be 4 o.price ++ rest) f.stock i;
      indicator = o.indicator;
    })

-- An execution is parsed to itself.
pub parse_executed_order-wire :
    (o : NormalizedOrderExecuted) (rest : Bytes)
    → FitsExecuted o
    → let raw = wire_executed o rest in
      parse_executed_order raw (extract_header raw) ≡ execute_order o
unfolding wire_executed parse_executed_order to_be
parse_executed_order-wire o rest f =
    let body = to_be 4 o.shares ++ (to_be 8 o.match_number ++ rest) in
    let h = extract_header-wire b'E' (executed_header o) body f.header in
    λ i. execute_order (record {
      timestamp = (h i).timestamp;
      order_reference_number = (h i).order_reference_number;
      match_number = swapped_be 8 o.match_number f.match_number i;
      shares = swapped_be 4 o.shares f.shares i;
      stock_locate = (h i).stock_locate;
      tracking_number = (h i).tracking_number;
    })

-- A cancellation is parsed to itself.
pub parse_cancel_order-wire :
    (o : NormalizedCancelOrder) (rest : Bytes)
    → FitsCancel o
    → let raw = wire_cancel o rest in parse_cancel_order raw (extract_header raw) ≡ cancel_order o
unfolding wire_cancel parse_cancel_order to_be
parse_cancel_order-wire o rest f =
    let body = to_be 4 o.shares ++ rest in
    let h = extract_header-wire b'X' (cancel_header o) body f.header in
    λ i. cancel_order (record {
      timestamp = (h i).timestamp;
      order_reference_number = (h i).order_reference_number;
      shares = swapped_be 4 o.shares f.shares i;
      stock_locate = (h i).stock_locate;
      tracking_number = (h i).tracking_number;
    })
