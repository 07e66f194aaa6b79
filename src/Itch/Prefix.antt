-- ===== src/Itch/Prefix.antt =====
-- The readers of ItchParser.h look at the bytes of their message alone, not at what follows.
use marketdatabook.Common.{
  ℕ, zero, suc, ◌+◌, ◌≤◌, ◌<◌, ◌/◌, ◌^◌, ◌≡◌, refl, ap, arith, [], ◌∷◌, ◌++◌,
}
use marketdatabook.Common.{length, take, get_or}
use marketdatabook.Common.Bytes.{Bytes, load_le, bswap}
use marketdatabook.Itch.{Header, add_order, execute_order, cancel_order}
use marketdatabook.Itch.Decode.{field, swapped, extract_header, parse_add_order}
use marketdatabook.Itch.Decode.{parse_executed_order, parse_cancel_order}

take-append_le : (n : ℕ) (xs ys : Bytes) → n ≤ length xs → take n (xs ++ ys) ≡ take n xs
take-append_le zero xs ys h = refl
take-append_le (suc n) [] ys h = absurd (omega arith)
take-append_le (suc n) (x ∷ xs) ys h = ap (λ t. x ∷ t) (take-append_le n xs ys (omega arith))

pub field-append :
    (at n : ℕ) (xs ys : Bytes) → at + n ≤ length xs → field at n (xs ++ ys) ≡ field at n xs
field-append zero n xs ys h = take-append_le n xs ys (omega arith)
field-append (suc at) zero [] ys h = absurd (omega arith)
field-append (suc at) (suc n) [] ys h = absurd (omega arith)
field-append (suc at) n (x ∷ xs) ys h = field-append at n xs ys (omega arith)

get_or-append : (i : ℕ) (xs ys : Bytes) → i < length xs → get_or (xs ++ ys) i 0 ≡ get_or xs i 0
get_or-append i [] ys h = absurd (omega arith)
get_or-append zero (x ∷ xs) ys h = refl
get_or-append (suc i) (x ∷ xs) ys h = get_or-append i xs ys (omega arith)

module _ (xs ys : Bytes) where
  same : (at n : ℕ) → at + n ≤ length xs → swapped at n (xs ++ ys) ≡ swapped at n xs
  same at n h = ap (λ (f : Bytes). bswap n (load_le f)) (field-append at n xs ys h)

  pub extract_header-append : 19 ≤ length xs → extract_header (xs ++ ys) ≡ extract_header xs
  unfolding extract_header
  extract_header-append h = λ i. record {
    timestamp = bswap 8 (load_le (field-append 5 6 xs ys (omega arith) i)) / 2 ^ 16;
    order_reference_number = same 11 8 (omega arith) i;
    stock_locate = same 1 2 (omega arith) i;
    tracking_number = same 3 2 (omega arith) i;
  }

  pub parse_add_order-append :
      (header : Header)
      → 36 ≤ length xs
      → parse_add_order (xs ++ ys) header ≡ parse_add_order xs header
  unfolding parse_add_order
  parse_add_order-append header h = λ i. add_order (record {
    timestamp = header.timestamp;
    order_reference_number = header.order_reference_number;
    shares = same 20 4 (omega arith) i;
    price = same 32 4 (omega arith) i;
    stock_locate = 0;
    tracking_number = 0;
    stock = field-append 24 8 xs ys (omega arith) i;
    indicator = get_or-append 19 xs ys (omega arith) i;
  })

  pub parse_executed_order-append :
      (header : Header)
      → 31 ≤ length xs
      → parse_executed_order (xs ++ ys) header ≡ parse_executed_order xs header
  unfolding parse_executed_order
  parse_executed_order-append header h = λ i. execute_order (record {
    timestamp = header.timestamp;
    order_reference_number = header.order_reference_number;
    match_number = same 23 8 (omega arith) i;
    shares = same 19 4 (omega arith) i;
    stock_locate = header.stock_locate;
    tracking_number = header.tracking_number;
  })

  pub parse_cancel_order-append :
      (header : Header)
      → 23 ≤ length xs
      → parse_cancel_order (xs ++ ys) header ≡ parse_cancel_order xs header
  unfolding parse_cancel_order
  parse_cancel_order-append header h = λ i. cancel_order (record {
    timestamp = header.timestamp;
    order_reference_number = header.order_reference_number;
    shares = same 19 4 (omega arith) i;
    stock_locate = header.stock_locate;
    tracking_number = header.tracking_number;
  })
