-- ===== src/Parser/Messages.antt =====
-- The messages of a block, and what ItchParser.h does with one of them.
use marketdatabook.Common.{ℕ, ◌==◌, ◌≡◌, ap, ◌∙◌, sym, arith, if◌then◌else◌}
use marketdatabook.Common.{Option, none, some, List, [], ◌∷◌, ◌++◌, length, ◌||◌}
use marketdatabook.Common.{Bool-cases, inl, inr, ==_iff}
use marketdatabook.Common.Bytes.{Bytes}
use marketdatabook.Itch.{NormalizedOrder}
use marketdatabook.Itch.Decode.{extract_header, parse_add_order, parse_executed_order}
use marketdatabook.Itch.Decode.{parse_cancel_order}
use marketdatabook.Itch.Prefix.{extract_header-append, parse_add_order-append}
use marketdatabook.Itch.Prefix.{parse_executed_order-append, parse_cancel_order-append}
use marketdatabook.Parser.{message_length}

-- A message: its type and the bytes after it.
pub record Message : Type 0 where
  pub kind : ℕ
  pub body : Bytes

abbrev pub bytes : Message → Bytes
bytes m = m.kind ∷ m.body

-- The message has the length that the table gives for its type.
abbrev pub IsMessage : Message → Type 0
IsMessage m = message_length m.kind ≡ some (length (bytes m))

abbrev pub stream : List Message → Bytes
stream [] = []
stream (m ∷ ms) = bytes m ++ stream ms

-- The order of a message, read from its bytes, for the three types that have one.
unfoldable pub decode : ℕ → Bytes → Option NormalizedOrder
decode kind raw =
    if kind == b'A'
    then some (parse_add_order raw (extract_header raw))
    else (if kind == b'E'
        then some (parse_executed_order raw (extract_header raw))
        else (if kind == b'X' then some (parse_cancel_order raw (extract_header raw)) else none))

-- The type under which a message is logged.
unfoldable pub logged_kind : ℕ → ℕ
logged_kind kind = if kind == b'A' || kind == b'E' || kind == b'X' then kind else b'-'

abbrev pub orders : List Message → List NormalizedOrder
orders [] = []
orders (m ∷ ms) = elim (decode m.kind (bytes m)) [ none ↦ orders ms | some o ↦ o ∷ orders ms ]

-- The length of a message with an order.
pub message_length_A : (n : ℕ) → message_length b'A' ≡ some n → n ≡ 36
unfolding message_length
message_length_A n e = ground (arith, e)

pub message_length_E : (n : ℕ) → message_length b'E' ≡ some n → n ≡ 31
unfolding message_length
message_length_E n e = ground (arith, e)

pub message_length_X : (n : ℕ) → message_length b'X' ≡ some n → n ≡ 23
unfolding message_length
message_length_X n e = ground (arith, e)

-- A message is decoded from the bytes of its length, whatever follows them.
pub decode-append :
    (kind : ℕ) (raw ys : Bytes)
    → message_length kind ≡ some (length raw)
    → decode kind (raw ++ ys) ≡ decode kind raw
unfolding decode
decode-append kind raw ys e = elim (Bool-cases (kind == b'A')) [
  | inl a ↦
      let n = message_length_A (length raw) (ap message_length (sym ((==_iff _ _).0 a)) ∙ e) in
      rw (
        a,
        extract_header-append raw ys (omega arith),
        parse_add_order-append raw ys (extract_header raw) (omega arith),
      )
  | inr a ↦ elim (Bool-cases (kind == b'E')) [
    | inl b ↦
        let n = message_length_E (length raw) (ap message_length (sym ((==_iff _ _).0 b)) ∙ e) in
        rw (
          a,
          b,
          extract_header-append raw ys (omega arith),
          parse_executed_order-append raw ys (extract_header raw) (omega arith),
        )
    | inr b ↦ elim (Bool-cases (kind == b'X')) [
      | inl c ↦
          let n = message_length_X (length raw) (ap message_length (sym ((==_iff _ _).0 c)) ∙ e) in
          rw (
            a,
            b,
            c,
            extract_header-append raw ys (omega arith),
            parse_cancel_order-append raw ys (extract_header raw) (omega arith),
          )
      | inr c ↦ rw (a, b, c)
    ]
  ]
]
