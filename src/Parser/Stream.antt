-- ===== src/Parser/Stream.antt =====
-- `parse_block` of ItchParser.h on a block that is a sequence of whole messages.
use marketdatabook.Common.{ℕ, zero, suc, ◌<◌, ◌==◌, ltb, ◌≡◌, refl, ap, ◌∙◌, sym, arith, take, drop}
use marketdatabook.Common.{Option, none, some, List, [], ◌∷◌, ◌++◌, length, false}
use marketdatabook.Common.{
  Bool-cases, inl, inr, take-append, drop-append, length-append, append_assoc, ==_iff,
}
use marketdatabook.Common.Bytes.{Bytes}
use marketdatabook.Itch.{NormalizedOrder}
use marketdatabook.Wal.{Crc}
use marketdatabook.Parser.{
  Parser, message_length, log_bytes, push_order, push_some, log_round, handle, parse_block,
}
use marketdatabook.Parser.{returned, out_of_fuel}
use marketdatabook.Parser.Messages.{Message, bytes, IsMessage, stream, decode, logged_kind}
use marketdatabook.Parser.Messages.{
  decode-append, message_length_A, message_length_E, message_length_X,
}

-- The messages are whole.
abbrev pub AreMessages : List Message → Type 0
AreMessages [] = Unit
AreMessages (m ∷ ms) = IsMessage m × AreMessages ms

length-append_not_short : (xs ys : Bytes) → ltb (length (xs ++ ys)) (length xs) ≡ false
length-append_not_short xs ys = ground (arith, length-append xs ys)

-- What may follow the last whole message: nothing, or less than a message of its type.
unfoldable pub IsTail : Bytes → Type 0
IsTail [] = Unit
IsTail (kind ∷ rest) = (len : ℕ) × (message_length kind ≡ some len) × (length (kind ∷ rest) < len)

module _ (crc : Crc) (rdtsc : ℕ → ℕ) (k : ℕ) where
  -- A message is logged, and its order is pushed where it has one.
  unfoldable pub handled : Parser → ℕ → Option NormalizedOrder → Bytes → Parser
  handled p kind order raw =
      let p' = log_bytes crc rdtsc k p raw (logged_kind kind) in
      elim order [ none ↦ p' | some o ↦ push_order crc rdtsc k p' o ]

  abbrev pub handle_message : Parser → Message → Parser
  handle_message p m = handled p m.kind (decode m.kind (bytes m)) (bytes m)

  unfoldable pub handle_messages : Parser → List Message → Parser
  handle_messages p [] = p
  handle_messages p (m ∷ ms) = handle_messages (handle_message p m) ms

  -- A round up to the push in terms of the message that it decodes.
  log_round-decode :
      (p : Parser) (kind : ℕ) (payload : Bytes) (len : ℕ)
      → message_length kind ≡ some len
      → log_round crc rdtsc k p kind payload len ≡ (
        log_bytes crc rdtsc k p (take len payload) (logged_kind kind),
        decode kind payload,
        drop len payload,
      )
  unfolding log_round decode logged_kind
  log_round-decode p kind payload len e = elim (Bool-cases (kind == b'A')) [
    | inl a ↦
        let is_A = (==_iff kind _).0 a in
        rw (is_A, message_length_A len (ap message_length (sym is_A) ∙ e))
    | inr a ↦ elim (Bool-cases (kind == b'E')) [
      | inl b ↦
          let is_E = (==_iff kind _).0 b in
          rw (is_E, message_length_E len (ap message_length (sym is_E) ∙ e))
      | inr b ↦ elim (Bool-cases (kind == b'X')) [
        | inl c ↦
            let is_X = (==_iff kind _).0 c in
            rw (is_X, message_length_X len (ap message_length (sym is_X) ∙ e))
        | inr c ↦ rw (a, b, c)
      ]
    ]
  ]

  pub log_round-message :
      (p : Parser) (m : Message) (rest : Bytes)
      → IsMessage m
      → log_round crc rdtsc k p m.kind (bytes m ++ rest) (length (bytes m))
        ≡ (log_bytes crc rdtsc k p (bytes m) (logged_kind m.kind), decode m.kind (bytes m), rest)
  log_round-message p m rest e =
      log_round-decode p m.kind (bytes m ++ rest) (length (bytes m)) e
      ∙ rw (
        decode-append m.kind (bytes m) rest e,
        take-append (bytes m) rest refl,
        drop-append (bytes m) rest refl,
      )

  pushed_handled :
      (p : Parser) (kind : ℕ) (order : Option NormalizedOrder) (raw : Bytes)
      → push_some crc rdtsc k (log_bytes crc rdtsc k p raw (logged_kind kind)) order
        ≡ handled p kind order raw
  unfolding handled
  pushed_handled p kind none raw = refl
  pushed_handled p kind (some o) raw = refl

  handle-decode :
      (p : Parser) (kind : ℕ) (payload : Bytes) (len : ℕ)
      → message_length kind ≡ some len
      → handle crc rdtsc k p kind payload len
        ≡ (handled p kind (decode kind payload) (take len payload), drop len payload)
  unfolding handle
  handle-decode p kind payload len e =
      ap (λ (t : Parser × Option NormalizedOrder × Bytes). (push_some crc rdtsc k t.0 t.1, t.2))
        (log_round-decode p kind payload len e)
      ∙ ap (λ (q : Parser). (q, drop len payload))
          (pushed_handled p kind (decode kind payload) (take len payload))

  handle-message :
      (p : Parser) (m : Message) (rest : Bytes)
      → IsMessage m
      → handle crc rdtsc k p m.kind (bytes m ++ rest) (length (bytes m))
        ≡ (handle_message p m, rest)
  handle-message p m rest e =
      handle-decode p m.kind (bytes m ++ rest) (length (bytes m)) e
      ∙ rw (
        decode-append m.kind (bytes m) rest e,
        take-append (bytes m) rest refl,
        drop-append (bytes m) rest refl,
      )

  parse_block_step :
      (fuel : ℕ) (p p' : Parser) (kind : ℕ) (rest rest' : Bytes) (len : ℕ)
      → message_length kind ≡ some len
      → ltb (length (kind ∷ rest)) len ≡ false
      → handle crc rdtsc k p kind (kind ∷ rest) len ≡ (p', rest')
      → parse_block crc rdtsc k (suc fuel) p (kind ∷ rest) ≡ parse_block crc rdtsc k fuel p' rest'
  unfolding parse_block
  parse_block_step fuel p p' kind rest rest' len e long h = ground (arith, e, long, h)

  parse_block-tail :
      (fuel : ℕ) (p : Parser) (tail : Bytes)
      → IsTail tail
      → parse_block crc rdtsc k (suc fuel) p tail ≡ returned p
  unfolding parse_block IsTail
  parse_block-tail fuel p [] t = refl
  parse_block-tail fuel p (kind ∷ rest) (len, e, short) = ground (arith, e, short)

  -- `parse_block` on whole messages, with an incomplete one behind them or none, handles the whole
  -- messages in turn and returns, given one round for each and one more.
  pub parse_block-stream :
      (ms : List Message) (tail : Bytes) (p : Parser) (fuel : ℕ)
      → AreMessages ms
      → IsTail tail
      → length ms < fuel
      → parse_block crc rdtsc k fuel p (stream ms ++ tail) ≡ returned (handle_messages p ms)
  unfolding handle_messages
  parse_block-stream ms tail p zero whole t enough = absurd (omega arith)
  parse_block-stream [] tail p (suc fuel) whole t enough = parse_block-tail fuel p tail t
  parse_block-stream (m ∷ ms) tail p (suc fuel) (e, whole) t enough =
      let rest = stream ms ++ tail in
      ap (parse_block crc rdtsc k (suc fuel) p) (append_assoc (bytes m) (stream ms) tail)
      ∙ parse_block_step fuel p (handle_message p m) m.kind (m.body ++ rest) rest (length (bytes m))
          e (length-append_not_short (bytes m) rest) (handle-message p m rest e)
      ∙ parse_block-stream ms tail (handle_message p m) fuel whole t (omega arith)

  -- At a type whose length in the table is 0, `parse_block` goes around for ever: no number of
  -- rounds ends it.
  pub parse_block_stall :
      (kind : ℕ)
      → message_length kind ≡ some 0
      → (rest : Bytes) (p : Parser) (fuel : ℕ)
      → parse_block crc rdtsc k fuel p (kind ∷ rest) ≡ out_of_fuel
  unfolding parse_block
  parse_block_stall kind e rest p zero = refl
  parse_block_stall kind e rest p (suc fuel) =
      let p' = handled p kind (decode kind (kind ∷ rest)) [] in
      parse_block_step fuel p p' kind rest (kind ∷ rest) 0 e (ground arith)
        (handle-decode p kind (kind ∷ rest) 0 e)
      ∙ parse_block_stall kind e rest p' fuel
