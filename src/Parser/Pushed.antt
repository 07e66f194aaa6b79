-- ===== src/Parser/Pushed.antt =====
-- The orders that `parse_block` of ItchParser.h pushes into the queue.
use marketdatabook.Common.{
  ℕ, ◌+◌, ◌-◌, ◌<◌, ◌≡◌, refl, ap, ◌∙◌, arith, List, [], ◌∷◌, ◌++◌, length, ltb, true,
}
use marketdatabook.Common.{Option, none, some, append_assoc, append-nil, length-append}
use marketdatabook.Common.Bytes.{Bytes}
use marketdatabook.Itch.{NormalizedOrder}
use marketdatabook.Spsc.Holds.{Holds, size}
use marketdatabook.Spsc.Calls.{push-Agrees}
use marketdatabook.Wal.{Crc, reserve_frame}
use marketdatabook.Parser.{Parser, log_bytes}
use marketdatabook.Parser.Messages.{Message, bytes, decode, logged_kind, orders}
use marketdatabook.Parser.Stream.{handled, handle_message, handle_messages}

module _ (crc : Crc) (rdtsc : ℕ → ℕ) (k : ℕ) where
  pub log_bytes-queue :
      (p : Parser) (raw : Bytes) (kind : ℕ) → (log_bytes crc rdtsc k p raw kind).queue ≡ p.queue
  unfolding log_bytes reserve_frame
  log_bytes-queue p raw kind = ground arith

module _ (crc : Crc) (rdtsc : ℕ → ℕ) (k : ℕ) (fits : k < 64) where
  -- The orders of one message.
  abbrev order_list : Option NormalizedOrder → List NormalizedOrder
  order_list none = []
  order_list (some o) = o ∷ []

  orders_split :
      (order : Option NormalizedOrder) (os : List NormalizedOrder)
      → elim order [ none ↦ os | some o ↦ o ∷ os ] ≡ order_list order ++ os
  orders_split none os = refl
  orders_split (some o) os = refl

  handled-Holds :
      (p : Parser) (kind : ℕ) (order : Option NormalizedOrder) (raw : Bytes)
      (xs : List NormalizedOrder)
      → Holds k p.queue xs
      → length xs + length (order_list order) < size k
      → Holds k (handled crc rdtsc k p kind order raw).queue (xs ++ order_list order)
  unfolding handled
  handled-Holds p kind none raw xs h room =
      rw (log_bytes-queue crc rdtsc k p raw (logged_kind kind), append-nil xs) h
  handled-Holds p kind (some o) raw xs h room =
      let free : ltb (length xs) (size k - 1) ≡ true = ground arith in
      rw (log_bytes-queue crc rdtsc k p raw (logged_kind kind))
        (rw (free) at ((push-Agrees fits o h).0))

  -- The queue holds the orders of the messages behind what it held, where there is room for them,
  -- for k < 64.
  pub handle_messages-Holds :
      (ms : List Message) (p : Parser) (xs : List NormalizedOrder)
      → Holds k p.queue xs
      → length xs + length (orders ms) < size k
      → Holds k (handle_messages crc rdtsc k p ms).queue (xs ++ orders ms)
  unfolding handle_messages
  handle_messages-Holds [] p xs h room = rw (append-nil xs) h
  handle_messages-Holds (m ∷ ms) p xs h room =
      let order = decode m.kind (bytes m) in
      let here = order_list order in
      let split : orders (m ∷ ms) ≡ here ++ orders ms = orders_split order (orders ms) in
      let count : length (orders (m ∷ ms)) ≡ length here + length (orders ms) =
        ap length split ∙ length-append here (orders ms) in
      let total : length (xs ++ here) ≡ length xs + length here = length-append xs here in
      let first = handled-Holds p m.kind order (bytes m) xs h (omega (arith, count)) in
      let rest =
        handle_messages-Holds ms (handle_message crc rdtsc k p m) (xs ++ here) first
          (omega (arith, count, total)) in
      rw (split) (rw (append_assoc xs here (orders ms)) at rest)
