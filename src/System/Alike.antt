-- ===== src/System/Alike.antt =====
-- What ItchParser.h logs does not depend on the queue: parsers with the same log write the same
-- frames.
use marketdatabook.Common.{ℕ, ◌≡◌, refl, ap, ◌∙◌, List, [], ◌∷◌, ◌++◌, Option, none, some, arith}
use marketdatabook.Common.Bytes.{Bytes}
use marketdatabook.Itch.{NormalizedOrder}
use marketdatabook.Spsc.{Queue}
use marketdatabook.Wal.{Crc}
use marketdatabook.Parser.{Parser, log_bytes}
use marketdatabook.Parser.Messages.{Message, bytes, decode, logged_kind}
use marketdatabook.Parser.Stream.{handled, handle_message, handle_messages}

-- The two parsers have the same log, and the same number for the next frame.
pub record AreAlike (p q : Parser) : Type 0 where
  pub logger : p.logger ≡ q.logger
  pub curr_seq_num : p.curr_seq_num ≡ q.curr_seq_num

abbrev with_queue : Parser → Queue NormalizedOrder → Parser
with_queue p q = record p { queue = q }

module _ (crc : Crc) (rdtsc : ℕ → ℕ) (k : ℕ) where
  log_bytes-with_queue :
      (p : Parser) (q : Queue NormalizedOrder) (raw : Bytes) (kind : ℕ)
      → log_bytes crc rdtsc k (with_queue p q) raw kind
        ≡ with_queue (log_bytes crc rdtsc k p raw kind) q
  unfolding log_bytes
  log_bytes-with_queue p q raw kind = ground arith

  log_bytes-AreAlike :
      (p p' : Parser) (raw : Bytes) (kind : ℕ)
      → AreAlike p p'
      → AreAlike (log_bytes crc rdtsc k p raw kind) (log_bytes crc rdtsc k p' raw kind)
  log_bytes-AreAlike p p' raw kind v =
      let same : p ≡ with_queue p' p.queue =
        λ i. record { queue = p.queue; logger = v.logger i; curr_seq_num = v.curr_seq_num i } in
      let run =
        ap (λ x. log_bytes crc rdtsc k x raw kind) same
        ∙ log_bytes-with_queue p' p.queue raw kind in
      record {
        logger = ap (λ (x : Parser). x.logger) run;
        curr_seq_num = ap (λ (x : Parser). x.curr_seq_num) run;
      }

  handled-log :
      (p : Parser) (kind : ℕ) (order : Option NormalizedOrder) (raw : Bytes)
      → AreAlike
          (log_bytes crc rdtsc k p raw (logged_kind kind))
          (handled crc rdtsc k p kind order raw)
  unfolding handled
  handled-log p kind none raw = record { logger = refl; curr_seq_num = refl }
  handled-log p kind (some o) raw = record { logger = refl; curr_seq_num = refl }

  pub handle_messages-append :
      (ms ns : List Message) (p : Parser)
      → handle_messages crc rdtsc k p (ms ++ ns)
        ≡ handle_messages crc rdtsc k (handle_messages crc rdtsc k p ms) ns
  unfolding handle_messages
  handle_messages-append [] ns p = refl
  handle_messages-append (m ∷ ms) ns p =
      handle_messages-append ms ns (handle_message crc rdtsc k p m)

  -- A message that is logged, and not pushed yet, leaves the log that handling it leaves.
  pub log_bytes-handled :
      (p start : Parser) (ms : List Message) (m : Message)
      → AreAlike p (handle_messages crc rdtsc k start ms)
      → AreAlike
          (log_bytes crc rdtsc k p (bytes m) (logged_kind m.kind))
          (handle_messages crc rdtsc k start (ms ++ m ∷ []))
  unfolding handle_messages
  log_bytes-handled p start ms m v =
      let q = handle_messages crc rdtsc k start ms in
      let l = log_bytes-AreAlike p q (bytes m) (logged_kind m.kind) v in
      let h = handled-log q m.kind (decode m.kind (bytes m)) (bytes m) in
      rw (handle_messages-append ms (m ∷ []) start, handle_messages)
        (record { logger = l.logger ∙ h.logger; curr_seq_num = l.curr_seq_num ∙ h.curr_seq_num })
