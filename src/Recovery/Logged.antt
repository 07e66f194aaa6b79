-- ===== src/Recovery/Logged.antt =====
-- The frames that `parse_block` of ItchParser.h leaves in the log.
use marketdatabook.Common.{ℕ, ◌+◌, ◌*◌, ◌%◌, ◌^◌, ◌<◌, ◌≤◌, ◌≡◌, refl, sym, ap, ◌∙◌}
use marketdatabook.Common.{arith, List, [], ◌∷◌, length, ◌⊎◌, inl, inr, Option, none, some}
use marketdatabook.Common.Bytes.{Bytes}
use marketdatabook.Common.Memory.{Memory}
use marketdatabook.Itch.{NormalizedOrder}
use marketdatabook.Wal.{
  Crc, Logger, frame_size, payload_size, file_size, write_frame, reserve_frame,
}
use marketdatabook.Parser.{Parser, log_bytes}
use marketdatabook.Parser.Messages.{Message, bytes, decode, logged_kind}
use marketdatabook.Parser.Stream.{handled, handle_message, handle_messages}
use marketdatabook.Recovery.Frames.{
  IsFrame, IsFrame-congr, write_frame-IsFrame, write_frame_outside,
}

-- From an address on, the log has one complete frame for each message, and then the byte 0.
unfoldable pub Logged : Crc → Memory → ℕ → ℕ → List Message → Type 0
Logged crc m at seq [] = m at ≡ 0
Logged crc m at seq (x ∷ xs) =
    IsFrame crc m at (logged_kind x.kind) (seq % 2 ^ 32) (bytes x)
    × Logged crc m (at + frame_size) ((seq + 1) % 2 ^ 64) xs

Logged-at :
    (crc : Crc) (ms : List Message) (m : Memory) {at at' seq seq' : ℕ}
    → at ≡ at'
    → seq ≡ seq'
    → Logged crc m at seq ms
    → Logged crc m at' seq' ms
Logged-at crc ms m e f l = rw (← e, ← f) l

-- The messages fit the payload of a frame.
unfoldable pub AreSmall : List Message → Type 0
AreSmall [] = Unit
AreSmall (m ∷ ms) = (length (bytes m) ≤ payload_size) × AreSmall ms

-- Nothing is written from an address on.
abbrev pub IsBlankFrom : Memory → ℕ → Type 0
IsBlankFrom m at = (j : ℕ) → at ≤ j → m j ≡ 0

reserve_frame-room :
    (l : Logger)
    → l.curr + frame_size ≤ file_size
    → reserve_frame l ≡ (record l { curr = l.curr + frame_size }, some l.curr)
unfolding reserve_frame
reserve_frame-room l room = ground arith

module _ (crc : Crc) (rdtsc : ℕ → ℕ) (k : ℕ) where
  -- The memory after a frame for these bytes.
  abbrev framed : Parser → ℕ → Bytes → Memory
  framed p kind raw =
      write_frame crc p.logger.memory p.logger.curr kind p.curr_seq_num (rdtsc p.curr_seq_num) raw

  record IsLogged (p p' : Parser) (kind : ℕ) (raw : Bytes) : Type 0 where
    memory : p'.logger.memory ≡ framed p kind raw
    curr : p'.logger.curr ≡ p.logger.curr + frame_size
    seq : p'.curr_seq_num ≡ (p.curr_seq_num + 1) % 2 ^ 64

  log_bytes-IsLogged :
      (p : Parser) (kind : ℕ) (raw : Bytes)
      → p.logger.curr + frame_size ≤ file_size
      → IsLogged p (log_bytes crc rdtsc k p raw kind) kind raw
  unfolding log_bytes
  log_bytes-IsLogged p kind raw room =
      let e = reserve_frame-room p.logger room in
      let seq = p.curr_seq_num in
      rw (log_bytes, e)
        (record {
          memory =
              ap
                (λ (r : Logger × Option ℕ).
                  write_frame crc r.0.memory p.logger.curr kind seq (rdtsc seq) raw)
                e;
          curr = ap (λ (r : Logger × Option ℕ). r.0.curr) e;
          seq = refl;
        })

  handled-IsLogged :
      (p : Parser) (kind : ℕ) (order : Option NormalizedOrder) (raw : Bytes)
      → p.logger.curr + frame_size ≤ file_size
      → IsLogged p (handled crc rdtsc k p kind order raw) (logged_kind kind) raw
  unfolding handled
  handled-IsLogged p kind none raw room = log_bytes-IsLogged p (logged_kind kind) raw room
  handled-IsLogged p kind (some o) raw room =
      let l = log_bytes-IsLogged p (logged_kind kind) raw room in
      record { memory = l.memory; curr = l.curr; seq = l.seq }

  -- The memory at the end has the old frames, and one more for each message.
  pub record Extends (p : Parser) (m : Memory) (ms : List Message) : Type 0 where
    pub old : (j : ℕ) → j < p.logger.curr → m j ≡ p.logger.memory j
    pub logged : Logged crc m p.logger.curr p.curr_seq_num ms

  -- Handling messages that fit a frame, on a log that is blank from its end on and has room for
  -- them, keeps the bytes before that end and adds one complete frame for each, followed by the
  -- byte 0.
  pub handle_messages-Extends :
      (ms : List Message) (p : Parser)
      → AreSmall ms
      → IsBlankFrom p.logger.memory p.logger.curr
      → p.logger.curr + frame_size * length ms ≤ file_size
      → Extends p (handle_messages crc rdtsc k p ms).logger.memory ms
  unfolding handle_messages Logged AreSmall
  handle_messages-Extends [] p small blank room = record {
    old = λ j h. refl;
    logged = blank p.logger.curr (omega arith);
  }
  handle_messages-Extends (x ∷ ms) p (fits, small) blank room =
      let p' = handle_message crc rdtsc k p x in
      let at = p.logger.curr in
      let kind = logged_kind x.kind in
      let seq = p.curr_seq_num in
      let l = handled-IsLogged p x.kind (decode x.kind (bytes x)) (bytes x) (omega arith) in
      let outside : (j : ℕ)
          → (j < at) ⊎ (at + frame_size ≤ j)
          → p'.logger.memory j ≡ p.logger.memory j =
        λ j out.
          ap (λ (m : Memory). m j) l.memory
          ∙ write_frame_outside crc p.logger.memory at kind seq (rdtsc seq) (bytes x) fits j out in
      let next : p'.logger.curr ≡ at + frame_size = l.curr in
      let rest =
        handle_messages-Extends ms p' small
          (λ j h. outside j (inr (omega (arith, next))) ∙ blank j (omega (arith, next)))
          (omega (arith, next)) in
      let frame : IsFrame crc p'.logger.memory at kind (seq % 2 ^ 32) (bytes x) =
        rw (l.memory)
          (write_frame-IsFrame crc p.logger.memory at kind seq (rdtsc seq) (bytes x) fits) in
      record {
        old = λ j h. rest.old j (omega (arith, next)) ∙ outside j (inl h);
        logged = (
          IsFrame-congr crc fits (λ j lo hi. sym (rest.old j (omega (arith, next)))) frame,
          Logged-at crc ms _ next l.seq rest.logged,
        );
      }

  -- Each message moves the end of the log by a frame.
  pub handle_messages-curr :
      (ms : List Message) (p : Parser)
      → p.logger.curr + frame_size * length ms ≤ file_size
      → (handle_messages crc rdtsc k p ms).logger.curr ≡ p.logger.curr + frame_size * length ms
  unfolding handle_messages
  handle_messages-curr [] p room = omega arith
  handle_messages-curr (x ∷ ms) p room =
      let l = handled-IsLogged p x.kind (decode x.kind (bytes x)) (bytes x) (omega arith) in
      let next : (handle_message crc rdtsc k p x).logger.curr ≡ p.logger.curr + frame_size =
        l.curr in
      omega (
        arith,
        next,
        handle_messages-curr ms (handle_message crc rdtsc k p x) (omega (arith, next)),
      )
