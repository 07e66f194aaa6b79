-- ===== src/System/Parsing.antt =====
-- The steps of the parser in `run_mock_mode` of src/main.cpp keep what holds in every state.
use marketdatabook.Common.{
  ℕ, ◌+◌, ◌≡◌, refl, sym, ap, ◌∙◌, arith, List, [], ◌∷◌, ◌++◌, length, Array, some, true,
}
use marketdatabook.Common.{append_assoc, append-nil, length-snoc}
use marketdatabook.Common.Bytes.{Bytes}
use marketdatabook.Itch.{NormalizedOrder}
use marketdatabook.Book.{Book}
use marketdatabook.Multicast.Ring
use marketdatabook.Multicast.Ring.{Poller, frame_payload, parse_current}
use marketdatabook.Multicast.Ring.Safety.{parsed_lem}
use marketdatabook.Parser.{message_length, log_bytes, log_round, push_order}
use marketdatabook.Parser.Messages.{Message, bytes, decode, logged_kind, stream, orders}
use marketdatabook.Parser.Stream.{AreMessages, log_round-message}
use marketdatabook.Recovery.EndToEnd.{start}
use marketdatabook.Spsc
use marketdatabook.Wal.{Crc}
use marketdatabook.System.{
  System, queue_bits, idle, at_round, pushing, after_log, ends_block, logged,
}
use marketdatabook.System.Blocks.{
  all, all-snoc, blocks_of-snoc, next_parsed, whole_block, AreMessages-append, seen, seen-snoc,
  orders-seen, cut-next, ends_block-nil, after_log-knows, busy, busy-after_log,
}
use marketdatabook.System.Kept.{with_order, log_bytes-IsKept, push_order-IsKept}
use marketdatabook.System.Alike.{log_bytes-handled}
use marketdatabook.System.Running.{IsFile, IsRunning, queue_fits}

next_message :
    (left : List Message) {kind : ℕ} {rest : Bytes}
    → kind ∷ rest ≡ stream left
    → (m : Message) × (more : List Message) × (left ≡ m ∷ more)
next_message [] e = absurd (cc)
next_message (m ∷ more) e = (m, more, refl)

module _ (header_size : ℕ) (crc : Crc) (rdtsc : ℕ → ℕ) where
  -- The messages of the block after those that were parsed are whole.
  pub block-AreMessages :
      {file : List (List Message)} (good : IsFile header_size crc rdtsc file)
      (so_far : List (List Message)) (ms : List Message) {later more : List (List Message)}
      → file ≡ so_far ++ later
      → later ≡ ms ∷ more
      → AreMessages ms
  block-AreMessages good so_far ms {later} {more} cut first =
      whole_block so_far ms more (rw (cut-next so_far ms cut first) at good.whole)

  module _ {file : List (List Message)} {slots : Array NormalizedOrder} {b : Book}
      (good : IsFile header_size crc rdtsc file) where
    -- The frame that is about to be parsed has the next block of the file.
    pub parsing-block :
        {s : System} {n : ℕ} (v : IsRunning header_size crc rdtsc file slots b s n)
        → s.frames.poller ≡ Poller.parsing
        → (ms : List Message) × (more : List (List Message)) × (v.later ≡ ms ∷ more)
          × (frame_payload s.frames.ring s.frames.curr_frame_idx ≡ stream ms)
    parsing-block {s} v parsing =
        let ring = Ring.next v.ring (Ring.parse s.frames parsing) in
        let (ahead, e) = parsed_lem header_size good.fit ring in
        next_parsed v.so_far v.later (frame_payload s.frames.ring s.frames.curr_frame_idx) ahead
          (rw (v.cut, v.parsed) at e)

    pub begin-IsRunning :
        (s : System) {n : ℕ}
        → s.frames.poller ≡ Poller.parsing
        → s.call ≡ idle
        → IsRunning header_size crc rdtsc file slots b s n
        → IsRunning header_size crc rdtsc file slots b
            (record s { call = at_round (frame_payload s.frames.ring s.frames.curr_frame_idx) })
            (n + 1)
    begin-IsRunning s {n} parsing not_yet v =
        let (ms, more, first, payload) = parsing-block v parsing in
        let (none_logged, all_pushed) = rw (not_yet) at v.call in
        record {
          ring = v.ring;
          so_far = v.so_far;
          later = v.later;
          part = v.part;
          pushed = v.pushed;
          cut = v.cut;
          parsed = v.parsed;
          call = (
            record {
              parsing = parsing;
              left = ms;
              more = more;
              first = rw (none_logged) first;
              ahead = payload;
            },
            all_pushed,
          );
          kept = v.kept;
          alike = v.alike;
          ran = v.ran;
          counted = omega (arith, v.counted, ap busy not_yet);
        }

    -- A message that is next in its block is logged.
    logged-IsRunning :
        (s : System) {n : ℕ} (v : IsRunning header_size crc rdtsc file slots b s n) (m : Message)
        (left : List Message) (more : List (List Message))
        → s.frames.poller ≡ Poller.parsing
        → v.later ≡ (v.part ++ m ∷ left) ∷ more
        → v.pushed ≡ orders (seen v.so_far v.part)
        → busy s.call ≡ 1
        → IsRunning header_size crc rdtsc file slots b
            (record s {
              parser = log_bytes crc rdtsc queue_bits s.parser (bytes m) (logged_kind m.kind);
              call = after_log (decode m.kind (bytes m)) (stream left);
            })
            (n + 1)
    logged-IsRunning s {n} v m left more parsing first all_pushed in_block =
        let order = decode m.kind (bytes m) in
        record {
          ring = v.ring;
          so_far = v.so_far;
          later = v.later;
          part = v.part ++ m ∷ [];
          pushed = v.pushed;
          cut = v.cut;
          parsed = v.parsed;
          call =
              after_log-knows order v.so_far v.pushed
                (record {
                  parsing = parsing;
                  left = left;
                  more = more;
                  first =
                      first
                      ∙ ap (λ (t : List Message). t ∷ more)
                          (sym (append_assoc v.part (m ∷ []) left));
                  ahead = refl;
                })
                (ap (λ t. with_order t order) all_pushed ∙ sym (orders-seen v.so_far v.part m));
          kept =
              log_bytes-IsKept crc rdtsc queue_bits queue_fits s.parser (bytes m)
                (logged_kind m.kind) s.consumed v.pushed v.kept;
          alike = rw (seen-snoc v.so_far v.part m) (
              log_bytes-handled crc rdtsc queue_bits s.parser (start (Spsc.new slots))
                (seen v.so_far v.part) m v.alike);
          ran = v.ran;
          counted = omega (
            arith,
            v.counted,
            in_block,
            busy-after_log order (stream left),
            ap length (seen-snoc v.so_far v.part m),
            length-snoc (seen v.so_far v.part) m,
          );
        }

    pub log-IsRunning :
        (s : System) {n : ℕ} (kind : ℕ) (rest : Bytes) (len : ℕ)
        → s.call ≡ at_round (kind ∷ rest)
        → message_length kind ≡ some len
        → IsRunning header_size crc rdtsc file slots b s n
        → IsRunning header_size crc rdtsc file slots b
            (logged header_size crc rdtsc s
              (log_round crc rdtsc queue_bits s.parser kind (kind ∷ rest) len))
            (n + 1)
    log-IsRunning s {n} kind rest len at known v =
        let (inside, all_pushed) = rw (at) at v.call in
        let (m, left, next) = next_message inside.left inside.ahead in
        let first = inside.first ∙ ap (λ t. (v.part ++ t) ∷ inside.more) next in
        let whole = block-AreMessages good v.so_far (v.part ++ m ∷ left) v.cut first in
        let is_message = (AreMessages-append v.part (m ∷ left) whole).1.0 in
        let bytes_left : kind ∷ rest ≡ bytes m ++ stream left = inside.ahead ∙ ap stream next in
        let same : kind ≡ m.kind = cc in
        let len_same : len ≡ length (bytes m) = cc in
        let run = log_round-message crc rdtsc queue_bits s.parser m (stream left) is_message in
        rw (bytes_left, same, len_same, run)
          (logged-IsRunning s v m left inside.more inside.parsing first all_pushed (ap busy at))

    pub push-IsRunning :
        (s : System) {n : ℕ} (o : NormalizedOrder) (rest : Bytes)
        → s.call ≡ pushing o rest
        → IsRunning header_size crc rdtsc file slots b s n
        → IsRunning header_size crc rdtsc file slots b
            (record s { parser = push_order crc rdtsc queue_bits s.parser o; call = at_round rest })
            (n + 1)
    push-IsRunning s {n} o rest at v =
        let (inside, but_last) = rw (at) at v.call in
        record {
          ring = v.ring;
          so_far = v.so_far;
          later = v.later;
          part = v.part;
          pushed = v.pushed ++ o ∷ [];
          cut = v.cut;
          parsed = v.parsed;
          call = (inside, but_last);
          kept =
              push_order-IsKept crc rdtsc queue_bits queue_fits s.parser o s.consumed v.pushed
                v.kept;
          alike = record { logger = v.alike.logger; curr_seq_num = v.alike.curr_seq_num };
          ran = v.ran;
          counted = omega (arith, v.counted, ap busy at, length-snoc v.pushed o);
        }

    pub end-IsRunning :
        (s : System) {n : ℕ} (rest : Bytes)
        → s.call ≡ at_round rest
        → ends_block rest ≡ true
        → IsRunning header_size crc rdtsc file slots b s n
        → IsRunning header_size crc rdtsc file slots b
            (record s { frames = parse_current s.frames; call = idle })
            (n + 1)
    end-IsRunning s {n} rest at ends v =
        let (inside, all_pushed) = rw (at) at v.call in
        let whole = block-AreMessages good v.so_far (v.part ++ inside.left) v.cut inside.first in
        let nothing =
          ends_block-nil inside.left (AreMessages-append v.part inside.left whole).1
            (rw (inside.ahead) at ends) in
        let first : v.later ≡ v.part ∷ inside.more =
          inside.first
          ∙ ap (λ t. (v.part ++ t) ∷ inside.more) nothing
          ∙ ap (λ (t : List Message). t ∷ inside.more) (append-nil v.part) in
        let (ms, more, next, payload) = parsing-block v inside.parsing in
        let same : ms ≡ v.part = cc in
        let grown : seen (v.so_far ++ v.part ∷ []) [] ≡ seen v.so_far v.part =
          append-nil (all (v.so_far ++ v.part ∷ [])) ∙ all-snoc v.so_far v.part in
        record {
          ring = Ring.next v.ring (Ring.parse s.frames inside.parsing);
          so_far = v.so_far ++ v.part ∷ [];
          later = inside.more;
          part = [];
          pushed = v.pushed;
          cut = cut-next v.so_far v.part v.cut first;
          parsed = rw (v.parsed, payload, same) (sym (blocks_of-snoc v.so_far v.part));
          call = (refl, all_pushed ∙ ap orders (sym grown));
          kept = v.kept;
          alike = rw (grown) v.alike;
          ran = v.ran;
          counted =
              omega (arith, v.counted, ap busy at, ap length grown, length-snoc v.so_far v.part);
        }
