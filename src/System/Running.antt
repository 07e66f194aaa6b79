-- ===== src/System/Running.antt =====
-- What holds in every state of `run_mock_mode` of src/main.cpp, however its threads interleave.
use marketdatabook.Common.{
  ℕ, ◌+◌, ◌<◌, ◌≡◌, ap, sym, ◌∙◌, append_assoc, arith, List, ◌++◌, length, done, Array,
}
use marketdatabook.Itch.{NormalizedOrder}
use marketdatabook.Book.{Book}
use marketdatabook.Engine.{consume}
use marketdatabook.Multicast.Ring
use marketdatabook.Multicast.Ring.Safety.{Fit}
use marketdatabook.Multicast.Ring.Progress.{steps}
use marketdatabook.Parser.Messages.{Message}
use marketdatabook.Parser.Stream.{AreMessages, handle_messages}
use marketdatabook.Recovery.EndToEnd.{start, file_frames}
use marketdatabook.Recovery.Logged.{AreSmall}
use marketdatabook.Spsc
use marketdatabook.Wal.{Crc}
use marketdatabook.System.{System, queue_bits}
use marketdatabook.System.Blocks.{
  all, blocks_of, all-append, seen, CallKnows, CallKnows-later, busy,
}
use marketdatabook.System.Kept.{IsKept}
use marketdatabook.System.Alike.{AreAlike}

pub queue_fits : queue_bits < 64
queue_fits = omega arith

module _ (header_size : ℕ) (crc : Crc) (rdtsc : ℕ → ℕ) where
  -- The file's blocks are whole messages and fit a frame of the ring, each message fits a frame of
  -- the log, and the log has room for all.
  pub record IsFile (file : List (List Message)) : Type 0 where
    pub whole : AreMessages (all file)
    pub small : AreSmall (all file)
    pub fit : Fit header_size (blocks_of file)
    pub room : length (all file) < file_frames

  -- `so_far` are the blocks that were parsed, `part` the messages of the next that are logged, and
  -- `n` is the work that was done.
  pub record IsRunning (file : List (List Message)) (slots : Array NormalizedOrder) (b : Book)
      (s : System) (n : ℕ) : Type 0 where
    pub ring : Ring.Reach header_size (blocks_of file) s.frames
    pub so_far : List (List Message)
    pub later : List (List Message)
    pub part : List Message
    pub pushed : List NormalizedOrder
    pub cut : file ≡ so_far ++ later
    pub parsed : s.frames.parsed ≡ blocks_of so_far
    pub call : CallKnows s.call s.frames.poller so_far later part pushed
    pub kept : IsKept queue_bits s.parser s.consumed pushed
    pub alike :
        AreAlike s.parser
          (handle_messages crc rdtsc queue_bits (start (Spsc.new slots)) (seen so_far part))
    pub ran : consume b s.consumed ≡ done s.book
    pub counted :
        n
        ≡ steps header_size ring
          + length so_far
          + busy s.call
          + length (seen so_far part)
          + length pushed
          + length s.consumed

  module _ {file : List (List Message)} {slots : Array NormalizedOrder} {b : Book} {s : System}
      {n : ℕ} (v : IsRunning file slots b s n) where
    -- What is logged are the first messages of the file.
    pub seen-first : (ahead : List Message) × (all file ≡ seen v.so_far v.part ++ ahead)
    seen-first =
        let (ahead, e) =
          CallKnows-later s.call s.frames.poller v.so_far v.later v.part v.pushed v.call in
        (
          ahead,
          ap all v.cut
              ∙ all-append v.so_far v.later
              ∙ ap (λ t. all v.so_far ++ t) e
              ∙ sym (append_assoc (all v.so_far) v.part ahead),
        )
