-- ===== src/System/Progress.antt =====
-- `run_mock_mode` of src/main.cpp comes to an end with its file parsed and its queue empty, or with
-- an order at which the book throws.
use marketdatabook.Common.{
  ℕ, ◌+◌, ◌*◌, ◌≤◌, ◌≡◌, refl, ap, ◌∙◌, arith, List, [], ◌∷◌, ◌++◌, length, inl, inr, ◌⊎◌,
}
use marketdatabook.Common.{Result-cases, some, threw, Array, Error, length-append}
use marketdatabook.Common.Bytes.{Bytes}
use marketdatabook.Itch.{NormalizedOrder}
use marketdatabook.Book.{Book}
use marketdatabook.Engine.{dispatch}
use marketdatabook.Multicast.Ring
use marketdatabook.Multicast.Ring.Progress.{mock_drains}
use marketdatabook.Parser.Messages.{Message, bytes, stream, orders}
use marketdatabook.Parser.Stream.{AreMessages}
use marketdatabook.Spsc
use marketdatabook.Spsc.Holds.{Holds}
use marketdatabook.Spsc.Calls.{pop-Agrees}
use marketdatabook.Wal.{Crc}
use marketdatabook.System.{
  System, Step, Reach, Call, work, work_of, queue_bits, idle, at_round, pushing,
}
use marketdatabook.System.{
  move_frame, begin_block, log_message, push_message, end_block, consume_order,
}
use marketdatabook.System.Blocks.{
  all, blocks_of, orders-append, AreMessages-append, seen, ends_block-message, CallKnows-pushed,
  busy-later,
}
use marketdatabook.System.Kept.{length-Sublistᴰ}
use marketdatabook.System.Running.{IsFile, IsRunning, seen-first, queue_fits}
use marketdatabook.System.Parsing.{block-AreMessages}
use marketdatabook.System.Reached.{Reach-IsRunning}

length-blocks_of : (file : List (List Message)) → length (blocks_of file) ≡ length file
length-blocks_of [] = refl
length-blocks_of (ms ∷ file) = omega (arith, length-blocks_of file)

Call-cases :
    (c : Call)
    → (c ≡ idle)
      ⊎ (((rest : Bytes) × (c ≡ at_round rest))
          ⊎ ((o : NormalizedOrder) × (rest : Bytes) × (c ≡ pushing o rest)))
Call-cases idle = inl refl
Call-cases (at_round rest) = inr (inl (rest, refl))
Call-cases (pushing o rest) = inr (inr (o, rest, refl))

module _ (header_size : ℕ) (crc : Crc) (rdtsc : ℕ → ℕ) where
  abbrev pub CanWork : System → Type 0
  CanWork s =
      (t : System) × (step : Step header_size crc rdtsc s t) × (work_of header_size crc rdtsc step
        ≡ 1)

  -- The book throws at the order that the consumer pops next.
  abbrev pub Throws : System → Type 0
  Throws s =
      (o : NormalizedOrder) × ((Spsc.pop queue_bits s.parser.queue).1 ≡ some o)
      × (err : Error) × (b : Book) × (dispatch s.book o ≡ threw err b)

  -- The consumer can take the order that waits first, if the book does not throw at it.
  consumer_step :
      (s : System) (ws : List NormalizedOrder)
      → Holds queue_bits s.parser.queue ws
      → CanWork s ⊎ (Throws s ⊎ Holds queue_bits s.parser.queue [])
  consumer_step s [] held = inr (inr held)
  consumer_step s (o ∷ ws) held =
      let found = (pop-Agrees queue_fits held).1 in
      elim (Result-cases (dispatch s.book o)) [
        | inl (b', run) ↦ inl (_, consume_order s o b' found run, refl)
        | inr (err, b', run) ↦ inr (inl (o, found, err, b', run))
      ]

  -- A step of the ring's threads is one of the program, where `parse_block` does not run.
  ring_step :
      (s : System) {u : Ring.Mock} → s.call ≡ idle → Ring.Step header_size s.frames u → CanWork s
  ring_step s rests (Ring.see_kernel t block rest at_loop some_left free) =
      (_, move_frame s _ (Ring.see_kernel t block rest at_loop some_left free) refl, refl)
  ring_step s rests (Ring.fill t block rest filling some_left) =
      (_, move_frame s _ (Ring.fill t block rest filling some_left) refl, refl)
  ring_step s rests (Ring.publish t block rest publishing some_left) =
      (_, move_frame s _ (Ring.publish t block rest publishing some_left) refl, refl)
  ring_step s rests (Ring.see_user t at_loop used) =
      (_, move_frame s _ (Ring.see_user t at_loop used) refl, refl)
  ring_step s rests (Ring.return_frame t returning) =
      (_, move_frame s _ (Ring.return_frame t returning) refl, refl)
  ring_step s rests (Ring.count_packet t counting) =
      (_, move_frame s _ (Ring.count_packet t counting) refl, refl)
  ring_step s rests (Ring.parse t parsing) = (_, begin_block s parsing rests, refl)

  -- A round of `parse_block` in front of whole messages returns or logs the first of them.
  round_step :
      (s : System) (left : List Message)
      → AreMessages left
      → s.call ≡ at_round (stream left)
      → CanWork s
  round_step s [] whole at = (_, end_block s [] at refl, refl)
  round_step s (m ∷ left) (h, whole) at = (
    _,
    log_message s m.kind _ (length (bytes m)) at h (ends_block-message m (stream left) h),
    refl,
  )

  module _ {file : List (List Message)} {slots : Array NormalizedOrder} {b : Book}
      (good : IsFile header_size crc rdtsc file) where
    work-le :
        {s : System} {n : ℕ}
        → IsRunning header_size crc rdtsc file slots b s n
        → n ≤ 8 * length file + length (all file) + 2 * length (orders (all file))
    work-le {s} v =
        let (few, _) = mock_drains header_size good.fit v.ring in
        let (ahead, split) = seen-first header_size crc rdtsc v in
        let (last, but_last) =
          CallKnows-pushed s.call s.frames.poller v.so_far v.later v.part v.pushed v.call in
        omega (
          arith,
          v.counted,
          few,
          length-blocks_of file,
          busy-later s.call s.frames.poller v.so_far v.later v.part v.pushed v.call,
          ap length v.cut,
          length-append v.so_far v.later,
          ap length split,
          length-append (seen v.so_far v.part) ahead,
          ap length (ap orders split ∙ orders-append (seen v.so_far v.part) ahead),
          length-append (orders (seen v.so_far v.part)) (orders ahead),
          ap length but_last,
          length-append v.pushed last,
          length-Sublistᴰ v.kept.among,
          length-append s.consumed v.kept.waiting,
        )

    -- Inside a block the parser can go on.
    parser_step :
        (s : System) {n : ℕ} (rest : Bytes)
        → IsRunning header_size crc rdtsc file slots b s n
        → s.call ≡ at_round rest
        → CanWork s
    parser_step s rest v at =
        let (inside, _) = rw (at) at v.call in
        let whole =
          block-AreMessages header_size crc rdtsc good v.so_far (v.part ++ inside.left) v.cut
            inside.first in
        round_step s inside.left (AreMessages-append v.part inside.left whole).1
          (at ∙ ap at_round inside.ahead)

    idle_step :
        (s : System) {n : ℕ}
        → IsRunning header_size crc rdtsc file slots b s n
        → s.call ≡ idle
        → CanWork s
          ⊎ (Throws s ⊎ ((s.frames.parsed ≡ blocks_of file) × Holds queue_bits s.parser.queue []))
    idle_step s v rests = elim ((mock_drains header_size good.fit v.ring).1) [
      | inl (u, step) ↦ inl (ring_step s rests step)
      | inr all_parsed ↦ elim (consumer_step s v.kept.waiting v.kept.holds) [
        | inl more ↦ inl more
        | inr (inl throws) ↦ inr (inl throws)
        | inr (inr empty) ↦ inr (inr (all_parsed, empty))
      ]
    ]

    -- On a file whose blocks are whole messages and fit the frames of the ring, whose messages fit
    -- those of the log, and for which the log has room, the program does at most eight steps of
    -- work for each block, one for each message and two for each order, where a round of the
    -- consumer that finds nothing is no work; and it can do more until the book throws at the next
    -- order, or all blocks are parsed and the queue is empty.
    pub system_drains :
        {s : System} (r : Reach header_size crc rdtsc (blocks_of file) slots b s)
        → (work header_size crc rdtsc r
            ≤ 8 * length file + length (all file) + 2 * length (orders (all file)))
          × (CanWork s
              ⊎ (Throws s
                  ⊎ ((s.frames.parsed ≡ blocks_of file) × Holds queue_bits s.parser.queue [])))
    system_drains {s} r =
        let v = Reach-IsRunning header_size crc rdtsc good r in
        (
          work-le v,
          elim (Call-cases s.call) [
            | inl rests ↦ idle_step s v rests
            | inr (inl (rest, at)) ↦ inl (parser_step s rest v at)
            | inr (inr (o, rest, at)) ↦ inl (_, push_message s o rest at, refl)
          ],
        )
