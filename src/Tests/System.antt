-- ===== src/Tests/System.antt =====
-- `run_mock_mode` of src/main.cpp on a file of one block, an add order.
use marketdatabook.Common.{ℕ, ◌≡◌, refl, arith, List, [], ◌∷◌, ◌++◌, replicate, ◌≤◌, ◌⊎◌}
use marketdatabook.Common.{some, done, threw, state, Result, Array}
use marketdatabook.Common.Memory.{load, store}
use marketdatabook.Itch.{NormalizedOrder}
use marketdatabook.Itch.Decode.{extract_header, parse_add_order}
use marketdatabook.Book
use marketdatabook.Book.{Book}
use marketdatabook.Book.Laid.New.{new-IsLaid}
use marketdatabook.Book.Market.{Market, enter, closed}
use marketdatabook.Book.Represents.{Matches}
use marketdatabook.Book.Represents.Entering.{new-Represents}
use marketdatabook.Engine.{dispatch}
use marketdatabook.Engine.Refinement.{AreNew, trade, trade_one, dispatch-Matches}
use marketdatabook.Multicast.Ring
use marketdatabook.Multicast.Ring.{Mock}
use marketdatabook.Parser.{Parser, message_length}
use marketdatabook.Parser.Messages.{Message, bytes, stream, orders, decode}
use marketdatabook.Recovery.{run_recovery}
use marketdatabook.Recovery.EndToEnd.{start, file_frames}
use marketdatabook.Recovery.Logged.{AreSmall}
use marketdatabook.Recovery.Replay.{outcome}
use marketdatabook.Wal.{valid_marker}
use marketdatabook.Common.{update}
use marketdatabook.Common.Memory.{Memory}
use marketdatabook.Spsc
use marketdatabook.System.{
  System, Step, Reach, work, here, next, move_frame, begin_block, log_message, push_message,
  end_block, consume_order,
}
use marketdatabook.System.{at_round, pushing, logged, queue_bits}
use marketdatabook.Parser.{log_bytes, log_round}
use marketdatabook.Parser.Messages.{IsMessage, logged_kind}
use marketdatabook.Parser.Stream.{log_round-message}
use marketdatabook.Parser.Pushed.{log_bytes-queue}
use marketdatabook.Spsc.Calls.{push-Agrees}
use marketdatabook.System.Blocks.{seen, ends_block-message}
use marketdatabook.Common.{◌+◌, ◌*◌, length}
use marketdatabook.System.Blocks.{all, blocks_of}
use marketdatabook.System.Running.{IsFile}
use marketdatabook.System.Progress.{CanWork, Throws, system_drains}
use marketdatabook.System.Recovered.{IsOrderly, consumed-IsOrderly, drained_lem, drained-Matches}
use marketdatabook.Spsc.Holds.{Holds}
use marketdatabook.Spsc.Calls.{new-Holds, pop-Agrees}
use marketdatabook.Tests.Messages.{sum_crc}

-- A bid of 5000.
abbrev an_add : Message
an_add = record {
  kind = b'A';
  body = replicate 18 1 ++ (b'B' ∷ (replicate 12 1 ++ (0 ∷ 0 ∷ 19 ∷ 136 ∷ [])));
}

abbrev file : List (List Message)
file = (an_add ∷ []) ∷ []

abbrev clock : ℕ → ℕ
clock seq = seq

file-IsFile : IsFile 32 sum_crc clock file
unfolding message_length AreSmall
file-IsFile = record {
  whole = (refl, tt);
  small = (omega arith, tt);
  fit = (omega arith, tt);
  room = omega arith;
}

abbrev an_order : NormalizedOrder
an_order = parse_add_order (bytes an_add) (extract_header (bytes an_add))

orders_file : orders (all file) ≡ an_order ∷ []
unfolding decode
orders_file = refl

abbrev slots : Array NormalizedOrder
slots = λ _. an_order

abbrev new_book : Book
new_book = state (Book.new 10)

new_book_made : Book.new 10 ≡ done new_book
new_book_made = (new-IsLaid 10 (omega arith) (omega arith)).0

file-AreNew : AreNew (closed 10) (an_order ∷ [])
unfolding AreNew parse_add_order
file-AreNew = (refl, tt)

done_of_Matches :
    (size : ℕ) (r : Result Book) (m : Market) → Matches size r (done m) → r ≡ done (state r)
unfolding Matches
done_of_Matches size (done b) m v = refl
done_of_Matches size (threw e b) m v = absurd v

abbrev next_book : Book
next_book = state (dispatch new_book an_order)

dispatched : dispatch new_book an_order ≡ done next_book
unfolding trade_one AreNew parse_add_order
dispatched =
    done_of_Matches 10 (dispatch new_book an_order) (enter (closed 10) _)
      (dispatch-Matches an_order (new-Represents 10 (omega arith) (omega arith)) refl)

abbrev Reached : System → Type 0
Reached = Reach 32 sum_crc clock (blocks_of file) slots new_book

-- The block in the ring, with the poller before the call of the parser.
abbrev before_parse : (s : System) × Reached s
before_parse =
    let block = stream (an_add ∷ []) in
    let seen = next here (move_frame _ _ (Ring.see_kernel _ block _ refl refl refl) refl) in
    let filled = next seen (move_frame _ _ (Ring.fill _ block _ refl refl) refl) in
    let published = next filled (move_frame _ _ (Ring.publish _ block _ refl refl) refl) in
    (_, next published (move_frame _ _ (Ring.see_user _ refl refl) refl))

begin_step :
    Step 32 sum_crc clock before_parse.0
      (record before_parse.0 { call = at_round (stream (an_add ∷ [])) })
unfolding load store
begin_step = begin_block before_parse.0 refl refl

abbrev begun : (s : System) × Reached s
begun = (_, next before_parse.1 begin_step)

abbrev logged_parser : Parser
logged_parser =
    log_bytes sum_crc clock queue_bits (start (Spsc.new slots)) (bytes an_add) (logged_kind b'A')

an_add-IsMessage : IsMessage an_add
unfolding message_length
an_add-IsMessage = refl

log_run :
    log_round sum_crc clock queue_bits (start (Spsc.new slots)) b'A' (bytes an_add ++ []) 36
    ≡ (logged_parser, some an_order, [])
unfolding decode
log_run =
    log_round-message sum_crc clock queue_bits (start (Spsc.new slots)) an_add [] an_add-IsMessage

-- The message in the log, and its order not pushed yet.
abbrev between : System
between = record begun.0 { parser = logged_parser; call = pushing an_order [] }

log_step : Step 32 sum_crc clock begun.0 between
log_step =
    let raw = bytes an_add ++ [] in
    let step : Step 32 sum_crc clock begun.0 (
        logged 32 sum_crc clock begun.0
          (log_round sum_crc clock queue_bits (start (Spsc.new slots)) b'A' raw 36)) =
      log_message begun.0 b'A' (an_add.body ++ []) 36 refl an_add-IsMessage
        (ends_block-message an_add [] an_add-IsMessage) in
    rw (log_run) at step

abbrev between_reached : Reached between
between_reached = next begun.1 log_step

abbrev pushed : (s : System) × Reached s
pushed = (_, next between_reached (push_message between an_order [] refl))

pushed-Holds : Holds queue_bits pushed.0.parser.queue (an_order ∷ [])
pushed-Holds =
    let empty : Holds queue_bits logged_parser.queue [] =
      rw
        (log_bytes-queue sum_crc clock queue_bits (start (Spsc.new slots)) (bytes an_add)
          (logged_kind b'A'))
        (new-Holds (omega arith) slots) in
    (push-Agrees (omega arith) an_order empty).0

pop_run : (Spsc.pop queue_bits pushed.0.parser.queue).1 ≡ some an_order
pop_run = (pop-Agrees (omega arith) pushed-Holds).1

-- The order consumed, before `parse_block` returns.
abbrev consumed : (s : System) × Reached s
consumed = (_, next pushed.1 (consume_order pushed.0 an_order next_book pop_run dispatched))

abbrev ended : (s : System) × Reached s
ended = (_, next consumed.1 (end_block consumed.0 [] refl refl))

consumed-IsOrderly_example :
    (so_far : List (List Message)) × (part : List Message) × IsOrderly 32 sum_crc clock file-IsFile
      consumed.1 so_far part
consumed-IsOrderly_example = consumed-IsOrderly 32 sum_crc clock file-IsFile consumed.1

-- The next frame has its marker, and no more was written.
abbrev torn_memory : Memory
torn_memory = update between.parser.logger.memory 64 valid_marker

file_parsed : ended.0.frames.parsed ≡ blocks_of file
unfolding load store
file_parsed = refl

all_consumed : 1 ≡ length (orders (all file))
unfolding decode
all_consumed = refl

drained_lem_example :
    outcome (run_recovery sum_crc file_frames ended.0.parser.logger.memory new_book)
    ≡ some (done ended.0.book)
drained_lem_example = drained_lem 32 sum_crc clock file-IsFile ended.1 file_parsed all_consumed

file_orders-AreNew : AreNew (closed 10) (orders (all file))
file_orders-AreNew = rw (orders_file) file-AreNew

drained-Matches_example : Matches 10 (done ended.0.book) (trade (closed 10) (orders (all file)))
drained-Matches_example =
    drained-Matches 32 sum_crc clock file-IsFile ended.1 file_parsed all_consumed 10 new_book_made
      (omega arith) (omega arith) file_orders-AreNew

-- Where the order still waits in the queue.
system_drains_example :
    (work 32 sum_crc clock pushed.1 ≤ 8 * 1 + 1 + 2 * length (orders (all file)))
    × (CanWork 32 sum_crc clock pushed.0
        ⊎ (Throws 32 sum_crc clock pushed.0
            ⊎ ((pushed.0.frames.parsed ≡ blocks_of file)
                × Holds queue_bits pushed.0.parser.queue [])))
system_drains_example = system_drains 32 sum_crc clock file-IsFile pushed.1
