-- ===== src/Tests/Reactor.antt =====
-- src/network/EpollReactor.h with a handler that takes all it finds.
use marketdatabook.Common.{
  ℕ, ◌+◌, ◌≤◌, ◌<◌, ◌≡◌, refl, arith, List, [], ◌∷◌, length, some, none, Option, ap, true,
}
use marketdatabook.Common.{◌∙◌}
use marketdatabook.Common.Bytes.{Bytes}
use marketdatabook.Common.Memory.{load}
use marketdatabook.Magic.{fill, read_space_left, moved}
use marketdatabook.Spsc
use marketdatabook.Spsc.{Queue}
use marketdatabook.Spsc.Holds.{Holds}
use marketdatabook.Spsc.Calls.{push-Agrees, new-Holds}
use marketdatabook.Reactor.{
  Reactor, Event, Received, bytes, would_block, receive_all, hand_over, drop_client,
  new_connections, readable,
}
use marketdatabook.Reactor.Round.{
  ready, finished, receive_from, readables, run_round, Round, IsDone, run_round-IsDone,
}
use marketdatabook.Reactor.Stream.{Fits, IsDrained, bytes_of, receive_all-IsDrained}
use marketdatabook.Reactor.Connections.{added, not_set}

abbrev take_all : ℕ → ℕ → Bytes → ℕ × ℕ
take_all calls fd seen = (length seen, calls + 1)

take_all-le : (calls fd : ℕ) (seen : Bytes) → (take_all calls fd seen).0 ≤ length seen
take_all-le calls fd seen = omega arith

-- A byte waits at the end of the first mapping.
abbrev reactor : Reactor ℕ
reactor = record {
  fd_buffers = λ _. record {
    cells = λ at. at + 1;
    read_head = 4093;
    write_head = 4094;
    aligned_capacity = 4096;
  };
  handler = 0;
  taken = λ _. [];
  closed = [];
}

abbrev two_reads : List Received
two_reads = bytes (7 ∷ 8 ∷ 9 ∷ []) ∷ bytes (1 ∷ []) ∷ would_block ∷ []

two_reads-Fits : Fits take_all take_all-le 5 two_reads reactor
unfolding Fits hand_over read_space_left moved load fill
two_reads-Fits = (omega arith, (omega arith, tt))

receive_all-IsDrained_example :
    (r : Reactor ℕ) × (receive_all take_all 5 two_reads reactor ≡ some r)
    × IsDrained take_all take_all-le reactor r 5 (bytes_of take_all take_all-le two_reads)
receive_all-IsDrained_example =
    receive_all-IsDrained take_all take_all-le two_reads reactor 5
      (record { reads = omega arith; writes = omega arith }) two_reads-Fits

abbrev empty_queue : Queue ℕ
empty_queue = Spsc.new (λ _. 0)

abbrev two_waiting : Queue ℕ
two_waiting = (Spsc.push 10 (Spsc.push 10 empty_queue 7).0 8).0

two_waiting-Holds : Holds 10 two_waiting (7 ∷ 8 ∷ [])
two_waiting-Holds =
    let k_fits : 10 < 64 = omega arith in
    (push-Agrees k_fits 8 (push-Agrees k_fits 7 (new-Holds k_fits (λ _. 0))).0).0

-- The event of new connections comes before that of some data and that of a client that leaves.
abbrev three_events : List Event
three_events = new_connections ∷ readable 5 two_reads ∷ readable 6 (bytes [] ∷ []) ∷ []

abbrev drained :
    (r : Reactor ℕ) × (receive_all take_all 5 two_reads reactor ≡ some r)
    × IsDrained take_all take_all-le reactor r 5 (bytes_of take_all take_all-le two_reads)
drained =
    receive_all-IsDrained take_all take_all-le two_reads reactor 5
      (record { reads = omega arith; writes = omega arith }) two_reads-Fits

client_left :
    (r : Reactor ℕ)
    → receive_from take_all ((6, bytes [] ∷ []) ∷ []) r ≡ some (drop_client take_all r 6)
unfolding receive_from receive_all
client_left r = refl

three_events_received :
    receive_from take_all (readables three_events) reactor ≡ some (drop_client take_all drained.0 6)
unfolding receive_from
three_events_received =
    ap
      (λ (o : Option (Reactor ℕ)). elim o [
        | none ↦ none
        | some r ↦ receive_from take_all ((6, bytes [] ∷ []) ∷ []) r
      ])
      drained.1
    ∙ client_left drained.0

abbrev waiting_round : Round ℕ
waiting_round = record { reactor = reactor; incoming_connections = two_waiting; watched = 3 ∷ [] }

run_round-IsDone_example :
    (t : Round ℕ) × (run_round take_all
        (ready three_events)
        (added ∷ not_set ∷ [])
        true
        waiting_round
      ≡ finished t)
    × IsDone take_all waiting_round t
        (drop_client take_all drained.0 6)
        (added ∷ not_set ∷ [])
        (7 ∷ 8 ∷ [])
run_round-IsDone_example =
    run_round-IsDone take_all three_events (7 ∷ 8 ∷ []) (added ∷ not_set ∷ [])
      (drop_client take_all drained.0 6) waiting_round refl three_events_received two_waiting-Holds
      tt
