-- ===== src/Tests/Arrivals.antt =====
-- src/network/EpollReactor.h: a connection that comes between the last `pop` and the `read`.
use marketdatabook.Common.{ℕ, ◌<◌, ◌≡◌, refl, arith, List, ◌++◌, some, Array}
use marketdatabook.Spsc
use marketdatabook.Spsc.Holds.{Holds}
use marketdatabook.Reactor.Connections.{connection_bits}
use marketdatabook.Reactor.Arrivals.{
  Arrivals, Reach, accepting, waiting, clearing, popped, start, here, next,
}
use marketdatabook.Reactor.Arrivals.{accept, queue, signal, wake, take_one, find_none, clear}
use marketdatabook.Reactor.Arrivals.Order.{in_hand, accepted_lem}

abbrev slots : Array ℕ
slots = λ _. 0

abbrev Reached : Type 0
Reached = (s : Arrivals) × Reach slots s

-- The first connection is taken; the second is queued and signalled before the `read`.
abbrev accepted_first : Reached
unfolding Spsc.push Spsc.pop Spsc.new Spsc.next_index
accepted_first = (_, next here (accept (start slots) 7 refl))

abbrev queued_first : Reached
unfolding Spsc.push Spsc.pop Spsc.new Spsc.next_index
queued_first = (_, next accepted_first.1 (queue accepted_first.0 7 refl refl))

abbrev signalled_first : Reached
unfolding Spsc.push Spsc.pop Spsc.new Spsc.next_index
signalled_first = (_, next queued_first.1 (signal queued_first.0 refl))

abbrev woken : Reached
unfolding Spsc.push Spsc.pop Spsc.new Spsc.next_index
woken = (_, next signalled_first.1 (wake signalled_first.0 refl (omega arith)))

abbrev taken_first : Reached
unfolding Spsc.push Spsc.pop Spsc.new Spsc.next_index
taken_first = (_, next woken.1 (take_one woken.0 7 refl refl))

abbrev found_none : Reached
unfolding Spsc.push Spsc.pop Spsc.new Spsc.next_index
found_none = (_, next taken_first.1 (find_none taken_first.0 refl refl))

abbrev accepted_second : Reached
unfolding Spsc.push Spsc.pop Spsc.new Spsc.next_index
accepted_second = (_, next found_none.1 (accept found_none.0 8 refl))

abbrev queued_second : Reached
unfolding Spsc.push Spsc.pop Spsc.new Spsc.next_index
queued_second = (_, next accepted_second.1 (queue accepted_second.0 8 refl refl))

abbrev before_read : Reached
unfolding Spsc.push Spsc.pop Spsc.new Spsc.next_index
before_read = (_, next queued_second.1 (signal queued_second.0 refl))

-- The counter is cleared with a connection in the queue: `run` does not wake up for it.
missed :
    (s : Arrivals) × Reach slots s
    × (s.taker ≡ waiting)
    × (s.acceptor ≡ accepting)
    × (s.signals ≡ 0)
    × ((popped s).1 ≡ some 8)
unfolding Spsc.push Spsc.pop Spsc.new Spsc.next_index
missed = (_, next before_read.1 (clear before_read.0 refl), refl, refl, refl, refl)

accepted_lem_example :
    ((waits : List ℕ) × Holds connection_bits before_read.0.incoming_connections waits
      × (before_read.0.accepted ≡ before_read.0.taken ++ (waits ++ in_hand before_read.0.acceptor)))
    × (before_read.0.taker ≡ clearing → 0 < before_read.0.signals)
accepted_lem_example = accepted_lem before_read.1
