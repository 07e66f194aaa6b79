-- ===== src/Reactor/Round.antt =====
-- One round of `run` of src/network/EpollReactor.h: the answer of `epoll_wait`, the events, the
-- connections that wait, and the read of the event descriptor.
use marketdatabook.Common.{
  ◌≡◌, refl, ap, ℕ, if◌then◌else◌, Bool, true, false, List, [], ◌∷◌, Option, none, some,
  Option-cases, inl, inr,
}
use marketdatabook.Common.Bytes.{Bytes}
use marketdatabook.Spsc.{Queue}
use marketdatabook.Common.{◌++◌}
use marketdatabook.Reactor.Connections.{added_of, refused_of}
use marketdatabook.Spsc.Holds.{Holds}
use marketdatabook.Reactor.{
  Reactor, Event, Received, receive_all, run_events, readable, new_connections,
}
use marketdatabook.Reactor.Connections.{
  Registry, Answer, Answers, returned, threw_at, unanswered, register, connection_bits,
  register-IsRegistered,
}

-- What `epoll_wait` answers: `EINTR`, another error, or events.
pub data Waited : Type 0 where
  interrupted : Waited
  wait_error : Waited
  ready : List Event → Waited

-- The reactor at the start of a round: the buffers, the handler and the descriptors that were
-- closed, in order; the queue; and the descriptors that epoll watches.
pub record Round {ℓ} (H : Type ℓ) : Type ℓ where
  pub reactor : Reactor H
  pub incoming_connections : Queue ℕ
  pub watched : List ℕ

abbrev pub with_reactor {ℓ} : {H : Type ℓ} → Round H → Reactor H → Round H
with_reactor t r = record t { reactor = r }

-- What the loop over the queue works on, and what it leaves.
abbrev pub registry {ℓ} : {H : Type ℓ} → Round H → Registry
registry t = record {
  incoming_connections = t.incoming_connections;
  watched = t.watched;
  closed = t.reactor.closed;
}

abbrev pub with_registry {ℓ} : {H : Type ℓ} → Round H → Registry → Round H
with_registry t s = record {
  reactor = record t.reactor { closed = s.closed };
  incoming_connections = s.incoming_connections;
  watched = s.watched;
}

-- How a round ends: with the next one, with an exception, or behind the answers that are given. An
-- exception comes from `epoll_wait`, from `add_socket` or from the read.
pub data Ended {ℓ} (H : Type ℓ) : Type ℓ where
  finished threw_in_wait threw_in_add threw_in_read : Round H → Ended H
  behind_answers : Ended H

-- The read of the event descriptor, and whether it succeeds.
abbrev pub clear_event {ℓ} : {H : Type ℓ} → Bool → Round H → Ended H
clear_event true t = finished t
clear_event false t = threw_in_read t

-- The connections that wait, once the events are done.
unfoldable pub take_connections {ℓ} : {H : Type ℓ} → List Answer → Bool → Round H → Ended H
take_connections answers cleared t = elim (register answers (registry t)) [
  | returned s ↦ clear_event cleared (with_registry t s)
  | threw_at s ↦ threw_in_add (with_registry t s)
  | unanswered ↦ behind_answers
]

-- The events with data, in order, and whether one signals connections.
abbrev pub readables : List Event → List (ℕ × List Received)
readables [] = []
readables (new_connections ∷ events) = readables events
readables (readable fd answers ∷ events) = (fd, answers) ∷ readables events

abbrev pub has_new : List Event → Bool
has_new [] = false
has_new (new_connections ∷ events) = true
has_new (readable fd answers ∷ events) = has_new events

module _ {ℓ} {H : Type ℓ} (on_data : H → ℕ → Bytes → ℕ × H) where
  unfoldable pub run_round : Waited → List Answer → Bool → Round H → Ended H
  run_round interrupted answers cleared t = finished t
  run_round wait_error answers cleared t = threw_in_wait t
  run_round (ready events) answers cleared t = elim (run_events on_data events t.reactor) [
    | none ↦ behind_answers
    | some (r, has_new_connections) ↦
        if has_new_connections
        then take_connections answers cleared (with_reactor t r)
        else finished (with_reactor t r)
  ]

  -- The data of all connections, one after the other.
  unfoldable pub receive_from : List (ℕ × List Received) → Reactor H → Option (Reactor H)
  receive_from [] r = some r
  receive_from ((fd, answers) ∷ rest) r = elim (receive_all on_data fd answers r) [
    | none ↦ none
    | some r' ↦ receive_from rest r'
  ]

  run_events-readables :
      (events : List Event) (r r' : Reactor H)
      → receive_from (readables events) r ≡ some r'
      → run_events on_data events r ≡ some (r', has_new events)
  unfolding run_events receive_from
  run_events-readables [] r r' e = ap (λ o. elim o [ none ↦ none | some t ↦ some (t, false) ]) e
  run_events-readables (new_connections ∷ events) r r' e =
      rw (run_events-readables events r r' e, run_events) refl
  run_events-readables (readable fd answers ∷ events) r r' e =
      elim (Option-cases (receive_all on_data fd answers r)) [
        | inl stuck ↦ absurd (cc (rw (stuck, receive_from) at e))
        | inr (t, received) ↦
            rw (received, run_events)
              (run_events-readables events t r' (rw (received, receive_from) at e))
      ]

  -- After the round the buffers and the handler are those that the data leave. The queue is empty,
  -- and each connection is watched or closed as its answer says, in the order of the queue, behind
  -- the descriptors that were watched and those that were closed when the data were received.
  pub record IsDone (t t' : Round H) (r : Reactor H) (answers : List Answer) (fds : List ℕ)
      : Type ℓ where
    pub fd_buffers : t'.reactor.fd_buffers ≡ r.fd_buffers
    pub handler : t'.reactor.handler ≡ r.handler
    pub taken : t'.reactor.taken ≡ r.taken
    pub closed : t'.reactor.closed ≡ r.closed ++ refused_of answers fds
    pub watched : t'.watched ≡ t.watched ++ added_of answers fds
    pub emptied : Holds connection_bits t'.incoming_connections []

  -- Wherever the event of new connections is among the events, the data of the others are received,
  -- in order, if the answers to `recv` are enough for it, and the connections are taken after that:
  -- the descriptors that the data close are closed before those of connections. This is where the
  -- queue holds some connections, there is an answer for each with which `add_socket` does not
  -- throw, and the read succeeds. Then the round finishes with the queue empty, and each connection
  -- is watched or closed as its answer says, in the order of the queue.
  pub run_round-IsDone :
      (events : List Event) (fds : List ℕ) (answers : List Answer) (r : Reactor H) (t : Round H)
      → has_new events ≡ true
      → receive_from (readables events) t.reactor ≡ some r
      → Holds connection_bits t.incoming_connections fds
      → Answers answers fds
      → (t' : Round H) × (run_round (ready events) answers true t ≡ finished t')
        × IsDone t t' r answers fds
  unfolding run_round take_connections
  run_round-IsDone events fds answers r t new received h ok =
      let begun = registry (with_reactor t r) in
      let (s, run, v) = register-IsRegistered fds answers begun h ok in
      (
        with_registry (with_reactor t r) s,
        rw (run_events-readables events t.reactor r received, run_round, new, run, take_connections)
            refl,
        record {
          fd_buffers = refl;
          handler = refl;
          taken = refl;
          closed = v.closes;
          watched = v.watches;
          emptied = v.emptied;
        },
      )

  -- Without that event, the round receives the data and leaves the queue alone.
  pub run_round-readables :
      (events : List Event) (answers : List Answer) (cleared : Bool) (r : Reactor H) (t : Round H)
      → has_new events ≡ false
      → receive_from (readables events) t.reactor ≡ some r
      → run_round (ready events) answers cleared t ≡ finished (with_reactor t r)
  unfolding run_round
  run_round-readables events answers cleared r t quiet received =
      rw (run_events-readables events t.reactor r received, run_round, quiet) refl
