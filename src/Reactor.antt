-- ===== src/Reactor.antt =====
-- src/network/EpollReactor.h: one round of `run`. The kernel's answers to `recv`, `fcntl` and
-- `epoll_ctl` are arguments. The handler is a parameter: of the bytes at the read head it takes
-- some off. `Round` puts the round together. Pinning is not modelled.
pub mod Stream
pub mod Connections
pub mod Arrivals
pub mod Round
use marketdatabook.Common.{ℕ, ◌==◌, if◌then◌else◌, Bool, true, false, Array, update, length, take}
use marketdatabook.Common.{List, [], ◌∷◌, ◌++◌, Option, none, some}
use marketdatabook.Common.Bytes.{Bytes}
use marketdatabook.Magic.{MagicBuffer, fill, advance_read, advance_write, reset, contents}

-- The answers to `recv`: bytes, none where the client has disconnected; nothing more for now; or an
-- error.
pub data Received : Type 0 where
  bytes : Bytes → Received
  would_block : Received
  error : Received

-- `taken` is what the handler took from the connection of each descriptor, `closed` the
-- descriptors that were closed.
pub record Reactor {ℓ} (H : Type ℓ) : Type ℓ where
  pub fd_buffers : Array MagicBuffer
  pub handler : H
  pub taken : Array Bytes
  pub closed : List ℕ

-- The events of one `epoll_wait`: the descriptor that signals new connections, or one with the
-- answers to its `recv`s.
pub data Event : Type 0 where
  new_connections : Event
  readable : ℕ → List Received → Event

module _ {ℓ} {H : Type ℓ} (on_data : H → ℕ → Bytes → ℕ × H) where
  -- The bytes of one `recv`: the handler is called before `advance_write`.
  unfoldable pub hand_over : Reactor H → ℕ → Bytes → Reactor H
  hand_over r fd bs =
      let b = r.fd_buffers fd in
      let filled = record b { cells = fill b.cells b.aligned_capacity b.write_head bs } in
      let seen = contents filled in
      let (n, handler) = on_data r.handler fd seen in
      record r {
        fd_buffers = update r.fd_buffers fd (advance_write (advance_read filled n) (length bs));
        handler = handler;
        taken = update r.taken fd (r.taken fd ++ take n seen);
      }

  -- The buffer is emptied for the next connection with this descriptor.
  abbrev pub drop_client : Reactor H → ℕ → Reactor H
  drop_client r fd = record r {
    fd_buffers = update r.fd_buffers fd (reset (r.fd_buffers fd));
    taken = update r.taken fd [];
    closed = r.closed ++ fd ∷ [];
  }

  -- The inner loop. It is `none` where it would go on behind the answers.
  unfoldable pub receive_all : ℕ → List Received → Reactor H → Option (Reactor H)
  receive_all fd [] r = none
  receive_all fd (would_block ∷ answers) r = some r
  receive_all fd (error ∷ answers) r = some (drop_client r fd)
  receive_all fd (bytes [] ∷ answers) r = some (drop_client r fd)
  receive_all fd (bytes (b ∷ bs) ∷ answers) r = receive_all fd answers (hand_over r fd (b ∷ bs))

  -- The loop over the events, and whether there are new connections.
  unfoldable pub run_events : List Event → Reactor H → Option (Reactor H × Bool)
  run_events [] r = some (r, false)
  run_events (new_connections ∷ events) r = elim (run_events events r) [
    | none ↦ none
    | some (r', _) ↦ some (r', true)
  ]
  run_events (readable fd answers ∷ events) r = elim (receive_all fd answers r) [
    | none ↦ none
    | some r' ↦ run_events events r'
  ]
