-- ===== src/Reactor/Arrivals.antt =====
-- src/network/EpollReactor.h: `wait_for_connections`, in a thread of its own, and how `run` wakes
-- up for what it has queued. A call on the queue, a call of the kernel and the wake-up are a step
-- each, and the steps of the two threads interleave freely. What `run` does with a connection that
-- it takes is in `Connections`; that `add_socket` or `write` fails, which throws, is not modelled
-- here.
pub mod Order
use marketdatabook.Common.{
  ℕ, ◌+◌, ◌<◌, ◌≡◌, List, [], ◌∷◌, ◌++◌, Option, none, some, Bool, true, false, Array,
}
use marketdatabook.Spsc
use marketdatabook.Spsc.{Queue}
use marketdatabook.Reactor.Connections.{connection_bits}

-- Where `wait_for_connections` stands: at `accept`, at the loop over `push`, or at `write`.
pub data Acceptor : Type 0 where
  accepting : Acceptor
  queueing : ℕ → Acceptor
  signalling : Acceptor

-- Where `run` stands: before it sees an event of `event_fd_`, at the loop over `pop`, or at `read`.
pub data Taker : Type 0 where
  waiting taking clearing : Taker

-- `signals` is the counter of `event_fd_`. `accepted` and `taken` are the connections that `accept`
-- and `pop` gave so far.
pub record Arrivals : Type 0 where
  pub incoming_connections : Queue ℕ
  pub signals : ℕ
  pub acceptor : Acceptor
  pub taker : Taker
  pub accepted : List ℕ
  pub taken : List ℕ

abbrev pub pushed : Arrivals → ℕ → Queue ℕ × Bool
pushed s fd = Spsc.push connection_bits s.incoming_connections fd

abbrev pub popped : Arrivals → Queue ℕ × Option ℕ
popped s = Spsc.pop connection_bits s.incoming_connections

pub data Step : Arrivals → Arrivals → Type 0 where
  accept :
      (s : Arrivals) (fd : ℕ)
      → s.acceptor ≡ accepting
      → Step s (record s { acceptor = queueing fd; accepted = s.accepted ++ fd ∷ [] })
  -- A `push` that finds the queue full is made again.
  retry :
      (s : Arrivals) (fd : ℕ)
      → s.acceptor ≡ queueing fd
      → (pushed s fd).1 ≡ false
      → Step s (record s { incoming_connections = (pushed s fd).0 })
  queue :
      (s : Arrivals) (fd : ℕ)
      → s.acceptor ≡ queueing fd
      → (pushed s fd).1 ≡ true
      → Step s (record s { incoming_connections = (pushed s fd).0; acceptor = signalling })
  signal :
      (s : Arrivals)
      → s.acceptor ≡ signalling
      → Step s (record s { signals = s.signals + 1; acceptor = accepting })
  wake : (s : Arrivals) → s.taker ≡ waiting → 0 < s.signals → Step s (record s { taker = taking })
  take_one :
      (s : Arrivals) (fd : ℕ)
      → s.taker ≡ taking
      → (popped s).1 ≡ some fd
      → Step s (record s { incoming_connections = (popped s).0; taken = s.taken ++ fd ∷ [] })
  find_none :
      (s : Arrivals)
      → s.taker ≡ taking
      → (popped s).1 ≡ none
      → Step s (record s { incoming_connections = (popped s).0; taker = clearing })
  -- `read` sets the counter to 0.
  clear : (s : Arrivals) → s.taker ≡ clearing → Step s (record s { signals = 0; taker = waiting })

abbrev pub start : Array ℕ → Arrivals
start slots = record {
  incoming_connections = Spsc.new slots;
  signals = 0;
  acceptor = accepting;
  taker = waiting;
  accepted = [];
  taken = [];
}

pub data Reach (slots : Array ℕ) : Arrivals → Type 0 where
  here : Reach slots (start slots)
  next : {s t : Arrivals} → Reach slots s → Step s t → Reach slots t
