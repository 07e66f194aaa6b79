-- ===== src/Reactor/Arrivals/Order.antt =====
-- The connections of EpollReactor.h on their way between its two threads.
use marketdatabook.Common.{ℕ, ◌+◌, ◌<◌, ◌≡◌, refl, arith, List, [], ◌∷◌, ◌++◌}
use marketdatabook.Common.{Array, append_assoc, append-nil}
use marketdatabook.Spsc.Holds.{Holds}
use marketdatabook.Spsc.Calls.{new-Holds}
use marketdatabook.Spsc.Answers.{push-true, push-false, pop-some, pop-none}
use marketdatabook.Reactor.Connections.{connection_bits}
use marketdatabook.Reactor.Arrivals.{Arrivals, Acceptor, Taker, Step, Reach}
use marketdatabook.Reactor.Arrivals.{accepting, queueing, signalling, waiting, taking, clearing}
use marketdatabook.Reactor.Arrivals.{accept, retry, queue, signal, wake, take_one, find_none, clear}
use marketdatabook.Reactor.Arrivals.{here, next}

-- The connection that is accepted and not queued yet.
abbrev pub in_hand : Acceptor → List ℕ
in_hand accepting = []
in_hand (queueing fd) = fd ∷ []
in_hand signalling = []

-- `run` reads a counter that is not 0.
abbrev pub Awake : Taker → ℕ → Type 0
Awake waiting signals = Unit
Awake taking signals = 0 < signals
Awake clearing signals = 0 < signals

pub record IsOrdered (s : Arrivals) : Type 0 where
  pub waits : List ℕ
  pub holds : Holds connection_bits s.incoming_connections waits
  pub all : s.accepted ≡ s.taken ++ (waits ++ in_hand s.acceptor)
  pub awake : Awake s.taker s.signals

fits : connection_bits < 64
fits = omega arith

signal-Awake : (t : Taker) (signals : ℕ) → Awake t signals → Awake t (signals + 1)
signal-Awake waiting signals h = tt
signal-Awake taking signals h = omega arith
signal-Awake clearing signals h = omega arith

Step-IsOrdered : {s t : Arrivals} → Step s t → IsOrdered s → IsOrdered t
Step-IsOrdered (accept s fd at) v =
    let all = rw (at) at v.all in
    record {
      waits = v.waits;
      holds = v.holds;
      all = rw (all, append-nil, append_assoc) refl;
      awake = v.awake;
    }
Step-IsOrdered (retry s fd at full) v = record {
  waits = v.waits;
  holds = push-false fits s.incoming_connections v.waits fd v.holds full;
  all = v.all;
  awake = v.awake;
}
Step-IsOrdered (queue s fd at room) v =
    let all = rw (at) at v.all in
    record {
      waits = v.waits ++ fd ∷ [];
      holds = push-true fits s.incoming_connections v.waits fd v.holds room;
      all = rw (append-nil) all;
      awake = v.awake;
    }
Step-IsOrdered (signal s at) v = record {
  waits = v.waits;
  holds = v.holds;
  all = rw (at) at v.all;
  awake = signal-Awake s.taker s.signals v.awake;
}
Step-IsOrdered (wake s at pending) v = record {
  waits = v.waits;
  holds = v.holds;
  all = v.all;
  awake = pending;
}
Step-IsOrdered (take_one s fd at found) v =
    let (rest, first, held) = pop-some fits s.incoming_connections v.waits fd v.holds found in
    record {
      waits = rest;
      holds = held;
      all = rw (v.all, first, append_assoc) refl;
      awake = v.awake;
    }
Step-IsOrdered (find_none s at empty) v = record {
  waits = v.waits;
  holds = pop-none fits s.incoming_connections v.waits v.holds empty;
  all = v.all;
  awake = rw (at) at v.awake;
}
Step-IsOrdered (clear s at) v = record { waits = v.waits; holds = v.holds; all = v.all; awake = tt }

Reach-IsOrdered : {slots : Array ℕ} {s : Arrivals} → Reach slots s → IsOrdered s
Reach-IsOrdered {slots} here = record {
  waits = [];
  holds = new-Holds fits slots;
  all = refl;
  awake = tt;
}
Reach-IsOrdered (next r step) = Step-IsOrdered step (Reach-IsOrdered r)

-- However the threads interleave, the connections that were accepted are those that were taken,
-- those in the queue and the one that is not queued yet, in this order; and where the counter is
-- about to be read, it is not 0, so that the read does not fail.
pub accepted_lem :
    {slots : Array ℕ} {s : Arrivals}
    → Reach slots s
    → ((waits : List ℕ) × Holds connection_bits s.incoming_connections waits
        × (s.accepted ≡ s.taken ++ (waits ++ in_hand s.acceptor)))
      × (s.taker ≡ clearing → 0 < s.signals)
accepted_lem r = let v = Reach-IsOrdered r in ((v.waits, v.holds, v.all), λ at. rw (at) at v.awake)
