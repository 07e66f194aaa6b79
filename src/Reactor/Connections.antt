-- ===== src/Reactor/Connections.antt =====
-- How `run` of src/network/EpollReactor.h takes over the connections that wait in its queue.
use marketdatabook.Common.{ℕ, ◌<◌, ◌≡◌, refl, sym, ◌∙◌, arith}
use marketdatabook.Common.{List, [], ◌∷◌, ◌++◌, none, some, append_assoc, append-nil}
use marketdatabook.Spsc
use marketdatabook.Spsc.{Queue}
use marketdatabook.Spsc.Holds.{Holds}
use marketdatabook.Spsc.Calls.{pop-Agrees}

-- The queue, the descriptors that epoll watches, and those that were closed.
pub record Registry : Type 0 where
  pub incoming_connections : Queue ℕ
  pub watched : List ℕ
  pub closed : List ℕ

-- The answers for a connection: `fcntl` and `epoll_ctl` succeed, `fcntl` fails, or `epoll_ctl`
-- fails.
pub data Answer : Type 0 where
  added not_set not_added : Answer

-- How the loop ends: it returns, `add_socket` throws, or it goes on behind the answers.
pub data Registered : Type 0 where
  returned threw_at : Registry → Registered
  unanswered : Registered

-- `incoming_connections_` has 2 ^ 10 slots.
abbrev pub connection_bits : ℕ
connection_bits = 10

-- No descriptor here is -1: `wait_for_connections` queues none.
abbrev pub add_socket : Registry → ℕ → Registry
add_socket s fd = record s { watched = s.watched ++ fd ∷ [] }

abbrev pub refuse : Registry → ℕ → Registry
refuse s fd = record s { closed = s.closed ++ fd ∷ [] }

-- The loop over the queue.
unfoldable pub register : List Answer → Registry → Registered
register [] s =
    let (q, popped) = Spsc.pop connection_bits s.incoming_connections in
    elim popped [ none ↦ returned (record s { incoming_connections = q }) | some fd ↦ unanswered ]
register (a ∷ answers) s =
    let (q, popped) = Spsc.pop connection_bits s.incoming_connections in
    let s1 = record s { incoming_connections = q } in
    let next = λ (fd : ℕ). register answers (add_socket s1 fd) in
    let skip = λ (fd : ℕ). register answers (refuse s1 fd) in
    elim popped [
      | none ↦ returned s1
      | some fd ↦ elim a [ added ↦ next fd | not_set ↦ skip fd | not_added ↦ threw_at s1 ]
    ]

-- The connections whose answer is `added`, and those whose answer is `not_set`.
abbrev pub added_of : List Answer → List ℕ → List ℕ
added_of [] fds = []
added_of (a ∷ answers) [] = []
added_of (added ∷ answers) (fd ∷ fds) = fd ∷ added_of answers fds
added_of (not_set ∷ answers) (fd ∷ fds) = added_of answers fds
added_of (not_added ∷ answers) (fd ∷ fds) = []

abbrev pub refused_of : List Answer → List ℕ → List ℕ
refused_of [] fds = []
refused_of (a ∷ answers) [] = []
refused_of (added ∷ answers) (fd ∷ fds) = refused_of answers fds
refused_of (not_set ∷ answers) (fd ∷ fds) = fd ∷ refused_of answers fds
refused_of (not_added ∷ answers) (fd ∷ fds) = []

-- There is an answer for each connection, and `epoll_ctl` fails for none.
abbrev pub Answers : List Answer → List ℕ → Type 0
Answers answers [] = Unit
Answers [] (fd ∷ fds) = ⊥
Answers (added ∷ answers) (fd ∷ fds) = Answers answers fds
Answers (not_set ∷ answers) (fd ∷ fds) = Answers answers fds
Answers (not_added ∷ answers) (fd ∷ fds) = ⊥

-- The queue is empty, and the connections are watched or closed, in the order of the queue.
pub record IsRegistered (s s' : Registry) (answers : List Answer) (fds : List ℕ) : Type 0 where
  pub emptied : Holds connection_bits s'.incoming_connections []
  pub watches : s'.watched ≡ s.watched ++ added_of answers fds
  pub closes : s'.closed ≡ s.closed ++ refused_of answers fds

fits : connection_bits < 64
fits = omega arith

register-nil :
    (answers : List Answer) (s : Registry)
    → Holds connection_bits s.incoming_connections []
    → (s' : Registry) × (register answers s ≡ returned s') × IsRegistered s s' answers []
unfolding register
register-nil [] s h =
    let (emptied, nothing) = pop-Agrees fits h in
    (
      _,
      rw (nothing, register) refl,
      record {
        emptied = emptied;
        watches = sym (append-nil s.watched);
        closes = sym (append-nil s.closed);
      },
    )
register-nil (a ∷ answers) s h =
    let (emptied, nothing) = pop-Agrees fits h in
    (
      _,
      rw (nothing, register) refl,
      record {
        emptied = emptied;
        watches = sym (append-nil s.watched);
        closes = sym (append-nil s.closed);
      },
    )

-- Where the queue holds some connections and there is an answer for each with which `add_socket`
-- does not throw, the loop returns with the queue empty, and each connection is watched or closed
-- as its answer says, in the order of the queue.
pub register-IsRegistered :
    (fds : List ℕ) (answers : List Answer) (s : Registry)
    → Holds connection_bits s.incoming_connections fds
    → Answers answers fds
    → (s' : Registry) × (register answers s ≡ returned s') × IsRegistered s s' answers fds
unfolding register
register-IsRegistered [] answers s h ok = register-nil answers s h
register-IsRegistered (fd ∷ fds) [] s h ok = absurd ok
register-IsRegistered (fd ∷ fds) (not_added ∷ answers) s h ok = absurd ok
register-IsRegistered (fd ∷ fds) (added ∷ answers) s h ok =
    let (rest, first) = pop-Agrees fits h in
    let q = (Spsc.pop connection_bits s.incoming_connections).0 in
    let (s', run, v) =
      register-IsRegistered fds answers (add_socket (record s { incoming_connections = q }) fd) rest
        ok in
    (
      s',
      rw (first, register) run,
      record {
        emptied = v.emptied;
        watches = v.watches ∙ append_assoc s.watched (fd ∷ []) (added_of answers fds);
        closes = v.closes;
      },
    )
register-IsRegistered (fd ∷ fds) (not_set ∷ answers) s h ok =
    let (rest, first) = pop-Agrees fits h in
    let q = (Spsc.pop connection_bits s.incoming_connections).0 in
    let (s', run, v) =
      register-IsRegistered fds answers (refuse (record s { incoming_connections = q }) fd) rest
        ok in
    (
      s',
      rw (first, register) run,
      record {
        emptied = v.emptied;
        watches = v.watches;
        closes = v.closes ∙ append_assoc s.closed (fd ∷ []) (refused_of answers fds);
      },
    )
