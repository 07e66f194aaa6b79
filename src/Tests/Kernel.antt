-- ===== src/Tests/Kernel.antt =====
-- The constructors and destructors at concrete answers of the kernel.
use marketdatabook.Common.{List, [], ◌∷◌, refl, arith, true, false, none, some, update}
use marketdatabook.Resources.{Kernel, CleansUp, IsSame, opened, allocated, freeaddrinfo, close}
use marketdatabook.Resources.TcpSocket
use marketdatabook.Resources.TcpSocket.Owned.{
  Sockets, Reach, here, next, construct, construct_by_move,
}
use marketdatabook.Resources.TcpSocket.Owned.{destruct, Reach-IsSame}
use marketdatabook.Resources.Receiver
use marketdatabook.Resources.Reactor
use marketdatabook.Resources.Reactor.Leaves.{Leaves, new_reactor-Leaves}
use marketdatabook.Resources.Receiver.{converted, new-CleansUp}

-- Three descriptors are open.
abbrev kernel : Kernel
kernel = record {
  is_open = update (update (update (λ _. false) 0 true) 1 true) 2 true;
  mapped = λ _. false;
  infos = 0;
  faults = 0;
}

-- A socket is made, moved to another place and destroyed there; a second one cannot be bound.
abbrev one_socket : Sockets
one_socket = record {
  sockets = update (λ _. none) 0 (some 3);
  kernel = freeaddrinfo (opened (allocated kernel) 3);
}

abbrev moved_socket : Sockets
moved_socket = record one_socket { sockets = update (update one_socket.sockets 0 none) 5 (some 3) }

abbrev not_bound : Sockets
not_bound = record moved_socket {
  kernel = freeaddrinfo (close (opened (allocated moved_socket.kernel) 4) 4);
}

abbrev all_gone : Sockets
all_gone = record { sockets = update not_bound.sockets 5 none; kernel = close not_bound.kernel 3 }

all_gone-Reach : Reach kernel all_gone
unfolding TcpSocket.new
all_gone-Reach =
    let made_one : Reach kernel one_socket =
      next here (construct _ 0 true (some 3) true true refl refl) in
    let moved : Reach kernel moved_socket =
      next made_one (construct_by_move _ 5 0 refl (omega arith)) in
    let failed_one : Reach kernel not_bound =
      next moved (construct _ 0 true (some 4) true false refl refl) in
    next failed_one (destruct _ 5)

Reach-IsSame_example : IsSame kernel all_gone.kernel
Reach-IsSame_example = Reach-IsSame all_gone-Reach (λ i. ground arith)

-- The ring cannot be mapped.
new-CleansUp_example :
    CleansUp Receiver.destroy kernel
      (Receiver.new (some 3) true converted true true true true none kernel)
new-CleansUp_example = new-CleansUp (some 3) true converted true true true true none kernel refl tt

-- The second buffer gets no descriptor.
abbrev two_answers : List Reactor.Answers
two_answers =
    record { fd = some 4; truncated = true; room = some 8192; first = true; second = true }
    ∷ record { fd = none; truncated = true; room = none; first = true; second = true }
    ∷ []

new_reactor-Leaves_example :
    Leaves (some 3) kernel (Reactor.new_reactor 12 (some 3) true two_answers kernel)
new_reactor-Leaves_example =
    new_reactor-Leaves 12 (some 3) true two_answers kernel refl
      (λ fd e. (ground (arith, e), λ x h. refl, (tt, tt, tt)))
