-- ===== src/Resources/TcpSocket.antt =====
-- src/network/TCPSocket.h: a descriptor, or -1.
pub mod Owned
use marketdatabook.Common.{ℕ, ◌+◌, ◌-◌, ◌==◌, ◌≡◌, refl, arith, if◌then◌else◌, Bool, true, false}
use marketdatabook.Common.{Array, update, Option, none, some, Option-cases, Bool-cases, inl, inr}
use marketdatabook.Resources.{Kernel, Call, Made, made, failed, opened, close, close_any}
use marketdatabook.Resources.{
  allocated, freeaddrinfo, IsFreshFd, IsSame, IsSame-refl, CleansUp, freeaddrinfo-allocated,
}
use marketdatabook.Resources.{getaddrinfo, socket, setsockopt, bind, listen, accept, fcntl}

-- The arguments are the answers to `getaddrinfo`, `socket`, `setsockopt` and `bind`.
unfoldable pub new : Bool → Option ℕ → Bool → Bool → Kernel → Made (Option ℕ)
new false new_socket can_set can_bind k = failed getaddrinfo k
new true none can_set can_bind k = failed socket (freeaddrinfo (allocated k))
new true (some fd) false can_bind k =
    failed setsockopt (freeaddrinfo (close (opened (allocated k) fd) fd))
new true (some fd) true false k = failed bind (freeaddrinfo (close (opened (allocated k) fd) fd))
new true (some fd) true true k = made (some fd) (freeaddrinfo (opened (allocated k) fd))

abbrev pub destroy : Option ℕ → Kernel → Kernel
destroy h k = close_any k h

-- The new object's descriptor, and what is left in the old one.
abbrev pub move_construct : Option ℕ → Option ℕ × Option ℕ
move_construct other = (other, none)

-- The move assignment between two objects: their descriptors and the kernel afterwards.
abbrev pub move_assign : Option ℕ → Option ℕ → Kernel → Option ℕ × Option ℕ × Kernel
move_assign this other k = (other, none, close_any k this)

abbrev pub listen_on : Bool → Kernel → Made (Unit {0})
listen_on ok k = if ok then made tt k else failed listen k

-- The answers of `accept`: a connection, nothing to accept yet, or another error.
pub data Accepted : Type 0 where
  connection : ℕ → Accepted
  would_block : Accepted
  refused : Accepted

-- The descriptor of the connection, or `none` for -1.
abbrev pub accept_one : Accepted → Kernel → Made (Option ℕ)
accept_one (connection fd) k = made (some fd) (opened k fd)
accept_one would_block k = made none k
accept_one refused k = failed accept k

-- The list of `getaddrinfo` is not given back. The value is that of the kernel's `connect`.
unfoldable pub connect : Bool → ℕ → Kernel → Made ℕ
connect has_info rc k = if has_info then made rc (allocated k) else failed getaddrinfo k

abbrev pub set_non_blocking : Bool → Bool → Kernel → Made (Unit {0})
set_non_blocking can_get can_set k =
    if can_get then if can_set then made tt k else failed fcntl k else failed fcntl k

abbrev pub set_no_delay : Bool → Kernel → Made (Unit {0})
set_no_delay ok k = if ok then made tt k else failed setsockopt k

abbrev pub set_quick_ack : Bool → Kernel → Made (Unit {0})
set_quick_ack ok k = if ok then made tt k else failed setsockopt k

pub closed :
    (k : Kernel) (fd : ℕ)
    → k.is_open fd ≡ false
    → IsSame k (freeaddrinfo (close (opened (allocated k) fd) fd))
closed k fd fresh = record {
  same_open = λ x. ground arith;
  same_mapped = λ x. refl;
  same_infos = omega arith;
  same_faults = ground arith;
}

-- Whichever call fails, the constructor leaves nothing behind when it throws, and what the
-- destructor closes when it returns, where a new descriptor was not open before.
pub new-CleansUp :
    (has_info : Bool) (new_socket : Option ℕ) (can_set can_bind : Bool) (k : Kernel)
    → IsFreshFd k new_socket
    → CleansUp destroy k (new has_info new_socket can_set can_bind k)
unfolding new CleansUp
new-CleansUp false new_socket can_set can_bind k fresh = IsSame-refl k
new-CleansUp true none can_set can_bind k fresh = freeaddrinfo-allocated k
new-CleansUp true (some fd) false can_bind k fresh = closed k fd fresh
new-CleansUp true (some fd) true false k fresh = closed k fd fresh
new-CleansUp true (some fd) true true k fresh = record {
  same_open = λ x. ground arith;
  same_mapped = λ x. refl;
  same_infos = omega arith;
  same_faults = ground arith;
}
