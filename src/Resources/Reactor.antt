-- ===== src/Resources/Reactor.antt =====
-- The constructor, the destructor and the move assignment of src/network/EpollReactor.h: the epoll
-- descriptor, and a MagicBuffer for each connection.
pub mod Leaves
use marketdatabook.Common.{
  arith, ℕ, zero, suc, ◌*◌, ◌≡◌, refl, Bool, true, false, if◌then◌else◌, Option, none, some, List,
  [], ◌∷◌,
}
use marketdatabook.Resources.{
  Kernel, Call, Made, made, failed, opened, close, close_any, munmap_any,
}
use marketdatabook.Resources.{
  IsFreshFd, IsFreshRange, IsSame, IsSame-refl, IsSame-trans, CleansUp, close-opened, epoll_create,
}
use marketdatabook.Resources.Pages.{page_aligned}
use marketdatabook.Resources.Buffers.{Buffer, new_buffer, destroy_buffer, new_buffer-CleansUp}

-- The kernel's answers to the calls of one MagicBuffer.
pub record Answers : Type 0 where
  pub fd : Option ℕ
  pub truncated : Bool
  pub room : Option ℕ
  pub first : Bool
  pub second : Bool

-- `epoll_fd_` and `fd_buffers_`
pub record Reactor : Type 0 where
  pub epoll_fd : Option ℕ
  pub fd_buffers : List Buffer

-- `MAX_BUFFER_SIZE`; there are `MAX_CONNECTIONS` buffers, one for each of the answers.
abbrev pub max_buffer_size : ℕ
max_buffer_size = 4096

abbrev pub destroy_buffers : List Buffer → Kernel → Kernel
destroy_buffers [] k = k
destroy_buffers (b ∷ bs) k = destroy_buffer b (destroy_buffers bs k)

-- Pages have 2 ^ p bytes.
module _ (p : ℕ) where
  abbrev pub one_buffer : Answers → Kernel → Made Buffer
  one_buffer a k = new_buffer p max_buffer_size a.fd a.truncated a.room a.first a.second k

  -- The loop over `emplace_back`. Where one throws, the vector destroys the buffers that it has.
  unfoldable pub make_buffers : List Answers → Kernel → Made (List Buffer)
  make_buffers [] k = made [] k
  make_buffers (a ∷ answers) k = elim (one_buffer a k) [
    | failed call k' ↦ failed call k'
    | made b k' ↦ elim (make_buffers answers k') [
      | failed call k'' ↦ failed call (destroy_buffer b k'')
      | made bs k'' ↦ made (b ∷ bs) k''
    ]
  ]

  -- Where the constructor throws, no destructor closes `epoll_fd_`.
  unfoldable pub new_reactor : Option ℕ → Bool → List Answers → Kernel → Made Reactor
  new_reactor none initialize_buffers answers k = failed epoll_create k
  new_reactor (some fd) false answers k =
      made (record { epoll_fd = some fd; fd_buffers = [] }) (opened k fd)
  new_reactor (some fd) true answers k = elim (make_buffers answers (opened k fd)) [
    | failed call k' ↦ failed call k'
    | made bs k' ↦ made (record { epoll_fd = some fd; fd_buffers = bs }) k'
  ]

-- The body of the destructor, and then the members.
abbrev pub destroy_reactor : Reactor → Kernel → Kernel
destroy_reactor r k = destroy_buffers r.fd_buffers (close_any k r.epoll_fd)

-- The move assignment leaves the buffers where they are.
abbrev pub assign_reactor : Reactor → Reactor → Kernel → Reactor × Reactor × Kernel
assign_reactor this other k = (
  record this { epoll_fd = other.epoll_fd },
  record other { epoll_fd = none },
  close_any k this.epoll_fd,
)
