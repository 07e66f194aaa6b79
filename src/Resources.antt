-- ===== src/Resources.antt =====
-- An account of what the constructors, destructors and move operations of the classes open and
-- close: which descriptors are open, which addresses are mapped, and how many lists of
-- `getaddrinfo` are not freed yet. The kernel's answers to the calls are arguments; `none` is -1 or
-- `MAP_FAILED`. What the calls are given beside descriptors and addresses is not modelled.
pub mod TcpSocket
pub mod Receiver
pub mod Pages
pub mod Buffers
pub mod Files
pub mod Perf
pub mod Moves
pub mod Reactor
use marketdatabook.Common.{
  ℕ, ◌+◌, ◌-◌, ◌≡◌, refl, arith, ◌∙◌, ltb, not, ◌&&◌, if◌then◌else◌, Bool, true, false,
}
use marketdatabook.Common.{Array, update, Option, none, some}

-- The account.
pub record Kernel : Type 0 where
  pub is_open : Array Bool
  pub mapped : Array Bool
  pub infos : ℕ
  -- `close` of a descriptor that is not open.
  pub faults : ℕ

-- The calls whose failure the code reports.
pub data Call : Type 0 where
  getaddrinfo socket setsockopt bind listen accept fcntl ioctl inet_pton : Call
  open_file fallocate mmap madvise memfd_create ftruncate epoll_create : Call
  perf_event_open bad_argument : Call

-- A constructor or a method returns, or throws after a call that failed.
pub data Made {ℓ} (H : Type ℓ) : Type ℓ where
  made : H → Kernel → Made H
  failed : Call → Kernel → Made H

abbrev pub opened : Kernel → ℕ → Kernel
opened k fd = record k { is_open = update k.is_open fd true }

abbrev pub close : Kernel → ℕ → Kernel
close k fd = record k {
  is_open = update k.is_open fd false;
  faults = if k.is_open fd then k.faults else k.faults + 1;
}

abbrev pub inside : ℕ → ℕ → ℕ → Bool
inside addr len x = not (ltb x addr) && ltb x (addr + len)

abbrev pub map_range : Kernel → ℕ → ℕ → Kernel
map_range k addr len = record k { mapped = λ x. if inside addr len x then true else k.mapped x }

abbrev pub munmap : Kernel → ℕ → ℕ → Kernel
munmap k addr len = record k { mapped = λ x. if inside addr len x then false else k.mapped x }

abbrev pub allocated : Kernel → Kernel
allocated k = record k { infos = k.infos + 1 }

abbrev pub freeaddrinfo : Kernel → Kernel
freeaddrinfo k = record k { infos = k.infos - 1 }

-- A destructor's `if (fd != -1) close(fd)`.
abbrev pub close_any : Kernel → Option ℕ → Kernel
close_any k none = k
close_any k (some fd) = close k fd

-- A destructor's `if (ring_) munmap(ring_, len)`.
abbrev pub munmap_any : Kernel → Option ℕ → ℕ → Kernel
munmap_any k none len = k
munmap_any k (some addr) len = munmap k addr len

-- A descriptor that the kernel hands out was not open before.
abbrev pub IsFreshFd : Kernel → Option ℕ → Type 0
IsFreshFd k none = Unit
IsFreshFd k (some fd) = k.is_open fd ≡ false

-- A range that the kernel chooses was not mapped before.
abbrev pub IsFreshRange : Kernel → ℕ → Option ℕ → Type 0
IsFreshRange k len none = Unit
IsFreshRange k len (some addr) = (x : ℕ) → inside addr len x ≡ true → k.mapped x ≡ false

-- The same descriptors, mappings and lists, and no `close` of what was not open in between.
pub record IsSame (k k' : Kernel) : Type 0 where
  pub same_open : (fd : ℕ) → k'.is_open fd ≡ k.is_open fd
  pub same_mapped : (x : ℕ) → k'.mapped x ≡ k.mapped x
  pub same_infos : k'.infos ≡ k.infos
  pub same_faults : k'.faults ≡ k.faults

-- A constructor that throws leaves nothing behind, and one that returns leaves what the destructor
-- gives back.
unfoldable pub CleansUp {ℓ} : {H : Type ℓ} → (H → Kernel → Kernel) → Kernel → Made H → Type 0
CleansUp destroy k (made h k') = IsSame k (destroy h k')
CleansUp destroy k (failed call k') = IsSame k k'

pub IsSame-refl : (k : Kernel) → IsSame k k
IsSame-refl k = record {
  same_open = λ fd. refl;
  same_mapped = λ x. refl;
  same_infos = refl;
  same_faults = refl;
}

pub IsSame-trans : {k k' k'' : Kernel} → IsSame k k' → IsSame k' k'' → IsSame k k''
IsSame-trans v w = record {
  same_open = λ fd. w.same_open fd ∙ v.same_open fd;
  same_mapped = λ x. w.same_mapped x ∙ v.same_mapped x;
  same_infos = w.same_infos ∙ v.same_infos;
  same_faults = w.same_faults ∙ v.same_faults;
}

pub close-opened : (k : Kernel) (fd : ℕ) → k.is_open fd ≡ false → IsSame k (close (opened k fd) fd)
close-opened k fd fresh = record {
  same_open = λ x. ground arith;
  same_mapped = λ x. refl;
  same_infos = refl;
  same_faults = ground arith;
}

pub freeaddrinfo-allocated : (k : Kernel) → IsSame k (freeaddrinfo (allocated k))
freeaddrinfo-allocated k = record {
  same_open = λ x. refl;
  same_mapped = λ x. refl;
  same_infos = omega arith;
  same_faults = refl;
}

pub munmap-map_range :
    (k : Kernel) (addr len : ℕ)
    → IsFreshRange k len (some addr)
    → IsSame k (munmap (map_range k addr len) addr len)
munmap-map_range k addr len fresh = record {
  same_open = λ x. refl;
  same_mapped = λ x. ground (arith, fresh x);
  same_infos = refl;
  same_faults = refl;
}
