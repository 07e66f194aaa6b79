-- ===== src/Resources/Receiver.antt =====
-- src/network/MulticastReceiver.h: the packet socket and the mapping of its ring.
use marketdatabook.Common.{ℕ, ◌*◌, ◌^◌, refl, Bool, true, false, Option, none, some}
use marketdatabook.Resources.{Kernel, Made, made, failed, opened, close, close_any, map_range}
use marketdatabook.Resources.{IsFreshFd, IsFreshRange, IsSame-refl, CleansUp, close-opened}
use marketdatabook.Resources.{
  munmap-map_range, munmap_any, socket, ioctl, inet_pton, setsockopt, mmap,
}
use marketdatabook.Resources.{bad_argument}

-- `ring_` and `fd_`, with `none` for a null pointer and for -1.
pub record Receiver : Type 0 where
  pub ring : Option ℕ
  pub fd : Option ℕ

-- `RX_BLOCK_SIZE * RX_BLOCK_NR`
abbrev pub total_size : ℕ
total_size = 2 ^ 16 * 128

-- The answers of `inet_pton`: 1, 0 and -1.
pub data Conversion : Type 0 where
  converted invalid_format conversion_error : Conversion

-- The arguments are the answers to `socket`, to `ioctl`, to `inet_pton`, to `setsockopt` for the
-- membership, the filter, the version and the ring, and to `mmap`.
unfoldable pub new :
    Option ℕ → Bool → Conversion → Bool → Bool → Bool → Bool → Option ℕ → Kernel → Made Receiver
new none index addr member filter version ring at k = failed socket k
new (some fd) false addr member filter version ring at k = failed ioctl (close (opened k fd) fd)
new (some fd) true conversion_error member filter version ring at k =
    failed inet_pton (close (opened k fd) fd)
new (some fd) true invalid_format member filter version ring at k =
    failed inet_pton (close (opened k fd) fd)
new (some fd) true converted false filter version ring at k =
    failed setsockopt (close (opened k fd) fd)
new (some fd) true converted true false version ring at k =
    failed setsockopt (close (opened k fd) fd)
new (some fd) true converted true true false ring at k = failed setsockopt (close (opened k fd) fd)
new (some fd) true converted true true true false at k = failed setsockopt (close (opened k fd) fd)
new (some fd) true converted true true true true none k = failed mmap (close (opened k fd) fd)
new (some fd) true converted true true true true (some at) k =
    made (record { ring = some at; fd = some fd }) (map_range (opened k fd) at total_size)

-- The constructor for the simulation.
unfoldable pub new_mock : Bool → Option ℕ → Kernel → Made Receiver
new_mock false at k = failed bad_argument k
new_mock true none k = failed mmap k
new_mock true (some at) k = made (record { ring = some at; fd = none }) (map_range k at total_size)

abbrev pub destroy : Receiver → Kernel → Kernel
destroy r k = close_any (munmap_any k r.ring total_size) r.fd

-- Whichever call fails, the constructor leaves nothing behind when it throws, and what the
-- destructor gives back when it returns, where a new descriptor was not open and a new mapping is
-- where nothing was mapped.
pub new-CleansUp :
    (fd : Option ℕ) (index : Bool) (addr : Conversion) (member filter version ring : Bool)
    (at : Option ℕ) (k : Kernel)
    → IsFreshFd k fd
    → IsFreshRange k total_size at
    → CleansUp destroy k (new fd index addr member filter version ring at k)
unfolding new CleansUp
new-CleansUp none index addr member filter version ring at k fresh range = IsSame-refl k
new-CleansUp (some fd) false addr member filter version ring at k fresh range =
    close-opened k fd fresh
new-CleansUp (some fd) true conversion_error member filter version ring at k fresh range =
    close-opened k fd fresh
new-CleansUp (some fd) true invalid_format member filter version ring at k fresh range =
    close-opened k fd fresh
new-CleansUp (some fd) true converted false filter version ring at k fresh range =
    close-opened k fd fresh
new-CleansUp (some fd) true converted true false version ring at k fresh range =
    close-opened k fd fresh
new-CleansUp (some fd) true converted true true false ring at k fresh range =
    close-opened k fd fresh
new-CleansUp (some fd) true converted true true true false at k fresh range =
    close-opened k fd fresh
new-CleansUp (some fd) true converted true true true true none k fresh range =
    close-opened k fd fresh
new-CleansUp (some fd) true converted true true true true (some at) k fresh range = record {
  same_open = (close-opened k fd fresh).same_open;
  same_mapped = (munmap-map_range k at total_size range).same_mapped;
  same_infos = refl;
  same_faults = (close-opened k fd fresh).same_faults;
}

pub new_mock-CleansUp :
    (mock_mode : Bool) (at : Option ℕ) (k : Kernel)
    → IsFreshRange k total_size at
    → CleansUp destroy k (new_mock mock_mode at k)
unfolding new_mock CleansUp
new_mock-CleansUp false at k range = IsSame-refl k
new_mock-CleansUp true none k range = IsSame-refl k
new_mock-CleansUp true (some at) k range = munmap-map_range k at total_size range
