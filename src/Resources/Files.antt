-- ===== src/Resources/Files.antt =====
-- The files of src/recovery/MmapLogger.cpp and of src/recovery/RecoveryEngine.cpp: how they are
-- opened and mapped, and what is given back.
use marketdatabook.Common.{ℕ, ◌≡◌, refl, Bool, true, false, Option, none, some}
use marketdatabook.Resources.{
  Kernel, Made, made, failed, opened, close, map_range, munmap, munmap_any,
}
use marketdatabook.Resources.{IsFreshFd, IsFreshRange, IsSame, IsSame-refl, CleansUp, close-opened}
use marketdatabook.Resources.{munmap-map_range, mmap, open_file, fallocate, madvise}
use marketdatabook.Wal.{file_size}

-- The constructor of MmapLogger: `start_`. The arguments are the answers to `open`, `fallocate`,
-- `mmap` and `madvise`. The descriptor is closed in any case.
unfoldable pub new_logger : Option ℕ → Bool → Option ℕ → Bool → Kernel → Made (Option ℕ)
new_logger none room at advised k = failed open_file k
new_logger (some fd) false at advised k = failed fallocate (close (opened k fd) fd)
new_logger (some fd) true none advised k = failed mmap (close (opened k fd) fd)
new_logger (some fd) true (some at) false k =
    failed madvise (munmap (close (map_range (opened k fd) at file_size) fd) at file_size)
new_logger (some fd) true (some at) true k =
    made (some at) (close (map_range (opened k fd) at file_size) fd)

abbrev pub destroy_logger : Option ℕ → Kernel → Kernel
destroy_logger start k = munmap_any k start file_size

-- The new object's `start_`, and what is left in the old one.
abbrev pub move_logger : Option ℕ → Option ℕ × Option ℕ
move_logger other = (other, none)

-- The move assignment between two objects.
abbrev pub assign_logger : Option ℕ → Option ℕ → Kernel → Option ℕ × Option ℕ × Kernel
assign_logger this other k = (other, none, munmap_any k this file_size)

-- The start of `run_recovery`, on a file of `size` bytes: the descriptor and the mapping. The
-- arguments are the answers to `open`, `mmap` and `madvise`.
unfoldable pub open_log : ℕ → Option ℕ → Option ℕ → Bool → Kernel → Made (ℕ × ℕ)
open_log size none at advised k = failed open_file k
open_log size (some fd) none advised k = failed mmap (close (opened k fd) fd)
open_log size (some fd) (some at) false k =
    failed madvise (munmap (close (map_range (opened k fd) at size) fd) at size)
open_log size (some fd) (some at) true k = made (fd, at) (map_range (opened k fd) at size)

-- The end of `run_recovery`.
abbrev pub close_log : ℕ → ℕ × ℕ → Kernel → Kernel
close_log size (fd, at) k = munmap (close k fd) at size

given_back :
    (k : Kernel) (fd at len : ℕ)
    → k.is_open fd ≡ false
    → IsFreshRange k len (some at)
    → IsSame k (munmap (close (map_range (opened k fd) at len) fd) at len)
given_back k fd at len fresh range = record {
  same_open = (close-opened k fd fresh).same_open;
  same_mapped = (munmap-map_range k at len range).same_mapped;
  same_infos = refl;
  same_faults = (close-opened k fd fresh).same_faults;
}

-- Whichever call fails, the constructor of an MmapLogger leaves nothing behind when it throws, and
-- only the mapping that the destructor gives back when it returns, where a new descriptor was not
-- open and new memory is where nothing was mapped.
pub new_logger-CleansUp :
    (fd : Option ℕ) (room : Bool) (at : Option ℕ) (advised : Bool) (k : Kernel)
    → IsFreshFd k fd
    → IsFreshRange k file_size at
    → CleansUp destroy_logger k (new_logger fd room at advised k)
unfolding new_logger CleansUp
new_logger-CleansUp none room at advised k fresh range = IsSame-refl k
new_logger-CleansUp (some fd) false at advised k fresh range = close-opened k fd fresh
new_logger-CleansUp (some fd) true none advised k fresh range = close-opened k fd fresh
new_logger-CleansUp (some fd) true (some at) false k fresh range =
    given_back k fd at file_size fresh range
new_logger-CleansUp (some fd) true (some at) true k fresh range =
    given_back k fd at file_size fresh range

pub open_log-CleansUp :
    (size : ℕ) (fd at : Option ℕ) (advised : Bool) (k : Kernel)
    → IsFreshFd k fd
    → IsFreshRange k size at
    → CleansUp (close_log size) k (open_log size fd at advised k)
unfolding open_log CleansUp
open_log-CleansUp size none at advised k fresh range = IsSame-refl k
open_log-CleansUp size (some fd) none advised k fresh range = close-opened k fd fresh
open_log-CleansUp size (some fd) (some at) false k fresh range = given_back k fd at size fresh range
open_log-CleansUp size (some fd) (some at) true k fresh range = given_back k fd at size fresh range
