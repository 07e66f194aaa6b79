-- ===== src/Resources/Buffers.antt =====
-- The memory of src/utils/MagicBuffer.h and of src/utils/StaticOrderMap.h: how the constructors map
-- it, and what the destructors unmap. Pages have 2 ^ p bytes.
use marketdatabook.Common.{
  ℕ, zero, suc, ◌+◌, ◌*◌, refl, arith, Bool, true, false, Option, none, some,
}
use marketdatabook.Resources.{
  Kernel, Made, made, failed, opened, close, close_any, munmap_any, map_range, munmap,
}
use marketdatabook.Resources.{IsFreshFd, IsFreshRange, IsSame-refl, CleansUp, close-opened}
use marketdatabook.Resources.{munmap-map_range, mmap, memfd_create, ftruncate, bad_argument}
use marketdatabook.Resources.Pages.{page_aligned}

-- `start_`, `aligned_capacity_` and `fd_`, with `none` for a null pointer and for -1.
pub record Buffer : Type 0 where
  pub start : Option ℕ
  pub aligned_capacity : ℕ
  pub fd : Option ℕ

abbrev pub destroy_buffer : Buffer → Kernel → Kernel
destroy_buffer b k = close_any (munmap_any k b.start (b.aligned_capacity * 2)) b.fd

-- `MagicBuffer` behind the test for a capacity of 0. The arguments are the aligned capacity and the
-- answers to `memfd_create`, to `ftruncate`, to the `mmap` of the room for both halves, and to
-- those of the halves, which are at fixed addresses.
unfoldable pub map_buffer : ℕ → Option ℕ → Bool → Option ℕ → Bool → Bool → Kernel → Made Buffer
map_buffer cap none truncated room first second k = failed memfd_create k
map_buffer cap (some fd) false room first second k = failed ftruncate (close (opened k fd) fd)
map_buffer cap (some fd) true none first second k = failed mmap (close (opened k fd) fd)
map_buffer cap (some fd) true (some at) false second k =
    failed mmap (close (munmap (map_range (opened k fd) at (cap * 2)) at (cap * 2)) fd)
map_buffer cap (some fd) true (some at) true false k =
    let half = map_range (map_range (opened k fd) at (cap * 2)) at cap in
    failed mmap (close (munmap half at (cap * 2)) fd)
map_buffer cap (some fd) true (some at) true true k =
    let half = map_range (map_range (opened k fd) at (cap * 2)) at cap in
    made (record { start = some at; aligned_capacity = cap; fd = some fd })
      (map_range half (at + cap) cap)

unfoldable pub new_buffer : ℕ → ℕ → Option ℕ → Bool → Option ℕ → Bool → Bool → Kernel → Made Buffer
new_buffer p zero fd truncated room first second k = failed bad_argument k
new_buffer p (suc n) fd truncated room first second k =
    map_buffer (page_aligned p (suc n)) fd truncated room first second k

-- `map_` and `mapped_bytes_`
pub record Table : Type 0 where
  pub map_ : Option ℕ
  pub mapped_bytes : ℕ

-- A bucket has 16 bytes. The arguments are the page size, the capacity and the answer to `mmap`.
unfoldable pub new_table : ℕ → ℕ → Option ℕ → Kernel → Made Table
new_table p capacity none k = failed mmap k
new_table p capacity (some at) k =
    let bytes = page_aligned p (capacity * 16) in
    made (record { map_ = some at; mapped_bytes = bytes }) (map_range k at bytes)

abbrev pub destroy_table : Table → Kernel → Kernel
destroy_table t k = munmap_any k t.map_ t.mapped_bytes

map_buffer-CleansUp :
    (cap : ℕ) (fd : Option ℕ) (truncated : Bool) (room : Option ℕ) (first second : Bool)
    (k : Kernel)
    → IsFreshFd k fd
    → IsFreshRange k (cap * 2) room
    → CleansUp destroy_buffer k (map_buffer cap fd truncated room first second k)
unfolding map_buffer CleansUp
map_buffer-CleansUp cap none truncated room first second k fresh range = IsSame-refl k
map_buffer-CleansUp cap (some fd) false room first second k fresh range = close-opened k fd fresh
map_buffer-CleansUp cap (some fd) true none first second k fresh range = close-opened k fd fresh
map_buffer-CleansUp cap (some fd) true (some at) false second k fresh range = record {
  same_open = (close-opened k fd fresh).same_open;
  same_mapped = (munmap-map_range k at (cap * 2) range).same_mapped;
  same_infos = refl;
  same_faults = (close-opened k fd fresh).same_faults;
}
map_buffer-CleansUp cap (some fd) true (some at) true false k fresh range = record {
  same_open = (close-opened k fd fresh).same_open;
  same_mapped = λ x. ground (arith, range x);
  same_infos = refl;
  same_faults = (close-opened k fd fresh).same_faults;
}
map_buffer-CleansUp cap (some fd) true (some at) true true k fresh range = record {
  same_open = (close-opened k fd fresh).same_open;
  same_mapped = λ x. ground (arith, range x);
  same_infos = refl;
  same_faults = (close-opened k fd fresh).same_faults;
}

-- Whichever call fails, the constructor of a MagicBuffer leaves nothing behind when it throws, and
-- what the destructor gives back when it returns, where a new descriptor was not open and new
-- memory is where nothing was mapped.
pub new_buffer-CleansUp :
    (p capacity : ℕ) (fd : Option ℕ) (truncated : Bool) (room : Option ℕ) (first second : Bool)
    (k : Kernel)
    → IsFreshFd k fd
    → IsFreshRange k (page_aligned p capacity * 2) room
    → CleansUp destroy_buffer k (new_buffer p capacity fd truncated room first second k)
unfolding new_buffer CleansUp
new_buffer-CleansUp p zero fd truncated room first second k fresh range = IsSame-refl k
new_buffer-CleansUp p (suc n) fd truncated room first second k fresh range =
    map_buffer-CleansUp (page_aligned p (suc n)) fd truncated room first second k fresh range

pub new_table-CleansUp :
    (p capacity : ℕ) (at : Option ℕ) (k : Kernel)
    → IsFreshRange k (page_aligned p (capacity * 16)) at
    → CleansUp destroy_table k (new_table p capacity at k)
unfolding new_table CleansUp
new_table-CleansUp p capacity none k range = IsSame-refl k
new_table-CleansUp p capacity (some at) k range =
    munmap-map_range k at (page_aligned p (capacity * 16)) range
