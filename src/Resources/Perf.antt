-- ===== src/Resources/Perf.antt =====
-- src/telemetry/TelemetryEngine.h with hardware telemetry: a counter of the kernel and the page
-- that describes it.
use marketdatabook.Common.{ℕ, ◌-◌, ◌==◌, if◌then◌else◌, refl, Option, none, some}
use marketdatabook.Resources.{Kernel, Made, made, failed, opened, close, map_range, munmap}
use marketdatabook.Resources.{IsFreshFd, IsFreshRange, IsSame-refl, CleansUp, close-opened}
use marketdatabook.Resources.{munmap-map_range, mmap, perf_event_open}

-- `metadata_` and `fd_`
pub record TelemetryEngine : Type 0 where
  pub metadata : ℕ
  pub fd : ℕ

-- The arguments are the answers to `perf_event_open` and to `mmap`.
unfoldable pub new_engine : Option ℕ → Option ℕ → Kernel → Made TelemetryEngine
new_engine none at k = failed perf_event_open k
new_engine (some fd) none k = failed mmap (close (opened k fd) fd)
new_engine (some fd) (some at) k =
    made (record { metadata = at; fd = fd }) (map_range (opened k fd) at 4096)

abbrev pub destroy_engine : TelemetryEngine → Kernel → Kernel
destroy_engine t k = munmap (close k t.fd) t.metadata 4096

-- With the `index` of the page and the processor's counters; an `assert` fails at index 0.
abbrev pub read_pmc : (ℕ → ℕ) → ℕ → Option ℕ
read_pmc rdpmc index = if index == 0 then none else some (rdpmc (index - 1))

pub new_engine-CleansUp :
    (fd at : Option ℕ) (k : Kernel)
    → IsFreshFd k fd
    → IsFreshRange k 4096 at
    → CleansUp destroy_engine k (new_engine fd at k)
unfolding new_engine CleansUp
new_engine-CleansUp none at k fresh range = IsSame-refl k
new_engine-CleansUp (some fd) none k fresh range = close-opened k fd fresh
new_engine-CleansUp (some fd) (some at) k fresh range = record {
  same_open = (close-opened k fd fresh).same_open;
  same_mapped = (munmap-map_range k at 4096 range).same_mapped;
  same_infos = refl;
  same_faults = (close-opened k fd fresh).same_faults;
}
