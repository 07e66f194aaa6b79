-- ===== src/Resources/Moves.antt =====
-- The move operations of src/network/MulticastReceiver.h, of src/utils/StaticOrderMap.h and of
-- src/utils/MagicBuffer.h, between two objects.
use marketdatabook.Common.{ℕ, zero, suc, ◌+◌, ◌≡◌, ◌≢◌, arith, true, Option, none, some}
use marketdatabook.Resources.{Kernel, close, munmap, munmap_any, IsSame, IsSame-refl}
use marketdatabook.Resources.Receiver
use marketdatabook.Resources.Receiver.{Receiver, total_size}
use marketdatabook.Resources.Buffers.{Buffer, destroy_buffer, Table, destroy_table}

-- The new object, and what is left in the old one.
abbrev pub move_receiver : Receiver → Receiver × Receiver
move_receiver other = (other, record { ring = none; fd = none })

-- The arguments of `close` and `munmap`: -1 is no descriptor that is open, and a null pointer is 0.
abbrev pub close_value : Kernel → Option ℕ → Kernel
close_value k none = record k { faults = k.faults + 1 }
close_value k (some fd) = close k fd

abbrev pub address : Option ℕ → ℕ
address none = 0
address (some at) = at

-- `if (fd_)` is false for the descriptor 0.
abbrev pub give_back : Receiver → Option ℕ → Kernel → Kernel
give_back this (some zero) k = k
give_back this fd k = munmap (close_value k fd) (address this.ring) total_size

-- The move assignment between two receivers: both, and the kernel afterwards.
abbrev pub assign_receiver : Receiver → Receiver → Kernel → Receiver × Receiver × Kernel
assign_receiver this other k = (other, record { ring = none; fd = none }, give_back this this.fd k)

-- `mapped_bytes_` of the new table is not set: it holds any number.
abbrev pub move_table : Table → ℕ → Table × Table
move_table other any =
    (record { map_ = other.map_; mapped_bytes = any }, record other { map_ = none })

abbrev pub assign_table : Table → Table → Kernel → Table × Table × Kernel
assign_table this other k =
    (other, record other { map_ = none }, munmap_any k this.map_ this.mapped_bytes)

-- `fd_` of the new buffer is not set, and that of the old one stays.
abbrev pub move_buffer : Buffer → Option ℕ → Buffer × Buffer
move_buffer other any = (record other { fd = any }, record other { start = none })

abbrev give_halves : Buffer → Option ℕ → Kernel → Kernel
give_halves this none k = k
give_halves this (some at) k =
    let cap = this.aligned_capacity in close_value (munmap (munmap k at cap) (at + cap) cap) this.fd

-- `fd_` stays what it was on both sides.
abbrev pub assign_buffer : Buffer → Buffer → Kernel → Buffer × Buffer × Kernel
assign_buffer this other k =
    (record other { fd = this.fd }, record other { start = none }, give_halves this this.start k)

-- When both receivers are destroyed after a move assignment, the kernel is as when both are
-- destroyed without it, where the first has a mapping and a descriptor other than 0.
pub assign_receiver-IsSame :
    (at n : ℕ) (other : Receiver) (k : Kernel)
    → let this : Receiver = record { ring = some at; fd = some (suc n) } in
      let (this', other', k') = assign_receiver this other k in
      IsSame
        (Receiver.destroy other (Receiver.destroy this k))
        (Receiver.destroy other' (Receiver.destroy this' k'))
assign_receiver-IsSame at n other k = IsSame-refl _

pub assign_table-IsSame :
    (this other : Table) (k : Kernel)
    → let (this', other', k') = assign_table this other k in
      IsSame
        (destroy_table other (destroy_table this k))
        (destroy_table other' (destroy_table this' k'))
assign_table-IsSame this other k = IsSame-refl _

-- After a move assignment of a MagicBuffer the destructors close the first descriptor again.
pub assign_buffer-faults :
    (at cap at' cap' fd fd' : ℕ) (k : Kernel)
    → k.is_open fd ≡ true
    → k.is_open fd' ≡ true
    → fd ≢ fd'
    → let this : Buffer = record { start = some at; aligned_capacity = cap; fd = some fd } in
      let other : Buffer = record { start = some at'; aligned_capacity = cap'; fd = some fd' } in
      let (this', other', k') = assign_buffer this other k in
      (destroy_buffer other' (destroy_buffer this' k')).faults ≡ k.faults + 1
assign_buffer-faults at cap at' cap' fd fd' k open_first open_second ne =
    ground (arith, open_first, open_second)
