-- ===== src/Magic.antt =====
-- src/utils/MagicBuffer.h: a ring of bytes that is mapped twice, one copy behind the other. The
-- heads are offsets from `start_`, and `second_half_start_` is the offset `aligned_capacity`. The
-- system calls that map and unmap the memory, and the move operations, are not modelled.
pub mod Ring
pub mod Contents
use marketdatabook.Common.{ℕ, ◌+◌, ◌-◌, ◌%◌, ltb, if◌then◌else◌, List, [], ◌∷◌, length, update}
use marketdatabook.Common.Bytes.{Bytes}
use marketdatabook.Common.Memory.{Memory, load}

pub record MagicBuffer : Type 0 where
  pub cells : Memory
  pub read_head : ℕ
  pub write_head : ℕ
  pub aligned_capacity : ℕ

-- The two mappings of the same memory.
abbrev pub view : Memory → ℕ → Memory
view cells cap = λ at. cells (at % cap)

-- Bytes stored through the two mappings.
unfoldable pub fill : Memory → ℕ → ℕ → Bytes → Memory
fill cells cap at [] = cells
fill cells cap at (b ∷ bs) = fill (update cells (at % cap) b) cap (at + 1) bs

unfoldable pub read_space_left : MagicBuffer → ℕ
read_space_left b =
    if ltb b.write_head b.read_head
    then b.aligned_capacity - (b.read_head - b.write_head)
    else b.write_head - b.read_head

abbrev pub write_space_left : MagicBuffer → ℕ
write_space_left b = b.aligned_capacity - 1 - read_space_left b

-- A head that moves on, and the wrap to the first mapping.
unfoldable pub moved : ℕ → ℕ → ℕ → ℕ
moved cap head bytes = if ltb (head + bytes) cap then head + bytes else head + bytes - cap

abbrev pub advance_write : MagicBuffer → ℕ → MagicBuffer
advance_write b bytes = record b { write_head = moved b.aligned_capacity b.write_head bytes }

abbrev pub advance_read : MagicBuffer → ℕ → MagicBuffer
advance_read b bytes = record b { read_head = moved b.aligned_capacity b.read_head bytes }

abbrev pub reset : MagicBuffer → MagicBuffer
reset b = record b { read_head = 0; write_head = 0 }

-- EpollReactor.h: `recv` stores bytes at the write head, and `advance_write` takes them over. What
-- the handler does in between is not modelled.
abbrev pub receive : MagicBuffer → Bytes → MagicBuffer
receive b bs =
    advance_write (record b { cells = fill b.cells b.aligned_capacity b.write_head bs }) (length bs)

-- The bytes that are there to be read.
abbrev pub contents : MagicBuffer → Bytes
contents b = load (view b.cells b.aligned_capacity) b.read_head (read_space_left b)
