-- ===== src/Multicast/Filter.antt =====
-- The packet filter of src/network/MulticastReceiver.h: its instructions, and the classic BPF
-- machine that the kernel runs them on, as far as they use it.
pub mod Wanted
use marketdatabook.Common.{
  ℕ, zero, suc, ◌+◌, ◌*◌, ◌%◌, ◌==◌, ltb, if◌then◌else◌, Bool, true, false, bit_and,
}
use marketdatabook.Common.{List, [], ◌∷◌, length, get_elem?, Option, none, some}
use marketdatabook.Common.Bytes.{Bytes, from_be}
use marketdatabook.Itch.Decode.{field}

-- `struct sock_filter`
pub record SockFilter : Type 0 where
  pub code : ℕ
  pub jt : ℕ
  pub jf : ℕ
  pub k : ℕ

-- What the codes that occur mean: two bytes of the packet into the accumulator, at an offset or at
-- an offset behind the index register; a byte into it; four times the low half of a byte into the
-- index register; jumps; the end.
pub data Opcode : Type 0 where
  load_half load_byte load_half_indexed load_header_length : Opcode
  jump_equal jump_set : Opcode
  return_length : Opcode
  unknown : Opcode

unfoldable pub opcode : ℕ → Opcode
opcode code =
    if code == 0x28
    then load_half
    else if code == 0x30
    then load_byte
    else if code == 0x48
    then load_half_indexed
    else if code == 0xb1
    then load_header_length
    else if code == 0x15
    then jump_equal
    else if code == 0x45
    then jump_set
    else if code == 0x6
    then return_length
    else unknown

-- A load behind the end of the packet ends the filter with 0.
unfoldable pub half : Bytes → ℕ → Option ℕ
half packet at = if ltb (length packet) (at + 2) then none else some (from_be (field at 2 packet))

-- The instructions that are left, how many of them a jump passes over, and the two registers. The
-- result is the number of bytes of the packet to deliver, 0 for none.
unfoldable pub exec : List SockFilter → ℕ → ℕ → ℕ → Bytes → ℕ
exec [] skip a x packet = 0
exec (i ∷ code) (suc skip) a x packet = exec code skip a x packet
exec (i ∷ code) zero a x packet = elim (opcode i.code) [
  | load_half ↦ elim (half packet i.k) [ none ↦ 0 | some v ↦ exec code 0 v x packet ]
  | load_byte ↦ elim (get_elem? packet i.k) [ none ↦ 0 | some v ↦ exec code 0 v x packet ]
  | load_half_indexed ↦ elim (half packet (x + i.k)) [ none ↦ 0 | some v ↦ exec code 0 v x packet ]
  | load_header_length ↦ elim (get_elem? packet i.k) [
    | none ↦ 0
    | some v ↦ exec code 0 a (4 * bit_and v 0xf) packet
  ]
  | jump_equal ↦ exec code (if a == i.k then i.jt else i.jf) a x packet
  | jump_set ↦ exec code (if bit_and a i.k == 0 then i.jf else i.jt) a x packet
  | return_length ↦ i.k
  | unknown ↦ 0
]

abbrev pub instruction : ℕ → ℕ → ℕ → ℕ → SockFilter
instruction code jt jf k = record { code = code; jt = jt; jf = jf; k = k }

abbrev pub bpf_code : List SockFilter
bpf_code =
    instruction 0x28 0 0 0x0000000c
    ∷ instruction 0x15 0 7 0x00000800
    ∷ instruction 0x30 0 0 0x00000017
    ∷ instruction 0x15 0 11 0x00000011
    ∷ instruction 0x28 0 0 0x00000014
    ∷ instruction 0x45 9 0 0x00001fff
    ∷ instruction 0xb1 0 0 0x0000000e
    ∷ instruction 0x48 0 0 0x00000010
    ∷ instruction 0x15 5 6 0x0000e3fa
    ∷ instruction 0x15 0 5 0x000086dd
    ∷ instruction 0x30 0 0 0x00000014
    ∷ instruction 0x15 0 3 0x00000011
    ∷ instruction 0x28 0 0 0x00000038
    ∷ instruction 0x15 0 1 0x0000e3fa
    ∷ instruction 0x6 0 0 0x00040000
    ∷ instruction 0x6 0 0 0x00000000
    ∷ []

-- The filter on a packet, registers at 0.
unfoldable pub filter_packet : Bytes → ℕ
filter_packet packet = exec bpf_code 0 0 0 packet
