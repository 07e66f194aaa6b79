-- ===== src/Multicast.antt =====
-- src/network/MulticastReceiver.h: how `simulate_packets` cuts a file into blocks. The file is the
-- list of its bytes. The children are about the ring of frames, the filter and `poll`.
pub mod Blocks
pub mod Ring
pub mod Filter
pub mod Poll
use marketdatabook.Common.{ℕ, zero, suc, ltb, if◌then◌else◌, take, drop, length, List, [], ◌∷◌}
use marketdatabook.Common.{Option, none, some}
use marketdatabook.Common.Bytes.{Bytes}
use marketdatabook.Itch.Decode.{swapped}

-- One round of the loop: the message behind its length of two bytes, and the rest of the file;
-- `none` where the loop ends.
unfoldable pub next_block : Bytes → Option (Bytes × Bytes)
next_block file =
    let message_len = swapped 0 2 file in
    let rest = drop 2 file in
    if ltb (length file) 2
    then none
    else (if ltb (length rest) message_len
        then none
        else some (take message_len rest, drop message_len rest))

-- The loop with the rounds left: the blocks that it hands to the ring. It is `none` if the rounds
-- are used up.
unfoldable pub simulate : ℕ → Bytes → Option (List Bytes)
simulate zero file = none
simulate (suc fuel) file = elim (next_block file) [
  | none ↦ some []
  | some (block, rest) ↦ elim (simulate fuel rest) [ none ↦ none | some bs ↦ some (block ∷ bs) ]
]
