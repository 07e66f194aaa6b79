-- ===== src/Tests/Ring.antt =====
-- The ring of src/network/MulticastReceiver.h with a file of two blocks.
use marketdatabook.Common.{◌+◌, ◌≡◌, refl, arith, List, [], ◌∷◌, ◌++◌, length}
use marketdatabook.Common.Bytes.{Bytes}
use marketdatabook.Common.Memory.{load, store}
use marketdatabook.Multicast.Ring.{Mock, Reach, here, next, see_kernel, fill, publish}
use marketdatabook.Multicast.Ring.{see_user, parse}
use marketdatabook.Multicast.Ring.Statistics
use marketdatabook.Multicast.Ring.Statistics.{
  Watched, sum, uncounted, move_frame, print_total, printed_lem,
}
use marketdatabook.Multicast.Ring.Safety.{Fit, parsed_lem}

abbrev first_block : Bytes
first_block = 7 ∷ 8 ∷ []

abbrev file_blocks : List Bytes
file_blocks = first_block ∷ (9 ∷ []) ∷ []

file_blocks-Fit : Fit 32 file_blocks
file_blocks-Fit = (omega arith, (omega arith, tt))

-- The first block filled, published and parsed.
abbrev one_parsed : (t : Mock) × Reach 32 file_blocks t
one_parsed =
    let filled = fill _ first_block _ refl refl in
    let published = publish _ first_block _ refl refl in
    (
      _,
      next
          (next
            (next (next (next here (see_kernel _ first_block _ refl refl refl)) filled) published)
            (see_user _ refl refl))
          (parse _ refl),
    )

parsed_first : one_parsed.0.parsed ≡ first_block ∷ []
unfolding load store
parsed_first = refl

parsed_lem_example : (ahead : List Bytes) × (file_blocks ≡ one_parsed.0.parsed ++ ahead)
parsed_lem_example = parsed_lem 32 file_blocks-Fit one_parsed.1

-- The first block parsed, and the counter printed before its frame is given back.
abbrev printed_once : (s : Watched) × Statistics.Reach 32 file_blocks s
printed_once =
    let filled = fill _ first_block _ refl refl in
    let published = publish _ first_block _ refl refl in
    let ready =
      Statistics.next
        (Statistics.next
          (Statistics.next Statistics.here
            (move_frame _ _ (see_kernel _ first_block _ refl refl refl)))
          (move_frame _ _ filled))
        (move_frame _ _ published) in
    (
      _,
      Statistics.next
          (Statistics.next (Statistics.next ready (move_frame _ _ (see_user _ refl refl)))
            (move_frame _ _ (parse _ refl)))
          (print_total _),
    )

printed_lem_example :
    ((ahead : List Bytes) × (file_blocks ≡ printed_once.0.frames.parsed ++ ahead))
    × (sum printed_once.0.printed
          + printed_once.0.frames.total_packets
          + uncounted printed_once.0.frames.poller
        ≡ length printed_once.0.frames.parsed)
printed_lem_example = printed_lem 32 file_blocks-Fit (omega arith) printed_once.1
