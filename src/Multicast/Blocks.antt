-- ===== src/Multicast/Blocks.antt =====
-- Files of framed blocks, as `simulate_packets` of MulticastReceiver.h reads them.
use marketdatabook.Common.{ℕ, zero, suc, ◌<◌, ◌^◌, ltb, ◌≡◌, refl, ap, ◌∙◌, arith, false}
use marketdatabook.Common.{
  List, [], ◌∷◌, ◌++◌, length, take, drop, none, some, take-append, drop-append, length-append,
  append_assoc,
}
use marketdatabook.Common.Bytes.{Bytes, to_be, bswap, load_le, length-to_be}
use marketdatabook.Itch.Decode.{swapped}
use marketdatabook.Itch.Wire.{swapped_be}
use marketdatabook.Multicast.{next_block, simulate}

-- A block behind its length in network order.
abbrev pub framed : Bytes → Bytes
framed block = to_be 2 (length block) ++ block

pub file_of : List Bytes → Bytes → Bytes
file_of [] tail = tail
file_of (b ∷ bs) tail = framed b ++ file_of bs tail

-- The blocks' lengths fit two bytes.
unfoldable pub AreShort : List Bytes → Type 0
AreShort [] = Unit
AreShort (b ∷ bs) = (length b < 256 ^ 2) × AreShort bs

length_prefix :
    (block rest : Bytes)
    → length block < 256 ^ 2
    → swapped 0 2 (framed block ++ rest) ≡ length block
length_prefix block rest h =
    ap (λ bs. bswap 2 (load_le (take 2 bs))) (append_assoc (to_be 2 (length block)) block rest)
    ∙ ap (λ bs. bswap 2 (load_le bs))
        (take-append (to_be 2 (length block)) (block ++ rest) (length-to_be 2 (length block)))
    ∙ swapped_be 2 (length block) h

behind_prefix : (block rest : Bytes) → drop 2 (framed block ++ rest) ≡ block ++ rest
behind_prefix block rest =
    ap (drop 2) (append_assoc (to_be 2 (length block)) block rest)
    ∙ drop-append (to_be 2 (length block)) (block ++ rest) (length-to_be 2 (length block))

next_block-framed :
    (block rest : Bytes)
    → length block < 256 ^ 2
    → next_block (framed block ++ rest) ≡ some (block, rest)
unfolding next_block
next_block-framed block rest h =
    let total = length-append (framed block) rest in
    let prefix = length-append (to_be 2 (length block)) block in
    let two = length-to_be 2 (length block) in
    let whole = length-append block rest in
    let long : ltb (length (framed block ++ rest)) 2 ≡ false = ground (arith, total, prefix, two) in
    let enough : ltb (length (block ++ rest)) (length block) ≡ false = ground (arith, whole) in
    rw (
      long,
      length_prefix block rest h,
      behind_prefix block rest,
      enough,
      take-append block rest refl,
      drop-append block rest refl,
    )

-- A file of framed blocks whose lengths fit two bytes, with a tail that the loop ends at, is cut
-- into these blocks, given one round for each and one more.
pub simulate-file_of :
    (bs : List Bytes) (tail : Bytes) (fuel : ℕ)
    → AreShort bs
    → next_block tail ≡ none
    → length bs < fuel
    → simulate fuel (file_of bs tail) ≡ some bs
unfolding simulate file_of AreShort
simulate-file_of bs tail zero short end enough = absurd (omega arith)
simulate-file_of [] tail (suc fuel) short end enough = rw (simulate, end)
simulate-file_of (b ∷ bs) tail (suc fuel) (h, short) end enough =
    let rest = simulate-file_of bs tail fuel short end (omega arith) in
    rw (simulate, next_block-framed b (file_of bs tail) h, rest)
