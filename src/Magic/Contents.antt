-- ===== src/Magic/Contents.antt =====
-- The bytes to be read of MagicBuffer.h, as a queue.
use marketdatabook.Common.{ℕ, ◌+◌, ◌-◌, ◌<◌, ◌≤◌, ltb, ◌≡◌, sym, ap, ap₂, ◌∙◌, arith}
use marketdatabook.Common.{◌++◌, length, drop, drop-append, Bool-cases, inl, inr}
use marketdatabook.Common.Bytes.{Bytes}
use marketdatabook.Common.Memory.{Memory, load, load-add, load_congr, length-load}
use marketdatabook.Magic.{MagicBuffer, view, fill, read_space_left, write_space_left, moved}
use marketdatabook.Magic.{advance_read, receive, contents}
use marketdatabook.Magic.Ring.{load-period, fill-period, fill_apart, load-fill}

-- The heads lie in the first mapping.
pub record IsInside (b : MagicBuffer) : Type 0 where
  pub reads : b.read_head < b.aligned_capacity
  pub writes : b.write_head < b.aligned_capacity

module _ {b : MagicBuffer} (v : IsInside b) where
  -- Receiving bytes for which there is room keeps the heads in the first mapping,
  -- where they lie there.
  pub receive-IsInside : (bs : Bytes) → length bs ≤ write_space_left b → IsInside (receive b bs)
  unfolding moved read_space_left
  receive-IsInside bs room = record { reads = v.reads; writes = ground (arith, v.reads, v.writes) }

  -- Advancing the read head over bytes that are there keeps the heads in the first mapping,
  -- where they lie there.
  pub advance_read-IsInside : (n : ℕ) → n ≤ read_space_left b → IsInside (advance_read b n)
  unfolding moved read_space_left
  advance_read-IsInside n there = record {
    reads = ground (arith, v.reads, v.writes);
    writes = v.writes;
  }

  space-lt : read_space_left b < b.aligned_capacity
  unfolding read_space_left
  space-lt = ground (arith, v.reads, v.writes)

  -- Received bytes add to what is there to be read.
  pub space-receive :
      (bs : Bytes)
      → length bs ≤ write_space_left b
      → read_space_left (receive b bs) ≡ read_space_left b + length bs
  unfolding moved read_space_left
  space-receive bs room = ground (arith, v.reads, v.writes)

  space-advance_read :
      (n : ℕ) → n ≤ read_space_left b → read_space_left (advance_read b n) ≡ read_space_left b - n
  unfolding moved read_space_left
  space-advance_read n there = ground (arith, v.reads, v.writes)

  -- The end of what is there to be read is the write head, or the byte that mirrors it.
  fill_end :
      (bs : Bytes)
      → fill b.cells b.aligned_capacity b.write_head bs
        ≡ fill b.cells b.aligned_capacity (b.read_head + read_space_left b) bs
  unfolding read_space_left
  fill_end bs = elim (Bool-cases (ltb b.write_head b.read_head)) [
    | inl behind ↦
        let reads = v.reads in
        let place : b.read_head + (b.aligned_capacity - (b.read_head - b.write_head))
            ≡ b.write_head + b.aligned_capacity =
          ground arith in
        rw (behind, place) (sym (fill-period b.aligned_capacity b.cells b.write_head bs))
    | inr before ↦
        let place : b.read_head + (b.write_head - b.read_head) ≡ b.write_head = ground arith in
        rw (before, place)
  ]

  -- Where the heads lie in the first mapping and there is room, the bytes that are received are put
  -- behind the bytes that are there to be read.
  pub contents-receive :
      (bs : Bytes) → length bs ≤ write_space_left b → contents (receive b bs) ≡ contents b ++ bs
  contents-receive bs room =
      let cap = b.aligned_capacity in
      let from = b.read_head in
      let s = read_space_left b in
      let n = length bs in
      let small = space-lt in
      let cells = fill b.cells cap (from + s) bs in
      ap₂ (λ (m : Memory) (k : ℕ). load (view m cap) from k) (fill_end bs) (space-receive bs room)
      ∙ load-add (view cells cap) from s n
      ∙ ap₂ ◌++◌
          (load_congr (view cells cap) (view b.cells cap) from s
            (λ j lo hi. fill_apart cap b.cells (from + s) bs j hi (omega arith)))
          (load-fill cap b.cells (from + s) bs (omega arith))

  -- Bytes at the write head are no part of what is there to be read before the head moves on.
  pub contents-fill :
      (bs : Bytes)
      → length bs ≤ write_space_left b
      → contents (record b { cells = fill b.cells b.aligned_capacity b.write_head bs }) ≡ contents b
  unfolding read_space_left
  contents-fill bs room =
      let cap = b.aligned_capacity in
      let s = read_space_left b in
      let small = space-lt in
      ap (λ (m : Memory). load (view m cap) b.read_head s) (fill_end bs)
      ∙ load_congr (view (fill b.cells cap (b.read_head + s) bs) cap) (view b.cells cap) b.read_head
          s (λ j lo hi. fill_apart cap b.cells (b.read_head + s) bs j hi (omega arith))

  load-moved :
      (n len : ℕ)
      → load (view b.cells b.aligned_capacity) (moved b.aligned_capacity b.read_head n) len
        ≡ load (view b.cells b.aligned_capacity) (b.read_head + n) len
  unfolding moved
  load-moved n len = elim (Bool-cases (ltb (b.read_head + n) b.aligned_capacity)) [
    | inl inside ↦ rw (inside)
    | inr beyond ↦
        let at = b.read_head + n - b.aligned_capacity in
        let place : b.read_head + n ≡ at + b.aligned_capacity = ground arith in
        rw (beyond) (
          sym (load-period b.aligned_capacity b.cells at len)
          ∙ ap (λ a. load (view b.cells b.aligned_capacity) a len) (sym place))
  ]

  -- Where the heads lie in the first mapping, advancing the read head over bytes that are there
  -- takes them off the front.
  pub contents-advance_read :
      (n : ℕ) → n ≤ read_space_left b → contents (advance_read b n) ≡ drop n (contents b)
  contents-advance_read n there =
      let m = view b.cells b.aligned_capacity in
      let s = read_space_left b in
      let from = b.read_head in
      let whole : load m from s ≡ load m from n ++ load m (from + n) (s - n) =
        ap (load m from) (omega arith) ∙ load-add m from n (s - n) in
      ap (load m (moved b.aligned_capacity from n)) (space-advance_read n there)
      ∙ load-moved n (s - n)
      ∙ sym (
          ap (drop n) whole
          ∙ drop-append (load m from n) (load m (from + n) (s - n)) (length-load m from n))
