-- ===== src/Multicast/Ring/Statistics.antt =====
-- `print_statistics_mock_mode` of src/network/MulticastReceiver.h beside the two threads of the
-- ring: it takes the counter of the packets, sets it to 0, and prints what it took. The pinning of
-- the thread, `sleep` and the text of the line are left out.
use marketdatabook.Common.{
  ℕ, ◌+◌, ◌^◌, ◌<◌, ◌≡◌, refl, ap, arith, List, [], ◌∷◌, ◌++◌, length, length-snoc, length-append,
}
use marketdatabook.Common.Bytes.{Bytes}
use marketdatabook.Multicast.Ring
use marketdatabook.Multicast.Ring.{Mock, Poller, mock, return_current}
use marketdatabook.Multicast.Ring.Safety.{Fit, parsed_lem}

-- `printed` are the values of `packets_per_second` that were printed.
pub record Watched : Type 0 where
  pub frames : Mock
  pub printed : List ℕ

abbrev with_total : Mock → ℕ → Mock
with_total t n = record t { total_packets = n }

pub sum : List ℕ → ℕ
sum [] = 0
sum (n ∷ ns) = n + sum ns

sum-snoc : (ns : List ℕ) (n : ℕ) → sum (ns ++ n ∷ []) ≡ sum ns + n
unfolding sum
sum-snoc [] n = omega arith
sum-snoc (m ∷ ns) n = omega (arith, sum-snoc ns n)

-- A block that was parsed and is not yet counted: its frame is about to be given back, or already
-- is.
abbrev pub uncounted : Poller → ℕ
uncounted Poller.waiting = 0
uncounted Poller.parsing = 0
uncounted Poller.returning = 1
uncounted Poller.counting = 1

module _ (header_size : ℕ) where
  pub data Step : Watched → Watched → Type 0 where
    move_frame :
        (s : Watched) (t : Mock)
        → Ring.Step header_size s.frames t
        → Step s (record s { frames = t })
    print_total :
        (s : Watched)
        → Step s (record {
          frames = with_total s.frames 0;
          printed = s.printed ++ s.frames.total_packets ∷ [];
        })

  pub data Reach (blocks : List Bytes) : Watched → Type 0 where
    here : Reach blocks (record { frames = mock header_size blocks; printed = [] })
    next : {s t : Watched} → Reach blocks s → Step s t → Reach blocks t

  -- No step of the ring looks at the counter.
  forget_step :
      (t : Mock) (n : ℕ) {u : Mock}
      → Ring.Step header_size (with_total t n) u
      → (u' : Mock) × Ring.Step header_size t u' × (u ≡ with_total u' u.total_packets)
  forget_step t n (Ring.see_kernel _ block rest idle some_left free) =
      (_, Ring.see_kernel t block rest idle some_left free, refl)
  forget_step t n (Ring.fill _ block rest filling some_left) =
      (_, Ring.fill t block rest filling some_left, refl)
  forget_step t n (Ring.publish _ block rest publishing some_left) =
      (_, Ring.publish t block rest publishing some_left, refl)
  forget_step t n (Ring.see_user _ idle used) = (_, Ring.see_user t idle used, refl)
  forget_step t n (Ring.parse _ parsing) = (_, Ring.parse t parsing, refl)
  forget_step t n (Ring.return_frame _ returning) = (_, Ring.return_frame t returning, refl)
  forget_step t n (Ring.count_packet _ counting) = (_, Ring.count_packet t counting, refl)

  Reach-forget :
      {blocks : List Bytes} {s : Watched}
      → Reach blocks s
      → (t : Mock) × (n : ℕ) × Ring.Reach header_size blocks t × (s.frames ≡ with_total t n)
  Reach-forget here = (_, 0, Ring.here, refl)
  Reach-forget (next r (move_frame s u step)) =
      let (t, n, q, e) = Reach-forget r in
      let (u', step', same) = forget_step t n (rw (e) at step) in
      (u', u.total_packets, Ring.next q step', same)
  Reach-forget (next r (print_total s)) =
      let (t, n, q, e) = Reach-forget r in (t, 0, q, ap (λ f. with_total f 0) e)

  abbrev Counts : Mock → List ℕ → Type 0
  Counts t printed =
      length t.parsed < 2 ^ 64
      → sum printed + t.total_packets + uncounted t.poller ≡ length t.parsed

  move-Counts :
      {t u : Mock} (printed : List ℕ)
      → Ring.Step header_size t u
      → Counts t printed
      → Counts u printed
  move-Counts printed (Ring.see_kernel t block rest idle some_left free) c few = c few
  move-Counts printed (Ring.fill t block rest filling some_left) c few = c few
  move-Counts printed (Ring.publish t block rest publishing some_left) c few = c few
  move-Counts printed (Ring.see_user t idle used) c few = omega (arith, c few, ap uncounted idle)
  move-Counts printed (Ring.parse t parsing) c few = omega (
    arith,
    c (omega (arith, few, length-snoc t.parsed)),
    ap uncounted parsing,
    length-snoc t.parsed,
  )
  move-Counts printed (Ring.return_frame t returning) c few =
      omega (arith, c few, ap uncounted returning)
  move-Counts printed (Ring.count_packet t counting) c few =
      omega (arith, c few, few, ap uncounted counting)

  Reach-Counts : {blocks : List Bytes} {s : Watched} → Reach blocks s → Counts s.frames s.printed
  unfolding sum
  Reach-Counts here few = omega arith
  Reach-Counts (next r (move_frame s u step)) few = move-Counts s.printed step (Reach-Counts r) few
  Reach-Counts (next r (print_total s)) few =
      omega (arith, Reach-Counts r few, sum-snoc s.printed s.frames.total_packets)

  -- Whatever way the two threads of the ring and the one that prints interleave, the blocks that
  -- were parsed are the first of the file, and the numbers printed, with the packets counted since,
  -- add up to the blocks that were parsed, but for one that the poller has not counted yet. Each
  -- block fits a frame behind its header, and there are less than 2 ^ 64 of them.
  pub printed_lem :
      {blocks : List Bytes} {s : Watched}
      → Fit header_size blocks
      → length blocks < 2 ^ 64
      → Reach blocks s
      → ((ahead : List Bytes) × (blocks ≡ s.frames.parsed ++ ahead))
        × (sum s.printed + s.frames.total_packets + uncounted s.frames.poller
            ≡ length s.frames.parsed)
  printed_lem {blocks} {s} fit few r =
      let (t, n, q, e) = Reach-forget r in
      let (ahead, cut) = parsed_lem header_size fit q in
      let same : s.frames.parsed ≡ t.parsed = ap (λ (f : Mock). f.parsed) e in
      let first : blocks ≡ s.frames.parsed ++ ahead = rw (same) cut in
      (
        (ahead, first),
        Reach-Counts r (omega (arith, few, ap length first, length-append s.frames.parsed ahead)),
      )
