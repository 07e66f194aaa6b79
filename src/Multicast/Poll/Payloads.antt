-- ===== src/Multicast/Poll/Payloads.antt =====
-- `poll` of src/network/MulticastReceiver.h hands over what the UDP packets of the ring carry.
use marketdatabook.Common.{
  ℕ, suc, ◌+◌, ◌*◌, ◌-◌, ◌%◌, ◌^◌, ◌≤◌, ◌<◌, ◌≡◌, ◌≢◌, refl, sym, ap, ap₂, ◌∙◌, arith,
}
use marketdatabook.Common.{List, [], ◌∷◌, length, drop, get_elem?, Option, none, some, ltb, false}
use marketdatabook.Common.{drop-append, update_ne, update_self}
use native.Mathlib.Decide.{dec_lt}
use marketdatabook.Common.{take, take-append, append-nil, length-drop}
use marketdatabook.Common.Bytes.{Bytes, from_be}
use marketdatabook.Common.Memory.{load, load-add, length-load}
use marketdatabook.Multicast.Ring.{
  FrameHeader, Ring, kernel, user, with_status, rx_frame_size, rx_frame_nr,
}
use marketdatabook.Multicast.Ring.Held.{slot, slot-ne}
use marketdatabook.Multicast.Poll.{Polling, packet_payload, poll_round, poll_rounds}

-- What a UDP packet in IPv4 carries: as many bytes as the length in the UDP header says, which
-- counts that header of 8 bytes, behind an Ethernet header of 14, the IP header, whose length is in
-- its first byte, and the UDP header.
abbrev udp_payload_at : Bytes → ℕ → Bytes
udp_payload_at packet at = take (from_be (take 2 (drop (at + 4) packet)) - 8) (drop (at + 8) packet)

abbrev behind_headers : Bytes → Option ℕ → Bytes
behind_headers packet none = []
behind_headers packet (some v) = udp_payload_at packet (14 + 4 * (v % 16))

abbrev pub udp_payload : Bytes → Bytes
udp_payload packet = behind_headers packet (get_elem? packet 14)

-- It has these headers whole, no options in the IP header, and no padding: the length in the UDP
-- header is what is left of the packet there.
pub record IsPlain (packet : Bytes) : Type 0 where
  pub version_length : ℕ
  pub length_field : get_elem? packet 14 ≡ some version_length
  pub no_options : version_length % 16 ≡ 5
  pub headers : 42 ≤ length packet
  pub no_padding : from_be (take 2 (drop 38 packet)) ≡ length packet - 34

-- A packet as the kernel leaves it in a frame: whole at `tp_mac`, with `tp_net` behind its Ethernet
-- header.
pub record IsDelivered (r : Ring) (idx : ℕ) (packet : Bytes) : Type 0 where
  pub status : (r.headers idx).tp_status ≡ user
  pub snaplen : (r.headers idx).tp_snaplen ≡ length packet
  pub net : (r.headers idx).tp_net ≡ (r.headers idx).tp_mac + 14
  pub bytes : load r.bytes (idx * rx_frame_size + (r.headers idx).tp_mac) (length packet) ≡ packet

drop-load :
    (r : Ring) (at n m : ℕ) → n ≤ m → load r.bytes (at + n) (m - n) ≡ drop n (load r.bytes at m)
drop-load r at n m h = sym (
    ap (drop n) (ap (load r.bytes at) (omega arith) ∙ load-add r.bytes at n (m - n))
    ∙ drop-append (load r.bytes at n) (load r.bytes (at + n) (m - n)) (length-load r.bytes at n))

take-all : (xs : Bytes) → take (length xs) xs ≡ xs
take-all xs = ap (take (length xs)) (sym (append-nil xs)) ∙ take-append xs [] refl

plain_payload :
    (packet : Bytes) (o : Option ℕ) {v : ℕ}
    → o ≡ some v
    → v % 16 ≡ 5
    → from_be (take 2 (drop 38 packet)) ≡ length packet - 34
    → drop 42 packet ≡ behind_headers packet o
plain_payload packet o {v} e five whole =
    let count : length packet - 34 - 8 ≡ length (drop 42 packet) =
      omega (arith, length-drop 42 packet) in
    rw (e, five, whole, count) (sym (take-all (drop 42 packet)))

packet_payload_lem :
    (r : Ring) (idx : ℕ) (packet : Bytes)
    → IsPlain packet
    → IsDelivered r idx packet
    → packet_payload r idx ≡ some (udp_payload packet)
unfolding packet_payload
packet_payload_lem r idx packet p d =
    let mac = idx * rx_frame_size + (r.headers idx).tp_mac in
    let long : ltb (r.headers idx).tp_snaplen (14 + 20 + 8) ≡ false =
      ground (arith, d.snaplen, p.headers) in
    let start : idx * rx_frame_size + (r.headers idx).tp_net + 20 + 8 ≡ mac + 42 =
      omega (arith, d.net) in
    let count : (r.headers idx).tp_snaplen - 14 - 20 - 8 ≡ length packet - 42 =
      omega (arith, d.snaplen) in
    rw (long) (
      ap some (
        ap₂ (load r.bytes) start count
        ∙ drop-load r mac 42 (length packet) p.headers
        ∙ ap (drop 42) d.bytes
        ∙ plain_payload packet (get_elem? packet 14) p.length_field p.no_options p.no_padding))

-- From the frame `j` places behind the first on, the frames hold these packets.
abbrev pub AreDelivered : Ring → ℕ → ℕ → List Bytes → Type 0
AreDelivered r first j [] = Unit
AreDelivered r first j (p ∷ ps) = IsDelivered r (slot first j) p × AreDelivered r first (suc j) ps

abbrev pub ArePlain : List Bytes → Type 0
ArePlain [] = Unit
ArePlain (p ∷ ps) = IsPlain p × ArePlain ps

-- Giving a frame back leaves those behind it.
AreDelivered-with_status :
    (r : Ring) (first i j : ℕ) (ps : List Bytes)
    → i < j
    → j + length ps ≤ rx_frame_nr
    → AreDelivered r first j ps
    → AreDelivered (with_status r (slot first i) kernel) first j ps
AreDelivered-with_status r first i j [] before room h = tt
AreDelivered-with_status r first i j (p ∷ ps) before room (d, h) =
    let apart : slot first i ≢ slot first j =
      slot-ne first i j (omega arith) (omega arith) (omega arith) in
    let same = update_ne r.headers (slot first i) (slot first j) _ apart in
    (
      record {
        status = ap (λ (f : FrameHeader). f.tp_status) same ∙ d.status;
        snaplen = ap (λ (f : FrameHeader). f.tp_snaplen) same ∙ d.snaplen;
        net =
            ap (λ (f : FrameHeader). f.tp_net) same
            ∙ d.net
            ∙ ap (λ (f : FrameHeader). f.tp_mac + 14) (sym same);
        bytes =
            ap
              (λ (f : FrameHeader).
                load r.bytes (slot first j * rx_frame_size + f.tp_mac) (length p))
              same
            ∙ d.bytes;
      },
      AreDelivered-with_status r first i (suc j) ps (omega arith) (omega arith) h,
    )

-- What the parser gets: for each packet its payload.
abbrev pub payloads : List Bytes → List (Option Bytes)
payloads [] = []
payloads (p ∷ ps) = some (udp_payload p) ∷ payloads ps

-- After `n` rounds from the frame `j` places behind the first on, these frames are the kernel's,
-- the others as they were, and the next one is behind them.
pub record IsReturned (s s' : Polling) (first j n : ℕ) : Type 0 where
  pub next : s'.curr_frame_idx ≡ slot first (j + n)
  pub counted : s'.total_packets % 2 ^ 64 ≡ (s.total_packets + n) % 2 ^ 64
  pub given_back : (i : ℕ) → j ≤ i → i < j + n → (s'.ring.headers (slot first i)).tp_status ≡ kernel
  pub others :
      (other : ℕ)
      → ((i : ℕ) → j ≤ i → i < j + n → other ≢ slot first i)
      → s'.ring.headers other ≡ s.ring.headers other

round_total : (s : Polling) → (poll_round s).1.total_packets ≡ (s.total_packets + 1) % 2 ^ 64
unfolding poll_round
round_total s = refl

round_status :
    (s : Polling) (idx : ℕ)
    → s.curr_frame_idx ≡ idx
    → ((poll_round s).1.ring.headers idx).tp_status ≡ kernel
unfolding poll_round
round_status s idx e =
    ap (λ i. ((poll_round s).1.ring.headers i).tp_status) (sym e)
    ∙ ap (λ (f : FrameHeader). f.tp_status) (update_self s.ring.headers s.curr_frame_idx _)

round_others :
    (s : Polling) (other : ℕ)
    → other ≢ s.curr_frame_idx
    → (poll_round s).1.ring.headers other ≡ s.ring.headers other
unfolding poll_round
round_others s other ne = update_ne s.ring.headers s.curr_frame_idx other _ (λ e. ne (sym e))

poll_rounds-step :
    (n : ℕ) (s : Polling) (payload : Option Bytes) (rest : List (Option Bytes)) (s' : Polling)
    → (s.ring.headers s.curr_frame_idx).tp_status ≡ user
    → packet_payload s.ring s.curr_frame_idx ≡ payload
    → poll_rounds n (poll_round s).1 ≡ some (rest, s')
    → poll_rounds (suc n) s ≡ some (payload ∷ rest, s')
unfolding poll_rounds poll_round
poll_rounds-step n s payload rest s' status same run = rw (poll_rounds, status, run, same) refl

poll_rounds-from :
    (first j : ℕ) (ps : List Bytes) (s : Polling)
    → s.curr_frame_idx ≡ slot first j
    → j + length ps ≤ rx_frame_nr
    → ArePlain ps
    → AreDelivered s.ring first j ps
    → (s' : Polling) × (poll_rounds (length ps) s ≡ some (payloads ps, s'))
      × IsReturned s s' first j (length ps)
unfolding poll_rounds
poll_rounds-from first j [] s at room plain there = (
  s,
  refl,
  record {
    next = omega (arith, at);
    counted = omega arith;
    given_back = λ i lo hi. absurd (omega arith);
    others = λ other apart. refl;
  },
)
poll_rounds-from first j (p ∷ ps) s at room (q, plain) (d, there) =
    let s1 = (poll_round s).1 in
    let delivered : IsDelivered s.ring s.curr_frame_idx p = rw (at) d in
    let kept : AreDelivered s1.ring first (suc j) ps =
      unfold poll_round in
      rw (at)
        (AreDelivered-with_status s.ring first j (suc j) ps (omega arith) (omega arith) there) in
    let moved : s1.curr_frame_idx ≡ slot first (suc j) = unfold poll_round in omega (arith, at) in
    let (s', run, v) = poll_rounds-from first (suc j) ps s1 moved (omega arith) plain kept in
    let untouched : s'.ring.headers (slot first j) ≡ s1.ring.headers (slot first j) =
      v.others (slot first j)
        (λ i lo hi. slot-ne first j i (omega arith) (omega arith) (omega arith)) in
    (
      s',
      poll_rounds-step (length ps) s _ (payloads ps) s' delivered.status
          (packet_payload_lem s.ring s.curr_frame_idx p q delivered) run,
      record {
        next = omega (arith, v.next);
        counted = omega (arith, v.counted, round_total s);
        given_back = λ i lo hi. elim (dec_lt j i) [
          | yes later ↦ v.given_back i (omega arith) (omega arith)
          | no here ↦
              let same : i ≡ j = omega arith in
              rw (same)
                (ap (λ (f : FrameHeader). f.tp_status) untouched ∙ round_status s (slot first j) at)
        ];
        others = λ other apart.
            v.others other (λ i lo hi. apart i (omega arith) (omega arith))
            ∙ round_others s other (rw (at) (apart j (omega arith) (omega arith)));
      },
    )

-- Where the frames from the current one on hold packets that the kernel has delivered, at most as
-- many as the ring has frames, UDP in IPv4 without options or padding and with whole headers, as
-- many rounds as there are packets give the parser the payload of each, of the length in its UDP
-- header, in order; they give these frames back, leave the others, and stand behind them.
pub poll_rounds-payloads :
    (ps : List Bytes) (s : Polling)
    → s.curr_frame_idx < rx_frame_nr
    → length ps ≤ rx_frame_nr
    → ArePlain ps
    → AreDelivered s.ring s.curr_frame_idx 0 ps
    → (s' : Polling) × (poll_rounds (length ps) s ≡ some (payloads ps, s'))
      × IsReturned s s' s.curr_frame_idx 0 (length ps)
poll_rounds-payloads ps s inside few plain there =
    poll_rounds-from s.curr_frame_idx 0 ps s (omega arith) (omega arith) plain there
