-- ===== src/Multicast/Filter/Wanted.antt =====
-- Which packets the filter of src/network/MulticastReceiver.h delivers: "udp and dst port 58362".
use marketdatabook.Common.{ℕ, ◌+◌, ◌*◌, ◌^◌, ◌%◌, ◌==◌, ◌≡◌, refl, ap, ◌∙◌, arith, bit_and}
use marketdatabook.Common.{List, ◌∷◌, if◌then◌else◌, get_elem?, drop, Option, none, some}
use marketdatabook.Common.{Bool, true, false, ◌&&◌, ◌||◌, Bool-cases, inl, inr, ==_iff}
use marketdatabook.Common.Bytes.{Bytes}
use marketdatabook.Common.Bits.{bit_and-mask}
use marketdatabook.Multicast.Filter.{
  filter_packet, exec, opcode, half, SockFilter, instruction, bpf_code,
}

-- What the packet has at an offset, where it is that long.
abbrev holds : Option ℕ → ℕ → Bool
holds none v = false
holds (some w) v = w == v

-- An Ethernet frame with an IPv4 packet that carries UDP (17), is no later fragment, and has a port
-- behind its header, whose length is the low half of its first byte, in words of four bytes.
abbrev first_fragment : Option ℕ → Bool
first_fragment none = false
first_fragment (some f) = f % 2 ^ 13 == 0

abbrev port_behind : Bytes → Option ℕ → ℕ → Bool
port_behind packet none port = false
port_behind packet (some v) port = holds (half packet (14 + 4 * (v % 16) + 2)) port

abbrev pub is_udp4 : Bytes → ℕ → Bool
is_udp4 packet port =
    holds (half packet 12) 0x800
    && (holds (get_elem? packet 23) 17
        && (first_fragment (half packet 20) && port_behind packet (get_elem? packet 14) port))

-- One with an IPv6 packet, whose header of 40 bytes UDP follows.
abbrev pub is_udp6 : Bytes → ℕ → Bool
is_udp6 packet port =
    holds (half packet 12) 0x86dd && (holds (get_elem? packet 20) 17 && holds (half packet 56) port)

module _ (packet : Bytes) (code : List SockFilter) (a x : ℕ) (jt jf : ℕ) (r : ℕ) where
  -- The rest of the filter delivers `r` after the jump of a test that succeeds, with `v` loaded,
  -- and nothing after one that fails.
  abbrev Ends : ℕ → Type 0
  Ends v = (exec code jt v x packet ≡ r) × ((w : ℕ) → exec code jf w x packet ≡ 0)

  jump_lem :
      (w v : ℕ)
      → Ends v
      → exec (instruction 0x15 jt jf v ∷ code) 0 w x packet ≡ (if w == v then r else 0)
  unfolding exec opcode
  jump_lem w v (yes_path, no_path) = elim (Bool-cases (w == v)) [
    | inl e ↦
        let same : w ≡ v = (==_iff w v).0 e in
        rw (e) (ap (λ t. exec code jt t x packet) same ∙ yes_path)
    | inr e ↦ rw (e) (no_path w)
  ]

  loaded_lem :
      (o : Option ℕ) (v : ℕ)
      → Ends v
      → elim o [ none ↦ 0 | some w ↦ exec (instruction 0x15 jt jf v ∷ code) 0 w x packet ]
        ≡ (if holds o v then r else 0)
  loaded_lem none v ends = refl
  loaded_lem (some w) v ends = jump_lem w v ends

  test_half :
      (at v : ℕ)
      → Ends v
      → exec (instruction 0x28 0 0 at ∷ instruction 0x15 jt jf v ∷ code) 0 a x packet
        ≡ (if holds (half packet at) v then r else 0)
  unfolding exec opcode
  test_half at v ends = loaded_lem (half packet at) v ends

  test_byte :
      (at v : ℕ)
      → Ends v
      → exec (instruction 0x30 0 0 at ∷ instruction 0x15 jt jf v ∷ code) 0 a x packet
        ≡ (if holds (get_elem? packet at) v then r else 0)
  unfolding exec opcode
  test_byte at v ends = loaded_lem (get_elem? packet at) v ends

  test_indexed :
      (at v : ℕ)
      → Ends v
      → exec (instruction 0x48 0 0 at ∷ instruction 0x15 jt jf v ∷ code) 0 a x packet
        ≡ (if holds (half packet (x + at)) v then r else 0)
  unfolding exec opcode
  test_indexed at v ends = loaded_lem (half packet (x + at)) v ends

  -- The two ways behind a test of a half word.
  load_and_jump :
      (at v : ℕ)
      → exec (instruction 0x28 0 0 at ∷ instruction 0x15 jt jf v ∷ code) 0 a x packet
        ≡ elim (half packet at) [
          | none ↦ 0
          | some w ↦ exec code (if w == v then jt else jf) w x packet
        ]
  unfolding exec opcode
  load_and_jump at v = refl

  test_fragment :
      ((w : ℕ) → exec code 0 w x packet ≡ r)
      → ((w : ℕ) → exec code jt w x packet ≡ 0)
      → exec (instruction 0x28 0 0 20 ∷ instruction 0x45 jt 0 0x1fff ∷ code) 0 a x packet
        ≡ (if first_fragment (half packet 20) then r else 0)
  unfolding exec opcode
  test_fragment first later = fragment_cases (half packet 20)
    where
      fragment_cases :
          (o : Option ℕ)
          → elim o [ none ↦ 0 | some w ↦ exec (instruction 0x45 jt 0 0x1fff ∷ code) 0 w x packet ]
            ≡ (if first_fragment o then r else 0)
      fragment_cases none = refl
      fragment_cases (some w) =
          let mask : bit_and w 0x1fff ≡ w % 2 ^ 13 = bit_and-mask 13 w in
          elim (Bool-cases (w % 2 ^ 13 == 0)) [
            | inl e ↦ rw (mask, e) (first w)
            | inr e ↦ rw (mask, e) (later w)
          ]

  load_length :
      (at : ℕ)
      → ((v : ℕ)
          → exec code 0 a (4 * bit_and v 0xf) packet
            ≡ (if port_behind packet (some v) 58362 then r else 0))
      → exec (instruction 0xb1 0 0 at ∷ code) 0 a x packet
        ≡ (if port_behind packet (get_elem? packet at) 58362 then r else 0)
  unfolding exec opcode
  load_length at rest = length_cases (get_elem? packet at)
    where
      length_cases :
          (o : Option ℕ)
          → elim o [ none ↦ 0 | some v ↦ exec code 0 a (4 * bit_and v 0xf) packet ]
            ≡ (if port_behind packet o 58362 then r else 0)
      length_cases none = refl
      length_cases (some v) = rest v

-- The instructions from the test of the port of a UDP packet in IPv4 on, and those for IPv6.
abbrev port_code : List SockFilter
port_code = drop 6 bpf_code

abbrev ipv6_code : List SockFilter
ipv6_code = drop 9 bpf_code

abbrev accepted : ℕ
accepted = 0x40000

nested_three :
    (b c d : Bool) (r : ℕ)
    → (if b then (if c then (if d then r else 0) else 0) else 0)
      ≡ (if b && (c && d) || false then r else 0)
nested_three true true true r = refl
nested_three true true false r = refl
nested_three true false d r = refl
nested_three false c d r = refl

nested_two :
    (c d : Bool) (r : ℕ) → (if c then (if d then r else 0) else 0) ≡ (if c && d then r else 0)
nested_two true d r = refl
nested_two false d r = refl

module _ (packet : Bytes) where
  indexed_port :
      (a v : ℕ)
      → exec (drop 7 bpf_code) 0 a (4 * bit_and v 0xf) packet
        ≡ (if port_behind packet (some v) 58362 then accepted else 0)
  unfolding exec opcode
  indexed_port a v =
      let offset : 4 * bit_and v 0xf + 16 ≡ 14 + 4 * (v % 16) + 2 =
        omega (arith, bit_and-mask 4 v) in
      test_indexed packet (drop 9 bpf_code) a (4 * bit_and v 0xf) 5 6 accepted 16 58362
        (refl, λ w. refl)
      ∙ ap (λ t. if holds (half packet t) 58362 then accepted else 0) offset

  port_lem :
      (a : ℕ)
      → exec port_code 0 a 0 packet
        ≡ (if port_behind packet (get_elem? packet 14) 58362 then accepted else 0)
  port_lem a = load_length packet (drop 7 bpf_code) a 0 0 0 accepted 14 (λ v. indexed_port a v)

  ipv4_lem :
      (a : ℕ)
      → exec (drop 2 bpf_code) 0 a 0 packet ≡ (
          if holds (get_elem? packet 23) 17
          then (if first_fragment (half packet 20)
              then (if port_behind packet (get_elem? packet 14) 58362 then accepted else 0)
              else 0)
          else 0)
  unfolding exec opcode
  ipv4_lem a =
      test_byte packet (drop 4 bpf_code) a 0 0 11 _ 23 17
        (test_fragment packet (drop 6 bpf_code) 17 0 9 0 _ port_lem (λ w. refl), λ w. refl)

  ipv6_lem :
      (w : ℕ)
      → exec ipv6_code 0 w 0 packet ≡ (
          if w == 0x86dd
          then (if holds (get_elem? packet 20) 17
              then (if holds (half packet 56) 58362 then accepted else 0)
              else 0)
          else 0)
  unfolding exec opcode
  ipv6_lem w = jump_lem packet (drop 10 bpf_code) 0 0 0 5 _ w 0x86dd (
    test_byte packet (drop 12 bpf_code) 0x86dd 0 0 3 _ 20 17 (
      test_half packet (drop 14 bpf_code) 17 0 0 1 accepted 56 58362 (refl, λ t. refl),
      λ t. refl,
    ),
    λ t. refl,
  )

  -- The tests of the two headers as the filter makes them, on the Ethernet type.
  abbrev wanted : Option ℕ → Bool
  wanted t =
      holds t 0x800
        && (holds (get_elem? packet 23) 17
            && (first_fragment (half packet 20) && port_behind packet (get_elem? packet 14) 58362))
      || holds t 0x86dd && (holds (get_elem? packet 20) 17 && holds (half packet 56) 58362)

  skipped : (t : ℕ) → exec (drop 2 bpf_code) 7 t 0 packet ≡ exec ipv6_code 0 t 0 packet
  unfolding exec
  skipped t = refl

  type_lem :
      (t : ℕ)
      → exec (drop 2 bpf_code) (if t == 0x800 then 0 else 7) t 0 packet
        ≡ (if wanted (some t) then accepted else 0)
  type_lem t = elim (Bool-cases (t == 0x800)) [
    | inl e ↦
        let other : (t == 0x86dd) ≡ false = ground arith in
        rw (e, other)
          (ipv4_lem t
            ∙ nested_three (holds (get_elem? packet 23) 17) (first_fragment (half packet 20))
                (port_behind packet (get_elem? packet 14) 58362) accepted)
    | inr e ↦ elim (Bool-cases (t == 0x86dd)) [
      | inl e' ↦
          rw (e, e')
            (skipped t
              ∙ rw (e') at (ipv6_lem t)
              ∙ nested_two (holds (get_elem? packet 20) 17) (holds (half packet 56) 58362) accepted)
      | inr e' ↦ rw (e, e') (skipped t ∙ rw (e') at (ipv6_lem t))
    ]
  ]

  bpf_lem :
      (o : Option ℕ)
      → elim o [
        | none ↦ 0
        | some t ↦ exec (drop 2 bpf_code) (if t == 0x800 then 0 else 7) t 0 packet
      ]
        ≡ (if wanted o then accepted else 0)
  bpf_lem none = refl
  bpf_lem (some t) = type_lem t

  -- The filter delivers up to 2 ^ 18 bytes of a packet that is UDP in IPv4, no later fragment, or
  -- in IPv6 to port 58362, and drops any other.
  pub filter_packet_lem :
      filter_packet packet ≡ (if is_udp4 packet 58362 || is_udp6 packet 58362 then 2 ^ 18 else 0)
  unfolding filter_packet
  filter_packet_lem =
      load_and_jump packet (drop 2 bpf_code) 0 0 0 7 0 12 0x800 ∙ bpf_lem (half packet 12)
