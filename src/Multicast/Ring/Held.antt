-- ===== src/Multicast/Ring/Held.antt =====
-- What the frames of MulticastReceiver.h's ring hold: the blocks that are filled and not returned,
-- from one frame on, round the ring.
use marketdatabook.Common.{ℕ, zero, suc, ◌+◌, ◌*◌, ◌%◌, ◌<◌, ◌≤◌, ◌≡◌, ◌≢◌, refl, arith}
use marketdatabook.Common.{List, [], ◌∷◌, ◌++◌, length, get_elem?, some, inl, inr, ◌⊎◌}
use marketdatabook.Common.{length-snoc, ◌∙◌, ap}
use native.Mathlib.Decide.{dec_lt}
use marketdatabook.Common.Bytes.{Bytes}
use marketdatabook.Common.Memory.{load, load-store, load_apart}
use marketdatabook.Multicast.Ring.{Ring, kernel, user, rx_frame_size, rx_frame_nr, next_frame}
use marketdatabook.Multicast.Ring.{with_status, frame_payload, fill_frame}

-- The frame `j` places behind `first`.
abbrev pub slot : ℕ → ℕ → ℕ
slot first j = (first + j) % rx_frame_nr

pub slot-ne :
    (first i j : ℕ) → i < rx_frame_nr → j < rx_frame_nr → i ≢ j → slot first i ≢ slot first j
slot-ne first i j hi hj ne same = ne (omega arith)

get_elem?-lt {ℓ} :
    {A : Type ℓ} (xs : List A) (i : ℕ) (x : A) → get_elem? xs i ≡ some x → i < length xs
get_elem?-lt [] i x e = absurd (cc)
get_elem?-lt (y ∷ ys) zero x e = omega arith
get_elem?-lt (y ∷ ys) (suc i) x e = omega (arith, get_elem?-lt ys i x e)

snoc_cases {ℓ} :
    {A : Type ℓ} (xs : List A) (y : A) (j : ℕ) (x : A)
    → get_elem? (xs ++ y ∷ []) j ≡ some x
    → (get_elem? xs j ≡ some x) ⊎ ((j ≡ length xs) × (x ≡ y))
snoc_cases [] y zero x e = inr (refl, cc)
snoc_cases [] y (suc j) x e = absurd (cc)
snoc_cases (z ∷ zs) y zero x e = inl e
snoc_cases (z ∷ zs) y (suc j) x e = elim (snoc_cases zs y j x e) [
  | inl old ↦ inl old
  | inr (last, same) ↦ inr (ap suc last, same)
]

first_block : (xs : List Bytes) → 0 < length xs → (x : Bytes) × (get_elem? xs 0 ≡ some x)
first_block [] h = absurd (omega arith)
first_block (x ∷ xs) h = (x, refl)

nil_or : (xs : List Bytes) → (xs ≡ []) ⊎ ((x : Bytes) × (rest : List Bytes) × (xs ≡ x ∷ rest))
nil_or [] = inl refl
nil_or (x ∷ xs) = inr (x, xs, refl)

module _ (header_size : ℕ) where
  -- The frame has the block behind its header, inside its bytes.
  pub record IsBlock (r : Ring) (i : ℕ) (x : Bytes) : Type 0 where
    pub net : (r.headers i).tp_net ≡ header_size
    pub snaplen : (r.headers i).tp_snaplen ≡ length x
    pub payload : load r.bytes (i * rx_frame_size + header_size) (length x) ≡ x
    pub fits : header_size + length x ≤ rx_frame_size

  pub record IsRing (r : Ring) (first : ℕ) (held : List Bytes) : Type 0 where
    pub in_range : first < rx_frame_nr
    pub room : length held ≤ rx_frame_nr
    pub taken :
        (j : ℕ) (x : Bytes)
        → get_elem? held j ≡ some x
        → ((r.headers (slot first j)).tp_status ≡ user) × IsBlock r (slot first j) x
    pub free :
        (j : ℕ) → length held ≤ j → j < rx_frame_nr → (r.headers (slot first j)).tp_status ≡ kernel

  -- The payload of such a frame is its block.
  pub frame_payload-block : (r : Ring) (i : ℕ) (x : Bytes) → IsBlock r i x → frame_payload r i ≡ x
  frame_payload-block r i x b = rw (b.net, b.snaplen) b.payload

  pub with_status-IsBlock :
      (r : Ring) (i j : ℕ) (s : _) (x : Bytes) → IsBlock r i x → IsBlock (with_status r j s) i x
  with_status-IsBlock r i j s x b = record {
    net = ground (arith, b.net);
    snaplen = ground (arith, b.snaplen);
    payload = b.payload;
    fits = b.fits;
  }

  frames_apart :
      (i j m n : ℕ)
      → i ≢ j
      → header_size + m ≤ rx_frame_size
      → header_size + n ≤ rx_frame_size
      → (i * rx_frame_size + header_size + m ≤ j * rx_frame_size + header_size)
        ⊎ (j * rx_frame_size + header_size + n ≤ i * rx_frame_size + header_size)
  frames_apart i j m n ne hm hn = elim (dec_lt i j) [
    | yes p ↦ inl (omega arith)
    | no p ↦ inr (omega arith)
  ]

  -- A block that fits a frame is written to that frame alone.
  fill_frame-IsBlock :
      (r : Ring) (i j : ℕ) (x block : Bytes)
      → header_size + length block ≤ rx_frame_size
      → i ≢ j
      → IsBlock r i x
      → IsBlock (fill_frame header_size r j block) i x
  fill_frame-IsBlock r i j x block small ne b = record {
    net = ground (arith, b.net);
    snaplen = ground (arith, b.snaplen);
    payload =
        load_apart r.bytes (j * rx_frame_size + header_size) block (i * rx_frame_size + header_size)
          (length x) (frames_apart i j (length x) (length block) ne b.fits small)
        ∙ b.payload;
    fits = b.fits;
  }

  module _ {r : Ring} {first : ℕ} {held : List Bytes} (v : IsRing r first held) where
    -- A frame that is free to fill is behind those that are held.
    pub room-lt :
        (r.headers (slot first (length held))).tp_status ≡ kernel → length held < rx_frame_nr
    room-lt e = elim (dec_lt (length held) rx_frame_nr) [
      | yes p ↦ p
      | no p ↦
          let (x, there) = first_block held (omega arith) in
          let here : slot first 0 ≡ slot first (length held) = omega (arith, v.room) in
          absurd (ground (arith, (v.taken 0 x there).0, e))
    ]

    -- A frame that is in use is the first that is held.
    pub held-ne_nil :
        (r.headers first).tp_status ≡ user → (x : Bytes) × (rest : List Bytes) × (held ≡ x ∷ rest)
    held-ne_nil e = elim (nil_or held) [
      | inr some_held ↦ some_held
      | inl nothing ↦
          let here : slot first 0 ≡ first = omega (arith, v.in_range) in
          absurd (ground (arith, v.free 0, nothing))
    ]

    module _ (block : Bytes) (room : length held < rx_frame_nr) where
      abbrev idx : ℕ
      idx = slot first (length held)

      elsewhere : (j : ℕ) (x : Bytes) → get_elem? held j ≡ some x → slot first j ≢ idx
      elsewhere j x e =
          let h = get_elem?-lt held j x e in
          slot-ne first j (length held) (omega arith) room (omega arith)

      pub fill_frame-IsRing :
          header_size + length block ≤ rx_frame_size
          → IsRing (fill_frame header_size r idx block) first held
            × IsBlock (fill_frame header_size r idx block) idx block
      fill_frame-IsRing small = (
        record {
          in_range = v.in_range;
          room = v.room;
          taken = λ j x e. (
            ground (arith, (v.taken j x e).0),
            fill_frame-IsBlock r (slot first j) idx x block small (elsewhere j x e)
                (v.taken j x e).1,
          );
          free = λ j lo hi. ground (arith, v.free j lo hi);
        },
        record {
          net = ground arith;
          snaplen = ground arith;
          payload = load-store r.bytes (idx * rx_frame_size + header_size) block;
          fits = small;
        },
      )

      pub publish-IsRing :
          IsBlock r idx block → IsRing (with_status r idx user) first (held ++ block ∷ [])
      publish-IsRing b = record {
        in_range = v.in_range;
        room = omega (arith, length-snoc held block);
        taken = λ j x e. elim (snoc_cases held block j x e) [
          | inl old ↦ (
            ground (arith, (v.taken j x old).0),
            with_status-IsBlock r (slot first j) idx user x (v.taken j x old).1,
          )
          | inr (last, same) ↦
              rw (last, same) (ground arith, with_status-IsBlock r idx idx user block b)
        ];
        free = λ j lo hi.
            ground (arith, v.free j, length-snoc held block, slot-ne first j (length held) hi room);
      }

  -- A frame that is returned is held no longer.
  pub return-IsRing :
      {r : Ring} {first : ℕ} {x : Bytes} {rest : List Bytes}
      → IsRing r first (x ∷ rest)
      → IsRing (with_status r first kernel) (next_frame first) rest
  return-IsRing {r} {first} {x} {rest} v =
      let shift : (j : ℕ) → slot (next_frame first) j ≡ slot first (suc j) = λ j. omega arith in
      record {
        in_range = omega arith;
        room = omega (arith, v.room);
        taken = λ j y e.
            let h = get_elem?-lt rest j y e in
            let ne : slot first (suc j) ≢ first = λ same. omega (arith, v.room, v.in_range) in
            rw (shift j) (
              ground (arith, (v.taken (suc j) y e).0),
              with_status-IsBlock r (slot first (suc j)) first kernel y (v.taken (suc j) y e).1,
            );
        free = λ j lo hi. rw (shift j) (ground (arith, v.free (suc j), v.in_range));
      }
