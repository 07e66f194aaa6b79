-- ===== src/Multicast/Ring/Safety.antt =====
-- Whatever way the threads of MulticastReceiver.h's mock mode interleave, the parser gets the
-- blocks of the file in order, and the threads never stand in one frame.
use marketdatabook.Common.{ℕ, ◌+◌, ◌<◌, ◌≤◌, ◌≡◌, ◌≢◌, refl, arith, sym, ap, ap₂, ◌∙◌}
use marketdatabook.Common.{List, [], ◌∷◌, ◌++◌, length, append_assoc}
use marketdatabook.Common.{length-snoc}
use marketdatabook.Common.Bytes.{Bytes}
use marketdatabook.Multicast.Ring.{Mock, Simulator, Poller, Step, Reach, kernel}
use marketdatabook.Multicast.Ring.{
  see_kernel, fill, publish, see_user, parse, return_frame, count_packet, here, next,
}
use marketdatabook.Multicast.Ring.{Ring, rx_frame_size, rx_frame_nr, with_status}
use marketdatabook.Multicast.Ring.Held.{
  IsRing, IsBlock, slot, room-lt, held-ne_nil, fill_frame-IsRing,
}
use marketdatabook.Multicast.Ring.Held.{
  publish-IsRing, return-IsRing, frame_payload-block, with_status-IsBlock,
}

abbrev pub IsCons : List Bytes → Type 0
IsCons xs = (x : Bytes) × (rest : List Bytes) × (xs ≡ x ∷ rest)

module _ (header_size : ℕ) where
  -- The blocks fit a frame behind its header.
  abbrev pub Fit : List Bytes → Type 0
  Fit [] = Unit
  Fit (x ∷ xs) = (header_size + length x ≤ rx_frame_size) × Fit xs

  abbrev pub SimulatorKnows : Simulator → Ring → ℕ → List Bytes → List Bytes → Type 0
  SimulatorKnows Simulator.waiting r idx held left = Unit
  SimulatorKnows Simulator.filling r idx held left = (length held < rx_frame_nr) × IsCons left
  SimulatorKnows Simulator.publishing r idx held left =
      (length held < rx_frame_nr)
      × IsCons left
      × ((x : Bytes) (rest : List Bytes) → left ≡ x ∷ rest → IsBlock header_size r idx x)

  -- Of the held blocks the first may have been parsed.
  abbrev pub PollerKnows : Poller → List Bytes → List Bytes → List Bytes → Type 0
  PollerKnows Poller.waiting before held parsed = parsed ≡ before
  PollerKnows Poller.parsing before held parsed = (parsed ≡ before) × IsCons held
  PollerKnows Poller.returning before held parsed =
      (x : Bytes) × (rest : List Bytes) × (held ≡ x ∷ rest) × (parsed ≡ before ++ x ∷ [])
  PollerKnows Poller.counting before held parsed = parsed ≡ before

  pub record IsSafe (blocks : List Bytes) (t : Mock) : Type 0 where
    pub before : List Bytes
    pub held : List Bytes
    pub frames : IsRing header_size t.ring t.curr_frame_idx held
    pub at : t.frame_idx ≡ slot t.curr_frame_idx (length held)
    pub history : blocks ≡ before ++ (held ++ t.left)
    pub left_fit : Fit t.left
    pub simulator_knows : SimulatorKnows t.simulator t.ring t.frame_idx held t.left
    pub poller_knows : PollerKnows t.poller before held t.parsed

  -- The poller's view survives a block that is added behind the others.
  publish-poller :
      (p : Poller) (before held parsed : List Bytes) (x : Bytes)
      → PollerKnows p before held parsed
      → PollerKnows p before (held ++ x ∷ []) parsed
  publish-poller Poller.waiting before held parsed x h = h
  publish-poller Poller.counting before held parsed x h = h
  publish-poller Poller.parsing before held parsed x (h, (y, rest, e)) =
      (h, (y, rest ++ x ∷ [], ap (λ xs. xs ++ x ∷ []) e))
  publish-poller Poller.returning before held parsed x (y, rest, e, h) =
      (y, rest ++ x ∷ [], ap (λ xs. xs ++ x ∷ []) e, h)

  return-simulator :
      (s : Simulator) (r : Ring) (idx first : ℕ) (x : Bytes) (rest left : List Bytes)
      → SimulatorKnows s r idx (x ∷ rest) left
      → SimulatorKnows s (with_status r first kernel) idx rest left
  return-simulator Simulator.waiting r idx first x rest left h = tt
  return-simulator Simulator.filling r idx first x rest left (h, some_left) =
      (omega arith, some_left)
  return-simulator Simulator.publishing r idx first x rest left (h, some_left, block) = (
    omega arith,
    some_left,
    λ y ys e. with_status-IsBlock header_size r idx first kernel y (block y ys e),
  )

  first_block :
      {r : Ring} {first : ℕ} {held : List Bytes} {x : Bytes} {rest : List Bytes}
      → IsRing header_size r first held
      → held ≡ x ∷ rest
      → IsBlock header_size r first x
  first_block {r} {first} {held} {x} {rest} v e =
      let place : slot first 0 ≡ first = omega (arith, v.in_range) in
      rw (place) at (v.taken 0 x (rw (e) refl)).1

  first_same :
      {xs : List Bytes} {x y : Bytes} {ys zs : List Bytes} → xs ≡ y ∷ ys → xs ≡ x ∷ zs → x ≡ y
  first_same e e' = cc

  Step-IsSafe :
      {blocks : List Bytes} {t u : Mock} → Step header_size t u → IsSafe blocks t → IsSafe blocks u
  Step-IsSafe (see_kernel t block rest at_loop some_left free) s = record {
    before = s.before;
    held = s.held;
    frames = s.frames;
    at = s.at;
    history = s.history;
    left_fit = s.left_fit;
    simulator_knows = (room-lt header_size s.frames (rw (s.at) at free), (block, rest, some_left));
    poller_knows = s.poller_knows;
  }
  Step-IsSafe (fill t block rest filling some_left) s =
      let (room, _) = rw (filling) at s.simulator_knows in
      let (fits, _) = rw (some_left) at s.left_fit in
      let (frames, filled) = fill_frame-IsRing header_size s.frames block room fits in
      record {
        before = s.before;
        held = s.held;
        frames = rw (s.at) frames;
        at = s.at;
        history = s.history;
        left_fit = s.left_fit;
        simulator_knows =
            (room, (block, rest, some_left), λ x xs e. rw (s.at, first_same some_left e) filled);
        poller_knows = s.poller_knows;
      }
  Step-IsSafe (publish t block rest publishing some_left) s =
      let (room, _, filled) = rw (publishing) at s.simulator_knows in
      let (_, fit) = rw (some_left) at s.left_fit in
      record {
        before = s.before;
        held = s.held ++ block ∷ [];
        frames = rw (s.at) (
            publish-IsRing header_size s.frames block room
              (rw (← s.at) (filled block rest some_left)));
        at = omega (arith, s.at, length-snoc s.held block);
        history =
            rw (s.history, some_left)
              (ap (λ xs. s.before ++ xs) (sym (append_assoc s.held (block ∷ []) rest)));
        left_fit = fit;
        simulator_knows = tt;
        poller_knows = publish-poller t.poller s.before s.held t.parsed block s.poller_knows;
      }
  Step-IsSafe (see_user t at_loop used) s = record {
    before = s.before;
    held = s.held;
    frames = s.frames;
    at = s.at;
    history = s.history;
    left_fit = s.left_fit;
    simulator_knows = s.simulator_knows;
    poller_knows = (rw (at_loop) at s.poller_knows, held-ne_nil header_size s.frames used);
  }
  Step-IsSafe (parse t parsing) s =
      let (done_before, (x, rest, e)) = rw (parsing) at s.poller_knows in
      record {
        before = s.before;
        held = s.held;
        frames = s.frames;
        at = s.at;
        history = s.history;
        left_fit = s.left_fit;
        simulator_knows = s.simulator_knows;
        poller_knows = (
          x,
          rest,
          e,
          ap₂ (λ xs y. xs ++ y ∷ []) done_before
              (frame_payload-block header_size t.ring t.curr_frame_idx x (first_block s.frames e)),
        );
      }
  Step-IsSafe (return_frame t returning) s =
      let (x, rest, e, parsed) = rw (returning) at s.poller_knows in
      record {
        before = s.before ++ x ∷ [];
        held = rest;
        frames = return-IsRing header_size (rw (e) at s.frames);
        at = omega (arith, s.at, ap length e);
        history = rw (s.history, e) (sym (append_assoc s.before (x ∷ []) (rest ++ t.left)));
        left_fit = s.left_fit;
        simulator_knows =
            return-simulator t.simulator t.ring t.frame_idx t.curr_frame_idx x rest t.left
              (rw (e) at s.simulator_knows);
        poller_knows = parsed;
      }
  Step-IsSafe (count_packet t counting) s = record {
    before = s.before;
    held = s.held;
    frames = s.frames;
    at = s.at;
    history = s.history;
    left_fit = s.left_fit;
    simulator_knows = s.simulator_knows;
    poller_knows = rw (counting) at s.poller_knows;
  }

  pub Reach-IsSafe :
      {blocks : List Bytes} {t : Mock} → Fit blocks → Reach header_size blocks t → IsSafe blocks t
  Reach-IsSafe {blocks} fit here = record {
    before = [];
    held = [];
    frames = record {
      in_range = omega arith;
      room = omega arith;
      taken = λ j x e. absurd (cc);
      free = λ j lo hi. refl;
    };
    at = refl;
    history = refl;
    left_fit = fit;
    simulator_knows = tt;
    poller_knows = refl;
  }
  Reach-IsSafe fit (next r step) = Step-IsSafe step (Reach-IsSafe fit r)

  poller_seen :
      (p : Poller) (before held parsed rest : List Bytes)
      → PollerKnows p before held parsed
      → (ahead : List Bytes) × (before ++ (held ++ rest) ≡ parsed ++ ahead)
  poller_seen Poller.waiting before held parsed rest h = (held ++ rest, rw (h) refl)
  poller_seen Poller.counting before held parsed rest h = (held ++ rest, rw (h) refl)
  poller_seen Poller.parsing before held parsed rest (h, _) = (held ++ rest, rw (h) refl)
  poller_seen Poller.returning before held parsed rest (x, xs, e, h) =
      (xs ++ rest, rw (e, h) (sym (append_assoc before (x ∷ []) (xs ++ rest))))

  -- Whatever way the threads interleave, the blocks that were parsed are the first of the file,
  -- whole and in order, where each block of the file fits a frame behind its header.
  pub parsed_lem :
      {blocks : List Bytes} {t : Mock}
      → Fit blocks
      → Reach header_size blocks t
      → (ahead : List Bytes) × (blocks ≡ t.parsed ++ ahead)
  parsed_lem fit r =
      let s = Reach-IsSafe fit r in
      let (ahead, e) = poller_seen _ s.before s.held _ _ s.poller_knows in (ahead, s.history ∙ e)

  -- While one thread writes a frame and the other parses one, they are at different frames, where
  -- each block of the file fits a frame behind its header.
  pub frame_idx-ne :
      {blocks : List Bytes} {t : Mock}
      → Fit blocks
      → Reach header_size blocks t
      → t.simulator ≡ Simulator.filling
      → t.poller ≡ Poller.parsing
      → t.frame_idx ≢ t.curr_frame_idx
  frame_idx-ne fit r filling parsing same =
      let s = Reach-IsSafe fit r in
      let (room, _) = rw (filling) at s.simulator_knows in
      let (_, (x, rest, e)) = rw (parsing) at s.poller_knows in
      omega (arith, s.at, same, room, ap length e, s.frames.in_range)
