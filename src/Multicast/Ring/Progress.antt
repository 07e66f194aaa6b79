-- ===== src/Multicast/Ring/Progress.antt =====
-- The mock mode of MulticastReceiver.h comes to an end of the file with every block parsed: no
-- state before that is stuck, and each block takes seven steps.
use marketdatabook.Common.{ℕ, suc, ◌+◌, ◌*◌, ◌≤◌, ◌≡◌, refl, arith, sym, ap, ◌∙◌}
use marketdatabook.Common.{
  List, [], ◌∷◌, ◌++◌, length, inl, inr, ◌⊎◌, append-nil, length-append, length-snoc,
}
use marketdatabook.Common.Bytes.{Bytes}
use marketdatabook.Multicast.Ring.{Mock, Simulator, Poller, Step, Reach, kernel}
use marketdatabook.Multicast.Ring.{
  see_kernel, fill, publish, see_user, parse, return_frame, count_packet, here, next,
}
use marketdatabook.Multicast.Ring.Held.{slot}
use marketdatabook.Multicast.Ring.Safety.{
  Fit, IsSafe, IsCons, SimulatorKnows, PollerKnows, Reach-IsSafe,
}

IsCons-cases : (xs : List Bytes) → (xs ≡ []) ⊎ IsCons xs
IsCons-cases [] = inl refl
IsCons-cases (x ∷ xs) = inr (x, xs, refl)

simulator_cases :
    (s : Simulator)
    → (s ≡ Simulator.waiting) ⊎ ((s ≡ Simulator.filling) ⊎ (s ≡ Simulator.publishing))
simulator_cases Simulator.waiting = inl refl
simulator_cases Simulator.filling = inr (inl refl)
simulator_cases Simulator.publishing = inr (inr refl)

poller_cases :
    (p : Poller)
    → (p ≡ Poller.waiting)
      ⊎ ((p ≡ Poller.parsing) ⊎ ((p ≡ Poller.returning) ⊎ (p ≡ Poller.counting)))
poller_cases Poller.waiting = inl refl
poller_cases Poller.parsing = inr (inl refl)
poller_cases Poller.returning = inr (inr (inl refl))
poller_cases Poller.counting = inr (inr (inr refl))

module _ (header_size : ℕ) where
  abbrev pub CanStep : Mock → Type 0
  CanStep t = (u : Mock) × Step header_size t u

  module _ {blocks : List Bytes} {t : Mock} (s : IsSafe header_size blocks t) where
    -- With no frame held and both threads at their loops, the file is at its end or the next frame
    -- is free.
    waiting_step :
        s.held ≡ []
        → t.simulator ≡ Simulator.waiting
        → t.poller ≡ Poller.waiting
        → CanStep t ⊎ (t.parsed ≡ blocks)
    waiting_step nothing idle_simulator idle_poller = elim (IsCons-cases t.left) [
      | inr (block, rest, some_left) ↦
          let place : t.frame_idx ≡ slot t.curr_frame_idx 0 =
            omega (arith, s.at, ap length nothing) in
          let free : (t.ring.headers t.frame_idx).tp_status ≡ kernel =
            rw (place) (s.frames.free 0 (omega (arith, ap length nothing)) (omega arith)) in
          inl (_, see_kernel t block rest idle_simulator some_left free)
      | inl end ↦
          let so_far : t.parsed ≡ s.before = rw (idle_poller) at s.poller_knows in
          inr (so_far ∙ sym (append-nil s.before) ∙ sym (s.history ∙ rw (nothing, end) refl))
    ]

    simulator_step : s.held ≡ [] → t.poller ≡ Poller.waiting → CanStep t ⊎ (t.parsed ≡ blocks)
    simulator_step nothing idle = elim (simulator_cases t.simulator) [
      | inl waiting ↦ waiting_step nothing waiting idle
      | inr (inl filling) ↦
          let (_, (block, rest, some_left)) = rw (filling) at s.simulator_knows in
          inl (_, fill t block rest filling some_left)
      | inr (inr publishing) ↦
          let (_, (block, rest, some_left), _) = rw (publishing) at s.simulator_knows in
          inl (_, publish t block rest publishing some_left)
    ]

    IsSafe-step : CanStep t ⊎ (t.parsed ≡ blocks)
    IsSafe-step = elim (poller_cases t.poller) [
      | inr (inl parsing) ↦ inl (_, parse t parsing)
      | inr (inr (inl returning)) ↦ inl (_, return_frame t returning)
      | inr (inr (inr counting)) ↦ inl (_, count_packet t counting)
      | inl waiting ↦ elim (IsCons-cases s.held) [
        | inl nothing ↦ simulator_step nothing waiting
        | inr (x, rest, e) ↦
            let place : slot t.curr_frame_idx 0 ≡ t.curr_frame_idx =
              omega (arith, s.frames.in_range) in
            let used = rw (place) at (s.frames.taken 0 x (rw (e) refl)).0 in
            inl (_, see_user t waiting used)
      ]
    ]

  abbrev pub steps : {blocks : List Bytes} {t : Mock} → Reach header_size blocks t → ℕ
  steps here = 0
  steps (next r step) = suc (steps r)

  abbrev filled_for : Simulator → ℕ
  filled_for Simulator.waiting = 0
  filled_for Simulator.filling = 1
  filled_for Simulator.publishing = 2

  abbrev parsed_for : Poller → ℕ
  parsed_for Poller.waiting = 2
  parsed_for Poller.parsing = 3
  parsed_for Poller.returning = 0
  parsed_for Poller.counting = 1

  -- Each block takes three steps of the one thread and four of the other.
  abbrev Counted : ℕ → ℕ → Mock → Type 0
  Counted total n t =
      n + 2 + 3 * length t.left
      ≡ 3 * total + filled_for t.simulator + 4 * length t.parsed + parsed_for t.poller

  Step-Counted :
      {t u : Mock} (total n : ℕ)
      → Step header_size t u
      → Counted total n t
      → Counted total (suc n) u
  Step-Counted total n (see_kernel t block rest waiting some_left free) c =
      omega (arith, c, ap filled_for waiting)
  Step-Counted total n (fill t block rest filling some_left) c =
      omega (arith, c, ap filled_for filling)
  Step-Counted total n (publish t block rest publishing some_left) c =
      omega (arith, c, ap filled_for publishing, ap length some_left)
  Step-Counted total n (see_user t waiting used) c = omega (arith, c, ap parsed_for waiting)
  Step-Counted total n (parse t parsing) c =
      omega (arith, c, ap parsed_for parsing, length-snoc t.parsed)
  Step-Counted total n (return_frame t returning) c = omega (arith, c, ap parsed_for returning)
  Step-Counted total n (count_packet t counting) c = omega (arith, c, ap parsed_for counting)

  Reach-Counted :
      {blocks : List Bytes} {t : Mock} (r : Reach header_size blocks t)
      → Counted (length blocks) (steps r) t
  Reach-Counted here = omega arith
  Reach-Counted {blocks} (next r step) =
      Step-Counted (length blocks) (steps r) step (Reach-Counted r)

  filled_for-le :
      (s : Simulator) (r : _) (idx : ℕ) (held left : List Bytes)
      → SimulatorKnows header_size s r idx held left
      → filled_for s ≤ 3 * length left
  filled_for-le Simulator.waiting r idx held left h = omega arith
  filled_for-le Simulator.filling r idx held left (_, (x, rest, e)) = omega (arith, ap length e)
  filled_for-le Simulator.publishing r idx held left (_, (x, rest, e), _) =
      omega (arith, ap length e)

  parsed_for-le :
      (p : Poller) (before held parsed : List Bytes)
      → PollerKnows header_size p before held parsed
      → 4 * length parsed + parsed_for p ≤ 4 * length before + 4 * length held + 2
  parsed_for-le Poller.waiting before held parsed h = omega (arith, ap length h)
  parsed_for-le Poller.counting before held parsed h = omega (arith, ap length h)
  parsed_for-le Poller.parsing before held parsed (h, (x, rest, e)) =
      omega (arith, ap length h, ap length e)
  parsed_for-le Poller.returning before held parsed (x, rest, e, h) =
      omega (arith, ap length h, ap length e, length-snoc before x)

  steps-le :
      {blocks : List Bytes} {t : Mock}
      → Fit header_size blocks
      → (r : Reach header_size blocks t) → steps r ≤ 7 * length blocks
  steps-le {blocks} {t} fit r =
      let s = Reach-IsSafe header_size fit r in
      omega (
        arith,
        Reach-Counted r,
        filled_for-le t.simulator t.ring t.frame_idx s.held t.left s.simulator_knows,
        parsed_for-le t.poller s.before s.held t.parsed s.poller_knows,
        ap length s.history,
        length-append s.before (s.held ++ t.left),
        length-append s.held t.left,
      )

  -- Where each block of the file fits a frame behind its header, a run of the two threads takes at
  -- most seven steps for each block, and it can go on until all blocks are parsed.
  pub mock_drains :
      {blocks : List Bytes} {t : Mock}
      → Fit header_size blocks
      → (r : Reach header_size blocks t)
      → (steps r ≤ 7 * length blocks) × (CanStep t ⊎ (t.parsed ≡ blocks))
  mock_drains fit r = (steps-le fit r, IsSafe-step (Reach-IsSafe header_size fit r))
