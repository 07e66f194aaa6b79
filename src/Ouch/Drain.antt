-- ===== src/Ouch/Drain.antt =====
-- The end of a pending write of OuchClient.h.
use marketdatabook.Common.{
  ℕ, ◌+◌, ◌-◌, ◌<◌, ◌≤◌, ltb, ◌≡◌, refl, sym, ap, ◌∙◌, arith, Bool-cases, ◌⊎◌, inl, inr,
}
use marketdatabook.Common.{List, [], ◌∷◌, ◌++◌, length, state, append_assoc}
use marketdatabook.Common.Memory.{Memory, load, load-add}
use marketdatabook.Ouch.{OuchState, pending_write, connected, accepted, no_error, Client}
use marketdatabook.Ouch.{after_write, finish_write, handle_in, handle_write}

-- `handle_write` for a list of events, with the bytes that `send` takes at each.
pub write_all : Memory → Client → List ℕ → Client
write_all m c [] = c
write_all m c (n ∷ ns) = write_all m (state (handle_write m c no_error (accepted n))).0 ns

-- What `send` takes of this many bytes at each event: at least one, and no more than it is given.
-- Once all are taken, it is not called.
abbrev pub Takes : ℕ → List ℕ → Type 0
Takes pending [] = Unit
Takes pending (n ∷ ns) = (pending ≡ 0) ⊎ ((0 < n) × (n ≤ pending) × Takes (pending - n) ns)

module _ (m : Memory) where
  -- A call in a known state.
  write_all-in :
      (c : Client) (n : ℕ) (ns : List ℕ) {st : OuchState}
      → c.state ≡ st
      → write_all m c (n ∷ ns) ≡ write_all m (state (handle_in m c no_error (accepted n) st)).0 ns
  unfolding write_all
  write_all-in c n ns e =
      ap (λ (st : OuchState). write_all m (state (handle_in m c no_error (accepted n) st)).0 ns) e

  stays_connected : (ns : List ℕ) (c : Client) → c.state ≡ connected → write_all m c ns ≡ c
  unfolding write_all
  stays_connected [] c e = refl
  stays_connected (n ∷ ns) c e = write_all-in c n ns e ∙ stays_connected ns c e

  -- The client is connected, and the pending bytes are on the wire.
  pub record IsDrained (c c' : Client) : Type 0 where
    pub connects : c'.state ≡ connected
    pub sent : c'.wire ≡ c.wire ++ load m c.pending_buffer c.pending_bytes

  -- One event that takes a part, and then the others.
  part-IsDrained :
      (c : Client) (n : ℕ) (c' : Client)
      → n ≤ c.pending_bytes
      → IsDrained
          (record c {
            pending_buffer = c.pending_buffer + n;
            pending_bytes = c.pending_bytes - n;
            wire = c.wire ++ load m c.pending_buffer n;
          })
          c'
      → IsDrained c c'
  part-IsDrained c n c' fits v =
      let rest = load m (c.pending_buffer + n) (c.pending_bytes - n) in
      let whole : load m c.pending_buffer n ++ rest ≡ load m c.pending_buffer c.pending_bytes =
        sym (load-add m c.pending_buffer n (c.pending_bytes - n))
        ∙ ap (load m c.pending_buffer) (omega (arith, fits)) in
      record {
        connects = v.connects;
        sent =
            v.sent
            ∙ append_assoc c.wire (load m c.pending_buffer n) rest
            ∙ ap (λ t. c.wire ++ t) whole;
      }

  -- Where `send` takes at least a byte each time, and no more than it is given, a pending write of
  -- at least a byte is finished after one event for each pending byte: the client is connected, and
  -- the wire has got the pending bytes, whole and in order, and nothing else.
  pub write_all-IsDrained :
      (ns : List ℕ) (c : Client)
      → c.state ≡ pending_write
      → 0 < c.pending_bytes
      → Takes c.pending_bytes ns
      → c.pending_bytes ≤ length ns
      → IsDrained c (write_all m c ns)
  unfolding write_all finish_write after_write
  write_all-IsDrained [] c e some takes enough = absurd (omega arith)
  write_all-IsDrained (n ∷ ns) c e some (inl nothing) enough = absurd (omega arith)
  write_all-IsDrained (n ∷ ns) c e some (inr (one, fits, takes)) enough =
      elim (Bool-cases (ltb n c.pending_bytes)) [
        | inl part ↦
            let more = write_all-IsDrained ns _ e (ground arith) takes (omega arith) in
            rw (write_all-in c n ns e, part) (part-IsDrained c n _ fits more)
        | inr whole ↦
            let all : n ≡ c.pending_bytes = ground (arith, whole, fits) in
            let done : Client = record c {
              state = connected;
              wire = c.wire ++ load m c.pending_buffer n;
            } in
            rw (write_all-in c n ns e, whole, stays_connected ns done refl)
              (record { connects = refl; sent = ap (λ k. c.wire ++ load m c.pending_buffer k) all })
      ]
