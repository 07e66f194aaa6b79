-- ===== src/Ouch/Session.antt =====
-- Any sequence of calls of OuchClient.h, over memory that keeps the packets: the order of the bytes
-- that reach the wire.
use marketdatabook.Common.{ℕ, ◌+◌, ◌-◌, ◌≤◌, ltb, ◌≡◌, refl, sym, ap, ◌∙◌, arith, true, false}
use marketdatabook.Common.{[], ◌++◌, append_assoc, append-nil, none, some, state}
use marketdatabook.Common.{Bool-cases, inl, inr, if◌then◌else◌}
use marketdatabook.Common.Bytes.{Bytes}
use marketdatabook.Common.Memory.{Memory, load, load-add}
use marketdatabook.Ouch.{OuchState, disconnected, connecting, connected, pending_write, SendAnswer}
use marketdatabook.Ouch.{
  accepted, would_block, send_error, OptionAnswer, no_error, connection_error,
}
use marketdatabook.Ouch.{
  option_error, Client, new_client, bytes_written, connect_to_server, is_pending,
}
use marketdatabook.Ouch.{
  send_order, after_send, after_write, finish_write, finish_connect, handle_in, handle_write,
}

-- `send` takes no more bytes than it is given.
abbrev pub IsWithin : ℕ → SendAnswer → Type 0
IsWithin len (accepted n) = n ≤ len
IsWithin len would_block = Unit
IsWithin len send_error = Unit

-- The bytes that are still to be sent.
abbrev pub unsent : Memory → Client → Bytes
unsent m c = if is_pending c.state then load m c.pending_buffer c.pending_bytes else []

-- What a call of `send_order` takes on: the whole packet, unless it refuses the packet or throws.
abbrev pub offer : Memory → Client → ℕ → ℕ → SendAnswer → Bytes
offer m c payload len answer =
    if is_pending c.state
    then []
    else (elim (bytes_written answer) [ none ↦ [] | some n ↦ load m payload len ])

-- A client and the bytes of the packets that it took on, in the order of the calls.
pub record Session : Type 0 where
  pub client : Client
  pub offered : Bytes

module _ (m : Memory) where
  pub data Step : Session → Session → Type 0 where
    connecting_step :
        (s : Session)
        → is_pending s.client.state ≡ false
        → Step s (record s { client = connect_to_server s.client })
    send_step :
        (s : Session) (payload len : ℕ) (answer : SendAnswer)
        → IsWithin len answer
        → Step s (record {
          client = (state (send_order m s.client payload len answer)).0;
          offered = s.offered ++ offer m s.client payload len answer;
        })
    write_step :
        (s : Session) (option : OptionAnswer) (answer : SendAnswer)
        → IsWithin s.client.pending_bytes answer
        → Step s (record s { client = (state (handle_write m s.client option answer)).0 })

  pub data Reach : Session → Type 0 where
    here : Reach (record { client = new_client; offered = [] })
    next : {s t : Session} → Reach s → Step s t → Reach t

  load-split : (at n len : ℕ) → n ≤ len → load m at n ++ load m (at + n) (len - n) ≡ load m at len
  load-split at n len h = sym (load-add m at n (len - n)) ∙ ap (load m at) (omega arith)

  abbrev InOrder : Client → Bytes → Type 0
  InOrder c offered = c.wire ++ unsent m c ≡ offered

  accepted_rest :
      (wire : Bytes) (at n len : ℕ)
      → n ≤ len
      → (wire ++ load m at n) ++ load m (at + n) (len - n) ≡ wire ++ load m at len
  accepted_rest wire at n len h =
      append_assoc wire (load m at n) _ ∙ ap (λ (bs : Bytes). wire ++ bs) (load-split at n len h)

  -- A client that is not pending has sent everything that it took on.
  all_sent :
      (c : Client) (offered : Bytes)
      → is_pending c.state ≡ false
      → InOrder c offered
      → c.wire ≡ offered
  all_sent c offered e o = sym (append-nil c.wire) ∙ rw (e) at o

  after_send-InOrder :
      (c : Client) (offered : Bytes) (payload len n : ℕ)
      → n ≤ len
      → is_pending c.state ≡ false
      → c.wire ≡ offered
      → InOrder (after_send m c payload len n).0 (offered ++ load m payload len)
  unfolding after_send
  after_send-InOrder c offered payload len n fits e sent = elim (Bool-cases (ltb n len)) [
    | inl part ↦ rw (part) (rw (sent) (accepted_rest offered payload n len fits))
    | inr whole ↦ let count : n ≡ len = ground arith in rw (whole, e, append-nil, sent, count)
  ]

  send_order-InOrder :
      (c : Client) (offered : Bytes) (payload len : ℕ) (answer : SendAnswer)
      → IsWithin len answer
      → InOrder c offered
      → InOrder
          (state (send_order m c payload len answer)).0
          (offered ++ offer m c payload len answer)
  unfolding send_order
  send_order-InOrder c offered payload len (accepted n) fits o =
      elim (Bool-cases (is_pending c.state)) [
        | inl e ↦ rw (e, append-nil) o
        | inr e ↦
            rw (e) (after_send-InOrder c offered payload len n fits e (all_sent c offered e o))
      ]
  send_order-InOrder c offered payload len would_block fits o =
      elim (Bool-cases (is_pending c.state)) [
        | inl e ↦ rw (e, append-nil) o
        | inr e ↦
            rw (e)
              (after_send-InOrder c offered payload len 0 (omega arith) e (all_sent c offered e o))
      ]
  send_order-InOrder c offered payload len send_error fits o =
      elim (Bool-cases (is_pending c.state)) [
        | inl e ↦ rw (e, append-nil) o
        | inr e ↦ rw (e, append-nil) o
      ]

  after_write-InOrder :
      (c : Client) (offered : Bytes) (n : ℕ)
      → n ≤ c.pending_bytes
      → is_pending c.state ≡ true
      → InOrder c offered
      → InOrder (after_write m c n).0 offered
  unfolding after_write
  after_write-InOrder c offered n fits pending o =
      let o' = rw (pending) at o in
      elim (Bool-cases (ltb n c.pending_bytes)) [
        | inl part ↦
            rw (part, pending) (accepted_rest c.wire c.pending_buffer n c.pending_bytes fits ∙ o')
        | inr whole ↦
            let count : n ≡ c.pending_bytes = ground arith in rw (whole, append-nil, count) o'
      ]

  finish_write-InOrder :
      (c : Client) (offered : Bytes) (answer : SendAnswer)
      → is_pending c.state ≡ true
      → IsWithin c.pending_bytes answer
      → InOrder c offered
      → InOrder (state (finish_write m c answer)).0 offered
  unfolding finish_write
  finish_write-InOrder c offered (accepted n) pending fits o =
      after_write-InOrder c offered n fits pending o
  finish_write-InOrder c offered would_block pending fits o =
      after_write-InOrder c offered 0 (omega arith) pending o
  finish_write-InOrder c offered send_error pending fits o = o

  finish_connect-InOrder :
      (c : Client) (offered : Bytes) (option : OptionAnswer)
      → is_pending c.state ≡ false
      → InOrder c offered
      → InOrder (state (finish_connect c option)).0 offered
  finish_connect-InOrder c offered no_error e o = rw (append-nil) (all_sent c offered e o)
  finish_connect-InOrder c offered connection_error e o = o
  finish_connect-InOrder c offered option_error e o = o

  handle_in-InOrder :
      (c : Client) (offered : Bytes) (option : OptionAnswer) (answer : SendAnswer) (st : OuchState)
      → c.state ≡ st
      → IsWithin c.pending_bytes answer
      → InOrder c offered
      → InOrder (state (handle_in m c option answer st)).0 offered
  handle_in-InOrder c offered option answer connecting e fits o =
      finish_connect-InOrder c offered option (ap is_pending e) o
  handle_in-InOrder c offered option answer pending_write e fits o =
      finish_write-InOrder c offered answer (ap is_pending e) fits o
  handle_in-InOrder c offered option answer connected e fits o = o
  handle_in-InOrder c offered option answer disconnected e fits o = o

  -- After any calls from a new client, where a connection is not set up while a write is pending,
  -- the packets stay in memory as they are and `send` takes no more than it is given, what is on
  -- the wire followed by what is still to be sent is the packets that the client took on, whole and
  -- in order.
  pub wire-offered : {s : Session} → Reach s → s.client.wire ++ unsent m s.client ≡ s.offered
  unfolding connect_to_server
  wire-offered here = refl
  wire-offered (next r (connecting_step s e)) =
      append-nil s.client.wire ∙ all_sent s.client s.offered e (wire-offered r)
  wire-offered (next r (send_step s payload len answer fits)) =
      send_order-InOrder s.client s.offered payload len answer fits (wire-offered r)
  wire-offered (next r (write_step s option answer fits)) =
      handle_in-InOrder s.client s.offered option answer s.client.state refl fits (wire-offered r)
