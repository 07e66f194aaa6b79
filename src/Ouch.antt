-- ===== src/Ouch.antt =====
-- src/network/OuchClient.h: the outbound connection. The kernel's answers to `send` and
-- `getsockopt` are arguments of the calls that make them, and `wire` is the bytes that `send` has
-- taken. A packet's payload lies in memory, where the client keeps a pointer to the rest of it.
pub mod Session
pub mod Drain
pub mod Packet
use marketdatabook.Common.{
  ℕ, ◌+◌, ◌-◌, ltb, if◌then◌else◌, Bool, true, false, List, [], ◌++◌, Option, none, some,
}
use marketdatabook.Common.{Result, done, threw, send_failed, connect_failed}
use marketdatabook.Common.Bytes.{Bytes}
use marketdatabook.Common.Memory.{Memory, load}

pub data OuchState : Type 0 where
  disconnected connecting connected pending_write : OuchState

-- What `send` answers: the bytes that it took, `EAGAIN` or `EWOULDBLOCK`, or another error.
pub data SendAnswer : Type 0 where
  accepted : ℕ → SendAnswer
  would_block : SendAnswer
  send_error : SendAnswer

-- What `getsockopt` answers for `SO_ERROR`: no error, an error of the connection, or it fails.
pub data OptionAnswer : Type 0 where
  no_error connection_error option_error : OptionAnswer

pub record Client : Type 0 where
  pub state : OuchState
  pub pending_buffer : ℕ
  pub pending_bytes : ℕ
  pub wire : Bytes

abbrev pub new_client : Client
new_client = record { state = disconnected; pending_buffer = 0; pending_bytes = 0; wire = [] }

-- `bytes_written`, where the call does not throw.
abbrev pub bytes_written : SendAnswer → Option ℕ
bytes_written (accepted n) = some n
bytes_written would_block = some 0
bytes_written send_error = none

-- `connect_to_server`, whose result is the one of the socket's `connect`.
unfoldable pub connect_to_server : Client → Client
connect_to_server c = record c { state = connecting }

abbrev pub is_pending : OuchState → Bool
is_pending pending_write = true
is_pending connected = false
is_pending connecting = false
is_pending disconnected = false

-- The end of `send_order`, once `send` has taken `n` bytes.
unfoldable pub after_send : Memory → Client → ℕ → ℕ → ℕ → Client × Bool
after_send m c payload packet_len n =
    let sent = c.wire ++ load m payload n in
    if ltb n packet_len
    then (
      record {
        state = pending_write;
        pending_buffer = payload + n;
        pending_bytes = packet_len - n;
        wire = sent;
      },
      false,
    )
    else (record c { wire = sent }, true)

-- `send_order` of the packet with this payload.
unfoldable pub send_order : Memory → Client → ℕ → ℕ → SendAnswer → Result (Client × Bool)
send_order m c payload packet_len answer =
    if is_pending c.state then done (c, false) else (elim (bytes_written answer) [
      | none ↦ threw send_failed (c, false)
      | some n ↦ done (after_send m c payload packet_len n)
    ])

-- The end of a pending write, once `send` has taken `n` bytes.
unfoldable pub after_write : Memory → Client → ℕ → Client × Bool
after_write m c n =
    let sent = c.wire ++ load m c.pending_buffer n in
    if ltb n c.pending_bytes
    then (
      record c {
        pending_buffer = c.pending_buffer + n;
        pending_bytes = c.pending_bytes - n;
        wire = sent;
      },
      false,
    )
    else (record c { state = connected; wire = sent }, true)

-- The branch of `handle_write` for a pending write.
unfoldable pub finish_write : Memory → Client → SendAnswer → Result (Client × Bool)
finish_write m c answer = elim (bytes_written answer) [
  | none ↦ threw send_failed (c, false)
  | some n ↦ done (after_write m c n)
]

-- The branch for a connection that is being set up.
abbrev pub finish_connect : Client → OptionAnswer → Result (Client × Bool)
finish_connect c no_error = done (record c { state = connected }, true)
finish_connect c connection_error = threw connect_failed (c, false)
finish_connect c option_error = threw connect_failed (c, false)

-- `handle_write` in a state of the client.
abbrev pub handle_in :
    Memory → Client → OptionAnswer → SendAnswer → OuchState → Result (Client × Bool)
handle_in m c option answer connecting = finish_connect c option
handle_in m c option answer pending_write = finish_write m c answer
handle_in m c option answer connected = done (c, true)
handle_in m c option answer disconnected = done (c, true)

abbrev pub handle_write : Memory → Client → OptionAnswer → SendAnswer → Result (Client × Bool)
handle_write m c option answer = handle_in m c option answer c.state
