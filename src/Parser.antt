-- ===== src/Parser.antt =====
-- src/protocol/ItchParser.h: `log_payload` and `parse_block`. A block is the list of its
-- `payload_len` bytes. A block of negative length, which returns at once, is not modelled.
pub mod Messages
pub mod Stream
pub mod Pushed
use marketdatabook.Common.{ℕ, zero, suc, ◌+◌, ◌%◌, ◌^◌, ltb, ◌==◌, if◌then◌else◌, take, drop}
use marketdatabook.Common.{Option, none, some, List, [], ◌∷◌, ◌++◌, length, get_or, replicate}
use marketdatabook.Common.Bytes.{Bytes}
use marketdatabook.Itch.{NormalizedOrder}
use marketdatabook.Itch.Decode.{extract_header, parse_add_order, parse_executed_order}
use marketdatabook.Itch.Decode.{parse_cancel_order}
use marketdatabook.Spsc
use marketdatabook.Spsc.{Queue}
use marketdatabook.Wal.{Crc, Logger, reserve_frame, write_frame}

pub record Parser : Type 0 where
  pub queue : Queue NormalizedOrder
  pub logger : Logger
  pub curr_seq_num : ℕ

-- The rows of `message_length_table` up to 127, 16 to a row.
message_length_table : List ℕ
message_length_table =
    no_lengths
    ++ (0 ∷ 36 ∷ 19 ∷ 36 ∷ 19 ∷ 31 ∷ 40 ∷ 0 ∷ 25 ∷ 50 ∷ 35 ∷ 28 ∷ 26 ∷ 0 ∷ 20 ∷ 48 ∷ 44 ∷ 40 ∷ 39
        ∷ 12 ∷ 0 ∷ 35 ∷ 35 ∷ 12 ∷ 23 ∷ 20 ∷ 0 ∷ 0 ∷ 0 ∷ 0 ∷ 0 ∷ 0 ∷ 0 ∷ 0 ∷ 0 ∷ 0 ∷ 0 ∷ 0 ∷ 0 ∷ 0
        ∷ 21 ∷ [])
  where
    no_lengths : List ℕ
    no_lengths = replicate 64 0

-- `message_length_table[message_type - '\0']`. A `char` is signed on x86: a byte from 128 on is a
-- negative index, which is out of the table.
unfoldable pub message_length : ℕ → Option ℕ
unfolding message_length_table
message_length kind = if ltb kind 128 then some (get_or message_length_table kind 0) else none

-- How a call of `parse_block` ends: it returns, it reads outside the table, or its rounds are
-- used up.
pub data Outcome : Type 0 where
  returned : Parser → Outcome
  bad_index : Parser → Outcome
  out_of_fuel : Outcome

-- `rdtsc n` is the time stamp counter when frame `n` is written; `k` gives the queue's size.
module _ (crc : Crc) (rdtsc : ℕ → ℕ) (k : ℕ) where
  -- `log_payload`, of the bytes that it copies into the frame.
  unfoldable pub log_bytes : Parser → Bytes → ℕ → Parser
  log_bytes p bytes kind =
      let (logger, frame) = reserve_frame p.logger in
      elim frame [
        | none ↦ p
        | some at ↦
            let seq = p.curr_seq_num in
            record p {
              logger = record logger {
                memory = write_frame crc logger.memory at kind seq (rdtsc seq) bytes;
              };
              curr_seq_num = (seq + 1) % 2 ^ 64;
            }
      ]

  abbrev pub log_payload : Parser → Bytes → ℕ → ℕ → Parser
  log_payload p payload message_len kind = log_bytes p (take message_len payload) kind

  -- `queue_.push(std::move(new_order))`, whose result is not looked at.
  abbrev pub push_order : Parser → NormalizedOrder → Parser
  push_order p order = record p { queue = (Spsc.push k p.queue order).0 }

  -- A round of the loop up to the push, from the first `switch` on: the parser with the message in
  -- its log, the order to push where there is one, and the rest of the block.
  unfoldable pub log_round : Parser → ℕ → Bytes → ℕ → Parser × Option NormalizedOrder × Bytes
  log_round p kind payload len =
      let header = extract_header payload in
      if kind == b'A'
      then (log_payload p payload 36 b'A', some (parse_add_order payload header), drop 36 payload)
      else (if kind == b'E'
          then (
            log_payload p payload 31 b'E',
            some (parse_executed_order payload header),
            drop 31 payload,
          )
          else (if kind == b'X'
              then (
                log_payload p payload 23 b'X',
                some (parse_cancel_order payload header),
                drop 23 payload,
              )
              else (log_payload p payload len b'-', none, drop len payload)))

  abbrev pub push_some : Parser → Option NormalizedOrder → Parser
  push_some p none = p
  push_some p (some o) = push_order p o

  -- A whole round: the parser and the rest of the block.
  unfoldable pub handle : Parser → ℕ → Bytes → ℕ → Parser × Bytes
  handle p kind payload len =
      let (p', order, rest) = log_round p kind payload len in (push_some p' order, rest)

  -- `while (true)`, with the rounds left.
  unfoldable pub parse_block : ℕ → Parser → Bytes → Outcome
  parse_block zero p payload = out_of_fuel
  parse_block (suc fuel) p [] = returned p
  parse_block (suc fuel) p (kind ∷ rest) = elim (message_length kind) [
    | none ↦ bad_index p
    | some len ↦
        let (p', payload') = handle p kind (kind ∷ rest) len in
        let more = parse_block fuel p' payload' in
        if ltb (length (kind ∷ rest)) len then returned p else more
  ]
