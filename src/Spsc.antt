-- ===== src/Spsc.antt =====
-- src/utils/spscqueue.h: a ring between one producer and one consumer, each with a cached copy of
-- the other's index. Here a call of `push` or `pop` runs whole; `Spsc.Threads` interleaves them.
pub mod Holds
pub mod Calls
pub mod Answers
pub mod Threads
use marketdatabook.Common.{ℕ, ◌+◌, ◌-◌, ◌%◌, ◌^◌, bit_and, ◌==◌, if◌then◌else◌, Bool, true, false}
use marketdatabook.Common.{Option, none, some, Array, update}

-- `producer_.tail_`, `producer_.cached_head_`, `consumer_.head_`, `consumer_.cached_tail_`, `data_`
pub record Queue {ℓ} (A : Type ℓ) : Type ℓ where
  pub tail : ℕ
  pub cached_head : ℕ
  pub head : ℕ
  pub cached_tail : ℕ
  pub slots : Array A

-- The template parameter `Size` is a power of 2, which the `static_assert` demands: `2 ^ k`.
module _ (k : ℕ) where
  -- `(idx + 1) & (Size - 1)`
  unfoldable pub next_index : ℕ → ℕ
  next_index idx = bit_and ((idx + 1) % 2 ^ 64) (2 ^ k - 1)

  module _ {ℓ} {A : Type ℓ} where
    unfoldable pub load_head : Queue A → Queue A
    load_head q = record q { cached_head = q.head }

    unfoldable pub write_slot : A → Queue A → Queue A
    write_slot input q = record q { slots = update q.slots q.tail input }

    unfoldable pub store_tail : Queue A → Queue A
    store_tail q = record q { tail = next_index q.tail }

    -- `producer_.cached_head_ == next_tail_idx`
    abbrev pub looks_full : Queue A → Bool
    looks_full q = q.cached_head == next_index q.tail

    -- Both overloads of `push`, which differ in how the element is moved only.
    unfoldable pub push : Queue A → A → Queue A × Bool
    unfolding load_head write_slot store_tail
    push q input =
        let loaded = load_head q in
        if looks_full q
        then if looks_full loaded
          then (loaded, false)
          else (store_tail (write_slot input loaded), true)
        else (store_tail (write_slot input q), true)

    unfoldable pub load_tail : Queue A → Queue A
    load_tail q = record q { cached_tail = q.tail }

    abbrev pub read_slot : Queue A → A
    read_slot q = q.slots q.head

    unfoldable pub store_head : Queue A → Queue A
    store_head q = record q { head = next_index q.head }

    -- `head_idx == consumer_.cached_tail_`
    abbrev pub looks_empty : Queue A → Bool
    looks_empty q = q.head == q.cached_tail

    -- The option is the output parameter, `none` for the result `false`.
    unfoldable pub pop : Queue A → Queue A × Option A
    unfolding load_tail store_head
    pop q =
        let loaded = load_tail q in
        if looks_empty q
        then if looks_empty loaded
          then (loaded, none)
          else (store_head loaded, some (read_slot loaded))
        else (store_head q, some (read_slot q))

-- The indices start at 0; what the slots hold then does not matter.
unfoldable pub new {ℓ} : {A : Type ℓ} → Array A → Queue A
new slots = record { tail = 0; cached_head = 0; head = 0; cached_tail = 0; slots = slots }
