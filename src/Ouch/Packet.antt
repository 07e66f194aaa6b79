-- ===== src/Ouch/Packet.antt =====
-- The messages of src/protocol/OuchOrderTypes.h as they lie in memory, packed and little-endian,
-- and their way through `send_order` and `handle_write` of src/network/OuchClient.h.
use marketdatabook.Common.{
  ℕ, ◌+◌, ◌-◌, ◌<◌, ◌≡◌, refl, ap, ◌∙◌, sym, arith, List, [], ◌∷◌, ◌++◌, length, length-append,
  state, append_assoc, ltb, true, false,
}
use marketdatabook.Common.Bytes.{Bytes, store_le, length-store_le}
use marketdatabook.Common.Memory.{Memory, load, store, load-add, load-store_of_length}
use marketdatabook.Ouch.{Client, accepted, no_error, connected, send_order, handle_write}
use marketdatabook.Ouch.{after_send, finish_write, after_write}

-- `EnterOrder`; its numbers are those of their types, and `cust_order_id` has 14 bytes.
pub record EnterOrder : Type 0 where
  pub type : ℕ
  pub user_ref_num : ℕ
  pub side : ℕ
  pub quantity : ℕ
  pub symbol : ℕ
  pub price : ℕ
  pub time_in_force : ℕ
  pub display : ℕ
  pub capacity : ℕ
  pub intermarket_sweep_eligibility : ℕ
  pub cross_type : ℕ
  pub cust_order_id : Bytes
  pub appendage_len : ℕ

-- `FramedEnterOrder`, the payload of a packet.
pub record FramedEnterOrder : Type 0 where
  pub soup_length : ℕ
  pub soup_type : ℕ
  pub type : ℕ
  pub user_ref_num : ℕ
  pub side : ℕ
  pub quantity : ℕ
  pub symbol : ℕ
  pub price : ℕ
  pub time_in_force : ℕ
  pub display : ℕ
  pub capacity : ℕ
  pub intermarket_sweep_eligibility : ℕ
  pub cross_type : ℕ
  pub cust_order_id : Bytes
  pub appendage_len : ℕ

unfoldable pub joined : List Bytes → Bytes
joined [] = []
joined (bs ∷ rest) = bs ++ joined rest

unfoldable pub packed_order : EnterOrder → Bytes
packed_order o = joined (
    store_le 1 o.type
    ∷ store_le 4 o.user_ref_num
    ∷ store_le 1 o.side
    ∷ store_le 4 o.quantity
    ∷ store_le 8 o.symbol
    ∷ store_le 8 o.price
    ∷ store_le 1 o.time_in_force
    ∷ store_le 1 o.display
    ∷ store_le 1 o.capacity
    ∷ store_le 1 o.intermarket_sweep_eligibility
    ∷ store_le 1 o.cross_type
    ∷ o.cust_order_id
    ∷ store_le 2 o.appendage_len
    ∷ [])

unfoldable pub packed : FramedEnterOrder → Bytes
packed o = joined (
    store_le 2 o.soup_length
    ∷ store_le 1 o.soup_type
    ∷ store_le 1 o.type
    ∷ store_le 4 o.user_ref_num
    ∷ store_le 1 o.side
    ∷ store_le 4 o.quantity
    ∷ store_le 8 o.symbol
    ∷ store_le 8 o.price
    ∷ store_le 1 o.time_in_force
    ∷ store_le 1 o.display
    ∷ store_le 1 o.capacity
    ∷ store_le 1 o.intermarket_sweep_eligibility
    ∷ store_le 1 o.cross_type
    ∷ o.cust_order_id
    ∷ store_le 2 o.appendage_len
    ∷ [])

length-joined :
    (bs : Bytes) (rest : List Bytes)
    → length (joined (bs ∷ rest)) ≡ length bs + length (joined rest)
unfolding joined
length-joined bs rest = length-append bs (joined rest)

-- The two assertions of the file on the sizes.
pub length-packed_order :
    (o : EnterOrder) → length o.cust_order_id ≡ 14 → length (packed_order o) ≡ 47
unfolding packed_order joined
length-packed_order o h = simp (length-joined, length-store_le, h)

length-packed : (o : FramedEnterOrder) → length o.cust_order_id ≡ 14 → length (packed o) ≡ 50
unfolding packed joined
length-packed o h = simp (length-joined, length-store_le, h)

module _ (m : Memory) (at : ℕ) (o : FramedEnterOrder) (id : length o.cust_order_id ≡ 14) where
  abbrev pub with_packet : Memory
  with_packet = store m at (packed o)

  packet_parts :
      (n : ℕ) → n < 50 → load with_packet at n ++ load with_packet (at + n) (50 - n) ≡ packed o
  packet_parts n h =
      sym (load-add with_packet at n (50 - n))
      ∙ ap (load with_packet at) (omega (arith, h))
      ∙ load-store_of_length m at (packed o) (length-packed o id)

  -- An order of which `send` takes a part, and the event after which it takes the rest, put the 50
  -- bytes of the packed order behind those that were sent, and leave the client connected.
  pub send_order-packed :
      (c : Client) (n : ℕ)
      → c.state ≡ connected
      → n < 50
      → let begun = (state (send_order with_packet c at 50 (accepted n))).0 in
        let c' = (state (handle_write with_packet begun no_error (accepted (50 - n)))).0 in
        (c'.wire ≡ c.wire ++ packed o) × (c'.state ≡ connected)
  unfolding send_order after_send finish_write after_write
  send_order-packed c n up part =
      let short : ltb n 50 ≡ true = ground (arith, part) in
      let whole : ltb (50 - n) (50 - n) ≡ false = ground arith in
      rw (up, short, whole)
        (
          append_assoc c.wire (load with_packet at n) (load with_packet (at + n) (50 - n))
              ∙ ap (λ t. c.wire ++ t) (packet_parts n part),
          refl,
        )
