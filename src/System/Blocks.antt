-- ===== src/System/Blocks.antt =====
-- The blocks that `run_mock_mode` of src/main.cpp reads, as lists of messages, and the parts that
-- the threads have done.
use marketdatabook.Common.{◌≤◌, ◌≡◌, refl, sym, ap, ◌∙◌, arith, List, [], ◌∷◌, ◌++◌, length}
use marketdatabook.Common.{Option, none, some, append_assoc, append-nil, length-append}
use marketdatabook.Common.Bytes.{Bytes}
use marketdatabook.Itch.{NormalizedOrder}
use marketdatabook.Parser.Messages.{Message, bytes, decode, stream, orders}
use marketdatabook.Parser.Stream.{AreMessages}
use marketdatabook.Recovery.Logged.{AreSmall}
use marketdatabook.Common.{ℕ, ltb, true, false, inl, inr, ◌⊎◌}
use marketdatabook.Parser.Messages.{IsMessage}
use marketdatabook.Multicast.Ring.{Poller}
use marketdatabook.System.{Call, idle, at_round, pushing, after_log, ends_block, shorter}
use marketdatabook.System.Kept.{with_order}

-- The messages of all blocks.
abbrev pub all : List (List Message) → List Message
all [] = []
all (ms ∷ file) = ms ++ all file

abbrev pub blocks_of : List (List Message) → List Bytes
blocks_of [] = []
blocks_of (ms ∷ file) = stream ms ∷ blocks_of file

pub all-append : (file more : List (List Message)) → all (file ++ more) ≡ all file ++ all more
all-append [] more = refl
all-append (ms ∷ file) more =
    ap (λ t. ms ++ t) (all-append file more) ∙ sym (append_assoc ms (all file) (all more))

pub all-snoc :
    (file : List (List Message)) (ms : List Message) → all (file ++ ms ∷ []) ≡ all file ++ ms
all-snoc file ms = all-append file (ms ∷ []) ∙ ap (λ t. all file ++ t) (append-nil ms)

pub blocks_of-snoc :
    (file : List (List Message)) (ms : List Message)
    → blocks_of (file ++ ms ∷ []) ≡ blocks_of file ++ stream ms ∷ []
blocks_of-snoc [] ms = refl
blocks_of-snoc (x ∷ file) ms = ap (λ t. stream x ∷ t) (blocks_of-snoc file ms)

orders_split :
    (order : Option NormalizedOrder) (os more : List NormalizedOrder)
    → elim order [ none ↦ os | some o ↦ o ∷ os ] ++ more
      ≡ elim order [ none ↦ os ++ more | some o ↦ o ∷ os ++ more ]
orders_split none os more = refl
orders_split (some o) os more = refl

pub orders-append : (ms ns : List Message) → orders (ms ++ ns) ≡ orders ms ++ orders ns
orders-append [] ns = refl
orders-append (m ∷ ms) ns =
    let order = decode m.kind (bytes m) in
    ap (λ (os : List NormalizedOrder). elim order [ none ↦ os | some o ↦ o ∷ os ])
      (orders-append ms ns)
    ∙ sym (orders_split order (orders ms) (orders ns))

pub AreMessages-append :
    (ms ns : List Message) → AreMessages (ms ++ ns) → AreMessages ms × AreMessages ns
AreMessages-append [] ns h = (tt, h)
AreMessages-append (m ∷ ms) ns (e, h) = let (l, r) = AreMessages-append ms ns h in ((e, l), r)

pub AreSmall-append : (ms ns : List Message) → AreSmall (ms ++ ns) → AreSmall ms × AreSmall ns
unfolding AreSmall
AreSmall-append [] ns h = (tt, h)
AreSmall-append (m ∷ ms) ns (e, h) = let (l, r) = AreSmall-append ms ns h in ((e, l), r)

-- A block that follows those of some of the file is the next of the file.
pub next_parsed :
    (so_far later : List (List Message)) (payload : Bytes) (ahead : List Bytes)
    → blocks_of (so_far ++ later) ≡ (blocks_of so_far ++ payload ∷ []) ++ ahead
    → (ms : List Message) × (rest : List (List Message)) × (later ≡ ms ∷ rest)
      × (payload ≡ stream ms)
next_parsed [] [] payload ahead e = absurd (cc)
next_parsed [] (ms ∷ rest) payload ahead e = (ms, rest, refl, cc)
next_parsed (x ∷ so_far) later payload ahead e = next_parsed so_far later payload ahead (cc)

pub whole_block :
    (so_far : List (List Message)) (ms : List Message) (rest : List (List Message))
    → AreMessages (all ((so_far ++ ms ∷ []) ++ rest))
    → AreMessages ms
whole_block so_far ms rest h =
    let front =
      (AreMessages-append (all (so_far ++ ms ∷ [])) (all rest)
        (rw (all-append (so_far ++ ms ∷ []) rest) at h)).0 in
    (AreMessages-append (all so_far) ms (rw (all-snoc so_far ms) at front)).1

abbrev pub seen : List (List Message) → List Message → List Message
seen so_far part = all so_far ++ part

pub seen-snoc :
    (so_far : List (List Message)) (part : List Message) (m : Message)
    → seen so_far (part ++ m ∷ []) ≡ seen so_far part ++ m ∷ []
seen-snoc so_far part m = sym (append_assoc (all so_far) part (m ∷ []))

with_order-elim :
    (xs : List NormalizedOrder) (order : Option NormalizedOrder)
    → xs ++ elim order [ none ↦ [] | some o ↦ o ∷ [] ] ≡ with_order xs order
with_order-elim xs none = append-nil xs
with_order-elim xs (some o) = refl

orders-snoc :
    (ms : List Message) (m : Message)
    → orders (ms ++ m ∷ []) ≡ with_order (orders ms) (decode m.kind (bytes m))
orders-snoc ms m = orders-append ms (m ∷ []) ∙ with_order-elim (orders ms) (decode m.kind (bytes m))

pub orders-seen :
    (so_far : List (List Message)) (part : List Message) (m : Message)
    → orders (seen so_far (part ++ m ∷ []))
      ≡ with_order (orders (seen so_far part)) (decode m.kind (bytes m))
orders-seen so_far part m = ap orders (seen-snoc so_far part m) ∙ orders-snoc (seen so_far part) m

pub cut-next :
    (so_far : List (List Message)) (ms : List Message) {file later more : List (List Message)}
    → file ≡ so_far ++ later
    → later ≡ ms ∷ more
    → file ≡ (so_far ++ ms ∷ []) ++ more
cut-next so_far ms {more = more} e first =
    e ∙ ap (λ t. so_far ++ t) first ∙ sym (append_assoc so_far (ms ∷ []) more)

-- Before a whole message `parse_block` does not return.
pub ends_block-message :
    (m : Message) (rest : Bytes) → IsMessage m → ends_block (bytes m ++ rest) ≡ false
ends_block-message m rest e =
    let long : ltb (length (bytes m ++ rest)) (length (bytes m)) ≡ false =
      ground (arith, length-append (bytes m) rest) in
    ap (shorter (bytes m ++ rest)) e ∙ long

pub ends_block-nil :
    (left : List Message) → AreMessages left → ends_block (stream left) ≡ true → left ≡ []
ends_block-nil [] whole e = refl
ends_block-nil (m ∷ left) (h, whole) e =
    let more = ends_block-message m (stream left) h in absurd (cc (more, e))

-- The poller is in the next block, of which some messages are logged, and the rest is left.
pub record InBlock (poller : Poller) (later : List (List Message)) (part : List Message)
    (rest : Bytes) : Type 0 where
  pub parsing : poller ≡ Poller.parsing
  pub left : List Message
  pub more : List (List Message)
  pub first : later ≡ (part ++ left) ∷ more
  pub ahead : rest ≡ stream left

InBlock-later :
    {poller : Poller} {later : List (List Message)} {part : List Message} {rest : Bytes}
    → InBlock poller later part rest
    → (ahead : List Message) × (all later ≡ part ++ ahead)
InBlock-later {part = part} v =
    (v.left ++ all v.more, ap all v.first ∙ append_assoc part v.left (all v.more))

-- `so_far` are the blocks that were parsed, and `part` are the messages of the next one that are
-- logged. The orders pushed are those of all logged messages, but for one that is about to be.
abbrev pub CallKnows :
    Call
    → Poller
    → List (List Message)
    → List (List Message)
    → List Message
    → List NormalizedOrder
    → Type 0
CallKnows idle poller so_far later part pushed = (part ≡ []) × (pushed ≡ orders (seen so_far part))
CallKnows (at_round rest) poller so_far later part pushed =
    InBlock poller later part rest × (pushed ≡ orders (seen so_far part))
CallKnows (pushing o rest) poller so_far later part pushed =
    InBlock poller later part rest × (pushed ++ o ∷ [] ≡ orders (seen so_far part))

pub after_log-knows :
    (order : Option NormalizedOrder) (so_far : List (List Message)) (pushed : List NormalizedOrder)
    {poller : Poller} {later : List (List Message)} {part : List Message} {rest : Bytes}
    → InBlock poller later part rest
    → with_order pushed order ≡ orders (seen so_far part)
    → CallKnows (after_log order rest) poller so_far later part pushed
after_log-knows none so_far pushed inside e = (inside, e)
after_log-knows (some o) so_far pushed inside e = (inside, e)

-- The logged messages of the next block are the first of those that are not in parsed blocks.
pub CallKnows-later :
    (c : Call) (poller : Poller) (so_far later : List (List Message)) (part : List Message)
    (pushed : List NormalizedOrder)
    → CallKnows c poller so_far later part pushed
    → (ahead : List Message) × (all later ≡ part ++ ahead)
CallKnows-later idle poller so_far later part pushed (nothing, _) =
    (all later, ap (λ t. t ++ all later) (sym nothing))
CallKnows-later (at_round rest) poller so_far later part pushed (inside, _) = InBlock-later inside
CallKnows-later (pushing o rest) poller so_far later part pushed (inside, _) = InBlock-later inside

-- Not more orders are pushed than the logged messages have.
pub CallKnows-pushed :
    (c : Call) (poller : Poller) (so_far later : List (List Message)) (part : List Message)
    (pushed : List NormalizedOrder)
    → CallKnows c poller so_far later part pushed
    → (last : List NormalizedOrder) × (orders (seen so_far part) ≡ pushed ++ last)
CallKnows-pushed idle poller so_far later part pushed (_, e) = ([], sym (append-nil pushed ∙ e))
CallKnows-pushed (at_round rest) poller so_far later part pushed (_, e) =
    ([], sym (append-nil pushed ∙ e))
CallKnows-pushed (pushing o rest) poller so_far later part pushed (_, e) = (o ∷ [], sym e)

-- The logged messages of the next block are none, or it begins with them.
abbrev pub IsNext : List Message → List (List Message) → Type 0
IsNext part later =
    (part ≡ [])
    ⊎ ((left : List Message) × (more : List (List Message)) × (later ≡ (part ++ left) ∷ more))

pub CallKnows-IsNext :
    (c : Call) (poller : Poller) (so_far later : List (List Message)) (part : List Message)
    (pushed : List NormalizedOrder)
    → CallKnows c poller so_far later part pushed
    → IsNext part later
CallKnows-IsNext idle poller so_far later part pushed (nothing, _) = inl nothing
CallKnows-IsNext (at_round rest) poller so_far later part pushed (inside, _) =
    inr (inside.left, inside.more, inside.first)
CallKnows-IsNext (pushing o rest) poller so_far later part pushed (inside, _) =
    inr (inside.left, inside.more, inside.first)

-- Whether a block was begun and not ended.
abbrev pub busy : Call → ℕ
busy idle = 0
busy (at_round rest) = 1
busy (pushing o rest) = 1

pub busy-after_log :
    (order : Option NormalizedOrder) (rest : Bytes) → busy (after_log order rest) ≡ 1
busy-after_log none rest = refl
busy-after_log (some o) rest = refl

pub busy-later :
    (c : Call) (poller : Poller) (so_far later : List (List Message)) (part : List Message)
    (pushed : List NormalizedOrder)
    → CallKnows c poller so_far later part pushed
    → busy c ≤ length later
busy-later idle poller so_far later part pushed h = omega arith
busy-later (at_round rest) poller so_far later part pushed (inside, _) =
    omega (arith, ap length inside.first)
busy-later (pushing o rest) poller so_far later part pushed (inside, _) =
    omega (arith, ap length inside.first)
