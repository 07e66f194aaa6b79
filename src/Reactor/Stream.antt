-- ===== src/Reactor/Stream.antt =====
-- The bytes of a connection of EpollReactor.h reach the handler whole and in order.
use marketdatabook.Common.{ℕ, zero, suc, ◌%◌, ◌≤◌, ◌≡◌, ◌≢◌, refl, sym, ap, ap₂, ◌∙◌, arith}
use marketdatabook.Common.{List, [], ◌∷◌, ◌++◌, length, take, drop, some, append_assoc, append-nil}
use marketdatabook.Common.{update_self, update_ne}
use marketdatabook.Common.Bytes.{Bytes}
use marketdatabook.Common.Memory.{length-load}
use marketdatabook.Magic.{
  MagicBuffer, receive, advance_read, contents, read_space_left, write_space_left,
}
use marketdatabook.Magic.Contents.{IsInside, contents-receive, contents-advance_read, contents-fill}
use marketdatabook.Magic.Contents.{receive-IsInside, advance_read-IsInside, space-receive}
use marketdatabook.Reactor.{Reactor, Received, bytes, would_block, error, hand_over, receive_all}

take-drop-append :
    {A : Type 0} (n : ℕ) (xs ys : List A)
    → n ≤ length xs
    → take n xs ++ drop n (xs ++ ys) ≡ xs ++ ys
take-drop-append zero xs ys h = refl
take-drop-append (suc n) [] ys h = absurd (omega arith)
take-drop-append (suc n) (x ∷ xs) ys h = ap (λ t. x ∷ t) (take-drop-append n xs ys (omega arith))

module _ {ℓ} {H : Type ℓ} (on_data : H → ℕ → Bytes → ℕ × H)
    (takes : (h : H) (fd : ℕ) (seen : Bytes) → (on_data h fd seen).0 ≤ length seen) where
  -- What came from the connection: what the handler took, and then what is still to be read.
  abbrev pub stream : Reactor H → ℕ → Bytes
  stream r fd = r.taken fd ++ contents (r.fd_buffers fd)

  module _ (r : Reactor H) (fd : ℕ) (bs : Bytes) (v : IsInside (r.fd_buffers fd))
      (room : length bs ≤ write_space_left (r.fd_buffers fd)) where
    abbrev b : MagicBuffer
    b = r.fd_buffers fd

    abbrev n : ℕ
    n = (on_data r.handler fd (contents b)).0

    seen_length : length (contents b) ≡ read_space_left b
    seen_length =
        length-load (λ at. b.cells (at % b.aligned_capacity)) b.read_head (read_space_left b)

    there : n ≤ read_space_left b
    there = omega (arith, seen_length, takes r.handler fd (contents b))

    abbrev after : MagicBuffer
    after = advance_read (receive b bs) n

    -- The buffer and the taken bytes after a call of the handler.
    hand_over_lem :
        ((hand_over on_data r fd bs).fd_buffers fd ≡ after)
        × ((hand_over on_data r fd bs).taken fd ≡ r.taken fd ++ take n (contents b))
    unfolding hand_over
    hand_over_lem =
        rw (contents-fill v bs room) (update_self r.fd_buffers fd _, update_self r.taken fd _)

    still : n ≤ read_space_left (receive b bs)
    still = omega (arith, there, space-receive v bs room)

    hand_over-stream : stream (hand_over on_data r fd bs) fd ≡ stream r fd ++ bs
    hand_over-stream =
        ap₂ ◌++◌ hand_over_lem.1 (
          ap contents hand_over_lem.0
          ∙ contents-advance_read (receive-IsInside v bs room) n still
          ∙ ap (drop n) (contents-receive v bs room))
        ∙ append_assoc (r.taken fd) (take n (contents b)) (drop n (contents b ++ bs))
        ∙ ap (λ t. r.taken fd ++ t)
            (take-drop-append n (contents b) bs (takes r.handler fd (contents b)))
        ∙ sym (append_assoc (r.taken fd) (contents b) bs)

    hand_over-IsInside : IsInside ((hand_over on_data r fd bs).fd_buffers fd)
    hand_over-IsInside =
        rw (hand_over_lem.0) (advance_read-IsInside (receive-IsInside v bs room) n still)

  -- The bytes of each `recv` fit what its buffer has room for when it is called, and the loop ends
  -- where there is nothing more for now.
  unfoldable pub Fits : ℕ → List Received → Reactor H → Type 0
  Fits fd [] r = ⊥
  Fits fd (would_block ∷ answers) r = Unit
  Fits fd (error ∷ answers) r = ⊥
  Fits fd (bytes [] ∷ answers) r = ⊥
  Fits fd (bytes (b ∷ bs) ∷ answers) r =
      (length (b ∷ bs) ≤ write_space_left (r.fd_buffers fd))
      × Fits fd answers (hand_over on_data r fd (b ∷ bs))

  abbrev pub bytes_of : List Received → Bytes
  bytes_of [] = []
  bytes_of (would_block ∷ answers) = []
  bytes_of (error ∷ answers) = []
  bytes_of (bytes bs ∷ answers) = bs ++ bytes_of answers

  -- The loop has left the connection open, with its bytes behind those that it had.
  pub record IsDrained (r r' : Reactor H) (fd : ℕ) (more : Bytes) : Type ℓ where
    pub whole : stream r' fd ≡ stream r fd ++ more
    pub inside : IsInside (r'.fd_buffers fd)
    pub still_open : r'.closed ≡ r.closed
    pub others : (other : ℕ) → other ≢ fd → r'.fd_buffers other ≡ r.fd_buffers other

  hand_over-others :
      (r : Reactor H) (fd : ℕ) (bs : Bytes) (other : ℕ)
      → other ≢ fd
      → (hand_over on_data r fd bs).fd_buffers other ≡ r.fd_buffers other
  unfolding hand_over
  hand_over-others r fd bs other ne = update_ne r.fd_buffers fd other _ (λ e. ne (sym e))

  hand_over-closed :
      (r : Reactor H) (fd : ℕ) (bs : Bytes) → (hand_over on_data r fd bs).closed ≡ r.closed
  unfolding hand_over
  hand_over-closed r fd bs = refl

  -- Where the heads of the buffer lie in the first mapping, each `recv` gives what fits and the
  -- last says that there is nothing more for now, the loop ends with the connection open; what the
  -- handler took and what is still to be read is what it was before and then all bytes received, in
  -- order, and the buffers of other descriptors are as they were. The handler takes no more than is
  -- there.
  pub receive_all-IsDrained :
      (answers : List Received) (r : Reactor H) (fd : ℕ)
      → IsInside (r.fd_buffers fd)
      → Fits fd answers r
      → (r' : Reactor H) × (receive_all on_data fd answers r ≡ some r')
        × IsDrained r r' fd (bytes_of answers)
  unfolding receive_all Fits
  receive_all-IsDrained [] r fd v fits = absurd fits
  receive_all-IsDrained (would_block ∷ answers) r fd v fits = (
    r,
    refl,
    record {
      whole = sym (append-nil (stream r fd));
      inside = v;
      still_open = refl;
      others = λ other ne. refl;
    },
  )
  receive_all-IsDrained (error ∷ answers) r fd v fits = absurd fits
  receive_all-IsDrained (bytes [] ∷ answers) r fd v fits = absurd fits
  receive_all-IsDrained (bytes (x ∷ xs) ∷ answers) r fd v (room, fits) =
      let bs = x ∷ xs in
      let (r', run, d) =
        receive_all-IsDrained answers (hand_over on_data r fd bs) fd
          (hand_over-IsInside r fd bs v room) fits in
      (
        r',
        run,
        record {
          whole =
              d.whole
              ∙ ap (λ t. t ++ bytes_of answers) (hand_over-stream r fd bs v room)
              ∙ append_assoc (stream r fd) bs (bytes_of answers);
          inside = d.inside;
          still_open = d.still_open ∙ hand_over-closed r fd bs;
          others = λ other ne. d.others other ne ∙ hand_over-others r fd bs other ne;
        },
      )
