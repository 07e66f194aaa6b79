-- ===== src/Resources/Reactor/Leaves.antt =====
-- What the constructor of src/network/EpollReactor.h leaves when it throws.
use marketdatabook.Common.{
  ℕ, ◌*◌, ◌≡◌, refl, arith, Bool, true, false, Option, none, some, List, [], ◌∷◌,
}
use marketdatabook.Resources.{Kernel, Made, made, failed, opened, close, close_any, munmap_any}
use marketdatabook.Resources.{
  IsFreshFd, IsFreshRange, IsSame, IsSame-refl, IsSame-trans, CleansUp, close-opened,
}
use marketdatabook.Resources.Pages.{page_aligned}
use marketdatabook.Resources.Buffers.{Buffer, destroy_buffer, new_buffer-CleansUp}
use marketdatabook.Resources.Reactor.{Answers, Reactor, max_buffer_size, one_buffer, make_buffers}
use marketdatabook.Resources.Reactor.{destroy_buffers, new_reactor, destroy_reactor}

abbrev pub after {ℓ} : {H : Type ℓ} → Made H → Kernel
after (made h k) = k
after (failed call k) = k

close_any-IsSame :
    {k k' : Kernel} (fd : Option ℕ) → IsSame k k' → IsSame (close_any k fd) (close_any k' fd)
close_any-IsSame none v = v
close_any-IsSame (some fd) v = record {
  same_open = λ x. ground (arith, v.same_open x);
  same_mapped = v.same_mapped;
  same_infos = v.same_infos;
  same_faults = ground (arith, v.same_open fd, v.same_faults);
}

munmap_any-IsSame :
    {k k' : Kernel} (at : Option ℕ) (len : ℕ)
    → IsSame k k'
    → IsSame (munmap_any k at len) (munmap_any k' at len)
munmap_any-IsSame none len v = v
munmap_any-IsSame (some at) len v = record {
  same_open = v.same_open;
  same_mapped = λ x. ground (arith, v.same_mapped x);
  same_infos = v.same_infos;
  same_faults = v.same_faults;
}

destroy_buffer-IsSame :
    {k k' : Kernel} (b : Buffer) → IsSame k k' → IsSame (destroy_buffer b k) (destroy_buffer b k')
destroy_buffer-IsSame b v =
    close_any-IsSame b.fd (munmap_any-IsSame b.start (b.aligned_capacity * 2) v)

-- One buffer made, and then what the rest of the loop gives.
add_buffer :
    (k k' : Kernel) (b : Buffer) (r : Made (List Buffer))
    → IsSame k (destroy_buffer b k')
    → CleansUp destroy_buffers k' r
    → CleansUp destroy_buffers k (elim r [
      | failed call k'' ↦ failed call (destroy_buffer b k'')
      | made bs k'' ↦ made (b ∷ bs) k''
    ])
unfolding CleansUp
add_buffer k k' b (failed call k'') v w = IsSame-trans v (destroy_buffer-IsSame b w)
add_buffer k k' b (made bs k'') v w = IsSame-trans v (destroy_buffer-IsSame b w)

close-give_back :
    (start fd : Option ℕ) (len : ℕ) (k : Kernel) (e : ℕ)
    → (close_any (munmap_any k start len) fd).is_open e ≡ true
    → IsSame
        (close (close_any (munmap_any k start len) fd) e)
        (close_any (munmap_any (close k e) start len) fd)
close-give_back none none len k e still = IsSame-refl _
close-give_back (some at) none len k e still = IsSame-refl _
close-give_back none (some fd) len k e still = record {
  same_open = λ x. ground arith;
  same_mapped = λ x. refl;
  same_infos = refl;
  same_faults = ground arith;
}
close-give_back (some at) (some fd) len k e still = record {
  same_open = λ x. ground arith;
  same_mapped = λ x. refl;
  same_infos = refl;
  same_faults = ground arith;
}

still_open_any :
    (start fd : Option ℕ) (len : ℕ) (k : Kernel) (e : ℕ)
    → (close_any (munmap_any k start len) fd).is_open e ≡ true
    → k.is_open e ≡ true
still_open_any none none len k e still = still
still_open_any (some at) none len k e still = still
still_open_any none (some fd) len k e still = ground arith
still_open_any (some at) (some fd) len k e still = ground arith

-- A descriptor that no buffer has is closed before the buffers as well as behind them.
close-destroy_buffer :
    (b : Buffer) (k : Kernel) (e : ℕ)
    → (destroy_buffer b k).is_open e ≡ true
    → IsSame (close (destroy_buffer b k) e) (destroy_buffer b (close k e))
close-destroy_buffer b k e still = close-give_back b.start b.fd (b.aligned_capacity * 2) k e still

still_open :
    (b : Buffer) (k : Kernel) (e : ℕ) → (destroy_buffer b k).is_open e ≡ true → k.is_open e ≡ true
still_open b k e still = still_open_any b.start b.fd (b.aligned_capacity * 2) k e still

close-destroy_buffers :
    (bs : List Buffer) (k : Kernel) (e : ℕ)
    → (destroy_buffers bs k).is_open e ≡ true
    → IsSame (close (destroy_buffers bs k) e) (destroy_buffers bs (close k e))
close-destroy_buffers [] k e still = IsSame-refl _
close-destroy_buffers (b ∷ bs) k e still =
    IsSame-trans (close-destroy_buffer b (destroy_buffers bs k) e still) (
      destroy_buffer-IsSame b
        (close-destroy_buffers bs k e (still_open b (destroy_buffers bs k) e still)))

-- A constructor that returns leaves what the destructor gives back; one that throws leaves nothing
-- but the epoll descriptor, if it has one.
unfoldable pub Leaves : Option ℕ → Kernel → Made Reactor → Type 0
Leaves epoll k (made r k') = IsSame k (destroy_reactor r k')
Leaves none k (failed call k') = IsSame k k'
Leaves (some fd) k (failed call k') = IsSame (opened k fd) k'

module _ (p : ℕ) where
  -- Each descriptor that the kernel hands out was not open, and each range not mapped, when it did.
  abbrev pub AreFresh : List Answers → Kernel → Type 0
  AreFresh [] k = Unit
  AreFresh (a ∷ answers) k =
      IsFreshFd k a.fd
      × IsFreshRange k (page_aligned p max_buffer_size * 2) a.room
      × AreFresh answers (after (one_buffer p a k))

  make_buffers-CleansUp :
      (answers : List Answers) (k : Kernel)
      → AreFresh answers k
      → CleansUp destroy_buffers k (make_buffers p answers k)
  unfolding make_buffers CleansUp
  make_buffers-CleansUp [] k fresh = IsSame-refl k
  make_buffers-CleansUp (a ∷ answers) k (fresh, range, rest) =
      first_buffer (λ k' more. make_buffers-CleansUp answers k' more) (one_buffer p a k)
        (new_buffer-CleansUp p max_buffer_size a.fd a.truncated a.room a.first a.second k fresh
          range)
        rest
    where
      first_buffer :
          ((k' : Kernel)
            → AreFresh answers k'
            → CleansUp destroy_buffers k' (make_buffers p answers k'))
          → (r : Made Buffer) → CleansUp destroy_buffer k r
          → AreFresh answers (after r)
          → CleansUp destroy_buffers k (elim r [
            | failed call k' ↦ failed call k'
            | made b k' ↦ elim (make_buffers p answers k') [
              | failed call k'' ↦ failed call (destroy_buffer b k'')
              | made bs k'' ↦ made (b ∷ bs) k''
            ]
          ])
      first_buffer ih (failed call k') v more = v
      first_buffer ih (made b k') v more =
          add_buffer k k' b (make_buffers p answers k') v (ih k' more)

  -- Whichever call fails, when the constructor throws, all buffers that were made are given back,
  -- but the epoll descriptor stays open if it was created; when it returns, it leaves what the
  -- destructor gives back. A new descriptor was not open, and new memory is where nothing was
  -- mapped.
  pub new_reactor-Leaves :
      (epoll : Option ℕ) (initialize_buffers : Bool) (answers : List Answers) (k : Kernel)
      → IsFreshFd k epoll
      → ((fd : ℕ) → epoll ≡ some fd → AreFresh answers (opened k fd))
      → Leaves epoll k (new_reactor p epoll initialize_buffers answers k)
  unfolding Leaves new_reactor CleansUp
  new_reactor-Leaves none initialize_buffers answers k fresh rest = IsSame-refl k
  new_reactor-Leaves (some fd) false answers k fresh rest = close-opened k fd fresh
  new_reactor-Leaves (some fd) true answers k fresh rest =
      with_buffers (make_buffers p answers (opened k fd))
        (make_buffers-CleansUp answers (opened k fd) (rest fd refl))
    where
      with_buffers :
          (r : Made (List Buffer))
          → CleansUp destroy_buffers (opened k fd) r
          → Leaves (some fd) k (elim r [
            | failed call k' ↦ failed call k'
            | made bs k' ↦ made (record { epoll_fd = some fd; fd_buffers = bs }) k'
          ])
      with_buffers (failed call k') v = v
      with_buffers (made bs k') v =
          let still : (destroy_buffers bs k').is_open fd ≡ true = ground (arith, v.same_open fd) in
          IsSame-trans (close-opened k fd fresh)
            (IsSame-trans (close_any-IsSame (some fd) v) (close-destroy_buffers bs k' fd still))
