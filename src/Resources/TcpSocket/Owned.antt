-- ===== src/Resources/TcpSocket/Owned.antt =====
-- Any number of TCPSocket.h objects that are constructed, moved and destroyed: each descriptor has
-- one owner, which closes it once. A place of `sockets` without an object has `none`, as an object
-- with -1 has.
use marketdatabook.Common.{
  ℕ, ◌==◌, ◌≡◌, ◌≢◌, refl, arith, if◌then◌else◌, Bool, true, false, ◌∙◌, sym, ==_of_ne,
}
use marketdatabook.Common.{Array, update, Option, none, some, Option-cases, inl, inr}
use native.Mathlib.Decide.{ℕ_discrete}
use marketdatabook.Resources.{Kernel, Made, made, failed, close_any, IsFreshFd, IsSame}
use marketdatabook.Resources.{IsSame-refl, freeaddrinfo-allocated}
use marketdatabook.Resources.TcpSocket.{closed, new, destroy, move_construct, move_assign}

pub record Sockets : Type 0 where
  pub sockets : Array (Option ℕ)
  pub kernel : Kernel

-- The state after a constructor at place `i`: one that throws leaves no object.
abbrev pub constructed : Sockets → ℕ → Made (Option ℕ) → Sockets
constructed s i (made h k) = record { sockets = update s.sockets i h; kernel = k }
constructed s i (failed call k) = record { sockets = s.sockets; kernel = k }

-- The state after the move assignment of the object at `j` to another at `i`.
abbrev pub assigned : Sockets → ℕ → ℕ → Sockets
assigned s i j =
    let (this, other, k) = move_assign (s.sockets i) (s.sockets j) s.kernel in
    record { sockets = update (update s.sockets j other) i this; kernel = k }

pub data Step : Sockets → Sockets → Type 0 where
  construct :
      (s : Sockets) (i : ℕ) (has_info : Bool) (new_socket : Option ℕ) (can_set can_bind : Bool)
      → s.sockets i ≡ none
      → IsFreshFd s.kernel new_socket
      → Step s (constructed s i (new has_info new_socket can_set can_bind s.kernel))
  construct_by_move :
      (s : Sockets) (i j : ℕ)
      → s.sockets i ≡ none
      → i ≢ j
      → Step s (record s {
        sockets =
            update
              (update s.sockets j (move_construct (s.sockets j)).1)
              i
              (move_construct (s.sockets j)).0;
      })
  assign_by_move : (s : Sockets) (i j : ℕ) → i ≢ j → Step s (assigned s i j)
  assign_self : (s : Sockets) (i : ℕ) → Step s s
  destruct :
      (s : Sockets) (i : ℕ)
      → Step s
          (record { sockets = update s.sockets i none; kernel = destroy (s.sockets i) s.kernel })

pub data Reach (k : Kernel) : Sockets → Type 0 where
  here : Reach k (record { sockets = λ _. none; kernel = k })
  next : {s u : Sockets} → Reach k s → Step s u → Reach k u

-- Each descriptor of an object is open, was not open at the start, and is no other object's; all
-- else is as it was at the start.
record IsOwned (k : Kernel) (s : Sockets) : Type 0 where
  mine : (i fd : ℕ) → s.sockets i ≡ some fd → (s.kernel.is_open fd ≡ true) × (k.is_open fd ≡ false)
  single : (i j fd : ℕ) → s.sockets i ≡ some fd → s.sockets j ≡ some fd → i ≡ j
  rest : (fd : ℕ) → ((i : ℕ) → s.sockets i ≢ some fd) → s.kernel.is_open fd ≡ k.is_open fd
  mapped : (x : ℕ) → s.kernel.mapped x ≡ k.mapped x
  infos : s.kernel.infos ≡ k.infos
  faults : s.kernel.faults ≡ k.faults

module _ {k : Kernel} where
  same_places :
      (s : Sockets) (after : Array (Option ℕ))
      → ((x : ℕ) → after x ≡ s.sockets x)
      → IsOwned k s
      → IsOwned k (record s { sockets = after })
  same_places s after places v = record {
    mine = λ a x e. ground (arith, places a, v.mine a x);
    single = λ a b x e e'. ground (arith, places a, places b, v.single a b x);
    rest = λ x no_owner. v.rest x (λ a e. no_owner a (places a ∙ e));
    mapped = v.mapped;
    infos = v.infos;
    faults = v.faults;
  }

  -- A descriptor that the kernel has just opened goes to a place without one.
  opened-IsOwned :
      (s : Sockets) (i fd : ℕ) (after : Kernel)
      → s.sockets i ≡ none
      → s.kernel.is_open fd ≡ false
      → ((x : ℕ) → after.is_open x ≡ (if fd == x then true else s.kernel.is_open x))
      → ((x : ℕ) → after.mapped x ≡ s.kernel.mapped x)
      → after.infos ≡ s.kernel.infos
      → after.faults ≡ s.kernel.faults
      → IsOwned k s
      → IsOwned k (record { sockets = update s.sockets i (some fd); kernel = after })
  opened-IsOwned s i fd after place fresh fds maps lists bad v =
      let before : k.is_open fd ≡ false =
        sym (v.rest fd (λ a e. ground (arith, v.mine a fd e, fresh))) ∙ fresh in
      record {
        mine = λ j x e. ground (arith, v.mine j x, fds x, before);
        single = λ j j' x e e'. ground (arith, v.mine j x, v.mine j' x, v.single j j' x);
        rest = λ x no_owner. elim (ℕ_discrete fd x) [
          | yes same ↦ absurd (no_owner i (ground (arith)))
          | no ne ↦
              fds x
              ∙ rw (==_of_ne fd x ne) (
                  v.rest x (λ a e. elim (ℕ_discrete i a) [
                    | yes at ↦ ground (arith, place)
                    | no other ↦ no_owner a (ground (arith))
                  ]))
        ];
        mapped = λ x. maps x ∙ v.mapped x;
        infos = lists ∙ v.infos;
        faults = bad ∙ v.faults;
      }

  -- An object without a descriptor in place of one that closes its own.
  closed-IsOwned :
      (s : Sockets) (i : ℕ)
      → IsOwned k s
      → IsOwned k
          (record { sockets = update s.sockets i none; kernel = close_any s.kernel (s.sockets i) })
  closed-IsOwned s i v = elim (Option-cases (s.sockets i)) [
    | inl nothing ↦
        rw (nothing) (same_places s (update s.sockets i none) (λ x. ground (arith, nothing)) v)
    | inr (fd, e) ↦ rw (e) (record {
      mine = λ j x o. ground (arith, v.mine j x, v.single i j x);
      single = λ a b x o o'. ground (arith, v.single a b x);
      rest = λ x no_owner. elim (ℕ_discrete fd x) [
        | yes same ↦ ground (arith, v.mine i fd e)
        | no ne ↦ rw (==_of_ne fd x ne) (
            v.rest x (λ a o. elim (ℕ_discrete i a) [
              | yes at ↦ ground (arith)
              | no other ↦ no_owner a (ground (arith))
            ]))
      ];
      mapped = v.mapped;
      infos = v.infos;
      faults = ground (arith, v.mine i fd e, v.faults);
    })
  ]

  -- A descriptor that changes its place.
  moved-IsOwned :
      (s : Sockets) (i j : ℕ) (after : Array (Option ℕ))
      → s.sockets i ≡ none
      → i ≢ j
      → ((x : ℕ)
          → after x ≡ (if i == x then s.sockets j else (if j == x then none else s.sockets x)))
      → IsOwned k s
      → IsOwned k (record s { sockets = after })
  moved-IsOwned s i j after place ne places v = record {
    mine = λ a x e. ground (arith, places a, v.mine a x, v.mine j x);
    single = λ a b x e e'.
        ground (arith, places a, places b, v.single a b x, v.single a j x, v.single j b x);
    rest = λ x no_owner. v.rest x (λ a e. elim (ℕ_discrete a j) [
      | yes at ↦ no_owner i (ground (arith, places i))
      | no other ↦ no_owner a (ground (arith, places a, place))
    ]);
    mapped = v.mapped;
    infos = v.infos;
    faults = v.faults;
  }

  -- A constructor that throws changes nothing.
  failed-IsOwned :
      (s : Sockets) (after : Kernel)
      → IsSame s.kernel after
      → IsOwned k s
      → IsOwned k (record s { kernel = after })
  failed-IsOwned s after same v = record {
    mine = λ i fd e. (same.same_open fd ∙ (v.mine i fd e).0, (v.mine i fd e).1);
    single = v.single;
    rest = λ fd no_owner. same.same_open fd ∙ v.rest fd no_owner;
    mapped = λ x. same.same_mapped x ∙ v.mapped x;
    infos = same.same_infos ∙ v.infos;
    faults = same.same_faults ∙ v.faults;
  }

  constructed-IsOwned :
      (s : Sockets) (i : ℕ) (has_info : Bool) (new_socket : Option ℕ) (can_set can_bind : Bool)
      → s.sockets i ≡ none
      → IsFreshFd s.kernel new_socket
      → IsOwned k s
      → IsOwned k (constructed s i (new has_info new_socket can_set can_bind s.kernel))
  unfolding new
  constructed-IsOwned s i false new_socket can_set can_bind place fresh v =
      failed-IsOwned s _ (IsSame-refl s.kernel) v
  constructed-IsOwned s i true none can_set can_bind place fresh v =
      failed-IsOwned s _ (freeaddrinfo-allocated s.kernel) v
  constructed-IsOwned s i true (some fd) false can_bind place fresh v =
      failed-IsOwned s _ (closed s.kernel fd fresh) v
  constructed-IsOwned s i true (some fd) true false place fresh v =
      failed-IsOwned s _ (closed s.kernel fd fresh) v
  constructed-IsOwned s i true (some fd) true true place fresh v =
      opened-IsOwned s i fd _ place fresh (λ x. refl) (λ x. refl) (omega arith) refl v

  Step-IsOwned : {s u : Sockets} → Step s u → IsOwned k s → IsOwned k u
  Step-IsOwned (construct s i has_info new_socket can_set can_bind place fresh) v =
      constructed-IsOwned s i has_info new_socket can_set can_bind place fresh v
  Step-IsOwned (construct_by_move s i j place ne) v = moved-IsOwned s i j _ place ne (λ x. refl) v
  Step-IsOwned (assign_by_move s i j ne) v =
      moved-IsOwned _ i j _ (ground (arith)) ne (λ x. ground (arith)) (closed-IsOwned s i v)
  Step-IsOwned (assign_self s i) v = v
  Step-IsOwned (destruct s i) v = closed-IsOwned s i v

  Reach-IsOwned : {s : Sockets} → Reach k s → IsOwned k s
  Reach-IsOwned here = record {
    mine = λ i fd e. absurd (cc);
    single = λ i j fd e e'. absurd (cc);
    rest = λ fd no_owner. refl;
    mapped = λ x. refl;
    infos = refl;
    faults = refl;
  }
  Reach-IsOwned (next r step) = Step-IsOwned step (Reach-IsOwned r)

  -- However sockets are constructed, also where the constructor throws, moved and destroyed, when
  -- no object has a descriptor any more, the kernel has what it had at the start, and no descriptor
  -- was closed that was not open. A descriptor that the kernel hands out was not open before.
  pub Reach-IsSame : {s : Sockets} → Reach k s → ((i : ℕ) → s.sockets i ≡ none) → IsSame k s.kernel
  Reach-IsSame r gone =
      let v = Reach-IsOwned r in
      record {
        same_open = λ fd. v.rest fd (λ i e. ground (arith, gone i));
        same_mapped = v.mapped;
        same_infos = v.infos;
        same_faults = v.faults;
      }
