-- ===== src/Core/EventLoop/Watched.antt =====
-- core/event-loop.cpp: the table of the loop and what the kernel watches.
use firmir.Base.{
  ℕ, ◌≡◌, refl, arith, Bool, false, Option, none, some, List, [], ◌∷◌, ◌==◌, ◌&&◌, not,
  if◌then◌else◌,
}
use firmir.Base.Assoc.{lookup, lookup-put, lookup-erase}
use firmir.Core.EventLoop.{
  EventInfo, Entry, EventLoopPrivate, Epoll, System, set_entry, add_event, remove_at, remove_event,
}

-- What is documented of `epoll_ctl`: the mask of each descriptor that is watched. A descriptor that is
-- watched already is not added again, and the kernel may refuse to add one (no memory, the limit of
-- watches, a descriptor that it cannot watch); the source does not look at the result.
pub record Interest {W : Type 0} (kernel : Epoll W) : Type 0 where
  pub mask_of : W → ℕ → Option ℕ
  pub refuses : ℕ → ℕ → W → Bool
  pub added :
      (fd mask : ℕ) (w : W) (fd' : ℕ)
      → mask_of (kernel.ctl_add fd mask w) fd' ≡ (
          if not (refuses fd mask w) && (fd == fd')
          then some (elim (mask_of w fd) [ none ↦ mask | some old ↦ old ])
          else mask_of w fd')
  pub deleted :
      (fd : ℕ) (w : W) (fd' : ℕ)
      → mask_of (kernel.ctl_del fd w) fd' ≡ (if fd == fd' then none else mask_of w fd')

-- The mask that an entry asks for.
abbrev pub asked : Option Entry → Option ℕ
asked none = none
asked (some e) = some e.info.events

-- Every descriptor is in the table if and only if it is watched, and then with the mask that is asked
-- for.
abbrev pub Watches : {W : Type 0} (kernel : Epoll W) → Interest kernel → System W → Type 0
Watches kernel i s = (fd : ℕ) → i.mask_of s.world fd ≡ asked (lookup fd s.loop.events)

lookup-set_entry :
    (o : Option Entry) (e : EventInfo) (l : EventLoopPrivate) (fd : ℕ)
    → asked (lookup fd (set_entry o e l).events)
      ≡ (if e.fd == fd then some e.events else asked (lookup fd l.events))
lookup-set_entry none e l fd =
    rw (lookup-put e.fd fd (record { node = l.next_node; info = e }) l.events) (ground arith)
lookup-set_entry (some old) e l fd =
    rw (lookup-put e.fd fd (record { node = old.node; info = e }) l.events) (ground arith)

module _ {W : Type 0} (kernel : Epoll W) (i : Interest kernel) where
  -- `addEvent` of a descriptor that is not in the table and that the kernel takes: the kernel watches
  -- what the table asks for afterwards, if it did so before.
  add_event-Watches :
      (e : EventInfo) (s : System W)
      → Watches kernel i s
      → lookup e.fd s.loop.events ≡ none
      → i.refuses e.fd e.events s.world ≡ false
      → Watches kernel i (add_event kernel e s)
  unfolding add_event
  add_event-Watches e s h n takes fd = ground (
    arith,
    i.added e.fd e.events s.world fd,
    lookup-set_entry (lookup e.fd s.loop.events) e s.loop fd,
    h e.fd,
    h fd,
  )

  -- `addEvent` of a descriptor that is in the table already: the table asks for the new mask, and the
  -- kernel goes on with the old one.
  pub add_event_again :
      (e : EventInfo) (s : System W) (old : Entry)
      → Watches kernel i s
      → lookup e.fd s.loop.events ≡ some old
      → (asked (lookup e.fd (add_event kernel e s).loop.events) ≡ some e.events)
        × (i.mask_of (add_event kernel e s).world e.fd ≡ some old.info.events)
  unfolding add_event
  add_event_again e s old h q = ground (
    arith,
    i.added e.fd e.events s.world e.fd,
    lookup-set_entry (lookup e.fd s.loop.events) e s.loop e.fd,
    h e.fd,
  )

  remove_at-Watches :
      (o : Option Entry) (fd : ℕ) (s : System W)
      → lookup fd s.loop.events ≡ o
      → Watches kernel i s
      → Watches kernel i (remove_at kernel o fd s)
  remove_at-Watches none fd s q h fd' = h fd'
  remove_at-Watches (some e) fd s q h fd' =
      rw (lookup-erase fd fd' s.loop.events) (ground (arith, i.deleted fd s.world fd', h fd'))

  -- `removeEvent` leaves the kernel watching what the table asks for, if it did so before.
  remove_event-Watches :
      (fd : ℕ) (s : System W) → Watches kernel i s → Watches kernel i (remove_event kernel fd s)
  unfolding remove_event
  remove_event-Watches fd s h = remove_at-Watches (lookup fd s.loop.events) fd s refl h

  -- Calls that the clients of the loop make.
  pub data Call : Type 0 where
    adding : EventInfo → Call
    removing : ℕ → Call

  unfoldable pub perform : List Call → System W → System W
  perform [] s = s
  perform (adding e ∷ cs) s = perform cs (add_event kernel e s)
  perform (removing fd ∷ cs) s = perform cs (remove_event kernel fd s)

  -- No descriptor is added that is in the table at that time, and the kernel takes each.
  unfoldable pub Added : List Call → System W → Type 0
  Added [] s = Unit {0}
  Added (adding e ∷ cs) s =
      (lookup e.fd s.loop.events ≡ none)
      × (i.refuses e.fd e.events s.world ≡ false)
      × Added cs (add_event kernel e s)
  Added (removing fd ∷ cs) s = Added cs (remove_event kernel fd s)

  -- If the kernel watches exactly what the table of the loop asks for, it goes on doing so through any
  -- calls of `addEvent` and `removeEvent` that add no descriptor which is in the table at that time,
  -- and none that `epoll_ctl` refuses to add.
  pub perform-Watches :
      (cs : List Call) (s : System W)
      → Watches kernel i s
      → Added cs s
      → Watches kernel i (perform cs s)
  unfolding perform Added
  perform-Watches [] s h n = h
  perform-Watches (adding e ∷ cs) s h (n, takes, rest) =
      perform-Watches cs (add_event kernel e s) (add_event-Watches e s h n takes) rest
  perform-Watches (removing fd ∷ cs) s h n =
      perform-Watches cs (remove_event kernel fd s) (remove_event-Watches fd s h) n
