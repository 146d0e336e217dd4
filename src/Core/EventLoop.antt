-- ===== src/Core/EventLoop.antt =====
-- core/event-loop.cpp and core/include_private/firmir/event-loop_p.h: the table of watched descriptors
-- and the rounds of the loop.
pub mod Watched
pub mod Rounds
pub mod Singleton
use firmir.Base.{
  ℕ, zero, suc, ◌/◌, ◌%◌, Bool, true, false, Option, none, some, List, [], ◌∷◌, ◌==◌, if◌then◌else◌,
}
use firmir.Base.Assoc.{lookup, put, erase}

-- The callbacks of the loop's own descriptor, and those of others, which are named by numbers.
pub data Callback : Type 0 where
  read_wake : Callback
  user : ℕ → Callback

-- `EventInfo`
pub record EventInfo : Type 0 where
  pub fd : ℕ
  pub events : ℕ
  pub on_read : Option Callback
  pub on_write : Option Callback

-- An entry of the table, with a number that tells it from an entry that stood there before: a reference
-- into the table is good for one entry only.
pub record Entry : Type 0 where
  pub node : ℕ
  pub info : EventInfo

pub record EventLoopPrivate : Type 0 where
  pub wake_fd : Option ℕ
  pub running : Bool
  pub exit_code : ℕ
  pub events : List (ℕ × Entry)
  pub next_node : ℕ

abbrev pub new_loop : EventLoopPrivate
new_loop = record { wake_fd = none; running = false; exit_code = 0; events = []; next_node = 0 }

-- The calls of the kernel, over a state of the world.
pub record Epoll (W : Type 0) : Type 0 where
  pub ctl_add : ℕ → ℕ → W → W
  pub ctl_del : ℕ → W → W
  pub wait : W → List (ℕ × ℕ) × W
  pub eventfd : W → Option ℕ × W
  pub read_fd : ℕ → W → W
  pub write_fd : ℕ → W → W

-- A loop and the world around it.
pub record System (W : Type 0) : Type 0 where
  pub loop : EventLoopPrivate
  pub world : W

-- What `exec` comes to: its result; a use of an entry of the table that is gone; the end of the process;
-- and that the model's fuel is used up.
pub data Outcome (W : Type 0) : Type 0 where
  returned : ℕ → System W → Outcome W
  dangling exited out_of_fuel : Outcome W

abbrev pub epollin : ℕ
epollin = 1

abbrev pub epollout : ℕ
epollout = 4

-- `mask & bit`, for a mask of one bit.
abbrev pub has_bit : ℕ → ℕ → Bool
has_bit bit mask = (mask / bit) % 2 == 1

-- `events[event.fd] = event`: in the entry that is there, or in a new one.
abbrev pub set_entry : Option Entry → EventInfo → EventLoopPrivate → EventLoopPrivate
set_entry (some old) e l = record l {
  events = put e.fd (record { node = old.node; info = e }) l.events;
}
set_entry none e l = record l {
  events = put e.fd (record { node = l.next_node; info = e }) l.events;
  next_node = suc l.next_node;
}

module _ {W : Type 0} (kernel : Epoll W) where
  open kernel use {ctl_add, ctl_del, wait, eventfd, read_fd, write_fd}

  unfoldable pub add_event : EventInfo → System W → System W
  add_event e s = record {
    loop = set_entry (lookup e.fd s.loop.events) e s.loop;
    world = ctl_add e.fd e.events s.world;
  }

  abbrev pub remove_at : Option Entry → ℕ → System W → System W
  remove_at none fd s = s
  remove_at (some e) fd s = record {
    loop = record (s.loop) { events = erase fd s.loop.events };
    world = ctl_del fd s.world;
  }

  unfoldable pub remove_event : ℕ → System W → System W
  remove_event fd s = remove_at (lookup fd s.loop.events) fd s

  abbrev pub wake_info : ℕ → EventInfo
  wake_info fd = record { fd = fd; events = epollin; on_read = some read_wake; on_write = none }

  -- Where no descriptor is to be had, the process ends: `none`.
  abbrev pub with_wake_fd : System W → Option ℕ × W → Option (System W)
  with_wake_fd s (none, w) = none
  with_wake_fd s (some fd, w) = some (
      add_event (wake_info fd) (record { loop = record (s.loop) { wake_fd = some fd }; world = w }))

  abbrev pub wake_from : Option ℕ → System W → Option (System W)
  wake_from (some fd) s = some s
  wake_from none s = with_wake_fd s (eventfd s.world)

  unfoldable pub add_wake_fd : System W → Option (System W)
  add_wake_fd s = wake_from s.loop.wake_fd s

  -- `write` to the descriptor -1 does nothing.
  abbrev pub wake : Option ℕ → System W → System W
  wake none s = s
  wake (some fd) s = record s { world = write_fd fd s.world }

  unfoldable pub quit : ℕ → System W → System W
  quit code s =
      wake s.loop.wake_fd
        (record s { loop = record (s.loop) { exit_code = code; running = false } })

  -- What a program's callbacks do, which may call the loop, is a parameter.
  module _ (call : ℕ → System W → System W) where
    abbrev pub drain : Option ℕ → System W → System W
    drain none s = s
    drain (some fd) s = record s { world = read_fd fd s.world }

    abbrev pub call_back : Callback → System W → System W
    call_back read_wake s = drain s.loop.wake_fd s
    call_back (user f) s = call f s

    abbrev pub call_if : Bool → Option Callback → System W → System W
    call_if true (some c) s = call_back c s
    call_if true none s = s
    call_if false c s = s

    -- `event.onWrite`, through a reference that was taken before `onRead` was called: `none` where the
    -- entry that it refers to is gone.
    abbrev pub write_through : ℕ → Option Entry → System W → Option (System W)
    write_through node none s = none
    write_through node (some e) s =
        if e.node == node then some (call_if true e.info.on_write s) else none

    abbrev pub dispatch_at : Option Entry → ℕ → ℕ → System W → Option (System W)
    dispatch_at none fd mask s = some s
    dispatch_at (some e) fd mask s =
        let s' = call_if (has_bit epollin mask) e.info.on_read s in
        if has_bit epollout mask
        then write_through e.node (lookup fd s'.loop.events) s'
        else some s'

    unfoldable pub dispatch : ℕ → ℕ → System W → Option (System W)
    dispatch fd mask s = dispatch_at (lookup fd s.loop.events) fd mask s

    abbrev pub and_then : Option (System W) → (System W → Option (System W)) → Option (System W)
    and_then none f = none
    and_then (some s) f = f s

    unfoldable pub dispatch_all : List (ℕ × ℕ) → System W → Option (System W)
    dispatch_all [] s = some s
    dispatch_all ((fd, mask) ∷ rest) s = and_then (dispatch fd mask s) (dispatch_all rest)

    -- One round: `epoll_wait`, and what it reports.
    abbrev pub handle_ready : System W → List (ℕ × ℕ) × W → Option (System W)
    handle_ready s (ready, w) = dispatch_all ready (record s { world = w })

    unfoldable pub round : System W → Option (System W)
    round s = handle_ready s (wait s.world)

    abbrev pub continue_with : Option (System W) → (System W → Outcome W) → Outcome W
    continue_with none f = dangling
    continue_with (some s) f = f s

    -- The loop, which ends when `running` is unset, on fuel.
    unfoldable pub rounds : ℕ → System W → Outcome W
    rounds zero s = out_of_fuel
    rounds (suc fuel) s =
        let next = continue_with (round s) (rounds fuel) in
        if s.loop.running then next else returned 0 s

    abbrev pub started : ℕ → Option (System W) → Outcome W
    started fuel none = exited
    started fuel (some s) = rounds fuel (record s { loop = record (s.loop) { running = true } })

    unfoldable pub exec : ℕ → System W → Outcome W
    exec fuel s = started fuel (add_wake_fd s)
