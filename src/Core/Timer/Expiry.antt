-- ===== src/Core/Timer/Expiry.antt =====
-- core/firmir-timer.cpp: how a timer is watched by the event loop, and what it does when it expires.
use firmir.Base.{
  eq→==, ℕ, zero, suc, ◌≡◌, refl, ◌∙◌, Option, none, some, List, [], ◌∷◌, ◌++◌, map, append_assoc,
  append-nil,
}
use firmir.Core.Object.{
  Args, Callback, handle, handle_void, Object, Store, ◌>>=◌, callbacks_of, call_all, emit_event,
}
use firmir.Core.Object.Emission.{Called, called, traced, store_of}
use firmir.Base.Assoc.{lookup, lookup-put}
use firmir.Core.EventLoop.Watched.{Interest}
use firmir.Core.EventLoop.{EventInfo, Epoll, System, epollin, user, add_event}

-- `Event::Timeout`
abbrev pub timeout : ℕ
timeout = 0

-- The constructor, behind `timerfd_create`; `f` names the timer's own callback. Without a descriptor it
-- gives up.
abbrev pub timer_info : ℕ → ℕ → EventInfo
timer_info fd f = record { fd = fd; events = epollin; on_read = some (user f); on_write = none }

unfoldable pub watch : {W : Type 0} → Epoll W → Option ℕ → ℕ → System W → System W
watch kernel none f s = s
watch kernel (some fd) f s = add_event kernel (timer_info fd f) s

-- The destructor closes the descriptor.
unfoldable pub end_timer : {W : Type 0} → (ℕ → W → W) → Option ℕ → System W → System W
end_timer close none s = s
end_timer close (some fd) s = record s { world = close fd s.world }

-- What is documented of `close`: a descriptor that is closed is not watched any more.
pub record Closes {W : Type 0} (kernel : Epoll W) (i : Interest kernel) (close : ℕ → W → W)
    : Type 0 where
  pub closed : (fd : ℕ) (w : W) → i.mask_of (close fd w) fd ≡ none

-- Once a timer that the loop watches has ended, the kernel does not watch its descriptor any more, but
-- the table of the loop still has its entry, with the callback.
pub watch-end_timer :
    {W : Type 0} (kernel : Epoll W) (i : Interest kernel) (close : ℕ → W → W)
    → Closes kernel i close
    → (fd f : ℕ) (s : System W) → lookup fd s.loop.events ≡ none
    → let s' = end_timer close (some fd) (watch kernel (some fd) f s) in
      (i.mask_of s'.world fd ≡ none)
      × (lookup fd s'.loop.events
          ≡ some (record { node = s.loop.next_node; info = timer_info fd f }))
unfolding end_timer watch add_event
watch-end_timer kernel i close c fd f s n = (
  c.closed fd _,
  rw (
    n,
    lookup-put fd fd (record { node = s.loop.next_node; info = timer_info fd f }) s.loop.events,
    eq→== fd fd refl,
  ),
)

-- The callback: `read` gives the number of expirations, or not the eight bytes of one.
module _ {S : Type 0} (store : S → Store) (call : ℕ → Args → S → Option S) where
  unfoldable pub emit_timeouts : ℕ → ℕ → S → Option S
  emit_timeouts timer zero s = some s
  emit_timeouts timer (suc n) s = emit_event store call timer timeout [] s >>= emit_timeouts timer n

  unfoldable pub on_read : Option ℕ → ℕ → S → Option S
  on_read none timer s = some s
  on_read (some n) timer s = emit_timeouts timer n s

unfoldable pub repeat : ℕ → List Called → List Called
repeat zero l = []
repeat (suc n) l = l ++ repeat n l

module _ {T : Type 0} (store : T → Store) (act : ℕ → Args → T → T) where
  -- The callbacks leave the timer itself alone.
  abbrev pub Keeps : ℕ → Type 0
  Keeps timer = (f : ℕ) (args : Args) (t : T) → store (act f args t) timer ≡ store t timer

  -- One expiry.
  call_all-Keeps :
      (timer : ℕ)
      → Keeps timer
      → (args : Args) (cs : List Callback) (t : T) (log : List Called)
      → (t' : T) × (call_all (store_of store act) (traced act) args cs (t, log)
          ≡ some (t', log ++ map (called args) cs))
        × (store t' timer ≡ store t timer)
  unfolding call_all
  call_all-Keeps timer k args [] t log = (t, rw append-nil, refl)
  call_all-Keeps timer k args (handle f ∷ cs) t log =
      let (t', q, same) = call_all-Keeps timer k args cs (act f args t) (log ++ (f, args) ∷ []) in
      (t', q ∙ rw (append_assoc log ((f, args) ∷ [])), same ∙ k f args t)
  call_all-Keeps timer k args (handle_void f ∷ cs) t log =
      let (t', q, same) = call_all-Keeps timer k args cs (act f [] t) (log ++ (f, []) ∷ []) in
      (t', q ∙ rw (append_assoc log ((f, []) ∷ [])), same ∙ k f [] t)

  -- A timer that has expired `n` times since it was last looked at calls the callbacks of its timeout
  -- `n` times over, in the same order each time, if none of them changes the timer.
  pub emit_timeouts_lem :
      (timer n : ℕ) (o : Object) (t : T) (log : List Called)
      → Keeps timer
      → store t timer ≡ some o
      → (t' : T) × (on_read (store_of store act) (traced act) (some n) timer (t, log)
          ≡ some (t', log ++ repeat n (map (called []) (callbacks_of timeout o))))
  unfolding on_read emit_timeouts emit_event repeat
  emit_timeouts_lem timer zero o t log k q = (t, rw append-nil)
  emit_timeouts_lem timer (suc n) o t log k q =
      let calls = map (called []) (callbacks_of timeout o) in
      let (t1, e, same) = call_all-Keeps timer k [] (callbacks_of timeout o) t log in
      let (t2, r) = emit_timeouts_lem timer n o t1 (log ++ calls) k (same ∙ q) in
      (t2, rw (q, e) (r ∙ rw (append_assoc log calls)))
