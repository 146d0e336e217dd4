-- ===== src/Core/EventLoop/Rounds.antt =====
-- core/event-loop.cpp: the rounds of `exec`, and `quit`.
use firmir.Base.{
  ℕ, suc, ◌≡◌, refl, Bool, true, false, Option, none, some, List, [], ◌∷◌, ◌++◌, ◌==◌,
  if◌then◌else◌, Option-cases, Bool-cases, inl, inr,
}
use firmir.Base.Assoc.{lookup}
use firmir.Core.EventLoop.{
  Entry, Callback, read_wake, user, Epoll, System, epollin, epollout, has_bit, drain, call_if,
  write_through, dispatch_at, dispatch, and_then, dispatch_all, continue_with, round, rounds,
  Outcome, returned, dangling, exited, out_of_fuel,
}

-- What a program's callbacks are held to: none of them starts the loop anew.
abbrev pub StaysQuit : {W : Type 0} → (ℕ → System W → System W) → Type 0
StaysQuit {W} call =
    (f : ℕ) (s : System W) → s.loop.running ≡ false → (call f s).loop.running ≡ false

module _ {W : Type 0} (kernel : Epoll W) (call : ℕ → System W → System W)
    (stays : StaysQuit call) where
  -- Stopped, or ended by a fault.
  abbrev pub Stopped : Option (System W) → Type 0
  Stopped none = Unit {0}
  Stopped (some s) = s.loop.running ≡ false

  drain-Stopped :
      (o : Option ℕ) (s : System W)
      → s.loop.running ≡ false
      → (drain kernel call o s).loop.running ≡ false
  drain-Stopped none s h = h
  drain-Stopped (some fd) s h = h

  call_if-Stopped :
      (b : Bool) (o : Option Callback) (s : System W)
      → s.loop.running ≡ false
      → (call_if kernel call b o s).loop.running ≡ false
  call_if-Stopped false o s h = h
  call_if-Stopped true none s h = h
  call_if-Stopped true (some read_wake) s h = drain-Stopped s.loop.wake_fd s h
  call_if-Stopped true (some (user f)) s h = stays f s h

  write_through-Stopped :
      (n : ℕ) (o : Option Entry) (s : System W)
      → s.loop.running ≡ false
      → Stopped (write_through kernel call n o s)
  write_through-Stopped n none s h = tt
  write_through-Stopped n (some e) s h = elim (Bool-cases (e.node == n)) [
    | inl y ↦ rw y (call_if-Stopped true e.info.on_write s h)
    | inr f ↦ rw f tt
  ]

  -- The second half of a dispatch.
  write-Stopped :
      (n fd mask : ℕ) (s : System W)
      → s.loop.running ≡ false
      → Stopped (
          if has_bit epollout mask
          then write_through kernel call n (lookup fd s.loop.events) s
          else some s)
  write-Stopped n fd mask s h = elim (Bool-cases (has_bit epollout mask)) [
    | inl y ↦ rw y (write_through-Stopped n (lookup fd s.loop.events) s h)
    | inr f ↦ rw f h
  ]

  dispatch_at-Stopped :
      (o : Option Entry) (fd mask : ℕ) (s : System W)
      → s.loop.running ≡ false
      → Stopped (dispatch_at kernel call o fd mask s)
  dispatch_at-Stopped none fd mask s h = h
  dispatch_at-Stopped (some e) fd mask s h =
      write-Stopped e.node fd mask (call_if kernel call (has_bit epollin mask) e.info.on_read s)
        (call_if-Stopped (has_bit epollin mask) e.info.on_read s h)

  and_then-Stopped :
      (o : Option (System W)) (g : System W → Option (System W))
      → Stopped o
      → ((s : System W) → s.loop.running ≡ false → Stopped (g s))
      → Stopped (and_then kernel call o g)
  and_then-Stopped none g h k = tt
  and_then-Stopped (some s) g h k = k s h

  dispatch_all-Stopped :
      (ready : List (ℕ × ℕ)) (s : System W)
      → s.loop.running ≡ false
      → Stopped (dispatch_all kernel call ready s)
  unfolding dispatch_all dispatch
  dispatch_all-Stopped [] s h = h
  dispatch_all-Stopped ((fd, mask) ∷ rest) s h =
      and_then-Stopped _ (dispatch_all kernel call rest)
        (dispatch_at-Stopped (lookup fd s.loop.events) fd mask s h) (dispatch_all-Stopped rest)

  dispatch_all-append :
      (xs ys : List (ℕ × ℕ)) (s : System W)
      → dispatch_all kernel call (xs ++ ys) s
        ≡ and_then kernel call (dispatch_all kernel call xs s) (dispatch_all kernel call ys)
  unfolding dispatch_all
  dispatch_all-append [] ys s = refl
  dispatch_all-append ((fd, mask) ∷ xs) ys s =
      elim (Option-cases (dispatch kernel call fd mask s)) [
        | inl n ↦ rw n
        | inr (t, q) ↦ rw q (dispatch_all-append xs ys t)
      ]

  -- A descriptor that is ready to read, and whose callback stops the loop.
  dispatch-Stopped :
      (fd mask f : ℕ) (e : Entry) (t : System W)
      → lookup fd t.loop.events ≡ some e
      → e.info.on_read ≡ some (user f)
      → has_bit epollin mask ≡ true
      → (call f t).loop.running ≡ false
      → Stopped (dispatch kernel call fd mask t)
  unfolding dispatch
  dispatch-Stopped fd mask f e t at_fd reads ready stops =
      rw at_fd (rw (ready, reads) (write-Stopped e.node fd mask (call f t) stops))

  -- The round from `s` is the last: the loop ends with its result 0, where the round has left it, and is
  -- not running; or the round itself has used an entry that was gone.
  abbrev pub EndsAfter : System W → Outcome W → Type 0
  EndsAfter s (returned code s') =
      (code ≡ 0) × (round kernel call s ≡ some s') × (s'.loop.running ≡ false)
  EndsAfter s dangling = round kernel call s ≡ none
  EndsAfter s exited = ⊥
  EndsAfter s out_of_fuel = ⊥

  next_round :
      (n : ℕ) (s : System W) (o : Option (System W))
      → round kernel call s ≡ o
      → Stopped o
      → EndsAfter s (continue_with kernel call o (rounds kernel call (suc n)))
  unfolding rounds
  next_round n s none q h = q
  next_round n s (some s') q h = simp h (refl, q, refl)

  round-Stopped :
      (s : System W) (w : W) (before after : List (ℕ × ℕ)) (fd mask f : ℕ) (t : System W)
      (e : Entry)
      → kernel.wait s.world ≡ (before ++ (fd, mask) ∷ after, w)
      → dispatch_all kernel call before (record s { world = w }) ≡ some t
      → lookup fd t.loop.events ≡ some e
      → e.info.on_read ≡ some (user f)
      → has_bit epollin mask ≡ true
      → (call f t).loop.running ≡ false
      → Stopped (round kernel call s)
  unfolding round dispatch_all
  round-Stopped s w before after fd mask f t e waited went at_fd reads ready stops =
      rw (waited, dispatch_all-append before ((fd, mask) ∷ after) (record s { world = w }), went)
        (and_then-Stopped (dispatch kernel call fd mask t) (dispatch_all kernel call after)
          (dispatch-Stopped fd mask f e t at_fd reads ready stops) (dispatch_all-Stopped after))

  -- While the loop runs, a round in which some descriptor is ready whose callback stops the loop, as one
  -- that calls `quit` does, is the last one: what else the kernel has reported is dealt with, and then
  -- the loop returns 0 and is stopped, unless the round itself ends in the use of an
  -- entry that a callback of this very round has taken out. The callbacks of the program do
  -- not start the loop, and those before it in the round have not faulted.
  pub rounds-EndsAfter :
      (n : ℕ) (s : System W) (w : W) (before after : List (ℕ × ℕ)) (fd mask f : ℕ) (t : System W)
      (e : Entry)
      → s.loop.running ≡ true
      → kernel.wait s.world ≡ (before ++ (fd, mask) ∷ after, w)
      → dispatch_all kernel call before (record s { world = w }) ≡ some t
      → lookup fd t.loop.events ≡ some e
      → e.info.on_read ≡ some (user f)
      → has_bit epollin mask ≡ true
      → (call f t).loop.running ≡ false
      → EndsAfter s (rounds kernel call (suc (suc n)) s)
  unfolding rounds
  rounds-EndsAfter n s w before after fd mask f t e running waited went at_fd reads ready stops =
      simp running (
        next_round n s (round kernel call s) refl
          (round-Stopped s w before after fd mask f t e waited went at_fd reads ready stops))
