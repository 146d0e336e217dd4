-- ===== src/Tests/Loop.antt =====
-- The event loop, over a kernel that reports descriptor 5.
use firmir.Base.{ℕ, ◌≡◌, refl, true, false, Option, none, some, List, [], ◌∷◌, ◌==◌, if◌then◌else◌}
use firmir.Base.Assoc.{lookup, put, erase}
use firmir.Core.EventLoop.{
  EventInfo, Entry, user, new_loop, Epoll, System, add_event, remove_event, dispatch_all, rounds,
}
use firmir.Core.EventLoop.Watched.{
  Interest, Watches, Call, adding, removing, perform, Added, perform-Watches,
}
use firmir.Core.EventLoop.Rounds.{StaysQuit, EndsAfter, rounds-EndsAfter}
use firmir.Core.EventLoop.Singleton.{
  at_start, get_instance, make, ask, end, use_all, get_instance_stable,
}

abbrev Masks : Type 0
Masks = ℕ → Option ℕ

abbrev kept_mask : ℕ → Option ℕ → ℕ
kept_mask mask none = mask
kept_mask mask (some old) = old

abbrev kernel : Epoll Masks
kernel = record {
  ctl_add = λ fd mask w fd'.
      if fd == fd' then some (elim (w fd) [ none ↦ mask | some old ↦ old ]) else w fd';
  ctl_del = λ fd w fd'. if fd == fd' then none else w fd';
  wait = λ w. ((5, 1) ∷ [], w);
  eventfd = λ w. (some 3, w);
  read_fd = λ fd w. w;
  write_fd = λ fd w. w;
}

abbrev interest : Interest kernel
interest = record {
  mask_of = λ w. w;
  refuses = λ fd mask w. false;
  added = λ fd mask w fd'. refl;
  deleted = λ fd w fd'. refl;
}

abbrev info : ℕ → EventInfo
info mask = record { fd = 5; events = mask; on_read = some (user 9); on_write = none }

abbrev fresh : System Masks
fresh = record { loop = new_loop; world = λ fd. none }

fresh-Watches : Watches kernel interest fresh
unfolding lookup
fresh-Watches fd = refl

nothing_yet : lookup 5 fresh.loop.events ≡ none
unfolding lookup
nothing_yet = refl

abbrev entry : Entry
entry = record { node = 0; info = info 1 }

abbrev watching : System Masks
watching = add_event kernel (info 1) fresh

once : Added kernel interest (adding (info 1) ∷ []) fresh
unfolding Added
once = (nothing_yet, refl, tt)

watching-Watches : Watches kernel interest watching
unfolding perform
watching-Watches = perform-Watches kernel interest (adding (info 1) ∷ []) fresh fresh-Watches once

abbrev running : System Masks
running = record watching { loop = record (watching.loop) { running = true } }

there : lookup 5 running.loop.events ≡ some entry
unfolding add_event lookup put
there = refl

abbrev calls : List (Call kernel interest)
calls = adding (info 1) ∷ removing 5 ∷ adding (info 5) ∷ []

gone : lookup 5 (remove_event kernel 5 watching).loop.events ≡ none
unfolding remove_event add_event lookup put erase
gone = refl

calls-Added : Added kernel interest calls fresh
unfolding Added
calls-Added = (nothing_yet, refl, (gone, refl, tt))

perform-Watches_example : Watches kernel interest (perform kernel interest calls fresh)
perform-Watches_example = perform-Watches kernel interest calls fresh fresh-Watches calls-Added

-- Each of the program's callbacks stops the loop.
abbrev stop : ℕ → System Masks → System Masks
stop f s = record s { loop = record (s.loop) { running = false } }

stop-StaysQuit : StaysQuit stop
stop-StaysQuit f s h = refl

went : dispatch_all kernel stop [] running ≡ some running
unfolding dispatch_all
went = refl

rounds-EndsAfter_example :
    EndsAfter kernel stop stop-StaysQuit running (rounds kernel stop 2 running)
rounds-EndsAfter_example =
    rounds-EndsAfter kernel stop stop-StaysQuit 0 running running.world [] [] 5 1 9 running entry
      refl refl went there refl refl refl

get_instance_stable_example :
    (get_instance 8 (use_all (make 4 ∷ end 3 ∷ ask 6 ∷ []) (get_instance 3 at_start).1)).0
    ≡ (get_instance 3 at_start).0
get_instance_stable_example = get_instance_stable 3 8 at_start (make 4 ∷ end 3 ∷ ask 6 ∷ [])
