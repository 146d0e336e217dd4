-- ===== src/Core/Timer.antt =====
-- core/firmir-timer.cpp: the settings of a timer and what they make of the kernel's timer.
pub mod Armed
pub mod Expiry
pub mod SingleShot
use firmir.Base.{ℕ, ◌*◌, ◌/◌, ◌%◌, Bool, true, false, ◌==◌, if◌then◌else◌, List, [], ◌∷◌}

-- `itimerspec`: seconds and nanoseconds, of the first expiry and between expiries.
pub record Spec : Type 0 where
  pub value_sec : ℕ
  pub value_nsec : ℕ
  pub interval_sec : ℕ
  pub interval_nsec : ℕ

pub record TimerPrivate : Type 0 where
  pub single_shot : Bool
  pub interval_ms : ℕ
  pub active : Bool

abbrev pub default_timer : TimerPrivate
default_timer = record { single_shot = false; interval_ms = 1000; active = false }

-- The argument of `timerfd_settime`.
unfoldable pub spec_of : TimerPrivate → Spec
spec_of t =
    if t.active
    then record {
      value_sec = t.interval_ms / 1000;
      value_nsec = t.interval_ms % 1000 * 1000000;
      interval_sec = if t.single_shot then 0 else t.interval_ms / 1000;
      interval_nsec = if t.single_shot then 0 else t.interval_ms % 1000 * 1000000;
    }
    else record { value_sec = 0; value_nsec = 0; interval_sec = 0; interval_nsec = 0 }

-- A timer and the calls of `timerfd_settime` that it made, the latest first.
pub record State : Type 0 where
  pub timer : TimerPrivate
  pub armed : List Spec

abbrev pub new : State
new = record { timer = default_timer; armed = [] }

unfoldable pub update_params : State → State
update_params s = record s { armed = spec_of s.timer ∷ s.armed }

unfoldable pub set_single_shot : Bool → State → State
set_single_shot v s =
    let s' = record s { timer = record (s.timer) { single_shot = v } } in
    if s.timer.active then update_params s' else s'

unfoldable pub set_interval_ms : ℕ → State → State
set_interval_ms v s =
    let s' = record s { timer = record (s.timer) { interval_ms = v } } in
    if s.timer.interval_ms == v then s else if s.timer.active then update_params s' else s'

unfoldable pub same_bool : Bool → Bool → Bool
same_bool true b = b
same_bool false true = false
same_bool false false = true

unfoldable pub set_active : Bool → State → State
set_active v s =
    let s' = record s { timer = record (s.timer) { active = v } } in
    if same_bool v s.timer.active then s else update_params s'

unfoldable pub stop : State → State
stop s = set_active false s

unfoldable pub start : State → State
start s = set_active true s

-- `singleShot`, less its callback: what it does to the timer that it makes.
unfoldable pub single_shot_timer : ℕ → State
single_shot_timer ms = start (set_single_shot true (set_interval_ms ms new))
