-- ===== src/Core/Timer/Armed.antt =====
-- core/firmir-timer.cpp: the kernel's timer and the settings.
use firmir.Base.{
  ℕ, ◌+◌, ◌*◌, ◌<◌, ◌≡◌, refl, ◌∙◌, arith, Bool, true, false, ◌==◌, ◌/◌, ◌%◌, ◌↔◌, Bool-cases,
  if◌then◌else◌, inl, inr, List, [], ◌∷◌,
}
use firmir.Core.Timer.{
  Spec, TimerPrivate, State, new, spec_of, update_params, set_single_shot, set_interval_ms,
  set_active, stop, start, same_bool,
}

-- What the kernel's timer is set to: by the latest call, or not at all as `timerfd_create` leaves it.
unfoldable pub kernel_timer : List Spec → Spec
kernel_timer [] = record { value_sec = 0; value_nsec = 0; interval_sec = 0; interval_nsec = 0 }
kernel_timer (spec ∷ specs) = spec

-- The calls that a program makes on a timer.
pub data Call : Type 0 where
  call_single_shot : Bool → Call
  call_interval_ms : ℕ → Call
  call_active : Bool → Call
  call_stop call_start : Call

unfoldable pub apply : Call → State → State
apply (call_single_shot v) s = set_single_shot v s
apply (call_interval_ms v) s = set_interval_ms v s
apply (call_active v) s = set_active v s
apply call_stop s = stop s
apply call_start s = start s

unfoldable pub run : List Call → State → State
run [] s = s
run (c ∷ cs) s = run cs (apply c s)

abbrev pub InStep : State → Type 0
InStep s = kernel_timer s.armed ≡ spec_of s.timer

update_params-InStep : (s : State) → InStep (update_params s)
unfolding update_params kernel_timer
update_params-InStep s = refl

-- While it is not active, a timer's settings do not reach the kernel.
idle : (t u : TimerPrivate) → t.active ≡ false → u.active ≡ false → spec_of t ≡ spec_of u
unfolding spec_of
idle t u h k = rw (h, k)

set_single_shot-InStep : (v : Bool) (s : State) → InStep s → InStep (set_single_shot v s)
unfolding set_single_shot
set_single_shot-InStep v s h = elim (Bool-cases s.timer.active) [
  | inl on ↦ rw on (update_params-InStep _)
  | inr off ↦ rw off (h ∙ idle s.timer _ off refl)
]

set_interval_ms-InStep : (v : ℕ) (s : State) → InStep s → InStep (set_interval_ms v s)
unfolding set_interval_ms
set_interval_ms-InStep v s h = elim (Bool-cases (s.timer.interval_ms == v)) [
  | inl same ↦ rw same h
  | inr other ↦ elim (Bool-cases s.timer.active) [
    | inl on ↦ rw (other, on) (update_params-InStep _)
    | inr off ↦ rw (other, off) (h ∙ idle s.timer _ off refl)
  ]
]

set_active-InStep : (v : Bool) (s : State) → InStep s → InStep (set_active v s)
unfolding set_active
set_active-InStep v s h = elim (Bool-cases (same_bool v s.timer.active)) [
  | inl same ↦ rw same h
  | inr other ↦ rw other (update_params-InStep _)
]

apply-InStep : (c : Call) (s : State) → InStep s → InStep (apply c s)
unfolding apply stop start
apply-InStep (call_single_shot v) s h = set_single_shot-InStep v s h
apply-InStep (call_interval_ms v) s h = set_interval_ms-InStep v s h
apply-InStep (call_active v) s h = set_active-InStep v s h
apply-InStep call_stop s h = set_active-InStep false s h
apply-InStep call_start s h = set_active-InStep true s h

run-keeps : (cs : List Call) (s : State) → InStep s → InStep (run cs s)
unfolding run
run-keeps [] s h = h
run-keeps (c ∷ cs) s h = run-keeps cs (apply c s) (apply-InStep c s h)

new-InStep : InStep new
unfolding kernel_timer spec_of
new-InStep = refl

-- After any sequence of calls on a new timer, the kernel's timer is set to what the timer's
-- settings at that point ask for.
pub run-InStep : (cs : List Call) → kernel_timer (run cs new).armed ≡ spec_of (run cs new).timer
run-InStep cs = run-keeps cs new new-InStep

zero_lem : (n : ℕ) → (n / 1000 ≡ 0) × (n % 1000 * 1000000 ≡ 0) ↔ (n ≡ 0)
zero_lem n = (λ h. omega arith, λ h. (omega arith, omega arith))

-- An active timer asks for a first expiry after its interval, and for the same time between expiries, or
-- 0 for a single shot, each in seconds and nanoseconds below a second, as `timerfd_settime` wants them.
-- So it asks for a first expiry of 0, with which the kernel disarms the timer, if and only if the
-- interval is 0.
pub spec_of_lem :
    (t : TimerPrivate)
    → t.active ≡ true
    → let spec = spec_of t in
      ((spec.value_sec * 1000000000 + spec.value_nsec ≡ t.interval_ms * 1000000)
        × (spec.value_nsec < 1000000000)
        × (spec.interval_sec * 1000000000 + spec.interval_nsec
            ≡ (if t.single_shot then 0 else t.interval_ms * 1000000))
        × (spec.interval_nsec < 1000000000)
        × ((spec.value_sec ≡ 0) × (spec.value_nsec ≡ 0) ↔ (t.interval_ms ≡ 0)))
unfolding spec_of
spec_of_lem t on = elim (Bool-cases t.single_shot) [
  | inl y ↦ rw (on, y) (omega arith, omega arith, refl, omega arith, zero_lem t.interval_ms)
  | inr f ↦ rw (on, f) (omega arith, omega arith, omega arith, omega arith, zero_lem t.interval_ms)
]
