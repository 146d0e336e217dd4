-- ===== src/Tests/Components.antt =====
-- Variants, timers and loggers.
use firmir.Base.{ℕ, ◌↔◌, ◌*◌, ◌+◌, ◌<◌, ◌≡◌, refl, arith, true, none, [], ◌∷◌, codes}
use firmir.Base.Int.{pos, negsuc}
use firmir.Core.Types.{null_variant, of_int, of_string, to_int, print_value, int, VariantMap}
use firmir.Core.Types.Conversions.{to_int-print}
use firmir.Core.Timer.{TimerPrivate, spec_of, new}
use firmir.Core.Timer.Armed.{
  call_single_shot, call_interval_ms, call_start, kernel_timer, run, run-InStep, spec_of_lem,
}
use firmir.Core.Logging.{Console, debug, enabled, log, when_enabled}
use firmir.Core.Logging.Streams.{line, log_lem}

to_int-print_example :
    to_int (of_string (print_value int (of_int (negsuc 41)))) (pos 0) ≡ (negsuc 41, true)
to_int-print_example = to_int-print (negsuc 41) (pos 0) (omega arith)

abbrev settings : VariantMap
settings = (codes "a", of_int (pos 1)) ∷ (codes "b", null_variant) ∷ []

run-InStep_example :
    kernel_timer (run (call_start ∷ call_interval_ms 1500 ∷ call_single_shot true ∷ []) new).armed
    ≡ spec_of (run (call_start ∷ call_interval_ms 1500 ∷ call_single_shot true ∷ []) new).timer
run-InStep_example = run-InStep (call_start ∷ call_interval_ms 1500 ∷ call_single_shot true ∷ [])

abbrev ticking : TimerPrivate
ticking = record { single_shot = true; interval_ms = 2500; active = true }

spec_of_lem_example :
    let spec = spec_of ticking in
    ((spec.value_sec * 1000000000 + spec.value_nsec ≡ 2500 * 1000000)
      × (spec.value_nsec < 1000000000)
      × (spec.interval_sec * 1000000000 + spec.interval_nsec ≡ 0)
      × (spec.interval_nsec < 1000000000)
      × ((spec.value_sec ≡ 0) × (spec.value_nsec ≡ 0) ↔ ◌≡◌ {A = ℕ} 2500 0))
spec_of_lem_example = spec_of_lem ticking refl

abbrev quiet : Console
quiet = record { out = []; err = []; debug_enabled = none }

log_lem_example :
    log none debug (codes "x" ∷ []) quiet
    ≡ when_enabled debug (line debug (codes "x" ∷ [])) (enabled none debug quiet)
log_lem_example = log_lem none debug (codes "x" ∷ []) quiet
