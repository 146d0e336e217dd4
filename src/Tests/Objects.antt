-- ===== src/Tests/Objects.antt =====
-- Objects that emit events, and objects that listen.
use firmir.Core.Timer.SingleShot.{shot, single_shot, single_shot-on_read}
use firmir.Base.{◌+◌, ℕ, ◌≡◌, ◌≢◌, refl, arith, true, Option, none, some, List, [], ◌∷◌, ◌++◌, map}
use firmir.Base.Assoc.{lookup, put, member, insert}
use firmir.Core.Object.{
  Args, handle, new_object, Store, update, subscribe, add_subscription, connect_to, erase_handler,
  forget, destroy, emit_event, callbacks_of,
}
use firmir.Core.Object.Table.{registered, registered_in, knows, knows_in, connect_to_lem}
use firmir.Core.Object.Lifetime.{Mirrors, destroy-registered}
use firmir.Core.Object.Programs.{
  create, Act, act_create, act_connect, act_destroy, perform, run, empty_store, run-Mirrors,
  no_dangling_callback,
}
use firmir.Core.Object.Faults.{destroy_emitter_first}
use firmir.Core.Object.Emission.{Called, called, traced, store_of, emit_event_lem}
use firmir.Core.Timer.Expiry.{repeat, emit_timeouts_lem, on_read}

abbrev stored : Option Store → Store
stored none = empty_store
stored (some s) = s

abbrev two : Store
two = update (update empty_store 1 (some new_object)) 2 (some new_object)

-- Object 2 listens to event 0 of object 1.
abbrev listening : Store
listening =
    update (update two 1 (some (subscribe 0 2 (handle 5) new_object))) 2
      (some (add_subscription 1 new_object))

connect_run : connect_to 1 0 2 (handle 5) two ≡ some listening
unfolding connect_to
connect_run = refl

connect_to_lem_example :
    (registered listening 1 0 2 ≡ some (handle 5 ∷ [])) × (knows listening 2 1 ≡ true)
unfolding registered registered_in knows knows_in lookup member
connect_to_lem_example = connect_to_lem 1 0 2 (handle 5) two listening connect_run 1 0 2

abbrev acts : List Act
acts = act_create 1 ∷ act_create 2 ∷ act_connect 1 0 2 (handle 5) ∷ []

acts-run : run acts empty_store ≡ some listening
unfolding run perform create connect_to
acts-run = refl

-- Object 2 is gone.
abbrev alone : Store
alone =
    update (update listening 1 (some (erase_handler 2 (subscribe 0 2 (handle 5) new_object)))) 2
      none

destroy_run : destroy 2 listening ≡ some alone
unfolding destroy forget add_subscription insert member
destroy_run = refl

listening-Mirrors : Mirrors listening
listening-Mirrors = run-Mirrors acts listening acts-run

destroy-registered_example : registered alone 1 0 2 ≡ none
destroy-registered_example =
    destroy-registered 2 listening alone listening-Mirrors destroy_run 1 0 2

all_run : run (acts ++ act_destroy 2 ∷ []) empty_store ≡ some alone
unfolding run perform create connect_to destroy forget add_subscription insert member
all_run = refl

no_dangling_callback_example : registered alone 1 0 2 ≡ none
no_dangling_callback_example = no_dangling_callback acts 2 alone all_run 1 0

abbrev orphan : Store
orphan = update listening 1 none

emitter_run : destroy 1 listening ≡ some orphan
unfolding destroy forget subscribe
emitter_run = refl

different : ◌≢◌ {A = ℕ} 1 2
different p = omega arith

destroy_emitter_first_example : destroy 2 orphan ≡ none
destroy_emitter_first_example =
    destroy_emitter_first 1 0 2 (handle 5) two listening orphan different connect_run emitter_run

abbrev idle : ℕ → Args → Store → Store
idle f args s = s

listed : registered listening 1 0 2 ≡ some (handle 5 ∷ [])
unfolding registered registered_in subscribe lookup put
listed = refl

emit_event_lem_example :
    (t' : Store) × (before : List Called) × (after : List Called) × (emit_event
        (store_of (λ s. s) idle)
        (traced idle)
        1
        0
        []
        (listening, [])
      ≡ some (t', before ++ (5, []) ∷ after))
emit_event_lem_example = emit_event_lem (λ s. s) idle 1 0 2 [] listening [] (handle 5 ∷ []) listed

emit_timeouts_lem_example :
    (t' : Store) × (on_read (store_of (λ s. s) idle) (traced idle) (some 2) 1 (listening, [])
      ≡ some
          (t', repeat 2 (map (called []) (callbacks_of 0 (subscribe 0 2 (handle 5) new_object)))))
emit_timeouts_lem_example =
    emit_timeouts_lem (λ s. s) idle 1 2 (subscribe 0 2 (handle 5) new_object) listening []
      (λ f args t. refl) refl

-- Function 5 is that of the timer at address 7; it adds one to a count.
abbrev count_up : Store × ℕ → Option (Store × ℕ)
count_up (s, n) = some (s, n + 1)

abbrev call_shot : ℕ → Args → Store × ℕ → Option (Store × ℕ)
call_shot f args p = shot 7 count_up p

single_shot-on_read_example :
    (s' : Store) × (single_shot 7 5 two ≡ some s')
    × (on_read (λ (p : Store × ℕ). p.0) call_shot (some 1) 7 (s', 0) ≡ some (two, 1))
single_shot-on_read_example = single_shot-on_read 7 5 two refl call_shot count_up (λ args p. refl) 0
