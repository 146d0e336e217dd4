-- ===== src/Core/Timer/SingleShot.antt =====
-- core/firmir-timer.cpp: the static `singleShot`, whose timer deletes itself.
use firmir.Base.{
  ap, ℕ, ◌≡◌, refl, sym, ◌∙◌, Option, none, some, [], ◌∷◌, ◌==◌, Bool-cases, inl, inr, eq→==,
}
use firmir.Base.Assoc.{lookup, put, insert, member}
use firmir.Core.Object.{
  Args, handle_void, new_object, Object, Store, update, ◌>>=◌, subscribe, add_subscription,
  connect_to, erase_handler, forget, destroy, all_callbacks, callbacks_of, call_all, emit_event,
}
use firmir.Core.Object.Table.{==-eq}
use firmir.Core.Object.Programs.{create}
use firmir.Core.Timer.Expiry.{timeout, emit_timeouts, on_read}

-- The new timer and its subscription to itself; `f` names the function below. What the call does to the
-- settings is `single_shot_timer`.
unfoldable pub single_shot : ℕ → ℕ → Store → Option Store
single_shot timer f s = create timer s >>= connect_to timer timeout timer (handle_void f)

-- `delete timer; callback();`, with the rest of the program's state.
unfoldable pub shot :
    {T : Type 0} → ℕ → (Store × T → Option (Store × T)) → Store × T → Option (Store × T)
shot timer callback (s, x) = destroy timer s >>= λ s'. callback (s', x)

bind-some_right : {A : Type 0} (o : Option A) → (o >>= some) ≡ o
bind-some_right none = refl
bind-some_right (some a) = refl

module _ (timer f : ℕ) (s : Store) (vacant : s timer ≡ none) where
  abbrev waiting : Object
  waiting = add_subscription timer (subscribe timeout timer (handle_void f) new_object)

  abbrev armed : Store
  armed =
      update
        (update (update s timer (some new_object)) timer
          (some (subscribe timeout timer (handle_void f) new_object)))
        timer (some waiting)

  created : create timer s ≡ some (update s timer (some new_object))
  unfolding create
  created = rw (vacant, create)

  connected :
      connect_to timer timeout timer (handle_void f) (update s timer (some new_object)) ≡ some armed
  unfolding connect_to
  connected = rw (eq→== timer timer refl)

  single_shot-armed : single_shot timer f s ≡ some armed
  unfolding single_shot
  single_shot-armed = rw (created, ◌>>=◌) connected

  ended : Store
  ended = update (update armed timer (some (erase_handler timer waiting))) timer none

  ended_at : (a : ℕ) → ended a ≡ s a
  unfolding ended
  ended_at a = elim (Bool-cases (timer == a)) [
    | inl y ↦ rw y (sym vacant ∙ ap s (==-eq timer a y))
    | inr n ↦ rw n
  ]

  restored : ended ≡ s
  restored i a = ended_at a i

  alive : armed timer ≡ some waiting
  alive = rw (eq→== timer timer refl)

  itself : waiting.subscriptions ≡ timer ∷ []
  unfolding add_subscription subscribe insert member
  itself = refl

  forgotten :
      forget timer (timer ∷ []) armed
      ≡ some (update armed timer (some (erase_handler timer waiting)))
  unfolding forget
  forgotten = ap (λ o. o >>= λ x. some (update armed timer (some (erase_handler timer x)))) alive

  destroy-armed : destroy timer armed ≡ some s
  unfolding destroy ended
  destroy-armed =
      ap (λ o. o >>= λ x. forget timer x.subscriptions armed >>= λ s'. some (update s' timer none))
        alive
      ∙ (ap (λ es. forget timer es armed >>= λ s'. some (update s' timer none)) itself
          ∙ (ap (λ o. o >>= λ s'. some (update s' timer none)) forgotten ∙ ap some restored))

  module _ {T : Type 0} (call : ℕ → Args → Store × T → Option (Store × T))
      (callback : Store × T → Option (Store × T))
      (names : (args : Args) (p : Store × T) → call f args p ≡ shot timer callback p) where
    abbrev store_of : Store × T → Store
    store_of p = p.0

    callbacks : callbacks_of timeout waiting ≡ handle_void f ∷ []
    unfolding callbacks_of add_subscription subscribe lookup put all_callbacks
    callbacks = refl

    fired : (x : T) → call f [] (armed, x) ≡ callback (s, x)
    unfolding shot
    fired x = names [] (armed, x) ∙ ap (λ o. o >>= λ s'. callback (s', x)) destroy-armed

    -- At the first expiry of the timer of `singleShot`, its callback is called once, with the timer
    -- destroyed already and the objects as they were before: whatever address the timer was given.
    pub single_shot-on_read :
        (x : T)
        → (s' : Store) × (single_shot timer f s ≡ some s')
          × (on_read store_of call (some 1) timer (s', x) ≡ callback (s, x))
    unfolding on_read emit_timeouts emit_event call_all
    single_shot-on_read x = (
      armed,
      single_shot-armed,
      ap (λ o. (o >>= λ w. call_all store_of call [] (callbacks_of timeout w) (armed, x)) >>= some)
            alive
          ∙ (ap (λ cs. call_all store_of call [] cs (armed, x) >>= some) callbacks
              ∙ (ap (λ o. (o >>= some) >>= some) (fired x)
                  ∙ (bind-some_right (callback (s, x) >>= some)
                      ∙ bind-some_right (callback (s, x))))),
    )
