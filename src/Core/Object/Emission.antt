-- ===== src/Core/Object/Emission.antt =====
-- core/firmir-object.cpp: which callbacks `emitEvent` calls.
use mathlib.Core.Option.{some-injective, none-ne-some}
use mathlib.Core.List.{map-append}
use firmir.Base.{
  ap, ℕ, ◌≡◌, refl, sym, ◌∙◌, Option, none, some, List, [], ◌∷◌, ◌++◌, map, append_assoc,
  append-nil, ◌==◌, Bool-cases, inl, inr,
}
use firmir.Base.Assoc.{lookup}
use firmir.Core.Object.{
  Args, Callback, handle, handle_void, Handlers, Object, Store, all_callbacks, callbacks_of,
  call_all, emit_event,
}
use firmir.Core.Object.Table.{registered, registered_in, bind_some}

-- A call that was made: the function and what it was given.
abbrev pub Called : Type 0
Called = ℕ × Args

abbrev pub called : Args → Callback → Called
called args (handle f) = (f, args)
called args (handle_void f) = (f, [])

-- A program whose functions do `act`, with the calls that were made so far.
abbrev pub traced :
    {T : Type 0} → (ℕ → Args → T → T) → ℕ → Args → T × List Called → Option (T × List Called)
traced act f args (t, log) = some (act f args t, log ++ (f, args) ∷ [])

module _ {T : Type 0} (store : T → Store) (act : ℕ → Args → T → T) where
  abbrev pub store_of : T × List Called → Store
  store_of x = store x.0

  call_all_lem :
      (args : Args) (cs : List Callback) (t : T) (log : List Called)
      → (t' : T) × (call_all store_of (traced act) args cs (t, log)
          ≡ some (t', log ++ map (called args) cs))
  unfolding call_all
  call_all_lem args [] t log = (t, rw append-nil)
  call_all_lem args (handle f ∷ cs) t log =
      let (t', q) = call_all_lem args cs (act f args t) (log ++ (f, args) ∷ []) in
      (t', q ∙ rw (append_assoc log ((f, args) ∷ [])))
  call_all_lem args (handle_void f ∷ cs) t log =
      let (t', q) = call_all_lem args cs (act f [] t) (log ++ (f, []) ∷ []) in
      (t', q ∙ rw (append_assoc log ((f, []) ∷ [])))

-- The callbacks of a handler stand together among those of the event.
block :
    (h : ℕ) (hs : Handlers) (cs : List Callback)
    → lookup h hs ≡ some cs
    → (before : List Callback) × (after : List Callback) × (all_callbacks hs
        ≡ before ++ (cs ++ after))
unfolding lookup all_callbacks
block h [] cs q = absurd (none-ne-some cs q)
block h ((j, ds) ∷ hs) cs q = elim (Bool-cases (j == h)) [
  | inl y ↦ (
    [],
    all_callbacks hs,
    ap (λ (x : List Callback). x ++ all_callbacks hs) (some-injective _ _ (rw y at q)),
  )
  | inr n ↦
      let (before, after, e) = block h hs cs (rw n at q) in
      (ds ++ before, after, ap (◌++◌ ds) e ∙ sym (append_assoc ds before (cs ++ after)))
]

callbacks_block :
    (o : Option Object) (v h : ℕ) (cs : List Callback)
    → registered_in o v h ≡ some cs
    → (x : Object) × (before : List Callback) × (after : List Callback) × (o ≡ some x)
      × (callbacks_of v x ≡ before ++ (cs ++ after))
unfolding registered_in callbacks_of
callbacks_block none v h cs q = absurd (none-ne-some cs q)
callbacks_block (some o) v h cs q =
    let (hs, at_v, at_h) = bind_some (lookup v o.subscribers) (lookup h) q in
    let (before, after, e) = block h hs cs at_h in (o, before, after, refl, rw at_v e)

module _ {T : Type 0} (store : T → Store) (act : ℕ → Args → T → T) where
  -- Among the calls that an event makes, the callbacks that a handler has for it when it is emitted
  -- stand one after the other, in the order of their connection, with the arguments of the event or
  -- with none, as each of them wants; and the event does not fail, whatever the callbacks do in between,
  -- the destruction of the emitter included.
  pub emit_event_lem :
      (e v h : ℕ) (args : Args) (t : T) (log : List Called) (cs : List Callback)
      → registered (store t) e v h ≡ some cs
      → (t' : T) × (before : List Called) × (after : List Called) × (emit_event
            (store_of store act)
            (traced act)
            e
            v
            args
            (t, log)
          ≡ some (t', log ++ (before ++ (map (called args) cs ++ after))))
  unfolding emit_event registered
  emit_event_lem e v h args t log cs q =
      let (o, before, after, at_e, parts) = callbacks_block (store t e) v h cs q in
      let (t', run) = call_all_lem store act args (callbacks_of v o) t log in
      (
        t',
        map (called args) before,
        map (called args) after,
        rw at_e (
            run
            ∙ ap (λ (l : List Called). some (t', log ++ l))
                (ap (map (called args)) parts
                  ∙ rw (
                    map-append (called args) before (cs ++ after),
                    map-append (called args) cs after,
                  ))),
      )
