-- ===== src/Core/Object.antt =====
-- core/firmir-object.cpp and core/include/firmir/object.h: objects that emit events and objects whose
-- callbacks are called for them. An object is named by its address, and the store has the objects that
-- are alive.
pub mod Table
pub mod Lifetime
pub mod Emission
pub mod Programs
pub mod Faults
use firmir.Base.{ℕ, Bool, Option, none, some, List, [], ◌∷◌, ◌++◌, ◌==◌, if◌then◌else◌}
use firmir.Base.Assoc.{lookup, put, erase, map_values, insert}
use firmir.Core.Types.{Variant}

-- `Args`
abbrev pub Args : Type 0
Args = List Variant

-- `UniversalCallback`: one that takes the arguments, or one that takes none. A function that a program
-- hands over is named by a number.
pub data Callback : Type 0 where
  handle handle_void : ℕ → Callback

-- `HandleCallbacks`, by handler and by event.
abbrev pub Handlers : Type 0
Handlers = List (ℕ × List Callback)

pub record Object : Type 0 where
  pub subscribers : List (ℕ × Handlers)
  pub subscriptions : List ℕ

abbrev pub new_object : Object
new_object = record { subscribers = []; subscriptions = [] }

abbrev pub Store : Type 0
Store = ℕ → Option Object

abbrev pub update : Store → ℕ → Option Object → Store
update s a o b = if a == b then o else s b

-- To read through a pointer to an object that is not alive is `none`.
infixl 5 ◌>>=◌
abbrev pub ◌>>=◌ {ℓ κ} : {A : Type ℓ} {B : Type κ} → Option A → (A → Option B) → Option B
none >>= f = none
some a >>= f = f a

abbrev pub or_empty {ℓ} : {A : Type ℓ} → Option (List A) → List A
or_empty none = []
or_empty (some l) = l

-- `m_subscribers[event][&handler].push_back(callback)`
unfoldable pub subscribe : ℕ → ℕ → Callback → Object → Object
subscribe event handler callback o =
    let handlers = or_empty (lookup event o.subscribers) in
    let callbacks = or_empty (lookup handler handlers) ++ callback ∷ [] in
    record o { subscribers = put event (put handler callbacks handlers) o.subscribers }

unfoldable pub add_subscription : ℕ → Object → Object
add_subscription emitter o = record o { subscriptions = insert emitter o.subscriptions }

unfoldable pub connect_to : ℕ → ℕ → ℕ → Callback → Store → Option Store
connect_to emitter event handler callback s = s emitter >>= λ o.
    let s' = update s emitter (some (subscribe event handler callback o)) in
    s' handler >>= λ p. some (update s' handler (some (add_subscription emitter p)))

-- `handlers.erase(this)`, for each event.
unfoldable pub erase_handler : ℕ → Object → Object
erase_handler handler o = record o { subscribers = map_values (erase handler) o.subscribers }

-- The loop of the destructor, over the objects that the handler has subscribed to.
unfoldable pub forget : ℕ → List ℕ → Store → Option Store
forget handler [] s = some s
forget handler (e ∷ es) s =
    s e >>= λ o. forget handler es (update s e (some (erase_handler handler o)))

-- `~Object`, and the end of the object.
unfoldable pub destroy : ℕ → Store → Option Store
destroy a s = s a >>= λ o. forget a o.subscriptions s >>= λ s'. some (update s' a none)

unfoldable pub all_callbacks : Handlers → List Callback
all_callbacks [] = []
all_callbacks ((h, cs) ∷ hs) = cs ++ all_callbacks hs

-- The callbacks of an event, copied before the first of them is called.
unfoldable pub callbacks_of : ℕ → Object → List Callback
callbacks_of event o = all_callbacks (or_empty (lookup event o.subscribers))

-- What a callback does is a program's own: a parameter, on a state that holds the store. One that takes
-- no arguments is called with none.
module _ {S : Type 0} (store : S → Store) (call : ℕ → Args → S → Option S) where
  abbrev pub call_back : Args → Callback → S → Option S
  call_back args (handle f) s = call f args s
  call_back args (handle_void f) s = call f [] s

  unfoldable pub call_all : Args → List Callback → S → Option S
  call_all args [] s = some s
  call_all args (c ∷ cs) s = call_back args c s >>= λ s'. call_all args cs s'

  unfoldable pub emit_event : ℕ → ℕ → Args → S → Option S
  emit_event emitter event args s = store s emitter >>= λ o. call_all args (callbacks_of event o) s
